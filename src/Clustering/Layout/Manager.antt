-- ===== src/Clustering/Layout/Manager.antt =====
-- What ClusterManager reads from the files: of each cluster its scripts, in the order of their
-- indexes.
use block_sci.Prelude.{
  ℕ, zero, suc, ◌+◌, ◌-◌, ◌%◌, ◌^◌, ◌≤◌, ◌<◌, ◌≡◌, refl, sym, ap, ◌∙◌, List, [], Option, some,
  length, lt→ltb, All, get_elem?, take, drop, replicate, length-replicate, get_elem?-take,
  get_elem?-drop, All-get_elem?, arith,
}
use block_sci.Clustering.Layout.{
  DedupAddress, record_ordered_addresses, record_clusters, cluster_count, get_cluster_size,
  get_cluster_scripts, offset_before, blank_address,
}
use block_sci.Clustering.Layout.Counts.{
  occurrences, below, below-suc, below_zero, below-le-length, occurrences-take,
}
use block_sci.Clustering.Layout.Offsets.{positions_lem}
use block_sci.Clustering.Layout.Slices.{Placed, place_all-Placed}

module _ (a : ℕ → DedupAddress) (ids : List ℕ) (count : ℕ) where
  -- Before the first script every position is its cluster's start.
  Placed-start :
      (positions : List ℕ) (ordered : List DedupAddress)
      → length positions ≡ count + 1
      → ((c : ℕ) → c ≤ count → get_elem? positions c ≡ some (below c ids))
      → length ordered ≡ length ids
      → Placed a ids count [] positions ordered
  Placed-start positions ordered n starts m = record {
    next = λ c l. starts c (omega arith) ∙ ap some (omega arith);
    held = λ k c e. absurd (ground (arith, e));
    size = m;
    count_size = n;
  }

  -- After the last, the position of a cluster is its end.
  offsets_end :
      (offsets : List ℕ) (ordered : List DedupAddress) (c : ℕ)
      → Placed a ids count ids offsets ordered
      → c < count
      → (get_elem? offsets c ≡ some (below c ids + occurrences c ids))
        × (offset_before offsets c ≡ some (below c ids))
  offsets_end offsets ordered zero p h = (p.next zero h, ap some (sym (below_zero ids)))
  offsets_end offsets ordered (suc c) p h =
      (p.next (suc c) h, p.next c (omega arith) ∙ ap some (sym (below-suc c ids)))

  cluster_size :
      (c : ℕ)
      → length ids < 2 ^ 32
      → (below c ids + occurrences c ids + 2 ^ 32 - below c ids) % 2 ^ 32 ≡ occurrences c ids
  cluster_size c b = omega (arith, below-suc c ids, below-le-length (suc c) ids)

  -- For cluster numbers below the count, fewer than 2 ^ 32 of them, a count below 2 ^ 32 - 1, and
  -- addresses that are found, main writes both files, and ClusterManager reads from them for each
  -- cluster its number of scripts, and the script of each index in its cluster, behind those of
  -- smaller indexes. The number of clusters that it reads is the count plus one.
  pub record_clusters_lem :
      (at : ℕ → Option DedupAddress)
      → ((k : ℕ) → k < length ids → at k ≡ some (a k))
      → All (λ id. id < count) ids
      → length ids < 2 ^ 32
      → count + 1 < 2 ^ 32
      → (offsets : List ℕ) × (ordered : List DedupAddress) × (record_clusters at ids count
          ≡ some (offsets, ordered))
        × (cluster_count offsets ≡ count + 1)
        × ((c : ℕ) → c < count → get_cluster_size offsets c ≡ some (occurrences c ids))
        × ((k c : ℕ)
            → get_elem? ids k ≡ some c
            → (scripts : List DedupAddress) × (get_cluster_scripts offsets ordered c ≡ some scripts)
              × (get_elem? scripts (occurrences c (take k ids)) ≡ some (a k)))
  unfolding record_clusters cluster_count record_ordered_addresses get_cluster_size
      get_cluster_scripts
  record_clusters_lem at found h b w =
      let whole : (count + 1) % 2 ^ 32 ≡ count + 1 = omega (arith, w) in
      let (counted, e, n, starts) = positions_lem ids count h b in
      let (offsets, ordered, f, p) = place_all-Placed a ids count at found b ids [] _ _ refl h (
        Placed-start _ (replicate (length ids) blank_address) n starts
          (length-replicate (length ids) blank_address)) in
      (
        offsets,
        ordered,
        rw (record_clusters, whole) ground (arith, e, f),
        ap (λ n. n % 2 ^ 32) p.count_size ∙ whole,
        λ c l.
            let (end, start) = offsets_end offsets ordered c p l in
            ground (arith, end, start, cluster_size c b),
        λ k c g.
            let l = All-get_elem? (λ id. id < count) ids k c h g in
            let (end, start) = offsets_end offsets ordered c p l in
            let there : below c ids < length ordered = omega (
              arith,
              occurrences-take c k ids g,
              below-suc c ids,
              below-le-length (suc c) ids,
              p.size,
            ) in
            let inside = lt→ltb (below c ids) (length ordered) there in
            (
              take (occurrences c ids) (drop (below c ids) ordered),
              ground (arith, end, start, cluster_size c b, inside),
              get_elem?-take (occurrences c ids) (occurrences c (take k ids))
                    (drop (below c ids) ordered) (occurrences-take c k ids g)
                  ∙ get_elem?-drop (below c ids) (occurrences c (take k ids)) ordered
                  ∙ ap (get_elem? ordered) (omega arith)
                  ∙ p.held k c g,
            ),
      )
