-- ===== src/Clustering/Connected/Ids.antt =====
-- The numbers that the clusterer gives to the addresses.
use block_sci.Prelude.{
  ℕ, zero, suc, ◌+◌, ◌^◌, ◌<◌, ◌≡◌, refl, sym, ap, ◌∙◌, subst, ◌↔◌, List, [], ◌∷◌, map, some,
  length, concat, All, get_elem?, arith,
}
use block_sci.Chain.Types.{Address}
use block_sci.Clustering.{
  DisjointSets, Source, link_of, linked_pairs, unite_all, find_all, parents_of, get_clusters,
}
use block_sci.Clustering.Segments.{range}
use block_sci.Clustering.Segments.Cover.{segment_work-range, length-range, range_below}
use block_sci.Clustering.Remap.{cluster_ids}
use block_sci.Clustering.Remap.Numbering.{remap_cluster_ids_lem}
use block_sci.Clustering.Connected.{
  Connected, InRange, root, size-unite_all, sound, complete, created,
}

pub get_elem?-range : (a n i : ℕ) → i < n → get_elem? (range a n) i ≡ some (a + i)
get_elem?-range a zero i h = absurd (omega arith)
get_elem?-range a (suc n) zero h = ap some same
  where
    same : a ≡ a + 0
    same = omega arith
get_elem?-range a (suc n) (suc i) h = get_elem?-range (suc a) n i (omega arith) ∙ ap some same
  where
    same : suc a + i ≡ a + suc i
    same = omega arith

module _ (D : DisjointSets) where
  -- Finding does not change what is found.
  root-find_all : (is : List ℕ) (s : D.Sets) (j : ℕ) → root D j (find_all D is s).1 ≡ root D j s
  unfolding find_all
  root-find_all [] s j = refl
  root-find_all (i ∷ is) s j = root-find_all is (D.find i s).1 j ∙ D.find-find i j s

  length-find_all : (is : List ℕ) (s : D.Sets) → length (find_all D is s).0 ≡ length is
  unfolding find_all
  length-find_all [] s = refl
  length-find_all (i ∷ is) s = ap suc (length-find_all is (D.find i s).1)

  get_elem?-find_all :
      (is : List ℕ) (s : D.Sets) (k i : ℕ)
      → get_elem? is k ≡ some i
      → get_elem? (find_all D is s).0 k ≡ some (root D i s)
  unfolding find_all
  get_elem?-find_all [] s k i e = absurd (ground (arith, e))
  get_elem?-find_all (j ∷ is) s zero i e =
      let same : j ≡ i = ground (arith, e) in ap (λ x. some (root D x s)) same
  get_elem?-find_all (j ∷ is) s (suc k) i e =
      get_elem?-find_all is (D.find j s).1 k i e ∙ ap some (D.find-find j i s)

  find_all_below :
      (n : ℕ) (is : List ℕ) (s : D.Sets)
      → ((i : ℕ) → i < n → root D i s < n)
      → All (λ i. i < n) is
      → All (λ i. i < n) (find_all D is s).0
  unfolding find_all
  find_all_below n [] s h a = tt
  find_all_below n (i ∷ is) s h a = (
    h i a.0,
    find_all_below n is (D.find i s).1 (λ j l. subst (λ x. x < n) (sym (D.find-find i j s)) (h j l))
        a.1,
  )

  -- getClusters gives each index its root.
  get_clusters_lem :
      (c : Source) (total : ℕ) (pairs : List (Address × Address))
      → total < 2 ^ 32
      → linked_pairs c ≡ some pairs
      → (parents : List ℕ) × (get_clusters D c total ≡ some parents)
        × (length parents ≡ total)
        × (((i : ℕ)
              → i < total
              → root D i (unite_all D (map (link_of c) pairs) (D.create total)) < total)
            → All (λ p. p < total) parents)
        × ((i : ℕ)
            → i < total
            → get_elem? parents i
              ≡ some (root D i (unite_all D (map (link_of c) pairs) (D.create total))))
  unfolding get_clusters parents_of
  get_clusters_lem c total pairs b e =
      let s = unite_all D (map (link_of c) pairs) (D.create total) in
      let size : D.size s ≡ total =
        size-unite_all D (map (link_of c) pairs) (D.create total) ∙ D.size-create total in
      let (visits, f, _) = segment_work-range (D.size s) 8 (omega arith) (omega (arith, size)) in
      let after = (find_all D (concat visits) s).1 in
      let kept = root-find_all (concat visits) s in
      (
        (find_all D (range 0 total) after).0,
        ground (arith, e, f),
        length-find_all (range 0 total) after ∙ length-range 0 total,
        λ h.
            find_all_below total (range 0 total) after
              (λ i l. subst (λ x. x < total) (sym (kept i)) (h i l))
              (range_below total 0 total (omega arith)),
        λ i l.
            get_elem?-find_all (range 0 total) after i i
              (get_elem?-range 0 total i l ∙ ap some (omega arith))
            ∙ ap some (kept i),
      )

  -- If the pairs that getClusters links have indexes below the number of addresses, which is below
  -- 2 ^ 32, getClusters and remapClusterIds end and give each address a number below the count,
  -- and two addresses the same number exactly if a path of the links joins them.
  pub cluster_ids-Connected :
      (c : Source) (total : ℕ) (pairs : List (Address × Address))
      → total < 2 ^ 32
      → linked_pairs c ≡ some pairs
      → All (InRange total) (map (link_of c) pairs)
      → (ids : List ℕ) × (count : ℕ) × (cluster_ids D c total ≡ some (ids, count))
        × (length ids ≡ total)
        × ((i v : ℕ) → get_elem? ids i ≡ some v → v < count)
        × ((i j : ℕ)
            → i < total
            → j < total
            → (get_elem? ids i ≡ get_elem? ids j) ↔ Connected (map (link_of c) pairs) i j)
  unfolding cluster_ids
  cluster_ids-Connected c total pairs b e r =
      let links = map (link_of c) pairs in
      let s = unite_all D links (D.create total) in
      let created_size = D.size-create total in
      let size : D.size s ≡ total = size-unite_all D links (D.create total) ∙ created_size in
      let r' : All (InRange (D.size (D.create total))) links = rw created_size r in
      let (parents, f, n, below, at) = get_clusters_lem c total pairs b e in
      let bounded = below λ i l. subst (λ x. root D i s < x) size (D.find_bound i s (rw size l)) in
      let (ids, count, g, n', same, numbers, _) =
        remap_cluster_ids_lem parents (rw n bounded) (omega (arith, n)) in
      (
        ids,
        count,
        ground (arith, f, g),
        n' ∙ n,
        numbers,
        λ i j hi hj.
            let equal = same i j (root D i s) (root D j s) (at i hi) (at j hj) in
            (
              λ q. created D total links i j (
                  complete D links (D.create total) i j r' (rw created_size hi) (rw created_size hj)
                    (equal.0 q)),
              λ q. equal.1 (sound D links (D.create total) i j r' q),
            ),
      )
