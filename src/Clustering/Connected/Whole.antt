-- ===== src/Clustering/Connected/Whole.antt =====
-- The clusterer from the chain to the numbers of the clusters, for a chain on which its loops end.
use block_sci.Chain.Types.{Address, Transaction}
use block_sci.Clustering.{
  DisjointSets, Source, link_of, wrapped_pair, process_transaction, linked_pairs,
}
use block_sci.Clustering.Connected.{Connected, InRange}
use block_sci.Clustering.Connected.Ids.{cluster_ids-Connected}
use block_sci.Clustering.Remap.{cluster_ids}
use block_sci.Clustering.Segments.Cover.{segment_work_misses}
use block_sci.Clustering.Walk.{walk_chain_lem}
use block_sci.Prelude.{
  ℕ, ◌+◌, ◌-◌, ◌/◌, ◌%◌, ◌^◌, ◌≤◌, ◌<◌, ◌≡◌, refl, subst, ◌↔◌, List, [], ◌∷◌, ◌++◌, map, some,
  length, concat, All, get_elem?, arith,
}

-- The links of pairs are in range where they are of each part.
InRange-append :
    (c : Source) (total : ℕ) (xs ys : List (Address × Address))
    → All (InRange total) (map (link_of c) xs)
    → All (InRange total) (map (link_of c) ys)
    → All (InRange total) (map (link_of c) (xs ++ ys))
InRange-append c total [] ys a b = b
InRange-append c total (x ∷ xs) ys (h, a) b = (h, InRange-append c total xs ys a b)

wrapped-InRange :
    (c : Source) (total bound : ℕ) (is : List ℕ)
    → ((i : ℕ) → i < bound → All (InRange total) (map (link_of c) (wrapped_pair c i)))
    → All (λ i. i < bound) is
    → All (InRange total) (map (link_of c) (concat (map (wrapped_pair c) is)))
wrapped-InRange c total bound [] h a = tt
wrapped-InRange c total bound (i ∷ is) h (l, a) =
    InRange-append c total (wrapped_pair c i) (concat (map (wrapped_pair c) is)) (h i l)
      (wrapped-InRange c total bound is h a)

module _ (D : DisjointSets) where
  -- On a chain of ten blocks behind others, none of these empty, with fewer than 2 ^ 32
  -- transactions, at least as many in those others as threads, and from 8 to 2 ^ 32 - 2 script
  -- hashes: if the links have indexes below the number of addresses, which is below 2 ^ 32, the
  -- pairs are found, and getClusters and remapClusterIds end and give each address a number below
  -- the count, and two addresses the same number exactly if a path of the links joins them.
  pub cluster_ids-whole :
      (c : Source) (total : ℕ) (t u : List Transaction) (ts us : List (List Transaction))
      → c.blocks ≡ (t ∷ ts) ++ (u ∷ us)
      → length us ≡ 9
      → All (λ (txs : List Transaction). 0 < length txs) (t ∷ ts)
      → length (concat c.blocks) < 2 ^ 32
      → 1 ≤ length (concat (t ∷ ts)) / c.threads
      → 8 ≤ c.script_hash_count
      → c.script_hash_count + 1 < 2 ^ 32
      → total < 2 ^ 32
      → ((i : ℕ)
          → i < c.script_hash_count
          → All (InRange total) (map (link_of c) (wrapped_pair c i)))
      → All
          (InRange total)
          (map (link_of c) (concat (map (process_transaction c) (concat (t ∷ ts)))))
      → (pairs : List (Address × Address)) × (ids : List ℕ) × (count : ℕ) × (linked_pairs c
          ≡ some pairs)
        × (cluster_ids D c total ≡ some (ids, count))
        × (length ids ≡ total)
        × ((i v : ℕ) → get_elem? ids i ≡ some v → v < count)
        × ((i j : ℕ)
            → i < total
            → j < total
            → (get_elem? ids i ≡ get_elem? ids j) ↔ Connected (map (link_of c) pairs) i j)
  unfolding linked_pairs
  cluster_ids-whole c total t u ts us e ten full small step many hashes few wrapped linked =
      let from_scripts : (c.script_hash_count + 1) % 2 ^ 32 ≡ c.script_hash_count + 1 =
        omega (arith, hashes) in
      let (ws, works, _, below) =
        segment_work_misses 1 ((c.script_hash_count + 1) % 2 ^ 32) 8 (omega arith)
          (omega (arith, from_scripts, many)) (omega (arith, from_scripts, hashes))
          (omega (arith, from_scripts, many)) in
      let bound : (c.script_hash_count + 1) % 2 ^ 32 - 1 ≡ c.script_hash_count =
        omega (arith, from_scripts) in
      let walked = walk_chain_lem c t u ts us e ten full small step in
      let txs = concat (t ∷ ts) in
      let pairs : List (Address × Address) =
        concat (map (wrapped_pair c) (concat ws)) ++ concat (map (process_transaction c) txs) in
      let found : linked_pairs c ≡ some pairs = rw (linked_pairs, works, walked) refl in
      let in_range : All (InRange total) (map (link_of c) pairs) =
        InRange-append c total (concat (map (wrapped_pair c) (concat ws)))
          (concat (map (process_transaction c) txs))
          (wrapped-InRange c total c.script_hash_count (concat ws) wrapped
            (subst (λ n. All (λ i. i < n) (concat ws)) bound below))
          linked in
      let (ids, count, done, size, numbers, joined) =
        cluster_ids-Connected D c total pairs few found in_range in
      (pairs, ids, count, found, done, size, numbers, joined)
