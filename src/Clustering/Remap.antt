-- ===== src/Clustering/Remap.antt =====
-- remapClusterIds (src/clustering/src/clusterer/main.cpp): the parents become numbers 0, 1, 2, ….
pub mod Numbering
use block_sci.Prelude.{
  ℕ, ◌+◌, ◌-◌, ◌%◌, ◌^◌, Bool, List, [], ◌∷◌, Option, none, some, ◌==◌, if◌then◌else◌, length,
  get_elem?, set, replicate,
}
use block_sci.Clustering.{DisjointSets, Source, get_clusters}

abbrev pub placeholder : ℕ
placeholder = 2 ^ 32 - 1

abbrev pub push_id : ℕ → Option (List ℕ × ℕ) → Option (List ℕ × ℕ)
push_id id none = none
push_id id (some (ids, count)) = some (id ∷ ids, count)

-- The loop, with newClusterIds and clusterCount; `none` is a parent out of range.
unfoldable pub remap_from : List ℕ → List ℕ → ℕ → Option (List ℕ × ℕ)
remap_from [] ids count = some ([], count)
remap_from (parent ∷ parents) ids count = elim (get_elem? ids parent) [
  | none ↦ none
  | some old ↦
      let is_new = old == placeholder in
      let id = if is_new then count else old in
      push_id id
        (remap_from parents (set parent id ids) (if is_new then (count + 1) % 2 ^ 32 else count))
]

unfoldable pub remap_cluster_ids : List ℕ → Option (List ℕ × ℕ)
unfolding remap_from
remap_cluster_ids parents = remap_from parents (replicate (length parents) placeholder) 0

-- Clusters of a chain, as main numbers them.
module _ (D : DisjointSets) where
  unfoldable pub cluster_ids : Source → ℕ → Option (List ℕ × ℕ)
  cluster_ids c total = elim (get_clusters D c total) [
    | none ↦ none
    | some parents ↦ remap_cluster_ids parents
  ]
