-- ===== src/Clustering/Layout.antt =====
-- The files that the clusterer writes and ClusterManager reads: main and recordOrderedAddresses of
-- src/clustering/src/clusterer/main.cpp, and src/clustering/src/libcluster/cluster_manager.cpp.
pub mod Counts
pub mod Offsets
pub mod Slices
pub mod Manager
use block_sci.Prelude.{
  ℕ, zero, suc, ◌+◌, ◌-◌, ◌%◌, ◌^◌, Bool, List, [], ◌∷◌, Option, none, some, ltb, leb, ◌==◌,
  if◌then◌else◌, length, get_elem?, set, take, drop, replicate,
}
use block_sci.Chain.Types.{
  DedupAddressType, dedup_nonstandard, dedup_pubkey, dedup_scripthash, dedup_multisig,
  dedup_null_data,
}

pub record DedupAddress : Type 0 where
  pub script_num : ℕ
  pub type : DedupAddressType

-- `clusterPositions[k]++`; `none` is out of range, here and below.
abbrev pub bump : ℕ → List ℕ → Option (List ℕ)
bump k positions = elim (get_elem? positions k) [
  | none ↦ none
  | some n ↦ some (set k ((n + 1) % 2 ^ 32) positions)
]

-- The loop that counts the members of each cluster, one place up.
unfoldable pub count_members : List ℕ → List ℕ → Option (List ℕ)
count_members [] positions = some positions
count_members (id ∷ ids) positions = elim (bump (id + 1) positions) [
  | none ↦ none
  | some next ↦ count_members ids next
]

abbrev pub sum_from : ℕ → List ℕ → List ℕ
sum_from previous [] = []
sum_from previous (n ∷ ns) = (n + previous) % 2 ^ 32 ∷ sum_from ((n + previous) % 2 ^ 32) ns

-- The loop that adds each position to the next.
unfoldable pub sum_positions : List ℕ → List ℕ
sum_positions [] = []
sum_positions (n ∷ ns) = n ∷ sum_from n ns

abbrev pub dedup_code : DedupAddressType → ℕ
dedup_code dedup_nonstandard = 0
dedup_code dedup_pubkey = 1
dedup_code dedup_scripthash = 2
dedup_code dedup_multisig = 3
dedup_code dedup_null_data = 4

abbrev pub all_types : List DedupAddressType
all_types =
    dedup_nonstandard ∷ dedup_pubkey ∷ dedup_scripthash ∷ dedup_multisig ∷ dedup_null_data ∷ []

-- The scripts of the types before one, in main.
unfoldable pub script_start : (DedupAddressType → ℕ) → List DedupAddressType → DedupAddressType → ℕ
script_start script_count [] type = 0
script_start script_count (t ∷ types) type =
    let later = script_start script_count types type in
    if dedup_code t == dedup_code type then 0 else (script_count t + later) % 2 ^ 32

-- `typeIndexes[start] = type` on a std::map.
unfoldable pub put_type :
    ℕ → DedupAddressType → List (ℕ × DedupAddressType) → List (ℕ × DedupAddressType)
put_type start type [] = (start, type) ∷ []
put_type start type ((s, t) ∷ types) =
    let later = put_type start type types in
    if ltb start s
    then (start, type) ∷ (s, t) ∷ types
    else if s == start
    then (start, type) ∷ types
    else (s, t) ∷ later

unfoldable pub type_indexes :
    List (ℕ × DedupAddressType) → List (ℕ × DedupAddressType) → List (ℕ × DedupAddressType)
unfolding put_type
type_indexes [] types = types
type_indexes ((start, type) ∷ starts) types = type_indexes starts (put_type start type types)

-- The element before upper_bound.
unfoldable pub last_at_most : ℕ → List (ℕ × DedupAddressType) → Option (ℕ × DedupAddressType)
last_at_most i [] = none
last_at_most i ((start, type) ∷ types) =
    let later = last_at_most i types in
    if ltb i start then none else elim later [ none ↦ some (start, type) | some e ↦ some e ]

unfoldable pub address_at : List (ℕ × DedupAddressType) → ℕ → Option DedupAddress
unfolding last_at_most
address_at types i = elim (last_at_most i types) [
  | none ↦ none
  | some (start, type) ↦ some (record { script_num = (i - start + 1) % 2 ^ 32; type = type })
]

-- One round of the loop of recordOrderedAddresses: the script of index `i` goes to its cluster's
-- next position.
unfoldable pub place_one :
    Option DedupAddress → ℕ → List ℕ → List DedupAddress → Option (List ℕ × List DedupAddress)
place_one none id positions ordered = none
place_one (some a) id positions ordered = elim (get_elem? positions id) [
  | none ↦ none
  | some j ↦
      if ltb j (length ordered)
      then some (set id ((j + 1) % 2 ^ 32) positions, set j a ordered)
      else none
]

unfoldable pub place_all :
    (ℕ → Option DedupAddress)
    → List ℕ
    → ℕ
    → List ℕ
    → List DedupAddress
    → Option (List ℕ × List DedupAddress)
unfolding place_one
place_all at [] i positions ordered = some (positions, ordered)
place_all at (id ∷ ids) i positions ordered = elim (place_one (at i) id positions ordered) [
  | none ↦ none
  | some (positions1, ordered1) ↦ place_all at ids (suc i) positions1 ordered1
]

-- A DedupAddress that is not yet written.
abbrev pub blank_address : DedupAddress
blank_address = record { script_num = 0; type = dedup_nonstandard }

unfoldable pub record_ordered_addresses :
    (ℕ → Option DedupAddress) → List ℕ → List ℕ → Option (List ℕ × List DedupAddress)
unfolding place_all
record_ordered_addresses at ids positions =
    place_all at ids 0 positions (replicate (length ids) blank_address)

-- The part of main after remapClusterIds: the words of clusterOffsets and of clusterAddresses.
unfoldable pub record_clusters :
    (ℕ → Option DedupAddress) → List ℕ → ℕ → Option (List ℕ × List DedupAddress)
unfolding count_members sum_positions record_ordered_addresses
record_clusters at ids count = elim (count_members ids (replicate ((count + 1) % 2 ^ 32) 0)) [
  | none ↦ none
  | some positions ↦ record_ordered_addresses at ids (sum_positions positions)
]

-- ClusterManager, on the words of the files.
unfoldable pub cluster_count : List ℕ → ℕ
cluster_count offsets = length offsets % 2 ^ 32

-- The offset of the cluster before, 0 for the first.
abbrev pub offset_before : List ℕ → ℕ → Option ℕ
offset_before offsets zero = some 0
offset_before offsets (suc c) = get_elem? offsets c

unfoldable pub get_cluster_size : List ℕ → ℕ → Option ℕ
get_cluster_size offsets c = elim (get_elem? offsets c) [
  | none ↦ none
  | some end ↦ elim (offset_before offsets c) [
    | none ↦ none
    | some start ↦ some ((end + 2 ^ 32 - start) % 2 ^ 32)
  ]
]

-- getData asserts that there is a script at the start.
unfoldable pub get_cluster_scripts : List ℕ → List DedupAddress → ℕ → Option (List DedupAddress)
get_cluster_scripts offsets ordered c = elim (get_elem? offsets c) [
  | none ↦ none
  | some end ↦ elim (offset_before offsets c) [
    | none ↦ none
    | some start ↦
        if ltb start (length ordered)
        then some (take ((end + 2 ^ 32 - start) % 2 ^ 32) (drop start ordered))
        else none
  ]
]
