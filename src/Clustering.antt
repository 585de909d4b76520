-- ===== src/Clustering.antt =====
-- The clusterer (src/clustering/src/clusterer/main.cpp): which addresses it links, and the sets that
-- they form. DisjointSets is the submodule libs/dset, a parameter with its laws.
pub mod Segments
pub mod Connected
pub mod Remap
pub mod Layout
pub mod Walk
use block_sci.Prelude.{
  ℕ, zero, suc, ◌+◌, ◌-◌, ◌%◌, ◌^◌, ◌≤◌, ◌<◌, ◌≡◌, ◌↔◌, ◌⊎◌, Bool, true, false, not, ◌&&◌, List, [],
  ◌∷◌, ◌++◌, map, Option, none, some, if◌then◌else◌, length, take, drop, concat,
}
use block_sci.Chain.Types.{
  AddressType, scripthash, DedupAddressType, dedup_type, Address, InoutData, Transaction,
  DataAccess, Output, is_coinbase,
}
use block_sci.Heuristics.CoinJoin.{is_coinjoin}
use block_sci.Heuristics.Legacy.{unique_change_by_legacy_heuristic}
use block_sci.Clustering.Segments.{range, segment_work}
use block_sci.Chain.MapReduce.{Block, segments, out_of_range, endless, segment_chain}

-- What the clusterer uses of the disjoint sets. `find` may shorten paths.
pub record DisjointSets : Type 1 where
  pub Sets : Type 0
  pub create : ℕ → Sets
  pub size : Sets → ℕ
  pub unite : ℕ → ℕ → Sets → Sets
  pub find : ℕ → Sets → ℕ × Sets
  pub size-create : (n : ℕ) → size (create n) ≡ n
  pub size-unite : (a b : ℕ) (s : Sets) → size (unite a b s) ≡ size s
  pub find-create : (i n : ℕ) → i < n → (find i (create n)).0 ≡ i
  pub find_bound : (i : ℕ) (s : Sets) → i < size s → (find i s).0 < size s
  pub find-find : (i j : ℕ) (s : Sets) → (find j (find i s).1).0 ≡ (find j s).0
  pub find-unite :
      (a b i j : ℕ) (s : Sets)
      → a < size s
      → b < size s
      → i < size s
      → j < size s
      → ((find i (unite a b s)).0 ≡ (find j (unite a b s)).0) ↔ (
          ((find i s).0 ≡ (find j s).0)
          ⊎ (((find i s).0 ≡ (find a s).0) × ((find j s).0 ≡ (find b s).0))
          ⊎ (((find i s).0 ≡ (find b s).0) × ((find j s).0 ≡ (find a s).0)))

-- The pairs of the first input's address with each other one, and with the change address.
abbrev pub pair_inputs : Address → List InoutData → List (Address × Address)
pair_inputs first [] = []
pair_inputs first (i ∷ is) = (first, i.address) ∷ pair_inputs first is

abbrev pub pair_change : Address → Option Output → List (Address × Address)
pair_change first none = []
pair_change first (some change) = (change.address, first) ∷ []

-- The pairs of a transaction that is no coinjoin; one without inputs is a coinbase.
abbrev pub pairs_of : List InoutData → Option Output → List (Address × Address)
pairs_of [] change = []
pairs_of (first ∷ inputs) change =
    pair_inputs first.address inputs ++ pair_change first.address change

-- What getClusters reads of the chain, with the order in which its maps are walked, and the number
-- of threads of the hardware.
pub record Source : Type 0 where
  pub access : DataAccess
  pub order : List (ℕ × ℕ) → List (ℕ × ℕ)
  pub blocks : List (List Transaction)
  pub script_hash_count : ℕ
  pub wrapped_address : ℕ → Option Address
  pub starts : DedupAddressType → ℕ
  pub threads : ℕ

unfoldable pub process_transaction : Source → Transaction → List (Address × Address)
process_transaction c tx =
    if not (is_coinjoin c.order c.access tx) && not (is_coinbase tx)
    then pairs_of tx.inputs (unique_change_by_legacy_heuristic c.order c.access tx)
    else []

-- The index of an address among all of them, in link_addresses.
unfoldable pub address_index : Source → Address → ℕ
address_index c a = ((c.starts (dedup_type a.type) + a.script_num) % 2 ^ 32 + 2 ^ 32 - 1) % 2 ^ 32

abbrev pub link_of : Source → Address × Address → ℕ × ℕ
link_of c (a, b) = (address_index c a, address_index c b)

-- The job on a script hash.
abbrev pub wrapped_pair : Source → ℕ → List (Address × Address)
wrapped_pair c index = elim (c.wrapped_address index) [
  | none ↦ []
  | some wrapped ↦ (record { script_num = index; type = scripthash }, wrapped) ∷ []
]

-- The blocks of the chain, as segmentChain reads them.
abbrev pub number_blocks : ℕ → List (List Transaction) → List Block
number_blocks first [] = []
number_blocks first (txs ∷ blocks) =
    record { first_tx_index = first; tx_count = length txs }
    ∷ number_blocks ((first + length txs) % 2 ^ 32) blocks

abbrev pub first_of : List Block → Option Block
first_of [] = none
first_of (b ∷ bs) = some b

abbrev pub transactions_in : List Transaction → Block → List Transaction
transactions_in txs b = take b.tx_count (drop b.first_tx_index txs)

-- The transactions that chain.mapReduce calls extract on, segment by segment. Nothing is left of a
-- chain of ten blocks or fewer, for which segmentChain reads a block before the first.
unfoldable pub walk_chain : Source → Option (List Transaction)
unfolding segment_chain
walk_chain c =
    let end_block = length c.blocks - 10 in
    let blocks = number_blocks 0 c.blocks in
    elim (segment_chain (take end_block blocks) (first_of (drop end_block blocks)) c.threads) [
      | segments ss ↦ some (concat (map (transactions_in (concat c.blocks)) (concat ss)))
      | out_of_range ↦ none
      | endless ↦ none
    ]

-- The addresses that are linked: by script hashes, then by transactions up to ten blocks from the
-- end. The threads may take them in another order. `none` is an index out of range, or a loop without
-- end.
unfoldable pub linked_pairs : Source → Option (List (Address × Address))
unfolding segment_work process_transaction walk_chain
linked_pairs c = elim (segment_work 1 ((c.script_hash_count + 1) % 2 ^ 32) 8) [
  | none ↦ none
  | some visits ↦ elim (walk_chain c) [
    | none ↦ none
    | some txs ↦
        some (
          concat (map (wrapped_pair c) (concat visits)) ++ concat (map (process_transaction c) txs))
  ]
]

module _ (D : DisjointSets) where
  unfoldable pub unite_all : List (ℕ × ℕ) → D.Sets → D.Sets
  unite_all [] s = s
  unite_all ((a, b) ∷ links) s = unite_all links (D.unite a b s)

  -- A call of find on each index.
  unfoldable pub find_all : List ℕ → D.Sets → List ℕ × D.Sets
  find_all [] s = ([], s)
  find_all (i ∷ is) s =
      let (parent, s1) = D.find i s in let (parents, s2) = find_all is s1 in (parent ∷ parents, s2)

  -- resolveAll, then the loop that pushes the parents.
  unfoldable pub parents_of : D.Sets → ℕ → Option (List ℕ)
  unfolding find_all segment_work
  parents_of s total = elim (segment_work 0 (D.size s) 8) [
    | none ↦ none
    | some visits ↦ some (find_all (range 0 total) (find_all (concat visits) s).1).0
  ]

  unfoldable pub get_clusters : Source → ℕ → Option (List ℕ)
  unfolding unite_all parents_of linked_pairs
  get_clusters c total = elim (linked_pairs c) [
    | none ↦ none
    | some pairs ↦ parents_of (unite_all (map (link_of c) pairs) (D.create total)) total
  ]
