-- ===== src/Tests/Clustering.antt =====
-- The clusterer on five addresses.
use block_sci.Prelude.{
  ℕ, ◌+◌, ◌-◌, ◌*◌, ◌<◌, ◌≡◌, refl, ◌↔◌, List, [], ◌∷◌, map, some, length, concat, All, get_elem?,
  take, arith,
}
use block_sci.Chain.Types.{
  pubkeyhash, scripthash, dedup_nonstandard, dedup_pubkey, dedup_scripthash, dedup_multisig,
  dedup_null_data, Address, InoutData, Transaction, outputs,
}
use block_sci.Clustering.{
  Source, linked_pairs, walk_chain, link_of, process_transaction, address_index,
}
use block_sci.Clustering.Segments.{range, segment_work}
use block_sci.Clustering.Segments.Cover.{segment_work-range, segment_work_misses}
use block_sci.Clustering.Remap.{cluster_ids}
use block_sci.Clustering.Connected.{Connected}
use block_sci.Clustering.Connected.Whole.{cluster_ids-whole}
use block_sci.Clustering.Layout.{
  DedupAddress, type_indexes, address_at, record_clusters, cluster_count, get_cluster_size,
  get_cluster_scripts,
}
use block_sci.Clustering.Layout.Counts.{occurrences}
use block_sci.Clustering.Layout.Manager.{record_clusters_lem}
use block_sci.Chain.MapReduce.{
  segment_chain, segment_loop, at_iterator, lower_bound, add_rest, join_last, txs_from,
}
use block_sci.Heuristics.CoinJoin.{is_coinjoin}
use block_sci.Heuristics.Legacy.{unique_change_by_legacy_heuristic}
use block_sci.Tests.Sets.{label_sets}

abbrev key : ℕ → Address
key n = record { script_num = n; type = pubkeyhash }

abbrev input : ℕ → InoutData
input n = record { linked_tx_num = 1; address = key n; value = 500 }

abbrev tx : Transaction
tx = record { tx_num = 9; locktime = 0; inputs = input 1 ∷ input 2 ∷ []; raw_outputs = [] }

abbrev mined : Transaction
mined = record { tx_num = 10; locktime = 0; inputs = []; raw_outputs = [] }

-- Four keys and a script hash that wraps the third of them.
abbrev chain : Source
chain = record {
  access = record { max_loaded_tx = 30; get_tx = λ n. tx; first_tx_index = λ a. 20 };
  order = λ l. l;
  blocks =
      (tx ∷ []) ∷ (mined ∷ []) ∷ (mined ∷ []) ∷ [] ∷ [] ∷ [] ∷ [] ∷ [] ∷ [] ∷ [] ∷ [] ∷ [] ∷ [];
  threads = 2;
  script_hash_count = 1;
  wrapped_address = λ n. some (key 3);
  starts = λ t. elim t [
    | dedup_nonstandard ↦ 0
    | dedup_pubkey ↦ 0
    | dedup_scripthash ↦ 4
    | dedup_multisig ↦ 5
    | dedup_null_data ↦ 5
  ];
}

abbrev pairs : List (Address × Address)
pairs = (record { script_num = 1; type = scripthash }, key 3) ∷ (key 1, key 2) ∷ []

found_pairs : linked_pairs chain ≡ some pairs
unfolding linked_pairs walk_chain segment_chain segment_loop at_iterator lower_bound add_rest
    join_last txs_from segment_work process_transaction is_coinjoin
    unique_change_by_legacy_heuristic outputs
found_pairs = refl

segment_work-range_example :
    (ws : List (List ℕ)) × (segment_work 0 20 8 ≡ some ws) × (concat ws ≡ range 0 20)
segment_work-range_example = segment_work-range 20 8 (omega arith) (omega arith)

segment_work_misses_example :
    (ws : List (List ℕ)) × (segment_work 1 21 8 ≡ some ws)
    × (length (concat ws) + 8 * 1 ≡ 21 - 1)
    × All (λ i. i < 21 - 1) (concat ws)
segment_work_misses_example =
    segment_work_misses 1 21 8 (omega arith) (omega arith) (omega arith) (omega arith)

-- The same with eight script hashes, for twelve addresses.
abbrev wide : Source
wide = record chain {
  script_hash_count = 8;
  starts = λ t. elim t [
    | dedup_nonstandard ↦ 0
    | dedup_pubkey ↦ 0
    | dedup_scripthash ↦ 4
    | dedup_multisig ↦ 12
    | dedup_null_data ↦ 12
  ];
}

cluster_ids-whole_example :
    (pairs : List (Address × Address)) × (ids : List ℕ) × (count : ℕ) × (linked_pairs wide
      ≡ some pairs)
    × (cluster_ids label_sets wide 12 ≡ some (ids, count))
    × (length ids ≡ 12)
    × ((i v : ℕ) → get_elem? ids i ≡ some v → v < count)
    × ((i j : ℕ)
        → i < 12
        → j < 12
        → (get_elem? ids i ≡ get_elem? ids j) ↔ Connected (map (link_of wide) pairs) i j)
unfolding address_index process_transaction is_coinjoin unique_change_by_legacy_heuristic outputs
cluster_ids-whole_example =
    cluster_ids-whole label_sets wide 12 (tx ∷ []) (mined ∷ []) ((mined ∷ []) ∷ [])
      ([] ∷ [] ∷ [] ∷ [] ∷ [] ∷ [] ∷ [] ∷ [] ∷ [] ∷ []) refl refl (omega arith, (omega arith, tt))
      (omega arith) (omega arith) (omega arith) (omega arith) (omega arith)
      (λ i l. ((omega (arith, l), omega arith), tt)) ((omega arith, omega arith), tt)

-- The five addresses by index.
abbrev addresses : ℕ → DedupAddress
addresses n = record { script_num = n + 1; type = dedup_pubkey }

record_clusters_lem_example :
    (offsets : List ℕ) × (ordered : List DedupAddress) × (record_clusters
        (λ k. some (addresses k))
        (0 ∷ 1 ∷ 0 ∷ [])
        2
      ≡ some (offsets, ordered))
    × (cluster_count offsets ≡ 2 + 1)
    × ((c : ℕ) → c < 2 → get_cluster_size offsets c ≡ some (occurrences c (0 ∷ 1 ∷ 0 ∷ [])))
    × ((k c : ℕ)
        → get_elem? (0 ∷ 1 ∷ 0 ∷ []) k ≡ some c
        → (scripts : List DedupAddress) × (get_cluster_scripts offsets ordered c ≡ some scripts)
          × (get_elem? scripts (occurrences c (take k (0 ∷ 1 ∷ 0 ∷ []))) ≡ some (addresses k)))
record_clusters_lem_example =
    record_clusters_lem addresses (0 ∷ 1 ∷ 0 ∷ []) 2 (λ k. some (addresses k)) (λ k h. refl)
      (omega arith, (omega arith, (omega arith, tt))) (omega arith) (omega arith)

-- An empty type hides the type that starts at the same index, if it is walked later.
hidden_type :
    address_at (type_indexes ((0, dedup_pubkey) ∷ (0, dedup_nonstandard) ∷ []) []) 1
    ≡ some (record { script_num = 2; type = dedup_nonstandard })
unfolding address_at type_indexes
hidden_type = refl
