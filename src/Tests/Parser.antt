-- ===== src/Tests/Parser.antt =====
-- The parser on small files, maps and filters.
use block_sci.Prelude.{
  ℕ, ◌+◌, ◌%◌, ◌^◌, ◌*◌, ◌<◌, ◌≡◌, refl, ◌↔◌, true, false, List, [], ◌∷◌, ◌++◌, Option, none, some,
  arith,
}
use block_sci.Prelude.Bytes.{le_bytes}
use block_sci.Prelude.Int.{pos}
use block_sci.Chain.Types.{pubkeyhash, null_data}
use block_sci.Parser.Reader.{
  Reader, Result, ok, fault, aborted, read_next, advance, read_variable_length_integer,
  serialize_compact, variable_length_int_size, ◌>>=◌,
}
use block_sci.Parser.Reader.CompactSize.{read_variable_length_integer-serialize_compact, bump}
use block_sci.Parser.RawTx.{
  RawTransaction, load, read_header, read_input_count, load_many, load_input, load_slice,
  load_output, load_witnesses, load_witness,
}
use block_sci.Parser.RawTx.HeaderAgrees.{read_header-load, header_of}
use block_sci.Parser.Bloom.{BloomFilter, Key, add, possibly_contains}
use block_sci.Parser.Bloom.NoFalseNegative.{possibly_contains-add}
use block_sci.Parser.Utxo.{RawOutputPointer, Utxo, PlainTx, missing_key, connect_utxos, connect_all}
use block_sci.Parser.Utxo.Step.{NoRepeats}
use block_sci.Prelude.{length}
use block_sci.Parser.Utxo.{done}
use block_sci.Parser.Utxo.Progress.{AllFound, connect_utxos_iff}
use block_sci.Parser.Utxo.NoDoubleSpend.{all_inputs, EachMade, no_double_spend}
use block_sci.Parser.AddressState.{
  Uint160, AddressState, find_address, resolve_all, rollback, get_match, not_found,
}
use block_sci.Parser.AddressState.Consistent.{IsConsistent}
use block_sci.Parser.AddressState.Resolve.{AreNumbers, find_address_lem, resolve_all_lem}
use block_sci.Parser.AddressState.Rollback.{rollback_lem}
use block_sci.Tests.Stores.{pairs, utxo_map}

abbrev reader : Reader
reader = record { file = 9 ∷ 0xfd ∷ 0x2c ∷ 1 ∷ 7 ∷ []; offset = 1 }

read_variable_length_integer-serialize_compact_example :
    read_variable_length_integer reader
    ≡ ok (300 % 2 ^ 32, bump (variable_length_int_size 300) reader)
unfolding serialize_compact
read_variable_length_integer-serialize_compact_example =
    read_variable_length_integer-serialize_compact 300 reader (7 ∷ []) (omega arith) refl

-- A transaction of one input with a witness and one output, in the segwit form.
abbrev tx_bytes : List ℕ
tx_bytes =
    le_bytes 4 2
    ++ (0
        ∷ 1
        ∷ 1
        ∷ (le_bytes 32 77
            ++ (le_bytes 4 3
                ++ (2
                    ∷ 8
                    ∷ 9
                    ∷ (le_bytes 4 5
                        ++ (1
                            ∷ (le_bytes 8 50
                                ++ (1 ∷ 0x6a ∷ 1 ∷ 2 ∷ 6 ∷ 7 ∷ le_bytes 4 500000))))))))

abbrev tx_file : Reader
tx_file = record { file = tx_bytes; offset = 0 }

read_header-load_example :
    read_header (5, 6) tx_file
    ≡ (load 1 (pos 2) true tx_file >>= λ p. ok (header_of (5, 6) p.0, p.1))
read_header-load_example = read_header-load (5, 6) 1 (pos 2) true tx_file

-- The sizes and the locktime of that transaction.
abbrev loaded_sizes : Result (RawTransaction × Reader) → Option (ℕ × (ℕ × ℕ))
loaded_sizes (ok (tx, r)) = some (tx.base_size, (tx.real_size, tx.locktime))
loaded_sizes fault = none
loaded_sizes aborted = none

sizes : loaded_sizes (load 1 (pos 2) true tx_file) ≡ some (63, (69, 500000))
unfolding load read_next read_input_count read_variable_length_integer load_many load_input
    load_slice advance load_output load_witnesses load_witness
sizes = refl

abbrev filter : BloomFilter
filter = record {
  max_items = 2;
  num_hashes = 4;
  length = 100;
  added_count = 0;
  store = record { length = 100; bits = λ p. false };
}

abbrev key : ℕ → Key
key n = record { hash_a = n; hash_b = 2 ^ 63 + 3 * n }

possibly_contains-add_example :
    (possibly_contains (key 1) (add (key 1) filter) ≡ true)
    × (possibly_contains (key 2) filter ≡ true
        → possibly_contains (key 2) (add (key 1) filter) ≡ true)
possibly_contains-add_example = possibly_contains-add (key 1) (key 2) filter

-- An empty filter denies the key.
denies : possibly_contains (key 1) filter ≡ false
unfolding possibly_contains
denies = refl

abbrev first_tx : PlainTx
first_tx = record {
  hash = 11;
  tx_num = 1;
  inputs = [];
  outputs =
      record { value = 50; type = pubkeyhash }
      ∷ record { value = 0; type = null_data }
      ∷ record { value = 9; type = pubkeyhash }
      ∷ [];
}

abbrev pointer : ℕ → ℕ → RawOutputPointer
pointer h i = record { hash = h; output_num = i }

abbrev second_tx : PlainTx
second_tx = record {
  hash = 12;
  tx_num = 2;
  inputs = pointer 11 2 ∷ pointer 11 0 ∷ [];
  outputs = record { value = 58; type = pubkeyhash } ∷ [];
}

abbrev spent : List (List Utxo)
spent =
    []
    ∷ (record { value = 9; tx_num = 1; type = pubkeyhash }
        ∷ record { value = 50; tx_num = 1; type = pubkeyhash }
        ∷ [])
    ∷ []

no_double_spend_example :
    NoRepeats (all_inputs (first_tx ∷ second_tx ∷ []))
    × EachMade [] (first_tx ∷ second_tx ∷ []) spent
unfolding connect_all
no_double_spend_example =
    no_double_spend utxo_map (first_tx ∷ second_tx ∷ []) [] spent
      ((pointer 12 0, record { value = 58; tx_num = 2; type = pubkeyhash }) ∷ []) (λ p. refl)
      ((refl, tt), (tt, tt)) refl

-- An output that no one can spend is not in the map.
burnt : connect_utxos utxo_map (record second_tx { inputs = pointer 11 1 ∷ [] }) [] ≡ missing_key
unfolding connect_utxos
burnt = refl

abbrev addresses : AddressState pairs pairs
addresses = record { bloom = filter; multi = []; db = []; script_index = 1 }

addresses-IsConsistent : IsConsistent pairs pairs addresses
addresses-IsConsistent = record {
  index_positive = omega arith;
  known = λ h n e. absurd (ground (arith, e));
  multi_agrees = λ h n e. absurd (ground (arith, e));
  injective = λ h j n e f. absurd (ground (arith, e));
}

abbrev hash : ℕ → Uint160
hash n = record { first = 0; words = key n }

find_address_lem_example :
    ((find_address pairs pairs (hash 1) addresses).address_num ≡ get_match (pairs.get (hash 1) []))
    × (((find_address pairs pairs (hash 1) addresses).location ≡ not_found)
        ↔ (pairs.get (hash 1) [] ≡ none))
find_address_lem_example = find_address_lem pairs pairs (hash 1) addresses addresses-IsConsistent

abbrev met : List Uint160
met = hash 1 ∷ hash 2 ∷ hash 1 ∷ hash 3 ∷ []

resolve_all_lem_example :
    IsConsistent pairs pairs (resolve_all pairs pairs met addresses).1
    × AreNumbers pairs pairs met
        (resolve_all pairs pairs met addresses).0
        (resolve_all pairs pairs met addresses).1.db
    × ((j : Uint160) (n : ℕ)
        → pairs.get j [] ≡ some n
        → pairs.get j (resolve_all pairs pairs met addresses).1.db ≡ some n)
resolve_all_lem_example =
    resolve_all_lem pairs pairs met addresses addresses-IsConsistent
      (refl, (refl, (refl, (refl, tt)))) (omega arith)

abbrev three : AddressState pairs pairs
three = (resolve_all pairs pairs met addresses).1

rollback_lem_example :
    IsConsistent pairs pairs (rollback pairs pairs 2 three)
    × ((h : Uint160) (n : ℕ)
        → (pairs.get h (rollback pairs pairs 2 three).db ≡ some n)
          ↔ ((pairs.get h three.db ≡ some n) × (n < 2)))
rollback_lem_example = rollback_lem pairs pairs 2 three resolve_all_lem_example.0 (omega arith)

-- The map after the first transaction.
abbrev after_first : List (RawOutputPointer × Utxo)
after_first =
    (pointer 11 2, record { value = 9; tx_num = 1; type = pubkeyhash })
    ∷ (pointer 11 0, record { value = 50; tx_num = 1; type = pubkeyhash })
    ∷ []

connect_utxos_iff_example :
    ((r : List Utxo × List (RawOutputPointer × Utxo)) × (connect_utxos utxo_map second_tx
          after_first
        ≡ done r))
    ↔ (NoRepeats second_tx.inputs
        × AllFound utxo_map second_tx.inputs after_first
        × (length second_tx.outputs < 2 ^ 16))
connect_utxos_iff_example = connect_utxos_iff utxo_map second_tx after_first
