-- ===== src/Parser/Recording.antt =====
-- UTXOScriptState and UTXOAddressState (src/parser/utxo_state.hpp, utxo_address_state.hpp,
-- utxo_address_state.cpp, output_spend_data.hpp), and generateScriptInput and recordAddresses of
-- block_processor.cpp: what the parser keeps of an output until it is spent. The maps are
-- google::dense_hash_map, a parameter with its laws.
pub mod Agree
pub mod Added
pub mod Keeps
pub mod Chain
use block_sci.Chain.Types.{AddressType, multisig, same_type, OutputPointer}
use block_sci.Parser.Utxo.{RawOutputPointer, Utxo, get_output_pointer}
use block_sci.Prelude.{
  ℕ, zero, suc, ◌+◌, ◌%◌, ◌^◌, ◌≡◌, Bool, false, ◌&&◌, List, [], ◌∷◌, Option, none, some, ltb, ◌==◌,
  if◌then◌else◌,
}

abbrev pub same_output : OutputPointer → OutputPointer → Bool
same_output a b = (a.tx_num == b.tx_num) && (a.inout_num == b.inout_num)

-- What the code uses of a map from outputs: `insert` leaves a value that is there. The two keys that
-- set_deleted_key and set_empty_key name are reserved: nothing is said of an insertion of one, which
-- fails at an assert.
pub record OutputMap (V : Type 0) : Type 1 where
  pub Map : Type 0
  pub find : OutputPointer → Map → Option V
  pub insert : OutputPointer → V → Map → Map
  pub remove : OutputPointer → Map → Map
  pub reserved : OutputPointer → Bool
  pub find-insert_new :
      (p q : OutputPointer) (v : V) (m : Map)
      → reserved p ≡ false
      → find p m ≡ none
      → find q (insert p v m) ≡ (if same_output p q then some v else find q m)
  pub insert_old : (p : OutputPointer) (v w : V) (m : Map) → find p m ≡ some w → insert p v m ≡ m
  pub find-remove :
      (p q : OutputPointer) (m : Map)
      → find q (remove p m) ≡ (if same_output p q then none else find q m)

-- The end of a step: done, MissingKeyException, or a failed assert.
pub data Recorded {ℓ} (A : Type ℓ) : Type ℓ where
  recorded : A → Recorded A
  missing_key assert_failed : Recorded A

-- A script output with its address resolved: the number of its script, and the public keys that its
-- SpendData has when it is of type multisig.
pub record ResolvedOutput (V : Type 0) : Type 0 where
  pub type : AddressType
  pub script_num : ℕ
  pub keys : V

-- An input of the transaction, with the utxo that connectUTXOs gave it.
abbrev pub output_pointers : List RawOutputPointer → List Utxo → List OutputPointer
output_pointers [] us = []
output_pointers (p ∷ ps) [] = []
output_pointers (p ∷ ps) (u ∷ us) = get_output_pointer p u ∷ output_pointers ps us

-- Whether SpendData of the type has fields.
abbrev pub has_spend_data : AddressType → Bool
has_spend_data t = same_type t multisig

module _ {V : Type 0} (S : OutputMap V) where
  -- SerializableMap::erase of a key.
  unfoldable pub erase_output : OutputPointer → S.Map → Option (V × S.Map)
  erase_output p m = elim (S.find p m) [ none ↦ none | some v ↦ some (v, S.remove p m) ]

module _ (S : OutputMap ℕ) where
  -- The loop of recordAddresses over the inputs: their script numbers.
  unfoldable pub record_inputs : List OutputPointer → S.Map → Recorded (List ℕ × S.Map)
  record_inputs [] m = recorded ([], m)
  record_inputs (p ∷ ps) m = elim (erase_output S p m) [
    | none ↦ missing_key
    | some (n, rest) ↦
        let later = record_inputs ps rest in
        if ltb 0 n
        then elim later [
          | recorded (ns, after) ↦ recorded (n ∷ ns, after)
          | missing_key ↦ missing_key
          | assert_failed ↦ assert_failed
        ]
        else assert_failed
  ]

  -- The loop over the outputs, whose counter is a uint16_t.
  unfoldable pub record_outputs :
      {V : Type 0} → ℕ → ℕ → List (ResolvedOutput V) → S.Map → Recorded S.Map
  record_outputs tx_num i [] m = recorded m
  record_outputs tx_num i (o ∷ os) m =
      let later =
        record_outputs tx_num (suc i) os
          (S.insert (record { tx_num = tx_num; inout_num = i % 2 ^ 16 }) o.script_num m) in
      if ltb 0 o.script_num then later else assert_failed

  unfoldable pub record_addresses :
      {V : Type 0}
      → ℕ
      → List OutputPointer
      → List (ResolvedOutput V)
      → S.Map
      → Recorded (List ℕ × S.Map)
  record_addresses tx_num inputs outputs m = elim (record_inputs inputs m) [
    | missing_key ↦ missing_key
    | assert_failed ↦ assert_failed
    | recorded (ns, rest) ↦ elim (record_outputs tx_num 0 outputs rest) [
      | recorded after ↦ recorded (ns, after)
      | missing_key ↦ missing_key
      | assert_failed ↦ assert_failed
    ]
  ]

module _ {V : Type 0} (G : OutputMap V) where
  -- UTXOAddressState::spendOutput: the types without data have no entry.
  unfoldable pub spend_output : OutputPointer → AddressType → G.Map → Option (Option V × G.Map)
  spend_output p type m =
      if has_spend_data type
      then elim (erase_output G p m) [ none ↦ none | some (v, rest) ↦ some (some v, rest) ]
      else some (none, m)

  unfoldable pub add_output : OutputPointer → ResolvedOutput V → G.Map → G.Map
  add_output p o m = if has_spend_data o.type then G.insert p o.keys m else m

  -- The loop of generateScriptInput over the inputs: the data for the spent output of each.
  unfoldable pub spend_outputs :
      List RawOutputPointer → List Utxo → G.Map → Option (List (Option V) × G.Map)
  spend_outputs [] us m = some ([], m)
  spend_outputs (p ∷ ps) [] m = none
  spend_outputs (p ∷ ps) (u ∷ us) m = elim (spend_output (get_output_pointer p u) u.type m) [
    | none ↦ none
    | some (v, rest) ↦ elim (spend_outputs ps us rest) [
      | none ↦ none
      | some (vs, after) ↦ some (v ∷ vs, after)
    ]
  ]

  unfoldable pub keep_outputs : ℕ → ℕ → List (ResolvedOutput V) → G.Map → G.Map
  keep_outputs tx_num i [] m = m
  keep_outputs tx_num i (o ∷ os) m =
      keep_outputs tx_num (suc i) os
        (add_output (record { tx_num = tx_num; inout_num = i % 2 ^ 16 }) o m)

  -- What generateScriptInput does to the map; `none` is MissingKeyException.
  unfoldable pub generate_script_input :
      ℕ
      → List RawOutputPointer
      → List Utxo
      → List (ResolvedOutput V)
      → G.Map
      → Option (List (Option V) × G.Map)
  generate_script_input tx_num ps us outputs m = elim (spend_outputs ps us m) [
    | none ↦ none
    | some (vs, rest) ↦ some (vs, keep_outputs tx_num 0 outputs rest)
  ]
