-- ===== src/Parser/Utxo.antt =====
-- UTXOState and connectUTXOs (src/parser/serializable_map.hpp, utxo.hpp, utxo_state.hpp,
-- basic_types.hpp, and connectUTXOs of block_processor.cpp): which outputs are unspent while the
-- transactions of the chain go by. google::dense_hash_map is a parameter with its laws.
pub mod Step
pub mod Progress
pub mod NoDoubleSpend
use block_sci.Prelude.{
  ℕ, zero, suc, ◌+◌, ◌≡◌, refl, ◌⊎◌, inl, inr, Bool, true, false, ◌&&◌, List, [], ◌∷◌, Option, none,
  some, ltb, ◌==◌, if◌then◌else◌, length,
}
use block_sci.Chain.Types.{AddressType, is_spendable, OutputPointer}

-- A uint256 is its number.
pub record RawOutputPointer : Type 0 where
  pub hash : ℕ
  pub output_num : ℕ

abbrev pub same_pointer : RawOutputPointer → RawOutputPointer → Bool
same_pointer p q = (p.hash == q.hash) && (p.output_num == q.output_num)

pub record Utxo : Type 0 where
  pub value : ℕ
  pub tx_num : ℕ
  pub type : AddressType

-- What the code uses of the hash map: `insert` leaves a value that is there. The keys that it
-- reserves have the null hash, which is that of no transaction.
pub record HashMap : Type 1 where
  pub Map : Type 0
  pub find : RawOutputPointer → Map → Option Utxo
  pub insert : RawOutputPointer → Utxo → Map → Map
  pub remove : RawOutputPointer → Map → Map
  pub find-insert_new :
      (p q : RawOutputPointer) (u : Utxo) (m : Map)
      → find p m ≡ none
      → find q (insert p u m) ≡ (if same_pointer p q then some u else find q m)
  pub insert_old :
      (p : RawOutputPointer) (u v : Utxo) (m : Map) → find p m ≡ some v → insert p u m ≡ m
  pub find-remove :
      (p q : RawOutputPointer) (m : Map)
      → find q (remove p m) ≡ (if same_pointer p q then none else find q m)

-- The end of connectUTXOs: done, MissingKeyException, or a loop that has no end.
pub data Outcome {ℓ} (A : Type ℓ) : Type ℓ where
  done : A → Outcome A
  missing_key endless : Outcome A

pub Outcome-cases {ℓ} :
    {A : Type ℓ} (o : Outcome A) → ((o ≡ missing_key) ⊎ (o ≡ endless)) ⊎ ((a : A) × (o ≡ done a))
Outcome-cases missing_key = inl (inl refl)
Outcome-cases endless = inl (inr refl)
Outcome-cases (done a) = inr (a, refl)

pub record ScriptedOutput : Type 0 where
  pub value : ℕ
  pub type : AddressType

-- The fields of a RawTransaction that connectUTXOs reads, its hash computed.
pub record PlainTx : Type 0 where
  pub hash : ℕ
  pub tx_num : ℕ
  pub inputs : List RawOutputPointer
  pub outputs : List ScriptedOutput

-- RawInput::getOutputPointer, with the input's utxo.
abbrev pub get_output_pointer : RawOutputPointer → Utxo → OutputPointer
get_output_pointer p u = record { tx_num = u.tx_num; inout_num = p.output_num }

module _ (H : HashMap) where
  -- SerializableMap::erase of a key.
  unfoldable pub erase : RawOutputPointer → H.Map → Option (Utxo × H.Map)
  erase p m = elim (H.find p m) [ none ↦ none | some u ↦ some (u, H.remove p m) ]

  -- The loop over the inputs: each is given its utxo.
  unfoldable pub spend_inputs : List RawOutputPointer → H.Map → Option (List Utxo × H.Map)
  unfolding erase
  spend_inputs [] m = some ([], m)
  spend_inputs (p ∷ ps) m = elim (erase p m) [
    | none ↦ none
    | some (u, rest) ↦ elim (spend_inputs ps rest) [
      | none ↦ none
      | some (us, after) ↦ some (u ∷ us, after)
    ]
  ]

  -- The loop over the outputs, from the one of number `i`.
  unfoldable pub add_outputs : ℕ → ℕ → ℕ → List ScriptedOutput → H.Map → H.Map
  add_outputs hash tx_num i [] m = m
  add_outputs hash tx_num i (o ∷ os) m = add_outputs hash tx_num (suc i) os (
      if is_spendable o.type
      then H.insert (record { hash = hash; output_num = i })
          (record { value = o.value; tx_num = tx_num; type = o.type }) m
      else m)

  -- The counter of the second loop is a uint16_t: with 2 ^ 16 outputs it never reaches their number.
  unfoldable pub connect_utxos : PlainTx → H.Map → Outcome (List Utxo × H.Map)
  unfolding spend_inputs add_outputs
  connect_utxos tx m = elim (spend_inputs tx.inputs m) [
    | none ↦ missing_key
    | some (us, rest) ↦
        if ltb (length tx.outputs) 65536
        then done (us, add_outputs tx.hash tx.tx_num 0 tx.outputs rest)
        else endless
  ]

  -- The transactions of the chain, one after the other.
  unfoldable pub connect_all : List PlainTx → H.Map → Outcome (List (List Utxo) × H.Map)
  unfolding connect_utxos
  connect_all [] m = done ([], m)
  connect_all (tx ∷ txs) m = elim (connect_utxos tx m) [
    | missing_key ↦ missing_key
    | endless ↦ endless
    | done (us, rest) ↦ elim (connect_all txs rest) [
      | missing_key ↦ missing_key
      | endless ↦ endless
      | done (uss, after) ↦ done (us ∷ uss, after)
    ]
  ]
