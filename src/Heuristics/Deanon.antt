-- ===== src/Heuristics/Deanon.antt =====
-- isDeanonTx (src/blocksci/heuristics/tx_identification.cpp).
use block_sci.Prelude.{
  ℕ, suc, ◌≤◌, ◌≡◌, ◌≢◌, refl, sym, ap, ◌∙◌, ◌↔◌, inl, inr, Bool, true, false, ◌||◌, List, [], ◌∷◌,
  ◌==◌, ==_false, if◌then◌else◌, length, All, Bool-cases, arith,
}
use block_sci.Chain.Types.{
  AddressType, same_type, InoutData, Transaction, output_count, is_coinbase,
}

-- std::unordered_set<AddressType::Enum>.
abbrev pub has_type : AddressType → List AddressType → Bool
has_type t [] = false
has_type t (s ∷ types) = same_type s t || has_type t types

unfoldable pub input_types : List InoutData → List AddressType → List AddressType
input_types [] types = types
input_types (i ∷ inputs) types =
    input_types inputs (if has_type i.address.type types then types else i.address.type ∷ types)

-- The loop over the outputs, with seenType.
unfoldable pub seen_once : AddressType → List InoutData → Bool → Bool
seen_once t [] seen = seen
seen_once t (o ∷ outputs) seen =
    let seen_now = seen_once t outputs true in
    let skipped = seen_once t outputs seen in
    if same_type o.address.type t then (if seen then false else seen_now) else skipped

unfoldable pub single_type : List AddressType → List InoutData → Bool
unfolding seen_once
single_type (t ∷ []) outputs = seen_once t outputs false
single_type _ outputs = false

unfoldable pub is_deanon_tx : Transaction → Bool
unfolding input_types single_type
is_deanon_tx tx =
    if is_coinbase tx
    then false
    else if output_count tx == 1
    then false
    else single_type (input_types tx.inputs []) tx.raw_outputs

-- How many of them have the type.
abbrev pub of_type : AddressType → List InoutData → ℕ
of_type t [] = 0
of_type t (o ∷ outputs) =
    if same_type o.address.type t then suc (of_type t outputs) else of_type t outputs

seen_once-of_type :
    (t : AddressType) (os : List InoutData)
    → ((seen_once t os true ≡ true) ↔ (of_type t os ≡ 0))
      × ((seen_once t os false ≡ true) ↔ (of_type t os ≡ 1))
unfolding seen_once
seen_once-of_type t [] = ground arith
seen_once-of_type t (o ∷ os) =
    let (twice, once) = seen_once-of_type t os in
    elim (Bool-cases (same_type o.address.type t)) [
      | inl hit ↦ rw hit (
        (λ e. absurd (ground (arith, e)), λ e. absurd (omega arith)),
        (λ e. ap suc (twice.0 e), λ e. twice.1 (omega arith)),
      )
      | inr miss ↦ rw miss (twice, once)
    ]

input_types_le :
    (inputs : List InoutData) (types : List AddressType)
    → length types ≤ length (input_types inputs types)
unfolding input_types
input_types_le [] types = omega arith
input_types_le (i ∷ inputs) types = elim (Bool-cases (has_type i.address.type types)) [
  | inl old ↦ rw old (input_types_le inputs types)
  | inr new ↦ rw new (omega (arith, input_types_le inputs (i.address.type ∷ types)))
]

abbrev pub HasType : AddressType → InoutData → Type 0
HasType t i = same_type t i.address.type ≡ true

-- One type stays alone exactly if all the inputs have it.
input_types-All :
    (t : AddressType) (inputs : List InoutData)
    → All (HasType t) inputs
    → input_types inputs (t ∷ []) ≡ t ∷ []
unfolding input_types
input_types-All t [] h = refl
input_types-All t (i ∷ inputs) (e, h) = rw e (input_types-All t inputs h)

All-input_types :
    (t : AddressType) (inputs : List InoutData)
    → length (input_types inputs (t ∷ [])) ≡ 1
    → All (HasType t) inputs
unfolding input_types
All-input_types t [] h = tt
All-input_types t (i ∷ inputs) h = elim (Bool-cases (same_type t i.address.type)) [
  | inl e ↦
      let shorter : length (input_types inputs (t ∷ [])) ≡ 1 = ground (arith, e, h) in
      (e, All-input_types t inputs shorter)
  | inr e ↦
      let longer : length (input_types inputs (i.address.type ∷ t ∷ [])) ≡ 1 =
        ground (arith, e, h) in
      absurd (omega (arith, longer, input_types_le inputs (i.address.type ∷ t ∷ [])))
]

single_length :
    (types : List AddressType) (os : List InoutData)
    → single_type types os ≡ true
    → length types ≡ 1
unfolding single_type
single_length [] os h = absurd (ground (arith, h))
single_length (t ∷ []) os h = refl
single_length (t ∷ s ∷ types) os h = absurd (ground (arith, h))

-- isDeanonTx accepts a transaction with inputs exactly if it has not just one output, all its
-- inputs have the type of the first, and exactly one output has that type.
pub is_deanon_tx_lem :
    (tx : Transaction) (first : InoutData) (inputs : List InoutData)
    → tx.inputs ≡ first ∷ inputs
    → (is_deanon_tx tx ≡ true) ↔ (
        (output_count tx ≢ 1)
        × All (HasType first.address.type) inputs
        × (of_type first.address.type tx.raw_outputs ≡ 1))
unfolding is_deanon_tx single_type input_types
is_deanon_tx_lem tx first inputs e = (forth, back)
  where
    t : AddressType
    t = first.address.type

    outputs : List InoutData
    outputs = tx.raw_outputs

    types : input_types tx.inputs [] ≡ input_types inputs (t ∷ [])
    types = ap (λ x. input_types x []) e

    spent : is_coinbase tx ≡ false
    spent = ap (λ (x : List InoutData). length x == 0) e ∙ ==_false _ 0 (omega arith)

    forth :
        is_deanon_tx tx ≡ true
        → (output_count tx ≢ 1) × All (HasType t) inputs × (of_type t outputs ≡ 1)
    forth h =
        let single : single_type (input_types inputs (t ∷ [])) outputs ≡ true =
          ground (arith, h, types, spent) in
        let same =
          All-input_types t inputs (single_length (input_types inputs (t ∷ [])) outputs single) in
        (
          λ one. ground (arith, h, spent, one),
          same,
          (seen_once-of_type t outputs).1.0
              (sym (ap (λ x. single_type x outputs) (input_types-All t inputs same)) ∙ single),
        )

    back :
        (output_count tx ≢ 1) × All (HasType t) inputs × (of_type t outputs ≡ 1)
        → is_deanon_tx tx ≡ true
    back (many, same, once) =
        let single : single_type (input_types tx.inputs []) outputs ≡ true =
          ap (λ x. single_type x outputs) (types ∙ input_types-All t inputs same)
          ∙ (seen_once-of_type t outputs).1.1 once in
        ground (arith, single, spent, many)
