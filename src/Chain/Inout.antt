-- ===== src/Chain/Inout.antt =====
-- Inout (src/blocksci/chain/inout.hpp and inout.cpp): the word that holds a type in its top four bits
-- and a value in the other sixty. The masks are written as arithmetic.
use block_sci.Prelude.{
  ℕ, ◌+◌, ◌-◌, ◌*◌, ◌/◌, ◌%◌, ◌^◌, ◌<◌, ◌≡◌, refl, ap, ◌∙◌, List, [], ◌∷◌, get_elem?, Option, none,
  some, arith,
}
use block_sci.Chain.Types.{
  AddressType, nonstandard, pubkey, pubkeyhash, multisig_pubkey, scripthash, multisig, null_data,
  witness_pubkeyhash, witness_scripthash, type_code, Address, InoutData,
}

pub record Inout : Type 0 where
  pub linked_tx_num : ℕ
  pub to_address_num : ℕ
  pub other : ℕ

abbrev pub value_size : ℕ
value_size = 2 ^ 60

-- The low sixty bits are cleared and set.
unfoldable pub set_value : ℕ → Inout → Inout
set_value value i = record i { other = i.other - i.other % value_size + value % value_size }

-- The top four bits of a uint64_t are cleared and set.
unfoldable pub set_type : AddressType → Inout → Inout
set_type type i = record i { other = i.other % value_size + type_code type % 16 * value_size }

unfoldable pub get_value : Inout → ℕ
get_value i = i.other % value_size

-- static_cast of the number to the enum; a number past the last is none of its names.
abbrev pub all_address_types : List AddressType
all_address_types =
    nonstandard ∷ pubkey ∷ pubkeyhash ∷ multisig_pubkey ∷ scripthash ∷ multisig ∷ null_data
    ∷ witness_pubkeyhash ∷ witness_scripthash ∷ []

abbrev pub type_of_code : ℕ → Option AddressType
type_of_code code = get_elem? all_address_types code

unfoldable pub get_type : Inout → Option AddressType
get_type i = type_of_code (i.other / value_size % 16)

-- The constructor.
unfoldable pub make_inout : ℕ → Address → ℕ → Inout
unfolding set_value set_type
make_inout linked_tx_num address value = set_type address.type (
    set_value value
      (record { linked_tx_num = linked_tx_num; to_address_num = address.script_num; other = 0 }))

abbrev inout_data : Inout → AddressType → InoutData
inout_data i type = record {
  linked_tx_num = i.linked_tx_num;
  address = record { script_num = i.to_address_num; type = type };
  value = get_value i;
}

-- The fields that the accessors give.
unfoldable pub unpack : Inout → Option InoutData
unpack i = elim (get_type i) [ none ↦ none | some type ↦ some (inout_data i type) ]

type_of_code-type_code : (t : AddressType) → type_of_code (type_code t) ≡ some t
type_of_code-type_code nonstandard = refl
type_of_code-type_code pubkey = refl
type_of_code-type_code pubkeyhash = refl
type_of_code-type_code multisig_pubkey = refl
type_of_code-type_code scripthash = refl
type_of_code-type_code multisig = refl
type_of_code-type_code null_data = refl
type_of_code-type_code witness_pubkeyhash = refl
type_of_code-type_code witness_scripthash = refl

type_code_small : (t : AddressType) → type_code t < 16
type_code_small t = ground arith

get_type-set_type : (t : AddressType) (i : Inout) → get_type (set_type t i) ≡ some t
unfolding get_type set_type
get_type-set_type t i =
    ap type_of_code (omega (arith, type_code_small t)) ∙ type_of_code-type_code t

get_type-set_value : (v : ℕ) (i : Inout) → get_type (set_value v i) ≡ get_type i
unfolding get_type set_value
get_type-set_value v i = ap type_of_code (omega arith)

get_value-set_type : (t : AddressType) (i : Inout) → get_value (set_type t i) ≡ get_value i
unfolding get_value set_type
get_value-set_type t i = omega arith

get_value-set_value : (v : ℕ) (i : Inout) → get_value (set_value v i) ≡ v % 2 ^ 60
unfolding get_value set_value
get_value-set_value v i = omega arith

unpack_by :
    (i : Inout) (t : AddressType) (v : ℕ)
    → get_type i ≡ some t
    → get_value i ≡ v
    → unpack i
      ≡ some (record {
        linked_tx_num = i.linked_tx_num;
        address = record { script_num = i.to_address_num; type = t };
        value = v;
      })
unfolding unpack
unpack_by i t v e f =
    ap (λ (o : Option AddressType). elim o [ none ↦ none | some type ↦ some (inout_data i type) ]) e
    ∙ ap
        (λ x. some (record {
          linked_tx_num = i.linked_tx_num;
          address = record { script_num = i.to_address_num; type = t };
          value = x;
        }))
        f

-- The accessors of an Inout give back the link, the address and the value, below 2 ^ 60, that it
-- is made of, and after setValue or setType the new value or type with the rest unchanged.
pub unpack-make_inout :
    (linked_tx_num : ℕ) (address : Address) (value v : ℕ) (t : AddressType)
    → value < 2 ^ 60
    → v < 2 ^ 60
    → let i = make_inout linked_tx_num address value in
      (unpack i ≡ some (record { linked_tx_num = linked_tx_num; address = address; value = value }))
      × (unpack (set_value v i)
          ≡ some (record { linked_tx_num = linked_tx_num; address = address; value = v }))
      × (unpack (set_type t i)
          ≡ some (record {
            linked_tx_num = linked_tx_num;
            address = record { script_num = address.script_num; type = t };
            value = value;
          }))
unfolding make_inout set_value set_type
unpack-make_inout linked_tx_num address value v t small small_v =
    let i = make_inout linked_tx_num address value in
    let blank : Inout = record {
      linked_tx_num = linked_tx_num;
      to_address_num = address.script_num;
      other = 0;
    } in
    let type = get_type-set_type address.type (set_value value blank) in
    let held : get_value i ≡ value =
      get_value-set_type address.type (set_value value blank)
      ∙ get_value-set_value value blank
      ∙ omega arith in
    (
      unpack_by i address.type value type held,
      unpack_by (set_value v i) address.type v (get_type-set_value v i ∙ type)
          (get_value-set_value v i ∙ omega arith),
      unpack_by (set_type t i) t value (get_type-set_type t i) (get_value-set_type t i ∙ held),
    )
