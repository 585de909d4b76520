-- ===== src/Chain/Types.antt =====
-- Addresses, inputs, outputs and transactions as the heuristics see them (address_types.hpp,
-- address_info.hpp, dedup_address_info.hpp, output.hpp, transaction.hpp). What lies in the files
-- that the library maps is a record, `DataAccess`.
use block_sci.Prelude.{
  ℕ, suc, Bool, true, false, not, ◌&&◌, List, [], ◌∷◌, Option, none, some, ltb, ◌==◌, if◌then◌else◌,
  length,
}

pub data AddressType : Type 0 where
  nonstandard pubkey pubkeyhash multisig_pubkey scripthash multisig null_data : AddressType
  witness_pubkeyhash witness_scripthash : AddressType

abbrev pub type_code : AddressType → ℕ
type_code nonstandard = 0
type_code pubkey = 1
type_code pubkeyhash = 2
type_code multisig_pubkey = 3
type_code scripthash = 4
type_code multisig = 5
type_code null_data = 6
type_code witness_pubkeyhash = 7
type_code witness_scripthash = 8

abbrev pub same_type : AddressType → AddressType → Bool
same_type s t = type_code s == type_code t

pub data DedupAddressType : Type 0 where
  dedup_nonstandard dedup_pubkey dedup_scripthash dedup_multisig dedup_null_data : DedupAddressType

-- AddressInfo<type>::dedupType.
abbrev pub dedup_type : AddressType → DedupAddressType
dedup_type nonstandard = dedup_nonstandard
dedup_type pubkey = dedup_pubkey
dedup_type pubkeyhash = dedup_pubkey
dedup_type multisig_pubkey = dedup_pubkey
dedup_type scripthash = dedup_scripthash
dedup_type multisig = dedup_multisig
dedup_type null_data = dedup_null_data
dedup_type witness_pubkeyhash = dedup_pubkey
dedup_type witness_scripthash = dedup_scripthash

-- DedupAddressInfo<type>::spendable.
abbrev pub dedup_spendable : DedupAddressType → Bool
dedup_spendable dedup_nonstandard = true
dedup_spendable dedup_pubkey = true
dedup_spendable dedup_scripthash = true
dedup_spendable dedup_multisig = true
dedup_spendable dedup_null_data = false

abbrev pub is_spendable : AddressType → Bool
is_spendable t = dedup_spendable (dedup_type t)

pub record Address : Type 0 where
  pub script_num : ℕ
  pub type : AddressType

abbrev pub same_address : Address → Address → Bool
same_address a b = (a.script_num == b.script_num) && same_type a.type b.type

-- An Inout, its packed word of type and value taken apart.
pub record InoutData : Type 0 where
  pub linked_tx_num : ℕ
  pub address : Address
  pub value : ℕ

pub record Transaction : Type 0 where
  pub tx_num : ℕ
  pub locktime : ℕ
  pub inputs : List InoutData
  pub raw_outputs : List InoutData

pub record DataAccess : Type 0 where
  pub max_loaded_tx : ℕ
  pub get_tx : ℕ → Transaction
  pub first_tx_index : Address → ℕ

-- An Output is told from another by its pointer, the transaction's number and its own.
pub record Output : Type 0 where
  pub tx_num : ℕ
  pub inout_num : ℕ
  pub spending_tx_index : ℕ
  pub address : Address
  pub value : ℕ

-- The constructor: a link past the loaded chain counts as unspent.
abbrev pub make_output : DataAccess → ℕ → ℕ → InoutData → Output
make_output access tx_num inout_num inout = record {
  tx_num = tx_num;
  inout_num = inout_num;
  spending_tx_index =
      if ltb inout.linked_tx_num access.max_loaded_tx then inout.linked_tx_num else 0;
  address = inout.address;
  value = inout.value;
}

abbrev pub outputs_from : DataAccess → ℕ → ℕ → List InoutData → List Output
outputs_from access tx_num i [] = []
outputs_from access tx_num i (o ∷ os) =
    make_output access tx_num i o ∷ outputs_from access tx_num (suc i) os

-- Transaction::outputs: the raw outputs zipped with 0, 1, 2, ….
unfoldable pub outputs : DataAccess → Transaction → List Output
outputs access tx = outputs_from access tx.tx_num 0 tx.raw_outputs

abbrev pub is_spent : Output → Bool
is_spent o = not (o.spending_tx_index == 0)

abbrev pub get_spending_tx : DataAccess → Output → Option Transaction
get_spending_tx access o = if is_spent o then some (access.get_tx o.spending_tx_index) else none

abbrev pub get_spent_tx : DataAccess → InoutData → Transaction
get_spent_tx access i = access.get_tx i.linked_tx_num

abbrev pub input_count : Transaction → ℕ
input_count tx = length tx.inputs

abbrev pub output_count : Transaction → ℕ
output_count tx = length tx.raw_outputs

abbrev pub is_coinbase : Transaction → Bool
is_coinbase tx = input_count tx == 0

pub record OutputPointer : Type 0 where
  pub tx_num : ℕ
  pub inout_num : ℕ

-- OutputPointer::operator<.
abbrev pub pointer_less : OutputPointer → OutputPointer → Bool
pointer_less a b =
    if a.tx_num == b.tx_num then ltb a.inout_num b.inout_num else ltb a.tx_num b.tx_num
