-- ===== src/Heuristics/Change.antt =====
-- src/blocksci/heuristics/change_address.cpp. Each heuristic returns the set of outputs that it
-- cannot rule out as change. `none` where the code reads the first input of a transaction that has
-- no inputs, which is out of range.
pub mod Meaning
use block_sci.Prelude.{
  ℕ, zero, suc, ◌+◌, ◌*◌, ◌%◌, ◌^◌, ◌<◌, ◌≡◌, Bool, true, false, not, ◌&&◌, ◌||◌, List, [], ◌∷◌,
  Option, none, some, ltb, leb, ◌==◌, if◌then◌else◌, length, min,
}
use block_sci.Chain.Types.{
  Output, InoutData, DataAccess, Transaction, Address, AddressType, is_spendable, same_type,
  same_address, outputs, is_spent, get_spending_tx, get_spent_tx, input_count, output_count,
}
use block_sci.Heuristics.Candidates.{
  collect, collect_from, remove_op_return_outputs, single_or_nullptr, output_spendable,
}

unfoldable pub looks_like_peeling_chain : Transaction → Bool
looks_like_peeling_chain tx = (output_count tx == 2) && (input_count tx == 1)

-- One output of the loop over the next transactions.
abbrev pub spent_in_peeling_chain : DataAccess → Output → Bool
spent_in_peeling_chain access o = elim (get_spending_tx access o) [
  | none ↦ false
  | some next ↦ looks_like_peeling_chain next
]

unfoldable pub any_output : (Output → Bool) → List Output → Bool
any_output p [] = false
any_output p (o ∷ os) = if p o then true else any_output p os

abbrev pub peeling_before_or_after : DataAccess → Transaction → List InoutData → Bool
peeling_before_or_after access tx [] = false
peeling_before_or_after access tx (i ∷ is) =
    if looks_like_peeling_chain (get_spent_tx access i)
    then true
    else any_output (spent_in_peeling_chain access) (outputs access tx)

-- The first input is there, since a peeling chain has one.
unfoldable pub is_peeling_chain : DataAccess → Transaction → Bool
is_peeling_chain access tx =
    if not (looks_like_peeling_chain tx) then false else peeling_before_or_after access tx tx.inputs

abbrev pub larger_of_two : List Output → Option Output
larger_of_two (a ∷ b ∷ os) = if ltb b.value a.value then some a else some b
larger_of_two _ = none

unfoldable pub unique_change_by_peeling_chain : DataAccess → Transaction → Option Output
unique_change_by_peeling_chain access tx =
    if is_peeling_chain access tx then larger_of_two (outputs access tx) else none

unfoldable pub change_by_peeling_chain : DataAccess → Transaction → List Output
change_by_peeling_chain access tx = elim (unique_change_by_peeling_chain access tx) [
  | none ↦ remove_op_return_outputs []
  | some o ↦ remove_op_return_outputs (o ∷ [])
]

-- `value *= 10`, digits times, on a uint64_t.
unfoldable pub power_of_ten : ℕ → ℕ → ℕ
power_of_ten zero value = value
power_of_ten (suc digits) value = power_of_ten digits (value * 10 % 2 ^ 64)

unfoldable pub change_by_power_of_ten_value : DataAccess → Transaction → ℕ → List Output
change_by_power_of_ten_value access tx digits =
    remove_op_return_outputs
      (collect (λ o. not (o.value % power_of_ten digits 1 == 0)) (outputs access tx))

unfoldable pub unique_change_by_power_of_ten_value : DataAccess → Transaction → ℕ → Option Output
unique_change_by_power_of_ten_value access tx digits =
    single_or_nullptr (change_by_power_of_ten_value access tx digits)

unfoldable pub smallest_value : ℕ → List InoutData → ℕ
smallest_value m [] = m
smallest_value m (i ∷ is) = smallest_value (min m i.value) is

abbrev pub smallest_input_value : List InoutData → Option ℕ
smallest_input_value [] = none
smallest_input_value (i ∷ is) = some (smallest_value i.value (i ∷ is))

unfoldable pub change_by_optimal_change : DataAccess → Transaction → Option (List Output)
change_by_optimal_change access tx = elim (smallest_input_value tx.inputs) [
  | none ↦ none
  | some m ↦ some (remove_op_return_outputs (collect (λ o. ltb o.value m) (outputs access tx)))
]

abbrev pub unique_of : Option (List Output) → Option (Option Output)
unique_of none = none
unique_of (some candidates) = some (single_or_nullptr candidates)

unfoldable pub unique_change_by_optimal_change : DataAccess → Transaction → Option (Option Output)
unique_change_by_optimal_change access tx = unique_of (change_by_optimal_change access tx)

unfoldable pub all_inputs_same_type : AddressType → List InoutData → Bool
all_inputs_same_type t [] = true
all_inputs_same_type t (i ∷ is) =
    if not (same_type i.address.type t) then false else all_inputs_same_type t is

abbrev pub first_input_type : List InoutData → Option AddressType
first_input_type [] = none
first_input_type (i ∷ is) = some i.address.type

abbrev pub outputs_of_type : DataAccess → Transaction → AddressType → List Output
outputs_of_type access tx t =
    if all_inputs_same_type t tx.inputs
    then collect (λ o. same_type o.address.type t) (outputs access tx)
    else []

unfoldable pub change_by_address_type : DataAccess → Transaction → Option (List Output)
change_by_address_type access tx = elim (first_input_type tx.inputs) [
  | none ↦ none
  | some t ↦ some (remove_op_return_outputs (outputs_of_type access tx t))
]

unfoldable pub unique_change_by_address_type : DataAccess → Transaction → Option (Option Output)
unique_change_by_address_type access tx = unique_of (change_by_address_type access tx)

-- Whether an unspent output, or one spent with the same locktime behaviour.
abbrev pub same_bool : Bool → Bool → Bool
same_bool true b = b
same_bool false b = not b

abbrev pub locktime_matches : DataAccess → Transaction → Output → Bool
locktime_matches access tx o = elim (get_spending_tx access o) [
  | none ↦ true
  | some next ↦ same_bool (ltb 0 next.locktime) (ltb 0 tx.locktime)
]

unfoldable pub change_by_locktime : DataAccess → Transaction → List Output
change_by_locktime access tx =
    remove_op_return_outputs (collect (locktime_matches access tx) (outputs access tx))

unfoldable pub unique_change_by_locktime : DataAccess → Transaction → Option Output
unique_change_by_locktime access tx = single_or_nullptr (change_by_locktime access tx)

-- Membership in the set of the input addresses.
unfoldable pub is_input_address : List InoutData → Address → Bool
is_input_address [] a = false
is_input_address (i ∷ is) a = same_address i.address a || is_input_address is a

unfoldable pub change_by_address_reuse : DataAccess → Transaction → List Output
change_by_address_reuse access tx =
    remove_op_return_outputs
      (collect (λ o. is_input_address tx.inputs o.address) (outputs access tx))

unfoldable pub unique_change_by_address_reuse : DataAccess → Transaction → Option Output
unique_change_by_address_reuse access tx = single_or_nullptr (change_by_address_reuse access tx)

abbrev pub is_fresh : DataAccess → Transaction → Output → Bool
is_fresh access tx o = access.first_tx_index o.address == tx.tx_num

unfoldable pub change_by_client_change_address_behavior : DataAccess → Transaction → List Output
change_by_client_change_address_behavior access tx =
    remove_op_return_outputs
      (collect (λ o. output_spendable o && is_fresh access tx o) (outputs access tx))

unfoldable pub unique_change_by_client_change_address_behavior :
    DataAccess → Transaction → Option Output
unique_change_by_client_change_address_behavior access tx =
    single_or_nullptr (change_by_client_change_address_behavior access tx)
