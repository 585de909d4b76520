-- ===== src/Tests/Heuristics.antt =====
-- The change heuristics on a transaction of two inputs and three outputs.
use block_sci.Prelude.{ℕ, ◌<◌, ◌≡◌, refl, ◌↔◌, true, List, [], ◌∷◌, some, All, arith}
use block_sci.Chain.Types.{
  AddressType, pubkeyhash, scripthash, null_data, InoutData, Transaction, DataAccess, Output,
  outputs, make_output,
}
use block_sci.Heuristics.Change.{smallest_value}
use block_sci.Heuristics.CoinJoin.{is_coinjoin}
use block_sci.Heuristics.CoinJoin.Signs.{IsJoined, is_coinjoin-IsJoined}
use block_sci.Heuristics.Legacy.{unique_change_by_legacy_heuristic}
use block_sci.Heuristics.Candidates.{In, output_spendable}
use block_sci.Heuristics.Change.{change_by_optimal_change}
use block_sci.Heuristics.Change.Meaning.{In-change_by_optimal_change}

abbrev inout : ℕ → ℕ → AddressType → ℕ → InoutData
inout linked num type value = record {
  linked_tx_num = linked;
  address = record { script_num = num; type = type };
  value = value;
}

abbrev first_input : InoutData
first_input = inout 3 7 pubkeyhash 500

abbrev second_input : InoutData
second_input = inout 4 8 pubkeyhash 900

abbrev change_output : InoutData
change_output = inout 0 7 pubkeyhash 123

abbrev tx : Transaction
tx = record {
  tx_num = 20;
  locktime = 0;
  inputs = first_input ∷ second_input ∷ [];
  raw_outputs = inout 21 9 scripthash 1000 ∷ change_output ∷ inout 0 2 null_data 0 ∷ [];
}

abbrev access : DataAccess
access = record {
  max_loaded_tx = 30;
  get_tx = λ n. record { tx_num = n; locktime = 5; inputs = []; raw_outputs = [] };
  first_tx_index = λ a. 20;
}

abbrev change : Output
change = make_output access 20 1 change_output

In-change_by_optimal_change_example :
    (s : List Output) × (change_by_optimal_change access tx ≡ some s)
    × (In change s ↔ (
        In change (outputs access tx)
        × All (λ j. change.value < j.value) (first_input ∷ second_input ∷ [])
        × (output_spendable change ≡ true)))
In-change_by_optimal_change_example =
    In-change_by_optimal_change access tx change first_input (second_input ∷ []) refl

-- Two inputs, and two outputs of the same value beside a third.
abbrev joined : Transaction
joined = record {
  tx_num = 22;
  locktime = 0;
  inputs = first_input ∷ second_input ∷ [];
  raw_outputs =
      inout 0 10 pubkeyhash 600 ∷ inout 0 11 pubkeyhash 150 ∷ inout 0 12 pubkeyhash 600 ∷ [];
}

is_coinjoin-IsJoined_example : (value : ℕ) × IsJoined access joined value
unfolding is_coinjoin outputs
is_coinjoin-IsJoined_example =
    is_coinjoin-IsJoined (λ l. l) access joined (λ e l. (λ h. h, λ h. h)) (omega arith) refl

-- That transaction has a change output.
found : unique_change_by_legacy_heuristic (λ l. l) access tx ≡ some change
unfolding unique_change_by_legacy_heuristic is_coinjoin outputs smallest_value
found = refl
