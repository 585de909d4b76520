-- ===== src/Heuristics/Legacy.antt =====
-- uniqueChangeByLegacyHeuristic (src/blocksci/heuristics/change_address.cpp).
use block_sci.Prelude.{
  ℕ, ◌+◌, ◌-◌, ◌%◌, ◌^◌, Bool, ◌&&◌, List, [], ◌∷◌, Option, none, some, ltb, ◌==◌, if◌then◌else◌,
  select,
}
use block_sci.Chain.Types.{Transaction, DataAccess, Output, outputs}
use block_sci.Heuristics.Candidates.{output_spendable}
use block_sci.Heuristics.Change.{smallest_value}
use block_sci.Heuristics.CoinJoin.{is_coinjoin}

-- The test of the inner if, on a spendable output.
abbrev pub is_small_and_fresh : DataAccess → Transaction → ℕ → Output → Bool
is_small_and_fresh access tx smallest o =
    ltb o.value smallest && (access.first_tx_index o.address == tx.tx_num)

-- The loop over the outputs, with spendableCount and change; `none` is the return from inside it.
unfoldable pub legacy_loop :
    (Output → Bool) → List Output → ℕ → Option Output → Option (ℕ × Option Output)
legacy_loop p [] count change = some (count, change)
legacy_loop p (o ∷ os) count change =
    let skipped = legacy_loop p os count change in
    let counted = legacy_loop p os ((count + 1) % 2 ^ 16) change in
    let taken = legacy_loop p os ((count + 1) % 2 ^ 16) (some o) in
    if output_spendable o
    then (if p o then elim change [ none ↦ taken | some c ↦ none ] else counted)
    else skipped

-- `change && spendableCount > 1`.
abbrev pub legacy_result : Option (ℕ × Option Output) → Option Output
legacy_result none = none
legacy_result (some (count, none)) = none
legacy_result (some (count, some change)) = if ltb 1 count then some change else none

unfoldable pub unique_change_by_legacy_heuristic :
    (List (ℕ × ℕ) → List (ℕ × ℕ)) → DataAccess → Transaction → Option Output
unfolding legacy_loop
unique_change_by_legacy_heuristic order access tx =
    if is_coinjoin order access tx
    then none
    else legacy_result (
        legacy_loop (is_small_and_fresh access tx (smallest_value (2 ^ 64 - 1) tx.inputs))
          (outputs access tx) 0 none)

-- The outputs that the loop may take, in order.
abbrev pub legacy_candidates : (Output → Bool) → List Output → List Output
legacy_candidates p os = select p (select output_spendable os)

-- What the loop makes of its candidates.
abbrev outcome : ℕ → Option Output → List Output → Option (ℕ × Option Output)
outcome count change [] = some (count, change)
outcome count none (o ∷ []) = some (count, some o)
outcome count none (o ∷ q ∷ os) = none
outcome count (some c) (o ∷ os) = none
