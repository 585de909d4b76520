-- ===== src/Heuristics/CoinJoin/Extra.antt =====
-- isCoinjoinExtra and isPossibleCoinjoin (src/blocksci/heuristics/tx_identification.cpp). The fee in
-- percent is computed in floating point, a parameter. Maps are walked in the order of a parameter
-- where it matters; the values of the inputs are sorted next.
pub mod InBounds
use block_sci.Prelude.{
  ℕ, zero, suc, ◌+◌, ◌-◌, ◌%◌, ◌^◌, Bool, true, false, not, ◌&&◌, ◌||◌, List, [], ◌∷◌, map, Option,
  none, some, ltb, leb, ◌==◌, if◌then◌else◌, length, get_elem?, set, replicate, select, max,
}
use block_sci.Chain.Types.{
  Address, same_address, InoutData, Transaction, DataAccess, Output, outputs, input_count,
  output_count,
}
use block_sci.Heuristics.CoinJoin.{has_address, output_values, max_element_of, participant_count}
use block_sci.Heuristics.SumCount.{CoinJoinResult, is_false}

-- `inputValues[address] += value`.
unfoldable pub add_value : Address → ℕ → List (Address × ℕ) → List (Address × ℕ)
add_value a v [] = (a, v) ∷ []
add_value a v ((b, n) ∷ values) =
    let later = add_value a v values in
    if same_address b a then (b, (n + v) % 2 ^ 64) ∷ values else (b, n) ∷ later

unfoldable pub input_values : List InoutData → List (Address × ℕ) → List (Address × ℕ)
unfolding add_value
input_values [] values = values
input_values (i ∷ inputs) values = input_values inputs (add_value i.address i.value values)

-- `outputValues[value].insert(address)`.
unfoldable pub insert_output : ℕ → Address → List (ℕ × List Address) → List (ℕ × List Address)
unfolding has_address
insert_output v a [] = (v, a ∷ []) ∷ []
insert_output v a ((w, addresses) ∷ sets) =
    let later = insert_output v a sets in
    if w == v
    then (w, if has_address a addresses then addresses else a ∷ addresses) ∷ sets
    else (w, addresses) ∷ later

unfoldable pub output_sets : List Output → List (ℕ × List Address) → List (ℕ × List Address)
unfolding insert_output
output_sets [] sets = sets
output_sets (o ∷ os) sets = output_sets os (insert_output o.value o.address sets)

abbrev pub set_size : ℕ × List Address → ℕ × ℕ
set_size (v, addresses) = (v, length addresses)

abbrev pub set_sizes : List (ℕ × List Address) → List (ℕ × ℕ)
set_sizes [] = []
set_sizes (e ∷ sets) = set_size e ∷ set_sizes sets

-- The loop that adds each other output to the goal of number `j`; `none` is past the last goal.
unfoldable pub add_others : ℕ → List Output → ℕ → List ℕ → Option (List ℕ)
add_others goal [] j goals = some goals
add_others goal (o ∷ os) j goals =
    if not (o.value == goal)
    then elim (get_elem? goals j) [
      | none ↦ none
      | some g ↦ add_others goal os (suc j) (set j ((g + o.value) % 2 ^ 64) goals)
    ]
    else add_others goal os j goals

abbrev pub less_fee : ℕ → ℕ → ℕ
less_fee fee goal = if ltb goal fee then 0 else goal - fee

abbrev pub values_of : List (Address × ℕ) → List ℕ
values_of [] = []
values_of ((a, v) ∷ values) = v ∷ values_of values

module _ (order : List (ℕ × ℕ) → List (ℕ × ℕ)) (percentage : ℕ → ℕ)
    (get_sum_count : List ℕ → List ℕ → CoinJoinResult) where
  -- From the value that occurs most on.
  unfoldable pub with_goal :
      ℕ → Transaction → List Output → List ℕ → Option (ℕ × ℕ) → Option CoinJoinResult
  unfolding add_others participant_count
  with_goal min_base_fee tx os values none = none
  with_goal min_base_fee tx os values (some (goal, size)) =
      if not (size == participant_count tx)
      then some is_false
      else if goal == 546 || goal == 2730
      then some is_false
      else elim (add_others goal os 0 (replicate (participant_count tx) goal)) [
        | none ↦ none
        | some goals ↦
            some (get_sum_count values (map (less_fee (max min_base_fee (percentage goal))) goals))
      ]

  unfoldable pub is_coinjoin_extra : ℕ → DataAccess → Transaction → Option CoinJoinResult
  unfolding with_goal input_values output_sets max_element_of participant_count
  is_coinjoin_extra min_base_fee access tx =
      if ltb (input_count tx) 2 || ltb (output_count tx) 3
      then some is_false
      else if ltb (input_count tx) (participant_count tx)
      then some is_false
      else if ltb (length (input_values tx.inputs [])) (participant_count tx)
      then some is_false
      else with_goal min_base_fee tx (outputs access tx) (values_of (input_values tx.inputs []))
          (max_element_of (order (set_sizes (output_sets (outputs access tx) []))))

  -- No entry for the address, `inputValues.find(address) == inputValues.end()`.
  abbrev pub is_unknown : List (Address × ℕ) → Output → Bool
  is_unknown [] o = true
  is_unknown ((a, v) ∷ values) o = not (same_address a o.address) && is_unknown values o

  -- The goal of both buckets: the fee is taken off any value above 0, and the subtraction wraps.
  abbrev pub possible_goal : ℕ → ℕ → ℕ
  possible_goal fee value = if ltb 0 value then (value + 2 ^ 64 - fee) % 2 ^ 64 else 0

  -- The last part of isPossibleCoinjoin, on the outputs to unknown addresses.
  unfoldable pub among_unknown : ℕ → List ℕ → Option (ℕ × ℕ) → Option CoinJoinResult
  among_unknown min_base_fee values none = none
  among_unknown min_base_fee values (some (value, count)) =
      let goal = possible_goal (max min_base_fee (percentage value)) value in
      if count == 1 then some is_false else some (get_sum_count values (goal ∷ goal ∷ []))

  unfoldable pub is_possible_coinjoin : ℕ → DataAccess → Transaction → Option CoinJoinResult
  unfolding among_unknown input_values output_values max_element_of
  is_possible_coinjoin min_base_fee access tx =
      let values = input_values tx.inputs [] in
      let unknown = select (is_unknown values) (outputs access tx) in
      if output_count tx == 1 || input_count tx == 1
      then some is_false
      else elim (max_element_of (order (output_values (outputs access tx) []))) [
        | none ↦ none
        | some (value, count) ↦
            if count == 1
            then some is_false
            else if length values == 1
            then some is_false
            else if leb (length unknown) 1
            then some is_false
            else among_unknown min_base_fee (values_of values)
                (max_element_of (order (output_values unknown [])))
      ]
