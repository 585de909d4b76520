-- ===== src/Heuristics/CoinJoin.antt =====
-- isCoinjoin (src/blocksci/heuristics/tx_identification.cpp). The order in which a std::unordered_map
-- is walked is a parameter.
pub mod Counts
pub mod Signs
pub mod Extra
use block_sci.Prelude.{
  ℕ, zero, suc, ◌+◌, ◌%◌, ◌/◌, ◌^◌, ◌≡◌, Bool, true, false, not, ◌&&◌, ◌||◌, List, [], ◌∷◌, Option,
  none, some, ltb, ◌==◌, if◌then◌else◌, length,
}
use block_sci.Chain.Types.{
  Address, same_address, InoutData, Transaction, DataAccess, Output, outputs, input_count,
  output_count,
}

-- std::unordered_set<Address>.
unfoldable pub has_address : Address → List Address → Bool
has_address a [] = false
has_address a (b ∷ bs) = same_address b a || has_address a bs

unfoldable pub input_addresses : List InoutData → List Address → List Address
unfolding has_address
input_addresses [] seen = seen
input_addresses (i ∷ is) seen =
    input_addresses is (if has_address i.address seen then seen else i.address ∷ seen)

-- `outputValues[value]++` on the map from a value to a uint16_t.
unfoldable pub count_value : ℕ → List (ℕ × ℕ) → List (ℕ × ℕ)
count_value v [] = (v, 1) ∷ []
count_value v ((w, n) ∷ counts) =
    let rest = count_value v counts in
    if w == v then (w, (n + 1) % 2 ^ 16) ∷ counts else (w, n) ∷ rest

unfoldable pub output_values : List Output → List (ℕ × ℕ) → List (ℕ × ℕ)
unfolding count_value
output_values [] counts = counts
output_values (o ∷ os) counts = output_values os (count_value o.value counts)

-- std::max_element by the second component: the first of the largest, after the one found so far.
unfoldable pub max_element : ℕ × ℕ → List (ℕ × ℕ) → ℕ × ℕ
max_element best [] = best
max_element best (e ∷ es) = max_element (if ltb best.1 e.1 then e else best) es

unfoldable pub max_element_of : List (ℕ × ℕ) → Option (ℕ × ℕ)
unfolding max_element
max_element_of [] = none
max_element_of (e ∷ es) = some (max_element e es)

-- uint16_t participantCount = (outputCount + 1) / 2.
unfoldable pub participant_count : Transaction → ℕ
participant_count tx = (output_count tx + 1) / 2 % 2 ^ 16

-- What is asked of the most frequent value; `none` is the end of an empty map.
unfoldable pub is_joined_value : ℕ → Option (ℕ × ℕ) → Bool
is_joined_value participants none = false
is_joined_value participants (some (value, count)) =
    if not (count == participants)
    then false
    else if value == 546 || value == 2730
    then false
    else true

module _ (order : List (ℕ × ℕ) → List (ℕ × ℕ)) where
  unfoldable pub is_coinjoin : DataAccess → Transaction → Bool
  unfolding input_addresses output_values max_element_of participant_count is_joined_value
  is_coinjoin access tx =
      if ltb (input_count tx) 2 || ltb (output_count tx) 3
      then false
      else if ltb (input_count tx) (participant_count tx)
      then false
      else if ltb (length (input_addresses tx.inputs [])) (participant_count tx)
      then false
      else is_joined_value (participant_count tx)
          (max_element_of (order (output_values (outputs access tx) [])))
