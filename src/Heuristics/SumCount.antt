-- ===== src/Heuristics/SumCount.antt =====
-- getSumCount (src/blocksci/heuristics/tx_identification.cpp): the search for a way in which the
-- inputs fill the outputs of a coinjoin. std::sort is a parameter.
pub mod Fills
pub mod Rearranged
pub mod Verdict
pub mod Search
use block_sci.Prelude.{
  ℕ, zero, suc, ◌+◌, ◌-◌, ◌%◌, ◌^◌, Bool, true, false, not, ◌&&◌, List, [], ◌∷◌, ◌++◌, map, ltb,
  leb, ◌==◌, if◌then◌else◌, length, select,
}

pub data CoinJoinResult : Type 0 where
  is_true is_false timeout : CoinJoinResult

pub record OutputBucket : Type 0 where
  pub current_value : ℕ
  pub goal_value : ℕ

abbrev pub is_full : OutputBucket → Bool
is_full b = leb b.goal_value b.current_value

abbrev pub add_input : ℕ → OutputBucket → OutputBucket
add_input v b = record b { current_value = (b.current_value + v) % 2 ^ 64 }

abbrev pub remove_input : ℕ → OutputBucket → OutputBucket
remove_input v b = record b { current_value = (b.current_value + 2 ^ 64 - v) % 2 ^ 64 }

abbrev pub remaining : OutputBucket → ℕ
remaining b = if ltb b.current_value b.goal_value then b.goal_value - b.current_value else 0

-- A result with the depth counted so far.
abbrev pub Counted : Type 0
Counted = CoinJoinResult × ℕ

-- `if (res != CoinJoinResult::False) return res;` in front of the rest of the loop.
abbrev pub or_else : Counted → (ℕ → Counted) → Counted
or_else (is_false, depth) rest = rest depth
or_else (is_true, depth) rest = (is_true, depth)
or_else (timeout, depth) rest = (timeout, depth)

-- The loop over the buckets, those that were tried in front. `search` is the recursive call.
unfoldable pub try_buckets :
    ℕ
    → (List OutputBucket → ℕ → ℕ → Counted)
    → List OutputBucket
    → List OutputBucket
    → ℕ
    → ℕ
    → Counted
try_buckets v search tried [] total depth = (is_false, depth)
try_buckets v search tried (b ∷ buckets) total depth =
    let added = add_input v b in
    or_else
      (search (tried ++ added ∷ buckets)
        (((total + 2 ^ 64 - remaining b) % 2 ^ 64 + remaining added) % 2 ^ 64) depth)
      λ d. try_buckets v search (tried ++ remove_input v added ∷ []) buckets total d

abbrev pub not_full : OutputBucket → Bool
not_full b = not (is_full b)

-- The vector of values has its back at the head of the list.
module _ (sort : List OutputBucket → List OutputBucket) (max_depth : ℕ) where
  unfoldable pub sum_count : List ℕ → List OutputBucket → ℕ → ℕ → ℕ → Counted
  unfolding try_buckets
  sum_count [] buckets total left depth =
      if ltb left total
      then (is_false, depth)
      else if length (select not_full buckets) == 0
      then (is_true, depth)
      else (is_false, depth)
  sum_count (v ∷ values) buckets total left depth =
      let tries =
        try_buckets v (λ bs t d. sum_count values bs t ((left + 2 ^ 64 - v) % 2 ^ 64) d) []
          (sort (select not_full buckets)) total (depth + 1) in
      if ltb left total
      then (is_false, depth)
      else if length (select not_full buckets) == 0
      then (is_true, depth)
      else if not (max_depth == 0) && ltb max_depth (depth + 1)
      then (timeout, depth + 1)
      else tries

abbrev pub new_bucket : ℕ → OutputBucket
new_bucket goal = record { current_value = 0; goal_value = goal }

-- A sum of uint64_t.
abbrev pub wrapped_sum : List ℕ → ℕ → ℕ
wrapped_sum [] total = total
wrapped_sum (v ∷ vs) total = wrapped_sum vs ((total + v) % 2 ^ 64)

-- `sort_values` puts the back of the sorted vector first; `sort_goals` is from the largest down.
unfoldable pub get_sum_count :
    (List OutputBucket → List OutputBucket)
    → (List ℕ → List ℕ)
    → (List ℕ → List ℕ)
    → List ℕ
    → List ℕ
    → ℕ
    → CoinJoinResult
unfolding sum_count
get_sum_count sort sort_values sort_goals values goals max_depth =
    (sum_count sort max_depth (sort_values values) (map new_bucket (sort_goals goals))
      (wrapped_sum (sort_goals goals) 0) (wrapped_sum values 0) 0).0
