-- ===== src/Tests/Joins.antt =====
-- The search for a coinjoin, and the tests of a transaction, on small inputs.
use block_sci.Prelude.{ℕ, ◌≡◌, ◌≢◌, refl, ◌↔◌, true, List, [], ◌∷◌, map, some, All, arith}
use block_sci.Chain.Types.{
  AddressType, pubkeyhash, scripthash, InoutData, Transaction, DataAccess, output_count, outputs,
}
use block_sci.Heuristics.CoinJoin.Extra.{is_coinjoin_extra, is_possible_coinjoin}
use block_sci.Heuristics.CoinJoin.Extra.InBounds.{is_coinjoin_extra_total}
use block_sci.Heuristics.Deanon.{is_deanon_tx, is_deanon_tx_lem, HasType, of_type}
use block_sci.Heuristics.SumCount.{
  CoinJoinResult, is_true, is_false, timeout, get_sum_count, new_bucket,
}
use block_sci.Heuristics.SumCount.Rearranged.{same}
use block_sci.Heuristics.SumCount.Search.{get_sum_count-Verdict}
use block_sci.Heuristics.SumCount.Verdict.{Verdict}

abbrev search : List ℕ → List ℕ → ℕ → CoinJoinResult
search = get_sum_count (λ l. l) (λ l. l) (λ l. l)

-- 5 fills one bucket, 3 and 4 the other.
two_buckets : search (3 ∷ 4 ∷ 5 ∷ []) (6 ∷ 5 ∷ []) 0 ≡ is_true
unfolding get_sum_count
two_buckets = refl

-- 12 in all, but no two parts of at least 6.
no_split : search (2 ∷ 3 ∷ 7 ∷ []) (6 ∷ 6 ∷ []) 0 ≡ is_false
unfolding get_sum_count
no_split = refl

too_deep : search (3 ∷ 4 ∷ 5 ∷ []) (6 ∷ 5 ∷ []) 1 ≡ timeout
unfolding get_sum_count
too_deep = refl

get_sum_count-Verdict_example :
    Verdict 0
      (3 ∷ 4 ∷ 5 ∷ [])
      (map new_bucket (6 ∷ 5 ∷ []))
      (get_sum_count (λ l. l) (λ l. l) (λ l. l) (3 ∷ 4 ∷ 5 ∷ []) (6 ∷ 5 ∷ []) 0)
get_sum_count-Verdict_example =
    get_sum_count-Verdict (λ l. l) (λ l. l) (λ l. l) same same same (3 ∷ 4 ∷ 5 ∷ []) (6 ∷ 5 ∷ []) 0
      (omega arith) (omega arith)

abbrev inout : ℕ → AddressType → ℕ → InoutData
inout num type value = record {
  linked_tx_num = 3;
  address = record { script_num = num; type = type };
  value = value;
}

-- Two inputs and three outputs, two of them of one value.
abbrev tx : Transaction
tx = record {
  tx_num = 20;
  locktime = 0;
  inputs = inout 1 pubkeyhash 700 ∷ inout 2 pubkeyhash 900 ∷ [];
  raw_outputs = inout 3 scripthash 600 ∷ inout 4 pubkeyhash 90 ∷ inout 5 scripthash 600 ∷ [];
}

abbrev access : DataAccess
access = record { max_loaded_tx = 30; get_tx = λ n. tx; first_tx_index = λ a. 20 }

is_deanon_tx_lem_example : (is_deanon_tx tx ≡ true) ↔ (
    (output_count tx ≢ 1)
    × All (HasType pubkeyhash) (inout 2 pubkeyhash 900 ∷ [])
    × (of_type pubkeyhash tx.raw_outputs ≡ 1))
is_deanon_tx_lem_example =
    is_deanon_tx_lem tx (inout 1 pubkeyhash 700) (inout 2 pubkeyhash 900 ∷ []) refl

abbrev sums : List ℕ → List ℕ → CoinJoinResult
sums values goals = search values goals 0

is_coinjoin_extra_total_example :
    (r : CoinJoinResult) × (is_coinjoin_extra (λ l. l) (λ g. g) sums 100 access tx ≡ some r)
is_coinjoin_extra_total_example =
    is_coinjoin_extra_total (λ l. l) (λ g. g) sums 100 access tx (λ e l. (λ h. h, λ h. h))
      (omega arith)

-- 700 and 900 fill 600 and 690.
joined_extra : is_coinjoin_extra (λ l. l) (λ g. 0) sums 0 access tx ≡ some is_true
unfolding is_coinjoin_extra outputs get_sum_count
joined_extra = refl

-- With a fee above the value the goal wraps around, and what would be possible is refused.
wrapped_goal : is_possible_coinjoin (λ l. l) (λ g. 0) sums 601 access tx ≡ some is_false
unfolding is_possible_coinjoin outputs get_sum_count
wrapped_goal = refl

enough_without : is_possible_coinjoin (λ l. l) (λ g. 0) sums 600 access tx ≡ some is_true
unfolding is_possible_coinjoin outputs get_sum_count
enough_without = refl
