-- ===== src/Heuristics/CoinJoin/Extra/InBounds.antt =====
-- isCoinjoinExtra stays inside its vector of goals.
use block_sci.Prelude.{
  ℕ, suc, ◌+◌, ◌%◌, ◌^◌, ◌≤◌, ◌<◌, ◌≡◌, refl, sym, ap, subst, ◌↔◌, inl, inr, ◌||◌, List, [], ◌∷◌,
  map, some, ltb, ◌==◌, ==_iff, if◌then◌else◌, length, length-set, length-replicate, replicate,
  get_elem?_below, set, All, All-mono, Bool-cases, arith, max,
}
use block_sci.Chain.Types.{
  Address, Transaction, DataAccess, Output, outputs, input_count, output_count,
}
use block_sci.Heuristics.Candidates.{In}
use block_sci.Heuristics.CoinJoin.{has_address, max_element_of, participant_count}
use block_sci.Heuristics.CoinJoin.Counts.{occurrences, max_element_of_lem}
use block_sci.Heuristics.CoinJoin.Signs.{length-outputs, participant_count_small}
use block_sci.Heuristics.SumCount.{CoinJoinResult, is_false}
use block_sci.Heuristics.CoinJoin.Extra.{
  insert_output, output_sets, set_sizes, add_others, less_fee, input_values, values_of, with_goal,
  is_coinjoin_extra,
}

-- No set is larger than the bound for its value.
IsBounded : (ℕ → ℕ) → ℕ × List Address → Type 0
IsBounded f (v, addresses) = length addresses ≤ f v

insert_output-IsBounded :
    (f : ℕ → ℕ) (v : ℕ) (a : Address) (sets : List (ℕ × List Address))
    → All (IsBounded f) sets
    → All (IsBounded (λ w. f w + (if v == w then 1 else 0))) (insert_output v a sets)
unfolding IsBounded insert_output
insert_output-IsBounded f v a [] h = (ground arith, tt)
insert_output-IsBounded f v a ((w, addresses) ∷ sets) (h, r) = elim (Bool-cases (w == v)) [
  | inl same ↦
      let new : length (if has_address a addresses then addresses else a ∷ addresses)
          ≤ f w + (if v == w then 1 else 0) =
        ground (arith, same, h) in
      rw same (
        new,
        All-mono (IsBounded f) (IsBounded (λ w. f w + (if v == w then 1 else 0))) sets
            (λ e l. omega arith) r,
      )
  | inr other ↦ rw other (omega arith, insert_output-IsBounded f v a sets r)
]

output_sets-IsBounded :
    (f : ℕ → ℕ) (os : List Output) (sets : List (ℕ × List Address))
    → All (IsBounded f) sets
    → All (IsBounded (λ v. f v + occurrences v os)) (output_sets os sets)
unfolding IsBounded output_sets
output_sets-IsBounded f [] sets h =
    All-mono (IsBounded f) (IsBounded (λ v. f v + 0)) sets (λ e l. omega arith) h
output_sets-IsBounded f (o ∷ os) sets h =
    All-mono (IsBounded (λ v. (f v + (if o.value == v then 1 else 0)) + occurrences v os))
      (IsBounded (λ v. f v + occurrences v (o ∷ os)))
      (output_sets os (insert_output o.value o.address sets)) (λ e l. ground (arith, l))
      (output_sets-IsBounded (λ v. f v + (if o.value == v then 1 else 0)) os
        (insert_output o.value o.address sets) (insert_output-IsBounded f o.value o.address sets h))

In-set_sizes :
    (f : ℕ → ℕ) (sets : List (ℕ × List Address)) (v n : ℕ)
    → All (IsBounded f) sets
    → In (v, n) (set_sizes sets)
    → n ≤ f v
unfolding IsBounded
In-set_sizes f [] v n h m = absurd m
In-set_sizes f ((w, addresses) ∷ sets) v n (h, r) m = elim m [
  | inl e ↦
      let ev : v ≡ w = ap (λ (x : ℕ × ℕ). x.0) e in
      let en : n ≡ length addresses = ap (λ (x : ℕ × ℕ). x.1) e in
      subst (λ x. n ≤ f x) (sym ev) (omega (arith, en, h))
  | inr m ↦ In-set_sizes f sets v n r m
]

occurrences_le : (v : ℕ) (os : List Output) → occurrences v os ≤ length os
occurrences_le v [] = omega arith
occurrences_le v (o ∷ os) = ground (arith, occurrences_le v os)

-- The loop over the other outputs stays inside as long as there are goals for them.
add_others-some :
    (goal : ℕ) (os : List Output) (j : ℕ) (goals : List ℕ)
    → length os + j ≤ length goals + occurrences goal os
    → (after : List ℕ) × (add_others goal os j goals ≡ some after)
unfolding add_others
add_others-some goal [] j goals h = (goals, refl)
add_others-some goal (o ∷ os) j goals h = elim (Bool-cases (o.value == goal)) [
  | inl same ↦
      let (after, e) = add_others-some goal os j goals (ground (arith, same, h)) in
      (after, ground (arith, same, e))
  | inr other ↦
      let (g, here) = get_elem?_below j goals (ground (arith, other, h, occurrences_le goal os)) in
      let next = set j ((g + o.value) % 2 ^ 64) goals in
      let (after, e) =
        add_others-some goal os (suc j) next
          (ground (arith, other, h, length-set j ((g + o.value) % 2 ^ 64) goals)) in
      (after, ground (arith, other, here, e))
]

module _ (order : List (ℕ × ℕ) → List (ℕ × ℕ)) (percentage : ℕ → ℕ)
    (get_sum_count : List ℕ → List ℕ → CoinJoinResult) where
  -- A value whose set has a member for each participant leaves few enough others.
  with_goal-some :
      (min_base_fee : ℕ) (tx : Transaction) (os : List Output) (values : List ℕ) (goal size : ℕ)
      → (size ≡ participant_count tx → length os ≤ participant_count tx + occurrences goal os)
      → (r : CoinJoinResult) × (with_goal order percentage get_sum_count min_base_fee tx os values
            (some (goal, size))
          ≡ some r)
  unfolding with_goal
  with_goal-some min_base_fee tx os values goal size few =
      elim (Bool-cases (size == participant_count tx)) [
        | inr other ↦ (is_false, ground (arith, other))
        | inl same ↦ elim (Bool-cases (goal == 546 || goal == 2730)) [
          | inl usual ↦ (is_false, ground (arith, same, usual))
          | inr unusual ↦
              let goals = replicate (participant_count tx) goal in
              let (after, e) = add_others-some goal os 0 goals (
                omega (
                  arith,
                  few ((==_iff size (participant_count tx)).0 same),
                  length-replicate (participant_count tx) goal,
                )) in
              (
                get_sum_count values (map (less_fee (max min_base_fee (percentage goal))) after),
                ground (arith, same, unusual, e),
              )
        ]
      ]

  some_maximum : (l : List (ℕ × ℕ)) (e : ℕ × ℕ) → In e l → (r : ℕ × ℕ) × (max_element_of l ≡ some r)
  unfolding max_element_of
  some_maximum [] e m = absurd m
  some_maximum (x ∷ l) e m = (_, refl)

  some_set :
      (v : ℕ) (a : Address) (sets : List (ℕ × List Address))
      → (e : ℕ × ℕ) × In e (set_sizes (insert_output v a sets))
  unfolding insert_output
  some_set v a [] = (_, inl refl)
  some_set v a ((w, addresses) ∷ sets) = elim (Bool-cases (w == v)) [
    | inl same ↦ (
      (w, length (if has_address a addresses then addresses else a ∷ addresses)),
      rw same (inl refl),
    )
    | inr other ↦ ((w, length addresses), rw other (inl refl))
  ]

  -- The map of at least one output is not empty.
  some_sets :
      (os : List Output) (e : ℕ × ℕ) (sets : List (ℕ × List Address))
      → In e (set_sizes sets)
      → (f : ℕ × ℕ) × In f (set_sizes (output_sets os sets))
  unfolding output_sets
  some_sets [] e sets m = (e, m)
  some_sets (o ∷ os) e sets m =
      let (f, n) = some_set o.value o.address sets in
      some_sets os f (insert_output o.value o.address sets) n

  some_output :
      (os : List Output) → 0 < length os → (f : ℕ × ℕ) × In f (set_sizes (output_sets os []))
  unfolding output_sets
  some_output [] h = absurd (omega arith)
  some_output (o ∷ os) h =
      let (f, n) = some_set o.value o.address [] in
      some_sets os f (insert_output o.value o.address []) n

  -- If the walk of a map meets just its entries, isCoinjoinExtra on a transaction of fewer than 2
  -- ^ 16 outputs never writes past its vector of goals and never reads the end of its map: it has
  -- an answer.
  pub is_coinjoin_extra_total :
      (min_base_fee : ℕ) (access : DataAccess) (tx : Transaction)
      → ((e : ℕ × ℕ) (l : List (ℕ × ℕ)) → In e (order l) ↔ In e l)
      → output_count tx < 2 ^ 16
      → (r : CoinJoinResult) × (is_coinjoin_extra order percentage get_sum_count min_base_fee access
            tx
          ≡ some r)
  unfolding is_coinjoin_extra
  is_coinjoin_extra_total min_base_fee access tx same_entries small =
      elim (Bool-cases (ltb (input_count tx) 2 || ltb (output_count tx) 3)) [
        | inl few ↦ (is_false, ground (arith, few))
        | inr enough ↦ elim (Bool-cases (ltb (input_count tx) (participant_count tx))) [
          | inl few ↦ (is_false, ground (arith, enough, few))
          | inr inputs ↦
              elim (Bool-cases (ltb (length (input_values tx.inputs [])) (participant_count tx))) [
                | inl few ↦ (is_false, ground (arith, enough, inputs, few))
                | inr addresses ↦
                    let os = outputs access tx in
                    let sets = output_sets os [] in
                    let len = length-outputs access tx in
                    let half = participant_count_small tx small in
                    let (f, m) = some_output os (ground (arith, enough, len)) in
                    let ((goal, size), top) =
                      some_maximum (order (set_sizes sets)) f
                        ((same_entries f (set_sizes sets)).1 m) in
                    let among = (max_element_of_lem (order (set_sizes sets)) (goal, size) top).0 in
                    let bound : size ≤ 0 + occurrences goal os =
                      In-set_sizes (λ v. 0 + occurrences v os) sets goal size
                        (output_sets-IsBounded (λ v. 0) os [] tt)
                        ((same_entries (goal, size) (set_sizes sets)).0 among) in
                    let (r, e) =
                      with_goal-some min_base_fee tx os (values_of (input_values tx.inputs [])) goal
                        size (λ s. omega (arith, s, bound, len, half)) in
                    (r, ground (arith, enough, inputs, addresses, top, e))
              ]
        ]
      ]
