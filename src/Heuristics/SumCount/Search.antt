-- ===== src/Heuristics/SumCount/Search.antt =====
-- The answers of getSumCount: the order of the values does not matter either.
use block_sci.Prelude.{
  ℕ, ◌+◌, ◌%◌, ◌^◌, ◌<◌, ◌≡◌, refl, ap, ◌∙◌, subst, inl, inr, List, [], ◌∷◌, map, All, arith,
}
use block_sci.Heuristics.SumCount.{
  CoinJoinResult, is_true, is_false, timeout, OutputBucket, new_bucket, wrapped_sum, get_sum_count,
}
use block_sci.Heuristics.SumCount.Fills.{added, AddAt, CanFill, total, all_remaining}
use block_sci.Heuristics.SumCount.Rearranged.{
  Shuffle, same, keep, swap, join, Shuffle-sym, CanFill-Shuffle,
}
use block_sci.Heuristics.SumCount.Verdict.{Ready, HasRoom, Verdict, sum_count-Verdict}

AddAt-swap :
    (v w : ℕ) (bs cs ds : List OutputBucket)
    → AddAt v bs cs
    → AddAt w cs ds
    → (es : List OutputBucket) × AddAt w bs es × AddAt v es ds
unfolding AddAt
AddAt-swap v w [] cs ds h k = absurd h
AddAt-swap v w (b ∷ bs) cs ds h k = elim h [
  | inl e ↦
      let k1 : AddAt w (added v b ∷ bs) ds = subst (λ x. AddAt w x ds) e k in
      elim k1 [
        | inl f ↦ (
          added w b ∷ bs,
          inl refl,
          inl (f ∙ ap (λ x. record b { current_value = x } ∷ bs) order),
        )
        | inr (es, f, a) ↦ (b ∷ es, inr (es, refl, a), inl f)
      ]
  | inr (cs1, e, a) ↦
      let k1 : AddAt w (b ∷ cs1) ds = subst (λ x. AddAt w x ds) e k in
      elim k1 [
        | inl f ↦ (added w b ∷ bs, inl refl, inr (cs1, f, a))
        | inr (ds1, f, c) ↦
            let (es, p, q) = AddAt-swap v w bs cs1 ds1 a c in
            (b ∷ es, inr (es, refl, p), inr (ds1, f, q))
      ]
]
  where
    order : b.current_value + v + w ≡ b.current_value + w + v
    order = omega arith

CanFill-values :
    (vs ws : List ℕ) (bs : List OutputBucket) → Shuffle vs ws → CanFill vs bs → CanFill ws bs
unfolding CanFill
CanFill-values _ _ bs (same vs) h = h
CanFill-values _ _ bs (keep v vs ws s) h = elim h [
  | inl h ↦ inl (CanFill-values vs ws bs s h)
  | inr (cs, a, h) ↦ inr (cs, a, CanFill-values vs ws cs s h)
]
CanFill-values _ _ bs (join us vs ws s t) h =
    CanFill-values vs ws bs t (CanFill-values us vs bs s h)
CanFill-values _ _ bs (swap v w vs) h = elim h [
  | inl k ↦ elim k [ inl g ↦ inl (inl g) | inr (cs, a, g) ↦ inr (cs, a, inl g) ]
  | inr (cs, a, k) ↦ elim k [
    | inl g ↦ inl (inr (cs, a, g))
    | inr (ds, c, g) ↦ let (es, p, q) = AddAt-swap v w bs cs ds a c in inr (es, p, inr (ds, q, g))
  ]
]

total-Shuffle : (vs ws : List ℕ) → Shuffle vs ws → total vs ≡ total ws
total-Shuffle _ _ (same vs) = refl
total-Shuffle _ _ (keep v vs ws s) = omega (arith, total-Shuffle vs ws s)
total-Shuffle _ _ (swap v w vs) = omega arith
total-Shuffle _ _ (join us vs ws s t) = total-Shuffle us vs s ∙ total-Shuffle vs ws t

Shuffle-map :
    (f : ℕ → OutputBucket) (vs ws : List ℕ) → Shuffle vs ws → Shuffle (map f vs) (map f ws)
Shuffle-map f _ _ (same vs) = same (map f vs)
Shuffle-map f _ _ (keep v vs ws s) = keep (f v) (map f vs) (map f ws) (Shuffle-map f vs ws s)
Shuffle-map f _ _ (swap v w vs) = swap (f v) (f w) (map f vs)
Shuffle-map f _ _ (join us vs ws s t) =
    join (map f us) (map f vs) (map f ws) (Shuffle-map f us vs s) (Shuffle-map f vs ws t)

wrapped_sum-total : (vs : List ℕ) (t : ℕ) → t + total vs < 2 ^ 64 → wrapped_sum vs t ≡ t + total vs
wrapped_sum-total [] t h = omega arith
wrapped_sum-total (v ∷ vs) t h =
    let here : (t + v) % 2 ^ 64 ≡ t + v = omega arith in
    ap (wrapped_sum vs) here ∙ wrapped_sum-total vs (t + v) (omega arith) ∙ omega arith

all_remaining-new : (goals : List ℕ) → all_remaining (map new_bucket goals) ≡ total goals
all_remaining-new [] = refl
all_remaining-new (g ∷ goals) = ground (arith, all_remaining-new goals)

new-HasRoom : (n : ℕ) (goals : List ℕ) → n < 2 ^ 64 → All (HasRoom n) (map new_bucket goals)
new-HasRoom n [] h = tt
new-HasRoom n (g ∷ goals) h = (omega arith, new-HasRoom n goals h)

Verdict-Shuffle :
    (max_depth : ℕ) (vs ws : List ℕ) (xs ys : List OutputBucket) (a : CoinJoinResult)
    → Shuffle vs ws
    → Shuffle xs ys
    → Verdict max_depth vs xs a
    → Verdict max_depth ws ys a
Verdict-Shuffle max_depth vs ws xs ys is_true s t h =
    CanFill-Shuffle ws xs ys t (CanFill-values vs ws xs s h)
Verdict-Shuffle max_depth vs ws xs ys is_false s t h = λ f. h (
    CanFill-values ws vs xs (Shuffle-sym vs ws s)
      (CanFill-Shuffle ws ys xs (Shuffle-sym xs ys t) f))
Verdict-Shuffle max_depth vs ws xs ys timeout s t h = h

-- If the sorts only rearrange and the sums fit 64 bits, getSumCount answers True only if each
-- value can be left out or given to one bucket so that every bucket reaches its goal, False only
-- if there is no such way, and Timeout only if there is a limit on the depth.
pub get_sum_count-Verdict :
    (sort : List OutputBucket → List OutputBucket) (sort_values sort_goals : List ℕ → List ℕ)
    → ((bs : List OutputBucket) → Shuffle (sort bs) bs)
    → ((vs : List ℕ) → Shuffle (sort_values vs) vs)
    → ((vs : List ℕ) → Shuffle (sort_goals vs) vs)
    → (values goals : List ℕ) (max_depth : ℕ) → total values < 2 ^ 64
    → total goals < 2 ^ 64
    → Verdict max_depth values
        (map new_bucket goals)
        (get_sum_count sort sort_values sort_goals values goals max_depth)
unfolding get_sum_count
get_sum_count-Verdict sort sort_values sort_goals sorts of_values of_goals values goals max_depth sv
      sg =
    let vs = sort_values values in
    let gs = sort_goals goals in
    let ev = total-Shuffle vs values (of_values values) in
    let eg = total-Shuffle gs goals (of_goals goals) in
    let wg = wrapped_sum-total gs 0 (omega arith) in
    let wv = wrapped_sum-total values 0 (omega arith) in
    let ready : Ready vs (map new_bucket gs) (wrapped_sum gs 0) (wrapped_sum values 0) = record {
      remains = omega (arith, wg, all_remaining-new gs);
      small = omega (arith, wg, eg);
      is_left = omega (arith, wv, ev);
      small_left = omega (arith, wv);
      room = new-HasRoom (total vs) gs (omega (arith, ev));
    } in
    Verdict-Shuffle max_depth vs values (map new_bucket gs) (map new_bucket goals) _
      (of_values values) (Shuffle-map new_bucket gs goals (of_goals goals))
      (sum_count-Verdict sort sorts max_depth vs (map new_bucket gs) (wrapped_sum gs 0)
        (wrapped_sum values 0) 0 ready)
