-- ===== src/Heuristics/SumCount/Verdict.antt =====
-- What the search answers.
use block_sci.Prelude.{
  ℕ, ◌+◌, ◌-◌, ◌%◌, ◌^◌, ◌≤◌, ◌<◌, ◌≡◌, ◌≢◌, refl, sym, ap, ◌∙◌, subst, inl, inr, true, not, ◌&&◌,
  List, [], ◌∷◌, ◌++◌, append_assoc, select, ltb, ltb→lt, ◌==◌, ==_iff, length, All, All-append,
  All-mono, Bool-cases, arith,
}
use block_sci.Heuristics.SumCount.{
  CoinJoinResult, is_true, is_false, timeout, OutputBucket, is_full, not_full, add_input,
  remove_input, remaining, Counted, or_else, try_buckets, sum_count,
}
use block_sci.Heuristics.SumCount.Fills.{
  IsFull, added, AddAt, CanFill, CanFill-when_full, total, all_remaining, CanFill-total,
  CanFill-first,
}
use block_sci.Heuristics.SumCount.Rearranged.{
  Shuffle, Shuffle-sym, length-Shuffle, All-Shuffle, all_remaining-Shuffle, CanFill-Shuffle,
  Padded-select, all_remaining-Padded, All-Padded, CanFill-Padded, CanFill-of_Padded,
}

-- No sum of the values and what a bucket has runs over.
abbrev pub HasRoom : ℕ → OutputBucket → Type 0
HasRoom n b = b.current_value + n < 2 ^ 64

pub record Ready (vs : List ℕ) (bs : List OutputBucket) (t left : ℕ) : Type 0 where
  pub remains : t ≡ all_remaining bs
  pub small : t < 2 ^ 64
  pub is_left : left ≡ total vs
  pub small_left : left < 2 ^ 64
  pub room : All (HasRoom (total vs)) bs

-- What an answer says, with the limit on the depth.
abbrev pub Verdict : ℕ → List ℕ → List OutputBucket → CoinJoinResult → Type 0
Verdict max_depth vs bs is_true = CanFill vs bs
Verdict max_depth vs bs is_false = CanFill vs bs → ⊥
Verdict max_depth vs bs timeout = max_depth ≢ 0

-- The same of the loop, with the buckets tried in front.
Tried : ℕ → ℕ → List ℕ → List OutputBucket → List OutputBucket → CoinJoinResult → Type 0
Tried max_depth v vs tried bs is_true =
    (cs : List OutputBucket) × AddAt v bs cs × CanFill vs (tried ++ cs)
Tried max_depth v vs tried bs is_false =
    (cs : List OutputBucket) → AddAt v bs cs → CanFill vs (tried ++ cs) → ⊥
Tried max_depth v vs tried bs timeout = max_depth ≢ 0

all_remaining-append :
    (xs ys : List OutputBucket) → all_remaining (xs ++ ys) ≡ all_remaining xs + all_remaining ys
all_remaining-append [] ys = omega arith
all_remaining-append (x ∷ xs) ys = omega (arith, all_remaining-append xs ys)

add_input-added : (v n : ℕ) (b : OutputBucket) → HasRoom (v + n) b → add_input v b ≡ added v b
add_input-added v n b h = ap (λ x. record b { current_value = x }) same
  where
    same : (b.current_value + v) % 2 ^ 64 ≡ b.current_value + v
    same = omega (arith, h)

remove_input-added :
    (v n : ℕ) (b : OutputBucket) → HasRoom (v + n) b → remove_input v (added v b) ≡ b
remove_input-added v n b h = ap (λ x. record b { current_value = x }) same
  where
    same : (b.current_value + v + 2 ^ 64 - v) % 2 ^ 64 ≡ b.current_value
    same = omega (arith, h)

remaining-added-le : (v : ℕ) (b : OutputBucket) → remaining (added v b) ≤ remaining b
remaining-added-le v b = ground arith

-- The first answer that is not False, or the one of the rest.
combine :
    (max_depth v : ℕ) (vs : List ℕ) (tried bs : List OutputBucket) (b : OutputBucket) (c : Counted)
    (rest : ℕ → Counted)
    → Verdict max_depth vs (tried ++ added v b ∷ bs) c.0
    → ((d : ℕ) → Tried max_depth v vs (tried ++ b ∷ []) bs (rest d).0)
    → Tried max_depth v vs tried (b ∷ bs) (or_else c rest).0
unfolding Tried AddAt
combine max_depth v vs tried bs b (is_true, d) rest h r = (added v b ∷ bs, inl refl, h)
combine max_depth v vs tried bs b (timeout, d) rest h r = h
combine max_depth v vs tried bs b (is_false, d) rest h r = by_rest (rest d).0 (r d)
  where
    by_rest :
        (a : CoinJoinResult)
        → Tried max_depth v vs (tried ++ b ∷ []) bs a
        → Tried max_depth v vs tried (b ∷ bs) a
    by_rest is_true (cs, a, g) =
        (b ∷ cs, inr (cs, refl, a), subst (CanFill vs) (append_assoc tried (b ∷ []) cs) g)
    by_rest is_false n = λ cs a g. elim a [
      | inl e ↦ h (subst (λ x. CanFill vs (tried ++ x)) e g)
      | inr (ds, e, a) ↦ n ds a (
          subst (CanFill vs) (sym (append_assoc tried (b ∷ []) ds))
            (subst (λ x. CanFill vs (tried ++ x)) e g))
    ]
    by_rest timeout n = n

module _ (max_depth v : ℕ) (vs : List ℕ) (search : List OutputBucket → ℕ → ℕ → Counted)
    (left : ℕ) where
  -- One round of the loop, its arithmetic done.
  round :
      (tried : List OutputBucket) (b : OutputBucket) (bs : List OutputBucket) (t d : ℕ)
      (x y : OutputBucket) (t1 : ℕ)
      → x ≡ added v b
      → y ≡ b
      → t1 ≡ all_remaining (tried ++ added v b ∷ bs)
      → Verdict max_depth vs
          (tried ++ added v b ∷ bs)
          (search (tried ++ added v b ∷ bs) (all_remaining (tried ++ added v b ∷ bs)) d).0
      → ((d1 : ℕ)
          → Tried max_depth v vs
              (tried ++ b ∷ [])
              bs
              (try_buckets v search (tried ++ b ∷ []) bs t d1).0)
      → Tried max_depth v vs tried
          (b ∷ bs)
          (or_else
            (search (tried ++ x ∷ bs) t1 d)
            (λ d1. try_buckets v search (tried ++ y ∷ []) bs t d1)).0
  round tried b bs t d x y t1 ex ey et h r =
      rw (ex, ey, et) (combine max_depth v vs tried bs b _ _ h r)

  try_buckets-Tried :
      ((bs : List OutputBucket) (t d : ℕ)
        → Ready vs bs t left
        → Verdict max_depth vs bs (search bs t d).0)
      → left ≡ total vs
      → left < 2 ^ 64
      → (tried bs : List OutputBucket) (t d : ℕ) → t ≡ all_remaining (tried ++ bs)
      → t < 2 ^ 64
      → All (HasRoom (v + total vs)) tried
      → All (HasRoom (v + total vs)) bs
      → Tried max_depth v vs tried bs (try_buckets v search tried bs t d).0
  unfolding try_buckets Tried AddAt
  try_buckets-Tried correct l ls tried [] t d e s p q = λ cs a g. a
  try_buckets-Tried correct l ls tried (b ∷ bs) t d e s p (h, q) =
      let there = tried ++ added v b ∷ bs in
      let less = remaining-added-le v b in
      let before = all_remaining-append tried (b ∷ bs) in
      let after = all_remaining-append tried (added v b ∷ bs) in
      let put = add_input-added v (total vs) b h in
      let same : remaining (add_input v b) ≡ remaining (added v b) = ap remaining put in
      let moved : ((t + 2 ^ 64 - remaining b) % 2 ^ 64 + remaining (add_input v b)) % 2 ^ 64
          ≡ all_remaining there =
        omega arith in
      let less_room : (c : OutputBucket) → HasRoom (v + total vs) c → HasRoom (total vs) c =
        λ c r. omega arith in
      let ready : Ready vs there (all_remaining there) left = record {
        remains = refl;
        small = omega arith;
        is_left = l;
        small_left = ls;
        room =
            All-append (HasRoom (total vs)) tried (added v b ∷ bs)
              (All-mono (HasRoom (v + total vs)) (HasRoom (total vs)) tried less_room p)
              (
                omega (arith, h),
                All-mono (HasRoom (v + total vs)) (HasRoom (total vs)) bs less_room q,
              );
      } in
      round tried b bs t d (add_input v b) (remove_input v (add_input v b))
        (((t + 2 ^ 64 - remaining b) % 2 ^ 64 + remaining (add_input v b)) % 2 ^ 64) put
        (ap (remove_input v) put ∙ remove_input-added v (total vs) b h) moved
        (correct there (all_remaining there) d ready)
        λ d1.
          try_buckets-Tried correct l ls (tried ++ b ∷ []) bs t d1
            (e ∙ ap all_remaining (sym (append_assoc tried (b ∷ []) bs))) s
            (All-append (HasRoom (v + total vs)) tried (b ∷ []) p (h, tt)) q

none_kept : (bs : List OutputBucket) → length bs ≡ 0 → bs ≡ []
none_kept [] e = refl
none_kept (b ∷ bs) e = absurd (omega arith)

kept_left : (bs : List OutputBucket) → 0 < length (select not_full bs) → All IsFull bs → ⊥
kept_left [] h a = omega arith
kept_left (b ∷ bs) h (f, a) =
    let full : is_full b ≡ true = ground (arith, f) in
    let rest : 0 < length (select not_full bs) = ground (arith, h, full) in kept_left bs rest a

left_out-AddAt :
    (v : ℕ) (vs : List ℕ) (bs : List OutputBucket)
    → 0 < length bs
    → CanFill vs bs
    → (cs : List OutputBucket) × AddAt v bs cs × CanFill vs cs
unfolding AddAt
left_out-AddAt v vs [] h f = absurd (omega arith)
left_out-AddAt v vs (b ∷ bs) h f = (added v b ∷ bs, inl refl, CanFill-first v vs b bs f)

too_much :
    (vs : List ℕ) (bs : List OutputBucket) (t left : ℕ)
    → Ready vs bs t left
    → left < t
    → CanFill vs bs
    → ⊥
too_much vs bs t left r h f = omega (arith, r.remains, r.is_left, CanFill-total vs bs f)

module _ (sort : List OutputBucket → List OutputBucket)
    (sort-Shuffle : (bs : List OutputBucket) → Shuffle (sort bs) bs) (max_depth : ℕ) where
  -- Buckets that are all full answer True.
  nothing_kept :
      (vs : List ℕ) (bs : List OutputBucket) → length (select not_full bs) ≡ 0 → CanFill vs bs
  nothing_kept vs bs e = CanFill-Padded vs (select not_full bs) bs (Padded-select bs) (
      CanFill-when_full vs (select not_full bs)
        (subst (All IsFull) (sym (none_kept (select not_full bs) e)) tt))

  -- From the sorted buckets that are not full to all of them.
  of_sorted :
      (v : ℕ) (vs : List ℕ) (bs : List OutputBucket) (a : CoinJoinResult)
      → 0 < length (select not_full bs)
      → Tried max_depth v vs [] (sort (select not_full bs)) a
      → Verdict max_depth (v ∷ vs) bs a
  unfolding Tried CanFill
  of_sorted v vs bs is_true some_kept (cs, a, h) =
      CanFill-Padded (v ∷ vs) (select not_full bs) bs (Padded-select bs) (
        CanFill-Shuffle (v ∷ vs) (sort (select not_full bs)) (select not_full bs)
          (sort-Shuffle (select not_full bs)) (inr (cs, a, h)))
  of_sorted v vs bs timeout some_kept h = h
  of_sorted v vs bs is_false some_kept h = λ g.
      let kept = CanFill-of_Padded (v ∷ vs) (select not_full bs) bs (Padded-select bs) g in
      let sorted =
        CanFill-Shuffle (v ∷ vs) (select not_full bs) (sort (select not_full bs))
          (Shuffle-sym _ _ (sort-Shuffle (select not_full bs))) kept in
      elim sorted [
        | inl left_out ↦
            let (cs, a, f) =
              left_out-AddAt v vs (sort (select not_full bs))
                (subst (λ x. 0 < x) (sym (length-Shuffle _ _ (sort-Shuffle (select not_full bs))))
                  some_kept)
                left_out in
            h cs a f
        | inr (cs, a, f) ↦ h cs a f
      ]

  -- With the sums that the caller keeps, the search answers True only if the values can fill the
  -- buckets, False only if they cannot, and Timeout only if there is a limit.
  pub sum_count-Verdict :
      (vs : List ℕ) (bs : List OutputBucket) (t left d : ℕ)
      → Ready vs bs t left
      → Verdict max_depth vs bs (sum_count sort max_depth vs bs t left d).0
  unfolding sum_count CanFill
  sum_count-Verdict [] bs t left d r = elim (Bool-cases (ltb left t)) [
    | inl more ↦ rw more (λ f. too_much [] bs t left r (ltb→lt _ _ more) f)
    | inr enough ↦ elim (Bool-cases (length (select not_full bs) == 0)) [
      | inl none_left ↦ rw (enough, none_left) (nothing_kept [] bs ((==_iff _ _).0 none_left))
      | inr some_left ↦ rw (enough, some_left) (λ f. kept_left bs (ground (arith, some_left)) f)
    ]
  ]
  sum_count-Verdict (v ∷ vs) bs t left d r = elim (Bool-cases (ltb left t)) [
    | inl more ↦ rw more (λ f. too_much (v ∷ vs) bs t left r (ltb→lt _ _ more) f)
    | inr enough ↦ elim (Bool-cases (length (select not_full bs) == 0)) [
      | inl none_left ↦ rw (enough, none_left) (nothing_kept (v ∷ vs) bs ((==_iff _ _).0 none_left))
      | inr some_left ↦ elim (Bool-cases (not (max_depth == 0) && ltb max_depth (d + 1))) [
        | inl deep ↦ rw (enough, some_left, deep) (λ e. ground (arith, deep, e))
        | inr shallow ↦
            let kept = select not_full bs in
            let p = Padded-select bs in
            let sh = sort-Shuffle kept in
            let rest : (left + 2 ^ 64 - v) % 2 ^ 64 ≡ total vs =
              omega (arith, r.is_left, r.small_left) in
            rw (enough, some_left, shallow)
              (of_sorted v vs bs _ (ground (arith, some_left)) (
                try_buckets-Tried max_depth v vs
                  (λ cs t1 d1. sum_count sort max_depth vs cs t1 ((left + 2 ^ 64 - v) % 2 ^ 64) d1)
                  ((left + 2 ^ 64 - v) % 2 ^ 64)
                  (λ cs t1 d1 ready. sum_count-Verdict vs cs t1 _ d1 ready) rest (omega arith) []
                  (sort kept) t (d + 1)
                  (r.remains ∙ sym (all_remaining-Shuffle _ _ sh ∙ all_remaining-Padded _ _ p))
                  r.small tt
                  (All-Shuffle (HasRoom (v + total vs)) kept (sort kept) (Shuffle-sym _ _ sh)
                    (All-Padded (HasRoom (v + total vs)) kept bs p r.room))))
      ]
    ]
  ]
