-- ===== src/Clustering/Segments/Cover.antt =====
-- Which indexes segmentWork visits: all of them, once and in order, if it starts at 0; fewer if not.
use block_sci.Prelude.{
  ℕ, zero, suc, ◌+◌, ◌-◌, ◌*◌, ◌/◌, ◌%◌, ◌^◌, ◌≤◌, ◌<◌, ◌≡◌, refl, sym, ap, ◌∙◌, subst, inl, inr,
  List, [], ◌∷◌, ◌++◌, map, some, ltb, lt→ltb, ltb-false, ltb_false→le, append-nil, if◌then◌else◌,
  length, length-append, concat, All, All-append, Bool-cases, arith,
}
use native.Mathlib.Omega.{div_any}
use native.Mathlib.Nat.{mod-lt}
use block_sci.Clustering.Segments.{
  range, run_segment, cut_segments, spawn, run_segments, segment_work,
}

-- The segments that the loop cuts when `n` of them are still to come.
abbrev cut : ℕ → ℕ → ℕ → ℕ → ℕ → List (ℕ × ℕ)
cut start size zero left i = []
cut start size (suc n) left i =
    let next = i + size + (if ltb 0 left then 1 else 0) in
    (i + start, next) ∷ cut start size n (left - 1) next

length-cut : (start size n left i : ℕ) → length (cut start size n left i) ≡ n
length-cut start size zero left i = refl
length-cut start size (suc n) left i = ap suc (length-cut start size n (left - 1) _)

-- The end of a segment does not wrap around.
abbrev next : ℕ → ℕ → ℕ → ℕ
next size left i = i + size + (if ltb 0 left then 1 else 0)

no_wrap :
    (size left i : ℕ)
    → i + size + left < 2 ^ 32
    → (if ltb 0 left then ((i + size) % 2 ^ 32 + 1) % 2 ^ 32 else (i + size) % 2 ^ 32)
      ≡ next size left i
no_wrap size left i b = ground arith

next_left :
    (size n left i : ℕ)
    → left ≤ suc n
    → (next size left i + n * size + (left - 1) ≡ i + suc n * size + left) × (left - 1 ≤ n)
next_left size n left i l = (ground arith, omega arith)

cut_segments-cut :
    (fuel start total size n left i : ℕ)
    → total ≡ i + n * size + left
    → left ≤ n
    → 0 < size
    → n ≤ fuel
    → total + start < 2 ^ 32
    → cut_segments fuel start total size left i ≡ some (cut start size n left i)
unfolding cut_segments
cut_segments-cut zero start total size zero left i e l s f b = ground arith
cut_segments-cut zero start total size (suc n) left i e l s f b = absurd (omega arith)
cut_segments-cut (suc fuel) start total size zero left i e l s f b = ground arith
cut_segments-cut (suc fuel) start total size (suc n) left i e l s f b =
    let (e', l') = next_left size n left i l in
    rw
      (
        no_wrap size left i (omega (arith, e, more)),
        lt→ltb i total (omega (arith, e, more)),
        cut_segments-cut fuel start total size n (left - 1) (next size left i) (e ∙ sym e') l' s
            (omega arith) b,
      )
      (ap (λ x. some ((x, next size left i) ∷ cut start size n (left - 1) (next size left i)))
        small)
  where
    more : suc n * size ≡ size + n * size
    more = omega arith

    small : (i + start) % 2 ^ 32 ≡ i + start
    small = omega (arith, e, more)

spawn-drop :
    (s : ℕ × ℕ) (segments : List (ℕ × ℕ)) (n i : ℕ)
    → spawn (s ∷ segments) n (suc i) ≡ spawn segments n i
unfolding spawn
spawn-drop s segments zero i = refl
spawn-drop s segments (suc n) i = ground (arith, spawn-drop s segments n (suc i))

-- With one segment for each thread, every segment is run, in order.
run_segments-map :
    (segments : List (ℕ × ℕ)) (n : ℕ)
    → length segments ≡ suc n
    → run_segments segments (suc n) ≡ some (map run_segment segments)
unfolding run_segments spawn
run_segments-map [] n e = absurd (omega arith)
run_segments-map (s ∷ []) zero e = refl
run_segments-map (s ∷ []) (suc n) e = absurd (omega arith)
run_segments-map (s ∷ t ∷ ss) zero e = absurd (omega arith)
run_segments-map (s ∷ t ∷ ss) (suc n) e =
    let ih = run_segments-map (t ∷ ss) n (omega arith) in
    ground (arith, spawn-drop s (t ∷ ss) n 0, ih)

pub range-append : (a m n : ℕ) → range a (m + n) ≡ range a m ++ range (a + m) n
range-append a zero n = ap (λ x. range a x) zero_add ∙ ap (λ x. range x n) add_zero
  where
    zero_add : 0 + n ≡ n
    zero_add = omega arith

    add_zero : a ≡ a + 0
    add_zero = omega arith
range-append a (suc m) n =
    ap (λ x. range a x) more
    ∙ ap (λ (l : List ℕ). a ∷ l) (range-append (suc a) m n)
    ∙ ap (λ x. range a (suc m) ++ range x n) later
  where
    more : suc m + n ≡ suc (m + n)
    more = omega arith

    later : suc a + m ≡ a + suc m
    later = omega arith

pub length-range : (a n : ℕ) → length (range a n) ≡ n
length-range a zero = refl
length-range a (suc n) = ap suc (length-range (suc a) n)

pub range_below : (bound a n : ℕ) → a + n ≤ bound → All (λ i. i < bound) (range a n)
range_below bound a zero h = tt
range_below bound a (suc n) h = (omega arith, range_below bound (suc a) n (omega arith))

-- The segments that start at 0 join to one stretch.
concat-cut :
    (size n left i : ℕ)
    → left ≤ n
    → concat (map run_segment (cut 0 size n left i)) ≡ range i (n * size + left)
concat-cut size zero left i l = ap (λ x. range i x) none_left
  where
    none_left : 0 ≡ zero * size + left
    none_left = omega arith
concat-cut size (suc n) left i l =
    let e = next size left i in
    let (split, l') = next_left size n left i l in
    let first : i + 0 ≡ i = omega arith in
    let after : e ≡ i + (e - i) = omega arith in
    let whole : (e - i) + (n * size + (left - 1)) ≡ suc n * size + left = omega (arith, split) in
    ap (λ x. range x (e - x) ++ concat (map run_segment (cut 0 size n (left - 1) e))) first
    ∙ ap (λ x. range i (e - i) ++ x) (concat-cut size n (left - 1) e l')
    ∙ ap (λ x. range i (e - i) ++ range x (n * size + (left - 1))) after
    ∙ sym (range-append i (e - i) (n * size + (left - 1)))
    ∙ ap (λ x. range i x) whole

-- Each segment that starts elsewhere is `start` short of that.
length-concat-cut :
    (start size n left i : ℕ)
    → start ≤ size
    → left ≤ n
    → length (concat (map run_segment (cut start size n left i))) + n * start ≡ n * size + left
length-concat-cut start size zero left i s l = omega arith
length-concat-cut start size (suc n) left i s l =
    let e = next size left i in
    let (split, l') = next_left size n left i l in
    omega (
      arith,
      length-append (range (i + start) (e - (i + start)))
          (concat (map run_segment (cut start size n (left - 1) e))),
      length-range (i + start) (e - (i + start)),
      length-concat-cut start size n (left - 1) e s l',
      next_size,
      split,
    )
  where
    next_size : i + size ≤ next size left i
    next_size = omega arith

cut_below :
    (start size n left i : ℕ)
    → start ≤ size
    → left ≤ n
    → All (λ j. j < i + n * size + left) (concat (map run_segment (cut start size n left i)))
cut_below start size zero left i s l = tt
cut_below start size (suc n) left i s l =
    let e = next size left i in
    let (split, l') = next_left size n left i l in
    All-append (λ j. j < i + suc n * size + left) (range (i + start) (e - (i + start))) _
      (range_below (i + suc n * size + left) (i + start) (e - (i + start)) bound)
      (subst (λ x. All (λ j. j < x) (concat (map run_segment (cut start size n (left - 1) e))))
        split (cut_below start size n (left - 1) e s l'))
  where
    bound : i + start + (next size left i - (i + start)) ≤ i + suc n * size + left
    bound = let (split, l') = next_left size n left i l in omega (arith, split, reaches)
      where
        reaches : i + size ≤ next size left i
        reaches = omega arith

-- What is left after the whole segments, and that these are not empty.
division :
    (total count : ℕ)
    → 0 < count
    → count ≤ total
    → (total ≡ count * (total / count) + total % count)
      × (total % count < count)
      × (0 < total / count)
division total count p h = (sym whole, rest, positive (total / count) refl)
  where
    whole : count * (total / count) + total % count ≡ total
    whole = div_any total count

    rest : total % count < count
    rest = mod-lt total p

    positive : (q : ℕ) → total / count ≡ q → 0 < total / count
    positive zero e =
        let none_whole : count * (total / count) ≡ 0 = ap (λ x. count * x) e ∙ omega arith in
        absurd (omega (arith, none_whole, whole, rest, h))
    positive (suc q) e = omega (arith, e)

pub segment_work-cut :
    (start end n : ℕ)
    → start + suc n ≤ end
    → end < 2 ^ 32
    → segment_work start end (suc n)
      ≡ some (map run_segment (cut start ((end - start) / suc n) (suc n) ((end - start) % suc n) 0))
unfolding segment_work
segment_work-cut start end n few b =
    let total : (end + 2 ^ 32 - start) % 2 ^ 32 ≡ end - start = omega arith in
    let (whole, rest, positive) = division (end - start) (suc n) (omega arith) (omega arith) in
    rw
      (
        total,
        ltb-false (end - start) (suc n) (omega arith),
        cut_segments-cut (end - start) start (end - start) ((end - start) / suc n) (suc n)
            ((end - start) % suc n) 0 (whole ∙ omega arith) (omega (arith, rest)) positive
            (omega arith) (omega arith),
      )
      (run_segments-map (cut start ((end - start) / suc n) (suc n) ((end - start) % suc n) 0) n
        (length-cut start ((end - start) / suc n) (suc n) ((end - start) % suc n) 0))

-- For a positive number of segments and an end below 2 ^ 32, segmentWork from 0 ends, and its
-- threads, one after the other, give the job each index below the end once and in order.
pub segment_work-range :
    (end count : ℕ)
    → 0 < count
    → end < 2 ^ 32
    → (ws : List (List ℕ)) × (segment_work 0 end count ≡ some ws) × (concat ws ≡ range 0 end)
unfolding segment_work
segment_work-range end zero p b = absurd (omega arith)
segment_work-range end (suc n) p b = elim (Bool-cases (ltb end (suc n))) [
  | inl few ↦
      let total : (end + 2 ^ 32 - 0) % 2 ^ 32 ≡ end = omega arith in
      let all : end - 0 ≡ end = omega arith in
      (
        range 0 (end - 0) ∷ [],
        rw (total, few) refl,
        append-nil (range 0 (end - 0)) ∙ ap (λ x. range 0 x) all,
      )
  | inr many ↦
      let all : end - 0 ≡ end = omega arith in
      let (whole, rest, positive) =
        division (end - 0) (suc n) p (omega (arith, ltb_false→le _ _ many)) in
      (
        _,
        segment_work-cut 0 end n (omega (arith, ltb_false→le _ _ many)) b,
        concat-cut ((end - 0) / suc n) (suc n) ((end - 0) % suc n) 0 (omega (arith, rest))
            ∙ ap (λ x. range 0 x) (sym whole ∙ all),
      )
]

-- From a start that is no larger than the size of a segment, with at least one index for each
-- segment and an end below 2 ^ 32, segmentWork ends, but as many indexes as the start are left out
-- for each segment, and none from the number of indexes on is visited.
pub segment_work_misses :
    (start end count : ℕ)
    → 0 < count
    → start + count ≤ end
    → end < 2 ^ 32
    → start ≤ (end - start) / count
    → (ws : List (List ℕ)) × (segment_work start end count ≡ some ws)
      × (length (concat ws) + count * start ≡ end - start)
      × All (λ i. i < end - start) (concat ws)
segment_work_misses start end zero p few b s = absurd (omega arith)
segment_work_misses start end (suc n) p few b s =
    let (whole, rest, positive) = division (end - start) (suc n) p (omega arith) in
    let size = (end - start) / suc n in
    let left = (end - start) % suc n in
    (
      _,
      segment_work-cut start end n few b,
      length-concat-cut start size (suc n) left 0 s (omega (arith, rest)) ∙ sym whole,
      subst (λ x. All (λ j. j < x) (concat (map run_segment (cut start size (suc n) left 0))))
          (from_zero (suc n * size) left ∙ sym whole)
          (cut_below start size (suc n) left 0 s (omega (arith, rest))),
    )
  where
    from_zero : (a b : ℕ) → 0 + a + b ≡ a + b
    from_zero a b = omega arith
