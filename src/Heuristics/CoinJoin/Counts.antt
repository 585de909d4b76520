-- ===== src/Heuristics/CoinJoin/Counts.antt =====
-- The map from values to counts that isCoinjoin fills, and the largest element of its walk.
use block_sci.Prelude.{
  ℕ, suc, ◌+◌, ◌%◌, ◌^◌, ◌≤◌, ◌<◌, ◌≡◌, refl, sym, ap, ◌∙◌, subst, ◌⊎◌, inl, inr, false, List, [],
  ◌∷◌, some, ltb, ltb→lt, ltb_false→le, ◌==◌, ==_iff, if◌then◌else◌, length, Bool-cases, arith,
}
use block_sci.Chain.Types.{Output}
use block_sci.Heuristics.Candidates.{In}
use block_sci.Heuristics.CoinJoin.{count_value, output_values, max_element, max_element_of}

-- How many of the outputs have the value.
abbrev pub occurrences : ℕ → List Output → ℕ
occurrences v [] = 0
occurrences v (o ∷ os) = if o.value == v then suc (occurrences v os) else occurrences v os

-- The count that a map has for a value, 0 for a missing one.
abbrev pub count_of : ℕ → List (ℕ × ℕ) → ℕ
count_of v [] = 0
count_of v ((w, n) ∷ counts) = if w == v then n else count_of v counts

count_of-count_value :
    (v w : ℕ) (counts : List (ℕ × ℕ))
    → count_of v (count_value w counts)
      ≡ (if w == v then (count_of v counts + 1) % 2 ^ 16 else count_of v counts)
unfolding count_value
count_of-count_value v w [] = ground arith
count_of-count_value v w ((u, n) ∷ counts) = ground (arith, count_of-count_value v w counts)

pub count_of-output_values :
    (v : ℕ) (os : List Output) (counts : List (ℕ × ℕ))
    → count_of v counts + length os < 2 ^ 16
    → count_of v (output_values os counts) ≡ count_of v counts + occurrences v os
unfolding output_values
count_of-output_values v [] counts small = omega arith
count_of-output_values v (o ∷ os) counts small =
    let step = count_of-count_value v o.value counts in
    elim (Bool-cases (o.value == v)) [
      | inl hit ↦
          let more : count_of v (count_value o.value counts) ≡ count_of v counts + 1 =
            ground (arith, step, hit, small) in
          rw hit (
            count_of-output_values v os (count_value o.value counts) (omega (arith, more, small))
            ∙ omega (arith, more))
      | inr miss ↦
          let same : count_of v (count_value o.value counts) ≡ count_of v counts =
            step ∙ rw miss refl in
          rw miss (
            count_of-output_values v os (count_value o.value counts) (omega (arith, same, small))
            ∙ omega (arith, same))
    ]

abbrev IsMissing : ℕ → List (ℕ × ℕ) → Type 0
IsMissing v [] = Unit
IsMissing v ((w, n) ∷ counts) = ((w == v) ≡ false) × IsMissing v counts

-- No value has two entries.
abbrev pub IsMap : List (ℕ × ℕ) → Type 0
IsMap [] = Unit
IsMap ((w, n) ∷ counts) = IsMissing w counts × IsMap counts

count_value-IsMissing :
    (v w : ℕ) (counts : List (ℕ × ℕ))
    → (w == v) ≡ false
    → IsMissing v counts
    → IsMissing v (count_value w counts)
unfolding count_value
count_value-IsMissing v w [] e m = (e, tt)
count_value-IsMissing v w ((u, n) ∷ counts) e m = elim (Bool-cases (u == w)) [
  | inl hit ↦ rw hit m
  | inr miss ↦ rw miss (m.0, count_value-IsMissing v w counts e m.1)
]

count_value-IsMap : (w : ℕ) (counts : List (ℕ × ℕ)) → IsMap counts → IsMap (count_value w counts)
unfolding count_value
count_value-IsMap w [] m = (tt, tt)
count_value-IsMap w ((u, n) ∷ counts) m = elim (Bool-cases (u == w)) [
  | inl hit ↦ rw hit m
  | inr miss ↦
      rw miss (
        count_value-IsMissing u w counts (ground (arith, miss)) m.0,
        count_value-IsMap w counts m.1,
      )
]

pub output_values-IsMap :
    (os : List Output) (counts : List (ℕ × ℕ)) → IsMap counts → IsMap (output_values os counts)
unfolding output_values
output_values-IsMap [] counts m = m
output_values-IsMap (o ∷ os) counts m =
    output_values-IsMap os (count_value o.value counts) (count_value-IsMap o.value counts m)

not_missing : (v n : ℕ) (counts : List (ℕ × ℕ)) → IsMissing v counts → In (v, n) counts → ⊥
not_missing v n [] m h = h
not_missing v n ((w, k) ∷ counts) m h = elim h [
  | inl e ↦ ground (arith, m.0, ap (λ (x : ℕ × ℕ). x.0) e)
  | inr h ↦ not_missing v n counts m.1 h
]

pub count_of-In :
    (v n : ℕ) (counts : List (ℕ × ℕ)) → IsMap counts → In (v, n) counts → count_of v counts ≡ n
count_of-In v n [] m h = absurd h
count_of-In v n ((w, k) ∷ counts) m h = elim h [
  | inl e ↦ ground (arith, ap (λ (x : ℕ × ℕ). x.0) e, ap (λ (x : ℕ × ℕ). x.1) e)
  | inr h ↦ elim (Bool-cases (w == v)) [
    | inl hit ↦
        absurd (not_missing v n counts (subst (λ x. IsMissing x counts) ((==_iff w v).0 hit) m.0) h)
    | inr miss ↦ rw miss (count_of-In v n counts m.1 h)
  ]
]

pub In-count_of :
    (v n : ℕ) (counts : List (ℕ × ℕ)) → count_of v counts ≡ n → 0 < n → In (v, n) counts
In-count_of v n [] e h = absurd (omega arith)
In-count_of v n ((w, k) ∷ counts) e h = elim (Bool-cases (w == v)) [
  | inl hit ↦
      let same : k ≡ n = ground (arith, e, hit) in
      inl (ap (λ x. (x, n)) (sym ((==_iff w v).0 hit)) ∙ ap (λ x. (w, x)) (sym same))
  | inr miss ↦ inr (In-count_of v n counts (ground (arith, e, miss)) h)
]

abbrev larger : ℕ × ℕ → ℕ × ℕ → ℕ × ℕ
larger best e = if ltb best.1 e.1 then e else best

larger-cases :
    (best e : ℕ × ℕ)
    → ((larger best e ≡ e) × (best.1 < e.1)) ⊎ ((larger best e ≡ best) × (e.1 ≤ best.1))
larger-cases best e = elim (Bool-cases (ltb best.1 e.1)) [
  | inl more ↦ inl (rw more refl, ltb→lt _ _ more)
  | inr less ↦ inr (rw less refl, ltb_false→le _ _ less)
]

max_element-In : (best : ℕ × ℕ) (es : List (ℕ × ℕ)) → In (max_element best es) (best ∷ es)
unfolding max_element
max_element-In best [] = inl refl
max_element-In best (f ∷ es) = elim (max_element-In (larger best f) es) [
  | inl e ↦ elim (larger-cases best f) [ inl p ↦ inr (inl (e ∙ p.0)) | inr p ↦ inl (e ∙ p.0) ]
  | inr m ↦ inr (inr m)
]

larger_upper : (best e : ℕ × ℕ) → (best.1 ≤ (larger best e).1) × (e.1 ≤ (larger best e).1)
larger_upper best e = ground arith

max_element_le : (best : ℕ × ℕ) (es : List (ℕ × ℕ)) → best.1 ≤ (max_element best es).1
unfolding max_element
max_element_le best [] = omega arith
max_element_le best (f ∷ es) =
    omega (arith, max_element_le (larger best f) es, (larger_upper best f).0)

max_element_upper : (best e : ℕ × ℕ) (es : List (ℕ × ℕ)) → In e es → e.1 ≤ (max_element best es).1
unfolding max_element
max_element_upper best e [] h = absurd h
max_element_upper best e (f ∷ es) h = elim h [
  | inl same ↦ omega (
    arith,
    ap (λ (x : ℕ × ℕ). x.1) same,
    (larger_upper best f).1,
    max_element_le (larger best f) es,
  )
  | inr h ↦ max_element_upper (larger best f) e es h
]

-- The largest element of a map's walk: one of them, and none has a larger second component.
pub max_element_of_lem :
    (l : List (ℕ × ℕ)) (r : ℕ × ℕ)
    → max_element_of l ≡ some r
    → In r l × ((e : ℕ × ℕ) → In e l → e.1 ≤ r.1)
unfolding max_element_of
max_element_of_lem [] r h = absurd (ground (arith, h))
max_element_of_lem (b ∷ es) r h =
    let same : max_element b es ≡ r = ground (arith, h) in
    (
      subst (λ x. In x (b ∷ es)) same (max_element-In b es),
      λ e m.
          subst (λ (x : ℕ × ℕ). e.1 ≤ x.1) same
            (elim m [
              | inl first ↦ omega (arith, ap (λ (x : ℕ × ℕ). x.1) first, max_element_le b es)
              | inr later ↦ max_element_upper b e es later
            ]),
    )
