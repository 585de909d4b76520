-- ===== src/Clustering/Segments.antt =====
-- segmentWork (src/clustering/src/clusterer/main.cpp): the indexes that each of its threads gives to
-- the job.
pub mod Cover
use block_sci.Prelude.{
  ℕ, zero, suc, ◌+◌, ◌-◌, ◌/◌, ◌%◌, ◌^◌, List, [], ◌∷◌, ◌++◌, Option, none, some, ltb,
  if◌then◌else◌, get_elem?,
}

-- The loop from the first to before the second index of a segment.
abbrev pub range : ℕ → ℕ → List ℕ
range a zero = []
range a (suc n) = a ∷ range (suc a) n

abbrev pub run_segment : ℕ × ℕ → List ℕ
run_segment (first, second) = range first (second - first)

abbrev pub emplace {ℓ} : {A : Type ℓ} → A → Option (List A) → Option (List A)
emplace x none = none
emplace x (some xs) = some (x ∷ xs)

-- The loop that cuts the work, with fuel; `none` is a loop that has not ended.
unfoldable pub cut_segments : ℕ → ℕ → ℕ → ℕ → ℕ → ℕ → Option (List (ℕ × ℕ))
cut_segments zero start total size remaining i = if ltb i total then none else some []
cut_segments (suc fuel) start total size remaining i =
    let next =
      if ltb 0 remaining then ((i + size) % 2 ^ 32 + 1) % 2 ^ 32 else (i + size) % 2 ^ 32 in
    let rest = cut_segments fuel start total size (remaining - 1) next in
    if ltb i total then emplace ((i + start) % 2 ^ 32, next) rest else some []

-- The first `n` threads from segment `i` on; `none` is a segment that is not there.
unfoldable pub spawn : List (ℕ × ℕ) → ℕ → ℕ → Option (List (List ℕ))
spawn segments zero i = some []
spawn segments (suc n) i = elim (get_elem? segments i) [
  | none ↦ none
  | some s ↦ emplace (run_segment s) (spawn segments n (suc i))
]

-- `segments.back()`.
abbrev pub back : List (ℕ × ℕ) → Option (ℕ × ℕ)
back [] = none
back (s ∷ []) = some s
back (s ∷ t ∷ ss) = back (t ∷ ss)

-- The threads, and last the calling one.
unfoldable pub run_segments : List (ℕ × ℕ) → ℕ → Option (List (List ℕ))
unfolding spawn
run_segments segments count = elim (spawn segments (count - 1) 0) [
  | none ↦ none
  | some ts ↦ elim (back segments) [ none ↦ none | some s ↦ some (ts ++ run_segment s ∷ []) ]
]

unfoldable pub segment_work : ℕ → ℕ → ℕ → Option (List (List ℕ))
unfolding cut_segments run_segments
segment_work start end count =
    let total = (end + 2 ^ 32 - start) % 2 ^ 32 in
    if ltb total count
    then some (range start (end - start) ∷ [])
    else elim (cut_segments total start total (total / count) (total % count) 0) [
      | none ↦ none
      | some segments ↦ run_segments segments count
    ]
