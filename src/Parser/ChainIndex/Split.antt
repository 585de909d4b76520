-- ===== src/Parser/ChainIndex/Split.antt =====
-- Where the old chain and the new one part: findSplitPointIndex and the loop of updateChain.
use block_sci.Prelude.{
  ℕ, zero, suc, ◌+◌, ◌-◌, ◌≤◌, ◌<◌, ◌≡◌, refl, ◌≢◌, ◌⊎◌, inl, inr, false, List, none, some, ◌==◌,
  ==_iff, length, min, Bool-cases, ltb, ltb→lt, ltb_false→le, subst, arith,
}
use block_sci.Parser.ChainIndex.{
  BlockInfo, hash_at, last_agreement, find_split_point_index, last_difference, update_split_point,
}

extend_range :
    (P : ℕ → Type 0) (s n : ℕ)
    → ((k : ℕ) → s ≤ k → k < n → P k)
    → P n
    → (k : ℕ) → s ≤ k
    → k < suc n
    → P k
extend_range P s n below last k l h = elim (Bool-cases (ltb k n)) [
  | inl lt ↦ below k l (ltb→lt k n lt)
  | inr ge ↦ let e : n ≡ k = omega (arith, ltb_false→le k n ge) in subst P e last
]

differ : (a b : ℕ) → (a == b) ≡ false → a ≢ b
differ a b e h = cc ((==_iff a b).1 h)

-- `s` is one past the highest index below `n` where the two agree.
abbrev pub IsLastAgreement : (ℕ → ℕ) → (ℕ → ℕ) → ℕ → ℕ → Type 0
IsLastAgreement old new n s =
    (1 ≤ s) × (s ≤ n) × (old (s - 1) ≡ new (s - 1)) × ((k : ℕ) → s ≤ k → k < n → old k ≢ new k)

-- `s` is the highest index below `n` where the two differ.
abbrev pub IsLastDifference : (ℕ → ℕ) → (ℕ → ℕ) → ℕ → ℕ → Type 0
IsLastDifference old new n s =
    (s < n) × (old s ≢ new s) × ((k : ℕ) → suc s ≤ k → k < n → old k ≡ new k)

last_agreement_cases :
    (old new : ℕ → ℕ) (n : ℕ)
    → ((s : ℕ) × (last_agreement old new n ≡ some s) × IsLastAgreement old new n s)
      ⊎ ((last_agreement old new n ≡ none) × ((k : ℕ) → 0 ≤ k → k < n → old k ≢ new k))
unfolding last_agreement
last_agreement_cases old new zero = inr (refl, λ k l h. absurd (omega arith))
last_agreement_cases old new (suc n) = elim (Bool-cases (old n == new n)) [
  | inl hit ↦ inl (
    suc n,
    rw hit,
    (
      omega arith,
      omega arith,
      subst (λ k. old k ≡ new k) (omega arith) ((==_iff _ _).0 hit),
      λ k l h. absurd (omega arith),
    ),
  )
  | inr miss ↦ elim (last_agreement_cases old new n) [
    | inl (s, e, (a, b, c, d)) ↦ inl (
      s,
      rw miss e,
      (a, omega arith, c, extend_range (λ k. old k ≢ new k) s n d (differ _ _ miss)),
    )
    | inr (e, d) ↦ inr (rw miss e, extend_range (λ k. old k ≢ new k) 0 n d (differ _ _ miss))
  ]
]

last_difference_cases :
    (old new : ℕ → ℕ) (n : ℕ)
    → ((s : ℕ) × (last_difference old new n ≡ some s) × IsLastDifference old new n s)
      ⊎ ((last_difference old new n ≡ none) × ((k : ℕ) → 0 ≤ k → k < n → old k ≡ new k))
unfolding last_difference
last_difference_cases old new zero = inr (refl, λ k l h. absurd (omega arith))
last_difference_cases old new (suc n) = elim (Bool-cases (old n == new n)) [
  | inl hit ↦ elim (last_difference_cases old new n) [
    | inl (s, e, (a, b, c)) ↦ inl (
      s,
      rw hit e,
      (omega arith, b, extend_range (λ k. old k ≡ new k) (suc s) n c ((==_iff _ _).0 hit)),
    )
    | inr (e, d) ↦ inr (rw hit e, extend_range (λ k. old k ≡ new k) 0 n d ((==_iff _ _).0 hit))
  ]
  | inr miss ↦ inl (n, rw miss, (omega arith, differ _ _ miss, λ k l h. absurd (omega arith)))
]

-- findSplitPointIndex keeps the old blocks up to the highest one whose hash the node still gives,
-- if there is one within the compared range, and that whole range if there is none.
pub find_split_point_index_lem :
    (old : List BlockInfo) (block_height : ℕ) (get_block_hash : ℕ → ℕ)
    → let n = min (length old) block_height in
      let s = find_split_point_index old block_height get_block_hash in
      IsLastAgreement (hash_at old) get_block_hash n s
      ⊎ ((s ≡ n) × ((k : ℕ) → 0 ≤ k → k < n → hash_at old k ≢ get_block_hash k))
unfolding find_split_point_index
find_split_point_index_lem old block_height get_block_hash =
    elim (last_agreement_cases (hash_at old) get_block_hash (min (length old) block_height)) [
      | inl (s, e, p) ↦ rw (e, find_split_point_index) (inl p)
      | inr (e, p) ↦ rw (e, find_split_point_index) (inr (refl, p))
    ]

-- updateChain keeps the old blocks below the highest difference of the two chains within their
-- common length, or that whole length if they agree throughout.
pub update_split_point_lem :
    (old new : List BlockInfo)
    → let n = min (length old) (length new) in
      let s = update_split_point old new in
      IsLastDifference (hash_at old) (hash_at new) n s
      ⊎ ((s ≡ n) × ((k : ℕ) → 0 ≤ k → k < n → hash_at old k ≡ hash_at new k))
unfolding update_split_point
update_split_point_lem old new =
    elim (last_difference_cases (hash_at old) (hash_at new) (min (length old) (length new))) [
      | inl (s, e, p) ↦ rw (e, update_split_point) (inl p)
      | inr (e, p) ↦ rw (e, update_split_point) (inr (refl, p))
    ]

-- If the last two blocks within the common length both differ from those at their places in the new
-- chain, updateChain keeps the lower of them.
pub update_split_point_keeps_stale :
    (old new : List BlockInfo) (m : ℕ)
    → min (length old) (length new) ≡ m + 2
    → hash_at old m ≢ hash_at new m
    → hash_at old (m + 1) ≢ hash_at new (m + 1)
    → (update_split_point old new ≡ m + 1) × (m < update_split_point old new)
update_split_point_keeps_stale old new m e a b = elim (update_split_point_lem old new) [
  | inl (lt, _, agree) ↦ elim (Bool-cases (ltb (update_split_point old new) (m + 1))) [
    | inl low ↦ absurd (b (agree (m + 1) (ltb→lt _ _ low) (omega arith)))
    | inr top ↦ (omega (arith, ltb_false→le _ _ top), omega (arith, ltb_false→le _ _ top))
  ]
  | inr (all, agree) ↦ absurd (a (agree m (omega arith) (omega arith)))
]
