-- ===== src/Heuristics/SumCount/Fills.antt =====
-- What the search looks for: a way to give values to buckets that fills them.
use block_sci.Prelude.{ℕ, ◌+◌, ◌≤◌, ◌≡◌, refl, ◌⊎◌, inl, inr, List, [], ◌∷◌, All, arith}
use block_sci.Heuristics.SumCount.{OutputBucket, remaining}

abbrev pub IsFull : OutputBucket → Type 0
IsFull b = b.goal_value ≤ b.current_value

abbrev pub added : ℕ → OutputBucket → OutputBucket
added v b = record b { current_value = b.current_value + v }

-- The second list has the value in one of the first one's buckets.
unfoldable pub AddAt : ℕ → List OutputBucket → List OutputBucket → Type 0
AddAt v [] cs = ⊥
AddAt v (b ∷ bs) cs =
    (cs ≡ added v b ∷ bs) ⊎ ((ds : List OutputBucket) × (cs ≡ b ∷ ds) × AddAt v bs ds)

-- Each value is left out or given to one bucket, and at the end all are full.
unfoldable pub CanFill : List ℕ → List OutputBucket → Type 0
CanFill [] bs = All IsFull bs
CanFill (v ∷ vs) bs = CanFill vs bs ⊎ ((cs : List OutputBucket) × AddAt v bs cs × CanFill vs cs)

pub CanFill-when_full : (vs : List ℕ) (bs : List OutputBucket) → All IsFull bs → CanFill vs bs
unfolding CanFill
CanFill-when_full [] bs h = h
CanFill-when_full (v ∷ vs) bs h = inl (CanFill-when_full vs bs h)

abbrev pub total : List ℕ → ℕ
total [] = 0
total (v ∷ vs) = v + total vs

abbrev pub all_remaining : List OutputBucket → ℕ
all_remaining [] = 0
all_remaining (b ∷ bs) = remaining b + all_remaining bs

pub remaining_full : (b : OutputBucket) → IsFull b → remaining b ≡ 0
remaining_full b h = ground arith

remaining-added : (v : ℕ) (b : OutputBucket) → remaining b ≤ remaining (added v b) + v
remaining-added v b = ground arith

all_remaining_full : (bs : List OutputBucket) → All IsFull bs → all_remaining bs ≡ 0
all_remaining_full [] h = refl
all_remaining_full (b ∷ bs) (h, r) = omega (arith, remaining_full b h, all_remaining_full bs r)

AddAt-remaining :
    (v : ℕ) (bs cs : List OutputBucket) → AddAt v bs cs → all_remaining bs ≤ all_remaining cs + v
unfolding AddAt
AddAt-remaining v [] cs h = absurd h
AddAt-remaining v (b ∷ bs) cs h = elim h [
  | inl e ↦ rw e (omega (arith, remaining-added v b))
  | inr (ds, e, h) ↦ rw e (omega (arith, AddAt-remaining v bs ds h))
]

-- No way fills more than there is.
pub CanFill-total :
    (vs : List ℕ) (bs : List OutputBucket) → CanFill vs bs → all_remaining bs ≤ total vs
unfolding CanFill
CanFill-total [] bs h = omega (arith, all_remaining_full bs h)
CanFill-total (v ∷ vs) bs h = elim h [
  | inl h ↦ omega (arith, CanFill-total vs bs h)
  | inr (cs, a, h) ↦ omega (arith, CanFill-total vs cs h, AddAt-remaining v bs cs a)
]

-- The same buckets, with no less in each.
Fuller : List OutputBucket → List OutputBucket → Type 0
Fuller [] cs = cs ≡ []
Fuller (b ∷ bs) cs =
    (c : OutputBucket) × (ds : List OutputBucket) × (cs ≡ c ∷ ds)
    × (b.current_value ≤ c.current_value)
    × (b.goal_value ≡ c.goal_value)
    × Fuller bs ds

Fuller-refl : (bs : List OutputBucket) → Fuller bs bs
unfolding Fuller
Fuller-refl [] = refl
Fuller-refl (b ∷ bs) = (b, bs, refl, omega arith, refl, Fuller-refl bs)

Fuller-IsFull : (bs cs : List OutputBucket) → Fuller bs cs → All IsFull bs → All IsFull cs
unfolding Fuller
Fuller-IsFull [] cs e h = rw e tt
Fuller-IsFull (b ∷ bs) cs (c, ds, e, l, g, f) (h, r) =
    rw e ((omega (arith, l, g, h)), Fuller-IsFull bs ds f r)

Fuller-AddAt :
    (v : ℕ) (bs cs bs1 : List OutputBucket)
    → Fuller bs cs
    → AddAt v bs bs1
    → (cs1 : List OutputBucket) × AddAt v cs cs1 × Fuller bs1 cs1
unfolding Fuller AddAt
Fuller-AddAt v [] cs bs1 f h = absurd h
Fuller-AddAt v (b ∷ bs) cs bs1 (c, ds, e, l, g, f) h = elim h [
  | inl e1 ↦ (added v c ∷ ds, rw e (inl refl), rw e1 (added v c, ds, refl, omega (arith, l), g, f))
  | inr (bs2, e1, h) ↦
      let (ds1, a, f1) = Fuller-AddAt v bs ds bs2 f h in
      (c ∷ ds1, rw e (inr (ds1, refl, a)), rw e1 (c, ds1, refl, l, g, f1))
]

CanFill-Fuller :
    (vs : List ℕ) (bs cs : List OutputBucket) → Fuller bs cs → CanFill vs bs → CanFill vs cs
unfolding CanFill
CanFill-Fuller [] bs cs f h = Fuller-IsFull bs cs f h
CanFill-Fuller (v ∷ vs) bs cs f h = elim h [
  | inl h ↦ inl (CanFill-Fuller vs bs cs f h)
  | inr (bs1, a, h) ↦
      let (cs1, a1, f1) = Fuller-AddAt v bs cs bs1 f a in
      inr (cs1, a1, CanFill-Fuller vs bs1 cs1 f1 h)
]

-- A value may as well go to the first bucket as be left out.
pub CanFill-first :
    (v : ℕ) (vs : List ℕ) (b : OutputBucket) (bs : List OutputBucket)
    → CanFill vs (b ∷ bs)
    → CanFill vs (added v b ∷ bs)
unfolding Fuller
CanFill-first v vs b bs h =
    CanFill-Fuller vs (b ∷ bs) (added v b ∷ bs)
      (added v b, bs, refl, omega arith, refl, Fuller-refl bs) h
