-- ===== src/Heuristics/SumCount/Rearranged.antt =====
-- What can be filled does not depend on the order of the buckets, nor on the full ones.
use block_sci.Prelude.{
  ℕ, suc, ◌≡◌, refl, ap, ◌∙◌, ◌⊎◌, inl, inr, List, [], ◌∷◌, select, leb→le, length, All, Bool-cases,
  arith,
}
use block_sci.Heuristics.SumCount.{OutputBucket, not_full, is_full}
use block_sci.Heuristics.SumCount.Fills.{
  IsFull, added, AddAt, CanFill, all_remaining, remaining_full,
}

-- The same elements in another order.
pub data Shuffle {A : Type 0} : List A → List A → Type 0 where
  same : (xs : List A) → Shuffle xs xs
  keep : (x : A) (xs ys : List A) → Shuffle xs ys → Shuffle (x ∷ xs) (x ∷ ys)
  swap : (x y : A) (xs : List A) → Shuffle (x ∷ y ∷ xs) (y ∷ x ∷ xs)
  join : (xs ys zs : List A) → Shuffle xs ys → Shuffle ys zs → Shuffle xs zs

pub Shuffle-sym : {A : Type 0} (xs ys : List A) → Shuffle xs ys → Shuffle ys xs
Shuffle-sym _ _ (same xs) = same xs
Shuffle-sym _ _ (keep x xs ys s) = keep x ys xs (Shuffle-sym xs ys s)
Shuffle-sym _ _ (swap x y xs) = swap y x xs
Shuffle-sym _ _ (join xs ys zs s t) = join zs ys xs (Shuffle-sym ys zs t) (Shuffle-sym xs ys s)

pub length-Shuffle : {A : Type 0} (xs ys : List A) → Shuffle xs ys → length xs ≡ length ys
length-Shuffle _ _ (same xs) = refl
length-Shuffle _ _ (keep x xs ys s) = ap suc (length-Shuffle xs ys s)
length-Shuffle _ _ (swap x y xs) = refl
length-Shuffle _ _ (join xs ys zs s t) = length-Shuffle xs ys s ∙ length-Shuffle ys zs t

pub All-Shuffle :
    (P : OutputBucket → Type 0) (xs ys : List OutputBucket) → Shuffle xs ys → All P xs → All P ys
All-Shuffle P _ _ (same xs) h = h
All-Shuffle P _ _ (keep x xs ys s) h = (h.0, All-Shuffle P xs ys s h.1)
All-Shuffle P _ _ (swap x y xs) h = (h.1.0, (h.0, h.1.1))
All-Shuffle P _ _ (join xs ys zs s t) h = All-Shuffle P ys zs t (All-Shuffle P xs ys s h)

pub all_remaining-Shuffle :
    (xs ys : List OutputBucket) → Shuffle xs ys → all_remaining xs ≡ all_remaining ys
all_remaining-Shuffle _ _ (same xs) = refl
all_remaining-Shuffle _ _ (keep x xs ys s) = omega (arith, all_remaining-Shuffle xs ys s)
all_remaining-Shuffle _ _ (swap x y xs) = omega arith
all_remaining-Shuffle _ _ (join xs ys zs s t) =
    all_remaining-Shuffle xs ys s ∙ all_remaining-Shuffle ys zs t

AddAt-Shuffle :
    (v : ℕ) (xs ys cs : List OutputBucket)
    → Shuffle xs ys
    → AddAt v xs cs
    → (ds : List OutputBucket) × AddAt v ys ds × Shuffle cs ds
unfolding AddAt
AddAt-Shuffle v _ _ cs (same xs) h = (cs, h, same cs)
AddAt-Shuffle v _ _ cs (keep x xs ys s) h = elim h [
  | inl e ↦ (added v x ∷ ys, inl refl, rw e (keep (added v x) xs ys s))
  | inr (cs1, e, a) ↦
      let (ds, b, t) = AddAt-Shuffle v xs ys cs1 s a in
      (x ∷ ds, inr (ds, refl, b), rw e (keep x cs1 ds t))
]
AddAt-Shuffle v _ _ cs (swap x y xs) h = elim h [
  | inl e ↦ (y ∷ added v x ∷ xs, inr (added v x ∷ xs, refl, inl refl), rw e (swap (added v x) y xs))
  | inr (cs1, e, a) ↦ elim a [
    | inl f ↦ (added v y ∷ x ∷ xs, inl refl, rw (e, f) (swap x (added v y) xs))
    | inr (cs2, f, b) ↦
        (y ∷ x ∷ cs2, inr (x ∷ cs2, refl, inr (cs2, refl, b)), rw (e, f) (swap x y cs2))
  ]
]
AddAt-Shuffle v _ _ cs (join xs ys zs s t) h =
    let (ds, a, p) = AddAt-Shuffle v xs ys cs s h in
    let (es, b, q) = AddAt-Shuffle v ys zs ds t a in (es, b, join cs ds es p q)

pub CanFill-Shuffle :
    (vs : List ℕ) (xs ys : List OutputBucket) → Shuffle xs ys → CanFill vs xs → CanFill vs ys
unfolding CanFill
CanFill-Shuffle [] xs ys s h = All-Shuffle IsFull xs ys s h
CanFill-Shuffle (v ∷ vs) xs ys s h = elim h [
  | inl h ↦ inl (CanFill-Shuffle vs xs ys s h)
  | inr (cs, a, h) ↦
      let (ds, b, t) = AddAt-Shuffle v xs ys cs s a in inr (ds, b, CanFill-Shuffle vs cs ds t h)
]

-- The second list has full buckets more.
pub data Padded : List OutputBucket → List OutputBucket → Type 0 where
  none_left : Padded [] []
  both : (b : OutputBucket) (xs ys : List OutputBucket) → Padded xs ys → Padded (b ∷ xs) (b ∷ ys)
  extra :
      (b : OutputBucket) (xs ys : List OutputBucket) → IsFull b → Padded xs ys → Padded xs (b ∷ ys)

pub Padded-select : (bs : List OutputBucket) → Padded (select not_full bs) bs
Padded-select [] = none_left
Padded-select (b ∷ bs) = elim (Bool-cases (is_full b)) [
  | inl full ↦ rw full (extra b (select not_full bs) bs (leb→le _ _ full) (Padded-select bs))
  | inr left ↦ rw left (both b (select not_full bs) bs (Padded-select bs))
]

pub all_remaining-Padded :
    (xs ys : List OutputBucket) → Padded xs ys → all_remaining xs ≡ all_remaining ys
all_remaining-Padded _ _ none_left = refl
all_remaining-Padded _ _ (both b xs ys p) = omega (arith, all_remaining-Padded xs ys p)
all_remaining-Padded _ _ (extra b xs ys f p) =
    omega (arith, all_remaining-Padded xs ys p, remaining_full b f)

pub All-Padded :
    (P : OutputBucket → Type 0) (xs ys : List OutputBucket) → Padded xs ys → All P ys → All P xs
All-Padded P _ _ none_left h = tt
All-Padded P _ _ (both b xs ys p) h = (h.0, All-Padded P xs ys p h.1)
All-Padded P _ _ (extra b xs ys f p) h = All-Padded P xs ys p h.1

Padded-IsFull : (xs ys : List OutputBucket) → Padded xs ys → All IsFull xs → All IsFull ys
Padded-IsFull _ _ none_left h = tt
Padded-IsFull _ _ (both b xs ys p) h = (h.0, Padded-IsFull xs ys p h.1)
Padded-IsFull _ _ (extra b xs ys f p) h = (f, Padded-IsFull xs ys p h)

AddAt-Padded :
    (v : ℕ) (xs ys cs : List OutputBucket)
    → Padded xs ys
    → AddAt v xs cs
    → (ds : List OutputBucket) × AddAt v ys ds × Padded cs ds
unfolding AddAt
AddAt-Padded v _ _ cs none_left h = absurd h
AddAt-Padded v _ _ cs (both b xs ys p) h = elim h [
  | inl e ↦ (added v b ∷ ys, inl refl, rw e (both (added v b) xs ys p))
  | inr (cs1, e, a) ↦
      let (ds, c, q) = AddAt-Padded v xs ys cs1 p a in
      (b ∷ ds, inr (ds, refl, c), rw e (both b cs1 ds q))
]
AddAt-Padded v _ _ cs (extra b xs ys f p) h =
    let (ds, c, q) = AddAt-Padded v xs ys cs p h in (b ∷ ds, inr (ds, refl, c), extra b cs ds f q)

pub CanFill-Padded :
    (vs : List ℕ) (xs ys : List OutputBucket) → Padded xs ys → CanFill vs xs → CanFill vs ys
unfolding CanFill
CanFill-Padded [] xs ys p h = Padded-IsFull xs ys p h
CanFill-Padded (v ∷ vs) xs ys p h = elim h [
  | inl h ↦ inl (CanFill-Padded vs xs ys p h)
  | inr (cs, a, h) ↦
      let (ds, b, q) = AddAt-Padded v xs ys cs p a in inr (ds, b, CanFill-Padded vs cs ds q h)
]

-- Back: a value in a full bucket leaves it full.
AddAt-of_Padded :
    (v : ℕ) (xs ys ds : List OutputBucket)
    → Padded xs ys
    → AddAt v ys ds
    → Padded xs ds ⊎ ((cs : List OutputBucket) × AddAt v xs cs × Padded cs ds)
unfolding AddAt
AddAt-of_Padded v _ _ ds none_left h = absurd h
AddAt-of_Padded v _ _ ds (both b xs ys p) h = elim h [
  | inl e ↦ inr (added v b ∷ xs, inl refl, rw e (both (added v b) xs ys p))
  | inr (es, e, a) ↦ elim (AddAt-of_Padded v xs ys es p a) [
    | inl q ↦ inl (rw e (both b xs es q))
    | inr (cs, c, q) ↦ inr (b ∷ cs, inr (cs, refl, c), rw e (both b cs es q))
  ]
]
AddAt-of_Padded v _ _ ds (extra b xs ys f p) h = elim h [
  | inl e ↦ inl (rw e (extra (added v b) xs ys (omega (arith, f)) p))
  | inr (es, e, a) ↦ elim (AddAt-of_Padded v xs ys es p a) [
    | inl q ↦ inl (rw e (extra b xs es f q))
    | inr (cs, c, q) ↦ inr (cs, c, rw e (extra b cs es f q))
  ]
]

pub CanFill-of_Padded :
    (vs : List ℕ) (xs ys : List OutputBucket) → Padded xs ys → CanFill vs ys → CanFill vs xs
unfolding CanFill
CanFill-of_Padded [] xs ys p h = All-Padded IsFull xs ys p h
CanFill-of_Padded (v ∷ vs) xs ys p h = elim h [
  | inl h ↦ inl (CanFill-of_Padded vs xs ys p h)
  | inr (ds, a, h) ↦ elim (AddAt-of_Padded v xs ys ds p a) [
    | inl q ↦ inl (CanFill-of_Padded vs xs ds q h)
    | inr (cs, b, q) ↦ inr (cs, b, CanFill-of_Padded vs cs ds q h)
  ]
]
