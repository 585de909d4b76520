-- ===== src/Clustering/Layout/Counts.antt =====
-- How many numbers of a list are a given one, and how many are less.
use block_sci.Prelude.{
  ℕ, zero, suc, ◌+◌, ◌≤◌, ◌<◌, ◌≡◌, refl, List, [], ◌∷◌, ◌++◌, some, ltb, ◌==◌, if◌then◌else◌,
  length, get_elem?, take, arith,
}

abbrev pub occurrences : ℕ → List ℕ → ℕ
occurrences c [] = 0
occurrences c (id ∷ ids) = if id == c then suc (occurrences c ids) else occurrences c ids

abbrev pub below : ℕ → List ℕ → ℕ
below c [] = 0
below c (id ∷ ids) = if ltb id c then suc (below c ids) else below c ids

pub below-suc : (c : ℕ) (ids : List ℕ) → below (suc c) ids ≡ below c ids + occurrences c ids
below-suc c [] = refl
below-suc c (id ∷ ids) = ground (arith, below-suc c ids)

pub below_zero : (ids : List ℕ) → below 0 ids ≡ 0
below_zero [] = refl
below_zero (id ∷ ids) = ground (arith, below_zero ids)

pub below_mono : (c d : ℕ) (ids : List ℕ) → c ≤ d → below c ids ≤ below d ids
below_mono c d [] h = omega arith
below_mono c d (id ∷ ids) h = ground (arith, below_mono c d ids h)

pub below-le-length : (c : ℕ) (ids : List ℕ) → below c ids ≤ length ids
below-le-length c [] = omega arith
below-le-length c (id ∷ ids) = ground (arith, below-le-length c ids)

pub occurrences-append :
    (c : ℕ) (xs ys : List ℕ) → occurrences c (xs ++ ys) ≡ occurrences c xs + occurrences c ys
occurrences-append c [] ys = omega arith
occurrences-append c (x ∷ xs) ys = ground (arith, occurrences-append c xs ys)

pub occurrences-take :
    (c k : ℕ) (ids : List ℕ)
    → get_elem? ids k ≡ some c
    → occurrences c (take k ids) < occurrences c ids
occurrences-take c k [] e = absurd (ground (arith, e))
occurrences-take c zero (id ∷ ids) e = ground (arith, e)
occurrences-take c (suc k) (id ∷ ids) e = ground (arith, occurrences-take c k ids e)

pub occurrences-le-length : (c : ℕ) (ids : List ℕ) → occurrences c ids ≤ length ids
occurrences-le-length c [] = omega arith
occurrences-le-length c (id ∷ ids) = ground (arith, occurrences-le-length c ids)
