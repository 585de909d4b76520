-- ===== src/Prelude/Lists.antt =====
-- Lists measured and indexed by native numbers, under the library's names.
use Prim.Native.Nat.{ℕ, zero, suc, ◌+◌, ◌-◌, min, ◌<◌}
use mathlib.Core.Logic.{◌≢◌}
use mathlib.Core.Path.{◌≡◌, refl, sym, ap, ◌∙◌, subst}
use mathlib.Core.Bool.{Bool}
use mathlib.Core.List.{List, [], ◌∷◌, ◌++◌}
use mathlib.Core.Option.{Option, none, some}
use native.Mathlib.Omega.{arith}
use block_sci.Prelude.Tests.{if◌then◌else◌}

module _ {ℓ} {A : Type ℓ} where
  abbrev pub length : List A → ℕ
  length [] = 0
  length (x ∷ xs) = suc (length xs)

  abbrev pub get_elem? : List A → ℕ → Option A
  get_elem? [] i = none
  get_elem? (x ∷ xs) zero = some x
  get_elem? (x ∷ xs) (suc i) = get_elem? xs i

  abbrev pub take : ℕ → List A → List A
  take zero xs = []
  take (suc n) [] = []
  take (suc n) (x ∷ xs) = x ∷ take n xs

  abbrev pub drop : ℕ → List A → List A
  drop zero xs = xs
  drop (suc n) [] = []
  drop (suc n) (x ∷ xs) = drop n xs

  -- Writes an element in place; a position past the end leaves the list as it is.
  abbrev pub set : ℕ → A → List A → List A
  set i y [] = []
  set zero y (x ∷ xs) = y ∷ xs
  set (suc i) y (x ∷ xs) = x ∷ set i y xs

  abbrev pub concat : List (List A) → List A
  concat [] = []
  concat (xs ∷ xss) = xs ++ concat xss

  abbrev pub replicate : ℕ → A → List A
  replicate zero x = []
  replicate (suc n) x = x ∷ replicate n x

  -- The elements that pass a test, in order.
  abbrev pub select : (A → Bool) → List A → List A
  select p [] = []
  select p (x ∷ xs) = if p x then x ∷ select p xs else select p xs

  abbrev pub All {κ} : (A → Type κ) → List A → Type κ
  All P [] = Unit {κ}
  All P (x ∷ xs) = P x × All P xs

  pub length-append : (xs ys : List A) → length (xs ++ ys) ≡ length xs + length ys
  length-append [] ys = omega arith
  length-append (x ∷ xs) ys = omega (arith, length-append xs ys)

  pub length-take : (n : ℕ) (xs : List A) → length (take n xs) ≡ min n (length xs)
  length-take zero xs = omega arith
  length-take (suc n) [] = omega arith
  length-take (suc n) (x ∷ xs) = omega (arith, length-take n xs)

  pub length-drop : (n : ℕ) (xs : List A) → length (drop n xs) ≡ length xs - n
  length-drop zero xs = omega arith
  length-drop (suc n) [] = omega arith
  length-drop (suc n) (x ∷ xs) = omega (arith, length-drop n xs)

  pub take-append-drop : (n : ℕ) (xs : List A) → take n xs ++ drop n xs ≡ xs
  take-append-drop zero xs = refl
  take-append-drop (suc n) [] = refl
  take-append-drop (suc n) (x ∷ xs) = ap (λ (l : List A). x ∷ l) (take-append-drop n xs)

  pub take-append_self : (xs ys : List A) → take (length xs) (xs ++ ys) ≡ xs
  take-append_self [] ys = refl
  take-append_self (x ∷ xs) ys = ap (λ (l : List A). x ∷ l) (take-append_self xs ys)

  pub drop-append_self : (xs ys : List A) → drop (length xs) (xs ++ ys) ≡ ys
  drop-append_self [] ys = refl
  drop-append_self (x ∷ xs) ys = drop-append_self xs ys

  pub All-append {κ} : (P : A → Type κ) (xs ys : List A) → All P xs → All P ys → All P (xs ++ ys)
  All-append P [] ys p q = q
  All-append P (x ∷ xs) ys (h, p) q = (h, All-append P xs ys p q)

  pub All-take {κ} : (P : A → Type κ) (n : ℕ) (xs : List A) → All P xs → All P (take n xs)
  All-take P zero xs h = tt
  All-take P (suc n) [] h = tt
  All-take P (suc n) (x ∷ xs) (p, h) = (p, All-take P n xs h)

  pub All-drop {κ} : (P : A → Type κ) (n : ℕ) (xs : List A) → All P xs → All P (drop n xs)
  All-drop P zero xs h = h
  All-drop P (suc n) [] h = tt
  All-drop P (suc n) (x ∷ xs) (p, h) = All-drop P n xs h

  pub length-set : (i : ℕ) (y : A) (xs : List A) → length (set i y xs) ≡ length xs
  length-set i y [] = refl
  length-set zero y (x ∷ xs) = refl
  length-set (suc i) y (x ∷ xs) = ap suc (length-set i y xs)

  pub get_elem?-set_same :
      (i : ℕ) (y : A) (xs : List A) → i < length xs → get_elem? (set i y xs) i ≡ some y
  get_elem?-set_same i y [] h = absurd (omega arith)
  get_elem?-set_same zero y (x ∷ xs) h = refl
  get_elem?-set_same (suc i) y (x ∷ xs) h = get_elem?-set_same i y xs (omega arith)

  pub get_elem?-set_other :
      (i j : ℕ) (y : A) (xs : List A) → i ≢ j → get_elem? (set i y xs) j ≡ get_elem? xs j
  get_elem?-set_other i j y [] h = refl
  get_elem?-set_other zero zero y (x ∷ xs) h = absurd (h refl)
  get_elem?-set_other zero (suc j) y (x ∷ xs) h = refl
  get_elem?-set_other (suc i) zero y (x ∷ xs) h = refl
  get_elem?-set_other (suc i) (suc j) y (x ∷ xs) h = get_elem?-set_other i j y xs λ e. h (ap suc e)

  pub set_back : (i : ℕ) (x : A) (xs : List A) → get_elem? xs i ≡ some x → set i x xs ≡ xs
  set_back i x [] e = refl
  set_back zero x (y ∷ xs) e = ap (λ z. z ∷ xs) (ground (arith, e))
  set_back (suc i) x (y ∷ xs) e = ap (λ (l : List A). y ∷ l) (set_back i x xs e)

  pub get_elem?_below : (i : ℕ) (xs : List A) → i < length xs → (x : A) × (get_elem? xs i ≡ some x)
  get_elem?_below i [] h = absurd (omega arith)
  get_elem?_below zero (x ∷ xs) h = (x, refl)
  get_elem?_below (suc i) (x ∷ xs) h = get_elem?_below i xs (omega arith)

  pub get_elem?_inside : (i : ℕ) (xs : List A) (x : A) → get_elem? xs i ≡ some x → i < length xs
  get_elem?_inside i [] x e = absurd (ground (arith, e))
  get_elem?_inside zero (y ∷ xs) x e = omega arith
  get_elem?_inside (suc i) (y ∷ xs) x e = omega (arith, get_elem?_inside i xs x e)

  pub get_elem?-replicate : (n i : ℕ) (x y : A) → get_elem? (replicate n x) i ≡ some y → x ≡ y
  get_elem?-replicate zero i x y e = absurd (ground (arith, e))
  get_elem?-replicate (suc n) zero x y e = ground (arith, e)
  get_elem?-replicate (suc n) (suc i) x y e = get_elem?-replicate n i x y e

  pub length-replicate : (n : ℕ) (x : A) → length (replicate n x) ≡ n
  length-replicate zero x = refl
  length-replicate (suc n) x = ap suc (length-replicate n x)

  pub All-get_elem? {κ} :
      (P : A → Type κ) (xs : List A) (i : ℕ) (x : A) → All P xs → get_elem? xs i ≡ some x → P x
  All-get_elem? P [] i x a e = absurd (ground (arith, e))
  All-get_elem? P (y ∷ xs) zero x a e = subst P (ground (arith, e)) a.0
  All-get_elem? P (y ∷ xs) (suc i) x a e = All-get_elem? P xs i x a.1 e

  pub All-mono {κ μ} :
      (P : A → Type κ) (Q : A → Type μ) (xs : List A) → ((x : A) → P x → Q x) → All P xs → All Q xs
  All-mono P Q [] h a = tt
  All-mono P Q (x ∷ xs) h a = (h x a.0, All-mono P Q xs h a.1)

  pub get_elem?-append_left :
      (xs ys : List A) (i : ℕ) → i < length xs → get_elem? (xs ++ ys) i ≡ get_elem? xs i
  get_elem?-append_left [] ys i h = absurd (omega arith)
  get_elem?-append_left (x ∷ xs) ys zero h = refl
  get_elem?-append_left (x ∷ xs) ys (suc i) h = get_elem?-append_left xs ys i (omega arith)

  pub get_elem?-take : (n i : ℕ) (xs : List A) → i < n → get_elem? (take n xs) i ≡ get_elem? xs i
  get_elem?-take zero i xs h = absurd (omega arith)
  get_elem?-take (suc n) i [] h = refl
  get_elem?-take (suc n) zero (x ∷ xs) h = refl
  get_elem?-take (suc n) (suc i) (x ∷ xs) h = get_elem?-take n i xs (omega arith)

  pub get_elem?-drop : (n i : ℕ) (xs : List A) → get_elem? (drop n xs) i ≡ get_elem? xs (i + n)
  get_elem?-drop zero i xs = ap (get_elem? xs) (omega arith)
  get_elem?-drop (suc n) i [] = refl
  get_elem?-drop (suc n) i (x ∷ xs) = get_elem?-drop n i xs ∙ sym (ap (get_elem? (x ∷ xs)) next)
    where
      next : i + suc n ≡ suc (i + n)
      next = omega arith
