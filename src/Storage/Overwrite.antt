-- ===== src/Storage/Overwrite.antt =====
-- What memcpy into the middle of a list of bytes leaves, and lists cut to a size.
use block_sci.Prelude.{
  ℕ, zero, suc, ◌+◌, ◌-◌, ◌≤◌, ◌≡◌, refl, ap, ◌∙◌, List, [], ◌∷◌, ◌++◌, length, take, drop,
  replicate, append-nil, arith,
}

-- The values are copied over those from a position on, and past the end behind them.
abbrev pub overwrite : ℕ → List ℕ → List ℕ → List ℕ
overwrite zero [] l = l
overwrite zero (v ∷ vs) [] = v ∷ vs
overwrite zero (v ∷ vs) (x ∷ l) = v ∷ overwrite zero vs l
overwrite (suc n) vs [] = []
overwrite (suc n) vs (x ∷ l) = x ∷ overwrite n vs l

-- A file cut or filled with zeros to a size.
abbrev pub resized : ℕ → List ℕ → List ℕ
resized n l = take n l ++ replicate (n - length l) 0

pub overwrite-append_left :
    (n : ℕ) (vs xs ys : List ℕ)
    → n + length vs ≤ length xs
    → overwrite n vs (xs ++ ys) ≡ overwrite n vs xs ++ ys
overwrite-append_left zero [] xs ys h = refl
overwrite-append_left zero (v ∷ vs) [] ys h = absurd (omega arith)
overwrite-append_left zero (v ∷ vs) (x ∷ xs) ys h =
    ap (λ (l : List ℕ). v ∷ l) (overwrite-append_left zero vs xs ys (omega arith))
overwrite-append_left (suc n) vs [] ys h = absurd (omega arith)
overwrite-append_left (suc n) vs (x ∷ xs) ys h =
    ap (λ (l : List ℕ). x ∷ l) (overwrite-append_left n vs xs ys (omega arith))

pub overwrite-append_right :
    (n : ℕ) (vs xs ys : List ℕ) → overwrite (length xs + n) vs (xs ++ ys) ≡ xs ++ overwrite n vs ys
overwrite-append_right n vs [] ys = let e : 0 + n ≡ n = omega arith in rw e refl
overwrite-append_right n vs (x ∷ xs) ys =
    let next : suc (length xs) + n ≡ suc (length xs + n) = omega arith in
    rw next (ap (λ (l : List ℕ). x ∷ l) (overwrite-append_right n vs xs ys))

pub overwrite_back : (vs xs : List ℕ) → overwrite (length xs) vs xs ≡ xs ++ vs
overwrite_back [] [] = refl
overwrite_back (v ∷ vs) [] = refl
overwrite_back vs (x ∷ xs) = ap (λ (l : List ℕ). x ∷ l) (overwrite_back vs xs)

-- Values that go past the end: the first of them fill the list, the others come behind it.
pub overwrite-take-drop :
    (n k : ℕ) (vs xs : List ℕ)
    → n + k ≡ length xs
    → k ≤ length vs
    → overwrite n vs xs ≡ overwrite n (take k vs) xs ++ drop k vs
overwrite-take-drop zero zero [] [] e h = refl
overwrite-take-drop zero zero (v ∷ vs) [] e h = refl
overwrite-take-drop zero zero vs (x ∷ xs) e h = absurd (omega arith)
overwrite-take-drop zero (suc k) [] xs e h = absurd (omega arith)
overwrite-take-drop zero (suc k) (v ∷ vs) [] e h = absurd (omega arith)
overwrite-take-drop zero (suc k) (v ∷ vs) (x ∷ xs) e h =
    ap (λ (l : List ℕ). v ∷ l) (overwrite-take-drop zero k vs xs (omega arith) (omega arith))
overwrite-take-drop (suc n) k vs [] e h = absurd (omega arith)
overwrite-take-drop (suc n) k vs (x ∷ xs) e h =
    ap (λ (l : List ℕ). x ∷ l) (overwrite-take-drop n k vs xs (omega arith) h)

pub length-overwrite :
    (n : ℕ) (vs xs : List ℕ) → n + length vs ≤ length xs → length (overwrite n vs xs) ≡ length xs
length-overwrite zero [] xs h = refl
length-overwrite zero (v ∷ vs) [] h = absurd (omega arith)
length-overwrite zero (v ∷ vs) (x ∷ xs) h = omega (arith, length-overwrite zero vs xs (omega arith))
length-overwrite (suc n) vs [] h = absurd (omega arith)
length-overwrite (suc n) vs (x ∷ xs) h = omega (arith, length-overwrite n vs xs (omega arith))

pub take_all {ℓ} : {A : Type ℓ} (n : ℕ) (l : List A) → length l ≤ n → take n l ≡ l
take_all zero [] h = refl
take_all zero (x ∷ l) h = absurd (omega arith)
take_all (suc n) [] h = refl
take_all (suc n) (x ∷ l) h = ap (λ (t : List _). x ∷ t) (take_all n l (omega arith))

pub take-append {ℓ} :
    {A : Type ℓ} (n : ℕ) (xs ys : List A) → take n (xs ++ ys) ≡ take n xs ++ take (n - length xs) ys
take-append zero [] ys = refl
take-append zero (x ∷ xs) ys = let e : 0 - suc (length xs) ≡ 0 = omega arith in rw e refl
take-append (suc n) [] ys = let e : suc n - 0 ≡ suc n = omega arith in rw e refl
take-append (suc n) (x ∷ xs) ys =
    let e : suc n - suc (length xs) ≡ n - length xs = omega arith in
    rw e (ap (λ (t : List _). x ∷ t) (take-append n xs ys))

pub drop-append {ℓ} :
    {A : Type ℓ} (n : ℕ) (xs ys : List A) → drop n (xs ++ ys) ≡ drop n xs ++ drop (n - length xs) ys
drop-append zero [] ys = refl
drop-append zero (x ∷ xs) ys = let e : 0 - suc (length xs) ≡ 0 = omega arith in rw e refl
drop-append (suc n) [] ys = let e : suc n - 0 ≡ suc n = omega arith in rw e refl
drop-append (suc n) (x ∷ xs) ys =
    let e : suc n - suc (length xs) ≡ n - length xs = omega arith in rw e (drop-append n xs ys)

pub resized_less : (n : ℕ) (l : List ℕ) → n ≤ length l → resized n l ≡ take n l
resized_less n l h =
    let none_left : n - length l ≡ 0 = omega arith in rw none_left (append-nil (take n l))

pub resized_more :
    (n : ℕ) (l : List ℕ) → length l ≤ n → resized n l ≡ l ++ replicate (n - length l) 0
resized_more n l h = ap (λ t. t ++ replicate (n - length l) 0) (take_all n l h)

pub resized_self : (l : List ℕ) → resized (length l) l ≡ l
resized_self l = resized_less (length l) l (omega arith) ∙ take_all (length l) l (omega arith)

pub drop_past : (n : ℕ) (xs ys : List ℕ) → drop (length xs + n) (xs ++ ys) ≡ drop n ys
drop_past n [] ys = let e : 0 + n ≡ n = omega arith in rw e refl
drop_past n (x ∷ xs) ys =
    let e : suc (length xs) + n ≡ suc (length xs + n) = omega arith in rw e (drop_past n xs ys)

pub take_past : (n : ℕ) (xs ys : List ℕ) → take (length xs + n) (xs ++ ys) ≡ xs ++ take n ys
take_past n [] ys = let e : 0 + n ≡ n = omega arith in rw e refl
take_past n (x ∷ xs) ys =
    let e : suc (length xs) + n ≡ suc (length xs + n) = omega arith in
    rw e (ap (λ (t : List ℕ). x ∷ t) (take_past n xs ys))
