-- ===== src/Script/Num/RoundTrip.antt =====
-- CScriptNum::serialize and the constructor that reads its bytes.
use block_sci.Prelude.{
  ℕ, zero, suc, ◌+◌, ◌*◌, ◌/◌, ◌%◌, ◌^◌, ◌≤◌, ◌<◌, ◌≡◌, refl, inl, inr, List, [], ◌∷◌, Bool, true,
  false, ◌==◌, if◌then◌else◌, length, All, bit_and, bit_or, Bool-cases, ap, ==_false, ==_iff, ◌∙◌,
  subst, arith,
}
use native.Mathlib.Nat.{pow-le-pow_right}
use block_sci.Prelude.Bytes.{of_le, IsByte, low_bits, top_bit, set_top_bit}
use block_sci.Prelude.Int.{ℤ, pos, negsuc, magnitude, is_negative, neg}
use block_sci.Script.Num.{
  back, abs_bytes, add_sign, serialize, set_vch, is_minimal, num, script_num,
}

-- The number without the sign bit of the last byte.
abbrev unsigned : List ℕ → ℕ
unsigned [] = 0
unsigned (b ∷ []) = b % 128
unsigned (b ∷ c ∷ r) = b + 256 * unsigned (c ∷ r)

abbrev sign_bit : Bool → ℕ
sign_bit true = 1
sign_bit false = 0

-- `l` is the canonical form of the magnitude `a` with the sign `n`.
record Encodes (n : Bool) (a : ℕ) (l : List ℕ) : Type 0 where
  value : unsigned l ≡ a
  sign : back l / 128 ≡ sign_bit n
  bytes : All IsByte l
  minimal : is_minimal l ≡ true
  fits : (k : ℕ) → a < 128 * 256 ^ k → length l ≤ k + 1

is_minimal-cons : (b c : ℕ) (r : List ℕ) → is_minimal (c ∷ r) ≡ true → is_minimal (b ∷ c ∷ r) ≡ true
unfolding is_minimal
is_minimal-cons b c [] h = ground arith
is_minimal-cons b c (d ∷ r) h = ground arith

Encodes-cons :
    (n : Bool) (a b : ℕ) (l : List ℕ)
    → b < 256
    → 0 < a
    → Encodes n a l
    → Encodes n (b + 256 * a) (b ∷ l)
Encodes-cons n a b [] hb ha e = absurd (omega arith)
Encodes-cons n a b (c ∷ r) hb ha e = record {
  value = omega arith;
  sign = e.sign;
  bytes = (hb, e.bytes);
  minimal = is_minimal-cons b c r e.minimal;
  fits = longer;
}
  where
    longer : (k : ℕ) → b + 256 * a < 128 * 256 ^ k → length (b ∷ c ∷ r) ≤ k + 1
    longer zero h = absurd (omega arith)
    longer (suc k) h = omega (arith, e.fits k (omega arith))

add_sign_low :
    (n : Bool) (b : ℕ)
    → (bit_and b 0x80 == 0) ≡ true
    → add_sign n (b ∷ []) ≡ (if n then bit_or b 0x80 else b) ∷ []
unfolding add_sign
add_sign_low true b e = rw e
add_sign_low false b e = rw e

add_sign_high :
    (n : Bool) (b : ℕ)
    → (bit_and b 0x80 == 0) ≡ false
    → add_sign n (b ∷ []) ≡ b ∷ (if n then 0x80 else 0) ∷ []
unfolding add_sign
add_sign_high n b e = rw e

-- One byte with room for the sign, and a byte that needs another one for it.
Encodes-small :
    (n : Bool) (b c : ℕ)
    → 0 < b
    → c < 256
    → c % 128 ≡ b
    → c / 128 ≡ sign_bit n
    → Encodes n b (c ∷ [])
unfolding is_minimal
Encodes-small n b c h k u s = record {
  value = u;
  sign = s;
  bytes = (k, tt);
  minimal = ground (arith, low_bits c k);
  fits = λ m _. omega arith;
}

wide_fits : (b k : ℕ) → 128 ≤ b → b < 128 * 256 ^ k → 2 ≤ k + 1
wide_fits b zero h l = absurd (omega arith)
wide_fits b (suc k) h l = omega arith

Encodes-wide :
    (n : Bool) (b : ℕ) → 128 ≤ b → b < 256 → Encodes n b (b ∷ (if n then 0x80 else 0) ∷ [])
unfolding is_minimal
Encodes-wide true b h k = record {
  value = omega arith;
  sign = refl;
  bytes = (k, (omega arith, tt));
  minimal = ground (arith, top_bit b k);
  fits = λ m l. wide_fits b m h l;
}
Encodes-wide false b h k = record {
  value = omega arith;
  sign = refl;
  bytes = (k, (omega arith, tt));
  minimal = ground (arith, top_bit b k);
  fits = λ m l. wide_fits b m h l;
}

Encodes-last : (n : Bool) (b : ℕ) → 0 < b → b < 256 → Encodes n b (add_sign n (b ∷ []))
Encodes-last n b h k = elim (Bool-cases (bit_and b 0x80 == 0)) [
  | inl low ↦ rw (add_sign_low n b low) (signed_small n (ground (arith, top_bit b k)))
  | inr high ↦ rw (add_sign_high n b high) (Encodes-wide n b (ground (arith, top_bit b k)) k)
]
  where
    signed_small : (n : Bool) → b < 128 → Encodes n b ((if n then bit_or b 0x80 else b) ∷ [])
    signed_small true l =
        rw (set_top_bit b l)
          (Encodes-small true b (b + 128) h (omega arith) (omega arith) (omega arith))
    signed_small false l = Encodes-small false b b h k (omega arith) (omega arith)

add_sign-cons :
    (n : Bool) (b : ℕ) (l : List ℕ) → 0 < length l → add_sign n (b ∷ l) ≡ b ∷ add_sign n l
unfolding add_sign
add_sign-cons n b [] h = absurd (omega arith)
add_sign-cons n b (c ∷ r) h = refl

length-abs_bytes : (k a : ℕ) → 0 < a → a < 256 ^ k → 0 < length (abs_bytes k a)
unfolding abs_bytes
length-abs_bytes zero a h l = absurd (omega arith)
length-abs_bytes (suc k) zero h l = absurd (omega arith)
length-abs_bytes (suc k) (suc a) h l = ground arith

abs_bytes_zero : (k : ℕ) → abs_bytes k 0 ≡ []
unfolding abs_bytes
abs_bytes_zero zero = refl
abs_bytes_zero (suc k) = refl

abs_bytes-suc : (k a : ℕ) → 0 < a → abs_bytes (suc k) a ≡ a % 256 ∷ abs_bytes k (a / 256)
unfolding abs_bytes
abs_bytes-suc k a h = ground arith

add_sign-Encodes :
    (k : ℕ) (n : Bool) (a : ℕ) → 0 < a → a < 256 ^ k → Encodes n a (add_sign n (abs_bytes k a))
add_sign-Encodes zero n a h l = absurd (omega arith)
add_sign-Encodes (suc k) n a h l = elim (Bool-cases (a / 256 == 0)) [
  | inl done ↦
      let q : a / 256 ≡ 0 = (==_iff (a / 256) 0).0 done in
      rw (abs_bytes-suc k a h, q, abs_bytes_zero k)
        (subst (λ c. Encodes n c (add_sign n (a % 256 ∷ []))) (omega arith)
          (Encodes-last n (a % 256) (omega arith) (omega arith)))
  | inr more ↦
      let q : 0 < a / 256 = ground arith in
      let rest : a / 256 < 256 ^ k = omega arith in
      rw
        (
          abs_bytes-suc k a h,
          add_sign-cons n (a % 256) (abs_bytes k (a / 256)) (length-abs_bytes k (a / 256) q rest),
        )
        (subst (λ c. Encodes n c (a % 256 ∷ add_sign n (abs_bytes k (a / 256)))) (omega arith)
          (Encodes-cons n (a / 256) (a % 256) _ (omega arith) q
            (add_sign-Encodes k n (a / 256) q rest)))
]

-- The value of a vector by its last byte: with the sign bit clear, and with it set.
of_le_clear : (l : List ℕ) → back l / 128 ≡ 0 → of_le l ≡ unsigned l
of_le_clear [] h = refl
of_le_clear (b ∷ []) h = omega arith
of_le_clear (b ∷ c ∷ r) h = omega (arith, of_le_clear (c ∷ r) h)

of_le_set :
    (b : ℕ) (r : List ℕ)
    → back (b ∷ r) / 128 ≡ 1
    → of_le (b ∷ r) ≡ unsigned (b ∷ r) + 128 * 256 ^ length r
of_le_set b [] h = omega arith
of_le_set b (c ∷ r) h = unfold_power (length r) _ _ (of_le_set c r h)
  where
    unfold_power :
        (n x y : ℕ) → x ≡ y + 128 * 256 ^ n → b + 256 * x ≡ b + 256 * y + 128 * 256 ^ suc n
    unfold_power n x y e = omega arith

back-IsByte : (l : List ℕ) → All IsByte l → back l < 256
back-IsByte [] h = omega arith
back-IsByte (b ∷ []) h = h.0
back-IsByte (b ∷ c ∷ r) h = back-IsByte (c ∷ r) h.1

abbrev signed : Bool → ℕ → ℤ
signed n a = if n then neg a else pos a

set_vch-Encodes : (n : Bool) (a : ℕ) (l : List ℕ) → 0 < a → Encodes n a l → set_vch l ≡ signed n a
unfolding set_vch
set_vch-Encodes n a [] h e = absurd (omega arith)
set_vch-Encodes true a (b ∷ r) h e =
    let high : (bit_and (back (b ∷ r)) 0x80 == 0) ≡ false =
      ground (arith, top_bit (back (b ∷ r)) (back-IsByte (b ∷ r) e.bytes), e.sign) in
    rw high (ap neg (omega (arith, of_le_set b r e.sign, e.value)))
set_vch-Encodes false a (b ∷ r) h e =
    let low : (bit_and (back (b ∷ r)) 0x80 == 0) ≡ true =
      ground (arith, top_bit (back (b ∷ r)) (back-IsByte (b ∷ r) e.bytes), e.sign) in
    rw low (ap pos (of_le_clear (b ∷ r) e.sign ∙ e.value))

script_num-Encodes :
    (n : Bool) (a k : ℕ) (m : Bool) (l : List ℕ)
    → 0 < a
    → a < 128 * 256 ^ k
    → Encodes n a l
    → script_num l m (k + 1) ≡ num (signed n a)
unfolding script_num
script_num-Encodes n a k m l h lt e =
    ground (arith, e.fits k lt, e.minimal, set_vch-Encodes n a l h e)

below_64 : (a k : ℕ) → k ≤ 7 → a < 128 * 256 ^ k → a < 256 ^ 8
below_64 a k h l = omega (arith, pow-le-pow_right {n = 256} (omega arith) h)

serialize-Encodes :
    (v : ℤ) (k : ℕ)
    → k ≤ 7
    → magnitude v < 128 * 256 ^ k
    → 0 < magnitude v
    → Encodes (is_negative v) (magnitude v) (serialize v)
unfolding serialize
serialize-Encodes v k h l p =
    rw (==_false (magnitude v) 0 (omega arith))
      (add_sign-Encodes 8 (is_negative v) (magnitude v) p (below_64 (magnitude v) k h l))

-- A value whose magnitude is below 128 * 256 ^ k, with k at most 7, is read back from its
-- serialisation under the size limit k + 1, whether or not minimal encodings are required.
pub script_num-serialize :
    (v : ℤ) (k : ℕ) (m : Bool)
    → k ≤ 7
    → magnitude v < 128 * 256 ^ k
    → script_num (serialize v) m (k + 1) ≡ num v
script_num-serialize (pos zero) k m h l =
    unfold serialize script_num set_vch is_minimal in ground arith
script_num-serialize (pos (suc n)) k m h l =
    script_num-Encodes false (suc n) k m _ (omega arith) l
      (serialize-Encodes (pos (suc n)) k h l (omega arith))
script_num-serialize (negsuc n) k m h l =
    script_num-Encodes true (suc n) k m _ (omega arith) l
      (serialize-Encodes (negsuc n) k h l (omega arith))

-- The serialisation of such a value is a list of bytes, has at most k + 1 of them, and is minimal.
pub serialize_canonical :
    (v : ℤ) (k : ℕ)
    → k ≤ 7
    → magnitude v < 128 * 256 ^ k
    → All IsByte (serialize v) × (length (serialize v) ≤ k + 1) × (is_minimal (serialize v) ≡ true)
serialize_canonical (pos zero) k h l = unfold serialize is_minimal in (tt, omega arith, refl)
serialize_canonical (pos (suc n)) k h l =
    let e = serialize-Encodes (pos (suc n)) k h l (omega arith) in (e.bytes, e.fits k l, e.minimal)
serialize_canonical (negsuc n) k h l =
    let e = serialize-Encodes (negsuc n) k h l (omega arith) in (e.bytes, e.fits k l, e.minimal)
