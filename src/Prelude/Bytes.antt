-- ===== src/Prelude/Bytes.antt =====
-- Little-endian numbers in byte lists: what memcpy between an integer and bytes does on the
-- little-endian machines that the program runs on.
use block_sci.Prelude.Tests.{ltb, ◌==◌, ltb-false, if◌then◌else◌}
use block_sci.Prelude.Lists.{
  length, take, drop, All, take-append_self, drop-append_self, length-append,
}
use Prim.Native.Nat.{ℕ, zero, suc, ◌+◌, ◌*◌, ◌/◌, ◌%◌, ◌^◌, ◌<◌, bit_and, bit_or}
use mathlib.Core.Path.{◌≡◌, refl, ap}
use mathlib.Core.Bool.{Bool, true, ◌&&◌}
use mathlib.Core.Option.{Option, none, some}
use mathlib.Core.List.{List, [], ◌∷◌, ◌++◌}
use native.Mathlib.Omega.{arith}

abbrev pub IsByte : ℕ → Type 0
IsByte b = b < 256

-- The `w` bytes of a `w`-byte unsigned integer.
abbrev pub le_bytes : ℕ → ℕ → List ℕ
le_bytes zero v = []
le_bytes (suc w) v = v % 256 ∷ le_bytes w (v / 256)

abbrev pub of_le : List ℕ → ℕ
of_le [] = 0
of_le (b ∷ bs) = b + 256 * of_le bs

pub length-le_bytes : (w v : ℕ) → length (le_bytes w v) ≡ w
length-le_bytes zero v = refl
length-le_bytes (suc w) v = ap suc (length-le_bytes w (v / 256))

pub le_bytes-All : (w v : ℕ) → All IsByte (le_bytes w v)
le_bytes-All zero v = tt
le_bytes-All (suc w) v = (omega arith, le_bytes-All w (v / 256))

pub of_le-le_bytes : (w v : ℕ) → v < 256 ^ w → of_le (le_bytes w v) ≡ v
of_le-le_bytes zero v h = omega arith
of_le-le_bytes (suc w) v h = omega (arith, of_le-le_bytes w (v / 256) (omega arith))

pub of_le-lt : (bs : List ℕ) (n : ℕ) → length bs ≡ n → All IsByte bs → of_le bs < 256 ^ n
of_le-lt [] n e h = rw (← e) (omega arith)
of_le-lt (b ∷ bs) zero e h = absurd (omega arith)
of_le-lt (b ∷ bs) (suc n) e (p, h) = omega (arith, of_le-lt bs n (omega arith) h)

-- Reads `w` bytes off the front, or nothing if there are fewer.
abbrev pub take_le : ℕ → List ℕ → Option (ℕ × List ℕ)
take_le w bs = if ltb (length bs) w then none else some (of_le (take w bs), drop w bs)

take_front : (n : ℕ) (xs ys : List ℕ) → length xs ≡ n → take n (xs ++ ys) ≡ xs
take_front n xs ys e = rw (← e) (take-append_self xs ys)

drop_front : (n : ℕ) (xs ys : List ℕ) → length xs ≡ n → drop n (xs ++ ys) ≡ ys
drop_front n xs ys e = rw (← e) (drop-append_self xs ys)

pub of_le-take : (w v : ℕ) (rest : List ℕ) → v < 256 ^ w → of_le (take w (le_bytes w v ++ rest)) ≡ v
of_le-take w v rest h =
    rw (take_front w (le_bytes w v) rest (length-le_bytes w v)) (of_le-le_bytes w v h)

pub take_le-le_bytes :
    (w v : ℕ) (rest : List ℕ) → v < 256 ^ w → take_le w (le_bytes w v ++ rest) ≡ some (v, rest)
take_le-le_bytes w v rest h = rw (
  ltb-false (length (le_bytes w v ++ rest)) w
      (omega (arith, length-append (le_bytes w v) rest, length-le_bytes w v)),
  take_front w (le_bytes w v) rest (length-le_bytes w v),
  drop_front w (le_bytes w v) rest (length-le_bytes w v),
  of_le-le_bytes w v h,
)

-- Masks on one byte as arithmetic, each a table checked by evaluation.
module _ (f g : ℕ → ℕ) where
  agree_below : ℕ → Bool
  agree_below zero = true
  agree_below (suc n) = (f n == g n) && agree_below n

  agree_below_sound : (n : ℕ) → agree_below n ≡ true → (i : ℕ) → i < n → f i ≡ g i
  unfolding agree_below
  agree_below_sound zero e i h = absurd (omega arith)
  agree_below_sound (suc n) e i h = ground (arith, agree_below_sound n (ground arith) i)

pub low_bits : (b : ℕ) → b < 256 → bit_and b 0x7f ≡ b % 128
unfolding agree_below
low_bits = agree_below_sound _ _ 256 refl

pub top_bit : (b : ℕ) → b < 256 → bit_and b 0x80 ≡ b / 128 * 128
unfolding agree_below
top_bit = agree_below_sound _ _ 256 refl

pub set_top_bit : (b : ℕ) → b < 128 → bit_or b 0x80 ≡ b + 128
unfolding agree_below
set_top_bit = agree_below_sound _ _ 128 refl
