-- ===== src/Script/Num.antt =====
-- CScriptNum (bitcoin_script.hpp): numbers as byte vectors, least byte first, with a sign bit.
-- A value is an integer above -2 ^ 63: the negation of INT64_MIN is undefined in the source.
pub mod RoundTrip
use block_sci.Prelude.{
  ℕ, zero, suc, ◌+◌, ◌-◌, ◌*◌, ◌/◌, ◌%◌, ◌^◌, ◌≤◌, ◌<◌, ◌≡◌, refl, inl, inr, List, [], ◌∷◌, Bool,
  true, false, ◌&&◌, ◌||◌, ltb, leb, ◌==◌, if◌then◌else◌, length, bit_and, bit_or, Bool-cases,
  arith,
}
use block_sci.Prelude.Bytes.{of_le}
use block_sci.Prelude.Int.{ℤ, pos, negsuc, magnitude, is_negative, neg}

-- vector::back.
abbrev pub back : List ℕ → ℕ
back [] = 0
back (b ∷ []) = b
back (b ∷ c ∷ r) = back (c ∷ r)

-- vch[vch.size() - 2].
abbrev pub second_back : List ℕ → ℕ
second_back [] = 0
second_back (b ∷ []) = 0
second_back (b ∷ c ∷ []) = b
second_back (b ∷ c ∷ d ∷ r) = second_back (c ∷ d ∷ r)

-- `while (absvalue) { push_back(absvalue & 0xff); absvalue >>= 8; }`, on the rounds left.
unfoldable pub abs_bytes : ℕ → ℕ → List ℕ
abs_bytes zero a = []
abs_bytes (suc n) a = if a == 0 then [] else a % 256 ∷ abs_bytes n (a / 256)

-- The sign: `result.back()` is the byte of the second clause.
unfoldable pub add_sign : Bool → List ℕ → List ℕ
add_sign n [] = []
add_sign n (b ∷ []) =
    if bit_and b 0x80 == 0
    then (if n then bit_or b 0x80 ∷ [] else b ∷ [])
    else b ∷ (if n then 0x80 else 0) ∷ []
add_sign n (b ∷ c ∷ r) = b ∷ add_sign n (c ∷ r)

-- An int64_t has eight bytes, so eight rounds empty `absvalue`.
unfoldable pub serialize : ℤ → List ℕ
serialize value =
    if magnitude value == 0
    then []
    else add_sign (is_negative value) (abs_bytes 8 (magnitude value))

-- The bytes take disjoint bits, so `|=` of shifted bytes is `of_le`, and clearing the sign bit
-- where it is set subtracts it.
unfoldable pub set_vch : List ℕ → ℤ
set_vch [] = pos 0
set_vch (b ∷ r) =
    if bit_and (back (b ∷ r)) 0x80 == 0
    then pos (of_le (b ∷ r))
    else neg (of_le (b ∷ r) - 0x80 * 256 ^ length r)

unfoldable pub is_minimal : List ℕ → Bool
is_minimal [] = true
is_minimal (b ∷ r) =
    if bit_and (back (b ∷ r)) 0x7f == 0
    then (if leb (length (b ∷ r)) 1 || (bit_and (second_back (b ∷ r)) 0x80 == 0)
        then false
        else true)
    else true

pub data NumResult : Type 0 where
  num : ℤ → NumResult
  overflow : NumResult
  non_minimal : NumResult

-- CScriptNum(vch, fRequireMinimal, nMaxNumSize); the two scriptnum_errors are values.
unfoldable pub script_num : List ℕ → Bool → ℕ → NumResult
script_num vch require_minimal max_num_size =
    if ltb max_num_size (length vch)
    then overflow
    else if require_minimal && (if is_minimal vch then false else true)
    then non_minimal
    else num (set_vch vch)

-- getint: the value clamped to an int.
unfoldable pub getint : ℤ → ℤ
getint (pos n) = if ltb (2 ^ 31 - 1) n then pos (2 ^ 31 - 1) else pos n
getint (negsuc n) = if ltb (2 ^ 31 - 1) n then negsuc (2 ^ 31 - 1) else negsuc n
