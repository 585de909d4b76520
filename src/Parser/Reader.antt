-- ===== src/Parser/Reader.antt =====
-- SafeMemReader (src/parser/safe_mem_reader.hpp) and the compact sizes that it reads and that
-- Serializer::serializeCompact (preproccessed_block.cpp) writes. `fault` is the std::out_of_range
-- that every read past the end of the file throws, and `aborted` a failed assert.
pub mod CompactSize
use block_sci.Prelude.{
  ℕ, zero, suc, ◌+◌, ◌-◌, ◌%◌, ◌^◌, ◌≤◌, ◌<◌, ◌≡◌, refl, ◌∙◌, ap, List, [], ◌∷◌, ◌++◌, Option, none,
  some, ltb, leb, ◌==◌, if◌then◌else◌, length, take, drop, length-drop, length-append, Bool, true,
  false, Bool-cases, inl, inr, ltb_false→le, le→leb, sym, drop-append_self, arith,
}
use native.Mathlib.Nat.{zero-add, suc-add}
use block_sci.Prelude.Bytes.{le_bytes, of_le, take_le, take_le-le_bytes, length-le_bytes, IsByte}

-- The mapped file, and how far the iterator stands behind its start.
pub record Reader : Type 0 where
  pub file : List ℕ
  pub offset : ℕ

pub data Result (A : Type 0) : Type 0 where
  ok : A → Result A
  fault : Result A
  aborted : Result A

infixl 5 ◌>>=◌
abbrev pub ◌>>=◌ : {A B : Type 0} → Result A → (A → Result B) → Result B
ok a >>= f = f a
fault >>= f = fault
aborted >>= f = aborted

-- What the iterator has in front of it.
abbrev pub ahead : Reader → List ℕ
ahead r = drop r.offset r.file

unfoldable pub has : Reader → ℕ → Bool
has r n = leb n (length (ahead r))

-- advance moves the iterator and readNext<Type> also gives the sizeof(Type) bytes that it passes.
unfoldable pub advance : ℕ → Reader → Result Reader
unfolding has
advance n r = if has r n then ok (record r { offset = r.offset + n }) else fault

unfoldable pub read_next : ℕ → Reader → Result (ℕ × Reader)
unfolding has
read_next width r =
    if has r width
    then ok (of_le (take width (ahead r)), record r { offset = r.offset + width })
    else fault

-- reset(n): to the n-th byte of the file.
unfoldable pub reset : ℕ → Reader → Result Reader
reset n r = if ltb (length r.file) n then fault else ok (record r { offset = n })

-- The branches of readVariableLengthInteger on its first byte.
unfoldable pub wide_integer : ℕ → Reader → Result (ℕ × Reader)
unfolding read_next
wide_integer v r =
    if ltb v 0xfd
    then ok (v, r)
    else if v == 0xfd
    then read_next 2 r
    else if v == 0xfe
    then read_next 4 r
    else read_next 8 r >>= λ (n, r2). ok (n % 2 ^ 32, r2)

-- readVariableLengthInteger: the eight-byte form is cut to 32 bits.
unfoldable pub read_variable_length_integer : Reader → Result (ℕ × Reader)
unfolding wide_integer
read_variable_length_integer r = do (v, r1) ← read_next 1 r; wide_integer v r1

unfoldable pub variable_length_int_size : ℕ → ℕ
variable_length_int_size n =
    if ltb n 253
    then 1
    else if leb n 0xffff
    then 1 + 2
    else if leb n 0xffff_ffff
    then 1 + 4
    else 1 + 8

-- The bytes that serializeCompact feeds to the hash.
unfoldable pub serialize_compact : ℕ → List ℕ
serialize_compact t =
    if ltb t 253
    then le_bytes 1 t
    else if leb t 0xffff
    then 253 ∷ le_bytes 2 t
    else if leb t 0xffff_ffff
    then 254 ∷ le_bytes 4 t
    else 255 ∷ le_bytes 8 t
