-- ===== src/Parser/Reader/CompactSize.antt =====
-- readVariableLengthInteger on what serializeCompact writes.
use native.Mathlib.Nat.{zero-add, suc-add, mod-eq_of_lt}
use block_sci.Prelude.{
  ℕ, zero, suc, ◌+◌, ◌%◌, ◌^◌, ◌<◌, ◌≡◌, refl, ◌∙◌, ap, List, [], ◌∷◌, ◌++◌, ltb, leb, length, drop,
  length-append, Bool-cases, inl, inr, ltb→lt, leb→le, le→leb, drop-append_self, arith,
}
use block_sci.Prelude.Bytes.{le_bytes, of_le-take, length-le_bytes}
use block_sci.Parser.Reader.{
  Reader, ok, ahead, has, read_next, read_variable_length_integer, variable_length_int_size,
  serialize_compact,
}

drop_nil : (k : ℕ) → drop {A = ℕ} k [] ≡ []
drop_nil zero = refl
drop_nil (suc k) = refl

pub drop-add : (n m : ℕ) (l : List ℕ) → drop (n + m) l ≡ drop m (drop n l)
drop-add zero m l = rw zero-add
drop-add (suc n) m [] = rw (suc-add, drop_nil m)
drop-add (suc n) m (x ∷ l) = rw suc-add (drop-add n m l)

abbrev pub bump : ℕ → Reader → Reader
bump n r = record r { offset = r.offset + n }

pub ahead-bump :
    (n : ℕ) (r : Reader) (front rest : List ℕ)
    → length front ≡ n
    → ahead r ≡ front ++ rest
    → ahead (bump n r) ≡ rest
ahead-bump n r front rest l e =
    drop-add r.offset n r.file ∙ rw (e, ← l) (drop-append_self front rest)

-- A number of `width` bytes that stands next is read.
pub read_next-le_bytes :
    (width v : ℕ) (r : Reader) (rest : List ℕ)
    → v < 256 ^ width
    → ahead r ≡ le_bytes width v ++ rest
    → read_next width r ≡ ok (v, bump width r)
unfolding read_next has
read_next-le_bytes width v r rest h e = rw (
  e,
  le→leb width (length (le_bytes width v ++ rest))
      (omega (arith, length-append (le_bytes width v) rest, length-le_bytes width v)),
  of_le-take width v rest h,
)

pub bump-bump : (n m k : ℕ) (r : Reader) → n + m ≡ k → bump m (bump n r) ≡ bump k r
bump-bump n m k r e = rw (← e) (ap (λ (o : ℕ). record r { offset = o }) (omega arith))

-- The marker byte and then the number.
marked :
    (marker width v : ℕ) (r : Reader) (rest : List ℕ)
    → marker < 256
    → v < 256 ^ width
    → ahead r ≡ marker ∷ (le_bytes width v ++ rest)
    → (read_next 1 r ≡ ok (marker, bump 1 r))
      × (read_next width (bump 1 r) ≡ ok (v, bump width (bump 1 r)))
marked marker width v r rest hm hv e =
    let e' : ahead r ≡ le_bytes 1 marker ++ (le_bytes width v ++ rest) =
      rw (mod-eq_of_lt {n = marker} {m = 256} hm) e in
    (
      read_next-le_bytes 1 marker r _ (omega arith) e',
      read_next-le_bytes width v (bump 1 r) rest hv (ahead-bump 1 r (le_bytes 1 marker) _ refl e'),
    )

-- A compact size below 2 ^ 64 that stands next is read as its low 32 bits, and the reader then
-- stands behind it.
pub read_variable_length_integer-serialize_compact :
    (t : ℕ) (r : Reader) (rest : List ℕ)
    → t < 2 ^ 64
    → ahead r ≡ serialize_compact t ++ rest
    → read_variable_length_integer r ≡ ok (t % 2 ^ 32, bump (variable_length_int_size t) r)
unfolding read_variable_length_integer serialize_compact variable_length_int_size
read_variable_length_integer-serialize_compact t r rest h e = elim (Bool-cases (ltb t 253)) [
  | inl a ↦
      let p = read_next-le_bytes 1 t r rest (omega (arith, ltb→lt t 253 a)) (rw a at e) in
      rw (p, a, mod-eq_of_lt {n = t} {m = 2 ^ 32} (omega (arith, ltb→lt t 253 a))) refl
  | inr a ↦ elim (Bool-cases (leb t 0xffff)) [
    | inl b ↦
        let (p, q) =
          marked 253 2 t r rest (omega arith) (omega (arith, leb→le _ _ b)) (rw (a, b) at e) in
        rw (p, q, a, b, mod-eq_of_lt {n = t} {m = 2 ^ 32} (omega (arith, leb→le _ _ b)))
          (ap (λ (s : Reader). ok (t, s)) (bump-bump 1 2 3 r refl))
    | inr b ↦ elim (Bool-cases (leb t 0xffff_ffff)) [
      | inl c ↦
          let (p, q) =
            marked 254 4 t r rest (omega arith) (omega (arith, leb→le _ _ c)) (rw (a, b, c) at e) in
          rw (p, q, a, b, c, mod-eq_of_lt {n = t} {m = 2 ^ 32} (omega (arith, leb→le _ _ c)))
            (ap (λ (s : Reader). ok (t, s)) (bump-bump 1 4 5 r refl))
      | inr c ↦
          let (p, q) = marked 255 8 t r rest (omega arith) h (rw (a, b, c) at e) in
          rw (p, q, a, b, c) (ap (λ (s : Reader). ok (t % 2 ^ 32, s)) (bump-bump 1 8 9 r refl))
    ]
  ]
]
