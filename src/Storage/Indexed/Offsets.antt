-- ===== src/Storage/Indexed/Offsets.antt =====
-- The offsets that an indexed file keeps for values written one behind the other.
use block_sci.Storage.Mapper.{Disk, invalid_file_index}
use block_sci.Storage.Records.Stores.{offset_of, IsFilled}
use block_sci.Storage.Indexed.{index_unit, new_index, nth_offset}
use block_sci.Prelude.Bytes.{le_bytes, length-le_bytes, of_le-take}
use block_sci.Prelude.{
  ℕ, zero, suc, ◌+◌, ◌*◌, ◌^◌, ◌<◌, ◌≡◌, refl, ap, ◌∙◌, List, [], ◌∷◌, ◌++◌, some, length, take,
  concat, All, get_elem?, replicate, length-append, arith,
}

length-invalid : (n : ℕ) → length (concat (replicate n (le_bytes 8 invalid_file_index))) ≡ 8 * n
length-invalid zero = refl
length-invalid (suc n) = omega (
  arith,
  length-append (le_bytes 8 invalid_file_index)
      (concat (replicate n (le_bytes 8 invalid_file_index))),
  length-invalid n,
)

module _ (others : ℕ) where
  pub length-new_index : (o : ℕ) → length (new_index others o) ≡ index_unit others
  length-new_index o = omega (
    arith,
    length-append (le_bytes 8 o) (concat (replicate others (le_bytes 8 invalid_file_index))),
    length-le_bytes 8 o,
    length-invalid others,
  )

  pub nth_offset-new_index :
      (D : Disk) (o : ℕ) → o < 2 ^ 64 → nth_offset D others 0 (new_index others o) ≡ o
  nth_offset-new_index D o h =
      of_le-take 8 o (concat (replicate others (le_bytes 8 invalid_file_index))) h

  -- The indexes of values that begin at an offset.
  abbrev pub indexes : ℕ → List (List ℕ) → List (List ℕ)
  indexes o [] = []
  indexes o (r ∷ rs) = new_index others o ∷ indexes (o + length r) rs

  pub indexes-append :
      (o : ℕ) (rs : List (List ℕ)) (r : List ℕ)
      → indexes o (rs ++ (r ∷ []))
        ≡ indexes o rs ++ (new_index others (o + length (concat rs)) ∷ [])
  indexes-append o [] r = let e : o + 0 ≡ o = omega arith in rw e refl
  indexes-append o (x ∷ rs) r =
      let e : o + length x + length (concat rs) ≡ o + length (x ++ concat rs) =
        omega (arith, length-append x (concat rs)) in
      ap (λ (l : List (List ℕ)). new_index others o ∷ l)
        (indexes-append (o + length x) rs r ∙ rw e refl)

  pub get_elem?-indexes :
      (o : ℕ) (rs : List (List ℕ)) (i : ℕ) (r : List ℕ)
      → get_elem? rs i ≡ some r
      → get_elem? (indexes o rs) i ≡ some (new_index others (o + offset_of i rs))
  get_elem?-indexes o [] i r e = absurd (ground (arith, e))
  get_elem?-indexes o (x ∷ rs) zero r e = let z : o + 0 ≡ o = omega arith in rw z refl
  get_elem?-indexes o (x ∷ rs) (suc i) r e =
      let z : o + length x + offset_of i rs ≡ o + length (x ++ concat (take i rs)) =
        omega (arith, length-append x (concat (take i rs))) in
      get_elem?-indexes (o + length x) rs i r e ∙ ap (λ n. some (new_index others n)) z

  pub take-indexes :
      (o : ℕ) (rs : List (List ℕ)) (i : ℕ) → take i (indexes o rs) ≡ indexes o (take i rs)
  take-indexes o rs zero = refl
  take-indexes o [] (suc i) = refl
  take-indexes o (x ∷ rs) (suc i) =
      ap (λ (l : List (List ℕ)). new_index others o ∷ l) (take-indexes (o + length x) rs i)

  pub length-concat-indexes :
      (o : ℕ) (rs : List (List ℕ)) → length (concat (indexes o rs)) ≡ length rs * index_unit others
  length-concat-indexes o [] = omega arith
  length-concat-indexes o (x ∷ rs) = omega (
    arith,
    length-append (new_index others o) (concat (indexes (o + length x) rs)),
    length-new_index o,
    length-concat-indexes (o + length x) rs,
  )

  pub length-take-indexes : (o : ℕ) (rs : List (List ℕ)) → length (indexes o rs) ≡ length rs
  length-take-indexes o [] = refl
  length-take-indexes o (x ∷ rs) = ap suc (length-take-indexes (o + length x) rs)

  pub indexes-All : (o : ℕ) (rs : List (List ℕ)) → All IsFilled (indexes o rs)
  indexes-All o [] = tt
  indexes-All o (x ∷ rs) = (omega (arith, length-new_index o), indexes-All (o + length x) rs)
