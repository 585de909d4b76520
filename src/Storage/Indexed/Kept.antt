-- ===== src/Storage/Indexed/Kept.antt =====
-- An indexed file gives back what was written: each value is where its index says, also after more
-- writes, flushes and a truncation.
use native.Mathlib.Nat.{mul-div_cancel}
use block_sci.Storage.Overwrite.{take_all}
use block_sci.Storage.Mapper.{
  Disk, Mapper, ahead, size, invalid_file_index, data_at_offset, truncate,
}
use block_sci.Storage.Mapper.Contents.{length-contents}
use block_sci.Storage.Records.{get_data, read_value, write_record, truncate_records}
use block_sci.Storage.Records.Stores.{
  offset_of, offset_of_inside, IsFilled, Stores, contents-Stores, data_at-Stores,
}
use block_sci.Storage.Records.Kept.{write-Stores, truncate-Stores}
use block_sci.Storage.Indexed.{
  Indexed, index_unit, new_index, index_size, write_new, get_offsets, nth_offset, get_offset,
  get_data_at_index, truncate_index,
}
use block_sci.Storage.Indexed.Offsets.{
  length-new_index, nth_offset-new_index, indexes, indexes-append, get_elem?-indexes, take-indexes,
  length-concat-indexes, indexes-All,
}
use block_sci.Prelude.{
  ℕ, ◌+◌, ◌*◌, ◌/◌, ◌%◌, ◌≤◌, ◌≡◌, refl, sym, ap, ◌∙◌, subst, inl, inr, true, false, List, [], ◌∷◌,
  ◌++◌, some, ltb, ◌==◌, length, take, concat, All, get_elem?, get_elem?_inside, get_elem?_below,
  ==_iff, length-take, Bool-cases, ltb→lt, ltb_false→le, ltb-false, lt→ltb, length-append,
  take-append_self, arith,
}

module _ (D : Disk) (others : ℕ) where
  -- The data are the values, and each index has the offset of its value.
  pub record Holds (x : Indexed D.File) (rs : List (List ℕ)) : Type 0 where
    pub values : Stores D x.data_file rs
    pub entries : Stores D x.index_file (indexes others 0 rs)

  abbrev pub AtEnds : Indexed D.File → Type 0
  AtEnds x =
      (x.data_file.write_pos ≡ size x.data_file) × (x.index_file.write_pos ≡ size x.index_file)

  -- No offset reaches InvalidFileIndex.
  abbrev pub IsSmall : List (List ℕ) → Type 0
  IsSmall rs =
      (length (concat rs) ≤ invalid_file_index)
      × (length rs * index_unit others ≤ invalid_file_index)

  size-Stores :
      (m : Mapper D.File) (rs : List (List ℕ)) → Stores D m rs → size m ≡ length (concat rs)
  size-Stores m rs s = sym (length-contents D m s.good) ∙ ap length (contents-Stores D m rs s)

  size-index :
      (x : Indexed D.File) (rs : List (List ℕ))
      → Holds x rs
      → size x.index_file ≡ length rs * index_unit others
  size-index x rs h =
      size-Stores x.index_file (indexes others 0 rs) h.entries ∙ length-concat-indexes others 0 rs

  pub index_size-Holds :
      (x : Indexed D.File) (rs : List (List ℕ)) → Holds x rs → index_size D others x ≡ length rs
  index_size-Holds x rs h =
      ap (λ n. n / index_unit others) (size-index x rs h) ∙ mul-div_cancel (length rs) (omega arith)

  offset_of-indexes :
      (rs : List (List ℕ)) (i : ℕ)
      → i ≤ length rs
      → offset_of i (indexes others 0 rs) ≡ i * index_unit others
  offset_of-indexes rs i h =
      let whole : length (take i rs) ≡ i = omega (arith, length-take {A = List ℕ} i rs) in
      ap (λ l. length (concat l)) (take-indexes others 0 rs i)
      ∙ length-concat-indexes others 0 (take i rs)
      ∙ ap (λ n. n * index_unit others) whole

  read_value-ahead :
      (value more : List ℕ)
      → length value ≡ index_unit others
      → read_value D (index_unit others) (ahead (value ++ more)) ≡ some value
  read_value-ahead value more e =
      rw
        (
          ltb-false (length (value ++ more)) (index_unit others)
              (omega (arith, length-append value more)),
          ← e,
          take-append_self value more,
        )
        refl

  get_offsets-Holds :
      (x : Indexed D.File) (rs : List (List ℕ)) (i : ℕ) (r : List ℕ)
      → Holds x rs
      → IsSmall rs
      → get_elem? rs i ≡ some r
      → get_offsets D others i x ≡ some (new_index others (offset_of i rs))
  unfolding get_offsets get_data
  get_offsets-Holds x rs i r h small e =
      let inside = get_elem?_inside i rs r e in
      let counted : ltb i (index_size D others x) ≡ true =
        lt→ltb i (index_size D others x) (omega (arith, index_size-Holds x rs h)) in
      let first : 0 + offset_of i rs ≡ offset_of i rs = omega arith in
      let (more, at) =
        data_at-Stores D x.index_file (indexes others 0 rs) i (new_index others (offset_of i rs))
          h.entries
          (get_elem?-indexes others 0 rs i r e ∙ ap (λ n. some (new_index others n)) first)
          (omega (arith, length-new_index others (offset_of i rs)))
          (omega (arith, size-index x rs h)) in
      let here : data_at_offset D (i * index_unit others) x.index_file
          ≡ ahead (new_index others (offset_of i rs) ++ more) =
        ap (λ n. data_at_offset D n x.index_file) (sym (offset_of-indexes rs i (omega arith)))
        ∙ at in
      rw (counted, here)
        (read_value-ahead (new_index others (offset_of i rs)) more
          (length-new_index others (offset_of i rs)))

  -- A value that was written is where its index points.
  pub get_data-Holds :
      (x : Indexed D.File) (rs : List (List ℕ)) (i : ℕ) (r : List ℕ)
      → Holds x rs
      → IsSmall rs
      → get_elem? rs i ≡ some r
      → IsFilled r
      → (more : List ℕ) × (get_data_at_index D others 0 i x ≡ ahead (r ++ more))
  unfolding get_data_at_index get_offset
  get_data-Holds x rs i r h small e filled =
      let inside = get_elem?_inside i rs r e in
      let counted : ltb i (index_size D others x) ≡ true =
        lt→ltb i (index_size D others x) (omega (arith, index_size-Holds x rs h)) in
      let bound = offset_of_inside i rs r e in
      let total = size-Stores x.data_file rs h.values in
      let found : nth_offset D others 0 (new_index others (offset_of i rs)) ≡ offset_of i rs =
        nth_offset-new_index others D (offset_of i rs) (omega arith) in
      let below : ltb (offset_of i rs) (size x.data_file) ≡ true =
        lt→ltb (offset_of i rs) (size x.data_file) (omega arith) in
      let (more, at) = data_at-Stores D x.data_file rs i r h.values e filled (omega arith) in
      (more, rw (counted, get_offsets-Holds x rs i r h small e, found, below) at)

  -- A new value is the last one, and both files are at their ends again.
  pub write_new-Holds :
      (align : ℕ) (value : List ℕ) (x : Indexed D.File) (rs : List (List ℕ))
      → Holds x rs
      → AtEnds x
      → length value % align ≡ 0
      → (y : Indexed D.File) × (write_new D others align value x ≡ some y)
        × Holds y (rs ++ (value ∷ []))
        × AtEnds y
  unfolding write_new write_record
  write_new-Holds align value x rs h (data_end, index_end) aligned =
      let (_, index, index_done, entries, index_at) =
        write-Stores D x.index_file (indexes others 0 rs) (new_index others x.data_file.write_pos)
          h.entries index_end in
      let (_, values, data_done, stored, data_at) =
        write-Stores D x.data_file rs value h.values data_end in
      let place : x.data_file.write_pos ≡ 0 + length (concat rs) =
        omega (arith, size-Stores x.data_file rs h.values) in
      let ok : (length value % align == 0) ≡ true = (==_iff (length value % align) 0).1 aligned in
      (
        record { data_file = values; index_file = index },
        rw (ok, index_done, data_done) refl,
        record {
          values = stored;
          entries =
              subst (Stores D index)
                (ap (λ o. indexes others 0 rs ++ (new_index others o ∷ [])) place
                  ∙ sym (indexes-append others 0 rs value))
                entries;
        },
        (data_at, index_at),
      )

  -- truncate keeps the values before an index.
  pub truncate_index-Holds :
      (x : Indexed D.File) (rs : List (List ℕ)) (i : ℕ)
      → Holds x rs
      → IsSmall rs
      → All IsFilled rs
      → (y : Indexed D.File) × (truncate_index D others i x ≡ some y) × Holds y (take i rs)
  unfolding truncate_index truncate_records
  truncate_index-Holds x rs i h small filled = elim (Bool-cases (ltb i (length rs))) [
    | inl inside ↦
        let below = ltb→lt i (length rs) inside in
        let (r, e) = get_elem?_below i rs below in
        let bound = offset_of_inside i rs r e in
        let counted : ltb i (index_size D others x) ≡ true =
          lt→ltb i (index_size D others x) (omega (arith, index_size-Holds x rs h)) in
        let found : nth_offset D others 0 (new_index others (offset_of i rs)) ≡ offset_of i rs =
          nth_offset-new_index others D (offset_of i rs) (omega arith) in
        (
          record {
            index_file = truncate D (i * index_unit others) x.index_file;
            data_file = truncate D (offset_of i rs) x.data_file;
          },
          rw (counted, get_offsets-Holds x rs i r h small e, found) refl,
          record {
            values = truncate-Stores D x.data_file rs i h.values filled;
            entries =
                subst (λ n. Stores D (truncate D n x.index_file) (indexes others 0 (take i rs)))
                  (offset_of-indexes rs i (omega arith))
                  (subst (Stores D (truncate D (offset_of i (indexes others 0 rs)) x.index_file))
                    (take-indexes others 0 rs i)
                    (truncate-Stores D x.index_file (indexes others 0 rs) i h.entries
                      (indexes-All others 0 rs)));
          },
        )
    | inr past ↦
        let counted : ltb i (index_size D others x) ≡ false =
          ltb-false i (index_size D others x)
            (omega (arith, index_size-Holds x rs h, ltb_false→le i (length rs) past)) in
        (
          x,
          rw counted refl,
          subst (Holds x) (sym (take_all i rs (ltb_false→le i (length rs) past))) h,
        )
  ]
