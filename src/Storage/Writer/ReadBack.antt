-- ===== src/Storage/Writer/ReadBack.antt =====
-- What IndexedFileWriter writes IndexedFileMapper reads: each index leads to the values of its
-- group, one behind the other.
use block_sci.Storage.Overwrite.{overwrite_back}
use block_sci.Storage.Writer.{
  Writer, stream_write, open_writer, write_imp, IndexedWriter, write_index_group, write_data,
  write_parts, write_groups,
}
use block_sci.Storage.Mapper.{Disk, file_bytes}
use block_sci.Storage.Records.Stores.{IsFilled, concat-append}
use block_sci.Storage.Indexed.{open_indexed, new_index}
use block_sci.Storage.Indexed.Offsets.{indexes, indexes-append}
use block_sci.Storage.Indexed.Kept.{IsSmall}
use block_sci.Storage.Indexed.RoundTrip.{Reads, Holds-Reads, open_mapper-Stores}
use block_sci.Prelude.Bytes.{le_bytes}
use block_sci.Prelude.{
  ℕ, ◌+◌, ◌-◌, ◌≡◌, refl, sym, ap, ◌∙◌, subst, List, [], ◌∷◌, ◌++◌, Option, length, All, concat,
  map, append_assoc, append-nil, length-append, arith,
}

-- The writer is at the end of its file.
abbrev pub AtEnd : Writer → Type 0
AtEnd w = (w.pos ≡ length w.bytes) × (w.last_data_pos ≡ length w.bytes)

write_imp-AtEnd :
    (value : List ℕ) (w : Writer)
    → AtEnd w
    → ((write_imp value w).bytes ≡ w.bytes ++ value) × AtEnd (write_imp value w)
unfolding write_imp
write_imp-AtEnd value w (e, f) =
    let none_left : length w.bytes - length w.bytes ≡ 0 = omega arith in
    let behind : stream_write w.pos value w.bytes ≡ w.bytes ++ value =
      ap (λ n. stream_write n value w.bytes) e
      ∙ rw (none_left, append-nil w.bytes) (overwrite_back value w.bytes) in
    let longer : length (stream_write w.pos value w.bytes) ≡ length w.bytes + length value =
      ap length behind ∙ length-append w.bytes value in
    (behind, (omega arith, omega arith))

write_parts_lem :
    (ps : List (List ℕ)) (x : IndexedWriter)
    → AtEnd x.data_file
    → ((write_parts ps x).data_file.bytes ≡ x.data_file.bytes ++ concat ps)
      × AtEnd (write_parts ps x).data_file
      × ((write_parts ps x).index_file ≡ x.index_file)
unfolding write_parts write_data
write_parts_lem [] x e = (sym (append-nil x.data_file.bytes), e, refl)
write_parts_lem (p ∷ ps) x e =
    let (one, at) = write_imp-AtEnd p x.data_file e in
    let (all, ends, same) = write_parts_lem ps (write_data p x) at in
    (all ∙ ap (λ l. l ++ concat ps) one ∙ append_assoc x.data_file.bytes p (concat ps), ends, same)

-- The groups as values, and their indexes.
abbrev pub IsWritten : IndexedWriter → List (List ℕ) → Type 0
IsWritten x rs =
    (x.data_file.bytes ≡ concat rs)
    × (x.index_file.bytes ≡ concat (indexes 0 0 rs))
    × AtEnd x.data_file
    × AtEnd x.index_file

concat_back : (rs : List (List ℕ)) (r : List ℕ) → concat (rs ++ (r ∷ [])) ≡ concat rs ++ r
concat_back rs r = concat-append rs (r ∷ []) ∙ ap (λ l. concat rs ++ l) (append-nil r)

write_group_lem :
    (g : List (List ℕ)) (x : IndexedWriter) (rs : List (List ℕ))
    → IsWritten x rs
    → IsWritten (write_parts g (write_index_group 0 x)) (rs ++ (concat g ∷ []))
unfolding write_index_group
write_group_lem g x rs (values, offsets, (p, last), i) =
    let index : List ℕ = le_bytes 8 x.data_file.last_data_pos ++ [] in
    let (indexed, at) = write_imp-AtEnd index x.index_file i in
    let (all, ends, same) = write_parts_lem g (write_index_group 0 x) (p, last) in
    let place : x.data_file.last_data_pos ≡ 0 + length (concat rs) =
      omega (arith, ap length values) in
    (
      all ∙ ap (λ l. l ++ concat g) values ∙ sym (concat_back rs (concat g)),
      ap (λ (w : Writer). w.bytes) same
          ∙ indexed
          ∙ ap (λ l. l ++ index) offsets
          ∙ ap (λ n. concat (indexes 0 0 rs) ++ new_index 0 n) place
          ∙ sym (concat_back (indexes 0 0 rs) (new_index 0 (0 + length (concat rs))))
          ∙ ap concat (sym (indexes-append 0 0 rs (concat g))),
      ends,
      subst AtEnd (sym same) at,
    )

write_groups_lem :
    (gs : List (List (List ℕ))) (x : IndexedWriter) (rs : List (List ℕ))
    → IsWritten x rs
    → IsWritten (write_groups gs x) (rs ++ map concat gs)
unfolding write_groups
write_groups_lem [] x rs w = subst (IsWritten x) (sym (append-nil rs)) w
write_groups_lem (g ∷ gs) x rs w =
    subst (IsWritten (write_groups (g ∷ gs) x)) (append_assoc rs (concat g ∷ []) (map concat gs)) (
      write_groups_lem gs (write_parts g (write_index_group 0 x)) (rs ++ (concat g ∷ []))
        (write_group_lem g x rs w))

abbrev pub new_writer : IndexedWriter
new_writer = record { data_file = open_writer []; index_file = open_writer [] }

module _ (D : Disk) where
  -- Groups of values that IndexedFileWriter writes to new files are read by IndexedFileMapper,
  -- from files with those bytes, each under its number, if no group is empty and all offsets are
  -- below InvalidFileIndex.
  pub Reads-write_groups :
      (gs : List (List (List ℕ))) (values offsets : Option D.File)
      → All IsFilled (map concat gs)
      → IsSmall D 0 (map concat gs)
      → file_bytes D values ≡ (write_groups gs new_writer).data_file.bytes
      → file_bytes D offsets ≡ (write_groups gs new_writer).index_file.bytes
      → Reads D 0 (open_indexed D 0 values offsets) (map concat gs)
  unfolding open_indexed open_writer
  Reads-write_groups gs values offsets filled small e f =
      let (data_bytes, index_bytes, _, _) =
        write_groups_lem gs new_writer [] (refl, refl, (refl, refl), (refl, refl)) in
      let rs = map concat gs in
      Holds-Reads D 0 (open_indexed D 0 values offsets) rs
        (record {
          values = (open_mapper-Stores D 0 values rs (e ∙ data_bytes)).0;
          entries = (open_mapper-Stores D 0 offsets (indexes 0 0 rs) (f ∙ index_bytes)).0;
        })
        small filled
