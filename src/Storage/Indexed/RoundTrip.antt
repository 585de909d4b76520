-- ===== src/Storage/Indexed/RoundTrip.antt =====
-- Values written to an indexed file, cut by truncate and written on, are read back by their indexes.
use block_sci.Storage.Mapper.{
  Disk, Mapper, ahead, size, seek_end, open_mapper, open_file, file_bytes,
}
use block_sci.Storage.Records.Stores.{IsFilled, Stores}
use block_sci.Storage.Indexed.{
  Indexed, index_size, get_data_at_index, truncate_index, seek_ends, write_all, open_indexed,
}
use block_sci.Storage.Indexed.Offsets.{indexes}
use block_sci.Storage.Indexed.Kept.{
  Holds, AtEnds, IsSmall, index_size-Holds, get_data-Holds, write_new-Holds, truncate_index-Holds,
}
use block_sci.Prelude.{
  ℕ, ◌%◌, ◌≡◌, refl, sym, subst, List, [], ◌∷◌, ◌++◌, Option, none, some, length, take, All,
  All-append, All-take, All-get_elem?, concat, get_elem?, append_assoc, append-nil, arith,
}

module _ (D : Disk) (others : ℕ) where
  abbrev pub IsAligned : ℕ → List ℕ → Type 0
  IsAligned align value = length value % align ≡ 0

  -- Each value of the list is read through its index, and there are no other indexes.
  abbrev pub Reads : Indexed D.File → List (List ℕ) → Type 0
  Reads x rs =
      (index_size D others x ≡ length rs)
      × ((i : ℕ) (r : List ℕ)
          → get_elem? rs i ≡ some r
          → (more : List ℕ) × (get_data_at_index D others 0 i x ≡ ahead (r ++ more)))

  pub Holds-Reads :
      (x : Indexed D.File) (rs : List (List ℕ))
      → Holds D others x rs
      → IsSmall D others rs
      → All IsFilled rs
      → Reads x rs
  Holds-Reads x rs h small filled = (
    index_size-Holds D others x rs h,
    λ i r e. get_data-Holds D others x rs i r h small e (All-get_elem? IsFilled rs i r filled e),
  )

  pub write_all-Holds :
      (align : ℕ) (vs : List (List ℕ)) (x : Indexed D.File) (rs : List (List ℕ))
      → Holds D others x rs
      → AtEnds D others x
      → All (IsAligned align) vs
      → (y : Indexed D.File) × (write_all D others align vs x ≡ some y)
        × Holds D others y (rs ++ vs)
        × AtEnds D others y
  unfolding write_all
  write_all-Holds align [] x rs h e a =
      (x, refl, subst (Holds D others x) (sym (append-nil rs)) h, e)
  write_all-Holds align (v ∷ vs) x rs h e (b, a) =
      let (y, first, held, ends) = write_new-Holds D others align v x rs h e b in
      let (z, rest, all, z_ends) = write_all-Holds align vs y (rs ++ (v ∷ [])) held ends a in
      (
        z,
        rw (first, write_all) rest,
        subst (Holds D others z) (append_assoc rs (v ∷ []) vs) all,
        z_ends,
      )

  -- A file that has these records and was just opened.
  pub open_mapper-Stores :
      (f : Option D.File) (rs : List (List ℕ))
      → file_bytes D f ≡ concat rs
      → Stores D (open_mapper D f) rs × ((open_mapper D f).write_pos ≡ size (open_mapper D f))
  unfolding open_mapper open_file
  open_mapper-Stores none rs e = (
    record {
      filed = rs;
      waiting = [];
      parts = sym (append-nil rs);
      in_file = e;
      in_buffer = refl;
      good = record { end_known = refl; mapped = refl };
    },
    refl,
  )
  open_mapper-Stores (some f) rs e = (
    record {
      filed = rs;
      waiting = [];
      parts = sym (append-nil rs);
      in_file = e;
      in_buffer = refl;
      good = record { end_known = refl; mapped = ground arith };
    },
    omega arith,
  )

  seek_end-Stores :
      (m : Mapper D.File) (rs : List (List ℕ))
      → Stores D m rs
      → Stores D (seek_end m) rs × ((seek_end m).write_pos ≡ size (seek_end m))
  unfolding seek_end
  seek_end-Stores m rs s = (
    record {
      filed = s.filed;
      waiting = s.waiting;
      parts = s.parts;
      in_file = s.in_file;
      in_buffer = s.in_buffer;
      good = record { end_known = s.good.end_known; mapped = s.good.mapped };
    },
    refl,
  )

  -- Values that are not empty and have the right alignment, with offsets below InvalidFileIndex,
  -- are all written to a new indexed file, which then has as many indexes as values and reads each
  -- value through its index, wherever the buffer was flushed.
  pub get_data-write_all :
      (align : ℕ) (vs : List (List ℕ))
      → All (IsAligned align) vs
      → All IsFilled vs
      → IsSmall D others vs
      → (x : Indexed D.File) × (write_all D others align vs (open_indexed D others none none)
          ≡ some x)
        × Reads x vs
  unfolding open_indexed
  get_data-write_all align vs a filled small =
      let (values, values_at) = open_mapper-Stores none [] refl in
      let (x, done, held, _) =
        write_all-Holds align vs (open_indexed D others none none) []
          (record { values = values; entries = values }) (values_at, values_at) a in
      (x, done, Holds-Reads x vs held small filled)

  -- For an indexed file that holds values, none of them empty and all offsets below
  -- InvalidFileIndex: truncate to the first of them ends, and after seekEnd further values of the
  -- right alignment are written, and then the file has exactly the values kept and the new ones,
  -- each read through its index.
  pub write_all-truncate_index :
      (align i : ℕ) (vs ws : List (List ℕ)) (x : Indexed D.File)
      → Holds D others x vs
      → All IsFilled vs
      → All IsFilled ws
      → All (IsAligned align) ws
      → IsSmall D others vs
      → IsSmall D others (take i vs ++ ws)
      → (y z : Indexed D.File) × (truncate_index D others i x ≡ some y)
        × (write_all D others align ws (seek_ends D others y) ≡ some z)
        × Reads z (take i vs ++ ws)
  unfolding seek_ends
  write_all-truncate_index align i vs ws x h old new a small small_new =
      let (y, cut, held) = truncate_index-Holds D others x vs i h small old in
      let (values, values_at) = seek_end-Stores y.data_file (take i vs) held.values in
      let (entries, entries_at) =
        seek_end-Stores y.index_file (indexes others 0 (take i vs)) held.entries in
      let (z, done, all, _) =
        write_all-Holds align ws (seek_ends D others y) (take i vs)
          (record { values = values; entries = entries }) (values_at, entries_at) a in
      (
        y,
        z,
        cut,
        done,
        Holds-Reads z (take i vs ++ ws) all small_new
            (All-append IsFilled (take i vs) ws (All-take IsFilled i vs old) new),
      )
