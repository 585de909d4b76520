-- ===== src/Tests/Storage.antt =====
-- The files of the analysis data over lists of bytes, on small values.
use block_sci.Storage.Overwrite.{overwrite, resized}
use block_sci.Storage.Mapper.{Disk, Mapper, assert_failed, write, truncate}
use block_sci.Storage.Mapper.Contents.{contents, IsGood}
use block_sci.Storage.Mapper.Truncate.{truncate_lem}
use block_sci.Storage.Mapper.Write.{HasWritten, write_lem, write-truncate}
use block_sci.Storage.Indexed.{Indexed, truncate_index, seek_ends, write_all, open_indexed}
use block_sci.Storage.Indexed.Offsets.{indexes}
use block_sci.Storage.Indexed.Kept.{Holds}
use block_sci.Storage.Indexed.RoundTrip.{
  Reads, get_data-write_all, write_all-truncate_index, open_mapper-Stores,
}
use block_sci.Storage.Writer.{
  open_writer, write_imp, write_index_group, write_data, write_parts, write_groups,
}
use block_sci.Storage.Writer.ReadBack.{new_writer, Reads-write_groups}
use block_sci.Prelude.{ℕ, ◌≡◌, refl, inl, true, List, [], ◌∷◌, none, some, replicate, concat, arith}

abbrev disk : Disk
disk = record {
  File = List ℕ;
  bytes = λ f. f;
  create = λ n. replicate n 0;
  resize = resized;
  store = overwrite;
  bytes-create = λ n. refl;
  bytes-resize = λ n f. refl;
  bytes-store = λ n vs f h. refl;
}

-- Three bytes in the file and two in the buffer.
abbrev five : Mapper (List ℕ)
five = record {
  file = some (1 ∷ 2 ∷ 3 ∷ []);
  is_open = true;
  file_end = 3;
  buffer = 4 ∷ 5 ∷ [];
  write_pos = 5;
}

five-IsGood : IsGood disk five
five-IsGood = record { end_known = refl; mapped = refl }

write_lem_example : HasWritten disk (6 ∷ []) five (write disk (6 ∷ []) five)
write_lem_example = write_lem disk (6 ∷ []) five five-IsGood (inl refl)

truncate_lem_example :
    let t = truncate disk 2 five in
    IsGood disk t × (contents disk t ≡ resized 2 (contents disk five)) × (t.write_pos ≡ 5)
truncate_lem_example = truncate_lem disk 2 five five-IsGood

write-truncate_example : write disk (6 ∷ []) (truncate disk 4 five) ≡ assert_failed
write-truncate_example = write-truncate disk (6 ∷ []) 4 five five-IsGood refl (omega arith)

abbrev values : List (List ℕ)
values = (1 ∷ 2 ∷ []) ∷ (3 ∷ 4 ∷ 5 ∷ 6 ∷ []) ∷ []

get_data-write_all_example :
    (x : Indexed (List ℕ)) × (write_all disk 1 2 values (open_indexed disk 1 none none) ≡ some x)
    × Reads disk 1 x values
get_data-write_all_example =
    get_data-write_all disk 1 2 values (refl, (refl, tt)) (omega arith) (omega arith)

abbrev stored : Indexed (List ℕ)
stored = open_indexed disk 0 (some (concat values)) (some (concat (indexes 0 0 values)))

stored-Holds : Holds disk 0 stored values
unfolding open_indexed
stored-Holds = record {
  values = (open_mapper-Stores disk 0 (some (concat values)) values refl).0;
  entries =
      (open_mapper-Stores disk 0 (some (concat (indexes 0 0 values))) (indexes 0 0 values) refl).0;
}

write_all-truncate_index_example :
    (y z : Indexed (List ℕ)) × (truncate_index disk 0 1 stored ≡ some y)
    × (write_all disk 0 2 ((7 ∷ 8 ∷ []) ∷ []) (seek_ends disk 0 y) ≡ some z)
    × Reads disk 0 z ((1 ∷ 2 ∷ []) ∷ (7 ∷ 8 ∷ []) ∷ [])
write_all-truncate_index_example =
    write_all-truncate_index disk 0 2 1 values ((7 ∷ 8 ∷ []) ∷ []) stored stored-Holds (omega arith)
      (omega arith) (refl, tt) (omega arith) (omega arith)

abbrev groups : List (List (List ℕ))
groups = ((1 ∷ []) ∷ (2 ∷ []) ∷ []) ∷ ((3 ∷ []) ∷ []) ∷ []

Reads-write_groups_example :
    Reads disk 0
      (open_indexed disk 0
        (some (1 ∷ 2 ∷ 3 ∷ []))
        (some (write_groups groups new_writer).index_file.bytes))
      ((1 ∷ 2 ∷ []) ∷ (3 ∷ []) ∷ [])
unfolding write_groups write_parts write_data write_index_group write_imp open_writer
Reads-write_groups_example =
    Reads-write_groups disk groups (some (1 ∷ 2 ∷ 3 ∷ []))
      (some (write_groups groups new_writer).index_file.bytes) (omega arith) (omega arith) refl refl
