-- ===== src/Storage/Indexed.antt =====
-- IndexedFileMapper (src/blocksci/util/file_mapper.hpp): values of any length in one file, and a
-- second file with the offsets of each, of which the first is that of the value itself. `others` is
-- the number of further offsets.
pub mod Offsets
pub mod Kept
pub mod RoundTrip
use block_sci.Storage.Overwrite.{overwrite}
use block_sci.Storage.Mapper.{
  Disk, Mapper, Written, written, assert_failed, overrun, Pointer, null, bad_offset, ahead, size,
  invalid_file_index, write, data_at_offset, truncate, seek, seek_end, store_at, reload,
  clear_buffer, open_mapper,
}
use block_sci.Storage.Records.{
  get_data, read_value, record_count, get_pos, write_record, truncate_records, seek_record,
}
use block_sci.Prelude.Bytes.{le_bytes, of_le}
use block_sci.Prelude.{
  ℕ, zero, suc, ◌+◌, ◌-◌, ◌*◌, ◌%◌, Bool, not, ◌||◌, List, [], ◌∷◌, ◌++◌, Option, none, some, ltb,
  ◌==◌, if◌then◌else◌, length, take, drop, replicate, concat,
}

pub record Indexed (F : Type 0) : Type 0 where
  pub data_file : Mapper F
  pub index_file : Mapper F

-- Whether a write has ended.
abbrev pub ended : {F : Type 0} → Written F → Option (Mapper F)
ended (written flushed m) = some m
ended assert_failed = none
ended overrun = none

module _ (others : ℕ) where
  abbrev pub index_unit : ℕ
  index_unit = 8 * suc others

  -- The FileIndex of a new value: its offset, and none for the others.
  abbrev pub new_index : ℕ → List ℕ
  new_index offset = le_bytes 8 offset ++ concat (replicate others (le_bytes 8 invalid_file_index))

module _ (D : Disk) (others : ℕ) where
  abbrev pub index_size : Indexed D.File → ℕ
  index_size x = record_count D (index_unit others) x.index_file

  -- writeNewImp, with its assert on the alignment.
  unfoldable pub write_new : ℕ → List ℕ → Indexed D.File → Option (Indexed D.File)
  unfolding write_record
  write_new align value x =
      if not (length value % align == 0)
      then none
      else elim (ended (
          write_record D (index_unit others) (new_index others x.data_file.write_pos)
            x.index_file)) [
              | none ↦ none
              | some index ↦ elim (ended (write D value x.data_file)) [
                | none ↦ none
                | some values ↦ some (record { data_file = values; index_file = index })
              ]
            ]

  unfoldable pub get_offsets : ℕ → Indexed D.File → Option (List ℕ)
  unfolding get_data
  get_offsets index x =
      read_value D (index_unit others) (get_data D (index_unit others) index x.index_file)

  -- One of the offsets, as a number.
  abbrev pub nth_offset : ℕ → List ℕ → ℕ
  nth_offset num offsets = of_le (take 8 (drop (8 * num) offsets))

  unfoldable pub get_offset : ℕ → ℕ → Indexed D.File → Option ℕ
  get_offset num index x = elim (get_offsets index x) [
    | none ↦ none
    | some offsets ↦
        let offset = nth_offset num offsets in
        if ltb offset (size x.data_file) || (offset == invalid_file_index)
        then some offset
        else none
  ]

  unfoldable pub get_data_at_index : ℕ → ℕ → Indexed D.File → Pointer
  get_data_at_index num index x =
      if ltb index (index_size x)
      then elim (get_offset num index x) [
        | none ↦ bad_offset
        | some offset ↦ data_at_offset D offset x.data_file
      ]
      else bad_offset

  unfoldable pub truncate_index : ℕ → Indexed D.File → Option (Indexed D.File)
  truncate_index index x =
      if ltb index (index_size x)
      then elim (get_offsets index x) [
        | none ↦ none
        | some offsets ↦ some (record {
          index_file = truncate_records D (index_unit others) index x.index_file;
          data_file = truncate D (nth_offset 0 offsets) x.data_file;
        })
      ]
      else some x

  unfoldable pub seek_ends : Indexed D.File → Indexed D.File
  seek_ends x = record { data_file = seek_end x.data_file; index_file = seek_end x.index_file }

  unfoldable pub seek_both : ℕ → ℕ → Indexed D.File → Indexed D.File
  unfolding seek_record
  seek_both index data_offset x = record {
    data_file = seek data_offset x.data_file;
    index_file = seek_record D (index_unit others) index x.index_file;
  }

  unfoldable pub reload_both : Indexed D.File → Indexed D.File
  reload_both x = record { data_file = reload D x.data_file; index_file = reload D x.index_file }

  unfoldable pub clear_buffers : Indexed D.File → Indexed D.File
  clear_buffers x = record {
    data_file = clear_buffer D x.data_file;
    index_file = clear_buffer D x.index_file;
  }

  unfoldable pub grow : ℕ → ℕ → Indexed D.File → Indexed D.File
  unfolding truncate_records
  grow indexes bytes x = record {
    index_file = truncate_records D (index_unit others) (index_size x + indexes) x.index_file;
    data_file = truncate D (size x.data_file + bytes) x.data_file;
  }

  -- A store through the pointer that getDataAtOffset gives.
  unfoldable pub store_at_offset : ℕ → List ℕ → Mapper D.File → Mapper D.File
  store_at_offset n values m =
      if ltb n m.file_end
      then record m { file = store_at D n values m.file }
      else record m { buffer = overwrite (n - m.file_end) values m.buffer }

  -- writeUpdateImp: a further offset of an index, and its value at the end of the data.
  unfoldable pub write_update : ℕ → ℕ → ℕ → List ℕ → Indexed D.File → Option (Indexed D.File)
  unfolding store_at_offset
  write_update align num index value x =
      if not (length value % align == 0) || not (ltb index (index_size x))
      then none
      else elim (ended (write D value x.data_file)) [
        | none ↦ none
        | some values ↦ some (record {
          data_file = values;
          index_file =
              store_at_offset (get_pos D (index_unit others) index + 8 * num)
                (le_bytes 8 x.data_file.write_pos) x.index_file;
        })
      ]

  -- A client's values, one after the other.
  unfoldable pub write_all : ℕ → List (List ℕ) → Indexed D.File → Option (Indexed D.File)
  write_all align [] x = some x
  write_all align (value ∷ values) x = elim (write_new align value x) [
    | none ↦ none
    | some y ↦ write_all align values y
  ]

  -- The constructor, on files that may be there.
  unfoldable pub open_indexed : Option D.File → Option D.File → Indexed D.File
  open_indexed values indexes = record {
    data_file = open_mapper D values;
    index_file = open_mapper D indexes;
  }
