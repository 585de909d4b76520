-- ===== src/Storage/Records.antt =====
-- FixedSizeFileMapper and ArbitraryLengthData (src/blocksci/util/file_mapper.hpp). A value of the
-- file is its bytes, `unit` of them.
pub mod Stores
pub mod Kept
use block_sci.Storage.Mapper.{
  Disk, Mapper, Written, Pointer, null, bad_offset, ahead, size, write, data_at_offset, truncate,
  seek, seek_end,
}
use block_sci.Prelude.{
  ℕ, zero, suc, ◌+◌, ◌-◌, ◌*◌, ◌/◌, ◌%◌, Bool, List, [], ◌∷◌, ◌++◌, Option, none, some, ltb,
  if◌then◌else◌, length, take, replicate,
}

-- ArbitraryLengthData::finalize: zeros up to the alignment.
unfoldable pub finalize : ℕ → List ℕ → List ℕ
finalize align raw =
    let chars_to_add = length raw % align in
    if ltb 0 chars_to_add then raw ++ replicate (align - chars_to_add) 0 else raw

module _ (D : Disk) (unit : ℕ) where
  abbrev pub get_pos : ℕ → ℕ
  get_pos index = index * unit

  abbrev pub record_count : Mapper D.File → ℕ
  record_count m = size m / unit

  -- The assert is a bad offset.
  unfoldable pub get_data : ℕ → Mapper D.File → Pointer
  get_data index m =
      if ltb index (record_count m) then data_at_offset D (get_pos index) m else bad_offset

  unfoldable pub write_record : List ℕ → Mapper D.File → Written D.File
  write_record value m = write D value m

  unfoldable pub truncate_records : ℕ → Mapper D.File → Mapper D.File
  truncate_records index m = truncate D (get_pos index) m

  unfoldable pub seek_record : ℕ → Mapper D.File → Mapper D.File
  seek_record index m = seek (get_pos index) m

  -- The value that a pointer reads.
  abbrev pub read_value : Pointer → Option (List ℕ)
  read_value null = none
  read_value bad_offset = none
  read_value (ahead bytes) = if ltb (length bytes) unit then none else some (take unit bytes)

  abbrev passes : (List ℕ → Bool) → Option (List ℕ) → Option Bool
  passes test none = none
  passes test (some value) = some (test value)

  -- The loop of find, with as many rounds as there are records from the index on.
  unfoldable pub find_from : (List ℕ → Bool) → ℕ → ℕ → Mapper D.File → Option (Option ℕ)
  unfolding get_data
  find_from test zero index m = some none
  find_from test (suc rounds) index m =
      let rest = find_from test rounds (suc index) m in
      elim (passes test (read_value (get_data index m))) [
        | none ↦ none
        | some found ↦ if found then some (some index) else rest
      ]

  unfoldable pub find : (List ℕ → Bool) → Mapper D.File → Option (Option ℕ)
  unfolding find_from
  find test m = find_from test (record_count m) 0 m

  abbrev collect : Bool → ℕ → Option (List ℕ) → Option (List ℕ)
  collect found index none = none
  collect found index (some later) = some (if found then index ∷ later else later)

  unfoldable pub find_all_from : (List ℕ → Bool) → ℕ → ℕ → Mapper D.File → Option (List ℕ)
  unfolding get_data
  find_all_from test zero index m = some []
  find_all_from test (suc rounds) index m =
      let rest = find_all_from test rounds (suc index) m in
      elim (passes test (read_value (get_data index m))) [
        | none ↦ none
        | some found ↦ collect found index rest
      ]

  unfoldable pub find_all : (List ℕ → Bool) → Mapper D.File → Option (List ℕ)
  unfolding find_all_from
  find_all test m = find_all_from test (record_count m) 0 m
