-- ===== src/Storage/Mapper.antt =====
-- SimpleFileMapperBase and SimpleFileMapper<readwrite> (src/blocksci/util/file_mapper.hpp and
-- file_mapper.cpp): a memory-mapped file with a buffer for what is written behind it.
-- boost::iostreams::mapped_file and the file system are parameters with their laws.
pub mod Contents
pub mod Truncate
pub mod Write
use block_sci.Storage.Overwrite.{overwrite, resized}
use block_sci.Prelude.{
  ℕ, zero, suc, ◌+◌, ◌-◌, ◌%◌, ◌^◌, ◌≤◌, ◌≡◌, Bool, true, false, ◌&&◌, not, List, [], ◌∷◌, ◌++◌,
  Option, none, some, ltb, ◌==◌, if◌then◌else◌, length, take, drop, replicate, min,
}

-- A file that is there: new_file_size and a seek past the end make one of zeros, resize_file cuts
-- it or adds zeros, and memcpy to the mapped bytes writes inside it.
pub record Disk : Type 1 where
  pub File : Type 0
  pub bytes : File → List ℕ
  pub create : ℕ → File
  pub resize : ℕ → File → File
  pub store : ℕ → List ℕ → File → File
  pub bytes-create : (n : ℕ) → bytes (create n) ≡ replicate n 0
  pub bytes-resize : (n : ℕ) (f : File) → bytes (resize n f) ≡ resized n (bytes f)
  pub bytes-store :
      (n : ℕ) (vs : List ℕ) (f : File)
      → n + length vs ≤ length (bytes f)
      → bytes (store n vs f) ≡ overwrite n vs (bytes f)

-- InvalidFileIndex is the highest of a uint64_t.
abbrev pub invalid_file_index : ℕ
invalid_file_index = 2 ^ 64 - 1

abbrev pub max_buffer_size : ℕ
max_buffer_size = 50000000

pub record Mapper (F : Type 0) : Type 0 where
  pub file : Option F
  pub is_open : Bool
  pub file_end : ℕ
  pub buffer : List ℕ
  pub write_pos : ℕ

-- The end of a write: whether the buffer was flushed, a failed assert, or a memcpy that runs out of
-- the buffer.
pub data Written (F : Type 0) : Type 0 where
  written : Bool → Mapper F → Written F
  assert_failed overrun : Written F

-- A pointer is the bytes ahead of it in the file or in the buffer.
pub data Pointer : Type 0 where
  null bad_offset : Pointer
  ahead : List ℕ → Pointer

module _ {F : Type 0} where
  abbrev pub size : Mapper F → ℕ
  size m = m.file_end + length m.buffer

  unfoldable pub open_file : ℕ → Mapper F → Mapper F
  open_file n m = record m { file_end = n; is_open = if n == 0 then m.is_open else true }

  unfoldable pub seek_end : Mapper F → Mapper F
  seek_end m = record m { write_pos = size m }

  unfoldable pub seek : ℕ → Mapper F → Mapper F
  seek n m = record m { write_pos = n }

  unfoldable pub write_space : Mapper F → ℕ
  write_space m =
      if ltb m.write_pos m.file_end
      then m.file_end - m.write_pos
      else (if ltb m.write_pos (size m)
          then (2 ^ 64 + (m.write_pos - m.file_end) - length m.buffer) % 2 ^ 64
          else 0)

module _ (D : Disk) where
  -- No file has no bytes.
  abbrev pub file_bytes : Option D.File → List ℕ
  file_bytes none = []
  file_bytes (some f) = D.bytes f

  abbrev pub file_size : Option D.File → ℕ
  file_size f = length (file_bytes f)

  -- The constructor.
  unfoldable pub open_mapper : Option D.File → Mapper D.File
  unfolding open_file
  open_mapper f =
      let fresh : Mapper D.File = record {
        file = f;
        is_open = false;
        file_end = 0;
        buffer = [];
        write_pos = 0;
      } in
      elim f [
        | none ↦ fresh
        | some g ↦ record (open_file (length (D.bytes g)) fresh) { write_pos = length (D.bytes g) }
      ]

  -- The file that clearBuffer makes room in.
  unfoldable pub grown : Mapper D.File → D.File
  grown m =
      let fresh : D.File = D.create (length m.buffer) in
      if not m.is_open then fresh else elim m.file [ none ↦ fresh | some f ↦ D.resize (size m) f ]

  unfoldable pub clear_buffer : Mapper D.File → Mapper D.File
  unfolding grown
  clear_buffer m =
      if ltb 0 (length m.buffer)
      then record m {
        file = some (D.store m.file_end m.buffer (grown m));
        is_open = true;
        file_end = size m;
        buffer = [];
      }
      else m

  -- SimpleFileMapperBase::reload.
  unfoldable pub base_reload : Mapper D.File → Mapper D.File
  unfolding open_file
  base_reload m = elim m.file [
    | none ↦ record m { is_open = false; file_end = 0 }
    | some f ↦
        if length (D.bytes f) == m.file_end
        then m
        else open_file (length (D.bytes f)) (record m { is_open = false })
  ]

  unfoldable pub reload : Mapper D.File → Mapper D.File
  unfolding clear_buffer base_reload
  reload m = base_reload (clear_buffer m)

  -- memcpy into the mapped file.
  unfoldable pub store_at : ℕ → List ℕ → Option D.File → Option D.File
  store_at n vs none = none
  store_at n vs (some f) = some (D.store n vs f)

  -- The last part of a write, behind the end.
  unfoldable pub write_back : List ℕ → Mapper D.File → Written D.File
  unfolding clear_buffer
  write_back vs m =
      let longer : Mapper D.File = record m {
        buffer = m.buffer ++ vs;
        write_pos = m.write_pos + length vs;
      } in
      if m.write_pos == size m
      then (if ltb max_buffer_size (length longer.buffer)
          then written true (clear_buffer longer)
          else written false longer)
      else assert_failed

  -- The part that goes into the buffer.
  unfoldable pub write_buffer : List ℕ → Mapper D.File → Written D.File
  write_buffer vs m =
      if not (ltb m.write_pos m.file_end) && ltb m.write_pos (length m.buffer)
      then (let n = min (length vs) (write_space m) in
          let within : Mapper D.File = record m {
            buffer = overwrite (m.write_pos - m.file_end) (take n vs) m.buffer;
            write_pos = m.write_pos + n;
          } in
          if ltb (length m.buffer) (m.write_pos - m.file_end + n)
          then overrun
          else (if length vs == n then written false within else write_back (drop n vs) within))
      else write_back vs m

  -- The part that goes into the file, of the amount given.
  unfoldable pub write_file : List ℕ → ℕ → Mapper D.File → Written D.File
  write_file vs n m =
      let within : Mapper D.File = record m {
        file = store_at m.write_pos (take n vs) m.file;
        write_pos = m.write_pos + n;
      } in
      if length vs == n then written false within else write_buffer (drop n vs) within

  unfoldable pub write : List ℕ → Mapper D.File → Written D.File
  write vs m =
      if ltb m.write_pos m.file_end
      then write_file vs (min (length vs) (write_space m)) m
      else write_buffer vs m

  unfoldable pub data_at_offset : ℕ → Mapper D.File → Pointer
  data_at_offset n m =
      if n == invalid_file_index
      then null
      else (if ltb n (size m)
          then (if ltb n m.file_end
              then ahead (drop n (file_bytes m.file))
              else ahead (drop (n - m.file_end) m.buffer))
          else bad_offset)

  -- resize_file, or the fstream that makes the file.
  unfoldable pub resize_file : ℕ → Option D.File → Option D.File
  resize_file n none = some (D.create n)
  resize_file n (some f) = some (D.resize n f)

  unfoldable pub truncate : ℕ → Mapper D.File → Mapper D.File
  unfolding reload clear_buffer resize_file
  truncate n m =
      let cleared : Mapper D.File = clear_buffer m in
      if ltb n m.file_end
      then reload (record m { buffer = []; file = resize_file n m.file })
      else (if ltb n (size m)
          then record m { buffer = take (n - m.file_end) m.buffer }
          else (if ltb (size m) n
              then reload (record cleared { file = resize_file n cleared.file })
              else m))
