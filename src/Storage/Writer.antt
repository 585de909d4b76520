-- ===== src/Storage/Writer.antt =====
-- src/parser/file_writer.hpp: files that the parser writes through a stream. A stream is the bytes
-- of its file and one position; a value is its bytes.
pub mod ReadBack
use block_sci.Storage.Overwrite.{overwrite}
use block_sci.Prelude.Bytes.{le_bytes}
use block_sci.Prelude.{
  ℕ, zero, suc, ◌+◌, ◌-◌, ◌*◌, ◌/◌, List, [], ◌∷◌, ◌++◌, Option, none, some, ltb, ◌==◌,
  if◌then◌else◌, length, take, drop, replicate,
}

pub record Writer : Type 0 where
  pub bytes : List ℕ
  pub pos : ℕ
  pub last_data_pos : ℕ

-- A stream that writes behind the end of its file fills the gap with zeros.
abbrev pub stream_write : ℕ → List ℕ → List ℕ → List ℕ
stream_write pos values bytes = overwrite pos values (bytes ++ replicate (pos - length bytes) 0)

-- The constructor, which opens the file at its end.
unfoldable pub open_writer : List ℕ → Writer
open_writer bytes = record { bytes = bytes; pos = length bytes; last_data_pos = length bytes }

unfoldable pub write_imp : List ℕ → Writer → Writer
write_imp value w = record {
  bytes = stream_write w.pos value w.bytes;
  pos = w.pos + length value;
  last_data_pos = w.last_data_pos + length value;
}

-- SimpleFileWriter::read: nothing where the file is too short.
unfoldable pub read : ℕ → ℕ → Writer → Option (List ℕ) × Writer
read sizeof offset w =
    let value : List ℕ = take sizeof (drop offset w.bytes) in
    (if length value == sizeof then some value else none, record w { pos = w.last_data_pos })

unfoldable pub update : ℕ → List ℕ → Writer → Writer
update offset value w = record w {
  bytes = stream_write offset value w.bytes;
  pos = w.last_data_pos;
}

-- SimpleFileWriter::expandToFit, for a size of one or more.
unfoldable pub expand_to_fit : ℕ → Writer → Writer
expand_to_fit n w = record w { bytes = stream_write (n - 1) (0 ∷ []) w.bytes; pos = n }

-- ArbitraryFileWriter::write of a range: the number of its elements, and each of them.
unfoldable pub write_range : List (List ℕ) → Writer → Writer
write_range values w = write_each values (write_imp (le_bytes 4 (length values)) w)
  where
    write_each : List (List ℕ) → Writer → Writer
    write_each [] v = v
    write_each (x ∷ xs) v = write_each xs (write_imp x v)

module _ (unit : ℕ) where
  unfoldable pub read_record : ℕ → Writer → Option (List ℕ) × Writer
  read_record index w = read unit (index * unit) w

  unfoldable pub update_data : ℕ → ℕ → List ℕ → Writer → Writer
  update_data index offset value w = update (index * unit + offset) value w

  abbrev pub writer_count : Writer → ℕ
  writer_count w = w.last_data_pos / unit

pub record IndexedWriter : Type 0 where
  pub data_file : Writer
  pub index_file : Writer

module _ (others : ℕ) where
  unfoldable pub write_index_group : IndexedWriter → IndexedWriter
  write_index_group x = record x {
    index_file =
        write_imp (le_bytes 8 x.data_file.last_data_pos ++ replicate (8 * others) 0) x.index_file;
  }

  -- The number of the offset is added as a number of bytes.
  unfoldable pub update_index_group : ℕ → ℕ → IndexedWriter → IndexedWriter
  update_index_group num address x = record x {
    index_file =
        update_data (8 * suc others) address num (le_bytes 8 x.data_file.last_data_pos)
          x.index_file;
  }

unfoldable pub write_data : List ℕ → IndexedWriter → IndexedWriter
write_data value x = record x { data_file = write_imp value x.data_file }

-- The values of one index, as serializeTransaction writes them.
unfoldable pub write_parts : List (List ℕ) → IndexedWriter → IndexedWriter
write_parts [] x = x
write_parts (p ∷ ps) x = write_parts ps (write_data p x)

unfoldable pub write_groups : List (List (List ℕ)) → IndexedWriter → IndexedWriter
write_groups [] x = x
write_groups (g ∷ gs) x = write_groups gs (write_parts g (write_index_group 0 x))
