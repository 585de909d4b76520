-- ===== src/Parser/RawTx.antt =====
-- RawTransaction::load and TransactionHeader (src/parser/preproccessed_block.cpp, in disk mode): a
-- transaction read in full, and the same bytes skipped for their sizes alone. A pointer into the
-- mapped file is its offset.
pub mod HeaderAgrees
use block_sci.Prelude.{
  ℕ, zero, suc, ◌+◌, ◌-◌, ◌%◌, ◌^◌, ◌≡◌, Bool, true, false, List, [], ◌∷◌, ◌==◌, if◌then◌else◌,
  length,
}
use block_sci.Prelude.Int.{ℤ}
use block_sci.Parser.Reader.{
  Reader, Result, ok, fault, aborted, ◌>>=◌, advance, read_next, read_variable_length_integer,
}

abbrev pub u32 : ℕ → ℕ
u32 n = n % 2 ^ 32

-- A run of bytes of the file.
pub record Slice : Type 0 where
  pub start : ℕ
  pub size : ℕ

pub record RawInput : Type 0 where
  pub hash : ℕ
  pub output_num : ℕ
  pub script : Slice
  pub sequence_num : ℕ
  pub witness_stack : List Slice

pub record RawOutput : Type 0 where
  pub value : ℕ
  pub script : Slice

unfoldable pub load_slice : Reader → Result (Slice × Reader)
load_slice r = do
  (size, r1) ← read_variable_length_integer r
  r2 ← advance size r1
  ok (record { start = r1.offset; size = size }, r2)

unfoldable pub load_input : Reader → Result (RawInput × Reader)
load_input r = do
  (hash, r1) ← read_next 32 r
  (n, r2) ← read_next 4 r1
  (script, r3) ← load_slice r2
  (sequence, r4) ← read_next 4 r3
  ok (
    record {
      hash = hash;
      output_num = n % 2 ^ 16;
      script = script;
      sequence_num = sequence;
      witness_stack = [];
    },
    r4,
  )

unfoldable pub load_output : Reader → Result (RawOutput × Reader)
load_output r = do
  (value, r1) ← read_next 8 r
  (script, r2) ← load_slice r1
  ok (record { value = value; script = script }, r2)

-- `for (i = 0; i < count; i++) emplace_back(reader)`.
unfoldable pub load_many :
    {A : Type 0} → (Reader → Result (A × Reader)) → ℕ → Reader → Result (List A × Reader)
load_many f zero r = ok ([], r)
load_many f (suc n) r = do (a, r1) ← f r; (as', r2) ← load_many f n r1; ok (a ∷ as', r2)

-- The witness of one input: its stack items replace the empty stack.
unfoldable pub load_witness : RawInput → Reader → Result (RawInput × Reader)
load_witness input r = do
  (count, r1) ← read_variable_length_integer r
  (items, r2) ← load_many load_slice count r1
  ok (record input { witness_stack = items }, r2)

unfoldable pub load_witnesses : List RawInput → Reader → Result (List RawInput × Reader)
load_witnesses [] r = ok ([], r)
load_witnesses (i ∷ is) r = do
  (i', r1) ← load_witness i r
  (is', r2) ← load_witnesses is r1
  ok (i' ∷ is', r2)

-- The input count, behind the marker and flag of a transaction with witnesses if they are there,
-- with the place where counting of the hashed bytes starts again.
pub record Counted : Type 0 where
  pub input_count : ℕ
  pub contains_segwit : Bool
  pub counted_from : ℕ
  pub hash_start : ℕ

abbrev pub counted : Bool → ℕ → ℕ → Counted
counted segwit start n = record {
  input_count = n;
  contains_segwit = segwit;
  counted_from = start;
  hash_start = start;
}

abbrev pub read_flag : ℕ → Reader → Result (Counted × Reader)
read_flag flag r =
    if flag == 1
    then (read_variable_length_integer r >>= λ (n, r1). ok (counted true r.offset n, r1))
    else aborted

abbrev pub read_marker : ℕ → ℕ → Reader → Result (Counted × Reader)
read_marker start n r =
    if n == 0
    then (read_next 1 r >>= λ (flag, r1). read_flag flag r1)
    else ok (counted false start n, r)

unfoldable pub read_input_count : Reader → Result (Counted × Reader)
read_input_count r = do (n, r1) ← read_variable_length_integer r; read_marker r.offset n r1

pub record RawTransaction : Type 0 where
  pub tx_num : ℕ
  pub block_height : ℤ
  pub is_segwit : Bool
  pub version : ℕ
  pub locktime : ℕ
  pub tx_hash_start : ℕ
  pub tx_hash_length : ℕ
  pub base_size : ℕ
  pub real_size : ℕ
  pub inputs : List RawInput
  pub outputs : List RawOutput

abbrev pub load_if : Bool → List RawInput → Reader → Result (List RawInput × Reader)
load_if true is r = load_witnesses is r
load_if false is r = ok (is, r)

unfoldable pub load : ℕ → ℤ → Bool → Reader → Result (RawTransaction × Reader)
load tx_num height witness_activated r = do
  (version, r1) ← read_next 4 r
  (c, r2) ← read_input_count r1
  (inputs, r3) ← load_many load_input c.input_count r2
  (output_count, r4) ← read_variable_length_integer r3
  (outputs, r5) ← load_many load_output output_count r4
  (inputs', r6) ← load_if c.contains_segwit inputs r5
  (locktime, r7) ← read_next 4 r6
  ok (
    record {
      tx_num = tx_num;
      block_height = height;
      is_segwit = witness_activated;
      version = version;
      locktime = locktime;
      tx_hash_start = c.hash_start;
      tx_hash_length = u32 (r5.offset - c.hash_start);
      base_size = u32 (
          u32 (u32 (r1.offset - r.offset) + u32 (r5.offset - c.counted_from))
          + u32 (r7.offset - r6.offset));
      real_size = u32 (r7.offset - r.offset);
      inputs = inputs';
      outputs = outputs;
    },
    r7,
  )

pub record TransactionHeader : Type 0 where
  pub version : ℕ
  pub input_count : ℕ
  pub output_count : ℕ
  pub base_size : ℕ
  pub real_size : ℕ
  pub locktime : ℕ

-- What the constructor skips, each with one `advance`.
unfoldable pub skip_slice : ℕ → Reader → Result Reader
skip_slice more r = do (size, r1) ← read_variable_length_integer r; advance (size + more) r1

unfoldable pub skip_input : Reader → Result Reader
skip_input r = do r1 ← advance (32 + 4) r; skip_slice 4 r1

unfoldable pub skip_output : Reader → Result Reader
skip_output r = do r1 ← advance 8 r; skip_slice 0 r1

unfoldable pub skip_many : (Reader → Result Reader) → ℕ → Reader → Result Reader
skip_many f zero r = ok r
skip_many f (suc n) r = do r1 ← f r; skip_many f n r1

unfoldable pub skip_witness : Reader → Result Reader
skip_witness r = do (count, r1) ← read_variable_length_integer r; skip_many (skip_slice 0) count r1

abbrev pub skip_if : Bool → ℕ → Reader → Result Reader
skip_if true n r = skip_many skip_witness n r
skip_if false n r = ok r

-- `inputCount` and `outputCount` are locals of the constructor that hide the fields of that name:
-- the fields keep whatever the memory held, and are given here as `junk`.
unfoldable pub read_header : ℕ × ℕ → Reader → Result (TransactionHeader × Reader)
read_header junk r = do
  (version, r1) ← read_next 4 r
  (c, r2) ← read_input_count r1
  r3 ← skip_many skip_input c.input_count r2
  (output_count, r4) ← read_variable_length_integer r3
  r5 ← skip_many skip_output output_count r4
  r6 ← skip_if c.contains_segwit c.input_count r5
  (locktime, r7) ← read_next 4 r6
  ok (
    record {
      version = version;
      input_count = junk.0;
      output_count = junk.1;
      base_size = u32 (
          u32 (u32 (r1.offset - r.offset) + u32 (r5.offset - c.counted_from))
          + u32 (r7.offset - r6.offset));
      real_size = u32 (r7.offset - r.offset);
      locktime = locktime;
    },
    r7,
  )
