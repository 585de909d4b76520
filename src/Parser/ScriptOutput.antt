-- ===== src/Parser/ScriptOutput.antt =====
-- extractScriptData (src/parser/script_output.cpp): which kind of output a script is. A hash is the
-- list of its bytes.
pub mod Extract
use block_sci.Prelude.{
  ℕ, zero, suc, ◌+◌, ◌%◌, ◌^◌, Bool, true, false, not, ◌&&◌, ◌||◌, List, [], ◌∷◌, ◌++◌, Option,
  none, some, ltb, leb, ◌==◌, if◌then◌else◌, length, take, drop,
}
use block_sci.Script.Opcode.{
  op_0, op_1, op_16, op_return, op_dup, op_hash160, op_equalverify, op_checksig, op_checkmultisig,
  op_smallinteger, op_pubkeys, op_pubkeyhash, op_pubkey, decode_op_n,
}
use block_sci.Script.GetOp.{OpResult, get_op2}
use block_sci.Script.Inspect.{is_pay_to_script_hash, is_witness_program, is_push_only}

-- The header byte of a key, with its length.
abbrev pub has_key_header : ℕ → ℕ → Bool
has_key_header header size =
    ((header == 2 || header == 3) && (size == 33))
    || ((header == 4 || header == 6 || header == 7) && (size == 65))

unfoldable pub is_valid_pubkey : List ℕ → Bool
is_valid_pubkey [] = false
is_valid_pubkey (header ∷ rest) =
    if ltb (length (header ∷ rest)) 33 || ltb 65 (length (header ∷ rest))
    then false
    else has_key_header header (length (header ∷ rest))

pub record MultisigOutput : Type 0 where
  pub num_required : ℕ
  pub num_total : ℕ
  pub addresses : List (List ℕ)

-- ScriptOutputData, by type.
pub data ScriptData : Type 0 where
  of_pubkey of_pubkeyhash of_scripthash : List ℕ → ScriptData
  of_witness_pubkeyhash of_witness_scripthash : List ℕ → ScriptData
  of_multisig : MultisigOutput → ScriptData
  of_null_data of_nonstandard : List ℕ → ScriptData

abbrev pub is_valid : ScriptData → Bool
is_valid (of_multisig m) =
    leb m.num_required m.num_total && (m.num_total == length m.addresses % 2 ^ 16)
is_valid _ = true

-- The loop of the NULL_DATA constructor, with fuel.
unfoldable pub full_data : ℕ → List ℕ → List ℕ
full_data zero pc = []
full_data (suc fuel) pc =
    let op = get_op2 pc in
    let later = full_data fuel op.pc in if op.found then op.vch ++ later else []

-- The templates: a key, the hash of a key, several keys.
abbrev pub templates : List (List ℕ)
templates =
    (op_pubkey ∷ op_checksig ∷ [])
    ∷ (op_dup ∷ op_hash160 ∷ op_pubkeyhash ∷ op_equalverify ∷ op_checksig ∷ [])
    ∷ (op_smallinteger ∷ op_pubkeys ∷ op_smallinteger ∷ op_checkmultisig ∷ [])
    ∷ []

-- The variables of the scan: numRequired, isFirstSmallInt, type.
pub record Scan : Type 0 where
  pub num_required : ℕ
  pub is_first : Bool
  pub type : Option ScriptData

-- How the match of one template ends: a return, a break, an access to the wrong variant.
pub data Ending : Type 0 where
  returned : ScriptData → Ending
  broken : Option ScriptData → Ending
  bad_access unfinished : Ending

-- The loop that reads the keys: the keys, and the instruction it stops at.
unfoldable pub read_keys : ℕ → OpResult → List (List ℕ) → Option (List (List ℕ) × OpResult)
read_keys zero op keys = none
read_keys (suc fuel) op keys =
    let next = get_op2 op.pc in
    let more = read_keys fuel next (keys ++ op.vch ∷ []) in
    if leb 33 (length op.vch) && leb (length op.vch) 65
    then (if next.found then more else some (keys ++ op.vch ∷ [], next))
    else some (keys, op)

abbrev pub same_bytes : List ℕ → List ℕ → Bool
same_bytes [] ys = true
same_bytes (x ∷ xs) [] = false
same_bytes (x ∷ xs) (y ∷ ys) = (x == y) && same_bytes xs ys

-- What one comparison leaves: to go on, or an end.
pub data Compared : Type 0 where
  goes_on : Scan → Compared
  ends : Ending → Compared

-- The second small integer: `mpark::get` on the type found.
abbrev pub set_total : Scan → ℕ → Compared
set_total s total = elim s.type [
  | some (of_multisig m) ↦
      goes_on (record s { type = some (of_multisig (record m { num_total = total })) })
  | _ ↦ ends bad_access
]

abbrev pub small_int : Scan → ℕ → Compared
small_int s opcode = elim (decode_op_n opcode) [
  | none ↦ ends (broken s.type)
  | some n ↦
      if s.is_first
      then goes_on (record s { num_required = n; is_first = false })
      else set_total s n
]

-- The opcodes of a template that stand for operands, and equality for the others.
unfoldable pub compare_op : Scan → OpResult → OpResult → Compared
unfolding is_valid_pubkey decode_op_n
compare_op s op1 op2 =
    if op2.opcode == op_pubkey
    then (if is_valid_pubkey op1.vch
        then goes_on (record s { type = some (of_pubkey op1.vch) })
        else ends (broken s.type))
    else if op2.opcode == op_pubkeyhash
    then (if length op1.vch == 20
        then goes_on (record s { type = some (of_pubkeyhash op1.vch) })
        else ends (broken s.type))
    else if op2.opcode == op_smallinteger
    then (if op1.opcode == op_0 || (leb op_1 op1.opcode && leb op1.opcode op_16)
        then small_int s op1.opcode
        else ends (broken s.type))
    else if not (op1.opcode == op2.opcode) || not (same_bytes op1.vch op2.vch)
    then ends (broken s.type)
    else goes_on s
