-- ===== src/Script/GetOp.antt =====
-- CScript::GetOp2 and CScriptView::GetOp2: one instruction off the front of the script.
use block_sci.Prelude.{
  ℕ, ◌%◌, ◌^◌, ◌≤◌, inl, inr, Bool, true, false, List, [], ◌∷◌, none, some, ltb, leb, ◌==◌,
  if◌then◌else◌, length, take, drop, length-drop, Bool-cases, arith,
}
use block_sci.Prelude.Bytes.{take_le, of_le}
use block_sci.Script.Opcode.{op_pushdata1, op_pushdata2, op_pushdata4, op_invalidopcode}

-- What a call leaves: the result, the iterator, the opcode and the operand.
pub record OpResult : Type 0 where
  pub found : Bool
  pub pc : List ℕ
  pub opcode : ℕ
  pub vch : List ℕ

abbrev pub op_failed : List ℕ → OpResult
op_failed pc = record { found = false; pc = pc; opcode = op_invalidopcode; vch = [] }

-- The operand of `size` bytes, once the iterator stands behind the length. What is left is cast to
-- unsigned int; the iterators do not go past the end for a length that is smaller.
unfoldable pub get_operand : ℕ → ℕ → List ℕ → OpResult
get_operand opcode size pc =
    if ltb (length pc % 2 ^ 32) size
    then op_failed pc
    else record { found = true; pc = drop size pc; opcode = opcode; vch = take size pc }

-- The length of `width` bytes that follows OP_PUSHDATA1, 2 and 4.
unfoldable pub get_sized : ℕ → ℕ → List ℕ → OpResult
unfolding get_operand
get_sized opcode width pc = elim (take_le width pc) [
  | none ↦ op_failed pc
  | some (size, rest) ↦ get_operand opcode size rest
]

unfoldable pub get_op2 : List ℕ → OpResult
unfolding get_operand get_sized
get_op2 [] = op_failed []
get_op2 (opcode ∷ pc) =
    if leb opcode op_pushdata4
    then (if ltb opcode op_pushdata1
        then get_operand opcode opcode pc
        else if opcode == op_pushdata1
        then get_sized opcode 1 pc
        else if opcode == op_pushdata2
        then get_sized opcode 2 pc
        else get_sized opcode 4 pc)
    else record { found = true; pc = pc; opcode = opcode; vch = [] }

-- Neither helper moves the iterator back.
get_operand_shorter :
    (opcode size : ℕ) (pc : List ℕ) → length (get_operand opcode size pc).pc ≤ length pc
unfolding get_operand
get_operand_shorter opcode size pc = ground (arith, length-drop size pc)

get_sized_shorter :
    (opcode width : ℕ) (pc : List ℕ) → length (get_sized opcode width pc).pc ≤ length pc
unfolding get_sized
get_sized_shorter opcode width pc = elim (Bool-cases (ltb (length pc) width)) [
  | inl short ↦ rw (short, get_sized) (omega arith)
  | inr long ↦
      rw (long, get_sized)
        (omega (
          arith,
          get_operand_shorter opcode (of_le (take width pc)) (drop width pc),
          length-drop width pc,
        ))
]

-- Every call on a nonempty rest consumes the opcode at least, found or not.
pub get_op2_shorter : (opcode : ℕ) (pc : List ℕ) → length (get_op2 (opcode ∷ pc)).pc ≤ length pc
unfolding get_op2
get_op2_shorter opcode pc = ground (
  arith,
  get_operand_shorter opcode opcode pc,
  get_sized_shorter opcode 1 pc,
  get_sized_shorter opcode 2 pc,
  get_sized_shorter opcode 4 pc,
)
