-- ===== src/Script/Assembly/Counts.antt =====
-- What IsPushOnly, HasValidOps, GetSigOpCount and Find return on a script, in terms of the
-- instructions that it was written from.
use block_sci.Prelude.{
  ℕ, suc, ◌+◌, ◌^◌, ◌<◌, ◌≡◌, refl, ap, ◌∙◌, inl, inr, Bool, true, ◌&&◌, List, [], ◌∷◌, some, leb,
  ◌==◌, if◌then◌else◌, length, All, Bool-cases, arith,
}
use block_sci.Script.Opcode.{op_16, max_opcode, max_script_element_size}
use block_sci.Script.Walk.{after_round}
use block_sci.Script.Inspect.{
  is_push_only, push_only_round, has_valid_ops, valid_ops_round, sig_ops_of, find_op, find_round,
}
use block_sci.Script.Assembly.{
  Instr, IsInstr, opcode_of, operand_of, assemble, walk_instrs, walk-assemble,
}

abbrev pub all_instrs : (Instr → Bool) → List Instr → Bool
all_instrs p [] = true
all_instrs p (i ∷ is) = p i && all_instrs p is

push_only_instrs :
    (is : List Instr)
    → walk_instrs push_only_round (λ _. true) is tt
      ≡ some (all_instrs (λ i. leb (opcode_of i) op_16) is)
unfolding walk_instrs after_round
push_only_instrs [] = refl
push_only_instrs (i ∷ is) = ground (arith, push_only_instrs is)

-- IsPushOnly on a script written from instructions: whether every opcode is at most OP_16.
pub is_push_only-assemble :
    (is : List Instr)
    → All IsInstr is
    → length (assemble is) < 2 ^ 32
    → is_push_only (assemble is) ≡ some (all_instrs (λ i. leb (opcode_of i) op_16) is)
unfolding is_push_only
is_push_only-assemble is h k =
    walk-assemble _ _ (length (assemble is)) is tt h k (omega arith) ∙ push_only_instrs is

abbrev pub is_valid_instr : Instr → Bool
is_valid_instr i =
    leb (opcode_of i) max_opcode && leb (length (operand_of i)) max_script_element_size

valid_ops_instrs :
    (is : List Instr)
    → walk_instrs valid_ops_round (λ _. true) is tt ≡ some (all_instrs is_valid_instr is)
unfolding walk_instrs after_round
valid_ops_instrs [] = refl
valid_ops_instrs (i ∷ is) = ground (arith, valid_ops_instrs is)

-- HasValidOps on a script written from instructions: whether every opcode is at most MAX_OPCODE
-- and every operand at most MAX_SCRIPT_ELEMENT_SIZE long.
pub has_valid_ops-assemble :
    (is : List Instr)
    → All IsInstr is
    → length (assemble is) < 2 ^ 32
    → has_valid_ops (assemble is) ≡ some (all_instrs is_valid_instr is)
unfolding has_valid_ops
has_valid_ops-assemble is h k =
    walk-assemble _ _ (length (assemble is)) is tt h k (omega arith) ∙ valid_ops_instrs is

-- The signature operations of a list of instructions, each with the opcode before it.
abbrev pub total_sig_ops : Bool → ℕ → List Instr → ℕ
total_sig_ops accurate last [] = 0
total_sig_ops accurate last (i ∷ is) =
    sig_ops_of accurate last (opcode_of i) + total_sig_ops accurate (opcode_of i) is

abbrev pub count_op : ℕ → List Instr → ℕ
count_op op [] = 0
count_op op (i ∷ is) = if opcode_of i == op then suc (count_op op is) else count_op op is

find_instrs :
    (op : ℕ) (is : List Instr) (n : ℕ)
    → walk_instrs (find_round op) (λ n. n) is n ≡ some (n + count_op op is)
unfolding walk_instrs after_round
find_instrs op [] n = ap some (omega arith)
find_instrs op (i ∷ is) n = elim (Bool-cases (opcode_of i == op)) [
  | inl e ↦ rw e (find_instrs op is (n + 1) ∙ ap some (omega arith))
  | inr e ↦ rw e (find_instrs op is n)
]

-- Find on a script written from instructions: the number of them with the opcode.
pub find_op-assemble :
    (op : ℕ) (is : List Instr)
    → All IsInstr is
    → length (assemble is) < 2 ^ 32
    → find_op op (assemble is) ≡ some (count_op op is)
unfolding find_op
find_op-assemble op is h k =
    walk-assemble _ _ (length (assemble is)) is 0 h k (omega arith)
    ∙ find_instrs op is 0
    ∙ ap some (omega arith)
