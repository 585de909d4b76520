-- ===== src/Script/Assembly.antt =====
-- Scripts written instruction by instruction, as `script << item << opcode` writes them, and what
-- the inspecting functions return on them.
pub mod Counts
use block_sci.Prelude.{
  ℕ, zero, suc, ◌+◌, ◌-◌, ◌%◌, ◌^◌, ◌≤◌, ◌<◌, ◌≡◌, refl, sym, ap, ◌∙◌, inl, inr, Bool, true, false,
  List, [], ◌∷◌, ◌++◌, Option, none, some, ltb, leb, ◌==◌, if◌then◌else◌, length, All, append_assoc,
  length-append, leb-false, Bool-cases, arith,
}
use mathlib.Core.Path.{fun_ext}
use block_sci.Script.Opcode.{op_pushdata4}
use block_sci.Script.GetOp.{OpResult, get_op2, get_op2_shorter}
use block_sci.Script.Push.{push_header, push_opcode, push_bytes, get_op2-push_header}
use block_sci.Script.Walk.{Flow, walk, after_round, walk_step}

pub data Instr : Type 0 where
  push : List ℕ → Instr
  code : ℕ → Instr

abbrev pub IsInstr : Instr → Type 0
IsInstr (push b) = length b < 2 ^ 32
IsInstr (code c) = op_pushdata4 < c

abbrev pub opcode_of : Instr → ℕ
opcode_of (push b) = push_opcode (length b)
opcode_of (code c) = c

abbrev pub operand_of : Instr → List ℕ
operand_of (push b) = b
operand_of (code c) = []

abbrev pub assemble : List Instr → List ℕ
assemble [] = []
assemble (push b ∷ is) = push_header (length b) ++ (b ++ assemble is)
assemble (code c ∷ is) = c ∷ assemble is

abbrev pub result_of : Instr → List ℕ → OpResult
result_of i pc = record { found = true; pc = pc; opcode = opcode_of i; vch = operand_of i }

-- One call of GetOp on an assembled script gives its first instruction and leaves the others.
pub get_op2-assemble :
    (i : Instr) (is : List Instr)
    → IsInstr i
    → length (assemble (i ∷ is)) < 2 ^ 32
    → get_op2 (assemble (i ∷ is)) ≡ result_of i (assemble is)
get_op2-assemble (push b) is h k = get_op2-push_header b (assemble is) (
    omega (
      arith,
      length-append (push_header (length b)) (b ++ assemble is),
      length-append b (assemble is),
    ))
get_op2-assemble (code c) is h k = unfold get_op2 in rw (leb-false c op_pushdata4 h)

length-push_header : (n : ℕ) → 0 < length (push_header n)
length-push_header n = ground arith

cons_of_length : (l : List ℕ) → 0 < length l → (b : ℕ) × (r : List ℕ) × (l ≡ b ∷ r)
cons_of_length [] h = absurd (omega arith)
cons_of_length (b ∷ r) h = (b, r, refl)

pub assemble_longer :
    (i : Instr) (is : List Instr) → length (assemble is) < length (assemble (i ∷ is))
assemble_longer (push x) is = omega (
  arith,
  length-push_header (length x),
  length-append (push_header (length x)) (x ++ assemble is),
  length-append x (assemble is),
)
assemble_longer (code c) is = omega arith

module _ {S R : Type 0} (body : S → OpResult → Flow S R) (done : S → R) where
  -- The loop over the instructions themselves.
  pub walk_instrs : List Instr → S → Option R
  walk_instrs [] s = some (done s)
  walk_instrs (i ∷ is) s =
      after_round body done (body s (result_of i (assemble is))) (λ t. walk_instrs is t)

  pub walk-assemble :
      (fuel : ℕ) (is : List Instr) (s : S)
      → All IsInstr is
      → length (assemble is) < 2 ^ 32
      → length (assemble is) ≤ fuel
      → walk body done fuel (assemble is) s ≡ walk_instrs is s
  unfolding walk_instrs
  walk-assemble fuel [] s h k l = unfold walk in refl
  walk-assemble zero (i ∷ is) s h k l = absurd (omega (arith, assemble_longer i is))
  walk-assemble (suc fuel) (i ∷ is) s h k l =
      let (b, r, e) = cons_of_length (assemble (i ∷ is)) (omega (arith, assemble_longer i is)) in
      walk_step body done fuel b (assemble (i ∷ is)) r s e (get_op2-assemble i is h.0 k)
      ∙ ap (after_round body done (body s (result_of i (assemble is)))) (
          fun_ext (λ t.
            walk-assemble fuel is t h.1 (omega (arith, assemble_longer i is))
              (omega (arith, assemble_longer i is))))
