-- ===== src/Script/Push.antt =====
-- CScript::operator<< and push_int64: what appends to a script.
use block_sci.Prelude.{
  ℕ, ◌+◌, ◌%◌, ◌^◌, ◌<◌, ◌≡◌, inl, inr, List, [], ◌∷◌, ◌++◌, true, ltb, leb, if◌then◌else◌, length,
  length-append, take-append_self, drop-append_self, le→leb, ltb-false, leb→le, ltb→lt, Bool-cases,
  arith,
}
use native.Mathlib.Nat.{mod-eq_of_lt}
use block_sci.Prelude.Bytes.{le_bytes, take_le-le_bytes}
use block_sci.Script.Opcode.{op_pushdata1, op_pushdata2, op_pushdata4}
use block_sci.Script.GetOp.{get_operand, get_sized, get_op2}

-- The opcode that `push_bytes` chooses for `size` bytes.
abbrev pub push_opcode : ℕ → ℕ
push_opcode size =
    if ltb size op_pushdata1
    then size
    else if leb size 0xff
    then op_pushdata1
    else if leb size 0xffff
    then op_pushdata2
    else op_pushdata4

-- What operator<<(const std::vector<unsigned char>&) appends in front of the bytes.
abbrev pub push_header : ℕ → List ℕ
push_header size =
    if ltb size op_pushdata1
    then size ∷ []
    else if leb size 0xff
    then op_pushdata1 ∷ le_bytes 1 size
    else if leb size 0xffff
    then op_pushdata2 ∷ le_bytes 2 (size % 2 ^ 16)
    else op_pushdata4 ∷ le_bytes 4 (size % 2 ^ 32)

unfoldable pub push_bytes : List ℕ → List ℕ → List ℕ
push_bytes script b = script ++ (push_header (length b) ++ b)

get_operand_exact :
    (opcode : ℕ) (b rest : List ℕ)
    → length b + length rest < 2 ^ 32
    → get_operand opcode (length b) (b ++ rest)
      ≡ record { found = true; pc = rest; opcode = opcode; vch = b }
unfolding get_operand
get_operand_exact opcode b rest k = rw (
  ltb-false (length (b ++ rest) % 2 ^ 32) (length b) (omega (arith, length-append b rest)),
  take-append_self b rest,
  drop-append_self b rest,
)

get_sized_exact :
    (opcode width : ℕ) (b rest : List ℕ)
    → length b < 256 ^ width
    → length b + length rest < 2 ^ 32
    → get_sized opcode width (le_bytes width (length b) ++ (b ++ rest))
      ≡ record { found = true; pc = rest; opcode = opcode; vch = b }
unfolding get_sized
get_sized_exact opcode width b rest h k =
    rw (take_le-le_bytes width (length b) (b ++ rest) h, get_sized)
      (get_operand_exact opcode b rest k)

-- Where the bytes of a push and what follows are fewer than 2 ^ 32, one call of GetOp gives the
-- opcode and the bytes of the push, and leaves what follows.
pub get_op2-push_header :
    (b rest : List ℕ)
    → length b + length rest < 2 ^ 32
    → get_op2 (push_header (length b) ++ (b ++ rest))
      ≡ record { found = true; pc = rest; opcode = push_opcode (length b); vch = b }
unfolding get_op2
get_op2-push_header b rest h = elim (Bool-cases (ltb (length b) op_pushdata1)) [
  | inl tiny ↦
      rw (tiny, le→leb (length b) op_pushdata4 (omega (arith, ltb→lt _ _ tiny)))
        (rw tiny (get_operand_exact (length b) b rest h))
  | inr big ↦ elim (Bool-cases (leb (length b) 0xff)) [
    | inl small ↦
        rw (big, small) (get_sized_exact op_pushdata1 1 b rest (omega (arith, leb→le _ _ small)) h)
    | inr more ↦ elim (Bool-cases (leb (length b) 0xffff)) [
      | inl medium ↦
          rw
            (
              big,
              more,
              medium,
              mod-eq_of_lt {n = length b} {m = 2 ^ 16} (omega (arith, leb→le _ _ medium)),
            )
            (get_sized_exact op_pushdata2 2 b rest (omega (arith, leb→le _ _ medium)) h)
      | inr large ↦
          rw (big, more, large, mod-eq_of_lt {n = length b} {m = 2 ^ 32} (omega arith))
            (get_sized_exact op_pushdata4 4 b rest (omega arith) h)
    ]
  ]
]
