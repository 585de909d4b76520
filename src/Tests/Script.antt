-- ===== src/Tests/Script.antt =====
-- Scripts, numbers and witness programs.
use block_sci.Prelude.{◌+◌, ◌≡◌, refl, ◌↔◌, true, List, [], ◌∷◌, ◌++◌, some, arith}
use block_sci.Prelude.Int.{negsuc}
use block_sci.Script.Opcode.{op_invalidopcode}
use block_sci.Script.GetOp.{get_op2}
use block_sci.Script.Push.{push_header, push_opcode, get_op2-push_header}
use block_sci.Script.Num.{serialize, script_num, num}
use block_sci.Script.Num.RoundTrip.{script_num-serialize}
use block_sci.Script.Inspect.{witness_program}
use block_sci.Script.Witness.{IsWitness, witness_program_iff}
use block_sci.Script.Assembly.{Instr, push, code, assemble, result_of, get_op2-assemble}
use block_sci.Script.Assembly.Counts.{total_sig_ops}

-- OP_2, two keys, OP_2, OP_CHECKMULTISIG, OP_CHECKSIG.
abbrev multisig : List Instr
multisig = code 0x52 ∷ push (2 ∷ 3 ∷ []) ∷ push (4 ∷ []) ∷ code 0x52 ∷ code 0xae ∷ code 0xac ∷ []

three_sig_ops : total_sig_ops true op_invalidopcode multisig ≡ 3
three_sig_ops = refl

get_op2-push_header_example :
    get_op2 (push_header 3 ++ ((7 ∷ 8 ∷ 9 ∷ []) ++ (0xac ∷ [])))
    ≡ record { found = true; pc = 0xac ∷ []; opcode = push_opcode 3; vch = 7 ∷ 8 ∷ 9 ∷ [] }
get_op2-push_header_example = get_op2-push_header (7 ∷ 8 ∷ 9 ∷ []) (0xac ∷ []) (omega arith)

get_op2-assemble_example :
    get_op2 (assemble (push (5 ∷ []) ∷ multisig)) ≡ result_of (push (5 ∷ [])) (assemble multisig)
get_op2-assemble_example = get_op2-assemble (push (5 ∷ [])) multisig (omega arith) (omega arith)

script_num-serialize_example : script_num (serialize (negsuc 254)) true (1 + 1) ≡ num (negsuc 254)
script_num-serialize_example = script_num-serialize (negsuc 254) 1 true (omega arith) (omega arith)

witness_program_iff_example :
    (witness_program (0x51 ∷ 2 ∷ 0x4e ∷ 0x73 ∷ []) ≡ some (1, 0x4e ∷ 0x73 ∷ []))
    ↔ IsWitness (0x51 ∷ 2 ∷ 0x4e ∷ 0x73 ∷ []) 1 (0x4e ∷ 0x73 ∷ [])
witness_program_iff_example = witness_program_iff (0x51 ∷ 2 ∷ 0x4e ∷ 0x73 ∷ []) 1 (0x4e ∷ 0x73 ∷ [])
