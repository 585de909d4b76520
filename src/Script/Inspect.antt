-- ===== src/Script/Inspect.antt =====
-- The functions of CScript and CScriptView that look into a script (bitcoin_script.cpp,
-- script_view.cpp). Each loop runs on the script's length as fuel, see Walk.
use block_sci.Prelude.{
  ℕ, ◌+◌, ◌-◌, ◌%◌, ◌^◌, Bool, true, false, not, ◌&&◌, ◌||◌, List, [], ◌∷◌, Option, none, some, ltb,
  leb, ◌==◌, if◌then◌else◌, length, get_elem?,
}
use block_sci.Script.Opcode.{
  op_0, op_1, op_16, op_return, op_equal, op_hash160, op_checksig, op_checksigverify,
  op_checkmultisig, op_checkmultisigverify, op_invalidopcode, max_opcode, max_pubkeys_per_multisig,
  max_script_size, max_script_element_size, decode_op_n,
}
use block_sci.Script.GetOp.{OpResult}
use block_sci.Script.Walk.{Flow, continue, return, walk}

-- (*this)[i] == b, where i is known to be in range.
abbrev pub byte_is : List ℕ → ℕ → ℕ → Bool
byte_is script i b = elim (get_elem? script i) [ none ↦ false | some c ↦ c == b ]

unfoldable pub is_pay_to_script_hash : List ℕ → Bool
is_pay_to_script_hash s =
    (length s == 23) && byte_is s 0 op_hash160 && byte_is s 1 0x14 && byte_is s 22 op_equal

unfoldable pub is_pay_to_witness_script_hash : List ℕ → Bool
is_pay_to_witness_script_hash s = (length s == 34) && byte_is s 0 op_0 && byte_is s 1 0x20

-- IsWitnessProgram(): the size test comes first, so the two bytes are there.
unfoldable pub is_witness_program : List ℕ → Bool
is_witness_program [] = false
is_witness_program (v ∷ []) = false
is_witness_program (v ∷ n ∷ rest) =
    if ltb (length (v ∷ n ∷ rest)) 4 || ltb 42 (length (v ∷ n ∷ rest))
    then false
    else if not (v == op_0) && (ltb v op_1 || ltb op_16 v)
    then false
    else n + 2 == length (v ∷ n ∷ rest)

-- IsWitnessProgram(version, program): the outputs are set where the result is true.
unfoldable pub witness_program : List ℕ → Option (ℕ × List ℕ)
unfolding decode_op_n
witness_program [] = none
witness_program (v ∷ []) = none
witness_program (v ∷ n ∷ rest) =
    if ltb (length (v ∷ n ∷ rest)) 4 || ltb 42 (length (v ∷ n ∷ rest))
    then none
    else if not (v == op_0) && (ltb v op_1 || ltb op_16 v)
    then none
    else if n + 2 == length (v ∷ n ∷ rest)
    then elim (decode_op_n v) [ none ↦ none | some version ↦ some (version, rest) ]
    else none

-- IsPushOnly.
abbrev pub push_only_round : Unit {0} → OpResult → Flow (Unit {0}) Bool
push_only_round s op =
    if op.found then (if ltb op_16 op.opcode then return false else continue tt) else return false

unfoldable pub is_push_only : List ℕ → Option Bool
unfolding walk
is_push_only pc = walk push_only_round (λ _. true) (length pc) pc tt

-- HasValidOps.
abbrev pub valid_ops_round : Unit {0} → OpResult → Flow (Unit {0}) Bool
valid_ops_round s op =
    if not op.found || ltb max_opcode op.opcode || ltb max_script_element_size (length op.vch)
    then return false
    else continue tt

unfoldable pub has_valid_ops : List ℕ → Option Bool
unfolding walk
has_valid_ops script = walk valid_ops_round (λ _. true) (length script) script tt

-- GetSigOpCount(fAccurate): the state is `n` and `lastOpcode`. `n` is a 32-bit unsigned int.
pub record SigOps : Type 0 where
  pub n : ℕ
  pub last_opcode : ℕ

abbrev pub add_u32 : ℕ → ℕ → ℕ
add_u32 a b = (a + b) % 2 ^ 32

abbrev pub sig_ops_of : Bool → ℕ → ℕ → ℕ
sig_ops_of accurate last opcode =
    if (opcode == op_checksig) || (opcode == op_checksigverify)
    then 1
    else if (opcode == op_checkmultisig) || (opcode == op_checkmultisigverify)
    then (if accurate && leb op_1 last && leb last op_16
        then last - (op_1 - 1)
        else max_pubkeys_per_multisig)
    else 0

abbrev pub sig_op_round : Bool → SigOps → OpResult → Flow SigOps ℕ
sig_op_round accurate s op =
    if op.found
    then continue (record {
      n = add_u32 s.n (sig_ops_of accurate s.last_opcode op.opcode);
      last_opcode = op.opcode;
    })
    else return s.n

unfoldable pub get_sig_op_count : Bool → List ℕ → Option ℕ
unfolding walk
get_sig_op_count accurate script =
    walk (sig_op_round accurate) (λ s. s.n) (length script) script
      (record { n = 0; last_opcode = op_invalidopcode })

-- GetSigOpCount(scriptSig): the last pushed item, or nothing where the count is 0 at once.
abbrev pub last_push_round : List ℕ → OpResult → Flow (List ℕ) (Option (List ℕ))
last_push_round item op =
    if op.found then (if ltb op_16 op.opcode then return none else continue op.vch) else return none

unfoldable pub get_p2sh_sig_op_count : List ℕ → List ℕ → Option ℕ
unfolding is_pay_to_script_hash walk get_sig_op_count
get_p2sh_sig_op_count script script_sig =
    if is_pay_to_script_hash script
    then elim (walk last_push_round (λ item. some item) (length script_sig) script_sig []) [
      | none ↦ none
      | some none ↦ some 0
      | some (some item) ↦ get_sig_op_count true item
    ]
    else get_sig_op_count true script

-- Find: the loop ends at a failed call, as at the end.
abbrev pub find_round : ℕ → ℕ → OpResult → Flow ℕ ℕ
find_round op n r = if r.found then continue (if r.opcode == op then n + 1 else n) else return n

unfoldable pub find_op : ℕ → List ℕ → Option ℕ
unfolding walk
find_op op script = walk (find_round op) (λ n. n) (length script) script 0

unfoldable pub is_unspendable : List ℕ → Bool
is_unspendable script = byte_is script 0 op_return || ltb max_script_size (length script)
