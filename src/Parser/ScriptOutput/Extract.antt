-- ===== src/Parser/ScriptOutput/Extract.antt =====
-- The scan of the templates, and extractScriptData (src/parser/script_output.cpp).
use block_sci.Prelude.{
  ℕ, zero, suc, ◌+◌, Bool, true, false, not, ◌&&◌, ◌||◌, List, [], ◌∷◌, Option, none, some, ◌==◌,
  if◌then◌else◌, length, take, drop,
}
use block_sci.Script.Opcode.{op_return, op_pubkeys, decode_op_n}
use block_sci.Script.GetOp.{OpResult, get_op2}
use block_sci.Script.Inspect.{is_pay_to_script_hash, is_witness_program, is_push_only}
use block_sci.Parser.ScriptOutput.{
  ScriptData, of_scripthash, of_witness_pubkeyhash, of_witness_scripthash, of_multisig,
  of_null_data, of_nonstandard, is_valid, full_data, templates, Scan, Ending, returned, broken,
  bad_access, unfinished, read_keys, Compared, goes_on, ends, compare_op,
}

abbrev pub is_empty : List ℕ → Bool
is_empty [] = true
is_empty (x ∷ xs) = false

-- The return inside the loop, if the data found is there and valid.
abbrev pub at_end : Option ScriptData → Ending
at_end none = broken none
at_end (some data_found) =
    if is_valid data_found then returned data_found else broken (some data_found)

-- Goes on behind a comparison, or ends.
abbrev pub and_then : Compared → (Scan → Ending) → Ending
and_then (goes_on s) next = next s
and_then (ends e) next = e

-- A round, with the rest of the loop: OP_PUBKEYS first reads the keys and the next opcode.
unfoldable pub round :
    ℕ → Scan → OpResult → OpResult → (OpResult → OpResult → Scan → Ending) → Ending
unfolding compare_op read_keys
round fuel s op1 op2 next =
    if not (op2.opcode == op_pubkeys)
    then and_then (compare_op s op1 op2) (next op1 op2)
    else elim (read_keys fuel op1 []) [
      | none ↦ unfinished
      | some (keys, stop) ↦
          let op3 = get_op2 op2.pc in
          let with_keys : Scan = record s {
            type = some (
                of_multisig
                  (record { num_required = s.num_required; num_total = 0; addresses = keys }));
          } in
          if not op3.found
          then broken s.type
          else and_then (compare_op with_keys stop op3) (next stop op3)
    ]

-- The match of one template, with fuel.
unfoldable pub match_template : ℕ → List ℕ → List ℕ → Scan → Ending
unfolding round
match_template zero pc1 pc2 s = unfinished
match_template (suc fuel) pc1 pc2 s =
    let op1 = get_op2 pc1 in
    let op2 = get_op2 pc2 in
    if is_empty pc1 && is_empty pc2
    then at_end s.type
    else if not op1.found || not op2.found
    then broken s.type
    else round (suc fuel) s op1 op2 λ a b t. match_template fuel a.pc b.pc t

-- The loop over the templates; the data found so far outlives a template that does not match.
unfoldable pub scan_templates : List (List ℕ) → List ℕ → Option ScriptData → Ending
unfolding match_template
scan_templates [] script type = returned (of_nonstandard script)
scan_templates (t ∷ ts) script type =
    elim (match_template (length script + 1) script t
      (record { num_required = 0; is_first = true; type = type })) [
        | returned d ↦ returned d
        | broken found ↦ scan_templates ts script found
        | bad_access ↦ bad_access
        | unfinished ↦ unfinished
      ]

-- Version 0 with 20 or 32 bytes; `none` goes on to the other kinds.
abbrev pub witness_data : List ℕ → Option ScriptData
witness_data script =
    let version = get_op2 script in
    let program = get_op2 version.pc in
    elim (decode_op_n version.opcode) [
      | none ↦ none
      | some n ↦
          if (n == 0) && (length program.vch == 20)
          then some (of_witness_pubkeyhash program.vch)
          else if (n == 0) && (length program.vch == 32)
          then some (of_witness_scripthash program.vch)
          else none
    ]

-- OP_RETURN and then pushes alone.
abbrev pub is_null_data : List ℕ → Bool
is_null_data [] = false
is_null_data (b ∷ rest) =
    (b == op_return) && elim (is_push_only rest) [ none ↦ false | some only ↦ only ]

abbrev pub other_data : List ℕ → Ending
other_data script =
    if is_null_data script
    then returned (of_null_data (full_data (length script + 1) script))
    else scan_templates templates script none

unfoldable pub extract_script_data : List ℕ → Bool → Ending
unfolding is_pay_to_script_hash is_witness_program full_data is_push_only scan_templates
extract_script_data script witness_activated =
    if is_pay_to_script_hash script
    then returned (of_scripthash (take 20 (drop 2 script)))
    else if witness_activated && is_witness_program script
    then elim (witness_data script) [ none ↦ other_data script | some d ↦ returned d ]
    else other_data script
