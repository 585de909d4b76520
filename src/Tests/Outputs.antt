-- ===== src/Tests/Outputs.antt =====
-- The kinds of output that small scripts are.
use block_sci.Prelude.{ℕ, ◌≡◌, refl, true, false, List, [], ◌∷◌, ◌++◌, replicate}
use block_sci.Script.GetOp.{get_op2}
use block_sci.Parser.ScriptOutput.{
  of_pubkey, of_pubkeyhash, of_scripthash, of_witness_pubkeyhash, of_multisig, of_null_data,
  of_nonstandard, returned,
}
use block_sci.Parser.ScriptOutput.Extract.{extract_script_data}

abbrev twenty : List ℕ
twenty = replicate 20 7

abbrev key : List ℕ
key = 2 ∷ replicate 32 9

key_hash :
    extract_script_data (0x76 ∷ 0xa9 ∷ 20 ∷ twenty ++ 0x88 ∷ 0xac ∷ []) true
    ≡ returned (of_pubkeyhash twenty)
unfolding extract_script_data get_op2
key_hash = refl

one_key : extract_script_data (33 ∷ key ++ 0xac ∷ []) true ≡ returned (of_pubkey key)
unfolding extract_script_data get_op2
one_key = refl

script_hash :
    extract_script_data (0xa9 ∷ 20 ∷ twenty ++ 0x87 ∷ []) true ≡ returned (of_scripthash twenty)
unfolding extract_script_data get_op2
script_hash = refl

witness_key : extract_script_data (0 ∷ 20 ∷ twenty) true ≡ returned (of_witness_pubkeyhash twenty)
unfolding extract_script_data get_op2
witness_key = refl

not_yet_witness :
    extract_script_data (0 ∷ 20 ∷ twenty) false ≡ returned (of_nonstandard (0 ∷ 20 ∷ twenty))
unfolding extract_script_data get_op2
not_yet_witness = refl

one_of_two :
    extract_script_data (0x51 ∷ 33 ∷ key ++ 33 ∷ key ++ 0x52 ∷ 0xae ∷ []) true
    ≡ returned
        (of_multisig (record { num_required = 1; num_total = 2; addresses = key ∷ key ∷ [] }))
unfolding extract_script_data get_op2
one_of_two = refl

carried_data :
    extract_script_data (0x6a ∷ 2 ∷ 5 ∷ 6 ∷ []) true ≡ returned (of_null_data (5 ∷ 6 ∷ []))
unfolding extract_script_data get_op2
carried_data = refl
