-- ===== src/Script/Witness.antt =====
-- The two IsWitnessProgram functions (bitcoin_script.cpp, script_view.cpp) against each other and
-- against the form of a witness program: a small-integer opcode and one direct push.
use block_sci.Prelude.{
  ℕ, ◌+◌, ◌≤◌, ◌≡◌, refl, ◌↔◌, true, false, List, [], ◌∷◌, none, some, ◌==◌, if◌then◌else◌, length,
  arith,
}
use block_sci.Script.Inspect.{is_witness_program, witness_program}

-- The form of a witness program: its version's opcode, its length, and 2 to 40 bytes.
pub record IsWitness (script : List ℕ) (version : ℕ) (program : List ℕ) : Type 0 where
  pub version_le : version ≤ 16
  pub long : 2 ≤ length program
  pub short : length program ≤ 40
  pub bytes : script ≡ (if version == 0 then 0 else version + 0x50) ∷ length program ∷ program

-- What IsWitnessProgram(version, program) succeeds on has that form.
witness_program_sound :
    (script : List ℕ) (version : ℕ) (program : List ℕ)
    → witness_program script ≡ some (version, program)
    → IsWitness script version program
unfolding witness_program
witness_program_sound [] version program e = cc
witness_program_sound (v ∷ []) version program e = cc
witness_program_sound (v ∷ n ∷ rest) version program e = record {
  version_le = ground arith;
  long = ground arith;
  short = ground arith;
  bytes = ground arith;
}

witness_program_complete :
    (version : ℕ) (program : List ℕ)
    → version ≤ 16
    → 2 ≤ length program
    → length program ≤ 40
    → witness_program ((if version == 0 then 0 else version + 0x50) ∷ length program ∷ program)
      ≡ some (version, program)
unfolding witness_program
witness_program_complete version program h l m = ground arith

-- The overload of IsWitnessProgram without outputs agrees with the other on every script.
pub is_witness_program-witness_program :
    (script : List ℕ)
    → is_witness_program script ≡ elim (witness_program script) [ none ↦ false | some p ↦ true ]
unfolding is_witness_program witness_program
is_witness_program-witness_program [] = refl
is_witness_program-witness_program (v ∷ []) = refl
is_witness_program-witness_program (v ∷ n ∷ rest) = ground arith

-- IsWitnessProgram(version, program) succeeds exactly on a script of the form of a witness
-- program, with its version and its program.
pub witness_program_iff :
    (script : List ℕ) (version : ℕ) (program : List ℕ)
    → (witness_program script ≡ some (version, program)) ↔ IsWitness script version program
witness_program_iff script version program = (
  witness_program_sound script version program,
  λ w. rw w.bytes (witness_program_complete version program w.version_le w.long w.short),
)
