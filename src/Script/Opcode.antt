-- ===== src/Script/Opcode.antt =====
-- enum opcodetype and the small-integer opcodes (bitcoin_script.hpp). An opcode is its number,
-- since a byte that names none is cast to the enum all the same.
use block_sci.Prelude.{ℕ, ◌+◌, ◌-◌, ◌≡◌, Option, none, some, leb, ◌==◌, if◌then◌else◌, ◌&&◌, arith}

abbrev pub op_0 : ℕ
op_0 = 0x00

abbrev pub op_pushdata1 : ℕ
op_pushdata1 = 0x4c

abbrev pub op_pushdata2 : ℕ
op_pushdata2 = 0x4d

abbrev pub op_pushdata4 : ℕ
op_pushdata4 = 0x4e

abbrev pub op_1negate : ℕ
op_1negate = 0x4f

abbrev pub op_1 : ℕ
op_1 = 0x51

abbrev pub op_16 : ℕ
op_16 = 0x60

abbrev pub op_return : ℕ
op_return = 0x6a

abbrev pub op_dup : ℕ
op_dup = 0x76

abbrev pub op_equal : ℕ
op_equal = 0x87

abbrev pub op_equalverify : ℕ
op_equalverify = 0x88

abbrev pub op_hash160 : ℕ
op_hash160 = 0xa9

abbrev pub op_codeseparator : ℕ
op_codeseparator = 0xab

abbrev pub op_checksig : ℕ
op_checksig = 0xac

abbrev pub op_checksigverify : ℕ
op_checksigverify = 0xad

abbrev pub op_checkmultisig : ℕ
op_checkmultisig = 0xae

abbrev pub op_checkmultisigverify : ℕ
op_checkmultisigverify = 0xaf

abbrev pub op_nop10 : ℕ
op_nop10 = 0xb9

abbrev pub op_smallinteger : ℕ
op_smallinteger = 0xfa

abbrev pub op_pubkeys : ℕ
op_pubkeys = 0xfb

abbrev pub op_pubkeyhash : ℕ
op_pubkeyhash = 0xfd

abbrev pub op_pubkey : ℕ
op_pubkey = 0xfe

abbrev pub op_invalidopcode : ℕ
op_invalidopcode = 0xff

abbrev pub max_opcode : ℕ
max_opcode = op_nop10

abbrev pub max_pubkeys_per_multisig : ℕ
max_pubkeys_per_multisig = 20

abbrev pub max_script_size : ℕ
max_script_size = 10000

abbrev pub max_script_element_size : ℕ
max_script_element_size = 520

-- `none` is a failed assert.
unfoldable pub decode_op_n : ℕ → Option ℕ
decode_op_n opcode =
    if opcode == op_0
    then some 0
    else if leb op_1 opcode && leb opcode op_16
    then some (opcode - (op_1 - 1))
    else none

unfoldable pub encode_op_n : ℕ → Option ℕ
encode_op_n n = if leb n 16 then some (if n == 0 then op_0 else op_1 + n - 1) else none

-- Every small integer that EncodeOP_N accepts comes back from its opcode, and every opcode that
-- DecodeOP_N accepts comes back from its integer.
pub decode_op_n-encode_op_n :
    (n opcode : ℕ)
    → (encode_op_n n ≡ some opcode → decode_op_n opcode ≡ some n)
      × (decode_op_n opcode ≡ some n → encode_op_n n ≡ some opcode)
unfolding decode_op_n encode_op_n
decode_op_n-encode_op_n n opcode = (λ h. ground arith, λ h. ground arith)
