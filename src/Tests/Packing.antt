-- ===== src/Tests/Packing.antt =====
-- The packed word of an output.
use block_sci.Prelude.{◌+◌, ◌*◌, ◌^◌, ◌≡◌, refl, some, arith}
use block_sci.Chain.Types.{pubkeyhash, scripthash, Address}
use block_sci.Chain.Inout.{make_inout, set_value, set_type, unpack, unpack-make_inout}

abbrev home : Address
home = record { script_num = 7; type = scripthash }

-- Type 4 stands above the sixty bits of the value.
word : (make_inout 3 home 500).other ≡ 4 * 2 ^ 60 + 500
unfolding make_inout
word = refl

unpack-make_inout_example :
    (unpack (make_inout 3 home 500)
      ≡ some (record { linked_tx_num = 3; address = home; value = 500 }))
    × (unpack (set_value 600 (make_inout 3 home 500))
        ≡ some (record { linked_tx_num = 3; address = home; value = 600 }))
    × (unpack (set_type pubkeyhash (make_inout 3 home 500))
        ≡ some (record {
          linked_tx_num = 3;
          address = record { script_num = 7; type = pubkeyhash };
          value = 500;
        }))
unpack-make_inout_example = unpack-make_inout 3 home 500 600 pubkeyhash (omega arith) (omega arith)
