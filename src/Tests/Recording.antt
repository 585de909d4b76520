-- ===== src/Tests/Recording.antt =====
-- The maps of unspent outputs as association lists, and a short chain through all the steps.
use block_sci.Chain.Types.{pubkeyhash, multisig, OutputPointer}
use block_sci.Parser.Utxo.{
  Utxo, PlainTx, erase, spend_inputs, add_outputs, connect_utxos, connect_all,
}
use block_sci.Parser.Recording.{same_output, OutputMap, ResolvedOutput}
use block_sci.Parser.Recording.Keeps.{AreStorable}
use block_sci.Parser.Recording.Chain.{GoThrough, connect_all-GoThrough}
use block_sci.Tests.Stores.{utxo_map}
use block_sci.Prelude.{
  ℕ, ◌-◌, ◌^◌, ◌==◌, ◌&&◌, ltb, ◌≡◌, refl, ap, ◌∙◌, subst, inl, inr, Bool, true, false, List, [],
  ◌∷◌, Option, none, some, if◌then◌else◌, Bool-cases, arith,
}

same_output→≡ : (p q : OutputPointer) → same_output p q ≡ true → p ≡ q
same_output→≡ p q e = grind arith

abbrev Table : Type 0 → Type 0
Table V = List (OutputPointer × V)

module _ {V : Type 0} where
  abbrev find : OutputPointer → Table V → Option V
  find p [] = none
  find p ((q, v) ∷ m) = if same_output q p then some v else find p m

  abbrev insert : OutputPointer → V → Table V → Table V
  insert p v m = elim (find p m) [ none ↦ (p, v) ∷ m | some w ↦ m ]

  abbrev remove : OutputPointer → Table V → Table V
  remove p [] = []
  remove p ((q, v) ∷ m) = let rest = remove p m in if same_output p q then rest else (q, v) ∷ rest

  -- Under a test that failed, a second test of the same value fails too.
  skip :
      (a b : Bool) (v : V) (o : Option V)
      → a ≡ b
      → (if a then none else o) ≡ (if a then none else (if b then some v else o))
  skip true b v o e = refl
  skip false true v o e = absurd (ground arith)
  skip false false v o e = refl

  find-remove :
      (p q : OutputPointer) (m : Table V)
      → find q (remove p m) ≡ (if same_output p q then none else find q m)
  find-remove p q [] = ground arith
  find-remove p q ((r, v) ∷ m) = elim (Bool-cases (same_output p r)) [
    | inl same ↦ rw same (
        find-remove p q m
        ∙ skip (same_output p q) (same_output r q) v (find q m)
            (ap (λ x. same_output x q) (same_output→≡ p r same)))
    | inr other ↦ elim (Bool-cases (same_output r q)) [
      | inl here ↦
          let away : same_output p q ≡ false =
            subst (λ x. same_output p x ≡ false) (same_output→≡ r q here) other in
          rw (other, here, away) refl
      | inr there ↦ rw (other, there) (find-remove p q m)
    ]
  ]

  find-insert_new :
      (p q : OutputPointer) (v : V) (m : Table V)
      → find p m ≡ none
      → find q (insert p v m) ≡ (if same_output p q then some v else find q m)
  find-insert_new p q v m e = ground (arith, e)

  insert_old : (p : OutputPointer) (v w : V) (m : Table V) → find p m ≡ some w → insert p v m ≡ m
  insert_old p v w m e = ground (arith, e)

-- The outputs 0 and 1 of one transaction are reserved.
abbrev table : ℕ → (V : Type 0) → OutputMap V
table n V = record {
  reserved = λ p. (p.tx_num == n) && ltb p.inout_num 2;
  Map = Table V;
  find = find;
  insert = insert;
  remove = remove;
  find-insert_new = λ p q v m usable e. find-insert_new p q v m e;
  insert_old = insert_old;
  find-remove = find-remove;
}

-- A first coinbase, one that pays to a multisig, and a transaction that spends it.
abbrev first_tx : PlainTx
first_tx = record {
  hash = 10;
  tx_num = 0;
  inputs = [];
  outputs = record { value = 50; type = pubkeyhash } ∷ [];
}

abbrev coinbase_tx : PlainTx
coinbase_tx = record {
  hash = 11;
  tx_num = 1;
  inputs = [];
  outputs = record { value = 50; type = multisig } ∷ [];
}

abbrev spending_tx : PlainTx
spending_tx = record {
  hash = 12;
  tx_num = 2;
  inputs = record { hash = 11; output_num = 0 } ∷ [];
  outputs = record { value = 49; type = pubkeyhash } ∷ [];
}

abbrev resolved : List (List (ResolvedOutput (List ℕ)))
resolved =
    (record { type = pubkeyhash; script_num = 1; keys = [] } ∷ [])
    ∷ (record { type = multisig; script_num = 1; keys = 2 ∷ 3 ∷ [] } ∷ [])
    ∷ (record { type = pubkeyhash; script_num = 4; keys = [] } ∷ [])
    ∷ []

abbrev found : List (List Utxo)
found = [] ∷ [] ∷ (record { value = 50; tx_num = 1; type = multisig } ∷ []) ∷ []

-- The reserved keys of UTXOScriptState and of UTXOAddressTypeState.
connect_all-GoThrough_example :
    GoThrough utxo_map
      (table (2 ^ 32 - 1) ℕ)
      (table 0 (List ℕ))
      (first_tx ∷ coinbase_tx ∷ spending_tx ∷ [])
      resolved
      found
      []
      []
unfolding connect_all connect_utxos spend_inputs erase add_outputs AreStorable
connect_all-GoThrough_example =
    connect_all-GoThrough utxo_map (table (2 ^ 32 - 1) ℕ) (table 0 (List ℕ))
      (first_tx ∷ coinbase_tx ∷ spending_tx ∷ []) resolved found []
      ((record { hash = 12; output_num = 0 }, record { value = 49; tx_num = 2; type = pubkeyhash })
        ∷ (
          record { hash = 10; output_num = 0 },
          record { value = 50; tx_num = 0; type = pubkeyhash },
        )
        ∷ [])
      [] [] (λ p. refl) (λ k. refl) (λ k. refl) (refl, (refl, (refl, tt)))
      ((refl, (refl, tt)), ((refl, tt), (tt, tt)))
      ((refl, omega arith, tt), ((refl, omega arith, tt), ((refl, omega arith, tt), tt)))
      (
        (refl, (λ h. absurd (ground (arith, h))), tt),
        ((refl, (λ h. refl), tt), ((refl, (λ h. refl), tt), tt)),
      )
      refl
