-- ===== src/Parser/Recording/Keeps.antt =====
-- The outputs of a transaction come into the three maps together, so that no later step misses one.
use block_sci.Parser.Utxo.{Utxo, HashMap, done, ScriptedOutput, PlainTx, add_outputs, connect_utxos}
use block_sci.Parser.Utxo.Step.{connect_utxos-done}
use block_sci.Parser.Utxo.Progress.{connect_utxos_iff}
use block_sci.Parser.Recording.{
  OutputMap, ResolvedOutput, has_spend_data, recorded, assert_failed, output_pointers,
  record_outputs, record_addresses, add_output, keep_outputs, generate_script_input,
}
use block_sci.Parser.Recording.Agree.{Agree, spend_inputs-Agree}
use block_sci.Parser.Recording.Added.{with_utxo, place, added-Agree}
use block_sci.Prelude.{
  ℕ, suc, ◌+◌, ◌%◌, ◌^◌, ◌≤◌, ◌<◌, ◌≡◌, refl, sym, ap, subst, true, false, List, [], ◌∷◌, Option,
  some, ltb, lt→ltb, if◌then◌else◌, length, arith,
}

-- The resolved outputs are those of the transaction, each with a script number.
abbrev pub AreResolved : {V : Type 0} → List ScriptedOutput → List (ResolvedOutput V) → Type 0
AreResolved [] [] = Unit
AreResolved [] (r ∷ rs) = ⊥
AreResolved (o ∷ os) [] = ⊥
AreResolved (o ∷ os) (r ∷ rs) = (o.type ≡ r.type) × (0 < r.script_num) × AreResolved os rs

module _ (H : HashMap) (S : OutputMap ℕ) {V : Type 0} (G : OutputMap V) where
  -- The maps reserve no key that the outputs get, from place i of transaction n on.
  unfoldable pub AreStorable : ℕ → ℕ → List (ResolvedOutput V) → Type 0
  AreStorable n i [] = Unit
  AreStorable n i (r ∷ rs) =
      (S.reserved (place n i) ≡ false)
      × (has_spend_data r.type ≡ true → G.reserved (place n i) ≡ false)
      × AreStorable n (suc i) rs

  record_outputs-cons :
      (n i : ℕ) (r : ResolvedOutput V) (rs : List (ResolvedOutput V)) (s t : S.Map)
      → i % 2 ^ 16 ≡ i
      → 0 < r.script_num
      → record_outputs S n (suc i) rs (S.insert (place n i) r.script_num s) ≡ recorded t
      → record_outputs S n i (r ∷ rs) s ≡ recorded t
  unfolding record_outputs
  record_outputs-cons n i r rs s t narrow positive rest =
      subst
        (λ j.
          (if ltb 0 r.script_num
            then record_outputs S n (suc i) rs (S.insert (place n j) r.script_num s)
            else assert_failed)
          ≡ recorded t)
        (sym narrow) (ground (arith, lt→ltb 0 r.script_num positive, rest))

  keep_outputs-cons :
      (n i : ℕ) (r : ResolvedOutput V) (rs : List (ResolvedOutput V)) (g : G.Map)
      → i % 2 ^ 16 ≡ i
      → keep_outputs G n i (r ∷ rs) g ≡ keep_outputs G n (suc i) rs (add_output G (place n i) r g)
  unfolding keep_outputs
  keep_outputs-cons n i r rs g narrow =
      ap (λ j. keep_outputs G n (suc i) rs (add_output G (place n j) r g)) narrow

  -- The loops over the outputs end, and leave the maps in agreement.
  add_outputs-Agree :
      (n h i : ℕ) (os : List ScriptedOutput) (rs : List (ResolvedOutput V)) (m : H.Map) (s : S.Map)
      (g : G.Map)
      → Agree H S G n h i m s g
      → AreResolved os rs
      → AreStorable n i rs
      → i + length os ≤ 2 ^ 16
      → (t : S.Map) × (record_outputs S n i rs s ≡ recorded t)
        × Agree H S G n h (i + length os) (add_outputs H h n i os m) t (keep_outputs G n i rs g)
  unfolding add_outputs record_outputs keep_outputs AreStorable
  add_outputs-Agree n h i [] [] m s g a e usable few =
      let end : i ≡ i + 0 = omega arith in (s, refl, subst (λ j. Agree H S G n h j m s g) end a)
  add_outputs-Agree n h i [] (r ∷ rs) m s g a e usable few = absurd e
  add_outputs-Agree n h i (o ∷ os) [] m s g a e usable few = absurd e
  add_outputs-Agree n h i (o ∷ os) (r ∷ rs) m s g a (typed, positive, e) (free, free_keys, usable)
        few =
      let narrow : i % 2 ^ 16 ≡ i = omega arith in
      let end : suc i + length os ≡ i + suc (length os) = omega arith in
      let (t, done_all, agrees) =
        add_outputs-Agree n h (suc i) os rs (with_utxo H S G n h i o m)
          (S.insert (place n i) r.script_num s) (add_output G (place n i) r g)
          (added-Agree H S G n h i o r m s g a typed positive free free_keys) e usable
          (omega arith) in
      (
        t,
        record_outputs-cons n i r rs s t narrow positive done_all,
        subst (Agree H S G n h (i + suc (length os)) (add_outputs H h n i (o ∷ os) m) t)
            (sym (keep_outputs-cons n i r rs g narrow))
            (subst
              (λ j.
                Agree H S G n h j (add_outputs H h n i (o ∷ os) m) t
                  (keep_outputs G n (suc i) rs (add_output G (place n i) r g)))
              end agrees),
      )

  -- In maps that agree, a transaction that connectUTXOs has connected, with
  -- outputs under keys that the maps do not reserve, goes through recordAddresses
  -- and generateScriptInput, and leaves maps that agree.
  pub connect_utxos-Agree :
      (tx : PlainTx) (rs : List (ResolvedOutput V)) (m : H.Map) (s : S.Map) (g : G.Map)
      (us : List Utxo) (t : H.Map)
      → Agree H S G tx.tx_num tx.hash 0 m s g
      → AreResolved tx.outputs rs
      → AreStorable tx.tx_num 0 rs
      → connect_utxos H tx m ≡ done (us, t)
      → (ks : List ℕ) × (vs : List (Option V)) × (s' : S.Map) × (g' : G.Map) × (record_addresses S
            tx.tx_num
            (output_pointers tx.inputs us)
            rs
            s
          ≡ recorded (ks, s'))
        × (generate_script_input G tx.tx_num tx.inputs us rs g ≡ some (vs, g'))
        × Agree H S G tx.tx_num tx.hash (length tx.outputs) t s' g'
  unfolding record_addresses generate_script_input
  connect_utxos-Agree tx rs m s g us t a resolved usable e =
      let (r, spent, added) = connect_utxos-done H tx m us t e in
      let few = ((connect_utxos_iff H tx m).0 ((us, t), e)).2 in
      let (ks, vs, s1, g1, inputs, datas, middle) =
        spend_inputs-Agree H S G tx.tx_num tx.hash 0 tx.inputs m s g us r a spent in
      let (s2, outputs, agrees_at) =
        add_outputs-Agree tx.tx_num tx.hash 0 tx.outputs rs r s1 g1 middle resolved usable
          (omega arith) in
      let all : 0 + length tx.outputs ≡ length tx.outputs = omega arith in
      let agrees : Agree H S G tx.tx_num tx.hash (length tx.outputs)
          (add_outputs H tx.hash tx.tx_num 0 tx.outputs r) s2 (keep_outputs G tx.tx_num 0 rs g1) =
        subst
          (λ j.
            Agree H S G tx.tx_num tx.hash j (add_outputs H tx.hash tx.tx_num 0 tx.outputs r) s2
              (keep_outputs G tx.tx_num 0 rs g1))
          all agrees_at in
      (
        ks,
        vs,
        s2,
        keep_outputs G tx.tx_num 0 rs g1,
        ground (arith, inputs, outputs),
        ground (arith, datas),
        subst
            (λ x.
              Agree H S G tx.tx_num tx.hash (length tx.outputs) x s2
                (keep_outputs G tx.tx_num 0 rs g1))
            (sym added) agrees,
      )
