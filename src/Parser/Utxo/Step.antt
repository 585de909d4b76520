-- ===== src/Parser/Utxo/Step.antt =====
-- What one run of connectUTXOs does to the map.
use block_sci.Prelude.{
  ℕ, zero, suc, ◌+◌, ◌≡◌, refl, sym, ap, ◌∙◌, subst, ◌⊎◌, inl, inr, true, false, List, [], ◌∷◌,
  none, some, ltb, ◌==◌, if◌then◌else◌, length, get_elem?, Bool-cases, Option-cases, All, arith,
}
use block_sci.Chain.Types.{is_spendable}
use block_sci.Parser.Utxo.{
  RawOutputPointer, same_pointer, Utxo, HashMap, done, ScriptedOutput, PlainTx, erase, spend_inputs,
  add_outputs, connect_utxos,
}

pub same_pointer→≡ : (p q : RawOutputPointer) → same_pointer p q ≡ true → p ≡ q
same_pointer→≡ p q e = grind arith

same_pointer_refl : (p : RawOutputPointer) → same_pointer p p ≡ true
same_pointer_refl p = ground arith

abbrev pub Absent : RawOutputPointer → List RawOutputPointer → Type 0
Absent p = All (λ q. same_pointer p q ≡ false)

abbrev pub NoRepeats : List RawOutputPointer → Type 0
NoRepeats [] = Unit
NoRepeats (p ∷ ps) = Absent p ps × NoRepeats ps

-- `u` is the output of the transaction that `p` names, and that output is spendable.
abbrev pub IsOutputOf : RawOutputPointer → Utxo → PlainTx → Type 0
IsOutputOf p u tx =
    (tx.hash ≡ p.hash)
    × (tx.tx_num ≡ u.tx_num)
    × (is_spendable u.type ≡ true)
    × (get_elem? tx.outputs p.output_num ≡ some (record { value = u.value; type = u.type }))

-- One of the transactions made it.
abbrev pub Made : RawOutputPointer → Utxo → List PlainTx → Type 0
Made p u [] = ⊥
Made p u (tx ∷ txs) = IsOutputOf p u tx ⊎ Made p u txs

-- The hash is none of those of the transactions.
abbrev pub IsNewHash : ℕ → List PlainTx → Type 0
IsNewHash h = All (λ tx. (tx.hash == h) ≡ false)

abbrev pub AllMade : List RawOutputPointer → List Utxo → List PlainTx → Type 0
AllMade [] [] seen = Unit
AllMade [] (u ∷ us) seen = ⊥
AllMade (p ∷ ps) [] seen = ⊥
AllMade (p ∷ ps) (u ∷ us) seen = Made p u seen × AllMade ps us seen

pub Made-hash :
    (p : RawOutputPointer) (u : Utxo) (h : ℕ) (txs : List PlainTx)
    → Made p u txs
    → IsNewHash h txs
    → (h == p.hash) ≡ false
Made-hash p u h [] m n = absurd m
Made-hash p u h (tx ∷ txs) m (e, n) = elim m [
  | inl o ↦ ground (arith, e, o.0)
  | inr m ↦ Made-hash p u h txs m n
]

-- The pointer is of one of the outputs, which are numbered from `i`, and the value is that output.
abbrev pub IsFromOutputs : ℕ → ℕ → ℕ → List ScriptedOutput → RawOutputPointer → Utxo → Type 0
IsFromOutputs h n i os q v =
    (h ≡ q.hash)
    × (n ≡ v.tx_num)
    × (is_spendable v.type ≡ true)
    × (k : ℕ) × (q.output_num ≡ i + k)
    × (get_elem? os k ≡ some (record { value = v.value; type = v.type }))

abbrev pointer_to : ℕ → ℕ → RawOutputPointer
pointer_to h i = record { hash = h; output_num = i }

abbrev utxo_of : ℕ → ScriptedOutput → Utxo
utxo_of n o = record { value = o.value; tx_num = n; type = o.type }

module _ (H : HashMap) where
  -- The map knows only outputs of the transactions seen.
  abbrev pub Known : H.Map → List PlainTx → Type 0
  Known m seen = (p : RawOutputPointer) (u : Utxo) → H.find p m ≡ some u → Made p u seen

  pub remove-back :
      (p q : RawOutputPointer) (u : Utxo) (m : H.Map)
      → H.find q (H.remove p m) ≡ some u
      → H.find q m ≡ some u
  remove-back p q u m e = elim (Bool-cases (same_pointer p q)) [
    | inl same ↦ absurd (ground (arith, e, H.find-remove p q m, same))
    | inr other ↦ ground (arith, e, H.find-remove p q m, other)
  ]

  remove-none :
      (p q : RawOutputPointer) (m : H.Map) → H.find q m ≡ none → H.find q (H.remove p m) ≡ none
  remove-none p q m e = ground (arith, e, H.find-remove p q m)

  pub remove_self : (p : RawOutputPointer) (m : H.Map) → H.find p (H.remove p m) ≡ none
  remove_self p m = H.find-remove p p m ∙ rw (same_pointer_refl p) refl

  -- The first input of a run that ends was there, and the rest runs without it.
  pub spend_inputs-cons :
      (p : RawOutputPointer) (ps : List RawOutputPointer) (m : H.Map) (us : List Utxo) (t : H.Map)
      → spend_inputs H (p ∷ ps) m ≡ some (us, t)
      → (u : Utxo) × (vs : List Utxo) × (us ≡ u ∷ vs)
        × (H.find p m ≡ some u)
        × (spend_inputs H ps (H.remove p m) ≡ some (vs, t))
  unfolding spend_inputs erase
  spend_inputs-cons p ps m us t e = elim (Option-cases (H.find p m)) [
    | inl missing ↦ absurd (ground (arith, e, missing))
    | inr (u, there) ↦ elim (Option-cases (spend_inputs H ps (H.remove p m))) [
      | inl failed ↦ absurd (ground (arith, e, there, failed))
      | inr ((vs, after), rest) ↦
          (u, vs, ground (arith, e, there, rest), there, ground (arith, e, there, rest))
    ]
  ]

  missing_other :
      (q p : RawOutputPointer) (m : H.Map) (u : Utxo)
      → H.find q m ≡ none
      → H.find p m ≡ some u
      → same_pointer q p ≡ false
  missing_other q p m u n there = elim (Bool-cases (same_pointer q p)) [
    | inl same ↦ absurd (ground (arith, n, there, ap (λ x. H.find x m) (same_pointer→≡ q p same)))
    | inr other ↦ other
  ]

  pub find-spend_inputs-none :
      (ps : List RawOutputPointer) (m : H.Map) (us : List Utxo) (t : H.Map) (q : RawOutputPointer)
      → spend_inputs H ps m ≡ some (us, t)
      → H.find q m ≡ none
      → Absent q ps × (H.find q t ≡ none)
  unfolding spend_inputs
  find-spend_inputs-none [] m us t q e n = (tt, ground (arith, e, n))
  find-spend_inputs-none (p ∷ ps) m us t q e n =
      let (u, vs, same, there, rest) = spend_inputs-cons p ps m us t e in
      let (absent, gone) =
        find-spend_inputs-none ps (H.remove p m) vs t q rest (remove-none p q m n) in
      ((missing_other q p m u n there, absent), gone)

  -- A run spends each pointer at most once, and none of them is left; each was known.
  pub spend_inputs_lem :
      (ps : List RawOutputPointer) (m : H.Map) (us : List Utxo) (t : H.Map) (seen : List PlainTx)
      → spend_inputs H ps m ≡ some (us, t)
      → Known m seen
      → NoRepeats ps
        × All (λ p. H.find p t ≡ none) ps
        × All (λ p. (u : Utxo) × Made p u seen) ps
        × AllMade ps us seen
        × Known t seen
  unfolding spend_inputs
  spend_inputs_lem [] m us t seen e k =
      let nothing : us ≡ [] = ground (arith, e) in
      let stays : t ≡ m = ground (arith, e) in
      (
        tt,
        tt,
        tt,
        subst (λ l. AllMade [] l seen) (sym nothing) tt,
        subst (λ x. Known x seen) (sym stays) k,
      )
  spend_inputs_lem (p ∷ ps) m us t seen e k =
      let (u, vs, same, there, rest) = spend_inputs-cons p ps m us t e in
      let (absent, gone) = find-spend_inputs-none ps (H.remove p m) vs t p rest (remove_self p m) in
      let (a, b, c, d, l) =
        spend_inputs_lem ps (H.remove p m) vs t seen rest
          (λ q v f. k q v (remove-back p q v m f)) in
      (
        (absent, a),
        (gone, b),
        ((u, k p u there), c),
        subst (λ l. AllMade (p ∷ ps) l seen) (sym same) (k p u there, d),
        l,
      )

  find-insert_other :
      (p q : RawOutputPointer) (u : Utxo) (m : H.Map)
      → same_pointer p q ≡ false
      → H.find q (H.insert p u m) ≡ H.find q m
  find-insert_other p q u m other = elim (Option-cases (H.find p m)) [
    | inl new ↦ H.find-insert_new p q u m new ∙ rw other refl
    | inr (v, old) ↦ ap (H.find q) (H.insert_old p u v m old)
  ]

  pub find-add_outputs_other :
      (h n i : ℕ) (os : List ScriptedOutput) (m : H.Map) (q : RawOutputPointer)
      → (h == q.hash) ≡ false
      → H.find q (add_outputs H h n i os m) ≡ H.find q m
  unfolding add_outputs
  find-add_outputs_other h n i [] m q other = refl
  find-add_outputs_other h n i (o ∷ os) m q other = elim (Bool-cases (is_spendable o.type)) [
    | inl spendable ↦ rw spendable (
        find-add_outputs_other h n (suc i) os _ q other ∙ find-insert_other _ q _ m (rw other refl))
    | inr burnt ↦ rw burnt (find-add_outputs_other h n (suc i) os m q other)
  ]

  pub find-insert_back :
      (p q : RawOutputPointer) (u v : Utxo) (m : H.Map)
      → H.find q (H.insert p u m) ≡ some v
      → (H.find q m ≡ some v) ⊎ ((p ≡ q) × (u ≡ v))
  find-insert_back p q u v m e = elim (Option-cases (H.find p m)) [
    | inl new ↦ elim (Bool-cases (same_pointer p q)) [
      | inl same ↦
          inr (same_pointer→≡ p q same, ground (arith, e, H.find-insert_new p q u m new, same))
      | inr other ↦ inl (ground (arith, e, H.find-insert_new p q u m new, other))
    ]
    | inr (w, old) ↦ inl (ground (arith, e, ap (H.find q) (H.insert_old p u w m old)))
  ]

  -- One round of the loop over the outputs.
  abbrev add_one : ℕ → ℕ → ℕ → ScriptedOutput → H.Map → H.Map
  add_one h n i o m = if is_spendable o.type then H.insert (pointer_to h i) (utxo_of n o) m else m

  find-add_one_back :
      (h n i : ℕ) (o : ScriptedOutput) (m : H.Map) (q : RawOutputPointer) (v : Utxo)
      → H.find q (add_one h n i o m) ≡ some v
      → (H.find q m ≡ some v) ⊎ IsFromOutputs h n i (o ∷ []) q v
  find-add_one_back h n i o m q v e = elim (Bool-cases (is_spendable o.type)) [
    | inl spendable ↦
        elim (find-insert_back (pointer_to h i) q (utxo_of n o) v m
          (ground (arith, e, spendable))) [
            | inl old ↦ inl old
            | inr (p, u) ↦ inr (
              ap (λ (x : RawOutputPointer). x.hash) p,
              ap (λ (x : Utxo). x.tx_num) u,
              subst (λ (x : Utxo). is_spendable x.type ≡ true) u spendable,
              0,
              omega (arith, ap (λ (x : RawOutputPointer). x.output_num) p),
              ap (λ (x : Utxo). some (record { value = x.value; type = x.type })) u,
            )
          ]
    | inr burnt ↦ inl (ground (arith, e, burnt))
  ]

  -- A pointer found after the outputs were added was there before, or is one of them.
  pub find-add_outputs_back :
      (h n i : ℕ) (os : List ScriptedOutput) (m : H.Map) (q : RawOutputPointer) (v : Utxo)
      → H.find q (add_outputs H h n i os m) ≡ some v
      → (H.find q m ≡ some v) ⊎ IsFromOutputs h n i os q v
  unfolding add_outputs
  find-add_outputs_back h n i [] m q v e = inl e
  find-add_outputs_back h n i (o ∷ os) m q v e =
      elim (find-add_outputs_back h n (suc i) os (add_one h n i o m) q v e) [
        | inl before ↦ elim (find-add_one_back h n i o m q v before) [
          | inl old ↦ inl old
          | inr (a, b, c, zero, d, f) ↦ inr (a, b, c, 0, d, f)
          | inr (a, b, c, suc k, d, f) ↦ absurd (ground (arith, f))
        ]
        | inr (a, b, c, k, d, f) ↦ inr (a, b, c, suc k, omega (arith, d), f)
      ]

  -- Back from the end of one transaction: its inputs were spent, and then its outputs were added.
  pub connect_utxos-done :
      (tx : PlainTx) (m : H.Map) (us : List Utxo) (t : H.Map)
      → connect_utxos H tx m ≡ done (us, t)
      → (r : H.Map) × (spend_inputs H tx.inputs m ≡ some (us, r))
        × (t ≡ add_outputs H tx.hash tx.tx_num 0 tx.outputs r)
  unfolding connect_utxos
  connect_utxos-done tx m us t e = elim (Option-cases (spend_inputs H tx.inputs m)) [
    | inl failed ↦ absurd (ground (arith, e, failed))
    | inr ((vs, r), spent) ↦ elim (Bool-cases (ltb (length tx.outputs) 65536)) [
      | inl few ↦ (r, ground (arith, e, spent, few), ground (arith, e, spent, few))
      | inr many ↦ absurd (ground (arith, e, spent, many))
    ]
  ]
