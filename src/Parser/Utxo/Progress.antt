-- ===== src/Parser/Utxo/Progress.antt =====
-- When connectUTXOs ends without an exception.
use block_sci.Prelude.{
  ◌^◌, ◌<◌, ◌≡◌, refl, ◌∙◌, ◌↔◌, inl, inr, List, [], ◌∷◌, some, ltb, ltb→lt, lt→ltb, length, All,
  Bool-cases, arith,
}
use block_sci.Parser.Utxo.{
  RawOutputPointer, Utxo, HashMap, done, PlainTx, erase, spend_inputs, add_outputs, connect_utxos,
}
use block_sci.Parser.Utxo.Step.{
  Absent, NoRepeats, spend_inputs-cons, find-spend_inputs-none, remove_self, remove-back,
  connect_utxos-done,
}

module _ (H : HashMap) where
  abbrev pub AllFound : List RawOutputPointer → H.Map → Type 0
  AllFound ps m = All (λ p. (u : Utxo) × (H.find p m ≡ some u)) ps

  AllFound-remove :
      (p : RawOutputPointer) (ps : List RawOutputPointer) (m : H.Map)
      → Absent p ps
      → AllFound ps m
      → AllFound ps (H.remove p m)
  AllFound-remove p [] m a f = tt
  AllFound-remove p (q ∷ ps) m (b, a) ((u, e), f) =
      ((u, H.find-remove p q m ∙ rw b e), AllFound-remove p ps m a f)

  AllFound-back :
      (p : RawOutputPointer) (ps : List RawOutputPointer) (m : H.Map)
      → AllFound ps (H.remove p m)
      → AllFound ps m
  AllFound-back p [] m f = tt
  AllFound-back p (q ∷ ps) m ((u, e), f) = ((u, remove-back H p q u m e), AllFound-back p ps m f)

  spend_inputs_ends :
      (ps : List RawOutputPointer) (m : H.Map)
      → NoRepeats ps
      → AllFound ps m
      → (r : List Utxo × H.Map) × (spend_inputs H ps m ≡ some r)
  unfolding spend_inputs erase
  spend_inputs_ends [] m a f = (([], m), refl)
  spend_inputs_ends (p ∷ ps) m (b, a) ((u, e), f) =
      let ((us, t), rest) = spend_inputs_ends ps (H.remove p m) a (AllFound-remove p ps m b f) in
      ((u ∷ us, t), ground (arith, e, rest))

  spend_inputs_needs :
      (ps : List RawOutputPointer) (m : H.Map) (us : List Utxo) (t : H.Map)
      → spend_inputs H ps m ≡ some (us, t)
      → NoRepeats ps × AllFound ps m
  spend_inputs_needs [] m us t e = (tt, tt)
  spend_inputs_needs (p ∷ ps) m us t e =
      let (u, vs, same, there, rest) = spend_inputs-cons H p ps m us t e in
      let (absent, gone) =
        find-spend_inputs-none H ps (H.remove p m) vs t p rest (remove_self H p m) in
      let (a, f) = spend_inputs_needs ps (H.remove p m) vs t rest in
      ((absent, a), ((u, there), AllFound-back p ps m f))

  -- connectUTXOs ends without an exception exactly if the inputs of the transaction are different
  -- outputs, each of them in the map, and it has fewer than 2 ^ 16 outputs.
  pub connect_utxos_iff :
      (tx : PlainTx) (m : H.Map)
      → ((r : List Utxo × H.Map) × (connect_utxos H tx m ≡ done r))
        ↔ (NoRepeats tx.inputs × AllFound tx.inputs m × (length tx.outputs < 2 ^ 16))
  unfolding connect_utxos
  connect_utxos_iff tx m = (
    λ ((us, t), e).
        let (r, spent, added) = connect_utxos-done H tx m us t e in
        let (a, f) = spend_inputs_needs tx.inputs m us r spent in
        (
          a,
          f,
          elim (Bool-cases (ltb (length tx.outputs) 65536)) [
            | inl few ↦ ltb→lt _ _ few
            | inr many ↦ absurd (ground (arith, e, spent, many))
          ],
        ),
    λ (a, f, few).
        let ((us, r), spent) = spend_inputs_ends tx.inputs m a f in
        (
          (us, add_outputs H tx.hash tx.tx_num 0 tx.outputs r),
          ground (arith, spent, lt→ltb (length tx.outputs) 65536 few),
        ),
  )
