-- ===== src/Parser/Utxo/NoDoubleSpend.antt =====
-- What a run of connectUTXOs over the transactions of a chain says of their inputs.
use block_sci.Prelude.{
  ◌≡◌, sym, ap, ◌∙◌, subst, inl, inr, List, [], ◌∷◌, ◌++◌, none, get_elem?, All, All-append, arith,
}
use block_sci.Parser.Utxo.{
  RawOutputPointer, Utxo, HashMap, Outcome-cases, done, PlainTx, add_outputs, connect_utxos,
  connect_all,
}
use block_sci.Parser.Utxo.Step.{
  Absent, NoRepeats, Made, IsNewHash, AllMade, Made-hash, Known, find-spend_inputs-none,
  spend_inputs_lem, find-add_outputs_other, find-add_outputs_back, connect_utxos-done,
}

abbrev pub DistinctHashes : List PlainTx → Type 0
DistinctHashes [] = Unit
DistinctHashes (tx ∷ txs) = IsNewHash tx.hash txs × DistinctHashes txs

abbrev pub all_inputs : List PlainTx → List RawOutputPointer
all_inputs [] = []
all_inputs (tx ∷ txs) = tx.inputs ++ all_inputs txs

-- Each input has a spendable output of an earlier transaction.
abbrev pub EachMade : List PlainTx → List PlainTx → List (List Utxo) → Type 0
EachMade seen [] [] = Unit
EachMade seen [] (us ∷ uss) = ⊥
EachMade seen (tx ∷ txs) [] = ⊥
EachMade seen (tx ∷ txs) (us ∷ uss) = AllMade tx.inputs us seen × EachMade (tx ∷ seen) txs uss

NoRepeats-append :
    (ps qs : List RawOutputPointer)
    → NoRepeats ps
    → NoRepeats qs
    → All (λ p. Absent p qs) ps
    → NoRepeats (ps ++ qs)
NoRepeats-append [] qs a b c = b
NoRepeats-append (p ∷ ps) qs (h, a) b (k, c) =
    (All-append _ ps qs h k, NoRepeats-append ps qs a b c)

-- A transaction whose hash is new to all of these: none of them has it.
All-new :
    (txs : List PlainTx) (p : RawOutputPointer) (u : Utxo) (seen : List PlainTx)
    → Made p u seen
    → All (λ tx. IsNewHash tx.hash seen) txs
    → IsNewHash p.hash txs
All-new [] p u seen m n = tt
All-new (tx ∷ txs) p u seen m (a, n) = (Made-hash p u tx.hash seen m a, All-new txs p u seen m n)

still_new :
    (tx : PlainTx) (seen txs : List PlainTx)
    → All (λ t. IsNewHash t.hash seen) txs
    → IsNewHash tx.hash txs
    → All (λ t. IsNewHash t.hash (tx ∷ seen)) txs
still_new tx seen [] a b = tt
still_new tx seen (t ∷ txs) (a, n) (b, m) = ((ground (arith, b), a), still_new tx seen txs n m)

All-unseen : (txs : List PlainTx) → All (λ t. IsNewHash t.hash []) txs
All-unseen [] = tt
All-unseen (tx ∷ txs) = (tt, All-unseen txs)

module _ (H : HashMap) where
  pub connect_all-cons :
      (tx : PlainTx) (txs : List PlainTx) (m : H.Map) (uss : List (List Utxo)) (t : H.Map)
      → connect_all H (tx ∷ txs) m ≡ done (uss, t)
      → (us : List Utxo) × (vss : List (List Utxo)) × (r : H.Map) × (uss ≡ us ∷ vss)
        × (connect_utxos H tx m ≡ done (us, r))
        × (connect_all H txs r ≡ done (vss, t))
  unfolding connect_all
  connect_all-cons tx txs m uss t e = elim (Outcome-cases (connect_utxos H tx m)) [
    | inl (inl failed) ↦ absurd (ground (arith, e, failed))
    | inl (inr failed) ↦ absurd (ground (arith, e, failed))
    | inr ((us, r), first) ↦ elim (Outcome-cases (connect_all H txs r)) [
      | inl (inl failed) ↦ absurd (ground (arith, e, first, failed))
      | inl (inr failed) ↦ absurd (ground (arith, e, first, failed))
      | inr ((vss, s), rest) ↦
          (us, vss, r, ground (arith, e, first, rest), first, ground (arith, e, first, rest))
    ]
  ]

  -- A pointer that is not there, and whose hash does not come, is never spent.
  connect_all-Absent :
      (txs : List PlainTx) (m : H.Map) (uss : List (List Utxo)) (t : H.Map) (q : RawOutputPointer)
      → connect_all H txs m ≡ done (uss, t)
      → H.find q m ≡ none
      → IsNewHash q.hash txs
      → Absent q (all_inputs txs)
  connect_all-Absent [] m uss t q e gone n = tt
  connect_all-Absent (tx ∷ txs) m uss t q e gone (n, ns) =
      let (us, vss, r, same, first, rest) = connect_all-cons tx txs m uss t e in
      let (x, spent, added) = connect_utxos-done H tx m us r first in
      let (absent, still) = find-spend_inputs-none H tx.inputs m us x q spent gone in
      All-append _ tx.inputs (all_inputs txs) absent (
        connect_all-Absent txs r vss t q rest
          (ap (H.find q) added
            ∙ find-add_outputs_other H tx.hash tx.tx_num 0 tx.outputs x q n
            ∙ still)
          ns)

  Known-add_outputs :
      (tx : PlainTx) (seen : List PlainTx) (x : H.Map)
      → Known H x seen
      → Known H (add_outputs H tx.hash tx.tx_num 0 tx.outputs x) (tx ∷ seen)
  Known-add_outputs tx seen x k q v e =
      elim (find-add_outputs_back H tx.hash tx.tx_num 0 tx.outputs x q v e) [
        | inl old ↦ inr (k q v old)
        | inr (a, b, c, n, d, f) ↦
            let place : q.output_num ≡ n = omega (arith, d) in
            inl (a, b, c, ap (get_elem? tx.outputs) place ∙ f)
      ]

  later-Absent :
      (tx : PlainTx) (txs seen : List PlainTx) (r x : H.Map) (vss : List (List Utxo)) (t : H.Map)
      → connect_all H txs r ≡ done (vss, t)
      → r ≡ add_outputs H tx.hash tx.tx_num 0 tx.outputs x
      → All (λ t. IsNewHash t.hash seen) (tx ∷ txs)
      → (ps : List RawOutputPointer) → All (λ p. H.find p x ≡ none) ps
      → All (λ p. (u : Utxo) × Made p u seen) ps
      → All (λ p. Absent p (all_inputs txs)) ps
  later-Absent tx txs seen r x vss t rest added fresh [] gone made = tt
  later-Absent tx txs seen r x vss t rest added fresh (p ∷ ps) (g, gone) ((u, m), made) = (
    connect_all-Absent txs r vss t p rest
        (ap (H.find p) added
          ∙ find-add_outputs_other H tx.hash tx.tx_num 0 tx.outputs x p
              (Made-hash p u tx.hash seen m fresh.0)
          ∙ g)
        (All-new txs p u seen m fresh.1),
    later-Absent tx txs seen r x vss t rest added fresh ps gone made,
  )

  connect_all_seen :
      (seen txs : List PlainTx) (m : H.Map) (uss : List (List Utxo)) (t : H.Map)
      → connect_all H txs m ≡ done (uss, t)
      → Known H m seen
      → All (λ t. IsNewHash t.hash seen) txs
      → DistinctHashes txs
      → NoRepeats (all_inputs txs) × EachMade seen txs uss
  unfolding connect_all
  connect_all_seen seen [] m uss t e k fresh distinct =
      let nothing : uss ≡ [] = ground (arith, e) in (tt, subst (EachMade seen []) (sym nothing) tt)
  connect_all_seen seen (tx ∷ txs) m uss t e k fresh distinct =
      let (us, vss, r, same, first, rest) = connect_all-cons tx txs m uss t e in
      let (x, spent, added) = connect_utxos-done H tx m us r first in
      let (a, gone, made, all_made, l) = spend_inputs_lem H tx.inputs m us x seen spent k in
      let (b, each) =
        connect_all_seen (tx ∷ seen) txs r vss t rest
          (subst (λ y. Known H y (tx ∷ seen)) (sym added) (Known-add_outputs tx seen x l))
          (still_new tx seen txs fresh.1 distinct.0) distinct.1 in
      (
        NoRepeats-append tx.inputs (all_inputs txs) a b
            (later-Absent tx txs seen r x vss t rest added fresh tx.inputs gone made),
        subst (EachMade seen (tx ∷ txs)) (sym same) (all_made, each),
      )

  -- From an empty UTXO map, a run of connectUTXOs over transactions of different hashes that ends
  -- has spent no output twice, and each input has the value, the type and the transaction of a
  -- spendable output of an earlier transaction.
  pub no_double_spend :
      (txs : List PlainTx) (m : H.Map) (uss : List (List Utxo)) (t : H.Map)
      → ((p : RawOutputPointer) → H.find p m ≡ none)
      → DistinctHashes txs
      → connect_all H txs m ≡ done (uss, t)
      → NoRepeats (all_inputs txs) × EachMade [] txs uss
  no_double_spend txs m uss t empty distinct e =
      connect_all_seen [] txs m uss t e (λ p u f. absurd (ground (arith, f, empty p)))
        (All-unseen txs) distinct
