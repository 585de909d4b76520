-- ===== src/Parser/Recording/Chain.antt =====
-- The transactions of a chain, one after the other: whatever connectUTXOs accepts goes through the
-- later steps.
use block_sci.Chain.Types.{OutputPointer}
use block_sci.Parser.Utxo.{
  RawOutputPointer, Utxo, HashMap, done, PlainTx, spend_inputs, connect_utxos, connect_all,
}
use block_sci.Parser.Utxo.Step.{
  IsNewHash, remove-back, spend_inputs-cons, find-add_outputs_back, connect_utxos-done,
}
use block_sci.Parser.Utxo.NoDoubleSpend.{DistinctHashes, connect_all-cons}
use block_sci.Parser.Recording.{
  OutputMap, ResolvedOutput, recorded, output_pointers, record_addresses, generate_script_input,
}
use block_sci.Parser.Recording.Agree.{IsAhead, IsBehind, Agree}
use block_sci.Parser.Recording.Keeps.{AreResolved, AreStorable, connect_utxos-Agree}
use block_sci.Prelude.{
  ℕ, suc, ◌<◌, ◌≡◌, sym, ap, ◌∙◌, subst, inl, inr, false, List, [], ◌∷◌, Option, none, some, ◌==◌,
  length, arith,
}

-- The transactions have the numbers from one on, in order.
abbrev pub AreNumbered : ℕ → List PlainTx → Type 0
AreNumbered n [] = Unit
AreNumbered n (tx ∷ txs) = (tx.tx_num ≡ n) × AreNumbered (suc n) txs

abbrev pub AllResolved : {V : Type 0} → List PlainTx → List (List (ResolvedOutput V)) → Type 0
AllResolved [] [] = Unit
AllResolved [] (rs ∷ rss) = ⊥
AllResolved (tx ∷ txs) [] = ⊥
AllResolved (tx ∷ txs) (rs ∷ rss) = AreResolved tx.outputs rs × AllResolved txs rss

module _ (H : HashMap) (S : OutputMap ℕ) {V : Type 0} (G : OutputMap V) where
  -- recordAddresses and generateScriptInput end on each transaction in turn, with the utxos that
  -- connectUTXOs gave its inputs.
  abbrev pub GoThrough :
      List PlainTx → List (List (ResolvedOutput V)) → List (List Utxo) → S.Map → G.Map → Type 0
  GoThrough [] rss uss s g = Unit
  GoThrough (tx ∷ txs) [] uss s g = ⊥
  GoThrough (tx ∷ txs) (rs ∷ rss) [] s g = ⊥
  GoThrough (tx ∷ txs) (rs ∷ rss) (us ∷ uss) s g =
      (ks : List ℕ) × (vs : List (Option V)) × (s' : S.Map) × (g' : G.Map) × (record_addresses S
          tx.tx_num (output_pointers tx.inputs us) rs s
        ≡ recorded (ks, s'))
      × (generate_script_input G tx.tx_num tx.inputs us rs g ≡ some (vs, g'))
      × GoThrough txs rss uss s' g'

  -- The maps reserve no key that the outputs of the transactions from number n on get.
  abbrev pub AllStorable : ℕ → List (List (ResolvedOutput V)) → Type 0
  AllStorable n [] = Unit
  AllStorable n (rs ∷ rss) = AreStorable H S G n 0 rs × AllStorable (suc n) rss

  -- No unspent output has the hash of a transaction to come.
  abbrev AreFresh : List PlainTx → H.Map → Type 0
  AreFresh txs m = (p : RawOutputPointer) (u : Utxo) → H.find p m ≡ some u → IsNewHash p.hash txs

  spend_inputs_back :
      (ps : List RawOutputPointer) (m : H.Map) (us : List Utxo) (t : H.Map) (q : RawOutputPointer)
      (v : Utxo)
      → spend_inputs H ps m ≡ some (us, t)
      → H.find q t ≡ some v
      → H.find q m ≡ some v
  unfolding spend_inputs
  spend_inputs_back [] m us t q v e f = ground (arith, e, f)
  spend_inputs_back (p ∷ ps) m us t q v e f =
      let (u, vs, same, there, rest) = spend_inputs-cons H p ps m us t e in
      remove-back H p q v m (spend_inputs_back ps (H.remove p m) vs t q v rest f)

  -- The next transaction finds the maps in agreement.
  next-Agree :
      (n h i h' : ℕ) (m : H.Map) (s : S.Map) (g : G.Map)
      → Agree H S G n h i m s g
      → ((p : RawOutputPointer) (u : Utxo) → H.find p m ≡ some u → (p.hash == h') ≡ false)
      → Agree H S G (suc n) h' 0 m s g
  next-Agree n h i h' m s g a new = record {
    kept = a.kept;
    one_hash = a.one_hash;
    behind = λ p u e. inl (earlier p u (a.behind p u e), new p u e);
    no_script = λ k ahead. a.no_script k (later k ahead);
    no_keys = λ k ahead. a.no_keys k (later k ahead);
  }
    where
      earlier : (p : RawOutputPointer) (u : Utxo) → IsBehind n h i p u → u.tx_num < suc n
      earlier p u (inl (b, _)) = omega arith
      earlier p u (inr (b, _, _)) = omega arith

      later : (k : OutputPointer) → IsAhead (suc n) 0 k → IsAhead n i k
      later k (inl b) = inl (omega arith)
      later k (inr (b, _)) = inl (omega arith)

  new_hash : (a b : ℕ) → (a == b) ≡ false → (b == a) ≡ false
  new_hash a b e = ground (arith, e)

  fresh-next :
      (tx : PlainTx) (txs : List PlainTx) (m : H.Map) (us : List Utxo) (t : H.Map)
      → AreFresh (tx ∷ txs) m
      → IsNewHash tx.hash txs
      → connect_utxos H tx m ≡ done (us, t)
      → AreFresh txs t
  fresh-next tx txs m us t fresh new e q v f =
      let (r, spent, added) = connect_utxos-done H tx m us t e in
      elim (find-add_outputs_back H tx.hash tx.tx_num 0 tx.outputs r q v
        (ap (H.find q) (sym added) ∙ f)) [
          | inl old ↦ (fresh q v (spend_inputs_back tx.inputs m us r q v spent old)).1
          | inr (own, _, _, _, _, _) ↦ subst (λ h. IsNewHash h txs) own new
        ]

  -- The maps agree for a next transaction of any hash that no unspent output has.
  abbrev pub IsReady : ℕ → H.Map → S.Map → G.Map → Type 0
  IsReady n m s g =
      (h : ℕ)
      → ((p : RawOutputPointer) (u : Utxo) → H.find p m ≡ some u → (p.hash == h) ≡ false)
      → Agree H S G n h 0 m s g

  empty-IsReady :
      (n : ℕ) (m : H.Map) (s : S.Map) (g : G.Map)
      → ((p : RawOutputPointer) → H.find p m ≡ none)
      → ((k : OutputPointer) → S.find k s ≡ none)
      → ((k : OutputPointer) → G.find k g ≡ none)
      → IsReady n m s g
  empty-IsReady n m s g a b c h new = record {
    kept = λ p u e. absurd (ground (arith, e, a p));
    one_hash = λ p q u v e. absurd (ground (arith, e, a p));
    behind = λ p u e. absurd (ground (arith, e, a p));
    no_script = λ k ahead. b k;
    no_keys = λ k ahead. c k;
  }

  connect_all-IsReady :
      (n : ℕ) (txs : List PlainTx) (rss : List (List (ResolvedOutput V))) (uss : List (List Utxo))
      (m t : H.Map) (s : S.Map) (g : G.Map)
      → IsReady n m s g
      → AreFresh txs m
      → AreNumbered n txs
      → DistinctHashes txs
      → AllResolved txs rss
      → AllStorable n rss
      → connect_all H txs m ≡ done (uss, t)
      → GoThrough txs rss uss s g
  connect_all-IsReady n [] rss uss m t s g ready fresh numbered distinct resolved usable e = tt
  connect_all-IsReady n (tx ∷ txs) [] uss m t s g ready fresh numbered distinct resolved usable e =
      absurd resolved
  connect_all-IsReady n (tx ∷ txs) (rs ∷ rss) uss m t s g ready fresh (at, numbered) (new, distinct)
        (here, resolved) (storable, later) e =
      let (us, vss, r, same, first, rest) = connect_all-cons H tx txs m uss t e in
      let hash_new : (p : RawOutputPointer) (u : Utxo)
          → H.find p m ≡ some u
          → (p.hash == tx.hash) ≡ false =
        λ p u f. new_hash tx.hash p.hash (fresh p u f).0 in
      let now : Agree H S G tx.tx_num tx.hash 0 m s g =
        subst (λ k. Agree H S G k tx.hash 0 m s g) (sym at) (ready tx.hash hash_new) in
      let (ks, vs, s', g', addresses, inputs, after) =
        connect_utxos-Agree H S G tx rs m s g us r now here
          (subst (λ k. AreStorable H S G k 0 rs) (sym at) storable) first in
      let next : IsReady (suc n) r s' g' = λ h free.
        next-Agree n tx.hash (length tx.outputs) h r s' g'
          (subst (λ k. Agree H S G k tx.hash (length tx.outputs) r s' g') at after) free in
      subst (λ l. GoThrough (tx ∷ txs) (rs ∷ rss) l s g) (sym same)
        (
          ks,
          vs,
          s',
          g',
          addresses,
          inputs,
          connect_all-IsReady (suc n) txs rss vss r t s' g' next
              (fresh-next tx txs m us r fresh new first) numbered distinct resolved later rest,
        )

  -- From three empty maps, for transactions numbered from 0 with different hashes and resolved
  -- outputs, of the types of the scripts, with positive script numbers and under keys that the
  -- maps into which they go do not reserve: if connectUTXOs accepts them one after the other,
  -- recordAddresses and generateScriptInput, given the utxos that it found, end on each of them
  -- too, without MissingKeyException and without a failed assert.
  pub connect_all-GoThrough :
      (txs : List PlainTx) (rss : List (List (ResolvedOutput V))) (uss : List (List Utxo))
      (m t : H.Map) (s : S.Map) (g : G.Map)
      → ((p : RawOutputPointer) → H.find p m ≡ none)
      → ((k : OutputPointer) → S.find k s ≡ none)
      → ((k : OutputPointer) → G.find k g ≡ none)
      → AreNumbered 0 txs
      → DistinctHashes txs
      → AllResolved txs rss
      → AllStorable 0 rss
      → connect_all H txs m ≡ done (uss, t)
      → GoThrough txs rss uss s g
  connect_all-GoThrough txs rss uss m t s g a b c numbered distinct resolved usable e =
      connect_all-IsReady 0 txs rss uss m t s g (empty-IsReady 0 m s g a b c)
        (λ p u f. absurd (ground (arith, f, a p))) numbered distinct resolved usable e
