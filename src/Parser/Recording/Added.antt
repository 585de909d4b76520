-- ===== src/Parser/Recording/Added.antt =====
-- One output of a transaction comes into the three maps together.
use block_sci.Chain.Types.{is_spendable, OutputPointer}
use block_sci.Parser.Utxo.{RawOutputPointer, Utxo, HashMap, ScriptedOutput, get_output_pointer}
use block_sci.Parser.Utxo.Step.{find-insert_back}
use block_sci.Parser.Recording.{same_output, OutputMap, ResolvedOutput, has_spend_data, add_output}
use block_sci.Parser.Recording.Agree.{IsAhead, IsBehind, IsKept, Agree}
use block_sci.Prelude.{
  ℕ, suc, ◌<◌, ◌≡◌, refl, sym, ap, ◌∙◌, subst, ◌⊎◌, inl, inr, true, false, none, some,
  if◌then◌else◌, Bool-cases, arith,
}

abbrev pub place : ℕ → ℕ → OutputPointer
place n i = record { tx_num = n; inout_num = i }

abbrev pub pointer : ℕ → ℕ → RawOutputPointer
pointer h i = record { hash = h; output_num = i }

abbrev pub utxo : ℕ → ScriptedOutput → Utxo
utxo n o = record { value = o.value; tx_num = n; type = o.type }

module _ (H : HashMap) (S : OutputMap ℕ) {V : Type 0} (G : OutputMap V) where
  -- The three maps after one round of the loops over the outputs.
  abbrev pub with_utxo : ℕ → ℕ → ℕ → ScriptedOutput → H.Map → H.Map
  with_utxo n h i o m = if is_spendable o.type then H.insert (pointer h i) (utxo n o) m else m

  find-add_output :
      (k j : OutputPointer) (r : ResolvedOutput V) (g : G.Map)
      → (has_spend_data r.type ≡ true → G.reserved k ≡ false)
      → G.find k g ≡ none
      → G.find j (add_output G k r g) ≡ (
          if has_spend_data r.type
          then (if same_output k j then some r.keys else G.find j g)
          else G.find j g)
  unfolding add_output
  find-add_output k j r g usable e = elim (Bool-cases (has_spend_data r.type)) [
    | inl has ↦ rw has (G.find-insert_new k j r.keys g (usable has) e)
    | inr has_none ↦ rw has_none refl
  ]

  -- An unspent output after the round was there before, or is the new one.
  with_utxo_back :
      (n h i : ℕ) (o : ScriptedOutput) (m : H.Map) (p : RawOutputPointer) (u : Utxo)
      → H.find p (with_utxo n h i o m) ≡ some u
      → (H.find p m ≡ some u) ⊎ ((pointer h i ≡ p) × (utxo n o ≡ u))
  with_utxo_back n h i o m p u e = elim (Bool-cases (is_spendable o.type)) [
    | inl spendable ↦
        find-insert_back H (pointer h i) p (utxo n o) u m (ground (arith, e, spendable))
    | inr burnt ↦ inl (ground (arith, e, burnt))
  ]

  IsBehind-next :
      (n h i : ℕ) (p : RawOutputPointer) (u : Utxo) → IsBehind n h i p u → IsBehind n h (suc i) p u
  IsBehind-next n h i p u (inl b) = inl b
  IsBehind-next n h i p u (inr (a, b, c)) = inr (a, b, omega arith)

  -- An output that was there is not the new one.
  IsBehind-other :
      (n h i : ℕ) (p : RawOutputPointer) (u : Utxo)
      → IsBehind n h i p u
      → same_output (place n i) (get_output_pointer p u) ≡ false
  IsBehind-other n h i p u (inl (b, _)) = ground arith
  IsBehind-other n h i p u (inr (a, b, c)) = ground arith

  IsAhead-other :
      (n i : ℕ) (k : OutputPointer) → IsAhead n (suc i) k → same_output (place n i) k ≡ false
  IsAhead-other n i k (inl b) = ground arith
  IsAhead-other n i k (inr (a, b)) = ground arith

  IsAhead-before : (n i : ℕ) (k : OutputPointer) → IsAhead n (suc i) k → IsAhead n i k
  IsAhead-before n i k (inl b) = inl b
  IsAhead-before n i k (inr (a, b)) = inr (a, omega arith)

  same_output_refl : (k : OutputPointer) → same_output k k ≡ true
  same_output_refl k = ground arith

  module _ (n h i : ℕ) (o : ScriptedOutput) (r : ResolvedOutput V) (m : H.Map) (s : S.Map)
      (g : G.Map) (a : Agree H S G n h i m s g) (typed : o.type ≡ r.type)
      (positive : 0 < r.script_num) (free : S.reserved (place n i) ≡ false)
      (free_keys : has_spend_data r.type ≡ true → G.reserved (place n i) ≡ false) where
    abbrev pub m' : H.Map
    m' = with_utxo n h i o m

    abbrev pub s' : S.Map
    s' = S.insert (place n i) r.script_num s

    abbrev pub g' : G.Map
    g' = add_output G (place n i) r g

    at_place : IsAhead n i (place n i)
    at_place = inr (refl, omega arith)

    find-s' :
        (k : OutputPointer)
        → S.find k s' ≡ (if same_output (place n i) k then some r.script_num else S.find k s)
    find-s' k =
        S.find-insert_new (place n i) k r.script_num s free (a.no_script (place n i) at_place)

    find-g' : (k : OutputPointer) → same_output (place n i) k ≡ false → G.find k g' ≡ G.find k g
    find-g' k other =
        find-add_output (place n i) k r g free_keys (a.no_keys (place n i) at_place)
        ∙ ground (arith, other)

    kept_old :
        (p : RawOutputPointer) (u : Utxo)
        → H.find p m ≡ some u
        → IsKept H S G s' g' (get_output_pointer p u) u.type
    kept_old p u e =
        let k = get_output_pointer p u in
        let other = IsBehind-other n h i p u (a.behind p u e) in
        let ((j, found, over), keys) = a.kept p u e in
        (
          (j, find-s' k ∙ rw other found, over),
          λ has. let (v, there) = keys has in (v, find-g' k other ∙ there),
        )

    kept_new : IsKept H S G s' g' (get_output_pointer (pointer h i) (utxo n o)) o.type
    kept_new =
        let same = same_output_refl (place n i) in
        (
          (r.script_num, find-s' (place n i) ∙ rw same refl, positive),
          λ has.
              let has_keys : has_spend_data r.type ≡ true = ap has_spend_data (sym typed) ∙ has in
              (
                r.keys,
                find-add_output (place n i) (place n i) r g free_keys
                      (a.no_keys (place n i) at_place)
                    ∙ rw (has_keys, same) refl,
              ),
        )

    -- The new output is just behind the next place.
    new-IsBehind : IsBehind n h (suc i) (pointer h i) (utxo n o)
    new-IsBehind = inr (refl, refl, omega arith)

    behind' : (p : RawOutputPointer) (u : Utxo) → H.find p m' ≡ some u → IsBehind n h (suc i) p u
    behind' p u e = elim (with_utxo_back n h i o m p u e) [
      | inl old ↦ IsBehind-next n h i p u (a.behind p u old)
      | inr (at, is) ↦
          subst (λ q. IsBehind n h (suc i) q u) at
            (subst (IsBehind n h (suc i) (pointer h i)) is new-IsBehind)
    ]

    kept' :
        (p : RawOutputPointer) (u : Utxo)
        → H.find p m' ≡ some u
        → IsKept H S G s' g' (get_output_pointer p u) u.type
    kept' p u e = elim (with_utxo_back n h i o m p u e) [
      | inl old ↦ kept_old p u old
      | inr (at, is) ↦
          subst (λ q. IsKept H S G s' g' (get_output_pointer q u) u.type) at
            (subst (λ v. IsKept H S G s' g' (get_output_pointer (pointer h i) v) v.type) is
              kept_new)
    ]

    one_hash' :
        (p q : RawOutputPointer) (u v : Utxo)
        → H.find p m' ≡ some u
        → H.find q m' ≡ some v
        → u.tx_num ≡ v.tx_num
        → p.hash ≡ q.hash
    one_hash' p q u v e f same = elim (with_utxo_back n h i o m p u e) [
      | inl old ↦ elim (with_utxo_back n h i o m q v f) [
        | inl also ↦ a.one_hash p q u v old also same
        | inr (at, is) ↦
            of_this p u (behind' p u e) (same ∙ sym (ap (λ (x : Utxo). x.tx_num) is))
            ∙ ap (λ (x : RawOutputPointer). x.hash) at
      ]
      | inr (at, is) ↦
          sym (ap (λ (x : RawOutputPointer). x.hash) at)
          ∙ sym (of_this q v (behind' q v f) (sym same ∙ sym (ap (λ (x : Utxo). x.tx_num) is)))
    ]
      where
        of_this :
            (r : RawOutputPointer) (w : Utxo) → IsBehind n h (suc i) r w → w.tx_num ≡ n → r.hash ≡ h
        of_this r w (inl (less, _)) e = absurd (omega arith)
        of_this r w (inr (_, this, _)) e = this

    no_script' : (k : OutputPointer) → IsAhead n (suc i) k → S.find k s' ≡ none
    no_script' k ahead =
        find-s' k ∙ rw (IsAhead-other n i k ahead) (a.no_script k (IsAhead-before n i k ahead))

    no_keys' : (k : OutputPointer) → IsAhead n (suc i) k → G.find k g' ≡ none
    no_keys' k ahead =
        find-g' k (IsAhead-other n i k ahead) ∙ a.no_keys k (IsAhead-before n i k ahead)

    pub added-Agree : Agree H S G n h (suc i) m' s' g'
    added-Agree = record {
      kept = kept';
      one_hash = one_hash';
      behind = behind';
      no_script = no_script';
      no_keys = no_keys';
    }
