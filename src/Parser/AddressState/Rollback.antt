-- ===== src/Parser/AddressState/Rollback.antt =====
-- AddressState::rollback.
use block_sci.Prelude.{
  ℕ, ◌≤◌, ◌<◌, ◌≡◌, refl, sym, ◌∙◌, subst, ◌↔◌, inl, inr, List, [], ◌∷◌, none, some, leb, leb→le,
  le→leb, ltb, ltb→lt, ltb_false→le, Bool-cases, Option-cases, arith,
}
use block_sci.Parser.AddressState.{
  Uint160, same_hash, AmongEntries, KeyValue, AddressState, delete_from, rollback,
}
use block_sci.Parser.AddressState.Consistent.{
  same_hash_refl, same_hash→≡, IsConsistent, reload-IsConsistent,
}

module _ (K : KeyValue) (count : ℕ) where
  delete_from-none :
      (es : List (Uint160 × ℕ)) (j : Uint160) (s : K.Store)
      → K.get j s ≡ none
      → K.get j (delete_from K count es s) ≡ none
  unfolding delete_from
  delete_from-none [] j s e = e
  delete_from-none ((h, n) ∷ es) j s e = elim (Bool-cases (leb count n)) [
    | inl old ↦
        rw old (delete_from-none es j (K.delete h s) (ground (arith, e, K.get-delete h j s)))
    | inr new ↦ rw new (delete_from-none es j s e)
  ]

  delete_from-gone :
      (es : List (Uint160 × ℕ)) (j : Uint160) (n : ℕ) (s : K.Store)
      → AmongEntries j n es
      → count ≤ n
      → K.get j (delete_from K count es s) ≡ none
  unfolding delete_from
  delete_from-gone [] j n s m big = absurd m
  delete_from-gone ((h, k) ∷ es) j n s m big = elim m [
    | inl (same, e) ↦ rw (le→leb count k (subst (λ x. count ≤ x) e big)) (
        delete_from-none es j (K.delete h s) (
          subst (λ x. K.get j (K.delete x s) ≡ none) same
            (K.get-delete j j s ∙ rw (same_hash_refl j) refl)))
    | inr m ↦ delete_from-gone es j n _ m big
  ]

  delete_from-kept :
      (es : List (Uint160 × ℕ)) (j : Uint160) (s : K.Store)
      → ((n : ℕ) → AmongEntries j n es → n < count)
      → K.get j (delete_from K count es s) ≡ K.get j s
  unfolding delete_from
  delete_from-kept [] j s small = refl
  delete_from-kept ((h, n) ∷ es) j s small = elim (Bool-cases (leb count n)) [
    | inl big ↦ elim (Bool-cases (same_hash h j)) [
      | inl same ↦
          absurd
            (omega (arith, leb→le count n big, small n (inl (sym (same_hash→≡ h j same), refl))))
      | inr other ↦
          rw
            (
              big,
              delete_from-kept es j (K.delete h s) (λ m a. small m (inr a)),
              K.get-delete h j s,
              other,
            )
            refl
    ]
    | inr low ↦ rw low (delete_from-kept es j s (λ m a. small m (inr a)))
  ]

  -- What the store has after the loop is what it had below the count.
  get-delete_from :
      (j : Uint160) (n : ℕ) (s : K.Store)
      → (K.get j (delete_from K count (K.entries s) s) ≡ some n)
        ↔ ((K.get j s ≡ some n) × (n < count))
  get-delete_from j n s = elim (Option-cases (K.get j s)) [
    | inl e ↦ ground (arith, e, delete_from-none (K.entries s) j s e)
    | inr (m, e) ↦ elim (Bool-cases (ltb m count)) [
      | inl low ↦
          let kept =
            delete_from-kept (K.entries s) j s
              (λ k a. ground (arith, e, ltb→lt m count low, (K.get-entries j k s).1 a)) in
          ground (arith, e, kept, ltb→lt m count low)
      | inr high ↦
          let gone =
            delete_from-gone (K.entries s) j m s ((K.get-entries j m s).0 e)
              (ltb_false→le m count high) in
          ground (arith, e, gone, ltb_false→le m count high)
    ]
  ]

module _ (D M : KeyValue) where
  -- After a rollback of a consistent state to a positive count, the database has exactly the
  -- hashes whose number is below the count, with their numbers, and the state is consistent.
  pub rollback_lem :
      (count : ℕ) (s : AddressState D M)
      → IsConsistent D M s
      → 1 ≤ count
      → IsConsistent D M (rollback D M count s)
        × ((h : Uint160) (n : ℕ)
            → (D.get h (rollback D M count s).db ≡ some n)
              ↔ ((D.get h s.db ≡ some n) × (n < count)))
  unfolding rollback
  rollback_lem count s c positive = (
    reload-IsConsistent D M _ (record {
      index_positive = positive;
      known = λ h n e.
          let was = (get-delete_from D count h n s.db).0 e in
          let k = c.known h n was.0 in (k.0, k.1, was.1);
      multi_agrees = λ h n e.
          let was = (get-delete_from M count h n s.multi).0 e in
          (get-delete_from D count h n s.db).1 (c.multi_agrees h n was.0, was.1);
      injective = λ h j n e f.
          c.injective h j n ((get-delete_from D count h n s.db).0 e).0
            ((get-delete_from D count j n s.db).0 f).0;
    }),
    λ h n. get-delete_from D count h n s.db,
  )
