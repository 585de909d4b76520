-- ===== src/Parser/AddressState/Consistent.antt =====
-- What the filter, the map and the database of an AddressState know of each other, and the states
-- that the operations leave.
use block_sci.Prelude.{
  ℕ, ◌+◌, ◌%◌, ◌^◌, ◌≤◌, ◌<◌, ◌≡◌, refl, sym, ap, ◌∙◌, subst, ◌⊎◌, inl, inr, true, false, List, [],
  ◌∷◌, none, some, Bool-cases, Option-cases, arith,
}
use block_sci.Parser.Bloom.{BloomFilter, Key, add, possibly_contains, is_full, reset}
use block_sci.Parser.Bloom.NoFalseNegative.{possibly_contains-add}
use block_sci.Parser.AddressState.{
  Uint160, same_hash, AmongEntries, KeyValue, add_all, AddressState, reload, get_new_address_index,
  add_address,
}

pub same_hash_refl : (h : Uint160) → same_hash h h ≡ true
same_hash_refl h = ground arith

pub same_hash→≡ : (h j : Uint160) → same_hash h j ≡ true → h ≡ j
same_hash→≡ h j e = grind arith

add_all-Grows :
    (es : List (Uint160 × ℕ)) (k : Key) (f : BloomFilter)
    → possibly_contains k f ≡ true
    → possibly_contains k (add_all es f) ≡ true
unfolding add_all
add_all-Grows [] k f h = h
add_all-Grows ((j, n) ∷ es) k f h =
    add_all-Grows es k (add j.words f) ((possibly_contains-add j.words k f).1 h)

-- Every hash of the list is in the filter that the list was added to.
possibly_contains-add_all :
    (es : List (Uint160 × ℕ)) (h : Uint160) (m : ℕ) (f : BloomFilter)
    → AmongEntries h m es
    → possibly_contains h.words (add_all es f) ≡ true
unfolding add_all
possibly_contains-add_all [] h k f m = absurd m
possibly_contains-add_all ((j, n) ∷ es) h k f m = elim m [
  | inl (e, same) ↦ add_all-Grows es h.words (add j.words f) (
      subst (λ x. possibly_contains (Uint160.words x) (add j.words f) ≡ true) (sym e)
        ((possibly_contains-add j.words j.words f).0))
  | inr m ↦ possibly_contains-add_all es h k (add j.words f) m
]

module _ (D M : KeyValue) where
  -- What the three stores know of each other.
  pub record IsConsistent (s : AddressState D M) : Type 0 where
    pub index_positive : 1 ≤ s.script_index
    pub known :
        (h : Uint160) (n : ℕ)
        → D.get h s.db ≡ some n
        → (possibly_contains h.words s.bloom ≡ true) × (1 ≤ n) × (n < s.script_index)
    pub multi_agrees : (h : Uint160) (n : ℕ) → M.get h s.multi ≡ some n → D.get h s.db ≡ some n
    pub injective : (h j : Uint160) (n : ℕ) → D.get h s.db ≡ some n → D.get j s.db ≡ some n → h ≡ j

  pub multi_none :
      (s : AddressState D M) (h : Uint160)
      → IsConsistent s
      → D.get h s.db ≡ none
      → M.get h s.multi ≡ none
  multi_none s h c e = elim (Option-cases (M.get h s.multi)) [
    | inl nothing ↦ nothing
    | inr (n, found) ↦ absurd (ground (arith, e, c.multi_agrees h n found))
  ]

  -- The filter made anew from the database knows what the database knows.
  pub reload-IsConsistent : (s : AddressState D M) → IsConsistent s → IsConsistent (reload D M s)
  unfolding reload
  reload-IsConsistent s c = record {
    index_positive = c.index_positive;
    known = λ h n e. (
      possibly_contains-add_all (D.entries s.db) h n (reset s.bloom) ((D.get-entries h n s.db).0 e),
      (c.known h n e).1,
      (c.known h n e).2,
    );
    multi_agrees = c.multi_agrees;
    injective = c.injective;
  }

  -- The state of addAddress before the filter is looked at.
  abbrev with_address : Uint160 → AddressState D M → AddressState D M
  with_address h s = record {
    bloom = add h.words s.bloom;
    multi = s.multi;
    db = D.put h s.script_index s.db;
    script_index = (s.script_index + 1) % 2 ^ 32;
  }

  get-with_address :
      (h j : Uint160) (n : ℕ) (s : AddressState D M)
      → D.get j (with_address h s).db ≡ some n
      → ((h ≡ j) × (n ≡ s.script_index)) ⊎ (D.get j s.db ≡ some n)
  get-with_address h j n s e = elim (Bool-cases (same_hash h j)) [
    | inl same ↦
        inl (same_hash→≡ h j same, ground (arith, e, D.get-put h j s.script_index s.db, same))
    | inr other ↦ inr (ground (arith, e, D.get-put h j s.script_index s.db, other))
  ]

  -- The words of a hash that the new state has a number for are in its filter.
  known-with_address :
      (h j : Uint160) (n : ℕ) (s : AddressState D M)
      → IsConsistent s
      → s.script_index + 1 < 2 ^ 32
      → D.get j (with_address h s).db ≡ some n
      → (possibly_contains j.words (add h.words s.bloom) ≡ true)
        × (1 ≤ n)
        × (n < (s.script_index + 1) % 2 ^ 32)
  known-with_address h j n s c small e =
      let wraps : (s.script_index + 1) % 2 ^ 32 ≡ s.script_index + 1 = omega (arith, small) in
      let positive = c.index_positive in
      elim (get-with_address h j n s e) [
        | inl (same, last) ↦ (
          subst (λ x. possibly_contains (Uint160.words x) (add h.words s.bloom) ≡ true) same
              ((possibly_contains-add h.words h.words s.bloom).0),
          omega arith,
          omega arith,
        )
        | inr old ↦
            let k = c.known j n old in
            ((possibly_contains-add h.words j.words s.bloom).1 k.0, k.1, omega (arith, k.2))
      ]

  with_address-IsConsistent :
      (h : Uint160) (s : AddressState D M)
      → IsConsistent s
      → D.get h s.db ≡ none
      → s.script_index + 1 < 2 ^ 32
      → IsConsistent (with_address h s)
  with_address-IsConsistent h s c fresh small = record {
    index_positive = omega (arith, c.index_positive, small);
    known = λ j n e. known-with_address h j n s c small e;
    multi_agrees = λ j n e.
        let old = c.multi_agrees j n e in
        elim (Bool-cases (same_hash h j)) [
          | inl same ↦
              absurd (ground (arith, fresh, old, ap (λ x. D.get x s.db) (same_hash→≡ h j same)))
          | inr other ↦ rw (D.get-put h j s.script_index s.db, other) old
        ];
    injective = λ j k n e f. elim (get-with_address h j n s e) [
      | inl (a, x) ↦ elim (get-with_address h k n s f) [
        | inl (b, y) ↦ sym a ∙ b
        | inr y ↦ absurd (omega (arith, (c.known k n y).2, x))
      ]
      | inr x ↦ elim (get-with_address h k n s f) [
        | inl (b, y) ↦ absurd (omega (arith, (c.known j n x).2, y))
        | inr y ↦ c.injective j k n x y
      ]
    ];
  }

  pub add_address-IsConsistent :
      (h : Uint160) (s : AddressState D M)
      → IsConsistent s
      → D.get h s.db ≡ none
      → s.script_index + 1 < 2 ^ 32
      → IsConsistent (add_address D M h s).1
  unfolding add_address get_new_address_index
  add_address-IsConsistent h s c fresh small =
      let kept = with_address-IsConsistent h s c fresh small in
      elim (Bool-cases (is_full (add h.words s.bloom))) [
        | inl full ↦ rw full (reload-IsConsistent (with_address h s) kept)
        | inr room ↦ rw room kept
      ]

  pub db-add_address :
      (h : Uint160) (s : AddressState D M)
      → ((add_address D M h s).0 ≡ s.script_index)
        × ((add_address D M h s).1.db ≡ D.put h s.script_index s.db)
        × ((add_address D M h s).1.script_index ≡ (s.script_index + 1) % 2 ^ 32)
  unfolding add_address get_new_address_index reload
  db-add_address h s = elim (Bool-cases (is_full (add h.words s.bloom))) [
    | inl full ↦ (refl, rw full, rw full)
    | inr room ↦ (refl, rw room, rw room)
  ]

  pub insert-IsConsistent :
      (h : Uint160) (n : ℕ) (s : AddressState D M)
      → IsConsistent s
      → D.get h s.db ≡ some n
      → M.get h s.multi ≡ none
      → M.reserved h ≡ false
      → IsConsistent (record s { multi = M.insert h n s.multi })
  insert-IsConsistent h n s c e free usable = record {
    index_positive = c.index_positive;
    known = c.known;
    multi_agrees = λ j m f. elim (Bool-cases (same_hash h j)) [
      | inl same ↦ ground (
        arith,
        e,
        f,
        ap (λ x. D.get x s.db) (same_hash→≡ h j same),
        M.get-insert h j n s.multi usable free,
        same,
      )
      | inr other ↦
          c.multi_agrees j m (ground (arith, f, M.get-insert h j n s.multi usable free, other))
    ];
    injective = c.injective;
  }
