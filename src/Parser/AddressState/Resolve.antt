-- ===== src/Parser/AddressState/Resolve.antt =====
-- The numbers that findAddress and resolveAddress give, against the database alone.
use block_sci.Prelude.{
  ℕ, ◌+◌, ◌^◌, ◌≤◌, ◌<◌, ◌≡◌, refl, sym, ap, ◌∙◌, ◌⊎◌, ◌↔◌, inl, inr, Bool, true, false, List, [],
  ◌∷◌, none, some, ◌==◌, length, All, Bool-cases, Option-cases, arith,
}
use block_sci.Parser.Bloom.{possibly_contains}
use block_sci.Parser.AddressState.{
  Uint160, same_hash, KeyValue, multi_use_map, level_db, not_found, get_match, AddressState,
  find_address, resolve_address, resolve, resolve_all,
}
use block_sci.Parser.AddressState.Consistent.{
  same_hash_refl, same_hash→≡, IsConsistent, multi_none, db-add_address, add_address-IsConsistent,
  insert-IsConsistent,
}

module _ (D M : KeyValue) where
  find_address-unknown :
      (h : Uint160) (s : AddressState D M)
      → IsConsistent D M s
      → D.get h s.db ≡ none
      → find_address D M h s ≡ record { hash = h; location = not_found; address_num = 0 }
  unfolding find_address
  find_address-unknown h s c e = elim (Bool-cases (possibly_contains h.words s.bloom)) [
    | inl hit ↦ rw (hit, multi_none D M s h c e, e)
    | inr miss ↦ rw miss
  ]

  find_address-known :
      (h : Uint160) (n : ℕ) (s : AddressState D M)
      → IsConsistent D M s
      → D.get h s.db ≡ some n
      → (find_address D M h s ≡ record { hash = h; location = level_db; address_num = n })
          × (M.get h s.multi ≡ none)
        ⊎ (find_address D M h s ≡ record { hash = h; location = multi_use_map; address_num = n })
  unfolding find_address
  find_address-known h n s c e = elim (Option-cases (M.get h s.multi)) [
    | inl nothing ↦
        let z : (n == 0) ≡ false = ground (arith, c.known h n e) in
        inl (rw ((c.known h n e).0, nothing, e, z), nothing)
    | inr (m, found) ↦
        let same : m ≡ n = ground (arith, e, c.multi_agrees h m found) in
        inr (rw ((c.known h n e).0, found, same))
  ]

  -- In a consistent state findAddress gives the number that the database has for the hash, or 0,
  -- and says that it found nothing exactly if the database has none.
  pub find_address_lem :
      (h : Uint160) (s : AddressState D M)
      → IsConsistent D M s
      → ((find_address D M h s).address_num ≡ get_match (D.get h s.db))
        × (((find_address D M h s).location ≡ not_found) ↔ (D.get h s.db ≡ none))
  find_address_lem h s c = elim (Option-cases (D.get h s.db)) [
    | inl e ↦ rw (find_address-unknown h s c e, e) (refl, (λ p. refl, λ p. refl))
    | inr (n, e) ↦ elim (find_address-known h n s c e) [
      | inl (f, m) ↦ rw (f, e) ground arith
      | inr f ↦ rw (f, e) ground arith
    ]
  ]

  -- An address that the database knows keeps its number and is not new; the database is as it was.
  pub resolve-known :
      (h : Uint160) (n : ℕ) (s : AddressState D M)
      → IsConsistent D M s
      → M.reserved h ≡ false
      → D.get h s.db ≡ some n
      → ((resolve D M h s).0 ≡ (n, false))
        × ((resolve D M h s).1.db ≡ s.db)
        × IsConsistent D M (resolve D M h s).1
        × ((resolve D M h s).1.script_index ≡ s.script_index)
  unfolding resolve_address
  resolve-known h n s c usable e = elim (find_address-known h n s c e) [
    | inl (f, free) ↦ rw f (refl, refl, insert-IsConsistent D M h n s c e free usable, refl)
    | inr f ↦ rw f (refl, refl, c, refl)
  ]

  -- An address that the database does not know gets the next number, in the database too.
  pub resolve-unknown :
      (h : Uint160) (s : AddressState D M)
      → IsConsistent D M s
      → s.script_index + 1 < 2 ^ 32
      → D.get h s.db ≡ none
      → ((resolve D M h s).0 ≡ (s.script_index, true))
        × ((resolve D M h s).1.db ≡ D.put h s.script_index s.db)
        × IsConsistent D M (resolve D M h s).1
        × ((resolve D M h s).1.script_index ≡ s.script_index + 1)
  unfolding resolve_address
  resolve-unknown h s c small e = rw (find_address-unknown h s c e) (
    rw (db-add_address D M h s).0,
    (db-add_address D M h s).1,
    add_address-IsConsistent D M h s c e small,
    (db-add_address D M h s).2 ∙ omega (arith, small),
  )

  -- The two lists pair the hashes with their numbers in a database.
  abbrev pub AreNumbers : List Uint160 → List ℕ → D.Store → Type 0
  AreNumbers [] [] db = Unit
  AreNumbers [] (n ∷ ns) db = ⊥
  AreNumbers (h ∷ hs) [] db = ⊥
  AreNumbers (h ∷ hs) (n ∷ ns) db = (D.get h db ≡ some n) × AreNumbers hs ns db

  -- After one address the database knows it, and all that it knew, and the count is at most one more.
  resolve_lem :
      (h : Uint160) (s : AddressState D M)
      → IsConsistent D M s
      → M.reserved h ≡ false
      → s.script_index + 1 < 2 ^ 32
      → IsConsistent D M (resolve D M h s).1
        × (D.get h (resolve D M h s).1.db ≡ some (resolve D M h s).0.0)
        × ((j : Uint160) (n : ℕ) → D.get j s.db ≡ some n → D.get j (resolve D M h s).1.db ≡ some n)
        × ((resolve D M h s).1.script_index ≤ s.script_index + 1)
  resolve_lem h s c usable small = elim (Option-cases (D.get h s.db)) [
    | inl e ↦
        let (a, b, k, i) = resolve-unknown h s c small e in
        (
          k,
          ap (D.get h) b
              ∙ D.get-put h h s.script_index s.db
              ∙ rw (same_hash_refl h) (ap (λ (x : ℕ × Bool). some x.0) (sym a)),
          λ j n f. elim (Bool-cases (same_hash h j)) [
            | inl same ↦
                absurd (ground (arith, e, f, ap (λ x. D.get x s.db) (same_hash→≡ h j same)))
            | inr other ↦ ap (D.get j) b ∙ D.get-put h j s.script_index s.db ∙ rw other f
          ],
          omega (arith, i),
        )
    | inr (n, e) ↦
        let (a, b, k, i) = resolve-known h n s c usable e in
        (
          k,
          ap (D.get h) b ∙ e ∙ ap (λ (x : ℕ × Bool). some x.0) (sym a),
          λ j m f. ap (D.get j) b ∙ f,
          omega (arith, i),
        )
  ]

  -- From a consistent state in which the count of addresses does not run over, resolving a list of
  -- addresses, none of whose hashes the map of multiple uses reserves, keeps the state consistent,
  -- keeps what the database knew, and gives each address the number that the database has for it
  -- at the end.
  pub resolve_all_lem :
      (hs : List Uint160) (s : AddressState D M)
      → IsConsistent D M s
      → All (λ h. M.reserved h ≡ false) hs
      → s.script_index + length hs < 2 ^ 32
      → IsConsistent D M (resolve_all D M hs s).1
        × AreNumbers hs (resolve_all D M hs s).0 (resolve_all D M hs s).1.db
        × ((j : Uint160) (n : ℕ)
            → D.get j s.db ≡ some n
            → D.get j (resolve_all D M hs s).1.db ≡ some n)
  resolve_all_lem [] s c usable small = (c, tt, λ j n e. e)
  resolve_all_lem (h ∷ hs) s c usable small =
      let (k, here, kept, i) = resolve_lem h s c usable.0 (omega (arith, small)) in
      let (l, rest, later) =
        resolve_all_lem hs (resolve D M h s).1 k usable.1 (omega (arith, small, i)) in
      (l, (later h _ here, rest), λ j n e. later j n (kept j n e))
