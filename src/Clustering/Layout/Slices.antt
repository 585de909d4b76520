-- ===== src/Clustering/Layout/Slices.antt =====
-- The loop of recordOrderedAddresses: where it has put the scripts so far.
use block_sci.Prelude.{
  ℕ, zero, suc, ◌+◌, ◌%◌, ◌^◌, ◌≤◌, ◌<◌, ◌≡◌, ◌≢◌, refl, sym, ap, ◌∙◌, subst, inl, inr, List, [],
  ◌∷◌, ◌++◌, append-nil, append_assoc, Option, some, ltb, ltb→lt, ltb_false→le, ◌==◌, ==_iff,
  length, length-append, All, get_elem?, set, take, length-set, get_elem?-set_same,
  get_elem?-set_other, get_elem?_inside, get_elem?-append_left, Bool-cases, arith,
}
use block_sci.Clustering.Layout.{DedupAddress, place_one, place_all}
use block_sci.Clustering.Layout.Counts.{
  occurrences, below, below-suc, below_mono, below-le-length, occurrences-append, occurrences-take,
}

module _ (a : ℕ → DedupAddress) (ids : List ℕ) (count : ℕ) where
  -- After the scripts of `done`, the first of `ids`: each cluster's position is past its scripts
  -- so far, which stand in their places.
  pub record Placed (done positions : List ℕ) (ordered : List DedupAddress) : Type 0 where
    pub next : (c : ℕ) → c < count → get_elem? positions c ≡ some (below c ids + occurrences c done)
    pub held :
        (k c : ℕ)
        → get_elem? done k ≡ some c
        → get_elem? ordered (below c ids + occurrences c (take k done)) ≡ some (a k)
    pub size : length ordered ≡ length ids
    pub count_size : length positions ≡ count + 1

  -- The places of two scripts differ.
  places_differ :
      (done rest : List ℕ) (id k c : ℕ)
      → ids ≡ done ++ id ∷ rest
      → get_elem? done k ≡ some c
      → below id ids + occurrences id done ≢ below c ids + occurrences c (take k done)
  places_differ done rest id k c e f same =
      let mine : occurrences id ids ≡ occurrences id done + occurrences id (id ∷ rest) =
        ap (occurrences id) e ∙ occurrences-append id done (id ∷ rest) in
      let its : occurrences c ids ≡ occurrences c done + occurrences c (id ∷ rest) =
        ap (occurrences c) e ∙ occurrences-append c done (id ∷ rest) in
      let before = occurrences-take c k done f in
      let one_more : 0 < occurrences id (id ∷ rest) = ground arith in
      elim (Bool-cases (id == c)) [
        | inl equal ↦
            let before' : occurrences id (take k done) < occurrences id done =
              subst (λ x. occurrences x (take k done) < occurrences x done)
                (sym ((==_iff id c).0 equal)) before in
            let same' : below id ids + occurrences id done
                ≡ below id ids + occurrences id (take k done) =
              same
              ∙ ap (λ x. below x ids + occurrences x (take k done)) (sym ((==_iff id c).0 equal)) in
            omega arith
        | inr other ↦ elim (Bool-cases (ltb id c)) [
          | inl less ↦
              let apart = below_mono (suc id) c ids (ground (arith, less)) in
              omega (arith, below-suc id ids)
          | inr more ↦
              let apart = below_mono (suc c) id ids (ground (arith, more, other)) in
              omega (arith, below-suc c ids)
        ]
      ]

  take-length : (xs ys : List ℕ) → take (length xs) (xs ++ ys) ≡ xs
  take-length [] ys = refl
  take-length (x ∷ xs) ys = ap (λ (l : List ℕ). x ∷ l) (take-length xs ys)

  take-append_left : (k : ℕ) (xs ys : List ℕ) → k ≤ length xs → take k (xs ++ ys) ≡ take k xs
  take-append_left zero xs ys h = refl
  take-append_left (suc k) [] ys h = absurd (omega arith)
  take-append_left (suc k) (x ∷ xs) ys h =
      ap (λ (l : List ℕ). x ∷ l) (take-append_left k xs ys (omega arith))

  get_elem?-last : (xs : List ℕ) (y : ℕ) → get_elem? (xs ++ y ∷ []) (length xs) ≡ some y
  get_elem?-last [] y = refl
  get_elem?-last (x ∷ xs) y = get_elem?-last xs y

  -- One round keeps the invariant.
  place_one-Placed :
      (done rest positions : List ℕ) (ordered : List DedupAddress) (id : ℕ)
      → ids ≡ done ++ id ∷ rest
      → id < count
      → length ids < 2 ^ 32
      → Placed done positions ordered
      → (positions1 : List ℕ) × (ordered1 : List DedupAddress) × (place_one
            (some (a (length done)))
            id
            positions
            ordered
          ≡ some (positions1, ordered1))
        × Placed (done ++ id ∷ []) positions1 ordered1
  unfolding place_one
  place_one-Placed done rest positions ordered id e h b inv = (
    set id (j + 1) positions,
    set j (a (length done)) ordered,
    result,
    record {
      next = next;
      held = held;
      size = length-set j (a (length done)) ordered ∙ inv.size;
      count_size = rw (length-set id (j + 1) positions) inv.count_size;
    },
  )
    where
      j : ℕ
      j = below id ids + occurrences id done

      inside : j < length ordered
      inside =
          let mine : occurrences id ids ≡ occurrences id done + occurrences id (id ∷ rest) =
            ap (occurrences id) e ∙ occurrences-append id done (id ∷ rest) in
          let one_more : 0 < occurrences id (id ∷ rest) = ground arith in
          omega (arith, below-suc id ids, below-le-length (suc id) ids, inv.size)

      wrap : (j + 1) % 2 ^ 32 ≡ j + 1
      wrap = omega (arith, inside, inv.size)

      result :
          place_one (some (a (length done))) id positions ordered
          ≡ some (set id (j + 1) positions, set j (a (length done)) ordered)
      result = ground (arith, inv.next id h, inside, wrap)

      next :
          (c : ℕ)
          → c < count
          → get_elem? (set id (j + 1) positions) c
            ≡ some (below c ids + occurrences c (done ++ id ∷ []))
      next c l =
          let grown = occurrences-append c done (id ∷ []) in
          elim (Bool-cases (id == c)) [
            | inl same ↦
                let eq = (==_iff id c).0 same in
                let counted : occurrences c (id ∷ []) ≡ 1 = rw same refl in
                let place : below c ids + occurrences c done ≡ j =
                  ap (λ x. below x ids + occurrences x done) (sym eq) in
                subst (λ x. get_elem? (set id (j + 1) positions) x ≡ some (j + 1)) eq
                  (get_elem?-set_same id (j + 1) positions (omega (arith, inv.count_size)))
                ∙ ap some (omega (arith, grown, counted, place))
            | inr other ↦
                let uncounted : occurrences c (id ∷ []) ≡ 0 = rw other refl in
                get_elem?-set_other id c (j + 1) positions
                  (λ s. ground (arith, (==_iff id c).1 s, other))
                ∙ inv.next c l
                ∙ ap some (omega (arith, grown, uncounted))
          ]

      held :
          (k c : ℕ)
          → get_elem? (done ++ id ∷ []) k ≡ some c
          → get_elem?
              (set j (a (length done)) ordered)
              (below c ids + occurrences c (take k (done ++ id ∷ [])))
            ≡ some (a k)
      held k c f = elim (Bool-cases (ltb k (length done))) [
        | inl earlier ↦
            let l : k < length done = ltb→lt k (length done) earlier in
            let g : get_elem? done k ≡ some c =
              sym (get_elem?-append_left done (id ∷ []) k l) ∙ f in
            let front = take-append_left k done (id ∷ []) (omega arith) in
            rw front (
              get_elem?-set_other j (below c ids + occurrences c (take k done)) (a (length done))
                ordered (places_differ done rest id k c e g)
              ∙ inv.held k c g)
        | inr last ↦
            let bound = get_elem?_inside k (done ++ id ∷ []) c f in
            let eq : length done ≡ k =
              omega (arith, length-append done (id ∷ []), bound, ltb_false→le _ _ last) in
            let f' : get_elem? (done ++ id ∷ []) (length done) ≡ some c =
              subst (λ x. get_elem? (done ++ id ∷ []) x ≡ some c) (sym eq) f in
            let who : id ≡ c = ground (arith, get_elem?-last done id, f') in
            subst
              (λ x.
                get_elem? (set j (a (length done)) ordered)
                  (below c ids + occurrences c (take x (done ++ id ∷ [])))
                ≡ some (a x))
              eq
              (rw (take-length done (id ∷ [])) (
                subst
                  (λ x.
                    get_elem? (set j (a (length done)) ordered) (below x ids + occurrences x done)
                    ≡ some (a (length done)))
                  who (get_elem?-set_same j (a (length done)) ordered inside)))
      ]

  pub place_all-Placed :
      (at : ℕ → Option DedupAddress)
      → ((k : ℕ) → k < length ids → at k ≡ some (a k))
      → length ids < 2 ^ 32
      → (rest done positions : List ℕ) (ordered : List DedupAddress) → ids ≡ done ++ rest
      → All (λ id. id < count) rest
      → Placed done positions ordered
      → (positions1 : List ℕ) × (ordered1 : List DedupAddress) × (place_all at rest
            (length done)
            positions
            ordered
          ≡ some (positions1, ordered1))
        × Placed ids positions1 ordered1
  unfolding place_all
  place_all-Placed at found b [] done positions ordered e h inv = (
    positions,
    ordered,
    refl,
    subst (λ x. Placed x positions ordered) (sym (append-nil done) ∙ sym e) inv,
  )
  place_all-Placed at found b (id ∷ rest) done positions ordered e h inv =
      let (p1, o1, f, inv1) = place_one-Placed done rest positions ordered id e h.0 b inv in
      let here : at (length done) ≡ some (a (length done)) =
        found (length done) (omega (arith, ap length e, length-append done (id ∷ rest))) in
      let one_more : length (done ++ id ∷ []) ≡ suc (length done) =
        omega (arith, length-append done (id ∷ [])) in
      let (p2, o2, g, inv2) =
        place_all-Placed at found b rest (done ++ id ∷ []) p1 o1
          (e ∙ sym (append_assoc done (id ∷ []) rest)) h.1 inv1 in
      let g' : place_all at rest (suc (length done)) p1 o1 ≡ some (p2, o2) =
        subst (λ x. place_all at rest x p1 o1 ≡ some (p2, o2)) one_more g in
      (p2, o2, ground (arith, here, f, g'), inv2)
