-- ===== src/Clustering/Remap/Numbering.antt =====
-- The numbers that remapClusterIds gives: equal for equal parents, and 0, 1, 2, … without a gap.
use block_sci.Prelude.{
  ℕ, zero, suc, ◌+◌, ◌%◌, ◌^◌, ◌≤◌, ◌<◌, ◌≡◌, ◌≢◌, refl, sym, ap, ◌∙◌, subst, ◌⊎◌, ◌↔◌, inl, inr,
  false, true, List, [], ◌∷◌, some, ◌==◌, ==_iff, if◌then◌else◌, length, All, get_elem?, set,
  replicate, length-set, get_elem?-set_same, get_elem?-set_other, get_elem?_below, get_elem?_inside,
  get_elem?-replicate, length-replicate, set_back, Bool-cases, arith,
}
use block_sci.Clustering.Remap.{placeholder, remap_from, remap_cluster_ids}

-- The numbers given so far are below the count, and no two parents have the same.
record Numbers (ids : List ℕ) (count : ℕ) : Type 0 where
  below : (p v : ℕ) → get_elem? ids p ≡ some v → v ≢ placeholder → v < count
  apart :
      (p q v : ℕ) → get_elem? ids p ≡ some v → get_elem? ids q ≡ some v → v ≢ placeholder → p ≡ q

-- What the loop leaves: `new` and `total` are its results, `later` the last newClusterIds.
record Remapped (parents ids : List ℕ) (count : ℕ) (new : List ℕ) (total : ℕ) (later : List ℕ)
    : Type 0 where
  result : remap_from parents ids count ≡ some (new, total)
  numbers : Numbers later total
  keeps : (p v : ℕ) → get_elem? ids p ≡ some v → v ≢ placeholder → get_elem? later p ≡ some v
  size : length new ≡ length parents
  maps :
      (i p : ℕ)
      → get_elem? parents i ≡ some p
      → (v : ℕ) × (get_elem? new i ≡ some v) × (get_elem? later p ≡ some v) × (v ≢ placeholder)
  reached : (k : ℕ) → k < total → (k < count) ⊎ ((i : ℕ) × (get_elem? new i ≡ some k))

Numbers-set :
    (ids : List ℕ) (count p : ℕ)
    → Numbers ids count
    → count < placeholder
    → p < length ids
    → Numbers (set p count ids) (count + 1)
Numbers-set ids count p inv c h = record {
  below = λ q v e n. elim (Bool-cases (p == q)) [
    | inl same ↦ omega (arith, at q v same e)
    | inr other ↦ omega (arith, inv.below q v (away q v other e) n)
  ];
  apart = λ q r v e f n. elim (Bool-cases (p == q)) [
    | inl same ↦ elim (Bool-cases (p == r)) [
      | inl same2 ↦ sym ((==_iff p q).0 same) ∙ (==_iff p r).0 same2
      | inr other ↦ absurd (omega (arith, at q v same e, inv.below r v (away r v other f) n))
    ]
    | inr other ↦ elim (Bool-cases (p == r)) [
      | inl same ↦ absurd (omega (arith, at r v same f, inv.below q v (away q v other e) n))
      | inr other2 ↦ inv.apart q r v (away q v other e) (away r v other2 f) n
    ]
  ];
}
  where
    at : (q v : ℕ) → (p == q) ≡ true → get_elem? (set p count ids) q ≡ some v → v ≡ count
    at q v same e =
        let here : get_elem? (set p count ids) q ≡ some count =
          subst (λ x. get_elem? (set p count ids) x ≡ some count) ((==_iff p q).0 same)
            (get_elem?-set_same p count ids h) in
        ground (arith, here, e)

    away :
        (q v : ℕ)
        → (p == q) ≡ false
        → get_elem? (set p count ids) q ≡ some v
        → get_elem? ids q ≡ some v
    away q v other e =
        sym (get_elem?-set_other p q count ids (λ s. ground (arith, (==_iff p q).1 s, other))) ∙ e

-- One turn of the loop in front of the rest.
step :
    (p : ℕ) (parents ids : List ℕ) (count old id c1 : ℕ) (new : List ℕ) (total : ℕ) (later : List ℕ)
    → get_elem? ids p ≡ some old
    → id ≡ (if old == placeholder then count else old)
    → c1 ≡ (if old == placeholder then (count + 1) % 2 ^ 32 else count)
    → id ≢ placeholder
    → c1 ≤ count + 1
    → ((c1 ≡ count) ⊎ (id ≡ count))
    → Remapped parents (set p id ids) c1 new total later
    → Remapped (p ∷ parents) ids count (id ∷ new) total later
unfolding remap_from
step p parents ids count old id c1 new total later e ei ec n lc fresh r = record {
  result = ground (arith, e, ei, ec, r.result);
  numbers = r.numbers;
  keeps = λ q v f m. r.keeps q v (kept q v f m) m;
  size = omega (arith, r.size);
  maps = maps;
  reached = reached;
}
  where
    here : get_elem? (set p id ids) p ≡ some id
    here = get_elem?-set_same p id ids (get_elem?_inside p ids old e)

    kept :
        (q v : ℕ) → get_elem? ids q ≡ some v → v ≢ placeholder → get_elem? (set p id ids) q ≡ some v
    kept q v f m = elim (Bool-cases (p == q)) [
      | inl same ↦
          let same_old : get_elem? ids p ≡ some v =
            subst (λ x. get_elem? ids x ≡ some v) (sym ((==_iff p q).0 same)) f in
          let value : id ≡ v = ground (arith, e, same_old, ei) in
          subst (λ x. get_elem? (set p id ids) x ≡ some v) ((==_iff p q).0 same)
            (here ∙ ap some value)
      | inr other ↦
          get_elem?-set_other p q id ids (λ s. ground (arith, (==_iff p q).1 s, other)) ∙ f
    ]

    maps :
        (i q : ℕ)
        → get_elem? (p ∷ parents) i ≡ some q
        → (v : ℕ) × (get_elem? (id ∷ new) i ≡ some v)
          × (get_elem? later q ≡ some v)
          × (v ≢ placeholder)
    maps zero q f =
        let same : p ≡ q = ground (arith, f) in
        (id, refl, subst (λ x. get_elem? later x ≡ some id) same (r.keeps p id here n), n)
    maps (suc i) q f = r.maps i q f

    reached : (k : ℕ) → k < total → (k < count) ⊎ ((i : ℕ) × (get_elem? (id ∷ new) i ≡ some k))
    reached k h = elim (r.reached k h) [
      | inl less ↦ elim fresh [
        | inl s ↦ inl (omega arith)
        | inr s ↦ elim (Bool-cases (k == count)) [
          | inl last ↦ inr (zero, ap some (s ∙ sym ((==_iff k count).0 last)))
          | inr other ↦ inl (ground (arith, other, less, lc))
        ]
      ]
      | inr (i, f) ↦ inr (suc i, f)
    ]

remap_from_lem :
    (parents ids : List ℕ) (count : ℕ)
    → Numbers ids count
    → All (λ p. p < length ids) parents
    → count + length parents ≤ placeholder
    → (new : List ℕ) × (total : ℕ) × (later : List ℕ) × Remapped parents ids count new total later
unfolding remap_from
remap_from_lem [] ids count inv a h = (
  [],
  count,
  ids,
  record {
    result = refl;
    numbers = inv;
    keeps = λ p v e n. e;
    size = refl;
    maps = λ i p e. absurd (ground (arith, e));
    reached = λ k l. inl l;
  },
)
remap_from_lem (p ∷ parents) ids count inv a h =
    let (old, e) = get_elem?_below p ids a.0 in
    elim (Bool-cases (old == placeholder)) [
      | inl new ↦
          let wrap : (count + 1) % 2 ^ 32 ≡ count + 1 = omega arith in
          let (ns, total, later, r) =
            remap_from_lem parents (set p count ids) (count + 1)
              (Numbers-set ids count p inv (omega arith) a.0) (rw (length-set p count ids) a.1)
              (omega arith) in
          (
            count ∷ ns,
            total,
            later,
            step p parents ids count old count (count + 1) ns total later e (rw new refl)
                (rw new (sym wrap)) (omega arith) (omega arith) (inr refl) r,
          )
      | inr seen ↦
          let n : old ≢ placeholder = λ s. ground (arith, seen, s) in
          let (ns, total, later, r) =
            remap_from_lem parents (set p old ids) count
              (subst (λ x. Numbers x count) (sym (set_back p old ids e)) inv)
              (rw (length-set p old ids) a.1) (omega arith) in
          (
            old ∷ ns,
            total,
            later,
            step p parents ids count old old count ns total later e (rw seen refl) (rw seen refl) n
                (omega arith) (inl refl) r,
          )
    ]

-- remapClusterIds on fewer than 2 ^ 32 - 1 parents that are indexes: two entries become equal just
-- when they were, all are below the returned count, and every number below it is used.
pub remap_cluster_ids_lem :
    (parents : List ℕ)
    → All (λ p. p < length parents) parents
    → length parents < 2 ^ 32
    → (ids : List ℕ) × (count : ℕ) × (remap_cluster_ids parents ≡ some (ids, count))
      × (length ids ≡ length parents)
      × ((i j p q : ℕ)
          → get_elem? parents i ≡ some p
          → get_elem? parents j ≡ some q
          → (get_elem? ids i ≡ get_elem? ids j) ↔ (p ≡ q))
      × ((i v : ℕ) → get_elem? ids i ≡ some v → v < count)
      × ((v : ℕ) → v < count → (i : ℕ) × (get_elem? ids i ≡ some v))
unfolding remap_cluster_ids
remap_cluster_ids_lem parents a small =
    let blank = replicate (length parents) placeholder in
    let (ids, count, later, r) =
      remap_from_lem parents blank 0
        (record {
          below = λ p v e n. absurd (n (sym (get_elem?-replicate _ p placeholder v e)));
          apart = λ p q v e f n. absurd (n (sym (get_elem?-replicate _ p placeholder v e)));
        })
        (rw (length-replicate (length parents) placeholder) a) (omega arith) in
    (
      ids,
      count,
      r.result,
      r.size,
      λ i j p q e f.
          let (v, vi, vp, vn) = r.maps i p e in
          let (w, wj, wq, wn) = r.maps j q f in
          (
            λ s.
                let same : v ≡ w = ground (arith, s, vi, wj) in
                r.numbers.apart p q v vp (wq ∙ ap some (sym same)) vn,
            λ s.
                let there : get_elem? later q ≡ some v =
                  subst (λ x. get_elem? later x ≡ some v) s vp in
                let same : v ≡ w = ground (arith, there, wq) in vi ∙ ap some same ∙ sym wj,
          ),
      λ i v e.
          let (p, f) =
            get_elem?_below i parents (subst (λ x. i < x) r.size (get_elem?_inside i ids v e)) in
          let (w, wi, wp, wn) = r.maps i p f in
          let same : w ≡ v = ground (arith, wi, e) in
          subst (λ x. x < count) same (r.numbers.below p w wp wn),
      λ v h. elim (r.reached v h) [ inl none_yet ↦ absurd (omega arith) | inr found ↦ found ],
    )
