-- ===== src/Clustering/Connected.antt =====
-- The clusters: two indexes have the same number just when a path of links joins them.
pub mod Ids
pub mod Whole
use block_sci.Prelude.{
  ℕ, zero, suc, ◌+◌, ◌^◌, ◌≤◌, ◌<◌, ◌≡◌, refl, sym, ap, ◌∙◌, subst, ◌⊎◌, ◌↔◌, inl, inr, List, [],
  ◌∷◌, map, Option, some, length, concat, All, get_elem?, arith,
}
use block_sci.Chain.Types.{Address}
use block_sci.Heuristics.Candidates.{In}
use block_sci.Clustering.{
  DisjointSets, Source, link_of, linked_pairs, unite_all, find_all, parents_of, get_clusters,
}
use block_sci.Clustering.Segments.{range}
use block_sci.Clustering.Segments.Cover.{segment_work-range}

-- The least equivalence with a relation and the links.
pub data Closure (R : ℕ → ℕ → Type 0) (links : List (ℕ × ℕ)) : ℕ → ℕ → Type 0 where
  based : (i j : ℕ) → R i j → Closure R links i j
  linked : (i j : ℕ) → In (i, j) links → Closure R links i j
  back : (i j : ℕ) → Closure R links i j → Closure R links j i
  join : (i j k : ℕ) → Closure R links i j → Closure R links j k → Closure R links i k

abbrev pub Connected : List (ℕ × ℕ) → ℕ → ℕ → Type 0
Connected links = Closure (λ i j. i ≡ j) links

abbrev pub InRange : ℕ → ℕ × ℕ → Type 0
InRange n (a, b) = (a < n) × (b < n)

module _ (D : DisjointSets) where
  abbrev pub root : ℕ → D.Sets → ℕ
  root i s = (D.find i s).0

  abbrev pub SameRoot : D.Sets → ℕ → ℕ → Type 0
  SameRoot s i j = (i < D.size s) × (j < D.size s) × (root i s ≡ root j s)

  pub size-unite_all : (links : List (ℕ × ℕ)) (s : D.Sets) → D.size (unite_all D links s) ≡ D.size s
  unfolding unite_all
  size-unite_all [] s = refl
  size-unite_all ((a, b) ∷ links) s = size-unite_all links (D.unite a b s) ∙ D.size-unite a b s

  -- A set stays together when others are united.
  unite_all_keeps :
      (links : List (ℕ × ℕ)) (s : D.Sets) (i j : ℕ)
      → All (InRange (D.size s)) links
      → SameRoot s i j
      → root i (unite_all D links s) ≡ root j (unite_all D links s)
  unfolding unite_all
  unite_all_keeps [] s i j r (hi, hj, e) = e
  unite_all_keeps ((a, b) ∷ links) s i j ((ha, hb), r) (hi, hj, e) =
      let same = D.size-unite a b s in
      unite_all_keeps links (D.unite a b s) i j (rw same r)
        (rw same hi, rw same hj, (D.find-unite a b i j s ha hb hi hj).1 (inl e))

  unite_all_links :
      (links : List (ℕ × ℕ)) (s : D.Sets) (i j : ℕ)
      → All (InRange (D.size s)) links
      → In (i, j) links
      → root i (unite_all D links s) ≡ root j (unite_all D links s)
  unfolding unite_all
  unite_all_links [] s i j r m = absurd m
  unite_all_links ((a, b) ∷ links) s i j ((ha, hb), r) m =
      let same = D.size-unite a b s in
      elim m [
        | inl e ↦
            let ei : i ≡ a = ap (λ (x : ℕ × ℕ). x.0) e in
            let ej : j ≡ b = ap (λ (x : ℕ × ℕ). x.1) e in
            rw (ei, ej)
              (unite_all_keeps links (D.unite a b s) a b (rw same r) (
                rw same ha,
                rw same hb,
                (D.find-unite a b a b s ha hb ha hb).1 (inr (inl (refl, refl))),
              ))
        | inr m ↦ unite_all_links links (D.unite a b s) i j (rw same r) m
      ]

  pub sound :
      (links : List (ℕ × ℕ)) (s : D.Sets) (i j : ℕ)
      → All (InRange (D.size s)) links
      → Connected links i j
      → root i (unite_all D links s) ≡ root j (unite_all D links s)
  sound links s i j r (based _ _ e) = ap (λ x. root x (unite_all D links s)) e
  sound links s i j r (linked _ _ m) = unite_all_links links s i j r m
  sound links s i j r (back _ _ c) = sym (sound links s j i r c)
  sound links s i j r (join _ k _ c d) = sound links s i k r c ∙ sound links s k j r d

  -- What one more union joins, the link joins.
  weaken :
      (a b : ℕ) (links : List (ℕ × ℕ)) (s : D.Sets) (i j : ℕ)
      → a < D.size s
      → b < D.size s
      → Closure (SameRoot (D.unite a b s)) links i j
      → Closure (SameRoot s) ((a, b) ∷ links) i j
  weaken a b links s i j ha hb (linked _ _ m) = linked i j (inr m)
  weaken a b links s i j ha hb (back _ _ c) = back j i (weaken a b links s j i ha hb c)
  weaken a b links s i j ha hb (join _ k _ c d) =
      join i k j (weaken a b links s i k ha hb c) (weaken a b links s k j ha hb d)
  weaken a b links s i j ha hb (based _ _ (hi, hj, e)) =
      let same = D.size-unite a b s in
      let li : i < D.size s = rw same at hi in
      let lj : j < D.size s = rw same at hj in
      let ab = linked a b (inl refl) in
      elim ((D.find-unite a b i j s ha hb li lj).0 e) [
        | inl e ↦ based i j (li, lj, e)
        | inr (inl (e, f)) ↦
            join i a j (based i a (li, ha, e)) (join a b j ab (based b j (hb, lj, sym f)))
        | inr (inr (e, f)) ↦
            join i b j (based i b (li, hb, e))
              (join b a j (back a b ab) (based a j (ha, lj, sym f)))
      ]

  pub complete :
      (links : List (ℕ × ℕ)) (s : D.Sets) (i j : ℕ)
      → All (InRange (D.size s)) links
      → i < D.size s
      → j < D.size s
      → root i (unite_all D links s) ≡ root j (unite_all D links s)
      → Closure (SameRoot s) links i j
  unfolding unite_all
  complete [] s i j r hi hj e = based i j (hi, hj, e)
  complete ((a, b) ∷ links) s i j ((ha, hb), r) hi hj e =
      let same = D.size-unite a b s in
      weaken a b links s i j ha hb
        (complete links (D.unite a b s) i j (rw same r) (rw same hi) (rw same hj) e)

  pub created :
      (n : ℕ) (links : List (ℕ × ℕ)) (i j : ℕ)
      → Closure (SameRoot (D.create n)) links i j
      → Connected links i j
  created n links i j (linked _ _ m) = linked i j m
  created n links i j (back _ _ c) = back j i (created n links j i c)
  created n links i j (join _ k _ c d) = join i k j (created n links i k c) (created n links k j d)
  created n links i j (based _ _ (hi, hj, e)) =
      let li : i < n = rw (D.size-create n) at hi in
      let lj : j < n = rw (D.size-create n) at hj in
      based i j (sym (D.find-create i n li) ∙ e ∙ D.find-create j n lj)
