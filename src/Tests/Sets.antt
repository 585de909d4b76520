-- ===== src/Tests/Sets.antt =====
-- Lists of labels as the disjoint sets that the clusterer uses.
use block_sci.Prelude.{
  ℕ, zero, suc, ◌<◌, ◌≡◌, refl, ap, ◌⊎◌, ◌↔◌, List, [], ◌∷◌, map, Option, none, some, ltb, lt→ltb,
  ◌==◌, if◌then◌else◌, length, get_elem?, get_elem?_below, arith,
}
use block_sci.Clustering.{DisjointSets}
use block_sci.Clustering.Segments.{range}
use block_sci.Clustering.Segments.Cover.{length-range}
use block_sci.Clustering.Connected.Ids.{get_elem?-range}

abbrev pub clip : ℕ → Option ℕ → ℕ
clip n none = 0
clip n (some x) = if ltb x n then x else 0

-- The label of an element; one that is no element's number counts as 0.
abbrev pub label : ℕ → List ℕ → ℕ
label i s = clip (length s) (get_elem? s i)

abbrev pub relabel : ℕ → ℕ → ℕ → ℕ
relabel from to x = if x == from then to else x

abbrev pub unite_labels : ℕ → ℕ → List ℕ → List ℕ
unite_labels a b s = map (λ x. relabel (label b s) (label a s) (clip (length s) (some x))) s

pub length-map : (f : ℕ → ℕ) (s : List ℕ) → length (map f s) ≡ length s
length-map f [] = refl
length-map f (x ∷ s) = ap suc (length-map f s)

get_elem?-map :
    (f : ℕ → ℕ) (s : List ℕ) (i x : ℕ) → get_elem? s i ≡ some x → get_elem? (map f s) i ≡ some (f x)
get_elem?-map f [] i x e = absurd (ground (arith, e))
get_elem?-map f (y ∷ s) zero x e = ap some (ap f (ground (arith, e)))
get_elem?-map f (y ∷ s) (suc i) x e = get_elem?-map f s i x e

clip_bound : (n : ℕ) (o : Option ℕ) → 0 < n → clip n o < n
clip_bound n none h = h
clip_bound n (some x) h = ground arith

pub label_bound : (i : ℕ) (s : List ℕ) → i < length s → label i s < length s
label_bound i s h = clip_bound (length s) (get_elem? s i) (omega arith)

-- Uniting acts on the labels.
pub label-unite :
    (a b i : ℕ) (s : List ℕ)
    → a < length s
    → i < length s
    → label i (unite_labels a b s) ≡ relabel (label b s) (label a s) (label i s)
label-unite a b i s ha hi =
    let (x, e) = get_elem?_below i s hi in
    let there =
      get_elem?-map (λ y. relabel (label b s) (label a s) (clip (length s) (some y))) s i x e in
    let size = length-map (λ y. relabel (label b s) (label a s) (clip (length s) (some y))) s in
    let same : label i s ≡ clip (length s) (some x) = ap (clip (length s)) e in
    let bound : relabel (label b s) (label a s) (clip (length s) (some x)) < length s =
      relabel_bound (label b s) (label a s) (clip (length s) (some x)) (length s)
        (label_bound a s ha) (clip_bound (length s) (some x) (omega arith)) in
    rw (there, size, lt→ltb _ _ bound, same) refl
  where
    relabel_bound : (from to x n : ℕ) → to < n → x < n → relabel from to x < n
    relabel_bound from to x n h l = ground arith

pub relabel_iff :
    (la lb x y : ℕ)
    → (relabel lb la x ≡ relabel lb la y)
      ↔ ((x ≡ y) ⊎ ((x ≡ la) × (y ≡ lb)) ⊎ ((x ≡ lb) × (y ≡ la)))
relabel_iff la lb x y = ground arith

pub label-range : (i n : ℕ) → i < n → label i (range 0 n) ≡ i
label-range i n h = rw (get_elem?-range 0 n i h, length-range 0 n) (ground arith)

abbrev pub label_sets : DisjointSets
label_sets = record {
  Sets = List ℕ;
  create = range 0;
  size = length;
  unite = unite_labels;
  find = λ i s. (label i s, s);
  size-create = length-range 0;
  size-unite = λ a b s. length-map _ s;
  find-create = label-range;
  find_bound = label_bound;
  find-find = λ i j s. refl;
  find-unite = λ a b i j s ha hb hi hj.
      rw (label-unite a b i s ha hi, label-unite a b j s ha hj)
        (relabel_iff (label a s) (label b s) (label i s) (label j s));
}
