-- ===== src/Clustering/Layout/Offsets.antt =====
-- The positions that main computes: for each cluster, how many scripts the earlier ones have.
use block_sci.Prelude.{
  ℕ, zero, suc, ◌+◌, ◌%◌, ◌^◌, ◌≤◌, ◌<◌, ◌≡◌, refl, sym, ap, ◌∙◌, subst, inl, inr, List, [], ◌∷◌,
  some, ◌==◌, ==_iff, length, All, get_elem?, set, replicate, length-set, get_elem?-set_same,
  get_elem?-set_other, get_elem?_below, get_elem?_inside, All-mono, get_elem?-replicate,
  length-replicate, Bool-cases, arith,
}
use block_sci.Clustering.Layout.{count_members, sum_from, sum_positions}
use block_sci.Clustering.Layout.Counts.{occurrences, below, below-suc, below_zero, below-le-length}

-- Each position grows by the number of its cluster's members, and the first one stays.
count_members_lem :
    (ids positions : List ℕ) (bound : ℕ)
    → All (λ id. id + 1 < length positions) ids
    → ((k n : ℕ) → get_elem? positions k ≡ some n → n ≤ bound)
    → bound + length ids < 2 ^ 32
    → (after : List ℕ) × (count_members ids positions ≡ some after)
      × (length after ≡ length positions)
      × (get_elem? after 0 ≡ get_elem? positions 0)
      × ((c n : ℕ)
          → get_elem? positions (c + 1) ≡ some n
          → get_elem? after (c + 1) ≡ some (n + occurrences c ids))
unfolding count_members
count_members_lem [] positions bound a h b =
    (positions, refl, refl, refl, λ c n e. e ∙ ap some (omega arith))
count_members_lem (id ∷ ids) positions bound a h b =
    let (m, e) = get_elem?_below (id + 1) positions a.0 in
    let wrap : (m + 1) % 2 ^ 32 ≡ m + 1 = omega (arith, h (id + 1) m e) in
    let next = set (id + 1) (m + 1) positions in
    let size = length-set (id + 1) (m + 1) positions in
    let here = get_elem?-set_same (id + 1) (m + 1) positions a.0 in
    let bounded : (k n : ℕ) → get_elem? next k ≡ some n → n ≤ bound + 1 = λ k n f.
      elim (Bool-cases (id + 1 == k)) [
        | inl same ↦
            let there : get_elem? next k ≡ some (m + 1) =
              subst (λ x. get_elem? next x ≡ some (m + 1)) ((==_iff (id + 1) k).0 same) here in
            ground (arith, there, f, h (id + 1) m e)
        | inr other ↦
            let old : get_elem? positions k ≡ some n =
              sym (
                get_elem?-set_other (id + 1) k (m + 1) positions
                  λ s. ground (arith, (==_iff (id + 1) k).1 s, other))
              ∙ f in
            omega (arith, h k n old)
      ] in
    let (after, f, n, first, rest) =
      count_members_lem ids next (bound + 1) (rw size a.1) bounded (omega arith) in
    (
      after,
      ground (arith, e, wrap, f),
      n ∙ size,
      first ∙ get_elem?-set_other (id + 1) 0 (m + 1) positions (λ s. omega arith),
      λ c k g. elim (Bool-cases (id == c)) [
        | inl same ↦
            let eq = (==_iff id c).0 same in
            let old : get_elem? positions (id + 1) ≡ some k =
              subst (λ x. get_elem? positions (x + 1) ≡ some k) (sym eq) g in
            let value : m ≡ k = ground (arith, e, old) in
            rest c (m + 1) (subst (λ x. get_elem? next (x + 1) ≡ some (m + 1)) eq here)
            ∙ ap some (ground (arith, value, same))
        | inr other ↦
            rest c k (
              get_elem?-set_other (id + 1) (c + 1) (m + 1) positions (λ s. ground (arith, s, other))
              ∙ g)
            ∙ ap some (ground (arith, other))
      ],
    )

-- Each sum is the one before with the next number.
get_elem?-sum_from :
    (ns : List ℕ) (previous k n : ℕ) (f : ℕ → ℕ)
    → get_elem? ns k ≡ some n
    → previous ≡ f 0
    → ((j m : ℕ) → get_elem? ns j ≡ some m → f (suc j) ≡ f j + m)
    → ((j : ℕ) → f j < 2 ^ 32)
    → get_elem? (sum_from previous ns) k ≡ some (f (suc k))
get_elem?-sum_from [] previous k n f e p s b = absurd (ground (arith, e))
get_elem?-sum_from (m ∷ ns) previous zero n f e p s b = ap some (omega (arith, s 0 m refl, b 1))
get_elem?-sum_from (m ∷ ns) previous (suc k) n f e p s b =
    get_elem?-sum_from ns ((m + previous) % 2 ^ 32) k n (λ j. f (suc j)) e
      (omega (arith, s 0 m refl, b 1)) (λ j q g. s (suc j) q g) (λ j. b (suc j))

length-sum_from : (ns : List ℕ) (previous : ℕ) → length (sum_from previous ns) ≡ length ns
length-sum_from [] previous = refl
length-sum_from (n ∷ ns) previous = ap suc (length-sum_from ns ((n + previous) % 2 ^ 32))

-- The sums of counts are the numbers of smaller entries.
sum_positions_lem :
    (ids counted : List ℕ) (count : ℕ)
    → length counted ≡ count + 1
    → length ids < 2 ^ 32
    → get_elem? counted 0 ≡ some 0
    → ((c : ℕ) → c < count → get_elem? counted (suc c) ≡ some (occurrences c ids))
    → (length (sum_positions counted) ≡ count + 1)
      × ((c : ℕ) → c ≤ count → get_elem? (sum_positions counted) c ≡ some (below c ids))
unfolding sum_positions
sum_positions_lem ids [] count n b first rest = absurd (omega arith)
sum_positions_lem ids (m ∷ ns) count n b first rest = (ap suc (length-sum_from ns m) ∙ n, sums)
  where
    zero_first : m ≡ 0
    zero_first = ground (arith, first)

    sums : (c : ℕ) → c ≤ count → get_elem? (m ∷ sum_from m ns) c ≡ some (below c ids)
    sums zero h = ap some (zero_first ∙ sym (below_zero ids))
    sums (suc c) h =
        get_elem?-sum_from ns m c (occurrences c ids) (λ j. below j ids) (rest c (omega arith))
          (zero_first ∙ sym (below_zero ids))
          (λ j k e.
            let inside : j < count = omega (arith, n, get_elem?_inside j ns k e) in
            let same : occurrences j ids ≡ k = ground (arith, e, rest j inside) in
            below-suc j ids ∙ ap (λ x. below j ids + x) same)
          (λ j. omega (arith, below-le-length j ids))

pub positions_lem :
    (ids : List ℕ) (count : ℕ)
    → All (λ id. id < count) ids
    → length ids < 2 ^ 32
    → (counted : List ℕ) × (count_members ids (replicate (count + 1) 0) ≡ some counted)
      × (length (sum_positions counted) ≡ count + 1)
      × ((c : ℕ) → c ≤ count → get_elem? (sum_positions counted) c ≡ some (below c ids))
positions_lem ids count a b =
    let zeros : List ℕ = replicate (count + 1) 0 in
    let size : length zeros ≡ count + 1 = length-replicate (count + 1) 0 in
    let is_zero : (k : ℕ) → k < length zeros → get_elem? zeros k ≡ some 0 = λ k h.
      let (n, e) = get_elem?_below k zeros h in
      e ∙ ap some (sym (get_elem?-replicate (count + 1) k 0 n e)) in
    let (counted, e, n, first, rest) =
      count_members_lem ids zeros 0
        (All-mono (λ id. id < count) (λ id. id + 1 < length zeros) ids (λ id h. omega (arith, size))
          a)
        (λ k n f. omega (arith, get_elem?-replicate (count + 1) k 0 n f)) (omega arith) in
    let next : (c : ℕ) → c + 1 ≡ suc c = λ c. omega arith in
    let (size2, sums) =
      sum_positions_lem ids counted count (n ∙ size) b (first ∙ is_zero 0 (omega (arith, size)))
        (λ c h.
          subst (λ x. get_elem? counted x ≡ some (occurrences c ids)) (next c)
            (rest c 0 (is_zero (c + 1) (omega (arith, size))) ∙ ap some (omega arith))) in
    (counted, e, size2, sums)
