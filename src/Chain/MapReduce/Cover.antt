-- ===== src/Chain/MapReduce/Cover.antt =====
-- Which blocks the segments of segmentChain have, and when its loop has no end.
use native.Mathlib.Nat.{div-eq_of_lt}
use block_sci.Chain.MapReduce.{
  Block, end_tx_index, last_end, txs_from, segments, endless, lower_bound, at_iterator, join_last,
  add_rest, segment_loop, segment_chain,
}
use block_sci.Prelude.{
  ℕ, zero, suc, ◌+◌, ◌*◌, ◌/◌, ◌^◌, ◌≤◌, ◌<◌, ◌≡◌, refl, sym, ap, ◌∙◌, subst, inl, inr, List, [],
  ◌∷◌, ◌++◌, Option, some, ltb, ltb→lt, ltb_false→le, lt→ltb, ltb-false, ◌==◌, length, concat,
  Bool-cases, append_assoc, append-nil, arith,
}

concat-append : (xss yss : List (List Block)) → concat (xss ++ yss) ≡ concat xss ++ concat yss
concat-append [] yss = refl
concat-append (xs ∷ xss) yss = ap (λ l. xs ++ l) (concat-append xss yss) ∙ sym (append_assoc xs _ _)

pub concat_back :
    (xss : List (List Block)) (xs : List Block) → concat (xss ++ (xs ∷ [])) ≡ concat xss ++ xs
concat_back xss xs = concat-append xss (xs ∷ []) ∙ ap (λ l. concat xss ++ l) (append-nil xs)

concat-join_last :
    (xss : List (List Block)) (rest : List Block) → concat (join_last xss rest) ≡ concat xss ++ rest
unfolding join_last
concat-join_last [] rest = append-nil rest
concat-join_last (xs ∷ []) rest =
    append-nil (xs ++ rest) ∙ ap (λ l. l ++ rest) (sym (append-nil xs))
concat-join_last (xs ∷ ys ∷ xss) rest =
    ap (λ l. xs ++ l) (concat-join_last (ys ∷ xss) rest) ∙ sym (append_assoc xs _ rest)

concat-add_rest :
    (count : ℕ) (xss : List (List Block)) (rest : List Block)
    → concat (add_rest count xss rest) ≡ concat xss ++ rest
unfolding add_rest
concat-add_rest count xss rest = elim (Bool-cases (length xss == count)) [
  | inl full ↦ rw full (concat-join_last xss rest)
  | inr room ↦ rw room (concat_back xss rest)
]

pub lower_bound-append :
    (n : ℕ) (bs : List Block) → (lower_bound n bs).0 ++ (lower_bound n bs).1 ≡ bs
unfolding lower_bound
lower_bound-append n [] = refl
lower_bound-append n (b ∷ bs) = elim (Bool-cases (ltb b.first_tx_index n)) [
  | inl below ↦ rw below (ap (λ (l : List Block). b ∷ l) (lower_bound-append n bs))
  | inr above ↦ rw above refl
]

-- The blocks follow each other from one transaction to another, and none of them is empty.
abbrev pub Follow : ℕ → List Block → ℕ → Type 0
Follow first [] last = first ≡ last
Follow first (b ∷ bs) last =
    (b.first_tx_index ≡ first) × (0 < b.tx_count) × Follow (end_tx_index b) bs last

lower_bound-Follow :
    (n first last : ℕ) (bs : List Block)
    → Follow first bs last
    → (next : ℕ) × Follow next (lower_bound n bs).1 last × (length (lower_bound n bs).1 ≤ length bs)
unfolding lower_bound
lower_bound-Follow n first last [] f = (first, f, omega arith)
lower_bound-Follow n first last (b ∷ bs) (e, p, f) = elim (Bool-cases (ltb b.first_tx_index n)) [
  | inl below ↦
      let (next, g, less) = lower_bound-Follow n (end_tx_index b) last bs f in
      rw below (next, g, omega arith)
  | inr above ↦ rw above (first, (e, p, f), omega arith)
]

-- The bound is behind the first block, so the iterator moves.
lower_bound-cons :
    (n first last : ℕ) (b : Block) (bs : List Block)
    → b.first_tx_index < n
    → Follow first (b ∷ bs) last
    → (next : ℕ) × Follow next (lower_bound n (b ∷ bs)).1 last
      × (length (lower_bound n (b ∷ bs)).1 ≤ length bs)
unfolding lower_bound
lower_bound-cons n first last b bs h (e, p, f) =
    rw (lt→ltb b.first_tx_index n h) (lower_bound-Follow n (end_tx_index b) last bs f)

-- One round that goes on.
segment_loop_next :
    (last_tx total count : ℕ) (behind : Option Block) (rounds : ℕ) (found : List (List Block))
    (b : Block) (bs : List Block)
    → total < txs_from last_tx b.first_tx_index * count
    → segment_loop last_tx total count behind (suc rounds) found (b ∷ bs)
      ≡ segment_loop last_tx total count behind rounds
          (found ++ ((lower_bound (b.first_tx_index + total / count) (b ∷ bs)).0 ∷ []))
          (lower_bound (b.first_tx_index + total / count) (b ∷ bs)).1
unfolding segment_loop at_iterator
segment_loop_next last_tx total count behind rounds found b bs h =
    ground (arith, lt→ltb total (txs_from last_tx b.first_tx_index * count) h)

-- None is left at the end.
txs_from_end : (n : ℕ) → txs_from n n ≡ 0
unfolding txs_from
txs_from_end n = omega arith

module _ (last_tx total count : ℕ) (behind : Block) (ends : behind.first_tx_index ≡ last_tx) where
  segment_loop_ends :
      (rounds : ℕ) (found : List (List Block)) (b : Block) (bs : List Block)
      → txs_from last_tx b.first_tx_index * count ≤ total
      → segment_loop last_tx total count (some behind) (suc rounds) found (b ∷ bs)
        ≡ segments (add_rest count found (b ∷ bs))
  unfolding segment_loop at_iterator
  segment_loop_ends rounds found b bs h =
      ground (arith, ltb-false total (txs_from last_tx b.first_tx_index * count) h)

  segment_loop_behind :
      (rounds : ℕ) (found : List (List Block))
      → segment_loop last_tx total count (some behind) (suc rounds) found []
        ≡ segments (add_rest count found [])
  unfolding segment_loop at_iterator
  segment_loop_behind rounds found =
      let none_left : txs_from last_tx behind.first_tx_index ≡ 0 =
        ap (txs_from last_tx) ends ∙ txs_from_end last_tx in
      let nothing : txs_from last_tx behind.first_tx_index * count ≡ 0 =
        subst (λ n. n * count ≡ 0) (sym none_left) (omega arith) in
      ground (arith, ltb-false total (txs_from last_tx behind.first_tx_index * count) (omega arith))

  segment_loop_covers :
      (rounds first : ℕ) (found : List (List Block)) (rest : List Block)
      → 1 ≤ total / count
      → Follow first rest last_tx
      → length rest < rounds
      → (ss : List (List Block)) × (segment_loop last_tx total count (some behind) rounds found rest
          ≡ segments ss)
        × (concat ss ≡ concat found ++ rest)
  segment_loop_covers zero first found rest step f few = absurd (omega arith)
  segment_loop_covers (suc rounds) first found [] step f few =
      (add_rest count found [], segment_loop_behind rounds found, concat-add_rest count found [])
  segment_loop_covers (suc rounds) first found (b ∷ bs) step f few =
      elim (Bool-cases (ltb total (txs_from last_tx b.first_tx_index * count))) [
        | inl goes_on ↦
            let n = b.first_tx_index + total / count in
            let (next, g, less) = lower_bound-cons n first last_tx b bs (omega arith) f in
            let (ss, done, all) =
              segment_loop_covers rounds next (found ++ ((lower_bound n (b ∷ bs)).0 ∷ []))
                (lower_bound n (b ∷ bs)).1 step g (omega arith) in
            (
              ss,
              segment_loop_next last_tx total count (some behind) rounds found b bs
                    (ltb→lt _ _ goes_on)
                  ∙ done,
              all
                  ∙ ap (λ l. l ++ (lower_bound n (b ∷ bs)).1)
                      (concat_back found (lower_bound n (b ∷ bs)).0)
                  ∙ append_assoc (concat found) _ _
                  ∙ ap (λ l. concat found ++ l) (lower_bound-append n (b ∷ bs)),
            )
        | inr stops ↦ (
          add_rest count found (b ∷ bs),
          segment_loop_ends rounds found b bs (ltb_false→le _ _ stops),
          concat-add_rest count found (b ∷ bs),
        )
      ]

-- With as many transactions as segments, or more, segmentChain ends, and its segments have the blocks
-- of the range in order.
pub segment_chain_covers :
    (b : Block) (bs : List Block) (behind : Block) (count : ℕ)
    → Follow b.first_tx_index (b ∷ bs) (last_end (b ∷ bs))
    → behind.first_tx_index ≡ last_end (b ∷ bs)
    → 1 ≤ (txs_from (last_end (b ∷ bs)) b.first_tx_index) / count
    → (ss : List (List Block)) × (segment_chain (b ∷ bs) (some behind) count ≡ segments ss)
      × (concat ss ≡ b ∷ bs)
unfolding segment_chain
segment_chain_covers b bs behind count f ends step =
    segment_loop_covers (last_end (b ∷ bs)) (txs_from (last_end (b ∷ bs)) b.first_tx_index) count
      behind ends (suc (suc (length bs))) b.first_tx_index [] (b ∷ bs) step f (omega arith)

lower_bound_self :
    (n : ℕ) (b : Block) (bs : List Block)
    → n ≤ b.first_tx_index
    → lower_bound n (b ∷ bs) ≡ ([], b ∷ bs)
unfolding lower_bound
lower_bound_self n b bs h = rw (ltb-false b.first_tx_index n h) refl

more_than_once : (t c : ℕ) → 0 < t → 1 < c → t < t * c
more_than_once t zero h k = absurd (omega arith)
more_than_once t (suc zero) h k = absurd (omega arith)
more_than_once t (suc (suc c)) h k = omega arith

-- For a range of one transaction or more, fewer than segments, and at most 2 ^ 20 segments, no
-- number of rounds ends the loop of segmentChain.
pub segment_loop_endless :
    (rounds : ℕ) (b : Block) (bs : List Block) (behind : Option Block) (count : ℕ)
    (found : List (List Block))
    → 0 < txs_from (last_end (b ∷ bs)) b.first_tx_index
    → txs_from (last_end (b ∷ bs)) b.first_tx_index < count
    → count ≤ 2 ^ 20
    → segment_loop
        (last_end (b ∷ bs))
        (txs_from (last_end (b ∷ bs)) b.first_tx_index)
        count
        behind
        rounds
        found
        (b ∷ bs)
      ≡ endless
unfolding segment_loop
segment_loop_endless zero b bs behind count found h k l = refl
segment_loop_endless (suc rounds) b bs behind count found h k l =
    let total = txs_from (last_end (b ∷ bs)) b.first_tx_index in
    let again = segment_loop_endless rounds b bs behind count (found ++ ([] ∷ [])) h k l in
    let small : total / count ≡ 0 = div-eq_of_lt k in
    let n = b.first_tx_index + total / count in
    let stuck : lower_bound n (b ∷ bs) ≡ ([], b ∷ bs) = lower_bound_self n b bs (omega arith) in
    segment_loop_next (last_end (b ∷ bs)) total count behind rounds found b bs
      (more_than_once total count h (omega arith))
    ∙ ap
        (λ (q : List Block × List Block).
          segment_loop (last_end (b ∷ bs)) total count behind rounds (found ++ (q.0 ∷ [])) q.1)
        stuck
    ∙ again
