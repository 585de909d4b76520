-- ===== src/Chain/MapReduce/Indexes.antt =====
-- segmentChainIndexes (src/blocksci/chain/blockchain.cpp): the segments of segmentChain as pairs of
-- heights. The block at a position of the chain has it as its height. The result is none where the
-- loop has no end or reads behind the chain.
use block_sci.Chain.MapReduce.{
  Block, last_end, txs_from, Segmented, segments, out_of_range, endless, lower_bound, at_iterator,
  join_last, add_rest, segment_loop, segment_chain,
}
use block_sci.Chain.MapReduce.Cover.{concat_back, lower_bound-append}
use block_sci.Prelude.{
  ℕ, zero, suc, ◌+◌, ◌*◌, ◌/◌, ◌<◌, ◌≡◌, refl, sym, ap, ◌∙◌, inl, inr, true, false, List, [], ◌∷◌,
  ◌++◌, Option, none, some, ltb, ◌==◌, if◌then◌else◌, length, concat, Bool-cases, Option-cases,
  length-append, arith,
}

-- segments.back().second = endBlock, for one segment or more.
unfoldable pub set_last : List (ℕ × ℕ) → ℕ → List (ℕ × ℕ)
set_last [] end_block = []
set_last (p ∷ []) end_block = (p.0, end_block) ∷ []
set_last (p ∷ q ∷ ps) end_block = p ∷ set_last (q ∷ ps) end_block

unfoldable pub add_last : ℕ → List (ℕ × ℕ) → ℕ → ℕ → List (ℕ × ℕ)
add_last count found height end_block =
    if length found == count then set_last found end_block else found ++ ((height, end_block) ∷ [])

module _ (last_tx total count end_block : ℕ) (behind : Option Block) where
  -- The loop, with the height that the iterator is at.
  unfoldable pub index_loop : ℕ → List (ℕ × ℕ) → ℕ → List Block → Option (List (ℕ × ℕ))
  index_loop zero found height rest = none
  index_loop (suc rounds) found height rest = elim (at_iterator last_tx total count behind rest) [
    | none ↦ none
    | some b ↦ elim (ltb total (txs_from last_tx b.first_tx_index * count)) [
      | false ↦ some (add_last count found height end_block)
      | true ↦
          let (segment, others) = lower_bound (b.first_tx_index + total / count) rest in
          let end_height = height + length segment in
          elim (at_iterator last_tx total count behind others) [
            | none ↦ none
            | some c ↦ index_loop rounds (found ++ ((height, end_height) ∷ [])) end_height others
          ]
    ]
  ]

-- segmentChainIndexes on the blocks from start_block.
unfoldable pub segment_chain_indexes : ℕ → List Block → Option Block → ℕ → Option (List (ℕ × ℕ))
segment_chain_indexes start_block [] behind count = none
segment_chain_indexes start_block (b ∷ bs) behind count =
    let last_tx = last_end (b ∷ bs) in
    index_loop last_tx (txs_from last_tx b.first_tx_index) count (start_block + length (b ∷ bs))
      behind (suc (suc (length bs))) [] start_block (b ∷ bs)

-- The heights at which segments that follow each other start and end.
abbrev pub heights : ℕ → List (List Block) → List (ℕ × ℕ)
heights start [] = []
heights start (s ∷ ss) = (start, start + length s) ∷ heights (start + length s) ss

abbrev pub heights_of : ℕ → Segmented → Option (List (ℕ × ℕ))
heights_of start (segments ss) = some (heights start ss)
heights_of start out_of_range = none
heights_of start endless = none

length-heights : (start : ℕ) (ss : List (List Block)) → length (heights start ss) ≡ length ss
length-heights start [] = refl
length-heights start (s ∷ ss) = ap suc (length-heights (start + length s) ss)

heights_back :
    (start : ℕ) (ss : List (List Block)) (s : List Block)
    → heights start (ss ++ (s ∷ []))
      ≡ heights start ss
        ++ ((start + length (concat ss), start + length (concat ss) + length s) ∷ [])
heights_back start [] s = ap (λ n. (n, n + length s) ∷ []) (omega arith)
heights_back start (t ∷ ss) s =
    ap (λ l. (start, start + length t) ∷ l)
      (heights_back (start + length t) ss s
        ∙ ap (λ n. heights (start + length t) ss ++ ((n, n + length s) ∷ []))
            (omega (arith, length-append {A = Block} t (concat ss))))

heights-join_last :
    (start : ℕ) (s : List Block) (ss : List (List Block)) (rest : List Block)
    → heights start (join_last (s ∷ ss) rest)
      ≡ set_last (heights start (s ∷ ss)) (start + length (concat (s ∷ ss)) + length rest)
unfolding join_last set_last
heights-join_last start s [] rest =
    ap (λ n. (start, n) ∷ [])
      (omega (arith, length-append {A = Block} s rest, length-append {A = Block} s []))
heights-join_last start s (t ∷ ss) rest =
    ap (λ l. (start, start + length s) ∷ l)
      (heights-join_last (start + length s) t ss rest
        ∙ ap (set_last (heights (start + length s) (t ∷ ss)))
            (omega (arith, length-append {A = Block} s (concat (t ∷ ss)))))

heights-add_rest :
    (start count : ℕ) (found : List (List Block)) (rest : List Block)
    → 0 < count
    → heights start (add_rest count found rest)
      ≡ add_last count
          (heights start found)
          (start + length (concat found))
          (start + length (concat found) + length rest)
unfolding add_rest add_last
heights-add_rest start zero found rest h = absurd (omega arith)
heights-add_rest start (suc count) [] rest h = elim (Bool-cases (zero == suc count)) [
  | inl full ↦ absurd (ground (arith, full))
  | inr room ↦ rw room (heights_back start [] rest)
]
heights-add_rest start (suc count) (s ∷ ss) rest h =
    elim (Bool-cases (length (s ∷ ss) == suc count)) [
      | inl full ↦ rw (length-heights start (s ∷ ss), full) (heights-join_last start s ss rest)
      | inr room ↦ rw (length-heights start (s ∷ ss), room) (heights_back start (s ∷ ss) rest)
    ]

module _ (last_tx total count : ℕ) (behind : Option Block) where
  out_of_range-heights :
      (start rounds : ℕ) (found : List (List Block)) (rest : List Block)
      → at_iterator last_tx total count behind rest ≡ none
      → heights_of start (segment_loop last_tx total count behind rounds found rest) ≡ none
  unfolding segment_loop
  out_of_range-heights start zero found rest e = refl
  out_of_range-heights start (suc rounds) found rest e = rw (e, heights_of, segment_loop) refl

  -- Both loops go through the same segments.
  index_loop-heights :
      (start end_block rounds : ℕ) (found : List (List Block)) (rest : List Block)
      → 0 < count
      → start + length (concat found) + length rest ≡ end_block
      → index_loop last_tx total count end_block behind rounds
          (heights start found)
          (start + length (concat found))
          rest
        ≡ heights_of start (segment_loop last_tx total count behind rounds found rest)
  unfolding index_loop segment_loop
  index_loop-heights start end_block zero found rest pos all = refl
  index_loop-heights start end_block (suc rounds) found rest pos all =
      elim (Option-cases (at_iterator last_tx total count behind rest)) [
        | inl gone ↦ rw (gone, index_loop, segment_loop) refl
        | inr (b, e) ↦ elim (Bool-cases (ltb total (txs_from last_tx b.first_tx_index * count))) [
          | inr stops ↦
              rw (e, stops, index_loop, segment_loop)
                (ap some (
                  ap (add_last count (heights start found) _) (sym all)
                  ∙ sym (heights-add_rest start count found rest pos)))
          | inl goes_on ↦
              let n = b.first_tx_index + total / count in
              let cut = lower_bound n rest in
              let joined = ap length (lower_bound-append n rest) in
              let at_end : start + length (concat (found ++ (cut.0 ∷ [])))
                  ≡ start + length (concat found) + length cut.0 =
                ap (λ l. start + length l) (concat_back found cut.0)
                ∙ omega (arith, length-append {A = Block} (concat found) cut.0) in
              elim (Option-cases (at_iterator last_tx total count behind cut.1)) [
                | inl gone ↦
                    rw (e, goes_on, gone, index_loop, segment_loop)
                      (sym (out_of_range-heights start rounds (found ++ (cut.0 ∷ [])) cut.1 gone))
                | inr (c, more) ↦
                    rw (e, goes_on, more, index_loop, segment_loop)
                      (ap
                          (λ l.
                            index_loop last_tx total count end_block behind rounds l
                              (start + length (concat found) + length cut.0) cut.1)
                          (sym (heights_back start found cut.0))
                        ∙ ap
                            (λ h.
                              index_loop last_tx total count end_block behind rounds
                                (heights start (found ++ (cut.0 ∷ []))) h cut.1)
                            (sym at_end)
                        ∙ index_loop-heights start end_block rounds (found ++ (cut.0 ∷ [])) cut.1
                            pos
                            (omega
                              (arith, at_end, joined, all, length-append {A = Block} cut.0 cut.1)))
              ]
        ]
      ]

-- For one segment or more, and any blocks, segmentChainIndexes gives the heights at which the
-- segments of segmentChain start and end, and gives none where segmentChain reads out of range or
-- has no end.
pub segment_chain_indexes-heights_of :
    (start_block : ℕ) (blocks : List Block) (behind : Option Block) (count : ℕ)
    → 0 < count
    → segment_chain_indexes start_block blocks behind count
      ≡ heights_of start_block (segment_chain blocks behind count)
unfolding segment_chain_indexes segment_chain
segment_chain_indexes-heights_of start_block [] behind count pos = refl
segment_chain_indexes-heights_of start_block (b ∷ bs) behind count pos =
    let last_tx = last_end (b ∷ bs) in
    ap
      (λ h.
        index_loop last_tx (txs_from last_tx b.first_tx_index) count (start_block + length (b ∷ bs))
          behind (suc (suc (length bs))) [] h (b ∷ bs))
      (omega arith)
    ∙ index_loop-heights last_tx (txs_from last_tx b.first_tx_index) count behind start_block
        (start_block + length (b ∷ bs)) (suc (suc (length bs))) [] (b ∷ bs) pos (omega arith)
