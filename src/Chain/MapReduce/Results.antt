-- ===== src/Chain/MapReduce/Results.antt =====
-- What mapReduce gives for the blocks of a range, and the order of what map gives.
use block_sci.Chain.MapReduce.{
  Block, last_end, txs_from, segments, map_segment, segment_chain, reduce_segments,
  map_reduce_blocks, map_blocks,
}
use block_sci.Chain.MapReduce.Order.{
  backwards, forwards, map_reduce_segments_lem, backwards-eq-forwards, map_segment-eq-forwards,
  forwards-append,
}
use block_sci.Chain.MapReduce.Cover.{Follow, segment_chain_covers}
use block_sci.Prelude.{
  ℕ, ◌/◌, ◌≤◌, ◌<◌, ◌≡◌, refl, sym, ap, ◌∙◌, List, [], ◌∷◌, ◌++◌, some, map, length, concat,
  append_assoc, append-nil, arith,
}

-- A division of a range into segments has one at least.
segments_present :
    (b : Block) (bs : List Block) (ss : List (List Block)) → concat ss ≡ b ∷ bs → 0 < length ss
segments_present b bs [] e = absurd (ground (arith, e))
segments_present b bs (s ∷ ss) e = omega arith

-- The results of the segments, the last one first.
abbrev pub last_first : {M : Type 0} → List (List M) → List M
last_first [] = []
last_first (s ∷ ss) = last_first ss ++ s

module _ (b : Block) (bs : List Block) (behind : Block) (count : ℕ)
    (f : Follow b.first_tx_index (b ∷ bs) (last_end (b ∷ bs)))
    (ends : behind.first_tx_index ≡ last_end (b ∷ bs))
    (step : 1 ≤ txs_from (last_end (b ∷ bs)) b.first_tx_index / count) where
  backwards-last_first :
      {M : Type 0} (map_func : Block → M) (ss : List (List Block))
      → backwards (map map_func) ◌++◌ [] append_assoc (λ l. refl) append-nil ss
        ≡ last_first (map (map map_func) ss)
  backwards-last_first map_func [] = refl
  backwards-last_first map_func (s ∷ ss) =
      ap (λ l. l ++ map map_func s) (backwards-last_first map_func ss)

  -- For blocks that follow each other, none of them empty, with a block behind that starts where
  -- they end, and at least as many transactions as segments, segmentChain gives segments that are
  -- the blocks in order, and map ends and returns the results segment by segment, the last segment
  -- first.
  pub map_blocks-last_first :
      {M : Type 0} (map_func : Block → M)
      → (ss : List (List Block)) × (segment_chain (b ∷ bs) (some behind) count ≡ segments ss)
        × (concat ss ≡ b ∷ bs)
        × (map_blocks map_func (b ∷ bs) (some behind) count
            ≡ some (last_first (map (map map_func) ss)))
  unfolding map_blocks
  map_blocks-last_first map_func =
      let (ss, cut, all) = segment_chain_covers b bs behind count f ends step in
      (
        ss,
        cut,
        all,
        ap (reduce_segments ◌++◌ [] (map map_func)) cut
            ∙ map_reduce_segments_lem (map map_func) ◌++◌ [] append_assoc (λ l. refl) append-nil
                (length ss) ss (segments_present b bs ss all) (omega arith)
            ∙ ap some (backwards-last_first map_func ss),
      )

  module _ {B : Type 0} (map_func : Block → B) (reduce_func : B → B → B) (empty : B)
      (assoc : (x y z : B) → reduce_func (reduce_func x y) z ≡ reduce_func x (reduce_func y z))
      (left : (x : B) → reduce_func empty x ≡ x) (right : (x : B) → reduce_func x empty ≡ x)
      (comm : (x y : B) → reduce_func x y ≡ reduce_func y x) where
    forwards-concat :
        (ss : List (List Block))
        → forwards
            (map_segment map_func reduce_func empty empty)
            reduce_func
            empty
            assoc
            left
            right
            ss
          ≡ forwards map_func reduce_func empty assoc left right (concat ss)
    forwards-concat [] = refl
    forwards-concat (s ∷ ss) =
        ap
          (λ x. reduce_func x (
            forwards (map_segment map_func reduce_func empty empty) reduce_func empty assoc left
              right ss))
          (map_segment-eq-forwards map_func reduce_func empty assoc left right empty s ∙ left _)
        ∙ ap (reduce_func (forwards map_func reduce_func empty assoc left right s))
            (forwards-concat ss)
        ∙ sym (forwards-append map_func reduce_func empty assoc left right s (concat ss))

    -- For blocks that follow each other, none of them empty, with a block behind that starts where
    -- they end, at least as many transactions as segments, and an associative and commutative
    -- reduction with a unit, mapReduce ends and gives the reduction of the blocks in order.
    pub map_reduce_blocks_lem :
        map_reduce_blocks reduce_func empty map_func (b ∷ bs) (some behind) count
        ≡ some (forwards map_func reduce_func empty assoc left right (b ∷ bs))
    unfolding map_reduce_blocks
    map_reduce_blocks_lem =
        let (ss, cut, all) = segment_chain_covers b bs behind count f ends step in
        let of_segment = map_segment map_func reduce_func empty empty in
        ap (reduce_segments reduce_func empty of_segment) cut
        ∙ map_reduce_segments_lem of_segment reduce_func empty assoc left right (length ss) ss
            (segments_present b bs ss all) (omega arith)
        ∙ ap some (
            backwards-eq-forwards of_segment reduce_func empty assoc left right comm ss
            ∙ forwards-concat ss
            ∙ ap (forwards map_func reduce_func empty assoc left right) all)
