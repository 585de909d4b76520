-- ===== src/Chain/MapReduce.antt =====
-- mapReduceBlocksImp, Blockchain::mapReduce and map (src/blocksci/chain/blockchain.hpp), and
-- segmentChain (src/blocksci/chain/blockchain.cpp): work on a range of blocks, divided among the
-- threads. The quotient that segmentChain takes in floating point of two 32-bit numbers is compared
-- with integers and truncated, as the exact one is, for up to 2 ^ 20 segments: below 2 ^ 32 a double
-- has a multiple of 2 ^ - 21 for the sum, whose fraction is at most 1 - 2 ^ - 20 and so does not round
-- up to an integer. Beyond that the bound can be one more than here.
pub mod Order
pub mod Cover
pub mod Results
pub mod Indexes
use block_sci.Prelude.{
  ℕ, zero, suc, ◌+◌, ◌-◌, ◌*◌, ◌/◌, ◌%◌, ◌^◌, Bool, true, false, List, [], ◌∷◌, ◌++◌, Option, none,
  some, ltb, ◌==◌, if◌then◌else◌, length, take, drop, map,
}

-- What segmentChain reads of a block.
pub record Block : Type 0 where
  pub first_tx_index : ℕ
  pub tx_count : ℕ

abbrev pub end_tx_index : Block → ℕ
end_tx_index b = (b.first_tx_index + b.tx_count) % 2 ^ 32

abbrev pub last_end : List Block → ℕ
last_end [] = 0
last_end (b ∷ []) = end_tx_index b
last_end (b ∷ c ∷ bs) = last_end (c ∷ bs)

-- A difference of 32-bit transaction numbers.
unfoldable pub txs_from : ℕ → ℕ → ℕ
txs_from last first = (last + 2 ^ 32 - first) % 2 ^ 32

-- The segments, a block read behind the chain, or a loop that has no end.
pub data Segmented : Type 0 where
  segments : List (List Block) → Segmented
  out_of_range endless : Segmented

module _ {A B : Type 0} (map_func : A → B) (reduce_func : B → B → B) (empty : B) where
  abbrev both : Option B → Option B → Option B
  both none second = none
  both (some first) none = none
  both (some first) (some second) = some (reduce_func (reduce_func empty second) first)

  -- mapReduceBlocksImp: the first argument bounds the depth of the recursion.
  unfoldable pub map_reduce_segments : ℕ → List A → Option B
  map_reduce_segments zero xs = none
  map_reduce_segments (suc depth) [] = none
  map_reduce_segments (suc depth) (x ∷ []) = some (reduce_func empty (map_func x))
  map_reduce_segments (suc depth) (x ∷ y ∷ xs) =
      let mid = length (x ∷ y ∷ xs) / 2 in
      both (map_reduce_segments depth (take mid (x ∷ y ∷ xs)))
        (map_reduce_segments depth (drop mid (x ∷ y ∷ xs)))

  -- The map of a segment from that of its blocks.
  unfoldable pub map_segment : B → List A → B
  map_segment res [] = res
  map_segment res (b ∷ bs) = map_segment (reduce_func res (map_func b)) bs

-- std::lower_bound by the first transaction: the blocks before the bound, and the others.
unfoldable pub lower_bound : ℕ → List Block → List Block × List Block
lower_bound tx_num [] = ([], [])
lower_bound tx_num (b ∷ bs) =
    let (before, others) = lower_bound tx_num bs in
    if ltb b.first_tx_index tx_num then (b ∷ before, others) else ([], b ∷ bs)

-- The rest joins the last segment.
unfoldable pub join_last : List (List Block) → List Block → List (List Block)
join_last [] rest = rest ∷ []
join_last (s ∷ []) rest = (s ++ rest) ∷ []
join_last (s ∷ t ∷ ss) rest = s ∷ join_last (t ∷ ss) rest

-- What comes after the loop, for one segment or more.
unfoldable pub add_rest : ℕ → List (List Block) → List Block → List (List Block)
add_rest count found rest =
    if length found == count then join_last found rest else found ++ (rest ∷ [])

module _ (last_tx total count : ℕ) (behind : Option Block) where
  -- The block that the iterator is at.
  unfoldable pub at_iterator : List Block → Option Block
  at_iterator [] = behind
  at_iterator (b ∷ bs) = some b

  -- The loop, for a number of rounds.
  unfoldable pub segment_loop : ℕ → List (List Block) → List Block → Segmented
  segment_loop zero found rest = endless
  segment_loop (suc rounds) found rest = elim (at_iterator rest) [
    | none ↦ out_of_range
    | some b ↦ elim (ltb total (txs_from last_tx b.first_tx_index * count)) [
      | false ↦ segments (add_rest count found rest)
      | true ↦
          let (segment, others) = lower_bound (b.first_tx_index + total / count) rest in
          segment_loop rounds (found ++ (segment ∷ [])) others
    ]
  ]

-- segmentChain on the blocks of the range and the one behind it. The loop moves the iterator in each
-- round or never again, so it has the number of blocks as rounds, and one more.
unfoldable pub segment_chain : List Block → Option Block → ℕ → Segmented
segment_chain [] behind count = out_of_range
segment_chain (b ∷ bs) behind count =
    let last_tx = last_end (b ∷ bs) in
    segment_loop last_tx (txs_from last_tx b.first_tx_index) count behind (suc (suc (length bs))) []
      (b ∷ bs)

module _ {B : Type 0} (reduce_func : B → B → B) (empty : B) where
  abbrev reduce_segments : (List Block → B) → Segmented → Option B
  reduce_segments map_func (segments ss) =
      map_reduce_segments map_func reduce_func empty (length ss) ss
  reduce_segments map_func out_of_range = none
  reduce_segments map_func endless = none

  -- Blockchain::mapReduce for a function of blocks.
  unfoldable pub map_reduce_blocks : (Block → B) → List Block → Option Block → ℕ → Option B
  map_reduce_blocks map_func blocks behind count =
      reduce_segments (map_segment map_func reduce_func empty empty)
        (segment_chain blocks behind count)

-- Blockchain::map.
unfoldable pub map_blocks :
    {M : Type 0} → (Block → M) → List Block → Option Block → ℕ → Option (List M)
map_blocks map_func blocks behind count =
    reduce_segments ◌++◌ [] (map map_func) (segment_chain blocks behind count)
