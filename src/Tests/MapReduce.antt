-- ===== src/Tests/MapReduce.antt =====
-- Work divided among threads on three blocks.
use block_sci.Chain.MapReduce.{
  Block, txs_from, segments, endless, segment_chain, segment_loop, at_iterator, lower_bound,
  add_rest, join_last, map_reduce_segments, map_reduce_blocks, map_blocks,
}
use block_sci.Chain.MapReduce.Indexes.{
  segment_chain_indexes, heights_of, segment_chain_indexes-heights_of,
}
use block_sci.Chain.MapReduce.Cover.{segment_loop_endless}
use block_sci.Chain.MapReduce.Results.{last_first, map_blocks-last_first, map_reduce_blocks_lem}
use block_sci.Prelude.{ℕ, ◌+◌, ◌≡◌, refl, List, [], ◌∷◌, some, map, concat, arith}

abbrev block : ℕ → ℕ → Block
block first count = record { first_tx_index = first; tx_count = count }

abbrev later : List Block
later = block 2 3 ∷ block 5 1 ∷ []

abbrev tx_count : Block → ℕ
tx_count b = b.tx_count

map_blocks-last_first_example :
    (ss : List (List Block)) × (segment_chain (block 0 2 ∷ later) (some (block 6 9)) 2
      ≡ segments ss)
    × (concat ss ≡ block 0 2 ∷ later)
    × (map_blocks tx_count (block 0 2 ∷ later) (some (block 6 9)) 2
        ≡ some (last_first (map (map tx_count) ss)))
unfolding txs_from
map_blocks-last_first_example =
    map_blocks-last_first (block 0 2) later (block 6 9) 2
      (refl, omega arith, (refl, omega arith, (refl, omega arith, refl))) refl (omega arith)
      tx_count

-- The counts come back out of order.
out_of_order : map_blocks tx_count (block 0 2 ∷ later) (some (block 6 9)) 2 ≡ some (1 ∷ 2 ∷ 3 ∷ [])
unfolding map_blocks at_iterator segment_chain txs_from segment_loop lower_bound add_rest join_last
    map_reduce_segments
out_of_order = refl

map_reduce_blocks_lem_example :
    map_reduce_blocks ◌+◌ 0 tx_count (block 0 2 ∷ later) (some (block 6 9)) 2 ≡ some 6
unfolding txs_from
map_reduce_blocks_lem_example =
    map_reduce_blocks_lem (block 0 2) later (block 6 9) 2
      (refl, omega arith, (refl, omega arith, (refl, omega arith, refl))) refl (omega arith)
      tx_count ◌+◌ 0 (λ x y z. omega arith) (λ x. omega arith) (λ x. omega arith)
      (λ x y. omega arith)

segment_loop_endless_example :
    segment_loop 6 6 8 (some (block 6 9)) 100 [] (block 0 2 ∷ later) ≡ endless
unfolding txs_from
segment_loop_endless_example =
    segment_loop_endless 100 (block 0 2) later (some (block 6 9)) 8 [] (omega arith) (omega arith)
      (omega arith)

segment_chain_indexes-heights_of_example :
    segment_chain_indexes 7 (block 0 2 ∷ later) (some (block 6 9)) 2
    ≡ heights_of 7 (segment_chain (block 0 2 ∷ later) (some (block 6 9)) 2)
segment_chain_indexes-heights_of_example =
    segment_chain_indexes-heights_of 7 (block 0 2 ∷ later) (some (block 6 9)) 2 (omega arith)
