-- ===== src/Tests/Chain.antt =====
-- The block index on a chain of two blocks, and two chains that part.
use block_sci.Prelude.{
  ℕ, ◌≤◌, ◌<◌, ◌≡◌, refl, ◌≢◌, ◌⊎◌, inl, inr, List, [], ◌∷◌, ◌==◌, Bool-cases, min, arith,
}
use block_sci.Prelude.Int.{ℤ, pos}
use block_sci.Parser.ChainIndex.{
  BlockInfo, null_hash, find_block, highest, generate_chain, truncate, hash_at,
  find_split_point_index, update_split_point,
}
use block_sci.Parser.ChainIndex.Linked.{Links, Falls, generate_chain-Links}
use block_sci.Parser.ChainIndex.Split.{
  IsLastAgreement, IsLastDifference, find_split_point_index_lem, update_split_point_lem,
}

abbrev block : ℕ → ℕ → ℕ → BlockInfo
block hash prev height = record {
  hash = hash;
  hash_prev_block = prev;
  height = pos height;
  n_tx = 1;
}

abbrev blocks : List BlockInfo
blocks = block 11 10 1 ∷ block 10 0 0 ∷ []

blocks-Falls : Falls blocks
unfolding find_block
blocks-Falls hash b h e t = elim (Bool-cases (11 == hash)) [
  | inl top ↦ inr (block 10 0 0, 0, ground (arith, e, top), refl, ground (arith, e, t, top))
  | inr rest ↦ elim (Bool-cases (10 == hash)) [
    | inl low ↦ inl (ground (arith, e, low, rest))
    | inr out ↦ absurd (ground (arith, e, out, rest))
  ]
]

generate_chain-Links_example :
    (chain : List BlockInfo) × Links null_hash chain 11
    × ((max : ℤ) → generate_chain max blocks ≡ truncate max chain)
unfolding highest find_block
generate_chain-Links_example =
    generate_chain-Links blocks (block 11 10 1) 1 refl refl refl blocks-Falls

abbrev old_chain : List BlockInfo
old_chain = block 10 0 0 ∷ block 11 10 1 ∷ block 12 11 2 ∷ []

abbrev new_chain : List BlockInfo
new_chain = block 10 0 0 ∷ block 21 10 1 ∷ block 22 21 2 ∷ []

find_split_point_index_lem_example :
    let n = min 3 3 in
    let s = find_split_point_index old_chain 3 (hash_at new_chain) in
    IsLastAgreement (hash_at old_chain) (hash_at new_chain) n s
    ⊎ ((s ≡ n) × ((k : ℕ) → 0 ≤ k → k < n → hash_at old_chain k ≢ hash_at new_chain k))
find_split_point_index_lem_example = find_split_point_index_lem old_chain 3 (hash_at new_chain)

update_split_point_lem_example :
    let n = min 3 3 in
    let s = update_split_point old_chain new_chain in
    IsLastDifference (hash_at old_chain) (hash_at new_chain) n s
    ⊎ ((s ≡ n) × ((k : ℕ) → 0 ≤ k → k < n → hash_at old_chain k ≡ hash_at new_chain k))
update_split_point_lem_example = update_split_point_lem old_chain new_chain
