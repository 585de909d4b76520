-- ===== src/Parser/ChainIndex.antt =====
-- ChainIndex (src/parser/chain_index.hpp) and the split point of updateChain (src/parser/main.cpp).
-- `none` where the source dereferences the end of the block list, or takes an iterator before the
-- start of the chain.
pub mod Linked
pub mod Split
use mathlib.Core.List.{reverse}
use block_sci.Prelude.{
  ℕ, zero, suc, ◌+◌, ◌-◌, ◌≡◌, Bool, true, false, not, List, [], ◌∷◌, Option, none, some, ltb, leb,
  ◌==◌, if◌then◌else◌, length, take, min,
}
use block_sci.Prelude.Int.{ℤ, pos, negsuc, magnitude, ltb_ℤ}

-- The fields of BlockInfo that the index works with.
pub record BlockInfo : Type 0 where
  pub hash : ℕ
  pub hash_prev_block : ℕ
  pub height : ℤ
  pub n_tx : ℕ

-- uint256::SetNull.
abbrev pub null_hash : ℕ
null_hash = 0

-- blockList.find(hash): the map's key is the block's own hash.
unfoldable pub find_block : ℕ → List BlockInfo → Option BlockInfo
find_block hash [] = none
find_block hash (b ∷ bs) = if b.hash == hash then some b else find_block hash bs

-- The loop for the highest block, in the map's order, with the block found so far.
abbrev pub is_higher : Option BlockInfo → BlockInfo → Bool
is_higher none b = ltb_ℤ (negsuc (2147483648 - 1)) b.height
is_higher (some m) b = ltb_ℤ m.height b.height

unfoldable pub highest : Option BlockInfo → List BlockInfo → Option BlockInfo
highest m [] = m
highest m (b ∷ bs) = highest (if is_higher m b then some b else m) bs

-- `while (hash != nullHash)`: the blocks from the tip down.
unfoldable pub walk_back : ℕ → List BlockInfo → ℕ → Option (List BlockInfo)
walk_back zero blocks hash = none
walk_back (suc fuel) blocks hash =
    if hash == null_hash then some [] else elim (find_block hash blocks) [
      | none ↦ none
      | some b ↦ elim (walk_back fuel blocks b.hash_prev_block) [
        | none ↦ none
        | some chain ↦ some (b ∷ chain)
      ]
    ]

unfoldable pub truncate : ℤ → List BlockInfo → Option (List BlockInfo)
truncate (negsuc n) chain =
    if leb (suc n) (length chain) then some (take (length chain - suc n) chain) else none
truncate (pos zero) chain = some chain
truncate (pos (suc n)) chain =
    if ltb (length chain) (suc n) then some chain else some (take (suc n) chain)

abbrev pub then_truncate : ℤ → Option (List BlockInfo) → Option (List BlockInfo)
then_truncate max none = none
then_truncate max (some chain) = truncate max (reverse chain)

-- Heights fall along the walk, so two rounds more than the highest height are enough.
unfoldable pub generate_chain : ℤ → List BlockInfo → Option (List BlockInfo)
generate_chain max blocks = elim (highest none blocks) [
  | none ↦ some []
  | some tip ↦ then_truncate max (walk_back (suc (suc (magnitude tip.height))) blocks tip.hash)
]

-- chain[i].hash, for an index in range.
abbrev pub hash_at : List BlockInfo → ℕ → ℕ
hash_at [] i = null_hash
hash_at (b ∷ bs) zero = b.hash
hash_at (b ∷ bs) (suc i) = hash_at bs i

-- The loop of findSplitPointIndex over i, with k = maxSize - i: `none` if it ends without a break.
unfoldable pub last_agreement : (ℕ → ℕ) → (ℕ → ℕ) → ℕ → Option ℕ
last_agreement old new zero = none
last_agreement old new (suc k) = if old k == new k then some (suc k) else last_agreement old new k

-- findSplitPointIndex on the old chain, up to `block_height`.
unfoldable pub find_split_point_index : List BlockInfo → ℕ → (ℕ → ℕ) → ℕ
find_split_point_index old_blocks block_height get_block_hash =
    let max_size = min (length old_blocks) block_height in
    elim (last_agreement (hash_at old_blocks) get_block_hash max_size) [
      | none ↦ max_size
      | some s ↦ s
    ]

-- The loop of updateChain over i, with k = maxSize - i: it stops at the first difference.
unfoldable pub last_difference : (ℕ → ℕ) → (ℕ → ℕ) → ℕ → Option ℕ
last_difference old new zero = none
last_difference old new (suc k) = if not (old k == new k) then some k else last_difference old new k

-- The split point of updateChain: how many blocks of the old chain are kept.
unfoldable pub update_split_point : List BlockInfo → List BlockInfo → ℕ
update_split_point old_chain chain_blocks =
    let max_size = min (length old_chain) (length chain_blocks) in
    elim (last_difference (hash_at old_chain) (hash_at chain_blocks) max_size) [
      | none ↦ max_size
      | some s ↦ s
    ]
