-- ===== src/Parser/ChainIndex/Linked.antt =====
-- ChainIndex::generateChain: the walk back along the links of the block list.
use mathlib.Core.List.{reverse, reverse-cons}
use block_sci.Prelude.{
  ℕ, zero, suc, ◌<◌, ◌≡◌, refl, sym, ◌≢◌, ◌⊎◌, inl, inr, List, [], ◌∷◌, ◌++◌, none, some, ◌==◌,
  ==_iff, ==_false, Bool-cases, arith,
}
use block_sci.Prelude.Int.{ℤ, pos}
use block_sci.Parser.ChainIndex.{
  BlockInfo, null_hash, find_block, highest, walk_back, truncate, generate_chain,
}

-- From the hash `a` each block's predecessor is the one before it, up to the hash `c`.
abbrev pub Links : ℕ → List BlockInfo → ℕ → Type 0
Links a [] c = a ≡ c
Links a (b ∷ bs) c = (b.hash_prev_block ≡ a) × Links b.hash bs c

Links-append :
    (a m c : ℕ) (xs ys : List BlockInfo) → Links a xs m → Links m ys c → Links a (xs ++ ys) c
Links-append a m c [] ys p q = rw p q
Links-append a m c (x ∷ xs) ys p q = (p.0, Links-append x.hash m c xs ys p.1 q)

-- Below a block of height `h` the links reach the null hash, by blocks whose heights fall.
abbrev pub Falls : List BlockInfo → Type 0
Falls blocks =
    (hash : ℕ) (b : BlockInfo) (h : ℕ)
    → find_block hash blocks ≡ some b
    → b.height ≡ pos h
    → (b.hash_prev_block ≡ null_hash)
      ⊎ ((p : BlockInfo) × (k : ℕ) × (find_block b.hash_prev_block blocks ≡ some p)
          × (p.height ≡ pos k)
          × (k < h))

find_block-hash :
    (hash : ℕ) (bs : List BlockInfo) {b : BlockInfo} → find_block hash bs ≡ some b → b.hash ≡ hash
unfolding find_block
find_block-hash hash [] e = absurd (cc)
find_block-hash hash (c ∷ bs) e = elim (Bool-cases (c.hash == hash)) [
  | inl hit ↦ ground arith
  | inr miss ↦ find_block-hash hash bs (rw miss at e)
]

Links-reverse :
    (a c : ℕ) (b : BlockInfo) (chain : List BlockInfo)
    → Links a (reverse chain) b.hash_prev_block
    → b.hash ≡ c
    → Links a (reverse (b ∷ chain)) c
Links-reverse a c b chain l e =
    rw (reverse-cons b chain)
      (Links-append a b.hash_prev_block c (reverse chain) (b ∷ []) l (refl, e))

walk_back_null :
    (fuel : ℕ) (blocks : List BlockInfo) (hash : ℕ)
    → hash ≡ null_hash
    → walk_back (suc fuel) blocks hash ≡ some []
unfolding walk_back
walk_back_null fuel blocks hash e = rw e

walk_back_step :
    (fuel : ℕ) (blocks : List BlockInfo) (hash : ℕ) (b : BlockInfo) (chain : List BlockInfo)
    → hash ≢ null_hash
    → find_block hash blocks ≡ some b
    → walk_back fuel blocks b.hash_prev_block ≡ some chain
    → walk_back (suc fuel) blocks hash ≡ some (b ∷ chain)
unfolding walk_back
walk_back_step fuel blocks hash b chain n e w = rw (==_false hash null_hash n, e, w)

walk_back-Links :
    (fuel : ℕ) (blocks : List BlockInfo) (hash : ℕ) (b : BlockInfo) (h : ℕ)
    → Falls blocks
    → find_block hash blocks ≡ some b
    → b.height ≡ pos h
    → h < fuel
    → (chain : List BlockInfo) × (walk_back (suc fuel) blocks hash ≡ some chain)
      × Links null_hash (reverse chain) hash
walk_back-Links zero blocks hash b h falls e p l = absurd (omega arith)
walk_back-Links (suc fuel) blocks hash b h falls e p l = elim (Bool-cases (hash == null_hash)) [
  | inl done ↦
      ([], walk_back_null (suc fuel) blocks hash ((==_iff _ _).0 done), sym ((==_iff _ _).0 done))
  | inr more ↦
      let n : hash ≢ null_hash = λ z. cc ((==_iff hash null_hash).1 z) in
      elim (falls hash b h e p) [
        | inl first ↦ (
          b ∷ [],
          walk_back_step (suc fuel) blocks hash b [] n e (walk_back_null fuel blocks _ first),
          (first, find_block-hash hash blocks e),
        )
        | inr (q, k, f, kq, lt) ↦
            let (chain, w, links) =
              walk_back-Links fuel blocks b.hash_prev_block q k falls f kq (omega arith) in
            (
              b ∷ chain,
              walk_back_step (suc fuel) blocks hash b chain n e w,
              Links-reverse null_hash hash b chain links (find_block-hash hash blocks e),
            )
      ]
]

-- If the highest block has a height h ≥ 0, is the block that its hash finds, and heights fall
-- along the links, then there is a chain of blocks linked by hashes from the null hash to the
-- highest block, and generateChain returns it, cut as its argument says.
pub generate_chain-Links :
    (blocks : List BlockInfo) (tip : BlockInfo) (h : ℕ)
    → highest none blocks ≡ some tip
    → tip.height ≡ pos h
    → find_block tip.hash blocks ≡ some tip
    → Falls blocks
    → (chain : List BlockInfo) × Links null_hash chain tip.hash
      × ((max : ℤ) → generate_chain max blocks ≡ truncate max chain)
unfolding generate_chain
generate_chain-Links blocks tip h top p found falls =
    let (chain, w, links) =
      walk_back-Links (suc h) blocks tip.hash tip h falls found p (omega arith) in
    (reverse chain, links, λ max. rw (top, p, w, generate_chain))
