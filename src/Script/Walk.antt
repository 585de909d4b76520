-- ===== src/Script/Walk.antt =====
-- The loop `while (pc < end()) { if (!GetOp(pc, opcode, vch)) …; … }` that the inspecting functions
-- share.
use block_sci.Prelude.{
  ℕ, zero, suc, ◌≤◌, ◌≡◌, refl, List, [], ◌∷◌, Option, none, some, length, arith,
}
use block_sci.Script.GetOp.{OpResult, get_op2, get_op2_shorter}

-- What the body of a round decides: to go on with a new state, or to return.
pub data Flow {ℓ} (S R : Type ℓ) : Type ℓ where
  continue : S → Flow S R
  return : R → Flow S R

module _ {S R : Type 0} (body : S → OpResult → Flow S R) (done : S → R) where
  -- One round after the call of GetOp, with the rest of the loop as a function.
  unfoldable pub after_round : Flow S R → (S → Option R) → Option R
  after_round (continue s) next = next s
  after_round (return r) next = some r

  -- `none` is fuel run out. The body sees a failed call too.
  unfoldable pub walk : ℕ → List ℕ → S → Option R
  unfolding after_round
  walk fuel [] s = some (done s)
  walk zero (b ∷ pc) s = none
  walk (suc fuel) (b ∷ pc) s =
      let op = get_op2 (b ∷ pc) in after_round (body s op) (λ t. walk fuel op.pc t)

  after_round_total :
      (f : Flow S R) (next : S → Option R)
      → ((s : S) → (r : R) × (next s ≡ some r))
      → (r : R) × (after_round f next ≡ some r)
  unfolding after_round
  after_round_total (continue s) next h = h s
  after_round_total (return r) next h = (r, refl)

  -- The loop of the inspecting functions ends within as many rounds as the script has bytes,
  -- whatever its body does.
  pub walk_total :
      (fuel : ℕ) (pc : List ℕ) (s : S) → length pc ≤ fuel → (r : R) × (walk fuel pc s ≡ some r)
  unfolding walk
  walk_total fuel [] s h = (done s, refl)
  walk_total zero (b ∷ pc) s h = absurd (omega arith)
  walk_total (suc fuel) (b ∷ pc) s h =
      after_round_total (body s (get_op2 (b ∷ pc))) (λ t. walk fuel (get_op2 (b ∷ pc)).pc t)
        (λ t. walk_total fuel (get_op2 (b ∷ pc)).pc t (omega (arith, get_op2_shorter b pc)))

  pub walk_step :
      (fuel b : ℕ) (l pc : List ℕ) (s : S) {r : OpResult}
      → l ≡ b ∷ pc
      → get_op2 l ≡ r
      → walk (suc fuel) l s ≡ after_round (body s r) (λ t. walk fuel r.pc t)
  unfolding walk
  walk_step fuel b l pc s {r} e g = let h : get_op2 (b ∷ pc) ≡ r = rw (← e) g in rw (e, h, walk)
