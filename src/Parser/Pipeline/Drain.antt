-- ===== src/Parser/Pipeline/Drain.antt =====
-- Turns by which the steps empty their queues.
use block_sci.Prelude.{
  ℕ, zero, suc, ◌≡◌, refl, ap, ◌∙◌, subst, Bool, true, false, List, [], ◌∷◌, ◌++◌, map, some, ltb,
  length, All, arith,
}
use block_sci.Parser.Pipeline.{
  Phase, checking, consuming, pushing, finished, failed, Stage, stage, is_done, push, turn,
  run_step, after_push,
}
use block_sci.Parser.Pipeline.Order.{Settled, InOrder, run_step-InOrder}

-- Turns of the steps alone.
unfoldable pub run_steps : List ℕ → Bool → List Stage → List Stage
run_steps [] d ss = ss
run_steps (i ∷ is) d ss = run_steps is d (run_step i d ss)

run_steps-append :
    (a b : List ℕ) (d : Bool) (ss : List Stage)
    → run_steps (a ++ b) d ss ≡ run_steps b d (run_steps a d ss)
unfolding run_steps
run_steps-append [] b d ss = refl
run_steps-append (i ∷ a) b d ss = run_steps-append a b d (run_step i d ss)

run_steps-behind :
    (a : List ℕ) (d : Bool) (s : Stage) (ss : List Stage)
    → run_steps (map suc a) d (s ∷ ss) ≡ s ∷ run_steps a (is_done s) ss
unfolding run_steps run_step
run_steps-behind [] d s ss = refl
run_steps-behind (i ∷ a) d s ss = run_steps-behind a d s (run_step i (is_done s) ss)

-- Some turns lead from the first to the second.
unfoldable pub Leads : Bool → List Stage → List Stage → Type 0
Leads d ss next = (schedule : List ℕ) × (run_steps schedule d ss ≡ next)

pub Leads-refl : (d : Bool) (ss : List Stage) → Leads d ss ss
unfolding Leads run_steps
Leads-refl d ss = ([], refl)

pub Leads-step :
    (i : ℕ) (d : Bool) (ss next : List Stage) → run_step i d ss ≡ next → Leads d ss next
unfolding Leads run_steps
Leads-step i d ss next e = (i ∷ [], e)

pub Leads-join :
    (d : Bool) (ss mid next : List Stage) → Leads d ss mid → Leads d mid next → Leads d ss next
unfolding Leads
Leads-join d ss mid next (a, e) (b, f) =
    (a ++ b, run_steps-append a b d ss ∙ ap (run_steps b d) e ∙ f)

pub Leads-behind :
    (d : Bool) (s : Stage) (ss next : List Stage)
    → Leads (is_done s) ss next
    → Leads d (s ∷ ss) (s ∷ next)
unfolding Leads
Leads-behind d s ss next (a, e) =
    (map suc a, run_steps-behind a d s ss ∙ ap (λ (l : List Stage). s ∷ l) e)

run_steps-InOrder :
    (a : List ℕ) (d : Bool) (sent : List ℕ) (ss : List Stage)
    → InOrder sent d ss
    → InOrder sent d (run_steps a d ss)
unfolding run_steps
run_steps-InOrder [] d sent ss h = h
run_steps-InOrder (i ∷ a) d sent ss h =
    run_steps-InOrder a d sent (run_step i d ss) (run_step-InOrder i d sent ss h)

pub Leads-InOrder :
    (d : Bool) (sent : List ℕ) (ss next : List Stage)
    → Leads d ss next
    → InOrder sent d ss
    → InOrder sent d next
unfolding Leads
Leads-InOrder d sent ss next (a, e) h = subst (InOrder sent d) e (run_steps-InOrder a d sent ss h)

unfoldable pub Rests : Phase → Type 0
Rests checking = Unit
Rests (consuming last) = Unit
Rests (pushing last tx) = ⊥
Rests finished = Unit
Rests failed = ⊥

-- Nothing is on its way.
unfoldable pub IsIdle : Stage → Type 0
IsIdle s = (s.queue ≡ []) × Rests s.phase

-- An idle step has room.
pub push-IsIdle :
    (tx : ℕ) (ss : List Stage)
    → All IsIdle ss
    → (next : List Stage) × (push tx ss ≡ some next) × (length next ≡ length ss)
unfolding push IsIdle
push-IsIdle tx [] h = ([], refl, refl)
push-IsIdle tx (s ∷ ss) ((e, h), r) =
    let room : ltb (length s.queue) 10000 ≡ true = rw e refl in
    (record s { queue = s.queue ++ tx ∷ [] } ∷ ss, rw room refl, refl)

-- Every pipeline of a length can be drained.
CanDrain : ℕ → Type 0
CanDrain n =
    (d : Bool) (sent : List ℕ) (ss : List Stage)
    → length ss ≡ n
    → InOrder sent d ss
    → (next : List Stage) × Leads d ss next × All IsIdle next × (length next ≡ n)

-- A push, with the steps behind drained after it.
drain_pushing :
    (n : ℕ) (d : Bool) (sent q passed : List ℕ) (last : Bool) (tx : ℕ) (ss : List Stage)
    → CanDrain n
    → length ss ≡ n
    → All IsIdle ss
    → InOrder sent d (stage q passed (pushing last tx) ∷ ss)
    → (next : List Stage) × All IsIdle next
      × (length next ≡ n)
      × Leads d
          (stage q passed (pushing last tx) ∷ ss)
          (stage q (passed ++ tx ∷ []) (consuming last) ∷ next)
unfolding CanDrain run_step turn InOrder
drain_pushing n d sent q passed last tx ss can e idle h =
    let (next, room, size) = push-IsIdle tx ss idle in
    let here = stage q passed (pushing last tx) in
    let there = stage q (passed ++ tx ∷ []) (consuming last) in
    let one : Leads d (here ∷ ss) (there ∷ next) = Leads-step 0 d _ _ (pushed next room) in
    let after : InOrder sent d (there ∷ next) = Leads-InOrder d sent _ _ one h in
    let (rest, more, idle2, size2) =
      can false (passed ++ tx ∷ []) next (size ∙ e) (behind next after) in
    (rest, idle2, size2, Leads-join d _ _ _ one (Leads-behind d there next rest more))
  where
    pushed :
        (next : List Stage)
        → push tx ss ≡ some next
        → run_step 0 d (stage q passed (pushing last tx) ∷ ss)
          ≡ stage q (passed ++ tx ∷ []) (consuming last) ∷ next
    pushed next room = ap (λ o. after_push o last tx q passed ss) room

    behind :
        (next : List Stage)
        → InOrder sent d (stage q (passed ++ tx ∷ []) (consuming last) ∷ next)
        → InOrder (passed ++ tx ∷ []) false next
    behind next h = h.2

drain_consuming :
    (n : ℕ) (d : Bool) (sent q passed : List ℕ) (last : Bool) (ss : List Stage)
    → CanDrain n
    → length ss ≡ n
    → All IsIdle ss
    → InOrder sent d (stage q passed (consuming last) ∷ ss)
    → (next : List Stage) × All IsIdle next
      × (length next ≡ suc n)
      × Leads d (stage q passed (consuming last) ∷ ss) next
unfolding IsIdle Rests run_step turn
drain_consuming n d sent [] passed last ss can e idle h =
    (stage [] passed (consuming last) ∷ ss, ((refl, tt), idle), omega arith, Leads-refl d _)
drain_consuming n d sent (tx ∷ q) passed last ss can e idle h =
    let here = stage (tx ∷ q) passed (consuming last) in
    let mid = stage q passed (pushing last tx) in
    let there = stage q (passed ++ tx ∷ []) (consuming last) in
    let one : Leads d (here ∷ ss) (mid ∷ ss) = Leads-step 0 d _ _ refl in
    let h1 : InOrder sent d (mid ∷ ss) = Leads-InOrder d sent _ _ one h in
    let (rest, idle1, e1, two) = drain_pushing n d sent q passed last tx ss can e idle h1 in
    let h2 : InOrder sent d (there ∷ rest) = Leads-InOrder d sent _ _ two h1 in
    let (next, idle2, e2, more) =
      drain_consuming n d sent q (passed ++ tx ∷ []) last rest can e1 idle1 h2 in
    (next, idle2, e2, Leads-join d _ _ _ one (Leads-join d _ _ _ two more))

-- One step in front of a drained pipeline.
drain_first :
    (n : ℕ) (d : Bool) (sent q passed : List ℕ) (p : Phase) (ss : List Stage)
    → CanDrain n
    → length ss ≡ n
    → All IsIdle ss
    → InOrder sent d (stage q passed p ∷ ss)
    → (next : List Stage) × All IsIdle next
      × (length next ≡ suc n)
      × Leads d (stage q passed p ∷ ss) next
unfolding IsIdle Rests run_step turn InOrder Settled
drain_first n d sent q passed checking ss can e idle h =
    let there = stage q passed (consuming d) in
    let one : Leads d (stage q passed checking ∷ ss) (there ∷ ss) = Leads-step 0 d _ _ refl in
    let (next, idle1, e1, more) =
      drain_consuming n d sent q passed d ss can e idle (Leads-InOrder d sent _ _ one h) in
    (next, idle1, e1, Leads-join d _ _ _ one more)
drain_first n d sent q passed (consuming last) ss can e idle h =
    drain_consuming n d sent q passed last ss can e idle h
drain_first n d sent q passed (pushing last tx) ss can e idle h =
    let (rest, idle1, e1, one) = drain_pushing n d sent q passed last tx ss can e idle h in
    let (next, idle2, e2, more) =
      drain_consuming n d sent q (passed ++ tx ∷ []) last rest can e1 idle1
        (Leads-InOrder d sent _ _ one h) in
    (next, idle2, e2, Leads-join d _ _ _ one more)
drain_first n d sent q passed finished ss can e idle h =
    (stage q passed finished ∷ ss, ((h.1.1, tt), idle), omega arith, Leads-refl d _)
drain_first n d sent q passed failed ss can e idle h = absurd h.1

drain_length : (n : ℕ) → CanDrain n
unfolding CanDrain InOrder
drain_length n d sent [] e h = ([], Leads-refl d [], tt, e)
drain_length zero d sent (s ∷ ss) e h = absurd (omega arith)
drain_length (suc n) d sent (s ∷ ss) e h =
    let (ss1, one, idle1, e1) = drain_length n (is_done s) s.passed ss (omega arith) h.2 in
    let first : Leads d (s ∷ ss) (s ∷ ss1) = Leads-behind d s ss ss1 one in
    let (next, idle2, e2, more) =
      drain_first n d sent s.queue s.passed s.phase ss1 (drain_length n) e1 idle1
        (Leads-InOrder d sent _ _ first h) in
    (next, Leads-join d _ _ _ first more, idle2, e2)

pub drain :
    (d : Bool) (sent : List ℕ) (ss : List Stage)
    → InOrder sent d ss
    → (next : List Stage) × Leads d ss next × All IsIdle next
unfolding CanDrain
drain d sent ss h =
    let (next, more, idle, e) = drain_length (length ss) d sent ss refl h in (next, more, idle)
