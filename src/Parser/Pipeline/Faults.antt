-- ===== src/Parser/Pipeline/Faults.antt =====
-- The threads of addNewBlocks with exceptions, of func and of the look at the next step, as events
-- among the turns: what each step has processed, whatever happens.
use block_sci.Prelude.{
  ℕ, zero, suc, ◌≡◌, sym, ap, ◌∙◌, subst, Bool, true, false, List, [], ◌∷◌, ◌++◌, append-nil,
  append_assoc, some, Option-cases, ltb, if◌then◌else◌, length, Bool-cases, arith, inl, inr,
}
use block_sci.Parser.Pipeline.{
  Phase, checking, consuming, pushing, finished, failed, Stage, stage, capacity, push, turn,
  Threads, run_thread, held, next_done, after_push,
}

-- A turn of a thread; its function throws (func of a step, a read of the importer); it looks at the
-- next step only now, after a push that failed before.
pub data Event : Type 0 where
  turns throws looks : ℕ → Event

-- The exception leaves operator(), with the transaction that was popped lost, and CompletionGuard
-- sets isDone.
unfoldable pub throw_turn : Phase → List ℕ → List ℕ → List Stage → List Stage
throw_turn (consuming last) (tx ∷ queue) passed ss = stage queue passed failed ∷ ss
throw_turn phase queue passed ss = stage queue passed phase ∷ ss

unfoldable pub look_turn : Phase → List ℕ → List ℕ → List Stage → List Stage
look_turn (pushing last tx) queue passed ss =
    stage queue passed (if next_done ss then failed else pushing last tx) ∷ ss
look_turn phase queue passed ss = stage queue passed phase ∷ ss

unfoldable pub throw_step : ℕ → List Stage → List Stage
unfolding throw_turn
throw_step i [] = []
throw_step zero (s ∷ ss) = throw_turn s.phase s.queue s.passed ss
throw_step (suc i) (s ∷ ss) = s ∷ throw_step i ss

unfoldable pub look_step : ℕ → List Stage → List Stage
unfolding look_turn
look_step i [] = []
look_step zero (s ∷ ss) = look_turn s.phase s.queue s.passed ss
look_step (suc i) (s ∷ ss) = s ∷ look_step i ss

abbrev pub throw_import : Phase → Phase
throw_import (consuming last) = failed
throw_import phase = phase

abbrev pub look_import : Phase → List Stage → Phase
look_import (consuming last) ss = if next_done ss then failed else consuming last
look_import phase ss = phase

-- Thread 0 is the importer.
unfoldable pub run_event : Event → Threads → Threads
unfolding throw_step look_step
run_event (turns i) t = run_thread i t
run_event (throws zero) t = record t { importer = throw_import t.importer }
run_event (throws (suc i)) t = record t { steps = throw_step i t.steps }
run_event (looks zero) t = record t { importer = look_import t.importer t.steps }
run_event (looks (suc i)) t = record t { steps = look_step i t.steps }

unfoldable pub run_events : List Event → Threads → Threads
unfolding run_event
run_events [] t = t
run_events (e ∷ es) t = run_events es (run_event e t)

-- What a step has been sent, by its phase: one that failed has passed on some of it.
unfoldable pub Took : Phase → List ℕ → List ℕ → List ℕ → Type 0
Took failed sent passed queue = (rest : List ℕ) × (sent ≡ passed ++ rest)
Took phase sent passed queue = sent ≡ (passed ++ held phase) ++ queue

unfoldable pub Ordered : List ℕ → List Stage → Type 0
unfolding Took
Ordered sent [] = Unit
Ordered sent (s ∷ ss) = Took s.phase sent s.passed s.queue × Ordered s.passed ss

later :
    (sent all queue : List ℕ) (tx : ℕ)
    → sent ≡ all ++ queue
    → sent ++ tx ∷ [] ≡ all ++ (queue ++ tx ∷ [])
later sent all queue tx e = ap (λ x. x ++ tx ∷ []) e ∙ append_assoc all queue (tx ∷ [])

Took-push :
    (p : Phase) (sent passed queue : List ℕ) (tx : ℕ)
    → Took p sent passed queue
    → Took p (sent ++ tx ∷ []) passed (queue ++ tx ∷ [])
unfolding Took
Took-push checking sent passed queue tx e = later sent _ queue tx e
Took-push (consuming last) sent passed queue tx e = later sent _ queue tx e
Took-push (pushing last tx1) sent passed queue tx e = later sent _ queue tx e
Took-push finished sent passed queue tx e = later sent _ queue tx e
Took-push failed sent passed queue tx (rest, e) = (rest ++ tx ∷ [], later sent passed rest tx e)

pub Ordered-push :
    (sent : List ℕ) (ss next : List Stage) (tx : ℕ)
    → Ordered sent ss
    → push tx ss ≡ some next
    → Ordered (sent ++ tx ∷ []) next
unfolding Ordered push
Ordered-push sent [] next tx h e =
    let same : [] ≡ next = ground (arith, e) in subst (Ordered (sent ++ tx ∷ [])) same tt
Ordered-push sent (s ∷ ss) next tx (f, r) e = elim (Bool-cases (ltb (length s.queue) capacity)) [
  | inl room ↦
      let same : (record s { queue = s.queue ++ tx ∷ [] } ∷ ss) ≡ next = ground (arith, e, room) in
      subst (Ordered (sent ++ tx ∷ [])) same (Took-push s.phase sent s.passed s.queue tx f, r)
  | inr full ↦ absurd (ground (arith, e, full))
]

-- A step that fails at a push keeps what it has passed on.
Took-fails :
    (b : Bool) (last : Bool) (tx : ℕ) (sent passed queue : List ℕ)
    → sent ≡ (passed ++ tx ∷ []) ++ queue
    → Took (if b then failed else pushing last tx) sent passed queue
unfolding Took
Took-fails true last tx sent passed queue e = (tx ∷ queue, e ∙ append_assoc passed (tx ∷ []) queue)
Took-fails false last tx sent passed queue e = e

taken : (sent passed queue : List ℕ) → sent ≡ (passed ++ []) ++ queue → sent ≡ passed ++ queue
taken sent passed queue e = e ∙ ap (λ x. x ++ queue) (append-nil passed)

pub turn-Ordered :
    (p : Phase) (d : Bool) (q passed sent : List ℕ) (ss : List Stage)
    → Took p sent passed q
    → Ordered passed ss
    → Ordered sent (turn p d q passed ss)
unfolding Ordered Took turn
turn-Ordered checking d q passed sent ss e r = (e, r)
turn-Ordered (consuming true) d [] passed sent ss e r = (e, r)
turn-Ordered (consuming false) d [] passed sent ss e r = (e, r)
turn-Ordered (consuming last) d (tx ∷ q) passed sent ss e r =
    (taken sent passed (tx ∷ q) e ∙ sym (append_assoc passed (tx ∷ []) q), r)
turn-Ordered (pushing last tx) d q passed sent ss e r = elim (Option-cases (push tx ss)) [
  | inl full ↦
      subst (λ o. Ordered sent (after_push o last tx q passed ss)) (sym full)
        (Took-fails (next_done ss) last tx sent passed q e, r)
  | inr (next, room) ↦
      subst (λ o. Ordered sent (after_push o last tx q passed ss)) (sym room)
        (
          e ∙ ap (λ x. x ++ q) (sym (append-nil (passed ++ tx ∷ []))),
          Ordered-push passed ss next tx r room,
        )
]
turn-Ordered finished d q passed sent ss e r = (e, r)
turn-Ordered failed d q passed sent ss e r = (e, r)

pub throw_turn-Ordered :
    (p : Phase) (q passed sent : List ℕ) (ss : List Stage)
    → Took p sent passed q
    → Ordered passed ss
    → Ordered sent (throw_turn p q passed ss)
unfolding Ordered Took throw_turn
throw_turn-Ordered checking q passed sent ss e r = (e, r)
throw_turn-Ordered (consuming last) [] passed sent ss e r = (e, r)
throw_turn-Ordered (consuming last) (tx ∷ q) passed sent ss e r =
    ((tx ∷ q, taken sent passed (tx ∷ q) e), r)
throw_turn-Ordered (pushing last tx) q passed sent ss e r = (e, r)
throw_turn-Ordered finished q passed sent ss e r = (e, r)
throw_turn-Ordered failed q passed sent ss e r = (e, r)

pub look_turn-Ordered :
    (p : Phase) (q passed sent : List ℕ) (ss : List Stage)
    → Took p sent passed q
    → Ordered passed ss
    → Ordered sent (look_turn p q passed ss)
unfolding Ordered Took look_turn
look_turn-Ordered checking q passed sent ss e r = (e, r)
look_turn-Ordered (consuming last) q passed sent ss e r = (e, r)
look_turn-Ordered (pushing last tx) q passed sent ss e r =
    (Took-fails (next_done ss) last tx sent passed q e, r)
look_turn-Ordered finished q passed sent ss e r = (e, r)
look_turn-Ordered failed q passed sent ss e r = (e, r)
