-- ===== src/Parser/Pipeline/Prefix.antt =====
-- What each step has processed after any turns and exceptions.
use block_sci.Parser.Pipeline.{
  Phase, checking, consuming, pushing, finished, failed, Stage, push, run_step, is_done, Threads,
  import_turn, run_thread, new_step, start, held, processed, after_import,
}
use block_sci.Parser.Pipeline.Faults.{
  Event, turns, throws, looks, throw_step, look_step, run_event, run_events, Took, Ordered,
  Ordered-push, turn-Ordered, throw_turn-Ordered, look_turn-Ordered,
}
use block_sci.Prelude.{
  ℕ, zero, suc, ◌≡◌, refl, sym, ap, ◌∙◌, subst, Bool, List, [], ◌∷◌, ◌++◌, append_assoc,
  Option-cases, All, replicate, inl, inr,
}

run_step-Ordered :
    (i : ℕ) (d : Bool) (sent : List ℕ) (ss : List Stage)
    → Ordered sent ss
    → Ordered sent (run_step i d ss)
unfolding Ordered run_step
run_step-Ordered i d sent [] h = tt
run_step-Ordered zero d sent (s ∷ ss) (e, r) = turn-Ordered s.phase d s.queue s.passed sent ss e r
run_step-Ordered (suc i) d sent (s ∷ ss) (e, r) = (e, run_step-Ordered i (is_done s) s.passed ss r)

throw_step-Ordered :
    (i : ℕ) (sent : List ℕ) (ss : List Stage) → Ordered sent ss → Ordered sent (throw_step i ss)
unfolding Ordered throw_step
throw_step-Ordered i sent [] h = tt
throw_step-Ordered zero sent (s ∷ ss) (e, r) =
    throw_turn-Ordered s.phase s.queue s.passed sent ss e r
throw_step-Ordered (suc i) sent (s ∷ ss) (e, r) = (e, throw_step-Ordered i s.passed ss r)

look_step-Ordered :
    (i : ℕ) (sent : List ℕ) (ss : List Stage) → Ordered sent ss → Ordered sent (look_step i ss)
unfolding Ordered look_step
look_step-Ordered i sent [] h = tt
look_step-Ordered zero sent (s ∷ ss) (e, r) = look_turn-Ordered s.phase s.queue s.passed sent ss e r
look_step-Ordered (suc i) sent (s ∷ ss) (e, r) = (e, look_step-Ordered i s.passed ss r)

-- The importer has sent the transactions before the unread ones, and the steps have them in order.
AllOrdered : List ℕ → Threads → Type 0
AllOrdered txs t = (sent : List ℕ) × (txs ≡ sent ++ t.unread) × Ordered sent t.steps

import_turn-Ordered :
    (txs sent : List ℕ) (p : Phase) (unread : List ℕ) (ss : List Stage)
    → txs ≡ sent ++ unread
    → Ordered sent ss
    → AllOrdered txs (import_turn p unread ss)
unfolding AllOrdered import_turn
import_turn-Ordered txs sent checking unread ss e h = (sent, e, h)
import_turn-Ordered txs sent (consuming last) [] ss e h = (sent, e, h)
import_turn-Ordered txs sent (consuming last) (tx ∷ unread) ss e h =
    elim (Option-cases (push tx ss)) [
      | inl full ↦
          subst (λ o. AllOrdered txs (after_import o last tx unread ss)) (sym full) (sent, e, h)
      | inr (next, room) ↦
          subst (λ o. AllOrdered txs (after_import o last tx unread ss)) (sym room)
            (
              sent ++ tx ∷ [],
              e ∙ sym (append_assoc sent (tx ∷ []) unread),
              Ordered-push sent ss next tx h room,
            )
    ]
import_turn-Ordered txs sent (pushing last tx) unread ss e h = (sent, e, h)
import_turn-Ordered txs sent finished unread ss e h = (sent, e, h)
import_turn-Ordered txs sent failed unread ss e h = (sent, e, h)

run_event-Ordered :
    (txs : List ℕ) (v : Event) (t : Threads) → AllOrdered txs t → AllOrdered txs (run_event v t)
unfolding AllOrdered run_event run_thread
run_event-Ordered txs (turns zero) t (sent, e, h) =
    import_turn-Ordered txs sent t.importer t.unread t.steps e h
run_event-Ordered txs (turns (suc i)) t (sent, e, h) =
    (sent, e, run_step-Ordered i _ sent t.steps h)
run_event-Ordered txs (throws zero) t (sent, e, h) = (sent, e, h)
run_event-Ordered txs (throws (suc i)) t (sent, e, h) =
    (sent, e, throw_step-Ordered i sent t.steps h)
run_event-Ordered txs (looks zero) t (sent, e, h) = (sent, e, h)
run_event-Ordered txs (looks (suc i)) t (sent, e, h) = (sent, e, look_step-Ordered i sent t.steps h)

run_events-Ordered :
    (txs : List ℕ) (vs : List Event) (t : Threads)
    → AllOrdered txs t
    → AllOrdered txs (run_events vs t)
unfolding run_events
run_events-Ordered txs [] t h = h
run_events-Ordered txs (v ∷ vs) t h =
    run_events-Ordered txs vs (run_event v t) (run_event-Ordered txs v t h)

start-Ordered : (n : ℕ) (txs : List ℕ) → AllOrdered txs (start n txs)
unfolding AllOrdered start Ordered Took
start-Ordered n txs = ([], refl, fresh n)
  where
    fresh : (n : ℕ) → Ordered [] (replicate n new_step)
    fresh zero = tt
    fresh (suc n) = (refl, fresh n)

-- The transactions on which the function of a step has returned are the first ones, in order, each
-- of them once.
abbrev pub IsPrefix : List ℕ → Stage → Type 0
IsPrefix txs s = (rest : List ℕ) × (txs ≡ processed s ++ rest)

Took-IsPrefix :
    (p : Phase) (sent passed queue : List ℕ)
    → Took p sent passed queue
    → ((rest : List ℕ) × (sent ≡ (passed ++ held p) ++ rest))
      × (rest : List ℕ) × (sent ≡ passed ++ rest)
unfolding Took
Took-IsPrefix checking sent passed queue e = ((queue, e), queue, e ∙ append_assoc passed [] queue)
Took-IsPrefix (consuming last) sent passed queue e =
    ((queue, e), queue, e ∙ append_assoc passed [] queue)
Took-IsPrefix (pushing last tx) sent passed queue e =
    ((queue, e), tx ∷ queue, e ∙ append_assoc passed (tx ∷ []) queue)
Took-IsPrefix finished sent passed queue e = ((queue, e), queue, e ∙ append_assoc passed [] queue)
Took-IsPrefix failed sent passed queue (rest, e) =
    ((rest, e ∙ sym (append_assoc passed [] rest)), rest, e)

steps-IsPrefix :
    (txs sent rest : List ℕ) (ss : List Stage)
    → txs ≡ sent ++ rest
    → Ordered sent ss
    → All (IsPrefix txs) ss
unfolding Ordered
steps-IsPrefix txs sent rest [] e h = tt
steps-IsPrefix txs sent rest (s ∷ ss) e (f, r) =
    let ((own, g), behind, k) = Took-IsPrefix s.phase sent s.passed s.queue f in
    (
      (own ++ rest, e ∙ ap (λ x. x ++ rest) g ∙ append_assoc (processed s) own rest),
      steps-IsPrefix txs s.passed (behind ++ rest) ss
          (e ∙ ap (λ x. x ++ rest) k ∙ append_assoc s.passed behind rest) r,
    )

-- However the turns of the importer and of the steps are interleaved, and whichever of them throw,
-- the transactions that each step has processed are the first ones, in order and each of them
-- once.
pub run_events-IsPrefix :
    (n : ℕ) (txs : List ℕ) (events : List Event)
    → All (IsPrefix txs) (run_events events (start n txs)).steps
unfolding AllOrdered
run_events-IsPrefix n txs events =
    let (sent, e, h) = run_events-Ordered txs events (start n txs) (start-Ordered n txs) in
    steps-IsPrefix txs sent (run_events events (start n txs)).unread
      (run_events events (start n txs)).steps e h
