-- ===== src/Parser/Pipeline/Quiet.antt =====
-- The threads as long as no function throws: every step processes everything.
use block_sci.Parser.Pipeline.{
  Phase, checking, consuming, pushing, finished, failed, Stage, stage, ends, is_done, Threads,
  run_thread, run_schedule, start,
}
use block_sci.Parser.Pipeline.Faults.{
  Event, turns, throws, looks, look_turn, look_step, look_import, run_event, run_events,
}
use block_sci.Parser.Pipeline.Order.{
  InOrder, not_next_done, Importing, reading, ended, AllInOrder, run_schedule-AllInOrder,
  start-AllInOrder, IsFaithful, run_schedule-IsFaithful,
}
use block_sci.Parser.Pipeline.Completion.{
  HasProcessed, run_schedule-append, run_schedule-HasProcessed,
}
use block_sci.Prelude.{
  ℕ, zero, suc, ◌≡◌, refl, sym, ap, ◌∙◌, subst, Bool, List, [], ◌∷◌, ◌++◌, length, All,
}

abbrev pub IsQuiet : Event → Type 0
IsQuiet (turns i) = Unit
IsQuiet (throws i) = ⊥
IsQuiet (looks i) = Unit

abbrev pub turn_numbers : List Event → List ℕ
turn_numbers [] = []
turn_numbers (turns i ∷ vs) = i ∷ turn_numbers vs
turn_numbers (throws i ∷ vs) = turn_numbers vs
turn_numbers (looks i ∷ vs) = turn_numbers vs

look_turn_same :
    (p : Phase) (q passed : List ℕ) (ss : List Stage)
    → InOrder passed (ends p) ss
    → look_turn p q passed ss ≡ stage q passed p ∷ ss
unfolding look_turn
look_turn_same checking q passed ss h = refl
look_turn_same (consuming last) q passed ss h = refl
look_turn_same (pushing last tx) q passed ss h = rw (not_next_done passed ss h) refl
look_turn_same finished q passed ss h = refl
look_turn_same failed q passed ss h = refl

-- A late look sees what an early one saw: the next step goes on.
look_step_same :
    (i : ℕ) (sent : List ℕ) (d : Bool) (ss : List Stage) → InOrder sent d ss → look_step i ss ≡ ss
unfolding look_step InOrder
look_step_same i sent d [] h = refl
look_step_same zero sent d (s ∷ ss) (e, h, r) = look_turn_same s.phase s.queue s.passed ss r
look_step_same (suc i) sent d (s ∷ ss) (e, h, r) =
    ap (λ (l : List Stage). s ∷ l) (look_step_same i s.passed (is_done s) ss r)

look_import_same :
    (p : Phase) (unread sent : List ℕ) (ss : List Stage)
    → Importing p unread
    → InOrder sent (ends p) ss
    → look_import p ss ≡ p
look_import_same _ _ sent ss (reading txs) h = rw (not_next_done sent ss h) refl
look_import_same _ _ sent ss ended h = refl

run_event_looks :
    (i : ℕ) (txs : List ℕ) (t : Threads) → AllInOrder txs t → run_event (looks i) t ≡ t
unfolding run_event
run_event_looks zero txs t h =
    ap (λ (p : Phase). record t { importer = p })
      (look_import_same t.importer t.unread h.sent t.steps h.importing h.steps)
run_event_looks (suc i) txs t h =
    ap (λ (l : List Stage). record t { steps = l })
      (look_step_same i h.sent (ends t.importer) t.steps h.steps)

run_events-turn_numbers :
    (vs : List Event) (txs : List ℕ) (t : Threads)
    → AllInOrder txs t
    → All IsQuiet vs
    → run_events vs t ≡ run_schedule (turn_numbers vs) t
unfolding run_events run_event run_schedule
run_events-turn_numbers [] txs t h q = refl
run_events-turn_numbers (turns i ∷ vs) txs t h (_, q) =
    run_events-turn_numbers vs txs (run_thread i t) (run_schedule-AllInOrder txs (i ∷ []) t h) q
run_events-turn_numbers (throws i ∷ vs) txs t h (thrown, q) = absurd thrown
run_events-turn_numbers (looks i ∷ vs) txs t h (_, q) =
    ap (run_events vs) (run_event_looks i txs t h) ∙ run_events-turn_numbers vs txs t h q

events_as_turns :
    (n : ℕ) (txs : List ℕ) (events : List Event)
    → All IsQuiet events
    → run_events events (start n txs) ≡ run_schedule (turn_numbers events) (start n txs)
events_as_turns n txs events =
    run_events-turn_numbers events txs (start n txs) (start-AllInOrder n txs)

-- However the turns are interleaved, as long as no function throws: each step has processed the
-- first transactions in order and each of them once, no step has ended by the exception for a
-- queue that finished early, and one that has ended has processed them all.
pub run_events-IsFaithful :
    (n : ℕ) (txs : List ℕ) (events : List Event)
    → All IsQuiet events
    → (length (run_events events (start n txs)).steps ≡ n)
      × All (IsFaithful txs) (run_events events (start n txs)).steps
run_events-IsFaithful n txs events q =
    rw (events_as_turns n txs events q) (run_schedule-IsFaithful n txs (turn_numbers events))

-- After any events in which no function throws there are turns, in which none throws, by which the
-- importer and every step end, with each step having processed exactly the transactions, in order:
-- the queues and flags alone never leave the threads stuck.
pub run_events-HasProcessed :
    (n : ℕ) (txs : List ℕ) (events : List Event)
    → All IsQuiet events
    → (more : List ℕ) × (length (run_schedule more (run_events events (start n txs))).steps ≡ n)
      × ((run_schedule more (run_events events (start n txs))).importer ≡ finished)
      × All (HasProcessed txs) (run_schedule more (run_events events (start n txs))).steps
run_events-HasProcessed n txs events q =
    let (more, size, over, done) = run_schedule-HasProcessed n txs (turn_numbers events) in
    let same : run_schedule (turn_numbers events ++ more) (start n txs)
        ≡ run_schedule more (run_events events (start n txs)) =
      run_schedule-append (turn_numbers events) more (start n txs)
      ∙ ap (run_schedule more) (sym (events_as_turns n txs events q)) in
    let (size1, over1, done1) =
      subst
        (λ (u : Threads).
          (length u.steps ≡ n) × (u.importer ≡ finished) × All (HasProcessed txs) u.steps)
        same (size, over, done) in
    (more, size1, over1, done1)
