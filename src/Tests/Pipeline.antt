-- ===== src/Tests/Pipeline.antt =====
-- The threads of the parser with two steps and two transactions.
use block_sci.Prelude.{ℕ, ◌≡◌, refl, List, [], ◌∷◌, length, All}
use block_sci.Parser.Pipeline.{
  checking, failed, finished, push, turn, run_step, import_turn, run_thread, run_schedule, start,
  stage,
}
use block_sci.Parser.Pipeline.Faults.{
  Event, turns, throws, looks, throw_turn, throw_step, run_event, run_events,
}
use block_sci.Parser.Pipeline.Order.{IsFaithful}
use block_sci.Parser.Pipeline.Completion.{HasProcessed}
use block_sci.Parser.Pipeline.Prefix.{IsPrefix, run_events-IsPrefix}
use block_sci.Parser.Pipeline.Quiet.{run_events-IsFaithful, run_events-HasProcessed}

-- The importer reads one, the first step takes it and passes it on, the importer reads the other.
abbrev quiet : List Event
quiet = turns 0 ∷ turns 1 ∷ turns 2 ∷ turns 1 ∷ turns 1 ∷ looks 1 ∷ turns 0 ∷ turns 2 ∷ turns 1 ∷ []

-- The first step throws on the first transaction.
abbrev loud : List Event
loud = turns 0 ∷ turns 1 ∷ throws 1 ∷ []

step_failed :
    (run_events loud (start 2 (7 ∷ 8 ∷ []))).steps ≡ stage [] [] failed ∷ stage [] [] checking ∷ []
unfolding run_events run_event throw_step throw_turn run_thread import_turn run_step turn push start
step_failed = refl

run_events-IsPrefix_example :
    All (IsPrefix (7 ∷ 8 ∷ [])) (run_events loud (start 2 (7 ∷ 8 ∷ []))).steps
run_events-IsPrefix_example = run_events-IsPrefix 2 (7 ∷ 8 ∷ []) loud

run_events-IsFaithful_example :
    (length (run_events quiet (start 2 (7 ∷ 8 ∷ []))).steps ≡ 2)
    × All (IsFaithful (7 ∷ 8 ∷ [])) (run_events quiet (start 2 (7 ∷ 8 ∷ []))).steps
run_events-IsFaithful_example =
    run_events-IsFaithful 2 (7 ∷ 8 ∷ []) quiet
      (tt, (tt, (tt, (tt, (tt, (tt, (tt, (tt, (tt, tt)))))))))

run_events-HasProcessed_example :
    (more : List ℕ) × (length (run_schedule more (run_events quiet (start 2 (7 ∷ 8 ∷ [])))).steps
      ≡ 2)
    × ((run_schedule more (run_events quiet (start 2 (7 ∷ 8 ∷ [])))).importer ≡ finished)
    × All
        (HasProcessed (7 ∷ 8 ∷ []))
        (run_schedule more (run_events quiet (start 2 (7 ∷ 8 ∷ [])))).steps
run_events-HasProcessed_example =
    run_events-HasProcessed 2 (7 ∷ 8 ∷ []) quiet
      (tt, (tt, (tt, (tt, (tt, (tt, (tt, (tt, (tt, tt)))))))))
