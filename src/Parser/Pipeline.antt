-- ===== src/Parser/Pipeline.antt =====
-- The threads of BlockProcessor::addNewBlocks (src/parser/block_processor.cpp): the importer and the
-- steps of ProcessStep with their queues, in every interleaving. A transaction is its number. A turn
-- is what one thread does between two looks at what the threads share, where its function returns;
-- exceptions are in Faults.
pub mod Size
pub mod Order
pub mod Drain
pub mod Completion
pub mod Faults
pub mod Prefix
pub mod Quiet
use block_sci.Prelude.{
  ℕ, zero, suc, ◌≡◌, Bool, true, false, List, [], ◌∷◌, ◌++◌, Option, none, some, ltb, if◌then◌else◌,
  length, replicate,
}

-- Where a thread stands in operator(): at the test of prevDone, in consumeAll (the last one or not),
-- at the push of a transaction on the next queue, and at the end, regular or by an exception.
pub data Phase : Type 0 where
  checking : Phase
  consuming : Bool → Phase
  pushing : Bool → ℕ → Phase
  finished failed : Phase

-- A step, its queue and what it has passed on.
pub record Stage : Type 0 where
  pub queue : List ℕ
  pub passed : List ℕ
  pub phase : Phase

abbrev pub stage : List ℕ → List ℕ → Phase → Stage
stage queue passed phase = record { queue = queue; passed = passed; phase = phase }

abbrev pub capacity : ℕ
capacity = 10000

-- CompletionGuard sets isDone at both ends.
abbrev pub ends : Phase → Bool
ends checking = false
ends (consuming last) = false
ends (pushing last tx) = false
ends finished = true
ends failed = true

abbrev pub is_done : Stage → Bool
is_done s = ends s.phase

-- `nextQueue->push`. The last step asks for room before it sends a transaction back to the importer,
-- and deletes it otherwise, so it never waits.
unfoldable pub push : ℕ → List Stage → Option (List Stage)
push tx [] = some []
push tx (s ∷ ss) =
    if ltb (length s.queue) capacity
    then some (record s { queue = s.queue ++ tx ∷ [] } ∷ ss)
    else none

-- `nextDone && *nextDone`.
abbrev pub next_done : List Stage → Bool
next_done [] = false
next_done (s ∷ ss) = is_done s

-- What follows on a push, by whether there was room. A look at the next step that comes later than
-- the push is an event of Faults.
abbrev pub after_push : Option (List Stage) → Bool → ℕ → List ℕ → List ℕ → List Stage → List Stage
after_push (some next) last tx queue passed ss =
    record { queue = queue; passed = passed ++ tx ∷ []; phase = consuming last } ∷ next
after_push none last tx queue passed ss =
    record {
      queue = queue;
      passed = passed;
      phase = if next_done ss then failed else pushing last tx;
    }
    ∷ ss

-- The turn of a step, with prevDone, in front of the steps behind it. `func` is called as a
-- transaction leaves the queue.
unfoldable pub turn : Phase → Bool → List ℕ → List ℕ → List Stage → List Stage
unfolding push
turn checking prev_done queue passed ss =
    record { queue = queue; passed = passed; phase = consuming prev_done } ∷ ss
turn (consuming true) prev_done [] passed ss =
    record { queue = []; passed = passed; phase = finished } ∷ ss
turn (consuming false) prev_done [] passed ss =
    record { queue = []; passed = passed; phase = checking } ∷ ss
turn (consuming last) prev_done (tx ∷ queue) passed ss =
    record { queue = queue; passed = passed; phase = pushing last tx } ∷ ss
turn (pushing last tx) prev_done queue passed ss = after_push (push tx ss) last tx queue passed ss
turn finished prev_done queue passed ss =
    record { queue = queue; passed = passed; phase = finished } ∷ ss
turn failed prev_done queue passed ss =
    record { queue = queue; passed = passed; phase = failed } ∷ ss

-- The turn of the step of a number.
unfoldable pub run_step : ℕ → Bool → List Stage → List Stage
unfolding turn
run_step i prev_done [] = []
run_step zero prev_done (s ∷ ss) = turn s.phase prev_done s.queue s.passed ss
run_step (suc i) prev_done (s ∷ ss) = s ∷ run_step i (is_done s) ss

-- All the threads: what the importer still has to read, how it stands, and the steps.
pub record Threads : Type 0 where
  pub unread : List ℕ
  pub importer : Phase
  pub steps : List Stage

abbrev pub after_import : Option (List Stage) → Bool → ℕ → List ℕ → List Stage → Threads
after_import (some next) last tx txs ss = record {
  unread = txs;
  importer = consuming last;
  steps = next;
}
after_import none last tx txs ss = record {
  unread = tx ∷ txs;
  importer = if next_done ss then failed else consuming last;
  steps = ss;
}

-- The turn of the importer: outFunc, or the end of the blocks.
unfoldable pub import_turn : Phase → List ℕ → List Stage → Threads
unfolding push
import_turn (consuming last) [] ss = record { unread = []; importer = finished; steps = ss }
import_turn (consuming last) (tx ∷ txs) ss = after_import (push tx ss) last tx txs ss
import_turn phase txs ss = record { unread = txs; importer = phase; steps = ss }

-- Thread 0 is the importer.
unfoldable pub run_thread : ℕ → Threads → Threads
unfolding run_step import_turn
run_thread zero t = import_turn t.importer t.unread t.steps
run_thread (suc i) t = record t { steps = run_step i (ends t.importer) t.steps }

unfoldable pub run_schedule : List ℕ → Threads → Threads
unfolding run_thread
run_schedule [] t = t
run_schedule (i ∷ is) t = run_schedule is (run_thread i t)

abbrev pub new_step : Stage
new_step = record { queue = []; passed = []; phase = checking }

-- The threads at their start, with a number of steps that addNewBlocks has as 8.
unfoldable pub start : ℕ → List ℕ → Threads
start n txs = record { unread = txs; importer = consuming false; steps = replicate n new_step }

-- The transactions that func has been called on, in order.
abbrev pub held : Phase → List ℕ
held (pushing last tx) = tx ∷ []
held _ = []

abbrev pub processed : Stage → List ℕ
processed s = s.passed ++ held s.phase
