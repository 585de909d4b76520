-- ===== src/Parser/Pipeline/Completion.antt =====
-- Turns that end all the threads, where every function returns.
use block_sci.Prelude.{
  ℕ, suc, ◌≡◌, refl, sym, ap, ◌∙◌, subst, true, false, List, [], ◌∷◌, ◌++◌, map, length, All,
}
use block_sci.Parser.Pipeline.{
  Phase, checking, consuming, pushing, finished, failed, Stage, stage, ends, turn, run_step,
  Threads, import_turn, after_import, run_thread, run_schedule, start, processed,
}
use block_sci.Parser.Pipeline.Order.{
  Importing, reading, ended, AllInOrder, run_schedule-AllInOrder, start-AllInOrder, IsFaithful,
  EndsWell, run_schedule-IsFaithful,
}
use block_sci.Parser.Pipeline.Size.{length-run_schedule, length-start}
use block_sci.Parser.Pipeline.Drain.{
  run_steps, Leads, Leads-refl, Leads-step, Leads-join, Leads-behind, Rests, IsIdle, push-IsIdle,
  drain,
}

-- An idle step behind a thread that is done ends by three turns at most.
finish_first :
    (q passed : List ℕ) (p : Phase) (ss : List Stage)
    → IsIdle (stage q passed p)
    → Leads true (stage q passed p ∷ ss) (stage [] passed finished ∷ ss)
unfolding IsIdle Rests run_step turn
finish_first q passed checking ss (e, h) =
    Leads-join true _ (stage q passed (consuming true) ∷ ss) _ (Leads-step 0 true _ _ refl)
      (Leads-step 0 true _ _ (ap (λ x. turn (consuming true) true x passed ss) e))
finish_first q passed (consuming true) ss (e, h) =
    Leads-step 0 true _ _ (ap (λ x. turn (consuming true) true x passed ss) e)
finish_first q passed (consuming false) ss (e, h) =
    Leads-join true _ (stage [] passed checking ∷ ss) _
      (Leads-step 0 true _ _ (ap (λ x. turn (consuming false) true x passed ss) e))
      (Leads-join true _ (stage [] passed (consuming true) ∷ ss) _ (Leads-step 0 true _ _ refl)
        (Leads-step 0 true _ _ refl))
finish_first q passed (pushing last tx) ss (e, h) = absurd h
finish_first q passed finished ss (e, h) =
    Leads-step 0 true _ _ (ap (λ x. stage x passed finished ∷ ss) e)
finish_first q passed failed ss (e, h) = absurd h

abbrev HasEnded : Stage → Type 0
HasEnded s = s.phase ≡ finished

finish_every :
    (ss : List Stage) → All IsIdle ss → (next : List Stage) × Leads true ss next × All HasEnded next
finish_every [] h = ([], Leads-refl true [], tt)
finish_every (s ∷ ss) (h, r) =
    let (next, more, done) = finish_every ss r in
    let last = stage [] s.passed finished in
    (
      last ∷ next,
      Leads-join true (s ∷ ss) (last ∷ ss) (last ∷ next)
          (finish_first s.queue s.passed s.phase ss h) (Leads-behind true last ss next more),
      (refl, done),
    )

-- Turns of all threads.
Reaches : Threads → Threads → Type 0
Reaches t u = (schedule : List ℕ) × (run_schedule schedule t ≡ u)

pub run_schedule-append :
    (a b : List ℕ) (t : Threads) → run_schedule (a ++ b) t ≡ run_schedule b (run_schedule a t)
unfolding run_schedule
run_schedule-append [] b t = refl
run_schedule-append (i ∷ a) b t = run_schedule-append a b (run_thread i t)

Reaches-join : (t u v : Threads) → Reaches t u → Reaches u v → Reaches t v
unfolding Reaches
Reaches-join t u v (a, e) (b, f) = (a ++ b, run_schedule-append a b t ∙ ap (run_schedule b) e ∙ f)

run_schedule-steps :
    (a : List ℕ) (t : Threads)
    → run_schedule (map suc a) t ≡ record t { steps = run_steps a (ends t.importer) t.steps }
unfolding run_schedule run_thread run_steps
run_schedule-steps [] t = refl
run_schedule-steps (i ∷ a) t = run_schedule-steps a (run_thread (suc i) t)

Reaches-Leads :
    (t : Threads) (next : List Stage)
    → Leads (ends t.importer) t.steps next
    → Reaches t (record t { steps = next })
unfolding Reaches Leads
Reaches-Leads t next (a, e) =
    (map suc a, run_schedule-steps a t ∙ ap (λ (x : List Stage). record t { steps = x }) e)

Reaches-AllInOrder :
    (txs : List ℕ) (t u : Threads) → Reaches t u → AllInOrder txs t → AllInOrder txs u
unfolding Reaches
Reaches-AllInOrder txs t u (a, e) h = subst (AllInOrder txs) e (run_schedule-AllInOrder txs a t h)

abbrev threads : List ℕ → Phase → List Stage → Threads
threads unread p ss = record { unread = unread; importer = p; steps = ss }

-- Drained, with the importer where it was.
drain_threads :
    (txs : List ℕ) (t : Threads)
    → AllInOrder txs t
    → (next : List Stage) × Reaches t (record t { steps = next }) × All IsIdle next
drain_threads txs t h =
    let (next, more, idle) = drain (ends t.importer) h.sent t.steps h.steps in
    (next, Reaches-Leads t next more, idle)

end_importer :
    (ss : List Stage)
    → All IsIdle ss
    → (next : List Stage) × Reaches (threads [] (consuming false) ss) (threads [] finished next)
      × All HasEnded next
unfolding Reaches run_schedule run_thread import_turn
end_importer ss idle =
    let (next, more, done) = finish_every ss idle in
    (
      next,
      Reaches-join _ (threads [] finished ss) _ (0 ∷ [], refl)
          (Reaches-Leads (threads [] finished ss) next more),
      done,
    )

-- The importer sends what is unread, one at a time, and ends.
send_each :
    (txs unread : List ℕ) (ss : List Stage)
    → All IsIdle ss
    → AllInOrder txs (threads unread (consuming false) ss)
    → (next : List Stage) × Reaches (threads unread (consuming false) ss) (threads [] finished next)
      × All HasEnded next
unfolding Reaches run_schedule run_thread import_turn
send_each txs [] ss idle h = end_importer ss idle
send_each txs (tx ∷ unread) ss idle h =
    let (pushed, room, _) = push-IsIdle tx ss idle in
    let here = threads (tx ∷ unread) (consuming false) ss in
    let there = threads unread (consuming false) pushed in
    let one : Reaches here there = (0 ∷ [], ap (λ o. after_import o false tx unread ss) room) in
    let h1 = Reaches-AllInOrder txs here there one h in
    let (drained, two, idle2) = drain_threads txs there h1 in
    let (next, more, done) =
      send_each txs unread drained idle2
        (Reaches-AllInOrder txs there (threads unread (consuming false) drained) two h1) in
    (next, Reaches-join _ _ _ one (Reaches-join _ _ _ two more), done)

complete :
    (txs unread : List ℕ) (p : Phase) (ss : List Stage)
    → Importing p unread
    → All IsIdle ss
    → AllInOrder txs (threads unread p ss)
    → (next : List Stage) × Reaches (threads unread p ss) (threads [] finished next)
      × All HasEnded next
complete txs _ _ ss (reading unread) idle h = send_each txs unread ss idle h
complete txs _ _ ss ended idle h =
    let (next, more, done) = finish_every ss idle in
    (next, Reaches-Leads (threads [] finished ss) next more, done)

-- A step that has ended and processed exactly the transactions.
abbrev pub HasProcessed : List ℕ → Stage → Type 0
HasProcessed txs s = (s.phase ≡ finished) × (processed s ≡ txs)

each_processed :
    (txs : List ℕ) (ss : List Stage)
    → All HasEnded ss
    → All (IsFaithful txs) ss
    → All (HasProcessed txs) ss
each_processed txs [] e h = tt
each_processed txs (s ∷ ss) (e, es) ((f, well), hs) =
    ((e, subst (λ p. EndsWell txs p (processed s)) e well), each_processed txs ss es hs)

-- After any turns of the importer and of the steps, in which every function returns, there are more
-- such turns by which the importer and every step end, with each step having processed exactly the
-- transactions, in order.
pub run_schedule-HasProcessed :
    (n : ℕ) (txs schedule : List ℕ)
    → (more : List ℕ) × (length (run_schedule (schedule ++ more) (start n txs)).steps ≡ n)
      × ((run_schedule (schedule ++ more) (start n txs)).importer ≡ finished)
      × All (HasProcessed txs) (run_schedule (schedule ++ more) (start n txs)).steps
unfolding Reaches
run_schedule-HasProcessed n txs schedule =
    let t = run_schedule schedule (start n txs) in
    let h = run_schedule-AllInOrder txs schedule (start n txs) (start-AllInOrder n txs) in
    let (drained, one, idle) = drain_threads txs t h in
    let u : Threads = record t { steps = drained } in
    let h1 = Reaches-AllInOrder txs t u one h in
    let (next, two, done) = complete txs t.unread t.importer drained h.importing idle h1 in
    let (more, e) = Reaches-join t u (threads [] finished next) one two in
    let whole : run_schedule (schedule ++ more) (start n txs) ≡ threads [] finished next =
      run_schedule-append schedule more (start n txs) ∙ e in
    let faithful : All (IsFaithful txs) next =
      subst (λ (x : Threads). All (IsFaithful txs) x.steps) whole
        (run_schedule-IsFaithful n txs (schedule ++ more)).1 in
    (
      more,
      length-run_schedule (schedule ++ more) (start n txs) ∙ length-start n txs,
      ap (λ (x : Threads). x.importer) whole,
      subst (λ (x : Threads). All (HasProcessed txs) x.steps) (sym whole)
          (each_processed txs next done faithful),
    )
