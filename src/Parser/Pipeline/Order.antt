-- ===== src/Parser/Pipeline/Order.antt =====
-- The order of the transactions in every interleaving of turns in which every function returns.
use block_sci.Prelude.{
  ℕ, zero, suc, ◌≡◌, refl, sym, ap, ◌∙◌, subst, Bool, true, false, List, [], ◌∷◌, ◌++◌, append-nil,
  append_assoc, some, Option-cases, ltb, length, All, replicate, Bool-cases, arith, inl, inr,
}
use block_sci.Parser.Pipeline.Size.{length-run_schedule, length-start}
use block_sci.Parser.Pipeline.{
  Phase, checking, consuming, pushing, finished, failed, Stage, stage, ends, is_done, push, turn,
  run_step, Threads, import_turn, run_thread, run_schedule, new_step, start, held, processed,
  next_done, after_push, after_import,
}

-- What a phase says of the thread before it and of the queue.
unfoldable pub Settled : Phase → Bool → List ℕ → Type 0
Settled checking d q = Unit
Settled (consuming last) d q = last ≡ true → d ≡ true
Settled (pushing last tx) d q = last ≡ true → d ≡ true
Settled finished d q = (d ≡ true) × (q ≡ [])
Settled failed d q = ⊥

-- The steps behind a thread that has sent `sent` and that is done or not.
unfoldable pub InOrder : List ℕ → Bool → List Stage → Type 0
unfolding Settled
InOrder sent d [] = Unit
InOrder sent d (s ∷ ss) =
    (sent ≡ processed s ++ s.queue) × Settled s.phase d s.queue × InOrder s.passed (is_done s) ss

Settled-mono : (p : Phase) (d : Bool) (q : List ℕ) → Settled p d q → Settled p true q
unfolding Settled
Settled-mono checking d q h = tt
Settled-mono (consuming last) d q h = λ e. refl
Settled-mono (pushing last tx) d q h = λ e. refl
Settled-mono finished d q h = (refl, h.1)
Settled-mono failed d q h = h

InOrder-done :
    (sent : List ℕ) (d : Bool) (ss : List Stage) → InOrder sent d ss → InOrder sent true ss
unfolding InOrder
InOrder-done sent d [] h = tt
InOrder-done sent d (s ∷ ss) (e, h, r) = (e, Settled-mono s.phase d s.queue h, r)

-- A thread that is not done may push.
Settled-push :
    (p : Phase) (q : List ℕ) (tx : ℕ) → Settled p false q → Settled p false (q ++ tx ∷ [])
unfolding Settled
Settled-push checking q tx h = tt
Settled-push (consuming last) q tx h = h
Settled-push (pushing last tx1) q tx h = h
Settled-push finished q tx h = absurd (ground (arith, h.0))
Settled-push failed q tx h = h

InOrder-push :
    (sent : List ℕ) (ss next : List Stage) (tx : ℕ)
    → InOrder sent false ss
    → push tx ss ≡ some next
    → InOrder (sent ++ tx ∷ []) false next
unfolding InOrder push
InOrder-push sent [] next tx h e =
    let same : [] ≡ next = ground (arith, e) in subst (InOrder (sent ++ tx ∷ []) false) same tt
InOrder-push sent (s ∷ ss) next tx (f, h, r) e = elim (Bool-cases (ltb (length s.queue) 10000)) [
  | inl room ↦
      let same : (record s { queue = s.queue ++ tx ∷ [] } ∷ ss) ≡ next = ground (arith, e, room) in
      subst (InOrder (sent ++ tx ∷ []) false) same (
        ap (λ x. x ++ tx ∷ []) f ∙ append_assoc (processed s) s.queue (tx ∷ []),
        Settled-push s.phase s.queue tx h,
        r,
      )
  | inr full ↦ absurd (ground (arith, e, full))
]

-- A full queue's step is not done.
pub not_next_done : (sent : List ℕ) (ss : List Stage) → InOrder sent false ss → next_done ss ≡ false
unfolding InOrder Settled
not_next_done sent [] h = refl
not_next_done sent (s ∷ ss) (e, h, r) = by_phase s.phase s.queue h
  where
    by_phase : (p : Phase) (q : List ℕ) → Settled p false q → ends p ≡ false
    by_phase checking q h = refl
    by_phase (consuming last) q h = refl
    by_phase (pushing last tx) q h = refl
    by_phase finished q h = absurd (ground (arith, h.0))
    by_phase failed q h = absurd h

turn-InOrder :
    (p : Phase) (d : Bool) (q passed sent : List ℕ) (ss : List Stage)
    → InOrder sent d (stage q passed p ∷ ss)
    → InOrder sent d (turn p d q passed ss)
unfolding InOrder Settled turn
turn-InOrder checking d q passed sent ss (e, h, r) = (e, λ f. f, r)
turn-InOrder (consuming true) d [] passed sent ss (e, h, r) =
    (e, (h refl, refl), InOrder-done passed false ss r)
turn-InOrder (consuming false) d [] passed sent ss (e, h, r) = (e, tt, r)
turn-InOrder (consuming last) d (tx ∷ q) passed sent ss (e, h, r) =
    (e ∙ ap (λ x. x ++ tx ∷ q) (append-nil passed) ∙ sym (append_assoc passed (tx ∷ []) q), h, r)
turn-InOrder (pushing last tx) d q passed sent ss (e, h, r) = elim (Option-cases (push tx ss)) [
  | inl full ↦
      subst (λ o. InOrder sent d (after_push o last tx q passed ss)) (sym full)
        (rw (not_next_done passed ss r) (e, h, r))
  | inr (next, room) ↦
      subst (λ o. InOrder sent d (after_push o last tx q passed ss)) (sym room)
        (
          e ∙ ap (λ x. x ++ q) (sym (append-nil (passed ++ tx ∷ []))),
          h,
          InOrder-push passed ss next tx r room,
        )
]
turn-InOrder finished d q passed sent ss h = h
turn-InOrder failed d q passed sent ss h = h

pub run_step-InOrder :
    (i : ℕ) (d : Bool) (sent : List ℕ) (ss : List Stage)
    → InOrder sent d ss
    → InOrder sent d (run_step i d ss)
unfolding InOrder run_step
run_step-InOrder i d sent [] h = tt
run_step-InOrder zero d sent (s ∷ ss) h = turn-InOrder s.phase d s.queue s.passed sent ss h
run_step-InOrder (suc i) d sent (s ∷ ss) (e, h, r) =
    (e, h, run_step-InOrder i (is_done s) s.passed ss r)

-- The importer has sent the transactions before the unread ones.
pub data Importing : Phase → List ℕ → Type 0 where
  reading : (txs : List ℕ) → Importing (consuming false) txs
  ended : Importing finished []

pub record AllInOrder (txs : List ℕ) (t : Threads) : Type 0 where
  pub sent : List ℕ
  pub split : txs ≡ sent ++ t.unread
  pub importing : Importing t.importer t.unread
  pub steps : InOrder sent (ends t.importer) t.steps

pub import_turn-AllInOrder :
    (txs sent : List ℕ) (p : Phase) (unread : List ℕ) (ss : List Stage)
    → txs ≡ sent ++ unread
    → Importing p unread
    → InOrder sent (ends p) ss
    → AllInOrder txs (import_turn p unread ss)
unfolding import_turn
import_turn-AllInOrder txs sent _ _ ss e ended h = record {
  sent = sent;
  split = e;
  importing = ended;
  steps = h;
}
import_turn-AllInOrder txs sent _ _ ss e (reading []) h = record {
  sent = sent;
  split = e;
  importing = ended;
  steps = InOrder-done sent false ss h;
}
import_turn-AllInOrder txs sent _ _ ss e (reading (tx ∷ unread)) h =
    elim (Option-cases (push tx ss)) [
      | inl full ↦
          subst (λ o. AllInOrder txs (after_import o false tx unread ss)) (sym full)
            (rw (not_next_done sent ss h)
              (record { sent = sent; split = e; importing = reading (tx ∷ unread); steps = h }))
      | inr (next, room) ↦
          subst (λ o. AllInOrder txs (after_import o false tx unread ss)) (sym room)
            (record {
              sent = sent ++ tx ∷ [];
              split = e ∙ sym (append_assoc sent (tx ∷ []) unread);
              importing = reading unread;
              steps = InOrder-push sent ss next tx h room;
            })
    ]

pub run_schedule-AllInOrder :
    (txs schedule : List ℕ) (t : Threads)
    → AllInOrder txs t
    → AllInOrder txs (run_schedule schedule t)
unfolding run_schedule run_thread
run_schedule-AllInOrder txs [] t h = h
run_schedule-AllInOrder txs (zero ∷ schedule) t h =
    run_schedule-AllInOrder txs schedule (run_thread zero t)
      (import_turn-AllInOrder txs h.sent t.importer t.unread t.steps h.split h.importing h.steps)
run_schedule-AllInOrder txs (suc i ∷ schedule) t h =
    run_schedule-AllInOrder txs schedule (run_thread (suc i) t) (record {
      sent = h.sent;
      split = h.split;
      importing = h.importing;
      steps = run_step-InOrder i (ends t.importer) h.sent t.steps h.steps;
    })

pub start-AllInOrder : (n : ℕ) (txs : List ℕ) → AllInOrder txs (start n txs)
unfolding start InOrder Settled
start-AllInOrder n txs = record {
  sent = [];
  split = refl;
  importing = reading txs;
  steps = fresh n;
}
  where
    fresh : (n : ℕ) → InOrder [] false (replicate n new_step)
    fresh zero = tt
    fresh (suc n) = (refl, tt, fresh n)

-- A step that has ended has processed everything, and none has ended by an exception.
abbrev pub EndsWell : List ℕ → Phase → List ℕ → Type 0
EndsWell txs finished done = done ≡ txs
EndsWell txs failed done = ⊥
EndsWell txs _ done = Unit

-- The transactions processed are the first ones, in order.
abbrev pub IsFaithful : List ℕ → Stage → Type 0
IsFaithful txs s =
    ((rest : List ℕ) × (txs ≡ processed s ++ rest)) × EndsWell txs s.phase (processed s)

stage-IsFaithful :
    (txs later : List ℕ) (d : Bool) (p : Phase) (q passed : List ℕ)
    → txs ≡ (passed ++ held p ++ q) ++ later
    → (d ≡ true → later ≡ [])
    → Settled p d q
    → EndsWell txs p (passed ++ held p) × (ends p ≡ true → held p ++ q ++ later ≡ [])
unfolding Settled
stage-IsFaithful txs later d checking q passed e l h = (tt, λ f. absurd (ground (arith, f)))
stage-IsFaithful txs later d (consuming last) q passed e l h = (tt, λ f. absurd (ground (arith, f)))
stage-IsFaithful txs later d (pushing last tx) q passed e l h =
    (tt, λ f. absurd (ground (arith, f)))
stage-IsFaithful txs later d finished q passed e l (done, empty) = (
  sym (
      e
      ∙ ap (λ x. ((passed ++ []) ++ x) ++ later) empty
      ∙ ap (λ x. ((passed ++ []) ++ []) ++ x) (l done)
      ∙ append-nil ((passed ++ []) ++ [])
      ∙ append-nil (passed ++ [])),
  λ f. ap (λ x. x ++ later) empty ∙ l done,
)
stage-IsFaithful txs later d failed q passed e l h = absurd h

steps-IsFaithful :
    (txs sent later : List ℕ) (d : Bool) (ss : List Stage)
    → txs ≡ sent ++ later
    → (d ≡ true → later ≡ [])
    → InOrder sent d ss
    → All (IsFaithful txs) ss
unfolding InOrder
steps-IsFaithful txs sent later d [] e l h = tt
steps-IsFaithful txs sent later d (s ∷ ss) e l (f, h, r) =
    let whole : txs ≡ (processed s ++ s.queue) ++ later = e ∙ ap (λ x. x ++ later) f in
    let (well, over) = stage-IsFaithful txs later d s.phase s.queue s.passed whole l h in
    (
      ((s.queue ++ later, whole ∙ append_assoc (processed s) s.queue later), well),
      steps-IsFaithful txs s.passed (held s.phase ++ s.queue ++ later) (is_done s) ss (behind whole)
          over r,
    )
  where
    behind :
        txs ≡ ((s.passed ++ held s.phase) ++ s.queue) ++ later
        → txs ≡ s.passed ++ ((held s.phase ++ s.queue) ++ later)
    behind g =
        g
        ∙ ap (λ x. x ++ later) (append_assoc s.passed (held s.phase) s.queue)
        ∙ append_assoc s.passed (held s.phase ++ s.queue) later

importer_over : (p : Phase) (unread : List ℕ) → Importing p unread → ends p ≡ true → unread ≡ []
importer_over _ _ ended e = refl
importer_over _ _ (reading txs) e = absurd (ground (arith, e))

-- However the turns of the importer and of the steps are interleaved, where every function returns,
-- each step has processed the
-- first transactions in order and each of them once, no step has ended by the exception for a
-- queue that finished early, and one that has ended has processed them all.
pub run_schedule-IsFaithful :
    (n : ℕ) (txs schedule : List ℕ)
    → (length (run_schedule schedule (start n txs)).steps ≡ n)
      × All (IsFaithful txs) (run_schedule schedule (start n txs)).steps
run_schedule-IsFaithful n txs schedule =
    let t = run_schedule schedule (start n txs) in
    let h = run_schedule-AllInOrder txs schedule (start n txs) (start-AllInOrder n txs) in
    (
      length-run_schedule schedule (start n txs) ∙ length-start n txs,
      steps-IsFaithful txs h.sent t.unread (ends t.importer) t.steps h.split
          (importer_over t.importer t.unread h.importing) h.steps,
    )
