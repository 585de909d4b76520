-- ===== src/Parser/Pipeline/Size.antt =====
-- No turn adds or drops a step.
use block_sci.Prelude.{
  ℕ, zero, suc, ◌≡◌, refl, sym, ap, ◌∙◌, Bool, true, false, List, [], ◌∷◌, ◌++◌, some, Option-cases,
  ltb, length, length-replicate, Bool-cases, arith, inl, inr,
}
use block_sci.Parser.Pipeline.{
  Phase, checking, consuming, pushing, finished, failed, Stage, is_done, push, turn, run_step,
  after_push, after_import, Threads, import_turn, run_thread, run_schedule, new_step, start,
}

length-push : (tx : ℕ) (ss next : List Stage) → push tx ss ≡ some next → length next ≡ length ss
unfolding push
length-push tx [] next e = let same : [] ≡ next = ground (arith, e) in sym (ap length same)
length-push tx (s ∷ ss) next e = elim (Bool-cases (ltb (length s.queue) 10000)) [
  | inl room ↦
      let same : (record s { queue = s.queue ++ tx ∷ [] } ∷ ss) ≡ next = ground (arith, e, room) in
      sym (ap length same)
  | inr full ↦ absurd (ground (arith, e, full))
]

length-turn :
    (p : Phase) (d : Bool) (q passed : List ℕ) (ss : List Stage)
    → length (turn p d q passed ss) ≡ suc (length ss)
unfolding turn
length-turn checking d q passed ss = refl
length-turn (consuming true) d [] passed ss = refl
length-turn (consuming false) d [] passed ss = refl
length-turn (consuming last) d (tx ∷ q) passed ss = refl
length-turn (pushing last tx) d q passed ss = elim (Option-cases (push tx ss)) [
  | inl full ↦ ap (λ o. length (after_push o last tx q passed ss)) full
  | inr (next, room) ↦
      ap (λ o. length (after_push o last tx q passed ss)) room
      ∙ ap suc (length-push tx ss next room)
]
length-turn finished d q passed ss = refl
length-turn failed d q passed ss = refl

length-run_step : (i : ℕ) (d : Bool) (ss : List Stage) → length (run_step i d ss) ≡ length ss
unfolding run_step
length-run_step i d [] = refl
length-run_step zero d (s ∷ ss) = length-turn s.phase d s.queue s.passed ss
length-run_step (suc i) d (s ∷ ss) = ap suc (length-run_step i (is_done s) ss)

length-import_turn :
    (p : Phase) (txs : List ℕ) (ss : List Stage) → length (import_turn p txs ss).steps ≡ length ss
unfolding import_turn
length-import_turn (consuming last) [] ss = refl
length-import_turn (consuming last) (tx ∷ txs) ss = elim (Option-cases (push tx ss)) [
  | inl full ↦ ap (λ o. length (after_import o last tx txs ss).steps) full
  | inr (next, room) ↦
      ap (λ o. length (after_import o last tx txs ss).steps) room ∙ length-push tx ss next room
]
length-import_turn checking txs ss = refl
length-import_turn (pushing last tx) txs ss = refl
length-import_turn finished txs ss = refl
length-import_turn failed txs ss = refl

pub length-run_schedule :
    (schedule : List ℕ) (t : Threads) → length (run_schedule schedule t).steps ≡ length t.steps
unfolding run_schedule run_thread
length-run_schedule [] t = refl
length-run_schedule (zero ∷ schedule) t =
    length-run_schedule schedule (run_thread zero t)
    ∙ length-import_turn t.importer t.unread t.steps
length-run_schedule (suc i ∷ schedule) t =
    length-run_schedule schedule (run_thread (suc i) t) ∙ length-run_step i _ t.steps

pub length-start : (n : ℕ) (txs : List ℕ) → length (start n txs).steps ≡ n
unfolding start
length-start n txs = length-replicate n new_step
