-- ===== src/Heuristics/Candidates.antt =====
-- std::unordered_set<Output> in the change heuristics. Its elements are compared by pointer, and
-- its order is unspecified: the list keeps the order of insertion, and nothing is stated of it.
use block_sci.Prelude.{
  ℕ, suc, ◌≤◌, ◌<◌, ◌≡◌, refl, ◌∙◌, inl, inr, ◌⊎◌, ◌↔◌, Bool, true, false, ◌&&◌, ◌||◌, List, [],
  ◌∷◌, ◌++◌, append-nil, append_assoc, Option, none, some, ◌==◌, if◌then◌else◌, select, All,
  Bool-cases, arith,
}
use block_sci.Chain.Types.{
  Output, InoutData, DataAccess, Transaction, is_spendable, outputs_from, outputs,
}

abbrev pub same_output : Output → Output → Bool
same_output a b = (a.tx_num == b.tx_num) && (a.inout_num == b.inout_num)

unfoldable pub contains : List Output → Output → Bool
contains [] o = false
contains (c ∷ cs) o = same_output c o || contains cs o

unfoldable pub insert : List Output → Output → List Output
insert cs o = if contains cs o then cs else cs ++ (o ∷ [])

-- `for (auto output : …) { if (test) candidates.insert(output); }`.
unfoldable pub collect_from : (Output → Bool) → List Output → List Output → List Output
collect_from p cs [] = cs
collect_from p cs (o ∷ os) = collect_from p (if p o then insert cs o else cs) os

abbrev pub collect : (Output → Bool) → List Output → List Output
collect p os = collect_from p [] os

abbrev pub output_spendable : Output → Bool
output_spendable o = is_spendable o.address.type

unfoldable pub remove_op_return_outputs : List Output → List Output
unfolding collect_from insert contains
remove_op_return_outputs candidates = collect output_spendable candidates

unfoldable pub single_or_nullptr : List Output → Option Output
single_or_nullptr (o ∷ []) = some o
single_or_nullptr _ = none

-- The outputs of one transaction, at rising numbers from `i` on.
abbrev pub Rising : ℕ → ℕ → List Output → Type 0
Rising t i [] = Unit {0}
Rising t i (o ∷ os) = (o.tx_num ≡ t) × (i ≤ o.inout_num) × Rising t (suc o.inout_num) os

-- All of the set stands before `i`.
abbrev Before : ℕ → List Output → Type 0
Before i = All (λ o. o.inout_num < i)

contains-Before : (cs : List Output) (o : Output) → Before o.inout_num cs → contains cs o ≡ false
unfolding contains
contains-Before [] o h = refl
contains-Before (c ∷ cs) o h = ground (arith, contains-Before cs o h.1)

Before-mono : (i j : ℕ) (cs : List Output) → i ≤ j → Before i cs → Before j cs
Before-mono i j [] l h = tt
Before-mono i j (c ∷ cs) l h = (omega arith, Before-mono i j cs l h.1)

Before-insert :
    (i : ℕ) (cs : List Output) (o : Output)
    → i ≤ o.inout_num
    → Before i cs
    → Before (suc o.inout_num) (cs ++ (o ∷ []))
Before-insert i [] o l h = (omega arith, tt)
Before-insert i (c ∷ cs) o l h = (omega arith, Before-insert i cs o l h.1)

-- On such outputs nothing is inserted twice, so the set is the sublist that passes the test.
collect_from-select :
    (p : Output → Bool) (t i : ℕ) (cs os : List Output)
    → Before i cs
    → Rising t i os
    → collect_from p cs os ≡ cs ++ select p os
unfolding collect_from insert
collect_from-select p t i cs [] b r = sym-nil cs
  where
    sym-nil : (l : List Output) → l ≡ l ++ []
    sym-nil l = rw append-nil
collect_from-select p t i cs (o ∷ os) b r = elim (Bool-cases (p o)) [
  | inl keep ↦
      rw (keep, contains-Before cs o (Before-mono i o.inout_num cs r.1 b))
        (collect_from-select p t (suc o.inout_num) (cs ++ (o ∷ [])) os (Before-insert i cs o r.1 b)
            r.2
          ∙ append_assoc cs (o ∷ []) (select p os))
  | inr leave ↦ rw leave (
      collect_from-select p t (suc o.inout_num) cs os
        (Before-mono i (suc o.inout_num) cs (omega arith) b) r.2)
]

pub collect-select :
    (p : Output → Bool) (t i : ℕ) (os : List Output) → Rising t i os → collect p os ≡ select p os
collect-select p t i os r = collect_from-select p t i [] os tt r

Rising-le : (t i j : ℕ) (os : List Output) → i ≤ j → Rising t j os → Rising t i os
Rising-le t i j [] l r = tt
Rising-le t i j (o ∷ os) l r = (r.0, omega arith, r.2)

Rising-select :
    (p : Output → Bool) (t i : ℕ) (os : List Output) → Rising t i os → Rising t i (select p os)
Rising-select p t i [] r = tt
Rising-select p t i (o ∷ os) r = elim (Bool-cases (p o)) [
  | inl keep ↦ rw keep (r.0, r.1, Rising-select p t (suc o.inout_num) os r.2)
  | inr leave ↦
      rw leave (
        Rising-le t i (suc o.inout_num) _ (omega arith)
          (Rising-select p t (suc o.inout_num) os r.2))
]

pub outputs_from-Rising :
    (access : DataAccess) (t i : ℕ) (os : List InoutData) → Rising t i (outputs_from access t i os)
outputs_from-Rising access t i [] = tt
outputs_from-Rising access t i (o ∷ os) =
    (refl, omega arith, outputs_from-Rising access t (suc i) os)

abbrev pub In : {A : Type 0} → A → List A → Type 0
In a [] = ⊥
In a (x ∷ xs) = (a ≡ x) ⊎ In a xs

pub In-of_select :
    {A : Type 0} (p : A → Bool) (a : A) (xs : List A) → In a (select p xs) → In a xs × (p a ≡ true)
In-of_select p a [] h = absurd h
In-of_select p a (x ∷ xs) h = elim (Bool-cases (p x)) [
  | inl keep ↦
      let h' : In a (x ∷ select p xs) = rw keep at h in
      elim h' [
        | inl e ↦ (inl e, rw e keep)
        | inr r ↦ let (m, q) = In-of_select p a xs r in (inr m, q)
      ]
  | inr leave ↦
      let h' : In a (select p xs) = rw leave at h in
      let (m, q) = In-of_select p a xs h' in (inr m, q)
]

pub In-select :
    {A : Type 0} (p : A → Bool) (a : A) (xs : List A) → In a xs → p a ≡ true → In a (select p xs)
In-select p a [] h q = absurd h
In-select p a (x ∷ xs) (inl e) q = let q' : p x ≡ true = rw e at q in rw q' (inl e)
In-select p a (x ∷ xs) (inr h) q = elim (Bool-cases (p x)) [
  | inl keep ↦ rw keep (inr (In-select p a xs h q))
  | inr leave ↦ rw leave (In-select p a xs h q)
]

-- The set that a loop over the outputs collects and removeOpReturnOutputs filters is, as a list in
-- order, the spendable ones of the outputs that pass the loop's test.
pub candidates-select :
    (access : DataAccess) (tx : Transaction) (p : Output → Bool)
    → remove_op_return_outputs (collect p (outputs access tx))
      ≡ select output_spendable (select p (outputs access tx))
unfolding remove_op_return_outputs outputs
candidates-select access tx p =
    let r = outputs_from-Rising access tx.tx_num 0 tx.raw_outputs in
    rw (collect-select p tx.tx_num 0 _ r)
      (collect-select output_spendable tx.tx_num 0 _ (Rising-select p tx.tx_num 0 _ r))

-- Its members are exactly the spendable outputs that pass the loop's test.
pub In-candidates :
    (access : DataAccess) (tx : Transaction) (p : Output → Bool) (o : Output)
    → In o (remove_op_return_outputs (collect p (outputs access tx)))
      ↔ (In o (outputs access tx) × (p o ≡ true) × (output_spendable o ≡ true))
In-candidates access tx p o = rw (candidates-select access tx p) (
  (λ h.
      let (m, q) = In-of_select output_spendable o (select p (outputs access tx)) h in
      let (m', q') = In-of_select p o (outputs access tx) m in (m', q', q)),
  (λ h. In-select output_spendable o _ (In-select p o _ h.0 h.1) h.2),
)
