-- ===== src/Heuristics/Change/Meaning.antt =====
-- What each change heuristic's set contains, in terms of the transaction.
use block_sci.Prelude.{
  ℕ, zero, suc, ◌%◌, ◌^◌, ◌≤◌, ◌<◌, ◌≡◌, refl, ◌≢◌, ◌⊎◌, inl, inr, ◌↔◌, Bool, true, not, List, [],
  ◌∷◌, some, ltb, ◌==◌, All, min, Bool-cases, ltb→lt, lt→ltb, ◌*◌, ◌∙◌, ap, sym, subst, ==_iff,
  arith,
}
use native.Mathlib.Nat.{pow-le-pow_right, pow-succ', mod-eq_of_lt}
use block_sci.Chain.Types.{
  Output, InoutData, DataAccess, Transaction, Address, AddressType, same_type, same_address,
  outputs,
}
use block_sci.Heuristics.Candidates.{
  collect, remove_op_return_outputs, output_spendable, In, In-candidates,
}
use block_sci.Heuristics.Change.{
  smallest_value, change_by_optimal_change, all_inputs_same_type, change_by_address_type,
  outputs_of_type, same_bool, change_by_locktime, locktime_matches, is_input_address,
  change_by_address_reuse, power_of_ten, change_by_power_of_ten_value,
}

-- A number is below the minimum that the loop computes exactly if it is below its start and below
-- every input's value.
below_smallest :
    (v m : ℕ) (is : List InoutData)
    → (v < smallest_value m is) ↔ ((v < m) × All (λ i. v < i.value) is)
unfolding smallest_value
below_smallest v m [] = (λ h. (h, tt), λ h. h.0)
below_smallest v m (i ∷ is) =
    let (f, g) = below_smallest v (min m i.value) is in
    ((λ h. let (a, b) = f h in (omega arith, (omega arith, b))), (λ h. g (omega arith, h.1.1)))

below-All :
    (v : ℕ) (i : InoutData) (is : List InoutData)
    → (ltb v (smallest_value i.value (i ∷ is)) ≡ true) ↔ All (λ j. v < j.value) (i ∷ is)
below-All v i is =
    let (f, g) = below_smallest v i.value (i ∷ is) in
    ((λ h. (f (ltb→lt _ _ h)).1), (λ h. lt→ltb _ _ (g (h.0, h))))

-- For a transaction with inputs, change_by_optimal_change returns exactly the spendable outputs
-- whose value is below that of every input.
pub In-change_by_optimal_change :
    (access : DataAccess) (tx : Transaction) (o : Output) (i : InoutData) (is : List InoutData)
    → tx.inputs ≡ i ∷ is
    → (s : List Output) × (change_by_optimal_change access tx ≡ some s)
      × (In o s ↔ (
          In o (outputs access tx)
          × All (λ j. o.value < j.value) (i ∷ is)
          × (output_spendable o ≡ true)))
unfolding change_by_optimal_change
In-change_by_optimal_change access tx o i is h =
    let test : Output → Bool = λ o. ltb o.value (smallest_value i.value (i ∷ is)) in
    let (f, g) = In-candidates access tx test o in
    (
      remove_op_return_outputs (collect test (outputs access tx)),
      rw h,
      (
        (λ m. let (a, b, c) = f m in (a, (below-All o.value i is).0 b, c)),
        (λ m. g (m.0, (below-All o.value i is).1 m.1, m.2)),
      ),
    )

same_type_iff : (s t : AddressType) → (same_type s t ≡ true) ↔ (s ≡ t)
same_type_iff s t = ground arith

All-same_type :
    (t : AddressType) (is : List InoutData)
    → (all_inputs_same_type t is ≡ true) ↔ All (λ i. i.address.type ≡ t) is
unfolding all_inputs_same_type
All-same_type t [] = ((λ h. tt), (λ h. refl))
All-same_type t (i ∷ is) =
    let (f, g) = All-same_type t is in
    let (p, q) = same_type_iff i.address.type t in
    elim (Bool-cases (same_type i.address.type t)) [
      | inl e ↦ rw e ((λ h. (p e, f h)), (λ h. g h.1))
      | inr e ↦ rw e ((λ h. absurd (cc)), (λ h. absurd (cc (q h.0))))
    ]

same_address_iff : (a b : Address) → (same_address a b ≡ true) ↔ (a ≡ b)
same_address_iff a b = (
  (λ h.
      let t : a.type ≡ b.type = (same_type_iff a.type b.type).0 (ground arith) in
      ground (arith, t)),
  (λ h. rw h (ground arith)),
)

-- The input addresses contain an address exactly if some input has it.
input_address_found :
    (is : List InoutData) (a : Address)
    → is_input_address is a ≡ true
    → (i : InoutData) × In i is × (i.address ≡ a)
unfolding is_input_address
input_address_found [] a h = absurd (cc)
input_address_found (i ∷ is) a h = elim (Bool-cases (same_address i.address a)) [
  | inl e ↦ (i, inl refl, (same_address_iff i.address a).0 e)
  | inr e ↦ let (j, m, q) = input_address_found is a (rw e at h) in (j, inr m, q)
]

input_address_finds :
    (is : List InoutData) (a : Address) (i : InoutData)
    → In i is
    → i.address ≡ a
    → is_input_address is a ≡ true
unfolding is_input_address
input_address_finds [] a i m e = absurd m
input_address_finds (j ∷ is) a i (inl p) e =
    rw ((same_address_iff j.address a).1 (ap (λ (k : InoutData). k.address) (sym p) ∙ e))
input_address_finds (j ∷ is) a i (inr m) e = rw (input_address_finds is a i m e) (ground arith)

-- change_by_address_reuse returns exactly the spendable outputs whose address is that of an input.
pub In-change_by_address_reuse :
    (access : DataAccess) (tx : Transaction) (o : Output)
    → In o (change_by_address_reuse access tx) ↔ (
        In o (outputs access tx)
        × ((i : InoutData) × In i tx.inputs × (i.address ≡ o.address))
        × (output_spendable o ≡ true))
unfolding change_by_address_reuse
In-change_by_address_reuse access tx o =
    let (f, g) = In-candidates access tx (λ o. is_input_address tx.inputs o.address) o in
    (
      (λ h. let (a, b, c) = f h in (a, input_address_found tx.inputs o.address b, c)),
      (λ h. let (i, m, e) = h.1 in g (h.0, input_address_finds tx.inputs o.address i m e, h.2)),
    )

In-outputs_of_type :
    (access : DataAccess) (tx : Transaction) (o : Output) (t : AddressType)
    → In o (remove_op_return_outputs (outputs_of_type access tx t)) ↔ (
        In o (outputs access tx)
        × (o.address.type ≡ t)
        × All (λ j. j.address.type ≡ t) tx.inputs
        × (output_spendable o ≡ true))
In-outputs_of_type access tx o t =
    let (f, g) = In-candidates access tx (λ o. same_type o.address.type t) o in
    let (p, q) = same_type_iff o.address.type t in
    let (all, any) = All-same_type t tx.inputs in
    elim (Bool-cases (all_inputs_same_type t tx.inputs)) [
      | inl e ↦ rw e ((λ h. let (a, b, c) = f h in (a, p b, all e, c)), (λ h. g (h.0, q h.1, h.3)))
      | inr e ↦
          rw e ((λ h. absurd (unfold remove_op_return_outputs in h)), (λ h. absurd (cc (any h.2))))
    ]

-- For a transaction with inputs, change_by_address_type returns exactly the spendable outputs that
-- have the type of the first input, and none unless all inputs have that type.
pub In-change_by_address_type :
    (access : DataAccess) (tx : Transaction) (o : Output) (i : InoutData) (is : List InoutData)
    → tx.inputs ≡ i ∷ is
    → (s : List Output) × (change_by_address_type access tx ≡ some s)
      × (In o s ↔ (
          In o (outputs access tx)
          × (o.address.type ≡ i.address.type)
          × All (λ j. j.address.type ≡ i.address.type) (i ∷ is)
          × (output_spendable o ≡ true)))
unfolding change_by_address_type
In-change_by_address_type access tx o i is h = (
  remove_op_return_outputs (outputs_of_type access tx i.address.type),
  rw h,
  subst
      (λ l. In o (remove_op_return_outputs (outputs_of_type access tx i.address.type)) ↔ (
        In o (outputs access tx)
        × (o.address.type ≡ i.address.type)
        × All (λ j. j.address.type ≡ i.address.type) l
        × (output_spendable o ≡ true)))
      h (In-outputs_of_type access tx o i.address.type),
)

same_positive : (a b : ℕ) → (same_bool (ltb 0 a) (ltb 0 b) ≡ true) ↔ ((0 < a) ↔ (0 < b))
same_positive zero zero = ground arith
same_positive zero (suc b) = ground arith
same_positive (suc a) zero = ground arith
same_positive (suc a) (suc b) = ground arith

locktime_matches_iff :
    (access : DataAccess) (tx : Transaction) (o : Output)
    → (locktime_matches access tx o ≡ true) ↔ (
        (o.spending_tx_index ≡ 0)
        ⊎ ((0 < (access.get_tx o.spending_tx_index).locktime) ↔ (0 < tx.locktime)))
locktime_matches_iff access tx o =
    let (p, q) = same_positive (access.get_tx o.spending_tx_index).locktime tx.locktime in
    elim (Bool-cases (o.spending_tx_index == 0)) [
      | inl e ↦ rw (e, locktime_matches) ((λ h. inl ((==_iff _ _).0 e)), (λ h. refl))
      | inr e ↦
          rw (e, locktime_matches)
            (
              (λ h. inr (p h)),
              (λ h. elim h [
                | inl z ↦ absurd (cc ((==_iff o.spending_tx_index 0).1 z))
                | inr z ↦ q z
              ]),
            )
    ]

-- change_by_locktime returns exactly the spendable outputs that are unspent or that are spent by a
-- transaction whose locktime is positive just when this one's is.
pub In-change_by_locktime :
    (access : DataAccess) (tx : Transaction) (o : Output)
    → In o (change_by_locktime access tx) ↔ (
        In o (outputs access tx)
        × ((o.spending_tx_index ≡ 0)
            ⊎ ((0 < (access.get_tx o.spending_tx_index).locktime) ↔ (0 < tx.locktime)))
        × (output_spendable o ≡ true))
unfolding change_by_locktime
In-change_by_locktime access tx o =
    let (f, g) = In-candidates access tx (locktime_matches access tx) o in
    let (p, q) = locktime_matches_iff access tx o in
    ((λ h. let (a, b, c) = f h in (a, p b, c)), (λ h. g (h.0, q h.1, h.2)))

one_le_power : (d : ℕ) → 1 ≤ 10 ^ d
one_le_power zero = omega arith
one_le_power (suc d) = omega (arith, one_le_power d)

power_of_ten_step : (d v : ℕ) → v * 10 ^ d < 2 ^ 64 → power_of_ten d v ≡ v * 10 ^ d
unfolding power_of_ten
power_of_ten_step zero v h = omega arith
power_of_ten_step (suc d) v h =
    let small : v * 10 < 2 ^ 64 = grind (arith, one_le_power d, pow-succ' 10 d) in
    rw (mod-eq_of_lt {n = v * 10} {m = 2 ^ 64} small) (
      power_of_ten_step d (v * 10) (omega (arith, ap (λ (t : ℕ). v * t) (pow-succ' 10 d)))
      ∙ omega (arith, ap (λ (t : ℕ). v * t) (pow-succ' 10 d)))

-- For up to 19 digits, change_by_power_of_ten_value returns exactly the spendable outputs whose
-- value is no multiple of that power of ten.
pub In-change_by_power_of_ten_value :
    (access : DataAccess) (tx : Transaction) (o : Output) (digits : ℕ)
    → digits ≤ 19
    → In o (change_by_power_of_ten_value access tx digits)
      ↔ (In o (outputs access tx) × (o.value % 10 ^ digits ≢ 0) × (output_spendable o ≡ true))
unfolding change_by_power_of_ten_value
In-change_by_power_of_ten_value access tx o digits h =
    let e : power_of_ten digits 1 ≡ 10 ^ digits =
      power_of_ten_step digits 1 (omega (arith, pow-le-pow_right {n = 10} (omega arith) h))
      ∙ omega arith in
    rw e (
      let (f, g) = In-candidates access tx (λ o. not (o.value % 10 ^ digits == 0)) o in
      let (p, q) = not_zero (o.value % 10 ^ digits) in
      ((λ h. let (a, b, c) = f h in (a, p b, c)), (λ h. g (h.0, q h.1, h.2))))
  where
    not_zero : (n : ℕ) → (not (n == 0) ≡ true) ↔ (n ≢ 0)
    not_zero zero = ground arith
    not_zero (suc n) = ground arith
