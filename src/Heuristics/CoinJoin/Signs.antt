-- ===== src/Heuristics/CoinJoin/Signs.antt =====
-- What a transaction that isCoinjoin accepts looks like.
use block_sci.Prelude.{
  ℕ, suc, ◌+◌, ◌/◌, ◌^◌, ◌≤◌, ◌<◌, ◌≡◌, refl, sym, ap, ◌∙◌, ◌≢◌, ◌↔◌, inl, inr, true, List, [], ◌∷◌,
  Option, none, some, ltb, ltb→lt, ltb_false→le, length, Bool-cases, arith,
}
use block_sci.Chain.Types.{
  InoutData, Transaction, DataAccess, outputs, outputs_from, input_count, output_count,
}
use block_sci.Heuristics.Candidates.{In}
use block_sci.Heuristics.CoinJoin.{
  input_addresses, output_values, max_element_of, participant_count, is_joined_value, is_coinjoin,
}
use block_sci.Heuristics.CoinJoin.Counts.{
  occurrences, count_of, count_of-output_values, output_values-IsMap, count_of-In, In-count_of,
  max_element_of_lem,
}

length-outputs_from :
    (access : DataAccess) (t i : ℕ) (os : List InoutData)
    → length (outputs_from access t i os) ≡ length os
length-outputs_from access t i [] = refl
length-outputs_from access t i (o ∷ os) = ap suc (length-outputs_from access t (suc i) os)

pub length-outputs :
    (access : DataAccess) (tx : Transaction) → length (outputs access tx) ≡ output_count tx
unfolding outputs
length-outputs access tx = length-outputs_from access tx.tx_num 0 tx.raw_outputs

pub participant_count_small :
    (tx : Transaction) → output_count tx < 2 ^ 16 → participant_count tx ≡ (output_count tx + 1) / 2
unfolding participant_count
participant_count_small tx small = omega (arith, small)

-- The signs of a coinjoin: a value that is not one of the two usual ones occurs once for every two outputs, no value occurs more often, and there are as many inputs and as many input addresses.
pub record IsJoined (access : DataAccess) (tx : Transaction) (value : ℕ) : Type 0 where
  pub enough_outputs : 3 ≤ output_count tx
  pub enough_inputs : (2 ≤ input_count tx) × ((output_count tx + 1) / 2 ≤ input_count tx)
  pub enough_addresses : (output_count tx + 1) / 2 ≤ length (input_addresses tx.inputs [])
  pub unusual : (value ≢ 546) × (value ≢ 2730)
  pub joined : occurrences value (outputs access tx) ≡ (output_count tx + 1) / 2
  pub most : (w : ℕ) → occurrences w (outputs access tx) ≤ occurrences value (outputs access tx)

is_joined_value_lem :
    (k : ℕ) (r : Option (ℕ × ℕ))
    → is_joined_value k r ≡ true
    → (v : ℕ) × (r ≡ some (v, k)) × (v ≢ 546) × (v ≢ 2730)
unfolding is_joined_value
is_joined_value_lem k none h = absurd (ground (arith, h))
is_joined_value_lem k (some (v, c)) h =
    let same : c ≡ k = ground (arith, h) in
    (v, ap (λ x. some (v, x)) same, ground (arith, h), ground (arith, h))

module _ (order : List (ℕ × ℕ) → List (ℕ × ℕ)) where
  is_coinjoin_guards :
      (access : DataAccess) (tx : Transaction)
      → is_coinjoin order access tx ≡ true
      → (2 ≤ input_count tx)
        × (3 ≤ output_count tx)
        × (participant_count tx ≤ input_count tx)
        × (participant_count tx ≤ length (input_addresses tx.inputs []))
        × (is_joined_value
              (participant_count tx)
              (max_element_of (order (output_values (outputs access tx) [])))
            ≡ true)
  unfolding is_coinjoin
  is_coinjoin_guards access tx h = ground (arith, h)

  -- If the walk of a map meets just its entries, every transaction of fewer than 2 ^ 16 outputs
  -- that isCoinjoin accepts has the signs of a coinjoin for some value: it occurs once for every
  -- two outputs, rounded up, no value occurs more often, it is neither 546 nor 2730, and there are
  -- as many inputs and as many input addresses.
  pub is_coinjoin-IsJoined :
      (access : DataAccess) (tx : Transaction)
      → ((e : ℕ × ℕ) (l : List (ℕ × ℕ)) → In e (order l) ↔ In e l)
      → output_count tx < 2 ^ 16
      → is_coinjoin order access tx ≡ true
      → (value : ℕ) × IsJoined access tx value
  is_coinjoin-IsJoined access tx same_entries small h =
      let (a, b, c, d, e) = is_coinjoin_guards access tx h in
      let (v, found, x, y) = is_joined_value_lem _ _ e in
      let outs = outputs access tx in
      let counts = output_values outs [] in
      let k : participant_count tx ≡ (output_count tx + 1) / 2 = participant_count_small tx small in
      let (m, top) = max_element_of_lem (order counts) (v, participant_count tx) found in
      let len : length outs ≡ output_count tx = length-outputs access tx in
      let total : (w : ℕ) → count_of w counts ≡ occurrences w outs =
        λ w. count_of-output_values w outs [] (omega (arith, len, small)) ∙ omega arith in
      let mine : occurrences v outs ≡ participant_count tx =
        sym (total v)
        ∙ count_of-In v (participant_count tx) counts (output_values-IsMap outs [] tt)
            ((same_entries _ counts).0 m) in
      (
        v,
        record {
          enough_outputs = b;
          enough_inputs = (a, omega (arith, k, c));
          enough_addresses = omega (arith, k, d);
          unusual = (x, y);
          joined = mine ∙ k;
          most = λ w. elim (Bool-cases (ltb 0 (occurrences w outs))) [
            | inl some_times ↦ omega (
              arith,
              mine,
              top (w, occurrences w outs)
                  ((same_entries _ counts).1
                    (In-count_of w (occurrences w outs) counts (total w) (ltb→lt _ _ some_times))),
            )
            | inr never ↦ omega (arith, ltb_false→le _ _ never)
          ];
        },
      )
