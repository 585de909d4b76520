-- ===== src/Parser/RawTx/HeaderAgrees.antt =====
-- The TransactionHeader constructor beside RawTransaction::load.
use mathlib.Core.Path.{fun_ext}
use native.Mathlib.Nat.{add-zero}
use block_sci.Prelude.{
  ℕ, zero, suc, ◌+◌, ◌-◌, ◌≤◌, ◌≡◌, refl, ap, ◌∙◌, inl, inr, Bool, true, false, List, [], ◌∷◌, leb,
  leb-false, leb→le, leb_false→lt, length, length-drop, Bool-cases, arith,
}
use block_sci.Prelude.Int.{ℤ}
use block_sci.Parser.Reader.{
  Reader, Result, ok, fault, aborted, ◌>>=◌, ahead, has, advance, read_next,
  read_variable_length_integer,
}
use block_sci.Parser.Reader.CompactSize.{drop-add, bump, bump-bump}
use block_sci.Parser.RawTx.{
  RawInput, load_slice, load_input, load_output, load_many, load_witness, load_witnesses, load_if,
  Counted, u32, read_input_count, RawTransaction, load, TransactionHeader, skip_slice, skip_input,
  skip_output, skip_many, skip_witness, skip_if, read_header,
}

abbrev forget : {A : Type 0} → A × Reader → Result Reader
forget p = ok p.1

>>=-assoc :
    {A B C : Type 0} (m : Result A) (f : A → Result B) (g : B → Result C)
    → (m >>= f) >>= g ≡ m >>= λ a. (f a >>= g)
>>=-assoc (ok a) f g = refl
>>=-assoc fault f g = refl
>>=-assoc aborted f g = refl

>>=-cong :
    {A B : Type 0} (m : Result A) (f g : A → Result B) → ((a : A) → f a ≡ g a) → m >>= f ≡ m >>= g
>>=-cong m f g h = ap (λ k. m >>= k) (fun_ext h)

leb_shift : (a b n : ℕ) → a ≤ n → leb b (n - a) ≡ leb (a + b) n
leb_shift a b n h = ground arith

length_ahead : (a : ℕ) (r : Reader) → length (ahead (bump a r)) ≡ length (ahead r) - a
length_ahead a r = ap length (drop-add r.offset a r.file) ∙ length-drop a (ahead r)

unit_right : {A : Type 0} (m : Result A) → (m >>= λ a. ok a) ≡ m
unit_right (ok a) = refl
unit_right fault = refl
unit_right aborted = refl

advance-add : (a b : ℕ) (r : Reader) → advance (a + b) r ≡ (advance a r >>= advance b)
unfolding advance has
advance-add a b r = elim (Bool-cases (leb a (length (ahead r)))) [
  | inl e ↦ rw (
    e,
    length_ahead a r,
    leb_shift a b (length (ahead r)) (leb→le _ _ e),
    bump-bump a b (a + b) r refl,
  )
  | inr e ↦ rw (e, leb-false (a + b) (length (ahead r)) (omega (arith, leb_false→lt _ _ e)))
]

read_next-forget : (w : ℕ) (r : Reader) → (read_next w r >>= forget) ≡ advance w r
unfolding read_next advance
read_next-forget w r = elim (Bool-cases (has r w)) [ inl e ↦ rw e | inr e ↦ rw e ]

skip_slice-advance : (n : ℕ) (r : Reader) → skip_slice n r ≡ (load_slice r >>= λ p. advance n p.1)
unfolding skip_slice load_slice
skip_slice-advance n r = simp (>>=-assoc, advance-add)

skip_slice-forget : (r : Reader) → skip_slice 0 r ≡ (load_slice r >>= forget)
unfolding skip_slice load_slice
skip_slice-forget r = simp (>>=-assoc, add-zero, unit_right)

skip_output-forget : (r : Reader) → skip_output r ≡ (load_output r >>= forget)
unfolding skip_output load_output
skip_output-forget r = simp (← read_next-forget, skip_slice-forget, >>=-assoc)

skip_input-forget : (r : Reader) → skip_input r ≡ (load_input r >>= forget)
unfolding skip_input load_input
skip_input-forget r =
    ap (λ (m : Result Reader). m >>= skip_slice 4) (advance-add 32 4 r)
    ∙ simp (← read_next-forget, skip_slice-advance, >>=-assoc)

skip_many-forget :
    {A : Type 0} (f : Reader → Result Reader) (g : Reader → Result (A × Reader)) (n : ℕ)
    (r : Reader)
    → ((r : Reader) → f r ≡ (g r >>= forget))
    → skip_many f n r ≡ (load_many g n r >>= forget)
unfolding skip_many load_many
skip_many-forget f g zero r h = refl
skip_many-forget f g (suc n) r h =
    simp (h, >>=-assoc) (>>=-cong (g r) _ _ (λ p. skip_many-forget f g n p.1 h))

skip_witness-forget : (i : RawInput) (r : Reader) → skip_witness r ≡ (load_witness i r >>= forget)
unfolding skip_witness load_witness
skip_witness-forget i r =
    >>=-cong (read_variable_length_integer r) _ _
      (λ p. skip_many-forget (skip_slice 0) load_slice p.0 p.1 skip_slice-forget)
    ∙ simp >>=-assoc

skip_witnesses-forget :
    (is : List RawInput) (r : Reader)
    → skip_many skip_witness (length is) r ≡ (load_witnesses is r >>= forget)
unfolding skip_many load_witnesses
skip_witnesses-forget [] r = refl
skip_witnesses-forget (i ∷ is) r =
    ap (λ (m : Result Reader). m >>= λ s. skip_many skip_witness (length is) s)
      (skip_witness-forget i r)
    ∙ simp >>=-assoc (>>=-cong (load_witness i r) _ _ (λ p. skip_witnesses-forget is p.1))

skip_if-forget :
    (b : Bool) (is : List RawInput) (r : Reader)
    → skip_if b (length is) r ≡ (load_if b is r >>= forget)
skip_if-forget true is r = skip_witnesses-forget is r
skip_if-forget false is r = refl

-- load_many gives as many elements as it was asked for.
load_many_counted :
    {A B : Type 0} (g : Reader → Result (A × Reader)) (n : ℕ) (r : Reader)
    (k : ℕ → List A → Reader → Result B)
    → (load_many g n r >>= λ p. k n p.0 p.1) ≡ (load_many g n r >>= λ p. k (length p.0) p.0 p.1)
unfolding load_many
load_many_counted g zero r k = refl
load_many_counted g (suc n) r k =
    simp >>=-assoc
      (>>=-cong (g r) _ _ (λ x. load_many_counted g n x.1 (λ m l s. k (suc m) (x.0 ∷ l) s)))

skip_inputs-forget :
    (n : ℕ) (r : Reader) → skip_many skip_input n r ≡ (load_many load_input n r >>= forget)
skip_inputs-forget n r = skip_many-forget skip_input load_input n r skip_input-forget

skip_outputs-forget :
    (n : ℕ) (r : Reader) → skip_many skip_output n r ≡ (load_many load_output n r >>= forget)
skip_outputs-forget n r = skip_many-forget skip_output load_output n r skip_output-forget

-- What both do behind the inputs, `n` inputs of which are to have a witness.
abbrev header_end :
    ℕ × ℕ → ℕ → ℕ × Reader → Counted → ℕ → Reader → Result (TransactionHeader × Reader)
header_end junk start v c n r3 = read_variable_length_integer r3 >>= λ o.
    (load_many load_output o.0 o.1 >>= λ os.
    (skip_if c.contains_segwit n os.1 >>= λ r6.
    (read_next 4 r6 >>= λ t. ok (
      record {
        version = v.0;
        input_count = junk.0;
        output_count = junk.1;
        base_size = u32 (
            u32 (u32 (v.1.offset - start) + u32 (os.1.offset - c.counted_from))
            + u32 (t.1.offset - r6.offset));
        real_size = u32 (t.1.offset - start);
        locktime = t.0;
      },
      t.1,
    ))))

-- The header that corresponds to a loaded transaction.
abbrev pub header_of : ℕ × ℕ → RawTransaction → TransactionHeader
header_of junk tx = record {
  version = tx.version;
  input_count = junk.0;
  output_count = junk.1;
  base_size = tx.base_size;
  real_size = tx.real_size;
  locktime = tx.locktime;
}

-- At every place of every file the TransactionHeader constructor ends as RawTransaction::load
-- does, in the same fault or at the same place, with the same version, sizes and locktime. Its two
-- counts are what the memory held.
pub read_header-load :
    (junk : ℕ × ℕ) (tx_num : ℕ) (height : ℤ) (w : Bool) (r : Reader)
    → read_header junk r ≡ (load tx_num height w r >>= λ p. ok (header_of junk p.0, p.1))
unfolding read_header load
read_header-load junk tx_num height w r =
    simp (skip_inputs-forget, skip_outputs-forget, >>=-assoc)
      (>>=-cong (read_next 4 r) _ _ (λ v. >>=-cong (read_input_count v.1) _ _ (λ c.
        load_many_counted load_input c.0.input_count c.1
          (λ n is r3. header_end junk r.offset v c.0 n r3)
        ∙ simp (skip_if-forget, >>=-assoc))))
