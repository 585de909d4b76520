-- ===== src/Parser/Recording/Agree.antt =====
-- What ties the three maps of unspent outputs together, and that a spent input keeps it.
use block_sci.Chain.Types.{AddressType, OutputPointer}
use block_sci.Parser.Utxo.{
  RawOutputPointer, same_pointer, Utxo, HashMap, get_output_pointer, spend_inputs,
}
use block_sci.Parser.Utxo.Step.{remove-back, spend_inputs-cons}
use block_sci.Parser.Recording.{
  same_output, OutputMap, recorded, output_pointers, has_spend_data, erase_output, record_inputs,
  spend_output, spend_outputs,
}
use block_sci.Prelude.{
  ℕ, ◌≤◌, ◌<◌, ◌≡◌, refl, sym, ap, ◌∙◌, subst, ◌⊎◌, inl, inr, true, false, List, [], ◌∷◌, Option,
  none, some, lt→ltb, ◌==◌, if◌then◌else◌, Bool-cases, arith,
}

-- The output has a number not used yet, of the transaction `n` from its output `i` on, or later.
abbrev pub IsAhead : ℕ → ℕ → OutputPointer → Type 0
IsAhead n i k = (n < k.tx_num) ⊎ ((k.tx_num ≡ n) × (i ≤ k.inout_num))

-- The output is of an earlier transaction with another hash, or is one before `i` of this one.
abbrev pub IsBehind : ℕ → ℕ → ℕ → RawOutputPointer → Utxo → Type 0
IsBehind n h i p u =
    ((u.tx_num < n) × ((p.hash == h) ≡ false))
    ⊎ ((u.tx_num ≡ n) × (p.hash ≡ h) × (p.output_num < i))

module _ (H : HashMap) (S : OutputMap ℕ) {V : Type 0} (G : OutputMap V) where
  -- Each unspent output has a positive script number, and its keys if it is of a type that has some.
  abbrev pub IsKept : S.Map → G.Map → OutputPointer → AddressType → Type 0
  IsKept s g k type =
      ((n : ℕ) × (S.find k s ≡ some n) × (0 < n))
      × (has_spend_data type ≡ true → (v : V) × (G.find k g ≡ some v))

  -- Transaction `n` of hash `h` is being connected, and its outputs before `i` are there.
  pub record Agree (n h i : ℕ) (m : H.Map) (s : S.Map) (g : G.Map) : Type 0 where
    pub kept :
        (p : RawOutputPointer) (u : Utxo)
        → H.find p m ≡ some u
        → IsKept s g (get_output_pointer p u) u.type
    pub one_hash :
        (p q : RawOutputPointer) (u v : Utxo)
        → H.find p m ≡ some u
        → H.find q m ≡ some v
        → u.tx_num ≡ v.tx_num
        → p.hash ≡ q.hash
    pub behind : (p : RawOutputPointer) (u : Utxo) → H.find p m ≡ some u → IsBehind n h i p u
    pub no_script : (k : OutputPointer) → IsAhead n i k → S.find k s ≡ none
    pub no_keys : (k : OutputPointer) → IsAhead n i k → G.find k g ≡ none

  -- The map of the keys without those of a spent output.
  abbrev without_keys : OutputPointer → AddressType → G.Map → G.Map
  without_keys k type g = if has_spend_data type then G.remove k g else g

  find-without_keys :
      (k j : OutputPointer) (type : AddressType) (g : G.Map)
      → same_output k j ≡ false
      → G.find j (without_keys k type g) ≡ G.find j g
  find-without_keys k j type g other = elim (Bool-cases (has_spend_data type)) [
    | inl has ↦ rw has (G.find-remove k j g ∙ rw other refl)
    | inr has_none ↦ rw has_none refl
  ]

  without_keys-none :
      (k j : OutputPointer) (type : AddressType) (g : G.Map)
      → G.find j g ≡ none
      → G.find j (without_keys k type g) ≡ none
  without_keys-none k j type g e = elim (Bool-cases (has_spend_data type)) [
    | inl has ↦ rw has (ground (arith, e, G.find-remove k j g))
    | inr has_none ↦ rw has_none e
  ]

  -- Two unspent outputs have two numbers.
  other_output :
      (n h i : ℕ) (m : H.Map) (s : S.Map) (g : G.Map) (p q : RawOutputPointer) (u v : Utxo)
      → Agree n h i m s g
      → H.find p m ≡ some u
      → H.find q m ≡ some v
      → same_pointer p q ≡ false
      → same_output (get_output_pointer p u) (get_output_pointer q v) ≡ false
  other_output n h i m s g p q u v a e f other = elim (Bool-cases (u.tx_num == v.tx_num)) [
    | inl same ↦
        let hashes : p.hash ≡ q.hash = a.one_hash p q u v e f (ground (arith, same)) in
        ground (arith, other, hashes, same)
    | inr different ↦ ground (arith, different)
  ]

  -- A spent output is taken out of the three maps.
  spent-Agree :
      (n h i : ℕ) (m : H.Map) (s : S.Map) (g : G.Map) (p : RawOutputPointer) (u : Utxo)
      → Agree n h i m s g
      → H.find p m ≡ some u
      → Agree n h i
          (H.remove p m)
          (S.remove (get_output_pointer p u) s)
          (without_keys (get_output_pointer p u) u.type g)
  spent-Agree n h i m s g p u a e = record {
    kept = λ q v f.
        let before = remove-back H p q v m f in
        let apart = other_output n h i m s g p q u v a e before (not_spent q v f) in
        let ((k, there, positive), keys) = a.kept q v before in
        let k' = get_output_pointer p u in
        (
          (
            k,
            S.find-remove (get_output_pointer p u) (get_output_pointer q v) s ∙ rw apart there,
            positive,
          ),
          λ has.
              let (w, found) = keys has in
              (
                w,
                find-without_keys (get_output_pointer p u) (get_output_pointer q v) u.type g apart
                    ∙ found,
              ),
        );
    one_hash =
        λ q r v w f l. a.one_hash q r v w (remove-back H p q v m f) (remove-back H p r w m l);
    behind = λ q v f. a.behind q v (remove-back H p q v m f);
    no_script =
        λ k ahead. ground (arith, a.no_script k ahead, S.find-remove (get_output_pointer p u) k s);
    no_keys = λ k ahead. without_keys-none (get_output_pointer p u) k u.type g (a.no_keys k ahead);
  }
    where
      not_spent :
          (q : RawOutputPointer) (v : Utxo)
          → H.find q (H.remove p m) ≡ some v
          → same_pointer p q ≡ false
      not_spent q v f = elim (Bool-cases (same_pointer p q)) [
        | inl same ↦ absurd (ground (arith, f, same, H.find-remove p q m))
        | inr other ↦ other
      ]

  spend_output-eq :
      (k : OutputPointer) (type : AddressType) (s : S.Map) (g : G.Map)
      → IsKept s g k type
      → (v : Option V) × (spend_output G k type g ≡ some (v, without_keys k type g))
  unfolding spend_output erase_output
  spend_output-eq k type s g (_, keys) = elim (Bool-cases (has_spend_data type)) [
    | inl has ↦ let (v, found) = keys has in (some v, rw (has, found) refl)
    | inr has_none ↦ (none, rw has_none refl)
  ]

  record_inputs-cons :
      (k : OutputPointer) (ks : List OutputPointer) (j : ℕ) (js : List ℕ) (s t : S.Map)
      → S.find k s ≡ some j
      → 0 < j
      → record_inputs S ks (S.remove k s) ≡ recorded (js, t)
      → record_inputs S (k ∷ ks) s ≡ recorded (j ∷ js, t)
  unfolding record_inputs erase_output
  record_inputs-cons k ks j js s t found positive rest =
      ground (arith, found, rest, lt→ltb 0 j positive)

  spend_outputs-cons :
      (p : RawOutputPointer) (ps : List RawOutputPointer) (u : Utxo) (us : List Utxo) (v : Option V)
      (vs : List (Option V)) (g r t : G.Map)
      → spend_output G (get_output_pointer p u) u.type g ≡ some (v, r)
      → spend_outputs G ps us r ≡ some (vs, t)
      → spend_outputs G (p ∷ ps) (u ∷ us) g ≡ some (v ∷ vs, t)
  unfolding spend_outputs
  spend_outputs-cons p ps u us v vs g r t taken rest = ground (arith, taken, rest)

  -- The inputs that connectUTXOs has found are found in the other maps too.
  pub spend_inputs-Agree :
      (n h i : ℕ) (ps : List RawOutputPointer) (m : H.Map) (s : S.Map) (g : G.Map) (us : List Utxo)
      (t : H.Map)
      → Agree n h i m s g
      → spend_inputs H ps m ≡ some (us, t)
      → (ks : List ℕ) × (vs : List (Option V)) × (s' : S.Map) × (g' : G.Map) × (record_inputs S
            (output_pointers ps us)
            s
          ≡ recorded (ks, s'))
        × (spend_outputs G ps us g ≡ some (vs, g'))
        × Agree n h i t s' g'
  unfolding spend_inputs record_inputs spend_outputs
  spend_inputs-Agree n h i [] m s g us t a e =
      let stays : t ≡ m = ground (arith, e) in
      ([], [], s, g, refl, refl, subst (λ x. Agree n h i x s g) (sym stays) a)
  spend_inputs-Agree n h i (p ∷ ps) m s g us t a e =
      let (u, vs, same, there, rest) = spend_inputs-cons H p ps m us t e in
      let k = get_output_pointer p u in
      let ((j, found, positive), keys) = a.kept p u there in
      let (w, taken) = spend_output-eq k u.type s g ((j, found, positive), keys) in
      let (ks, ws, s', g', recorded_all, spent_all, agrees) =
        spend_inputs-Agree n h i ps (H.remove p m) (S.remove k s) (without_keys k u.type g) vs t
          (spent-Agree n h i m s g p u a there) rest in
      (
        j ∷ ks,
        w ∷ ws,
        s',
        g',
        ap (λ l. record_inputs S (output_pointers (p ∷ ps) l) s) same
            ∙ record_inputs-cons k (output_pointers ps vs) j ks s s' found positive recorded_all,
        ap (λ l. spend_outputs G (p ∷ ps) l g) same
            ∙ spend_outputs-cons p ps u vs w ws g (without_keys k u.type g) g' taken spent_all,
        agrees,
      )
