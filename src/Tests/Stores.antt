-- ===== src/Tests/Stores.antt =====
-- Association lists as the two stores that the parser uses.
use block_sci.Prelude.{
  ℕ, ◌≡◌, refl, sym, ap, ◌∙◌, subst, inl, inr, Bool, true, false, List, [], ◌∷◌, Option, none, some,
  ◌==◌, ==_refl, if◌then◌else◌, Bool-cases, arith,
}
use block_sci.Parser.AddressState.{Uint160, same_hash, AmongEntries, KeyValue}
use block_sci.Parser.AddressState.Consistent.{same_hash→≡}
use block_sci.Parser.Utxo.Step.{same_pointer→≡}
use block_sci.Parser.Utxo.{RawOutputPointer, same_pointer, Utxo, HashMap}

abbrev pub Pairs : Type 0
Pairs = List (Uint160 × ℕ)

abbrev pub get : Uint160 → Pairs → Option ℕ
get h [] = none
get h ((j, n) ∷ s) = if same_hash j h then some n else get h s

abbrev pub insert : Uint160 → ℕ → Pairs → Pairs
insert h n s = elim (get h s) [ none ↦ (h, n) ∷ s | some m ↦ s ]

abbrev pub delete : Uint160 → Pairs → Pairs
delete h [] = []
delete h ((j, n) ∷ s) = let rest = delete h s in if same_hash h j then rest else (j, n) ∷ rest

abbrev pub holds : Pairs → Uint160 × ℕ → Bool
holds s (h, n) = elim (get h s) [ none ↦ false | some m ↦ m == n ]

-- The pairs of the second list that the first one answers.
abbrev pub entries_in : Pairs → Pairs → Pairs
entries_in all [] = []
entries_in all (e ∷ s) = let rest = entries_in all s in if holds all e then e ∷ rest else rest

-- Under a test that failed, a second test of the same value fails too.
skip :
    {A : Type 0} (a b : Bool) (u : A) (o : Option A)
    → a ≡ b
    → (if a then none else o) ≡ (if a then none else (if b then some u else o))
skip true b u o e = refl
skip false true u o e = absurd (ground arith)
skip false false u o e = refl

pub get-delete :
    (h j : Uint160) (s : Pairs) → get j (delete h s) ≡ (if same_hash h j then none else get j s)
get-delete h j [] = ground arith
get-delete h j ((k, n) ∷ s) = elim (Bool-cases (same_hash h k)) [
  | inl same ↦
      let e = same_hash→≡ h k same in
      rw same (
        get-delete h j s
        ∙ skip (same_hash h j) (same_hash k j) n (get j s) (ap (λ x. same_hash x j) e))
  | inr other ↦ elim (Bool-cases (same_hash k j)) [
    | inl here ↦
        let e = same_hash→≡ k j here in
        let away : same_hash h j ≡ false = subst (λ x. same_hash h x ≡ false) e other in
        rw (other, here, away) refl
    | inr there ↦ rw (other, there) (get-delete h j s)
  ]
]

holds→get : (s : Pairs) (h : Uint160) (n : ℕ) → holds s (h, n) ≡ true → get h s ≡ some n
holds→get s h n e = ground arith

get→holds : (s : Pairs) (h : Uint160) (n : ℕ) → get h s ≡ some n → holds s (h, n) ≡ true
get→holds s h n e = ground (arith, e, ==_refl n)

pub entries_in-get :
    (all s : Pairs) (h : Uint160) (n : ℕ) → AmongEntries h n (entries_in all s) → get h all ≡ some n
entries_in-get all [] h n m = absurd m
entries_in-get all ((j, k) ∷ s) h n m = elim (Bool-cases (holds all (j, k))) [
  | inl kept ↦
      let m' : AmongEntries h n ((j, k) ∷ entries_in all s) = rw kept at m in
      elim m' [
        | inl (e, f) ↦ ap (λ x. get x all) e ∙ holds→get all j k kept ∙ ap some (sym f)
        | inr m ↦ entries_in-get all s h n m
      ]
  | inr left ↦ entries_in-get all s h n (rw left at m)
]

pub get-entries_in :
    (all s : Pairs) (h : Uint160) (n : ℕ)
    → get h all ≡ some n
    → get h s ≡ some n
    → AmongEntries h n (entries_in all s)
get-entries_in all [] h n e f = absurd (ground (arith, f))
get-entries_in all ((j, k) ∷ s) h n e f = elim (Bool-cases (same_hash j h)) [
  | inl same ↦
      let p = same_hash→≡ j h same in
      let q : k ≡ n = ground (arith, f, same) in
      rw (get→holds all j k (ap (λ x. get x all) p ∙ e ∙ ap some (sym q))) (inl (sym p, sym q))
  | inr other ↦
      let later = get-entries_in all s h n e (ground (arith, f, other)) in
      elim (Bool-cases (holds all (j, k))) [
        | inl kept ↦ rw kept (inr later)
        | inr left ↦ rw left later
      ]
]

pub get-insert :
    (h j : Uint160) (n : ℕ) (s : Pairs)
    → get h s ≡ none
    → get j (insert h n s) ≡ (if same_hash h j then some n else get j s)
get-insert h j n s e = ground (arith, e)

abbrev reserved_hash : Uint160
reserved_hash = record { first = 0; words = record { hash_a = 0; hash_b = 0 } }

abbrev pub pairs : KeyValue
pairs = record {
  Store = Pairs;
  get = get;
  insert = insert;
  put = λ h n s. (h, n) ∷ s;
  delete = delete;
  entries = λ s. entries_in s s;
  reserved = same_hash reserved_hash;
  get-insert = λ h j n s usable e. get-insert h j n s e;
  get-put = λ h j n s. refl;
  get-delete = get-delete;
  get-entries = λ h n s. (λ e. get-entries_in s s h n e e, entries_in-get s s h n);
}

abbrev pub Utxos : Type 0
Utxos = List (RawOutputPointer × Utxo)

abbrev pub find : RawOutputPointer → Utxos → Option Utxo
find p [] = none
find p ((q, u) ∷ m) = if same_pointer q p then some u else find p m

abbrev pub insert_utxo : RawOutputPointer → Utxo → Utxos → Utxos
insert_utxo p u m = elim (find p m) [ none ↦ (p, u) ∷ m | some v ↦ m ]

abbrev pub remove : RawOutputPointer → Utxos → Utxos
remove p [] = []
remove p ((q, u) ∷ m) = let rest = remove p m in if same_pointer p q then rest else (q, u) ∷ rest

pub find-remove :
    (p q : RawOutputPointer) (m : Utxos)
    → find q (remove p m) ≡ (if same_pointer p q then none else find q m)
find-remove p q [] = ground arith
find-remove p q ((r, u) ∷ m) = elim (Bool-cases (same_pointer p r)) [
  | inl same ↦ rw same (
      find-remove p q m
      ∙ skip (same_pointer p q) (same_pointer r q) u (find q m)
          (ap (λ x. same_pointer x q) (same_pointer→≡ p r same)))
  | inr other ↦ elim (Bool-cases (same_pointer r q)) [
    | inl here ↦
        let away : same_pointer p q ≡ false =
          subst (λ x. same_pointer p x ≡ false) (same_pointer→≡ r q here) other in
        rw (other, here, away) refl
    | inr there ↦ rw (other, there) (find-remove p q m)
  ]
]

pub find-insert_new :
    (p q : RawOutputPointer) (u : Utxo) (m : Utxos)
    → find p m ≡ none
    → find q (insert_utxo p u m) ≡ (if same_pointer p q then some u else find q m)
find-insert_new p q u m e = ground (arith, e)

pub insert_old :
    (p : RawOutputPointer) (u v : Utxo) (m : Utxos) → find p m ≡ some v → insert_utxo p u m ≡ m
insert_old p u v m e = ground (arith, e)

abbrev pub utxo_map : HashMap
utxo_map = record {
  Map = Utxos;
  find = find;
  insert = insert_utxo;
  remove = remove;
  find-insert_new = find-insert_new;
  insert_old = insert_old;
  find-remove = find-remove;
}
