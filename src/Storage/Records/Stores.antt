-- ===== src/Storage/Records/Stores.antt =====
-- A file of records one behind the other, none of them partly in the file and partly in the buffer:
-- what a pointer to one reads, and what another record or a truncation leaves.
use block_sci.Storage.Overwrite.{take-append, drop_past, take_past}
use block_sci.Storage.Mapper.{
  Disk, Mapper, ahead, invalid_file_index, size, file_bytes, data_at_offset,
}
use block_sci.Storage.Mapper.Contents.{contents, IsGood}
use block_sci.Prelude.{
  ℕ, zero, suc, ◌+◌, ◌-◌, ◌≤◌, ◌<◌, ◌≡◌, refl, sym, ap, ◌∙◌, inl, inr, List, [], ◌∷◌, ◌++◌, some,
  ltb, length, take, drop, concat, get_elem?, get_elem?-append_left, Bool-cases, ltb→lt,
  ltb_false→le, ltb-false, lt→ltb, ==_false, length-append, append_assoc, append-nil, arith,
}

-- Where a record begins.
abbrev pub offset_of : ℕ → List (List ℕ) → ℕ
offset_of i rs = length (concat (take i rs))

abbrev pub IsFilled : List ℕ → Type 0
IsFilled r = 0 < length r

pub concat-append : (rs ts : List (List ℕ)) → concat (rs ++ ts) ≡ concat rs ++ concat ts
concat-append [] ts = refl
concat-append (r ∷ rs) ts = ap (λ l. r ++ l) (concat-append rs ts) ∙ sym (append_assoc r _ _)

offset_of-cons :
    (i : ℕ) (x : List ℕ) (rs : List (List ℕ))
    → offset_of (suc i) (x ∷ rs) ≡ length x + offset_of i rs
offset_of-cons i x rs = length-append x (concat (take i rs))

pub drop-concat :
    (i : ℕ) (rs : List (List ℕ)) (r : List ℕ)
    → get_elem? rs i ≡ some r
    → drop (offset_of i rs) (concat rs) ≡ r ++ concat (drop (suc i) rs)
drop-concat i [] r e = absurd (ground (arith, e))
drop-concat zero (x ∷ rs) r e = ap (λ t. t ++ concat rs) (ground (arith, e))
drop-concat (suc i) (x ∷ rs) r e =
    ap (λ n. drop n (x ++ concat rs)) (offset_of-cons i x rs)
    ∙ drop_past (offset_of i rs) x (concat rs)
    ∙ drop-concat i rs r e

pub take-concat :
    (i : ℕ) (rs : List (List ℕ)) → take (offset_of i rs) (concat rs) ≡ concat (take i rs)
take-concat zero rs = refl
take-concat (suc i) [] = refl
take-concat (suc i) (x ∷ rs) =
    ap (λ n. take n (x ++ concat rs)) (offset_of-cons i x rs)
    ∙ take_past (offset_of i rs) x (concat rs)
    ∙ ap (λ t. x ++ t) (take-concat i rs)

-- A record ends before the whole does.
pub offset_of_inside :
    (i : ℕ) (rs : List (List ℕ)) (r : List ℕ)
    → get_elem? rs i ≡ some r
    → offset_of i rs + length r ≤ length (concat rs)
offset_of_inside i [] r e = absurd (ground (arith, e))
offset_of_inside zero (x ∷ rs) r e =
    let same : x ≡ r = ground (arith, e) in
    omega (arith, ap length same, length-append x (concat rs))
offset_of_inside (suc i) (x ∷ rs) r e =
    omega (arith, offset_of-cons i x rs, length-append x (concat rs), offset_of_inside i rs r e)

-- The records from a place on begin behind those before it.
pub offset_of-append :
    (i : ℕ) (rs ts : List (List ℕ))
    → offset_of (length rs + i) (rs ++ ts) ≡ length (concat rs) + offset_of i ts
offset_of-append i [] ts = let e : 0 + i ≡ i = omega arith in rw e (omega arith)
offset_of-append i (x ∷ rs) ts =
    let e : suc (length rs) + i ≡ suc (length rs + i) = omega arith in
    rw e (
      omega (
        arith,
        offset_of-cons (length rs + i) x (rs ++ ts),
        offset_of-append i rs ts,
        length-append x (concat rs),
      ))

pub get_elem?-append_right {ℓ} :
    {A : Type ℓ} (xs ys : List A) (k : ℕ) → get_elem? (xs ++ ys) (length xs + k) ≡ get_elem? ys k
get_elem?-append_right [] ys k = let e : 0 + k ≡ k = omega arith in rw e refl
get_elem?-append_right (x ∷ xs) ys k =
    let e : suc (length xs) + k ≡ suc (length xs + k) = omega arith in
    rw e (get_elem?-append_right xs ys k)

pub offset_of-append_left :
    (i : ℕ) (rs ts : List (List ℕ)) → i ≤ length rs → offset_of i (rs ++ ts) ≡ offset_of i rs
offset_of-append_left i rs ts h =
    let none_left : i - length rs ≡ 0 = omega arith in
    let same : take i (rs ++ ts) ≡ take i rs =
      take-append i rs ts ∙ rw none_left (append-nil (take i rs)) in
    ap (λ l. length (concat l)) same

module _ (D : Disk) where
  -- The records in the file, and those that wait in the buffer.
  pub record Stores (m : Mapper D.File) (rs : List (List ℕ)) : Type 0 where
    pub filed : List (List ℕ)
    pub waiting : List (List ℕ)
    pub parts : rs ≡ filed ++ waiting
    pub in_file : file_bytes D m.file ≡ concat filed
    pub in_buffer : m.buffer ≡ concat waiting
    pub good : IsGood D m

  pub contents-Stores :
      (m : Mapper D.File) (rs : List (List ℕ)) → Stores m rs → contents D m ≡ concat rs
  contents-Stores m rs s =
      ap (λ l. l ++ m.buffer) s.in_file
      ∙ ap (λ l. concat s.filed ++ l) s.in_buffer
      ∙ sym (concat-append s.filed s.waiting)
      ∙ ap concat (sym s.parts)

  -- A pointer into the file, or into the buffer, by the side on which the offset lies.
  data_at_file :
      (n : ℕ) (m : Mapper D.File)
      → n < m.file_end
      → n < invalid_file_index
      → data_at_offset D n m ≡ ahead (drop n (file_bytes D m.file))
  unfolding data_at_offset
  data_at_file n m h k =
      rw
        (
          ==_false n invalid_file_index (omega arith),
          lt→ltb n (size m) (omega arith),
          lt→ltb n m.file_end h,
        )
        refl

  data_at_buffer :
      (n k : ℕ) (m : Mapper D.File)
      → n ≡ m.file_end + k
      → k < length m.buffer
      → n < invalid_file_index
      → data_at_offset D n m ≡ ahead (drop k m.buffer)
  unfolding data_at_offset
  data_at_buffer n k m e h small =
      let place : n - m.file_end ≡ k = omega arith in
      rw
        (
          ==_false n invalid_file_index (omega arith),
          lt→ltb n (size m) (omega arith),
          ltb-false n m.file_end (omega arith),
          place,
        )
        refl

  -- A pointer to a record reads the record first.
  pub data_at-Stores :
      (m : Mapper D.File) (rs : List (List ℕ)) (i : ℕ) (r : List ℕ)
      → Stores m rs
      → get_elem? rs i ≡ some r
      → IsFilled r
      → size m ≤ invalid_file_index
      → (more : List ℕ) × (data_at_offset D (offset_of i rs) m ≡ ahead (r ++ more))
  data_at-Stores m rs i r s e filled small = elim (Bool-cases (ltb i (length s.filed))) [
    | inl h ↦
        let inside = ltb→lt i (length s.filed) h in
        let here : get_elem? s.filed i ≡ some r =
          sym (get_elem?-append_left s.filed s.waiting i inside)
          ∙ ap (λ l. get_elem? l i) (sym s.parts)
          ∙ e in
        let place : offset_of i rs ≡ offset_of i s.filed =
          ap (offset_of i) s.parts ∙ offset_of-append_left i s.filed s.waiting (omega arith) in
        let bound = offset_of_inside i s.filed r here in
        let known : m.file_end ≡ length (concat s.filed) = s.good.end_known ∙ ap length s.in_file in
        (
          concat (drop (suc i) s.filed),
          ap (λ n. data_at_offset D n m) place
              ∙ data_at_file (offset_of i s.filed) m (omega arith) (omega arith)
              ∙ ap (λ l. ahead (drop (offset_of i s.filed) l)) s.in_file
              ∙ ap ahead (drop-concat i s.filed r here),
        )
    | inr h ↦
        let k = i - length s.filed in
        let at : i ≡ length s.filed + k = omega (arith, ltb_false→le i (length s.filed) h) in
        let here : get_elem? s.waiting k ≡ some r =
          sym (get_elem?-append_right s.filed s.waiting k)
          ∙ ap (get_elem? (s.filed ++ s.waiting)) (sym at)
          ∙ ap (λ l. get_elem? l i) (sym s.parts)
          ∙ e in
        let place : offset_of i rs ≡ length (concat s.filed) + offset_of k s.waiting =
          ap (offset_of i) s.parts
          ∙ ap (λ n. offset_of n (s.filed ++ s.waiting)) at
          ∙ offset_of-append k s.filed s.waiting in
        let bound = offset_of_inside k s.waiting r here in
        let known : m.file_end ≡ length (concat s.filed) = s.good.end_known ∙ ap length s.in_file in
        let buffered : length m.buffer ≡ length (concat s.waiting) = ap length s.in_buffer in
        (
          concat (drop (suc k) s.waiting),
          data_at_buffer (offset_of i rs) (offset_of k s.waiting) m (omega arith) (omega arith)
                (omega arith)
              ∙ ap (λ l. ahead (drop (offset_of k s.waiting) l)) s.in_buffer
              ∙ ap ahead (drop-concat k s.waiting r here),
        )
  ]
