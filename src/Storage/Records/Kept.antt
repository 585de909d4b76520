-- ===== src/Storage/Records/Kept.antt =====
-- What another record, and a truncation to the first records, leave in a file of records.
use block_sci.Storage.Overwrite.{take_all, take-append, resized_less}
use block_sci.Storage.Mapper.{
  Disk, Mapper, max_buffer_size, written, size, file_bytes, clear_buffer, write_back, write,
  truncate,
}
use block_sci.Storage.Mapper.Contents.{
  contents, contents_unbuffered, IsGood, length-contents, clear_buffer_lem,
}
use block_sci.Storage.Mapper.Truncate.{truncate_lem, truncate_parts}
use block_sci.Storage.Mapper.Write.{write-eq-write_back}
use block_sci.Storage.Records.Stores.{
  offset_of, IsFilled, concat-append, take-concat, offset_of_inside, offset_of-append,
  offset_of-append_left, Stores, contents-Stores,
}
use block_sci.Prelude.{
  ℕ, ◌+◌, ◌-◌, ◌≤◌, ◌<◌, ◌≡◌, refl, sym, ap, ◌∙◌, subst, inl, inr, Bool, true, false, List, [], ◌∷◌,
  ◌++◌, ltb, ◌==◌, length, take, concat, All, get_elem?_below, All-get_elem?, length-take,
  Bool-cases, ltb→lt, ltb_false→le, ==_iff, length-append, append_assoc, append-nil, arith,
}

module _ (D : Disk) where
  append_parts :
      (m : Mapper D.File) (rs : List (List ℕ)) (r : List ℕ)
      → (s : Stores D m rs) → rs ++ (r ∷ []) ≡ s.filed ++ (s.waiting ++ (r ∷ []))
  append_parts m rs r s = ap (λ l. l ++ (r ∷ [])) s.parts ∙ append_assoc s.filed s.waiting (r ∷ [])

  concat_back : (rs : List (List ℕ)) (r : List ℕ) → concat (rs ++ (r ∷ [])) ≡ concat rs ++ r
  concat_back rs r = concat-append rs (r ∷ []) ∙ ap (λ l. concat rs ++ l) (append-nil r)

  -- A record written at the end is the last one, and the write position is at the end again.
  pub write-Stores :
      (m : Mapper D.File) (rs : List (List ℕ)) (r : List ℕ)
      → Stores D m rs
      → m.write_pos ≡ size m
      → (flushed : Bool) × (n : Mapper D.File) × (write D r m ≡ written flushed n)
        × Stores D n (rs ++ (r ∷ []))
        × (n.write_pos ≡ size n)
  unfolding write_back
  write-Stores m rs r s e =
      let longer : Mapper D.File = record m {
        buffer = m.buffer ++ r;
        write_pos = m.write_pos + length r;
      } in
      let good : IsGood D longer = record {
        end_known = s.good.end_known;
        mapped = s.good.mapped;
      } in
      let at_end : (m.write_pos == size m) ≡ true = (==_iff m.write_pos (size m)).1 e in
      let joined : m.buffer ++ r ≡ concat (s.waiting ++ (r ∷ [])) =
        ap (λ l. l ++ r) s.in_buffer ∙ sym (concat_back s.waiting r) in
      let moved : m.write_pos + length r ≡ m.file_end + length (m.buffer ++ r) =
        omega (arith, length-append m.buffer r) in
      let start = write-eq-write_back D r m (omega arith) (omega arith) in
      elim (Bool-cases (ltb max_buffer_size (length (m.buffer ++ r)))) [
        | inl full ↦
            let (clear_good, same, pos, no_buffer, kept) = clear_buffer_lem D longer good in
            (
              true,
              clear_buffer D longer,
              start ∙ rw (at_end, full) refl,
              record {
                filed = rs ++ (r ∷ []);
                waiting = [];
                parts = sym (append-nil (rs ++ (r ∷ [])));
                in_file =
                    sym (contents_unbuffered D (clear_buffer D longer) no_buffer)
                    ∙ same
                    ∙ sym (append_assoc (file_bytes D m.file) m.buffer r)
                    ∙ ap (λ l. l ++ r) (contents-Stores D m rs s)
                    ∙ sym (concat_back rs r);
                in_buffer = no_buffer;
                good = clear_good;
              },
              pos ∙ moved ∙ sym kept,
            )
        | inr room ↦ (
          false,
          longer,
          start ∙ rw (at_end, room) refl,
          record {
            filed = s.filed;
            waiting = s.waiting ++ (r ∷ []);
            parts = append_parts m rs r s;
            in_file = s.in_file;
            in_buffer = joined;
            good = good;
          },
          moved,
        )
      ]

  offset_of-le : (i : ℕ) (rs : List (List ℕ)) → offset_of i rs ≤ length (concat rs)
  offset_of-le i rs =
      omega (arith, ap length (take-concat i rs), length-take {A = ℕ} (offset_of i rs) (concat rs))

  offset_inside :
      (i : ℕ) (rs : List (List ℕ))
      → All IsFilled rs
      → i < length rs
      → offset_of i rs < length (concat rs)
  offset_inside i rs a h =
      let (r, e) = get_elem?_below i rs h in
      let filled : 0 < length r = All-get_elem? IsFilled rs i r a e in
      omega (arith, offset_of_inside i rs r e)

  All-left : (xs ys : List (List ℕ)) → All IsFilled (xs ++ ys) → All IsFilled xs
  All-left [] ys a = tt
  All-left (x ∷ xs) ys (p, a) = (p, All-left xs ys a)

  -- Cut where a record begins, the file has the records before it.
  pub truncate-Stores :
      (m : Mapper D.File) (rs : List (List ℕ)) (i : ℕ)
      → Stores D m rs
      → All IsFilled rs
      → Stores D (truncate D (offset_of i rs) m) (take i rs)
  truncate-Stores m rs i s a =
      let n = offset_of i rs in
      let whole : length (contents D m) ≡ length (concat rs) =
        ap length (contents-Stores D m rs s) in
      let within : offset_of i rs ≤ size m =
        omega (arith, length-contents D m s.good, offset_of-le i rs) in
      let (good, same, _) = truncate_lem D n m s.good in
      elim (truncate_parts D n m s.good within) [
        | inl no_buffer ↦ record {
          filed = take i rs;
          waiting = [];
          parts = sym (append-nil (take i rs));
          in_file =
              sym (contents_unbuffered D (truncate D n m) no_buffer)
              ∙ same
              ∙ resized_less n (contents D m) (omega (arith, offset_of-le i rs))
              ∙ ap (take n) (contents-Stores D m rs s)
              ∙ take-concat i rs;
          in_buffer = no_buffer;
          good = good;
        }
        | inr (behind, file, buffer) ↦
            let known : m.file_end ≡ length (concat s.filed) =
              s.good.end_known ∙ ap length s.in_file in
            let after : length s.filed ≤ i = elim (Bool-cases (ltb i (length s.filed))) [
              | inl h ↦
                  let inside = ltb→lt i (length s.filed) h in
                  let left : offset_of i rs ≡ offset_of i s.filed =
                    ap (offset_of i) s.parts
                    ∙ offset_of-append_left i s.filed s.waiting (omega arith) in
                  absurd (
                    omega (
                      arith,
                      offset_inside i s.filed
                          (All-left s.filed s.waiting (subst (All IsFilled) s.parts a)) inside,
                    ))
              | inr h ↦ ltb_false→le i (length s.filed) h
            ] in
            let k = i - length s.filed in
            let at : i ≡ length s.filed + k = omega arith in
            let place : offset_of i rs ≡ length (concat s.filed) + offset_of k s.waiting =
              ap (offset_of i) s.parts
              ∙ ap (λ j. offset_of j (s.filed ++ s.waiting)) at
              ∙ offset_of-append k s.filed s.waiting in
            let cut : offset_of i rs - m.file_end ≡ offset_of k s.waiting = omega arith in
            record {
              filed = s.filed;
              waiting = take k s.waiting;
              parts =
                  ap (take i) s.parts
                  ∙ take-append i s.filed s.waiting
                  ∙ ap (λ l. l ++ take k s.waiting) (take_all i s.filed after);
              in_file = ap (file_bytes D) file ∙ s.in_file;
              in_buffer =
                  buffer
                  ∙ ap (λ j. take j m.buffer) cut
                  ∙ ap (take (offset_of k s.waiting)) s.in_buffer
                  ∙ take-concat k s.waiting;
              good = good;
            }
      ]
