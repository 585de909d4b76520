-- ===== src/Storage/Mapper/Truncate.antt =====
-- What truncate does, and that it leaves the place of the next write where it was.
use block_sci.Storage.Overwrite.{
  resized, take_all, take-append, resized_less, resized_more, resized_self,
}
use block_sci.Storage.Mapper.{
  Disk, Mapper, size, file_bytes, file_size, clear_buffer, base_reload, reload, resize_file,
  truncate,
}
use block_sci.Storage.Mapper.Contents.{
  contents, contents_unbuffered, clear_nothing, IsGood, length-contents, clear_buffer_lem,
  base_reload_lem,
}
use block_sci.Prelude.{
  ℕ, ◌+◌, ◌-◌, ◌≤◌, ◌≡◌, refl, sym, ap, ◌∙◌, ◌⊎◌, inl, inr, List, [], ◌++◌, Option, none, some, ltb,
  length, take, replicate, Bool-cases, ltb→lt, ltb_false→le, ltb-false, length-append, append-nil,
  arith,
}

-- Bytes cut inside the file, inside the buffer, and filled up behind.
resized_file : (n : ℕ) (xs ys : List ℕ) → n ≤ length xs → resized n (xs ++ ys) ≡ resized n xs
resized_file n xs ys h =
    let none_left : n - length xs ≡ 0 = omega arith in
    resized_less n (xs ++ ys) (omega (arith, length-append xs ys))
    ∙ take-append n xs ys
    ∙ rw none_left (append-nil (take n xs))
    ∙ sym (resized_less n xs h)

resized_buffer :
    (n : ℕ) (xs ys : List ℕ)
    → length xs ≤ n
    → n ≤ length xs + length ys
    → resized n (xs ++ ys) ≡ xs ++ take (n - length xs) ys
resized_buffer n xs ys h k =
    resized_less n (xs ++ ys) (omega (arith, length-append xs ys))
    ∙ take-append n xs ys
    ∙ ap (λ l. l ++ take (n - length xs) ys) (take_all n xs h)

module _ (D : Disk) where
  file_bytes-resize_file :
      (n : ℕ) (f : Option D.File) → file_bytes D (resize_file D n f) ≡ resized n (file_bytes D f)
  unfolding resize_file
  file_bytes-resize_file n none =
      let all_zero : n ≡ n - length {A = ℕ} [] = omega arith in
      D.bytes-create n ∙ ap (λ k. replicate k 0) all_zero ∙ sym (resized_more n [] (omega arith))
  file_bytes-resize_file n (some f) = D.bytes-resize n f

  -- resize_file and reload, with nothing in the buffer.
  truncate_file :
      (n : ℕ) (m : Mapper D.File)
      → (m.file_end ≡ file_size D (resize_file D n m.file) → m.is_open ≡ ltb 0 m.file_end)
      → m.buffer ≡ []
      → let t = reload D (record m { file = resize_file D n m.file }) in
        IsGood D t × (contents D t ≡ resized n (file_bytes D m.file)) × (t.write_pos ≡ m.write_pos)
  unfolding reload
  truncate_file n m h e =
      let cut : Mapper D.File = record m { file = resize_file D n m.file } in
      let (good, file, buffer, pos) = base_reload_lem D cut h in
      rw (clear_nothing D cut e) (
        good,
        contents_unbuffered D (base_reload D cut) (buffer ∙ e)
            ∙ ap (file_bytes D) file
            ∙ file_bytes-resize_file n m.file,
        pos,
      )

  -- On a mapper that knows the end of its file, truncate leaves the bytes of file and buffer cut
  -- to the size, or filled with zeros up to it, knows the new end, and leaves the write position
  -- as it was.
  pub truncate_lem :
      (n : ℕ) (m : Mapper D.File)
      → IsGood D m
      → let t = truncate D n m in
        IsGood D t × (contents D t ≡ resized n (contents D m)) × (t.write_pos ≡ m.write_pos)
  unfolding truncate
  truncate_lem n m g = elim (Bool-cases (ltb n m.file_end)) [
    | inl inside ↦
        let (good, same, pos) = truncate_file n (record m { buffer = [] }) (λ e. g.mapped) refl in
        rw inside (
          good,
          same
              ∙ sym (
                  resized_file n (file_bytes D m.file) m.buffer
                    (omega (arith, ltb→lt n m.file_end inside, g.end_known))),
          pos,
        )
    | inr behind ↦ elim (Bool-cases (ltb n (size m))) [
      | inl buffered ↦
          rw (behind, buffered)
            (
              record { end_known = g.end_known; mapped = g.mapped },
              ap (λ k. file_bytes D m.file ++ take (n - k) m.buffer) g.end_known
                  ∙ sym (
                      resized_buffer n (file_bytes D m.file) m.buffer
                        (omega (arith, ltb_false→le n m.file_end behind, g.end_known))
                        (omega (arith, ltb→lt n (size m) buffered, g.end_known))),
              refl,
            )
      | inr not_inside ↦ elim (Bool-cases (ltb (size m) n)) [
        | inl longer ↦
            let (good, kept, pos, no_buffer, _) = clear_buffer_lem D m g in
            let (t_good, t_same, t_pos) =
              truncate_file n (clear_buffer D m) (λ e. good.mapped) no_buffer in
            let all : file_bytes D (clear_buffer D m).file ≡ contents D m =
              sym (contents_unbuffered D (clear_buffer D m) no_buffer) ∙ kept in
            rw (behind, not_inside, longer) (t_good, t_same ∙ ap (resized n) all, t_pos ∙ pos)
        | inr same_size ↦
            let exact : n ≡ length (contents D m) = omega (
              arith,
              length-contents D m g,
              ltb_false→le n (size m) not_inside,
              ltb_false→le (size m) n same_size,
            ) in
            rw (behind, not_inside, same_size)
              (
                g,
                sym (ap (λ k. resized k (contents D m)) exact ∙ resized_self (contents D m)),
                refl,
              )
      ]
    ]
  ]

  -- Cut inside the file there is no buffer; cut behind it the file stays.
  pub truncate_parts :
      (n : ℕ) (m : Mapper D.File)
      → IsGood D m
      → n ≤ size m
      → ((truncate D n m).buffer ≡ [])
        ⊎ ((m.file_end ≤ n)
            × ((truncate D n m).file ≡ m.file)
            × ((truncate D n m).buffer ≡ take (n - m.file_end) m.buffer))
  unfolding truncate reload
  truncate_parts n m g h = elim (Bool-cases (ltb n m.file_end)) [
    | inl inside ↦
        let emptied : Mapper D.File = record m { buffer = []; file = resize_file D n m.file } in
        let (_, _, no_buffer, _) = base_reload_lem D emptied (λ e. g.mapped) in
        rw (inside, clear_nothing D emptied refl) (inl no_buffer)
    | inr behind ↦
        let le = ltb_false→le n m.file_end behind in
        elim (Bool-cases (ltb n (size m))) [
          | inl buffered ↦ rw (behind, buffered) (inr (le, refl, refl))
          | inr exact ↦
              let whole : m.buffer ≡ take (n - m.file_end) m.buffer = sym (
                take_all (n - m.file_end) m.buffer
                  (omega (arith, ltb_false→le n (size m) exact))) in
              rw (behind, exact, ltb-false (size m) n h) (inr (le, refl, whole))
        ]
  ]
