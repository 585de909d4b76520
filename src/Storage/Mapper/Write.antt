-- ===== src/Storage/Mapper/Write.antt =====
-- What write does, inside the file, at the end and across it, and where it stops at its assert.
use block_sci.Storage.Overwrite.{
  overwrite, overwrite-append_left, overwrite_back, overwrite-take-drop, length-overwrite, take_all,
  resized_less,
}
use block_sci.Storage.Mapper.{
  Disk, Mapper, max_buffer_size, Written, written, assert_failed, size, file_bytes, file_size,
  write_space, clear_buffer, store_at, write_file, write_back, write_buffer, write, truncate,
}
use block_sci.Storage.Mapper.Contents.{
  contents, contents_unbuffered, IsGood, length-contents, clear_buffer_lem,
}
use block_sci.Storage.Mapper.Truncate.{truncate_lem}
use block_sci.Prelude.{
  ◌≢◌, ℕ, zero, suc, ◌+◌, ◌-◌, ◌≤◌, ◌<◌, ◌≡◌, refl, sym, ap, ◌∙◌, subst, ◌⊎◌, inl, inr, Bool, true,
  false, List, [], ◌∷◌, ◌++◌, Option, none, some, ltb, ◌==◌, length, take, drop, min, Bool-cases,
  ltb→lt, ltb_false→le, ltb-false, lt→ltb, ==_iff, ==_refl, ==_false, length-take, length-drop,
  append_assoc, arith,
}

-- A write at the end, inside the file, or across the end of a file with no buffer.
abbrev pub Fits : {F : Type 0} → List ℕ → Mapper F → Type 0
Fits vs m =
    (m.write_pos ≡ size m)
    ⊎ ((m.write_pos < m.file_end) × ((m.write_pos + length vs ≤ m.file_end) ⊎ (m.buffer ≡ [])))

module _ (D : Disk) where
  -- The write has ended, with its values over the bytes from the write position on.
  abbrev pub HasWritten : List ℕ → Mapper D.File → Written D.File → Type 0
  HasWritten vs m w =
      (flushed : Bool) × (n : Mapper D.File) × (w ≡ written flushed n)
      × IsGood D n
      × (contents D n ≡ overwrite m.write_pos vs (contents D m))
      × (n.write_pos ≡ m.write_pos + length vs)

  file_bytes-store_at :
      (n : ℕ) (vs : List ℕ) (f : Option D.File)
      → n + length vs ≤ file_size D f
      → file_bytes D (store_at D n vs f) ≡ overwrite n vs (file_bytes D f)
  unfolding store_at
  file_bytes-store_at zero [] none h = refl
  file_bytes-store_at zero (v ∷ vs) none h = absurd (omega arith)
  file_bytes-store_at (suc n) vs none h = absurd (omega arith)
  file_bytes-store_at n vs (some f) h = D.bytes-store n vs f h

  write_back_lem :
      (vs : List ℕ) (m : Mapper D.File)
      → IsGood D m
      → m.write_pos ≡ size m
      → HasWritten vs m (write_back D vs m)
  unfolding write_back
  write_back_lem vs m g e =
      let longer : Mapper D.File = record m {
        buffer = m.buffer ++ vs;
        write_pos = m.write_pos + length vs;
      } in
      let good : IsGood D longer = record { end_known = g.end_known; mapped = g.mapped } in
      let at_end : (m.write_pos == size m) ≡ true = (==_iff m.write_pos (size m)).1 e in
      let joined : contents D longer ≡ overwrite m.write_pos vs (contents D m) =
        sym (append_assoc (file_bytes D m.file) m.buffer vs)
        ∙ sym (overwrite_back vs (contents D m))
        ∙ ap (λ n. overwrite n vs (contents D m)) (length-contents D m g ∙ sym e) in
      elim (Bool-cases (ltb max_buffer_size (length (m.buffer ++ vs)))) [
        | inl full ↦
            let (clear_good, same, pos, _, _) = clear_buffer_lem D longer good in
            rw (at_end, full) (true, clear_buffer D longer, refl, clear_good, same ∙ joined, pos)
        | inr room ↦ rw (at_end, room) (false, longer, refl, good, joined, refl)
      ]

  write_buffer-eq-write_back :
      (vs : List ℕ) (m : Mapper D.File)
      → length m.buffer ≤ m.write_pos
      → write_buffer D vs m ≡ write_back D vs m
  unfolding write_buffer
  write_buffer-eq-write_back vs m h =
      let outside : ltb m.write_pos (length m.buffer) ≡ false =
        ltb-false m.write_pos (length m.buffer) h in
      ground (arith, outside)

  write-eq-write_buffer :
      (vs : List ℕ) (m : Mapper D.File)
      → m.file_end ≤ m.write_pos
      → write D vs m ≡ write_buffer D vs m
  unfolding write
  write-eq-write_buffer vs m h = rw (ltb-false m.write_pos m.file_end h) refl

  pub write-eq-write_back :
      (vs : List ℕ) (m : Mapper D.File)
      → m.file_end ≤ m.write_pos
      → length m.buffer ≤ m.write_pos
      → write D vs m ≡ write_back D vs m
  write-eq-write_back vs m h k = write-eq-write_buffer vs m h ∙ write_buffer-eq-write_back vs m k

  -- The mapper after the first part of a write across the end.
  abbrev filled : List ℕ → Mapper D.File → Mapper D.File
  filled vs m =
      let n = m.file_end - m.write_pos in
      record m { file = store_at D m.write_pos (take n vs) m.file; write_pos = m.write_pos + n }

  write-eq-write_file :
      (vs : List ℕ) (m : Mapper D.File)
      → m.write_pos < m.file_end
      → write D vs m ≡ write_file D vs (min (length vs) (m.file_end - m.write_pos)) m
  unfolding write write_space
  write-eq-write_file vs m h = rw (lt→ltb m.write_pos m.file_end h) refl

  write_file_part :
      (vs : List ℕ) (n : ℕ) (m : Mapper D.File)
      → length vs ≢ n
      → write_file D vs n m
        ≡ write_buffer D (drop n vs) (record m {
          file = store_at D m.write_pos (take n vs) m.file;
          write_pos = m.write_pos + n;
        })
  unfolding write_file
  write_file_part vs n m h = rw (==_false (length vs) n h) refl

  write_file_all :
      (vs : List ℕ) (m : Mapper D.File)
      → write_file D vs (length vs) m
        ≡ written false (record m {
          file = store_at D m.write_pos vs m.file;
          write_pos = m.write_pos + length vs;
        })
  unfolding write_file
  write_file_all vs m = rw (==_refl (length vs), take_all (length vs) vs (omega arith)) refl

  write_inside :
      (vs : List ℕ) (m : Mapper D.File)
      → IsGood D m
      → m.write_pos < m.file_end
      → m.write_pos + length vs ≤ m.file_end
      → HasWritten vs m (write D vs m)
  write_inside vs m g h k =
      let after : Mapper D.File = record m {
        file = store_at D m.write_pos vs m.file;
        write_pos = m.write_pos + length vs;
      } in
      let fits : m.write_pos + length vs ≤ file_size D m.file = omega (arith, g.end_known) in
      let stored = file_bytes-store_at m.write_pos vs m.file fits in
      let all : min (length vs) (m.file_end - m.write_pos) ≡ length vs = omega arith in
      (
        false,
        after,
        write-eq-write_file vs m h ∙ ap (λ n. write_file D vs n m) all ∙ write_file_all vs m,
        record {
          end_known =
              g.end_known
              ∙ sym (ap length stored ∙ length-overwrite m.write_pos vs (file_bytes D m.file) fits);
          mapped = g.mapped;
        },
        ap (λ l. l ++ m.buffer) stored
            ∙ sym (overwrite-append_left m.write_pos vs (file_bytes D m.file) m.buffer fits),
        refl,
      )

  write-filled :
      (vs : List ℕ) (m : Mapper D.File)
      → m.write_pos < m.file_end
      → m.file_end < m.write_pos + length vs
      → write D vs m ≡ write_buffer D (drop (m.file_end - m.write_pos) vs) (filled vs m)
  write-filled vs m h k =
      let part : min (length vs) (m.file_end - m.write_pos) ≡ m.file_end - m.write_pos =
        omega arith in
      write-eq-write_file vs m h
      ∙ ap (λ n. write_file D vs n m) part
      ∙ write_file_part vs (m.file_end - m.write_pos) m (omega arith)

  bytes-filled :
      (vs : List ℕ) (m : Mapper D.File)
      → IsGood D m
      → m.write_pos < m.file_end
      → m.file_end < m.write_pos + length vs
      → (file_bytes D (filled vs m).file
          ≡ overwrite m.write_pos (take (m.file_end - m.write_pos) vs) (file_bytes D m.file))
        × IsGood D (filled vs m)
  bytes-filled vs m g h k =
      let n = m.file_end - m.write_pos in
      let fits : m.write_pos + length (take (m.file_end - m.write_pos) vs) ≤ file_size D m.file =
        omega (arith, g.end_known, length-take {A = ℕ} (m.file_end - m.write_pos) vs) in
      let stored = file_bytes-store_at m.write_pos (take n vs) m.file fits in
      (
        stored,
        record {
          end_known =
              g.end_known
              ∙ sym (
                  ap length stored
                  ∙ length-overwrite m.write_pos (take n vs) (file_bytes D m.file) fits);
          mapped = g.mapped;
        },
      )

  write_across :
      (vs : List ℕ) (m : Mapper D.File)
      → IsGood D m
      → m.write_pos < m.file_end
      → m.buffer ≡ []
      → m.file_end < m.write_pos + length vs
      → HasWritten vs m (write D vs m)
  write_across vs m g h e k =
      let n = m.file_end - m.write_pos in
      let within = filled vs m in
      let no_buffer : length m.buffer ≡ 0 = ap length e in
      let (stored, good) = bytes-filled vs m g h k in
      let at_end : within.write_pos ≡ size within = omega arith in
      let (b, t, done, t_good, same, pos) = write_back_lem (drop n vs) within good at_end in
      (
        b,
        t,
        write-filled vs m h k ∙ write_buffer-eq-write_back (drop n vs) within (omega arith) ∙ done,
        t_good,
        same
            ∙ ap (λ i. overwrite i (drop n vs) (contents D within))
                (at_end ∙ sym (length-contents D within good))
            ∙ overwrite_back (drop n vs) (contents D within)
            ∙ ap (λ l. l ++ drop n vs) (contents_unbuffered D within e ∙ stored)
            ∙ sym (
                overwrite-take-drop m.write_pos n vs (file_bytes D m.file)
                  (omega (arith, g.end_known)) (omega arith))
            ∙ ap (overwrite m.write_pos vs) (sym (contents_unbuffered D m e)),
        omega (arith, pos, length-drop {A = ℕ} (m.file_end - m.write_pos) vs),
      )

  -- On a mapper that knows the end of its file, a write at the end, inside the file, or across the
  -- end of the file when nothing is buffered, ends without a failed assert, puts its bytes over
  -- those from the write position on and behind the end, and moves the write position behind them.
  pub write_lem :
      (vs : List ℕ) (m : Mapper D.File) → IsGood D m → Fits vs m → HasWritten vs m (write D vs m)
  write_lem vs m g (inl e) =
      subst (HasWritten vs m) (sym (write-eq-write_back vs m (omega arith) (omega arith)))
        (write_back_lem vs m g e)
  write_lem vs m g (inr (h, inl k)) = write_inside vs m g h k
  write_lem vs m g (inr (h, inr e)) = elim (Bool-cases (ltb m.file_end (m.write_pos + length vs))) [
    | inl over ↦ write_across vs m g h e (ltb→lt m.file_end (m.write_pos + length vs) over)
    | inr within ↦ write_inside vs m g h (ltb_false→le m.file_end (m.write_pos + length vs) within)
  ]

  -- Anywhere else past the end of the file and of the buffer's length, a write stops at its assert.
  pub write_lost :
      (vs : List ℕ) (m : Mapper D.File)
      → m.file_end ≤ m.write_pos
      → length m.buffer ≤ m.write_pos
      → m.write_pos ≢ size m
      → write D vs m ≡ assert_failed
  unfolding write_back
  write_lost vs m h k other =
      write-eq-write_back vs m h k ∙ rw (==_false m.write_pos (size m) other) refl

  -- On a mapper that knows the end of its file and is at its end, a write after truncate to fewer
  -- bytes fails at the assert on the write position.
  pub write-truncate :
      (vs : List ℕ) (n : ℕ) (m : Mapper D.File)
      → IsGood D m
      → m.write_pos ≡ size m
      → n < size m
      → write D vs (truncate D n m) ≡ assert_failed
  write-truncate vs n m g e h =
      let (good, same, pos) = truncate_lem D n m g in
      let now : size (truncate D n m) ≡ n =
        sym (length-contents D (truncate D n m) good)
        ∙ ap length (same ∙ resized_less n (contents D m) (omega (arith, length-contents D m g)))
        ∙ length-take n (contents D m)
        ∙ omega (arith, length-contents D m g) in
      write_lost vs (truncate D n m) (omega arith) (omega arith) (omega arith)
