-- ===== src/Storage/Mapper/Contents.antt =====
-- A mapped file with its buffer as one list of bytes: what each operation does to it.
use block_sci.Storage.Overwrite.{overwrite, resized_more}
use block_sci.Storage.Mapper.{
  Disk, Mapper, size, file_bytes, file_size, open_file, grown, clear_buffer, base_reload,
}
use block_sci.Prelude.{
  ℕ, ◌+◌, ◌-◌, ◌≤◌, ◌≡◌, refl, sym, ap, ◌∙◌, inl, inr, Bool, true, false, List, [], ◌∷◌, ◌++◌,
  Option, none, some, ltb, ◌==◌, if◌then◌else◌, length, replicate, Bool-cases, ltb→lt, ltb_false→le,
  ltb-false, lt→ltb, length-append, length-replicate, append-nil, arith,
}

module _ (D : Disk) where
  abbrev pub contents : Mapper D.File → List ℕ
  contents m = file_bytes D m.file ++ m.buffer

  -- The end that the mapper knows is that of the file, which is mapped when it is not empty.
  pub record IsGood (m : Mapper D.File) : Type 0 where
    pub end_known : m.file_end ≡ file_size D m.file
    pub mapped : m.is_open ≡ ltb 0 m.file_end

  pub length-contents : (m : Mapper D.File) → IsGood m → length (contents m) ≡ size m
  length-contents m g = omega (arith, length-append (file_bytes D m.file) m.buffer, g.end_known)

  pub contents_unbuffered : (m : Mapper D.File) → m.buffer ≡ [] → contents m ≡ file_bytes D m.file
  contents_unbuffered m e = ap (λ b. file_bytes D m.file ++ b) e ∙ append-nil (file_bytes D m.file)

  pub clear_nothing : (m : Mapper D.File) → m.buffer ≡ [] → clear_buffer D m ≡ m
  unfolding clear_buffer
  clear_nothing m e =
      let nothing : ltb 0 (length m.buffer) ≡ false = ap (λ b. ltb 0 (length b)) e in
      rw nothing refl

  abbrev mapper : Option D.File → Bool → ℕ → List ℕ → ℕ → Mapper D.File
  mapper f o e b w = record { file = f; is_open = o; file_end = e; buffer = b; write_pos = w }

  empty_of_length : (l : List ℕ) → length l ≤ 0 → l ≡ []
  empty_of_length [] h = refl
  empty_of_length (x ∷ l) h = absurd (omega arith)

  -- What clearBuffer makes room for is as long as the buffer.
  bytes-grown :
      (f : Option D.File) (o : Bool) (e : ℕ) (b : List ℕ) (w : ℕ)
      → e ≡ file_size D f
      → o ≡ ltb 0 e
      → D.bytes (grown D (mapper f o e b w)) ≡ file_bytes D f ++ replicate (length b) 0
  unfolding grown
  bytes-grown none o e b w size_of open_if =
      let closed : o ≡ false = open_if ∙ ltb-false 0 e (omega arith) in
      rw closed (D.bytes-create (length b))
  bytes-grown (some f) o e b w size_of open_if = elim (Bool-cases (ltb 0 e)) [
    | inl nonempty ↦
        let opened : o ≡ true = open_if ∙ nonempty in
        let more : e + length b - length (D.bytes f) ≡ length b = omega arith in
        rw opened (
          D.bytes-resize (e + length b) f
          ∙ resized_more (e + length b) (D.bytes f) (omega arith)
          ∙ rw more refl)
    | inr nothing ↦
        let closed : o ≡ false = open_if ∙ nothing in
        let no_bytes : D.bytes f ≡ [] =
          empty_of_length (D.bytes f) (omega (arith, ltb_false→le 0 e nothing)) in
        rw (closed, no_bytes) (D.bytes-create (length b))
  ]

  overwrite_room :
      (xs ys : List ℕ) → overwrite (length xs) ys (xs ++ replicate (length ys) 0) ≡ xs ++ ys
  overwrite_room [] [] = refl
  overwrite_room [] (y ∷ ys) = ap (λ (l : List ℕ). y ∷ l) (overwrite_room [] ys)
  overwrite_room (x ∷ xs) ys = ap (λ (l : List ℕ). x ∷ l) (overwrite_room xs ys)

  -- The file after the buffer was copied behind its old bytes.
  bytes-flushed :
      (f : Option D.File) (o : Bool) (e : ℕ) (b : List ℕ) (w : ℕ)
      → e ≡ file_size D f
      → o ≡ ltb 0 e
      → D.bytes (D.store e b (grown D (mapper f o e b w))) ≡ file_bytes D f ++ b
  bytes-flushed f o e b w size_of open_if =
      let room = bytes-grown f o e b w size_of open_if in
      D.bytes-store e b _ (
        omega (
          arith,
          ap length room,
          length-append (file_bytes D f) (replicate (length b) 0),
          length-replicate {A = ℕ} (length b) 0,
        ))
      ∙ ap (overwrite e b) room
      ∙ ap (λ n. overwrite n b (file_bytes D f ++ replicate (length b) 0)) size_of
      ∙ overwrite_room (file_bytes D f) b

  -- clearBuffer keeps the bytes, the size and the place of the next write, and leaves no buffer.
  pub clear_buffer_lem :
      (m : Mapper D.File)
      → IsGood m
      → let n = clear_buffer D m in
        IsGood n
        × (contents n ≡ contents m)
        × (n.write_pos ≡ m.write_pos)
        × (n.buffer ≡ [])
        × (size n ≡ size m)
  unfolding clear_buffer
  clear_buffer_lem m g = elim (Bool-cases (ltb 0 (length m.buffer))) [
    | inl waiting ↦
        let flushed =
          bytes-flushed m.file m.is_open m.file_end m.buffer m.write_pos g.end_known g.mapped in
        rw waiting (
          record {
            end_known = omega (
              arith,
              ap length flushed,
              length-append (file_bytes D m.file) m.buffer,
              g.end_known,
            );
            mapped = sym (lt→ltb 0 (size m) (omega (arith, ltb→lt 0 (length m.buffer) waiting)));
          },
          append-nil _ ∙ flushed,
          refl,
          refl,
          omega arith,
        )
    | inr nothing ↦
        rw nothing
          (g, refl, refl, empty_of_length m.buffer (ltb_false→le 0 (length m.buffer) nothing), refl)
  ]

  base_reload_file :
      (f : Option D.File) (o : Bool) (e : ℕ) (b : List ℕ) (w : ℕ)
      → (e ≡ file_size D f → o ≡ ltb 0 e)
      → let n = base_reload D (mapper f o e b w) in
        IsGood n × (n.file ≡ f) × (n.buffer ≡ b) × (n.write_pos ≡ w)
  unfolding base_reload open_file
  base_reload_file none o e b w h = (record { end_known = refl; mapped = refl }, refl, refl, refl)
  base_reload_file (some f) o e b w h = elim (Bool-cases (length (D.bytes f) == e)) [
    | inl same ↦
        let is_end : e ≡ length (D.bytes f) = ground (arith, same) in
        rw same (record { end_known = is_end; mapped = h is_end }, refl, refl, refl)
    | inr other ↦
        rw other
          (record { end_known = refl; mapped = opened (length (D.bytes f)) }, refl, refl, refl)
  ]
    where
      opened : (n : ℕ) → (if n == 0 then false else true) ≡ ltb 0 n
      opened n = ground arith

  -- reload gets to know the end of the file that is there.
  pub base_reload_lem :
      (m : Mapper D.File)
      → (m.file_end ≡ file_size D m.file → m.is_open ≡ ltb 0 m.file_end)
      → let n = base_reload D m in
        IsGood n × (n.file ≡ m.file) × (n.buffer ≡ m.buffer) × (n.write_pos ≡ m.write_pos)
  base_reload_lem m h = base_reload_file m.file m.is_open m.file_end m.buffer m.write_pos h
