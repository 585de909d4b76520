-- ===== src/Chain/MapReduce/Order.antt =====
-- The order in which the results of the segments are combined.
use block_sci.Chain.MapReduce.{map_reduce_segments, map_segment}
use block_sci.Prelude.{
  ℕ, zero, suc, ◌/◌, ◌≤◌, ◌<◌, ◌≡◌, refl, sym, ap, ◌∙◌, List, [], ◌∷◌, ◌++◌, some, length, take,
  drop, length-take, length-drop, take-append-drop, arith,
}

module _ {A B : Type 0} (map_func : A → B) (reduce_func : B → B → B) (empty : B)
    (assoc : (a b c : B) → reduce_func (reduce_func a b) c ≡ reduce_func a (reduce_func b c))
    (left : (a : B) → reduce_func empty a ≡ a) (right : (a : B) → reduce_func a empty ≡ a) where
  -- The results from the last one to the first.
  abbrev pub backwards : List A → B
  backwards [] = empty
  backwards (x ∷ xs) = reduce_func (backwards xs) (map_func x)

  abbrev pub forwards : List A → B
  forwards [] = empty
  forwards (x ∷ xs) = reduce_func (map_func x) (forwards xs)

  backwards-append :
      (xs ys : List A) → backwards (xs ++ ys) ≡ reduce_func (backwards ys) (backwards xs)
  backwards-append [] ys = sym (right (backwards ys))
  backwards-append (x ∷ xs) ys =
      ap (λ b. reduce_func b (map_func x)) (backwards-append xs ys)
      ∙ assoc (backwards ys) (backwards xs) (map_func x)

  left' :
      (xs ys : List A)
      → reduce_func (reduce_func empty (backwards ys)) (backwards xs)
        ≡ reduce_func (backwards ys) (backwards xs)
  left' xs ys = ap (λ b. reduce_func b (backwards xs)) (left (backwards ys))

  -- With depth for the number of segments, of which there is one, mapReduceBlocksImp ends and combines
  -- their results from the last to the first.
  pub map_reduce_segments_lem :
      (depth : ℕ) (xs : List A)
      → 0 < length xs
      → length xs ≤ depth
      → map_reduce_segments map_func reduce_func empty depth xs ≡ some (backwards xs)
  unfolding map_reduce_segments
  map_reduce_segments_lem zero [] h k = absurd (omega arith)
  map_reduce_segments_lem zero (x ∷ xs) h k = absurd (omega arith)
  map_reduce_segments_lem (suc depth) [] h k = absurd (omega arith)
  map_reduce_segments_lem (suc depth) (x ∷ []) h k = refl
  map_reduce_segments_lem (suc depth) (x ∷ y ∷ xs) h k =
      let all : List A = x ∷ y ∷ xs in
      let mid = length (x ∷ y ∷ xs) / 2 in
      let first =
        map_reduce_segments_lem depth (take mid (x ∷ y ∷ xs))
          (omega (arith, length-take {A = A} mid (x ∷ y ∷ xs)))
          (omega (arith, length-take {A = A} mid (x ∷ y ∷ xs))) in
      let second =
        map_reduce_segments_lem depth (drop mid (x ∷ y ∷ xs))
          (omega (arith, length-drop {A = A} mid (x ∷ y ∷ xs)))
          (omega (arith, length-drop {A = A} mid (x ∷ y ∷ xs))) in
      rw (first, second)
        (ap some (
          left' (take mid all) (drop mid all)
          ∙ sym (backwards-append (take mid all) (drop mid all))
          ∙ ap backwards (take-append-drop mid all)))

  -- Where the order does not matter it is that of the blocks.
  pub backwards-eq-forwards :
      ((a b : B) → reduce_func a b ≡ reduce_func b a) → (xs : List A) → backwards xs ≡ forwards xs
  backwards-eq-forwards comm [] = refl
  backwards-eq-forwards comm (x ∷ xs) =
      comm (backwards xs) (map_func x)
      ∙ ap (reduce_func (map_func x)) (backwards-eq-forwards comm xs)

  pub map_segment-eq-forwards :
      (res : B) (xs : List A)
      → map_segment map_func reduce_func empty res xs ≡ reduce_func res (forwards xs)
  unfolding map_segment
  map_segment-eq-forwards res [] = sym (right res)
  map_segment-eq-forwards res (x ∷ xs) =
      map_segment-eq-forwards (reduce_func res (map_func x)) xs
      ∙ assoc res (map_func x) (forwards xs)

  pub forwards-append :
      (xs ys : List A) → forwards (xs ++ ys) ≡ reduce_func (forwards xs) (forwards ys)
  forwards-append [] ys = sym (left (forwards ys))
  forwards-append (x ∷ xs) ys =
      ap (reduce_func (map_func x)) (forwards-append xs ys)
      ∙ sym (assoc (map_func x) (forwards xs) (forwards ys))
