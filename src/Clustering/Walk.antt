-- ===== src/Clustering/Walk.antt =====
-- Which transactions chain.mapReduce reaches in getClusters.
use block_sci.Chain.MapReduce.{Block, last_end, txs_from}
use block_sci.Chain.MapReduce.Cover.{Follow, segment_chain_covers}
use block_sci.Chain.Types.{Transaction}
use block_sci.Clustering.{Source, number_blocks, transactions_in, walk_chain}
use block_sci.Prelude.{
  ℕ, suc, ◌+◌, ◌-◌, ◌/◌, ◌%◌, ◌^◌, ◌≤◌, ◌<◌, ◌≡◌, refl, sym, ap, ◌∙◌, subst, List, [], ◌∷◌, ◌++◌,
  map, some, length, take, drop, concat, All, append_assoc, length-append, take-append_self,
  drop-append_self, arith,
}

length-number_blocks :
    (f : ℕ) (xs : List (List Transaction)) → length (number_blocks f xs) ≡ length xs
length-number_blocks f [] = refl
length-number_blocks f (t ∷ xs) = ap suc (length-number_blocks ((f + length t) % 2 ^ 32) xs)

number_blocks-append :
    (f : ℕ) (xs ys : List (List Transaction))
    → f + length (concat xs) < 2 ^ 32
    → number_blocks f (xs ++ ys) ≡ number_blocks f xs ++ number_blocks (f + length (concat xs)) ys
number_blocks-append f [] ys h = ap (λ n. number_blocks n ys) (omega arith)
number_blocks-append f (t ∷ xs) ys h =
    let size = length-append t (concat xs) in
    let next : (f + length t) % 2 ^ 32 ≡ f + length t = omega (arith, size, h) in
    let here : Block = record { first_tx_index = f; tx_count = length t } in
    ap (λ (l : List Block). here ∷ l)
      (number_blocks-append ((f + length t) % 2 ^ 32) xs ys (omega (arith, size, h))
        ∙ ap (λ n. number_blocks ((f + length t) % 2 ^ 32) xs ++ number_blocks n ys)
            (omega (arith, size, next)))

Follow-number_blocks :
    (f : ℕ) (xs : List (List Transaction))
    → All (λ (t : List Transaction). 0 < length t) xs
    → f + length (concat xs) < 2 ^ 32
    → Follow f (number_blocks f xs) (f + length (concat xs))
Follow-number_blocks f [] p h = omega arith
Follow-number_blocks f (t ∷ xs) (p, ps) h =
    let size = length-append t (concat xs) in
    let end : (f + length t) % 2 ^ 32 + length (concat xs) ≡ f + length (t ++ concat xs) =
      omega (arith, size, h) in
    (
      refl,
      p,
      subst (Follow ((f + length t) % 2 ^ 32) (number_blocks ((f + length t) % 2 ^ 32) xs)) end
          (Follow-number_blocks ((f + length t) % 2 ^ 32) xs ps (omega (arith, size, h))),
    )

last_end-number_blocks :
    (f : ℕ) (t : List Transaction) (xs : List (List Transaction))
    → f + length (concat (t ∷ xs)) < 2 ^ 32
    → last_end (number_blocks f (t ∷ xs)) ≡ f + length (concat (t ∷ xs))
last_end-number_blocks f t [] h = omega (arith, length-append {A = Transaction} t [], h)
last_end-number_blocks f t (u ∷ xs) h =
    let size = length-append t (concat (u ∷ xs)) in
    last_end-number_blocks ((f + length t) % 2 ^ 32) u xs (omega (arith, size, h))
    ∙ omega (arith, size, h)

-- The numbers of the blocks are the places of their transactions.
transactions_in-number_blocks :
    (all before after : List Transaction) (xs : List (List Transaction))
    → all ≡ before ++ (concat xs ++ after)
    → length before + length (concat xs) < 2 ^ 32
    → concat (map (transactions_in all) (number_blocks (length before) xs)) ≡ concat xs
transactions_in-number_blocks all before after [] e h = refl
transactions_in-number_blocks all before after (t ∷ xs) e h =
    let size = length-append t (concat xs) in
    let whole : all ≡ before ++ (t ++ (concat xs ++ after)) =
      e ∙ ap (λ l. before ++ l) (append_assoc t (concat xs) after) in
    let own : take (length t) (drop (length before) all) ≡ t =
      ap (λ l. take (length t) (drop (length before) l)) whole
      ∙ ap (take (length t)) (drop-append_self before (t ++ (concat xs ++ after)))
      ∙ take-append_self t (concat xs ++ after) in
    let next : (length before + length t) % 2 ^ 32 ≡ length (before ++ t) =
      omega (arith, size, length-append before t, h) in
    ap
      (λ l.
        l
        ++ concat
            (map (transactions_in all) (number_blocks ((length before + length t) % 2 ^ 32) xs)))
      own
    ∙ ap (λ n. t ++ concat (map (transactions_in all) (number_blocks n xs))) next
    ∙ ap (λ l. t ++ l)
        (transactions_in-number_blocks all (before ++ t) after xs
          (whole ∙ sym (append_assoc before t (concat xs ++ after)))
          (omega (arith, size, length-append before t, h)))

concat-append : (xs ys : List (List Transaction)) → concat (xs ++ ys) ≡ concat xs ++ concat ys
concat-append [] ys = refl
concat-append (t ∷ xs) ys = ap (λ l. t ++ l) (concat-append xs ys) ∙ sym (append_assoc t _ _)

-- On a chain of ten blocks behind others, none of these empty, with fewer than 2 ^ 32 transactions,
-- and at least as many in those others as threads, chain.mapReduce ends and reaches each transaction
-- of the others, in order.
pub walk_chain_lem :
    (c : Source) (t u : List Transaction) (ts us : List (List Transaction))
    → c.blocks ≡ (t ∷ ts) ++ (u ∷ us)
    → length us ≡ 9
    → All (λ (txs : List Transaction). 0 < length txs) (t ∷ ts)
    → length (concat c.blocks) < 2 ^ 32
    → 1 ≤ length (concat (t ∷ ts)) / c.threads
    → walk_chain c ≡ some (concat (t ∷ ts))
unfolding walk_chain
walk_chain_lem c t u ts us e ten full small step =
    let xs : List (List Transaction) = t ∷ ts in
    let ys : List (List Transaction) = u ∷ us in
    let total = length (concat xs) in
    let texts : concat c.blocks ≡ concat xs ++ concat ys = ap concat e ∙ concat-append xs ys in
    let few : 0 + total < 2 ^ 32 =
      omega (arith, small, ap length texts, length-append (concat xs) (concat ys)) in
    let front = number_blocks 0 xs in
    let behind = number_blocks (0 + total) ys in
    let count : length c.blocks - 10 ≡ length front =
      omega (arith, ap length e, length-append xs ys, ten, length-number_blocks 0 xs) in
    let numbered : number_blocks 0 c.blocks ≡ front ++ behind =
      ap (number_blocks 0) e ∙ number_blocks-append 0 xs ys few in
    let taken : take (length c.blocks - 10) (number_blocks 0 c.blocks) ≡ front =
      ap (λ n. take n (number_blocks 0 c.blocks)) count
      ∙ ap (take (length front)) numbered
      ∙ take-append_self front behind in
    let left : drop (length c.blocks - 10) (number_blocks 0 c.blocks) ≡ behind =
      ap (λ n. drop n (number_blocks 0 c.blocks)) count
      ∙ ap (drop (length front)) numbered
      ∙ drop-append_self front behind in
    let end : last_end front ≡ 0 + total = last_end-number_blocks 0 t ts few in
    let first : Block = record { first_tx_index = 0; tx_count = length t } in
    let next : Block = record { first_tx_index = 0 + total; tx_count = length u } in
    let follow : Follow 0 front (last_end front) =
      subst (Follow 0 front) (sym end) (Follow-number_blocks 0 xs full few) in
    let size : txs_from (last_end front) 0 ≡ total =
      ap (λ n. txs_from n 0) end ∙ (unfold txs_from in omega (arith, few)) in
    let (ss, cut, all) =
      segment_chain_covers first (number_blocks ((0 + length t) % 2 ^ 32) ts) next c.threads follow
        (sym end) (subst (λ n. 1 ≤ n / c.threads) (sym size) step) in
    rw (walk_chain, taken, left, cut, all)
      (ap some (transactions_in-number_blocks (concat c.blocks) [] (concat ys) xs texts few))
