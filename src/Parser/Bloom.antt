-- ===== src/Parser/Bloom.antt =====
-- BloomStore and BloomFilter (src/parser/bloom_filter.hpp, bloom_filter.cpp). The backing file
-- of 64-bit blocks is a function from the position of a bit; a uint64_t wraps at 2 ^ 64. The length
-- and the number of hashes come from logarithms, and are arguments.
pub mod NoFalseNegative
use block_sci.Prelude.{
  ℕ, zero, suc, ◌+◌, ◌-◌, ◌*◌, ◌/◌, ◌%◌, ◌^◌, ◌≤◌, ◌<◌, ◌≡◌, refl, ◌≢◌, inl, inr, Bool, true, false,
  not, ◌&&◌, ◌||◌, List, [], ◌∷◌, leb, ltb, ◌==◌, if◌then◌else◌, Bool-cases, ==_iff, ==_refl, arith,
}

-- The bits as a function of their position: `|=` with a mask of one bit, and the test by `&`.
pub record BloomStore : Type 0 where
  pub length : ℕ
  pub bits : ℕ → Bool

unfoldable pub set_bit : ℕ → BloomStore → BloomStore
set_bit p s = record s { bits = λ q. if q == p then true else s.bits q }

unfoldable pub is_set : ℕ → BloomStore → Bool
is_set p s = s.bits p

unfoldable pub block_count : ℕ → ℕ
block_count length = (length + 64 - 1) / 64

pub record BloomFilter : Type 0 where
  pub max_items : ℕ
  pub num_hashes : ℕ
  pub length : ℕ
  pub added_count : ℕ
  pub store : BloomStore

-- A key by the two 64-bit words at its end.
pub record Key : Type 0 where
  pub hash_a : ℕ
  pub hash_b : ℕ

-- For a filter with bits: the source divides by their number.
unfoldable pub nth_hash : ℕ → ℕ → ℕ → ℕ → ℕ
nth_hash n hash_a hash_b filter_size = (hash_a + n * hash_b) % 2 ^ 64 % filter_size

-- `for (n = 0; n < numHashes; n++)`, on the rounds left with `n` the round.
unfoldable pub add_bits : ℕ → ℕ → Key → ℕ → BloomStore → BloomStore
unfolding nth_hash set_bit
add_bits zero n k size s = s
add_bits (suc left) n k size s =
    add_bits left (suc n) k size (set_bit (nth_hash n k.hash_a k.hash_b size) s)

unfoldable pub has_bits : ℕ → ℕ → Key → ℕ → BloomStore → Bool
unfolding nth_hash is_set
has_bits zero n k size s = true
has_bits (suc left) n k size s =
    if is_set (nth_hash n k.hash_a k.hash_b size) s then has_bits left (suc n) k size s else false

unfoldable pub add : Key → BloomFilter → BloomFilter
unfolding add_bits
add k f = record f {
  store = add_bits f.num_hashes 0 k f.length f.store;
  added_count = f.added_count + 1;
}

unfoldable pub possibly_contains : Key → BloomFilter → Bool
unfolding has_bits
possibly_contains k f = has_bits f.num_hashes 0 k f.length f.store

unfoldable pub is_full : BloomFilter → Bool
is_full f = leb f.max_items f.added_count

-- reset(maxItems, fpRate) with the same two arguments: new data, and a truncated store of zeros.
unfoldable pub reset : BloomFilter → BloomFilter
reset f = record f { added_count = 0; store = record { length = f.length; bits = λ q. false } }
