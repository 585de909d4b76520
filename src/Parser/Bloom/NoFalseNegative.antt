-- ===== src/Parser/Bloom/NoFalseNegative.antt =====
-- What adding a key does to the answers of the filter.
use block_sci.Prelude.{ℕ, zero, suc, ◌≡◌, refl, true, ==_refl, arith}
use block_sci.Parser.Bloom.{
  BloomStore, BloomFilter, Key, set_bit, is_set, nth_hash, add_bits, has_bits, add,
  possibly_contains,
}

-- Every bit of the one is set in the other.
abbrev pub Grows : BloomStore → BloomStore → Type 0
Grows s t = (p : ℕ) → is_set p s ≡ true → is_set p t ≡ true

set_bit-Grows : (p : ℕ) (s : BloomStore) → Grows s (set_bit p s)
unfolding set_bit is_set
set_bit-Grows p s q h = ground arith

add_bits-Grows :
    (left n : ℕ) (k : Key) (size : ℕ) (s : BloomStore) → Grows s (add_bits left n k size s)
unfolding add_bits
add_bits-Grows zero n k size s p h = h
add_bits-Grows (suc left) n k size s p h =
    add_bits-Grows left (suc n) k size _ p (set_bit-Grows _ s p h)

is_set-set_bit : (p : ℕ) (s : BloomStore) → is_set p (set_bit p s) ≡ true
unfolding set_bit is_set
is_set-set_bit p s = rw (==_refl p)

has_bits-Grows :
    (left n : ℕ) (k : Key) (size : ℕ) (s t : BloomStore)
    → Grows s t
    → has_bits left n k size s ≡ true
    → has_bits left n k size t ≡ true
unfolding has_bits
has_bits-Grows zero n k size s t g h = refl
has_bits-Grows (suc left) n k size s t g h =
    ground (arith, g (nth_hash n k.hash_a k.hash_b size), has_bits-Grows left (suc n) k size s t g)

has_bits-add_bits :
    (left n : ℕ) (k : Key) (size : ℕ) (s : BloomStore)
    → has_bits left n k size (add_bits left n k size s) ≡ true
unfolding has_bits add_bits
has_bits-add_bits zero n k size s = refl
has_bits-add_bits (suc left) n k size s = rw (
  add_bits-Grows left (suc n) k size (set_bit (nth_hash n k.hash_a k.hash_b size) s)
      (nth_hash n k.hash_a k.hash_b size) (is_set-set_bit (nth_hash n k.hash_a k.hash_b size) s),
  has_bits-add_bits left (suc n) k size (set_bit (nth_hash n k.hash_a k.hash_b size) s),
)

-- A key is found after it was added, and one that was found before is found still.
pub possibly_contains-add :
    (k j : Key) (f : BloomFilter)
    → (possibly_contains k (add k f) ≡ true)
      × (possibly_contains j f ≡ true → possibly_contains j (add k f) ≡ true)
unfolding possibly_contains add
possibly_contains-add k j f = (
  has_bits-add_bits f.num_hashes 0 k f.length f.store,
  has_bits-Grows f.num_hashes 0 j f.length f.store _
      (add_bits-Grows f.num_hashes 0 k f.length f.store),
)
