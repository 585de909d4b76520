-- ===== src/Parser/AddressState.antt =====
-- AddressState (src/parser/address_state.hpp, address_state.cpp) for one deduplicated type of
-- address: which number a hash has, behind a Bloom filter and a map of the hashes seen twice. The
-- two stores, google::dense_hash_map and RocksDB, are parameters with the laws of their interfaces.
pub mod Consistent
pub mod Resolve
pub mod Rollback
use block_sci.Prelude.{
  ℕ, zero, suc, ◌+◌, ◌%◌, ◌^◌, ◌≡◌, Bool, true, false, ◌&&◌, List, [], ◌∷◌, Option, none, some, ◌⊎◌,
  ◌↔◌, leb, ◌==◌, if◌then◌else◌,
}
use block_sci.Parser.Bloom.{BloomFilter, Key, add, possibly_contains, is_full, reset}

-- A hash of 20 bytes: the first four, and the two words that the filter reads.
pub record Uint160 : Type 0 where
  pub first : ℕ
  pub words : Key

abbrev pub same_hash : Uint160 → Uint160 → Bool
same_hash h j =
    (h.first == j.first)
    && ((h.words.hash_a == j.words.hash_a) && (h.words.hash_b == j.words.hash_b))

abbrev pub AmongEntries : Uint160 → ℕ → List (Uint160 × ℕ) → Type 0
AmongEntries h n [] = ⊥
AmongEntries h n ((j, m) ∷ es) = ((h ≡ j) × (n ≡ m)) ⊎ AmongEntries h n es

-- What the code uses of the two stores. `insert` leaves a value that is there, `put` replaces
-- it. The keys that set_deleted_key and set_empty_key name are reserved: nothing is said of an
-- insertion of one, which fails at an assert.
pub record KeyValue : Type 1 where
  pub Store : Type 0
  pub get : Uint160 → Store → Option ℕ
  pub insert : Uint160 → ℕ → Store → Store
  pub put : Uint160 → ℕ → Store → Store
  pub delete : Uint160 → Store → Store
  pub entries : Store → List (Uint160 × ℕ)
  pub reserved : Uint160 → Bool
  pub get-insert :
      (h j : Uint160) (n : ℕ) (s : Store)
      → reserved h ≡ false
      → get h s ≡ none
      → get j (insert h n s) ≡ (if same_hash h j then some n else get j s)
  pub get-put :
      (h j : Uint160) (n : ℕ) (s : Store)
      → get j (put h n s) ≡ (if same_hash h j then some n else get j s)
  pub get-delete :
      (h j : Uint160) (s : Store) → get j (delete h s) ≡ (if same_hash h j then none else get j s)
  pub get-entries :
      (h : Uint160) (n : ℕ) (s : Store) → (get h s ≡ some n) ↔ AmongEntries h n (entries s)

pub data AddressLocation : Type 0 where
  multi_use_map level_db not_found : AddressLocation

pub record RawAddressInfo : Type 0 where
  pub hash : Uint160
  pub location : AddressLocation
  pub address_num : ℕ

-- HashIndex::getMatch: the value, or 0.
abbrev pub get_match : Option ℕ → ℕ
get_match none = 0
get_match (some n) = n

-- The filter is given the hashes of a list, one after the other.
unfoldable pub add_all : List (Uint160 × ℕ) → BloomFilter → BloomFilter
add_all [] f = f
add_all ((h, n) ∷ es) f = add_all es (add h.words f)

-- The loops of rollback over the entries of a store: those whose number is not below the count go.
unfoldable pub delete_from : (K : KeyValue) → ℕ → List (Uint160 × ℕ) → K.Store → K.Store
delete_from K count [] s = s
delete_from K count ((h, n) ∷ es) s =
    delete_from K count es (if leb count n then K.delete h s else s)

module _ (D M : KeyValue) where
  pub record AddressState : Type 0 where
    pub bloom : BloomFilter
    pub multi : M.Store
    pub db : D.Store
    pub script_index : ℕ

  -- reloadBloomFilter: the filter of the database alone.
  unfoldable pub reload : AddressState → AddressState
  unfolding add_all
  reload s = record s { bloom = add_all (D.entries s.db) (reset s.bloom) }

  unfoldable pub find_address : Uint160 → AddressState → RawAddressInfo
  find_address h s =
      if possibly_contains h.words s.bloom
      then elim (M.get h s.multi) [
        | some n ↦ record { hash = h; location = multi_use_map; address_num = n }
        | none ↦
            let dest_num = get_match (D.get h s.db) in
            if dest_num == 0
            then record { hash = h; location = not_found; address_num = 0 }
            else record { hash = h; location = level_db; address_num = dest_num }
      ]
      else record { hash = h; location = not_found; address_num = 0 }

  -- The number of a new address, and the count that wraps at 2 ^ 32.
  unfoldable pub get_new_address_index : AddressState → ℕ × AddressState
  get_new_address_index s =
      (s.script_index, record s { script_index = (s.script_index + 1) % 2 ^ 32 })

  -- The branch of resolveAddress for an address that is not there.
  unfoldable pub add_address : Uint160 → AddressState → ℕ × AddressState
  unfolding get_new_address_index reload
  add_address h s =
      let new = get_new_address_index s in
      let t = record new.1 { bloom = add h.words new.1.bloom; db = D.put h new.0 new.1.db } in
      (new.0, if is_full t.bloom then reload t else t)

  -- The number, whether it is new, and the state.
  unfoldable pub resolve_address : RawAddressInfo → AddressState → (ℕ × Bool) × AddressState
  unfolding add_address
  resolve_address info s = elim info.location [
    | level_db ↦ (
      (info.address_num, false),
      record s { multi = M.insert info.hash info.address_num s.multi },
    )
    | multi_use_map ↦ ((info.address_num, false), s)
    | not_found ↦ let added = add_address info.hash s in ((added.0, true), added.1)
  ]

  -- ScriptOutput::resolve, less the addresses that the script wraps.
  abbrev pub resolve : Uint160 → AddressState → (ℕ × Bool) × AddressState
  resolve h s = resolve_address (find_address h s) s

  -- The addresses of a list, one after the other, with their numbers.
  abbrev pub resolve_all : List Uint160 → AddressState → List ℕ × AddressState
  resolve_all [] s = ([], s)
  resolve_all (h ∷ hs) s =
      let r = resolve h s in let rest = resolve_all hs r.1 in (r.0.0 ∷ rest.0, rest.1)

  -- ScriptOutput::check: the number, 0 for a new address; no state changes.
  unfoldable pub check : Uint160 → AddressState → ℕ × Bool
  unfolding find_address
  check h s = let info = find_address h s in (info.address_num, info.address_num == 0)

  -- Back to the state that had `count` addresses.
  unfoldable pub rollback : ℕ → AddressState → AddressState
  unfolding delete_from reload
  rollback count s = reload (record s {
    multi = delete_from M count (M.entries s.multi) s.multi;
    db = delete_from D count (D.entries s.db) s.db;
    script_index = count;
  })
