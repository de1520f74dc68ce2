-- ===== src/Hash.antt =====
-- The hash functions and the open-addressing table of src/utils/hash.h. The two arrays are lists,
-- a pointer into `values` is its index, and NULL is `none`.
pub mod Probe
use nomalloc.Prelude.{
  ℕ, zero, suc, ◌+◌, ◌-◌, ◌*◌, ◌/◌, ◌^◌, Bool, true, false, not, ◌||◌, List, [], ◌∷◌, Option, none,
  some, leb, ltb, ◌==◌, if◌then◌else◌, bit_and, bit_or, bit_xor, u64, u32, sub64, get_or, set,
  replicate,
}

-- The shift by `32 - k` is undefined in C for `k = 0`.
unfoldable pub hash32_rot : ℕ → ℕ → ℕ
hash32_rot x k = bit_or (u32 (x * 2 ^ k)) (x / 2 ^ (32 - k))

unfoldable pub hash32_murmur3 : ℕ → ℕ
hash32_murmur3 key =
    let key1 = bit_xor key (key / 2 ^ 16) in
    let key2 = u32 (key1 * 0x85EBCA6B) in
    let key3 = bit_xor key2 (key2 / 2 ^ 13) in
    let key4 = u32 (key3 * 0xC2B2AE35) in bit_xor key4 (key4 / 2 ^ 16)

unfoldable pub hash64_murmur3 : ℕ → ℕ
hash64_murmur3 key =
    let key1 = bit_xor key (key / 2 ^ 33) in
    let key2 = u64 (key1 * 0xFF51AFD7ED558CCD) in
    let key3 = bit_xor key2 (key2 / 2 ^ 33) in
    let key4 = u64 (key3 * 0xC4CEB9FE1A85EC53) in bit_xor key4 (key4 / 2 ^ 33)

unfoldable pub fnv1a32_loop : ℕ → List ℕ → ℕ
fnv1a32_loop hash [] = hash
fnv1a32_loop hash (byte ∷ bytes) = fnv1a32_loop (u32 (bit_xor hash byte * 16777619)) bytes

unfoldable pub hash32_fnv1a : List ℕ → ℕ
hash32_fnv1a bytes = fnv1a32_loop 2166136261 bytes

unfoldable pub fnv1a64_loop : ℕ → List ℕ → ℕ
fnv1a64_loop hash [] = hash
fnv1a64_loop hash (byte ∷ bytes) = fnv1a64_loop (u64 (bit_xor hash byte * 1099511628211)) bytes

unfoldable pub hash64_fnv1a : List ℕ → ℕ
hash64_fnv1a bytes = fnv1a64_loop 14695981039346656037 bytes

abbrev pub hash_empty_slot : ℕ
hash_empty_slot = 0

abbrev pub hash_tombstone : ℕ
hash_tombstone = 1

pub record HashTable32 : Type 0 where
  pub keys : List ℕ
  pub values : List ℕ
  pub capacity : ℕ
  pub count : ℕ
  pub tombstones : ℕ

-- `have_keys` and `have_values` tell whether the two calls of `calloc` succeed.
unfoldable pub hash_table32_init : Bool → Bool → ℕ → Option HashTable32
hash_table32_init have_keys have_values capacity =
    if not have_keys || not have_values
    then none
    else some (record {
      keys = replicate capacity hash_empty_slot;
      values = replicate capacity 0;
      capacity = capacity;
      count = 0;
      tombstones = 0;
    })

abbrev pub is_reserved : ℕ → Bool
is_reserved key = key == hash_empty_slot || key == hash_tombstone

-- The first index that is probed for a key, and the one after an index.
unfoldable pub home : ℕ → ℕ → ℕ
home capacity key = bit_and (hash32_murmur3 key) (sub64 capacity 1)

unfoldable pub next_idx : ℕ → ℕ → ℕ
next_idx capacity idx = bit_and (u64 (idx + 1)) (sub64 capacity 1)

-- The loop of `hash_table32_lookup`, with `left` probes to go.
unfoldable pub lookup_loop : ℕ → ℕ → List ℕ → ℕ → ℕ → Option ℕ
lookup_loop zero capacity keys key idx = none
lookup_loop (suc left) capacity keys key idx =
    let rest = lookup_loop left capacity keys key (next_idx capacity idx) in
    let slot_key = get_or keys idx hash_empty_slot in
    if slot_key == key then some idx else if slot_key == hash_empty_slot then none else rest

unfoldable pub hash_table32_lookup : HashTable32 → ℕ → Option ℕ
hash_table32_lookup t key =
    if is_reserved key
    then none
    else lookup_loop t.capacity t.capacity t.keys key (home t.capacity key)

-- The return values 0, -1, -2 and -3 of `hash_table32_insert`.
pub data Insertion : Type 0 where
  stored reserved crowded full : Insertion

-- The two ways in which the loop of `hash_table32_insert` stores a value at an index.
unfoldable pub overwrite : HashTable32 → ℕ → ℕ → HashTable32
overwrite t idx value = record t { values = set t.values idx value }

unfoldable pub occupy : HashTable32 → ℕ → ℕ → ℕ → HashTable32
occupy t key value idx = record t {
  keys = set t.keys idx key;
  values = set t.values idx value;
  count = u64 (t.count + 1);
  tombstones =
      if get_or t.keys idx hash_empty_slot == hash_tombstone
      then sub64 t.tombstones 1
      else t.tombstones;
}

unfoldable pub insert_loop : ℕ → HashTable32 → ℕ → ℕ → ℕ → HashTable32 × Insertion
insert_loop zero t key value idx = (t, full)
insert_loop (suc left) t key value idx =
    let rest = insert_loop left t key value (next_idx t.capacity idx) in
    let slot_key = get_or t.keys idx hash_empty_slot in
    if slot_key == key
    then (overwrite t idx value, stored)
    else if is_reserved slot_key
    then (occupy t key value idx, stored)
    else rest

-- The test of the load compares doubles; it is exact below 2^53.
unfoldable pub hash_table32_insert : HashTable32 → ℕ → ℕ → HashTable32 × Insertion
hash_table32_insert t key value =
    if is_reserved key
    then (t, reserved)
    else if leb (3 * t.capacity) (4 * u64 (t.count + t.tombstones))
    then (t, crowded)
    else insert_loop t.capacity t key value (home t.capacity key)

-- `false` is each of the return values -1 and -2, which leave the table alone.
unfoldable pub hash_table32_remove : HashTable32 → ℕ → HashTable32 × Bool
hash_table32_remove t key =
    if is_reserved key then (t, false) else elim (hash_table32_lookup t key) [
      | none ↦ (t, false)
      | some idx ↦ (
        record t {
          keys = set t.keys idx hash_tombstone;
          values = set t.values idx 0;
          count = sub64 t.count 1;
          tombstones = u64 (t.tombstones + 1);
        },
        true,
      )
    ]

unfoldable pub hash_table32_clear : HashTable32 → HashTable32
hash_table32_clear t = record t {
  keys = replicate t.capacity 0;
  values = replicate t.capacity 0;
  count = 0;
  tombstones = 0;
}

unfoldable pub hash_table32_destroy : HashTable32
hash_table32_destroy = record { keys = []; values = []; capacity = 0; count = 0; tombstones = 0 }

-- `hash32_ptr` and `hash64_ptr` take the address, the former its low 32 bits.
unfoldable pub hash32_ptr : ℕ → ℕ
hash32_ptr ptr = hash32_murmur3 (u32 ptr)

unfoldable pub hash64_ptr : ℕ → ℕ
hash64_ptr ptr = hash64_murmur3 ptr
