-- ===== src/Tests/Numbers.antt =====
-- The arithmetic, the size classes, the bitmaps, the pages and the hash table.
use nomalloc.Prelude.{
  ℕ, zero, suc, ◌+◌, ◌<◌, ◌≤◌, ◌≡◌, refl, true, false, arith, List, [], ◌∷◌, Option, some, get_or,
  replicate, ◌*◌, ◌^◌,
}
use nomalloc.Math.{align_up, next_power_of_two}
use nomalloc.Math.Powers.{next_power_of_two_least}
use nomalloc.SizeClass.{size_to_class, class_to_size}
use nomalloc.SizeClass.Fit.{size_to_class_best_fit}
use nomalloc.Bitmap.{bitmap_find_first_set, bitmap_find_first_clear}
use nomalloc.Bitmap.Access.{IsWordList}
use nomalloc.Bitmap.Scan.{IsFirstWith, bitmap_find_first-IsFirstWith}
use nomalloc.Hash.{
  HashTable32, hash_table32_insert, hash_table32_lookup, stored, hash32_murmur3, home, insert_loop,
  occupy, next_idx,
}
use nomalloc.Hash.Probe.{IsHashTable, hash_table32_insert-lookup}

next_power_of_two_least_example :
    (k : ℕ) × (next_power_of_two 64 100 ≡ some (2 ^ k)) × (100 ≤ 2 ^ k) × (2 ^ k < 2 * 100)
next_power_of_two_least_example = next_power_of_two_least 100 (omega arith) (omega arith)

size_to_class_best_fit_example :
    (size_to_class 100 < 47)
    × (100 ≤ class_to_size (size_to_class 100))
    × ((j : ℕ) → 100 ≤ class_to_size j → class_to_size (size_to_class 100) ≤ class_to_size j)
size_to_class_best_fit_example = size_to_class_best_fit 100 (omega arith) (omega arith)

class_7 : 0 < class_to_size 7
unfolding class_to_size
class_7 = omega arith

abbrev two_words : List ℕ
two_words = 6 ∷ 1 ∷ []

two_words-IsWordList : IsWordList two_words
two_words-IsWordList zero = omega arith
two_words-IsWordList (suc zero) = omega arith
two_words-IsWordList (suc (suc i)) = omega arith

bitmap_find_first-IsFirstWith_example :
    IsFirstWith true two_words 100 (bitmap_find_first_set two_words 100)
    × IsFirstWith false two_words 100 (bitmap_find_first_clear two_words 100)
bitmap_find_first-IsFirstWith_example = bitmap_find_first-IsFirstWith two_words 100 (omega arith)

-- A system that maps everything at 12288.
abbrev at_12288 : ℕ → Option ℕ
at_12288 n = some 12288

mapped_length : align_up (8192 + 8192) 4096 ≡ 16384
unfolding align_up
mapped_length = refl

-- A table of eight slots, empty.
abbrev eight_slots : HashTable32
eight_slots = record {
  keys = replicate 8 0;
  values = replicate 8 0;
  capacity = 8;
  count = 0;
  tombstones = 0;
}

eight_slots-IsHashTable : IsHashTable eight_slots
eight_slots-IsHashTable = record {
  some_capacity = omega arith;
  word_capacity = omega arith;
  keys_length = refl;
  values_length = refl;
}

stored_42 : (hash_table32_insert eight_slots 42 7).1 ≡ stored
unfolding hash_table32_insert insert_loop home hash32_murmur3 occupy next_idx
stored_42 = refl

hash_table32_insert-lookup_example :
    (at : ℕ) × (hash_table32_lookup (hash_table32_insert eight_slots 42 7).0 42 ≡ some at)
    × (get_or (hash_table32_insert eight_slots 42 7).0.values at 0 ≡ 7)
hash_table32_insert-lookup_example =
    hash_table32_insert-lookup eight_slots 42 7 eight_slots-IsHashTable stored_42
