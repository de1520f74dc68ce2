-- ===== src/SizeClass.antt =====
-- The size classes of src/core/size_class.h. The assertions at the head of the functions have no
-- effect in the source: with `NDEBUG` they are empty, and without it the macro tests the comma
-- expression `(cond, "message")`, whose value is the non-null string.
pub mod Fit
pub mod Classes
use nomalloc.Prelude.{
  ℕ, zero, suc, ◌+◌, ◌-◌, ◌*◌, Bool, ◌&&◌, List, [], ◌∷◌, Option, none, some, ltb, leb, ◌==◌,
  if◌then◌else◌, get_or,
}
use nomalloc.Math.{align_up}

abbrev pub num_small_classes : ℕ
num_small_classes = 30

abbrev pub num_medium_classes : ℕ
num_medium_classes = 17

abbrev pub num_size_classes : ℕ
num_size_classes = 47

abbrev pub size_class_small_max : ℕ
size_class_small_max = 4096

abbrev pub size_class_medium_max : ℕ
size_class_medium_max = 1048576

-- The array has 30 places and 29 values: C fills the last place with 0.
abbrev pub small_size_classes : List ℕ
small_size_classes =
    8 ∷ 16 ∷ 32 ∷ 48 ∷ 64 ∷ 80 ∷ 96 ∷ 112 ∷ 128 ∷ 160 ∷ 192 ∷ 224 ∷ 256 ∷ 320 ∷ 384 ∷ 448 ∷ 512
    ∷ 640 ∷ 768 ∷ 896 ∷ 1024 ∷ 1280 ∷ 1536 ∷ 1792 ∷ 2048 ∷ 2560 ∷ 3072 ∷ 3584 ∷ 4096 ∷ 0 ∷ []

abbrev pub medium_size_classes : List ℕ
medium_size_classes =
    8192 ∷ 12288 ∷ 16384 ∷ 20480 ∷ 24576 ∷ 28672 ∷ 32768 ∷ 49152 ∷ 65536 ∷ 98304 ∷ 131072 ∷ 196608
    ∷ 262144 ∷ 393216 ∷ 524288 ∷ 786432 ∷ 1048576 ∷ []

-- The loop of both functions below: the index of the first entry that is not below `size`, or
-- `default` after the last.
unfoldable pub scan_classes : List ℕ → ℕ → ℕ → ℕ → ℕ
scan_classes [] size i default = default
scan_classes (c ∷ table) size i default =
    let rest = scan_classes table size (i + 1) default in if leb size c then i else rest

unfoldable pub size_to_class_small : ℕ → ℕ
size_to_class_small size =
    if leb size 8 then 0 else scan_classes small_size_classes size 0 (num_small_classes - 1)

unfoldable pub size_to_class_medium : ℕ → ℕ
size_to_class_medium size =
    let adjusted_size = if leb size size_class_small_max then size_class_small_max + 1 else size in
    scan_classes medium_size_classes adjusted_size num_small_classes (num_size_classes - 1)

unfoldable pub size_to_class : ℕ → ℕ
size_to_class size =
    if leb size size_class_small_max
    then size_to_class_small size
    else if leb size size_class_medium_max
    then size_to_class_medium size
    else num_size_classes

unfoldable pub class_to_size : ℕ → ℕ
class_to_size class_idx =
    if ltb class_idx num_small_classes
    then get_or small_size_classes class_idx 0
    else if ltb class_idx num_size_classes
    then get_or medium_size_classes (class_idx - num_small_classes) 0
    else 0

abbrev pub is_small_class_idx : ℕ → Bool
is_small_class_idx class_idx = ltb class_idx num_small_classes

abbrev pub is_medium_class_idx : ℕ → Bool
is_medium_class_idx class_idx = leb num_small_classes class_idx && ltb class_idx num_size_classes

abbrev pub is_large_class_idx : ℕ → Bool
is_large_class_idx class_idx = leb num_size_classes class_idx

unfoldable pub size_class_align : ℕ → ℕ → ℕ
size_class_align page_size size =
    if leb size size_class_small_max
    then get_or small_size_classes (size_to_class_small size) 0
    else if leb size size_class_medium_max
    then get_or medium_size_classes (size_to_class_medium size - num_small_classes) 0
    else align_up size page_size
