-- ===== src/Collector/Doubles.antt =====
-- The `double` of C as its 64 bits, with the comparisons that src/gc/gc.c and
-- src/core/allocator.c make.
use nomalloc.Prelude.{ℕ, ◌%◌, ◌^◌, Bool, false, not, ◌&&◌, ◌||◌, ltb, leb, ◌==◌, if◌then◌else◌}

-- The sign bit, and the bits below it.
abbrev pub negative : ℕ → Bool
negative d = leb (2 ^ 63) d

abbrev pub magnitude : ℕ → ℕ
magnitude d = d % 2 ^ 63

-- 0x7FF0000000000000 is the pattern of the infinity.
abbrev pub not_a_number : ℕ → Bool
not_a_number d = ltb 9218868437227405312 (magnitude d)

-- The comparison of the values, 0 and -0 the same.
unfoldable pub double_lt : ℕ → ℕ → Bool
double_lt a b =
    if not_a_number a || not_a_number b
    then false
    else if negative a
    then (if negative b
        then ltb (magnitude b) (magnitude a)
        else not (magnitude a == 0 && magnitude b == 0))
    else not (negative b) && ltb (magnitude a) (magnitude b)

unfoldable pub double_le : ℕ → ℕ → Bool
double_le a b = not (not_a_number a || not_a_number b) && not (double_lt b a)

abbrev pub double_zero : ℕ
double_zero = 0

-- 0x3FF0000000000000
abbrev pub double_one : ℕ
double_one = 4607182418800017408

-- The patterns of 0.01, 0.1, 0.3, 0.6 and 0.8: 0x3F847AE147AE147B, 0x3FB999999999999A, 0x3FD3333333333333,
-- 0x3FE3333333333333 and 0x3FE999999999999A.
abbrev pub double_hundredth : ℕ
double_hundredth = 4576918229304087675

abbrev pub double_tenth : ℕ
double_tenth = 4591870180066957722

abbrev pub double_three_tenths : ℕ
double_three_tenths = 4599075939470750515

abbrev pub double_six_tenths : ℕ
double_six_tenths = 4603579539098121011

abbrev pub double_eight_tenths : ℕ
double_eight_tenths = 4605380978949069210
