-- ===== src/Math.antt =====
-- The integer helpers of src/utils/math.h, on `size_t` as 64-bit words. A loop that has no bound
-- in the source takes fuel, and returns `none` when that runs out.
pub mod Align
pub mod Powers
pub mod Previous
pub mod Logs
pub mod Counts
use nomalloc.Prelude.{
  ℕ, zero, suc, ◌+◌, ◌-◌, ◌*◌, ◌/◌, ◌%◌, ◌^◌, Bool, not, ◌&&◌, Option, none, some, ltb, leb, ◌==◌,
  if◌then◌else◌, bit_and, u64, u32, sub64, not64,
}

unfoldable pub is_power_of_two : ℕ → Bool
is_power_of_two val = not (val == 0) && bit_and val (sub64 val 1) == 0

-- `while (result < val) result <<= 1;`
unfoldable pub next_loop : ℕ → ℕ → ℕ → Option ℕ
next_loop zero result val = none
next_loop (suc fuel) result val =
    let rest = next_loop fuel (u64 (result * 2)) val in if ltb result val then rest else some result

unfoldable pub next_power_of_two : ℕ → ℕ → Option ℕ
next_power_of_two fuel val =
    if val == 0 then some 1 else if is_power_of_two val then some val else next_loop fuel 1 val

-- `while ((result & (result - 1)) != 0) result &= (result - 1);`
unfoldable pub prev_loop : ℕ → ℕ → Option ℕ
prev_loop zero result = none
prev_loop (suc fuel) result =
    let low = bit_and result (sub64 result 1) in
    let rest = prev_loop fuel low in if low == 0 then some result else rest

unfoldable pub prev_power_of_two : ℕ → ℕ → Option ℕ
prev_power_of_two fuel val = if val == 0 then some 0 else prev_loop fuel val

unfoldable pub round_up_pow2 : ℕ → ℕ → ℕ
round_up_pow2 val pow2 =
    if pow2 == 0 then val else bit_and (sub64 (u64 (val + pow2)) 1) (not64 (sub64 pow2 1))

unfoldable pub round_down_pow2 : ℕ → ℕ → ℕ
round_down_pow2 val pow2 = if pow2 == 0 then val else bit_and val (not64 (sub64 pow2 1))

unfoldable pub align_up : ℕ → ℕ → ℕ
align_up val alignment =
    if alignment == 0 then val else u64 (sub64 (u64 (val + alignment)) 1 / alignment * alignment)

unfoldable pub align_down : ℕ → ℕ → ℕ
align_down val alignment = if alignment == 0 then val else u64 (val / alignment * alignment)

abbrev pub min : ℕ → ℕ → ℕ
min a b = if ltb a b then a else b

abbrev pub max : ℕ → ℕ → ℕ
max a b = if ltb b a then a else b

unfoldable pub clamp_size : ℕ → ℕ → ℕ → ℕ
clamp_size val min_val max_val =
    if ltb val min_val then min_val else if ltb max_val val then max_val else val

-- `while (val >>= 1) result++;`, the loop of `log2_u32` and of `log2_u64`.
unfoldable pub log2_loop : ℕ → ℕ → ℕ → Option ℕ
log2_loop zero val result = none
log2_loop (suc fuel) val result =
    let rest = log2_loop fuel (val / 2) (u32 (result + 1)) in
    if val / 2 == 0 then some result else rest

unfoldable pub log2_u32 : ℕ → ℕ → Option ℕ
log2_u32 fuel val = if val == 0 then some 0 else log2_loop fuel val 0

unfoldable pub log2_u64 : ℕ → ℕ → Option ℕ
log2_u64 fuel val = if val == 0 then some 0 else log2_loop fuel val 0

unfoldable pub ceil_log2 : ℕ → ℕ → Option ℕ
ceil_log2 fuel val =
    if leb val 1
    then some 0
    else elim (log2_u32 fuel (val - 1)) [ none ↦ none | some r ↦ some (u32 (r + 1)) ]

unfoldable pub div_round_up : ℕ → ℕ → ℕ
div_round_up dividend divisor = sub64 (u64 (dividend + divisor)) 1 / divisor

-- `while (val) { count += val & 1; val >>= 1; }`, the loop of both `popcount` functions.
unfoldable pub popcount_loop : ℕ → ℕ → ℕ → Option ℕ
popcount_loop zero val count = none
popcount_loop (suc fuel) val count =
    let rest = popcount_loop fuel (val / 2) (u64 (count + bit_and val 1)) in
    if val == 0 then some count else rest

unfoldable pub popcount_u64 : ℕ → ℕ → Option ℕ
popcount_u64 fuel val = popcount_loop fuel val 0

unfoldable pub popcount_u32 : ℕ → ℕ → Option ℕ
popcount_u32 fuel val = popcount_loop fuel val 0

-- `while ((val & 1) == 0) { count++; val >>= 1; }`, the loop of both `count_trailing_zeros`.
unfoldable pub trailing_loop : ℕ → ℕ → ℕ → Option ℕ
trailing_loop zero val count = none
trailing_loop (suc fuel) val count =
    let rest = trailing_loop fuel (val / 2) (u32 (count + 1)) in
    if bit_and val 1 == 0 then rest else some count

unfoldable pub count_trailing_zeros_u32 : ℕ → ℕ → Option ℕ
count_trailing_zeros_u32 fuel val = if val == 0 then some 32 else trailing_loop fuel val 0

unfoldable pub count_trailing_zeros_u64 : ℕ → ℕ → Option ℕ
count_trailing_zeros_u64 fuel val = if val == 0 then some 64 else trailing_loop fuel val 0

-- `while ((val & mask) == 0) { count++; mask >>= 1; }`
unfoldable pub leading_loop : ℕ → ℕ → ℕ → ℕ → Option ℕ
leading_loop zero val mask count = none
leading_loop (suc fuel) val mask count =
    let rest = leading_loop fuel val (mask / 2) (u32 (count + 1)) in
    if bit_and val mask == 0 then rest else some count

unfoldable pub count_leading_zeros_u64 : ℕ → ℕ → Option ℕ
count_leading_zeros_u64 fuel val = if val == 0 then some 64 else leading_loop fuel val (2 ^ 63) 0
