-- ===== src/Collector/Configured.antt =====
-- The settings of src/gc/gc.c under every sequence of calls.
use nomalloc.Prelude.{
  ℕ, ◌*◌, ◌≤◌, ◌<◌, ◌≡◌, ◌⊎◌, inl, inr, Bool-cases, refl, Bool, true, false, ◌||◌, List, [], ◌∷◌,
  ltb, ◌==◌, if◌then◌else◌, arith,
}
use nomalloc.Memory.{Memory}
use nomalloc.Collector.Doubles.{double_lt, double_le, double_zero, double_one, not_a_number}
use nomalloc.Collector.State.{GcResult, Gc, initial}
use nomalloc.Collector.Settings.{
  gc_enable, gc_disable, gc_set_threshold, gc_set_watermark, gc_set_region_size,
  gc_set_pause_target, gc_set_generation_threshold, gc_set_mixed_gc_ratio, gc_reset_stats,
}

-- The calls that change the settings or the statistics.
pub data GcCall : Type 0 where
  enable disable reset_stats : GcCall
  set_threshold set_region_size set_pause_target set_mixed_gc_ratio : ℕ → GcCall
  set_watermark set_generation_threshold : ℕ → ℕ → GcCall

unfoldable pub perform : GcCall → Gc → GcResult × Gc
perform enable g = gc_enable g
perform disable g = gc_disable g
perform reset_stats g = gc_reset_stats g
perform (set_threshold n) g = gc_set_threshold n g
perform (set_region_size n) g = gc_set_region_size n g
perform (set_pause_target n) g = gc_set_pause_target n g
perform (set_mixed_gc_ratio d) g = gc_set_mixed_gc_ratio d g
perform (set_watermark d e) g = gc_set_watermark d e g
perform (set_generation_threshold k n) g = gc_set_generation_threshold k n g

unfoldable pub perform_all : List GcCall → Gc → Gc
perform_all [] g = g
perform_all (x ∷ xs) g = perform_all xs (perform x g).1

pub record IsBetween (low high n : ℕ) : Type 0 where
  pub least : low ≤ n
  pub most : n ≤ high

-- A pause target within its bounds, the same in both places.
pub record IsPauseTarget (target copy : ℕ) : Type 0 where
  pub bounds : IsBetween 10 500 target
  pub same : copy ≡ target

pub record IsThreshold (threshold copy : ℕ) : Type 0 where
  pub positive : 0 < threshold
  pub same : copy ≡ threshold

pub record IsCapacities (y s o : ℕ) : Type 0 where
  pub young : 0 < y
  pub survivor : 0 < s
  pub old : 0 < o

-- 0 ≤ low < high ≤ 1, as the comparisons of C have it.
abbrev pub IsApart : ℕ → ℕ → Type 0
IsApart high low =
    (double_le double_zero low ≡ true)
    × (double_lt low high ≡ true)
    × (double_le high double_one ≡ true)

-- The watermarks are apart and between 0 and 1, or one of them is a NaN. The high one is never
-- above 1, nor the low one below 0.
pub record IsWatermarks (high low high_copy low_copy : ℕ) : Type 0 where
  pub numbers : (not_a_number high || not_a_number low ≡ true) ⊎ IsApart high low
  pub at_most_one : double_lt double_one high ≡ false
  pub at_least_zero : double_lt low double_zero ≡ false
  pub high_same : high_copy ≡ high
  pub low_same : low_copy ≡ low

pub record IsConfigured (g : Gc) : Type 0 where
  pub region : IsBetween (256 * 1024) (32 * 1024 * 1024) g.config.region_size
  pub pause : IsPauseTarget g.pause_target_ms g.config.pause_target_ms
  pub threshold : IsThreshold g.threshold_bytes g.config.gc_threshold
  pub capacities : IsCapacities g.young_gen_capacity g.survivor_capacity g.old_gen_capacity
  pub watermarks :
      IsWatermarks g.watermark_high g.watermark_low g.config.gc_watermark_high
        g.config.gc_watermark_low

initial-IsConfigured : (m : Memory) → IsConfigured (initial m)
unfolding double_le double_lt
initial-IsConfigured m = record {
  region = record { least = omega arith; most = omega arith };
  pause = record { bounds = record { least = omega arith; most = omega arith }; same = refl };
  threshold = record { positive = omega arith; same = refl };
  capacities = record { young = omega arith; survivor = omega arith; old = omega arith };
  watermarks = record {
    numbers = inr (refl, refl, refl);
    at_most_one = refl;
    at_least_zero = refl;
    high_same = refl;
    low_same = refl;
  };
}

-- What the three tests of `gc_set_watermark` let through.
accepted :
    (high low : ℕ)
    → (double_le high low || double_lt double_one high || double_lt low double_zero) ≡ false
    → (not_a_number high || not_a_number low ≡ true) ⊎ IsApart high low
unfolding double_le double_lt
accepted high low e = elim (Bool-cases (not_a_number high || not_a_number low)) [
  | inl strange ↦ inl strange
  | inr numbers ↦ inr (ground arith, ground arith, ground arith)
]

either :
    (b : Bool) (x y : GcResult × Gc)
    → (b ≡ true → IsConfigured x.1)
    → (b ≡ false → IsConfigured y.1)
    → IsConfigured (if b then x else y).1
either true x y p q = p refl
either false x y p q = q refl

either_gc :
    (b : Bool) (x y : Gc)
    → (b ≡ true → IsConfigured x)
    → (b ≡ false → IsConfigured y)
    → IsConfigured (if b then x else y)
either_gc true x y p q = p refl
either_gc false x y p q = q refl

generation_set :
    (k n : ℕ) (g : Gc)
    → IsConfigured g
    → 0 < n
    → IsConfigured (
        if k == 0
        then record g { young_gen_capacity = n }
        else if k == 1
        then record g { survivor_capacity = n }
        else record g { old_gen_capacity = n })
generation_set k n g ok positive =
    either_gc (k == 0) _ _
      (λ e. record {
        region = ok.region;
        pause = ok.pause;
        threshold = ok.threshold;
        capacities = record {
          young = positive;
          survivor = ok.capacities.survivor;
          old = ok.capacities.old;
        };
        watermarks = ok.watermarks;
      })
      (λ e.
        either_gc (k == 1) _ _
          (λ e'. record {
            region = ok.region;
            pause = ok.pause;
            threshold = ok.threshold;
            capacities = record {
              young = ok.capacities.young;
              survivor = positive;
              old = ok.capacities.old;
            };
            watermarks = ok.watermarks;
          })
          (λ e'. record {
            region = ok.region;
            pause = ok.pause;
            threshold = ok.threshold;
            capacities = record {
              young = ok.capacities.young;
              survivor = ok.capacities.survivor;
              old = positive;
            };
            watermarks = ok.watermarks;
          }))

perform-IsConfigured : (x : GcCall) (g : Gc) → IsConfigured g → IsConfigured (perform x g).1
unfolding perform gc_enable gc_disable gc_set_threshold gc_set_watermark gc_set_region_size
    gc_set_pause_target gc_set_generation_threshold gc_set_mixed_gc_ratio gc_reset_stats
perform-IsConfigured enable g ok =
    either g.initialized _ _
      (λ e. record {
        region = ok.region;
        pause = ok.pause;
        threshold = ok.threshold;
        capacities = ok.capacities;
        watermarks = ok.watermarks;
      })
      (λ e. ok)
perform-IsConfigured disable g ok =
    either g.initialized _ _
      (λ e. record {
        region = ok.region;
        pause = ok.pause;
        threshold = ok.threshold;
        capacities = ok.capacities;
        watermarks = ok.watermarks;
      })
      (λ e. ok)
perform-IsConfigured reset_stats g ok = record {
  region = ok.region;
  pause = ok.pause;
  threshold = ok.threshold;
  capacities = ok.capacities;
  watermarks = ok.watermarks;
}
perform-IsConfigured (set_threshold n) g ok =
    either (n == 0) _ _ (λ e. ok)
      (λ e. record {
        region = ok.region;
        pause = ok.pause;
        threshold = record { positive = ground arith; same = refl };
        capacities = ok.capacities;
        watermarks = ok.watermarks;
      })
perform-IsConfigured (set_region_size n) g ok =
    either (ltb n (256 * 1024) || ltb (32 * 1024 * 1024) n) _ _ (λ e. ok)
      (λ e. record {
        region = record { least = ground arith; most = ground arith };
        pause = ok.pause;
        threshold = ok.threshold;
        capacities = ok.capacities;
        watermarks = ok.watermarks;
      })
perform-IsConfigured (set_pause_target n) g ok =
    either (ltb n 10 || ltb 500 n) _ _ (λ e. ok)
      (λ e. record {
        region = ok.region;
        pause = record {
          bounds = record { least = ground arith; most = ground arith };
          same = refl;
        };
        threshold = ok.threshold;
        capacities = ok.capacities;
        watermarks = ok.watermarks;
      })
perform-IsConfigured (set_mixed_gc_ratio d) g ok =
    either (double_lt d double_zero || double_lt double_one d) _ _ (λ e. ok)
      (λ e. record {
        region = ok.region;
        pause = ok.pause;
        threshold = ok.threshold;
        capacities = ok.capacities;
        watermarks = ok.watermarks;
      })
perform-IsConfigured (set_watermark d e) g ok =
    either (double_le d e || double_lt double_one d || double_lt e double_zero) _ _ (λ r. ok)
      (λ r. record {
        region = ok.region;
        pause = ok.pause;
        threshold = ok.threshold;
        capacities = ok.capacities;
        watermarks = record {
          numbers = accepted d e r;
          at_most_one = ground arith;
          at_least_zero = ground arith;
          high_same = refl;
          low_same = refl;
        };
      })
perform-IsConfigured (set_generation_threshold k n) g ok =
    either (ltb 2 k || n == 0) _ _ (λ e. ok) (λ e. generation_set k n g ok (ground arith))

kept : (ys : List GcCall) (g : Gc) → IsConfigured g → IsConfigured (perform_all ys g)
unfolding perform_all
kept [] g ok = ok
kept (y ∷ ys) g ok = kept ys (perform y g).1 (perform-IsConfigured y g ok)

-- Every sequence of calls that sets, resets or switches leaves the settings of an initialized
-- collector in order: the region size and the pause target stay within their bounds, the
-- threshold and the capacities above 0, the copies in the configuration equal to the values in
-- force, and the watermarks apart and between 0 and 1 unless one of them is a NaN, which
-- `gc_set_watermark` lets through.
pub perform_all-IsConfigured :
    (xs : List GcCall) (m : Memory) → IsConfigured (perform_all xs (initial m))
perform_all-IsConfigured xs m = kept xs (initial m) (initial-IsConfigured m)
