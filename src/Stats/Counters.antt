-- ===== src/Stats/Counters.antt =====
-- The counters of src/debug/stats_collector.c and the histograms beside them count the same calls.
use nomalloc.Prelude.{
  ℕ, zero, suc, ◌≤◌, ◌≡◌, refl, ◌∙◌, ap, inl, inr, Bool, true, false, List, [], ◌∷◌, if◌then◌else◌,
  length, replicate, arith, Bool-cases,
}
use nomalloc.Stats.Types.{
  SizeClassStats, ArenaStats, GlobalStats, StatsCollector, stats_per_class_entries,
  stats_per_arena_entries, stats_max_history_entries,
}
use nomalloc.Stats.Histogram.{latency_histogram_add}
use nomalloc.Stats.Ops.{
  update_at, class_alloc, arena_alloc, global_alloc, stats_collector_record_alloc, class_dealloc,
  arena_dealloc, global_dealloc, stats_collector_record_dealloc,
}

abbrev pub All {ℓ κ} : {A : Type ℓ} → (A → Type κ) → List A → Type κ
All P [] = Unit
All P (x ∷ xs) = P x × All P xs

update_at-All {ℓ κ} :
    {A : Type ℓ} (P : A → Type κ) (f : A → A)
    → ((x : A) → P x → P (f x))
    → (xs : List A) (i : ℕ) → All P xs
    → All P (update_at f xs i)
unfolding update_at
update_at-All P f keep [] i h = h
update_at-All P f keep (x ∷ xs) zero h = (keep x h.0, h.1)
update_at-All P f keep (x ∷ xs) (suc i) h = (h.0, update_at-All P f keep xs i h.1)

length-update_at {ℓ} :
    {A : Type ℓ} (f : A → A) (xs : List A) (i : ℕ) → length (update_at f xs i) ≡ length xs
unfolding update_at
length-update_at f [] i = refl
length-update_at f (x ∷ xs) zero = refl
length-update_at f (x ∷ xs) (suc i) = ap suc (length-update_at f xs i)

pub replicate-All {ℓ κ} :
    {A : Type ℓ} (P : A → Type κ) (n : ℕ) (x : A) → P x → All P (replicate n x)
replicate-All P zero x h = tt
replicate-All P (suc n) x h = (h, replicate-All P n x h)

abbrev pub ClassCounted : SizeClassStats → Type 0
ClassCounted c =
    (c.allocations ≡ c.alloc_latency.total_samples)
    × (c.deallocations ≡ c.free_latency.total_samples)

abbrev pub ArenaCounted : ArenaStats → Type 0
ArenaCounted a = a.allocations ≡ a.alloc_latency.total_samples

abbrev pub GlobalCounted : GlobalStats → Type 0
GlobalCounted g =
    (g.total_allocations ≡ g.global_alloc_latency.total_samples)
    × (g.total_deallocations ≡ g.global_free_latency.total_samples)

-- Every counter of calls is the number of samples beside it, the tables keep their lengths, and the
-- history stays within its array.
pub record IsCounted (s : StatsCollector) : Type 0 where
  pub global : GlobalCounted s.global
  pub classes : All ClassCounted s.size_classes
  pub arenas : All ArenaCounted s.arenas
  pub number_classes : length s.size_classes ≡ stats_per_class_entries
  pub number_arenas : length s.arenas ≡ stats_per_arena_entries
  pub capacity : s.history.capacity ≡ stats_max_history_entries
  pub room : length s.history.entries ≤ stats_max_history_entries

module _ (size latency_ns : ℕ) where
  class_alloc-Counted :
      (c : SizeClassStats) → ClassCounted c → ClassCounted (class_alloc size latency_ns c)
  unfolding class_alloc latency_histogram_add
  class_alloc-Counted c h = omega arith

  class_dealloc-Counted :
      (c : SizeClassStats) → ClassCounted c → ClassCounted (class_dealloc size latency_ns c)
  unfolding class_dealloc latency_histogram_add
  class_dealloc-Counted c h = omega arith

  arena_alloc-Counted :
      (a : ArenaStats) → ArenaCounted a → ArenaCounted (arena_alloc size latency_ns a)
  unfolding arena_alloc latency_histogram_add
  arena_alloc-Counted a h = omega arith

  arena_dealloc-Counted : (a : ArenaStats) → ArenaCounted a → ArenaCounted (arena_dealloc size a)
  unfolding arena_dealloc
  arena_dealloc-Counted a h = h

  global_alloc-Counted :
      (g : GlobalStats) → GlobalCounted g → GlobalCounted (global_alloc size latency_ns g)
  unfolding global_alloc latency_histogram_add
  global_alloc-Counted g h = omega arith

  global_dealloc-Counted :
      (g : GlobalStats) → GlobalCounted g → GlobalCounted (global_dealloc size latency_ns g)
  unfolding global_dealloc latency_histogram_add
  global_dealloc-Counted g h = omega arith

-- What a call does to one of the tables, behind the test of the index.
module _ {ℓ} {A : Type ℓ} (P : A → Type 0) (f : A → A) (keep : (x : A) → P x → P (f x)) where
  table-All :
      (inside : Bool) (xs : List A) (i : ℕ)
      → All P xs
      → All P (if inside then update_at f xs i else xs)
  table-All true xs i h = update_at-All P f keep xs i h
  table-All false xs i h = h

length-table {ℓ} :
    {A : Type ℓ} (f : A → A) (inside : Bool) (xs : List A) (i : ℕ)
    → length (if inside then update_at f xs i else xs) ≡ length xs
length-table f true xs i = length-update_at f xs i
length-table f false xs i = refl

pub record_alloc-IsCounted :
    (size class_idx arena_id latency_ns : ℕ) (s : StatsCollector)
    → IsCounted s
    → IsCounted (stats_collector_record_alloc size class_idx arena_id latency_ns s)
unfolding stats_collector_record_alloc
record_alloc-IsCounted size class_idx arena_id latency_ns s c = elim (Bool-cases s.enabled) [
  | inl on ↦
      simp (stats_collector_record_alloc, on)
        (record {
          global = global_alloc-Counted size latency_ns s.global c.global;
          classes =
              table-All ClassCounted _ (class_alloc-Counted size latency_ns) _ s.size_classes
                class_idx c.classes;
          arenas =
              table-All ArenaCounted _ (arena_alloc-Counted size latency_ns) _ s.arenas arena_id
                c.arenas;
          number_classes = length-table _ _ s.size_classes class_idx ∙ c.number_classes;
          number_arenas = length-table _ _ s.arenas arena_id ∙ c.number_arenas;
          capacity = c.capacity;
          room = c.room;
        })
  | inr off ↦ simp (stats_collector_record_alloc, off) c
]

pub record_dealloc-IsCounted :
    (size class_idx arena_id latency_ns : ℕ) (s : StatsCollector)
    → IsCounted s
    → IsCounted (stats_collector_record_dealloc size class_idx arena_id latency_ns s)
unfolding stats_collector_record_dealloc
record_dealloc-IsCounted size class_idx arena_id latency_ns s c = elim (Bool-cases s.enabled) [
  | inl on ↦
      simp (stats_collector_record_dealloc, on)
        (record {
          global = global_dealloc-Counted size latency_ns s.global c.global;
          classes =
              table-All ClassCounted _ (class_dealloc-Counted size latency_ns) _ s.size_classes
                class_idx c.classes;
          arenas =
              table-All ArenaCounted _ (arena_dealloc-Counted size latency_ns) _ s.arenas arena_id
                c.arenas;
          number_classes = length-table _ _ s.size_classes class_idx ∙ c.number_classes;
          number_arenas = length-table _ _ s.arenas arena_id ∙ c.number_arenas;
          capacity = c.capacity;
          room = c.room;
        })
  | inr off ↦ simp (stats_collector_record_dealloc, off) c
]
