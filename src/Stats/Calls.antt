-- ===== src/Stats/Calls.antt =====
-- Every sequence of calls of src/debug/stats_collector.c.
use nomalloc.Prelude.{
  ℕ, ◌-◌, ◌≤◌, ◌<◌, ◌≡◌, refl, inl, inr, Bool, true, false, List, [], ◌∷◌, ◌++◌, Option, none, some,
  leb, ◌==◌, if◌then◌else◌, length, take, drop, length-take, length-drop, length-append,
  length-replicate, arith, Bool-cases,
}
use nomalloc.Stats.Types.{
  GlobalStats, StatsHistoryEntry, StatsHistory, StatsCollector, stats_per_class_entries,
  stats_per_arena_entries, stats_max_history_entries,
}
use nomalloc.Stats.Histogram.{latency_histogram_init}
use nomalloc.Stats.Ops.{
  global_stats_init, size_class_stats_init, arena_stats_init, new_collector, stats_collector_init,
  stats_collector_shutdown, stats_collector_enable, stats_collector_disable,
  stats_collector_record_alloc, stats_collector_record_dealloc,
}
use nomalloc.Stats.Reads.{
  stats_collector_record_tcache_hit, stats_collector_record_tcache_miss, stats_collector_record_gc,
  stats_collector_update_global, shift_entries, new_history_entry, stats_collector_update_history,
  stats_collector_reset,
}
use nomalloc.Stats.Counters.{
  IsCounted, GlobalCounted, ClassCounted, ArenaCounted, replicate-All, record_alloc-IsCounted,
  record_dealloc-IsCounted,
}

-- A call that the collector is given, with the times that it reads from the clock.
pub data StatsCall : Type 0 where
  enable : ℕ → ℕ → StatsCall
  disable : StatsCall
  shutdown : StatsCall
  record_alloc : ℕ → ℕ → ℕ → ℕ → StatsCall
  record_dealloc : ℕ → ℕ → ℕ → ℕ → StatsCall
  tcache_hit : StatsCall
  tcache_miss : StatsCall
  record_gc : ℕ → StatsCall
  update_global : ℕ → StatsCall
  update_history : ℕ → ℕ → StatsCall
  reset : ℕ → ℕ → StatsCall

unfoldable pub perform : StatsCall → StatsCollector → Option StatsCollector
perform (enable start update) s = some (stats_collector_enable start update s)
perform disable s = some (stats_collector_disable s).0
perform shutdown s = some (stats_collector_shutdown s)
perform (record_alloc size class_idx arena_id latency_ns) s =
    some (stats_collector_record_alloc size class_idx arena_id latency_ns s)
perform (record_dealloc size class_idx arena_id latency_ns) s =
    some (stats_collector_record_dealloc size class_idx arena_id latency_ns s)
perform tcache_hit s = some (stats_collector_record_tcache_hit s)
perform tcache_miss s = some (stats_collector_record_tcache_miss s)
perform (record_gc time_ns) s = some (stats_collector_record_gc time_ns s)
perform (update_global now) s = some (stats_collector_update_global now s)
perform (update_history timestamp now) s = stats_collector_update_history timestamp now s
perform (reset start update) s = some (stats_collector_reset start update s)

unfoldable pub perform_all : List StatsCall → StatsCollector → Option StatsCollector
unfolding perform
perform_all [] s = some s
perform_all (c ∷ cs) s = elim (perform c s) [ none ↦ none | some s' ↦ perform_all cs s' ]

-- What `stats_collector_init` and `stats_collector_reset` put into the tables.
fresh-IsCounted :
    (start update : ℕ) (s : StatsCollector)
    → s.history.capacity ≡ stats_max_history_entries
    → IsCounted (stats_collector_reset start update s)
unfolding stats_collector_reset global_stats_init size_class_stats_init arena_stats_init
    latency_histogram_init
fresh-IsCounted start update s full = record {
  global = (refl, refl);
  classes = replicate-All ClassCounted stats_per_class_entries size_class_stats_init (refl, refl);
  arenas = replicate-All ArenaCounted stats_per_arena_entries arena_stats_init refl;
  number_classes = length-replicate stats_per_class_entries size_class_stats_init;
  number_arenas = length-replicate stats_per_arena_entries arena_stats_init;
  capacity = full;
  room = omega arith;
}

-- Both branches of a test.
if-IsCounted :
    (b : Bool) (t u : StatsCollector) → IsCounted t → IsCounted u → IsCounted (if b then t else u)
if-IsCounted true t u kept other = kept
if-IsCounted false t u kept other = other

-- The same counters behind other flags.
module _ (s : StatsCollector) (c : IsCounted s) where
  flags-IsCounted : (on ready : Bool) → IsCounted (record s { enabled = on; initialized = ready })
  flags-IsCounted on ready = record {
    global = c.global;
    classes = c.classes;
    arenas = c.arenas;
    number_classes = c.number_classes;
    number_arenas = c.number_arenas;
    capacity = c.capacity;
    room = c.room;
  }

  global-IsCounted : (g : GlobalStats) → GlobalCounted g → IsCounted (record s { global = g })
  global-IsCounted g h = record {
    global = h;
    classes = c.classes;
    arenas = c.arenas;
    number_classes = c.number_classes;
    number_arenas = c.number_arenas;
    capacity = c.capacity;
    room = c.room;
  }

  if_enabled-IsCounted :
      (g : GlobalStats)
      → GlobalCounted g
      → IsCounted (if s.enabled then record s { global = g } else s)
  if_enabled-IsCounted g h = if-IsCounted s.enabled _ s (global-IsCounted g h) c

  shutdown-IsCounted : IsCounted (stats_collector_shutdown s)
  unfolding stats_collector_shutdown
  shutdown-IsCounted = if-IsCounted s.initialized _ s (flags-IsCounted false false) c

  disable-IsCounted : IsCounted (stats_collector_disable s).0
  unfolding stats_collector_disable
  disable-IsCounted = elim (Bool-cases s.initialized) [
    | inl ready ↦ simp (stats_collector_disable, ready) (flags-IsCounted false true)
    | inr out ↦ simp (stats_collector_disable, out) c
  ]

new_collector-IsCounted : (start update : ℕ) → IsCounted (new_collector start update)
unfolding new_collector global_stats_init size_class_stats_init arena_stats_init
    latency_histogram_init
new_collector-IsCounted start update = record {
  global = (refl, refl);
  classes = replicate-All ClassCounted stats_per_class_entries size_class_stats_init (refl, refl);
  arenas = replicate-All ArenaCounted stats_per_arena_entries arena_stats_init refl;
  number_classes = length-replicate stats_per_class_entries size_class_stats_init;
  number_arenas = length-replicate stats_per_arena_entries arena_stats_init;
  capacity = refl;
  room = omega arith;
}

shift_entries_room :
    (h : StatsHistory)
    → h.capacity ≡ stats_max_history_entries
    → length h.entries ≤ stats_max_history_entries
    → (entries : List StatsHistoryEntry) × (shift_entries h ≡ some entries)
      × (length entries < stats_max_history_entries)
unfolding shift_entries
shift_entries_room h full room = elim (Bool-cases (leb h.capacity (length h.entries))) [
  | inl at_end ↦
      let filled : (h.capacity == 0) ≡ false = ground arith in
      (
        take (h.capacity - 1) (drop 1 h.entries),
        rw (shift_entries, at_end, filled) refl,
        omega (arith, length-take (h.capacity - 1) (drop 1 h.entries), length-drop 1 h.entries),
      )
  | inr before ↦ (h.entries, rw (shift_entries, before) refl, ground arith)
]

history-IsCounted :
    (timestamp now : ℕ) (s : StatsCollector)
    → IsCounted s
    → (s' : StatsCollector) × (stats_collector_update_history timestamp now s ≡ some s')
      × IsCounted s'
unfolding stats_collector_update_history stats_collector_update_global
history-IsCounted timestamp now s c =
    let (entries, shifted, room) = shift_entries_room s.history c.capacity c.room in
    let entry = new_history_entry timestamp s in
    (
      stats_collector_update_global now
          (record s { history = record (s.history) { entries = entries ++ (entry ∷ []) } }),
      rw (stats_collector_update_history, shifted) refl,
      record {
        global = c.global;
        classes = c.classes;
        arenas = c.arenas;
        number_classes = c.number_classes;
        number_arenas = c.number_arenas;
        capacity = c.capacity;
        room = omega (arith, length-append entries (entry ∷ []));
      },
    )

enable-IsCounted :
    (start update : ℕ) (s : StatsCollector)
    → IsCounted s
    → IsCounted (stats_collector_enable start update s)
unfolding stats_collector_enable stats_collector_init
enable-IsCounted start update s c =
    if-IsCounted s.initialized _ _ (flags-IsCounted s c true s.initialized)
      (if-IsCounted s.initialized s _ c (new_collector-IsCounted start update))

perform-IsCounted :
    (call : StatsCall) (s : StatsCollector)
    → IsCounted s
    → (s' : StatsCollector) × (perform call s ≡ some s') × IsCounted s'
unfolding perform stats_collector_record_tcache_hit stats_collector_record_tcache_miss
    stats_collector_record_gc stats_collector_update_global
perform-IsCounted (enable start update) s c = (_, refl, enable-IsCounted start update s c)
perform-IsCounted disable s c = (_, refl, disable-IsCounted s c)
perform-IsCounted shutdown s c = (_, refl, shutdown-IsCounted s c)
perform-IsCounted (record_alloc size class_idx arena_id latency_ns) s c =
    (_, refl, record_alloc-IsCounted size class_idx arena_id latency_ns s c)
perform-IsCounted (record_dealloc size class_idx arena_id latency_ns) s c =
    (_, refl, record_dealloc-IsCounted size class_idx arena_id latency_ns s c)
perform-IsCounted tcache_hit s c = (_, refl, if_enabled-IsCounted s c _ c.global)
perform-IsCounted tcache_miss s c = (_, refl, if_enabled-IsCounted s c _ c.global)
perform-IsCounted (record_gc time_ns) s c = (_, refl, if_enabled-IsCounted s c _ c.global)
perform-IsCounted (update_global now) s c = (_, refl, global-IsCounted s c _ c.global)
perform-IsCounted (update_history timestamp now) s c = history-IsCounted timestamp now s c
perform-IsCounted (reset start update) s c = (_, refl, fresh-IsCounted start update s c.capacity)

all-IsCounted :
    (calls : List StatsCall) (s : StatsCollector)
    → IsCounted s
    → (s' : StatsCollector) × (perform_all calls s ≡ some s') × IsCounted s'
unfolding perform_all
all-IsCounted [] s c = (s, refl, c)
all-IsCounted (call ∷ calls) s c =
    let (t, made, d) = perform-IsCounted call s c in
    let (u, rest, e) = all-IsCounted calls t d in (u, rw (perform_all, made) rest, e)

-- Every sequence of calls after the initialisation of the statistics returns, and leaves all counters
-- of calls (of the whole, of each size class, and of the allocations of each arena) equal to the
-- number of samples in the histogram beside them, the tables at their lengths, and the history
-- within its array of 10000 entries.
pub perform_all-IsCounted :
    (start update : ℕ) (calls : List StatsCall) (s : StatsCollector)
    → s.initialized ≡ false
    → (s' : StatsCollector) × (perform_all calls (stats_collector_init start update s) ≡ some s')
      × IsCounted s'
unfolding stats_collector_init
perform_all-IsCounted start update calls s fresh =
    all-IsCounted calls (stats_collector_init start update s)
      (rw (stats_collector_init, fresh) (new_collector-IsCounted start update))
