-- ===== src/GcRegion/Manager.antt =====
-- The operations of src/gc/gc_region.c that move a region between the lists of the manager.
use nomalloc.Prelude.{
  ℕ, zero, suc, ◌+◌, ◌/◌, false, not, ◌&&◌, ◌||◌, List, [], ◌∷◌, Option, none, some, ltb, ◌==◌,
  if◌then◌else◌, u64, u32, sub64,
}
use nomalloc.Math.{align_up}
use nomalloc.Bitmap.{bitmap_init}
use nomalloc.Memory.{memset}
use nomalloc.Pages.{memory_alloc_aligned}
use nomalloc.GcRegion.Types.{
  RegionType, empty, survivor, old, code, gc_region_size_default, Region, RegionManager, link,
  list_del, count_up, count_down, put,
}

-- What the C library and the system answer to the requests of one `gc_region_create`: the
-- structure and the two bitmaps (0 is NULL), the page size and `mmap`.
pub record Grant : Type 0 where
  pub structure : ℕ
  pub marking : ℕ
  pub live : ℕ
  pub page_size : ℕ
  pub mmap : ℕ → Option ℕ

unfoldable pub gc_region_create : Grant → ℕ → Option Region
gc_region_create got wanted =
    let size = align_up wanted gc_region_size_default in
    let bits = size / 8 in
    if got.structure == 0
    then none
    else elim (memory_alloc_aligned got.page_size got.mmap size gc_region_size_default) [
      | none ↦ none
      | some mapping ↦
          if mapping.ptr == 0 || got.marking == 0 || got.live == 0
          then none
          else some (record {
            id = 0;
            kind = empty;
            prev_type = empty;
            base_addr = mapping.ptr;
            size = size;
            allocated_bytes = 0;
            live_bytes = 0;
            garbage_bytes = 0;
            marking_bitmap = bitmap_init bits false;
            live_bitmap = bitmap_init bits false;
            bitmap_size = bits;
            age = 0;
            gc_epoch = 0;
            needs_reclaim = false;
            is_compacting_target = false;
            is_relocation_target = false;
          })
    ]

-- How `gc_region_alloc` gets its region: `refused` is its return of NULL, `fault` the fault of
-- `list_del`.
pub data Allotment : Type 0 where
  refused fault : Allotment
  granted : Region → RegionManager → Allotment

-- The end of `gc_region_alloc`, for the region `r` at hand.
unfoldable pub assign : RegionType → Region → RegionManager → Region × RegionManager
assign t r g =
    let r' = record r {
      kind = t;
      prev_type = empty;
      age = 0;
      gc_epoch = 0;
      allocated_bytes = 0;
      live_bytes = 0;
      garbage_bytes = 0;
      needs_reclaim = false;
      is_compacting_target = false;
      is_relocation_target = false;
    } in
    (
      r',
      record g {
        regions = put r.id r' g.regions;
        lists = link t r.id g.lists;
        counts = count_up t g.counts;
        used_size = if code t == 0 then g.used_size else u64 (g.used_size + r.size);
      },
    )

-- `list_first_entry` of the free list, taken off it; `id` is the first and `entry` its region.
unfoldable pub reuse : ℕ → Option Region → RegionManager → Allotment
reuse id none g = fault
reuse id (some r) g = elim (list_del id g.lists) [
  | none ↦ fault
  | some lists ↦ granted r (record g { lists = lists; counts = count_down empty g.counts })
]

unfoldable pub extend : Grant → RegionManager → Allotment
extend got g =
    if not (ltb g.num_regions g.max_regions)
    then refused
    else elim (gc_region_create got gc_region_size_default) [
      | none ↦ refused
      | some fresh ↦
          let r = record fresh { id = g.num_regions } in
          granted r (record g {
            regions = put g.num_regions r g.regions;
            num_regions = g.num_regions + 1;
            total_size = u64 (g.total_size + r.size);
          })
    ]

unfoldable pub obtain : Grant → List ℕ → RegionManager → Allotment
obtain got [] g = extend got g
obtain got (id ∷ ids) g = reuse id (g.regions id) g

unfoldable pub gc_region_alloc : Grant → RegionType → RegionManager → Allotment
gc_region_alloc got t g = elim (obtain got (g.lists empty) g) [
  | refused ↦ refused
  | fault ↦ fault
  | granted r g' ↦ let (r', g'') = assign t r g' in granted r' g''
]

unfoldable pub gc_region_free : Region → RegionManager → Option RegionManager
gc_region_free r g = elim (list_del r.id g.lists) [
  | none ↦ none
  | some lists ↦
      let r' = record r {
        kind = empty;
        prev_type = empty;
        age = 0;
        allocated_bytes = 0;
        live_bytes = 0;
        garbage_bytes = 0;
      } in
      some (record g {
        regions = put r.id r' g.regions;
        lists = link empty r.id lists;
        counts = count_up empty (if code r.kind == 0 then g.counts else count_down r.kind g.counts);
        used_size = sub64 g.used_size r.size;
        memory = memset g.memory r.base_addr 0 r.size;
      })
]

-- A region of type `r.kind` moves to the list of `t`.
unfoldable pub move : RegionType → Region → (RegionType → List ℕ) → RegionManager → RegionManager
move t r lists g = record g {
  regions = put r.id (record r { kind = t }) g.regions;
  lists = link t r.id lists;
  counts = count_up t (count_down r.kind g.counts);
}

unfoldable pub gc_region_promote : Region → RegionManager → Option RegionManager
gc_region_promote r g = elim (list_del r.id g.lists) [
  | none ↦ none
  | some lists ↦ some (
      if code r.kind == 1
      then move survivor r lists g
      else if code r.kind == 2
      then move old r lists g
      else record g { lists = lists })
]

unfoldable pub gc_region_age : Region → RegionManager → Option RegionManager
gc_region_age r g =
    let r' = record r { age = u32 (r.age + 1) } in
    let g' = record g { regions = put r.id r' g.regions } in
    if code r'.kind == 1 && ltb 1 r'.age || code r'.kind == 2 && ltb 15 r'.age
    then gc_region_promote r' g'
    else some g'

-- The loop of `gc_region_get_by_addr` at index `i`, with `left` regions to go.
unfoldable pub by_addr_loop : ℕ → ℕ → ℕ → (ℕ → Option Region) → Option Region
by_addr_loop zero i addr regions = none
by_addr_loop (suc left) i addr regions =
    let rest = by_addr_loop left (i + 1) addr regions in
    elim (regions i) [
      | none ↦ rest
      | some r ↦
          if not (ltb addr r.base_addr) && ltb addr (u64 (r.base_addr + r.size))
          then some r
          else rest
    ]

unfoldable pub gc_region_get_by_addr : ℕ → RegionManager → Option Region
gc_region_get_by_addr addr g = by_addr_loop g.num_regions 0 addr g.regions
