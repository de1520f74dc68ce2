-- ===== src/GcRegion/Release.antt =====
-- `gc_region_free` of src/gc/gc_region.c, and `gc_region_promote` of a region that is neither young
-- nor a survivor.
use nomalloc.Prelude.{
  ℕ, ◌+◌, ◌≡◌, ◌≢◌, refl, ap, false, ◌&&◌, List, [], ◌∷◌, ◌++◌, none, some, leb, ltb, ◌==◌,
  if◌then◌else◌, sub64, arith, length-append,
}
use nomalloc.Memory.{Memory, memset}
use nomalloc.GcRegion.Types.{
  RegionType, empty, young, survivor, old, humongous, pinned, code, Region, RegionManager, link,
  remove, linked, list_del, count_up, count_down, put,
}
use nomalloc.GcRegion.Manager.{gc_region_promote, gc_region_free}
use nomalloc.GcRegion.Ledger.{
  IsLedger, Registered, occ, member, occ-append, occ-remove, occ_here, del_here, length-remove,
  remove_absent,
}

linked_absent : (id : ℕ) (xs : List ℕ) → occ id xs ≡ 0 → linked id xs ≡ false
unfolding occ linked
linked_absent id [] h = refl
linked_absent id (x ∷ xs) h = ground (arith, linked_absent id xs)

memset_at :
    (m : Memory) (a n x : ℕ) → memset m a 0 n x ≡ (if leb a x && ltb x (a + n) then 0 else m x)
unfolding memset
memset_at m a n x = refl

module _ (r : Region) (g : RegionManager) (ok : IsLedger g) (here : Registered r g) where
  released-IsLedger :
      (g' : RegionManager) (r' : Region)
      → r'.kind ≡ empty
      → code r.kind ≢ 0
      → g'.regions ≡ put r.id r' g.regions
      → g'.lists ≡ link empty r.id (λ u. remove r.id (g.lists u))
      → g'.counts ≡ count_up empty (count_down r.kind g.counts)
      → IsLedger g'
  unfolding link put member count_up count_down occ
  released-IsLedger g' r' kinds used a b c = record {
    members = λ i u.
        rw (a, b)
          (ground (
            arith,
            kinds,
            occ-remove i r.id (g.lists u),
            occ-append i (remove r.id (g.lists u)) (r.id ∷ []),
            ok.members i u,
            occ_here r g ok here u,
          ));
    tallies = λ u.
        rw (b, c)
          (ground (
            arith,
            ok.tallies u,
            occ_here r g ok here u,
            length-append (remove r.id (g.lists u)) (r.id ∷ []),
            length-remove r.id (g.lists u),
            remove_absent r.id (g.lists u),
          ));
  }

  free_list :
      code r.kind ≢ 0
      → link empty r.id (λ u. remove r.id (g.lists u)) empty ≡ g.lists empty ++ (r.id ∷ [])
  unfolding link
  free_list used =
      ap (λ xs. xs ++ (r.id ∷ []))
        (remove_absent r.id (g.lists empty) (ground (arith, used, occ_here r g ok here empty)))

  absent : (t : RegionType) → occ r.id (remove r.id (g.lists t)) ≡ 0
  absent t = ground (arith, occ-remove r.id r.id (g.lists t), occ_here r g ok here t)

  del_absent : list_del r.id (λ u. remove r.id (g.lists u)) ≡ none
  unfolding list_del
  del_absent = ground (
    arith,
    linked_absent r.id (remove r.id (g.lists empty)) (absent empty),
    linked_absent r.id (remove r.id (g.lists young)) (absent young),
    linked_absent r.id (remove r.id (g.lists survivor)) (absent survivor),
    linked_absent r.id (remove r.id (g.lists old)) (absent old),
    linked_absent r.id (remove r.id (g.lists humongous)) (absent humongous),
    linked_absent r.id (remove r.id (g.lists pinned)) (absent pinned),
  )

-- Freeing a region in use never faults: its memory is all zero afterwards and all other memory as
-- before, the region is the last of the free list, and the lists and counters stay in order.
pub gc_region_free-IsLedger :
    (r : Region) (g : RegionManager)
    → IsLedger g
    → Registered r g
    → code r.kind ≢ 0
    → (g' : RegionManager) × (gc_region_free r g ≡ some g')
      × IsLedger g'
      × (g'.lists empty ≡ g.lists empty ++ (r.id ∷ []))
      × ((x : ℕ)
          → g'.memory x
            ≡ (if leb r.base_addr x && ltb x (r.base_addr + r.size) then 0 else g.memory x))
unfolding gc_region_free
gc_region_free-IsLedger r g ok here used =
    let r' = record r {
      kind = empty;
      prev_type = empty;
      age = 0;
      allocated_bytes = 0;
      live_bytes = 0;
      garbage_bytes = 0;
    } in
    let lists : RegionType → List ℕ = λ u. remove r.id (g.lists u) in
    let g' = record g {
      regions = put r.id r' g.regions;
      lists = link empty r.id lists;
      counts = count_up empty (if code r.kind == 0 then g.counts else count_down r.kind g.counts);
      used_size = sub64 g.used_size r.size;
      memory = memset g.memory r.base_addr 0 r.size;
    } in
    (
      g',
      rw (gc_region_free, del_here r g ok here) refl,
      released-IsLedger r g ok here g' r' refl used refl refl (ground (arith, used)),
      free_list r g ok here used,
      λ x. memset_at g.memory r.base_addr r.size x,
    )

-- Promoting a region that is neither young nor a survivor takes it out of its list for good: the
-- next promotion of it faults, and so does freeing it.
pub gc_region_promote_unlinks :
    (r : Region) (g : RegionManager)
    → IsLedger g
    → Registered r g
    → code r.kind ≢ 1
    → code r.kind ≢ 2
    → (g' : RegionManager) × (gc_region_promote r g ≡ some g')
      × (gc_region_promote r g' ≡ none)
      × (gc_region_free r g' ≡ none)
unfolding gc_region_promote gc_region_free
gc_region_promote_unlinks r g ok here a b = (
  record g { lists = λ u. remove r.id (g.lists u) },
  ground (arith, a, b, del_here r g ok here),
  rw (gc_region_promote, del_absent r g ok here) refl,
  rw (gc_region_free, del_absent r g ok here) refl,
)
