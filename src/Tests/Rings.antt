-- ===== src/Tests/Rings.antt =====
-- A ring of three nodes.
use nomalloc.Prelude.{◌+◌, ◌-◌, ◌≡◌, refl, [], ◌∷◌, ◌==◌, if◌then◌else◌, arith}
use nomalloc.Links.{Links, list_del}
use nomalloc.Links.Ring.{IsRing}
use nomalloc.Links.Unlink.{list_del-IsRing}

-- The head 10 and the nodes 20, 30 and 40.
abbrev three : Links
three = record {
  next = λ k. if k == 40 then 10 else k + 10;
  prev = λ k. if k == 10 then 40 else k - 10;
}

three-IsRing : IsRing three 10 (20 ∷ 30 ∷ 40 ∷ [])
three-IsRing = record {
  chain = (refl, refl, (refl, refl, (refl, refl, (refl, refl))));
  distinct = ((omega arith, (omega arith, tt)), ((omega arith, tt), (tt, tt)));
  apart = (omega arith, (omega arith, (omega arith, tt)));
}

list_del-IsRing_example :
    IsRing (list_del 30 three) 10 (20 ∷ 40 ∷ [])
    × ((list_del 30 three).next 30 ≡ 0)
    × ((list_del 30 three).prev 30 ≡ 0)
list_del-IsRing_example = list_del-IsRing three 10 (20 ∷ []) 30 (40 ∷ []) three-IsRing
