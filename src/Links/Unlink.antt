-- ===== src/Links/Unlink.antt =====
-- Taking a node out of a ring of src/utils/list.h, and walking along it.
use nomalloc.Prelude.{
  ℕ, zero, suc, ◌+◌, ◌<◌, ◌≡◌, ◌≢◌, refl, sym, ap, ◌∙◌, true, false, some, List, [], ◌∷◌, ◌++◌,
  ◌==◌, if◌then◌else◌, arith, length,
}
use nomalloc.Links.{
  Links, write_at, set_prev, set_next, list_del, list_move_tail, list_empty, length_loop,
  list_length,
}
use nomalloc.Links.Ring.{Fresh, Distinct, Chain, IsRing, frame, Same-Fresh, list_add_tail-IsRing}

module _ (s : Links) (e : ℕ) where
  del_next :
      (k : ℕ)
      → (list_del e s).next k ≡ (if k == e then 0 else if k == s.prev e then s.next e else s.next k)
  unfolding list_del set_prev set_next write_at
  del_next k = refl

  del_prev :
      (k : ℕ)
      → (list_del e s).prev k ≡ (if k == e then 0 else if k == s.next e then s.prev e else s.prev k)
  unfolding list_del set_prev set_next write_at
  del_prev k = ground arith

-- The nodes around a node of a chain.
before_in :
    (s : Links) (k a : ℕ) (ys : List ℕ) (e : ℕ) (zs : List ℕ) (b : ℕ)
    → Chain s a (ys ++ (e ∷ zs)) b
    → k ≢ a
    → Fresh k (ys ++ (e ∷ zs))
    → k ≢ s.prev e
before_in s k a [] e zs b c other fresh = ground (arith, c.1)
before_in s k a (y ∷ ys) e zs b c other fresh = before_in s k y ys e zs b c.2 fresh.0 fresh.1

behind_in :
    (s : Links) (k a : ℕ) (ys : List ℕ) (e : ℕ) (zs : List ℕ) (b : ℕ)
    → Chain s a (ys ++ (e ∷ zs)) b
    → k ≢ b
    → Fresh k (ys ++ (e ∷ zs))
    → k ≢ s.next e
behind_in s k a [] e [] b c other fresh = ground (arith, c.2.0)
behind_in s k a [] e (z ∷ zs) b c other fresh = ground (arith, c.2.0, fresh.1.0)
behind_in s k a (y ∷ ys) e zs b c other fresh = behind_in s k y ys e zs b c.2 other fresh.1

Fresh-mid :
    (k : ℕ) (ys : List ℕ) (e : ℕ) (zs : List ℕ)
    → Fresh k (ys ++ (e ∷ zs))
    → (k ≢ e) × Fresh k (ys ++ zs)
Fresh-mid k [] e zs f = f
Fresh-mid k (y ∷ ys) e zs f = let r = Fresh-mid k ys e zs f.1 in (r.0, (f.0, r.1))

Distinct-mid :
    (ys : List ℕ) (e : ℕ) (zs : List ℕ)
    → Distinct (ys ++ (e ∷ zs))
    → Distinct (ys ++ zs) × Fresh e (ys ++ zs)
Distinct-mid [] e zs d = (d.1, d.0)
Distinct-mid (y ∷ ys) e zs d =
    let f = Fresh-mid y ys e zs d.0 in
    let r = Distinct-mid ys e zs d.1 in ((f.1, r.0), (λ p. f.0 (sym p), r.1))

del-Chain :
    (s : Links) (a : ℕ) (ys : List ℕ) (e : ℕ) (zs : List ℕ) (b : ℕ)
    → Chain s a (ys ++ (e ∷ zs)) b
    → Distinct (ys ++ (e ∷ zs))
    → Fresh a (ys ++ (e ∷ zs))
    → Fresh b (ys ++ (e ∷ zs))
    → Chain (list_del e s) a (ys ++ zs) b
del-Chain s a [] e [] b c dist fa fb = (
  ground (arith, del_next s e a, c.1, c.2.0, fa.0),
  ground (arith, del_prev s e b, c.1, c.2.0, fb.0),
)
del-Chain s a [] e (z ∷ zs) b c dist fa fb =
    let s' = list_del e s in
    let kept : (y : ℕ) → a ≢ y → e ≢ y → z ≢ y → (s'.next y ≡ s.next y) × (s'.prev y ≡ s.prev y) =
      λ y p q r.
        (ground (arith, p, q, c.1, del_next s e y), ground (arith, q, r, c.2.0, del_prev s e y)) in
    (
      ground (arith, del_next s e a, c.1, c.2.0, fa.0),
      ground (arith, del_prev s e z, c.1, c.2.0, dist.0.0),
      frame s s' z zs b c.2.2 (ground (arith, del_next s e z, c.1, dist.0.0, fa.1.0))
          (ground (arith, del_prev s e b, c.2.0, fb.0, fb.1.0))
          (Same-Fresh s s' a e z kept zs fa.1.1 dist.0.1 dist.1.0),
    )
del-Chain s a (y ∷ ys) e zs b c dist fa fb = (
  ground (
    arith,
    del_next s e a,
    c.0,
    (Fresh-mid a ys e zs fa.1).0,
    before_in s a y ys e zs b c.2 fa.0 fa.1,
  ),
  ground (
    arith,
    del_prev s e y,
    c.1,
    (Fresh-mid y ys e zs dist.0).0,
    behind_in s y y ys e zs b c.2 (λ p. fb.0 (sym p)) dist.0,
  ),
  del-Chain s y ys e zs b c.2 dist.1 dist.0 fb.1,
)

-- `list_del` of a node of the ring takes out that node alone, and leaves it with NULL pointers.
pub list_del-IsRing :
    (s : Links) (head : ℕ) (ys : List ℕ) (e : ℕ) (zs : List ℕ)
    → IsRing s head (ys ++ (e ∷ zs))
    → IsRing (list_del e s) head (ys ++ zs)
      × ((list_del e s).next e ≡ 0)
      × ((list_del e s).prev e ≡ 0)
list_del-IsRing s head ys e zs ring = (
  record {
    chain = del-Chain s head ys e zs head ring.chain ring.distinct ring.apart ring.apart;
    distinct = (Distinct-mid ys e zs ring.distinct).0;
    apart = (Fresh-mid head ys e zs ring.apart).1;
  },
  ground (arith, del_next s e e),
  ground (arith, del_prev s e e),
)

-- `list_move_tail` of a node of the ring to the ring's own head puts it behind all the others.
pub list_move_tail-IsRing :
    (s : Links) (head : ℕ) (ys : List ℕ) (e : ℕ) (zs : List ℕ)
    → IsRing s head (ys ++ (e ∷ zs))
    → IsRing (list_move_tail e head s) head ((ys ++ zs) ++ (e ∷ []))
unfolding list_move_tail
list_move_tail-IsRing s head ys e zs ring =
    list_add_tail-IsRing (list_del e s) e head (ys ++ zs) (list_del-IsRing s head ys e zs ring).0
      (λ p. (Fresh-mid head ys e zs ring.apart).0 (sym p)) (Distinct-mid ys e zs ring.distinct).1

length_step :
    (s : Links) (head x : ℕ) (xs : List ℕ) (fuel count pos : ℕ)
    → pos ≡ x
    → length_loop fuel (s.next x) head (count + 1) s ≡ some (count + 1 + length xs)
    → length_loop fuel (s.next pos) head (count + 1) s ≡ some (count + length (x ∷ xs))
length_step s head x xs fuel count pos at rest = rw at (rest ∙ ap some (omega arith))

length-Chain :
    (s : Links) (head a : ℕ) (xs : List ℕ) (fuel count : ℕ)
    → Chain s a xs head
    → Fresh head xs
    → length xs < fuel
    → length_loop fuel (s.next a) head count s ≡ some (count + length xs)
unfolding length_loop
length-Chain s head a xs zero count c apart enough = absurd (omega arith)
length-Chain s head a [] (suc fuel) count c apart enough =
    let test : (s.next a == head) ≡ true = ground (arith, c.0) in
    rw (length_loop, test) (ap some (omega arith))
length-Chain s head a (x ∷ xs) (suc fuel) count c apart enough =
    let test : (s.next a == head) ≡ false = ground (arith, c.0, apart.0) in
    rw (length_loop, test)
      (length_step s head x xs fuel count (s.next a) c.0
        (length-Chain s head x xs fuel (count + 1) c.2 apart.1 (omega arith)))

empty-Chain :
    (s : Links) (head : ℕ) (xs : List ℕ)
    → Chain s head xs head
    → Fresh head xs
    → list_empty head s ≡ (length xs == 0)
unfolding list_empty
empty-Chain s head [] c apart = ground (arith, c)
empty-Chain s head (x ∷ xs) c apart = ground (arith, c.0, apart.0)

-- `list_length` of a ring ends, in one step more than the ring has nodes, with their number, and
-- `list_empty` tells whether there are none.
pub list_length-IsRing :
    (s : Links) (head : ℕ) (xs : List ℕ) (fuel : ℕ)
    → IsRing s head xs
    → length xs < fuel
    → (list_length fuel head s ≡ some (length xs)) × (list_empty head s ≡ (length xs == 0))
unfolding list_length
list_length-IsRing s head xs fuel ring enough = (
  length-Chain s head head xs fuel 0 ring.chain ring.apart enough ∙ ap some (omega arith),
  empty-Chain s head xs ring.chain ring.apart,
)
