-- ===== src/Links/Ring.antt =====
-- The rings of src/utils/list.h as lists of nodes.
use nomalloc.Prelude.{ℕ, ◌≡◌, ◌≢◌, refl, sym, ◌∙◌, List, [], ◌∷◌, ◌++◌, ◌==◌, if◌then◌else◌, arith}
use nomalloc.Links.{Links, write_at, set_prev, set_next, list_add, list_add_tail}

-- `k` is none of the nodes.
abbrev pub Fresh : ℕ → List ℕ → Type 0
Fresh k [] = Unit {0}
Fresh k (x ∷ xs) = (k ≢ x) × Fresh k xs

abbrev pub Distinct : List ℕ → Type 0
Distinct [] = Unit {0}
Distinct (x ∷ xs) = Fresh x xs × Distinct xs

-- From `a` the pointers lead through the nodes to `b`, and from `b` back.
abbrev pub Chain : Links → ℕ → List ℕ → ℕ → Type 0
Chain s a [] b = (s.next a ≡ b) × (s.prev b ≡ a)
Chain s a (x ∷ xs) b = (s.next a ≡ x) × (s.prev x ≡ a) × Chain s x xs b

-- The list of the nodes that a head holds.
pub record IsRing (s : Links) (head : ℕ) (xs : List ℕ) : Type 0 where
  pub chain : Chain s head xs head
  pub distinct : Distinct xs
  pub apart : Fresh head xs

-- Both states have the same pointers at the nodes.
abbrev pub Same : Links → Links → List ℕ → Type 0
Same s s' [] = Unit {0}
Same s s' (x ∷ xs) = (s'.next x ≡ s.next x) × (s'.prev x ≡ s.prev x) × Same s s' xs

pub frame :
    (s s' : Links) (a : ℕ) (xs : List ℕ) (b : ℕ)
    → Chain s a xs b
    → s'.next a ≡ s.next a
    → s'.prev b ≡ s.prev b
    → Same s s' xs
    → Chain s' a xs b
frame s s' a [] b c n p same = (n ∙ c.0, p ∙ c.1)
frame s s' a (x ∷ xs) b c n p same = (n ∙ c.0, same.1 ∙ c.1, frame s s' x xs b c.2 same.0 p same.2)

-- Writes at other nodes.
pub Same-Fresh :
    (s s' : Links) (i j k : ℕ)
    → ((y : ℕ) → i ≢ y → j ≢ y → k ≢ y → (s'.next y ≡ s.next y) × (s'.prev y ≡ s.prev y))
    → (xs : List ℕ) → Fresh i xs
    → Fresh j xs
    → Fresh k xs
    → Same s s' xs
Same-Fresh s s' i j k other [] fi fj fk = tt
Same-Fresh s s' i j k other (x ∷ xs) fi fj fk =
    let at = other x fi.0 fj.0 fk.0 in (at.0, at.1, Same-Fresh s s' i j k other xs fi.1 fj.1 fk.1)

module _ (s : Links) (node head : ℕ) where
  added_next :
      (k : ℕ)
      → (list_add node head s).next k
        ≡ (if k == head then node else if k == node then s.next head else s.next k)
  unfolding list_add set_prev set_next write_at
  added_next k = refl

  added_prev :
      (k : ℕ)
      → (list_add node head s).prev k
        ≡ (if k == node then head else if k == s.next head then node else s.prev k)
  unfolding list_add set_prev set_next write_at
  added_prev k = refl

-- `list_add` of a node that is in no way in the ring puts it before the nodes of the ring.
pub list_add-IsRing :
    (s : Links) (node head : ℕ) (xs : List ℕ)
    → IsRing s head xs
    → node ≢ head
    → Fresh node xs
    → IsRing (list_add node head s) head (node ∷ xs)
list_add-IsRing s node head [] ring other fresh = record {
  chain = (
    ground (arith, added_next s node head head),
    ground (arith, added_prev s node head node),
    (
      ground (arith, added_next s node head node, ring.chain.0),
      ground (arith, added_prev s node head head, ring.chain.0),
    ),
  );
  distinct = (tt, tt);
  apart = (λ e. other (sym e), tt);
}
list_add-IsRing s node head (x ∷ xs) ring other fresh =
    let first = ring.chain.0 in
    let s' = list_add node head s in
    let kept : (y : ℕ)
        → head ≢ y
        → node ≢ y
        → x ≢ y
        → (s'.next y ≡ s.next y) × (s'.prev y ≡ s.prev y) =
      λ y h n o. (
        ground (arith, h, n, added_next s node head y),
        ground (arith, n, o, first, added_prev s node head y),
      ) in
    record {
      chain = (
        ground (arith, added_next s node head head),
        ground (arith, added_prev s node head node),
        (
          ground (arith, added_next s node head node, first),
          ground (arith, added_prev s node head x, first, fresh.0),
          frame s s' x xs head ring.chain.2
              (ground (arith, added_next s node head x, ring.apart.0, fresh.0))
              (ground (arith, added_prev s node head head, ring.apart.0, first))
              (Same-Fresh s s' head node x kept xs ring.apart.1 fresh.1 ring.distinct.0),
        ),
      );
      distinct = (fresh, ring.distinct);
      apart = (λ e. other (sym e), ring.apart);
    }

module _ (s : Links) (node head : ℕ) where
  tail_next :
      (k : ℕ)
      → (list_add_tail node head s).next k
        ≡ (if k == node then head else if k == s.prev head then node else s.next k)
  unfolding list_add_tail set_prev set_next write_at
  tail_next k = refl

  tail_prev :
      (k : ℕ)
      → (list_add_tail node head s).prev k
        ≡ (if k == head then node else if k == node then s.prev head else s.prev k)
  unfolding list_add_tail set_prev set_next write_at
  tail_prev k = refl

-- The node before the end of a chain is one of its nodes.
pub last_in :
    (s : Links) (k a : ℕ) (xs : List ℕ) (b : ℕ) → Chain s a xs b → k ≢ a → Fresh k xs → k ≢ s.prev b
last_in s k a [] b c other fresh = ground (arith, c.1)
last_in s k a (x ∷ xs) b c other fresh = last_in s k x xs b c.2 fresh.0 fresh.1

tail-Chain :
    (s : Links) (node a : ℕ) (xs : List ℕ) (b : ℕ)
    → Chain s a xs b
    → Distinct xs
    → Fresh a xs
    → Fresh b xs
    → Fresh node (a ∷ xs)
    → node ≢ b
    → Chain (list_add_tail node b s) a (xs ++ (node ∷ [])) b
tail-Chain s node a [] b c dist fa fb fresh other = (
  ground (arith, tail_next s node b a, fresh.0, c.1),
  ground (arith, tail_prev s node b node, c.1),
  (ground (arith, tail_next s node b node), ground (arith, tail_prev s node b b)),
)
tail-Chain s node a (x ∷ xs) b c dist fa fb fresh other = (
  ground (arith, tail_next s node b a, fresh.0, c.0, last_in s a x xs b c.2 fa.0 fa.1),
  ground (arith, tail_prev s node b x, fresh.1.0, fb.0, c.1),
  tail-Chain s node x xs b c.2 dist.1 dist.0 fb.1 fresh.1 other,
)

pub Fresh-append : (k : ℕ) (xs ys : List ℕ) → Fresh k xs → Fresh k ys → Fresh k (xs ++ ys)
Fresh-append k [] ys f g = g
Fresh-append k (x ∷ xs) ys f g = (f.0, Fresh-append k xs ys f.1 g)

Distinct-snoc : (xs : List ℕ) (k : ℕ) → Distinct xs → Fresh k xs → Distinct (xs ++ (k ∷ []))
Distinct-snoc [] k d f = (tt, tt)
Distinct-snoc (x ∷ xs) k d f =
    (Fresh-append x xs (k ∷ []) d.0 (λ e. f.0 (sym e), tt), Distinct-snoc xs k d.1 f.1)

-- `list_add_tail` of a node that is in no way in the ring puts it behind the nodes of the ring.
pub list_add_tail-IsRing :
    (s : Links) (node head : ℕ) (xs : List ℕ)
    → IsRing s head xs
    → node ≢ head
    → Fresh node xs
    → IsRing (list_add_tail node head s) head (xs ++ (node ∷ []))
list_add_tail-IsRing s node head xs ring other fresh = record {
  chain =
      tail-Chain s node head xs head ring.chain ring.distinct ring.apart ring.apart (other, fresh)
        other;
  distinct = Distinct-snoc xs node ring.distinct fresh;
  apart = Fresh-append head xs (node ∷ []) ring.apart (λ e. other (sym e), tt);
}
