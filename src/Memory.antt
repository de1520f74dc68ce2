-- ===== src/Memory.antt =====
-- Memory as the code sees it: a byte at each address. Integers of the source's structs lie in
-- little-endian order (the targets of src/os/arch are little-endian), and `memcpy` and `memset`
-- are written out. An address is a number, and 0 is NULL.
use native.Mathlib.Nat.{pow-suc}
use nomalloc.Prelude.{
  ℕ, zero, suc, ◌+◌, ◌-◌, ◌*◌, ◌/◌, ◌%◌, ◌^◌, ◌≤◌, ◌<◌, ◌≡◌, ◌⊎◌, refl, ◌∙◌, ◌&&◌, arith, ◌==◌, leb,
  ltb, if◌then◌else◌,
}

abbrev pub Memory : Type 0
Memory = ℕ → ℕ

unfoldable pub write : Memory → ℕ → ℕ → Memory
write m a v x = if x == a then v else m x

-- The `n` bytes of the number `v`, from address `a`.
unfoldable pub store : ℕ → Memory → ℕ → ℕ → Memory
store zero m a v = m
store (suc n) m a v = store n (write m a (v % 256)) (a + 1) (v / 256)

unfoldable pub load : ℕ → Memory → ℕ → ℕ
load zero m a = 0
load (suc n) m a = m a + 256 * load n m (a + 1)

-- `memcpy(dst, src, n)` between regions that do not overlap.
unfoldable pub memcpy : Memory → ℕ → ℕ → ℕ → Memory
memcpy m dst src n x = if leb dst x && ltb x (dst + n) then m (src + (x - dst)) else m x

-- `memset(dst, v, n)`
unfoldable pub memset : Memory → ℕ → ℕ → ℕ → Memory
memset m dst v n x = if leb dst x && ltb x (dst + n) then v else m x

-- Two memories agree on the `n` bytes from `a`.
abbrev pub Agree : Memory → Memory → ℕ → ℕ → Type 0
Agree m m' a n = (x : ℕ) → a ≤ x → x < a + n → m' x ≡ m x

-- The `n` bytes from `a` and the `k` bytes from `b` have no address in common.
abbrev pub Apart : ℕ → ℕ → ℕ → ℕ → Type 0
Apart a n b k = (a + n ≤ b) ⊎ (b + k ≤ a)

store_outside : (n : ℕ) (m : Memory) (a v x : ℕ) → (x < a) ⊎ (a + n ≤ x) → store n m a v x ≡ m x
unfolding store write
store_outside zero m a v x h = refl
store_outside (suc n) m a v x h =
    store_outside n (write m a (v % 256)) (a + 1) (v / 256) x (omega arith) ∙ ground arith

-- A store changes no byte of a region that lies apart.
pub store-Agree : (n : ℕ) (m : Memory) (a v b k : ℕ) → Apart b k a n → Agree m (store n m a v) b k
store-Agree n m a v b k h x p q = store_outside n m a v x (omega arith)

pub load-Agree : (n : ℕ) (m m' : Memory) (a : ℕ) → Agree m m' a n → load n m' a ≡ load n m a
unfolding load
load-Agree zero m m' a h = refl
load-Agree (suc n) m m' a h = omega (
  arith,
  h a (omega arith) (omega arith),
  load-Agree n m m' (a + 1) (λ x p q. h x (omega arith) (omega arith)),
)

-- What was stored is loaded again, if it fits the bytes.
pub load-store_self : (n : ℕ) (m : Memory) (a v : ℕ) → v < 256 ^ n → load n (store n m a v) a ≡ v
unfolding load store
load-store_self zero m a v h = omega arith
load-store_self (suc n) m a v h = omega (
  arith,
  pow-suc 256 n,
  store_outside n (write m a (v % 256)) (a + 1) (v / 256) a (omega arith),
  load-store_self n (write m a (v % 256)) (a + 1) (v / 256) (omega (arith, pow-suc 256 n)),
  written,
)
  where
    written : write m a (v % 256) a ≡ v % 256
    written = unfold write in ground arith

pub load-store-Apart :
    (n : ℕ) (m : Memory) (a k b v : ℕ) → Apart a n b k → load n (store k m b v) a ≡ load n m a
load-store-Apart n m a k b v h = load-Agree n m (store k m b v) a (store-Agree k m b v a n h)

pub memcpy-inside :
    (m : Memory) (dst src n i : ℕ) → i < n → memcpy m dst src n (dst + i) ≡ m (src + i)
unfolding memcpy
memcpy-inside m dst src n i h = let e : dst + i - dst ≡ i = omega arith in rw e (ground arith)

pub memcpy-Agree :
    (m : Memory) (dst src n b k : ℕ) → Apart b k dst n → Agree m (memcpy m dst src n) b k
unfolding memcpy
memcpy-Agree m dst src n b k h x p q = ground arith

pub memset-inside : (m : Memory) (dst v n i : ℕ) → i < n → memset m dst v n (dst + i) ≡ v
unfolding memset
memset-inside m dst v n i h = ground arith

pub memset-Agree : (m : Memory) (dst v n b k : ℕ) → Apart b k dst n → Agree m (memset m dst v n) b k
unfolding memset
memset-Agree m dst v n b k h x p q = ground arith
