-- ===== src/Memory/Frame.antt =====
-- What a store leaves alone, and what a load reads back.
use native.Mathlib.Nat.{
  pow-suc, one-le-pow, mod-lt, mod-eq_of_lt, mul-add-mod_self_right, div-add-mod, add-zero,
}
use orlix_system.Prelude.{
  ℕ, zero, suc, ◌+◌, ◌*◌, ◌/◌, ◌%◌, ◌^◌, ◌≤◌, ◌<◌, ◌≡◌, refl, ap, ◌∙◌, ◌⊎◌, inl, List, [], ◌∷◌,
  arith, length,
}
use orlix_system.Memory.{Memory, poke, load, store, load_bytes, store_bytes}

-- The two memories hold the same in `n` bytes from `p` on.
abbrev pub SameAt : ℕ → ℕ → Memory → Memory → Type 0
SameAt n p m m' = (a : ℕ) → p ≤ a → a < p + n → m' a ≡ m a

pub store-outside : (n : ℕ) (m : Memory) (p v a : ℕ) → (a < p) ⊎ (p + n ≤ a) → store n m p v a ≡ m a
unfolding store
store-outside zero m p v a h = refl
store-outside (suc n) m p v a h =
    ground (arith, store-outside n (poke m p (v % 256)) (p + 1) (v / 256) a)

pub store_bytes-outside :
    (m : Memory) (p : ℕ) (bs : List ℕ) (a : ℕ)
    → (a < p) ⊎ (p + length bs ≤ a)
    → store_bytes m p bs a ≡ m a
unfolding store_bytes
store_bytes-outside m p [] a h = refl
store_bytes-outside m p (b ∷ bs) a h = ground (arith, store_bytes-outside (poke m p b) (p + 1) bs a)

pub load-SameAt : (n : ℕ) (m m' : Memory) (p : ℕ) → SameAt n p m m' → load n m' p ≡ load n m p
unfolding load
load-SameAt zero m m' p h = refl
load-SameAt (suc n) m m' p h = omega (
  arith,
  h p (omega arith) (omega arith),
  load-SameAt n m m' (p + 1) (λ a lo hi. h a (omega arith) (omega arith)),
)

pub load-store_apart :
    (k n : ℕ) (m : Memory) (p q v : ℕ)
    → (q + k ≤ p) ⊎ (p + n ≤ q)
    → load k (store n m p v) q ≡ load k m q
load-store_apart k n m p q v h =
    load-SameAt k m (store n m p v) q (λ a lo hi. store-outside n m p v a (grind arith))

pub poke_self : (m : Memory) (p v : ℕ) → poke m p v p ≡ v
unfolding poke
poke_self m p v = ground arith

mod_step : (v m : ℕ) → 0 < m → v % (m * 256) ≡ v % 256 + 256 * (v / 256 % m)
mod_step v m h =
    ap (λ (t : ℕ). t % (m * 256)) whole
    ∙ mul-add-mod_self_right (v / 256 / m) (m * 256) low
    ∙ mod-eq_of_lt (ground (arith, mod-lt (v / 256) h))
  where
    low : ℕ
    low = v % 256 + 256 * (v / 256 % m)

    whole : v ≡ v / 256 / m * (m * 256) + low
    whole = omega (arith, div-add-mod (v / 256) m)

pub load-store : (n : ℕ) (m : Memory) (p v : ℕ) → load n (store n m p v) p ≡ v % 256 ^ n
unfolding load store
load-store zero m p v = omega arith
load-store (suc n) m p v = omega (
  arith,
  poke_self m p (v % 256),
  store-outside n (poke m p (v % 256)) (p + 1) (v / 256) p (inl (omega arith)),
  load-store n (poke m p (v % 256)) (p + 1) (v / 256),
  mod_step v (256 ^ n) (omega (arith, one-le-pow n 256)),
  pow-suc 256 n,
  ap (λ (t : ℕ). v % t) (pow-suc 256 n),
)

pub load-lt : (n : ℕ) (m : Memory) (p : ℕ) → load n m p < 256 ^ n
unfolding load
load-lt zero m p = omega arith
load-lt (suc n) m p = omega (arith, load-lt n m (p + 1), pow-suc 256 n)

pub length-load_bytes : (n : ℕ) (m : Memory) (p : ℕ) → length (load_bytes n m p) ≡ n
unfolding load_bytes
length-load_bytes zero m p = refl
length-load_bytes (suc n) m p = ap suc (length-load_bytes n m (p + 1))

-- A byte of a copied run.
pub copied_byte :
    (n : ℕ) (m m' : Memory) (p q j : ℕ)
    → j < n
    → store_bytes m' p (load_bytes n m q) (p + j) ≡ m (q + j) % 256
unfolding load_bytes store_bytes
copied_byte zero m m' p q j h = absurd (omega arith)
copied_byte (suc n) m m' p q zero h = omega (
  arith,
  store_bytes-outside (poke m' p (m q % 256)) (p + 1) (load_bytes n m (q + 1)) p
      (inl (omega arith)),
  poke_self m' p (m q % 256),
  ap (store_bytes (poke m' p (m q % 256)) (p + 1) (load_bytes n m (q + 1))) (add-zero p),
  ap m (add-zero q),
)
copied_byte (suc n) m m' p q (suc j) h = omega (
  arith,
  copied_byte n m (poke m' p (m q % 256)) (p + 1) (q + 1) j (omega arith),
  ap (store_bytes (poke m' p (m q % 256)) (p + 1) (load_bytes n m (q + 1))) (next p),
  ap m (next q),
)
  where
    next : (x : ℕ) → x + suc j ≡ x + 1 + j
    next x = omega arith
