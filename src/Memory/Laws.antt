-- ===== src/Memory/Laws.antt =====
-- What the byte routines leave at each address.
use advanced_operating_syste.Prelude.{
  ℕ, zero, suc, ◌+◌, ◌-◌, ◌*◌, ◌/◌, ◌%◌, ◌^◌, ◌≤◌, ◌<◌, ◌≡◌, refl, Bool, ◌&&◌, leb, ltb,
  if◌then◌else◌, arith, ◌⊎◌, inl, inr, Bool-cases,
}
use advanced_operating_syste.Memory.{
  Bytes, poke, load, store, load64, store64, memset, move_up, move_down, memmove,
}

abbrev pub within : ℕ → ℕ → ℕ → Bool
within a n q = leb a q && ltb q (a + n)

pub store_outside : (n : ℕ) (m : Bytes) (a v q : ℕ) → (q < a) ⊎ (a + n ≤ q) → store n m a v q ≡ m q
unfolding store
store_outside zero m a v q h = refl
store_outside (suc n) m a v q h =
    ground (arith, store_outside n (poke m a (v % 256)) (a + 1) (v / 256) q)

pub load_ext :
    (n : ℕ) (m m' : Bytes) (a : ℕ)
    → ((q : ℕ) → a ≤ q → q < a + n → m q ≡ m' q)
    → load n m a ≡ load n m' a
unfolding load
load_ext zero m m' a h = refl
load_ext (suc n) m m' a h = omega (
  arith,
  h a (omega arith) (omega arith),
  load_ext n m m' (a + 1) (λ q x y. h q (omega arith) (omega arith)),
)

abbrev pub low_bytes : ℕ → ℕ → ℕ
low_bytes zero v = 0
low_bytes (suc n) v = v % 256 + 256 * low_bytes n (v / 256)

pub load-store_bytes : (n : ℕ) (m : Bytes) (a v : ℕ) → load n (store n m a v) a ≡ low_bytes n v
unfolding load store
load-store_bytes zero m a v = refl
load-store_bytes (suc n) m a v = ground (
  arith,
  load-store_bytes n (poke m a (v % 256)) (a + 1) (v / 256),
  store_outside n (poke m a (v % 256)) (a + 1) (v / 256) a,
)

-- Reading back what was written.
pub load-store : (m : Bytes) (a v : ℕ) → load64 (store64 m a v) a ≡ v % 2 ^ 64
load-store m a v = omega (arith, load-store_bytes 8 m a v)

-- A word elsewhere is not changed.
pub load-store_apart :
    (m : Bytes) (a b v : ℕ) → (b + 8 ≤ a) ⊎ (a + 8 ≤ b) → load64 (store64 m a v) b ≡ load64 m b
load-store_apart m a b v h =
    load_ext 8 (store64 m a v) m b (λ q x y. store_outside 8 m a v q (apart q x y h))
  where
    apart : (q : ℕ) → b ≤ q → q < b + 8 → (b + 8 ≤ a) ⊎ (a + 8 ≤ b) → (q < a) ⊎ (a + 8 ≤ q)
    apart q x y (inl e) = inl (omega arith)
    apart q x y (inr e) = inr (omega arith)

pub memset_lem :
    (n : ℕ) (m : Bytes) (dst c q : ℕ)
    → memset m dst c n q ≡ (if within dst n q then c % 256 else m q)
unfolding memset
memset_lem zero m dst c q = ground arith
memset_lem (suc n) m dst c q = ground (arith, memset_lem n (poke m dst (c % 256)) (dst + 1) c q)

move_up_lem :
    (n : ℕ) (m : Bytes) (d s q : ℕ)
    → (d ≤ s) ⊎ (s + n ≤ d)
    → move_up m d s n q ≡ (if within d n q then m (s + (q - d)) else m q)
unfolding move_up
move_up_lem zero m d s q h = ground arith
move_up_lem (suc n) m d s q h = ground (arith, move_up_lem n (poke m d (m s)) (d + 1) (s + 1) q)

pred_add : (a n : ℕ) → a + suc n - 1 ≡ a + n
pred_add a n = omega arith

move_down-suc :
    (n : ℕ) (m : Bytes) (d s : ℕ)
    → move_down m (d + suc n) (s + suc n) (suc n)
      ≡ move_down (poke m (d + n) (m (s + n))) (d + n) (s + n) n
unfolding move_down
move_down-suc n m d s = rw (pred_add d n, pred_add s n)

move_down-zero : (m : Bytes) (d s q : ℕ) → move_down m d s 0 q ≡ m q
unfolding move_down
move_down-zero m d s q = refl

move_down_lem :
    (n : ℕ) (m : Bytes) (d s q : ℕ)
    → s ≤ d
    → move_down m (d + n) (s + n) n q ≡ (if within d n q then m (s + (q - d)) else m q)
move_down_lem zero m d s q h = ground (arith, move_down-zero m (d + 0) (s + 0) q)
move_down_lem (suc n) m d s q h =
    rw (move_down-suc n m d s)
      (ground (arith, move_down_lem n (poke m (d + n) (m (s + n))) d s q h))

-- `memmove` copies the source as it stood before the call, also where the two ranges overlap, and
-- leaves every other byte alone.
pub memmove_lem :
    (m : Bytes) (dst src n q : ℕ)
    → memmove m dst src n q ≡ (if within dst n q then m (src + (q - dst)) else m q)
unfolding memmove
memmove_lem m dst src n q = elim (Bool-cases (ltb src dst && ltb dst (src + n))) [
  | inl down ↦ ground (arith, move_down_lem n m dst src q (ground arith))
  | inr up ↦ ground (arith, move_up_lem n m dst src q (ground arith))
]
