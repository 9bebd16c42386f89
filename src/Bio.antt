-- ===== src/Bio.antt =====
-- The buffer cache, kernel/bio.c of assignment 4. The list through `prev` and `next` is a list of
-- indices of the array, the most recently used first; each call is one step under `bcache.lock`.
pub mod Blocks
mod Tests
use advanced_operating_syste.Prelude.{
  ℕ, zero, suc, ◌+◌, ◌-◌, ◌*◌, ◌/◌, ◌%◌, ◌^◌, ◌≤◌, ◌<◌, ◌≡◌, ◌≢◌, refl, sym, ap, subst, ◌∙◌,
  fun_ext, ◌↔◌, ◌⊎◌, inl, inr, Bool, true, false, not, ◌&&◌, ◌||◌, ◌==◌, ltb, leb, if◌then◌else◌,
  bit_and, bit_or, Option, none, some, List, [], ◌∷◌, ◌++◌, map, length, get_elem?, get_or, set,
  take, drop, replicate, Outcome, ok, panic, fault, deref, ◌>>=◌, >>=-eq-ok, arith, ℕ_discrete,
  if_cases, ok-injective, Bool-cases, Option-cases, get_or-set_self, get_or-set_ne, length-set,
  get_or-set_lem, set-set, set-get_or,
}

-- `struct buf`, with whether the caller holds its sleeplock; `bytes` is the array data.
pub record Buf : Type 0 where
  pub valid : Bool
  pub dev : ℕ
  pub blockno : ℕ
  pub refcnt : ℕ
  pub held : Bool
  pub bytes : ℕ → ℕ

pub record Bcache : Type 0 where
  pub buf : List Buf
  pub order : List ℕ

abbrev pub no_buf : Buf
no_buf = record { valid = false; dev = 0; blockno = 0; refcnt = 0; held = false; bytes = λ _. 0 }

abbrev pub buf_at : Bcache → ℕ → Buf
buf_at c i = get_or c.buf i no_buf

abbrev pub with_buf : Bcache → ℕ → Buf → Bcache
with_buf c i b = record c { buf = set c.buf i b }

-- The list after the loop of `binit` over `n` buffers: each goes to the front.
unfoldable pub linked : ℕ → List ℕ
linked zero = []
linked (suc n) = n ∷ linked n

pub binit : List Buf → Bcache
unfolding linked
binit bufs = record { buf = bufs; order = linked (length bufs) }

abbrev pub holds : ℕ → ℕ → Buf → Bool
holds dev blockno b = b.dev == dev && b.blockno == blockno

-- The two loops of `bget`: forwards for the block, backwards for a buffer that nothing uses.
unfoldable pub find_cached : ℕ → ℕ → Bcache → List ℕ → Option ℕ
find_cached dev blockno c [] = none
find_cached dev blockno c (i ∷ is) =
    let rest = find_cached dev blockno c is in
    if holds dev blockno (buf_at c i) then some i else rest

unfoldable pub find_unused : Bcache → List ℕ → Option ℕ
find_unused c [] = none
find_unused c (i ∷ is) =
    let rest = find_unused c is in
    elim rest [ some j ↦ some j | none ↦ if (buf_at c i).refcnt == 0 then some i else none ]

abbrev pub wrap : ℕ → ℕ
wrap n = n % 2 ^ 32

unfoldable pub bget : ℕ → ℕ → Bcache → Outcome (ℕ × Bcache)
bget dev blockno c = elim (find_cached dev blockno c c.order) [
  | some i ↦
      let b = buf_at c i in
      ok (i, with_buf c i (record b { refcnt = wrap (b.refcnt + 1); held = true }))
  | none ↦ elim (find_unused c c.order) [
    | some i ↦ ok (
      i,
      with_buf c i (record (buf_at c i) {
        dev = dev;
        blockno = blockno;
        valid = false;
        refcnt = 1;
        held = true;
      }),
    )
    | none ↦ panic
  ]
]

-- `disk` is the block that `virtio_disk_rw` reads.
pub bread : (ℕ → ℕ → ℕ → ℕ) → ℕ → ℕ → Bcache → Outcome (ℕ × Bcache)
unfolding bget
bread disk dev blockno c = do
  (i, c1) ← bget dev blockno c
  let b = buf_at c1 i
  ok (
      if b.valid
      then (i, c1)
      else (i, with_buf c1 i (record b { valid = true; bytes = disk dev blockno })))

-- The list without an index.
unfoldable pub unlink : ℕ → List ℕ → List ℕ
unlink i [] = []
unlink i (j ∷ js) = let rest = unlink i js in if j == i then rest else j ∷ rest

unfoldable pub brelse : ℕ → Bcache → Outcome Bcache
brelse i c =
    let b = buf_at c i in
    let r = wrap (b.refcnt + 2 ^ 32 - 1) in
    let c1 = with_buf c i (record b { held = false; refcnt = r }) in
    if not b.held
    then panic
    else if r == 0
    then ok (record c1 { order = i ∷ unlink i c1.order })
    else ok c1

pub bpin : ℕ → Bcache → Bcache
bpin i c = let b = buf_at c i in with_buf c i (record b { refcnt = wrap (b.refcnt + 1) })

pub bunpin : ℕ → Bcache → Bcache
bunpin i c = let b = buf_at c i in with_buf c i (record b { refcnt = wrap (b.refcnt + 2 ^ 32 - 1) })
