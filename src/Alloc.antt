-- ===== src/Alloc.antt =====
-- The page allocator, kernel/kalloc.c (the same file in assignments 2, 3 and 4). The free pages are
-- a list threaded through the pages themselves. Every access is made under `kmem.lock`, so a call
-- is one step of the model.
pub mod Stack
pub mod Init
mod Tests
use advanced_operating_syste.Prelude.{
  ℕ, zero, suc, ◌+◌, ◌-◌, ◌*◌, ◌/◌, ◌%◌, ◌^◌, Bool, not, ◌||◌, ◌==◌, ltb, leb, if◌then◌else◌,
  Outcome, ok, panic, ◌>>=◌,
}
use advanced_operating_syste.Memory.{Bytes, load64, store64, memset}

abbrev pub page_size : ℕ
page_size = 4096

-- `PHYSTOP`, KERNBASE + 128 MB.
abbrev pub phys_stop : ℕ
phys_stop = 0x8000_0000 + 128 * 1024 * 1024

-- Physical memory and the head of the free list.
pub record Machine : Type 0 where
  pub bytes : Bytes
  pub freelist : ℕ

pub kalloc : Machine → ℕ × Machine
kalloc k =
    let r = k.freelist in
    if r == 0
    then (r, k)
    else (r, record { bytes = memset k.bytes r 5 page_size; freelist = load64 k.bytes r })

-- `first` is the address `end` that kernel.ld defines.
module _ (first : ℕ) where
  pub kfree : ℕ → Machine → Outcome Machine
  kfree pa k =
      if not (pa % page_size == 0) || ltb pa first || leb phys_stop pa
      then panic
      else ok
          (record { bytes = store64 (memset k.bytes pa 1 page_size) pa k.freelist; freelist = pa })

  -- The loop of `freerange` over the pages that fit, from `p` on.
  pub free_pages : ℕ → ℕ → Machine → Outcome Machine
  free_pages zero p k = ok k
  free_pages (suc n) p k = do k' ← kfree p k; free_pages n (p + page_size) k'

  pub freerange : ℕ → ℕ → Machine → Outcome Machine
  freerange pa_start pa_end k =
      let p = (pa_start + page_size - 1) / page_size * page_size in
      free_pages ((pa_end - p) / page_size) p k

  pub kinit : Machine → Outcome Machine
  kinit k = freerange first phys_stop k
