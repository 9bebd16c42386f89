-- ===== src/Paging/Grow.antt =====
-- The memory of a process in its page table, kernel/vm.c of assignment 4: growth, shrinking and copy.
use advanced_operating_syste.Prelude.{
  ℕ, zero, suc, ◌+◌, ◌-◌, ◌/◌, Bool, true, false, ◌==◌, ltb, leb, if◌then◌else◌, bit_or, none, some,
  Outcome, ok, panic, ◌>>=◌,
}
use advanced_operating_syste.Memory.{load64, store64, memset, memmove}
use advanced_operating_syste.Alloc.{Machine, page_size, kalloc, kfree}
use advanced_operating_syste.Paging.{
  page_up, pte_v, pte_u, pte2pa, pte_flags, walk, mappages, uvmunmap,
}

-- `kalloc` returns a null pointer where no page is left, and the code writes there.
pub uvmfirst : Machine → ℕ → ℕ → ℕ → Outcome Machine
uvmfirst k pagetable src sz = if leb page_size sz then panic else (do
  let (mem, k1) = kalloc k
  (_, k2) ←
      mappages (record k1 { bytes = memset k1.bytes mem 0 page_size }) pagetable 0 page_size mem
        (4 + 2 + 8 + 16)
  ok (record k2 { bytes = memmove k2.bytes mem src sz }))

module _ (first : ℕ) where
  pub uvmdealloc : Machine → ℕ → ℕ → ℕ → Outcome (ℕ × Machine)
  uvmdealloc k pagetable oldsz newsz =
      if leb oldsz newsz
      then ok (oldsz, k)
      else if ltb (page_up newsz) (page_up oldsz)
      then (do
        k1 ←
            uvmunmap first k pagetable (page_up newsz) ((page_up oldsz - page_up newsz) / page_size)
              true
        ok (newsz, k1))
      else ok (newsz, k)

  -- The error path of `uvmalloc`.
  pub give_back : Machine → ℕ → ℕ → ℕ → Outcome (Bool × Machine)
  give_back k pagetable a oldsz = do (_, k1) ← uvmdealloc k pagetable a oldsz; ok (false, k1)

  -- The loop of `uvmalloc` for `n` more pages from `a` on.
  pub grow_loop : ℕ → Machine → ℕ → ℕ → ℕ → ℕ → Outcome (Bool × Machine)
  grow_loop zero k pagetable a oldsz xperm = ok (true, k)
  grow_loop (suc n) k pagetable a oldsz xperm =
      let (mem, k1) = kalloc k in
      elim (mem == 0) [
        | true ↦ give_back k1 pagetable a oldsz
        | false ↦ do
          (mapped, k2) ←
              mappages (record k1 { bytes = memset k1.bytes mem 0 page_size }) pagetable a page_size
                mem (bit_or (2 + 16) xperm)
          elim mapped [
            | true ↦ grow_loop n k2 pagetable (a + page_size) oldsz xperm
            | false ↦ do k3 ← kfree first mem k2; give_back k3 pagetable a oldsz
          ]
      ]

  pub uvmalloc : Machine → ℕ → ℕ → ℕ → ℕ → Outcome (ℕ × Machine)
  uvmalloc k pagetable oldsz newsz xperm = if ltb newsz oldsz then ok (oldsz, k) else (do
    let start = page_up oldsz
    (grown, k1) ←
        grow_loop ((newsz - start + page_size - 1) / page_size) k pagetable start start xperm
    ok (if grown then newsz else 0, k1))

  -- The loop of `uvmcopy` for `n` more pages from `i` on, with its error path.
  pub copy_loop : ℕ → Machine → ℕ → ℕ → ℕ → Outcome (Bool × Machine)
  copy_loop zero k old new i = ok (true, k)
  copy_loop (suc n) k old new i = do
    (found, k0) ← walk k old i false
    elim found [
      | none ↦ panic
      | some pte ↦
          let e = load64 k0.bytes pte in
          elim (pte_v e) [
            | false ↦ panic
            | true ↦
                let (mem, k1) = kalloc k0 in
                elim (mem == 0) [
                  | true ↦ do k2 ← uvmunmap first k1 new 0 (i / page_size) true; ok (false, k2)
                  | false ↦ do
                    (mapped, k2) ←
                        mappages (record k1 { bytes = memmove k1.bytes mem (pte2pa e) page_size })
                          new i page_size mem (pte_flags e)
                    elim mapped [
                      | true ↦ copy_loop n k2 old new (i + page_size)
                      | false ↦ do
                        k3 ← kfree first mem k2
                        k4 ← uvmunmap first k3 new 0 (i / page_size) true
                        ok (false, k4)
                    ]
                ]
          ]
    ]

  pub uvmcopy : Machine → ℕ → ℕ → ℕ → Outcome (Bool × Machine)
  uvmcopy k old new sz = copy_loop ((sz + page_size - 1) / page_size) k old new 0

-- `*pte &= ~PTE_U;`
pub uvmclear : Machine → ℕ → ℕ → Outcome Machine
uvmclear k pagetable va = do
  (found, k1) ← walk k pagetable va false
  elim found [
    | none ↦ panic
    | some pte ↦
        let e = load64 k1.bytes pte in
        ok (record k1 { bytes = store64 k1.bytes pte (if pte_u e then e - 16 else e) })
  ]
