-- ===== src/Trap/Tables.antt =====
-- The page tables of the virtual machine: one with all of its memory, and one without the regions
-- that its PMP registers close.
use advanced_operating_syste.Prelude.{
  ℕ, zero, suc, ◌+◌, ◌-◌, ◌*◌, ◌/◌, ◌%◌, ◌^◌, true, false, ◌==◌, ltb, if◌then◌else◌, none, some,
  get_or, Outcome, ok, panic, ◌>>=◌,
}
use advanced_operating_syste.Memory.{load64}
use advanced_operating_syste.Alloc.{Machine, page_size}
use advanced_operating_syste.Paging.{
  pte_v, pte2pa, pte_flags, walk, mappages, uvmunmap, proc_pagetable,
}
use advanced_operating_syste.Trap.{VmState, Sys, no_reg, pmpcfg0_at, pmpaddr_at}

-- The number of rounds of `for(i = start; i < end; i += PGSIZE)`.
abbrev pub pages_between : ℕ → ℕ → ℕ
pages_between start stop = (stop - start + page_size - 1) / page_size

-- The loop of `copy_pagetable_region`; the result of `mappages` is not looked at.
pub copy_pages : ℕ → Machine → ℕ → ℕ → ℕ → Outcome Machine
copy_pages zero k old new i = ok k
copy_pages (suc n) k old new i = do
  (found, k1) ← walk k old i false
  pte ← (elim found [ none ↦ panic | some pte ↦ ok pte ])
  let e = load64 k1.bytes pte
  (mapped, k2) ← (if pte_v e then mappages k1 new i page_size (pte2pa e) (pte_flags e) else panic)
  copy_pages n k2 old new (i + page_size)

pub copy_pagetable_region : Machine → ℕ → ℕ → ℕ → ℕ → Outcome Machine
copy_pagetable_region k old new start stop = copy_pages (pages_between start stop) k old new start

-- `first` is the kernel's end, `trampoline` the address of trampoline.S.
module _ (first trampoline : ℕ) where
  pub unmap_pages : ℕ → Machine → ℕ → ℕ → Outcome Machine
  unmap_pages zero k pagetable i = ok k
  unmap_pages (suc n) k pagetable i = do
    k1 ← uvmunmap first k pagetable i 1 false
    unmap_pages n k1 pagetable (i + page_size)

  pub apply_pmp_restrictions : Machine → ℕ → ℕ → ℕ → Outcome Machine
  apply_pmp_restrictions k pagetable start stop =
      unmap_pages (pages_between start stop) k pagetable start

  -- `vm_state.pmpaddr[i].val`
  abbrev pub pmpaddr : VmState → ℕ → ℕ
  pmpaddr v i = (get_or v.regs (pmpaddr_at + i) no_reg).val

  -- The rounds from `i` on, `n` of them; `start` is `start_addr`.
  pub pmp_loop : ℕ → ℕ → VmState → Machine → ℕ → Outcome Machine
  pmp_loop zero i v k start = ok k
  pmp_loop (suc n) i v k start =
      let rwx = (get_or v.regs pmpcfg0_at no_reg).val / 2 ^ (i * 8) % 256 % 8 in
      let start' = if ltb 0 i then pmpaddr v (i - 1) * 4 % 2 ^ 64 else start in
      let stop = pmpaddr v i * 4 % 2 ^ 64 in
      elim (pmpaddr v i == 0) [
        | true ↦ ok k
        | false ↦ do
          k1 ← (if rwx == 7 then ok k else apply_pmp_restrictions k v.new_ptable start' stop)
          pmp_loop n (i + 1) v k1 start'
      ]

  -- A page table for `p` with its own memory and the machine's 4 MB from 0x80000000.
  pub vm_pagetable : Sys → Outcome (ℕ × Machine)
  vm_pagetable s = do
    (table, k1) ← proc_pagetable first trampoline s.p.trapframe s.mem
    k2 ← copy_pagetable_region k1 s.p.pagetable table 0 s.p.sz
    k3 ← copy_pagetable_region k2 s.p.pagetable table 0x8000_0000 0x8040_0000
    ok (table, k3)

  -- The end of `handle_mret`.
  unfoldable pub enforce_pmp : Sys → Outcome Sys
  enforce_pmp s =
      if s.vm.pmp_configuration == 1
      then (do
        (table, k1) ← vm_pagetable s
        let v = record (s.vm) { new_ptable = table }
        k2 ← pmp_loop 4 0 v k1 0x8000_0000
        ok (record { vm = v; p = record (s.p) { pagetable = table }; mem = k2 }))
      else ok s
