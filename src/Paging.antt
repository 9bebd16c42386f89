-- ===== src/Paging.antt =====
-- Sv39 page tables, kernel/vm.c of assignment 4, and `proc_pagetable` of kernel/proc.c. A page
-- table is the physical address of its root page; a PTE is a word of physical memory.
pub mod Grow
use advanced_operating_syste.Prelude.{
  ℕ, zero, suc, ◌+◌, ◌-◌, ◌*◌, ◌/◌, ◌%◌, ◌^◌, Bool, true, false, not, ◌==◌, leb, if◌then◌else◌,
  bit_or, Option, none, some, Outcome, ok, panic, fault, ◌>>=◌,
}
use advanced_operating_syste.Memory.{load64, store64, memset}
use advanced_operating_syste.Alloc.{Machine, page_size, kalloc, kfree}

abbrev pub max_va : ℕ
max_va = 2 ^ 38

abbrev pub trampoline_va : ℕ
trampoline_va = max_va - page_size

abbrev pub trapframe_va : ℕ
trapframe_va = trampoline_va - page_size

-- The bits PTE_V, PTE_R, PTE_W, PTE_X and PTE_U.
abbrev pub pte_v : ℕ → Bool
pte_v e = e % 2 == 1

abbrev pub pte_u : ℕ → Bool
pte_u e = e / 16 % 2 == 1

abbrev pub pte_rwx : ℕ → ℕ
pte_rwx e = e / 2 % 8

abbrev pub pte_flags : ℕ → ℕ
pte_flags e = e % 0x400

abbrev pub pte2pa : ℕ → ℕ
pte2pa e = e / 2 ^ 10 * 2 ^ 12 % 2 ^ 64

abbrev pub pa2pte : ℕ → ℕ
pa2pte pa = pa / 2 ^ 12 * 2 ^ 10

abbrev pub page_down : ℕ → ℕ
page_down a = a / page_size * page_size

abbrev pub page_up : ℕ → ℕ
page_up a = page_down ((a + page_size - 1) % 2 ^ 64)

-- `&pagetable[PX(level, va)]`
abbrev pub pte_at : ℕ → ℕ → ℕ → ℕ
pte_at level pagetable va = pagetable + 8 * (va / 2 ^ (12 + 9 * level) % 512)

-- The loop of `walk` from `level` down. The result is the address of the PTE, `none` for 0.
pub walk_from : ℕ → Machine → ℕ → ℕ → Bool → Option ℕ × Machine
walk_from zero k pagetable va alloc = (some (pte_at 0 pagetable va), k)
walk_from (suc l) k pagetable va alloc =
    let pte = pte_at (suc l) pagetable va in
    let e = load64 k.bytes pte in
    elim (pte_v e) [
      | true ↦ walk_from l k (pte2pa e) va alloc
      | false ↦ elim alloc [
        | false ↦ (none, k)
        | true ↦
            let (page, k1) = kalloc k in
            elim (page == 0) [
              | true ↦ (none, k1)
              | false ↦
                  walk_from l
                    (record k1 {
                      bytes = store64 (memset k1.bytes page 0 page_size) pte (pa2pte page + 1);
                    })
                    page va true
            ]
      ]
    ]

pub walk : Machine → ℕ → ℕ → Bool → Outcome (Option ℕ × Machine)
walk k pagetable va alloc = if leb max_va va then panic else ok (walk_from 2 k pagetable va alloc)

-- The physical page, 0 where `va` is not mapped for the user.
unfoldable pub walkaddr : Machine → ℕ → ℕ → ℕ
unfolding walk_from
walkaddr k pagetable va = if leb max_va va then 0 else elim ((walk_from 2 k pagetable va false).0) [
  | none ↦ 0
  | some pte ↦
      let e = load64 k.bytes pte in
      if not (pte_v e) then 0 else if not (pte_u e) then 0 else pte2pa e
]

-- One round of `mappages`; `none` where `walk` returns 0.
pub map_one : Machine → ℕ → ℕ → ℕ → ℕ → Outcome (Bool × Machine)
map_one k pagetable a pa perm = do
  (found, k1) ← walk k pagetable a true
  elim found [
    | none ↦ ok (false, k1)
    | some pte ↦
        if pte_v (load64 k1.bytes pte)
        then panic
        else ok
            (true, record k1 { bytes = store64 k1.bytes pte (bit_or (bit_or (pa2pte pa) perm) 1) })
  ]

-- `for(;;)`, a round for each page up to `last`. No more than MAXVA / PGSIZE rounds can pass: at the
-- next the address is at MAXVA or above and `walk` panics, as the end of the fuel does.
pub map_loop : ℕ → Machine → ℕ → ℕ → ℕ → ℕ → ℕ → Outcome (Bool × Machine)
map_loop zero k pagetable a last pa perm = panic
map_loop (suc n) k pagetable a last pa perm = do
  (mapped, k1) ← map_one k pagetable a pa perm
  elim mapped [
    | false ↦ ok (false, k1)
    | true ↦ elim (a == last) [
      | true ↦ ok (true, k1)
      | false ↦
          map_loop n k1 pagetable ((a + page_size) % 2 ^ 64) last ((pa + page_size) % 2 ^ 64) perm
    ]
  ]

abbrev pub max_pages : ℕ
max_pages = 2 ^ 26

-- `true` for the result 0, `false` for -1.
pub mappages : Machine → ℕ → ℕ → ℕ → ℕ → ℕ → Outcome (Bool × Machine)
mappages k pagetable va size pa perm =
    if size == 0
    then panic
    else map_loop (max_pages + 1) k pagetable (page_down va)
        (page_down ((va + size + 2 ^ 64 - 1) % 2 ^ 64)) pa perm

pub uvmcreate : Machine → ℕ × Machine
uvmcreate k =
    let (pagetable, k1) = kalloc k in
    if pagetable == 0
    then (0, k1)
    else (pagetable, record k1 { bytes = memset k1.bytes pagetable 0 page_size })

module _ (first : ℕ) where
  -- A round of `uvmunmap`.
  pub unmap_one : Machine → ℕ → ℕ → Bool → Outcome Machine
  unmap_one k pagetable a do_free = do
    (found, k1) ← walk k pagetable a false
    elim found [
      | none ↦ panic
      | some pte ↦
          let e = load64 k1.bytes pte in
          let cleared = λ (k : Machine). record k { bytes = store64 k.bytes pte 0 } in
          if not (pte_v e)
          then panic
          else if pte_flags e == 1
          then panic
          else if do_free
          then (do k2 ← kfree first (pte2pa e) k1; ok (cleared k2))
          else ok (cleared k1)
    ]

  pub unmap_loop : ℕ → Machine → ℕ → ℕ → Bool → Outcome Machine
  unmap_loop zero k pagetable a do_free = ok k
  unmap_loop (suc n) k pagetable a do_free = do
    k1 ← unmap_one k pagetable a do_free
    unmap_loop n k1 pagetable (a + page_size) do_free

  pub uvmunmap : Machine → ℕ → ℕ → ℕ → Bool → Outcome Machine
  uvmunmap k pagetable va npages do_free =
      if not (va % page_size == 0) then panic else unmap_loop npages k pagetable va do_free

  -- The loop of `freewalk` over the entries from the `i`th, `n` of them; `free_child` is the
  -- recursive call.
  pub free_entries : (Machine → ℕ → Outcome Machine) → ℕ → ℕ → Machine → ℕ → Outcome Machine
  free_entries free_child zero i k pagetable = ok k
  free_entries free_child (suc n) i k pagetable =
      let pte = load64 k.bytes (pagetable + 8 * i) in
      elim (pte_v pte) [
        | false ↦ free_entries free_child n (i + 1) k pagetable
        | true ↦ elim (pte_rwx pte == 0) [
          | false ↦ panic
          | true ↦ do
            k1 ← free_child k (pte2pa pte)
            free_entries free_child n (i + 1)
                (record k1 { bytes = store64 k1.bytes (pagetable + 8 * i) 0 }) pagetable
        ]
      ]

  -- `depth` bounds the nesting of the calls; past it the kernel stack overflows.
  pub freewalk : ℕ → Machine → ℕ → Outcome Machine
  freewalk zero k pagetable = fault
  freewalk (suc depth) k pagetable = do
    k1 ← free_entries (freewalk depth) 512 0 k pagetable
    kfree first pagetable k1

  -- A table of three levels nests three calls.
  abbrev pub levels : ℕ
  levels = 3

  pub uvmfree : Machine → ℕ → ℕ → Outcome Machine
  uvmfree k pagetable sz = do
    k1 ← (if sz == 0 then ok k else uvmunmap k pagetable 0 (page_up sz / page_size) true)
    freewalk levels k1 pagetable

  -- `proc_pagetable` after the mapping of the trampoline, whose success is `code`.
  pub map_trapframe : ℕ → ℕ → Bool → Machine → Outcome (ℕ × Machine)
  map_trapframe pagetable trapframe false k = do k1 ← uvmfree k pagetable 0; ok (0, k1)
  map_trapframe pagetable trapframe true k = do
    (frame, k1) ← mappages k pagetable trapframe_va page_size trapframe (2 + 4)
    elim frame [
      | true ↦ ok (pagetable, k1)
      | false ↦ do
        k2 ← uvmunmap k1 pagetable trampoline_va 1 false
        k3 ← uvmfree k2 pagetable 0
        ok (0, k3)
    ]

  -- `trampoline` is the address that the linker gives trampoline.S, `trapframe` is `p->trapframe`.
  pub proc_pagetable : ℕ → ℕ → Machine → Outcome (ℕ × Machine)
  proc_pagetable trampoline trapframe k =
      let (pagetable, k1) = uvmcreate k in
      if pagetable == 0 then ok (0, k1) else (do
        (code, k2) ← mappages k1 pagetable trampoline_va page_size trampoline (2 + 8)
        map_trapframe pagetable trapframe code k2)
