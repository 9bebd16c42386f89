-- ===== src/Trap.antt =====
-- The trap-and-emulate hypervisor, kernel/trap-and-emulate.c of assignment 4: the state it keeps
-- for the one virtual machine.
pub mod Handlers
pub mod Tables
pub mod Codes
pub mod Modes
pub mod Returns
pub mod Privilege
pub mod Invariant
pub mod Csr
mod Tests
use advanced_operating_syste.Prelude.{
  ℕ, zero, suc, ◌+◌, ◌-◌, ◌*◌, ◌/◌, ◌%◌, ◌^◌, ◌≤◌, ◌<◌, ◌≡◌, ◌≢◌, refl, sym, ap, subst, ◌∙◌,
  fun_ext, ◌↔◌, ◌⊎◌, inl, inr, Bool, true, false, not, ◌&&◌, ◌||◌, ◌==◌, ltb, leb, if◌then◌else◌,
  bit_and, bit_or, Option, none, some, List, [], ◌∷◌, ◌++◌, map, length, get_elem?, get_or, set,
  take, drop, replicate, Outcome, ok, panic, fault, deref, ◌>>=◌, >>=-eq-ok, arith, Bool-cases,
  Option-cases,
}
use advanced_operating_syste.Alloc.{Machine}

-- `struct vm_reg`
pub record VmReg : Type 0 where
  pub code : ℕ
  pub mode : ℕ
  pub val : ℕ

abbrev pub zero_reg : ℕ → ℕ → VmReg
zero_reg code mode = record { code = code; mode = mode; val = 0 }

-- What `trap_and_emulate_init` writes, in the order of the fields of `struct vm_virtual_state`.
abbrev pub init_regs : List VmReg
init_regs =
    zero_reg 0x100 1
    ∷ zero_reg 0x104 1
    ∷ zero_reg 0x105 1
    ∷ zero_reg 0x106 1
    ∷ zero_reg 0x140 1
    ∷ zero_reg 0x141 1
    ∷ zero_reg 0x142 1
    ∷ zero_reg 0x144 1
    ∷ zero_reg 0x143 1
    ∷ zero_reg 0x180 1
    ∷ record { code = 0xf11; mode = 2; val = 0x637365353336 }
    ∷ zero_reg 0xf12 2
    ∷ zero_reg 0xf13 2
    ∷ zero_reg 0xf14 2
    ∷ zero_reg 0xf15 2
    ∷ zero_reg 0x300 2
    ∷ zero_reg 0x301 2
    ∷ zero_reg 0x302 2
    ∷ zero_reg 0x303 2
    ∷ zero_reg 0x304 2
    ∷ zero_reg 0x305 2
    ∷ zero_reg 0x306 2
    ∷ zero_reg 0x310 2
    ∷ zero_reg 0x340 2
    ∷ zero_reg 0x341 2
    ∷ zero_reg 0x342 2
    ∷ zero_reg 0x343 2
    ∷ zero_reg 0x344 2
    ∷ zero_reg 0x34a 2
    ∷ zero_reg 0x34b 2
    ∷ zero_reg 0x3a0 0
    ∷ zero_reg 0x3b0 0
    ∷ zero_reg 0x3b1 0
    ∷ zero_reg 0x3b2 0
    ∷ zero_reg 0x3b3 0
    ∷ []

-- `struct vm_virtual_state`. The 31 register fields and the four of `pmpaddr` are one list, as
-- `get_vm_reg` reads them. Modes: 0 user, 1 supervisor, 2 machine.
pub record VmState : Type 0 where
  pub regs : List VmReg
  pub old_ptable : ℕ
  pub new_ptable : ℕ
  pub current_mode : ℕ
  pub pmp_configuration : ℕ

-- The places of `pmpcfg0` and of `pmpaddr[0]` in the list.
abbrev pub pmpcfg0_at : ℕ
pmpcfg0_at = 30

abbrev pub pmpaddr_at : ℕ
pmpaddr_at = 31

abbrev pub vm_init : VmState
vm_init = record {
  regs = init_regs;
  old_ptable = 0;
  new_ptable = 0;
  current_mode = 2;
  pmp_configuration = 0;
}

-- What a `struct vm_reg *` points to. `sizeof(vm_state) / sizeof(struct vm_reg)` is 36: behind the
-- 35 registers the scan takes the two page-table pointers for one more.
pub data RegRef : Type 0 where
  cell : ℕ → RegRef
  ptables : RegRef

unfoldable pub find_reg : List VmReg → ℕ → ℕ → Option ℕ
find_reg [] csr i = none
find_reg (r ∷ rs) csr i =
    let rest = find_reg rs csr (i + 1) in if r.code == csr then some i else rest

unfoldable pub get_vm_reg : VmState → ℕ → Option RegRef
get_vm_reg v csr = elim (find_reg v.regs csr 0) [
  | some i ↦ some (cell i)
  | none ↦ if v.old_ptable % 2 ^ 32 == csr then some ptables else none
]

abbrev pub no_reg : VmReg
no_reg = zero_reg 0 0

unfoldable pub reg_val : VmState → RegRef → ℕ
reg_val v (cell i) = (get_or v.regs i no_reg).val
reg_val v ptables = v.new_ptable

unfoldable pub set_val : VmState → RegRef → ℕ → VmState
set_val v (cell i) x = record v {
  regs = set v.regs i (record (get_or v.regs i no_reg) { val = x });
}
set_val v ptables x = record v { new_ptable = x }

-- `reg->mode <= vm_state.current_mode`, between signed 32-bit numbers.
pub allowed : VmState → RegRef → Bool
allowed v (cell i) = leb (get_or v.regs i no_reg).mode v.current_mode
allowed v ptables =
    let mode = v.old_ptable / 2 ^ 32 % 2 ^ 32 in leb (2 ^ 31) mode || leb mode v.current_mode

-- The fields of `struct proc` that the hypervisor reads and writes. `frame` is the trapframe as its
-- 36 words, `trapframe` the page that holds it.
pub record Proc : Type 0 where
  pub killed : Bool
  pub sz : ℕ
  pub pagetable : ℕ
  pub trapframe : ℕ
  pub frame : List ℕ

-- The word `epc`; `(&ra)[x - 1]` is the word 4 + x.
abbrev pub epc_at : ℕ
epc_at = 3

abbrev pub gpr_at : ℕ → ℕ
gpr_at x = 4 + x

abbrev pub get_epc : Proc → ℕ
get_epc p = get_or p.frame epc_at 0

abbrev pub set_epc : Proc → ℕ → Proc
set_epc p a = record p { frame = set p.frame epc_at a }

pub record Sys : Type 0 where
  pub vm : VmState
  pub p : Proc
  pub mem : Machine

-- `setkilled(p); trap_and_emulate_init();`
abbrev pub kill_vm : Sys → Sys
kill_vm s = record s { vm = vm_init; p = record (s.p) { killed = true } }

-- `switch_page_table`
pub switch_page_table : Sys → Sys
switch_page_table s = record s { p = record (s.p) { pagetable = s.vm.old_ptable } }
