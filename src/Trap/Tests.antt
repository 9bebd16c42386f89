-- ===== src/Trap/Tests.antt =====
-- Runs of the hypervisor, and its theorems at concrete guests.
use advanced_operating_syste.Prelude.{
  ℕ, ◌≤◌, ◌≡◌, ◌≢◌, refl, true, false, ◌==◌, if◌then◌else◌, get_or, set, replicate, ok, arith,
}
use advanced_operating_syste.Memory.{load}
use advanced_operating_syste.Paging.{walkaddr}
use advanced_operating_syste.Trap.{
  Sys, cell, vm_init, init_regs, get_vm_reg, reg_val, get_epc, find_reg,
}
use advanced_operating_syste.Trap.Codes.{IsValid, find_code}
use advanced_operating_syste.Trap.Handlers.{
  handle_ecall, handle_sret, enter_mode, handle_csrw, handle_csrr, prepare, dispatch,
  trap_and_emulate,
}
use advanced_operating_syste.Trap.Modes.{Entered, entered, ecall_user, ecall_supervisor}
use advanced_operating_syste.Trap.Returns.{ecall-sret}
use advanced_operating_syste.Trap.Privilege.{Safe}
use advanced_operating_syste.Trap.Invariant.{trap_and_emulate-Safe}
use advanced_operating_syste.Trap.Csr.{IsCsr, csrw_refused, csrr-csrw, csrr_hartid}

-- A guest in the given mode, with the pc at 0x100 and x7 holding 77; at 0x100 stands an ecall.
abbrev guest : ℕ → Sys
guest mode = record {
  vm = record vm_init { current_mode = mode };
  p = record {
    killed = false;
    sz = 0;
    pagetable = 0;
    trapframe = 0x8700_0000;
    frame = set (set (replicate 36 0) 3 0x100) 11 77;
  };
  mem = record { bytes = λ a. if a == 0x100 then 0x73 else 0; freelist = 0 };
}

abbrev guest-IsValid : (mode : ℕ) → mode ≤ 2 → IsValid (guest mode).vm
guest-IsValid mode h = record { same_codes = refl; same_modes = refl; three_modes = h }

ecall_user_example :
    (s' : Sys) × (handle_ecall (guest 0) ≡ ok s')
    × Entered (guest 0) s' 5 2 1
    × (s'.p.pagetable ≡ 0)
ecall_user_example = ecall_user (guest 0) (guest-IsValid 0 (omega arith)) refl refl

ecall_supervisor_example :
    (s' : Sys) × (handle_ecall (guest 1) ≡ ok s')
    × Entered (guest 1) s' 24 20 2
    × (s'.p.pagetable ≡ 0)
ecall_supervisor_example = ecall_supervisor (guest 1) (guest-IsValid 1 (omega arith)) refl refl

ecall-sret_example :
    (s1 : Sys) × (s2 : Sys) × (handle_ecall (guest 0) ≡ ok s1)
    × (handle_sret s1 ≡ ok s2)
    × (s2.vm.current_mode ≡ 0)
    × (get_epc s2.p ≡ 0x100)
unfolding reg_val
ecall-sret_example = ecall-sret (guest 0) (guest-IsValid 0 (omega arith)) refl refl refl

-- The trap that fetches and handles the guest's ecall.
trap_ecall : trap_and_emulate 0x8002_1000 0x8002_0000 0x100 (guest 0) ≡ ok (entered (guest 0) 5 2 1)
unfolding trap_and_emulate prepare dispatch handle_ecall enter_mode walkaddr load get_vm_reg
    find_reg
trap_ecall = refl

trap_and_emulate-Safe_example : Safe (guest 0) (entered (guest 0) 5 2 1)
trap_and_emulate-Safe_example =
    trap_and_emulate-Safe 0x8002_1000 0x8002_0000 0x100 (guest 0) (guest-IsValid 0 (omega arith))
      refl trap_ecall

-- stvec is the third register, for supervisor mode; mepc is the 25th, for machine mode.
stvec-IsCsr : IsCsr 0x105 2 1
unfolding find_code
stvec-IsCsr = (refl, refl, omega arith)

mepc-IsCsr : IsCsr 0x341 24 2
unfolding find_code
mepc-IsCsr = (refl, refl, omega arith)

csrw_refused_example :
    ((handle_csrw (guest 1) 7 0x341).p.killed ≡ true)
    × ((handle_csrw (guest 1) 7 0x341).vm.regs ≡ init_regs)
csrw_refused_example =
    csrw_refused (guest 1) 7 0x341 24 2 (guest-IsValid 1 (omega arith)) mepc-IsCsr (omega arith)

csrr-csrw_example :
    (s' : Sys) × (handle_csrr (handle_csrw (guest 1) 7 0x105) 9 0x105 ≡ ok s')
    × (get_or s'.p.frame 13 0 ≡ 77)
    × ((j : ℕ) → j ≢ 2 → reg_val s'.vm (cell j) ≡ reg_val (guest 1).vm (cell j))
csrr-csrw_example =
    csrr-csrw (guest 1) 7 9 0x105 2 1 (guest-IsValid 1 (omega arith)) refl stvec-IsCsr (omega arith)
      (omega arith)

csrr_hartid_example :
    (s' : Sys) × (handle_csrr (guest 1) 0 0x105 ≡ ok s')
    × (get_or s'.p.frame 4 0 ≡ reg_val (guest 1).vm (cell 2))
csrr_hartid_example =
    csrr_hartid (guest 1) 0x105 2 1 (guest-IsValid 1 (omega arith)) refl stvec-IsCsr (omega arith)
