-- ===== src/Trap/Returns.antt =====
-- The returns from a trap, sret and mret.
use advanced_operating_syste.Prelude.{
  ℕ, ◌/◌, ◌%◌, ◌^◌, ◌≤◌, ◌<◌, ◌≡◌, ◌≢◌, ◌∙◌, ltb, if◌then◌else◌, ok, arith,
}
use advanced_operating_syste.Trap.{Sys, cell, reg_val, set_val, get_epc, set_epc, kill_vm}
use advanced_operating_syste.Trap.Codes.{
  IsValid, reg_val-set_val, sstatus_ref, sepc_ref, mstatus_ref, mepc_ref,
}
use advanced_operating_syste.Trap.Handlers.{handle_ecall, handle_sret, leave_machine, restore_ie}
use advanced_operating_syste.Trap.Modes.{HasFrame, epc-set_epc, ecall_user, reg_val_mode}

-- The state after a return that sets the status register `i` to `status` and takes the pc from
-- register `j`.
abbrev pub left : Sys → ℕ → ℕ → ℕ → ℕ → Sys
left s i j status mode =
    let v = record (set_val s.vm (cell i) status) { current_mode = mode } in
    record s { vm = v; p = set_epc s.p (reg_val v (cell j)) }

abbrev pub sret_mode : Sys → ℕ
sret_mode s =
    let spp = reg_val s.vm (cell 0) / 2 ^ 8 % 2 in if ltb spp 1 then spp else s.vm.current_mode

abbrev pub mret_mode : Sys → ℕ
mret_mode s =
    let mpp = reg_val s.vm (cell 15) / 2 ^ 11 % 4 in if ltb mpp 2 then mpp else s.vm.current_mode

pub sret_supervisor :
    (s : Sys)
    → IsValid s.vm
    → s.vm.current_mode ≡ 1
    → handle_sret s ≡ ok (left s 0 5 (restore_ie (reg_val s.vm (cell 0)) 5 1) (sret_mode s))
unfolding handle_sret
sret_supervisor s w m = ground (arith, sstatus_ref w, sepc_ref w)

pub mret_machine :
    (s : Sys)
    → IsValid s.vm
    → s.vm.current_mode ≡ 2
    → leave_machine s ≡ ok (left s 15 24 (restore_ie (reg_val s.vm (cell 15)) 7 3) (mret_mode s))
unfolding leave_machine
mret_machine s w m = ground (arith, mstatus_ref w, mepc_ref w)

pub sret_elsewhere :
    (s : Sys)
    → s.vm.current_mode ≢ 1
    → handle_sret s ≡ ok (kill_vm (record s { p = record (s.p) { pagetable = s.vm.old_ptable } }))
unfolding handle_sret
sret_elsewhere s m = ground arith

pub mret_elsewhere : (s : Sys) → s.vm.current_mode < 2 → leave_machine s ≡ ok (kill_vm s)
unfolding leave_machine
mret_elsewhere s m = ground arith

-- Neither return leads to a higher mode.
pub sret_mode-le : (s : Sys) → sret_mode s ≤ s.vm.current_mode
sret_mode-le s = ground arith

pub mret_mode-le : (s : Sys) → s.vm.current_mode ≡ 2 → mret_mode s ≤ s.vm.current_mode
mret_mode-le s m = ground arith

pub epc-left :
    (s : Sys) (i j status mode : ℕ)
    → IsValid s.vm
    → HasFrame s.p
    → i < 35
    → i ≢ j
    → get_epc (left s i j status mode).p ≡ reg_val s.vm (cell j)
epc-left s i j status mode w f hi ne =
    epc-set_epc s.p _ f ∙ (reg_val_mode _ _ mode ∙ (reg_val-set_val i j status w hi ∙ ground arith))

-- A system call of the guest and back: with SPP clear in sstatus, an ecall from user mode followed
-- by an sret ends in user mode at the pc of the ecall.
pub ecall-sret :
    (s : Sys)
    → IsValid s.vm
    → HasFrame s.p
    → s.vm.current_mode ≡ 0
    → reg_val s.vm (cell 0) / 2 ^ 8 % 2 ≡ 0
    → (s1 : Sys) × (s2 : Sys) × (handle_ecall s ≡ ok s1)
      × (handle_sret s1 ≡ ok s2)
      × (s2.vm.current_mode ≡ 0)
      × (get_epc s2.p ≡ get_epc s.p)
ecall-sret s w f m spp =
    let (s1, called, e, _) = ecall_user s w f m in
    (
      s1,
      left s1 0 5 (restore_ie (reg_val s1.vm (cell 0)) 5 1) (sret_mode s1),
      called,
      sret_supervisor s1 e.still e.mode_set,
      ground (arith, e.others 0 (omega arith)),
      epc-left s1 0 5 _ _ e.still e.framed (omega arith) (omega arith) ∙ e.pc_saved,
    )
