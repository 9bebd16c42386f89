-- ===== src/Trap/Handlers.antt =====
-- The handlers of kernel/trap-and-emulate.c, each from the state at its call to the state at its
-- return. `printf` is left out.
use advanced_operating_syste.Prelude.{
  ℕ, ◌+◌, ◌*◌, ◌/◌, ◌%◌, ◌^◌, Bool, not, ◌&&◌, ◌||◌, ◌==◌, ltb, leb, if◌then◌else◌, bit_or, none,
  some, get_or, set, Outcome, ok, deref, ◌>>=◌,
}
use advanced_operating_syste.Memory.{load}
use advanced_operating_syste.Paging.{walkaddr}
use advanced_operating_syste.Trap.{
  VmState, Sys, RegRef, get_vm_reg, reg_val, set_val, allowed, gpr_at, get_epc, set_epc, kill_vm,
}
use advanced_operating_syste.Trap.Tables.{vm_pagetable, enforce_pmp}

-- `get_vm_reg(csr)` where the code follows the pointer at once.
abbrev pub csr_ref : VmState → ℕ → Outcome RegRef
csr_ref v csr = deref (get_vm_reg v csr)

-- A trap from mode `from` to the next: save the pc in the register `epc_csr` and go on at the
-- register `tvec_csr`. The status register is read and a new value computed, but never stored, so
-- only the pointer to it is followed here.
unfoldable pub enter_mode : Sys → ℕ → ℕ → ℕ → ℕ → Outcome Sys
enter_mode s epc_csr status_csr tvec_csr mode = do
  epc_reg ← csr_ref s.vm epc_csr
  status_reg ← csr_ref s.vm status_csr
  tvec_reg ← csr_ref s.vm tvec_csr
  let v = record (set_val s.vm epc_reg (get_epc s.p)) { current_mode = mode }
  ok (record s { vm = v; p = set_epc s.p (reg_val v tvec_reg) })

unfoldable pub handle_ecall : Sys → Outcome Sys
handle_ecall s =
    if s.vm.current_mode == 0
    then enter_mode s 0x141 0x100 0x105 1
    else if s.vm.current_mode == 1
    then (do
      s1 ← enter_mode s 0x341 0x300 0x305 2
      ok (record s1 { p = record (s1.p) { pagetable = s1.vm.old_ptable } }))
    else ok (kill_vm s)

-- `sstatus |= (spie << 1); sstatus |= (1 << 5);`, and the same shape in mstatus.
abbrev pub restore_ie : ℕ → ℕ → ℕ → ℕ
restore_ie status pie ie = bit_or (bit_or status (status / 2 ^ pie % 2 * 2 ^ ie)) (2 ^ pie)

unfoldable pub handle_sret : Sys → Outcome Sys
handle_sret s =
    if s.vm.current_mode == 1
    then (do
      sstatus_reg ← csr_ref s.vm 0x100
      sepc_reg ← csr_ref s.vm 0x141
      let sstatus = reg_val s.vm sstatus_reg
      let spp = sstatus / 2 ^ 8 % 2
      let mode = if ltb spp 1 then spp else s.vm.current_mode
      let v = record (set_val s.vm sstatus_reg (restore_ie sstatus 5 1)) { current_mode = mode }
      ok (record s { vm = v; p = set_epc s.p (reg_val v sepc_reg) }))
    else let p = record (s.p) { pagetable = s.vm.old_ptable } in ok (kill_vm (record s { p = p }))

-- `handle_mret` up to the test of `pmp_configuration`.
unfoldable pub leave_machine : Sys → Outcome Sys
leave_machine s =
    if leb 2 s.vm.current_mode
    then (do
      mstatus_reg ← csr_ref s.vm 0x300
      mepc_reg ← csr_ref s.vm 0x341
      let mstatus = reg_val s.vm mstatus_reg
      let mpp = mstatus / 2 ^ 11 % 4
      let mode = if ltb mpp 2 then mpp else s.vm.current_mode
      let v = record (set_val s.vm mstatus_reg (restore_ie mstatus 7 3)) { current_mode = mode }
      ok (record s { vm = v; p = set_epc s.p (reg_val v mepc_reg) }))
    else ok (kill_vm s)

abbrev pub is_pmp_csr : ℕ → Bool
is_pmp_csr c = c == 0x3a0 || c == 0x3b0 || c == 0x3b1 || c == 0x3b2 || c == 0x3b3

-- `p->trapframe->epc += 4`
abbrev pub skip : Sys → Sys
skip s = record s { p = set_epc s.p ((get_epc s.p + 4) % 2 ^ 64) }

-- The write of a control register, before the two statements at the end of `handle_csrw`.
unfoldable pub write_csr : Sys → ℕ → ℕ → Sys
write_csr s csr x = elim (get_vm_reg s.vm csr) [
  | none ↦ kill_vm s
  | some r ↦ if allowed s.vm r then record s { vm = set_val s.vm r x } else kill_vm s
]

unfoldable pub handle_csrw : Sys → ℕ → ℕ → Sys
handle_csrw s rs1 uimm =
    let s1 = write_csr s uimm (get_or s.p.frame (gpr_at rs1) 0) in
    let conf = if is_pmp_csr uimm then 1 else s1.vm.pmp_configuration in
    skip (record s1 { vm = record (s1.vm) { pmp_configuration = conf } })

unfoldable pub handle_csrr : Sys → ℕ → ℕ → Outcome Sys
handle_csrr s rd uimm = do
  r ← csr_ref s.vm uimm
  ok (
      skip (
        if allowed s.vm r
        then record s { p = record (s.p) { frame = set s.p.frame (gpr_at rd) (reg_val s.vm r) } }
        else kill_vm s))

module _ (first trampoline : ℕ) where
  unfoldable pub handle_mret : Sys → Outcome Sys
  handle_mret s = do s1 ← leave_machine s; enforce_pmp first trampoline s1

  -- The switch on `funct3`, for an instruction word.
  unfoldable pub dispatch : Sys → ℕ → Outcome Sys
  dispatch s instruction =
      let rd = instruction / 2 ^ 7 % 2 ^ 5 in
      let funct3 = instruction / 2 ^ 12 % 2 ^ 3 in
      let rs1 = instruction / 2 ^ 15 % 2 ^ 5 in
      let uimm = instruction / 2 ^ 20 % 2 ^ 12 in
      if funct3 == 0
      then (if uimm == 0x102
          then handle_sret s
          else (if uimm == 0x302 then handle_mret s else handle_ecall s))
      else (if funct3 == 1
          then ok (handle_csrw s rs1 uimm)
          else (if funct3 == 2 then handle_csrr s rd uimm else ok s))

  -- The first statement of `trap_and_emulate`: the unrestricted page table, made once.
  unfoldable pub prepare : Sys → Outcome Sys
  prepare s =
      if s.vm.old_ptable == 0 && not (s.p.pagetable == 0)
      then (do
        (table, k) ← vm_pagetable first trampoline s
        ok (record s { vm = record (s.vm) { old_ptable = table }; mem = k }))
      else ok s

  -- `sepc` is the register that holds the address of the trapping instruction.
  unfoldable pub trap_and_emulate : ℕ → Sys → Outcome Sys
  trap_and_emulate sepc s = do
    s1 ← prepare s
    let paddr = bit_or (walkaddr s1.mem s1.p.pagetable sepc) (sepc % 2 ^ 12)
    dispatch s1 (load 4 s1.mem.bytes paddr)
