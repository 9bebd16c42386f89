-- ===== src/Trap/Csr.antt =====
-- The guest's reads and writes of control registers.
use advanced_operating_syste.Prelude.{
  ℕ, ◌%◌, ◌^◌, ◌≤◌, ◌<◌, ◌≡◌, ◌≢◌, refl, ap, ◌∙◌, true, ◌==◌, leb, if◌then◌else◌, none, some,
  get_or, set, ok, fault, arith, get_or-set_self, get_or-set_ne, length-set,
}
use advanced_operating_syste.Trap.{
  VmState, Sys, RegRef, cell, ptables, init_regs, get_vm_reg, reg_val, set_val, allowed, kill_vm,
  gpr_at,
}
use advanced_operating_syste.Trap.Codes.{
  IsValid, set_val-IsValid, reg_val-set_val, modes, codes, allowed-cell, find_valid, find_code,
  get_vm_reg-some,
}
use advanced_operating_syste.Trap.Handlers.{write_csr, handle_csrw, handle_csrr, is_pmp_csr, skip}
use advanced_operating_syste.Trap.Modes.{HasFrame}
use advanced_operating_syste.Trap.Privilege.{set_val_mode}

-- The register with number `csr` is the `i`th of the table, and asks for the mode `m`.
abbrev pub IsCsr : ℕ → ℕ → ℕ → Type 0
IsCsr csr i m =
    (find_code (codes init_regs) csr 0 ≡ some i) × (get_or (modes init_regs) i 0 ≡ m) × (i < 35)

allowed_csr :
    {v : VmState} (i m : ℕ)
    → IsValid v
    → get_or (modes init_regs) i 0 ≡ m
    → allowed v (cell i) ≡ leb m v.current_mode
allowed_csr {v} i m w e = allowed-cell i w ∙ ap (λ k. leb k v.current_mode) e

write_csr-allowed :
    (s : Sys) (csr i m x : ℕ)
    → IsValid s.vm
    → IsCsr csr i m
    → m ≤ s.vm.current_mode
    → write_csr s csr x ≡ record s { vm = set_val s.vm (cell i) x }
unfolding write_csr
write_csr-allowed s csr i m x w c h =
    rw (get_vm_reg-some csr i w c.0, write_csr) (ground (arith, allowed_csr i m w c.1))

write_csr-refused :
    (s : Sys) (csr i m x : ℕ)
    → IsValid s.vm
    → IsCsr csr i m
    → s.vm.current_mode < m
    → write_csr s csr x ≡ kill_vm s
unfolding write_csr
write_csr-refused s csr i m x w c h =
    rw (get_vm_reg-some csr i w c.0, write_csr) (ground (arith, allowed_csr i m w c.1))

-- A write from too low a mode kills the process and resets every register.
pub csrw_refused :
    (s : Sys) (rs1 csr i m : ℕ)
    → IsValid s.vm
    → IsCsr csr i m
    → s.vm.current_mode < m
    → ((handle_csrw s rs1 csr).p.killed ≡ true) × ((handle_csrw s rs1 csr).vm.regs ≡ init_regs)
unfolding handle_csrw
csrw_refused s rs1 csr i m w c h =
    let e = write_csr-refused s csr i m (get_or s.p.frame (gpr_at rs1) 0) w c h in
    (ap (λ (t : Sys). t.p.killed) e, ap (λ (t : Sys). t.vm.regs) e)

-- What a permitted csrr and a permitted csrw come to.
abbrev fetched : Sys → ℕ → ℕ → Sys
fetched s rd i =
    skip
      (record s { p = record (s.p) { frame = set s.p.frame (gpr_at rd) (reg_val s.vm (cell i)) } })

abbrev written : Sys → ℕ → ℕ → ℕ → Sys
written s rs1 csr i =
    let v = set_val s.vm (cell i) (get_or s.p.frame (gpr_at rs1) 0) in
    let conf = if is_pmp_csr csr then 1 else v.pmp_configuration in
    skip (record s { vm = record v { pmp_configuration = conf } })

csrr-allowed :
    (s : Sys) (rd csr i m : ℕ)
    → IsValid s.vm
    → IsCsr csr i m
    → m ≤ s.vm.current_mode
    → handle_csrr s rd csr ≡ ok (fetched s rd i)
unfolding handle_csrr
csrr-allowed s rd csr i m w c h = rw (get_vm_reg-some csr i w c.0) (rw (may) refl)
  where
    may : allowed s.vm (cell i) ≡ true
    may = allowed_csr i m w c.1 ∙ ground arith

csrw-allowed :
    (s : Sys) (rs1 csr i m : ℕ)
    → IsValid s.vm
    → IsCsr csr i m
    → m ≤ s.vm.current_mode
    → handle_csrw s rs1 csr ≡ written s rs1 csr i
unfolding handle_csrw
csrw-allowed s rs1 csr i m w c h =
    ap
      (λ t. skip (record t {
        vm = record (t.vm) {
          pmp_configuration = if is_pmp_csr csr then 1 else t.vm.pmp_configuration;
        };
      }))
      (write_csr-allowed s csr i m (get_or s.p.frame (gpr_at rs1) 0) w c h)

-- The general register that a csrr writes.
fetched_gpr :
    (s : Sys) (rd i : ℕ)
    → HasFrame s.p
    → rd < 32
    → get_or (fetched s rd i).p.frame (gpr_at rd) 0 ≡ reg_val s.vm (cell i)
fetched_gpr s rd i f h =
    get_or-set_ne (set s.p.frame (gpr_at rd) (reg_val s.vm (cell i))) 3 (gpr_at rd) _ 0
      (omega arith)
    ∙ get_or-set_self s.p.frame (gpr_at rd) (reg_val s.vm (cell i)) 0 (omega (arith, f))

reg_val_conf :
    (v : VmState) (r : RegRef) (c : ℕ)
    → reg_val (record v { pmp_configuration = c }) r ≡ reg_val v r
unfolding reg_val
reg_val_conf v (cell i) c = refl
reg_val_conf v ptables c = refl

-- A control register after a permitted csrw.
written_val :
    (s : Sys) (rs1 csr i j : ℕ)
    → IsValid s.vm
    → i < 35
    → reg_val (written s rs1 csr i).vm (cell j)
      ≡ (if i == j then get_or s.p.frame (gpr_at rs1) 0 else reg_val s.vm (cell j))
written_val s rs1 csr i j w h =
    reg_val_conf _ (cell j) _ ∙ reg_val-set_val i j (get_or s.p.frame (gpr_at rs1) 0) w h

written-IsValid : (s : Sys) (rs1 csr i : ℕ) → IsValid s.vm → IsValid (written s rs1 csr i).vm
written-IsValid s rs1 csr i w =
    let v = set_val-IsValid (cell i) (get_or s.p.frame (gpr_at rs1) 0) w in
    record { same_codes = v.same_codes; same_modes = v.same_modes; three_modes = v.three_modes }

-- A csrw followed by a csrr of the same register, from a mode that may use it, moves the value from
-- general register `rs1` to `rd` (from x0 the code takes the word before `ra`) and leaves every other control register alone.
pub csrr-csrw :
    (s : Sys) (rs1 rd csr i m : ℕ)
    → IsValid s.vm
    → HasFrame s.p
    → IsCsr csr i m
    → m ≤ s.vm.current_mode
    → rd < 32
    → (s' : Sys) × (handle_csrr (handle_csrw s rs1 csr) rd csr ≡ ok s')
      × (get_or s'.p.frame (gpr_at rd) 0 ≡ get_or s.p.frame (gpr_at rs1) 0)
      × ((j : ℕ) → j ≢ i → reg_val s'.vm (cell j) ≡ reg_val s.vm (cell j))
csrr-csrw s rs1 rd csr i m w f c h hrd = (
  fetched t rd i,
  ap (λ x. handle_csrr x rd csr) (csrw-allowed s rs1 csr i m w c h)
      ∙ csrr-allowed t rd csr i m (written-IsValid s rs1 csr i w) c
          (omega (arith, set_val_mode s.vm (cell i) (get_or s.p.frame (gpr_at rs1) 0))),
  fetched_gpr t rd i (length-set s.p.frame 3 _ ∙ f) hrd
      ∙ (written_val s rs1 csr i i w c.2 ∙ ground arith),
  λ j ne. written_val s rs1 csr i j w c.2 ∙ ground arith,
)
  where
    t : Sys
    t = written s rs1 csr i

-- A csrr of a number that is no register of the table follows a null pointer: no check stands
-- before `privileged_inst->mode`.
pub csrr_unknown :
    (s : Sys) (rd csr : ℕ)
    → IsValid s.vm
    → find_code (codes init_regs) csr 0 ≡ none
    → s.vm.old_ptable % 2 ^ 32 ≢ csr
    → handle_csrr s rd csr ≡ fault
unfolding handle_csrr get_vm_reg
csrr_unknown s rd csr w e ne = ground (arith, find_valid csr w)

-- With `rd` = x0 the value goes to the word before `ra`: the guest overwrites `kernel_hartid`, the
-- kernel's own word of the trapframe.
pub csrr_hartid :
    (s : Sys) (csr i m : ℕ)
    → IsValid s.vm
    → HasFrame s.p
    → IsCsr csr i m
    → m ≤ s.vm.current_mode
    → (s' : Sys) × (handle_csrr s 0 csr ≡ ok s') × (get_or s'.p.frame 4 0 ≡ reg_val s.vm (cell i))
csrr_hartid s csr i m w f c h =
    (fetched s 0 i, csrr-allowed s 0 csr i m w c h, fetched_gpr s 0 i f (omega arith))
