-- ===== src/Trap/Invariant.antt =====
-- Every trap of the guest keeps the register table and moves the mode only as the privilege rules
-- of `Privilege` say; a guest writes no register above its mode.
use advanced_operating_syste.Prelude.{
  ℕ, ◌+◌, ◌/◌, ◌%◌, ◌^◌, ◌≤◌, ◌≡◌, refl, sym, ap, subst, ◌∙◌, ◌⊎◌, inl, inr, true, ◌==◌,
  if◌then◌else◌, length, get_or, set, ok, >>=-eq-ok, arith, if_cases, ok-injective, Bool-cases,
  Option-cases, length-set,
}
use advanced_operating_syste.Trap.{
  no_reg, VmState, Sys, RegRef, cell, init_regs, get_vm_reg, reg_val, allowed, kill_vm, gpr_at,
}
use advanced_operating_syste.Trap.Codes.{IsValid, set_val-IsValid, modes, codes}
use advanced_operating_syste.Trap.Tables.{enforce_pmp}
use advanced_operating_syste.Trap.Handlers.{
  leave_machine, write_csr, handle_csrw, handle_csrr, prepare, handle_mret, dispatch,
  trap_and_emulate, is_pmp_csr,
}
use advanced_operating_syste.Trap.Modes.{HasFrame}
use advanced_operating_syste.Trap.Privilege.{
  Moved, vector_above, Safe, killed-Safe, ecall-Safe, sret-Safe, leave-Safe, set_val_mode,
  skip-Safe,
}

abbrev Settled : Sys → Sys → Type 0
Settled s t =
    t.vm.current_mode ≤ s.vm.current_mode ⊎ ((t.p.killed ≡ true) × (t.vm.regs ≡ init_regs))

write-Safe :
    (s : Sys) (csr x : ℕ)
    → IsValid s.vm
    → HasFrame s.p
    → Safe s (write_csr s csr x) × Settled s (write_csr s csr x)
unfolding write_csr
write-Safe s csr x w f = elim (Option-cases (get_vm_reg s.vm csr)) [
  | inl none_there ↦
      rw (none_there, write_csr)
        (killed-Safe s (record (s.p) { killed = true }) f refl, inr (refl, refl))
  | inr (r, e) ↦ elim (Bool-cases (allowed s.vm r)) [
    | inl may ↦
        rw (e, write_csr, may)
          (
            record {
              valid = set_val-IsValid r x w;
              framed = f;
              moved = inr (inl (omega (arith, set_val_mode s.vm r x)));
            },
            inl (omega (arith, set_val_mode s.vm r x)),
          )
    | inr not_may ↦
        rw (e, write_csr, not_may)
          (killed-Safe s (record (s.p) { killed = true }) f refl, inr (refl, refl))
  ]
]

conf-Safe :
    (s t : Sys) (c : ℕ)
    → Safe s t
    → Safe s (record t { vm = record (t.vm) { pmp_configuration = c } })
conf-Safe s t c h = record {
  valid = record {
    same_codes = h.valid.same_codes;
    same_modes = h.valid.same_modes;
    three_modes = h.valid.three_modes;
  };
  framed = h.framed;
  moved = h.moved;
}

csrw-Safe : (s : Sys) (rs1 uimm : ℕ) → IsValid s.vm → HasFrame s.p → Safe s (handle_csrw s rs1 uimm)
unfolding handle_csrw
csrw-Safe s rs1 uimm w f =
    let t = write_csr s uimm (get_or s.p.frame (gpr_at rs1) 0) in
    let (h, settled) = write-Safe s uimm (get_or s.p.frame (gpr_at rs1) 0) w f in
    let c = if is_pmp_csr uimm then 1 else t.vm.pmp_configuration in
    skip-Safe s (record t { vm = record (t.vm) { pmp_configuration = c } }) (conf-Safe s t c h)
      settled

read_state : Sys → ℕ → RegRef → Sys
read_state s rd r =
    if allowed s.vm r
    then record s { p = record (s.p) { frame = set s.p.frame (gpr_at rd) (reg_val s.vm r) } }
    else kill_vm s

read-Safe :
    (s : Sys) (rd : ℕ) (r : RegRef)
    → IsValid s.vm
    → HasFrame s.p
    → Safe s (read_state s rd r) × Settled s (read_state s rd r)
unfolding read_state
read-Safe s rd r w f = elim (Bool-cases (allowed s.vm r)) [
  | inl may ↦ rw may (
    record {
      valid = w;
      framed = length-set s.p.frame (gpr_at rd) (reg_val s.vm r) ∙ f;
      moved = inr (inl (omega arith));
    },
    inl (omega arith),
  )
  | inr not_may ↦
      rw not_may (killed-Safe s (record (s.p) { killed = true }) f refl, inr (refl, refl))
]

csrr-Safe :
    (s : Sys) (rd uimm : ℕ) {s' : Sys}
    → IsValid s.vm
    → HasFrame s.p
    → handle_csrr s rd uimm ≡ ok s'
    → Safe s s'
unfolding handle_csrr read_state
csrr-Safe s rd uimm w f e = elim (Option-cases (get_vm_reg s.vm uimm)) [
  | inl none_there ↦ absurd (cc (rw none_there at e))
  | inr (r, found) ↦
      let (h, settled) = read-Safe s rd r w f in
      subst (λ x. Safe s x) (cc (rw found at e)) (skip-Safe s (read_state s rd r) h settled)
]

-- `enforce_pmp` changes page tables only.
enforce-keeps :
    (first trampoline : ℕ) (s : Sys) {s' : Sys}
    → enforce_pmp first trampoline s ≡ ok s'
    → (s'.vm.regs ≡ s.vm.regs)
      × (s'.vm.current_mode ≡ s.vm.current_mode)
      × (s'.p.frame ≡ s.p.frame)
      × (s'.p.killed ≡ s.p.killed)
unfolding enforce_pmp
enforce-keeps first trampoline s e = ground arith

enforce-Safe :
    (first trampoline : ℕ) (s t : Sys) {t' : Sys}
    → enforce_pmp first trampoline t ≡ ok t'
    → Safe s t
    → Safe s t'
enforce-Safe first trampoline s t {t'} e h =
    let (regs, mode, frame, dead) = enforce-keeps first trampoline t e in
    record {
      valid = record {
        same_codes = ap (λ rs. codes rs) regs ∙ h.valid.same_codes;
        same_modes = ap (λ rs. modes rs) regs ∙ h.valid.same_modes;
        three_modes = omega (arith, mode, h.valid.three_modes);
      };
      framed = ap length frame ∙ h.framed;
      moved =
          subst
            (λ x.
              ((t'.p.killed ≡ true) × (t'.vm.regs ≡ init_regs))
              ⊎ ((t'.vm.current_mode ≤ s.vm.current_mode)
                  ⊎ ((t'.vm.current_mode ≡ s.vm.current_mode + 1)
                      × (x ≡ reg_val s.vm (cell (vector_above s.vm.current_mode))))))
            (ap (λ fr. get_or fr 3 0) (sym frame)) (ground (arith, h.moved));
    }

reg_val_regs :
    (v v' : VmState) → v.regs ≡ v'.regs → (i : ℕ) → reg_val v (cell i) ≡ reg_val v' (cell i)
unfolding reg_val
reg_val_regs v v' e i = ap (λ rs. (get_or rs i no_reg).val) e

module _ (first trampoline : ℕ) where
  mret-Safe :
      (s : Sys) {s' : Sys}
      → IsValid s.vm
      → HasFrame s.p
      → handle_mret first trampoline s ≡ ok s'
      → Safe s s'
  unfolding handle_mret
  mret-Safe s w f e =
      let (t, e1, e2) = >>=-eq-ok (leave_machine s) _ e in
      enforce-Safe first trampoline s t e2 (leave-Safe s w f e1)

  -- Whatever instruction the guest traps on, the handler's result keeps the register table and the
  -- trapframe's shape, and moves the mode only as `Moved` says.
  pub dispatch-Safe :
      (s : Sys) (instruction : ℕ) {s' : Sys}
      → IsValid s.vm
      → HasFrame s.p
      → dispatch first trampoline s instruction ≡ ok s'
      → Safe s s'
  unfolding dispatch
  dispatch-Safe s instruction {s'} w f =
      let csrw = λ (e : ok (handle_csrw s rs1 uimm) ≡ ok s').
        subst (λ x. Safe s x) (ok-injective e) (csrw-Safe s rs1 uimm w f) in
      let same = λ (e : ok s ≡ ok s').
        subst (λ x. Safe s x) (ok-injective e)
          (record { valid = w; framed = f; moved = inr (inl (omega arith)) }) in
      if_cases (funct3 == 0)
        (if_cases (uimm == 0x102) (sret-Safe s w f)
          (if_cases (uimm == 0x302) (mret-Safe s w f) (ecall-Safe s w f)))
        (if_cases (funct3 == 1) csrw (if_cases (funct3 == 2) (csrr-Safe s rd uimm w f) same))
    where
      rd : ℕ
      rd = instruction / 2 ^ 7 % 2 ^ 5

      funct3 : ℕ
      funct3 = instruction / 2 ^ 12 % 2 ^ 3

      rs1 : ℕ
      rs1 = instruction / 2 ^ 15 % 2 ^ 5

      uimm : ℕ
      uimm = instruction / 2 ^ 20 % 2 ^ 12

  prepare-keeps :
      (s : Sys) {s1 : Sys}
      → prepare first trampoline s ≡ ok s1
      → (s1.vm.regs ≡ s.vm.regs) × (s1.vm.current_mode ≡ s.vm.current_mode) × (s1.p ≡ s.p)
  unfolding prepare
  prepare-keeps s e = ground arith

  -- One call of `trap_and_emulate` that returns, from a valid register table and a trapframe, keeps both
  -- valid; and the mode rises to supervisor with the pc at stvec, or to machine with the pc at mtvec,
  -- or does not rise, or the process is killed.
  pub trap_and_emulate-Safe :
      (sepc : ℕ) (s : Sys) {s' : Sys}
      → IsValid s.vm
      → HasFrame s.p
      → trap_and_emulate first trampoline sepc s ≡ ok s'
      → Safe s s'
  unfolding trap_and_emulate
  trap_and_emulate-Safe sepc s {s'} w f e =
      let (s1, e1, e2) = >>=-eq-ok (prepare first trampoline s) _ e in
      let (regs, mode, same_p) = prepare-keeps s e1 in
      let h = dispatch-Safe s1 _ (valid_of s1 regs mode) (ap (λ p. length p.frame) same_p ∙ f) e2 in
      record { valid = h.valid; framed = h.framed; moved = moved_of s1 s' regs mode h.moved }
    where
      valid_of :
          (s1 : Sys)
          → s1.vm.regs ≡ s.vm.regs
          → s1.vm.current_mode ≡ s.vm.current_mode
          → IsValid s1.vm
      valid_of s1 regs mode = record {
        same_codes = ap (λ rs. codes rs) regs ∙ w.same_codes;
        same_modes = ap (λ rs. modes rs) regs ∙ w.same_modes;
        three_modes = omega (arith, mode, w.three_modes);
      }

      moved_of :
          (s1 s2 : Sys)
          → s1.vm.regs ≡ s.vm.regs
          → s1.vm.current_mode ≡ s.vm.current_mode
          → Moved s1 s2
          → Moved s s2
      moved_of s1 s2 regs mode (inl k) = inl k
      moved_of s1 s2 regs mode (inr (inl le)) = inr (inl (omega (arith, mode)))
      moved_of s1 s2 regs mode (inr (inr (up, to))) = inr (
          inr (
            omega (arith, mode, up),
            to
                ∙ (reg_val_regs s1.vm s.vm regs (vector_above s1.vm.current_mode)
                    ∙ ap (λ m. reg_val s.vm (cell (vector_above m))) mode),
          ))
