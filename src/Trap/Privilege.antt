-- ===== src/Trap/Privilege.antt =====
-- The hypervisor's invariant and the guest's privileges, over every instruction word.
use advanced_operating_syste.Prelude.{
  ℕ, zero, suc, ◌+◌, ◌≤◌, ◌≡◌, refl, subst, ◌∙◌, ◌⊎◌, inl, inr, true, ◌==◌, if◌then◌else◌, Outcome,
  ok, arith, ℕ_discrete, length-set,
}
use advanced_operating_syste.Trap.{
  VmState, Proc, Sys, RegRef, cell, ptables, vm_init, init_regs, reg_val, set_val, get_epc, kill_vm,
}
use advanced_operating_syste.Trap.Codes.{IsValid, set_val-IsValid}
use advanced_operating_syste.Trap.Handlers.{handle_ecall, handle_sret, leave_machine, skip}
use advanced_operating_syste.Trap.Modes.{HasFrame, ecall_user, ecall_supervisor, mode-IsValid}
use advanced_operating_syste.Trap.Returns.{
  left, sret_mode, mret_mode, sret_supervisor, mret_machine, sret_elsewhere, mret_elsewhere,
  sret_mode-le, mret_mode-le,
}

-- The trap vector of the mode above: stvec for user mode, mtvec for supervisor mode.
abbrev pub vector_above : ℕ → ℕ
vector_above mode = if mode == 0 then 2 else 20

-- How one trap may move the mode: the process is killed and the machine reset; or the mode does not
-- rise; or it rises by one and the guest goes on at that mode's own trap vector.
abbrev pub Moved : Sys → Sys → Type 0
Moved s s' =
    ((s'.p.killed ≡ true) × (s'.vm.regs ≡ init_regs))
    ⊎ ((s'.vm.current_mode ≤ s.vm.current_mode)
        ⊎ ((s'.vm.current_mode ≡ s.vm.current_mode + 1)
            × (get_epc s'.p ≡ reg_val s.vm (cell (vector_above s.vm.current_mode)))))

pub record Safe (s s' : Sys) : Type 0 where
  pub valid : IsValid s'.vm
  pub framed : HasFrame s'.p
  pub moved : Moved s s'

vm_init-IsValid : IsValid vm_init
vm_init-IsValid = record { same_codes = refl; same_modes = refl; three_modes = omega arith }

pub killed-Safe :
    (s : Sys) (t : Proc) → HasFrame t → t.killed ≡ true → Safe s (record s { vm = vm_init; p = t })
killed-Safe s t f k = record { valid = vm_init-IsValid; framed = f; moved = inl (k, refl) }

mode_cases : (m : ℕ) → m ≤ 2 → (m ≡ 0) ⊎ ((m ≡ 1) ⊎ (m ≡ 2))
mode_cases zero h = inl refl
mode_cases (suc zero) h = inr (inl refl)
mode_cases (suc (suc m)) h = inr (inr (omega arith))

Outcome-unique : {s t : Sys} {o : Outcome Sys} → o ≡ ok s → o ≡ ok t → s ≡ t
Outcome-unique p q = cc

machine_ecall : (s : Sys) → s.vm.current_mode ≡ 2 → handle_ecall s ≡ ok (kill_vm s)
unfolding handle_ecall
machine_ecall s m = ground arith

pub ecall-Safe :
    (s : Sys) {s' : Sys} → IsValid s.vm → HasFrame s.p → handle_ecall s ≡ ok s' → Safe s s'
ecall-Safe s w f e = elim (mode_cases s.vm.current_mode w.three_modes) [
  | inl m ↦
      let (s1, called, all, _) = ecall_user s w f m in
      subst (λ x. Safe s x) (Outcome-unique called e)
        (record {
          valid = all.still;
          framed = all.framed;
          moved = inr (inr (ground (arith, all.mode_set), ground (arith, all.jumped)));
        })
  | inr (inl m) ↦
      let (s1, called, all, _) = ecall_supervisor s w f m in
      subst (λ x. Safe s x) (Outcome-unique called e)
        (record {
          valid = all.still;
          framed = all.framed;
          moved = inr (inr (ground (arith, all.mode_set), ground (arith, all.jumped)));
        })
  | inr (inr m) ↦
      subst (λ x. Safe s x) (Outcome-unique (machine_ecall s m) e)
        (killed-Safe s (record (s.p) { killed = true }) f refl)
]

pub left-Safe :
    (s : Sys) (i j status mode : ℕ)
    → IsValid s.vm
    → HasFrame s.p
    → mode ≤ s.vm.current_mode
    → Safe s (left s i j status mode)
left-Safe s i j status mode w f le = record {
  valid = mode-IsValid mode (omega (arith, w.three_modes)) (set_val-IsValid (cell i) status w);
  framed = length-set s.p.frame 3 _ ∙ f;
  moved = inr (inl le);
}

pub sret-Safe :
    (s : Sys) {s' : Sys} → IsValid s.vm → HasFrame s.p → handle_sret s ≡ ok s' → Safe s s'
sret-Safe s w f e = elim (ℕ_discrete s.vm.current_mode 1) [
  | yes m ↦
      subst (λ x. Safe s x) (Outcome-unique (sret_supervisor s w m) e)
        (left-Safe s 0 5 _ (sret_mode s) w f (sret_mode-le s))
  | no m ↦
      subst (λ x. Safe s x) (Outcome-unique (sret_elsewhere s m) e)
        (killed-Safe s (record (s.p) { pagetable = s.vm.old_ptable; killed = true }) f refl)
]

pub leave-Safe :
    (s : Sys) {s' : Sys} → IsValid s.vm → HasFrame s.p → leave_machine s ≡ ok s' → Safe s s'
leave-Safe s w f e = elim (ℕ_discrete s.vm.current_mode 2) [
  | yes m ↦
      subst (λ x. Safe s x) (Outcome-unique (mret_machine s w m) e)
        (left-Safe s 15 24 _ (mret_mode s) w f (mret_mode-le s m))
  | no m ↦
      subst (λ x. Safe s x) (Outcome-unique (mret_elsewhere s (omega (arith, w.three_modes, m))) e)
        (killed-Safe s (record (s.p) { killed = true }) f refl)
]

pub set_val_mode :
    (v : VmState) (r : RegRef) (x : ℕ) → (set_val v r x).current_mode ≡ v.current_mode
unfolding set_val
set_val_mode v (cell i) x = refl
set_val_mode v ptables x = refl

-- What the rest of `handle_csrw` and `handle_csrr` keeps.
pub skip-Safe :
    (s t : Sys)
    → Safe s t
    → t.vm.current_mode ≤ s.vm.current_mode ⊎ ((t.p.killed ≡ true) × (t.vm.regs ≡ init_regs))
    → Safe s (skip t)
skip-Safe s t h (inl le) = record {
  valid = h.valid;
  framed = length-set t.p.frame 3 _ ∙ h.framed;
  moved = inr (inl le);
}
skip-Safe s t h (inr k) = record {
  valid = h.valid;
  framed = length-set t.p.frame 3 _ ∙ h.framed;
  moved = inl k;
}
