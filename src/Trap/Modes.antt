-- ===== src/Trap/Modes.antt =====
-- How the virtual machine's mode, program counter and saved program counters move on a trap.
use advanced_operating_syste.Prelude.{
  ℕ, ◌≤◌, ◌<◌, ◌≡◌, ◌≢◌, refl, ◌∙◌, some, length, get_or, ok, arith, get_or-set_self, get_or-set_ne,
  length-set,
}
use advanced_operating_syste.Trap.{
  VmState, Proc, Sys, RegRef, cell, ptables, get_vm_reg, reg_val, set_val, gpr_at, get_epc, set_epc,
}
use advanced_operating_syste.Trap.Codes.{
  IsValid, set_val-IsValid, reg_val-set_val, sstatus_ref, stvec_ref, sepc_ref, mstatus_ref,
  mtvec_ref, mepc_ref,
}
use advanced_operating_syste.Trap.Handlers.{enter_mode, handle_ecall}

-- The trapframe has its 36 words.
abbrev pub HasFrame : Proc → Type 0
HasFrame p = length p.frame ≡ 36

pub epc-set_epc : (p : Proc) (a : ℕ) → HasFrame p → get_epc (set_epc p a) ≡ a
epc-set_epc p a h = get_or-set_self p.frame 3 a 0 (omega (arith, h))

-- The state after a trap into mode `mode` that saves the pc in register `i` and goes on at the
-- address in register `j`.
abbrev pub entered : Sys → ℕ → ℕ → ℕ → Sys
entered s i j mode =
    let v = record (set_val s.vm (cell i) (get_epc s.p)) { current_mode = mode } in
    record s { vm = v; p = set_epc s.p (reg_val v (cell j)) }

enter_mode-ok :
    (s : Sys) (epc_csr status_csr tvec_csr mode i j : ℕ) (r : RegRef)
    → get_vm_reg s.vm epc_csr ≡ some (cell i)
    → get_vm_reg s.vm status_csr ≡ some r
    → get_vm_reg s.vm tvec_csr ≡ some (cell j)
    → enter_mode s epc_csr status_csr tvec_csr mode ≡ ok (entered s i j mode)
unfolding enter_mode
enter_mode-ok s epc_csr status_csr tvec_csr mode i j r e f g = rw (e, f, g)

-- What a trap to `mode` that saves the pc in register `i` and jumps to register `j` comes to.
pub record Entered (s s' : Sys) (i j mode : ℕ) : Type 0 where
  pub mode_set : s'.vm.current_mode ≡ mode
  pub pc_saved : reg_val s'.vm (cell i) ≡ get_epc s.p
  pub jumped : get_epc s'.p ≡ reg_val s.vm (cell j)
  pub others : (k : ℕ) → k ≢ i → reg_val s'.vm (cell k) ≡ reg_val s.vm (cell k)
  pub gprs : (x : ℕ) → get_or s'.p.frame (gpr_at x) 0 ≡ get_or s.p.frame (gpr_at x) 0
  pub still : IsValid s'.vm
  pub framed : HasFrame s'.p

pub reg_val_mode :
    (v : VmState) (r : RegRef) (m : ℕ) → reg_val (record v { current_mode = m }) r ≡ reg_val v r
unfolding reg_val
reg_val_mode v (cell i) m = refl
reg_val_mode v ptables m = refl

pub mode-IsValid :
    {v : VmState} (m : ℕ) → m ≤ 2 → IsValid v → IsValid (record v { current_mode = m })
mode-IsValid m h w = record {
  same_codes = w.same_codes;
  same_modes = w.same_modes;
  three_modes = h;
}

entered-Entered :
    (s : Sys) (i j mode : ℕ)
    → IsValid s.vm
    → HasFrame s.p
    → i < 35
    → i ≢ j
    → mode ≤ 2
    → Entered s (entered s i j mode) i j mode
entered-Entered s i j mode w f hi hne hm = record {
  mode_set = refl;
  pc_saved = reg_val_mode _ _ mode ∙ (reg_val-set_val i i (get_epc s.p) w hi ∙ ground arith);
  jumped =
      epc-set_epc s.p _ f
      ∙ (reg_val_mode _ _ mode ∙ (reg_val-set_val i j (get_epc s.p) w hi ∙ ground arith));
  others = λ k ne. reg_val_mode _ _ mode ∙ (reg_val-set_val i k (get_epc s.p) w hi ∙ ground arith);
  gprs = λ x. get_or-set_ne s.p.frame 3 (gpr_at x) _ 0 (omega arith);
  still = mode-IsValid mode hm (set_val-IsValid (cell i) (get_epc s.p) w);
  framed = length-set s.p.frame 3 _ ∙ f;
}

old_ptable-set_val : (v : VmState) (r : RegRef) (x : ℕ) → (set_val v r x).old_ptable ≡ v.old_ptable
unfolding set_val
old_ptable-set_val v (cell i) x = refl
old_ptable-set_val v ptables x = refl

-- An ecall from user mode enters supervisor mode at the address in stvec, with the pc saved in sepc
-- and no other register changed; the page table stays.
pub ecall_user :
    (s : Sys)
    → IsValid s.vm
    → HasFrame s.p
    → s.vm.current_mode ≡ 0
    → (s' : Sys) × (handle_ecall s ≡ ok s') × Entered s s' 5 2 1 × (s'.p.pagetable ≡ s.p.pagetable)
unfolding handle_ecall
ecall_user s w f m = (
  entered s 5 2 1,
  ground (
    arith,
    enter_mode-ok s 0x141 0x100 0x105 1 5 2 (cell 0) (sepc_ref w) (sstatus_ref w) (stvec_ref w),
  ),
  entered-Entered s 5 2 1 w f (omega arith) (omega arith) (omega arith),
  refl,
)

-- An ecall from supervisor mode enters machine mode at the address in mtvec, with the pc saved in
-- mepc and no other register changed; the machine then runs on the unrestricted page table.
pub ecall_supervisor :
    (s : Sys)
    → IsValid s.vm
    → HasFrame s.p
    → s.vm.current_mode ≡ 1
    → (s' : Sys) × (handle_ecall s ≡ ok s')
      × Entered s s' 24 20 2
      × (s'.p.pagetable ≡ s.vm.old_ptable)
unfolding handle_ecall
ecall_supervisor s w f m =
    let s1 = entered s 24 20 2 in
    let all = entered-Entered s 24 20 2 w f (omega arith) (omega arith) (omega arith) in
    (
      record s1 { p = record (s1.p) { pagetable = s1.vm.old_ptable } },
      ground (
        arith,
        enter_mode-ok s 0x341 0x300 0x305 2 24 20 (cell 15) (mepc_ref w) (mstatus_ref w)
            (mtvec_ref w),
      ),
      record {
        mode_set = refl;
        pc_saved = all.pc_saved;
        jumped = all.jumped;
        others = all.others;
        gprs = all.gprs;
        still = all.still;
        framed = all.framed;
      },
      old_ptable-set_val s.vm (cell 24) (get_epc s.p),
    )
