-- ===== src/Trap/Codes.antt =====
-- The codes and modes of the register file never change, so a lookup always finds the register
-- that `trap_and_emulate_init` put there.
use advanced_operating_syste.Prelude.{
  ℕ, zero, suc, ◌+◌, ◌≤◌, ◌<◌, ◌≡◌, refl, sym, ap, ◌∙◌, ◌==◌, leb, if◌then◌else◌, Option, none,
  some, List, [], ◌∷◌, map, length, get_or, set, arith,
}
use advanced_operating_syste.Trap.{
  VmReg, VmState, RegRef, cell, ptables, init_regs, no_reg, find_reg, get_vm_reg, reg_val, set_val,
  allowed,
}

abbrev pub codes : List VmReg → List ℕ
codes rs = map (λ r. r.code) rs

abbrev pub modes : List VmReg → List ℕ
modes rs = map (λ r. r.mode) rs

pub record IsValid (v : VmState) : Type 0 where
  pub same_codes : codes v.regs ≡ codes init_regs
  pub same_modes : modes v.regs ≡ modes init_regs
  pub three_modes : v.current_mode ≤ 2

unfoldable pub find_code : List ℕ → ℕ → ℕ → Option ℕ
find_code [] csr i = none
find_code (c ∷ cs) csr i = let rest = find_code cs csr (i + 1) in if c == csr then some i else rest

find_reg-eq-find_code :
    (rs : List VmReg) (csr i : ℕ) → find_reg rs csr i ≡ find_code (codes rs) csr i
unfolding find_reg find_code
find_reg-eq-find_code [] csr i = refl
find_reg-eq-find_code (r ∷ rs) csr i = ground (arith, find_reg-eq-find_code rs csr (i + 1))

pub find_valid :
    {v : VmState} (csr : ℕ) → IsValid v → find_reg v.regs csr 0 ≡ find_code (codes init_regs) csr 0
find_valid {v} csr w =
    find_reg-eq-find_code v.regs csr 0 ∙ ap (λ cs. find_code cs csr 0) w.same_codes

-- A register of the table is found at its place.
pub get_vm_reg-some :
    {v : VmState} (csr i : ℕ)
    → IsValid v
    → find_code (codes init_regs) csr 0 ≡ some i
    → get_vm_reg v csr ≡ some (cell i)
unfolding get_vm_reg
get_vm_reg-some csr i w e = rw (find_valid csr w ∙ e, get_vm_reg)

codes-set :
    (rs : List VmReg) (i x : ℕ)
    → codes (set rs i (record (get_or rs i no_reg) { val = x })) ≡ codes rs
codes-set [] i x = refl
codes-set (r ∷ rs) zero x = refl
codes-set (r ∷ rs) (suc i) x = ap (λ cs. r.code ∷ cs) (codes-set rs i x)

modes-set :
    (rs : List VmReg) (i x : ℕ)
    → modes (set rs i (record (get_or rs i no_reg) { val = x })) ≡ modes rs
modes-set [] i x = refl
modes-set (r ∷ rs) zero x = refl
modes-set (r ∷ rs) (suc i) x = ap (λ cs. r.mode ∷ cs) (modes-set rs i x)

pub set_val-IsValid : {v : VmState} (r : RegRef) (x : ℕ) → IsValid v → IsValid (set_val v r x)
unfolding set_val
set_val-IsValid {v} (cell i) x w = record {
  same_codes = codes-set v.regs i x ∙ w.same_codes;
  same_modes = modes-set v.regs i x ∙ w.same_modes;
  three_modes = w.three_modes;
}
set_val-IsValid ptables x w = record {
  same_codes = w.same_codes;
  same_modes = w.same_modes;
  three_modes = w.three_modes;
}

-- The value of a register after a write to one of the table.
get_or-set :
    (rs : List VmReg) (i j : ℕ) (r : VmReg)
    → i < length rs
    → get_or (set rs i r) j no_reg ≡ (if i == j then r else get_or rs j no_reg)
get_or-set [] i j r h = absurd (omega arith)
get_or-set (q ∷ rs) zero zero r h = refl
get_or-set (q ∷ rs) zero (suc j) r h = ground arith
get_or-set (q ∷ rs) (suc i) zero r h = ground arith
get_or-set (q ∷ rs) (suc i) (suc j) r h = get_or-set rs i j r (omega arith) ∙ ground arith

length-codes : (rs : List VmReg) → length (codes rs) ≡ length rs
length-codes [] = refl
length-codes (r ∷ rs) = ap suc (length-codes rs)

pub length_valid : {v : VmState} → IsValid v → length v.regs ≡ 35
length_valid {v} w = sym (length-codes v.regs) ∙ ap length w.same_codes

pub reg_val-set_val :
    {v : VmState} (i j x : ℕ)
    → IsValid v
    → i < 35
    → reg_val (set_val v (cell i) x) (cell j) ≡ (if i == j then x else reg_val v (cell j))
unfolding reg_val set_val
reg_val-set_val {v} i j x w h = ground (
  arith,
  get_or-set v.regs i j (record (get_or v.regs i no_reg) { val = x })
      (omega (arith, length_valid w)),
)

-- The mode that a register of the table asks for.
get_or-modes : (rs : List VmReg) (i : ℕ) → (get_or rs i no_reg).mode ≡ get_or (modes rs) i 0
get_or-modes [] i = refl
get_or-modes (r ∷ rs) zero = refl
get_or-modes (r ∷ rs) (suc i) = get_or-modes rs i

pub allowed-cell :
    {v : VmState} (i : ℕ)
    → IsValid v
    → allowed v (cell i) ≡ leb (get_or (modes init_regs) i 0) v.current_mode
unfolding allowed
allowed-cell {v} i w =
    ap (λ m. leb m v.current_mode) (get_or-modes v.regs i ∙ ap (λ ms. get_or ms i 0) w.same_modes)

-- The registers that the handlers name.
module _ {v : VmState} (w : IsValid v) where
  pub sstatus_ref : get_vm_reg v 0x100 ≡ some (cell 0)
  unfolding find_code
  sstatus_ref = get_vm_reg-some 0x100 0 w refl

  pub stvec_ref : get_vm_reg v 0x105 ≡ some (cell 2)
  unfolding find_code
  stvec_ref = get_vm_reg-some 0x105 2 w refl

  pub sepc_ref : get_vm_reg v 0x141 ≡ some (cell 5)
  unfolding find_code
  sepc_ref = get_vm_reg-some 0x141 5 w refl

  pub mstatus_ref : get_vm_reg v 0x300 ≡ some (cell 15)
  unfolding find_code
  mstatus_ref = get_vm_reg-some 0x300 15 w refl

  pub mtvec_ref : get_vm_reg v 0x305 ≡ some (cell 20)
  unfolding find_code
  mtvec_ref = get_vm_reg-some 0x305 20 w refl

  pub mepc_ref : get_vm_reg v 0x341 ≡ some (cell 24)
  unfolding find_code
  mepc_ref = get_vm_reg-some 0x341 24 w refl
