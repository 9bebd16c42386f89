-- ===== src/Spin/Owner.antt =====
-- Who has a lock, and the masks of the CPUs.
use advanced_operating_syste.Prelude.{
  ℕ, ◌≡◌, ◌≢◌, refl, sym, subst, ◌⊎◌, inl, inr, Bool, true, false, if◌then◌else◌, Option, none,
  some, ok, arith, ℕ_discrete,
}
use advanced_operating_syste.Prelude.Maps.{put, put-at, put-ne, put_all}
use advanced_operating_syste.Spin.{
  Cpu, Lock, Pc, outside, checking, spinning, taken, inside, releasing, checked, cleared, unlocked,
  World, initlock, is_cpu, push_off, pop_off, idle,
}

-- Between the two swaps.
abbrev pub critical : Pc → Bool
critical outside = false
critical checking = false
critical spinning = false
critical taken = true
critical inside = true
critical releasing = true
critical checked = true
critical cleared = true
critical unlocked = false

-- Between `push_off` and `pop_off`.
abbrev pub busy : Pc → Bool
busy outside = false
busy checking = true
busy spinning = true
busy taken = true
busy inside = true
busy releasing = true
busy checked = true
busy cleared = true
busy unlocked = true

-- What the owner has written to `lk->cpu`.
abbrev pub named : Pc → ℕ → Option ℕ
named outside i = none
named checking i = none
named spinning i = none
named taken i = none
named inside i = some i
named releasing i = some i
named checked i = some i
named cleared i = none
named unlocked i = none

-- Nobody is between the two swaps.
abbrev pub Free : Lock → (ℕ → Pc) → Type 0
Free lk pcs = (lk ≡ initlock) × ((j : ℕ) → critical (pcs j) ≡ false)

-- The CPU `i` is, and nobody else.
abbrev pub Owned : Lock → (ℕ → Pc) → ℕ → Type 0
Owned lk pcs i =
    (lk ≡ record { locked = true; cpu = named (pcs i) i })
    × (critical (pcs i) ≡ true)
    × ((j : ℕ) → j ≢ i → critical (pcs j) ≡ false)

abbrev pub Own : Lock → (ℕ → Pc) → Type 0
Own lk pcs = Free lk pcs ⊎ ((i : ℕ) × Owned lk pcs i)

-- A CPU in the lock has its interrupts off and remembers whether they were on.
abbrev pub Masked : Bool → Bool → Cpu → Type 0
Masked was inside_lock c =
    (c.noff ≡ (if inside_lock then 1 else 0))
    × (c.sie ≡ (if inside_lock then false else was))
    × (inside_lock ≡ true → c.intena ≡ was)

abbrev pub IsValid : (ℕ → Bool) → World → Type 0
IsValid was w = Own w.lock w.pcs × ((j : ℕ) → Masked (was j) (busy (w.pcs j)) (w.cpus j))

pub idle-IsValid : (was : ℕ → Bool) → IsValid was (idle was)
idle-IsValid was = (inl (refl, λ j. refl), λ j. (refl, refl, λ e. absurd (cc e)))

-- A CPU outside the two swaps stays outside them.
pub keeps :
    (lk : Lock) (pcs : ℕ → Pc) (i : ℕ) (p : Pc)
    → critical (pcs i) ≡ false
    → critical p ≡ false
    → Own lk pcs
    → Own lk (put pcs i p)
keeps lk pcs i p out out' (inl (e, free)) =
    inl (e, put_all (λ _ q. critical q ≡ false) pcs i p out' (λ j _. free j))
keeps lk pcs i p out out' (inr (k, (e, crit, alone))) =
    let ne : k ≢ i = λ at. cc (at, crit, out) in
    let same = put-ne pcs i p k ne in
    inr (
      k,
      (
        rw same e,
        rw same crit,
        put_all (λ j q. j ≢ k → critical q ≡ false) pcs i p (λ _. out') (λ j _. alone j),
      ),
    )

-- The owner goes on.
pub stays :
    (lk : Lock) (pcs : ℕ → Pc) (i : ℕ) (p : Pc)
    → critical p ≡ true
    → lk ≡ record { locked = true; cpu = named p i }
    → ((j : ℕ) → j ≢ i → critical (pcs j) ≡ false)
    → Own lk (put pcs i p)
stays lk pcs i p crit e alone =
    let same = put-at pcs i p in
    inr (
      i,
      (
        rw same e,
        rw same crit,
        put_all (λ j q. j ≢ i → critical q ≡ false) pcs i p (λ ne. absurd (ne refl))
            (λ j ne _. alone j ne),
      ),
    )

pub owner_is :
    (lk : Lock) (pcs : ℕ → Pc) (i : ℕ) → critical (pcs i) ≡ true → Own lk pcs → Owned lk pcs i
owner_is lk pcs i crit (inl (e, free)) = absurd (cc (crit, free i))
owner_is lk pcs i crit (inr (k, owned)) = elim (ℕ_discrete k i) [
  | yes e ↦ subst (Owned lk pcs) e owned
  | no ne ↦ absurd (cc (crit, owned.2 i (λ at. ne (sym at))))
]

pub not_named : (p : Pc) (k i : ℕ) → k ≢ i → is_cpu (named p k) i ≡ false
not_named outside k i ne = refl
not_named checking k i ne = refl
not_named spinning k i ne = refl
not_named taken k i ne = refl
not_named inside k i ne = ground (arith, ne)
not_named releasing k i ne = ground (arith, ne)
not_named checked k i ne = ground (arith, ne)
not_named cleared k i ne = refl
not_named unlocked k i ne = refl

pub not_holding :
    (lk : Lock) (pcs : ℕ → Pc) (i : ℕ)
    → critical (pcs i) ≡ false
    → Own lk pcs
    → is_cpu lk.cpu i ≡ false
not_holding lk pcs i out (inl (e, free)) = rw e
not_holding lk pcs i out (inr (k, (e, crit, alone))) =
    rw e (not_named (pcs k) k i (λ at. cc (at, crit, out)))

-- The masks of the CPUs when `i` goes on without touching its own.
pub masks_to :
    (was : ℕ → Bool) (pcs : ℕ → Pc) (cpus : ℕ → Cpu) (i : ℕ) (p : Pc)
    → busy p ≡ busy (pcs i)
    → ((j : ℕ) → Masked (was j) (busy (pcs j)) (cpus j))
    → (j : ℕ) → Masked (was j) (busy (put pcs i p j)) (cpus j)
masks_to was pcs cpus i p e masked =
    put_all (λ j q. Masked (was j) (busy q) (cpus j)) pcs i p
      (subst (λ b. Masked (was i) b (cpus i)) (sym e) (masked i)) (λ j _. masked j)

pub masks_put :
    (was : ℕ → Bool) (pcs : ℕ → Pc) (cpus : ℕ → Cpu) (i : ℕ) (p : Pc) (c : Cpu)
    → Masked (was i) (busy p) c
    → ((j : ℕ) → Masked (was j) (busy (pcs j)) (cpus j))
    → (j : ℕ) → Masked (was j) (busy (put pcs i p j)) (put cpus i c j)
masks_put was pcs cpus i p c at masked j = elim (ℕ_discrete j i) [
  | yes e ↦
      subst (λ k. Masked (was k) (busy (put pcs i p k)) (put cpus i c k)) (sym e)
        (rw (put-at pcs i p, put-at cpus i c) at)
  | no ne ↦ rw (put-ne pcs i p j ne, put-ne cpus i c j ne) (masked j)
]

pub push-Masked : (was : Bool) (c : Cpu) → Masked was false c → Masked was true (push_off c)
unfolding push_off
push-Masked was c (off, on, _) = (ground (arith, off), refl, λ _. ground (arith, off, on))

pub pop-Masked :
    (was : Bool) (c : Cpu)
    → Masked was true c
    → (c' : Cpu) × (pop_off c ≡ ok c') × Masked was false c'
unfolding pop_off
pop-Masked was c (off, on, keeps_on) = (
  record c { noff = 0; sie = was },
  ground (arith, off, on, keeps_on refl),
  (refl, refl, λ e. absurd (cc e)),
)
