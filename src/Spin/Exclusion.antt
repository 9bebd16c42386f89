-- ===== src/Spin/Exclusion.antt =====
-- The invariant of a lock under every order of the CPUs' accesses.
use advanced_operating_syste.Prelude.{
  ℕ, ◌≡◌, refl, sym, ap, subst, ◌∙◌, inl, inr, Bool, true, false, none, some, List, [], ◌∷◌, ok,
  arith, if◌then◌else◌, Bool-cases,
}
use advanced_operating_syste.Prelude.Maps.{put, put_all}
use advanced_operating_syste.Spin.{
  Lock, Pc, outside, checking, spinning, taken, inside, releasing, checked, cleared, unlocked,
  World, is_cpu, push_off, to, move, run, idle,
}
use advanced_operating_syste.Spin.Owner.{
  critical, busy, named, Own, Masked, IsValid, idle-IsValid, keeps, stays, owner_is, not_holding,
  masks_to, masks_put, push-Masked, pop-Masked,
}

-- What the code relies on at a place of `i`: the next access succeeds and keeps the invariant.
abbrev pub Moves : (ℕ → Bool) → World → ℕ → Pc → Type 0
Moves was w i p = (w' : World) × (move p w i ≡ ok w') × IsValid was w'

pub moves :
    (was : ℕ → Bool) (w : World) (i : ℕ) (p : Pc) → w.pcs i ≡ p → IsValid was w → Moves was w i p
unfolding move
moves was w i outside at (own, masked) =
    let out : critical (w.pcs i) ≡ false = ap critical at in
    let c' = push_off (w.cpus i) in
    let p = if w.lock.locked then checking else spinning in
    (
      to (record w { cpus = put w.cpus i c' }) i p,
      refl,
      (
        keeps w.lock w.pcs i p out (waits critical refl refl) own,
        masks_put was w.pcs w.cpus i p c'
            (subst (λ b. Masked (was i) b c') (sym (waits busy refl refl))
              (push-Masked (was i) (w.cpus i)
                (subst (λ p. Masked (was i) (busy p) (w.cpus i)) at (masked i))))
            masked,
      ),
    )
  where
    waits :
        {b : Bool} (f : Pc → Bool)
        → f checking ≡ b
        → f spinning ≡ b
        → f (if w.lock.locked then checking else spinning) ≡ b
    waits f yes_locked no_lock = elim (Bool-cases w.lock.locked) [
      | inl e ↦ rw e yes_locked
      | inr e ↦ rw e no_lock
    ]
moves was w i checking at (own, masked) = (
  to w i spinning,
  rw (not_holding w.lock w.pcs i (ap critical at) own),
  (
    keeps w.lock w.pcs i spinning (ap critical at) refl own,
    masks_to was w.pcs w.cpus i spinning (sym (ap busy at)) masked,
  ),
)
moves was w i spinning at (inl (e, free), masked) = (
  to (record w { lock = record w.lock { locked = true } }) i taken,
  rw e,
  (
    stays _ w.pcs i taken refl (ap (λ (lk : Lock). record lk { locked = true }) e) (λ j _. free j),
    masks_to was w.pcs w.cpus i taken (sym (ap busy at)) masked,
  ),
)
moves was w i spinning at (inr (k, owned), masked) = (
  to (record w { lock = record w.lock { locked = true } }) i spinning,
  rw owned.0,
  (
    subst (λ lk. Own lk (put w.pcs i spinning))
        (owned.0 ∙ sym (ap (λ (lk : Lock). record lk { locked = true }) owned.0))
        (keeps w.lock w.pcs i spinning (ap critical at) refl (inr (k, owned))),
    masks_to was w.pcs w.cpus i spinning (sym (ap busy at)) masked,
  ),
)
moves was w i taken at (own, masked) =
    let (e, _, alone) = owner_is w.lock w.pcs i (ap critical at) own in
    (
      to (record w { lock = record w.lock { cpu = some i } }) i inside,
      refl,
      (
        stays _ w.pcs i inside refl (ap (λ (lk : Lock). record lk { cpu = some i }) e) alone,
        masks_to was w.pcs w.cpus i inside (sym (ap busy at)) masked,
      ),
    )
moves was w i inside at (own, masked) =
    let (e, _, alone) = owner_is w.lock w.pcs i (ap critical at) own in
    (
      to w i releasing,
      rw (ap (λ (lk : Lock). lk.locked) e),
      (
        stays _ w.pcs i releasing refl (e ∙ ap (λ p. record { locked = true; cpu = named p i }) at)
            alone,
        masks_to was w.pcs w.cpus i releasing (sym (ap busy at)) masked,
      ),
    )
moves was w i releasing at (own, masked) =
    let (e, _, alone) = owner_is w.lock w.pcs i (ap critical at) own in
    let mine : w.lock ≡ record { locked = true; cpu = some i } =
      e ∙ ap (λ p. record { locked = true; cpu = named p i }) at in
    let me : is_cpu w.lock.cpu i ≡ true = rw mine (ground arith) in
    (
      to w i checked,
      rw me,
      (
        stays _ w.pcs i checked refl mine alone,
        masks_to was w.pcs w.cpus i checked (sym (ap busy at)) masked,
      ),
    )
moves was w i checked at (own, masked) =
    let (e, _, alone) = owner_is w.lock w.pcs i (ap critical at) own in
    (
      to (record w { lock = record w.lock { cpu = none } }) i cleared,
      refl,
      (
        stays _ w.pcs i cleared refl (ap (λ (lk : Lock). record lk { cpu = none }) e) alone,
        masks_to was w.pcs w.cpus i cleared (sym (ap busy at)) masked,
      ),
    )
moves was w i cleared at (own, masked) =
    let (e, _, alone) = owner_is w.lock w.pcs i (ap critical at) own in
    let mine : w.lock ≡ record { locked = true; cpu = none } =
      e ∙ ap (λ p. record { locked = true; cpu = named p i }) at in
    (
      to (record w { lock = record w.lock { locked = false } }) i unlocked,
      refl,
      (
        inl (
          ap (λ (lk : Lock). record lk { locked = false }) mine,
          put_all (λ _ q. critical q ≡ false) w.pcs i unlocked refl alone,
        ),
        masks_to was w.pcs w.cpus i unlocked (sym (ap busy at)) masked,
      ),
    )
moves was w i unlocked at (own, masked) =
    let (c', popped, off) =
      pop-Masked (was i) (w.cpus i)
        (subst (λ p. Masked (was i) (busy p) (w.cpus i)) at (masked i)) in
    (
      to (record w { cpus = put w.cpus i c' }) i outside,
      rw popped,
      (
        keeps w.lock w.pcs i outside (ap critical at) refl own,
        masks_put was w.pcs w.cpus i outside c' off masked,
      ),
    )

run_from :
    (was : ℕ → Bool) (turns : List ℕ) (w : World)
    → IsValid was w
    → (w' : World) × (run turns w ≡ ok w') × IsValid was w'
unfolding run
run_from was [] w valid = (w, refl, valid)
run_from was (i ∷ rest) w valid =
    let (w1, moved, valid1) = moves was w i (w.pcs i) refl valid in
    let (w', ran, valid') = run_from was rest w1 valid1 in (w', rw moved ran, valid')

-- Whatever order the CPUs take turns in, from a free lock no `panic` of `acquire`, `release` or
-- `pop_off` is reached, at most one CPU is between the two swaps, `lk->locked` and `lk->cpu` tell
-- which, and a CPU outside has its interrupts as they were.
pub run-IsValid :
    (was : ℕ → Bool) (turns : List ℕ)
    → (w' : World) × (run turns (idle was) ≡ ok w') × IsValid was w'
run-IsValid was turns = run_from was turns (idle was) (idle-IsValid was)
