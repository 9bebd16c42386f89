-- ===== src/Spin/Progress.antt =====
-- No deadlock: the lock can always be had.
use advanced_operating_syste.Prelude.{
  ℕ, suc, ◌≤◌, ◌≡◌, ◌≢◌, refl, sym, ap, subst, ◌∙◌, inl, inr, Bool, true, false, List, [], ◌∷◌,
  length, ok, panic, if◌then◌else◌, arith, ok-injective,
}
use advanced_operating_syste.Prelude.Maps.{put, put-at, put-ne}
use advanced_operating_syste.Spin.{
  Lock, Pc, outside, checking, spinning, taken, inside, releasing, checked, cleared, unlocked,
  World, is_cpu, to, move, run, idle,
}
use advanced_operating_syste.Spin.Owner.{critical, IsValid}
use advanced_operating_syste.Spin.Exclusion.{moves, run-IsValid}

-- Turns after which `j` has the lock.
abbrev Gets : World → ℕ → ℕ → Type 0
Gets w j bound =
    (turns : List ℕ) × (length turns ≤ bound)
    × ((w' : World) × (run turns w ≡ ok w') × (w'.pcs j ≡ taken))

Gets-free : (w : World) (j : ℕ) → w.lock.locked ≡ false → w.pcs j ≡ spinning → Gets w j 1
unfolding run move
Gets-free w j free at = (
  j ∷ [],
  omega arith,
  (
    to (record w { lock = record w.lock { locked = true } }) j taken,
    rw at (rw (free, move) refl),
    put-at w.pcs j taken,
  ),
)

Gets-then :
    (w w1 : World) (i j bound : ℕ)
    → move (w.pcs i) w i ≡ ok w1
    → Gets w1 j bound
    → Gets w j (suc bound)
unfolding run
Gets-then w w1 i j bound moved (turns, short, (w', ran, at)) =
    (i ∷ turns, omega (arith, short), (w', rw moved ran, at))

Gets-cleared : (w : World) (k j : ℕ) → k ≢ j → w.pcs k ≡ cleared → w.pcs j ≡ spinning → Gets w j 2
unfolding move
Gets-cleared w k j ne at spin =
    let w1 = to (record w { lock = record w.lock { locked = false } }) k unlocked in
    Gets-then w w1 k j 1 (rw at refl)
      (Gets-free w1 j refl (put-ne w.pcs k unlocked j (λ e. ne (sym e)) ∙ spin))

passed : {w1 w2 : World} (b : Bool) → (if b then ok w1 else panic) ≡ ok w2 → w2 ≡ w1
passed true e = ok-injective (sym e)
passed false e = absurd (cc e)

-- The owner `k` goes on to the place `p`, from which `j` gets the lock.
Gets-step :
    (was : ℕ → Bool) (w w1 : World) (k j bound : ℕ) (p : Pc)
    → k ≢ j
    → w.pcs j ≡ spinning
    → move (w.pcs k) w k ≡ ok w1
    → w1.pcs ≡ put w.pcs k p
    → IsValid was w1
    → ((v : World) → v.pcs k ≡ p → v.pcs j ≡ spinning → IsValid was v → Gets v j bound)
    → Gets w j (suc bound)
Gets-step was w w1 k j bound p ne spin moved pcs valid1 next = Gets-then w w1 k j bound moved (
    next w1 (ap (λ f. f k) pcs ∙ put-at w.pcs k p)
      (ap (λ f. f j) pcs ∙ (put-ne w.pcs k p j (λ e. ne (sym e)) ∙ spin)) valid1)

-- `j` waits for `k`, which is at the place `p`.
abbrev Waits : (ℕ → Bool) → ℕ → ℕ → Pc → ℕ → Type 0
Waits was k j p bound =
    (w : World) → w.pcs k ≡ p → w.pcs j ≡ spinning → IsValid was w → Gets w j bound

Gets-checked : (was : ℕ → Bool) (k j : ℕ) → k ≢ j → Waits was k j checked 3
unfolding move
Gets-checked was k j ne w at spin valid =
    let (w1, moved, valid1) = moves was w k checked at valid in
    Gets-step was w w1 k j 2 cleared ne spin (rw at moved)
      (ap (λ (t : World). t.pcs) (ok-injective (sym moved))) valid1
      (λ v at' spin' _. Gets-cleared v k j ne at' spin')

Gets-releasing : (was : ℕ → Bool) (k j : ℕ) → k ≢ j → Waits was k j releasing 4
unfolding move
Gets-releasing was k j ne w at spin valid =
    let (w1, moved, valid1) = moves was w k releasing at valid in
    Gets-step was w w1 k j 3 checked ne spin (rw at moved)
      (ap (λ (t : World). t.pcs) (passed (is_cpu w.lock.cpu k) moved)) valid1
      (Gets-checked was k j ne)

Gets-inside : (was : ℕ → Bool) (k j : ℕ) → k ≢ j → Waits was k j inside 5
unfolding move
Gets-inside was k j ne w at spin valid =
    let (w1, moved, valid1) = moves was w k inside at valid in
    Gets-step was w w1 k j 4 releasing ne spin (rw at moved)
      (ap (λ (t : World). t.pcs) (passed w.lock.locked moved)) valid1 (Gets-releasing was k j ne)

Gets-taken : (was : ℕ → Bool) (k j : ℕ) → k ≢ j → Waits was k j taken 6
unfolding move
Gets-taken was k j ne w at spin valid =
    let (w1, moved, valid1) = moves was w k taken at valid in
    Gets-step was w w1 k j 5 inside ne spin (rw at moved)
      (ap (λ (t : World). t.pcs) (ok-injective (sym moved))) valid1 (Gets-inside was k j ne)

more : (w : World) (j n m : ℕ) → n ≤ m → Gets w j n → Gets w j m
more w j n m le (turns, short, rest) = (turns, omega (arith, le, short), rest)

Gets-from :
    (was : ℕ → Bool) (w : World) (k j : ℕ) (p : Pc)
    → w.pcs k ≡ p
    → critical p ≡ true
    → k ≢ j
    → w.pcs j ≡ spinning
    → IsValid was w
    → Gets w j 6
Gets-from was w k j outside at crit ne spin valid = absurd (cc crit)
Gets-from was w k j checking at crit ne spin valid = absurd (cc crit)
Gets-from was w k j spinning at crit ne spin valid = absurd (cc crit)
Gets-from was w k j taken at crit ne spin valid = Gets-taken was k j ne w at spin valid
Gets-from was w k j inside at crit ne spin valid =
    more w j 5 6 (omega arith) (Gets-inside was k j ne w at spin valid)
Gets-from was w k j releasing at crit ne spin valid =
    more w j 4 6 (omega arith) (Gets-releasing was k j ne w at spin valid)
Gets-from was w k j checked at crit ne spin valid =
    more w j 3 6 (omega arith) (Gets-checked was k j ne w at spin valid)
Gets-from was w k j cleared at crit ne spin valid =
    more w j 2 6 (omega arith) (Gets-cleared w k j ne at spin)
Gets-from was w k j unlocked at crit ne spin valid = absurd (cc crit)

gets : (was : ℕ → Bool) (w : World) (j : ℕ) → w.pcs j ≡ spinning → IsValid was w → Gets w j 6
gets was w j spin (inl (e, free), masked) =
    more w j 1 6 (omega arith) (Gets-free w j (ap (λ (lk : Lock). lk.locked) e) spin)
gets was w j spin (inr (k, owned), masked) =
    Gets-from was w k j (w.pcs k) refl owned.1 (λ at. cc (at, ap critical spin, owned.1)) spin
      (inr (k, owned), masked)

-- No order of turns leads to a deadlock: wherever a CPU waits in the loop of `acquire`, some at most
-- six further accesses of the CPUs give it the lock.
pub run-reaches :
    (was : ℕ → Bool) (turns : List ℕ) (w : World) (j : ℕ)
    → run turns (idle was) ≡ ok w
    → w.pcs j ≡ spinning
    → (more_turns : List ℕ) × (length more_turns ≤ 6)
      × ((w' : World) × (run more_turns w ≡ ok w') × (w'.pcs j ≡ taken))
run-reaches was turns w j ran spin =
    let (w0, ran0, valid) = run-IsValid was turns in
    gets was w j spin (subst (IsValid was) (ok-injective (sym ran0 ∙ ran)) valid)
