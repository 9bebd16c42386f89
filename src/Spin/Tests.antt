-- ===== src/Spin/Tests.antt =====
-- Two CPUs and a lock.
use advanced_operating_syste.Prelude.{
  ℕ, ◌≤◌, ◌≡◌, refl, true, false, List, [], ◌∷◌, length, Outcome, ok, panic, fault, arith,
}
use advanced_operating_syste.Spin.{Cpu, taken, World, push_off, pop_off, move, run, idle}
use advanced_operating_syste.Spin.Nesting.{pushes, pops, pops-pushes}
use advanced_operating_syste.Spin.Owner.{IsValid}
use advanced_operating_syste.Spin.Exclusion.{run-IsValid}
use advanced_operating_syste.Spin.Progress.{run-reaches}

pops-pushes_example :
    (c' : Cpu) × (pops 3 (pushes 3 (record { noff = 0; intena = false; sie = true })) ≡ ok c')
    × (c'.noff ≡ 0)
    × (c'.sie ≡ true)
pops-pushes_example =
    pops-pushes 3 (record { noff = 0; intena = false; sie = true }) (omega arith)
      (λ ne. absurd (ne refl))

run-IsValid_example :
    (w' : World) × (run (0 ∷ 1 ∷ 0 ∷ 1 ∷ 0 ∷ 0 ∷ 0 ∷ 0 ∷ []) (idle (λ _. true)) ≡ ok w')
    × IsValid (λ _. true) w'
run-IsValid_example = run-IsValid (λ _. true) (0 ∷ 1 ∷ 0 ∷ 1 ∷ 0 ∷ 0 ∷ 0 ∷ 0 ∷ [])

-- The CPU 0 has the lock and 1 waits.
abbrev after : Outcome World → World
after (ok w) = w
after panic = idle (λ _. true)
after fault = idle (λ _. true)

abbrev contended : World
unfolding run move push_off pop_off
contended = after (run (0 ∷ 0 ∷ 0 ∷ 1 ∷ 1 ∷ 1 ∷ []) (idle (λ _. true)))

run-reaches_example :
    (more_turns : List ℕ) × (length more_turns ≤ 6)
    × ((w' : World) × (run more_turns contended ≡ ok w') × (w'.pcs 1 ≡ taken))
unfolding run move push_off pop_off
run-reaches_example = run-reaches (λ _. true) (0 ∷ 0 ∷ 0 ∷ 1 ∷ 1 ∷ 1 ∷ []) contended 1 refl refl
