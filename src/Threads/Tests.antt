-- ===== src/Threads/Tests.antt =====
-- Runs of the threading library, and its theorems at small tables.
use advanced_operating_syste.Prelude.{
  Outcome, ℕ, zero, suc, ◌≤◌, ◌≡◌, refl, inl, inr, true, Option, none, some, List, [], ◌∷◌, ok,
  panic, fault, arith,
}
use advanced_operating_syste.Prelude.Int.{ℤ, pos, ◌≤ℤ◌}
use advanced_operating_syste.Threads.{
  Algorithm, round_robin, priority, fcfs, Uthread, Threads, no_thread, slot, is_runnable, created,
  ulthread_yield, choose,
}
use advanced_operating_syste.Threads.Pick.{Marked, choose_oldest}
use advanced_operating_syste.Threads.Priority.{eligible, choose_priority}
use advanced_operating_syste.Threads.Steps.{yields, call, done, Calls-IsValid}
use advanced_operating_syste.Threads.Count.{IsValid, SlotOk, count_runnable}

-- A thread with a number, a priority and a time.
abbrev thread : ℕ → ℕ → ℕ → Uthread
thread tid prio now = created (pos tid) 0x1000 0x8000 [] (pos prio) now

abbrev table : Algorithm → Option ℕ → ℤ → List Uthread → Threads
table algo cur count us = record {
  uthreads = us;
  schedalgo = algo;
  current = cur;
  last_yielded = cur;
  thread_count = count;
}

abbrev three : List Uthread
three = thread 1 5 30 ∷ thread 2 9 10 ∷ no_thread ∷ thread 3 7 20 ∷ []

three-Marked : Marked three
three-Marked zero = (λ _. omega arith, λ h. cc)
three-Marked (suc zero) = (λ _. omega arith, λ h. cc)
three-Marked (suc (suc zero)) = (λ h. cc, λ _. refl)
three-Marked (suc (suc (suc zero))) = (λ _. omega arith, λ h. cc)
three-Marked (suc (suc (suc (suc k)))) = (λ h. cc, λ _. refl)

choose_oldest_example :
    (c : ℕ) × (choose (pos 0) (table fcfs none (pos 4) three)
      ≡ ok (record (table fcfs none (pos 4) three) { current = some c }))
    × (is_runnable (slot three c) ≡ true)
    × ((j : ℕ) → is_runnable (slot three j) ≡ true → (slot three c).time ≤ (slot three j).time)
choose_oldest_example =
    choose_oldest (pos 0) (table fcfs none (pos 4) three) 3 (λ e. cc) three-Marked refl

choose_priority_example :
    (r : ℕ) × (choose (pos 0) (table priority (some 1) (pos 4) three)
      ≡ ok (record (table priority (some 1) (pos 4) three) { current = some r }))
    × (eligible (pos 2) (slot three r) ≡ true)
    × ((j : ℕ)
        → eligible (pos 2) (slot three j) ≡ true
        → (slot three j).prio ≤ℤ (slot three r).prio)
choose_priority_example =
    choose_priority (pos 0) (table priority (some 1) (pos 4) three) 1 0 refl refl refl refl

three_chosen :
    (choose (pos 0) (table fcfs none (pos 4) three)
      ≡ ok (record (table fcfs none (pos 4) three) { current = some 1 }))
    × (choose (pos 0) (table priority (some 1) (pos 4) three)
        ≡ ok (record (table priority (some 1) (pos 4) three) { current = some 3 }))
unfolding choose
three_chosen = (refl, refl)

one-IsValid :
    (algo : Algorithm) → IsValid (table algo (some 0) (pos 2) (thread 1 5 30 ∷ no_thread ∷ []))
unfolding count_runnable
one-IsValid algo = record { slots = slots; counted = refl }
  where
    slots : (k : ℕ) → SlotOk (slot (thread 1 5 30 ∷ no_thread ∷ []) k)
    slots zero = inr (refl, omega arith, omega arith)
    slots (suc zero) = inl (refl, refl, refl, refl, refl, refl)
    slots (suc (suc k)) = inl (refl, refl, refl, refl, refl, refl)

-- Threads 1 and 2 were created and thread 1 has ended: the next thread is number 2 again.
abbrev after_end : Threads
after_end = table fcfs (some 1) (pos 2) (no_thread ∷ thread 2 6 40 ∷ [])

abbrev busy_table : Threads
busy_table = table round_robin (some 0) (pos 2) (thread 1 5 30 ∷ no_thread ∷ [])

abbrev yielded : Outcome Threads → Threads
yielded (ok t) = t
yielded panic = busy_table
yielded fault = busy_table

one_yield : ulthread_yield 50 busy_table ≡ ok (yielded (ulthread_yield 50 busy_table))
unfolding ulthread_yield
one_yield = refl

Calls-IsValid_example : IsValid (yielded (ulthread_yield 50 busy_table))
Calls-IsValid_example =
    Calls-IsValid busy_table (yielded (ulthread_yield 50 busy_table))
      (call (yields 50 busy_table 0 (omega arith) refl refl one_yield)
        (done (yielded (ulthread_yield 50 busy_table))))
      (one-IsValid round_robin)
