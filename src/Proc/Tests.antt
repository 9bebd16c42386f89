-- ===== src/Proc/Tests.antt =====
-- The first process and a child of it.
use advanced_operating_syste.Prelude.{
  ℕ, ◌<◌, ◌≡◌, ◌≢◌, refl, ◌⊎◌, inr, true, false, not, ◌&&◌, ◌==◌, ltb, if◌then◌else◌, none, some,
  [], ◌∷◌, Outcome, ok, panic, fault, arith,
}
use advanced_operating_syste.Prelude.Maps.{put}
use advanced_operating_syste.Files.{File, fd_none, fileclose}
use advanced_operating_syste.Proc.{
  unused, sleeping, runnable, running, in_forkret, in_sleep, Proc, World, nproc, is_proc,
  is_sleeping, is_zombie, exit_end, wakeup, wake_from, kill, reparent_from, sched, close_all,
  exit_files, exit, reaped, wait,
}
use advanced_operating_syste.Proc.Wakeup.{marked, wakeup_lem, kill_lem}
use advanced_operating_syste.Proc.Zombie.{Exited, Freed, exit_wakes, wait-exit}

abbrev free_entry : Proc
free_entry = record {
  state = unused;
  chan = 0;
  killed = 0;
  xstate = 0;
  pid = 0;
  parent = none;
  sz = 0;
  context = in_forkret;
  ofile = none ∷ none ∷ [];
  cwd = none;
}

abbrev no_file : File
no_file = record {
  type = fd_none;
  ref = 0;
  readable = false;
  writable = false;
  pipe = 0;
  ip = 0;
  off = 0;
  major = 0;
}

-- The first process waits for its child, which runs on the CPU 0.
abbrev family : World
family = record {
  procs =
      put
        (put (λ _. free_entry) 0
          (record free_entry {
            state = sleeping;
            chan = 1;
            pid = 1;
            cwd = some 1;
            context = in_sleep;
          }))
        1 (record free_entry { state = running; pid = 2; parent = some 0; cwd = some 1 });
  cpu = put (λ _. none) 0 (some 1);
  noff = λ _. 0;
  nextpid = 3;
  initproc = 0;
  files = λ _. no_file;
  calls = [];
}

abbrev left : Outcome World → World
left (ok w) = w
left panic = family
left fault = family

abbrev widowed : World
unfolding exit exit_files close_all reparent_from wakeup wake_from exit_end sched fileclose
widowed = left (exit 0 1 7 family)

family-exits : exit 0 1 7 family ≡ ok widowed
unfolding exit exit_files close_all reparent_from wakeup wake_from exit_end sched fileclose
family-exits = refl

exit_wakes_example : (widowed.procs 0).state ≡ runnable
exit_wakes_example =
    exit_wakes 0 1 7 0 family widowed family-exits refl (omega arith) (omega arith)
      (inr (refl, refl))

wait-exit_example :
    Exited 0 7 (family.procs 1) (widowed.procs 1)
    × ((k : ℕ) × (is_proc (widowed.procs k).parent 0 ≡ true)
        × (is_zombie (widowed.procs k).state ≡ true)
        × ((w'' : World) × (wait 0 0 true widowed
              ≡ ok (reaped (widowed.procs k).pid (widowed.procs k).xstate, w''))
            × Freed (w''.procs k)
            × ((j : ℕ) → j ≢ k → w''.procs j ≡ widowed.procs j)))
wait-exit_example = wait-exit 0 0 1 7 0 family widowed family-exits refl (omega arith) (omega arith)

wakeup_lem_example : (wakeup (some 1) 1 family).procs 0 ≡ (
    if ltb 0 nproc
      && not (is_proc (some 1) 0)
      && is_sleeping (family.procs 0).state
      && (family.procs 0).chan == 1
    then record (family.procs 0) { state = runnable }
    else family.procs 0)
wakeup_lem_example = wakeup_lem (some 1) 1 family 0

kill_lem_example :
    (((kill 2 family).0 ≡ true)
      × ((k : ℕ) × (k < nproc)
          × ((family.procs k).pid ≡ 2)
          × ((j : ℕ) → j < k → (family.procs j).pid ≢ 2)
          × ((kill 2 family).1.procs ≡ put family.procs k (marked (family.procs k)))))
    ⊎ ((kill 2 family ≡ (false, family)) × ((j : ℕ) → j < nproc → (family.procs j).pid ≢ 2))
kill_lem_example = kill_lem 2 family

-- Only the first process, ready to run.
abbrev first_procs : ℕ → Proc
first_procs =
    put (λ _. free_entry) 0 (record free_entry { state = runnable; pid = 1; cwd = some 1 })

abbrev first_world : World
first_world = record family { procs = first_procs; cpu = λ _. none; nextpid = 2 }
