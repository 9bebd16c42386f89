-- ===== src/Proc/Steps.antt =====
-- The kernel's steps on the process table, one critical section each, and what they keep.
pub mod Handlers
pub mod Lives
use advanced_operating_syste.Prelude.{
  ℕ, zero, suc, ◌+◌, ◌-◌, ◌*◌, ◌/◌, ◌%◌, ◌^◌, ◌≤◌, ◌<◌, ◌≡◌, ◌≢◌, refl, sym, ap, subst, ◌∙◌,
  fun_ext, ◌↔◌, ◌⊎◌, inl, inr, Bool, true, false, not, ◌&&◌, ◌||◌, ◌==◌, ltb, leb, if◌then◌else◌,
  bit_and, bit_or, Option, none, some, List, [], ◌∷◌, ◌++◌, map, length, get_elem?, get_or, set,
  take, drop, replicate, Outcome, ok, panic, fault, deref, ◌>>=◌, >>=-eq-ok, arith, ℕ_discrete,
  if_cases, ok-injective, Bool-cases, Option-cases, get_or-set_self, get_or-set_ne, length-set,
  get_or-set_lem, set-set, set-get_or, dec_lt, length-append, length-replicate,
}
use advanced_operating_syste.Proc.{
  used, World, is_unused, schedule, yield, sleep, wake_at, kill_at, setkilled, alloc_found,
  fork_into, adopt, make_ready, close_fd, drop_dir, orphan, exit_end, reap,
}

-- A step of some CPU `c`, on behalf of the process `me` that it runs where the code asks `myproc`: what
-- a call does under one hold of a process's lock, or to one entry under `wait_lock`, or with one file.
-- The loops of `wakeup`, `kill`, `reparent` and `wait` are as many steps as rounds, `fork` and `exit`
-- one after the other, and others may come between. An entry is allocated with its pid, and pids
-- are given out as long as a `nextpid` of 32 bits does not wrap around.
pub data Step : World → World → Type 0 where
  schedules : (c i : ℕ) (w : World) → w.cpu c ≡ none → Step w (schedule c i w)
  yields :
      (c me : ℕ) (w : World) {w' : World} → w.cpu c ≡ some me → yield c me w ≡ ok w' → Step w w'
  sleeps :
      (depth c me chan : ℕ) (w : World) {w' : World}
      → w.cpu c ≡ some me
      → sleep depth c me chan w ≡ ok w'
      → Step w w'
  wakes : (me : Option ℕ) (chan i : ℕ) (w : World) → Step w (wake_at me chan i w)
  kills : (pid i : ℕ) (w : World) → Step w (kill_at pid i w)
  sets_killed : (i : ℕ) (w : World) → Step w (setkilled i w)
  allocates :
      (pages : Bool) (i : ℕ) (w : World)
      → w.nextpid + 1 < 2 ^ 32
      → is_unused (w.procs i).state ≡ true
      → Step w (alloc_found pages w i).1
  forks :
      (me i : ℕ) (copied : Bool) (w : World) {r : Option ℕ} {w' : World}
      → (w.procs i).state ≡ used
      → fork_into me copied w i ≡ ok (r, w')
      → Step w w'
  adopts : (me i : ℕ) (w : World) → Step w (adopt me i w)
  readies : (i : ℕ) (w : World) → (w.procs i).state ≡ used → Step w (make_ready i w)
  closes : (me fd : ℕ) (w : World) {w' : World} → close_fd me fd w ≡ ok w' → Step w w'
  drops : (me : ℕ) (w : World) {w' : World} → drop_dir me w ≡ ok w' → Step w w'
  orphans : (me i : ℕ) (w : World) → Step w (orphan me i w)
  ends :
      (c me status : ℕ) (w : World) {w' : World}
      → w.cpu c ≡ some me
      → exit_end c me status w ≡ ok w'
      → Step w w'
  reaps : (me i : ℕ) (w : World) → Step w (reap me i w)

pub data Reach : World → World → Type 0 where
  here : (w : World) → Reach w w
  there : {w w1 w' : World} → Step w w1 → Reach w1 w' → Reach w w'
