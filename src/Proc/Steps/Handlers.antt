-- ===== src/Proc/Steps/Handlers.antt =====
-- What the calls do to an entry under its lock keeps the invariant.
use advanced_operating_syste.Prelude.{
  ℕ, ◌≡◌, ◌≢◌, refl, sym, ap, subst, ◌∙◌, inl, inr, Bool, true, false, not, ◌&&◌, ◌==◌,
  if◌then◌else◌, Option, none, some, Outcome, ok, panic, ◌+◌, arith, ok-injective, Bool-cases,
}
use advanced_operating_syste.Prelude.Maps.{put, put-at, put-ne, put_all}
use advanced_operating_syste.Proc.{
  ProcState, unused, used, sleeping, runnable, running, zombie, in_yield, in_sleep, is_in_sleep,
  Proc, World, is_proc, is_unused, is_sleeping, is_runnable, is_running, is_zombie, with_proc,
  wake_one, wake_at, kill_one, kill_at, exit_end, in_exit, setkilled, sched, sleep, schedule, yield,
}
use advanced_operating_syste.Proc.Invariant.{
  IsValid, Calm, Kept, Calm-put, calm-IsValid, leave, enter, pids_same,
}

running_lem : (s : ProcState) → is_running s ≡ true → is_unused s ≡ false
running_lem unused e = absurd (cc e)
running_lem used e = refl
running_lem sleeping e = refl
running_lem runnable e = refl
running_lem running e = refl
running_lem zombie e = absurd (cc e)

sleeping_lem :
    (s : ProcState) → is_sleeping s ≡ true → (is_running s ≡ false) × (is_unused s ≡ false)
sleeping_lem unused e = absurd (cc e)
sleeping_lem used e = absurd (cc e)
sleeping_lem sleeping e = (refl, refl)
sleeping_lem runnable e = absurd (cc e)
sleeping_lem running e = absurd (cc e)
sleeping_lem zombie e = absurd (cc e)

runnable_lem :
    (s : ProcState) → is_runnable s ≡ true → (is_running s ≡ false) × (is_unused s ≡ false)
runnable_lem unused e = absurd (cc e)
runnable_lem used e = absurd (cc e)
runnable_lem sleeping e = absurd (cc e)
runnable_lem runnable e = (refl, refl)
runnable_lem running e = absurd (cc e)
runnable_lem zombie e = absurd (cc e)

pub zombie_lem : (s : ProcState) → is_zombie s ≡ true → is_running s ≡ false
zombie_lem unused e = refl
zombie_lem used e = refl
zombie_lem sleeping e = refl
zombie_lem runnable e = refl
zombie_lem running e = absurd (cc e)
zombie_lem zombie e = refl

pub unused_lem : (s : ProcState) → is_unused s ≡ true → is_running s ≡ false
unused_lem unused e = refl
unused_lem used e = refl
unused_lem sleeping e = refl
unused_lem runnable e = refl
unused_lem running e = absurd (cc e)
unused_lem zombie e = refl

-- A process made runnable out of its sleep.
woken-Calm : (p : Proc) → is_sleeping p.state ≡ true → Calm p (record p { state = runnable })
woken-Calm p e = let (off, in_use) = sleeping_lem p.state e in (sym off, sym in_use, refl)

pub calm_at :
    (w : World) (i : ℕ) (p : Proc) → Calm (w.procs i) p → IsValid w → IsValid (with_proc w i p)
calm_at w i p calm v = calm-IsValid w (put w.procs i p) (Calm-put w.procs i p calm) v

pub valid_if : (b : Bool) (w w' : World) → IsValid w' → IsValid w → IsValid (if b then w' else w)
valid_if true w w' done v = done
valid_if false w w' done v = v

pub wake_at-IsValid :
    (me : Option ℕ) (chan i : ℕ) (w : World) → IsValid w → IsValid (wake_at me chan i w)
wake_at-IsValid me chan i w v = elim (Bool-cases (is_proc me i)) [
  | inl self ↦ rw self v
  | inr other ↦ rw other (calm_at w i (wake_one chan (w.procs i)) (woken (w.procs i)) v)
]
  where
    woken : (p : Proc) → Calm p (wake_one chan p)
    woken p = elim (Bool-cases (is_sleeping p.state && p.chan == chan)) [
      | inl yes_woken ↦
          let asleep : is_sleeping p.state ≡ true = ground (arith, yes_woken) in
          rw yes_woken (woken-Calm p asleep)
      | inr left_alone ↦ rw left_alone (refl, refl, refl)
    ]

Calm-killed : (p : Proc) → Calm p (kill_one p)
Calm-killed p = elim (Bool-cases (is_sleeping p.state)) [
  | inl asleep ↦ rw asleep (woken-Calm p asleep)
  | inr awake ↦ rw awake (refl, refl, refl)
]

pub kill_at-IsValid : (pid i : ℕ) (w : World) → IsValid w → IsValid (kill_at pid i w)
kill_at-IsValid pid i w v =
    valid_if ((w.procs i).pid == pid) w (with_proc w i (kill_one (w.procs i)))
      (calm_at w i (kill_one (w.procs i)) (Calm-killed (w.procs i)) v) v

pub setkilled-IsValid : (i : ℕ) (w : World) → IsValid w → IsValid (setkilled i w)
setkilled-IsValid i w v = calm_at w i (record (w.procs i) { killed = 1 }) (refl, refl, refl) v

running_elsewhere :
    (procs : ℕ → Proc) (me : ℕ) (p : Proc) (i : ℕ)
    → i ≢ me
    → is_running (put procs me p i).state ≡ is_running (procs i).state
running_elsewhere procs me p i ne = ap (λ (q : Proc). is_running q.state) (put-ne procs me p i ne)

pub Kept-put :
    (procs : ℕ → Proc) (i : ℕ) (p : Proc)
    → Kept (procs i) p
    → (j : ℕ) → Kept (procs j) (put procs i p j)
Kept-put procs i p kept = put_all (λ j q. Kept (procs j) q) procs i p kept (λ j _. inr (refl, refl))

pub schedule-IsValid : (c i : ℕ) (w : World) → w.cpu c ≡ none → IsValid w → IsValid (schedule c i w)
unfolding schedule
schedule-IsValid c i w idle (v, n) =
    let p = w.procs i in
    let p' = record p { state = running; chan = if is_in_sleep p.context then 0 else p.chan } in
    elim (Bool-cases (is_runnable p.state)) [
      | inl ready ↦
          let (off, in_use) = runnable_lem p.state ready in
          rw (ready, schedule)
            (
              enter w.procs (put w.procs i p') w.cpu c i idle off
                  (ap (λ (q : Proc). is_running q.state) (put-at w.procs i p'))
                  (running_elsewhere w.procs i p') v,
              pids_same w.procs (put w.procs i p') w.nextpid
                  (Kept-put w.procs i p' (inr (sym in_use, refl))) n,
            )
      | inr other ↦ rw (other, schedule) (v, n)
    ]

pub no_panic :
    (b : Bool) (x : Outcome World) {w' : World} → (if b then panic else x) ≡ ok w' → x ≡ ok w'
no_panic true x e = absurd (cc e)
no_panic false x e = e

-- What `sched` leaves where it does not panic.
pub sched_lem :
    (held : Bool) (noff : ℕ) (intr : Bool) (c me : ℕ) (w w' : World)
    → sched held noff intr c me w ≡ ok w'
    → record w { cpu = put w.cpu c none } ≡ w'
unfolding sched
sched_lem held noff intr c me w w' e = ok-injective (
    no_panic intr _ (
      no_panic (is_running (w.procs me).state) _
        (no_panic (not (noff == 1)) _ (no_panic (not held) _ e))))

-- The running process gives up its CPU.
pub gives_up :
    (depth c me : ℕ) (w : World) (p' : Proc) (w' : World)
    → w.cpu c ≡ some me
    → is_running p'.state ≡ false
    → is_unused p'.state ≡ false
    → p'.pid ≡ (w.procs me).pid
    → sched true depth false c me (with_proc w me p') ≡ ok w'
    → IsValid w
    → IsValid w'
gives_up depth c me w p' w' on off in_use same_pid e (v, n) =
    let procs' = put w.procs me p' in
    let at : is_running (procs' me).state ≡ false =
      ap (λ (q : Proc). is_running q.state) (put-at w.procs me p') ∙ off in
    subst IsValid (sched_lem true depth false c me (with_proc w me p') w' e) (
      leave w.procs procs' w.cpu c me on at (running_elsewhere w.procs me p') v,
      pids_same w.procs procs' w.nextpid
          (Kept-put w.procs me p'
            (inr (in_use ∙ sym (running_lem (w.procs me).state (v.runs c me on)), same_pid)))
          n,
    )

pub yield-IsValid :
    (c me : ℕ) (w w' : World) → w.cpu c ≡ some me → yield c me w ≡ ok w' → IsValid w → IsValid w'
unfolding yield
yield-IsValid c me w w' on e v =
    gives_up (w.noff c + 1) c me w (record (w.procs me) { state = runnable; context = in_yield }) w'
      on refl refl refl e v

pub sleep-IsValid :
    (depth c me chan : ℕ) (w w' : World)
    → w.cpu c ≡ some me
    → sleep depth c me chan w ≡ ok w'
    → IsValid w
    → IsValid w'
unfolding sleep
sleep-IsValid depth c me chan w w' on e v =
    gives_up depth c me w
      (record (w.procs me) { chan = chan; state = sleeping; context = in_sleep }) w' on refl refl
      refl e v

pub exit_end-IsValid :
    (c me status : ℕ) (w w' : World)
    → w.cpu c ≡ some me
    → exit_end c me status w ≡ ok w'
    → IsValid w
    → IsValid w'
unfolding exit_end
exit_end-IsValid c me status w w' on e v =
    gives_up (w.noff c + 1) c me w
      (record (w.procs me) { xstate = status; state = zombie; context = in_exit }) w' on refl refl
      refl e v
