-- ===== src/Proc/Zombie.antt =====
-- A process that exits and the parent that waits for it.
use advanced_operating_syste.Prelude.{
  ℕ, zero, suc, ◌+◌, ◌≤◌, ◌<◌, ◌≡◌, ◌≢◌, refl, sym, ap, subst, ◌∙◌, inl, inr, Bool, true, false,
  ◌&&◌, ◌||◌, ◌==◌, none, some, map, ok, deref, >>=-eq-ok, arith, ok-injective, Bool-cases,
}
use advanced_operating_syste.Prelude.Maps.{put, put-at, put-ne}
use advanced_operating_syste.Proc.{
  unused, runnable, zombie, in_exit, Proc, World, nproc, is_proc, is_zombie, chan_of, with_proc,
  freeproc, wakeup, reparent_from, close_all, exit_files, exit_end, exit, wait_scan, found, reaped,
  wait,
}
use advanced_operating_syste.Proc.Steps.Handlers.{no_panic, sched_lem}
use advanced_operating_syste.Proc.Steps.Lives.{wait_scan-found, dying}
use advanced_operating_syste.Proc.Parents.{
  wakeup_self, reparent_self, Awaits, reparent-Awaits, wakeup_parent,
}

-- The table that `exit` leaves, when it does not panic or follow a null pointer.
exit-ends :
    (c me status : ℕ) (w w' : World)
    → exit c me status w ≡ ok w'
    → (w1 : World) × (exit_files me w ≡ ok w1)
      × (w'.procs
          ≡ put (dying me w1).procs me (record ((dying me w1).procs me) {
            xstate = status;
            state = zombie;
            context = in_exit;
          }))
unfolding exit exit_end
exit-ends c me status w w' e =
    let (w1, ran, e') = >>=-eq-ok (exit_files me w) _ (no_panic (me == w.initproc) _ e) in
    (
      w1,
      ran,
      sym (
          ap (λ (t : World). t.procs)
            (sched_lem true ((dying me w1).noff c + 1) false c me
              (with_proc (dying me w1) me (record ((dying me w1).procs me) {
                xstate = status;
                state = zombie;
                context = in_exit;
              }))
              w' e')),
    )

exit_files-ends :
    (me : ℕ) (w w1 : World)
    → exit_files me w ≡ ok w1
    → w1.procs
      ≡ put w.procs me
          (record (w.procs me) { ofile = map (λ _. none) (w.procs me).ofile; cwd = none })
unfolding exit_files
exit_files-ends me w w1 e =
    let ((calls, fs), _, e1) = >>=-eq-ok (close_all (w.procs me).ofile w.files) _ e in
    let (dir, _, e2) = >>=-eq-ok (deref (w.procs me).cwd) _ e1 in
    sym (ap (λ (t : World). t.procs) (ok-injective e2))

-- What is left of a process that has exited.
abbrev pub Exited : ℕ → ℕ → Proc → Proc → Type 0
Exited q status p p' =
    (p'.state ≡ zombie) × (p'.xstate ≡ status) × (p'.pid ≡ p.pid) × (p'.parent ≡ some q)

exit-Exited :
    (c me status q : ℕ) (w w' : World)
    → exit c me status w ≡ ok w'
    → (w.procs me).parent ≡ some q
    → q ≢ me
    → Exited q status (w.procs me) (w'.procs me)
exit-Exited c me status q w w' e par ne =
    let (w1, ran, procs) = exit-ends c me status w w' e in
    let p1 = record (w.procs me) { ofile = map (λ _. none) (w.procs me).ofile; cwd = none } in
    let mine : w1.procs me ≡ p1 =
      ap (λ f. f me) (exit_files-ends me w w1 ran) ∙ put-at w.procs me p1 in
    let other : is_proc (w1.procs me).parent me ≡ false = rw (mine, par) (ground (arith, ne)) in
    let w2 = reparent_from nproc 0 me w1 in
    let same : (dying me w1).procs me ≡ p1 =
      wakeup_self me (chan_of (w2.procs me).parent) w2
      ∙ (reparent_self nproc 0 me w1 other ∙ mine) in
    let p3 = record ((dying me w1).procs me) {
      xstate = status;
      state = zombie;
      context = in_exit;
    } in
    let at : w'.procs me ≡ p3 = ap (λ f. f me) procs ∙ put-at (dying me w1).procs me p3 in
    (
      ap (λ (p : Proc). p.state) at,
      ap (λ (p : Proc). p.xstate) at,
      ap (λ (p : Proc). p.pid) at ∙ ap (λ (p : Proc). p.pid) same,
      ap (λ (p : Proc). p.parent) at ∙ (ap (λ (p : Proc). p.parent) same ∙ par),
    )

-- When `exit` of a process with another process of the table as its parent gets to the scheduler,
-- the parent, if it slept in `wait` or was runnable, is runnable.
pub exit_wakes :
    (c me status q : ℕ) (w w' : World)
    → exit c me status w ≡ ok w'
    → (w.procs me).parent ≡ some q
    → q ≢ me
    → q < nproc
    → Awaits q (w.procs q)
    → (w'.procs q).state ≡ runnable
exit_wakes c me status q w w' e par ne lt a =
    let (w1, ran, procs) = exit-ends c me status w w' e in
    let p1 = record (w.procs me) { ofile = map (λ _. none) (w.procs me).ofile; cwd = none } in
    let mine : w1.procs me ≡ p1 =
      ap (λ f. f me) (exit_files-ends me w w1 ran) ∙ put-at w.procs me p1 in
    let other : is_proc (w1.procs me).parent me ≡ false = rw (mine, par) (ground (arith, ne)) in
    let w2 = reparent_from nproc 0 me w1 in
    let par2 : (w2.procs me).parent ≡ some q =
      ap (λ (p : Proc). p.parent) (reparent_self nproc 0 me w1 other)
      ∙ (ap (λ (p : Proc). p.parent) mine ∙ par) in
    let a1 : Awaits q (w1.procs q) =
      subst (Awaits q)
        (sym (ap (λ f. f q) (exit_files-ends me w w1 ran) ∙ put-ne w.procs me p1 q ne)) a in
    let awake = wakeup_parent me q w2 lt (λ at. ne (sym at)) (reparent-Awaits nproc 0 me q w1 a1) in
    let p3 = record ((dying me w1).procs me) {
      xstate = status;
      state = zombie;
      context = in_exit;
    } in
    ap (λ (p : Proc). p.state) (ap (λ f. f q) procs ∙ put-ne (dying me w1).procs me p3 q ne)
    ∙ (ap (λ ch. ((wakeup (some me) ch w2).procs q).state) (ap chan_of par2) ∙ awake)

-- A scan does not miss a zombie child.
wait_scan-finds :
    (n i q : ℕ) (kids : Bool) (procs : ℕ → Proc) (k : ℕ)
    → i ≤ k
    → k < i + n
    → is_proc (procs k).parent q ≡ true
    → is_zombie (procs k).state ≡ true
    → (k' : ℕ) × (wait_scan n i q true kids procs ≡ found k')
unfolding wait_scan
wait_scan-finds zero i q kids procs k le lt child ended = absurd (omega (arith, le, lt))
wait_scan-finds (suc n) i q kids procs k le lt child ended =
    elim (Bool-cases (is_proc (procs i).parent q && is_zombie (procs i).state)) [
      | inl both ↦ (i, rw both refl)
      | inr neither ↦
          let ne : i ≢ k = λ e.
            let child' : is_proc (procs i).parent q ≡ true =
              ap (λ j. is_proc (procs j).parent q) e ∙ child in
            let ended' : is_zombie (procs i).state ≡ true =
              ap (λ j. is_zombie (procs j).state) e ∙ ended in
            absurd (ground (arith, child', ended', neither)) in
          let (k', at) =
            wait_scan-finds n (i + 1) q (kids || is_proc (procs i).parent q) procs k
              (omega (arith, le, ne)) (omega (arith, lt)) child ended in
          (k', rw neither at)
    ]

-- An entry that is free again.
abbrev pub Freed : Proc → Type 0
Freed p =
    (p.state ≡ unused)
    × (p.pid ≡ 0)
    × (p.parent ≡ none)
    × (p.chan ≡ 0)
    × (p.killed ≡ 0)
    × (p.xstate ≡ 0)
    × (p.sz ≡ 0)

-- When `exit` of a process of the table, with another process as its parent, gets to the
-- scheduler, its entry is a zombie with the status, its pid and its parent, and a `wait` of the
-- parent with an address that it can write comes back with the pid and the status of a zombie
-- child; the entry of that child is then unused, with no pid, parent, channel, memory or status and
-- not killed, and every other entry is as it was.
pub wait-exit :
    (c d me status q : ℕ) (w w' : World)
    → exit c me status w ≡ ok w'
    → (w.procs me).parent ≡ some q
    → q ≢ me
    → me < nproc
    → Exited q status (w.procs me) (w'.procs me)
      × ((k : ℕ) × (is_proc (w'.procs k).parent q ≡ true)
          × (is_zombie (w'.procs k).state ≡ true)
          × ((w'' : World) × (wait d q true w'
                ≡ ok (reaped (w'.procs k).pid (w'.procs k).xstate, w''))
              × Freed (w''.procs k)
              × ((j : ℕ) → j ≢ k → w''.procs j ≡ w'.procs j)))
unfolding wait
wait-exit c d me status q w w' e par ne lt =
    let left = exit-Exited c me status q w w' e par ne in
    let child : is_proc (w'.procs me).parent q ≡ true =
      ap (λ o. is_proc o q) left.3 ∙ ground arith in
    let (k, at) =
      wait_scan-finds nproc 0 q false w'.procs me (omega arith) (omega (arith, lt)) child
        (ap is_zombie left.0) in
    let (is_child, ended) = wait_scan-found nproc 0 q true false w'.procs k at in
    let p = freeproc (w'.procs k) in
    (
      left,
      (
        k,
        is_child,
        ended,
        (
          with_proc w' k p,
          rw (at, wait) refl,
          subst Freed (sym (put-at w'.procs k p)) (refl, refl, refl, refl, refl, refl, refl),
          λ j ne'. put-ne w'.procs k p j ne',
        ),
      ),
    )
