-- ===== src/Proc/Steps/Lives.antt =====
-- The sections of the calls that begin and end processes keep the invariant.
use advanced_operating_syste.Prelude.{
  ℕ, zero, suc, ◌+◌, ◌%◌, ◌^◌, ◌<◌, ◌≡◌, refl, sym, ap, subst, inl, inr, Bool, true, false, ◌&&◌,
  ◌||◌, Option, get_or, set, Option-cases, none, some, ok, deref, >>=-eq-ok, arith, ok-injective,
  Bool-cases,
}
use advanced_operating_syste.Prelude.Maps.{put, put_all}
use advanced_operating_syste.Files.{fileclose}
use advanced_operating_syste.Proc.{
  used, runnable, in_forkret, Proc, World, nproc, is_proc, is_unused, is_running, is_zombie,
  chan_of, with_proc, freeproc, alloc_found, fork_into, dup_all, inherit, adopt, make_ready, wakeup,
  reparent_from, orphan, close_fd, drop_dir, wait_scan, found, reap,
}
use advanced_operating_syste.Proc.Invariant.{
  IsValid, Numbered, running_same, pids_same, pids_more, pid_new,
}
use advanced_operating_syste.Proc.Steps.Handlers.{
  unused_lem, zombie_lem, calm_at, valid_if, Kept-put,
}

-- The rounds of `exit` before it ends.
pub close_fd-IsValid :
    (me fd : ℕ) (w w' : World) → close_fd me fd w ≡ ok w' → IsValid w → IsValid w'
unfolding close_fd
close_fd-IsValid me fd w w' e v = elim (Option-cases (get_or (w.procs me).ofile fd none)) [
  | inl closed ↦ subst IsValid (ok-injective (rw (closed, close_fd) at e)) v
  | inr (f, opened) ↦
      let ((calls, fs), _, e') = >>=-eq-ok (fileclose f w.files) _ (rw (opened, close_fd) at e) in
      subst IsValid (ok-injective e') (
        calm_at w me (record (w.procs me) { ofile = set (w.procs me).ofile fd none })
          (refl, refl, refl) v)
]

pub drop_dir-IsValid : (me : ℕ) (w w' : World) → drop_dir me w ≡ ok w' → IsValid w → IsValid w'
unfolding drop_dir
drop_dir-IsValid me w w' e v =
    let (dir, _, e') = >>=-eq-ok (deref (w.procs me).cwd) _ e in
    subst IsValid (ok-injective e')
      (calm_at w me (record (w.procs me) { cwd = none }) (refl, refl, refl) v)

pub orphan-IsValid : (me i : ℕ) (w : World) → IsValid w → IsValid (orphan me i w)
orphan-IsValid me i w v =
    valid_if (is_proc (w.procs i).parent me) w
      (with_proc w i (record (w.procs i) { parent = some w.initproc }))
      (calm_at w i (record (w.procs i) { parent = some w.initproc }) (refl, refl, refl) v) v

-- What `exit` hands to `sched`.
abbrev pub dying : ℕ → World → World
dying me w1 =
    let w2 = reparent_from nproc 0 me w1 in wakeup (some me) (chan_of (w2.procs me).parent) w2

-- An entry that is freed.
freed :
    (w : World) (i : ℕ)
    → is_running (w.procs i).state ≡ false
    → IsValid w
    → IsValid (with_proc w i (freeproc (w.procs i)))
freed w i off (v, n) =
    let p = freeproc (w.procs i) in
    (
      running_same w.procs (put w.procs i p) w.cpu
          (put_all (λ j (q : Proc). is_running q.state ≡ is_running (w.procs j).state) w.procs i p
            (sym off) (λ j _. refl))
          v,
      pids_same w.procs (put w.procs i p) w.nextpid (Kept-put w.procs i p (inl refl)) n,
    )

-- What a scan of `wait` finds is a zombie child.
pub wait_scan-found :
    (n i me : ℕ) (copied kids : Bool) (procs : ℕ → Proc) (k : ℕ)
    → wait_scan n i me copied kids procs ≡ found k
    → (is_proc (procs k).parent me ≡ true) × (is_zombie (procs k).state ≡ true)
unfolding wait_scan
wait_scan-found zero i me copied kids procs k e = absurd (cc e)
wait_scan-found (suc n) i me copied kids procs k e =
    let child = is_proc (procs i).parent me in
    let ended = is_zombie (procs i).state in
    elim (Bool-cases (child && ended)) [
      | inl both ↦ elim (Bool-cases copied) [
        | inl can ↦
            let at : i ≡ k = found-injective i k (rw (both, can, wait_scan) at e) in
            let is_child : child ≡ true = ground (arith, both) in
            let is_ended : ended ≡ true = ground (arith, both) in
            subst (λ j. (is_proc (procs j).parent me ≡ true) × (is_zombie (procs j).state ≡ true))
              at (is_child, is_ended)
        | inr cannot ↦ absurd (cc (rw (both, cannot, wait_scan) at e))
      ]
      | inr neither ↦
          wait_scan-found n (i + 1) me copied (kids || child) procs k (rw (neither, wait_scan) at e)
    ]
  where
    found-injective : (a b : ℕ) → found a ≡ found b → a ≡ b
    found-injective a b eq = cc eq

pub reap-IsValid : (me i : ℕ) (w : World) → IsValid w → IsValid (reap me i w)
reap-IsValid me i w v =
    elim (Bool-cases (is_proc (w.procs i).parent me && is_zombie (w.procs i).state)) [
      | inl both ↦
          let ended : is_zombie (w.procs i).state ≡ true = ground (arith, both) in
          rw both (freed w i (zombie_lem (w.procs i).state ended) v)
      | inr neither ↦ rw neither v
    ]

pub alloc_found-IsValid :
    (pages : Bool) (w : World) (i : ℕ)
    → w.nextpid + 1 < 2 ^ 32
    → is_unused (w.procs i).state ≡ true
    → IsValid w
    → IsValid (alloc_found pages w i).1
alloc_found-IsValid true w i lt free (v, n) =
    let p = record (w.procs i) { pid = w.nextpid; state = used; context = in_forkret } in
    let next : suc w.nextpid ≡ (w.nextpid + 1) % 2 ^ 32 = ground (arith, lt) in
    (
      running_same w.procs (put w.procs i p) w.cpu
          (put_all (λ j (q : Proc). is_running q.state ≡ is_running (w.procs j).state) w.procs i p
            (sym (unused_lem (w.procs i).state free)) (λ j _. refl))
          v,
      subst (Numbered (put w.procs i p)) next (pid_new w.procs w.nextpid i p refl n),
    )
alloc_found-IsValid false w i lt free (v, n) =
    let p = freeproc (w.procs i) in
    (
      running_same w.procs (put w.procs i p) w.cpu
          (put_all (λ j (q : Proc). is_running q.state ≡ is_running (w.procs j).state) w.procs i p
            (sym (unused_lem (w.procs i).state free)) (λ j _. refl))
          v,
      pids_more (put w.procs i p) w.nextpid ((w.nextpid + 1) % 2 ^ 32) (ground (arith, lt))
          (pids_same w.procs (put w.procs i p) w.nextpid (Kept-put w.procs i p (inl refl)) n),
    )

pub fork_into-IsValid :
    (me : ℕ) (copied : Bool) (w : World) (i : ℕ)
    → (w.procs i).state ≡ used
    → (r : Option ℕ) (w' : World) → fork_into me copied w i ≡ ok (r, w')
    → IsValid w
    → IsValid w'
unfolding fork_into
fork_into-IsValid me false w i at r w' e v =
    subst (λ (x : Option ℕ × World). IsValid x.1) (ok-injective e) (freed w i (ap is_running at) v)
fork_into-IsValid me true w i at r w' e v =
    let (fs, _, e1) = >>=-eq-ok (dup_all (w.procs me).ofile w.files) _ e in
    let (dir, _, e2) = >>=-eq-ok (deref (w.procs me).cwd) _ e1 in
    let p = record (w.procs i) {
      sz = (w.procs me).sz;
      ofile = inherit (w.procs me).ofile (w.procs i).ofile;
      cwd = some dir;
    } in
    subst (λ (x : Option ℕ × World). IsValid x.1) (ok-injective e2)
      (calm_at w i p (refl, refl, refl) v)

pub adopt-IsValid : (me i : ℕ) (w : World) → IsValid w → IsValid (adopt me i w)
adopt-IsValid me i w v = calm_at w i (record (w.procs i) { parent = some me }) (refl, refl, refl) v

pub make_ready-IsValid :
    (i : ℕ) (w : World) → (w.procs i).state ≡ used → IsValid w → IsValid (make_ready i w)
make_ready-IsValid i w at v =
    calm_at w i (record (w.procs i) { state = runnable })
      (sym (ap is_running at), sym (ap is_unused at), refl) v
