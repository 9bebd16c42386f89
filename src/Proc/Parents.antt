-- ===== src/Proc/Parents.antt =====
-- What `wakeup` and `reparent` leave of a process that exits and of its parent.
use advanced_operating_syste.Prelude.{
  ℕ, zero, suc, ◌+◌, ◌<◌, ◌≡◌, ◌≢◌, refl, sym, ap, subst, ◌∙◌, ◌⊎◌, inl, inr, Bool, true, false,
  not, ◌&&◌, ◌==◌, ltb, if◌then◌else◌, some, arith, ℕ_discrete, Bool-cases,
}
use advanced_operating_syste.Prelude.Maps.{put, put-at, put-ne}
use advanced_operating_syste.Proc.{
  sleeping, runnable, Proc, World, nproc, is_proc, is_sleeping, chan_of, with_proc, wakeup,
  reparent_from,
}
use advanced_operating_syste.Proc.Wakeup.{wakeup_lem}

-- The process that exits is passed over by its own calls of `wakeup` and by `reparent`.
pub wakeup_self : (me chan : ℕ) (w : World) → (wakeup (some me) chan w).procs me ≡ w.procs me
wakeup_self me chan w =
    let out : ltb me nproc
          && not (is_proc (some me) me)
          && is_sleeping (w.procs me).state
          && (w.procs me).chan == chan
        ≡ false =
      ground arith in
    wakeup_lem (some me) chan w me
    ∙ ap (λ b. if b then record (w.procs me) { state = runnable } else w.procs me) out

pub reparent_self :
    (n i me : ℕ) (w : World)
    → is_proc (w.procs me).parent me ≡ false
    → (reparent_from n i me w).procs me ≡ w.procs me
unfolding reparent_from
reparent_self zero i me w other = refl
reparent_self (suc n) i me w other =
    let w1 = with_proc w i (record (w.procs i) { parent = some w.initproc }) in
    let w2 = wakeup (some me) (chan_of (some w.initproc)) w1 in
    elim (Bool-cases (is_proc (w.procs i).parent me)) [
      | inl child ↦
          let ne : me ≢ i = λ e. cc (child, other, ap (λ k. is_proc (w.procs k).parent me) e) in
          let same : w2.procs me ≡ w.procs me =
            wakeup_self me (chan_of (some w.initproc)) w1
            ∙ put-ne w.procs i (record (w.procs i) { parent = some w.initproc }) me ne in
          rw (child, reparent_from)
            (reparent_self n (i + 1) me w2 (ap (λ (p : Proc). is_proc p.parent me) same ∙ other)
              ∙ same)
      | inr no_child ↦ rw (no_child, reparent_from) (reparent_self n (i + 1) me w other)
    ]

-- A process that waits for its children, or is on its way back from there.
abbrev pub Awaits : ℕ → Proc → Type 0
Awaits q p = (p.state ≡ runnable) ⊎ ((p.state ≡ sleeping) × (p.chan ≡ chan_of (some q)))

pub Awaits-if :
    (b : Bool) (q : ℕ) (p : Proc)
    → Awaits q p
    → Awaits q (if b then record p { state = runnable } else p)
Awaits-if true q p a = inl refl
Awaits-if false q p a = a

pub wakeup-Awaits :
    (me chan q : ℕ) (w : World)
    → Awaits q (w.procs q)
    → Awaits q ((wakeup (some me) chan w).procs q)
wakeup-Awaits me chan q w a = subst (Awaits q) (sym (wakeup_lem (some me) chan w q)) (
    Awaits-if
      (ltb q nproc
        && not (is_proc (some me) q)
        && is_sleeping (w.procs q).state
        && (w.procs q).chan == chan)
      q (w.procs q) a)

pub reparent-Awaits :
    (n i me q : ℕ) (w : World) → Awaits q (w.procs q) → Awaits q ((reparent_from n i me w).procs q)
unfolding reparent_from
reparent-Awaits zero i me q w a = a
reparent-Awaits (suc n) i me q w a =
    let p = record (w.procs i) { parent = some w.initproc } in
    let w1 = with_proc w i p in
    let w2 = wakeup (some me) (chan_of (some w.initproc)) w1 in
    elim (Bool-cases (is_proc (w.procs i).parent me)) [
      | inl child ↦
          let a1 : Awaits q (w1.procs q) = elim (ℕ_discrete q i) [
            | yes e ↦
                subst (Awaits q) (sym (ap (put w.procs i p) e ∙ put-at w.procs i p))
                  (subst (λ k. Awaits q (w.procs k)) e a)
            | no ne ↦ subst (Awaits q) (sym (put-ne w.procs i p q ne)) a
          ] in
          rw (child, reparent_from)
            (reparent-Awaits n (i + 1) me q w2
              (wakeup-Awaits me (chan_of (some w.initproc)) q w1 a1))
      | inr no_child ↦ rw (no_child, reparent_from) (reparent-Awaits n (i + 1) me q w a)
    ]

pub wakeup_parent :
    (me q : ℕ) (w : World)
    → q < nproc
    → me ≢ q
    → Awaits q (w.procs q)
    → ((wakeup (some me) (chan_of (some q)) w).procs q).state ≡ runnable
wakeup_parent me q w lt ne (inl e) =
    let cond =
      ltb q nproc
      && not (is_proc (some me) q)
      && is_sleeping (w.procs q).state
      && (w.procs q).chan == q + 1 in
    ap (λ (p : Proc). p.state) (wakeup_lem (some me) (q + 1) w q) ∙ either cond
  where
    either :
        (b : Bool)
        → (if b then record (w.procs q) { state = runnable } else w.procs q).state ≡ runnable
    either true = refl
    either false = e
wakeup_parent me q w lt ne (inr (e, at)) =
    let awake : is_sleeping (w.procs q).state ≡ true = ap is_sleeping e in
    let cond : ltb q nproc
          && not (is_proc (some me) q)
          && is_sleeping (w.procs q).state
          && (w.procs q).chan == q + 1
        ≡ true =
      ground (arith, lt, ne, awake, at) in
    ap (λ (p : Proc). p.state)
      (wakeup_lem (some me) (q + 1) w q
        ∙ ap (λ b. if b then record (w.procs q) { state = runnable } else w.procs q) cond)
