-- ===== src/Proc/Invariant.antt =====
-- One process to a CPU, and one pid to a process.
use advanced_operating_syste.Prelude.{
  ℕ, suc, ◌≤◌, ◌<◌, ◌≡◌, ◌≢◌, refl, sym, ap, subst, ◌∙◌, ◌⊎◌, inl, inr, true, false, Option, none,
  some, arith, ℕ_discrete,
}
use advanced_operating_syste.Prelude.Maps.{put, put-at, put-ne, put_all}
use advanced_operating_syste.Proc.{Proc, World, is_running, is_unused}

-- A CPU has a running process and no other CPU has it; a running process is on a CPU.
pub record Scheduled (procs : ℕ → Proc) (cpu : ℕ → Option ℕ) : Type 0 where
  pub runs : (c i : ℕ) → cpu c ≡ some i → is_running (procs i).state ≡ true
  pub on_cpu : (i : ℕ) → is_running (procs i).state ≡ true → (c : ℕ) × (cpu c ≡ some i)
  pub one_cpu : (c d i : ℕ) → cpu c ≡ some i → cpu d ≡ some i → c ≡ d

-- Processes have different pids, below the next one.
pub record Numbered (procs : ℕ → Proc) (nextpid : ℕ) : Type 0 where
  pub below : (i : ℕ) → is_unused (procs i).state ≡ false → (procs i).pid < nextpid
  pub own_pid :
      (i j : ℕ)
      → is_unused (procs i).state ≡ false
      → is_unused (procs j).state ≡ false
      → (procs i).pid ≡ (procs j).pid
      → i ≡ j

abbrev pub IsValid : World → Type 0
IsValid w = Scheduled w.procs w.cpu × Numbered w.procs w.nextpid

-- Changes that leave every entry as much running.
pub running_same :
    (procs procs' : ℕ → Proc) (cpu : ℕ → Option ℕ)
    → ((i : ℕ) → is_running (procs' i).state ≡ is_running (procs i).state)
    → Scheduled procs cpu
    → Scheduled procs' cpu
running_same procs procs' cpu same v = record {
  runs = λ c i at. same i ∙ v.runs c i at;
  on_cpu = λ i at. v.on_cpu i (sym (same i) ∙ at);
  one_cpu = v.one_cpu;
}

-- The process of a CPU leaves it.
pub leave :
    (procs procs' : ℕ → Proc) (cpu : ℕ → Option ℕ) (c me : ℕ)
    → cpu c ≡ some me
    → is_running (procs' me).state ≡ false
    → ((i : ℕ) → i ≢ me → is_running (procs' i).state ≡ is_running (procs i).state)
    → Scheduled procs cpu
    → Scheduled procs' (put cpu c none)
leave procs procs' cpu c me mine off same v = record {
  runs = λ d i at.
      let (ne, on) = elsewhere d i at in
      let other : i ≢ me = λ e. ne (v.one_cpu d c me (on ∙ ap some e) mine) in
      same i other ∙ v.runs d i on;
  on_cpu = λ i at.
      let other : i ≢ me = λ e. absurd (cc (at, off, ap (λ k. is_running (procs' k).state) e)) in
      let (d, on) = v.on_cpu i (sym (same i other) ∙ at) in
      let ne : d ≢ c = λ e. other (cc (on, mine, ap cpu e)) in (d, put-ne cpu c none d ne ∙ on);
  one_cpu = λ d d' i at at'.
      let (_, on) = elsewhere d i at in
      let (_, on') = elsewhere d' i at' in v.one_cpu d d' i on on';
}
  where
    elsewhere : (d i : ℕ) → put cpu c none d ≡ some i → (d ≢ c) × (cpu d ≡ some i)
    elsewhere d i at = elim (ℕ_discrete d c) [
      | yes e ↦ absurd (cc (at, subst (λ k. put cpu c none k ≡ none) (sym e) (put-at cpu c none)))
      | no ne ↦ (ne, sym (put-ne cpu c none d ne) ∙ at)
    ]

-- A CPU without a process takes one that is not running.
pub enter :
    (procs procs' : ℕ → Proc) (cpu : ℕ → Option ℕ) (c me : ℕ)
    → cpu c ≡ none
    → is_running (procs me).state ≡ false
    → is_running (procs' me).state ≡ true
    → ((i : ℕ) → i ≢ me → is_running (procs' i).state ≡ is_running (procs i).state)
    → Scheduled procs cpu
    → Scheduled procs' (put cpu c (some me))
enter procs procs' cpu c me idle off on_now same v = record {
  runs = λ d i at. elim (ℕ_discrete d c) [
    | yes e ↦ subst (λ k. is_running (procs' k).state ≡ true) (here d i e at) on_now
    | no ne ↦ same i (other d i (away d i ne at)) ∙ v.runs d i (away d i ne at)
  ];
  on_cpu = λ i at. elim (ℕ_discrete i me) [
    | yes e ↦ (c, put-at cpu c (some me) ∙ ap some (sym e))
    | no ne ↦
        let (d, on) = v.on_cpu i (sym (same i ne) ∙ at) in
        (d, put-ne cpu c (some me) d (λ e. absurd (cc (on, idle, ap cpu e))) ∙ on)
  ];
  one_cpu = λ d d' i at at'. elim (ℕ_discrete d c) [
    | yes e ↦ elim (ℕ_discrete d' c) [
      | yes e' ↦ e ∙ sym e'
      | no ne' ↦ absurd (other d' i (away d' i ne' at') (sym (here d i e at)))
    ]
    | no ne ↦ elim (ℕ_discrete d' c) [
      | yes e' ↦ absurd (other d i (away d i ne at) (sym (here d' i e' at')))
      | no ne' ↦ v.one_cpu d d' i (away d i ne at) (away d' i ne' at')
    ]
  ];
}
  where
    here : (d i : ℕ) → d ≡ c → put cpu c (some me) d ≡ some i → me ≡ i
    here d i e at =
        let mine : put cpu c (some me) d ≡ some me =
          subst (λ k. put cpu c (some me) k ≡ some me) (sym e) (put-at cpu c (some me)) in
        cc (at, mine)

    away : (d i : ℕ) → d ≢ c → put cpu c (some me) d ≡ some i → cpu d ≡ some i
    away d i ne at = sym (put-ne cpu c (some me) d ne) ∙ at

    other : (d i : ℕ) → cpu d ≡ some i → i ≢ me
    other d i on e = absurd (cc (v.runs d i on, off, ap (λ k. is_running (procs k).state) e))

-- An entry that is now unused, or has the pid that it had.
abbrev pub Kept : Proc → Proc → Type 0
Kept p p' =
    (is_unused p'.state ≡ true) ⊎ ((is_unused p'.state ≡ is_unused p.state) × (p'.pid ≡ p.pid))

Kept-used :
    (p p' : Proc)
    → Kept p p'
    → is_unused p'.state ≡ false
    → (is_unused p.state ≡ false) × (p'.pid ≡ p.pid)
Kept-used p p' (inl free) in_use = absurd (cc (free, in_use))
Kept-used p p' (inr (same, e)) in_use = (sym same ∙ in_use, e)

pub pids_same :
    (procs procs' : ℕ → Proc) (nextpid : ℕ)
    → ((i : ℕ) → Kept (procs i) (procs' i))
    → Numbered procs nextpid
    → Numbered procs' nextpid
pids_same procs procs' nextpid kept v = record {
  below = λ i at. let (was, e) = Kept-used (procs i) (procs' i) (kept i) at in rw e (v.below i was);
  own_pid = λ i j at at' same.
      let (was, e) = Kept-used (procs i) (procs' i) (kept i) at in
      let (was', e') = Kept-used (procs j) (procs' j) (kept j) at' in
      v.own_pid i j was was' (sym e ∙ (same ∙ e'));
}

pub pids_more : (procs : ℕ → Proc) (n m : ℕ) → n ≤ m → Numbered procs n → Numbered procs m
pids_more procs n m le v = record {
  below = λ i at. let lt = v.below i at in omega (arith, le, lt);
  own_pid = v.own_pid;
}

-- A process gets the next pid.
pub pid_new :
    (procs : ℕ → Proc) (nextpid i : ℕ) (p : Proc)
    → p.pid ≡ nextpid
    → Numbered procs nextpid
    → Numbered (put procs i p) (suc nextpid)
pid_new procs nextpid i p fresh v = record {
  below =
      put_all (λ _ q. is_unused q.state ≡ false → q.pid < suc nextpid) procs i p
        (λ _. omega (arith, fresh)) (λ j _ at. let lt = v.below j at in omega (arith, lt));
  own_pid = λ j k at at' same. elim (ℕ_discrete j i) [
    | yes e ↦ elim (ℕ_discrete k i) [
      | yes e' ↦ e ∙ sym e'
      | no ne' ↦ absurd (clash j k e ne' at' same)
    ]
    | no ne ↦ elim (ℕ_discrete k i) [
      | yes e' ↦ absurd (clash k j e' ne at (sym same))
      | no ne' ↦ v.own_pid j k (old j ne at) (old k ne' at') (
          sym (ap (λ (q : Proc). q.pid) (put-ne procs i p j ne))
          ∙ (same ∙ ap (λ (q : Proc). q.pid) (put-ne procs i p k ne')))
    ]
  ];
}
  where
    old :
        (j : ℕ)
        → j ≢ i
        → is_unused (put procs i p j).state ≡ false
        → is_unused (procs j).state ≡ false
    old j ne at = sym (ap (λ (q : Proc). is_unused q.state) (put-ne procs i p j ne)) ∙ at

    clash :
        (j k : ℕ)
        → j ≡ i
        → k ≢ i
        → is_unused (put procs i p k).state ≡ false
        → ¬ ((put procs i p j).pid ≡ (put procs i p k).pid)
    clash j k e ne at same =
        let mine : (put procs i p j).pid ≡ nextpid =
          subst (λ l. (put procs i p l).pid ≡ nextpid) (sym e)
            (ap (λ (q : Proc). q.pid) (put-at procs i p) ∙ fresh) in
        let theirs : (put procs i p k).pid ≡ (procs k).pid =
          ap (λ (q : Proc). q.pid) (put-ne procs i p k ne) in
        let lt = v.below k (old k ne at) in omega (arith, mine, theirs, same, lt)

-- An entry that stays as much in use and as much running, with its pid.
abbrev pub Calm : Proc → Proc → Type 0
Calm p p' =
    (is_running p'.state ≡ is_running p.state)
    × (is_unused p'.state ≡ is_unused p.state)
    × (p'.pid ≡ p.pid)

pub Calm-refl : (p : Proc) → Calm p p
Calm-refl p = (refl, refl, refl)

pub Calm-trans : (p q r : Proc) → Calm p q → Calm q r → Calm p r
Calm-trans p q r (a, b, c) (a', b', c') = (a' ∙ a, b' ∙ b, c' ∙ c)

pub Calm-put :
    (procs : ℕ → Proc) (i : ℕ) (p : Proc)
    → Calm (procs i) p
    → (j : ℕ) → Calm (procs j) (put procs i p j)
Calm-put procs i p calm =
    put_all (λ j q. Calm (procs j) q) procs i p calm (λ j _. Calm-refl (procs j))

pub calm-IsValid :
    (w : World) (procs : ℕ → Proc)
    → ((i : ℕ) → Calm (w.procs i) (procs i))
    → IsValid w
    → IsValid (record w { procs = procs })
calm-IsValid w procs calm (v, n) = (
  running_same w.procs procs w.cpu (λ i. (calm i).0) v,
  pids_same w.procs procs w.nextpid (λ i. inr ((calm i).1, (calm i).2)) n,
)
