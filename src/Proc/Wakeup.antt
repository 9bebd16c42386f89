-- ===== src/Proc/Wakeup.antt =====
-- What `wakeup` and `kill` do to the table.
use advanced_operating_syste.Prelude.{
  ℕ, zero, suc, ◌+◌, ◌≤◌, ◌<◌, ◌≡◌, ◌≢◌, refl, sym, ap, subst, ◌∙◌, ◌⊎◌, inl, inr, Bool, true,
  false, not, ◌&&◌, ◌==◌, ltb, leb, if◌then◌else◌, Option, arith, ℕ_discrete, Bool-cases,
}
use advanced_operating_syste.Prelude.Maps.{put, put-at, put-ne}
use advanced_operating_syste.Proc.{
  Proc, World, nproc, is_proc, is_sleeping, ProcState, unused, used, sleeping, runnable, running,
  zombie, wake_one, wake_from, wakeup, kill_one, kill_from, kill,
}

abbrev seen : ℕ → ℕ → Option ℕ → ℕ → Bool
seen n i me j = leb i j && ltb j (i + n) && not (is_proc me j)

wake_from_lem :
    (n i : ℕ) (me : Option ℕ) (chan : ℕ) (procs : ℕ → Proc) (j : ℕ)
    → wake_from n i me chan procs j ≡ (if seen n i me j then wake_one chan (procs j) else procs j)
unfolding wake_from
wake_from_lem zero i me chan procs j = let out : seen 0 i me j ≡ false = ground arith in rw out refl
wake_from_lem (suc n) i me chan procs j = elim (Bool-cases (is_proc me i)) [
  | inl self ↦
      rw (self, wake_from)
        (wake_from_lem n (i + 1) me chan procs j ∙ elim (ℕ_discrete j i) [
          | yes e ↦
              let out : seen n (i + 1) me j ≡ false = ground (arith, e) in
              let out' : seen (suc n) i me j ≡ false = ground (arith, e, self) in
              rw (out, out') refl
          | no ne ↦ same ne
        ])
  | inr other ↦
      rw (other, wake_from)
        (wake_from_lem n (i + 1) me chan (put procs i (wake_one chan (procs i))) j
          ∙ elim (ℕ_discrete j i) [
            | yes e ↦
                let out : seen n (i + 1) me j ≡ false = ground (arith, e) in
                let in' : seen (suc n) i me j ≡ true = ground (arith, e, other) in
                rw (out, in')
                  (subst (λ k. put procs i (wake_one chan (procs i)) k ≡ wake_one chan (procs k))
                    (sym e) (put-at procs i (wake_one chan (procs i))))
            | no ne ↦ rw (put-ne procs i (wake_one chan (procs i)) j ne) (same ne)
          ])
]
  where
    same :
        j ≢ i
        → (if seen n (i + 1) me j then wake_one chan (procs j) else procs j)
          ≡ (if seen (suc n) i me j then wake_one chan (procs j) else procs j)
    same ne = let e : seen n (i + 1) me j ≡ seen (suc n) i me j = ground (arith, ne) in rw e refl

-- `wakeup` makes every other process of the table that sleeps on the channel runnable, and changes
-- no entry beside.
pub wakeup_lem :
    (me : Option ℕ) (chan : ℕ) (w : World) (j : ℕ)
    → (wakeup me chan w).procs j ≡ (
        if ltb j nproc
          && not (is_proc me j)
          && is_sleeping (w.procs j).state
          && (w.procs j).chan == chan
        then record (w.procs j) { state = runnable }
        else w.procs j)
unfolding wakeup
wakeup_lem me chan w j = wake_from_lem nproc 0 me chan w.procs j ∙ ground arith

-- A process that is told to end: `killed` is set, and if it slept, it can run.
abbrev pub marked : Proc → Proc
marked p = elim p.state [
  | unused ↦ record p { killed = 1 }
  | used ↦ record p { killed = 1 }
  | sleeping ↦ record p { killed = 1; state = runnable }
  | runnable ↦ record p { killed = 1 }
  | running ↦ record p { killed = 1 }
  | zombie ↦ record p { killed = 1 }
]

kill_one_lem : (p : Proc) → kill_one p ≡ marked p
kill_one_lem p = by_state p.state
  where
    by_state : (s : ProcState) → kill_one (record p { state = s }) ≡ marked (record p { state = s })
    by_state unused = refl
    by_state used = refl
    by_state sleeping = refl
    by_state runnable = refl
    by_state running = refl
    by_state zombie = refl

-- What `kill` comes to on a table: the first entry with the pid, or none with it.
abbrev Killed : ℕ → ℕ → ℕ → (ℕ → Proc) → Bool × (ℕ → Proc) → Type 0
Killed n i pid procs r =
    ((r.0 ≡ true)
      × ((k : ℕ) × (i ≤ k)
          × (k < i + n)
          × ((procs k).pid ≡ pid)
          × ((j : ℕ) → i ≤ j → j < k → (procs j).pid ≢ pid)
          × (r.1 ≡ put procs k (marked (procs k)))))
    ⊎ ((r.0 ≡ false) × (r.1 ≡ procs) × ((j : ℕ) → i ≤ j → j < i + n → (procs j).pid ≢ pid))

kill_from_lem : (n i pid : ℕ) (procs : ℕ → Proc) → Killed n i pid procs (kill_from n i pid procs)
unfolding kill_from
kill_from_lem zero i pid procs = inr (refl, refl, λ j le lt. absurd (omega (arith, le, lt)))
kill_from_lem (suc n) i pid procs = elim (ℕ_discrete (procs i).pid pid) [
  | yes e ↦
      let here : (procs i).pid == pid ≡ true = ground (arith, e) in
      rw here (
        inl (
          refl,
          (
            i,
            omega arith,
            omega arith,
            e,
            (λ j le lt. absurd (omega (arith, le, lt))),
            ap (put procs i) (kill_one_lem (procs i)),
          ),
        ))
  | no ne ↦
      let away : (procs i).pid == pid ≡ false = ground (arith, ne) in
      rw away (later ne (kill_from_lem n (i + 1) pid procs))
]
  where
    before :
        (procs i).pid ≢ pid
        → (j : ℕ) → i ≤ j
        → (i + 1 ≤ j → (procs j).pid ≢ pid)
        → (procs j).pid ≢ pid
    before ne j le rest = elim (ℕ_discrete j i) [
      | yes e ↦ subst (λ k. (procs k).pid ≢ pid) (sym e) ne
      | no other ↦ rest (omega (arith, le, other))
    ]

    later :
        (procs i).pid ≢ pid
        → Killed n (i + 1) pid procs (kill_from n (i + 1) pid procs)
        → Killed (suc n) i pid procs (kill_from n (i + 1) pid procs)
    later ne (inl (done, (k, le, lt, at, first, eq))) = inl (
      done,
      (
        k,
        omega (arith, le),
        omega (arith, lt),
        at,
        (λ j j_le j_lt. before ne j j_le (λ le'. first j le' j_lt)),
        eq,
      ),
    )
    later ne (inr (failed, eq, nobody)) =
        inr
          (failed, eq, λ j j_le j_lt. before ne j j_le (λ le'. nobody j le' (omega (arith, j_lt))))

-- `kill` marks the first entry with the pid as killed, makes it runnable if it sleeps, and leaves
-- every other one; it returns -1, changing nothing, if and only if no entry has the pid.
pub kill_lem :
    (pid : ℕ) (w : World)
    → (((kill pid w).0 ≡ true)
        × ((k : ℕ) × (k < nproc)
            × ((w.procs k).pid ≡ pid)
            × ((j : ℕ) → j < k → (w.procs j).pid ≢ pid)
            × ((kill pid w).1.procs ≡ put w.procs k (marked (w.procs k)))))
      ⊎ ((kill pid w ≡ (false, w)) × ((j : ℕ) → j < nproc → (w.procs j).pid ≢ pid))
unfolding kill
kill_lem pid w = elim (kill_from_lem nproc 0 pid w.procs) [
  | inl (done, (k, le, lt, at, first, eq)) ↦
      inl (done, (k, omega (arith, lt), at, (λ j j_lt. first j (omega arith) j_lt), eq))
  | inr (failed, eq, nobody) ↦ inr (
    ap (λ b. (b, record w { procs = (kill_from nproc 0 pid w.procs).1 })) failed
        ∙ ap (λ ps. (false, record w { procs = ps })) eq,
    λ j j_lt. nobody j (omega arith) (omega (arith, j_lt)),
  )
]
