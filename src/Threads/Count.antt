-- ===== src/Threads/Count.antt =====
-- The invariant of the thread table: a slot is free and cleared or holds a thread that can run, and
-- `thread_count` is one more than the number of those.
use advanced_operating_syste.Prelude.{
  ℕ, zero, suc, ◌+◌, ◌<◌, ◌≡◌, refl, sym, ap, subst, ◌∙◌, ◌⊎◌, inl, inr, Bool, true, false,
  if◌then◌else◌, some, List, [], ◌∷◌, length, set, ok, fault, arith, ℕ_discrete, ok-injective,
  Option-cases, get_or-set_self, get_or-set_ne,
}
use advanced_operating_syste.Prelude.Int.{ℤ, pos, negsuc, ◌≤ℤ◌, ◌+ℤ◌, ◌-ℤ◌}
use advanced_operating_syste.Threads.Table.{From-self, find-some, find-total, find-lt, runnable-lt}
use advanced_operating_syste.Threads.{
  find, free, runnable, round_robin, priority, fcfs, Uthread, Threads, no_thread, slot, is_free,
  is_runnable, same_tid, created, cleared, max_word, ulthread_create, ulthread_yield,
  ulthread_destroy,
}

unfoldable pub weight : Uthread → ℕ
weight u = if is_runnable u then 1 else 0

unfoldable pub count_runnable : List Uthread → ℕ
unfolding weight
count_runnable [] = 0
count_runnable (u ∷ us) = weight u + count_runnable us

-- A free slot is as `ulthread_init` left it, but for its context; a thread has a number of its own and a real time.
abbrev pub SlotOk : Uthread → Type 0
SlotOk u =
    ((u.state ≡ free)
      × (u.tid ≡ negsuc 0)
      × (u.time ≡ max_word)
      × (u.prio ≡ negsuc 0)
      × (u.start_func ≡ max_word)
      × (u.stack_pointer ≡ max_word))
    ⊎ ((u.state ≡ runnable) × (pos 0 ≤ℤ u.tid) × (u.time < max_word))

pub record IsValid (t : Threads) : Type 0 where
  pub slots : (k : ℕ) → SlotOk (slot t.uthreads k)
  pub counted : t.thread_count ≡ pos (count_runnable t.uthreads + 1)

count-set :
    (us : List Uthread) (i : ℕ) (v : Uthread)
    → i < length us
    → count_runnable (set us i v) + weight (slot us i) ≡ count_runnable us + weight v
unfolding count_runnable
count-set [] i v h = elim h [ ]
count-set (u ∷ us) zero v h = omega arith
count-set (u ∷ us) (suc i) v h = omega (arith, count-set us i v (omega arith))

slots-set :
    (us : List Uthread) (i : ℕ) (v : Uthread)
    → i < length us
    → ((k : ℕ) → SlotOk (slot us k))
    → SlotOk v
    → (k : ℕ) → SlotOk (slot (set us i v) k)
slots-set us i v h all new k = elim (ℕ_discrete i k) [
  | yes e ↦
      subst SlotOk (sym (ap (slot (set us i v)) (sym e) ∙ get_or-set_self us i v no_thread h)) new
  | no ne ↦ subst SlotOk (sym (get_or-set_ne us i k v no_thread ne)) (all k)
]

weight-free : (u : Uthread) → is_free u ≡ true → weight u ≡ 0
unfolding weight
weight-free u h = ground arith

weight-runnable : (u : Uthread) → is_runnable u ≡ true → weight u ≡ 1
unfolding weight
weight-runnable u h = ground arith

-- `ulthread_create` keeps the invariant.
pub ulthread_create-IsValid :
    (start stack : ℕ) (args : List ℕ) (prio : ℤ) (now : ℕ) (t : Threads) {t' : Threads}
    → now < max_word
    → IsValid t
    → ulthread_create start stack args prio now t ≡ ok t'
    → IsValid t'
unfolding ulthread_create ◌+ℤ◌
ulthread_create-IsValid start stack args prio now t h v e =
    elim (Option-cases (find is_free t.uthreads 0)) [
      | inl none_free ↦ absurd (cc (rw (none_free, ulthread_create) at e))
      | inr (i, found) ↦
          subst IsValid (ok-injective (rw (found, ulthread_create) at e)) (made i found)
    ]
  where
    made :
        (i : ℕ)
        → find is_free t.uthreads 0 ≡ some i
        → IsValid (record t {
          uthreads = set t.uthreads i (created t.thread_count start stack args prio now);
          thread_count = t.thread_count +ℤ pos 1;
        })
    made i found =
        let u = created t.thread_count start stack args prio now in
        let lt : i < length t.uthreads = omega (arith, (find-lt is_free t.uthreads 0 i found).1) in
        record {
          slots = slots-set t.uthreads i u lt v.slots (inr (refl, ground (arith, v.counted), h));
          counted = ground (
            arith,
            v.counted,
            count-set t.uthreads i u lt,
            weight-free (slot t.uthreads i)
                (find-some is_free t.uthreads t.uthreads 0 i (From-self t.uthreads) found),
            weight-runnable u refl,
          );
        }

-- With no free slot `ulthread_create` writes outside the table.
pub ulthread_create-full :
    (start stack : ℕ) (args : List ℕ) (prio : ℤ) (now : ℕ) (t : Threads)
    → ((k : ℕ) → k < length t.uthreads → is_free (slot t.uthreads k) ≡ false)
    → ulthread_create start stack args prio now t ≡ fault
unfolding ulthread_create
ulthread_create-full start stack args prio now t full =
    elim (Option-cases (find is_free t.uthreads 0)) [
      | inl none_free ↦ rw (none_free, ulthread_create) refl
      | inr (i, found) ↦
          let lt : i < length t.uthreads =
            omega (arith, (find-lt is_free t.uthreads 0 i found).1) in
          let is : is_free (slot t.uthreads i) ≡ true =
            find-some is_free t.uthreads t.uthreads 0 i (From-self t.uthreads) found in
          absurd (cc (full i lt))
    ]

-- `ulthread_yield` keeps the invariant.
pub ulthread_yield-IsValid :
    (now : ℕ) (t : Threads) (c : ℕ)
    → now < max_word
    → IsValid t
    → t.current ≡ some c
    → is_runnable (slot t.uthreads c) ≡ true
    → (t' : Threads) × (ulthread_yield now t ≡ ok t') × IsValid t'
unfolding ulthread_yield
ulthread_yield-IsValid now t c h v cur run =
    elim (t.schedalgo) as (λ a. t.schedalgo ≡ a → Goal) [
      | round_robin ↦ λ a. (stamped, ground (arith, cur, a), stamped-IsValid)
      | priority ↦ λ a. (stamped, ground (arith, cur, a), stamped-IsValid)
      | fcfs ↦ λ a. (
        record t { last_yielded = some c },
        ground (arith, cur, a),
        record { slots = v.slots; counted = v.counted },
      )
    ]
      refl
  where
    Goal : Type 0
    Goal = (t' : Threads) × (ulthread_yield now t ≡ ok t') × IsValid t'

    u : Uthread
    u = record (slot t.uthreads c) { time = now }

    stamped : Threads
    stamped = record t { uthreads = set t.uthreads c u; last_yielded = some c }

    lt : c < length t.uthreads
    lt = runnable-lt t.uthreads c run

    here : SlotOk u
    here = ground (arith, v.slots c, run, h)

    stamped-IsValid : IsValid stamped
    stamped-IsValid = record {
      slots = slots-set t.uthreads c u lt v.slots here;
      counted = ground (
        arith,
        v.counted,
        count-set t.uthreads c u lt,
        weight-runnable (slot t.uthreads c) run,
        weight-runnable u run,
      );
    }

-- `ulthread_destroy` of a current thread that can run succeeds and keeps the invariant.
pub ulthread_destroy-IsValid :
    (t : Threads) (c : ℕ)
    → IsValid t
    → t.current ≡ some c
    → is_runnable (slot t.uthreads c) ≡ true
    → (t' : Threads) × (ulthread_destroy t ≡ ok t') × IsValid t'
unfolding ulthread_destroy ◌-ℤ◌
ulthread_destroy-IsValid t c v cur run =
    let (i, found) = find-total same t.uthreads 0 c (runnable-lt t.uthreads c run) (ground arith) in
    let lt : i < length t.uthreads = omega (arith, (find-lt same t.uthreads 0 i found).1) in
    let tids : same (slot t.uthreads i) ≡ true =
      find-some same t.uthreads t.uthreads 0 i (From-self t.uthreads) found in
    let runs : is_runnable (slot t.uthreads i) ≡ true =
      ground (arith, tids, run, v.slots i, v.slots c) in
    (
      ended i,
      ground (arith, cur, found),
      record {
        slots =
            slots-set t.uthreads i (cleared (slot t.uthreads i)) lt v.slots
              (inl (refl, refl, refl, refl, refl, refl));
        counted = ground (
          arith,
          v.counted,
          count-set t.uthreads i (cleared (slot t.uthreads i)) lt,
          weight-runnable (slot t.uthreads i) runs,
          weight-free (cleared (slot t.uthreads i)) refl,
        );
      },
    )
  where
    same : Uthread → Bool
    same u = same_tid u.tid (slot t.uthreads c).tid

    ended : ℕ → Threads
    ended i = record t {
      uthreads = set t.uthreads i (cleared (slot t.uthreads i));
      last_yielded = some c;
      thread_count = t.thread_count -ℤ pos 1;
    }
