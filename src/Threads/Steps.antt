-- ===== src/Threads/Steps.antt =====
-- Sequences of calls of the thread library.
use advanced_operating_syste.Prelude.{
  ℕ, ◌<◌, ◌≡◌, sym, subst, ◌∙◌, true, Option, some, List, ok, ok-injective,
}
use advanced_operating_syste.Prelude.Int.{ℤ}
use advanced_operating_syste.Threads.{
  Threads, slot, is_runnable, max_word, ulthread_create, ulthread_yield, ulthread_destroy,
}
use advanced_operating_syste.Threads.Count.{
  IsValid, ulthread_create-IsValid, ulthread_yield-IsValid, ulthread_destroy-IsValid,
}

-- A call of the library up to its switch of contexts, on behalf of a current thread that can run, or
-- a choice of the scheduler.
pub data Call : Threads → Threads → Type 0 where
  creates :
      (start stack : ℕ) (args : List ℕ) (prio : ℤ) (now : ℕ) (t : Threads) {t' : Threads}
      → now < max_word
      → ulthread_create start stack args prio now t ≡ ok t'
      → Call t t'
  yields :
      (now : ℕ) (t : Threads) (c : ℕ) {t' : Threads}
      → now < max_word
      → t.current ≡ some c
      → is_runnable (slot t.uthreads c) ≡ true
      → ulthread_yield now t ≡ ok t'
      → Call t t'
  destroys :
      (t : Threads) (c : ℕ) {t' : Threads}
      → t.current ≡ some c
      → is_runnable (slot t.uthreads c) ≡ true
      → ulthread_destroy t ≡ ok t'
      → Call t t'
  schedules : (t : Threads) (c : Option ℕ) → Call t (record t { current = c })

pub data Calls : Threads → Threads → Type 0 where
  done : (t : Threads) → Calls t t
  call : {t t1 t' : Threads} → Call t t1 → Calls t1 t' → Calls t t'

call-IsValid : (t t' : Threads) → Call t t' → IsValid t → IsValid t'
call-IsValid t t' (creates start stack args prio now _ lt e) v =
    ulthread_create-IsValid start stack args prio now t lt v e
call-IsValid t t' (yields now _ c lt cur run e) v =
    let (t1, ran, valid) = ulthread_yield-IsValid now t c lt v cur run in
    subst IsValid (ok-injective (sym ran ∙ e)) valid
call-IsValid t t' (destroys _ c cur run e) v =
    let (t1, ran, valid) = ulthread_destroy-IsValid t c v cur run in
    subst IsValid (ok-injective (sym ran ∙ e)) valid
call-IsValid t _ (schedules _ c) v = record { slots = v.slots; counted = v.counted }

-- Along every sequence of creations, yields, ends and choices the number of threads that can run is
-- thread_count - 1, and free slots are cleared: tid and priority are -1, and time, start function and
-- stack pointer the largest word.
pub Calls-IsValid : (t t' : Threads) → Calls t t' → IsValid t → IsValid t'
Calls-IsValid t _ (done _) v = v
Calls-IsValid t t' (call {t1 = t1} first rest) v =
    Calls-IsValid t1 t' rest (call-IsValid t t1 first v)
