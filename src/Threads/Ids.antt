-- ===== src/Threads/Ids.antt =====
-- Thread numbers. A number is the count of threads at creation, and the count falls when a thread
-- ends: so a number can be given twice, and the end of one thread can clear another's slot.
use advanced_operating_syste.Prelude.{
  ℕ, zero, suc, ◌+◌, ◌<◌, ◌≡◌, ◌≢◌, refl, sym, ap, subst, ◌∙◌, inl, true, some, List, [], ◌∷◌, map,
  length, set, ok, arith, get_or-set_self, get_or-set_ne,
}
use advanced_operating_syste.Prelude.Int.{ℤ, pos, ◌+ℤ◌, ◌-ℤ◌}
use advanced_operating_syste.Threads.Table.{From-self, find-some, find-total, find-lt}
use advanced_operating_syste.Threads.{
  find, Uthread, Threads, no_thread, slot, is_free, is_runnable, same_tid, created, cleared,
  ulthread_init, ulthread_create, ulthread_destroy, Algorithm,
}
use advanced_operating_syste.Threads.Count.{IsValid, SlotOk, count_runnable}

init_slot : (us : List Uthread) (k : ℕ) → SlotOk (slot (map cleared us) k)
init_slot [] k = inl (refl, refl, refl, refl, refl, refl)
init_slot (u ∷ us) zero = inl (refl, refl, refl, refl, refl, refl)
init_slot (u ∷ us) (suc k) = init_slot us k

init_count : (us : List Uthread) → count_runnable (map cleared us) ≡ 0
unfolding count_runnable
init_count [] = refl
init_count (u ∷ us) = omega (arith, init_count us)

-- `ulthread_init` before any thread exists establishes the invariant.
pub ulthread_init-IsValid :
    (algo : Algorithm) (t : Threads) → t.thread_count ≡ pos 1 → IsValid (ulthread_init algo t)
unfolding ulthread_init
ulthread_init-IsValid algo t h = record {
  slots = init_slot t.uthreads;
  counted = h ∙ ap (λ n. pos (n + 1)) (sym (init_count t.uthreads));
}

-- If a live thread has the number that `thread_count` has come down to, `ulthread_create` gives the
-- same number to a second slot, and both threads can run.
pub create_duplicate :
    (start stack : ℕ) (args : List ℕ) (prio : ℤ) (now : ℕ) (t : Threads) (j k : ℕ)
    → is_runnable (slot t.uthreads j) ≡ true
    → (slot t.uthreads j).tid ≡ t.thread_count
    → k < length t.uthreads
    → is_free (slot t.uthreads k) ≡ true
    → (t' : Threads) × (i : ℕ) × (ulthread_create start stack args prio now t ≡ ok t')
      × (i ≢ j)
      × (is_runnable (slot t'.uthreads i) ≡ true)
      × (is_runnable (slot t'.uthreads j) ≡ true)
      × ((slot t'.uthreads i).tid ≡ (slot t'.uthreads j).tid)
unfolding ulthread_create
create_duplicate start stack args prio now t j k run tid lt fr =
    let (i, found) = find-total is_free t.uthreads 0 k lt fr in
    let lt' : i < length t.uthreads = omega (arith, (find-lt is_free t.uthreads 0 i found).1) in
    let at : is_free (slot t.uthreads i) ≡ true =
      find-some is_free t.uthreads t.uthreads 0 i (From-self t.uthreads) found in
    let ne : i ≢ j = λ e.
      conflict (slot t.uthreads j) (subst (λ x. is_free (slot t.uthreads x) ≡ true) e at) run in
    let self = get_or-set_self t.uthreads i new no_thread lt' in
    let other = get_or-set_ne t.uthreads i j new no_thread ne in
    (
      record t { uthreads = set t.uthreads i new; thread_count = t.thread_count +ℤ pos 1 },
      i,
      rw (found, ulthread_create) refl,
      ne,
      ap is_runnable self,
      ap is_runnable other ∙ run,
      ap (λ u. u.tid) self ∙ (sym tid ∙ sym (ap (λ u. u.tid) other)),
    )
  where
    new : Uthread
    new = created t.thread_count start stack args prio now

    conflict : (u : Uthread) → is_free u ≡ true → is_runnable u ≡ true → ⊥
    conflict u p q = ground arith

-- When the current thread ends and an earlier slot holds its number, that slot is cleared and the
-- ended thread stays runnable.
pub destroy_other :
    (t : Threads) (c i : ℕ)
    → t.current ≡ some c
    → is_runnable (slot t.uthreads c) ≡ true
    → find (λ u. same_tid u.tid (slot t.uthreads c).tid) t.uthreads 0 ≡ some i
    → i ≢ c
    → (t' : Threads) × (ulthread_destroy t ≡ ok t')
      × (is_runnable (slot t'.uthreads c) ≡ true)
      × (is_free (slot t'.uthreads i) ≡ true)
unfolding ulthread_destroy
destroy_other t c i cur run found ne = (
  record t {
    uthreads = set t.uthreads i (cleared (slot t.uthreads i));
    last_yielded = some c;
    thread_count = t.thread_count -ℤ pos 1;
  },
  ground (arith, cur, found),
  ap is_runnable (get_or-set_ne t.uthreads i c (cleared (slot t.uthreads i)) no_thread ne) ∙ run,
  ap is_free (get_or-set_self t.uthreads i (cleared (slot t.uthreads i)) no_thread lt),
)
  where
    lt : i < length t.uthreads
    lt =
        omega
          (arith, (find-lt (λ u. same_tid u.tid (slot t.uthreads c).tid) t.uthreads 0 i found).1)
