-- ===== src/Swap/Tests.antt =====
-- Demand paging at a small heap.
use advanced_operating_syste.Prelude.{
  ℕ, zero, suc, ◌+◌, ◌≤◌, ◌<◌, ◌≡◌, ◌≢◌, refl, true, false, none, some, List, [], ◌∷◌, replicate,
  Outcome, ok, panic, fault, Option, arith,
}
use advanced_operating_syste.Swap.{
  HeapPage, Heap, tracked, psa_size, put, mark, victim_from, evict_page_to_disk, take_block,
  free_block, retrieve_page_from_disk, init_psa_regions,
}
use advanced_operating_syste.Swap.Victim.{victim_oldest}
use advanced_operating_syste.Swap.Regions.{IsValid, used, evicted}
use advanced_operating_syste.Swap.Steps.{evicts, returns, trip, done, Trips-IsValid}
use advanced_operating_syste.Swap.Trip.{Unique, returned}
use advanced_operating_syste.Swap.Handler.{
  Memory, page_up, handle_heap, make_room, grow, entry_of, stamp,
}
use advanced_operating_syste.Swap.Start.{init_psa_regions-IsValid, handle_heap_bound}

abbrev resident_page : ℕ → ℕ → HeapPage
resident_page a t = record { addr = a; last_load_time = t; loaded = false; startblock = none }

abbrev two_pages : List HeapPage
two_pages = resident_page 0x4000 7 ∷ resident_page 0x5000 3 ∷ []

abbrev started : Heap
started = record {
  heap_tracker = two_pages;
  resident_heap_pages = 2;
  sz = 0x6000;
  space = λ a. some (λ o. a + o);
  psa_tracker = [];
  disk = λ _ _. 0;
}

resident : (k : ℕ) → (tracked two_pages k).loaded ≡ false
resident zero = refl
resident (suc zero) = refl
resident (suc (suc k)) = refl

victim_oldest_example :
    (v : ℕ) × (victim_from two_pages two_pages 0 none ≡ some v)
    × ((tracked two_pages v).loaded ≡ false)
    × ((j : ℕ)
        → j < 2
        → (tracked two_pages j).loaded ≡ false
        → (tracked two_pages v).last_load_time ≤ (tracked two_pages j).last_load_time)
victim_oldest_example = victim_oldest two_pages 0 (omega arith) refl

two_pages-Unique : Unique two_pages
two_pages-Unique zero zero a b e = refl
two_pages-Unique zero (suc zero) a b e = absurd (omega (arith, e))
two_pages-Unique (suc zero) zero a b e = absurd (omega (arith, e))
two_pages-Unique (suc zero) (suc zero) a b e = refl
two_pages-Unique (suc (suc j)) k a b e = absurd (omega (arith, a))
two_pages-Unique j (suc (suc k)) a b e = absurd (omega (arith, b))

abbrev ready : Heap
ready = record started { psa_tracker = replicate psa_size false }

ready-IsValid : IsValid ready
unfolding init_psa_regions
ready-IsValid = (init_psa_regions-IsValid started resident).0

ready-free : used ready.psa_tracker 0 ≡ false
ready-free = refl

-- The first fault at the end of the process.
abbrev at_end : Heap
at_end = record {
  heap_tracker = resident_page 0x6000 0 ∷ [];
  resident_heap_pages = 1;
  sz = 0x6000;
  space = λ _. none;
  psa_tracker = [];
  disk = λ _ _. 0;
}

abbrev grown : Heap
grown = record {
  heap_tracker = resident_page 0x6000 40 ∷ [];
  resident_heap_pages = 2;
  sz = 0x7000;
  space = put (λ _. none) 0x6000 (some (λ _. 0));
  psa_tracker = [];
  disk = λ _ _. 0;
}

abbrev enough : Memory
enough = record { for_evict = true; for_retrieve = true; for_user = true }

first_fault : handle_heap enough 0x6010 40 at_end ≡ ok (some grown)
unfolding handle_heap make_room grow retrieve_page_from_disk entry_of stamp
first_fault = refl

-- A fault while as many pages are resident as may be: the page at 0x4000 makes room.
abbrev full : Heap
full = record at_end {
  heap_tracker = resident_page 0x4000 3 ∷ resident_page 0x6000 9 ∷ [];
  resident_heap_pages = 100;
  space = put (λ _. none) 0x4000 (some (λ _. 7));
}

abbrev served : Outcome (Option Heap) → Heap
served (ok (some h)) = h
served (ok none) = at_end
served panic = at_end
served fault = at_end

abbrev made_room : Heap
unfolding handle_heap make_room grow retrieve_page_from_disk entry_of stamp evict_page_to_disk
    victim_from free_block mark
made_room = served (handle_heap enough 0x6010 40 full)

full_fault : handle_heap enough 0x6010 40 full ≡ ok (some made_room)
unfolding handle_heap make_room grow retrieve_page_from_disk entry_of stamp evict_page_to_disk
    victim_from free_block mark
full_fault = refl

handle_heap_bound_example :
    (made_room.resident_heap_pages ≤ 100)
    × (full.resident_heap_pages ≡ 100
        → (v : ℕ) × (victim_from full.heap_tracker full.heap_tracker 0 none ≡ some v)
          × (0x6000 ≢ (tracked full.heap_tracker v).addr
              → page_up full.sz ≢ (tracked full.heap_tracker v).addr
              → made_room.space (tracked full.heap_tracker v).addr ≡ none))
handle_heap_bound_example =
    handle_heap_bound enough 0x6010 40 full {h' = made_room} (omega arith) full_fault

-- The second page goes out and comes back.
one_out-runs : evict_page_to_disk true ready ≡ ok (evicted ready 1 0)
unfolding evict_page_to_disk victim_from mark free_block
one_out-runs = refl

both_back :
    retrieve_page_from_disk true true 0x5000 (evicted ready 1 0)
    ≡ ok (returned (evicted ready 1 0) 0x5000 0)
unfolding retrieve_page_from_disk take_block
both_back = refl

Trips-IsValid_example :
    IsValid (returned (evicted ready 1 0) 0x5000 0)
    × Unique (returned (evicted ready 1 0) 0x5000 0).heap_tracker
Trips-IsValid_example =
    Trips-IsValid ready (returned (evicted ready 1 0) 0x5000 0)
      (trip (evicts {h = ready} 0 0 (omega arith) refl (omega arith) ready-free one_out-runs) (
        trip (returns {h = evicted ready 1 0} 1 true (omega arith) refl both_back)
          (done (returned (evicted ready 1 0) 0x5000 0))))
      ready-IsValid two_pages-Unique
