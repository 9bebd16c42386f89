-- ===== src/Swap/Handler.antt =====
-- The heap branch of `page_fault_handler`.
use advanced_operating_syste.Prelude.{
  ℕ, ◌+◌, ◌-◌, ◌*◌, ◌/◌, ◌==◌, Bool, true, false, if◌then◌else◌, Option, none, some, List, [], ◌∷◌,
  Outcome, ok, ◌>>=◌,
}
use advanced_operating_syste.Swap.{
  HeapPage, Heap, tracked, page_size, max_res_heap, map_page, evict_page_to_disk,
  retrieve_page_from_disk,
}

-- The first entry from `i` on with the address of the faulting page.
unfoldable pub entry_of : ℕ → List HeapPage → ℕ → Option ℕ
entry_of va [] i = none
entry_of va (p ∷ ps) i = let rest = entry_of va ps (i + 1) in if p.addr == va then some i else rest

-- The loop that stamps every entry with the address.
unfoldable pub stamp : ℕ → ℕ → List HeapPage → List HeapPage
stamp va now [] = []
stamp va now (p ∷ ps) =
    (if p.addr == va then record p { last_load_time = now } else p) ∷ stamp va now ps

abbrev pub page_up : ℕ → ℕ
page_up a = (a + page_size - 1) / page_size * page_size

-- A page faulted on for the first time: `uvmalloc(p->pagetable, sz, sz + PGSIZE, PTE_W)`, a zeroed
-- page at the end of the process, wherever the fault was.
-- `p->sz` takes what `uvmalloc` returns, which is 0 where it finds no memory.
unfoldable pub grow : Bool → Heap → Outcome Heap
grow false h = ok (record h { sz = 0 })
grow true h = do
  space ← map_page h.space (page_up h.sz) (λ _. 0)
  ok (record h { space = space; sz = h.sz + page_size })

-- `if (p->resident_heap_pages == MAXRESHEAP)`
unfoldable pub make_room : Bool → Heap → Outcome Heap
make_room got h =
    if h.resident_heap_pages == max_res_heap
    then (do
      h1 ← evict_page_to_disk got h
      ok (record h1 { resident_heap_pages = h1.resident_heap_pages - 1 }))
    else ok h

-- Whether there is memory: for the kernel page of the eviction and of the return, and for `uvmalloc`.
pub record Memory : Type 0 where
  pub for_evict : Bool
  pub for_retrieve : Bool
  pub for_user : Bool

-- `none` where the page is no heap page, which the handler then treats otherwise. `now` is the
-- timestamp that it reads at the end.
unfoldable pub handle_heap : Memory → ℕ → ℕ → Heap → Outcome (Option Heap)
handle_heap m faulting_addr now h =
    let va = faulting_addr / page_size * page_size in
    elim (entry_of va h.heap_tracker 0) [
      | none ↦ ok none
      | some i ↦ do
        h1 ← make_room m.for_evict h
        h2 ←
            (if (tracked h1.heap_tracker i).loaded
              then retrieve_page_from_disk m.for_retrieve m.for_user va h1
              else grow m.for_user h1)
        ok (
            some (record h2 {
              heap_tracker = stamp va now h2.heap_tracker;
              resident_heap_pages = h2.resident_heap_pages + 1;
            }))
    ]
