-- ===== src/Swap.antt =====
-- Demand paging of the heap, kernel/pfault.c of assignment 2: the heap pages of a process, their
-- eviction to the page save area (PSA) of the disk and their return. User memory is seen a page at
-- a time, as `copyin`, `copyout`, `uvmalloc` and `uvmunmap` act on one page.
pub mod Victim
pub mod Regions
pub mod Evict
pub mod Trip
pub mod Handler
pub mod Room
pub mod Start
pub mod Steps
mod Tests
use advanced_operating_syste.Prelude.{
  ℕ, zero, suc, ◌+◌, ◌-◌, ◌*◌, ◌/◌, ◌%◌, ◌^◌, ◌≤◌, ◌<◌, ◌≡◌, ◌≢◌, refl, sym, ap, subst, ◌∙◌,
  fun_ext, ◌↔◌, ◌⊎◌, inl, inr, Bool, true, false, not, ◌&&◌, ◌||◌, ◌==◌, ltb, leb, if◌then◌else◌,
  bit_and, bit_or, Option, none, some, List, [], ◌∷◌, ◌++◌, map, length, get_elem?, get_or, set,
  take, drop, replicate, Outcome, ok, panic, fault, deref, ◌>>=◌, >>=-eq-ok, arith, ℕ_discrete,
  if_cases, ok-injective, Bool-cases, Option-cases, get_or-set_self, get_or-set_ne, length-set,
  set-set, set-get_or,
}

-- MAXHEAP, MAXRESHEAP, PSASTART, PSASIZE.
abbrev pub max_heap : ℕ
max_heap = 1000

abbrev pub max_res_heap : ℕ
max_res_heap = 100

abbrev pub psa_start : ℕ
psa_start = 33

abbrev pub psa_size : ℕ
psa_size = 4000

abbrev pub page_size : ℕ
page_size = 4096

abbrev pub block_size : ℕ
block_size = 1024

-- `struct heap_tracker_t`. In this program `loaded` is set while the page is on disk. A
-- `startblock` of -1 is `none`.
pub record HeapPage : Type 0 where
  pub addr : ℕ
  pub last_load_time : ℕ
  pub loaded : Bool
  pub startblock : Option ℕ

-- A page or a block of the disk: its bytes by their offset.
abbrev pub Data : Type 0
Data = ℕ → ℕ

-- The process' heap and its memory, with `psa_tracker` and the disk: user pages by their address,
-- `none` where none is mapped.
pub record Heap : Type 0 where
  pub heap_tracker : List HeapPage
  pub resident_heap_pages : ℕ
  pub sz : ℕ
  pub space : ℕ → Option Data
  pub psa_tracker : List Bool
  pub disk : ℕ → Data

abbrev pub no_page : HeapPage
no_page = record {
  addr = 2 ^ 64 - 1;
  last_load_time = 2 ^ 64 - 1;
  loaded = false;
  startblock = none;
}

abbrev pub tracked : List HeapPage → ℕ → HeapPage
tracked ps i = get_or ps i no_page

-- `init_psa_regions`; `exit` calls it too.
unfoldable pub init_psa_regions : Heap → Heap
init_psa_regions h = record h { psa_tracker = replicate psa_size false }

-- The first false entry from `i` on, of `n`; 0 where there is none.
unfoldable pub free_block : ℕ → List Bool → ℕ → ℕ
free_block zero psa i = 0
free_block (suc n) psa i =
    let rest = free_block n psa (i + 1) in if get_or psa i true then rest else i

-- The search of `evict_page_to_disk` for the page loaded first, from the entry `i` on; `best` is
-- `victim_page_index`, `none` for -1.
abbrev pub better : List HeapPage → HeapPage → Option ℕ → Bool
better ps p none = true
better ps p (some b) = ltb p.last_load_time (tracked ps b).last_load_time

unfoldable pub victim_from : List HeapPage → List HeapPage → ℕ → Option ℕ → Option ℕ
victim_from ps [] i best = best
victim_from ps (p ∷ rest) i best =
    victim_from ps rest (i + 1) (if not p.loaded && better ps p best then some i else best)

-- `psa_tracker[b] = v; ...; psa_tracker[b + 3] = v;`
unfoldable pub mark : List Bool → ℕ → Bool → List Bool
mark psa b v = set (set (set (set psa b v) (b + 1) v) (b + 2) v) (b + 3) v

abbrev pub put {ℓ} : {A : Type ℓ} → (ℕ → A) → ℕ → A → ℕ → A
put f k v q = if k == q then v else f q

-- `memmove(b->data, kernel_page + 1024 * i, 1024)` for a block, and the four blocks of a page.
abbrev pub part : Data → ℕ → Data
part page i o = page (block_size * i + o)

unfoldable pub write_page : (ℕ → Data) → ℕ → Data → ℕ → Data
write_page disk b page =
    put (put (put (put disk b (part page 0)) (b + 1) (part page 1)) (b + 2) (part page 2)) (b + 3)
      (part page 3)

-- The kernel page after the four reads.
unfoldable pub read_page : (ℕ → Data) → ℕ → Data
read_page disk b o = disk (b + o / block_size) (o % block_size)

-- What `copyin` leaves in a fresh kernel page: the user page, or, where none is mapped, the junk of
-- `kalloc` (its result is not looked at).
abbrev pub fetched : Option Data → Data
fetched (some page) = page
fetched none = λ _. 5

-- `got` says whether `kalloc` finds a page; its null pointer is used as it is.
unfoldable pub evict_page_to_disk : Bool → Heap → Outcome Heap
evict_page_to_disk got h =
    let blockno = free_block (psa_size - psa_start) h.psa_tracker 0 in
    let victim = victim_from h.heap_tracker h.heap_tracker 0 none in
    elim victim [
      | none ↦ fault
      | some v ↦
          let p = tracked h.heap_tracker v in
          if got
          then ok (record h {
            heap_tracker =
                set h.heap_tracker v (record p { loaded = true; startblock = some blockno });
            psa_tracker = mark h.psa_tracker blockno true;
            disk = write_page h.disk (psa_start + blockno) (fetched (h.space p.addr));
            space = put h.space p.addr none;
          })
          else fault
    ]

-- The loop over the tracker in `retrieve_page_from_disk`: the start block of the last entry on disk
-- with the address, and the entries with `loaded` taken back.
abbrev pub on_disk : ℕ → HeapPage → Bool
on_disk va p = p.addr == va && p.loaded

unfoldable pub take_block : ℕ → List HeapPage → Option ℕ → Option ℕ
take_block va [] b = b
take_block va (p ∷ ps) b = take_block va ps (if on_disk va p then p.startblock else b)

unfoldable pub take_back : ℕ → List HeapPage → List HeapPage
take_back va [] = []
take_back va (p ∷ ps) = (if on_disk va p then record p { loaded = false } else p) ∷ take_back va ps

-- `uvmalloc` of the page at `va`, where it finds memory: `mappages` panics where one is mapped.
abbrev pub map_page : (ℕ → Option Data) → ℕ → Data → Outcome (ℕ → Option Data)
map_page space va page = elim (space va) [ some _ ↦ panic | none ↦ ok (put space va (some page)) ]

-- `uvmalloc` and then `copyout`, whose results are not looked at: without memory the bytes still go to
-- a page that is mapped, and nowhere where none is.
abbrev pub bring_back : Bool → (ℕ → Option Data) → ℕ → Data → Outcome (ℕ → Option Data)
bring_back true space va page = map_page space va page
bring_back false space va page =
    ok (elim (space va) [ some _ ↦ put space va (some page) | none ↦ space ])

-- `got` says whether `kalloc` finds the kernel page, whose null pointer is used as it is, and `mapped`
-- whether `uvmalloc` finds memory.
unfoldable pub retrieve_page_from_disk : Bool → Bool → ℕ → Heap → Outcome Heap
retrieve_page_from_disk got mapped va h = elim (take_block va h.heap_tracker none) [
  | none ↦ ok (record h { heap_tracker = take_back va h.heap_tracker })
  | some b ↦
      if got
      then (do
        space ← bring_back mapped h.space va (read_page h.disk (psa_start + b))
        ok (record h {
          heap_tracker = take_back va h.heap_tracker;
          space = space;
          psa_tracker = mark h.psa_tracker b false;
        }))
      else fault
]
