-- ===== src/Swap/Trip.antt =====
-- The way of a page to the disk and back.
use advanced_operating_syste.Prelude.{
  ℕ, zero, suc, ◌+◌, ◌*◌, ◌≤◌, ◌<◌, ◌≡◌, ◌≢◌, refl, sym, ap, ◌∙◌, inl, inr, true, false,
  if◌then◌else◌, Option, none, some, List, [], ◌∷◌, length, ok, arith, ℕ_discrete, Bool-cases,
  dec_lt,
}
use advanced_operating_syste.Swap.{
  HeapPage, Heap, tracked, psa_start, page_size, mark, put, read_page, fetched, take_block,
  take_back, on_disk, map_page, retrieve_page_from_disk,
}
use advanced_operating_syste.Swap.Regions.{mark_lem, length-mark, IsValid, read_page-apart, evicted}
use advanced_operating_syste.Swap.Evict.{Evicted, tracked-evicted, moved_to, other_region}

-- No entry of the list is on disk with the address.
take_block_none :
    (va : ℕ) (ps : List HeapPage) (b : Option ℕ)
    → ((j : ℕ) → j < length ps → on_disk va (tracked ps j) ≡ false)
    → take_block va ps b ≡ b
unfolding take_block
take_block_none va [] b none_there = refl
take_block_none va (p ∷ ps) b none_there =
    rw (none_there 0 (omega arith))
      (take_block_none va ps b (λ j lt. none_there (suc j) (omega (arith, lt))))

-- The one entry on disk with the address gives the block.
pub take_block_one :
    (va : ℕ) (ps : List HeapPage) (v : ℕ) (b : Option ℕ)
    → v < length ps
    → on_disk va (tracked ps v) ≡ true
    → ((j : ℕ) → j < length ps → v ≢ j → on_disk va (tracked ps j) ≡ false)
    → take_block va ps b ≡ (tracked ps v).startblock
unfolding take_block
take_block_one va [] v b lt here others = elim lt [ ]
take_block_one va (p ∷ ps) zero b lt here others = rw here (
    take_block_none va ps p.startblock
      (λ j lt_j. others (suc j) (omega (arith, lt_j)) (λ e. ground (arith, e))))
take_block_one va (p ∷ ps) (suc v) b lt here others =
    take_block_one va ps v (if on_disk va p then p.startblock else b) (omega arith) here
      (λ j lt_j ne. others (suc j) (omega (arith, lt_j)) (λ e. ne (ground (arith, e))))

-- The heap pages are listed under different addresses.
abbrev pub Unique : List HeapPage → Type 0
Unique ps =
    (j k : ℕ) → j < length ps → k < length ps → (tracked ps j).addr ≡ (tracked ps k).addr → j ≡ k

-- The entries after an eviction keep their addresses.
pub addr_after :
    (h : Heap) (v q j : ℕ)
    → v < length h.heap_tracker
    → (tracked (evicted h v q).heap_tracker j).addr ≡ (tracked h.heap_tracker j).addr
addr_after h v q j lt = elim (ℕ_discrete v j) [
  | yes e ↦
      let moved : tracked (evicted h v q).heap_tracker j
          ≡ moved_to (tracked h.heap_tracker v) (4 * q) =
        tracked-evicted h v q j lt ∙ ground (arith, e) in
      ap (λ (p : HeapPage). p.addr) moved ∙ ap (λ k. (tracked h.heap_tracker k).addr) e
  | no ne ↦
      let same : tracked (evicted h v q).heap_tracker j ≡ tracked h.heap_tracker j =
        tracked-evicted h v q j lt ∙ ground (arith, ne) in
      ap (λ (p : HeapPage). p.addr) same
]

-- What the return of a page from the region `q` comes to.
abbrev pub returned : Heap → ℕ → ℕ → Heap
returned h va q = record h {
  heap_tracker = take_back va h.heap_tracker;
  space = put h.space va (some (read_page h.disk (psa_start + 4 * q)));
  psa_tracker = mark h.psa_tracker (4 * q) false;
}

pub retrieve_runs :
    (h : Heap) (va q : ℕ)
    → take_block va h.heap_tracker none ≡ some (4 * q)
    → h.space va ≡ none
    → retrieve_page_from_disk true true va h ≡ ok (returned h va q)
unfolding retrieve_page_from_disk
retrieve_runs h va q e f = rw (e, retrieve_page_from_disk) (rw (f, map_page) refl)

-- Eviction leaves the pages on disk: what can be read from the region of an entry on disk stays.
pub evict-others :
    (h : Heap) (v q j b o : ℕ)
    → IsValid h
    → Evicted h v q
    → (tracked h.heap_tracker j).loaded ≡ true
    → (tracked h.heap_tracker j).startblock ≡ some b
    → o < page_size
    → read_page (evicted h v q).disk (psa_start + b) o ≡ read_page h.disk (psa_start + b) o
evict-others h v q j b o w s l e lt =
    let (r, at, inside, taken) = w.region j l in
    let ne : b ≢ 4 * q = other_region h v q j b w s l e in
    let is_r : b ≡ 4 * r = some_of (sym e ∙ at) in
    read_page-apart h.disk (psa_start + 4 * q) (psa_start + b)
      (fetched (h.space (tracked h.heap_tracker v).addr)) o lt
      (elim (dec_lt q r) [
        | yes less ↦ inl (omega (arith, is_r, less))
        | no not_less ↦ inr (omega (arith, is_r, not_less, ne))
      ])
  where
    some_of : {a c : ℕ} → some a ≡ some c → a ≡ c
    some_of e = cc

-- The tracker after a return.
pub tracked-take_back :
    (va : ℕ) (ps : List HeapPage) (j : ℕ)
    → tracked (take_back va ps) j ≡ (
        if on_disk va (tracked ps j)
        then record (tracked ps j) { loaded = false }
        else tracked ps j)
unfolding take_back
tracked-take_back va [] j = ground arith
tracked-take_back va (p ∷ ps) zero = refl
tracked-take_back va (p ∷ ps) (suc j) = tracked-take_back va ps j

-- An entry that is on disk after a return was there before, under another address.
still_on_disk :
    (va : ℕ) (ps : List HeapPage) (j : ℕ)
    → (tracked (take_back va ps) j).loaded ≡ true
    → (tracked (take_back va ps) j ≡ tracked ps j) × (on_disk va (tracked ps j) ≡ false)
still_on_disk va ps j l = elim (Bool-cases (on_disk va (tracked ps j))) [
  | inl there ↦
      let gone : tracked (take_back va ps) j ≡ record (tracked ps j) { loaded = false } =
        tracked-take_back va ps j ∙ ground (arith, there) in
      absurd (cc (l, ap (λ (p : HeapPage). p.loaded) gone))
  | inr elsewhere ↦ (tracked-take_back va ps j ∙ ground (arith, elsewhere), elsewhere)
]

-- The return of a page on disk frees its region and keeps the others apart, within the PSA and
-- marked.
pub returned-IsValid :
    (h : Heap) (v q : ℕ)
    → IsValid h
    → (tracked h.heap_tracker v).loaded ≡ true
    → (tracked h.heap_tracker v).startblock ≡ some (4 * q)
    → IsValid (returned h (tracked h.heap_tracker v).addr q)
returned-IsValid h v q w l e = record {
  size = length-mark h.psa_tracker (4 * q) false ∙ w.size;
  quads = λ r j lt.
      mark_lem h.psa_tracker (4 * q) (4 * r + j) false inside
      ∙ (ground (arith, w.quads r j lt)
          ∙ sym (mark_lem h.psa_tracker (4 * q) (4 * r) false inside));
  region = λ k lk.
      let (same, elsewhere) = still_on_disk va h.heap_tracker k lk in
      let before : (tracked h.heap_tracker k).loaded ≡ true =
        ap (λ (p : HeapPage). p.loaded) (sym same) ∙ lk in
      let (r, at, inside_r, taken) = w.region k before in
      let ne : 4 * r ≢ 4 * q = λ eq. ground (
        arith,
        elsewhere,
        l,
        ap (λ j. on_disk va (tracked h.heap_tracker j))
            (w.apart k v (4 * r) before l at (e ∙ ap some (sym eq))),
      ) in
      (
        r,
        ap (λ (p : HeapPage). p.startblock) same ∙ at,
        inside_r,
        mark_lem h.psa_tracker (4 * q) (4 * r) false inside ∙ ground (arith, taken, ne),
      );
  apart = λ k j b lk lj ek ej.
      let (same_k, _) = still_on_disk va h.heap_tracker k lk in
      let (same_j, _) = still_on_disk va h.heap_tracker j lj in
      w.apart k j b (ap (λ (p : HeapPage). p.loaded) (sym same_k) ∙ lk)
        (ap (λ (p : HeapPage). p.loaded) (sym same_j) ∙ lj)
        (ap (λ (p : HeapPage). p.startblock) (sym same_k) ∙ ek)
        (ap (λ (p : HeapPage). p.startblock) (sym same_j) ∙ ej);
}
  where
    va : ℕ
    va = (tracked h.heap_tracker v).addr

    inside : 4 * q + 4 ≤ length h.psa_tracker
    inside =
        let (r, at, fits, _) = w.region v l in omega (arith, w.size, fits, same_start (sym at ∙ e))
      where
        same_start : {a c : ℕ} → some a ≡ some c → a ≡ c
        same_start f = cc
