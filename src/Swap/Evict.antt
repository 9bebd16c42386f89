-- ===== src/Swap/Evict.antt =====
-- Eviction and return of a page: the regions stay apart, and the page comes back as it was.
use advanced_operating_syste.Prelude.{
  ℕ, ◌+◌, ◌-◌, ◌*◌, ◌≤◌, ◌<◌, ◌≡◌, ◌≢◌, refl, sym, ap, ◌∙◌, ◌⊎◌, inl, inr, true, false, ◌==◌,
  if◌then◌else◌, none, some, length, set, ok, arith, ℕ_discrete, get_or-set_lem,
}
use advanced_operating_syste.Swap.{
  HeapPage, Heap, tracked, no_page, free_block, victim_from, psa_size, psa_start, mark, put,
  write_page, fetched, evict_page_to_disk,
}
use advanced_operating_syste.Swap.Victim.{victim_oldest, victim_bound}
use advanced_operating_syste.Swap.Regions.{
  used, mark_lem, length-mark, HasRegion, IsValid, free_region, evicted,
}

-- What `evict_page_to_disk` chose: the victim `v` was resident and the oldest, its region `q` was free.
pub record Evicted (h : Heap) (v q : ℕ) : Type 0 where
  pub resident : (tracked h.heap_tracker v).loaded ≡ false
  pub listed : v < length h.heap_tracker
  pub oldest :
      (j : ℕ)
      → j < length h.heap_tracker
      → (tracked h.heap_tracker j).loaded ≡ false
      → (tracked h.heap_tracker v).last_load_time ≤ (tracked h.heap_tracker j).last_load_time
  pub free : used h.psa_tracker (4 * q) ≡ false
  pub inside : 4 * q + 4 ≤ psa_size

evict_runs :
    (h : Heap) (b v : ℕ)
    → free_block (psa_size - psa_start) h.psa_tracker 0 ≡ b
    → victim_from h.heap_tracker h.heap_tracker 0 none ≡ some v
    → evict_page_to_disk true h
      ≡ ok (record h {
        heap_tracker =
            set h.heap_tracker v
              (record (tracked h.heap_tracker v) { loaded = true; startblock = some b });
        psa_tracker = mark h.psa_tracker b true;
        disk =
            write_page h.disk (psa_start + b) (fetched (h.space (tracked h.heap_tracker v).addr));
        space = put h.space (tracked h.heap_tracker v).addr none;
      })
unfolding evict_page_to_disk
evict_runs h b v e f = rw (f, evict_page_to_disk) (rw (e) refl)

-- With a resident page, a free block and a page of memory, eviction succeeds: the oldest resident page goes to a free
-- region.
pub evict_ok :
    (h : Heap) (k f : ℕ)
    → IsValid h
    → k < length h.heap_tracker
    → (tracked h.heap_tracker k).loaded ≡ false
    → f < psa_size - psa_start
    → used h.psa_tracker f ≡ false
    → (v : ℕ) × (q : ℕ) × (evict_page_to_disk true h ≡ ok (evicted h v q)) × Evicted h v q
evict_ok h k f w lt res in_psa fr =
    let (v, found, rv, old) = victim_oldest h.heap_tracker k lt res in
    let (q, at, inside, is_free) = free_region h f w in_psa fr in
    (
      v,
      q,
      evict_runs h (4 * q) v at found,
      record {
        resident = rv;
        listed =
            omega (arith, victim_bound h.heap_tracker h.heap_tracker 0 v none (λ b e. cc) found);
        oldest = old;
        free = is_free;
        inside = inside;
      },
    )

abbrev pub moved_to : HeapPage → ℕ → HeapPage
moved_to p b = record p { loaded = true; startblock = some b }

-- The tracker after an eviction.
pub tracked-evicted :
    (h : Heap) (v q j : ℕ)
    → v < length h.heap_tracker
    → tracked (evicted h v q).heap_tracker j ≡ (
        if v == j
        then record (tracked h.heap_tracker v) { loaded = true; startblock = some (4 * q) }
        else tracked h.heap_tracker j)
tracked-evicted h v q j lt =
    get_or-set_lem h.heap_tracker v j
      (record (tracked h.heap_tracker v) { loaded = true; startblock = some (4 * q) }) no_page lt

-- An entry on disk after the eviction is the victim in the new region, or was there before.
loaded_after :
    (h : Heap) (v q k : ℕ)
    → v < length h.heap_tracker
    → (tracked (evicted h v q).heap_tracker k).loaded ≡ true
    → ((v ≡ k) × ((tracked (evicted h v q).heap_tracker k).startblock ≡ some (4 * q)))
      ⊎ ((v ≢ k)
          × (tracked (evicted h v q).heap_tracker k ≡ tracked h.heap_tracker k)
          × ((tracked h.heap_tracker k).loaded ≡ true))
loaded_after h v q k lt l = elim (ℕ_discrete v k) [
  | yes e ↦
      let moved : tracked (evicted h v q).heap_tracker k
          ≡ moved_to (tracked h.heap_tracker v) (4 * q) =
        tracked-evicted h v q k lt ∙ ground (arith, e) in
      inl (e, ap (λ (p : HeapPage). p.startblock) moved)
  | no ne ↦
      let same : tracked (evicted h v q).heap_tracker k ≡ tracked h.heap_tracker k =
        tracked-evicted h v q k lt ∙ ground (arith, ne) in
      inr (ne, same, ap (λ (p : HeapPage). p.loaded) (sym same) ∙ l)
]

some_injective : {a b : ℕ} → some a ≡ some b → a ≡ b
some_injective e = cc

-- A page on disk before an eviction is not in the region the eviction takes.
pub other_region :
    (h : Heap) (v q k b : ℕ)
    → IsValid h
    → Evicted h v q
    → (tracked h.heap_tracker k).loaded ≡ true
    → (tracked h.heap_tracker k).startblock ≡ some b
    → b ≢ 4 * q
other_region h v q k b w s l e same =
    let (r, at, inside, taken) = w.region k l in
    let eq : 4 * r ≡ 4 * q = some_injective (sym at ∙ e) ∙ same in
    cc (taken, s.free, ap (used h.psa_tracker) eq)

evicted-region :
    (h : Heap) (v q k : ℕ)
    → IsValid h
    → Evicted h v q
    → (tracked (evicted h v q).heap_tracker k).loaded ≡ true
    → HasRegion (mark h.psa_tracker (4 * q) true) (tracked (evicted h v q).heap_tracker k)
evicted-region h v q k w s l = elim (loaded_after h v q k s.listed l) [
  | inl (e, at) ↦ (
    q,
    at,
    s.inside,
    mark_lem h.psa_tracker (4 * q) (4 * q) true (omega (arith, w.size, s.inside)) ∙ ground arith,
  )
  | inr (ne, same, before) ↦
      let (r, at, inside, taken) = w.region k before in
      (
        r,
        ap (λ (p : HeapPage). p.startblock) same ∙ at,
        inside,
        mark_lem h.psa_tracker (4 * q) (4 * r) true (omega (arith, w.size, s.inside))
            ∙ ground (arith, taken),
      )
]

evicted-apart :
    (h : Heap) (v q k j b : ℕ)
    → IsValid h
    → Evicted h v q
    → (tracked (evicted h v q).heap_tracker k).loaded ≡ true
    → (tracked (evicted h v q).heap_tracker j).loaded ≡ true
    → (tracked (evicted h v q).heap_tracker k).startblock ≡ some b
    → (tracked (evicted h v q).heap_tracker j).startblock ≡ some b
    → k ≡ j
evicted-apart h v q k j b w s lk lj ek ej = elim (loaded_after h v q k s.listed lk) [
  | inl a ↦ elim (loaded_after h v q j s.listed lj) [
    | inl c ↦ sym a.0 ∙ c.0
    | inr c ↦ absurd (
        other_region h v q j b w s c.2 (ap (λ (p : HeapPage). p.startblock) (sym c.1) ∙ ej)
          (some_injective (sym ek ∙ a.1)))
  ]
  | inr a ↦ elim (loaded_after h v q j s.listed lj) [
    | inl c ↦ absurd (
        other_region h v q k b w s a.2 (ap (λ (p : HeapPage). p.startblock) (sym a.1) ∙ ek)
          (some_injective (sym ej ∙ c.1)))
    | inr c ↦
        w.apart k j b a.2 c.2 (ap (λ (p : HeapPage). p.startblock) (sym a.1) ∙ ek)
          (ap (λ (p : HeapPage). p.startblock) (sym c.1) ∙ ej)
  ]
]

-- Eviction keeps the regions apart, within the PSA and marked.
pub evicted-IsValid : (h : Heap) (v q : ℕ) → IsValid h → Evicted h v q → IsValid (evicted h v q)
evicted-IsValid h v q w s = record {
  size = length-mark h.psa_tracker (4 * q) true ∙ w.size;
  quads = λ r j lt.
      mark_lem h.psa_tracker (4 * q) (4 * r + j) true (omega (arith, w.size, s.inside))
      ∙ (ground (arith, w.quads r j lt)
          ∙ sym (mark_lem h.psa_tracker (4 * q) (4 * r) true (omega (arith, w.size, s.inside))));
  region = λ k l. evicted-region h v q k w s l;
  apart = λ k j b lk lj ek ej. evicted-apart h v q k j b w s lk lj ek ej;
}
