-- ===== src/Swap/Regions.antt =====
-- The regions of the PSA: four blocks each, aligned, and no two pages in one.
use advanced_operating_syste.Prelude.{
  ℕ, ◌+◌, ◌-◌, ◌*◌, ◌/◌, ◌%◌, ◌≤◌, ◌<◌, ◌≡◌, sym, ap, ◌∙◌, ◌⊎◌, Bool, true, false, ◌&&◌, ltb, leb,
  if◌then◌else◌, none, some, List, length, get_or, set, arith, length-set, dec_lt, get_or-set_lem,
}
use advanced_operating_syste.Swap.{
  HeapPage, Heap, Data, tracked, free_block, psa_size, psa_start, block_size, page_size, mark, put,
  part, write_page, read_page, fetched,
}
use advanced_operating_syste.Swap.Victim.{free_block_lem}

abbrev pub used : List Bool → ℕ → Bool
used psa b = get_or psa b true

pub mark_lem :
    (psa : List Bool) (b j : ℕ) (v : Bool)
    → b + 4 ≤ length psa
    → used (mark psa b v) j ≡ (if leb b j && ltb j (b + 4) then v else used psa j)
unfolding mark
mark_lem psa b j v h =
    let p1 = set psa b v in
    let p2 = set p1 (b + 1) v in
    let p3 = set p2 (b + 2) v in
    let l1 : length p1 ≡ length psa = length-set psa b v in
    let l2 : length p2 ≡ length psa = length-set p1 (b + 1) v ∙ l1 in
    let l3 : length p3 ≡ length psa = length-set p2 (b + 2) v ∙ l2 in
    ground (
      arith,
      get_or-set_lem psa b j v true (omega arith),
      get_or-set_lem p1 (b + 1) j v true (omega (arith, l1)),
      get_or-set_lem p2 (b + 2) j v true (omega (arith, l2)),
      get_or-set_lem p3 (b + 3) j v true (omega (arith, l3)),
    )

pub length-mark : (psa : List Bool) (b : ℕ) (v : Bool) → length (mark psa b v) ≡ length psa
unfolding mark
length-mark psa b v =
    length-set (set (set (set psa b v) (b + 1) v) (b + 2) v) (b + 3) v
    ∙ (length-set (set (set psa b v) (b + 1) v) (b + 2) v
        ∙ (length-set (set psa b v) (b + 1) v ∙ length-set psa b v))

-- A page that is on disk has a marked region within the PSA.
abbrev pub HasRegion : List Bool → HeapPage → Type 0
HasRegion psa p =
    (q : ℕ) × (p.startblock ≡ some (4 * q)) × (4 * q + 4 ≤ psa_size) × (used psa (4 * q) ≡ true)

pub record IsValid (h : Heap) : Type 0 where
  pub size : length h.psa_tracker ≡ psa_size
  pub quads : (q j : ℕ) → j < 4 → used h.psa_tracker (4 * q + j) ≡ used h.psa_tracker (4 * q)
  pub region :
      (k : ℕ)
      → (tracked h.heap_tracker k).loaded ≡ true
      → HasRegion h.psa_tracker (tracked h.heap_tracker k)
  pub apart :
      (k j b : ℕ)
      → (tracked h.heap_tracker k).loaded ≡ true
      → (tracked h.heap_tracker j).loaded ≡ true
      → (tracked h.heap_tracker k).startblock ≡ some b
      → (tracked h.heap_tracker j).startblock ≡ some b
      → k ≡ j

-- In a valid PSA with a free block the first free one starts a free region.
pub free_region :
    (h : Heap) (k : ℕ)
    → IsValid h
    → k < psa_size - psa_start
    → used h.psa_tracker k ≡ false
    → (q : ℕ) × (free_block (psa_size - psa_start) h.psa_tracker 0 ≡ 4 * q)
      × (4 * q + 4 ≤ psa_size)
      × (used h.psa_tracker (4 * q) ≡ false)
free_region h k w lt f =
    let b = free_block (psa_size - psa_start) h.psa_tracker 0 in
    let (lo, hi, fr, before) =
      free_block_lem (psa_size - psa_start) h.psa_tracker 0 k (omega arith) (omega arith) f in
    let start : used h.psa_tracker (4 * (b / 4)) ≡ false =
      sym (w.quads (b / 4) (b % 4) (omega arith)) ∙ (ap (used h.psa_tracker) (omega arith) ∙ fr) in
    let aligned : b ≡ 4 * (b / 4) = elim (dec_lt (4 * (b / 4)) b) [
      | yes less ↦ absurd (cc (start, before (4 * (b / 4)) (omega arith) less))
      | no not_less ↦ omega arith
    ] in
    (b / 4, aligned, omega (arith, hi, aligned), start)

-- The blocks of the disk after a page was written.
write_page_lem :
    (disk : ℕ → Data) (b : ℕ) (page : Data) (c o : ℕ)
    → write_page disk b page c o
      ≡ (if leb b c && ltb c (b + 4) then page (block_size * (c - b) + o) else disk c o)
unfolding write_page part
write_page_lem disk b page c o = ground arith

-- The page is read back as it was written.
pub read_page-write_page :
    (disk : ℕ → Data) (b : ℕ) (page : Data) (o : ℕ)
    → o < page_size
    → read_page (write_page disk b page) b o ≡ page o
unfolding read_page
read_page-write_page disk b page o h =
    write_page_lem disk b page (b + o / block_size) (o % block_size) ∙ ground (arith, ap page at)
  where
    at : block_size * (b + o / block_size - b) + o % block_size ≡ o
    at = omega arith

-- A region apart from the one written is read as before.
pub read_page-apart :
    (disk : ℕ → Data) (b c : ℕ) (page : Data) (o : ℕ)
    → o < page_size
    → (b + 4 ≤ c) ⊎ (c + 4 ≤ b)
    → read_page (write_page disk b page) c o ≡ read_page disk c o
unfolding read_page
read_page-apart disk b c page o h d =
    write_page_lem disk b page (c + o / block_size) (o % block_size) ∙ ground (arith, d)

-- What an eviction comes to: the page `v` goes to the region `q`.
abbrev pub evicted : Heap → ℕ → ℕ → Heap
evicted h v q =
    let p = tracked h.heap_tracker v in
    record h {
      heap_tracker = set h.heap_tracker v (record p { loaded = true; startblock = some (4 * q) });
      psa_tracker = mark h.psa_tracker (4 * q) true;
      disk = write_page h.disk (psa_start + 4 * q) (fetched (h.space p.addr));
      space = put h.space p.addr none;
    }
