-- ===== src/Content/FileBytes.antt =====
-- A file as its bytes: a block that is not there is full of zeros.
use advanced_operating_syste.Prelude.{
  ℕ, ◌*◌, ◌/◌, ◌%◌, ◌<◌, ◌≡◌, ◌≢◌, refl, sym, ap, ◌∙◌, inl, inr, true, false, ◌==◌, if◌then◌else◌,
  arith, ℕ_discrete,
}
use advanced_operating_syste.Prelude.Maps.{put, put-at, put-ne}
use advanced_operating_syste.Memory.{Bytes}
use advanced_operating_syste.Content.{maxfile, bsize, Store}
use advanced_operating_syste.Content.Pointers.{ptr_data}
use advanced_operating_syste.Content.Grown.{ptr, IsValid}
use advanced_operating_syste.Content.Bmap.{Mapped}

abbrev pub byte : Store → ℕ → ℕ
byte s o = if ptr s (o / bsize) == 0 then 0 else s.data_at (ptr s (o / bsize)) (o % bsize)

-- The byte of a place that has a block.
pub byte_there :
    (s : Store) (o a : ℕ) → ptr s (o / bsize) ≡ a → a ≢ 0 → byte s o ≡ s.data_at a (o % bsize)
byte_there s o a e ne = ap (λ k. if k == 0 then 0 else s.data_at k (o % bsize)) e ∙ not_zero a ne
  where
    not_zero :
        (k : ℕ) → k ≢ 0 → (if k == 0 then 0 else s.data_at k (o % bsize)) ≡ s.data_at k (o % bsize)
    not_zero k k_ne = let c : k == 0 ≡ false = ground (arith, k_ne) in rw c refl

byte_absent : (s : Store) (o : ℕ) → ptr s (o / bsize) ≡ 0 → byte s o ≡ 0
byte_absent s o e = ap (λ k. if k == 0 then 0 else s.data_at k (o % bsize)) e

-- `bmap` does not change the bytes of a file, also where it adds a block.
pub byte-Mapped :
    (s : Store) (p addr : ℕ) (s' : Store) (o : ℕ)
    → IsValid s
    → Mapped s p addr s'
    → o < maxfile * bsize
    → byte s' o ≡ byte s o
byte-Mapped s p addr s' o v m lt = elim (ℕ_discrete (o / bsize) p) [
  | no ne ↦ elsewhere (m.others (o / bsize) (omega (arith, lt)) ne)
  | yes e ↦ elim (m.given) [
    | inl (_, _, same) ↦ ap (λ t. byte t o) same
    | inr (inl (empty, _, still, _)) ↦
        byte_absent s' o (ap (ptr s') e ∙ still) ∙ sym (byte_absent s o (ap (ptr s) e ∙ empty))
    | inr (inr (empty, ne, at, _, clear)) ↦
        byte_there s' o addr (ap (ptr s') e ∙ at) ne
        ∙ (clear (o % bsize) ∙ sym (byte_absent s o (ap (ptr s) e ∙ empty)))
  ]
]
  where
    elsewhere : ptr s' (o / bsize) ≡ ptr s (o / bsize) → byte s' o ≡ byte s o
    elsewhere same = elim (ℕ_discrete (ptr s (o / bsize)) 0) [
      | yes z ↦ byte_absent s' o (same ∙ z) ∙ sym (byte_absent s o z)
      | no ne ↦
          byte_there s' o (ptr s (o / bsize)) same ne
          ∙ (ap (λ (f : ℕ → ℕ). f (o % bsize)) (m.contents (o / bsize) (omega (arith, lt)) ne)
              ∙ sym (byte_there s o (ptr s (o / bsize)) refl ne))
    ]

abbrev pub with_block : Store → ℕ → Bytes → Store
with_block s a blk = record s { data_at = put s.data_at a blk }

-- A block of the file is written: no place moves.
pub ptr-with_block :
    (s : Store) (p : ℕ) (blk : Bytes) (q : ℕ)
    → IsValid s
    → p < maxfile
    → ptr s p ≢ 0
    → ptr (with_block s (ptr s p) blk) q ≡ ptr s q
ptr-with_block s p blk q v lt ne =
    ptr_data s.addrs s.data_at (put s.data_at (ptr s p) blk) q (λ ind.
      put-ne s.data_at (ptr s p) blk (s.addrs 12) (λ e.
        let eq : p ≡ maxfile = v.own p maxfile (omega (arith, lt)) (omega arith) ne (sym e) in
        absurd (omega (arith, lt, eq))))

pub with_block-IsValid :
    (s : Store) (p : ℕ) (blk : Bytes)
    → IsValid s
    → p < maxfile
    → ptr s p ≢ 0
    → IsValid (with_block s (ptr s p) blk)
with_block-IsValid s p blk v lt ne =
    let same : (q : ℕ) → ptr (with_block s (ptr s p) blk) q ≡ ptr s q =
      λ q. ptr-with_block s p blk q v lt ne in
    record {
      live = λ q le there. ap s.used (same q) ∙ v.live q le (λ z. there (same q ∙ z));
      own = λ q r le le' there e.
          v.own q r le le' (λ z. there (same q ∙ z)) (sym (same q) ∙ (e ∙ same r));
      zero_used = v.zero_used;
      fits = v.fits;
    }

-- The bytes after a write of a block.
pub byte-with_block :
    (s : Store) (p : ℕ) (blk : Bytes) (o : ℕ)
    → IsValid s
    → p < maxfile
    → ptr s p ≢ 0
    → o < maxfile * bsize
    → byte (with_block s (ptr s p) blk) o ≡ (if o / bsize == p then blk (o % bsize) else byte s o)
byte-with_block s p blk o v lt ne o_lt =
    let s' = with_block s (ptr s p) blk in
    let same = ptr-with_block s p blk (o / bsize) v lt ne in
    elim (ℕ_discrete (o / bsize) p) [
      | yes e ↦
          let c : o / bsize == p ≡ true = ground (arith, e) in
          byte_there s' o (ptr s p) (same ∙ ap (ptr s) e) ne
          ∙ (ap (λ (f : ℕ → ℕ). f (o % bsize)) (put-at s.data_at (ptr s p) blk)
              ∙ sym (ap (λ b. if b then blk (o % bsize) else byte s o) c))
      | no other ↦
          let c : o / bsize == p ≡ false = ground (arith, other) in
          unchanged other ∙ sym (ap (λ b. if b then blk (o % bsize) else byte s o) c)
    ]
  where
    unchanged : o / bsize ≢ p → byte (with_block s (ptr s p) blk) o ≡ byte s o
    unchanged other = elim (ℕ_discrete (ptr s (o / bsize)) 0) [
      | yes z ↦
          byte_absent (with_block s (ptr s p) blk) o
            (ptr-with_block s p blk (o / bsize) v lt ne ∙ z)
          ∙ sym (byte_absent s o z)
      | no there ↦
          byte_there (with_block s (ptr s p) blk) o (ptr s (o / bsize))
            (ptr-with_block s p blk (o / bsize) v lt ne) there
          ∙ (ap (λ (f : ℕ → ℕ). f (o % bsize))
                (put-ne s.data_at (ptr s p) blk (ptr s (o / bsize)) (λ e.
                  other (v.own (o / bsize) p (omega (arith, o_lt)) (omega (arith, lt)) there e)))
              ∙ sym (byte_there s o (ptr s (o / bsize)) refl there))
    ]
