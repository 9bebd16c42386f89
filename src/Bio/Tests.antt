-- ===== src/Bio/Tests.antt =====
-- A cache of two buffers.
use advanced_operating_syste.Prelude.{ℕ, zero, suc, ◌<◌, ◌≡◌, ◌≢◌, refl, true, [], ◌∷◌, ok, arith}
use advanced_operating_syste.Bio.{
  Buf, Bcache, no_buf, buf_at, bget, brelse, find_cached, find_unused,
}
use advanced_operating_syste.Bio.Blocks.{IsValid, bget-IsValid, brelse-IsValid}

-- Block 7 in use, and a buffer that was never used.
abbrev in_use : Buf
in_use = record no_buf { valid = true; dev = 1; blockno = 7; refcnt = 1; held = true }

abbrev two_bufs : Bcache
two_bufs = record { buf = in_use ∷ no_buf ∷ []; order = 1 ∷ 0 ∷ [] }

abbrev both_used : Bcache
both_used = record {
  buf = in_use ∷ record no_buf { dev = 1; blockno = 9; refcnt = 1; held = true } ∷ [];
  order = 1 ∷ 0 ∷ [];
}

two_bufs-IsValid : IsValid two_bufs
two_bufs-IsValid = record {
  covers = λ i lt. ground (arith, lt);
  within = λ i l. ground (arith, l);
  single = λ i j hi hj nz de ne. alone i j hi hj nz de;
}
  where
    alone :
        (i j : ℕ)
        → i < 2
        → j < 2
        → (buf_at two_bufs i).dev ≢ 0
        → (buf_at two_bufs i).dev ≡ (buf_at two_bufs j).dev
        → i ≡ j
    alone zero zero hi hj nz de = refl
    alone zero (suc zero) hi hj nz de = absurd (omega (arith, de))
    alone (suc zero) j hi hj nz de = absurd (nz refl)
    alone i (suc (suc j)) hi hj nz de = absurd (omega (arith, hj))
    alone (suc (suc i)) j hi hj nz de = absurd (omega (arith, hi))

got_nine : bget 1 9 two_bufs ≡ ok (1, both_used)
unfolding bget find_cached find_unused
got_nine = refl

bget-IsValid_example :
    IsValid both_used × ((buf_at both_used 1).dev ≡ 1) × ((buf_at both_used 1).blockno ≡ 9)
bget-IsValid_example = bget-IsValid 1 9 two_bufs {i = 1} {c' = both_used} two_bufs-IsValid got_nine

brelse-IsValid_example :
    (c' : Bcache) × (brelse 0 two_bufs ≡ ok c') × IsValid c' × (c'.order ≡ 0 ∷ 1 ∷ [])
brelse-IsValid_example = brelse-IsValid two_bufs 0 two_bufs-IsValid (omega arith) refl
