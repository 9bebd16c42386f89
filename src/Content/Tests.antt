-- ===== src/Content/Tests.antt =====
-- A file with its first block, on a small device.
use advanced_operating_syste.Prelude.{
  ℕ, ◌≤◌, ◌<◌, ◌≡◌, refl, sym, ap, ◌∙◌, ◌⊎◌, ◌==◌, ltb, if◌then◌else◌, some, ok, arith, ℕ_discrete,
}
use advanced_operating_syste.Prelude.Maps.{put}
use advanced_operating_syste.Content.{Store, bmap, writei, readi}
use advanced_operating_syste.Content.Grown.{ptr, IsValid, Full}
use advanced_operating_syste.Content.Bmap.{Mapped, bmap-Mapped}
use advanced_operating_syste.Content.Trip.{Written, writei-Written, readi-writei}

abbrev one_block : Store
one_block = record {
  used = λ b. ltb b 50;
  data_at = λ _ _. 7;
  sb_size = 60;
  addrs = put (λ _. 0) 0 49;
  size = 100;
}

one_block-ptr : (p : ℕ) → ptr one_block p ≡ (if p == 0 then 49 else 0)
one_block-ptr p = elim (ℕ_discrete p 0) [
  | yes e ↦ ap (ptr one_block) e ∙ sym (ap (λ k. if k == 0 then 49 else 0) e)
  | no ne ↦ ground (arith, ne)
]

one_block-IsValid : IsValid one_block
one_block-IsValid = record {
  live = λ p le ne. let e = one_block-ptr p in ground (arith, e);
  own = λ p q le le' ne same.
      let e = one_block-ptr p in let e' = one_block-ptr q in ground (arith, e, e', ne, same);
  zero_used = refl;
  fits = omega arith;
}

bmap-Mapped_example :
    (addr : ℕ) × (s' : Store) × ((bmap 20 one_block ≡ ok (addr, s')) × Mapped one_block 20 addr s')
bmap-Mapped_example = bmap-Mapped 20 one_block one_block-IsValid (omega arith)

writei-Written_example :
    (tot : ℕ) × (s' : Store) × ((writei (λ j. j) 100 9 one_block ≡ ok (some tot, s'))
      × Written (λ j. j) 100 9 one_block tot s')
writei-Written_example =
    writei-Written (λ j. j) 100 9 one_block one_block-IsValid (omega arith) (omega arith)

readi-writei_example :
    (tot : ℕ) × (s' : Store) × (tot' : ℕ) × (dst' : ℕ → ℕ) × (s'' : Store) × ((writei
          (λ j. j)
          100
          9
          one_block
        ≡ ok (some tot, s'))
      × ((tot ≡ 9) ⊎ Full s')
      × (readi (λ _. 0) 100 tot s' ≡ ok (tot', dst', s''))
      × (tot' ≤ tot)
      × ((tot' ≡ tot) ⊎ Full s'')
      × ((j : ℕ) → j < tot' → dst' j ≡ j))
readi-writei_example =
    readi-writei (λ j. j) (λ _. 0) 100 9 one_block one_block-IsValid (omega arith) (omega arith)
