-- ===== src/Content/Write.antt =====
-- What `writei` leaves in a file.
use advanced_operating_syste.Prelude.{
  ℕ, zero, suc, ◌+◌, ◌-◌, ◌*◌, ◌/◌, ◌%◌, ◌≤◌, ◌<◌, ◌≡◌, ◌≢◌, refl, sym, ap, subst, ◌∙◌, ◌⊎◌, inl,
  inr, true, false, ◌&&◌, ◌==◌, ltb, leb, if◌then◌else◌, ok, arith, ℕ_discrete, dec_lt,
}
use advanced_operating_syste.Memory.{Bytes}
use advanced_operating_syste.Content.{maxfile, bsize, min, patch, Store, write_loop}
use advanced_operating_syste.Content.Grown.{ptr, IsValid, Full}
use advanced_operating_syste.Content.Bmap.{Mapped, bmap-Mapped}
use advanced_operating_syste.Content.FileBytes.{
  byte, byte_there, byte-Mapped, with_block, with_block-IsValid, byte-with_block,
}

-- `src` from `tot` on between `off` and `off'`, and `f` elsewhere.
abbrev pub spliced : (ℕ → ℕ) → ℕ → ℕ → ℕ → (ℕ → ℕ) → ℕ → ℕ
spliced src tot off off' f o = if leb off o && ltb o off' then src (tot + (o - off)) else f o

-- What the loop leaves.
pub record Wrote (src : ℕ → ℕ) (n tot off : ℕ) (s : Store) (tot' off' : ℕ) (s' : Store)
    : Type 0 where
  pub valid : IsValid s'
  pub file_size : s'.size ≡ s.size
  pub more : tot ≤ tot'
  pub bound : tot' ≤ n
  pub moved : off' + tot ≡ off + tot'
  pub ends : (tot' ≡ n) ⊎ Full s'
  pub bytes : (o : ℕ) → o < maxfile * bsize → byte s' o ≡ spliced src tot off off' (byte s) o

-- The block that a call of bmap has given, if it has given one.
pub given_ptr :
    (s : Store) (p addr : ℕ) (s' : Store) → Mapped s p addr s' → addr ≢ 0 → ptr s' p ≡ addr
given_ptr s p addr s' m ne = elim (m.given) [
  | inl (_, e, same) ↦ ap (λ t. ptr t p) same ∙ sym e
  | inr (inl (_, z, _, _)) ↦ absurd (ne z)
  | inr (inr (_, _, at, _, _)) ↦ at
]

pub given-Full : (s : Store) (p addr : ℕ) (s' : Store) → Mapped s p addr s' → addr ≡ 0 → Full s'
given-Full s p addr s' m z = elim (m.given) [
  | inl (ne, e, _) ↦ absurd (ne (sym e ∙ z))
  | inr (inl (_, _, _, full)) ↦ full
  | inr (inr (_, ne, _, _, _)) ↦ absurd (ne z)
]

-- A chunk within a block.
chunk :
    (s : Store) (src : ℕ → ℕ) (tot off m o : ℕ)
    → IsValid s
    → off < maxfile * bsize
    → off % bsize + m ≤ bsize
    → ptr s (off / bsize) ≢ 0
    → o < maxfile * bsize
    → byte
        (with_block s
          (ptr s (off / bsize))
          (patch src tot (off % bsize) m (s.data_at (ptr s (off / bsize)))))
        o
      ≡ spliced src tot off (off + m) (byte s) o
chunk s src tot off m o v lt fits ne o_lt =
    byte-with_block s (off / bsize)
      (patch src tot (off % bsize) m (s.data_at (ptr s (off / bsize)))) o v (omega (arith, lt)) ne
      o_lt
    ∙ elim (ℕ_discrete (o / bsize) (off / bsize)) [
      | no other ↦
          let c : o / bsize == off / bsize ≡ false = ground (arith, other) in
          let c' : leb off o && ltb o (off + m) ≡ false = outside other in rw (c, c') refl
      | yes e ↦
          let c : o / bsize == off / bsize ≡ true = ground (arith, e) in
          let there = byte_there s o (ptr s (off / bsize)) (ap (ptr s) e) ne in
          rw c (
            inside e
            ∙ ap (λ x. if leb off o && ltb o (off + m) then src (tot + (o - off)) else x)
                (sym there))
    ]
  where
    outside : o / bsize ≢ off / bsize → leb off o && ltb o (off + m) ≡ false
    outside other = ground (arith, other, fits)

    inside :
        o / bsize ≡ off / bsize
        → patch src tot (off % bsize) m (s.data_at (ptr s (off / bsize))) (o % bsize) ≡ (
            if leb off o && ltb o (off + m)
            then src (tot + (o - off))
            else s.data_at (ptr s (off / bsize)) (o % bsize))
    inside e =
        let c : leb (off % bsize) (o % bsize) && ltb (o % bsize) (off % bsize + m)
            ≡ leb off o && ltb o (off + m) =
          ground (arith, e) in
        let d : tot + (o % bsize - off % bsize) ≡ tot + (o - off) = omega (arith, e) in
        rw (c, d) refl

-- One chunk and the bytes of the rest.
splice :
    (src : ℕ → ℕ) (tot off m off' o : ℕ) (f : ℕ → ℕ)
    → off + m ≤ off'
    → spliced src (tot + m) (off + m) off' (spliced src tot off (off + m) f) o
      ≡ spliced src tot off off' f o
splice src tot off m off' o f le = ground (arith, le)

spliced_none : (src : ℕ → ℕ) (tot off o : ℕ) (f : ℕ → ℕ) → spliced src tot off off f o ≡ f o
spliced_none src tot off o f = ground arith

-- The size of a round.
abbrev pub step : ℕ → ℕ → ℕ → ℕ
step n tot off = min (n - tot) (bsize - off % bsize)

pub step_lem :
    (n tot off : ℕ)
    → tot < n
    → (1 ≤ step n tot off) × (tot + step n tot off ≤ n) × (off % bsize + step n tot off ≤ bsize)
step_lem n tot off lt = (ground (arith, lt), ground (arith, lt), ground (arith, lt))

stops :
    (src : ℕ → ℕ) (n tot off : ℕ) (s : Store)
    → IsValid s
    → n ≤ tot
    → tot ≤ n
    → Wrote src n tot off s tot off s
stops src n tot off s v le le' = record {
  valid = v;
  file_size = refl;
  more = omega arith;
  bound = le';
  moved = refl;
  ends = inl (omega (arith, le, le'));
  bytes = λ o lt. sym (spliced_none src tot off o (byte s));
}

pub write_loop_lem :
    (fuel : ℕ) (src : ℕ → ℕ) (n tot off : ℕ) (s : Store)
    → IsValid s
    → n ≤ tot + fuel
    → tot ≤ n
    → off + (n - tot) ≤ maxfile * bsize
    → (tot' : ℕ) × (off' : ℕ) × (s' : Store) × ((write_loop fuel src n tot off s
          ≡ ok (tot', off', s'))
        × Wrote src n tot off s tot' off' s')
unfolding write_loop
write_loop_lem zero src n tot off s v le le' fits =
    (tot, off, s, (refl, stops src n tot off s v (omega (arith, le)) le'))
write_loop_lem (suc fuel) src n tot off s v le le' fits = elim (dec_lt tot n) [
  | no end ↦
      let c : ltb tot n ≡ false = ground (arith, end) in
      (tot, off, s, (rw c refl, stops src n tot off s v (omega (arith, end)) le'))
  | yes lt ↦
      let c : ltb tot n ≡ true = ground (arith, lt) in
      let (addr, s1, (ran, mapped)) = bmap-Mapped (off / bsize) s v (omega (arith, fits, lt)) in
      elim (ℕ_discrete addr 0) [
        | yes z ↦
            let c' : addr == 0 ≡ true = ground (arith, z) in
            (
              tot,
              off,
              s1,
              (
                rw (c, ran, write_loop) (rw c' refl),
                record {
                  valid = mapped.valid;
                  file_size = mapped.file_size;
                  more = omega arith;
                  bound = le';
                  moved = refl;
                  ends = inr (given-Full s (off / bsize) addr s1 mapped z);
                  bytes = λ o o_lt.
                      byte-Mapped s (off / bsize) addr s1 o v mapped o_lt
                      ∙ sym (spliced_none src tot off o (byte s));
                },
              ),
            )
        | no ne ↦
            let c' : addr == 0 ≡ false = ground (arith, ne) in
            let m = step n tot off in
            let (one, most, within) = step_lem n tot off lt in
            let at : ptr s1 (off / bsize) ≡ addr = given_ptr s (off / bsize) addr s1 mapped ne in
            let there : ptr s1 (off / bsize) ≢ 0 = λ z. ne (sym at ∙ z) in
            let block : ℕ → Bytes = λ a. patch src tot (off % bsize) m (s1.data_at a) in
            let s2 = with_block s1 addr (block addr) in
            let v2 : IsValid s2 =
              subst (λ a. IsValid (with_block s1 a (block a))) at
                (with_block-IsValid s1 (off / bsize) (block (ptr s1 (off / bsize))) mapped.valid
                  (omega (arith, fits, lt)) there) in
            let (tot', off', s', (rest, wrote)) =
              write_loop_lem fuel src n (tot + m) (off + m) s2 v2 (omega (arith, le, one)) most
                (omega (arith, fits, lt, most)) in
            (
              tot',
              off',
              s',
              (
                rw (c, ran, write_loop) (rw c' rest),
                record {
                  valid = wrote.valid;
                  file_size = wrote.file_size ∙ mapped.file_size;
                  more = let le2 = wrote.more in omega (arith, le2);
                  bound = wrote.bound;
                  moved = let e = wrote.moved in omega (arith, e);
                  ends = wrote.ends;
                  bytes = λ o o_lt.
                      wrote.bytes o o_lt
                      ∙ (ap
                            (λ x.
                              if leb (off + m) o && ltb o off'
                              then src (tot + m + (o - (off + m)))
                              else x)
                            (subst
                                (λ a.
                                  byte (with_block s1 a (block a)) o
                                  ≡ spliced src tot off (off + m) (byte s1) o)
                                at
                                (chunk s1 src tot off m o mapped.valid (omega (arith, fits, lt))
                                  within there o_lt)
                              ∙ ap
                                  (λ x.
                                    if leb off o && ltb o (off + m)
                                    then src (tot + (o - off))
                                    else x)
                                  (byte-Mapped s (off / bsize) addr s1 o v mapped o_lt))
                          ∙ splice src tot off m off' o (byte s) (
                              let e = wrote.moved in
                              let le2 = wrote.more in omega (arith, e, le2)));
                },
              ),
            )
      ]
]
