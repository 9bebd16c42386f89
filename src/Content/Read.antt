-- ===== src/Content/Read.antt =====
-- What `readi` reads.
use advanced_operating_syste.Prelude.{
  ℕ, zero, suc, ◌+◌, ◌-◌, ◌*◌, ◌/◌, ◌%◌, ◌≤◌, ◌<◌, ◌≡◌, ◌≢◌, refl, sym, ap, subst, ◌∙◌, ◌⊎◌, inl,
  inr, true, false, ◌&&◌, ◌==◌, ltb, leb, if◌then◌else◌, ok, arith, ℕ_discrete, Bool-cases, dec_lt,
}
use advanced_operating_syste.Content.{maxfile, bsize, Store, read_loop}
use advanced_operating_syste.Content.Grown.{ptr, IsValid, Full}
use advanced_operating_syste.Content.Bmap.{bmap-Mapped}
use advanced_operating_syste.Content.FileBytes.{byte, byte_there, byte-Mapped}
use advanced_operating_syste.Content.Write.{step, step_lem, given_ptr, given-Full}

-- The bytes from `off` on at the places from `tot` to `tot'`, and `dst` elsewhere.
abbrev pub filled : (ℕ → ℕ) → ℕ → ℕ → ℕ → (ℕ → ℕ) → ℕ → ℕ
filled f off tot tot' dst j = if leb tot j && ltb j tot' then f (off + (j - tot)) else dst j

pub record Fetched (dst : ℕ → ℕ) (n tot off : ℕ) (s : Store) (tot' : ℕ) (dst' : ℕ → ℕ) (s' : Store)
    : Type 0 where
  pub valid : IsValid s'
  pub more : tot ≤ tot'
  pub bound : tot' ≤ n
  pub ends : (tot' ≡ n) ⊎ Full s'
  pub same : (o : ℕ) → o < maxfile * bsize → byte s' o ≡ byte s o
  pub got : (j : ℕ) → dst' j ≡ filled (byte s) off tot tot' dst j

filled_none : (f : ℕ → ℕ) (off tot : ℕ) (dst : ℕ → ℕ) (j : ℕ) → filled f off tot tot dst j ≡ dst j
filled_none f off tot dst j = ground arith

fill :
    (f : ℕ → ℕ) (off tot m tot' : ℕ) (dst : ℕ → ℕ) (j : ℕ)
    → tot + m ≤ tot'
    → filled f (off + m) (tot + m) tot' (filled f off tot (tot + m) dst) j
      ≡ filled f off tot tot' dst j
fill f off tot m tot' dst j le = ground (arith, le)

-- A chunk of a block.
chunk :
    (s : Store) (off tot m j : ℕ) (dst : ℕ → ℕ)
    → off % bsize + m ≤ bsize
    → ptr s (off / bsize) ≢ 0
    → (if leb tot j && ltb j (tot + m)
        then s.data_at (ptr s (off / bsize)) (off % bsize + (j - tot))
        else dst j)
      ≡ filled (byte s) off tot (tot + m) dst j
chunk s off tot m j dst fits ne = elim (Bool-cases (leb tot j && ltb j (tot + m))) [
  | inr c ↦ rw c refl
  | inl c ↦
      let lt : j - tot < m = ground (arith, c) in
      let e : (off + (j - tot)) / bsize ≡ off / bsize = omega (arith, fits, lt) in
      let r : (off + (j - tot)) % bsize ≡ off % bsize + (j - tot) = omega (arith, fits, lt) in
      rw c (
        sym (
          byte_there s (off + (j - tot)) (ptr s (off / bsize)) (ap (ptr s) e) ne
          ∙ ap (s.data_at (ptr s (off / bsize))) r))
]

-- The bytes that a round fetches are those of the file before it.
filled_same :
    (f g : ℕ → ℕ) (off tot tot' : ℕ) (dst : ℕ → ℕ) (j : ℕ)
    → ((o : ℕ) → o < maxfile * bsize → f o ≡ g o)
    → off + (tot' - tot) ≤ maxfile * bsize
    → filled f off tot tot' dst j ≡ filled g off tot tot' dst j
filled_same f g off tot tot' dst j same fits = elim (Bool-cases (leb tot j && ltb j tot')) [
  | inr c ↦ rw c refl
  | inl c ↦
      let lt : off + (j - tot) < maxfile * bsize = inside c in rw c (same (off + (j - tot)) lt)
]
  where
    inside : leb tot j && ltb j tot' ≡ true → off + (j - tot) < maxfile * bsize
    inside c =
        let lt : (tot ≤ j) × (j < tot') = (ground (arith, c), ground (arith, c)) in
        omega (arith, fits, lt.0, lt.1)

pub read_loop_lem :
    (fuel : ℕ) (dst : ℕ → ℕ) (n tot off : ℕ) (s : Store)
    → IsValid s
    → n ≤ tot + fuel
    → tot ≤ n
    → off + (n - tot) ≤ maxfile * bsize
    → (tot' : ℕ) × (dst' : ℕ → ℕ) × (s' : Store) × ((read_loop fuel dst n tot off s
          ≡ ok (tot', dst', s'))
        × Fetched dst n tot off s tot' dst' s')
unfolding read_loop
read_loop_lem zero dst n tot off s v le le' fits = (
  tot,
  dst,
  s,
  (
    refl,
    record {
      valid = v;
      more = omega arith;
      bound = le';
      ends = inl (omega (arith, le, le'));
      same = λ o lt. refl;
      got = λ j. sym (filled_none (byte s) off tot dst j);
    },
  ),
)
read_loop_lem (suc fuel) dst n tot off s v le le' fits = elim (dec_lt tot n) [
  | no end ↦
      let c : ltb tot n ≡ false = ground (arith, end) in
      (
        tot,
        dst,
        s,
        (
          rw c refl,
          record {
            valid = v;
            more = omega arith;
            bound = le';
            ends = inl (omega (arith, end, le'));
            same = λ o lt. refl;
            got = λ j. sym (filled_none (byte s) off tot dst j);
          },
        ),
      )
  | yes lt ↦
      let c : ltb tot n ≡ true = ground (arith, lt) in
      let (addr, s1, (ran, mapped)) = bmap-Mapped (off / bsize) s v (omega (arith, fits, lt)) in
      let still : (o : ℕ) → o < maxfile * bsize → byte s1 o ≡ byte s o =
        λ o o_lt. byte-Mapped s (off / bsize) addr s1 o v mapped o_lt in
      elim (ℕ_discrete addr 0) [
        | yes z ↦
            let c' : addr == 0 ≡ true = ground (arith, z) in
            (
              tot,
              dst,
              s1,
              (
                rw (c, ran, read_loop) (rw c' refl),
                record {
                  valid = mapped.valid;
                  more = omega arith;
                  bound = le';
                  ends = inr (given-Full s (off / bsize) addr s1 mapped z);
                  same = still;
                  got = λ j. sym (filled_none (byte s) off tot dst j);
                },
              ),
            )
        | no ne ↦
            let c' : addr == 0 ≡ false = ground (arith, ne) in
            let m = step n tot off in
            let (one, most, within) = step_lem n tot off lt in
            let at : ptr s1 (off / bsize) ≡ addr = given_ptr s (off / bsize) addr s1 mapped ne in
            let dst1 : ℕ → ℕ = λ j.
              if leb tot j && ltb j (tot + m)
              then s1.data_at addr (off % bsize + (j - tot))
              else dst j in
            let (tot', dst', s', (rest, fetched)) =
              read_loop_lem fuel dst1 n (tot + m) (off + m) s1 mapped.valid (omega (arith, le, one))
                most (omega (arith, fits, lt, most)) in
            let first : (j : ℕ) → dst1 j ≡ filled (byte s) off tot (tot + m) dst j = λ j.
              subst
                (λ a.
                  (if leb tot j && ltb j (tot + m)
                    then s1.data_at a (off % bsize + (j - tot))
                    else dst j)
                  ≡ filled (byte s1) off tot (tot + m) dst j)
                at (chunk s1 off tot m j dst within (λ z. ne (sym at ∙ z)))
              ∙ filled_same (byte s1) (byte s) off tot (tot + m) dst j still
                  (omega (arith, fits, most, lt)) in
            (
              tot',
              dst',
              s',
              (
                rw (c, ran, read_loop) (rw c' rest),
                record {
                  valid = fetched.valid;
                  more = let le2 = fetched.more in omega (arith, le2);
                  bound = fetched.bound;
                  ends = fetched.ends;
                  same = λ o o_lt. fetched.same o o_lt ∙ still o o_lt;
                  got = λ j.
                      fetched.got j
                      ∙ (filled_same (byte s1) (byte s) (off + m) (tot + m) tot' dst1 j still (
                            let le2 = fetched.bound in
                            let le3 = fetched.more in omega (arith, fits, le2, le3, most))
                          ∙ (ap
                                (λ x.
                                  if leb (tot + m) j && ltb j tot'
                                  then byte s (off + m + (j - (tot + m)))
                                  else x)
                                (first j)
                              ∙ fill (byte s) off tot m tot' dst j fetched.more));
                },
              ),
            )
      ]
]
