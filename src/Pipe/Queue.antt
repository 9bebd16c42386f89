-- ===== src/Pipe/Queue.antt =====
-- The ring as a queue of bytes.
use advanced_operating_syste.Prelude.{
  ℕ, zero, suc, ◌+◌, ◌-◌, ◌%◌, ◌^◌, ◌≤◌, ◌<◌, ◌≡◌, ◌≢◌, refl, sym, ap, ◌∙◌, ◌==◌, if◌then◌else◌,
  List, [], ◌∷◌, ◌++◌, length, arith,
}
use advanced_operating_syste.Pipe.{Pipe, pipe_size, wrap, push, drop_one}

-- `n` bytes of the ring from the counter `r` on.
unfoldable pub bytes_from : ℕ → ℕ → (ℕ → ℕ) → List ℕ
bytes_from zero r d = []
bytes_from (suc n) r d = d (r % pipe_size) ∷ bytes_from n (wrap (r + 1)) d

abbrev pub count : Pipe → ℕ
count p = wrap (p.nwrite + 2 ^ 32 - p.nread)

-- The bytes that were written and not read.
abbrev pub contents : Pipe → List ℕ
contents p = bytes_from (count p) p.nread p.data_at

pub record IsValid (p : Pipe) : Type 0 where
  pub read_uint : p.nread < 2 ^ 32
  pub write_uint : p.nwrite < 2 ^ 32
  pub bound : count p ≤ pipe_size

length-bytes_from : (n r : ℕ) (d : ℕ → ℕ) → length (bytes_from n r d) ≡ n
unfolding bytes_from
length-bytes_from zero r d = refl
length-bytes_from (suc n) r d = ap suc (length-bytes_from n (wrap (r + 1)) d)

-- A write behind the bytes does not reach them.
bytes_from-apart :
    (n r w ch : ℕ) (d : ℕ → ℕ)
    → n < pipe_size
    → r < 2 ^ 32
    → w ≡ wrap (r + n)
    → bytes_from n r (λ k. if w % pipe_size == k then ch else d k) ≡ bytes_from n r d
unfolding bytes_from
bytes_from-apart zero r w ch d lt lr e = refl
bytes_from-apart (suc n) r w ch d lt lr e =
    let ne : w % pipe_size ≢ r % pipe_size = λ h. absurd (omega (arith, e, h)) in
    let rest : bytes_from n (wrap (r + 1)) (λ k. if w % pipe_size == k then ch else d k)
        ≡ bytes_from n (wrap (r + 1)) d =
      bytes_from-apart n (wrap (r + 1)) w ch d (omega (arith, lt)) (omega arith)
        (omega (arith, e)) in
    ground (arith, ne, rest)

bytes_from-suc :
    (n r : ℕ) (d : ℕ → ℕ)
    → r < 2 ^ 32
    → bytes_from (suc n) r d ≡ bytes_from n r d ++ (d (wrap (r + n) % pipe_size) ∷ [])
unfolding bytes_from
bytes_from-suc zero r d lt = ap (λ k. d (k % pipe_size) ∷ []) (omega (arith, lt))
bytes_from-suc (suc n) r d lt =
    ap (λ ys. d (r % pipe_size) ∷ ys)
      (bytes_from-suc n (wrap (r + 1)) d (omega arith)
        ∙ ap (λ k. bytes_from n (wrap (r + 1)) d ++ (d (k % pipe_size) ∷ [])) (omega arith))

-- A byte is put in at the end.
pub contents-push :
    (ch : ℕ) (p : Pipe)
    → IsValid p
    → p.nwrite ≢ wrap (p.nread + pipe_size)
    → IsValid (push ch p) × (contents (push ch p) ≡ contents p ++ (ch ∷ []))
contents-push ch p v room =
    let less : count p < pipe_size = omega (arith, v.read_uint, v.write_uint, v.bound, room) in
    let one_more : count (push ch p) ≡ suc (count p) =
      omega (arith, v.read_uint, v.write_uint, less) in
    let at : p.nwrite ≡ wrap (p.nread + count p) = omega (arith, v.read_uint, v.write_uint) in
    let d = (push ch p).data_at in
    let last : d (wrap (p.nread + count p) % pipe_size) ≡ ch = ground (arith, at) in
    (
      record {
        read_uint = v.read_uint;
        write_uint = omega arith;
        bound = omega (arith, one_more, less);
      },
      ap (λ n. bytes_from n p.nread d) one_more
          ∙ (bytes_from-suc (count p) p.nread d v.read_uint
              ∙ (ap (λ x. bytes_from (count p) p.nread d ++ (x ∷ [])) last
                  ∙ ap (λ ys. ys ++ (ch ∷ []))
                      (bytes_from-apart (count p) p.nread p.nwrite ch p.data_at less v.read_uint
                        at))),
    )

bytes_from-pred :
    (n r : ℕ) (d : ℕ → ℕ)
    → 0 < n
    → bytes_from n r d ≡ d (r % pipe_size) ∷ bytes_from (n - 1) (wrap (r + 1)) d
unfolding bytes_from
bytes_from-pred zero r d pos = absurd (omega arith)
bytes_from-pred (suc n) r d pos =
    ap (λ k. d (r % pipe_size) ∷ bytes_from k (wrap (r + 1)) d) (omega arith)

-- A byte is taken from the front.
pub contents-drop :
    (p : Pipe)
    → IsValid p
    → p.nread ≢ p.nwrite
    → IsValid (drop_one p) × (contents p ≡ p.data_at (p.nread % pipe_size) ∷ contents (drop_one p))
contents-drop p v some_left =
    let left : count (drop_one p) ≡ count p - 1 =
      omega (arith, v.read_uint, v.write_uint, some_left) in
    (
      record {
        read_uint = omega arith;
        write_uint = v.write_uint;
        bound = omega (arith, left, v.bound);
      },
      bytes_from-pred (count p) p.nread p.data_at
            (omega (arith, v.read_uint, v.write_uint, some_left))
          ∙ ap (λ n. p.data_at (p.nread % pipe_size) ∷ bytes_from n (wrap (p.nread + 1)) p.data_at)
              (sym left),
    )
