-- ===== src/Pipe/Calls.antt =====
-- The calls as operations on the queue.
use advanced_operating_syste.Prelude.{
  ℕ, zero, suc, ◌+◌, ◌%◌, ◌≡◌, refl, sym, ap, ◌∙◌, inl, inr, Bool, true, not, ◌&&◌, ◌||◌, ◌==◌,
  Option, some, List, [], ◌∷◌, ◌++◌, length, arith, Bool-cases, Option-cases,
}
use advanced_operating_syste.Pipe.{
  Pipe, pipe_size, wrap, push, drop_one, Stop, failed, returned, asleep, pipewrite, copy_out,
  piperead,
}
use advanced_operating_syste.Pipe.Queue.{
  bytes_from, count, contents, IsValid, contents-push, contents-drop,
}

-- The bytes from the index `i` up to the index `j`.
abbrev pub Sent : (ℕ → Option ℕ) → ℕ → List ℕ → ℕ → Type 0
Sent copyin i [] j = i ≡ j
Sent copyin i (b ∷ bs) j = (copyin i ≡ some b) × Sent copyin (i + 1) bs j

-- What a call of `pipewrite` did when it gives the lock up.
pub record Wrote (copyin : ℕ → Option ℕ) (i : ℕ) (p : Pipe) (r : Stop × ℕ × Pipe) : Type 0 where
  pub valid : IsValid r.2
  pub sent : (bs : List ℕ) × Sent copyin i bs r.1 × (contents r.2 ≡ contents p ++ bs)
  pub full : r.0 ≡ asleep → length (contents r.2) ≡ pipe_size

append-nil : (xs : List ℕ) → xs ++ [] ≡ xs
append-nil [] = refl
append-nil (x ∷ xs) = ap (λ ys. x ∷ ys) (append-nil xs)

append_assoc : (xs ys zs : List ℕ) → (xs ++ ys) ++ zs ≡ xs ++ (ys ++ zs)
append_assoc [] ys zs = refl
append_assoc (x ∷ xs) ys zs = ap (λ ws. x ∷ ws) (append_assoc xs ys zs)

length-bytes_from : (n r : ℕ) (d : ℕ → ℕ) → length (bytes_from n r d) ≡ n
unfolding bytes_from
length-bytes_from zero r d = refl
length-bytes_from (suc n) r d = ap suc (length-bytes_from n (wrap (r + 1)) d)

stopped :
    (copyin : ℕ → Option ℕ) (i : ℕ) (p : Pipe) (st : Stop)
    → IsValid p
    → (st ≡ asleep → length (contents p) ≡ pipe_size)
    → Wrote copyin i p (st, i, p)
stopped copyin i p st v full = record {
  valid = v;
  sent = ([], refl, sym (append-nil (contents p)));
  full = full;
}

-- `pipewrite` puts the bytes that it fetched, in order, at the end of the queue, whichever way it
-- stops, and it sleeps only on a full pipe.
pub pipewrite-contents :
    (copyin : ℕ → Option ℕ) (killed : Bool) (n i : ℕ) (p : Pipe)
    → IsValid p
    → Wrote copyin i p (pipewrite copyin killed n i p)
unfolding pipewrite
pipewrite-contents copyin killed zero i p v = stopped copyin i p returned v (λ e. cc)
pipewrite-contents copyin killed (suc n) i p v = elim (Bool-cases (not p.readopen || killed)) [
  | inl shut ↦ rw (shut, pipewrite) (stopped copyin i p failed v (λ e. cc))
  | inr open_end ↦ elim (Bool-cases (p.nwrite == wrap (p.nread + pipe_size))) [
    | inl full ↦
        rw (open_end, full, pipewrite)
          (stopped copyin i p asleep v (λ e.
            length-bytes_from (count p) p.nread p.data_at
            ∙ ground (arith, full, v.read_uint, v.write_uint)))
    | inr room ↦ elim (Option-cases (copyin i)) [
      | inl gone ↦ rw (open_end, room, gone, pipewrite) (stopped copyin i p returned v (λ e. cc))
      | inr (ch, got) ↦
          let (v1, at_end) = contents-push ch p v (ground (arith, room)) in
          let rest = pipewrite-contents copyin killed n (i + 1) (push ch p) v1 in
          let (bs, sent, all) = rest.sent in
          rw (open_end, room, got, pipewrite)
            (record {
              valid = rest.valid;
              sent = (
                ch ∷ bs,
                (got, sent),
                all ∙ (ap (λ ys. ys ++ bs) at_end ∙ append_assoc (contents p) (ch ∷ []) bs),
              );
              full = rest.full;
            })
    ]
  ]
]

-- The copying loop takes bytes from the front of the queue, in order.
copy_out-contents :
    (copyout : ℕ → ℕ → Bool) (n i : ℕ) (p : Pipe)
    → IsValid p
    → IsValid (copy_out copyout n i p).2
      × (contents p ≡ (copy_out copyout n i p).0 ++ contents (copy_out copyout n i p).2)
unfolding copy_out
copy_out-contents copyout zero i p v = (v, refl)
copy_out-contents copyout (suc n) i p v = elim (Bool-cases (p.nread == p.nwrite)) [
  | inl empty ↦ rw (empty, copy_out) (v, refl)
  | inr more ↦
      let ch = p.data_at (p.nread % pipe_size) in
      let (v1, front) = contents-drop p v (ground (arith, more)) in
      elim (Bool-cases (copyout i ch)) [
        | inr refused ↦ rw (more, refused, copy_out) (v1, front)
        | inl taken ↦
            let (v2, rest) = copy_out-contents copyout n (i + 1) (drop_one p) v1 in
            rw (more, taken, copy_out) (v2, front ∙ ap (λ ys. ch ∷ ys) rest)
      ]
]

-- `piperead` takes bytes from the front of the queue, in order, and sleeps only on an empty pipe
-- whose other end is open.
pub piperead-contents :
    (copyout : ℕ → ℕ → Bool) (killed : Bool) (n : ℕ) (p : Pipe)
    → IsValid p
    → IsValid (piperead copyout killed n p).3
      × (contents p ≡ (piperead copyout killed n p).1 ++ contents (piperead copyout killed n p).3)
      × ((piperead copyout killed n p).0 ≡ asleep → (contents p ≡ []) × (p.writeopen ≡ true))
unfolding piperead bytes_from
piperead-contents copyout killed n p v = elim (Bool-cases (p.nread == p.nwrite && p.writeopen)) [
  | inl wait ↦
      let zero_left : count p ≡ 0 = ground (arith, wait, v.read_uint, v.write_uint) in
      let empty : contents p ≡ [] = ap (λ k. bytes_from k p.nread p.data_at) zero_left in
      let open_end : p.writeopen ≡ true = ground (arith, wait) in
      elim (Bool-cases killed) [
        | inl k ↦ rw (wait, k, piperead) (v, refl, λ e. cc)
        | inr k ↦ rw (wait, k, piperead) (v, refl, λ e. (empty, open_end))
      ]
  | inr go ↦
      let (v1, all) = copy_out-contents copyout n 0 p v in rw (go, piperead) (v1, all, λ e. cc)
]
