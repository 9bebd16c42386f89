-- ===== src/Pipe/Tests.antt =====
-- A pipe of a few bytes.
use advanced_operating_syste.Prelude.{
  ◌+◌, ◌-◌, ◌^◌, ◌≡◌, refl, true, false, some, [], ◌∷◌, ◌++◌, arith,
}
use advanced_operating_syste.Pipe.{Pipe, asleep, pipewrite, copy_out, piperead}
use advanced_operating_syste.Pipe.Queue.{contents, IsValid}
use advanced_operating_syste.Pipe.Calls.{Wrote, pipewrite-contents, piperead-contents}

-- Two bytes whose counters wrap around behind them.
abbrev two_bytes : Pipe
two_bytes = record {
  data_at = λ k. k;
  nread = 2 ^ 32 - 2;
  nwrite = 0;
  readopen = true;
  writeopen = true;
}

two_bytes-IsValid : IsValid two_bytes
two_bytes-IsValid = record {
  read_uint = omega arith;
  write_uint = omega arith;
  bound = omega arith;
}

pipewrite-contents_example :
    Wrote (λ i. some (65 + i)) 0 two_bytes (pipewrite (λ i. some (65 + i)) false 3 0 two_bytes)
pipewrite-contents_example =
    pipewrite-contents (λ i. some (65 + i)) false 3 0 two_bytes two_bytes-IsValid

piperead-contents_example :
    IsValid (piperead (λ i ch. true) false 1 two_bytes).3
    × (contents two_bytes
        ≡ (piperead (λ i ch. true) false 1 two_bytes).1
          ++ contents (piperead (λ i ch. true) false 1 two_bytes).3)
    × ((piperead (λ i ch. true) false 1 two_bytes).0 ≡ asleep
        → (contents two_bytes ≡ []) × (true ≡ true))
piperead-contents_example = piperead-contents (λ i ch. true) false 1 two_bytes two_bytes-IsValid

-- The two bytes come first.
read_two : (piperead (λ i ch. true) false 5 two_bytes).1 ≡ 510 ∷ 511 ∷ []
unfolding piperead copy_out
read_two = refl
