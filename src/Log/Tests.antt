-- ===== src/Log/Tests.antt =====
-- A small log, and a crash in the middle of a commit.
use advanced_operating_syste.Prelude.{ℕ, ◌≡◌, refl, ◌⊎◌, inr, true, [], ◌∷◌, arith}
use advanced_operating_syste.Prelude.Int.{pos}
use advanced_operating_syste.Log.{Block, Fs, put, recover_from_log, commit}
use advanced_operating_syste.Log.Recovery.{reboot}
use advanced_operating_syste.Log.Sealed.{Ready, Home, updated}
use advanced_operating_syste.Log.Crash.{recover-commit, commit-done}

abbrev filled : ℕ → Block
filled n w = n

-- Two changed blocks, 20 and 21, with power for `p` writes.
abbrev two_changed : ℕ → Fs
two_changed p = record {
  log = record { start = 2; size = 10; outstanding = pos 0; committing = true; lh = 20 ∷ 21 ∷ [] };
  cache = put (put (λ b. filled 0) 20 (filled 7)) 21 (filled 8);
  disk = λ b. filled 0;
  power = p;
}

two_changed-Ready : (p : ℕ) → Ready (two_changed p)
two_changed-Ready p = record {
  outside = (inr (omega arith), (inr (omega arith), tt));
  fits = omega arith;
  clear = refl;
}

-- The machine stops after the header and one of the two blocks.
recover-commit_example :
    ((q : ℕ)
      → Home (two_changed 4) q
      → (recover_from_log (reboot 3 (commit (two_changed 4)))).disk q ≡ (two_changed 4).disk q)
    ⊎ ((q : ℕ)
        → Home (two_changed 4) q
        → (recover_from_log (reboot 3 (commit (two_changed 4)))).disk q ≡ updated (two_changed 4) q)
recover-commit_example = recover-commit (two_changed 4) 3 (two_changed-Ready 4) (omega arith)

commit-done_example :
    ((commit (two_changed 6)).disk 2 0 ≡ 0)
    × ((q : ℕ)
        → Home (two_changed 6) q
        → (commit (two_changed 6)).disk q ≡ updated (two_changed 6) q)
commit-done_example = commit-done (two_changed 6) (two_changed-Ready 6) (omega arith)
