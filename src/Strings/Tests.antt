-- ===== src/Strings/Tests.antt =====
-- A string of three bytes.
use advanced_operating_syste.Prelude.{ℕ, ◌<◌, ◌≡◌, refl, ◌⊎◌, inr, ◌==◌, if◌then◌else◌, some, arith}
use advanced_operating_syste.Memory.{Bytes}
use advanced_operating_syste.Strings.{safestrcpy, strlen, safe_copy}
use advanced_operating_syste.Strings.Copies.{Copied, safestrcpy-Copied}

-- Three bytes at 100, and a 0.
abbrev three_bytes : Bytes
three_bytes q = if q == 100 then 97 else if q == 101 then 98 else if q == 102 then 99 else 0

safestrcpy-Copied_example :
    Copied three_bytes (safestrcpy three_bytes 40 100 3) 40 100 2
    × ((q : ℕ) → (q < 40) ⊎ (42 < q) → safestrcpy three_bytes 40 100 3 q ≡ three_bytes q)
safestrcpy-Copied_example = safestrcpy-Copied 2 three_bytes 40 100 (inr (omega arith))

source_length : strlen 8 three_bytes 100 ≡ some 3
unfolding strlen
source_length = refl

copy_length : strlen 8 (safestrcpy three_bytes 40 100 3) 40 ≡ some 2
unfolding strlen safestrcpy safe_copy
copy_length = refl
