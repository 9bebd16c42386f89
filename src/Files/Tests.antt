-- ===== src/Files/Tests.antt =====
-- Three handles on two files.
use advanced_operating_syste.Prelude.{
  ℕ, ◌≤◌, ◌<◌, ◌≡◌, ◌⊎◌, true, false, ◌==◌, if◌then◌else◌, none, some, List, [], ◌∷◌, ok, arith,
}
use advanced_operating_syste.Files.{File, fd_pipe, pipeclose, nfile, filealloc, filedup, fileclose}
use advanced_operating_syste.Files.Handles.{
  count, IsValid, filedup-IsValid, fileclose-IsValid, filealloc-IsValid,
}

abbrev pipe_end : ℕ → File
pipe_end r = record {
  type = fd_pipe;
  ref = r;
  readable = false;
  writable = true;
  pipe = 7;
  ip = 0;
  off = 0;
  major = 0;
}

abbrev used_files : ℕ → File
used_files f = pipe_end (if f == 0 then 2 else if f == 1 then 1 else 0)

abbrev handles : List ℕ
handles = 0 ∷ 1 ∷ 0 ∷ []

used_files-IsValid : IsValid used_files handles
used_files-IsValid = (λ f. ground arith, omega arith)

filedup-IsValid_example :
    (fs' : ℕ → File) × (filedup 1 used_files ≡ ok fs') × IsValid fs' (1 ∷ handles)
filedup-IsValid_example =
    filedup-IsValid used_files handles 1 used_files-IsValid (omega arith) (omega arith)

fileclose-IsValid_example :
    (fs' : ℕ → File) × (fileclose 1 used_files ≡ ok (pipeclose 7 true ∷ [], fs'))
    × IsValid fs' (0 ∷ 0 ∷ [])
fileclose-IsValid_example = fileclose-IsValid used_files handles 1 used_files-IsValid (omega arith)

filealloc-IsValid_example :
    ((f : ℕ) × (fs' : ℕ → File) × ((filealloc used_files ≡ (some f, fs'))
        × (f < nfile)
        × (count f handles ≡ 0)
        × IsValid fs' (f ∷ handles)))
    ⊎ ((filealloc used_files ≡ (none, used_files)) × ((f : ℕ) → f < nfile → 1 ≤ count f handles))
filealloc-IsValid_example = filealloc-IsValid used_files handles used_files-IsValid (omega arith)
