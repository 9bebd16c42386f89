-- ===== src/Files/Handles.antt =====
-- The reference counts of the files against the handles that are in use.
use advanced_operating_syste.Prelude.{
  ℕ, zero, suc, ◌+◌, ◌-◌, ◌^◌, ◌≤◌, ◌<◌, ◌≡◌, ◌≢◌, refl, sym, subst, ◌∙◌, ◌⊎◌, inl, inr, true,
  false, ◌==◌, if◌then◌else◌, Option, none, some, List, [], ◌∷◌, length, ok, arith, ℕ_discrete,
  Option-cases,
}
use advanced_operating_syste.Prelude.Maps.{put, put_all}
use advanced_operating_syste.Files.{
  File, Call, fd_none, fd_pipe, fd_inode, fd_device, pipeclose, iput, nfile, find_free, filealloc,
  filedup, fileclose,
}

-- How often a file is among the handles.
abbrev pub count : ℕ → List ℕ → ℕ
count f [] = 0
count f (h ∷ hs) = (if h == f then 1 else 0) + count f hs

-- The handles without one of a file.
abbrev pub remove : ℕ → List ℕ → List ℕ
remove f [] = []
remove f (h ∷ hs) = if h == f then hs else h ∷ remove f hs

-- Every file has as many references as there are handles on it, which an int can count.
abbrev pub IsValid : (ℕ → File) → List ℕ → Type 0
IsValid fs hs = ((f : ℕ) → (fs f).ref ≡ count f hs) × (length hs < 2 ^ 31)

count-≤ : (f : ℕ) (hs : List ℕ) → count f hs ≤ length hs
count-≤ f [] = omega arith
count-≤ f (h ∷ hs) = ground (arith, count-≤ f hs)

count-remove :
    (f g : ℕ) (hs : List ℕ)
    → 1 ≤ count f hs
    → count g (remove f hs) + (if g == f then 1 else 0) ≡ count g hs
count-remove f g [] some_handle = absurd (omega (arith, some_handle))
count-remove f g (h ∷ hs) some_handle = elim (ℕ_discrete h f) [
  | yes e ↦ ground (arith, e)
  | no ne ↦ ground (arith, ne, some_handle, count-remove f g hs (ground (arith, ne, some_handle)))
]

length-remove : (f : ℕ) (hs : List ℕ) → length (remove f hs) ≤ length hs
length-remove f [] = omega arith
length-remove f (h ∷ hs) = ground (arith, length-remove f hs)

-- The table with another count for one file.
counted :
    (fs : ℕ → File) (hs hs' : List ℕ) (f : ℕ) (x : File)
    → x.ref ≡ count f hs'
    → ((g : ℕ) → g ≢ f → count g hs' ≡ count g hs)
    → ((g : ℕ) → (fs g).ref ≡ count g hs)
    → (g : ℕ) → (put fs f x g).ref ≡ count g hs'
counted fs hs hs' f x at others refs =
    put_all (λ g y. y.ref ≡ count g hs') fs f x at (λ g ne. refs g ∙ sym (others g ne))

-- A handle more on a file that has one, while an int can count them: `filedup` succeeds.
pub filedup-IsValid :
    (fs : ℕ → File) (hs : List ℕ) (f : ℕ)
    → IsValid fs hs
    → 1 ≤ count f hs
    → length hs + 1 < 2 ^ 31
    → (fs' : ℕ → File) × (filedup f fs ≡ ok fs') × IsValid fs' (f ∷ hs)
unfolding filedup
filedup-IsValid fs hs f (refs, few) some_handle lt =
    let at = refs f in
    let le = count-≤ f hs in
    (
      put fs f (record (fs f) { ref = count f hs + 1 }),
      ground (arith, at, le, some_handle, lt),
      (
        counted fs hs (f ∷ hs) f (record (fs f) { ref = count f hs + 1 }) (ground arith)
            (λ g ne. ground (arith, ne)) refs,
        omega (arith, lt),
      ),
    )

-- What the kernel owes to a file that nobody has open any more.
abbrev pub last_call : File → List Call
last_call f = elim f.type [
  | fd_none ↦ []
  | fd_pipe ↦ pipeclose f.pipe f.writable ∷ []
  | fd_inode ↦ iput f.ip ∷ []
  | fd_device ↦ iput f.ip ∷ []
]

-- Where the references of every file count its handles, closing a file that has one succeeds,
-- takes the handle from the count, and calls `pipeclose` or `iput`, as the type of the file says,
-- if and only if it was the last one.
pub fileclose-IsValid :
    (fs : ℕ → File) (hs : List ℕ) (f : ℕ)
    → IsValid fs hs
    → 1 ≤ count f hs
    → (fs' : ℕ → File) × (fileclose f fs
        ≡ ok ((if count f hs == 1 then last_call (fs f) else []), fs'))
      × IsValid fs' (remove f hs)
unfolding fileclose
fileclose-IsValid fs hs f (refs, few) some_handle =
    let at = refs f in
    let le = count-≤ f hs in
    let others : (g : ℕ) → g ≢ f → count g (remove f hs) ≡ count g hs =
      λ g ne. ground (arith, ne, count-remove f g hs some_handle) in
    let mine : count f (remove f hs) + 1 ≡ count f hs =
      ground (arith, count-remove f f hs some_handle) in
    let short : length (remove f hs) < 2 ^ 31 = omega (arith, few, length-remove f hs) in
    elim (ℕ_discrete (count f hs) 1) [
      | yes e ↦ (
        put fs f (record (fs f) { ref = 0; type = fd_none }),
        rw (at, e) refl,
        (
          counted fs hs (remove f hs) f (record (fs f) { ref = 0; type = fd_none })
              (omega (arith, mine, e)) others refs,
          short,
        ),
      )
      | no ne ↦ (
        put fs f (record (fs f) { ref = (fs f).ref - 1 }),
        ground (arith, at, ne, some_handle, le, few),
        (
          counted fs hs (remove f hs) f (record (fs f) { ref = (fs f).ref - 1 })
              (omega (arith, mine, at)) others refs,
          short,
        ),
      )
    ]

-- What the scan finds.
abbrev Found : (ℕ → File) → ℕ → ℕ → Option ℕ → Type 0
Found fs n i none = (k : ℕ) → i ≤ k → k < i + n → (fs k).ref ≢ 0
Found fs n i (some f) = (i ≤ f) × (f < i + n) × ((fs f).ref ≡ 0)

Found-later :
    (fs : ℕ → File) (n i : ℕ) (r : Option ℕ)
    → (fs i).ref ≢ 0
    → Found fs n (i + 1) r
    → Found fs (suc n) i r
Found-later fs n i none ne found = λ k le lt. elim (ℕ_discrete k i) [
  | yes e ↦ subst (λ j. (fs j).ref ≢ 0) (sym e) ne
  | no other ↦ found k (omega (arith, le, other)) (omega (arith, lt))
]
Found-later fs n i (some f) ne (le, lt, e) = (omega (arith, le), omega (arith, lt), e)

find_free_lem : (n i : ℕ) (fs : ℕ → File) → Found fs n i (find_free n i fs)
unfolding find_free
find_free_lem zero i fs = λ k le lt. absurd (omega (arith, le, lt))
find_free_lem (suc n) i fs = elim (ℕ_discrete (fs i).ref 0) [
  | yes e ↦
      let here : (fs i).ref == 0 ≡ true = ground (arith, e) in rw here (omega arith, omega arith, e)
  | no ne ↦
      let away : (fs i).ref == 0 ≡ false = ground (arith, ne) in
      rw away (Found-later fs n i (find_free n (i + 1) fs) ne (find_free_lem n (i + 1) fs))
]

-- Where the references of every file count its handles and an int can count one more, `filealloc`
-- gives a file without a handle and makes one for it, or it fails, changing nothing, and every
-- file of the table has a handle.
pub filealloc-IsValid :
    (fs : ℕ → File) (hs : List ℕ)
    → IsValid fs hs
    → length hs + 1 < 2 ^ 31
    → ((f : ℕ) × (fs' : ℕ → File) × ((filealloc fs ≡ (some f, fs'))
          × (f < nfile)
          × (count f hs ≡ 0)
          × IsValid fs' (f ∷ hs)))
      ⊎ ((filealloc fs ≡ (none, fs)) × ((f : ℕ) → f < nfile → 1 ≤ count f hs))
unfolding filealloc
filealloc-IsValid fs hs (refs, few) lt = elim (Option-cases (find_free nfile 0 fs)) [
  | inl e ↦
      let full : Found fs nfile 0 none = subst (Found fs nfile 0) e (find_free_lem nfile 0 fs) in
      inr (
        rw (e, filealloc) refl,
        λ f f_lt.
            let ne = full f (omega arith) (omega (arith, f_lt)) in
            let at = refs f in omega (arith, ne, at),
      )
  | inr (f, e) ↦
      let (_, f_lt, free) : Found fs nfile 0 (some f) =
        subst (Found fs nfile 0) e (find_free_lem nfile 0 fs) in
      let none_yet : count f hs ≡ 0 = sym (refs f) ∙ free in
      let fs' = put fs f (record (fs f) { ref = 1 }) in
      inl (
        f,
        fs',
        (
          rw (e, filealloc) refl,
          omega (arith, f_lt),
          none_yet,
          (
            counted fs hs (f ∷ hs) f (record (fs f) { ref = 1 }) (ground (arith, none_yet))
                (λ g ne. ground (arith, ne)) refs,
            omega (arith, lt),
          ),
        ),
      )
]
