-- ===== src/Cow.antt =====
-- The copy-on-write groups, kernel/cow.c of assignment 2: which processes share memory, and the
-- physical pages that they share. (`uvmcopy_cow` and `copy_on_write` are not here.)
pub mod Shared
pub mod Groups
mod Tests
use advanced_operating_syste.Prelude.{
  ℕ, zero, suc, ◌+◌, ◌-◌, ◌*◌, ◌/◌, ◌%◌, ◌^◌, ◌≤◌, ◌<◌, ◌≡◌, ◌≢◌, refl, sym, ap, subst, ◌∙◌,
  fun_ext, ◌↔◌, ◌⊎◌, inl, inr, Bool, true, false, not, ◌&&◌, ◌||◌, ◌==◌, ltb, leb, if◌then◌else◌,
  bit_and, bit_or, Option, none, some, List, [], ◌∷◌, ◌++◌, map, length, get_elem?, get_or, set,
  take, drop, replicate, Outcome, ok, panic, fault, deref, ◌>>=◌, >>=-eq-ok, arith, ℕ_discrete,
  if_cases, ok-injective, Bool-cases, Option-cases, get_or-set_self, get_or-set_ne, length-set,
}
use advanced_operating_syste.Prelude.Int.{ℤ, pos, negsuc, ltb_ℤ, ◌+ℤ◌, ◌-ℤ◌}

-- NPROC and SHMEM_MAX.
abbrev pub nproc : ℕ
nproc = 64

abbrev pub shmem_max : ℕ
shmem_max = 100

-- `struct cow_group`; `shmem` has SHMEM_MAX words, a zero word is an unused one.
pub record CowGroup : Type 0 where
  pub group : ℤ
  pub shmem : List ℕ
  pub count : ℤ

abbrev pub same_int : ℤ → ℤ → Bool
same_int a b = not (ltb_ℤ a b) && not (ltb_ℤ b a)

-- The first entry from `i` on with a group number.
unfoldable pub find_group : ℤ → List CowGroup → ℕ → Option ℕ
find_group group [] i = none
find_group group (g ∷ gs) i =
    let rest = find_group group gs (i + 1) in if same_int g.group group then some i else rest

-- The index of the entry that `get_cow_group` points to; `none` for 0.
unfoldable pub get_cow_group : List CowGroup → ℤ → Option ℕ
unfolding find_group
get_cow_group gs group = if same_int group (negsuc 0) then none else find_group group gs 0

abbrev pub no_group : CowGroup
no_group = record { group = negsuc 0; shmem = []; count = pos 0 }

abbrev pub entry : List CowGroup → ℕ → CowGroup
entry gs i = get_or gs i no_group

unfoldable pub cow_group_init : List CowGroup → ℤ → List CowGroup
unfolding find_group
cow_group_init gs groupno = elim (find_group (pos 0) gs 0) [
  | none ↦ gs
  | some i ↦ set gs i (record (entry gs i) { group = groupno })
]

unfoldable pub get_cow_group_count : List CowGroup → ℤ → Outcome ℤ
get_cow_group_count gs group = do i ← deref (get_cow_group gs group); ok (entry gs i).count

unfoldable pub incr_cow_group_count : List CowGroup → ℤ → Outcome (List CowGroup)
incr_cow_group_count gs group = do
  i ← deref (get_cow_group gs group)
  c ← get_cow_group_count gs group
  ok (set gs i (record (entry gs i) { count = c +ℤ pos 1 }))

unfoldable pub decr_cow_group_count : List CowGroup → ℤ → Outcome (List CowGroup)
decr_cow_group_count gs group = do
  i ← deref (get_cow_group gs group)
  c ← get_cow_group_count gs group
  ok (set gs i (record (entry gs i) { count = c -ℤ pos 1 }))

-- The loop of `add_shmem` and the write behind it, on the words from an index on. Where the loop
-- runs to the end the write goes behind the array: `fault`.
unfoldable pub add_page : ℕ → List ℕ → Outcome (List ℕ)
add_page pa [] = fault
add_page pa (x ∷ xs) =
    let rest = add_page pa xs in
    elim (x == pa) [
      | true ↦ ok (x ∷ xs)
      | false ↦ elim (x == 0) [ true ↦ ok (pa ∷ xs) | false ↦ rest >>= (λ ys. ok (x ∷ ys)) ]
    ]

unfoldable pub add_shmem : List CowGroup → ℤ → ℕ → Outcome (List CowGroup)
add_shmem gs group pa = if same_int group (negsuc 0) then ok gs else (do
  i ← deref (get_cow_group gs group)
  pages ← add_page pa (entry gs i).shmem
  ok (set gs i (record (entry gs i) { shmem = pages })))

-- The loop of `is_shmem`.
unfoldable pub has_page : ℕ → List ℕ → Bool
has_page pa [] = false
has_page pa (x ∷ xs) =
    let rest = has_page pa xs in if x == 0 then false else if x == pa then true else rest

unfoldable pub is_shmem : List CowGroup → ℤ → ℕ → Outcome Bool
is_shmem gs group pa =
    if same_int group (negsuc 0)
    then ok false
    else (do i ← deref (get_cow_group gs group); ok (has_page pa (entry gs i).shmem))

pub cow_init : List CowGroup → List CowGroup
cow_init gs =
    map (λ g. record { group = negsuc 0; shmem = replicate shmem_max 0; count = pos 0 }) gs
