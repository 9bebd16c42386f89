-- ===== src/Cow/Groups.antt =====
-- The table of groups: lookups, the pages of each group, the member counts.
use advanced_operating_syste.Prelude.{
  ℕ, zero, suc, ◌+◌, ◌<◌, ◌≡◌, ◌≢◌, refl, sym, ap, ◌∙◌, inl, inr, Bool, true, false, ◌||◌, ◌==◌,
  none, some, List, [], ◌∷◌, length, set, ok, fault, >>=-eq-ok, arith, ok-injective, Bool-cases,
  Option-cases, get_or-set_self, get_or-set_ne, set-set, set-get_or,
}
use advanced_operating_syste.Prelude.Int.{ℤ, pos, negsuc, ◌+ℤ◌, ◌-ℤ◌, +ℤ_cancel}
use advanced_operating_syste.Cow.{
  CowGroup, same_int, entry, no_group, get_cow_group, find_group, add_page, has_page, add_shmem,
  is_shmem, cow_group_init, get_cow_group_count, incr_cow_group_count, decr_cow_group_count,
}
use advanced_operating_syste.Cow.Shared.{Packed, AllUsed, add_page-has, add_page-full}

find_group-some :
    (g : ℤ) (gs : List CowGroup) (k j : ℕ)
    → find_group g gs k ≡ some j
    → (i : ℕ) × (j ≡ k + i) × (i < length gs) × (same_int (entry gs i).group g ≡ true)
unfolding find_group
find_group-some g [] k j e = absurd (cc)
find_group-some g (x ∷ gs) k j e = elim (Bool-cases (same_int x.group g)) [
  | inl here ↦ (0, ground (arith, here, e), omega arith, here)
  | inr further ↦
      let (i, at, lt, same) = find_group-some g gs (k + 1) j (rw further at e) in
      (suc i, omega (arith, at), omega (arith, lt), same)
]

-- An update that keeps the group number keeps every lookup.
find_group-set :
    (g : ℤ) (gs : List CowGroup) (i k : ℕ) (x : CowGroup)
    → x.group ≡ (entry gs i).group
    → find_group g (set gs i x) k ≡ find_group g gs k
unfolding find_group
find_group-set g [] i k x e = refl
find_group-set g (y ∷ gs) zero k x e = ground (arith, e)
find_group-set g (y ∷ gs) (suc i) k x e = ground (arith, find_group-set g gs i (k + 1) x e)

pub get_cow_group-set :
    (g : ℤ) (gs : List CowGroup) (i : ℕ) (x : CowGroup)
    → x.group ≡ (entry gs i).group
    → get_cow_group (set gs i x) g ≡ get_cow_group gs g
unfolding get_cow_group
get_cow_group-set g gs i x e = ground (arith, find_group-set g gs i 0 x e)

get_cow_group-some :
    (g : ℤ) (gs : List CowGroup) (i : ℕ)
    → get_cow_group gs g ≡ some i
    → (i < length gs) × (same_int (entry gs i).group g ≡ true) × (same_int g (negsuc 0) ≡ false)
unfolding get_cow_group
get_cow_group-some g gs i e = elim (Bool-cases (same_int g (negsuc 0))) [
  | inl off ↦ absurd (cc (rw off at e))
  | inr on ↦
      let (j, at, lt, same) = find_group-some g gs 0 i (rw on at e) in
      (
        omega (arith, at, lt),
        ap (λ n. same_int (entry gs n).group g) (omega (arith, at)) ∙ same,
        on,
      )
]

is_shmem-found :
    (gs : List CowGroup) (g : ℤ) (q i : ℕ)
    → get_cow_group gs g ≡ some i
    → is_shmem gs g q ≡ ok (has_page q (entry gs i).shmem)
unfolding is_shmem
is_shmem-found gs g q i e = ground (arith, e, get_cow_group-some g gs i e)

-- What a successful `add_shmem` did.
add_shmem-ok :
    (gs : List CowGroup) (group : ℤ) (pa : ℕ) {gs' : List CowGroup}
    → same_int group (negsuc 0) ≡ false
    → add_shmem gs group pa ≡ ok gs'
    → (i : ℕ) × (pages : List ℕ) × (get_cow_group gs group ≡ some i)
      × (add_page pa (entry gs i).shmem ≡ ok pages)
      × (gs' ≡ set gs i (record (entry gs i) { shmem = pages }))
unfolding add_shmem
add_shmem-ok gs group pa on e = elim (Option-cases (get_cow_group gs group)) [
  | inl gone ↦ absurd (cc (rw (on, gone) at e))
  | inr (i, found) ↦
      let (pages, r, e') = >>=-eq-ok (add_page pa (entry gs i).shmem) _ (rw (on, found) at e) in
      (i, pages, found, r, sym (ok-injective e'))
]

-- After `add_shmem` a page is shared in the group if it was or is the one added.
pub is_shmem-add_shmem :
    (gs : List CowGroup) (group : ℤ) (pa q : ℕ) {gs' : List CowGroup}
    → same_int group (negsuc 0) ≡ false
    → ((k : ℕ) → Packed (entry gs k).shmem)
    → pa ≢ 0
    → add_shmem gs group pa ≡ ok gs'
    → (b : Bool) × (is_shmem gs group q ≡ ok b) × (is_shmem gs' group q ≡ ok (b || q == pa))
is_shmem-add_shmem gs group pa q {gs'} on packed nz e =
    let (i, pages, found, added, at) = add_shmem-ok gs group pa on e in
    let new = record (entry gs i) { shmem = pages } in
    let (lt, _, _) = get_cow_group-some group gs i found in
    let found' : get_cow_group (set gs i new) group ≡ some i =
      get_cow_group-set group gs i new refl ∙ found in
    (
      has_page q (entry gs i).shmem,
      is_shmem-found gs group q i found,
      ap (λ t. is_shmem t group q) at
          ∙ (is_shmem-found (set gs i new) group q i found'
              ∙ ap ok (
                  ap (λ (g : CowGroup). has_page q g.shmem) (get_or-set_self gs i new no_group lt)
                  ∙ add_page-has pa q (entry gs i).shmem nz (packed i) added)),
    )

add_shmem-off :
    (gs : List CowGroup) (group : ℤ) (pa : ℕ)
    → same_int group (negsuc 0) ≡ true
    → add_shmem gs group pa ≡ ok gs
unfolding add_shmem
add_shmem-off gs group pa off = rw off refl

same_group : (a b g : ℤ) → same_int g a ≡ true → same_int g b ≡ true → same_int b a ≡ true
same_group a b g p q = ground arith

is_shmem-entry :
    (gs gs' : List CowGroup) (g : ℤ) (q : ℕ)
    → get_cow_group gs' g ≡ get_cow_group gs g
    → ((j : ℕ) → get_cow_group gs g ≡ some j → entry gs' j ≡ entry gs j)
    → is_shmem gs' g q ≡ is_shmem gs g q
unfolding is_shmem
is_shmem-entry gs gs' g q same entries = elim (Option-cases (get_cow_group gs g)) [
  | inl gone ↦ rw (same, gone) refl
  | inr (j, found) ↦ rw (same, found, entries j found) refl
]

-- The pages of every other group stay as they are.
pub is_shmem-add_shmem_other :
    (gs : List CowGroup) (group other : ℤ) (pa q : ℕ) {gs' : List CowGroup}
    → same_int other group ≡ false
    → add_shmem gs group pa ≡ ok gs'
    → is_shmem gs' other q ≡ is_shmem gs other q
is_shmem-add_shmem_other gs group other pa q ne e = elim (Bool-cases (same_int group (negsuc 0))) [
  | inl off ↦
      ap (λ t. is_shmem t other q) (sym (ok-injective (sym (add_shmem-off gs group pa off) ∙ e)))
  | inr on ↦
      let (i, pages, found, _, at) = add_shmem-ok gs group pa on e in
      let new = record (entry gs i) { shmem = pages } in
      ap (λ t. is_shmem t other q) at
      ∙ is_shmem-entry gs (set gs i new) other q (get_cow_group-set other gs i new refl)
          (λ j found_j. get_or-set_ne gs i j new no_group (λ same. cc (
            ne,
            same_group group other (entry gs j).group
                (ap (λ k. same_int (entry gs k).group group) (sym same)
                  ∙ (get_cow_group-some group gs i found).1)
                (get_cow_group-some other gs j found_j).1,
          )))
]

-- A group that is full of other pages: `add_shmem` writes behind its array.
pub add_shmem-full :
    (gs : List CowGroup) (group : ℤ) (pa i : ℕ)
    → get_cow_group gs group ≡ some i
    → AllUsed pa (entry gs i).shmem
    → add_shmem gs group pa ≡ fault
unfolding add_shmem
add_shmem-full gs group pa i found used =
    ground
      (arith, found, get_cow_group-some group gs i found, add_page-full pa (entry gs i).shmem used)

module _ (gs : List CowGroup) (group : ℤ) (i : ℕ) (found : get_cow_group gs group ≡ some i) where
  count-found : get_cow_group_count gs group ≡ ok (entry gs i).count
  unfolding get_cow_group_count
  count-found = rw found refl

  incr-found :
      incr_cow_group_count gs group
      ≡ ok (set gs i (record (entry gs i) { count = (entry gs i).count +ℤ pos 1 }))
  unfolding incr_cow_group_count
  incr-found = rw (found, count-found) refl

  decr-found :
      decr_cow_group_count gs group
      ≡ ok (set gs i (record (entry gs i) { count = (entry gs i).count -ℤ pos 1 }))
  unfolding decr_cow_group_count
  decr-found = rw (found, count-found) refl

-- A fork into the group and an exit from it leave the table as it was.
pub decr-incr :
    (gs : List CowGroup) (group : ℤ) (i : ℕ)
    → get_cow_group gs group ≡ some i
    → (gs' : List CowGroup) × (incr_cow_group_count gs group ≡ ok gs')
      × (get_cow_group_count gs' group ≡ ok ((entry gs i).count +ℤ pos 1))
      × (decr_cow_group_count gs' group ≡ ok gs)
decr-incr gs group i found =
    let new = record (entry gs i) { count = (entry gs i).count +ℤ pos 1 } in
    let (lt, _, _) = get_cow_group-some group gs i found in
    let found' : get_cow_group (set gs i new) group ≡ some i =
      get_cow_group-set group gs i new refl ∙ found in
    let at : entry (set gs i new) i ≡ new = get_or-set_self gs i new no_group lt in
    (
      set gs i new,
      incr-found gs group i found,
      count-found (set gs i new) group i found' ∙ ap (λ (g : CowGroup). ok g.count) at,
      decr-found (set gs i new) group i found'
          ∙ ap ok (
              ap (λ (g : CowGroup). set (set gs i new) i (record g { count = g.count -ℤ pos 1 })) at
              ∙ (set-set gs i new _
                  ∙ (ap (λ c. set gs i (record (entry gs i) { count = c }))
                        (+ℤ_cancel (entry gs i).count (pos 1))
                      ∙ set-get_or gs i no_group))),
    )

-- No entry has the number 0.
abbrev pub NoneZero : List CowGroup → Type 0
NoneZero [] = Unit
NoneZero (g ∷ gs) = (same_int g.group (pos 0) ≡ false) × NoneZero gs

none_zero : (gs : List CowGroup) (k : ℕ) → NoneZero gs → find_group (pos 0) gs k ≡ none
unfolding find_group
none_zero [] k h = refl
none_zero (g ∷ gs) k h = ground (arith, h.0, none_zero gs (k + 1) h.1)

-- Once every entry is taken (none is ever given back), a new group gets no entry, and the test that
-- `uvmunmap` makes for a process of no group, whose number is 0, follows a null pointer.
pub groups_exhausted :
    (gs : List CowGroup) (groupno : ℤ) (pa : ℕ)
    → NoneZero gs
    → (cow_group_init gs groupno ≡ gs) × (is_shmem gs (pos 0) pa ≡ fault)
unfolding cow_group_init is_shmem get_cow_group
groups_exhausted gs groupno pa h =
    (ground (arith, none_zero gs 0 h), ground (arith, none_zero gs 0 h))
