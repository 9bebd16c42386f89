-- ===== src/Cow/Tests.antt =====
-- The groups at small tables.
use advanced_operating_syste.Prelude.{
  ℕ, zero, suc, ◌≡◌, refl, inl, inr, Bool, true, ◌||◌, some, List, [], ◌∷◌, ok, arith,
}
use advanced_operating_syste.Prelude.Int.{pos}
use advanced_operating_syste.Cow.{
  CowGroup, entry, get_cow_group, add_shmem, is_shmem, has_page, add_page,
}
use advanced_operating_syste.Cow.Shared.{Packed, AllUsed}
use advanced_operating_syste.Cow.Groups.{is_shmem-add_shmem}

-- The groups of the processes 3 and 5, with arrays of three words.
abbrev two_groups : List CowGroup
two_groups =
    record { group = pos 3; shmem = 0x8000 ∷ 0x9000 ∷ 0 ∷ []; count = pos 2 }
    ∷ record { group = pos 5; shmem = 0xa000 ∷ 0 ∷ 0 ∷ []; count = pos 1 }
    ∷ []

two_groups-Packed : (k : ℕ) → Packed (entry two_groups k).shmem
unfolding has_page
two_groups-Packed zero = inr (
  (λ e. absurd (omega (arith, e))),
  refl,
  inr ((λ e. absurd (omega (arith, e))), refl, inl (refl, tt)),
)
two_groups-Packed (suc zero) = inr ((λ e. absurd (omega (arith, e))), refl, inl (refl, (refl, tt)))
two_groups-Packed (suc (suc k)) = tt

abbrev third_page : List CowGroup
third_page =
    record { group = pos 3; shmem = 0x8000 ∷ 0x9000 ∷ 0xb000 ∷ []; count = pos 2 }
    ∷ record { group = pos 5; shmem = 0xa000 ∷ 0 ∷ 0 ∷ []; count = pos 1 }
    ∷ []

added : add_shmem two_groups (pos 3) 0xb000 ≡ ok third_page
unfolding add_shmem get_cow_group add_page
added = refl

is_shmem-add_shmem_example :
    (b : Bool) × (is_shmem two_groups (pos 3) 0xb000 ≡ ok b)
    × (is_shmem third_page (pos 3) 0xb000 ≡ ok (b || true))
is_shmem-add_shmem_example =
    is_shmem-add_shmem two_groups (pos 3) 0xb000 0xb000 {gs' = third_page} refl two_groups-Packed
      (λ e. absurd (omega (arith, e))) added

third_found : get_cow_group third_page (pos 3) ≡ some 0
unfolding get_cow_group
third_found = refl

third_full : AllUsed 0xc000 (entry third_page 0).shmem
third_full = (
  (λ e. absurd (omega (arith, e))),
  (λ e. absurd (omega (arith, e))),
  (
    (λ e. absurd (omega (arith, e))),
    (λ e. absurd (omega (arith, e))),
    ((λ e. absurd (omega (arith, e))), (λ e. absurd (omega (arith, e))), tt),
  ),
)
