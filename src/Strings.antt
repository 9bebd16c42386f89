-- ===== src/Strings.antt =====
-- The string functions of kernel/string.c, on the bytes of memory.
pub mod Copies
mod Tests
use advanced_operating_syste.Prelude.{
  ℕ, zero, suc, ◌+◌, ◌-◌, ◌*◌, ◌/◌, ◌%◌, ◌^◌, ◌≤◌, ◌<◌, ◌≡◌, ◌≢◌, refl, sym, ap, subst, ◌∙◌,
  fun_ext, ◌↔◌, ◌⊎◌, inl, inr, Bool, true, false, not, ◌&&◌, ◌||◌, ◌==◌, ltb, leb, if◌then◌else◌,
  bit_and, bit_or, Option, none, some, List, [], ◌∷◌, ◌++◌, map, length, get_elem?, get_or, set,
  take, drop, replicate, Outcome, ok, panic, fault, deref, ◌>>=◌, >>=-eq-ok, arith, ℕ_discrete,
  if_cases, ok-injective, Bool-cases, Option-cases, get_or-set_self, get_or-set_ne, length-set,
  get_or-set_lem, set-set, set-get_or,
}
use advanced_operating_syste.Prelude.Int.{ℤ, pos, ◌-ℤ◌}
use advanced_operating_syste.Memory.{Bytes, poke, memmove}

unfoldable pub memcmp : Bytes → ℕ → ℕ → ℕ → ℤ
memcmp m s1 s2 zero = pos 0
memcmp m s1 s2 (suc n) =
    let rest = memcmp m (s1 + 1) (s2 + 1) n in
    if not (m s1 == m s2) then pos (m s1) -ℤ pos (m s2) else rest

pub memcpy : Bytes → ℕ → ℕ → ℕ → Bytes
memcpy = memmove

unfoldable pub strncmp : Bytes → ℕ → ℕ → ℕ → ℤ
strncmp m p q zero = pos 0
strncmp m p q (suc n) =
    let rest = strncmp m (p + 1) (q + 1) n in
    if not (m p == 0) && m p == m q then rest else pos (m p) -ℤ pos (m q)

-- The second loop of `strncpy`.
unfoldable pub fill : Bytes → ℕ → ℕ → Bytes
fill m s zero = m
fill m s (suc n) = fill (poke m s 0) (s + 1) n

unfoldable pub strncpy : Bytes → ℕ → ℕ → ℕ → Bytes
unfolding fill
strncpy m s t zero = m
strncpy m s t (suc n) =
    let m1 = poke m s (m t) in
    elim (m t == 0) [ true ↦ fill m1 (s + 1) n | false ↦ strncpy m1 (s + 1) (t + 1) n ]

-- The loop of `safestrcpy`, which copies `n` bytes at most, and the write behind it.
unfoldable pub safe_copy : Bytes → ℕ → ℕ → ℕ → Bytes
safe_copy m s t zero = poke m s 0
safe_copy m s t (suc n) =
    let m1 = poke m s (m t) in
    elim (m t == 0) [ true ↦ poke m1 (s + 1) 0 | false ↦ safe_copy m1 (s + 1) (t + 1) n ]

unfoldable pub safestrcpy : Bytes → ℕ → ℕ → ℕ → Bytes
unfolding safe_copy
safestrcpy m s t zero = m
safestrcpy m s t (suc n) = safe_copy m s t n

-- `none` where no byte of the first `fuel` is 0.
unfoldable pub strlen : ℕ → Bytes → ℕ → Option ℕ
strlen zero m s = none
strlen (suc fuel) m s =
    let rest = strlen fuel m (s + 1) in
    if m s == 0 then some 0 else elim rest [ none ↦ none | some n ↦ some (n + 1) ]
