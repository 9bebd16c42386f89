-- ===== src/Path/Tests.antt =====
-- The examples of the comment on `skipelem`.
use advanced_operating_syste.Prelude.{◌≡◌, refl, none, some, [], ◌∷◌}
use advanced_operating_syste.Path.{skip_slashes, elem, behind, skipelem}
use advanced_operating_syste.Path.Elements.{Next, skipelem_lem}

-- "a/bb/c" and "///a//bb"
skipelem_first :
    skipelem (97 ∷ 47 ∷ 98 ∷ 98 ∷ 47 ∷ 99 ∷ []) ≡ some (97 ∷ [], 98 ∷ 98 ∷ 47 ∷ 99 ∷ [])
unfolding skipelem skip_slashes elem behind
skipelem_first = refl

skipelem_slashes :
    skipelem (47 ∷ 47 ∷ 47 ∷ 97 ∷ 47 ∷ 47 ∷ 98 ∷ 98 ∷ []) ≡ some (97 ∷ [], 98 ∷ 98 ∷ [])
unfolding skipelem skip_slashes elem behind
skipelem_slashes = refl

skipelem-none : skipelem (47 ∷ 47 ∷ 47 ∷ 47 ∷ []) ≡ none
unfolding skipelem skip_slashes elem behind
skipelem-none = refl

-- "//a/bb/"
skipelem_lem_example : Next (47 ∷ 47 ∷ 97 ∷ 47 ∷ 98 ∷ 98 ∷ 47 ∷ [])
skipelem_lem_example = skipelem_lem (47 ∷ 47 ∷ 97 ∷ 47 ∷ 98 ∷ 98 ∷ 47 ∷ [])
