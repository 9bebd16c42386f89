-- ===== src/Path/Elements.antt =====
-- The elements of a path, and that `skipelem` takes one after the other.
use advanced_operating_syste.Prelude.{
  ℕ, suc, ◌≤◌, ◌<◌, ◌≡◌, refl, sym, ap, subst, ◌∙◌, ◌⊎◌, inl, inr, Bool, true, false, ◌==◌,
  if◌then◌else◌, none, some, List, [], ◌∷◌, ◌++◌, map, length, take, arith, Bool-cases,
}
use advanced_operating_syste.Path.{dirsiz, slash, skip_slashes, elem, behind, skipelem}

-- The nonempty words between slashes, of which `cur` has been read.
abbrev emit : List ℕ → List (List ℕ) → List (List ℕ)
emit [] ws = ws
emit (c ∷ cs) ws = (c ∷ cs) ∷ ws

unfoldable pub words : List ℕ → List ℕ → List (List ℕ)
words cur [] = emit cur []
words cur (c ∷ cs) = if c == slash then emit cur (words [] cs) else words (cur ++ c ∷ []) cs

-- The names on a path, as directory entries hold them.
abbrev pub names : List ℕ → List (List ℕ)
unfolding words
names path = map (take dirsiz) (words [] path)

append_nil : (xs : List ℕ) → xs ++ [] ≡ xs
append_nil [] = refl
append_nil (x ∷ xs) = ap (λ t. x ∷ t) (append_nil xs)

append_one : (xs : List ℕ) (y : ℕ) (zs : List ℕ) → (xs ++ y ∷ []) ++ zs ≡ xs ++ y ∷ zs
append_one [] y zs = refl
append_one (x ∷ xs) y zs = ap (λ t. x ∷ t) (append_one xs y zs)

words-skip : (p : List ℕ) → words [] p ≡ words [] (skip_slashes p)
unfolding words skip_slashes
words-skip [] = refl
words-skip (c ∷ cs) = elim (Bool-cases (c == slash)) [
  | inl e ↦ rw (e, words, skip_slashes) (words-skip cs)
  | inr e ↦
      let stays : skip_slashes (c ∷ cs) ≡ c ∷ cs = rw (e, skip_slashes) refl in
      ap (words []) (sym stays)
]

words-elem : (p cur : List ℕ) → words cur p ≡ emit (cur ++ elem p) (words [] (behind p))
unfolding words elem behind
words-elem [] cur = ap (λ t. emit t []) (sym (append_nil cur))
words-elem (c ∷ cs) cur = elim (Bool-cases (c == slash)) [
  | inl e ↦
      rw (e, words, elem, behind)
        (ap (λ t. emit t (words [] cs)) (sym (append_nil cur)) ∙ slash_first e)
  | inr e ↦
      rw (e, words, elem, behind)
        (words-elem cs (cur ++ c ∷ [])
          ∙ ap (λ t. emit t (words [] (behind cs))) (append_one cur c (elem cs)))
]
  where
    slash_first :
        c == slash ≡ true → emit (cur ++ []) (words [] cs) ≡ emit (cur ++ []) (words [] (c ∷ cs))
    slash_first e = rw (e, words) refl

-- What is left after slashes does not begin with one.
skip_head : (p : List ℕ) (c : ℕ) (cs : List ℕ) → skip_slashes p ≡ c ∷ cs → c == slash ≡ false
unfolding skip_slashes
skip_head [] c cs e = absurd (cc e)
skip_head (d ∷ ds) c cs e = elim (Bool-cases (d == slash)) [
  | inl at ↦ skip_head ds c cs (rw (at, skip_slashes) at e)
  | inr at ↦
      let same : d ∷ ds ≡ c ∷ cs = rw (at, skip_slashes) at e in
      let head : d ≡ c = cc same in subst (λ k. k == slash ≡ false) head at
]

length-skip : (p : List ℕ) → length (skip_slashes p) ≤ length p
unfolding skip_slashes
length-skip [] = omega arith
length-skip (c ∷ cs) = ground (arith, length-skip cs)

length-behind : (p : List ℕ) → length (behind p) ≤ length p
unfolding behind
length-behind [] = omega arith
length-behind (c ∷ cs) = ground (arith, length-behind cs)

-- The first word of a path that does not begin with a slash.
words-first :
    (c : ℕ) (cs : List ℕ)
    → c == slash ≡ false
    → words [] (c ∷ cs) ≡ elem (c ∷ cs) ∷ words [] (behind (c ∷ cs))
unfolding elem
words-first c cs e =
    let starts : elem (c ∷ cs) ≡ c ∷ elem cs = rw (e, elem) refl in
    words-elem (c ∷ cs) [] ∙ (rw starts refl)

abbrev pub is_end : List ℕ → Bool
is_end [] = true
is_end (c ∷ cs) = false

abbrev pub is_nil : List (List ℕ) → Bool
is_nil [] = true
is_nil (n ∷ ns) = false

is_end-skip : (p : List ℕ) → is_end (skip_slashes p) ≡ is_nil (names (skip_slashes p))
unfolding words
is_end-skip p = by_rest (skip_slashes p) refl
  where
    by_rest : (q : List ℕ) → skip_slashes p ≡ q → is_end q ≡ is_nil (map (take dirsiz) (words [] q))
    by_rest [] e = refl
    by_rest (c ∷ cs) e = rw (words-first c cs (skip_head p c cs e)) refl

-- The rest of a path is shorter.
length-rest :
    (path : List ℕ) (c : ℕ) (cs : List ℕ)
    → c == slash ≡ false
    → skip_slashes path ≡ c ∷ cs
    → length (skip_slashes (behind (c ∷ cs))) < length path
unfolding behind
length-rest path c cs head e =
    let tail : behind (c ∷ cs) ≡ behind cs = rw (head, behind) refl in
    let le = length-skip (behind cs) in
    let le' = length-behind cs in
    let at : suc (length cs) ≤ length path =
      subst (λ q. length q ≤ length path) e (length-skip path) in
    subst (λ t. length (skip_slashes t) < length path) (sym tail) (omega (arith, le, le', at))

-- What `skipelem` makes of a path.
abbrev pub Next : List ℕ → Type 0
Next path =
    ((skipelem path ≡ none) × (names path ≡ []))
    ⊎ ((name : List ℕ) × (rest : List ℕ) × ((skipelem path ≡ some (name, rest))
          × (names path ≡ name ∷ names rest)
          × (is_end rest ≡ is_nil (names rest))
          × (length rest < length path)))

-- `skipelem` finds nothing on a path without names; from any other it takes the first name, cut to
-- DIRSIZ bytes, and leaves a shorter path, with the other names, which is at its end if and only if
-- there are none.
pub skipelem_lem : (path : List ℕ) → Next path
unfolding skipelem words
skipelem_lem path = by_rest (skip_slashes path) refl
  where
    by_rest : (q : List ℕ) → skip_slashes path ≡ q → Next path
    by_rest [] e =
        inl (rw (e, skipelem) refl, ap (map (take dirsiz)) (words-skip path ∙ ap (words []) e))
    by_rest (c ∷ cs) e =
        let head = skip_head path c cs e in
        let rest = skip_slashes (behind (c ∷ cs)) in
        inr (
          take dirsiz (elem (c ∷ cs)),
          rest,
          (
            rw (e, skipelem) refl,
            ap (map (take dirsiz)) (
                words-skip path
                ∙ (ap (words []) e
                    ∙ (words-first c cs head
                        ∙ ap (λ ws. elem (c ∷ cs) ∷ ws) (words-skip (behind (c ∷ cs)))))),
            is_end-skip (behind (c ∷ cs)),
            length-rest path c cs head e,
          ),
        )
