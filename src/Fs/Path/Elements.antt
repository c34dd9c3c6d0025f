-- ===== src/Fs/Path/Elements.antt =====
-- The names that a loop over `skipelem` sees.
use mcertikos.Base.{
  ℕ, zero, suc, ◌≤◌, ◌<◌, ◌≡◌, ◌≢◌, refl, ap, sym, ◌∙◌, arith, true, false, leb, ◌==◌,
  if◌then◌else◌, List, [], ◌∷◌, ◌++◌, length, Option, none, some,
}
use native.Mathlib.Decide.{ℕ_discrete, dec_lt}
use mcertikos.Fs.Path.{
  dirsiz, first, slash, skip_slashes, element, after_element, truncate, skipelem,
}

-- The names of a path, in their order: `while ((path = skipelem(path, name)) != 0)`.
unfoldable pub names : ℕ → List ℕ → List (List ℕ)
names zero path = []
names (suc fuel) path = elim (skipelem path) [
  | none ↦ []
  | some (rest, name) ↦ name ∷ names fuel rest
]

-- `k` slashes.
abbrev slashes : ℕ → List ℕ → List ℕ
slashes zero p = p
slashes (suc k) p = slash ∷ slashes k p

-- A path: elements, each behind some slashes, and `t` slashes at the end.
unfoldable pub spell : List (ℕ × List ℕ) → ℕ → List ℕ
spell [] t = slashes t []
spell ((k, e) ∷ es) t = slashes k (e ++ spell es t)

abbrev HasNoSlash : List ℕ → Type 0
HasNoSlash [] = Unit
HasNoSlash (c ∷ p) = (c ≢ slash) × HasNoSlash p

-- An element is not empty and has no slash.
abbrev pub IsElement : List ℕ → Type 0
IsElement [] = ⊥
IsElement (c ∷ p) = (c ≢ slash) × HasNoSlash p

abbrev pub Follow : List (ℕ × List ℕ) → Type 0
Follow [] = Unit
Follow ((k, e) ∷ es) = (0 < k) × IsElement e × Follow es

-- There is a slash between two elements.
abbrev pub IsPath : List (ℕ × List ℕ) → Type 0
IsPath [] = Unit
IsPath ((k, e) ∷ es) = IsElement e × Follow es

-- The first `n` characters, or all.
unfoldable pub take : ℕ → List ℕ → List ℕ
take zero p = []
take (suc n) [] = []
take (suc n) (c ∷ p) = c ∷ take n p

-- The names of the elements: 13 characters of each.
abbrev pub elements : List (ℕ × List ℕ) → List (List ℕ)
elements [] = []
elements ((k, e) ∷ es) = take 13 e ∷ elements es

-- What follows an element.
abbrev IsBoundary : List ℕ → Type 0
IsBoundary [] = Unit
IsBoundary (c ∷ p) = c ≡ slash

take-first : (n : ℕ) (p : List ℕ) → first n p ≡ take n p
unfolding first take
take-first zero p = refl
take-first (suc n) [] = refl
take-first (suc n) (c ∷ p) = ap (λ l. c ∷ l) (take-first n p)

take_all : (n : ℕ) (p : List ℕ) → length p ≤ n → take n p ≡ p
unfolding take
take_all zero [] le = refl
take_all zero (c ∷ p) le = absurd (omega arith)
take_all (suc n) [] le = refl
take_all (suc n) (c ∷ p) le = ap (λ l. c ∷ l) (take_all n p (omega arith))

truncate-take : (p : List ℕ) → truncate p ≡ take 13 p
unfolding truncate
truncate-take p = elim (dec_lt 13 (length p)) [
  | yes long ↦
      let t : leb dirsiz (length p) ≡ true = ground arith in
      ap (λ t. if t then first 13 p else p) t ∙ take-first 13 p
  | no short ↦
      let t : leb dirsiz (length p) ≡ false = ground arith in
      ap (λ t. if t then first 13 p else p) t ∙ sym (take_all 13 p (omega arith))
]

skip_slashes-slashes : (k : ℕ) (p : List ℕ) → skip_slashes (slashes k p) ≡ skip_slashes p
unfolding skip_slashes
skip_slashes-slashes zero p = refl
skip_slashes-slashes (suc k) p = skip_slashes-slashes k p

skip_slashes-element : (e p : List ℕ) → IsElement e → skip_slashes (e ++ p) ≡ e ++ p
unfolding skip_slashes
skip_slashes-element [] p h = absurd h
skip_slashes-element (c ∷ e) p (ne, h) = ground arith

skip_slashes-twice : (p : List ℕ) → skip_slashes (skip_slashes p) ≡ skip_slashes p
unfolding skip_slashes
skip_slashes-twice [] = refl
skip_slashes-twice (c ∷ p) = elim (ℕ_discrete c slash) [
  | yes e ↦
      let t : (c == slash) ≡ true = ground arith in
      ap (λ t. skip_slashes (if t then skip_slashes p else c ∷ p)) t
      ∙ skip_slashes-twice p
      ∙ ap (λ t. if t then skip_slashes p else c ∷ p) (sym t)
  | no ne ↦
      let t : (c == slash) ≡ false = ground arith in
      ap (λ t. skip_slashes (if t then skip_slashes p else c ∷ p)) t
]

element-append : (e p : List ℕ) → HasNoSlash e → IsBoundary p → element (e ++ p) ≡ e
unfolding element
element-append [] [] h b = refl
element-append [] (c ∷ p) h b = ground (arith, b)
element-append (c ∷ e) p (ne, h) b =
    let t : (c == slash) ≡ false = ground arith in
    ap (λ t. if t then [] else c ∷ element (e ++ p)) t ∙ ap (λ l. c ∷ l) (element-append e p h b)

after_element-append : (e p : List ℕ) → HasNoSlash e → IsBoundary p → after_element (e ++ p) ≡ p
unfolding after_element
after_element-append [] [] h b = refl
after_element-append [] (c ∷ p) h b = ground (arith, b)
after_element-append (c ∷ e) p (ne, h) b =
    let t : (c == slash) ≡ false = ground arith in
    ap (λ t. if t then c ∷ (e ++ p) else after_element (e ++ p)) t ∙ after_element-append e p h b

-- What `skipelem` does once the slashes are skipped.
split : List ℕ → Option (List ℕ × List ℕ)
split [] = none
split (c ∷ p) = some (skip_slashes (after_element (c ∷ p)), truncate (element (c ∷ p)))

skipelem_lem : (p : List ℕ) → skipelem p ≡ split (skip_slashes p)
unfolding skipelem split
skipelem_lem p = elim-on (skip_slashes p)
  where
    elim-on :
        (q : List ℕ)
        → (elim q [
          | [] ↦ none
          | c ∷ p ↦ some (skip_slashes (after_element (c ∷ p)), truncate (element (c ∷ p)))
        ])
          ≡ split q
    elim-on [] = refl
    elim-on (c ∷ p) = refl

split-element :
    (e p : List ℕ) → IsElement e → IsBoundary p → split (e ++ p) ≡ some (skip_slashes p, truncate e)
unfolding split
split-element [] p h b = absurd h
split-element (c ∷ e) p (ne, h) b =
    ap (λ q. some (skip_slashes q, truncate (element (c ∷ (e ++ p)))))
      (after_element-append (c ∷ e) p (ne, h) b)
    ∙ ap (λ q. some (skip_slashes p, truncate q)) (element-append (c ∷ e) p (ne, h) b)

-- A loop that starts behind the slashes sees the same names.
names-skip_slashes : (fuel : ℕ) (p : List ℕ) → names fuel (skip_slashes p) ≡ names fuel p
unfolding names
names-skip_slashes zero p = refl
names-skip_slashes (suc fuel) p =
    let e : skipelem (skip_slashes p) ≡ skipelem p =
      skipelem_lem (skip_slashes p) ∙ ap split (skip_slashes-twice p) ∙ sym (skipelem_lem p) in
    ap (λ o. elim o [ none ↦ [] | some (rest, name) ↦ name ∷ names fuel rest ]) e

spell-IsBoundary : (es : List (ℕ × List ℕ)) (t : ℕ) → Follow es → IsBoundary (spell es t)
unfolding spell
spell-IsBoundary [] zero h = tt
spell-IsBoundary [] (suc t) h = refl
spell-IsBoundary ((zero, e) ∷ es) t (on, h, f) = absurd (omega arith)
spell-IsBoundary ((suc k, e) ∷ es) t h = refl

Follow-IsPath : (es : List (ℕ × List ℕ)) → Follow es → IsPath es
Follow-IsPath [] h = tt
Follow-IsPath ((k, e) ∷ es) (on, h, f) = (h, f)

-- On a path of elements, with any number of slashes in front of each, of which those behind the first have one at
-- least, and any number of slashes at the end, a loop over `skipelem` sees the elements in their order, each cut to 13
-- characters, and then stops.
pub names-spell :
    (es : List (ℕ × List ℕ)) (t fuel : ℕ)
    → IsPath es
    → length es < fuel
    → names fuel (spell es t) ≡ elements es
unfolding names spell split skip_slashes
names-spell es t zero h lt = absurd (omega arith)
names-spell [] t (suc fuel) h lt =
    let e : skipelem (slashes t []) ≡ none =
      skipelem_lem (slashes t []) ∙ ap split (skip_slashes-slashes t []) in
    ap (λ o. elim o [ none ↦ [] | some (rest, name) ↦ name ∷ names fuel rest ]) e
names-spell ((k, e) ∷ es) t (suc fuel) (h, f) lt =
    let rest = spell es t in
    let s : skipelem (slashes k (e ++ rest)) ≡ some (skip_slashes rest, truncate e) =
      skipelem_lem (slashes k (e ++ rest))
      ∙ ap split (skip_slashes-slashes k (e ++ rest) ∙ skip_slashes-element e rest h)
      ∙ split-element e rest h (spell-IsBoundary es t f) in
    ap (λ o. elim o [ none ↦ [] | some (rest, name) ↦ name ∷ names fuel rest ]) s
    ∙ ap (λ n. n ∷ names fuel (skip_slashes rest)) (truncate-take e)
    ∙ ap (λ l. take 13 e ∷ l)
        (names-skip_slashes fuel rest ∙ names-spell es t fuel (Follow-IsPath es f) (omega arith))
