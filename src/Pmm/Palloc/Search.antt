-- ===== src/Pmm/Palloc/Search.antt =====
-- The search of `palloc` goes once round the user pages.
use mcertikos.Base.{
  ℕ, zero, suc, ◌+◌, ◌-◌, ◌≤◌, ◌<◌, ◌≡◌, ◌≢◌, ◌⊎◌, refl, inl, inr, Bool, true, false, arith, ◌==◌,
  leb, if◌then◌else◌, Bool-cases, ok, not, ◌&&◌,
}
use native.Mathlib.Decide.{ℕ_discrete}
use mcertikos.Pmm.AllocTable.{Pmm}
use mcertikos.Pmm.Palloc.{vm_userlo_pi, vm_userhi_pi, is_free, next_index, search}

-- A page that `palloc` may hand out.
abbrev pub IsUser : ℕ → Type 0
IsUser i = (vm_userlo_pi ≤ i) × (i < vm_userhi_pi)

-- How many steps of `next_index` lead from `i` to `last`.
abbrev pub ahead : ℕ → ℕ → ℕ
ahead last i = if leb i last then last - i else vm_userhi_pi - i + (last - vm_userlo_pi)

pub next_index-IsUser : (i : ℕ) → IsUser i → IsUser (next_index i)
unfolding next_index
next_index-IsUser i h = ground arith

ahead-next_index :
    (last i : ℕ) → IsUser last → IsUser i → i ≢ last → ahead last (next_index i) + 1 ≡ ahead last i
unfolding next_index
ahead-next_index last i hl hi ne = ground arith

pub ahead-next_last :
    (last : ℕ) → IsUser last → ahead last (next_index last) + 1 ≡ vm_userhi_pi - vm_userlo_pi
unfolding next_index
ahead-next_last last hl = ground arith

-- Pages at the same distance are the same page.
ahead-injective :
    (last i j : ℕ) → IsUser last → IsUser i → IsUser j → ahead last i ≡ ahead last j → i ≡ j
ahead-injective last i j hl hi hj e = ground arith

-- What the search can come back with: a free page, or `num_pages` when none of the pages from `i`
-- up to `last` is free. The page numbered `num_pages` is passed over.
pub data Found (s : Pmm) (i result : ℕ) : Type 0 where
  page : IsUser result → is_free s result ≡ true → result ≢ s.num_pages → Found s i result
  full :
      result ≡ s.num_pages
      → ((j : ℕ)
          → IsUser j
          → j ≢ s.last_palloc_index
          → ahead s.last_palloc_index j ≤ ahead s.last_palloc_index i
          → is_free s j ≡ true
          → j ≡ s.num_pages)
      → Found s i result

module _ (s : Pmm) (user : IsUser s.last_palloc_index) where
  -- The step at a page that is free, and the one at a page that is not.
  search_done : (fuel i free : ℕ) → free ≢ s.num_pages → search s (suc fuel) i free false ≡ ok free
  unfolding search
  search_done fuel i free ne = ground arith

  search_stop : (fuel : ℕ) (free : ℕ) → search s (suc fuel) s.last_palloc_index free false ≡ ok free
  unfolding search
  search_stop fuel free = ground arith

  search_next :
      (fuel i : ℕ) (first : Bool)
      → (i ≢ s.last_palloc_index) ⊎ (first ≡ true)
      → search s (suc fuel) i s.num_pages first
        ≡ search s fuel (next_index i) (if is_free s i then i else s.num_pages) false
  unfolding search
  search_next fuel i first h = ground arith

  -- One more page that is not free.
  Found-next :
      (i result : ℕ)
      → IsUser i
      → (is_free s i ≡ false) ⊎ (i ≡ s.num_pages)
      → ((j : ℕ)
          → IsUser j
          → ahead s.last_palloc_index j ≤ ahead s.last_palloc_index i
          → i ≢ j
          → j ≢ s.last_palloc_index
          → ahead s.last_palloc_index j ≤ ahead s.last_palloc_index (next_index i))
      → Found s (next_index i) result
      → Found s i result
  Found-next i result hi busy closer (page u f ne) = page u f ne
  Found-next i result hi busy closer (full e none_free) = full e λ j uj ne le fj.
      elim (ℕ_discrete i j) [
        | yes p ↦ ground arith
        | no p ↦ none_free j uj ne (closer j uj le p ne) fj
      ]

  -- Going on from `i` passes over no page but `i`.
  ahead_closer :
      (i j : ℕ)
      → IsUser i
      → IsUser j
      → i ≢ s.last_palloc_index
      → ahead s.last_palloc_index j ≤ ahead s.last_palloc_index i
      → i ≢ j
      → ahead s.last_palloc_index j ≤ ahead s.last_palloc_index (next_index i)
  ahead_closer i j hi hj nl le ne =
      let far : ahead s.last_palloc_index i ≢ ahead s.last_palloc_index j =
        λ e. ne (ahead-injective s.last_palloc_index i j user hi hj e) in
      omega (arith, ahead-next_index s.last_palloc_index i user hi nl)

  search_got :
      (fuel i : ℕ) (first : Bool)
      → (i ≢ s.last_palloc_index) ⊎ (first ≡ true)
      → 0 < fuel
      → (is_free s i && not (i == s.num_pages)) ≡ true
      → search s (suc fuel) i s.num_pages first ≡ ok i
  search_got zero i first go pos got = absurd (omega arith)
  search_got (suc fuel) i first go pos got =
      ground (arith, search_next (suc fuel) i first go, search_done fuel (next_index i) i)

  search_busy :
      (fuel i : ℕ) (first : Bool) (r : ℕ)
      → (i ≢ s.last_palloc_index) ⊎ (first ≡ true)
      → (is_free s i && not (i == s.num_pages)) ≡ false
      → search s fuel (next_index i) s.num_pages false ≡ ok r
      → search s (suc fuel) i s.num_pages first ≡ ok r
  search_busy fuel i first r go busy e = ground (arith, search_next fuel i first go)

  search_round :
      (fuel i : ℕ)
      → IsUser i
      → ahead s.last_palloc_index i < fuel
      → (result : ℕ) × (search s fuel i s.num_pages false ≡ ok result) × Found s i result
  search_round zero i hi h = absurd (omega arith)
  search_round (suc fuel) i hi h = elim (ℕ_discrete i s.last_palloc_index) [
    | yes e ↦ (
      s.num_pages,
      rw e (search_stop fuel s.num_pages),
      full refl λ j uj ne le fj.
          absurd (ne (ahead-injective s.last_palloc_index _ _ user uj user (ground arith))),
    )
    | no ne ↦ elim (Bool-cases (is_free s i && not (i == s.num_pages))) [
      | inl got ↦ (
        i,
        search_got fuel i false (inl ne) (ground arith) got,
        page hi (ground arith) (ground arith),
      )
      | inr busy ↦
          let (r, e, f) =
            search_round fuel (next_index i) (next_index-IsUser i hi)
              (omega (arith, ahead-next_index s.last_palloc_index i user hi ne)) in
          (
            r,
            search_busy fuel i false r (inl ne) busy e,
            Found-next i r hi (ground arith) (λ j uj le nj _. ahead_closer i j hi uj ne le nj) f,
          )
    ]
  ]

-- What a whole search comes back with.
pub data Searched (s : Pmm) (result : ℕ) : Type 0 where
  page : IsUser result → is_free s result ≡ true → result ≢ s.num_pages → Searched s result
  full :
      result ≡ s.num_pages
      → ((j : ℕ) → IsUser j → is_free s j ≡ true → j ≡ s.num_pages)
      → Searched s result

module _ (s : Pmm) (user : IsUser s.last_palloc_index) where
  Found-Searched :
      (result : ℕ)
      → (is_free s s.last_palloc_index && not (s.last_palloc_index == s.num_pages)) ≡ false
      → Found s (next_index s.last_palloc_index) result
      → Searched s result
  Found-Searched result busy (Found.page u f ne) = Searched.page u f ne
  Found-Searched result busy (Found.full e none_free) = Searched.full e λ j uj fj.
      elim (ℕ_discrete j s.last_palloc_index) [
        | yes p ↦ ground arith
        | no p ↦ none_free j uj p (ground (arith, ahead-next_last s.last_palloc_index user)) fj
      ]

  -- The search always comes back: its fuel covers a round.
  pub search_total :
      (fuel : ℕ)
      → vm_userhi_pi < fuel
      → (result : ℕ) × (search s fuel s.last_palloc_index s.num_pages true ≡ ok result)
        × Searched s result
  search_total zero h = absurd (omega arith)
  search_total (suc fuel) h =
      let last = s.last_palloc_index in
      elim (Bool-cases (is_free s last && not (last == s.num_pages))) [
        | inl got ↦ (
          last,
          search_got s user fuel last true (inr refl) (omega arith) got,
          Searched.page user (ground arith) (ground arith),
        )
        | inr busy ↦
            let (r, e, f) =
              search_round s user fuel (next_index last) (next_index-IsUser last user)
                (omega (arith, ahead-next_last last user)) in
            (r, search_busy s user fuel last true r (inr refl) busy e, Found-Searched r busy f)
      ]
