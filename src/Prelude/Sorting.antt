-- ===== src/Prelude/Sorting.antt =====
-- What `sort_by` puts first.
use mathlib.Core.Path.{◌≡◌, refl, sym, ap, ◌∙◌, subst}
use mathlib.Core.Logic.{◌⊎◌, inl, inr}
use mathlib.Core.Bool.{Bool, true, false}
use mathlib.Core.List.{List, [], ◌∷◌}
use mathlib.Core.Option.{Option, none, some}
use native.Mathlib.Omega.{arith}
use furima_sandbox.Prelude.Tests.{if◌then◌else◌, Bool-cases, Option-cases}
use furima_sandbox.Prelude.Lists.{insert_by, sort_by, All, keep}

module _ {ℓ} {A : Type ℓ} where
  -- xs[0]
  abbrev pub head : List A → Option A
  head [] = none
  head (x ∷ _) = some x

  pub All-map : (P Q : A → Type 0) → ((x : A) → P x → Q x) → (xs : List A) → All P xs → All Q xs
  All-map P Q step [] h = h
  All-map P Q step (x ∷ xs) (px, rest) = (step x px, All-map P Q step xs rest)

  module _ (before : A → A → Bool) (P : A → Type 0) where
    All-insert_by : (x : A) (ys : List A) → P x → All P ys → All P (insert_by before x ys)
    unfolding insert_by
    All-insert_by x [] px _ = (px, tt)
    All-insert_by x (y ∷ ys) px (py, pys) = elim (Bool-cases (before y x)) [
      | inl t ↦ rw (t, insert_by) (py, All-insert_by x ys px pys)
      | inr t ↦ rw (t, insert_by) (px, (py, pys))
    ]

    All-inserted : (x : A) (ys : List A) → All P (insert_by before x ys) → P x × All P ys
    unfolding insert_by
    All-inserted x [] (px, _) = (px, tt)
    All-inserted x (y ∷ ys) h = elim (Bool-cases (before y x)) [
      | inl t ↦
          let (py, rest) : P y × All P (insert_by before x ys) = (rw t at h) in
          let (px, pys) = All-inserted x ys rest in (px, (py, pys))
      | inr t ↦ let all : P x × (P y × All P ys) = (rw t at h) in all
    ]

    pub All-sorted : (xs : List A) → All P (sort_by before xs) → All P xs
    unfolding sort_by
    All-sorted [] h = h
    All-sorted (x ∷ xs) h =
        let (px, rest) = All-inserted x (sort_by before xs) h in (px, All-sorted xs rest)

    pub All-sort_by : (xs : List A) → All P xs → All P (sort_by before xs)
    unfolding sort_by
    All-sort_by [] h = h
    All-sort_by (x ∷ xs) (px, rest) = All-insert_by x (sort_by before xs) px (All-sort_by xs rest)

  -- An order of rank: of two entries at most one comes before the other, and an entry that none of
  -- two comes before is not after a third that the first of them is not after.
  pub record IsRank (before : A → A → Bool) : Type ℓ where
    pub asym : (x y : A) → before x y ≡ true → before y x ≡ false
    pub weak : (x y z : A) → before y x ≡ false → before z y ≡ false → before z x ≡ false

  module _ (before : A → A → Bool) (rank : IsRank before) where
    not_before_self : (x : A) → before x x ≡ false
    not_before_self x = elim (Bool-cases (before x x)) [ inl t ↦ rank.asym x x t | inr t ↦ t ]

    -- No entry comes before the first.
    abbrev Leads : List A → Type 0
    Leads [] = Unit
    Leads (x ∷ xs) = All (λ y. before y x ≡ false) xs

    insert_by-Leads : (x : A) (ys : List A) → Leads ys → Leads (insert_by before x ys)
    unfolding insert_by
    insert_by-Leads x [] h = tt
    insert_by-Leads x (y ∷ ys) h = elim (Bool-cases (before y x)) [
      | inl t ↦
          rw (t, insert_by)
            (All-insert_by before (λ z. before z y ≡ false) x ys (rank.asym y x t) h)
      | inr t ↦
          rw (t, insert_by)
            (
              t,
              All-map (λ z. before z y ≡ false) (λ z. before z x ≡ false)
                  (λ z e. rank.weak x y z t e) ys h,
            )
    ]

    sort_by-Leads : (xs : List A) → Leads (sort_by before xs)
    unfolding sort_by
    sort_by-Leads [] = tt
    sort_by-Leads (x ∷ xs) = insert_by-Leads x (sort_by before xs) (sort_by-Leads xs)

    head-Leads :
        (x : A) (xs : List A) → head xs ≡ some x → Leads xs → All (λ y. before y x ≡ false) xs
    head-Leads x [] e h = tt
    head-Leads x (y ∷ ys) e h =
        let same : y ≡ x = ground arith in
        subst (λ w. All (λ z. before z w ≡ false) (y ∷ ys)) same (not_before_self y, h)

    -- The first entry of a sorted list is not after any entry.
    pub head-sort_by :
        (x : A) (xs : List A) → head (sort_by before xs) ≡ some x → All (λ y. before y x ≡ false) xs
    head-sort_by x xs e =
        All-sorted before (λ y. before y x ≡ false) xs
          (head-Leads x (sort_by before xs) e (sort_by-Leads xs))

  -- A predicate of all entries is one of the first.
  pub head-All : (P : A → Type 0) (x : A) (xs : List A) → head xs ≡ some x → All P xs → P x
  head-All P x [] e h = ground arith
  head-All P x (y ∷ ys) e (py, _) = let same : y ≡ x = ground arith in subst P same py

  -- The entries that pass a test, where each of them comes before each that does not.
  module _ (before : A → A → Bool) (rank : IsRank before) (test : A → Bool)
      (above : (x y : A) → test x ≡ true → test y ≡ false → before x y ≡ true) where
    -- The first entry once `x` is inserted, of the first entry.
    abbrev pick : A → Option A → Option A
    pick x none = some x
    pick x (some y) = if before y x then some y else some x

    head-insert_by : (x : A) (ys : List A) → head (insert_by before x ys) ≡ pick x (head ys)
    unfolding insert_by
    head-insert_by x [] = refl
    head-insert_by x (y ∷ ys) = elim (Bool-cases (before y x)) [
      | inl t ↦ rw (t, insert_by) refl
      | inr t ↦ rw (t, insert_by) refl
    ]

    All-keep : (xs : List A) → All (λ x. test x ≡ true) (keep test xs)
    All-keep [] = tt
    All-keep (x ∷ xs) = elim (Bool-cases (test x)) [
      | inl t ↦ rw t (t, All-keep xs)
      | inr t ↦ rw t (All-keep xs)
    ]

    keep-none : (xs : List A) → keep test xs ≡ [] → All (λ x. test x ≡ false) xs
    keep-none [] e = tt
    keep-none (x ∷ xs) e = elim (Bool-cases (test x)) [
      | inl t ↦ ground arith
      | inr t ↦ (t, keep-none xs (rw t at e))
    ]

    sorted-none : (xs : List A) → head (sort_by before xs) ≡ none → xs ≡ []
    unfolding sort_by
    sorted-none [] e = refl
    sorted-none (x ∷ xs) e = elim (Option-cases (head (sort_by before xs))) [
      | inl h ↦
          let step : pick x none ≡ none =
            subst (λ o. pick x o ≡ none) h (sym (head-insert_by x (sort_by before xs)) ∙ e) in
          ground arith
      | inr (y, h) ↦
          let step : pick x (some y) ≡ none =
            subst (λ o. pick x o ≡ none) h (sym (head-insert_by x (sort_by before xs)) ∙ e) in
          ground arith
    ]

    pick-passing : (x y : A) → test x ≡ false → test y ≡ true → pick x (some y) ≡ some y
    pick-passing x y t u = rw (above y x u t) refl

    pick-failing :
        (x : A) (xs : List A)
        → test x ≡ true
        → All (λ y. test y ≡ false) xs
        → pick x (head xs) ≡ some x
    pick-failing x [] t h = refl
    pick-failing x (y ∷ ys) t (u, _) = rw (rank.asym x y (above x y t u)) refl

    sorted-passing :
        (xs : List A) (y : A) → head (sort_by before (keep test xs)) ≡ some y → test y ≡ true
    sorted-passing xs y e =
        head-All (λ z. test z ≡ true) y (sort_by before (keep test xs)) e
          (All-sort_by before (λ z. test z ≡ true) (keep test xs) (All-keep xs))

    -- The first of those that pass is the first of all, if there is one.
    pub head-keep :
        (xs : List A)
        → (keep test xs ≡ []) ⊎ (head (sort_by before (keep test xs)) ≡ head (sort_by before xs))
    unfolding sort_by insert_by
    head-keep [] = inl refl
    head-keep (x ∷ xs) = elim (Bool-cases (test x)) [
      | inl t ↦ rw t (
          inr (elim (head-keep xs) [
            | inl e ↦
                rw (e, sort_by)
                  (sym (
                    head-insert_by x (sort_by before xs)
                    ∙ pick-failing x (sort_by before xs) t
                        (All-sort_by before (λ z. test z ≡ false) xs (keep-none xs e))))
            | inr e ↦
                head-insert_by x (sort_by before (keep test xs))
                ∙ ap (pick x) e
                ∙ sym (head-insert_by x (sort_by before xs))
          ]))
      | inr t ↦ rw t (elim (Option-cases (head (sort_by before (keep test xs)))) [
        | inl h ↦ inl (sorted-none (keep test xs) h)
        | inr (y, h) ↦ elim (head-keep xs) [
          | inl e ↦ inl e
          | inr e ↦ inr (
              h
              ∙ sym (
                  head-insert_by x (sort_by before xs)
                  ∙ ap (pick x) (sym e ∙ h)
                  ∙ pick-passing x y t (sorted-passing xs y h)))
        ]
      ])
    ]
