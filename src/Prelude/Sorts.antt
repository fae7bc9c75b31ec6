-- ===== src/Prelude/Sorts.antt =====
-- The package sort, as an insertion sort, with what it keeps.
use mathlib.Core.Path.{◌≡◌}
use mathlib.Core.Logic.{◌↔◌, ◌⊎◌, inl, inr}
use mathlib.Core.Bool.{Bool, true, false}
use mathlib.Core.List.{List, [], ◌∷◌}
use hukou.Prelude.Tests.{if◌then◌else◌, Bool-cases}
use hukou.Prelude.Lists.{Any}

-- sort.Slice; it promises nothing about the order of items of which none is less.
module _ {A : Type 0} (less : A → A → Bool) where
  unfoldable pub insert : A → List A → List A
  insert x [] = x ∷ []
  insert x (y ∷ l) = let rest = insert x l in if less y x then y ∷ rest else x ∷ y ∷ l

  unfoldable pub sort_slice : List A → List A
  unfolding insert
  sort_slice [] = []
  sort_slice (x ∷ l) = insert x (sort_slice l)

module _ {A : Type 0} where
  abbrev pub Member : A → List A → Type 0
  Member x = Any (λ y. x ≡ y)

module _ {A : Type 0} (less : A → A → Bool) where
  -- No element is less than the one before it.
  abbrev Follows : A → List A → Type 0
  Follows x [] = Unit
  Follows x (y ∷ l) = less y x ≡ false

  abbrev pub Sorted : List A → Type 0
  Sorted [] = Unit
  Sorted (x ∷ l) = Follows x l × Sorted l

  insert-Member : (x z : A) (l : List A) → Member z (insert less x l) ↔ ((z ≡ x) ⊎ Member z l)
  unfolding insert
  insert-Member x z [] = (λ m. m, λ m. m)
  insert-Member x z (y ∷ l) = elim (Bool-cases (less y x)) [
    | inl e ↦ rw e (
      λ m. elim m [
        | inl h ↦ inr (inl h)
        | inr m' ↦ elim ((insert-Member x z l).0 m') [ inl h ↦ inl h | inr k ↦ inr (inr k) ]
      ],
      λ m. elim m [
        | inl h ↦ inr ((insert-Member x z l).1 (inl h))
        | inr k ↦ elim k [ inl h ↦ inl h | inr k' ↦ inr ((insert-Member x z l).1 (inr k')) ]
      ],
    )
    | inr e ↦ rw e (λ m. m, λ m. m)
  ]

  pub sort_slice-Member : (z : A) (l : List A) → Member z (sort_slice less l) ↔ Member z l
  unfolding sort_slice
  sort_slice-Member z [] = (λ m. m, λ m. m)
  sort_slice-Member z (x ∷ l) = (
    λ m. elim ((insert-Member x z (sort_slice less l)).0 m) [
      | inl h ↦ inl h
      | inr k ↦ inr ((sort_slice-Member z l).0 k)
    ],
    λ m.
        (insert-Member x z (sort_slice less l)).1
          (elim m [ inl h ↦ inl h | inr k ↦ inr ((sort_slice-Member z l).1 k) ]),
  )

  module _ (asymm : (a b : A) → less a b ≡ true → less b a ≡ false) where
    insert-Follows :
        (x y : A) (l : List A) → less x y ≡ false → Follows y l → Follows y (insert less x l)
    unfolding insert
    insert-Follows x y [] e f = e
    insert-Follows x y (z ∷ l) e f = elim (Bool-cases (less z x)) [
      | inl h ↦ rw h f
      | inr h ↦ rw h e
    ]

    insert-Sorted : (x : A) (l : List A) → Sorted l → Sorted (insert less x l)
    unfolding insert
    insert-Sorted x [] s = (tt, tt)
    insert-Sorted x (y ∷ l) (f, s) = elim (Bool-cases (less y x)) [
      | inl e ↦ rw e (insert-Follows x y l (asymm y x e) f, insert-Sorted x l s)
      | inr e ↦ rw e (e, (f, s))
    ]

    pub sort_slice-Sorted : (l : List A) → Sorted (sort_slice less l)
    unfolding sort_slice
    sort_slice-Sorted [] = tt
    sort_slice-Sorted (x ∷ l) = insert-Sorted x (sort_slice less l) (sort_slice-Sorted l)
