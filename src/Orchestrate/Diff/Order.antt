-- ===== src/Orchestrate/Diff/Order.antt =====
-- The order of `sortItems` and `sortChanges`, described without the comparison that they call.
use hukou.Prelude.{
  Text, true, false, ◌≡◌, inl, inr, sym, Sorted, Bool, List, [], ◌∷◌, text_lt, text_lt_asymm, ◌⊎◌,
  subst, text_eq, Bool-cases, text_eq_iff,
}
use hukou.Orchestrate.Diff.{key_less, SnapItem, Change}

-- The order by source, then name, then path.
abbrev pub Before : Text → Text → Text → Text → Text → Text → Type 0
Before s n p s' n' p' =
    (text_lt s s' ≡ true)
    ⊎ (((s ≡ s') × (text_lt n n' ≡ true)) ⊎ ((s ≡ s') × (n ≡ n') × (text_lt p p' ≡ true)))

pub key_less-Before :
    (s n p s' n' p' : Text) → Before s n p s' n' p' → key_less s n p s' n' p' ≡ true
unfolding key_less
key_less-Before s n p s' n' p' b = elim (Bool-cases (text_eq s s')) [
  | inl same ↦ elim (Bool-cases (text_eq n n')) [
    | inl same' ↦ rw (same, same') (third same same' b)
    | inr other ↦ rw (same, other) (second same other b)
  ]
  | inr other ↦ rw other (first other b)
]
  where
    first : text_eq s s' ≡ false → Before s n p s' n' p' → text_lt s s' ≡ true
    first o (inl h) = h
    first o (inr (inl (e, h))) = let t = (text_eq_iff s s').1 e in cc
    first o (inr (inr (e, e', h))) = let t = (text_eq_iff s s').1 e in cc

    irreflexive : (a b : Text) → a ≡ b → text_lt a b ≡ true → ⊥
    irreflexive a b e h =
        let k : text_lt a a ≡ true = subst (λ x. text_lt a x ≡ true) (sym e) h in
        let no = text_lt_asymm a a k in cc

    second :
        text_eq s s' ≡ true → text_eq n n' ≡ false → Before s n p s' n' p' → text_lt n n' ≡ true
    second o o' (inl h) = absurd (irreflexive s s' ((text_eq_iff s s').0 o) h)
    second o o' (inr (inl (e, h))) = h
    second o o' (inr (inr (e, e', h))) = let t = (text_eq_iff n n').1 e' in cc

    third : text_eq s s' ≡ true → text_eq n n' ≡ true → Before s n p s' n' p' → text_lt p p' ≡ true
    third o o' (inl h) = absurd (irreflexive s s' ((text_eq_iff s s').0 o) h)
    third o o' (inr (inl (e, h))) = absurd (irreflexive n n' ((text_eq_iff n n').0 o') h)
    third o o' (inr (inr (e, e', h))) = h

module _ {A : Type 0} (R : A → A → Type 0) where
  -- No element comes before the one in front of it.
  abbrev NotBefore : A → List A → Type 0
  NotBefore x [] = Unit
  NotBefore x (y ∷ l) = R y x → ⊥

  abbrev pub InOrder : List A → Type 0
  InOrder [] = Unit
  InOrder (x ∷ l) = NotBefore x l × InOrder l

  pub Sorted-InOrder :
      (less : A → A → Bool)
      → ((a b : A) → R a b → less a b ≡ true)
      → (l : List A) → Sorted less l
      → InOrder l
  Sorted-InOrder less h [] s = tt
  Sorted-InOrder less h (x ∷ []) s = (tt, tt)
  Sorted-InOrder less h (x ∷ (y ∷ l)) (f, s) =
      (λ r. clash (h y x r) f, Sorted-InOrder less h (y ∷ l) s)
    where
      clash : less y x ≡ true → less y x ≡ false → ⊥
      clash t e = cc

abbrev pub ItemBefore : SnapItem → SnapItem → Type 0
ItemBefore a b = Before a.source a.name a.path b.source b.name b.path

abbrev pub ChangeBefore : Change → Change → Type 0
ChangeBefore a b = Before a.source a.name a.path b.source b.name b.path
