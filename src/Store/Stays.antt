-- ===== src/Store/Stays.antt =====
-- What a pruning may not take, described without the lists that `PlanPrune` makes.
use hukou.Prelude.{
  ℕ, ℤ, pos, Text, false, ◌≡◌, ◌≢◌, inl, inr, refl, subst, some, List, [], ◌∷◌, ◌++◌, take, All,
  Member, text_eq, text_eq_iff, Bool-cases,
}
use hukou.Store.{VersionRef}
use hukou.Store.Prune.{PruneRequest, find_ref, some_ref, pinned_ref, retained, protected_refs}

-- `P` holds of the version in use, of the original backup, of as many of the nearest ancestors as were
-- asked for, and, where a version with the pinned tag is installed, of one with this tag.
pub record MustStay (P : VersionRef → Type 0) (request : PruneRequest) (original : VersionRef)
    (installed : List VersionRef) : Type 0 where
  pub in_use : P request.current
  pub backup : P original
  pub near : (n : ℕ) → request.retain_ancestors ≡ pos n → All P (take n request.ancestors)
  pub pin :
      (r : VersionRef)
      → Member r installed
      → request.pinned_tag ≢ []
      → r.tag ≡ request.pinned_tag
      → (p : VersionRef) × Member p installed × (p.tag ≡ request.pinned_tag) × P p

-- The first reference with a tag.
find_ref-Member :
    (tag : Text) (refs : List VersionRef) (r : VersionRef)
    → Member r refs
    → r.tag ≡ tag
    → (p : VersionRef) × Member p refs × (p.tag ≡ tag) × (find_ref tag refs ≡ some p)
unfolding find_ref
find_ref-Member tag [] r m e = absurd m
find_ref-Member tag (ref ∷ refs) r m e = elim (Bool-cases (text_eq ref.tag tag)) [
  | inl same ↦ (ref, inl refl, (text_eq_iff ref.tag tag).0 same, rw same refl)
  | inr other ↦ elim m [
    | inl here ↦ absurd (clash here other)
    | inr later ↦
        let (p, m', e', f) = find_ref-Member tag refs r later e in
        (p, inr m', e', rw (other, f) refl)
  ]
]
  where
    clash : r ≡ ref → text_eq ref.tag tag ≡ false → ⊥
    clash here other =
        let same : ref.tag ≡ tag = subst (λ (x : VersionRef). x.tag ≡ tag) here e in
        let yes = (text_eq_iff ref.tag tag).1 same in cc

module _ (P : VersionRef → Type 0) where
  All-split : (xs ys : List VersionRef) → All P (xs ++ ys) → All P xs × All P ys
  All-split [] ys a = (tt, a)
  All-split (x ∷ xs) ys (p, a) = let (f, b) = All-split xs ys a in ((p, f), b)

  near_of :
      (depth : ℤ) (n : ℕ) (refs : List VersionRef)
      → depth ≡ pos n
      → All P (retained depth refs)
      → All P (take n refs)
  near_of depth n refs e a = subst (λ d. All P (retained d refs)) e a

  pin_of :
      (pin : Text) (installed : List VersionRef) (r : VersionRef)
      → All P (pinned_ref pin installed)
      → Member r installed
      → pin ≢ []
      → r.tag ≡ pin
      → (p : VersionRef) × Member p installed × (p.tag ≡ pin) × P p
  unfolding pinned_ref
  pin_of [] installed r a m ne e = absurd (ne refl)
  pin_of (c ∷ t) installed r a m ne e =
      let (p, m', e', f) = find_ref-Member (c ∷ t) installed r m e in
      let (holds, _) = subst (λ o. All P (some_ref o)) f a in (p, m', e', holds)

  -- The list that is protected has all of them.
  pub protected_refs-MustStay :
      (request : PruneRequest) (original : VersionRef) (installed : List VersionRef)
      → All P (protected_refs request original installed)
      → MustStay P request original installed
  protected_refs-MustStay request original installed (current, (backup, rest)) =
      let (near, pin) =
        All-split (retained request.retain_ancestors request.ancestors)
          (pinned_ref request.pinned_tag installed) rest in
      record {
        in_use = current;
        backup = backup;
        near = λ n e. near_of request.retain_ancestors n request.ancestors e near;
        pin = λ r m ne e. pin_of request.pinned_tag installed r pin m ne e;
      }

-- What holds of all that has `P`.
pub MustStay-map :
    (P Q : VersionRef → Type 0)
    → ((r : VersionRef) → P r → Q r)
    → (request : PruneRequest) (original : VersionRef) (installed : List VersionRef)
    → MustStay P request original installed
    → MustStay Q request original installed
MustStay-map P Q f request original installed k = record {
  in_use = f request.current k.in_use;
  backup = f original k.backup;
  near = λ n e. All-of (take n request.ancestors) (k.near n e);
  pin = λ r m ne e. let (p, m', e', h) = k.pin r m ne e in (p, m', e', f p h);
}
  where
    All-of : (refs : List VersionRef) → All P refs → All Q refs
    All-of [] a = tt
    All-of (r ∷ refs) (p, a) = (f r p, All-of refs a)
