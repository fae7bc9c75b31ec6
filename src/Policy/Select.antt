-- ===== src/Policy/Select.antt =====
-- `selectSemver` and `Select` of internal/versionpolicy/policy.go in semantic-version mode.
use Prim.Native.Nat.{Ordering}
use hukou.Prelude.{
  Text, true, false, ◌≡◌, ◌↔◌, ◌⊎◌, inl, inr, refl, List, arith, Result, ok, err, is_nil,
  Bool-cases,
}
use hukou.Policy.{
  none, activate, Release, Best, no_best, Decision, PolicyError, no_candidate, current_not_semver,
  downgrade, establish_baseline, highest_active, higher_available, Reason, Action,
  normalize_version, unordered_baseline, is_semantic_tag, best_of, decide, decide_order,
  select_semver,
}
use hukou.Policy.Versions.{Semver, IsPrecedence}
use hukou.Policy.Choice.{
  Member, version, version-ne-nil, IsEligible, IsBest, best_of_lem, tag-eq_of_Beats,
}

abbrev unpinned : Action → Text → Text → Reason → Decision
unpinned a current candidate why = record {
  action = a;
  current_tag = current;
  candidate_tag = candidate;
  pinned = false;
  reason = why;
}

module _ (sv : Semver) (channel current : Text) (rs : List Release) where
  abbrev BestRelease : Release → Type 0
  BestRelease = IsBest sv channel (λ s. Member s rs)

  -- The specification of semantic selection: the result for each situation of the current tag.
  pub data Selects (res : Result PolicyError Decision) : Type 0 where
    nothing_eligible :
        ((s : Release) → Member s rs → ¬ IsEligible sv channel s)
        → res ≡ err no_candidate
        → Selects res
    baseline :
        (r : Release)
        → BestRelease r
        → unordered_baseline current ≡ true
        → res ≡ ok (unpinned activate current r.tag establish_baseline)
        → Selects res
    unordered :
        (r : Release)
        → BestRelease r
        → unordered_baseline current ≡ false
        → is_semantic_tag sv current ≡ false
        → res ≡ err (current_not_semver current)
        → Selects res
    lower :
        (r : Release)
        → BestRelease r
        → unordered_baseline current ≡ false
        → is_semantic_tag sv current ≡ true
        → sv.compare (version r) (normalize_version current) ≡ Ordering.lt
        → res ≡ err (downgrade r.tag current)
        → Selects res
    same :
        (r : Release)
        → BestRelease r
        → unordered_baseline current ≡ false
        → is_semantic_tag sv current ≡ true
        → sv.compare (version r) (normalize_version current) ≡ Ordering.eq
        → res ≡ ok (unpinned none current r.tag highest_active)
        → Selects res
    higher :
        (r : Release)
        → BestRelease r
        → unordered_baseline current ≡ false
        → is_semantic_tag sv current ≡ true
        → sv.compare (version r) (normalize_version current) ≡ Ordering.gt
        → res ≡ ok (unpinned activate current r.tag higher_available)
        → Selects res

  Ordering-cases : (o : Ordering) → (o ≡ Ordering.lt) ⊎ (o ≡ Ordering.eq) ⊎ (o ≡ Ordering.gt)
  Ordering-cases Ordering.lt = inl refl
  Ordering-cases Ordering.eq = inr (inl refl)
  Ordering-cases Ordering.gt = inr (inr refl)

  decide-Selects :
      (b : Best)
      → b.selected_version ≡ version b.selected
      → BestRelease b.selected
      → Selects (decide sv current b)
  decide-Selects b e best =
      let r = b.selected in
      let fresh : is_nil b.selected_version ≡ false = rw e (ground (arith, version-ne-nil r)) in
      elim (Bool-cases (unordered_baseline current)) [
        | inl base ↦ baseline r best base (unfold decide in rw (fresh, base))
        | inr no_base ↦ elim (Bool-cases (is_semantic_tag sv current)) [
          | inr no_sem ↦
              unordered r best no_base no_sem (unfold decide in rw (fresh, no_base, no_sem))
          | inl sem ↦ elim (Ordering-cases (sv.compare (version r) (normalize_version current))) [
            | inl c ↦
                lower r best no_base sem c
                  (unfold decide decide_order in rw (fresh, no_base, sem, e, c))
            | inr (inl c) ↦
                same r best no_base sem c
                  (unfold decide decide_order in rw (fresh, no_base, sem, e, c))
            | inr (inr c) ↦
                higher r best no_base sem c
                  (unfold decide decide_order in rw (fresh, no_base, sem, e, c))
          ]
        ]
      ]

  module _ (laws : IsPrecedence sv) where
    -- With the laws of a precedence order, semantic selection meets its specification, for every list
    -- of releases and current tag.
    pub select_semver-Selects : Selects (select_semver sv channel current rs)
    unfolding select_semver
    select_semver-Selects = elim (best_of_lem sv channel laws rs) [
      | inl (e, none_eligible) ↦ nothing_eligible none_eligible (unfold decide in rw e)
      | inr (e, best) ↦ decide-Selects (best_of sv channel rs no_best) e best
    ]

-- What a decision reads of the releases is the best release's tag.
tag_of_best :
    (sv : Semver) (laws : IsPrecedence sv) (channel : Text) (rs rs' : List Release)
    → ((s : Release) → Member s rs → Member s rs')
    → ((s : Release) → Member s rs' → Member s rs)
    → (r r' : Release) → IsBest sv channel (λ s. Member s rs) r
    → IsBest sv channel (λ s. Member s rs') r'
    → r.tag ≡ r'.tag
tag_of_best sv laws channel rs rs' into back r r' b b' =
    tag-eq_of_Beats sv channel laws r r' (b.beats r' (back r' b'.is_in) b'.eligible)
      (b'.beats r (into r b.is_in) b.eligible)

decide_by_tag :
    (sv : Semver) (current : Text) (b b' : Best)
    → b.selected_version ≡ version b.selected
    → b'.selected_version ≡ version b'.selected
    → b.selected.tag ≡ b'.selected.tag
    → decide sv current b ≡ decide sv current b'
unfolding decide
decide_by_tag sv current b b' e e' t = rw (e, e', t) refl

-- With the laws of a precedence order, semantic selection does not depend on the order of the
-- releases, nor on repetitions: two lists
-- with the same members give the same decision or the same error.
pub select_semver_order :
    (sv : Semver) (laws : IsPrecedence sv) (channel current : Text) (rs rs' : List Release)
    → ((s : Release) → Member s rs ↔ Member s rs')
    → select_semver sv channel current rs ≡ select_semver sv channel current rs'
unfolding select_semver
select_semver_order sv laws channel current rs rs' members = elim (best_of_lem sv channel laws rs) [
  | inl (e, none_eligible) ↦ elim (best_of_lem sv channel laws rs') [
    | inl (e', none_eligible') ↦ unfold decide in rw (e, e')
    | inr (e', best') ↦ absurd (none_eligible _ ((members _).1 best'.is_in) best'.eligible)
  ]
  | inr (e, best) ↦ elim (best_of_lem sv channel laws rs') [
    | inl (e', none_eligible') ↦ absurd (none_eligible' _ ((members _).0 best.is_in) best.eligible)
    | inr (e', best') ↦ decide_by_tag sv current _ _ e e' (
        tag_of_best sv laws channel rs rs' (λ s. (members s).0) (λ s. (members s).1) _ _ best best')
  ]
]
