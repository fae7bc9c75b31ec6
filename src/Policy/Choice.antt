-- ===== src/Policy/Choice.antt =====
-- The loop of `selectSemver` (internal/versionpolicy/policy.go): what the selected release is.
use Prim.Native.Nat.{Ordering}
use mathlib.Core.Bool.{false≢true}
use mathlib.Core.Logic.{⊎_elim}
use hukou.Prelude.{
  Text, true, false, ◌≡◌, ◌≢◌, ◌⊎◌, inl, inr, refl, List, [], ◌∷◌, arith, text_lt, text_eq_iff, Any,
  Bool-cases, text_lt_irrefl, text_lt_connex, text_lt_trans, text_lt_asymm, ◌∙◌, sym, subst,
}
use hukou.Policy.{
  Release, Best, no_best, channel_stable, normalize_version, is_semantic_tag, is_candidate,
  replaces, consider, best_of,
}
use hukou.Policy.Versions.{Semver, IsPrecedence}

abbrev pub Member : Release → List Release → Type 0
Member r = Any (λ s. r ≡ s)

abbrev pub version : Release → Text
version r = normalize_version r.tag

pub version-ne-nil : (r : Release) → version r ≢ []
unfolding normalize_version
version-ne-nil r = ground arith

module _ (sv : Semver) (channel : Text) where
  pub record IsEligible (r : Release) : Type 0 where
    pub published : r.draft ≡ false
    pub semantic : is_semantic_tag sv r.tag ≡ true
    pub on_channel :
        channel ≡ channel_stable → (r.prerelease ≡ false) × (sv.prerelease (version r) ≡ [])

  IsEligible-of_candidate : (r : Release) → is_candidate sv channel r ≡ true → IsEligible r
  unfolding is_candidate
  IsEligible-of_candidate r h = ground (arith, text_eq_iff channel channel_stable)

  candidate-of_IsEligible : (r : Release) → IsEligible r → is_candidate sv channel r ≡ true
  unfolding is_candidate is_semantic_tag
  candidate-of_IsEligible r e = ground (arith, text_eq_iff channel channel_stable)

  -- Releases are ordered by version, and those of one version by their tags, backwards.
  abbrev pub Beats : Release → Release → Type 0
  Beats r s =
      (sv.compare (version r) (version s) ≡ Ordering.gt)
      ⊎ ((sv.compare (version r) (version s) ≡ Ordering.eq) × (text_lt s.tag r.tag ≡ false))

  -- `r` is an eligible release of the list, and beats every eligible release of the list.
  pub record IsBest (In : Release → Type 0) (r : Release) : Type 0 where
    pub is_in : In r
    pub eligible : IsEligible r
    pub beats : (s : Release) → In s → IsEligible s → Beats r s

  module _ (laws : IsPrecedence sv) where
    Beats-refl : (r : Release) → Beats r r
    Beats-refl r = ground (arith, laws.compare_flip (version r) (version r), text_lt_irrefl r.tag)

    Beats-trans : (r s t : Release) → Beats r s → Beats s t → Beats r t
    Beats-trans r s t h k = ground (
      arith,
      laws.compare_trans (version r) (version s) (version t),
      laws.compare_trans (version t) (version s) (version r),
      laws.compare_trans (version s) (version t) (version r),
      laws.compare_trans (version t) (version r) (version s),
      laws.compare_flip (version r) (version s),
      laws.compare_flip (version s) (version t),
      laws.compare_flip (version r) (version t),
      text_lt_trans t.tag s.tag r.tag,
    )

    Beats-total : (r s : Release) → Beats r s ⊎ Beats s r
    Beats-total r s = ground (
      arith,
      laws.compare_flip (version r) (version s),
      text_lt_asymm r.tag s.tag,
      Bool-cases (text_lt s.tag r.tag),
    )

    pub tag-eq_of_Beats : (r s : Release) → Beats r s → Beats s r → r.tag ≡ s.tag
    tag-eq_of_Beats r s h k =
        ground (arith, laws.compare_flip (version r) (version s), text_lt_connex r.tag s.tag)

    -- After some releases, `In` among them: none was eligible, or the selected one is the best.
    abbrev Inv : (Release → Type 0) → Best → Type 0
    Inv In b =
        ((b.selected_version ≡ []) × ((s : Release) → In s → ¬ IsEligible s))
        ⊎ ((b.selected_version ≡ version b.selected) × IsBest In b.selected)

    abbrev Also : Release → (Release → Type 0) → Release → Type 0
    Also r In s = (s ≡ r) ⊎ In s

    consider_skip :
        (In : Release → Type 0) (r : Release) (b : Best)
        → ¬ IsEligible r
        → Inv In b
        → Inv (Also r In) b
    consider_skip In r b no_r (inl (e, none_in)) = inl (
      e,
      λ s m. elim m [ inl p ↦ subst (λ t. ¬ IsEligible t) (sym p) no_r | inr n ↦ none_in s n ],
    )
    consider_skip In r b no_r (inr (e, best)) = inr (
      e,
      record {
        is_in = inr best.is_in;
        eligible = best.eligible;
        beats = λ s m el. elim m [
          | inl p ↦ absurd (no_r (subst IsEligible p el))
          | inr n ↦ best.beats s n el
        ];
      },
    )

    consider_take :
        (In : Release → Type 0) (r : Release)
        → IsEligible r
        → ((s : Release) → In s → IsEligible s → Beats r s)
        → IsBest (Also r In) r
    consider_take In r el over = record {
      is_in = inl refl;
      eligible = el;
      beats =
          λ s m es. elim m [ inl p ↦ subst (Beats r) (sym p) (Beats-refl r) | inr n ↦ over s n es ];
    }

    consider_keep :
        (In : Release → Type 0) (r : Release) (b : Release)
        → Beats b r
        → IsBest In b
        → IsBest (Also r In) b
    consider_keep In r b over best = record {
      is_in = inr best.is_in;
      eligible = best.eligible;
      beats = λ s m es. elim m [ inl p ↦ subst (Beats b) (sym p) over | inr n ↦ best.beats s n es ];
    }

    -- The test of the loop, where a release is selected already.
    replaces-Beats :
        (r : Release) (b : Best)
        → b.selected_version ≡ version b.selected
        → replaces sv r b ≡ true
        → Beats r b.selected
    unfolding replaces
    replaces-Beats r b e h =
        ground (arith, version-ne-nil b.selected, text_lt_asymm r.tag b.selected.tag)

    keeps-Beats :
        (r : Release) (b : Best)
        → b.selected_version ≡ version b.selected
        → replaces sv r b ≡ false
        → Beats b.selected r
    unfolding replaces
    keeps-Beats r b e h = ground (arith, laws.compare_flip (version r) (version b.selected))

    consider-Inv :
        (In : Release → Type 0) (r : Release) (b : Best)
        → Inv In b
        → Inv (Also r In) (consider sv channel b r)
    unfolding consider
    consider-Inv In r b inv = elim (Bool-cases (is_candidate sv channel r)) [
      | inl fits ↦
          let el = IsEligible-of_candidate r fits in
          elim (Bool-cases (replaces sv r b)) [
            | inl new ↦
                rw (fits, new)
                  (inr (
                    refl,
                    consider_take In r el (elim inv [
                      | inl (e, none_in) ↦ λ s m es. absurd (none_in s m es)
                      | inr (e, best) ↦ λ s m es.
                          Beats-trans r b.selected s (replaces-Beats r b e new) (best.beats s m es)
                    ]),
                  ))
            | inr old ↦
                rw (fits, old)
                  (elim inv [
                    | inl (e, none_in) ↦ absurd (not_fresh e old)
                    | inr (e, best) ↦
                        inr (e, consider_keep In r b.selected (keeps-Beats r b e old) best)
                  ])
          ]
      | inr out ↦
          rw out
            (consider_skip In r b (λ el. false≢true (sym out ∙ candidate-of_IsEligible r el)) inv)
    ]
      where
        not_fresh : b.selected_version ≡ [] → replaces sv r b ≡ false → ⊥
        not_fresh e h = unfold replaces in ground arith

    Inv-map :
        (In In' : Release → Type 0) (b : Best)
        → ((s : Release) → In s → In' s)
        → ((s : Release) → In' s → In s)
        → Inv In b
        → Inv In' b
    Inv-map In In' b into back (inl (e, none_in)) = inl (e, λ s m. none_in s (back s m))
    Inv-map In In' b into back (inr (e, best)) = inr (
      e,
      record {
        is_in = into b.selected best.is_in;
        eligible = best.eligible;
        beats = λ s m es. best.beats s (back s m) es;
      },
    )

    best_of-Inv :
        (rs : List Release) (In : Release → Type 0) (b : Best)
        → Inv In b
        → Inv (λ s. Member s rs ⊎ In s) (best_of sv channel rs b)
    unfolding best_of
    best_of-Inv [] In b inv =
        Inv-map In _ b (λ s m. inr m) (λ s m. ⊎_elim (λ f. absurd f) (λ n. n) m) inv
    best_of-Inv (r ∷ rs) In b inv =
        Inv-map (λ s. Member s rs ⊎ Also r In s) _ (best_of sv channel rs (consider sv channel b r))
          (λ s m. ⊎_elim (λ n. inl (inr n)) (λ n. ⊎_elim (λ e. inl (inl e)) inr n) m)
          (λ s m. ⊎_elim (λ n. ⊎_elim (λ e. inr (inl e)) inl n) (λ n. inr (inr n)) m)
          (best_of-Inv rs (Also r In) (consider sv channel b r) (consider-Inv In r b inv))

    -- The loop ends with no version exactly where no release is eligible, and with the best otherwise.
    pub best_of_lem :
        (rs : List Release)
        → let b = best_of sv channel rs no_best in
          ((b.selected_version ≡ []) × ((s : Release) → Member s rs → ¬ IsEligible s))
          ⊎ ((b.selected_version ≡ version b.selected) × IsBest (λ s. Member s rs) b.selected)
    best_of_lem rs =
        Inv-map (λ s. Member s rs ⊎ ⊥) (λ s. Member s rs) (best_of sv channel rs no_best)
          (λ s m. ⊎_elim (λ n. n) (λ f. absurd f) m) (λ s m. inl m)
          (best_of-Inv rs (λ s. ⊥) no_best (inl (refl, λ s f. absurd f)))
