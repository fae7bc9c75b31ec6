-- ===== src/Policy/Tests.antt =====
-- Runs of the release selection, over a small semver in which versions compare as texts.
use Prim.Native.Nat.{Ordering}
use mathlib.Core.Logic.{⊎_elim}
use hukou.Prelude.{
  Text, codes, true, false, ◌≡◌, ◌≢◌, ◌↔◌, ◌⊎◌, inl, inr, refl, [], ◌∷◌, arith, ok, text_eq,
  text_lt, if◌then◌else◌, text_eq_iff, text_lt_irrefl, text_lt_asymm, text_lt_connex, text_lt_trans,
}
use hukou.Policy.{
  Release, Decision, UpdatePolicy, mode_semver, channel_stable, normalize, check_policy,
  fill_defaults, decide, best_of, is_semantic_tag, select_semver, select, normalize_version,
  unordered_baseline, activate, select_pin, higher_available,
}
use hukou.Policy.Versions.{Semver, IsPrecedence, flip}
use hukou.Policy.Choice.{Member}
use hukou.Policy.Select.{Selects, select_semver-Selects, select_semver_order}
use hukou.Policy.Pins.{IsNormal, Filled, normalize-IsNormal, Pins, select_pin-Pins}
use hukou.Policy.Upgrades.{select_no_downgrade}

compare_texts : Text → Text → Ordering
unfolding text_eq text_lt
compare_texts v w =
    if text_eq v w then Ordering.eq else if text_lt v w then Ordering.lt else Ordering.gt

abbrev sv : Semver
sv = record { is_valid = λ v. true; compare = compare_texts; prerelease = λ v. []; major = λ v. v }

compare_texts_flip : (v w : Text) → sv.compare w v ≡ flip (sv.compare v w)
unfolding compare_texts
compare_texts_flip v w = ground (
  arith,
  text_eq_iff v w,
  text_eq_iff w v,
  text_lt_asymm v w,
  text_lt_connex v w,
  text_lt_irrefl v,
)

compare_texts_trans :
    (u v w : Text)
    → sv.compare u v ≢ Ordering.lt
    → sv.compare v w ≢ Ordering.lt
    → sv.compare u w ≢ Ordering.lt
unfolding compare_texts
compare_texts_trans u v w h k = ground (
  arith,
  text_eq_iff u v,
  text_eq_iff v w,
  text_eq_iff u w,
  text_lt_trans u v w,
  text_lt_irrefl u,
  text_lt_irrefl v,
)

sv-IsPrecedence : IsPrecedence sv
sv-IsPrecedence = record { compare_flip = compare_texts_flip; compare_trans = compare_texts_trans }

abbrev old : Release
old = record { tag = codes "v1.0.0"; draft = false; prerelease = false }

abbrev new : Release
new = record { tag = codes "v1.1.0"; draft = false; prerelease = false }

abbrev policy : UpdatePolicy
policy = record { mode = []; channel = []; pinned_tag = [] }

upgrade_runs :
    select sv policy (codes "v1.0.0") (old ∷ new ∷ [])
    ≡ ok (record {
      action = activate;
      current_tag = codes "v1.0.0";
      candidate_tag = codes "v1.1.0";
      pinned = false;
      reason = higher_available;
    })
unfolding select normalize check_policy text_eq fill_defaults select_semver decide best_of
    is_semantic_tag compare_texts unordered_baseline
upgrade_runs = refl

abbrev filled : UpdatePolicy
filled = record { mode = mode_semver; channel = channel_stable; pinned_tag = [] }

normalize_runs : normalize policy ≡ ok filled
unfolding normalize check_policy fill_defaults text_eq
normalize_runs = refl

select_semver-Selects_example :
    Selects sv channel_stable
      (codes "v1.0.0")
      (old ∷ new ∷ [])
      (select_semver sv channel_stable (codes "v1.0.0") (old ∷ new ∷ []))
select_semver-Selects_example =
    select_semver-Selects sv channel_stable (codes "v1.0.0") (old ∷ new ∷ []) sv-IsPrecedence

swap_members : (s : Release) → Member s (old ∷ new ∷ []) ↔ Member s (new ∷ old ∷ [])
swap_members s = (
  λ m. ⊎_elim (λ a. inr (inl a)) (⊎_elim inl (λ f. absurd f)) m,
  λ m. ⊎_elim (λ a. inr (inl a)) (⊎_elim inl (λ f. absurd f)) m,
)

select_semver_order_example :
    select_semver sv channel_stable (codes "v1.0.0") (old ∷ new ∷ [])
    ≡ select_semver sv channel_stable (codes "v1.0.0") (new ∷ old ∷ [])
select_semver_order_example =
    select_semver_order sv sv-IsPrecedence channel_stable (codes "v1.0.0") (old ∷ new ∷ [])
      (new ∷ old ∷ []) swap_members

normalize-IsNormal_example :
    IsNormal filled
    × (filled.pinned_tag ≡ policy.pinned_tag)
    × Filled mode_semver policy.mode filled.mode
    × Filled channel_stable policy.channel filled.channel
    × (normalize filled ≡ ok filled)
normalize-IsNormal_example = normalize-IsNormal policy filled normalize_runs

select_pin-Pins_example :
    Pins
      (codes "v1.0.0")
      (codes "v1.1.0")
      (new ∷ old ∷ [])
      (select_pin (codes "v1.0.0") (codes "v1.1.0") (new ∷ old ∷ []))
select_pin-Pins_example = select_pin-Pins (codes "v1.0.0") (codes "v1.1.0") (new ∷ old ∷ [])

abbrev pinned : UpdatePolicy
pinned = record { mode = []; channel = []; pinned_tag = codes "v1.0.0" }

abbrev upgrade : Decision
upgrade = record {
  action = activate;
  current_tag = codes "v1.0.0";
  candidate_tag = codes "v1.1.0";
  pinned = false;
  reason = higher_available;
}

select_no_downgrade_example :
    (unordered_baseline (codes "v1.0.0") ≡ true)
    ⊎ (sv.compare (normalize_version (codes "v1.1.0")) (normalize_version (codes "v1.0.0"))
        ≡ Ordering.gt)
select_no_downgrade_example =
    select_no_downgrade sv sv-IsPrecedence policy (codes "v1.0.0") (old ∷ new ∷ []) upgrade (cc)
      refl upgrade_runs refl
