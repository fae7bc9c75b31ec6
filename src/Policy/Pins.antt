-- ===== src/Policy/Pins.antt =====
-- `Normalize`, `PinnedCurrent`, `selectPin` and the guards of `Select` in
-- internal/versionpolicy/policy.go.
use mathlib.Core.Bool.{false≢true}
use hukou.Prelude.{
  Text, true, false, ◌≡◌, ◌≢◌, ◌⊎◌, inl, inr, refl, sym, subst, ap, ◌∙◌, List, [], ◌∷◌, ◌++◌, arith,
  Result, ok, err, Bool-cases, text_eq, text_eq_iff, All, is_trimmed,
}
use hukou.Policy.{
  Action, activate, Release, Decision, UpdatePolicy, PolicyError, pinned_not_found, pinned_is_draft,
  pin_active, activate_pin, mode_semver, mode_legacy, channel_stable, channel_prerelease, normalize,
  check_policy, fill_defaults, or_default, find_pin, select_pin,
}

-- A policy that `Normalize` returns: every field is filled with a supported value.
pub record IsNormal (p : UpdatePolicy) : Type 0 where
  pub mode_known : (p.mode ≡ mode_semver) ⊎ (p.mode ≡ mode_legacy)
  pub channel_known : (p.channel ≡ channel_stable) ⊎ (p.channel ≡ channel_prerelease)
  pub pin_trimmed : (p.pinned_tag ≡ []) ⊎ (is_trimmed p.pinned_tag ≡ true)

pub check_policy-IsNormal : (p q : UpdatePolicy) → check_policy p ≡ ok q → (p ≡ q) × IsNormal p
unfolding check_policy
check_policy-IsNormal p q h = ground (
  arith,
  text_eq_iff p.mode mode_semver,
  text_eq_iff p.mode mode_legacy,
  text_eq_iff p.channel channel_stable,
  text_eq_iff p.channel channel_prerelease,
)

check_policy-of_IsNormal : (p : UpdatePolicy) → IsNormal p → check_policy p ≡ ok p
unfolding check_policy
check_policy-of_IsNormal p n = ground (
  arith,
  text_eq_iff p.mode mode_semver,
  text_eq_iff p.mode mode_legacy,
  text_eq_iff p.channel channel_stable,
  text_eq_iff p.channel channel_prerelease,
)

fill_defaults-of_IsNormal : (p : UpdatePolicy) → IsNormal p → fill_defaults p ≡ p
unfolding fill_defaults
fill_defaults-of_IsNormal p n = ground arith

-- A field is filled: what was given stays, and only an empty text becomes the default.
abbrev pub Filled : Text → Text → Text → Type 0
Filled default given out = (given ≢ [] → out ≡ given) × (given ≡ [] → out ≡ default)

or_default-Filled : (given default : Text) → Filled default given (or_default given default)
or_default-Filled [] default = (λ ne. absurd (ne refl), λ e. refl)
or_default-Filled (c ∷ t) default = (λ ne. refl, λ e. cc)

-- `Normalize` succeeds only with a supported policy that keeps the pin and an explicit mode and channel,
-- and has the default, semver and stable, where the mode or the channel was empty; it leaves such a
-- policy as it is: normalising twice changes nothing.
pub normalize-IsNormal :
    (p q : UpdatePolicy)
    → normalize p ≡ ok q
    → IsNormal q
      × (q.pinned_tag ≡ p.pinned_tag)
      × Filled mode_semver p.mode q.mode
      × Filled channel_stable p.channel q.channel
      × (normalize q ≡ ok q)
unfolding normalize
normalize-IsNormal p q h =
    let (e, n) = check_policy-IsNormal (fill_defaults p) q h in
    let m : IsNormal q = subst IsNormal e n in
    (
      m,
      unfold fill_defaults in ap (λ (r : UpdatePolicy). r.pinned_tag) (sym e),
      subst (λ (r : UpdatePolicy). Filled mode_semver p.mode r.mode) e
          (unfold fill_defaults in or_default-Filled p.mode mode_semver),
      subst (λ (r : UpdatePolicy). Filled channel_stable p.channel r.channel) e
          (unfold fill_defaults in or_default-Filled p.channel channel_stable),
      rw (fill_defaults-of_IsNormal q m) (check_policy-of_IsNormal q m),
    )

-- A release of the list is the first with the pinned tag.
pub record FirstTagged (pin : Text) (rs : List Release) (r : Release) : Type 0 where
  pub before : List Release
  pub after : List Release
  pub split : rs ≡ before ++ (r ∷ after)
  pub tagged : r.tag ≡ pin
  pub first : All (λ s. s.tag ≢ pin) before

abbrev pin_decision : Action → Text → Text → Decision
pin_decision a current pin = record {
  action = a;
  current_tag = current;
  candidate_tag = pin;
  pinned = true;
  reason = elim a [ Action.none ↦ pin_active | Action.activate ↦ activate_pin ];
}

-- The specification of an exact pin.
pub data Pins (pin current : Text) (rs : List Release) (res : Result PolicyError Decision)
    : Type 0 where
  already :
      pin ≡ current → res ≡ ok (pin_decision Action.none current pin) → Pins pin current rs res
  missing :
      pin ≢ current
      → All (λ s. s.tag ≢ pin) rs
      → res ≡ err (pinned_not_found pin)
      → Pins pin current rs res
  is_draft :
      pin ≢ current
      → (r : Release) → FirstTagged pin rs r
      → r.draft ≡ true
      → res ≡ err (pinned_is_draft pin)
      → Pins pin current rs res
  found :
      pin ≢ current
      → (r : Release) → FirstTagged pin rs r
      → r.draft ≡ false
      → res ≡ ok (pin_decision activate current pin)
      → Pins pin current rs res

Pins-cons :
    (pin current : Text) (r : Release) (rs : List Release) (res : Result PolicyError Decision)
    → r.tag ≢ pin
    → Pins pin current rs res
    → Pins pin current (r ∷ rs) res
Pins-cons pin current r rs res ne (already e h) = already e h
Pins-cons pin current r rs res ne (missing c all h) = missing c (ne, all) h
Pins-cons pin current r rs res ne (is_draft c s f d h) =
    is_draft c s
      (record {
        before = r ∷ f.before;
        after = f.after;
        split = ap (λ l. r ∷ l) f.split;
        tagged = f.tagged;
        first = (ne, f.first);
      })
      d h
Pins-cons pin current r rs res ne (found c s f d h) =
    found c s
      (record {
        before = r ∷ f.before;
        after = f.after;
        split = ap (λ l. r ∷ l) f.split;
        tagged = f.tagged;
        first = (ne, f.first);
      })
      d h

find_pin-Pins :
    (pin current : Text) (rs : List Release)
    → pin ≢ current
    → Pins pin current rs (find_pin pin current rs)
unfolding find_pin
find_pin-Pins pin current [] ne = missing ne tt refl
find_pin-Pins pin current (r ∷ rs) ne = elim (Bool-cases (text_eq r.tag pin)) [
  | inr other ↦ rw other (
      Pins-cons pin current r rs _ (λ e. false≢true (sym other ∙ (text_eq_iff r.tag pin).1 e))
        (find_pin-Pins pin current rs ne))
  | inl eq ↦
      let e = (text_eq_iff r.tag pin).0 eq in
      let f : FirstTagged pin (r ∷ rs) r = record {
        before = [];
        after = rs;
        split = refl;
        tagged = e;
        first = tt;
      } in
      elim (Bool-cases r.draft) [
        | inl d ↦ is_draft ne r f d (rw (eq, d))
        | inr d ↦ found ne r f d (rw (eq, d, e))
      ]
]

-- `selectPin`: no action where the pin is the current tag, else the activation of the first release
-- with the tag, else an error where that release is a draft or there is none.
pub select_pin-Pins :
    (pin current : Text) (rs : List Release) → Pins pin current rs (select_pin pin current rs)
unfolding select_pin
select_pin-Pins pin current rs = elim (Bool-cases (text_eq pin current)) [
  | inl eq ↦ already ((text_eq_iff pin current).0 eq) (rw eq)
  | inr other ↦
      rw other
        (find_pin-Pins pin current rs (λ e. false≢true (sym other ∙ (text_eq_iff pin current).1 e)))
]
