-- ===== src/Policy/Upgrades.antt =====
-- `Select` of internal/versionpolicy/policy.go never goes back to an older version by itself.
use Prim.Native.Nat.{Ordering}
use hukou.Prelude.{
  Text, true, false, ◌≡◌, ◌≢◌, ◌⊎◌, inl, inr, sym, ◌∙◌, List, [], arith, Result, Result-cases, ok,
  err, text_eq, text_eq_iff,
}
use hukou.Policy.{
  activate, Release, Decision, UpdatePolicy, PolicyError, mode_legacy, normalize, fill_defaults,
  normalize_version, unordered_baseline, select_semver, select_by, select,
}
use hukou.Policy.Versions.{Semver, IsPrecedence}
use hukou.Policy.Select.{
  Selects, nothing_eligible, baseline, unordered, lower, same, higher, select_semver-Selects,
}
use hukou.Policy.Pins.{check_policy-IsNormal}

-- Without a pin and outside legacy mode, `Select` is semantic selection on the filled policy.
select-semver_mode :
    (sv : Semver) (p q : UpdatePolicy) (current : Text) (rs : List Release)
    → p.mode ≢ mode_legacy
    → p.pinned_tag ≡ []
    → normalize p ≡ ok q
    → select sv p current rs ≡ select_semver sv q.channel current rs
unfolding select normalize fill_defaults select_by
select-semver_mode sv p q current rs mode no_pin n =
    let (e, _) = check_policy-IsNormal (fill_defaults p) q n in
    let pin : q.pinned_tag ≡ p.pinned_tag = rw (← e) in
    let not_legacy : text_eq q.mode mode_legacy ≡ false =
      rw (← e) (unfold text_eq in ground (arith, text_eq_iff p.mode mode_legacy)) in
    rw (n, not_legacy, pin, no_pin)

activates_higher :
    (sv : Semver) (channel current : Text) (rs : List Release) (d : Decision)
    (res : Result PolicyError Decision)
    → Selects sv channel current rs res
    → res ≡ ok d
    → d.action ≡ activate
    → (unordered_baseline current ≡ true)
      ⊎ (sv.compare (normalize_version d.candidate_tag) (normalize_version current) ≡ Ordering.gt)
activates_higher sv channel current rs d res (nothing_eligible _ e) h a = cc
activates_higher sv channel current rs d res (baseline r _ b e) h a = inl b
activates_higher sv channel current rs d res (unordered r _ _ _ e) h a = cc
activates_higher sv channel current rs d res (lower r _ _ _ _ e) h a = cc
activates_higher sv channel current rs d res (same r _ _ _ _ e) h a = ground arith
activates_higher sv channel current rs d res (higher r _ _ _ c e) h a = inr (ground arith)

-- A selected release is never older than the current one without a pin: in semantic mode a decision
-- to activate is for a higher version, or sets the baseline of a current tag that has no order.
pub select_no_downgrade :
    (sv : Semver) (laws : IsPrecedence sv) (p : UpdatePolicy) (current : Text) (rs : List Release)
    (d : Decision)
    → p.mode ≢ mode_legacy
    → p.pinned_tag ≡ []
    → select sv p current rs ≡ ok d
    → d.action ≡ activate
    → (unordered_baseline current ≡ true)
      ⊎ (sv.compare (normalize_version d.candidate_tag) (normalize_version current) ≡ Ordering.gt)
select_no_downgrade sv laws p current rs d mode no_pin h a = elim (Result-cases (normalize p)) [
  | inl (q, n) ↦
      activates_higher sv q.channel current rs d _
        (select_semver-Selects sv q.channel current rs laws)
        (sym (select-semver_mode sv p q current rs mode no_pin n) ∙ h) a
  | inr (e, n) ↦ absurd (failed e n)
]
  where
    failed : (e : PolicyError) → normalize p ≡ err e → ⊥
    failed e n = unfold select in ground arith
