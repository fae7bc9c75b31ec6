-- ===== src/Policy.antt =====
-- internal/versionpolicy/policy.go: which release an update policy selects. The proofs are in the
-- modules below.
pub mod Versions
pub mod Choice
pub mod Select
pub mod Pins
pub mod Upgrades
mod Tests
use Prim.Native.Nat.{Ordering}
use hukou.Prelude.{
  ℕ, suc, Text, codes, Bool, true, false, not, ◌&&◌, ◌||◌, List, [], ◌∷◌, ◌==◌, if◌then◌else◌,
  is_nil, text_eq, text_lt, has_prefix, contains_byte, is_trimmed, to_lower, Result, ok, err, ◌>>=◌,
}
use Versions.{Semver}

pub data Action : Type 0 where
  none activate : Action

pub record Release : Type 0 where
  pub tag : Text
  pub draft : Bool
  pub prerelease : Bool

-- The constructors say which of the `Reason` strings of a decision is meant.
pub data Reason : Type 0 where
  pin_active activate_pin latest_differs latest_active establish_baseline : Reason
  highest_active higher_available : Reason

pub record Decision : Type 0 where
  pub action : Action
  pub current_tag : Text
  pub candidate_tag : Text
  pub pinned : Bool
  pub reason : Reason

-- manifest.UpdatePolicy
pub record UpdatePolicy : Type 0 where
  pub mode : Text
  pub channel : Text
  pub pinned_tag : Text

-- The sentinel that the error wraps, with the values that its message names.
pub data PolicyError : Type 0 where
  invalid_mode invalid_channel : Text → PolicyError
  invalid_pin : PolicyError
  no_candidate : PolicyError
  pinned_is_draft pinned_not_found : Text → PolicyError
  current_not_semver : Text → PolicyError
  downgrade : Text → Text → PolicyError

abbrev pub mode_semver : Text
mode_semver = codes "semver"

abbrev pub mode_legacy : Text
mode_legacy = codes "github-latest"

abbrev pub channel_stable : Text
channel_stable = codes "stable"

abbrev pub channel_prerelease : Text
channel_prerelease = codes "prerelease"

-- `if field == "" { field = default }`
abbrev pub or_default : Text → Text → Text
or_default s d = if is_nil s then d else s

pub fill_defaults : UpdatePolicy → UpdatePolicy
fill_defaults p = record p {
  mode = or_default p.mode mode_semver;
  channel = or_default p.channel channel_stable;
}

pub check_policy : UpdatePolicy → Result PolicyError UpdatePolicy
check_policy p =
    if not (text_eq p.mode mode_semver || text_eq p.mode mode_legacy)
    then err (invalid_mode p.mode)
    else if not (text_eq p.channel channel_stable || text_eq p.channel channel_prerelease)
    then err (invalid_channel p.channel)
    else if not (is_nil p.pinned_tag) && not (is_trimmed p.pinned_tag)
    then err invalid_pin
    else ok p

pub normalize : UpdatePolicy → Result PolicyError UpdatePolicy
normalize p = check_policy (fill_defaults p)

pub pinned_current : UpdatePolicy → Text → Bool
pinned_current p current = not (is_nil p.pinned_tag) && text_eq p.pinned_tag current

pub normalize_version : Text → Text
unfolding has_prefix
normalize_version tag = if has_prefix tag (codes "v") then tag else b'v' ∷ tag

pub unordered_baseline : Text → Bool
unfolding to_lower text_eq
unordered_baseline tag =
    text_eq (to_lower tag) (codes "local")
    || text_eq (to_lower tag) (codes "adopted")
    || text_eq (to_lower tag) (codes "original")

-- `strings.TrimPrefix(version, "v")`
trim_v : Text → Text
trim_v [] = []
trim_v (c ∷ s) = if c == b'v' then s else c ∷ s

-- `core[:strings.IndexAny(core, "-+")]`, or all of it
version_core : Text → Text
version_core [] = []
version_core (c ∷ s) = if contains_byte c (codes "-+") then [] else c ∷ version_core s

-- `strings.Count(s, ".")`
dots : Text → ℕ
dots [] = 0
dots (c ∷ s) = if c == b'.' then suc (dots s) else dots s

module _ (sv : Semver) where
  pub is_semantic_tag : Text → Bool
  unfolding normalize_version trim_v version_core dots contains_byte is_trimmed
  is_semantic_tag tag =
      if is_nil tag || not (is_trimmed tag)
      then false
      else if not (sv.is_valid (normalize_version tag))
      then false
      else dots (version_core (trim_v (normalize_version tag))) == 2

  pub is_major_upgrade : Text → Text → Bool
  is_major_upgrade current latest =
      if not (sv.is_valid current) || not (sv.is_valid latest)
      then false
      else not (text_eq (sv.major current) (sv.major latest))

-- The loop of `selectPin`.
find_pin : Text → Text → List Release → Result PolicyError Decision
find_pin pin current [] = err (pinned_not_found pin)
find_pin pin current (r ∷ rs) =
    if not (text_eq r.tag pin)
    then find_pin pin current rs
    else if r.draft
    then err (pinned_is_draft pin)
    else ok (record {
      action = activate;
      current_tag = current;
      candidate_tag = r.tag;
      pinned = true;
      reason = activate_pin;
    })

pub select_pin : Text → Text → List Release → Result PolicyError Decision
unfolding find_pin
select_pin pin current rs =
    if text_eq pin current
    then ok (record {
      action = none;
      current_tag = current;
      candidate_tag = pin;
      pinned = true;
      reason = pin_active;
    })
    else find_pin pin current rs

-- The loop of `selectLegacy`.
pub select_legacy : Text → Text → List Release → Result PolicyError Decision
select_legacy channel current [] = err no_candidate
select_legacy channel current (r ∷ rs) =
    if r.draft || is_nil r.tag
    then select_legacy channel current rs
    else if text_eq channel channel_stable && r.prerelease
    then select_legacy channel current rs
    else if text_eq r.tag current
    then ok (record {
      action = none;
      current_tag = current;
      candidate_tag = r.tag;
      pinned = false;
      reason = latest_active;
    })
    else ok (record {
      action = activate;
      current_tag = current;
      candidate_tag = r.tag;
      pinned = false;
      reason = latest_differs;
    })

-- The variables of the loop of `selectSemver`; `selected_version` is empty before a release is
-- selected.
pub record Best : Type 0 where
  pub selected : Release
  pub selected_version : Text

abbrev pub no_best : Best
no_best = record {
  selected = record { tag = []; draft = false; prerelease = false };
  selected_version = [];
}

abbrev is_gt : Ordering → Bool
is_gt Ordering.gt = true
is_gt _ = false

abbrev is_eq : Ordering → Bool
is_eq Ordering.eq = true
is_eq _ = false

module _ (sv : Semver) where
  -- The release passes every `continue` of the loop.
  pub is_candidate : Text → Release → Bool
  is_candidate channel r =
      let version = normalize_version r.tag in
      let is_prerelease = r.prerelease || not (is_nil (sv.prerelease version)) in
      if r.draft || is_nil r.tag
      then false
      else if not (is_semantic_tag sv r.tag)
      then false
      else if text_eq channel channel_stable && is_prerelease
      then false
      else true

  -- The test that replaces the selected release.
  pub replaces : Release → Best → Bool
  replaces r b =
      let comparison = sv.compare (normalize_version r.tag) b.selected_version in
      is_nil b.selected_version
      || is_gt comparison
      || is_eq comparison && text_lt r.tag b.selected.tag

  pub consider : Text → Best → Release → Best
  consider channel b r =
      if is_candidate channel r
      then (if replaces r b
          then record { selected = r; selected_version = normalize_version r.tag }
          else b)
      else b

  pub best_of : Text → List Release → Best → Best
  unfolding consider is_candidate replaces
  best_of channel [] b = b
  best_of channel (r ∷ rs) b = best_of channel rs (consider channel b r)

  -- The `switch` on the comparison of the selected with the current version.
  decide_order : Text → Text → Ordering → Result PolicyError Decision
  decide_order candidate current Ordering.lt = err (downgrade candidate current)
  decide_order candidate current Ordering.eq = ok (record {
    action = none;
    current_tag = current;
    candidate_tag = candidate;
    pinned = false;
    reason = highest_active;
  })
  decide_order candidate current Ordering.gt = ok (record {
    action = activate;
    current_tag = current;
    candidate_tag = candidate;
    pinned = false;
    reason = higher_available;
  })

  -- What follows the loop.
  pub decide : Text → Best → Result PolicyError Decision
  unfolding decide_order
  decide current b =
      if is_nil b.selected_version
      then err no_candidate
      else if unordered_baseline current
      then ok (record {
        action = activate;
        current_tag = current;
        candidate_tag = b.selected.tag;
        pinned = false;
        reason = establish_baseline;
      })
      else if not (is_semantic_tag sv current)
      then err (current_not_semver current)
      else decide_order b.selected.tag current
          (sv.compare b.selected_version (normalize_version current))

  pub select_semver : Text → Text → List Release → Result PolicyError Decision
  select_semver channel current rs = decide current (best_of channel rs no_best)

  select_by : UpdatePolicy → Text → List Release → Result PolicyError Decision
  select_by p current rs =
      if not (is_nil p.pinned_tag)
      then select_pin p.pinned_tag current rs
      else if text_eq p.mode mode_legacy
      then select_legacy p.channel current rs
      else select_semver p.channel current rs

  pub select : UpdatePolicy → Text → List Release → Result PolicyError Decision
  unfolding select_by
  select p current rs = do q ← normalize p; select_by q current rs
