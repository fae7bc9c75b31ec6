-- ===== src/Manifest.antt =====
-- internal/manifest/manifest.go: the entries, their activation events, and their validation. A message
-- is a constructor, without the name and the index of an entry or an event that wraps it. A `Clone`
-- is the value itself, since nothing here is changed in place.
pub mod History
pub mod Lineage
pub mod Digests
pub mod Entries
pub mod Names
pub mod Updates
pub mod Preserve
pub mod Migration
pub mod Migrated
pub mod Prepared
pub mod Samples
mod Tests
use hukou.Prelude.{
  ℕ, zero, suc, ◌+◌, ℤ, pos, negsuc, is_negative, Text, codes, Bool, true, false, not, ◌&&◌, ◌||◌,
  Option, none, some, List, [], ◌∷◌, ◌++◌, ltb, leb, ◌==◌, if◌then◌else◌, is_nil, length, text_eq,
  to_lower, equal_fold, trim_space, all_hex, contains, contains_byte, split, member, lookup, Result,
  ok, err, refuse_if, ◌>>=◌, ◌>>◌,
}
use hukou.Journal.{is_clean_abs}
use hukou.Policy.{UpdatePolicy, mode_semver, mode_legacy, channel_stable, channel_prerelease}

abbrev pub current_schema_version : ℤ
current_schema_version = pos 2

abbrev pub default_rollback_depth : ℤ
default_rollback_depth = pos 2

-- ActivationEvent
pub record Event : Type 0 where
  pub id : Text
  pub parent_id : Text
  pub operation : Text
  pub tag : Text
  pub sha256 : Text
  pub activated_at : Text
  pub reverts_id : Text

pub record RetentionPolicy : Type 0 where
  pub rollback_depth : ℤ

pub record Entry : Type 0 where
  pub name : Text
  pub path : Text
  pub repo : Text
  pub tag : Text
  pub sha256 : Text
  pub upstream : Text
  pub adopted_at : Text
  pub updated_at : Text
  pub asset_name : Text
  pub asset_sha256 : Text
  pub checksum_asset : Text
  pub checksum_verified : Bool
  pub active_activation_id : Text
  pub activations : List Event
  pub update_policy : UpdatePolicy
  pub retention : Option RetentionPolicy
  pub archive_exe : Text
  pub adopted_sha256 : Text

pub record Manifest : Type 0 where
  pub schema_version : ℤ
  pub retention : RetentionPolicy
  pub entries : List Entry

-- What the standard library decides: whether `time.Parse(time.RFC3339, s)` succeeds, whether all runes
-- of a text are printable (`unicode.IsPrint`), and the hexadecimal SHA-256 digest of bytes.
pub record Formats : Type 0 where
  pub is_rfc3339 : Text → Bool
  pub is_print : Text → Bool
  pub sha256_hex : Text → Text

pub data ManifestError : Type 0 where
  not_normalized unsupported_schema negative_manifest_depth negative_entry_depth : ManifestError
  duplicate_entry_name duplicate_entry_path : Text → ManifestError
  path_not_clean invalid_sha256 invalid_adopted_sha256 invalid_adopted_at invalid_updated_at :
      ManifestError
  invalid_component : Text → Text → ManifestError
  invalid_repository control_character : ManifestError
  asset_incomplete invalid_asset_sha256 checksum_incomplete checksum_without_asset : ManifestError
  invalid_mode invalid_channel : Text → ManifestError
  no_lineage duplicate_id missing_parent reverts_missing active_mismatch : ManifestError
  invalid_id unsupported_character unsupported_operation invalid_activation_sha256 : ManifestError
  tag_rebound invalid_timestamp : ManifestError

-- `validDigest`
abbrev pub valid_digest : Text → Bool
valid_digest value = length value == 64 && all_hex value

-- The three conditions of `validateComponent`.
abbrev pub is_unsafe : Text → Bool
is_unsafe value =
    is_nil value
    || text_eq value (codes ".")
    || contains value (codes "..")
    || contains_byte b'/' value
    || contains_byte b'\\' value

unfoldable pub validate_component : Text → Text → Bool → Result ManifestError Unit
unfolding text_eq equal_fold contains contains_byte
validate_component kind value allow_original = do
  refuse_if (is_unsafe value) (invalid_component kind value)
  refuse_if (text_eq kind (codes "name") && equal_fold value (codes ".tmp"))
      (invalid_component kind value)
  refuse_if (not allow_original && equal_fold value (codes "original"))
      (invalid_component kind value)

unfoldable pub validate_activation_tag : Text → Result ManifestError Unit
unfolding validate_component text_eq
validate_activation_tag tag =
    if text_eq tag (codes "original")
    then ok tt
    else validate_component (codes "activation tag") tag false

unfoldable pub validate_archive_exe : Text → Result ManifestError Unit
unfolding validate_component
validate_archive_exe value = validate_component (codes "archive_exe") value true

-- `len(parts) != 2 || parts[0] == "" || parts[1] == ""`
is_pair : List Text → Bool
is_pair (a ∷ b ∷ []) = not (is_nil a) && not (is_nil b)
is_pair _ = false

unfoldable pub validate_repository : Formats → Text → Result ManifestError Unit
unfolding is_pair split trim_space text_eq
validate_repository fm value = if is_nil value then ok tt else do
  refuse_if (not (is_pair (split b'/' value)) || not (text_eq (trim_space value) value))
      invalid_repository
  refuse_if (not (fm.is_print value)) control_character

-- The characters of an activation id.
abbrev pub is_id_byte : ℕ → Bool
is_id_byte c =
    leb b'a' c && leb c b'z'
    || leb b'A' c && leb c b'Z'
    || leb b'0' c && leb c b'9'
    || c == b'-'
    || c == b'_'
    || c == b'.'

unfoldable pub all_id_bytes : Text → Bool
all_id_bytes [] = true
all_id_bytes (c ∷ s) = is_id_byte c && all_id_bytes s

abbrev pub known_operations : List Text
known_operations =
    codes "legacy" ∷ codes "adopt" ∷ codes "upgrade" ∷ codes "rollback" ∷ codes "repair" ∷ []

-- `bindings`: the digest, in lower case, that each tag has.
abbrev pub Bindings : Type 0
Bindings = List (Text × Text)

-- `boundSHA, exists := bindings[tag]; exists && boundSHA != sha`
abbrev pub is_rebound : Option Text → Text → Bool
is_rebound none sha = false
is_rebound (some bound) sha = not (text_eq bound sha)

-- The map is changed in place: the new one is returned.
unfoldable pub validate_decoded_activation :
    Formats → Event → Bindings → Result ManifestError Bindings
unfolding text_eq all_id_bytes member validate_activation_tag lookup
validate_decoded_activation fm event bindings = do
  refuse_if (is_nil event.id || ltb 128 (length event.id)) invalid_id
  refuse_if (not (all_id_bytes event.id)) unsupported_character
  refuse_if (not (member event.operation known_operations)) unsupported_operation
  validate_activation_tag event.tag
  refuse_if (not (length event.sha256 == 64)) invalid_activation_sha256
  refuse_if (not (all_hex event.sha256)) invalid_activation_sha256
  refuse_if (is_rebound (lookup event.tag bindings) (to_lower event.sha256)) tag_rebound
  refuse_if (not (fm.is_rfc3339 event.activated_at)) invalid_timestamp
  ok ((event.tag, to_lower event.sha256) ∷ bindings)

-- The loop of `validateEntryLineage`, with the ids seen and the bindings.
unfoldable pub validate_events :
    Formats → List Text → Bindings → List Event → Result ManifestError Unit
unfolding validate_decoded_activation member
validate_events fm seen bindings [] = ok tt
validate_events fm seen bindings (event ∷ events) = do
  bindings' ← validate_decoded_activation fm event bindings
  refuse_if (member event.id seen) duplicate_id
  refuse_if (not (is_nil event.parent_id) && not (member event.parent_id seen)) missing_parent
  refuse_if (not (is_nil event.reverts_id) && not (member event.reverts_id seen)) reverts_missing
  validate_events fm (event.id ∷ seen) bindings' events

-- `entry.Activations[len(entry.Activations)-1]`
unfoldable pub last_event : List Event → Option Event
last_event [] = none
last_event (event ∷ events) = elim (last_event events) [ none ↦ some event | some last ↦ some last ]

-- The last event is the active one, and stands for the current tag and digest.
unfoldable pub is_active : Entry → Option Event → Bool
unfolding text_eq to_lower
is_active entry none = false
is_active entry (some active) =
    text_eq active.id entry.active_activation_id
    && text_eq active.tag entry.tag
    && text_eq (to_lower active.sha256) (to_lower entry.sha256)

unfoldable pub validate_entry_lineage : Formats → Entry → Result ManifestError Unit
unfolding validate_events last_event is_active
validate_entry_lineage fm entry = do
  refuse_if (is_nil entry.activations || is_nil entry.active_activation_id) no_lineage
  validate_events fm [] [] entry.activations
  refuse_if (not (is_active entry (last_event entry.activations))) active_mismatch

abbrev pub negative_depth : Option RetentionPolicy → Bool
negative_depth none = false
negative_depth (some r) = is_negative r.rollback_depth

-- A text that is present satisfies the check.
abbrev pub if_present : Text → Result ManifestError Unit → Result ManifestError Unit
if_present value check = if is_nil value then ok tt else check

-- `(a == "") != (b == "")`
abbrev pub differ : Bool → Bool → Bool
differ true b = not b
differ false b = b

-- The checks of `validateEntry` on the update policy and the retention.
unfoldable pub validate_policy : Entry → Result ManifestError Unit
unfolding validate_component text_eq
validate_policy entry = do
  refuse_if
      (not (text_eq entry.update_policy.mode mode_semver)
        && not (text_eq entry.update_policy.mode mode_legacy))
      (invalid_mode entry.update_policy.mode)
  refuse_if
      (not (text_eq entry.update_policy.channel channel_stable)
        && not (text_eq entry.update_policy.channel channel_prerelease))
      (invalid_channel entry.update_policy.channel)
  if_present entry.update_policy.pinned_tag
      (validate_component (codes "pinned tag") entry.update_policy.pinned_tag false)
  refuse_if (negative_depth entry.retention) negative_entry_depth

-- The checks of `validateEntry` on what an entry is, up to its timestamps.
unfoldable pub validate_identity : Formats → Entry → Result ManifestError Unit
unfolding validate_component is_clean_abs validate_activation_tag validate_repository
    validate_archive_exe
validate_identity fm entry = do
  validate_component (codes "name") entry.name false
  refuse_if (not (is_clean_abs entry.path)) path_not_clean
  validate_activation_tag entry.tag
  refuse_if (not (valid_digest entry.sha256)) invalid_sha256
  validate_repository fm entry.repo
  if_present entry.archive_exe (validate_archive_exe entry.archive_exe)
  refuse_if (not (is_nil entry.adopted_sha256) && not (valid_digest entry.adopted_sha256))
      invalid_adopted_sha256
  refuse_if (not (fm.is_rfc3339 entry.adopted_at)) invalid_adopted_at
  refuse_if (not (fm.is_rfc3339 entry.updated_at)) invalid_updated_at

-- The checks of `validateEntry` on the asset that was downloaded.
unfoldable pub validate_asset : Entry → Result ManifestError Unit
validate_asset entry = do
  refuse_if (differ (is_nil entry.asset_name) (is_nil entry.asset_sha256)) asset_incomplete
  refuse_if (not (is_nil entry.asset_sha256) && not (valid_digest entry.asset_sha256))
      invalid_asset_sha256
  refuse_if
      (entry.checksum_verified
        && (is_nil entry.asset_name || is_nil entry.asset_sha256 || is_nil entry.checksum_asset))
      checksum_incomplete
  refuse_if (not (is_nil entry.checksum_asset) && is_nil entry.asset_name) checksum_without_asset

-- The checks of `validateEntry` before that of the lineage.
unfoldable pub validate_fields : Formats → Entry → Result ManifestError Unit
unfolding validate_identity validate_asset validate_policy
validate_fields fm entry = do
  validate_identity fm entry
  validate_asset entry
  validate_policy entry

unfoldable pub validate_entry : Formats → Entry → Result ManifestError Unit
unfolding validate_fields validate_entry_lineage
validate_entry fm entry = do validate_fields fm entry; validate_entry_lineage fm entry

-- The loop of `Validate`. A path that passed `validateEntry` is clean, so `filepath.Clean` is the path.
unfoldable pub validate_entries :
    Formats → List Text → List Text → List Entry → Result ManifestError Unit
unfolding validate_entry member
validate_entries fm names paths [] = ok tt
validate_entries fm names paths (entry ∷ entries) = do
  validate_entry fm entry
  refuse_if (member entry.name names) (duplicate_entry_name entry.name)
  refuse_if (member entry.path paths) (duplicate_entry_path entry.path)
  validate_entries fm (entry.name ∷ names) (entry.path ∷ paths) entries

abbrev pub is_current : ℤ → Bool
is_current (pos n) = n == 2
is_current (negsuc n) = false

unfoldable pub validate : Formats → Manifest → Result ManifestError Unit
unfolding validate_entries
validate fm m = do
  refuse_if (not (is_current m.schema_version)) not_normalized
  refuse_if (is_negative m.retention.rollback_depth) negative_manifest_depth
  validate_entries fm [] [] m.entries
