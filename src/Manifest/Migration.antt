-- ===== src/Manifest/Migration.antt =====
-- internal/manifest/manifest.go: `Normalize` with the migration of the schemas 0 and 1, `PrepareEntry`, and
-- `validateDecodedV2`. The entry that is changed in place is returned. `EqualFold` compares digests here.
use hukou.Prelude.{
  ◌==◌, pos, negsuc, is_negative, Text, codes, Bool, not, ◌&&◌, ◌||◌, Option, none, some, List, [],
  ◌∷◌, ◌++◌, map, ltb, if◌then◌else◌, is_nil, text_eq, to_lower, Result, ok, err, refuse_if, ◌>>=◌,
  ◌>>◌,
}
use hukou.Policy.{mode_semver, mode_legacy, channel_stable, channel_prerelease}
use hukou.Manifest
use hukou.Manifest.{
  Event, RetentionPolicy, Entry, Manifest, Formats, ManifestError, unsupported_schema,
  negative_manifest_depth, negative_entry_depth, invalid_mode, invalid_channel,
  current_schema_version, default_rollback_depth, negative_depth, validate_entry_lineage,
  is_current,
}

abbrev pub default_retention_policy : RetentionPolicy
default_retention_policy = record { rollback_depth = default_rollback_depth }

-- strings.Join(parts, "\x00")
unfoldable pub joined : List Text → Text
joined [] = []
joined (part ∷ []) = part
joined (part ∷ (next ∷ parts)) = part ++ (0 ∷ joined (next ∷ parts))

abbrev pub legacy_id : Formats → List Text → Text
legacy_id fm parts = codes "legacy-" ++ fm.sha256_hex (joined parts)

unfoldable pub legacy_activation : Formats → Entry → Event
unfolding joined
legacy_activation fm entry = record {
  id = legacy_id fm (
      codes "hukou-manifest-v1-activation"
      ∷ entry.name
      ∷ entry.path
      ∷ entry.repo
      ∷ entry.tag
      ∷ entry.sha256
      ∷ entry.adopted_at
      ∷ entry.updated_at
      ∷ []);
  parent_id = [];
  operation = codes "legacy";
  tag = entry.tag;
  sha256 = entry.sha256;
  activated_at = if is_nil entry.updated_at then entry.adopted_at else entry.updated_at;
  reverts_id = [];
}

unfoldable pub legacy_transition : Formats → Entry → Text → Event
unfolding joined to_lower
legacy_transition fm entry parent_id = record {
  id = legacy_id fm (
      codes "hukou-schema-v2-compat-activation"
      ∷ entry.name
      ∷ parent_id
      ∷ entry.tag
      ∷ entry.sha256
      ∷ entry.updated_at
      ∷ []);
  parent_id = parent_id;
  operation = codes "legacy";
  tag = entry.tag;
  sha256 = to_lower entry.sha256;
  activated_at = entry.updated_at;
  reverts_id = [];
}

-- The body of the loop of `migrateV1`.
unfoldable pub migrate_entry : Formats → Entry → Entry
unfolding legacy_activation
migrate_entry fm entry =
    let event = legacy_activation fm entry in
    record entry {
      update_policy = record { mode = mode_legacy; channel = channel_stable; pinned_tag = [] };
      retention = none;
      active_activation_id = event.id;
      activations = event ∷ [];
    }

unfoldable pub migrate_v1 : Formats → Manifest → Manifest
unfolding migrate_entry
migrate_v1 fm m = record {
  schema_version = current_schema_version;
  retention = default_retention_policy;
  entries = map (migrate_entry fm) m.entries;
}

-- The switch of `Normalize`; a manifest of the current schema stays as it is.
unfoldable pub normalize : Formats → Manifest → Result ManifestError Manifest
unfolding migrate_v1
normalize fm m =
    let migrated = migrate_v1 fm m in
    elim m.schema_version [
      | pos n ↦ if ltb 2 n then err unsupported_schema else if n == 2 then ok m else ok migrated
      | negsuc n ↦ err unsupported_schema
    ]

-- The policy that an entry without one gets.
abbrev pub or_default : Text → Text → Text
or_default value default = if is_nil value then default else value

-- The first event with the active id.
unfoldable pub find_active : Text → List Event → Option Event
unfolding text_eq
find_active id [] = none
find_active id (event ∷ events) = if text_eq event.id id then some event else find_active id events

abbrev pub same_version : Event → Entry → Bool
same_version event entry =
    text_eq event.tag entry.tag && text_eq (to_lower event.sha256) (to_lower entry.sha256)

-- The loop of `PrepareEntry`, at the first event with the active id.
unfoldable pub prepare_active : Formats → Entry → Option Event → Entry
unfolding legacy_transition text_eq to_lower
prepare_active fm prepared none = prepared
prepare_active fm prepared (some event) =
    let transition = legacy_transition fm prepared event.id in
    if same_version event prepared then prepared else record prepared {
      activations = prepared.activations ++ (transition ∷ []);
      active_activation_id = transition.id;
    }

abbrev pub with_policy : Entry → Entry
with_policy entry = record entry {
  update_policy = record entry.update_policy {
    mode = or_default entry.update_policy.mode mode_semver;
    channel = or_default entry.update_policy.channel channel_stable;
  };
}

unfoldable pub prepare_entry : Formats → Entry → Entry
unfolding legacy_activation prepare_active find_active
prepare_entry fm entry =
    let prepared = with_policy entry in
    let event = legacy_activation fm prepared in
    if is_nil prepared.tag || is_nil prepared.sha256
    then prepared
    else if is_nil prepared.activations && is_nil prepared.active_activation_id
    then record prepared { activations = event ∷ []; active_activation_id = event.id }
    else prepare_active fm prepared (find_active prepared.active_activation_id prepared.activations)

unfoldable pub check_decoded : Formats → List Entry → Result ManifestError Unit
unfolding validate_entry_lineage text_eq
check_decoded fm [] = ok tt
check_decoded fm (entry ∷ entries) = do
  refuse_if
      (not (text_eq entry.update_policy.mode mode_semver)
        && not (text_eq entry.update_policy.mode mode_legacy))
      (invalid_mode entry.update_policy.mode)
  refuse_if
      (not (text_eq entry.update_policy.channel channel_stable)
        && not (text_eq entry.update_policy.channel channel_prerelease))
      (invalid_channel entry.update_policy.channel)
  refuse_if (negative_depth entry.retention) negative_entry_depth
  validate_entry_lineage fm entry
  check_decoded fm entries

-- `validateDecodedV2`; its checks of the events are those of `validateEntryLineage`, in the same order.
unfoldable pub validate_decoded_v2 : Formats → Manifest → Result ManifestError Unit
unfolding check_decoded
validate_decoded_v2 fm m = do
  refuse_if (is_negative m.retention.rollback_depth) negative_manifest_depth
  check_decoded fm m.entries

-- The steps of `Decode` after the JSON is read.
unfoldable pub decode_checks : Formats → Manifest → Result ManifestError Manifest
unfolding validate_decoded_v2 normalize Manifest.validate
decode_checks fm m = do
  (if is_current m.schema_version then validate_decoded_v2 fm m else ok tt)
  m' ← normalize fm m
  Manifest.validate fm m'
  ok m'
