-- ===== src/Activation.antt =====
-- internal/activation/activation.go: the lineage of the versions that were activated for an entry. An
-- operation returns the changed entry; on an error the entry is as it was, since each one checks all
-- before it writes. `Formats` gives the parser of timestamps.
pub mod Validity
pub mod Ancestry
pub mod Appends
pub mod Rollback
pub mod Descent
pub mod Steps
pub mod Undo
mod Tests
use hukou.Prelude.{
  ℕ, zero, suc, ℤ, pos, negsuc, Text, codes, Bool, true, false, not, ◌&&◌, ◌||◌, Option, none, some,
  List, [], ◌∷◌, ◌++◌, ltb, ◌==◌, if◌then◌else◌, is_nil, length, map, text_eq, to_lower, all_hex,
  member, lookup, Result, ok, err, refuse_if, is_ok, ◌>>=◌, ◌>>◌,
}
use hukou.Policy.{UpdatePolicy, mode_semver, channel_stable}
use hukou.Manifest.{
  Event, Entry, Formats, Bindings, is_rebound, all_id_bytes, known_operations, last_event,
  is_active,
}
use hukou.Manifest

pub data ActivationError : Type 0 where
  empty_id long_id id_character invalid_tag invalid_sha256 empty_timestamp invalid_timestamp :
      ActivationError
  not_empty id_exists tag_rebound empty_lineage empty_active unsupported_operation duplicate_id :
      ActivationError
  missing_parent reverts_missing active_missing active_not_latest active_mismatch : ActivationError
  no_previous_activation empty_tag not_ancestor negative_limit out_of_range : ActivationError

unfoldable pub validate_id : Text → Result ActivationError Unit
unfolding all_id_bytes
validate_id id = do
  refuse_if (is_nil id) empty_id
  refuse_if (ltb 128 (length id)) long_id
  refuse_if (not (all_id_bytes id)) id_character

unfoldable pub validate_timestamp : Formats → Text → Result ActivationError Unit
validate_timestamp fm value = do
  refuse_if (is_nil value) empty_timestamp
  refuse_if (not (fm.is_rfc3339 value)) invalid_timestamp

-- `validSHA256`
abbrev pub valid_sha256 : Text → Bool
valid_sha256 value = length value == 64 && all_hex value

-- `manifest.ValidateActivationTag` succeeds.
pub tag_ok : Text → Bool
unfolding Manifest.validate_activation_tag
tag_ok tag = is_ok (Manifest.validate_activation_tag tag)

unfoldable pub validate_event_input :
    Formats → Text → Text → Text → Text → Result ActivationError Unit
unfolding validate_id validate_timestamp tag_ok
validate_event_input fm id tag sha256 at = do
  validate_id id
  refuse_if (not (tag_ok tag)) invalid_tag
  refuse_if (not (valid_sha256 sha256)) invalid_sha256
  validate_timestamp fm at

-- The map is changed in place: the new one is returned.
unfoldable pub bind_tag_sha : Bindings → Text → Text → Result ActivationError Bindings
unfolding lookup text_eq to_lower
bind_tag_sha bindings tag sha256 = do
  refuse_if (is_rebound (lookup tag bindings) (to_lower sha256)) tag_rebound
  ok ((tag, to_lower sha256) ∷ bindings)

unfoldable pub bind_all : Bindings → List Event → Result ActivationError Bindings
unfolding bind_tag_sha
bind_all bindings [] = ok bindings
bind_all bindings (event ∷ events) = do
  bindings' ← bind_tag_sha bindings event.tag event.sha256
  bind_all bindings' events

unfoldable pub validate_new_tag_binding : List Event → Text → Text → Result ActivationError Unit
unfolding bind_all
validate_new_tag_binding events tag sha256 = do
  bindings ← bind_all [] events
  bindings' ← bind_tag_sha bindings tag sha256
  ok tt

-- The loop of `Validate`, with the ids and the bindings of the events before.
unfoldable pub check_events :
    Formats → List Text → Bindings → List Event → Result ActivationError Unit
unfolding validate_event_input bind_tag_sha member
check_events fm index bindings [] = ok tt
check_events fm index bindings (event ∷ events) = do
  validate_event_input fm event.id event.tag event.sha256 event.activated_at
  bindings' ← bind_tag_sha bindings event.tag event.sha256
  refuse_if (not (member event.operation known_operations)) unsupported_operation
  refuse_if (member event.id index) duplicate_id
  refuse_if (not (is_nil event.parent_id) && not (member event.parent_id index)) missing_parent
  refuse_if (not (is_nil event.reverts_id) && not (member event.reverts_id index)) reverts_missing
  check_events fm (event.id ∷ index) bindings' events

abbrev pub ids : List Event → List Text
ids = map (λ event. event.id)

-- The event that stands last; `active` is the id that must be its own.
check_active : Entry → Option Event → Result ActivationError Unit
unfolding text_eq to_lower
check_active entry none = err active_missing
check_active entry (some last) = do
  refuse_if (not (text_eq last.id entry.active_activation_id)) active_not_latest
  refuse_if
      (not (text_eq last.tag entry.tag && text_eq (to_lower last.sha256) (to_lower entry.sha256)))
      active_mismatch

unfoldable pub validate : Formats → Entry → Result ActivationError Unit
unfolding check_events check_active last_event member
validate fm entry = do
  refuse_if (is_nil entry.activations) empty_lineage
  refuse_if (is_nil entry.active_activation_id) empty_active
  check_events fm [] [] entry.activations
  refuse_if (not (member entry.active_activation_id (ids entry.activations))) active_missing
  check_active entry (last_event entry.activations)

-- An event under its id, which a later one replaces.
pub or_this : Option Event → Bool → Event → Option Event
or_this (some later) same event = some later
or_this none same event = if same then some event else none

unfoldable pub find_event : Text → List Event → Option Event
unfolding text_eq or_this
find_event id [] = none
find_event id (event ∷ events) = or_this (find_event id events) (text_eq id event.id) event

-- `entry.Activations[index[id]]`: an id that is not there has the index 0.
pub or_first : Option Event → Event → Event
or_first (some e) first = e
or_first none first = first

unfoldable pub event_at : List Event → Text → Result ActivationError Event
unfolding find_event or_first
event_at [] id = err out_of_range
event_at (event ∷ events) id = ok (or_first (find_event id (event ∷ events)) event)

unfoldable pub append_current : Entry → Event → Entry
append_current entry event = record entry {
  activations = entry.activations ++ (event ∷ []);
  active_activation_id = event.id;
  tag = event.tag;
  sha256 = event.sha256;
  updated_at = event.activated_at;
}

abbrev pub adopt_event : Entry → Text → Text → Event
adopt_event entry id at = record {
  id = id;
  parent_id = [];
  operation = codes "adopt";
  tag = entry.tag;
  sha256 = to_lower entry.sha256;
  activated_at = at;
  reverts_id = [];
}

-- The entry that an adoption leaves.
abbrev pub adopted : Entry → Text → Text → Entry
adopted entry id at = record entry {
  sha256 = to_lower entry.sha256;
  active_activation_id = id;
  activations = adopt_event entry id at ∷ [];
  adopted_at = if is_nil entry.adopted_at then at else entry.adopted_at;
  updated_at = at;
  update_policy =
      if is_nil entry.update_policy.mode
      then record { mode = mode_semver; channel = channel_stable; pinned_tag = [] }
      else entry.update_policy;
}

unfoldable pub record_adopt : Formats → Entry → Text → Text → Result ActivationError Entry
unfolding validate_event_input to_lower
record_adopt fm entry id at = do
  refuse_if (not (is_nil entry.active_activation_id) || not (is_nil entry.activations)) not_empty
  validate_event_input fm id entry.tag entry.sha256 at
  ok (adopted entry id at)

abbrev pub upgrade_event : Entry → Text → Text → Text → Text → Event
upgrade_event entry id tag sha256 at = record {
  id = id;
  parent_id = entry.active_activation_id;
  operation = codes "upgrade";
  tag = tag;
  sha256 = to_lower sha256;
  activated_at = at;
  reverts_id = [];
}

unfoldable pub record_upgrade :
    Formats → Entry → Text → Text → Text → Text → Result ActivationError Entry
unfolding validate validate_event_input validate_new_tag_binding member append_current to_lower
record_upgrade fm entry id tag sha256 at = do
  validate fm entry
  validate_event_input fm id tag sha256 at
  validate_new_tag_binding entry.activations tag sha256
  refuse_if (member id (ids entry.activations)) id_exists
  ok (append_current entry (upgrade_event entry id tag sha256 at))

unfoldable pub previous : Formats → Entry → Result ActivationError Event
unfolding validate event_at
previous fm entry = do
  validate fm entry
  current ← event_at entry.activations entry.active_activation_id
  refuse_if (is_nil current.parent_id) no_previous_activation
  event_at entry.activations current.parent_id

-- The loop of `Ancestors`, of at most `limit` rounds.
unfoldable pub ancestors_from : List Event → ℕ → Event → Result ActivationError (List Event)
unfolding event_at
ancestors_from events zero current = ok []
ancestors_from events (suc limit) current = if is_nil current.parent_id then ok [] else do
  parent ← event_at events current.parent_id
  rest ← ancestors_from events limit parent
  ok (parent ∷ rest)

ancestors_limited : Formats → Entry → ℕ → Result ActivationError (List Event)
unfolding validate event_at ancestors_from
ancestors_limited fm entry limit = do
  validate fm entry
  current ← event_at entry.activations entry.active_activation_id
  ancestors_from entry.activations limit current

unfoldable pub ancestors : Formats → Entry → ℤ → Result ActivationError (List Event)
unfolding ancestors_limited
ancestors fm entry (negsuc n) = err negative_limit
ancestors fm entry (pos limit) = ancestors_limited fm entry limit

find_tag : Text → List Event → Result ActivationError Event
unfolding text_eq
find_tag tag [] = err not_ancestor
find_tag tag (event ∷ events) = if text_eq event.tag tag then ok event else find_tag tag events

unfoldable pub find_ancestor_by_tag : Formats → Entry → Text → Result ActivationError Event
unfolding ancestors find_tag
find_ancestor_by_tag fm entry tag = do
  refuse_if (is_nil tag) empty_tag
  found ← ancestors fm entry (pos (length entry.activations))
  find_tag tag found

unfoldable pub find_target : Text → List Event → Result ActivationError Event
unfolding text_eq
find_target id [] = err not_ancestor
find_target id (event ∷ events) = if text_eq event.id id then ok event else find_target id events

abbrev pub rollback_event : Entry → Text → Event → Text → Event
rollback_event entry id target at = record {
  id = id;
  parent_id = target.parent_id;
  operation = codes "rollback";
  tag = target.tag;
  sha256 = target.sha256;
  activated_at = at;
  reverts_id = entry.active_activation_id;
}

unfoldable pub record_rollback : Formats → Entry → Text → Text → Text → Result ActivationError Entry
unfolding validate validate_id member validate_timestamp ancestors find_target append_current
record_rollback fm entry id target_id at = do
  validate fm entry
  validate_id id
  refuse_if (member id (ids entry.activations)) id_exists
  validate_timestamp fm at
  found ← ancestors fm entry (pos (length entry.activations))
  target ← find_target target_id found
  ok (append_current entry (rollback_event entry id target at))

abbrev pub restore_event : Entry → Text → Text → Text → Event
restore_event entry id sha256 at = record {
  id = id;
  parent_id = [];
  operation = codes "rollback";
  tag = codes "original";
  sha256 = to_lower sha256;
  activated_at = at;
  reverts_id = entry.active_activation_id;
}

unfoldable pub record_restore_original :
    Formats → Entry → Text → Text → Text → Result ActivationError Entry
unfolding validate validate_event_input validate_new_tag_binding member append_current to_lower
record_restore_original fm entry id sha256 at = do
  validate fm entry
  validate_event_input fm id (codes "original") sha256 at
  validate_new_tag_binding entry.activations (codes "original") sha256
  refuse_if (member id (ids entry.activations)) id_exists
  ok (append_current entry (restore_event entry id sha256 at))
