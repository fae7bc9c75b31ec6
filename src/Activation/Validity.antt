-- ===== src/Activation/Validity.antt =====
-- `Validate` of the package activation accepts the lineages that the manifest accepts.
use mathlib.Core.List.{reverse, reverse_aux}
use hukou.Prelude.{
  ◌≤◌, Text, true, false, not, ◌&&◌, ◌≡◌, ◌≢◌, ◌↔◌, refl, subst, List, [], ◌∷◌, ◌++◌, some, arith,
  text_eq_iff, text_eq_refl, is_nil, length, to_lower, member, lookup, is_ok_iff, ok,
}
use hukou.Manifest.{
  Event, Entry, Formats, is_rebound, all_id_bytes, known_operations, last_event,
  validate_entry_lineage, validate_activation_tag, valid_digest,
}
use hukou.Manifest.History.{
  IsTag, IsEvent, Extends, History, IsLineage, bindings_of, ids_of, fresh-ids_of,
  is_rebound-bindings_of, Refers-iff,
}
use hukou.Manifest.Lineage.{
  History-tail, last_event-reverse, newest_last, newest_of, filled, active_named,
  validate_entry_lineage_iff,
}
use hukou.Activation.{
  validate_id, validate_timestamp, tag_ok, validate_event_input, bind_tag_sha, check_events,
  check_active, ids, validate,
}

tag_ok_iff : (tag : Text) → (tag_ok tag ≡ true) ↔ IsTag tag
unfolding tag_ok
tag_ok_iff tag = is_ok_iff (validate_activation_tag tag)

member-last :
    (xs : List Event) (a : Event) (id : Text) → a.id ≡ id → member id (ids (xs ++ (a ∷ []))) ≡ true
unfolding member
member-last [] a id e = rw (e, text_eq_refl id) refl
member-last (x ∷ xs) a id e = rw (member-last xs a id e) (ground arith)

-- What an event's data must be.
pub record IsInput (fm : Formats) (id tag sha256 at : Text) : Type 0 where
  pub id_named : id ≢ []
  pub id_short : length id ≤ 128
  pub id_plain : all_id_bytes id ≡ true
  pub tag_fit : IsTag tag
  pub digest_fit : valid_digest sha256 ≡ true
  pub time_fit : fm.is_rfc3339 at ≡ true

module _ (fm : Formats) (no_time : fm.is_rfc3339 [] ≡ false) where
  pub validate_event_input_iff :
      (id tag sha256 at : Text)
      → (validate_event_input fm id tag sha256 at ≡ ok tt) ↔ IsInput fm id tag sha256 at
  unfolding validate_event_input validate_id validate_timestamp
  validate_event_input_iff id tag sha256 at = (
    λ h. record {
      id_named = ground arith;
      id_short = ground arith;
      id_plain = ground arith;
      tag_fit = (tag_ok_iff tag).0 (ground arith);
      digest_fit = ground arith;
      time_fit = ground arith;
    },
    λ v.
        let tag_fit = (tag_ok_iff tag).1 v.tag_fit in
        let dated = not_empty at v.time_fit in
        ground (arith, v.id_named, v.id_short, v.id_plain, v.digest_fit, v.time_fit),
  )
    where
      not_empty : (at : Text) → fm.is_rfc3339 at ≡ true → is_nil at ≡ false
      not_empty [] e = cc
      not_empty (c ∷ at) e = refl

  -- One round of the loop.
  module _ (e : Event) (es rest : List Event) (h : History fm es) where
    abbrev Next : Type 0
    Next = check_events fm (ids_of (e ∷ es)) (bindings_of (e ∷ es)) rest ≡ ok tt

    round-ok :
        check_events fm (ids_of es) (bindings_of es) (e ∷ rest) ≡ ok tt → Extends fm e es × Next
    unfolding check_events bind_tag_sha
    round-ok c =
        let input =
          (validate_event_input_iff e.id e.tag e.sha256 e.activated_at).0 (ground arith) in
        let bound : is_rebound (lookup e.tag (bindings_of es)) (to_lower e.sha256) ≡ false =
          ground arith in
        let known : member e.operation known_operations ≡ true = ground arith in
        let isnew : member e.id (ids_of es) ≡ false = ground arith in
        let parent : (not (is_nil e.parent_id) && not (member e.parent_id (ids_of es))) ≡ false =
          ground arith in
        let reverted : (not (is_nil e.reverts_id) && not (member e.reverts_id (ids_of es)))
            ≡ false =
          ground arith in
        (
          record {
            well_formed = record {
              id_named = input.id_named;
              id_short = input.id_short;
              id_plain = input.id_plain;
              operation_known = known;
              tag_fit = input.tag_fit;
              digest_fit = input.digest_fit;
              time_fit = input.time_fit;
            };
            fresh = (fresh-ids_of e.id es).0 isnew;
            parent_before = (Refers-iff e.parent_id es).0 parent;
            reverted_before = (Refers-iff e.reverts_id es).0 reverted;
            bound = (is_rebound-bindings_of fm e.tag e.sha256 es h).0 bound;
          },
          ground arith,
        )

    IsInput-of : IsEvent fm e → IsInput fm e.id e.tag e.sha256 e.activated_at
    IsInput-of v = record {
      id_named = v.id_named;
      id_short = v.id_short;
      id_plain = v.id_plain;
      tag_fit = v.tag_fit;
      digest_fit = v.digest_fit;
      time_fit = v.time_fit;
    }

    ok-round :
        Extends fm e es → Next → check_events fm (ids_of es) (bindings_of es) (e ∷ rest) ≡ ok tt
    unfolding check_events bind_tag_sha
    ok-round x next =
        rw
          (
            (validate_event_input_iff e.id e.tag e.sha256 e.activated_at).1
                (IsInput-of x.well_formed),
            (is_rebound-bindings_of fm e.tag e.sha256 es h).1 x.bound,
            x.well_formed.operation_known,
            (fresh-ids_of e.id es).1 x.fresh,
            (Refers-iff e.parent_id es).1 x.parent_before,
            (Refers-iff e.reverts_id es).1 x.reverted_before,
          )
          next

  check_events-History :
      (rest es : List Event)
      → History fm es
      → check_events fm (ids_of es) (bindings_of es) rest ≡ ok tt
      → History fm (reverse_aux rest es)
  check_events-History [] es h v = h
  check_events-History (e ∷ rest) es h v =
      let (x, v') = round-ok e es rest h v in check_events-History rest (e ∷ es) (x, h) v'

  History-check_events :
      (rest es : List Event)
      → History fm (reverse_aux rest es)
      → check_events fm (ids_of es) (bindings_of es) rest ≡ ok tt
  History-check_events [] es h = unfold check_events in refl
  History-check_events (e ∷ rest) es h =
      let (x, k) = History-tail fm rest (e ∷ es) h in
      ok-round e es rest k x (History-check_events rest (e ∷ es) h)

  -- `Validate` accepts an entry exactly where it has a lineage.
  pub validate_iff : (entry : Entry) → (validate fm entry ≡ ok tt) ↔ IsLineage fm entry
  unfolding validate
  validate_iff entry = (
    λ v.
        let (a, rest, e, l) = newest_of entry.activations (ground arith) in
        let events : check_events fm [] [] entry.activations ≡ ok tt = ground arith in
        let active : check_active entry (last_event entry.activations) ≡ ok tt = ground arith in
        let (i, t, d) = active_parts a (subst (λ o. check_active entry o ≡ ok tt) l active) in
        record {
          history = check_events-History entry.activations [] tt events;
          active = a;
          earlier = rest;
          newest = e;
          active_id = i;
          active_tag = t;
          active_digest = d;
        },
    λ v.
        let (x, _) : History fm (v.active ∷ v.earlier) = subst (History fm) v.newest v.history in
        let l = last_event-reverse entry.activations v.active v.earlier v.newest in
        rw
          (
            filled entry.activations v.active v.earlier v.newest,
            active_named fm v.active entry.active_activation_id x.well_formed v.active_id,
            History-check_events entry.activations [] v.history,
            there v.active v.earlier v.newest v.active_id,
            l,
            parts_active v.active v.active_id v.active_tag v.active_digest,
          )
          refl,
  )
    where
      active_parts :
          (a : Event)
          → check_active entry (some a) ≡ ok tt
          → (a.id ≡ entry.active_activation_id)
            × (a.tag ≡ entry.tag)
            × (to_lower a.sha256 ≡ to_lower entry.sha256)
      active_parts a h =
          unfold check_active in
          ground (
            arith,
            text_eq_iff a.id entry.active_activation_id,
            text_eq_iff a.tag entry.tag,
            text_eq_iff (to_lower a.sha256) (to_lower entry.sha256),
          )

      parts_active :
          (a : Event)
          → a.id ≡ entry.active_activation_id
          → a.tag ≡ entry.tag
          → to_lower a.sha256 ≡ to_lower entry.sha256
          → check_active entry (some a) ≡ ok tt
      parts_active a i t d =
          unfold check_active in
          rw
            (
              i,
              t,
              d,
              text_eq_refl entry.active_activation_id,
              text_eq_refl entry.tag,
              text_eq_refl (to_lower entry.sha256),
            )
            refl

      there :
          (a : Event) (rest : List Event)
          → reverse entry.activations ≡ a ∷ rest
          → a.id ≡ entry.active_activation_id
          → member entry.active_activation_id (ids entry.activations) ≡ true
      there a rest e i =
          rw (newest_last entry.activations a rest e)
            (member-last (reverse rest) a entry.active_activation_id i)

  -- The two validators of a lineage, that of the manifest and that of the package activation, accept the
  -- same entries. An empty text is no timestamp.
  pub validators_agree :
      (entry : Entry) → (validate fm entry ≡ ok tt) ↔ (validate_entry_lineage fm entry ≡ ok tt)
  validators_agree entry = (
    λ v. (validate_entry_lineage_iff fm entry).1 ((validate_iff entry).0 v),
    λ v. (validate_iff entry).1 ((validate_entry_lineage_iff fm entry).0 v),
  )
