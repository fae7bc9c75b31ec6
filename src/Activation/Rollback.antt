-- ===== src/Activation/Rollback.antt =====
-- The operations of the package activation as steps of an entry: its lineage stays valid, its history
-- only grows, and rolling back goes down the chain of ancestors.
use mathlib.Core.List.{reverse}
use hukou.Prelude.{
  ◌<◌, pos, Text, codes, true, false, ◌≡◌, inl, inr, refl, sym, ◌∙◌, ap, subst, List, [], ◌∷◌, ◌++◌,
  some, arith, text_eq, text_eq_iff, length, to_lower, member, take, take-all, Bool-cases, Result,
  ok, err, ◌>>=◌,
}
use hukou.Manifest.{Event, Entry, Formats, known_operations}
use hukou.Manifest.History.{Refers, Binds}
use hukou.Activation.{
  ActivationError, ids, validate, validate_id, validate_timestamp, validate_new_tag_binding,
  append_current, record_upgrade, upgrade_event, record_rollback, rollback_event,
  record_restore_original, restore_event, find_target, event_at, ancestors, ancestors_from,
  ancestors_limited,
}
use hukou.Activation.Validity.{IsInput, validate_event_input_iff, validate_iff}
use hukou.Activation.Ancestry.{newest_with, Chain, stop, climb, ancestors-Chain}
use hukou.Manifest.Digests.{to_lower-valid_digest, lower_Binds, fresh_reverse}
use hukou.Activation.Appends.{new_tag-Binds, newest-Stands, append_current-IsLineage}

module _ (fm : Formats) (no_time : fm.is_rfc3339 [] ≡ false) where
  -- The id, the tag and the digest of an event that a caller names.
  named_event :
      (entry : Entry) (ev : Event)
      → validate fm entry ≡ ok tt
      → IsInput fm ev.id ev.tag ev.sha256 ev.activated_at
      → member ev.operation known_operations ≡ true
      → member ev.id (ids entry.activations) ≡ false
      → Refers ev.parent_id (reverse entry.activations)
      → Refers ev.reverts_id (reverse entry.activations)
      → Binds ev.tag ev.sha256 (reverse entry.activations)
      → validate fm (append_current entry ev) ≡ ok tt
  named_event entry ev v input known isnew parent reverted bound =
      (validate_iff fm no_time (append_current entry ev)).1 (
        append_current-IsLineage fm entry ev ((validate_iff fm no_time entry).0 v).history (record {
          well_formed = record {
            id_named = input.id_named;
            id_short = input.id_short;
            id_plain = input.id_plain;
            operation_known = known;
            tag_fit = input.tag_fit;
            digest_fit = input.digest_fit;
            time_fit = input.time_fit;
          };
          fresh = fresh_reverse ev.id entry.activations isnew;
          parent_before = parent;
          reverted_before = reverted;
          bound = bound;
        }))

  -- A digest in lower case is as good.
  lower-IsInput :
      (id tag sha at : Text) → IsInput fm id tag sha at → IsInput fm id tag (to_lower sha) at
  lower-IsInput id tag sha at i = record {
    id_named = i.id_named;
    id_short = i.id_short;
    id_plain = i.id_plain;
    tag_fit = i.tag_fit;
    digest_fit = (to_lower-valid_digest sha i.digest_fit).0;
    time_fit = i.time_fit;
  }

  -- The active event is in the history.
  active_before :
      (entry : Entry)
      → validate fm entry ≡ ok tt
      → Refers entry.active_activation_id (reverse entry.activations)
  active_before entry v =
      let k = (validate_iff fm no_time entry).0 v in rw k.newest (inr (inl k.active_id))

  pub upgrade_valid :
      (entry e' : Entry) (id tag sha at : Text)
      → record_upgrade fm entry id tag sha at ≡ ok e'
      → (validate fm entry ≡ ok tt)
        × (validate fm e' ≡ ok tt)
        × (e' ≡ append_current entry (upgrade_event entry id tag sha at))
  unfolding record_upgrade
  upgrade_valid entry e' id tag sha at r =
      let v : validate fm entry ≡ ok tt = ground arith in
      let i = (validate_event_input_iff fm no_time id tag sha at).0 (ground arith) in
      let b : validate_new_tag_binding entry.activations tag sha ≡ ok tt = ground arith in
      let f : member id (ids entry.activations) ≡ false = ground arith in
      let same : e' ≡ append_current entry (upgrade_event entry id tag sha at) = ground arith in
      (
        v,
        rw same (
            named_event entry (upgrade_event entry id tag sha at) v (lower-IsInput id tag sha at i)
              refl f (active_before entry v) (inl refl)
              (lower_Binds tag sha (reverse entry.activations) i.digest_fit (
                new_tag-Binds fm entry.activations tag sha
                  ((validate_iff fm no_time entry).0 v).history b))),
        same,
      )

  pub restore_valid :
      (entry e' : Entry) (id sha at : Text)
      → record_restore_original fm entry id sha at ≡ ok e'
      → (validate fm entry ≡ ok tt)
        × (validate fm e' ≡ ok tt)
        × (e' ≡ append_current entry (restore_event entry id sha at))
  unfolding record_restore_original
  restore_valid entry e' id sha at r =
      let v : validate fm entry ≡ ok tt = ground arith in
      let i = (validate_event_input_iff fm no_time id (codes "original") sha at).0 (ground arith) in
      let b : validate_new_tag_binding entry.activations (codes "original") sha ≡ ok tt =
        ground arith in
      let f : member id (ids entry.activations) ≡ false = ground arith in
      let same : e' ≡ append_current entry (restore_event entry id sha at) = ground arith in
      (
        v,
        rw same (
            named_event entry (restore_event entry id sha at) v
              (lower-IsInput id (codes "original") sha at i) refl f (inl refl)
              (active_before entry v)
              (lower_Binds (codes "original") sha (reverse entry.activations) i.digest_fit (
                new_tag-Binds fm entry.activations (codes "original") sha
                  ((validate_iff fm no_time entry).0 v).history b))),
        same,
      )

  -- A target that was found is an ancestor, with a chain of its own.
  pub found_target :
      (h : List Event) (id : Text) (e t : Event) (up : List Event)
      → Chain h e up
      → find_target id up ≡ ok t
      → (above below : List Event) × (key : Text) × (up ≡ above ++ (t ∷ below))
        × (t.id ≡ id)
        × (newest_with key h ≡ some t)
        × Chain h t below
  unfolding find_target
  found_target h id _ t _ (stop root) f = cc
  found_target h id _ t _ (climb {e} {p} {up} ne l c) f = elim (Bool-cases (text_eq p.id id)) [
    | inl same ↦
        let is_p : p ≡ t = found (rw same at f) in
        (
          [],
          up,
          e.parent_id,
          ap (λ x. x ∷ up) is_p,
          ap (λ x. x.id) (sym is_p) ∙ (text_eq_iff p.id id).0 same,
          l ∙ ap some is_p,
          subst (λ x. Chain h x up) is_p c,
        )
    | inr other ↦
        let (above, below, key, split, named, at', c') =
          found_target h id p t up c (rw other at f) in
        (p ∷ above, below, key, ap (λ x. p ∷ x) split, named, at', c')
  ]
    where
      found : Path (Result ActivationError Event) (ok p) (ok t) → p ≡ t
      found eq = cc

  -- The parts of a rollback that succeeded.
  pub rollback_parts :
      (entry e' : Entry) (id target at : Text)
      → record_rollback fm entry id target at ≡ ok e'
      → (t : Event) × (ups : List Event) × (validate fm entry ≡ ok tt)
        × (validate_id id ≡ ok tt)
        × (member id (ids entry.activations) ≡ false)
        × (fm.is_rfc3339 at ≡ true)
        × (ancestors fm entry (pos (length entry.activations)) ≡ ok ups)
        × (find_target target ups ≡ ok t)
        × (e' ≡ append_current entry (rollback_event entry id t at))
  unfolding record_rollback validate_timestamp
  rollback_parts entry e' id target at r =
      go
        (do
          current ← event_at entry.activations entry.active_activation_id
          ancestors_from entry.activations (length entry.activations) current)
        (unfold ancestors ancestors_limited in rw v refl) (rw (v, i, f, d) at r)
    where
      v : validate fm entry ≡ ok tt
      v = ground arith

      i : validate_id id ≡ ok tt
      i = ground arith

      f : member id (ids entry.activations) ≡ false
      f = ground arith

      d : validate_timestamp fm at ≡ ok tt
      d = ground arith

      finish : Event → Result ActivationError Entry
      finish t = ok (append_current entry (rollback_event entry id t at))

      Parts : Type 0
      Parts =
          (t : Event) × (ups : List Event) × (validate fm entry ≡ ok tt)
          × (validate_id id ≡ ok tt)
          × (member id (ids entry.activations) ≡ false)
          × (fm.is_rfc3339 at ≡ true)
          × (ancestors fm entry (pos (length entry.activations)) ≡ ok ups)
          × (find_target target ups ≡ ok t)
          × (e' ≡ append_current entry (rollback_event entry id t at))

      last_part :
          (ups : List Event)
          → ancestors fm entry (pos (length entry.activations)) ≡ ok ups
          → (q : Result ActivationError Event) → find_target target ups ≡ q
          → (q >>= finish) ≡ ok e'
          → Parts
      last_part ups a (err x) e w = cc
      last_part ups a (ok t) e w = (t, ups, v, i, f, ground arith, a, e, cc)

      go :
          (r : Result ActivationError (List Event))
          → ancestors fm entry (pos (length entry.activations)) ≡ r
          → (do found ← r; t ← find_target target found; finish t) ≡ ok e'
          → Parts
      go (err x) e w = cc
      go (ok ups) e w = last_part ups e (find_target target ups) refl w

  -- A rollback that succeeded, seen along the chain of ancestors.
  pub record RolledBack (entry e' : Entry) (id target at : Text) : Type 0 where
    pub before : validate fm entry ≡ ok tt
    pub id_fit : validate_id id ≡ ok tt
    pub id_fresh : member id (ids entry.activations) ≡ false
    pub time_fit : fm.is_rfc3339 at ≡ true
    pub event : Event
    pub above : List Event
    pub below : List Event
    pub key : Text
    pub chain : ancestors fm entry (pos (length entry.activations)) ≡ ok (above ++ (event ∷ below))
    pub named : event.id ≡ target
    pub in_history : newest_with key (reverse entry.activations) ≡ some event
    pub rest : Chain (reverse entry.activations) event below
    pub appended : e' ≡ append_current entry (rollback_event entry id event at)

  pub rolled_back :
      (entry e' : Entry) (id target at : Text)
      → record_rollback fm entry id target at ≡ ok e'
      → RolledBack entry e' id target at
  rolled_back entry e' id target at r =
      let (t, ups, v, i, f, d, a, found, same) = rollback_parts entry e' id target at r in
      let (active, up, last, chain, short, walk) = ancestors-Chain fm no_time entry v in
      let whole : ups ≡ up = ups_same ups up (sym a ∙ walk (length entry.activations)) short in
      let (above, below, key, split, named, at', c) =
        found_target (reverse entry.activations) target active t up chain
          (subst (λ l. find_target target l ≡ ok t) whole found) in
      record {
        before = v;
        id_fit = i;
        id_fresh = f;
        time_fit = d;
        event = t;
        above = above;
        below = below;
        key = key;
        chain = a ∙ ap ok (whole ∙ split);
        named = named;
        in_history = at';
        rest = c;
        appended = same;
      }
    where
      ups_same :
          (ups up : List Event)
          → Path
              (Result ActivationError (List Event))
              (ok ups)
              (ok (take (length entry.activations) up))
          → length up < length entry.activations
          → ups ≡ up
      ups_same ups up e lt =
          let whole = take-all (length entry.activations) up (omega (arith, lt)) in
          let same : ups ≡ take (length entry.activations) up = cc in same ∙ whole

  pub rollback_valid :
      (entry e' : Entry) (id target at : Text)
      → record_rollback fm entry id target at ≡ ok e'
      → validate fm e' ≡ ok tt
  unfolding validate_id member
  rollback_valid entry e' id target at r =
      let k = rolled_back entry e' id target at r in
      let s =
        newest-Stands fm (reverse entry.activations) k.key k.event
          ((validate_iff fm no_time entry).0 k.before).history k.in_history in
      let i : validate_id id ≡ ok tt = k.id_fit in
      rw k.appended (
        named_event entry (rollback_event entry id k.event at) k.before
          (record {
            id_named = ground arith;
            id_short = ground arith;
            id_plain = ground arith;
            tag_fit = s.well_formed.tag_fit;
            digest_fit = s.well_formed.digest_fit;
            time_fit = k.time_fit;
          })
          refl k.id_fresh s.parent_before (active_before entry k.before) s.bound)
