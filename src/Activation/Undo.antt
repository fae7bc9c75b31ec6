-- ===== src/Activation/Undo.antt =====
-- Going back from an upgrade: `Previous`, and the rollback to the version before it.
use mathlib.Core.List.{reverse, reverse-append}
use hukou.Prelude.{
  ℕ, zero, suc, ◌<◌, pos, Text, true, false, ◌≡◌, refl, sym, ◌∙◌, ap, subst, List, [], ◌∷◌, some,
  arith, is_nil, length, member, take, text_eq_iff, text_eq_refl, to_lower, ok,
}
use hukou.Manifest.{Event, Entry, Formats}
use hukou.Manifest.History.{History}
use hukou.Activation.{
  ids, validate, validate_id, validate_timestamp, append_current, record_upgrade, upgrade_event,
  record_rollback, rollback_event, find_target, ancestors, previous,
}
use hukou.Activation.Validity.{validate_iff}
use hukou.Activation.Ancestry.{
  newest_with, newest_with-fresh, active-Climbs, Chain, climb, Chain-fresh, ancestors_of_newest,
  ancestors-Chain, previous-ancestors,
}
use hukou.Manifest.Digests.{fresh_reverse}
use hukou.Activation.Rollback.{rollback_valid, upgrade_valid}
use hukou.Activation.Descent.{Chain-same_parent}

module _ (fm : Formats) (no_time : fm.is_rfc3339 [] ≡ false) where
  record_rollback-ok :
      (entry : Entry) (id target at : Text) (ups : List Event) (t : Event)
      → validate fm entry ≡ ok tt
      → validate_id id ≡ ok tt
      → member id (ids entry.activations) ≡ false
      → fm.is_rfc3339 at ≡ true
      → ancestors fm entry (pos (length entry.activations)) ≡ ok ups
      → find_target target ups ≡ ok t
      → record_rollback fm entry id target at
        ≡ ok (append_current entry (rollback_event entry id t at))
  unfolding record_rollback validate_timestamp
  record_rollback-ok entry id target at ups t v i f d a found =
      rw (a, found, v, i, f, d, dated at d) refl
    where
      dated : (at : Text) → fm.is_rfc3339 at ≡ true → is_nil at ≡ false
      dated [] e = cc
      dated (c ∷ at) e = refl

  -- The chain that an upgrade leaves: the version before it comes first.
  record UpgradedChain (entry e' : Entry) : Type 0 where
    pub before : Event
    pub up : List Event
    pub valid : validate fm e' ≡ ok tt
    pub active_id : before.id ≡ entry.active_activation_id
    pub active_tag : before.tag ≡ entry.tag
    pub active_digest : to_lower before.sha256 ≡ to_lower entry.sha256
    pub chain : Chain (reverse e'.activations) before up
    pub was : (limit : ℕ) → ancestors fm entry (pos limit) ≡ ok (take limit up)
    pub walk : (limit : ℕ) → ancestors fm e' (pos limit) ≡ ok (take limit (before ∷ up))

  upgraded_chain :
      (entry e' : Entry) (id tag sha at : Text)
      → record_upgrade fm entry id tag sha at ≡ ok e'
      → UpgradedChain entry e'
  unfolding append_current newest_with record_upgrade
  upgraded_chain entry e' id tag sha at r =
      let (v, v', same) = upgrade_valid fm no_time entry e' id tag sha at r in
      let k = (validate_iff fm no_time entry).0 v in
      let isnew : member id (ids entry.activations) ≡ false = ground arith in
      let fresh = fresh_reverse id entry.activations isnew in
      let ev = upgrade_event entry id tag sha at in
      let whole : History fm (k.active ∷ k.earlier) = subst (History fm) k.newest k.history in
      let (up, c, lt) = active-Climbs fm k.active k.earlier whole in
      let c' : Chain (reverse entry.activations) k.active up = rw k.newest c in
      let newest : reverse e'.activations ≡ ev ∷ reverse entry.activations =
        ap (λ e. reverse e.activations) same ∙ reverse-append entry.activations (ev ∷ []) in
      let found : newest_with entry.active_activation_id (reverse entry.activations)
          ≡ some k.active =
        rw (k.newest, k.active_id, text_eq_refl entry.active_activation_id) refl in
      let up' = Chain-fresh ev (reverse entry.activations) fresh k.active up c' in
      let climbed : Chain (ev ∷ reverse entry.activations) ev (k.active ∷ up) =
        climb (λ n. whole.0.well_formed.id_named (k.active_id ∙ n))
          (newest_with-fresh ev (reverse entry.activations) entry.active_activation_id k.active
            fresh found)
          up' in
      record {
        before = k.active;
        up = up;
        valid = v';
        active_id = k.active_id;
        active_tag = k.active_tag;
        active_digest = k.active_digest;
        chain = subst (λ h. Chain h k.active up) (sym newest) up';
        was = ancestors_of_newest fm entry k.active k.earlier up v k.newest k.active_id c';
        walk =
            ancestors_of_newest fm e' ev (reverse entry.activations) (k.active ∷ up) v' newest
              (sym (ap (λ e. e.active_activation_id) same))
              (subst (λ h. Chain h ev (k.active ∷ up)) (sym newest) climbed);
      }

  -- What undoing an upgrade from `entry` to `e'` with a rollback gives.
  pub record Undone (entry e' : Entry) (id at : Text) : Type 0 where
    pub before : Event
    pub last : Entry
    pub offered : previous fm e' ≡ ok before
    pub active : before.id ≡ entry.active_activation_id
    pub rolled : record_rollback fm e' id entry.active_activation_id at ≡ ok last
    pub same_tag : last.tag ≡ entry.tag
    pub same_digest : to_lower last.sha256 ≡ to_lower entry.sha256
    pub same_ancestors :
        (limit : ℕ) → ancestors fm last (pos limit) ≡ ancestors fm entry (pos limit)

  nearest :
      (n : ℕ) (id : Text) (b : Event) (up : List Event)
      → b.id ≡ id
      → 0 < n
      → find_target id (take n (b ∷ up)) ≡ ok b
  unfolding find_target
  nearest zero id b up e h = absurd (omega (arith, h))
  nearest (suc n) id b up e h = rw ((text_eq_iff b.id id).1 e) refl

  not_empty : (e : Entry) → validate fm e ≡ ok tt → 0 < length e.activations
  not_empty e v =
      let (a, up, last, c, short, walk) = ancestors-Chain fm no_time e v in omega (arith, short)

  -- After an upgrade that succeeded, `Previous` offers the version that was active before it; and a rollback to
  -- it, under a valid and fresh id and a timestamp, succeeds, and gives back the tag, the digest (up to case)
  -- and all ancestors that the entry had before the upgrade. An empty text is no timestamp.
  pub upgrade-Undone :
      (entry e' : Entry) (id tag sha at : Text)
      → record_upgrade fm entry id tag sha at ≡ ok e'
      → (id' at' : Text) → validate_id id' ≡ ok tt
      → member id' (ids e'.activations) ≡ false
      → fm.is_rfc3339 at' ≡ true
      → Undone entry e' id' at'
  unfolding append_current
  upgrade-Undone entry e' id tag sha at r id' at' i f d =
      let k = upgraded_chain entry e' id tag sha at r in
      let r' =
        record_rollback-ok e' id' entry.active_activation_id at'
          (take (length e'.activations) (k.before ∷ k.up)) k.before k.valid i f d
          (k.walk (length e'.activations))
          (nearest (length e'.activations) entry.active_activation_id k.before k.up k.active_id
            (not_empty e' k.valid)) in
      let ev = rollback_event e' id' k.before at' in
      let last = append_current e' ev in
      let v = rollback_valid fm no_time e' last id' entry.active_activation_id at' r' in
      let newest : reverse last.activations ≡ ev ∷ reverse e'.activations =
        reverse-append e'.activations (ev ∷ []) in
      let c =
        Chain-same_parent (reverse e'.activations) ev k.before k.up
          (fresh_reverse id' e'.activations f) refl k.chain in
      record {
        before = k.before;
        last = last;
        offered = rw (previous-ancestors fm e', k.walk 1) refl;
        active = k.active_id;
        rolled = r';
        same_tag = k.active_tag;
        same_digest = k.active_digest;
        same_ancestors = λ limit.
            ancestors_of_newest fm last ev (reverse e'.activations) k.up v newest refl
              (subst (λ h. Chain h ev k.up) (sym newest) c) limit
            ∙ sym (k.was limit);
      }
