-- ===== src/Manifest/Lineage.antt =====
-- `validateEntryLineage` against a description of a lineage: the history of an entry, newest first,
-- in which each event is well formed and refers to what came before it.
use mathlib.Core.List.{reverse, reverse_aux, reverse-reverse, reverse-cons}
use hukou.Prelude.{
  Text, true, false, not, ◌&&◌, ◌≡◌, ◌↔◌, refl, sym, ◌∙◌, ap, subst, List, [], ◌∷◌, ◌++◌, some,
  arith, text_eq_iff, text_eq_refl, is_nil, to_lower, member, Result, ok, err, refuse_if, ◌>>=◌,
  ◌>>◌,
}
use hukou.Manifest.{
  Event, Entry, Formats, ManifestError, Bindings, validate_decoded_activation, validate_events,
  last_event, is_active, validate_entry_lineage,
}
use hukou.Manifest.History.{
  IsEvent, Extends, History, IsLineage, bindings_of, ids_of, fresh-ids_of, is_rebound-bindings_of,
  decoded-ok, ok-decoded, Refers-iff,
}

-- One round of the loop.
module _ (fm : Formats) (e : Event) (es rest : List Event) (h : History fm es) where
  round-ok :
      validate_events fm (ids_of es) (bindings_of es) (e ∷ rest) ≡ ok tt
      → Extends fm e es × (validate_events fm (ids_of (e ∷ es)) (bindings_of (e ∷ es)) rest ≡ ok tt)
  unfolding validate_events
  round-ok v = go (validate_decoded_activation fm e (bindings_of es)) refl v
    where
      body : Bindings → Result ManifestError Unit
      body bs = do
        refuse_if (member e.id (ids_of es)) ManifestError.duplicate_id
        refuse_if (not (is_nil e.parent_id) && not (member e.parent_id (ids_of es)))
            ManifestError.missing_parent
        refuse_if (not (is_nil e.reverts_id) && not (member e.reverts_id (ids_of es)))
            ManifestError.reverts_missing
        validate_events fm (e.id ∷ ids_of es) bs rest

      go :
          (r : Result ManifestError Bindings)
          → validate_decoded_activation fm e (bindings_of es) ≡ r
          → (r >>= body) ≡ ok tt
          → Extends fm e es
            × (validate_events fm (ids_of (e ∷ es)) (bindings_of (e ∷ es)) rest ≡ ok tt)
      go (err x) eq w = cc
      go (ok bs) eq w =
          let (fit, bound, same) = decoded-ok fm e (bindings_of es) bs eq in
          let isnew : member e.id (ids_of es) ≡ false = ground arith in
          let parent : (not (is_nil e.parent_id) && not (member e.parent_id (ids_of es))) ≡ false =
            ground arith in
          let reverted : (not (is_nil e.reverts_id) && not (member e.reverts_id (ids_of es)))
              ≡ false =
            ground arith in
          (
            record {
              well_formed = fit;
              fresh = (fresh-ids_of e.id es).0 isnew;
              parent_before = (Refers-iff e.parent_id es).0 parent;
              reverted_before = (Refers-iff e.reverts_id es).0 reverted;
              bound = (is_rebound-bindings_of fm e.tag e.sha256 es h).0 bound;
            },
            subst (λ b. validate_events fm (e.id ∷ ids_of es) b rest ≡ ok tt) same
                (rw (isnew, parent, reverted) at w),
          )

  ok-round :
      Extends fm e es
      → validate_events fm (ids_of es) (bindings_of es) (e ∷ rest)
        ≡ validate_events fm (ids_of (e ∷ es)) (bindings_of (e ∷ es)) rest
  unfolding validate_events
  ok-round x =
      rw
        (
          ok-decoded fm e (bindings_of es) x.well_formed
              ((is_rebound-bindings_of fm e.tag e.sha256 es h).1 x.bound),
          (fresh-ids_of e.id es).1 x.fresh,
          (Refers-iff e.parent_id es).1 x.parent_before,
          (Refers-iff e.reverts_id es).1 x.reverted_before,
        )
        refl

module _ (fm : Formats) where
  validate_events-History :
      (rest es : List Event)
      → History fm es
      → validate_events fm (ids_of es) (bindings_of es) rest ≡ ok tt
      → History fm (reverse_aux rest es)
  validate_events-History [] es h v = h
  validate_events-History (e ∷ rest) es h v =
      let (x, v') = round-ok fm e es rest h v in validate_events-History rest (e ∷ es) (x, h) v'

  pub History-tail : (rest es : List Event) → History fm (reverse_aux rest es) → History fm es
  History-tail [] es h = h
  History-tail (e ∷ rest) es h = (History-tail rest (e ∷ es) h).1

  History-validate_events :
      (rest es : List Event)
      → History fm (reverse_aux rest es)
      → validate_events fm (ids_of es) (bindings_of es) rest ≡ ok tt
  History-validate_events [] es h = unfold validate_events in refl
  History-validate_events (e ∷ rest) es h =
      let (x, k) = History-tail rest (e ∷ es) h in
      ok-round fm e es rest k x ∙ History-validate_events rest (e ∷ es) h

pub last_event-append : (xs : List Event) (e : Event) → last_event (xs ++ (e ∷ [])) ≡ some e
unfolding last_event
last_event-append [] e = refl
last_event-append (x ∷ xs) e = rw (last_event-append xs e) refl

-- The newest event stands last.
pub newest_last :
    (xs : List Event) (a : Event) (rest : List Event)
    → reverse xs ≡ a ∷ rest
    → xs ≡ reverse rest ++ (a ∷ [])
newest_last xs a rest e = sym (reverse-reverse xs) ∙ ap reverse e ∙ reverse-cons a rest

pub last_event-reverse :
    (xs : List Event) (a : Event) (rest : List Event)
    → reverse xs ≡ a ∷ rest
    → last_event xs ≡ some a
last_event-reverse xs a rest e =
    ap last_event (newest_last xs a rest e) ∙ last_event-append (reverse rest) a

-- The last event is the newest of the history.
pub newest_of :
    (xs : List Event)
    → is_nil xs ≡ false
    → (a : Event) × (rest : List Event) × (reverse xs ≡ a ∷ rest) × (last_event xs ≡ some a)
newest_of xs filled = go (reverse xs) refl
  where
    nil_of : xs ≡ [] → ⊥
    nil_of e = let y : is_nil xs ≡ true = rw e refl in cc

    go :
        (ys : List Event)
        → reverse xs ≡ ys
        → (a : Event) × (rest : List Event) × (reverse xs ≡ a ∷ rest) × (last_event xs ≡ some a)
    go [] e = absurd (nil_of (sym (reverse-reverse xs) ∙ ap reverse e))
    go (a ∷ rest) e = (a, rest, e, last_event-reverse xs a rest e)

-- A list with a newest event is not empty.
pub filled :
    (xs : List Event) (a : Event) (rest : List Event) → reverse xs ≡ a ∷ rest → is_nil xs ≡ false
filled [] a rest e = cc
filled (x ∷ xs) a rest e = refl

-- The active id is that of an event, so it is not empty.
pub active_named :
    (fm : Formats) (a : Event) (id : Text) → IsEvent fm a → a.id ≡ id → is_nil id ≡ false
active_named fm a [] fit e = absurd (fit.id_named e)
active_named fm a (c ∷ id) fit e = refl

-- The lineage of an entry is accepted exactly where the history, newest first, is one in which every
-- event is well formed, has a fresh id, refers to events before it and agrees with them on the digest
-- of its tag; and where the newest event is the active one, with the tag and the digest of the entry.
pub validate_entry_lineage_iff :
    (fm : Formats) (entry : Entry) → (validate_entry_lineage fm entry ≡ ok tt) ↔ IsLineage fm entry
unfolding validate_entry_lineage
validate_entry_lineage_iff fm entry = (
  λ v.
      let (a, rest, e, l) = newest_of entry.activations (ground arith) in
      let events : validate_events fm [] [] entry.activations ≡ ok tt = ground arith in
      let active : is_active entry (last_event entry.activations) ≡ true = ground arith in
      let (i, t, d) = active_parts a (subst (λ o. is_active entry o ≡ true) l active) in
      record {
        history = validate_events-History fm entry.activations [] tt events;
        active = a;
        earlier = rest;
        newest = e;
        active_id = i;
        active_tag = t;
        active_digest = d;
      },
  λ v.
      let (x, _) : History fm (v.active ∷ v.earlier) = subst (History fm) v.newest v.history in
      let l = last_event-reverse entry.activations v.active v.earlier v.newest in
      rw
        (
          filled entry.activations v.active v.earlier v.newest,
          active_named fm v.active entry.active_activation_id x.well_formed v.active_id,
          History-validate_events fm entry.activations [] v.history,
          l,
          parts_active v.active v.active_id v.active_tag v.active_digest,
        )
        refl,
)
  where
    active_parts :
        (a : Event)
        → is_active entry (some a) ≡ true
        → (a.id ≡ entry.active_activation_id)
          × (a.tag ≡ entry.tag)
          × (to_lower a.sha256 ≡ to_lower entry.sha256)
    active_parts a h =
        unfold is_active in
        ground (
          arith,
          text_eq_iff a.id entry.active_activation_id,
          text_eq_iff a.tag entry.tag,
          text_eq_iff (to_lower a.sha256) (to_lower entry.sha256),
        )

    parts_active :
        (a : Event)
        → a.id ≡ entry.active_activation_id
        → a.tag ≡ entry.tag
        → to_lower a.sha256 ≡ to_lower entry.sha256
        → is_active entry (some a) ≡ true
    parts_active a i t d =
        unfold is_active in
        rw
          (
            i,
            t,
            d,
            text_eq_refl entry.active_activation_id,
            text_eq_refl entry.tag,
            text_eq_refl (to_lower entry.sha256),
          )
          refl
