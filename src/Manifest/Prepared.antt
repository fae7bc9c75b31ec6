-- ===== src/Manifest/Prepared.antt =====
-- `PrepareEntry`: a valid entry stays as it is, and one whose version was changed gets a valid lineage.
use mathlib.Core.List.{reverse, reverse-append}
use hukou.Prelude.{
  ◌≡◌, ◌≢◌, inl, inr, refl, sym, ◌∙◌, ap, subst, Text, codes, true, false, not, ◌&&◌, some, List,
  [], ◌∷◌, ◌++◌, All, All-reverse, arith, is_nil, text_eq, text_eq_iff, text_eq_refl, to_lower,
  member, Bool-cases, ok,
}
use hukou.Manifest.{
  Event, Entry, Formats, valid_digest, validate_component, validate_activation_tag,
  validate_identity, validate_asset, validate_policy, validate_fields, validate_entry,
  validate_entry_lineage,
}
use hukou.Manifest.History.{IsTag, Binds, Extends, History, IsLineage, ids_of}
use hukou.Manifest.Lineage.{newest_last, filled, validate_entry_lineage_iff}
use hukou.Manifest.Migration.{
  legacy_transition, find_active, same_version, prepare_active, or_default, with_policy,
  prepare_entry,
}
use hukou.Policy.{mode_semver, mode_legacy, channel_stable, channel_prerelease}
use hukou.Manifest.Digests.{to_lower-valid_digest, lower_Binds, fresh_reverse}
use hukou.Manifest.Migrated.{Documented, Fields, Fields-fit, legacy_id_fit, entry_parts, policy_fit}

tag_filled : (tag : Text) → IsTag tag → is_nil tag ≡ false
unfolding validate_activation_tag validate_component text_eq
tag_filled [] h = cc
tag_filled (c ∷ tag) h = refl

digest_filled : (s : Text) → valid_digest s ≡ true → is_nil s ≡ false
digest_filled [] h = cc
digest_filled (c ∷ s) h = refl

find_active-append :
    (xs : List Event) (a : Event)
    → All (λ x. x.id ≢ a.id) xs
    → find_active a.id (xs ++ (a ∷ [])) ≡ some a
unfolding find_active
find_active-append [] a f = rw (text_eq_refl a.id) refl
find_active-append (x ∷ xs) a (n, f) = elim (Bool-cases (text_eq x.id a.id)) [
  | inl same ↦ absurd (n ((text_eq_iff x.id a.id).0 same))
  | inr other ↦ rw other (find_active-append xs a f)
]

fields-activations :
    (fm : Formats) (e : Entry) (events : List Event) (id : Text)
    → validate_fields fm (record e { activations = events; active_activation_id = id })
      ≡ validate_fields fm e
unfolding validate_fields validate_identity validate_asset validate_policy
fields-activations fm e events id = refl

with_policy-fixed : (fm : Formats) (e : Entry) → validate_fields fm e ≡ ok tt → with_policy e ≡ e
with_policy-fixed fm e f =
    let (mode, channel, depth) = policy_fit fm e f in
    rw (mode_kept e.update_policy.mode mode, channel_kept e.update_policy.channel channel) refl
  where
    mode_kept :
        (v : Text)
        → (not (text_eq v mode_semver) && not (text_eq v mode_legacy)) ≡ false
        → or_default v mode_semver ≡ v
    mode_kept [] h = unfold text_eq in cc
    mode_kept (c ∷ v) h = refl

    channel_kept :
        (v : Text)
        → (not (text_eq v channel_stable) && not (text_eq v channel_prerelease)) ≡ false
        → or_default v channel_stable ≡ v
    channel_kept [] h = unfold text_eq in cc
    channel_kept (c ∷ v) h = refl

module _ (fm : Formats) (doc : Documented fm) where
  -- The active event, found from the front.
  find_active-newest :
      (entry : Entry) (k : IsLineage fm entry)
      → find_active entry.active_activation_id entry.activations ≡ some k.active
  find_active-newest entry k =
      let whole : History fm (k.active ∷ k.earlier) = subst (History fm) k.newest k.history in
      let last = newest_last entry.activations k.active k.earlier k.newest in
      ap (λ l. find_active entry.active_activation_id l) last
      ∙ ap (λ i. find_active i (reverse k.earlier ++ (k.active ∷ []))) (sym k.active_id)
      ∙ find_active-append (reverse k.earlier) k.active
          (All-reverse (λ x. x.id ≢ k.active.id) k.earlier whole.0.fresh)

  -- What `PrepareEntry` does to an entry with a version and a lineage.
  prepare_entry-active :
      (e : Entry) (a : Event)
      → Fields fm (with_policy e)
      → is_nil e.activations ≡ false
      → find_active e.active_activation_id e.activations ≡ some a
      → prepare_entry fm e ≡ prepare_active fm (with_policy e) (some a)
  unfolding prepare_entry
  prepare_entry-active e a f n found =
      rw (tag_filled e.tag f.tag_fit, digest_filled e.sha256 f.digest_fit, n, found) refl

  -- An entry that stands for its active event is prepared; another gets a transition to its version.
  prepare_same :
      (e : Entry) (a : Event) → same_version a e ≡ true → prepare_active fm e (some a) ≡ e
  unfolding prepare_active
  prepare_same e a h = rw h refl

  abbrev moved : Entry → Text → Entry
  moved e from = record e {
    activations = e.activations ++ (legacy_transition fm e from ∷ []);
    active_activation_id = (legacy_transition fm e from).id;
  }

  prepare_moved :
      (e : Entry) (a : Event)
      → same_version a e ≡ false
      → prepare_active fm e (some a) ≡ moved e a.id
  unfolding prepare_active
  prepare_moved e a h = rw h refl

  same_active : (e : Entry) (k : IsLineage fm e) → same_version k.active e ≡ true
  same_active e k =
      rw
        (
          (text_eq_iff k.active.tag e.tag).1 k.active_tag,
          (text_eq_iff (to_lower k.active.sha256) (to_lower e.sha256)).1 k.active_digest,
        )
        refl

  -- A valid entry stays as it is.
  pub prepare_entry-fixed : (e : Entry) → validate_entry fm e ≡ ok tt → prepare_entry fm e ≡ e
  prepare_entry-fixed e v =
      let (f, l) = entry_parts fm e v in
      let k = (validate_entry_lineage_iff fm e).0 l in
      let same = with_policy-fixed fm e f in
      prepare_entry-active e k.active (subst (Fields fm) (sym same) (Fields-fit fm e f))
        (filled e.activations k.active k.earlier k.newest) (find_active-newest e k)
      ∙ prepare_same (with_policy e) k.active (same_active e k)
      ∙ same

  -- The transition extends the history.
  transition-Extends :
      (e : Entry) (k : Event) (earlier : List Event)
      → Fields fm e
      → History fm (k ∷ earlier)
      → Binds e.tag e.sha256 (k ∷ earlier)
      → All (λ x. x.id ≢ (legacy_transition fm e k.id).id) (k ∷ earlier)
      → Extends fm (legacy_transition fm e k.id) (k ∷ earlier)
  unfolding legacy_transition member
  transition-Extends e k earlier f h b isnew =
      let (n, l, p) = legacy_id_fit fm doc (
        codes "hukou-schema-v2-compat-activation"
        ∷ e.name
        ∷ k.id
        ∷ e.tag
        ∷ e.sha256
        ∷ e.updated_at
        ∷ []) in
      record {
        well_formed = record {
          id_named = n;
          id_short = l;
          id_plain = p;
          operation_known = refl;
          tag_fit = f.tag_fit;
          digest_fit = (to_lower-valid_digest e.sha256 f.digest_fit).0;
          time_fit = f.updated_fit;
        };
        fresh = isnew;
        parent_before = inr (inl refl);
        reverted_before = inl refl;
        bound = lower_Binds e.tag e.sha256 (k ∷ earlier) f.digest_fit b;
      }

  moved-IsLineage :
      (e : Entry) (k : Event) (earlier : List Event)
      → reverse e.activations ≡ k ∷ earlier
      → valid_digest e.sha256 ≡ true
      → Extends fm (legacy_transition fm e k.id) (k ∷ earlier)
      → History fm (k ∷ earlier)
      → IsLineage fm (moved e k.id)
  unfolding legacy_transition
  moved-IsLineage e k earlier newest d x h =
      let whole =
        reverse-append e.activations (legacy_transition fm e k.id ∷ [])
        ∙ ap (λ l. legacy_transition fm e k.id ∷ l) newest in
      record {
        history = subst (History fm) (sym whole) (x, h);
        active = legacy_transition fm e k.id;
        earlier = k ∷ earlier;
        newest = whole;
        active_id = refl;
        active_tag = refl;
        active_digest = (to_lower-valid_digest e.sha256 d).1;
      }

  -- An entry with the history and the version of another's active event.
  same-IsLineage :
      (old e : Entry) (k : IsLineage fm old)
      → e.activations ≡ old.activations
      → e.active_activation_id ≡ old.active_activation_id
      → same_version k.active e ≡ true
      → IsLineage fm e
  same-IsLineage old e k acts active same = record {
    history = subst (History fm) (ap reverse (sym acts)) k.history;
    active = k.active;
    earlier = k.earlier;
    newest = ap reverse acts ∙ k.newest;
    active_id = k.active_id ∙ sym active;
    active_tag = ground (arith, text_eq_iff k.active.tag e.tag);
    active_digest = ground (arith, text_eq_iff (to_lower k.active.sha256) (to_lower e.sha256));
  }

  entry_fit :
      (e : Entry) → validate_fields fm e ≡ ok tt → IsLineage fm e → validate_entry fm e ≡ ok tt
  unfolding validate_entry
  entry_fit e f l = rw (f, (validate_entry_lineage_iff fm e).1 l) refl

  -- Where the version, the timestamp or the policy of an entry with a valid lineage was changed without an event,
  -- `PrepareEntry` gives a valid entry: if its fields are accepted with the default policy filled in, the new tag does
  -- not stand for another digest in the history, and the id made up for the transition is not in use. A digest is
  -- 64 hexadecimal digits, an empty text is no timestamp.
  pub prepare_entry-changed :
      (old e : Entry)
      → validate_entry_lineage fm old ≡ ok tt
      → e.activations ≡ old.activations
      → e.active_activation_id ≡ old.active_activation_id
      → validate_fields fm (with_policy e) ≡ ok tt
      → Binds e.tag e.sha256 (reverse old.activations)
      → member
          (legacy_transition fm (with_policy e) e.active_activation_id).id
          (ids_of old.activations)
        ≡ false
      → validate_entry fm (prepare_entry fm e) ≡ ok tt
  prepare_entry-changed old e l acts active f b isnew =
      let k = (validate_entry_lineage_iff fm old).0 l in
      let p = with_policy e in
      let found : find_active e.active_activation_id e.activations ≡ some k.active =
        rw (active, acts) (find_active-newest old k) in
      let nonempty : is_nil e.activations ≡ false =
        rw acts (filled old.activations k.active k.earlier k.newest) in
      let step = prepare_entry-active e k.active (Fields-fit fm p f) nonempty found in
      elim (Bool-cases (same_version k.active p)) [
        | inl same ↦
            rw (step ∙ prepare_same p k.active same)
              (entry_fit p f (same-IsLineage old p k acts active same))
        | inr other ↦
            let whole : History fm (k.active ∷ k.earlier) = subst (History fm) k.newest k.history in
            let fresh = fresh_reverse (legacy_transition fm p k.active.id).id old.activations (
              subst (λ i. member (legacy_transition fm p i).id (ids_of old.activations) ≡ false)
                (active ∙ sym k.active_id) isnew) in
            let x =
              transition-Extends p k.active k.earlier (Fields-fit fm p f) whole
                (subst (Binds p.tag p.sha256) k.newest b)
                (subst (All (λ x. x.id ≢ (legacy_transition fm p k.active.id).id)) k.newest
                  fresh) in
            rw (step ∙ prepare_moved p k.active other) (
              entry_fit (moved p k.active.id)
                (fields-activations fm p (moved p k.active.id).activations
                    (moved p k.active.id).active_activation_id
                  ∙ f)
                (moved-IsLineage p k.active k.earlier (ap reverse acts ∙ k.newest)
                  (Fields-fit fm p f).digest_fit x whole))
      ]
