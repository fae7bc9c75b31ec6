-- ===== src/Activation/Steps.antt =====
-- Sequences of the operations of the package activation: from an adoption on, the lineage stays valid and
-- its history only grows; and a version that was upgraded from can be gone back to.
use hukou.Prelude.{
  ℕ, zero, suc, Text, false, ◌≡◌, inl, refl, sym, ◌∙◌, ap, List, [], ◌∷◌, ◌++◌, append_assoc,
  append-nil, arith, length, length-append, member, ok,
}
use hukou.Manifest.{Event, Entry, Formats, validate_entry_lineage}
use hukou.Manifest.Lineage.{validate_entry_lineage_iff}
use hukou.Activation.{
  validate, validate_event_input, append_current, adopt_event, adopted, record_adopt,
  record_upgrade, upgrade_event, record_rollback, rollback_event, record_restore_original,
  restore_event,
}
use hukou.Activation.Validity.{validate_iff, validate_event_input_iff}
use hukou.Manifest.Digests.{to_lower-valid_digest}
use hukou.Activation.Rollback.{rolled_back, rollback_valid, upgrade_valid, restore_valid}

append_current-parts :
    (e : Entry) (ev : Event)
    → ((append_current e ev).activations ≡ e.activations ++ (ev ∷ []))
      × ((append_current e ev).name ≡ e.name)
      × ((append_current e ev).path ≡ e.path)
      × ((append_current e ev).repo ≡ e.repo)
unfolding append_current
append_current-parts e ev = (refl, refl, refl, refl)

module _ (fm : Formats) (no_time : fm.is_rfc3339 [] ≡ false) where
  adopt_valid :
      (entry e' : Entry) (id at : Text)
      → record_adopt fm entry id at ≡ ok e'
      → (validate fm e' ≡ ok tt) × (length e'.activations ≡ 1)
  unfolding record_adopt member
  adopt_valid entry e' id at r =
      let input : validate_event_input fm id entry.tag entry.sha256 at ≡ ok tt = ground arith in
      let i = (validate_event_input_iff fm no_time id entry.tag entry.sha256 at).0 input in
      let digest = (to_lower-valid_digest entry.sha256 i.digest_fit).0 in
      let same : adopted entry id at ≡ e' = ground arith in
      rw (sym same) (
        (validate_iff fm no_time (adopted entry id at)).1 (record {
          history = (
            record {
              well_formed = record {
                id_named = i.id_named;
                id_short = i.id_short;
                id_plain = i.id_plain;
                operation_known = refl;
                tag_fit = i.tag_fit;
                digest_fit = digest;
                time_fit = i.time_fit;
              };
              fresh = tt;
              parent_before = inl refl;
              reverted_before = inl refl;
              bound = tt;
            },
            tt,
          );
          active = adopt_event entry id at;
          earlier = [];
          newest = refl;
          active_id = refl;
          active_tag = refl;
          active_digest = refl;
        }),
        refl,
      )

  -- One recorded change of the active version.
  pub data Step : Entry → Entry → Type 0 where
    upgraded :
        {entry e' : Entry}
        → (id tag sha at : Text) → record_upgrade fm entry id tag sha at ≡ ok e'
        → Step entry e'
    rolled :
        {entry e' : Entry}
        → (id target at : Text) → record_rollback fm entry id target at ≡ ok e'
        → Step entry e'
    restored :
        {entry e' : Entry}
        → (id sha at : Text) → record_restore_original fm entry id sha at ≡ ok e'
        → Step entry e'

  -- What an adoption, and then any number of changes, leave.
  pub data Reached : ℕ → Entry → Entry → Type 0 where
    started :
        {e : Entry}
        → (blank : Entry) → (id at : Text) → record_adopt fm blank id at ≡ ok e
        → Reached zero e e
    after :
        {n : ℕ} → {first e e' : Entry} → Reached n first e → Step e e' → Reached (suc n) first e'

  step_valid :
      (e e' : Entry)
      → Step e e'
      → (validate fm e ≡ ok tt)
        × (validate fm e' ≡ ok tt)
        × (ev : Event) × (e' ≡ append_current e ev)
  step_valid e e' (upgraded id tag sha at r) =
      let (v, v', same) = upgrade_valid fm no_time e e' id tag sha at r in
      (v, v', upgrade_event e id tag sha at, same)
  step_valid e e' (rolled id target at r) =
      let k = rolled_back fm no_time e e' id target at r in
      (
        k.before,
        rollback_valid fm no_time e e' id target at r,
        rollback_event e id k.event at,
        k.appended,
      )
  step_valid e e' (restored id sha at r) =
      let (v, v', same) = restore_valid fm no_time e e' id sha at r in
      (v, v', restore_event e id sha at, same)

  -- The lineage of an entry that adoption and changes led to.
  pub record Sound (n : ℕ) (first e : Entry) : Type 0 where
    pub valid : validate fm e ≡ ok tt
    pub accepted : validate_entry_lineage fm e ≡ ok tt
    pub later : List Event
    pub grown : e.activations ≡ first.activations ++ later
    pub count : length e.activations ≡ suc n
    pub same_file : (e.name ≡ first.name) × (e.path ≡ first.path) × (e.repo ≡ first.repo)

  -- Whatever upgrades, rollbacks and restorations follow an adoption, both validators accept the lineage, the
  -- events that were recorded before stand at its front, it has one event for each operation, and the file and
  -- the repository of the entry are those that were adopted. An empty text is no timestamp.
  pub Reached-Sound : (n : ℕ) (first e : Entry) → Reached n first e → Sound n first e
  Reached-Sound _ _ _ (started {e} blank id at r) =
      let (v, one) = adopt_valid blank e id at r in
      record {
        valid = v;
        accepted = (validate_entry_lineage_iff fm e).1 ((validate_iff fm no_time e).0 v);
        later = [];
        grown = sym (append-nil e.activations);
        count = one;
        same_file = (refl, refl, refl);
      }
  Reached-Sound _ _ _ (after {n} {first} {e} {e'} before step) =
      let k = Reached-Sound n first e before in
      let (_, v', ev, same) = step_valid e e' step in
      let acts : e'.activations ≡ e.activations ++ (ev ∷ []) =
        ap (λ x. x.activations) same ∙ (append_current-parts e ev).0 in
      let (name, path, repo) = k.same_file in
      let (acts', name', path', repo') = append_current-parts e ev in
      record {
        valid = v';
        accepted = (validate_entry_lineage_iff fm e').1 ((validate_iff fm no_time e').0 v');
        later = k.later ++ (ev ∷ []);
        grown =
            acts
            ∙ ap (λ l. l ++ (ev ∷ [])) k.grown
            ∙ append_assoc first.activations k.later (ev ∷ []);
        count = omega (arith, k.count, length-append e.activations (ev ∷ []), ap length acts);
        same_file = (
          ap (λ x. x.name) same ∙ name' ∙ name,
          ap (λ x. x.path) same ∙ path' ∙ path,
          ap (λ x. x.repo) same ∙ repo' ∙ repo,
        );
      }
