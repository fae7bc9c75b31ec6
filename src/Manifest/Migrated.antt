-- ===== src/Manifest/Migrated.antt =====
-- What the migration and `Decode` give.
use hukou.Prelude.{
  ◌==◌, ◌≡◌, ◌≢◌, ◌↔◌, inl, inr, refl, sym, ◌∙◌, ap, subst, ◌≤◌, ℤ, pos, negsuc, Text, codes, Bool,
  true, false, not, ◌&&◌, List, [], ◌∷◌, ◌++◌, All, map, arith, ltb, if◌then◌else◌, is_nil, length,
  length-append, text_eq, member, Result, Result-cases, ok, err, both-ok, ◌>>=◌, ◌>>◌,
}
use hukou.Manifest
use hukou.Manifest.{
  Event, Entry, Manifest, Formats, ManifestError, current_schema_version, all_id_bytes, is_id_byte,
  known_operations, valid_digest, validate_activation_tag, validate_fields, validate_identity,
  validate_asset, validate_policy, validate_entry, validate_entry_lineage, is_current,
  negative_depth,
}
use hukou.Policy.{mode_semver, mode_legacy, channel_stable, channel_prerelease}
use hukou.Manifest.History.{IsTag}
use hukou.Manifest.Lineage.{validate_entry_lineage_iff}
use hukou.Manifest.Migration.{
  joined, legacy_id, legacy_activation, migrate_entry, migrate_v1, normalize, check_decoded,
  validate_decoded_v2, decode_checks,
}
use hukou.Manifest.Names.{Distinct, names_of, paths_of, validate_iff}

-- A digest is 64 hexadecimal digits, and an empty text is no timestamp.
pub record Documented (fm : Formats) : Type 0 where
  pub digest_length : (s : Text) → length (fm.sha256_hex s) ≡ 64
  pub digest_plain : (s : Text) → all_id_bytes (fm.sha256_hex s) ≡ true
  pub no_time : fm.is_rfc3339 [] ≡ false

pub record Fields (fm : Formats) (e : Entry) : Type 0 where
  pub tag_fit : IsTag e.tag
  pub digest_fit : valid_digest e.sha256 ≡ true
  pub updated_fit : fm.is_rfc3339 e.updated_at ≡ true

identity_fit : (fm : Formats) (e : Entry) → validate_identity fm e ≡ ok tt → Fields fm e
unfolding validate_identity
identity_fit fm e h = record {
  tag_fit = ground arith;
  digest_fit = ground arith;
  updated_fit = ground arith;
}

pub Fields-fit : (fm : Formats) (e : Entry) → validate_fields fm e ≡ ok tt → Fields fm e
unfolding validate_fields
Fields-fit fm e h =
    identity_fit fm e (both-ok (validate_identity fm e) (validate_asset e >> validate_policy e) h).0

all_id_bytes-append :
    (s t : Text) → all_id_bytes s ≡ true → all_id_bytes t ≡ true → all_id_bytes (s ++ t) ≡ true
unfolding all_id_bytes
all_id_bytes-append [] t a b = b
all_id_bytes-append (c ∷ s) t a b =
    let (x, y) = both (is_id_byte c) (all_id_bytes s) a in rw (x, all_id_bytes-append s t y b) refl
  where
    both : (x y : Bool) → (x && y) ≡ true → (x ≡ true) × (y ≡ true)
    both true y h = (refl, h)
    both false y h = cc

module _ (fm : Formats) (doc : Documented fm) where
  -- The id of an event that a migration made up.
  pub legacy_id_fit :
      (parts : List Text)
      → (legacy_id fm parts ≢ [])
        × (length (legacy_id fm parts) ≤ 128)
        × (all_id_bytes (legacy_id fm parts) ≡ true)
  legacy_id_fit parts = (
    λ e. cc,
    omega (
      arith,
      doc.digest_length (joined parts),
      length-append (codes "legacy-") (fm.sha256_hex (joined parts)),
    ),
    all_id_bytes-append (codes "legacy-") (fm.sha256_hex (joined parts))
        (unfold all_id_bytes in refl) (doc.digest_plain (joined parts)),
  )

  dated :
      (at other : Text)
      → fm.is_rfc3339 at ≡ true
      → fm.is_rfc3339 (if is_nil at then other else at) ≡ true
  dated [] other e = let n = doc.no_time in cc
  dated (c ∷ at) other e = e

  lineage :
      (e : Entry)
      → Fields fm (migrate_entry fm e)
      → validate_entry_lineage fm (migrate_entry fm e) ≡ ok tt
  unfolding migrate_entry legacy_activation member
  lineage e f =
      let (n, l, p) = legacy_id_fit (
        codes "hukou-manifest-v1-activation"
        ∷ e.name
        ∷ e.path
        ∷ e.repo
        ∷ e.tag
        ∷ e.sha256
        ∷ e.adopted_at
        ∷ e.updated_at
        ∷ []) in
      (validate_entry_lineage_iff fm (migrate_entry fm e)).1 (record {
        history = (
          record {
            well_formed = record {
              id_named = n;
              id_short = l;
              id_plain = p;
              operation_known = refl;
              tag_fit = f.tag_fit;
              digest_fit = f.digest_fit;
              time_fit = dated e.updated_at e.adopted_at f.updated_fit;
            };
            fresh = tt;
            parent_before = inl refl;
            reverted_before = inl refl;
            bound = tt;
          },
          tt,
        );
        active = legacy_activation fm e;
        earlier = [];
        newest = refl;
        active_id = refl;
        active_tag = refl;
        active_digest = refl;
      })

  -- The lineage that the migration makes is accepted wherever the fields of the entry are.
  pub validate_entry-migrate_entry :
      (e : Entry) → validate_entry fm (migrate_entry fm e) ≡ validate_fields fm (migrate_entry fm e)
  validate_entry-migrate_entry e = elim (Result-cases (validate_fields fm (migrate_entry fm e))) [
    | inl (u, v) ↦
        unfold validate_entry in rw (v, lineage e (Fields-fit fm (migrate_entry fm e) v)) refl
    | inr (x, v) ↦ unfold validate_entry in rw v refl
  ]

  All-migrated :
      (es : List Entry)
      → All (λ e. validate_entry fm e ≡ ok tt) (map (migrate_entry fm) es)
        ↔ All (λ e. validate_fields fm (migrate_entry fm e) ≡ ok tt) es
  All-migrated [] = (λ a. tt, λ a. tt)
  All-migrated (e ∷ es) =
      let (to, from) = All-migrated es in
      (
        λ (v, a). (sym (validate_entry-migrate_entry e) ∙ v, to a),
        λ (v, a). (validate_entry-migrate_entry e ∙ v, from a),
      )

  names-migrated : (es : List Entry) → names_of (map (migrate_entry fm) es) ≡ names_of es
  unfolding migrate_entry
  names-migrated [] = refl
  names-migrated (e ∷ es) = ap (λ l. e.name ∷ l) (names-migrated es)

  paths-migrated : (es : List Entry) → paths_of (map (migrate_entry fm) es) ≡ paths_of es
  unfolding migrate_entry
  paths-migrated [] = refl
  paths-migrated (e ∷ es) = ap (λ l. e.path ∷ l) (paths-migrated es)

  -- The manifest of schema 0 or 1 becomes a valid one exactly where the fields of each entry are accepted, with the
  -- policy that the migration gives it, and no two entries have a name or a path in common: the activation that
  -- the migration makes up is never what is refused. A digest is 64 hexadecimal digits, an empty text is no timestamp.
  pub validate-migrate_v1 :
      (m : Manifest)
      → (Manifest.validate fm (migrate_v1 fm m) ≡ ok tt) ↔ (
          All (λ e. validate_fields fm (migrate_entry fm e) ≡ ok tt) m.entries
          × Distinct (names_of m.entries)
          × Distinct (paths_of m.entries))
  unfolding migrate_v1
  validate-migrate_v1 m =
      let (to, from) = validate_iff fm (migrate_v1 fm m) in
      let (to', from') = All-migrated m.entries in
      (
        λ v.
            let k = to v in
            (
              to' k.entries_fit,
              subst Distinct (names-migrated m.entries) k.names,
              subst Distinct (paths-migrated m.entries) k.paths,
            ),
        λ (a, n, p). from (record {
          schema = refl;
          depth = refl;
          entries_fit = from' a;
          names = subst Distinct (sym (names-migrated m.entries)) n;
          paths = subst Distinct (sym (paths-migrated m.entries)) p;
        }),
      )

pub entry_parts :
    (fm : Formats) (e : Entry)
    → validate_entry fm e ≡ ok tt
    → (validate_fields fm e ≡ ok tt) × (validate_entry_lineage fm e ≡ ok tt)
unfolding validate_entry
entry_parts fm e v = both-ok (validate_fields fm e) (validate_entry_lineage fm e) v

fields-policy :
    (fm : Formats) (e : Entry) → validate_fields fm e ≡ ok tt → validate_policy e ≡ ok tt
unfolding validate_fields
fields-policy fm e h =
    (both-ok (validate_asset e) (validate_policy e)
      (both-ok (validate_identity fm e) (validate_asset e >> validate_policy e) h).1).1

pub policy_fit :
    (fm : Formats) (e : Entry)
    → validate_fields fm e ≡ ok tt
    → ((not (text_eq e.update_policy.mode mode_semver)
          && not (text_eq e.update_policy.mode mode_legacy))
        ≡ false)
      × ((not (text_eq e.update_policy.channel channel_stable)
            && not (text_eq e.update_policy.channel channel_prerelease))
          ≡ false)
      × (negative_depth e.retention ≡ false)
policy_fit fm e h = parts (fields-policy fm e h)
  where
    parts :
        validate_policy e ≡ ok tt
        → ((not (text_eq e.update_policy.mode mode_semver)
              && not (text_eq e.update_policy.mode mode_legacy))
            ≡ false)
          × ((not (text_eq e.update_policy.channel channel_stable)
                && not (text_eq e.update_policy.channel channel_prerelease))
              ≡ false)
          × (negative_depth e.retention ≡ false)
    parts h = unfold validate_policy in (ground arith, ground arith, ground arith)

-- The checks that `Decode` makes of the entries first are among those of `Validate`.
check_decoded-fit :
    (fm : Formats) (es : List Entry)
    → All (λ e. validate_entry fm e ≡ ok tt) es
    → check_decoded fm es ≡ ok tt
unfolding check_decoded
check_decoded-fit fm [] a = refl
check_decoded-fit fm (e ∷ es) (v, a) =
    let (f, l) = entry_parts fm e v in
    let (mode, channel, depth) = policy_fit fm e f in
    rw (mode, channel, depth, l) (check_decoded-fit fm es a)

normalize-current :
    (fm : Formats) (m : Manifest)
    → m.schema_version ≡ current_schema_version
    → normalize fm m ≡ ok m
unfolding normalize
normalize-current fm m e = at_two m.schema_version e
  where
    at_two :
        (v : ℤ)
        → v ≡ current_schema_version
        → (elim v [
          | pos n ↦
              if ltb 2 n
              then err ManifestError.unsupported_schema
              else if n == 2
              then ok m
              else ok (migrate_v1 fm m)
          | negsuc n ↦ err ManifestError.unsupported_schema
        ])
          ≡ ok m
    at_two v e = rw e refl

decode_checks-fit :
    (fm : Formats) (m : Manifest) → Manifest.validate fm m ≡ ok tt → decode_checks fm m ≡ ok m
unfolding decode_checks
decode_checks-fit fm m v =
    let k = (validate_iff fm m).0 v in
    let current : is_current m.schema_version ≡ true = ap is_current k.schema in
    let first : validate_decoded_v2 fm m ≡ ok tt =
      unfold validate_decoded_v2 in
      rw (k.depth, check_decoded-fit fm m.entries k.entries_fit) refl in
    rw (current, first, normalize-current fm m k.schema, v) refl

-- A document that `Decode` accepts gives a valid manifest, which it gives again when it is the document; and a
-- valid manifest is accepted as it is, so that the checks before the migration refuse no valid one.
pub decode_checks-valid :
    (fm : Formats) (m m' : Manifest)
    → (decode_checks fm m ≡ ok m'
        → (Manifest.validate fm m' ≡ ok tt) × (decode_checks fm m' ≡ ok m'))
      × (Manifest.validate fm m ≡ ok tt → decode_checks fm m ≡ ok m)
unfolding decode_checks
decode_checks-valid fm m m' = (
  λ d.
      let v =
        decoded (if is_current m.schema_version then validate_decoded_v2 fm m else ok tt)
          (normalize fm m) d in
      (v, decode_checks-fit fm m' v),
  decode_checks-fit fm m,
)
  where
    decoded :
        (c : Result ManifestError Unit) (r : Result ManifestError Manifest)
        → (c >>= λ _. r >>= λ n. Manifest.validate fm n >>= λ _. ok n) ≡ ok m'
        → Manifest.validate fm m' ≡ ok tt
    decoded (err x) r d = cc
    decoded (ok u) (err x) d = cc
    decoded (ok u) (ok n) d = elim (Result-cases (Manifest.validate fm n)) [
      | inl (t, v) ↦ subst (λ x. Manifest.validate fm x ≡ ok tt) (same n (rw v at d)) v
      | inr (x, v) ↦ absurd (never x n (rw v at d))
    ]
      where
        same : (n : Manifest) → Path (Result ManifestError Manifest) (ok n) (ok m') → n ≡ m'
        same n e = cc

        never :
            (x : ManifestError) (n : Manifest)
            → Path (Result ManifestError Manifest) (err x) (ok m')
            → ⊥
        never x n e = cc
