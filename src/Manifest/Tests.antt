-- ===== src/Manifest/Tests.antt =====
-- Runs of the manifest's operations, and the theorems at concrete entries.
use hukou.Prelude.{
  ◌≡◌, ◌≢◌, ◌↔◌, refl, codes, none, some, All, if◌then◌else◌, text_eq, text_eq_iff, all_hex, member,
  ok, err,
}
use hukou.Manifest.{
  all_id_bytes, validate_fields, validate_entry, validate_entry_lineage, validate, path_not_clean,
  duplicate_entry_path, active_mismatch,
}
use hukou.Manifest.History.{IsLineage}
use hukou.Manifest.Lineage.{validate_entry_lineage_iff}
use hukou.Manifest.Names.{Distinct, names_of, paths_of, IsManifest, validate_iff}
use hukou.Manifest.Entries.{get, put, remove, is_found}
use hukou.Manifest.Updates.{get-put, get-remove}
use hukou.Manifest.Preserve.{validate-put}
use hukou.Manifest.Migration.{
  legacy_transition, migrate_entry, migrate_v1, prepare_entry, with_policy, decode_checks,
}
use hukou.Manifest.Migrated.{Documented, validate-migrate_v1, decode_checks-valid}
use hukou.Manifest.Prepared.{prepare_entry-changed}
use hukou.Manifest.Samples.{plain, tool, other, changed, manifest, legacy}

tool_ok : validate_entry plain tool ≡ ok tt
unfolding validate_entry all_hex
tool_ok = refl

lineage_ok : validate_entry_lineage plain tool ≡ ok tt
unfolding validate_entry_lineage all_hex
lineage_ok = refl

other_ok : validate_entry plain other ≡ ok tt
unfolding validate_entry all_hex
other_ok = refl

manifest_ok : validate plain manifest ≡ ok tt
unfolding validate all_hex
manifest_ok = refl

fields_ok : validate_fields plain (with_policy changed) ≡ ok tt
unfolding validate_fields all_hex
fields_ok = refl

-- The changed entry is refused as it stands.
changed_refused : validate_entry plain changed ≡ err active_mismatch
unfolding validate_entry all_hex
changed_refused = refl

relative_refused :
    validate_entry plain (record tool { path = codes "bin/tool" }) ≡ err path_not_clean
unfolding validate_entry all_hex
relative_refused = refl

same_path_refused :
    validate plain (put manifest (record other { path = codes "/bin/tool" }))
    ≡ err (duplicate_entry_path (codes "/bin/tool"))
unfolding validate put all_hex
same_path_refused = refl

migrated_ok : validate plain (migrate_v1 plain legacy) ≡ ok tt
unfolding validate migrate_v1 all_hex
migrated_ok = refl

documented : Documented plain
unfolding all_id_bytes
documented = record { digest_length = λ s. refl; digest_plain = λ s. refl; no_time = refl }

versions_differ : codes "v1" ≢ codes "v2"
unfolding text_eq
versions_differ e = let h = (text_eq_iff (codes "v1") (codes "v2")).1 e in cc

validate_entry_lineage_iff_example :
    (validate_entry_lineage plain tool ≡ ok tt) ↔ IsLineage plain tool
validate_entry_lineage_iff_example = validate_entry_lineage_iff plain tool

validate_iff_example : (validate plain manifest ≡ ok tt) ↔ IsManifest plain manifest
validate_iff_example = validate_iff plain manifest

get-put_example :
    get (put manifest changed) (codes "tool")
    ≡ (if text_eq changed.name (codes "tool") then some changed else get manifest (codes "tool"))
get-put_example = get-put manifest changed (codes "tool")

get-remove_example :
    ((remove manifest (codes "tool")).0 ≡ is_found (get manifest (codes "tool")))
    × (get (remove manifest (codes "tool")).1 (codes "tool")
        ≡ (if text_eq (codes "tool") (codes "tool") then none else get manifest (codes "tool")))
get-remove_example = get-remove plain manifest (codes "tool") (codes "tool") manifest_ok

validate-put_example : validate plain (put manifest other) ≡ ok tt
validate-put_example = validate-put plain manifest other manifest_ok other_ok (λ n e. cc, tt)

validate-migrate_v1_example : (validate plain (migrate_v1 plain legacy) ≡ ok tt) ↔ (
    All (λ e. validate_fields plain (migrate_entry plain e) ≡ ok tt) legacy.entries
    × Distinct (names_of legacy.entries)
    × Distinct (paths_of legacy.entries))
validate-migrate_v1_example = validate-migrate_v1 plain documented legacy

decode_checks-valid_example :
    (decode_checks plain legacy ≡ ok (migrate_v1 plain legacy)
      → (validate plain (migrate_v1 plain legacy) ≡ ok tt)
        × (decode_checks plain (migrate_v1 plain legacy) ≡ ok (migrate_v1 plain legacy)))
    × (validate plain legacy ≡ ok tt → decode_checks plain legacy ≡ ok legacy)
decode_checks-valid_example = decode_checks-valid plain legacy (migrate_v1 plain legacy)

prepare_entry-changed_example : validate_entry plain (prepare_entry plain changed) ≡ ok tt
unfolding member legacy_transition
prepare_entry-changed_example =
    prepare_entry-changed plain documented tool changed lineage_ok refl refl fields_ok
      (λ t. absurd (versions_differ t), tt) refl
