-- ===== src/Verify/Tests.antt =====
-- Runs of the parser of checksum files on both formats of a line.
use hukou.Prelude.{
  lookup, All, Text, codes, true, false, ◌≡◌, ◌↔◌, refl, List, [], ◌∷◌, ◌++◌, some, ok, err,
  text_eq, to_lower, trim_space, has_prefix, all_hex,
}
use hukou.Disk.{regular, Live, Os}
use hukou.Verify.{
  Checksums, read_line, multiple, scan_lines, parse_checksums, parse_checksum_sidecar,
  parse_api_digest, api_digest_prefix_sha256, valid_sha256_hex, verify_asset,
}
use hukou.Verify.Entries.{Names, Readable, Consistent, parse_checksums_entries, parse_checksums_iff}
use hukou.Verify.Digests.{verify_asset_iff, parse_api_digest_iff}

abbrev digest : Text
digest = codes "0123456789abcdef0123456789abcdef0123456789abcdef0123456789abcdef"

abbrev gnu_line : Text
gnu_line = digest ++ codes "  *app"

abbrev bsd_line : Text
bsd_line = codes "SHA256 (app) = " ++ digest

abbrev file : List Text
file = codes "# sums" ∷ gnu_line ∷ bsd_line ∷ []

abbrev sums : Checksums
sums = (codes "app", digest) ∷ (codes "app", digest) ∷ []

file_runs : parse_checksums file false ≡ ok sums
unfolding parse_checksums scan_lines read_line to_lower trim_space has_prefix text_eq all_hex lookup
file_runs = refl

parse_checksums_entries_example :
    (lookup (codes "app") sums ≡ some digest) ↔ Names (codes "app") digest file
parse_checksums_entries_example = parse_checksums_entries file sums file_runs (codes "app") digest

parse_checksums_iff_example :
    ((sums : Checksums) × (parse_checksums file false ≡ ok sums))
    ↔ (All Readable file × Consistent file)
parse_checksums_iff_example = parse_checksums_iff file

abbrev os : Os
os = record {
  sha256 = λ bytes. bytes;
  follow = λ live path. live path;
  parents = λ path. codes "/bin" ∷ (codes "/" ∷ []);
  temp_name = λ path. codes "/bin/.hukou-txn-1";
  is_empty = λ live path. false;
  home = codes "/root";
  data_root = codes "/data";
}

abbrev live : Live
live path = some (regular digest 420)

verify_asset_iff_example : (verify_asset os live (codes "/tmp/app") (codes "app") sums ≡ ok tt) ↔ (
    (want : Text) × Names (codes "app") want file
    × (valid_sha256_hex want ≡ true)
    × ((bytes : Text) × (mode : _) × (os.follow live (codes "/tmp/app") ≡ some (regular bytes mode))
        × (to_lower (os.sha256 bytes) ≡ to_lower want)))
verify_asset_iff_example =
    verify_asset_iff os live (codes "/tmp/app") (codes "app") file sums file_runs

parse_api_digest_iff_example : (parse_api_digest (codes "SHA256:" ++ digest) ≡ some digest) ↔ (
    (to_lower (codes "SHA256:" ++ digest) ≡ api_digest_prefix_sha256 ++ digest)
    × (valid_sha256_hex digest ≡ true))
parse_api_digest_iff_example = parse_api_digest_iff (codes "SHA256:" ++ digest) digest

-- A sidecar that is one bare digest must not have a second line.
sidecar_runs :
    parse_checksum_sidecar (digest ∷ gnu_line ∷ []) false (codes "app") ≡ err (multiple 2)
unfolding parse_checksum_sidecar scan_lines read_line to_lower trim_space has_prefix text_eq all_hex
    lookup
sidecar_runs = refl
