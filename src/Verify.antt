-- ===== src/Verify.antt =====
-- internal/verify/verify.go: checksum files and the comparison of an asset's digest.
pub mod Entries
pub mod Digests
mod Tests
use hukou.Prelude.{
  lookup, ℕ, zero, suc, ◌+◌, Text, codes, Bool, true, false, not, ◌&&◌, ◌||◌, Option, none, some,
  List, [], ◌∷◌, ltb, ◌==◌, if◌then◌else◌, is_nil, length, take, drop, all_hex, has_prefix, text_eq,
  to_lower, trim_space, Result, ok, err, refuse_if, ◌>>=◌, ◌>>◌,
}
use hukou.Disk.{Node, regular, Live, Os}

-- Each constructor is one `i18n.Errorf` of `parseChecksums` and of what it calls, with the line's number.
pub data ParseError : Type 0 where
  empty_asset scan_failed : ParseError
  multiple bad_digest missing_name : ℕ → ParseError
  conflicting : ℕ → Text → ParseError

pub data VerifyError : Type 0 where
  no_checksum unreadable : VerifyError
  invalid_digest mismatch : Text → VerifyError

-- The map, the newest entry first.
abbrev pub Checksums : Type 0
Checksums = List (Text × Text)

-- `validSHA256Hex`
abbrev pub valid_sha256_hex : Text → Bool
valid_sha256_hex digest = length digest == 64 && all_hex digest

-- strings.LastIndex(s, sep)
last_index : Text → Text → Option ℕ
unfolding has_prefix
last_index sep [] = if is_nil sep then some 0 else none
last_index sep (a ∷ s) = elim (last_index sep s) [
  | some i ↦ some (suc i)
  | none ↦ if has_prefix (a ∷ s) sep then some 0 else none
]

-- strings.IndexAny(s, " \t")
index_blank : Text → Option ℕ
index_blank [] = none
index_blank (a ∷ s) =
    if a == 32 || a == 9
    then some 0
    else elim (index_blank s) [ some i ↦ some (suc i) | none ↦ none ]

abbrev bsd_prefix : Text
bsd_prefix = codes "SHA256 ("

abbrev bsd_separator : Text
bsd_separator = codes ") = "

-- `return name, hash, name != ""`
bsd_entry : Text → Text → Option (Text × Text)
bsd_entry name hash = if is_nil name then none else some (name, hash)

-- The text between the prefix and the last separator, and the text behind it.
parse_bsd_line : Text → Option (Text × Text)
unfolding last_index bsd_entry to_lower trim_space text_eq
parse_bsd_line line =
    if ltb (length line) (length bsd_prefix)
      || not (text_eq (to_lower (take (length bsd_prefix) line)) (to_lower bsd_prefix))
    then none
    else elim (last_index bsd_separator line) [
      | none ↦ none
      | some i ↦
          if ltb i (length bsd_prefix)
          then none
          else bsd_entry (trim_space (drop (length bsd_prefix) (take i line)))
              (trim_space (drop (i + length bsd_separator) line))
    ]

-- What a line is, apart from the lines before it.
pub data Line : Type 0 where
  blank malformed unnamed : Line
  named : Text → Text → Line
  bare : Text → Line

-- The file name behind the digest, without the mark of the binary mode.
file_name : Text → Text
unfolding has_prefix trim_space
file_name name = if has_prefix name (codes "*") then trim_space (drop 1 name) else name

-- A digest, white space, and a file name.
delimited : Text → Text → Line
delimited hash name =
    if not (valid_sha256_hex hash)
    then malformed
    else if is_nil name
    then unnamed
    else named name hash

read_trimmed : Text → Line
unfolding parse_bsd_line index_blank delimited file_name
read_trimmed line =
    if is_nil line || has_prefix line (codes "#") then blank else elim (parse_bsd_line line) [
      | some (name, hash) ↦ if valid_sha256_hex hash then named name (to_lower hash) else malformed
      | none ↦ elim (index_blank line) [
        | none ↦ bare (to_lower line)
        | some i ↦ delimited (to_lower (take i line)) (file_name (trim_space (drop i line)))
      ]
    ]

unfoldable pub read_line : Text → Line
unfolding read_trimmed
read_line line = read_trimmed (trim_space line)

-- Another digest stands under the name.
abbrev conflicts : Option Text → Text → Bool
conflicts none hash = false
conflicts (some existing) hash = not (text_eq existing hash)

pub put_checksum : Checksums → Text → Text → ℕ → Result ParseError Checksums
put_checksum out name hash n = do
  refuse_if (is_nil name) (missing_name n)
  refuse_if (conflicts (lookup name out) hash) (conflicting n name)
  ok ((name, hash) ∷ out)

-- The variables of the loop.
pub record Scan : Type 0 where
  pub out : Checksums
  pub bare_seen : Bool

-- A line that is not blank, after the check of `bareDigestSeen`.
pub add : Text → ℕ → Checksums → Line → Result ParseError Scan
unfolding put_checksum
add asset n out (named name hash) = do
  out' ← put_checksum out name hash n
  ok (record { out = out'; bare_seen = false })
add asset n out (bare hash) =
    if not (is_nil asset) && valid_sha256_hex hash && is_nil out
    then ok (record { out = (asset, hash) ∷ out; bare_seen = true })
    else err (missing_name n)
add asset n out malformed = err (bad_digest n)
add asset n out unnamed = err (missing_name n)
add asset n out blank = ok (record { out = out; bare_seen = false })

pub step : Text → ℕ → Scan → Line → Result ParseError Scan
unfolding add
step asset n s blank = ok s
step asset n s l = if s.bare_seen then err (multiple n) else add asset n s.out l

-- `sc.Scan()` gives the lines; `n` is the number of the line before.
unfoldable pub scan_lines : Text → ℕ → Scan → List Text → Result ParseError Scan
unfolding step
scan_lines asset n s [] = ok s
scan_lines asset n s (l ∷ ls) = do
  s' ← step asset (suc n) s (read_line l)
  scan_lines asset (suc n) s' ls

-- `failed` says whether `sc.Err()` is an error at the end.
unfoldable pub parse_lines : List Text → Bool → Text → Result ParseError Checksums
parse_lines lines failed asset = do
  s ← scan_lines asset 0 (record { out = []; bare_seen = false }) lines
  refuse_if failed scan_failed
  ok s.out

unfoldable pub parse_checksums : List Text → Bool → Result ParseError Checksums
unfolding parse_lines
parse_checksums lines failed = parse_lines lines failed []

unfoldable pub parse_checksum_sidecar : List Text → Bool → Text → Result ParseError Checksums
unfolding parse_lines trim_space
parse_checksum_sidecar lines failed asset = do
  refuse_if (is_nil (trim_space asset)) empty_asset
  parse_lines lines failed asset

abbrev pub api_digest_prefix_sha256 : Text
api_digest_prefix_sha256 = codes "sha256:"

unfoldable pub parse_api_digest : Text → Option Text
unfolding has_prefix to_lower
parse_api_digest raw =
    if not (has_prefix (to_lower raw) api_digest_prefix_sha256)
    then none
    else let rest = drop (length api_digest_prefix_sha256) (to_lower raw) in
      if valid_sha256_hex rest then some rest else none

-- The comparison with the digest published; `strings.EqualFold` with hex digits compares lower case.
compare_digest : Text → Text → Option Text → Result VerifyError Unit
unfolding to_lower text_eq
compare_digest digest name none = err no_checksum
compare_digest digest name (some want) = do
  refuse_if (not (valid_sha256_hex want)) (invalid_digest name)
  refuse_if (not (text_eq (to_lower digest) (to_lower want))) (mismatch name)

unfoldable pub verify_asset_digest : Text → Text → Checksums → Result VerifyError Unit
unfolding compare_digest lookup
verify_asset_digest digest name sums = compare_digest digest name (lookup name sums)

-- `SHA256File`: only a regular file is opened.
pub sha256_of : Os → Option Node → Result VerifyError Text
sha256_of os (some (regular bytes mode)) = ok (os.sha256 bytes)
sha256_of os _ = err unreadable

-- The checks of the map come before the file is opened.
published : Text → Option Text → Result VerifyError Unit
published name none = err no_checksum
published name (some want) = refuse_if (not (valid_sha256_hex want)) (invalid_digest name)

unfoldable pub verify_asset : Os → Live → Text → Text → Checksums → Result VerifyError Unit
unfolding verify_asset_digest published sha256_of
verify_asset os live path name sums = do
  published name (lookup name sums)
  got ← sha256_of os (os.follow live path)
  verify_asset_digest got name sums
