-- ===== src/Verify/Digests.antt =====
-- `VerifyAsset`, `VerifyAssetDigest` and `ParseAPIDigest`: which digests are accepted.
use hukou.Prelude.{
  lookup, ℕ, ap, not, has_prefix-split, has_prefix-append, Text, true, false, ◌≡◌, ◌↔◌, refl, sym,
  ◌∙◌, List, ◌++◌, Option, none, some, arith, text_eq_iff, if◌then◌else◌, length, drop, has_prefix,
  to_lower, Result, ok, err, ◌>>=◌, ◌>>◌,
}
use hukou.Disk.{Node, regular, Live, Os}
use hukou.Verify.{
  Checksums, VerifyError, valid_sha256_hex, parse_checksums, compare_digest, verify_asset_digest,
  published, sha256_of, verify_asset, parse_api_digest, api_digest_prefix_sha256,
}
use hukou.Verify.Entries.{Names, parse_checksums_entries}

-- A digest agrees with the one published, letter case aside.
abbrev pub Agrees : Text → Option Text → Type 0
Agrees digest o =
    (want : Text) × (o ≡ some want)
    × (valid_sha256_hex want ≡ true)
    × (to_lower digest ≡ to_lower want)

compare_digest_iff :
    (digest name : Text) (o : Option Text)
    → (compare_digest digest name o ≡ ok tt) ↔ Agrees digest o
unfolding compare_digest
compare_digest_iff digest name none = (λ e. cc, λ (want, e, valid, same). cc)
compare_digest_iff digest name (some want) = (
  λ e. (want, refl, ground arith, ground (arith, text_eq_iff (to_lower digest) (to_lower want))),
  λ (w, e, valid, same).
      let h : want ≡ w = cc in
      rw (h, valid, (text_eq_iff (to_lower digest) (to_lower w)).1 same) refl,
)

verify_asset_digest_iff :
    (digest name : Text) (sums : Checksums)
    → (verify_asset_digest digest name sums ≡ ok tt) ↔ Agrees digest (lookup name sums)
unfolding verify_asset_digest
verify_asset_digest_iff digest name sums = compare_digest_iff digest name (lookup name sums)

-- The file is regular, and its digest agrees.
abbrev FileAgrees : Os → Option Node → Option Text → Type 0
FileAgrees os n o =
    (bytes : Text) × (mode : ℕ) × (n ≡ some (regular bytes mode)) × Agrees (os.sha256 bytes) o

published-ok : (digest name : Text) (o : Option Text) → Agrees digest o → published name o ≡ ok tt
unfolding published
published-ok digest name o (want, e, valid, same) = rw (e, valid) refl

-- The three steps of `VerifyAsset`.
steps : Os → Option Node → Text → Option Text → Result VerifyError Unit
unfolding published sha256_of compare_digest
steps os n name o = do published name o; got ← sha256_of os n; compare_digest got name o

steps_iff :
    (os : Os) (n : Option Node) (name : Text) (o : Option Text)
    → (steps os n name o ≡ ok tt) ↔ FileAgrees os n o
unfolding steps sha256_of
steps_iff os n name o = (forth (published name o) n, back)
  where
    forth :
        (r : Result VerifyError Unit) (n : Option Node)
        → (r >> (sha256_of os n >>= λ got. compare_digest got name o)) ≡ ok tt
        → FileAgrees os n o
    forth (err x) n e = cc
    forth (ok t) none e = cc
    forth (ok t) (some (regular bytes mode)) e =
        (bytes, mode, refl, (compare_digest_iff (os.sha256 bytes) name o).0 e)
    forth (ok t) (some (Node.symlink target)) e = cc
    forth (ok t) (some Node.special) e = cc
    forth (ok t) (some (Node.directory l)) e = cc

    back : FileAgrees os n o → steps os n name o ≡ ok tt
    back (bytes, mode, e, agrees) =
        rw (published-ok (os.sha256 bytes) name o agrees, e)
          ((compare_digest_iff (os.sha256 bytes) name o).1 agrees)

-- With the map of a parsed checksum file, an asset is accepted exactly where a line of the file gives
-- its name a digest of 64 hex digits, and the path leads to a regular file whose digest that is,
-- letter case aside.
pub verify_asset_iff :
    (os : Os) (live : Live) (path name : Text) (lines : List Text) (sums : Checksums)
    → parse_checksums lines false ≡ ok sums
    → (verify_asset os live path name sums ≡ ok tt) ↔ (
        (want : Text) × Names name want lines
        × (valid_sha256_hex want ≡ true)
        × ((bytes : Text) × (mode : ℕ) × (os.follow live path ≡ some (regular bytes mode))
            × (to_lower (os.sha256 bytes) ≡ to_lower want)))
verify_asset_iff os live path name lines sums e = (
  λ v.
      let (bytes, mode, node, (want, there, valid, same)) =
        (steps_iff os (os.follow live path) name (lookup name sums)).0 (sym as_steps ∙ v) in
      (
        want,
        (parse_checksums_entries lines sums e name want).0 there,
        valid,
        (bytes, mode, node, same),
      ),
  λ (want, names, valid, (bytes, mode, node, same)).
      as_steps
      ∙ (steps_iff os (os.follow live path) name (lookup name sums)).1 (
        bytes,
        mode,
        node,
        (want, (parse_checksums_entries lines sums e name want).1 names, valid, same),
      ),
)
  where
    as_steps :
        verify_asset os live path name sums ≡ steps os (os.follow live path) name (lookup name sums)
    as_steps = unfold verify_asset verify_asset_digest steps in refl

-- A digest of the release API is taken exactly where it is the prefix, in any letter case, and 64
-- hex digits; what is taken is these digits in lower case.
pub parse_api_digest_iff :
    (raw digest : Text)
    → (parse_api_digest raw ≡ some digest)
      ↔ ((to_lower raw ≡ api_digest_prefix_sha256 ++ digest) × (valid_sha256_hex digest ≡ true))
parse_api_digest_iff raw digest = unfold parse_api_digest in go (to_lower raw)
  where
    taken : Text → Option Text
    taken s =
        if not (has_prefix s api_digest_prefix_sha256)
        then none
        else if valid_sha256_hex (drop (length api_digest_prefix_sha256) s)
        then some (drop (length api_digest_prefix_sha256) s)
        else none

    go :
        (s : Text)
        → (taken s ≡ some digest)
          ↔ ((s ≡ api_digest_prefix_sha256 ++ digest) × (valid_sha256_hex digest ≡ true))
    go s = (
      λ e.
          let starts : has_prefix s api_digest_prefix_sha256 ≡ true = ground arith in
          let rest : drop (length api_digest_prefix_sha256) s ≡ digest = ground arith in
          (
            has_prefix-split s api_digest_prefix_sha256 starts
                ∙ ap (λ t. api_digest_prefix_sha256 ++ t) rest,
            ground arith,
          ),
      λ (e, valid). rw (e, has_prefix-append api_digest_prefix_sha256 digest, valid) refl,
    )
