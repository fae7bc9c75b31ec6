-- ===== src/Manifest/Names.antt =====
-- `Validate` of a manifest against a description of its entries, and what `Put` and `Remove` keep.
use hukou.Prelude.{
  ◌≡◌, ◌≢◌, ◌↔◌, inl, inr, refl, sym, ap, Text, Bool, true, false, not, List, [], ◌∷◌, All, map,
  arith, ◌==◌, ℕ, ℤ, pos, negsuc, is_negative, text_eq, text_eq_iff, text_eq_refl, member,
  Bool-cases, Result, ok, refuse_if, ◌>>◌,
}
use hukou.Manifest.{
  Entry, Manifest, Formats, ManifestError, current_schema_version, validate_entry, validate_entries,
  is_current, validate,
}

-- No text occurs twice.
abbrev pub Distinct : List Text → Type 0
Distinct [] = Unit
Distinct (x ∷ xs) = (member x xs ≡ false) × Distinct xs

abbrev Apart : List Text → List Text → Type 0
Apart seen = All (λ x. member x seen ≡ false)

-- What a loop with a set of the texts seen checks.
abbrev Unseen : List Text → List Text → Type 0
Unseen seen [] = Unit
Unseen seen (x ∷ xs) = (member x seen ≡ false) × Unseen (x ∷ seen) xs

pub member-cons :
    (x y : Text) (ys : List Text) → (member x (y ∷ ys) ≡ false) ↔ ((x ≢ y) × (member x ys ≡ false))
unfolding member
member-cons x y ys = elim (Bool-cases (text_eq x y)) [
  | inl e ↦ rw e (λ h. cc, λ (n, h). absurd (n ((text_eq_iff x y).0 e)))
  | inr e ↦ rw e (λ h. (λ same. cc_not same e, h), λ (n, h). h)
]
  where
    cc_not : x ≡ y → text_eq x y ≡ false → ⊥
    cc_not s f = let r = text_eq_refl y in cc

Apart-cons :
    (y : Text) (seen xs : List Text) → Apart (y ∷ seen) xs ↔ ((member y xs ≡ false) × Apart seen xs)
unfolding member
Apart-cons y seen [] = (λ h. (refl, tt), λ h. tt)
Apart-cons y seen (x ∷ xs) =
    let (to, from) = Apart-cons y seen xs in
    let (to', from') = member-cons x y seen in
    let (to'', from'') = member-cons y x xs in
    (
      λ (h, hs). let (n, s) = to' h in let (m, a) = to hs in (from'' (λ e. n (sym e), m), (s, a)),
      λ (m, (s, a)). let (n, m') = to'' m in (from' (λ e. n (sym e), s), from (m', a)),
    )

Unseen-Distinct : (seen xs : List Text) → Unseen seen xs ↔ (Distinct xs × Apart seen xs)
Unseen-Distinct seen [] = (λ h. (tt, tt), λ h. tt)
Unseen-Distinct seen (x ∷ xs) =
    let (to, from) = Unseen-Distinct (x ∷ seen) xs in
    let (to', from') = Apart-cons x seen xs in
    (
      λ (h, hs). let (d, a) = to hs in let (m, a') = to' a in ((m, d), (h, a')),
      λ ((m, d), (h, a)). (h, from (d, from' (m, a))),
    )

abbrev pub names_of : List Entry → List Text
names_of = map (λ e. e.name)

abbrev pub paths_of : List Entry → List Text
paths_of = map (λ e. e.path)

-- A manifest as it should be.
pub record IsManifest (fm : Formats) (m : Manifest) : Type 0 where
  pub schema : m.schema_version ≡ current_schema_version
  pub depth : is_negative m.retention.rollback_depth ≡ false
  pub entries_fit : All (λ e. validate_entry fm e ≡ ok tt) m.entries
  pub names : Distinct (names_of m.entries)
  pub paths : Distinct (paths_of m.entries)

validate_entries_iff :
    (fm : Formats) (names paths : List Text) (es : List Entry)
    → (validate_entries fm names paths es ≡ ok tt) ↔ (
        All (λ e. validate_entry fm e ≡ ok tt) es
        × Unseen names (names_of es)
        × Unseen paths (paths_of es))
unfolding validate_entries
validate_entries_iff fm names paths [] = (λ h. (tt, tt, tt), λ h. refl)
validate_entries_iff fm names paths (e ∷ es) =
    let (to, from) = validate_entries_iff fm (e.name ∷ names) (e.path ∷ paths) es in
    (
      λ h.
          let (v, n, p, rest) =
            parts (validate_entry fm e) (member e.name names) (member e.path paths) h in
          let (vs, ns, ps) = to rest in ((v, vs), (n, ns), (p, ps)),
      λ ((v, vs), (n, ns), (p, ps)). rw (v, n, p) (from (vs, ns, ps)),
    )
  where
    parts :
        (r : Result ManifestError Unit) (a b : Bool)
        → (r
            >> (refuse_if a (ManifestError.duplicate_entry_name e.name)
                >> (refuse_if b (ManifestError.duplicate_entry_path e.path)
                    >> validate_entries fm (e.name ∷ names) (e.path ∷ paths) es)))
          ≡ ok tt
        → (r ≡ ok tt)
          × (a ≡ false)
          × (b ≡ false)
          × (validate_entries fm (e.name ∷ names) (e.path ∷ paths) es ≡ ok tt)
    parts r a b h = (ground arith, ground arith, ground arith, ground arith)

-- The schema version 2 is current, and no other.
is_current_iff : (v : ℤ) → (is_current v ≡ true) ↔ (v ≡ current_schema_version)
is_current_iff (pos n) = (λ h. ap pos (ground arith), λ h. at_two n h)
  where
    at_two : (n : ℕ) → Path ℤ (pos n) (pos 2) → (n == 2) ≡ true
    at_two n e = let same : n ≡ 2 = cc in ground arith
is_current_iff (negsuc n) = (λ h. cc, λ h. cc)

-- A manifest is valid exactly where its schema is the current one, its rollback depth is not negative, each
-- entry is valid, and no two entries have a name or a path in common.
pub validate_iff : (fm : Formats) (m : Manifest) → (validate fm m ≡ ok tt) ↔ IsManifest fm m
unfolding validate
validate_iff fm m =
    let (to, from) = validate_entries_iff fm [] [] m.entries in
    let (to', from') = Unseen-Distinct [] (names_of m.entries) in
    let (to'', from'') = Unseen-Distinct [] (paths_of m.entries) in
    let (current, current') = is_current_iff m.schema_version in
    (
      λ h.
          let (c, d, rest) =
            parts (is_current m.schema_version) (is_negative m.retention.rollback_depth) h in
          let (v, ns, ps) = to rest in
          record {
            schema = current c;
            depth = d;
            entries_fit = v;
            names = (to' ns).0;
            paths = (to'' ps).0;
          },
      λ k.
          rw (current' k.schema, k.depth)
            (from (
              k.entries_fit,
              from' (k.names, apart (names_of m.entries)),
              from'' (k.paths, apart (paths_of m.entries)),
            )),
    )
  where
    apart : (xs : List Text) → Apart [] xs
    apart [] = tt
    apart (x ∷ xs) = (unfold member in refl, apart xs)

    parts :
        (a b : Bool)
        → (refuse_if (not a) ManifestError.not_normalized
            >> (refuse_if b ManifestError.negative_manifest_depth
                >> validate_entries fm [] [] m.entries))
          ≡ ok tt
        → (a ≡ true) × (b ≡ false) × (validate_entries fm [] [] m.entries ≡ ok tt)
    parts a b h = (ground arith, ground arith, ground arith)
