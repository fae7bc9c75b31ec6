-- ===== src/Store/Bindings.antt =====
-- The references that a plan protects, and what is read for each.
use hukou.Prelude.{
  ◌≡◌, inl, inr, refl, sym, ◌∙◌, ap, subst, Text, true, not, Option, none, some, List, [], ◌∷◌, All,
  Member, arith, text_eq, text_eq_iff, Bool-cases, Result, Result-cases, ok, err, both-ok,
  refuse_if, ◌>>=◌,
}
use hukou.Store.{
  Artifact, one_binary, validate_activation_tag, Tool, Env, StoreError, VersionRef, in_tool,
  inspect_version, validate_name_tag,
}
use hukou.Store.Prune.{
  lowered, find_ref, keep_protected, verify_ref, verify_refs, validate_bound_ref, bind_protected,
}

found_same :
    (tag : Text) (refs : List VersionRef) (r : VersionRef)
    → find_ref tag refs ≡ some r
    → Member r refs × (r.tag ≡ tag)
unfolding find_ref
found_same tag [] r e = cc
found_same tag (x ∷ refs) r e = elim (Bool-cases (text_eq x.tag tag)) [
  | inl same ↦
      let is_x = found (rw same at e) in
      (inl (sym is_x), ap (λ y. y.tag) (sym is_x) ∙ (text_eq_iff x.tag tag).0 same)
  | inr other ↦ let (m, t) = found_same tag refs r (rw other at e) in (inr m, t)
]
  where
    found : some x ≡ some r → x ≡ r
    found eq = cc

-- A reference that is kept is in the map, with all that was there.
pub keep-Member :
    (protected : List VersionRef) (ref : VersionRef) (bs : List VersionRef)
    → keep_protected protected ref (find_ref ref.tag protected) ≡ ok bs
    → Member ref bs × ((x : VersionRef) → Member x protected → Member x bs)
unfolding keep_protected
keep-Member protected ref bs h = go (find_ref ref.tag protected) refl h
  where
    go :
        (o : Option VersionRef)
        → find_ref ref.tag protected ≡ o
        → keep_protected protected ref o ≡ ok bs
        → Member ref bs × ((x : VersionRef) → Member x protected → Member x bs)
    go none e k =
        let same : ref ∷ protected ≡ bs = cc in
        subst (λ l. Member ref l × ((x : VersionRef) → Member x protected → Member x l)) same
          (inl refl, λ x m. inr m)
    go (some r) e k = elim (Bool-cases (text_eq r.sha256 ref.sha256)) [
      | inl alike ↦
          let (m, t) = found_same ref.tag protected r e in
          let same : protected ≡ bs = same_list (rw alike at k) in
          let is_ref : r ≡ ref =
            λ i. record { tag = t i; sha256 = (text_eq_iff r.sha256 ref.sha256).0 alike i } in
          subst (λ l. Member ref l × ((x : VersionRef) → Member x protected → Member x l)) same
            (subst (λ y. Member y protected) is_ref m, λ x m'. m')
      | inr other ↦ absurd (refused (rw other at k))
    ]
      where
        same_list :
            Path (Result StoreError (List VersionRef)) (ok protected) (ok bs) → protected ≡ bs
        same_list eq = cc

        refused :
            Path (Result StoreError (List VersionRef)) (err StoreError.conflicting_digest) (ok bs)
            → ⊥
        refused eq = cc

module _ (env : Env) where
  -- One round of the loop over the protected references.
  bind-parts :
      (ref : VersionRef) (refs protected bs : List VersionRef)
      → bind_protected env protected (ref ∷ refs) ≡ ok bs
      → (p : List VersionRef) × (keep_protected protected (lowered ref) (find_ref ref.tag protected)
          ≡ ok p)
        × (bind_protected env p refs ≡ ok bs)
  unfolding bind_protected
  bind-parts ref refs protected bs h =
      go (validate_bound_ref env ref)
        (keep_protected protected (lowered ref) (find_ref ref.tag protected)) refl h
    where
      go :
          (v : Result StoreError Unit) (r : Result StoreError (List VersionRef))
          → keep_protected protected (lowered ref) (find_ref ref.tag protected) ≡ r
          → (v >>= λ _. r >>= λ p. bind_protected env p refs) ≡ ok bs
          → (p : List VersionRef) × (keep_protected protected
                (lowered ref)
                (find_ref ref.tag protected)
              ≡ ok p)
            × (bind_protected env p refs ≡ ok bs)
      go (err e) r eq k = cc
      go (ok t) (err e) eq k = cc
      go (ok t) (ok p) eq k = (p, eq, k)

  pub bind-Member :
      (refs protected bs : List VersionRef)
      → bind_protected env protected refs ≡ ok bs
      → All (λ ref. Member (lowered ref) bs) refs
        × ((x : VersionRef) → Member x protected → Member x bs)
  bind-Member [] protected bs h = (tt, λ x m. subst (Member x) (whole h) m)
    where
      whole : bind_protected env protected [] ≡ ok bs → protected ≡ bs
      whole h = unfold bind_protected in cc
  bind-Member (ref ∷ refs) protected bs h =
      let (p, eq, k) = bind-parts ref refs protected bs h in
      let (all, kept) = bind-Member refs p bs k in
      let (isin, before) = keep-Member protected (lowered ref) p eq in
      ((kept (lowered ref) isin, all), λ x m. kept x (before x m))

  inspect-parts :
      (tool : Tool) (name tag : Text) (o : VersionRef)
      → inspect_version env tool name tag ≡ ok o
      → o.tag ≡ tag
  unfolding inspect_version
  inspect-parts tool name tag o h =
      go (validate_name_tag env true name) (validate_activation_tag env tag) (in_tool env tag tool)
        h
    where
      binary :
          (b : Result StoreError Text)
          → (b >>= λ bytes. ok (record { tag = tag; sha256 = env.sha256_hex bytes })) ≡ ok o
          → o.tag ≡ tag
      binary (err e) k = cc
      binary (ok bytes) k =
          let same : (record { tag = tag; sha256 = env.sha256_hex bytes }) ≡ o = cc in
          ap (λ r. r.tag) (sym same)

      go :
          (a b : Result StoreError Unit) (c : Result StoreError (List Artifact))
          → (a >>= λ _. b >>= λ _. c >>= λ files. one_binary files >>= λ bytes.
              ok (record { tag = tag; sha256 = env.sha256_hex bytes }))
            ≡ ok o
          → o.tag ≡ tag
      go (err e) b c k = cc
      go (ok t) (err e) c k = cc
      go (ok t) (ok u) (err e) k = cc
      go (ok t) (ok u) (ok files) k = binary (one_binary files) k

  -- A reference that was verified is what is read.
  pub verified :
      (tool : Tool) (name : Text) (ref : VersionRef)
      → verify_ref env tool name ref ≡ ok tt
      → inspect_version env tool name ref.tag ≡ ok ref
  unfolding verify_ref
  verified tool name ref h = elim (Result-cases (inspect_version env tool name ref.tag)) [
    | inl (o, e) ↦
        let digest : text_eq o.sha256 ref.sha256 ≡ true = passed o (rw e at h) in
        let tag = inspect-parts tool name ref.tag o e in
        let same : o ≡ ref =
          λ i. record { tag = tag i; sha256 = (text_eq_iff o.sha256 ref.sha256).0 digest i } in
        e ∙ ap ok same
    | inr (x, e) ↦ absurd (refused x (rw e at h))
  ]
    where
      passed :
          (o : VersionRef)
          → refuse_if (not (text_eq o.sha256 ref.sha256)) StoreError.digest_mismatch ≡ ok tt
          → text_eq o.sha256 ref.sha256 ≡ true
      passed o h = ground arith

      refused : (x : StoreError) → Path (Result StoreError Unit) (err x) (ok tt) → ⊥
      refused x e = cc

  pub verify-All :
      (tool : Tool) (name : Text) (refs : List VersionRef)
      → verify_refs env tool name refs ≡ ok tt
      → (x : VersionRef) → Member x refs
      → inspect_version env tool name x.tag ≡ ok x
  verify-All tool name [] h x m = absurd m
  verify-All tool name (ref ∷ refs) h x m =
      let (a, b) =
        both-ok (verify_ref env tool name ref) (verify_refs env tool name refs)
          (unfold verify_refs in h) in
      elim m [
        | inl e ↦
            subst (λ r. inspect_version env tool name r.tag ≡ ok r) (sym e)
              (verified tool name ref a)
        | inr k ↦ verify-All tool name refs b x k
      ]
