-- ===== src/Store/Reads.antt =====
-- The reading of a version is not changed by what becomes of another.
use hukou.Prelude.{
  ◌≡◌, ◌≢◌, inl, inr, sym, ◌∙◌, subst, Text, true, false, Option, none, some, List, [], ◌∷◌,
  text_eq, text_eq_iff, Bool-cases, Result, Result-cases, ok, err, ◌>>=◌,
}
use hukou.Store.{
  Artifact, Node, Entries, Tool, Env, StoreError, VersionRef, resolve_child, in_tool,
  validate_name_tag, validate_activation_tag, inspect_version,
}
use hukou.Store.Prune.{put_back, remove_entry, remove_from}

module _ (env : Env) (requested gone : Text) (apart : gone ≢ requested) (left : Option Node) where
  -- What is left under another name is passed over.
  resolve-put_back :
      (es : Entries) (files : List Artifact)
      → env.equal_fold gone requested ≡ false
      → resolve_child env requested es ≡ ok files
      → resolve_child env requested (put_back gone left es) ≡ ok files
  unfolding resolve_child
  resolve-put_back es files f h = go left
    where
      go : (left : Option Node) → resolve_child env requested (put_back gone left es) ≡ ok files
      go none = h
      go (some node) = rw f h

  resolve-remove_entry :
      (es : Entries) (files : List Artifact)
      → resolve_child env requested es ≡ ok files
      → resolve_child env requested (remove_entry gone left es) ≡ ok files
  unfolding resolve_child remove_entry
  resolve-remove_entry [] files h = h
  resolve-remove_entry ((name, node) ∷ es) files h =
      elim (Bool-cases (env.equal_fold name requested)) [
        | inl alike ↦ elim (Bool-cases (text_eq name requested)) [
          | inl same ↦
              rw (stays ((text_eq_iff name requested).0 same), alike, same) (rw (alike, same) at h)
          | inr other ↦ absurd (refused (rw (alike, other) at h))
        ]
        | inr unlike ↦ elim (Bool-cases (text_eq name gone)) [
          | inl same ↦ rw same (
              resolve-put_back es files
                (subst (λ n. env.equal_fold n requested ≡ false) ((text_eq_iff name gone).0 same)
                  unlike)
                (rw unlike at h))
          | inr other ↦ rw (other, unlike) (resolve-remove_entry es files (rw unlike at h))
        ]
      ]
    where
      refused : Path (Result StoreError (List Artifact)) (err StoreError.case_alias) (ok files) → ⊥
      refused e = cc

      stays : name ≡ requested → text_eq name gone ≡ false
      stays e = elim (Bool-cases (text_eq name gone)) [
        | inl same ↦ absurd (apart (sym ((text_eq_iff name gone).0 same) ∙ e))
        | inr other ↦ other
      ]

  in_tool-remove_from :
      (tool : Tool) (files : List Artifact)
      → in_tool env requested tool ≡ ok files
      → in_tool env requested (remove_from gone left tool) ≡ ok files
  in_tool-remove_from none files h = h
  in_tool-remove_from (some es) files h = resolve-remove_entry es files h

  -- A version that was read stays as it was.
  pub inspect-remove_from :
      (tool : Tool) (name : Text) (ref : VersionRef)
      → inspect_version env tool name requested ≡ ok ref
      → inspect_version env (remove_from gone left tool) name requested ≡ ok ref
  unfolding inspect_version
  inspect-remove_from tool name ref h = elim (Result-cases (in_tool env requested tool)) [
    | inl (files, e) ↦ rw (in_tool-remove_from tool files e) (rw e at h)
    | inr (x, e) ↦ absurd (
        missing_version (validate_name_tag env true name) (validate_activation_tag env requested) x
          (rw e at h))
  ]
    where
      missing_version :
          (a b : Result StoreError Unit) (x : StoreError)
          → (a >>= λ _. b >>= λ _. err x) ≡ ok ref
          → ⊥
      missing_version (ok t) (ok u) x e = cc
      missing_version (ok t) (err y) x e = cc
      missing_version (err y) b x e = cc
