-- ===== src/Store/Removals.antt =====
-- Applying a plan: what is protected stays readable with its digest, whatever removal fails.
use hukou.Prelude.{
  ◌≡◌, ◌≢◌, inl, inr, refl, sym, ◌∙◌, ap, Text, true, false, not, ◌||◌, List, [], ◌∷◌, All, Member,
  is_nil, map, arith, text_eq_iff, member, Result, Result-cases, ok, err, refuse_if, ◌>>=◌, ◌>>◌,
}
use hukou.Store.{Tool, Env, StoreError, VersionRef, in_tool, inspect_version, validate_name_tag}
use hukou.Store.Prune.{
  PrunePlan, lowered, tags_of, verify_refs, validate_bound_ref, bind_protected, protects,
  check_deletions, preflight, Removal, left_after, next_removal, later_removals, removal_error,
  remove_from, go_on, remove_versions, apply_prune_plan,
}
use hukou.Store.Reads.{inspect-remove_from}
use hukou.Store.Bindings.{bind-Member, verify-All}

module _ (env : Env) where
  go_on-keeps :
      (name : Text) (ref : VersionRef) (r : Result StoreError Unit) (tool : Tool)
      (rest : Result StoreError Unit × Tool)
      → inspect_version env tool name ref.tag ≡ ok ref
      → inspect_version env rest.1 name ref.tag ≡ ok ref
      → inspect_version env (go_on r tool rest).1 name ref.tag ≡ ok ref
  unfolding go_on
  go_on-keeps name ref (err e) tool rest h k = h
  go_on-keeps name ref (ok t) tool rest h k = k

  -- The removals leave a version alone that is none of theirs.
  remove-keeps :
      (rs : List Removal) (refs : List VersionRef) (tool : Tool) (name : Text) (ref : VersionRef)
      → All (λ d. d.tag ≢ ref.tag) refs
      → inspect_version env tool name ref.tag ≡ ok ref
      → inspect_version env (remove_versions env rs refs tool).1 name ref.tag ≡ ok ref
  unfolding remove_versions
  remove-keeps rs [] tool name ref apart h = h
  remove-keeps rs (d ∷ refs) tool name ref (n, apart) h =
      let after =
        inspect-remove_from env ref.tag d.tag n (left_after (next_removal rs)) tool name ref h in
      let rest =
        remove-keeps (later_removals rs) refs
          (remove_from d.tag (left_after (next_removal rs)) tool) name ref apart after in
      let last =
        go_on-keeps name ref (removal_error (next_removal rs))
          (remove_from d.tag (left_after (next_removal rs)) tool) _ after rest in
      go_on-keeps name ref (in_tool env d.tag tool >>= λ files. ok tt) tool _ h last

  -- A deletion is of no protected tag.
  deletions-apart :
      (kept seen : List Text) (refs : List VersionRef)
      → check_deletions env kept seen refs ≡ ok tt
      → All (λ d. member d.tag kept ≡ false) refs
  deletions-apart kept seen [] h = tt
  deletions-apart kept seen (ref ∷ refs) h =
      let (a, b) = step (unfold check_deletions in h) in
      (a, deletions-apart kept (ref.tag ∷ seen) refs b)
    where
      step :
          (validate_bound_ref env ref
              >> (refuse_if (member ref.tag kept) StoreError.protected_and_deleted
                  >> (refuse_if (member ref.tag seen) StoreError.duplicate_deletion
                      >> check_deletions env kept (ref.tag ∷ seen) refs)))
            ≡ ok tt
          → (member ref.tag kept ≡ false) × (check_deletions env kept (ref.tag ∷ seen) refs ≡ ok tt)
      step h = (ground arith, ground arith)

  -- What applying a plan can come to: it is refused, or carried out as far as the removals succeed.
  pub data Keeps (tool : Tool) (plan : PrunePlan) (out : Result StoreError Unit × Tool)
      : Type 0 where
    refused :
        (e : StoreError)
        → preflight env tool plan ≡ err e
        → out ≡ (err e, tool)
        → Keeps tool plan out
    applied :
        preflight env tool plan ≡ ok tt
        → All (λ ref. inspect_version env out.1 plan.name ref.tag ≡ ok (lowered ref)) plan.protected
        → ((ref : VersionRef)
            → All (λ d. d.tag ≢ ref.tag) plan.delete
            → inspect_version env tool plan.name ref.tag ≡ ok ref
            → inspect_version env out.1 plan.name ref.tag ≡ ok ref)
        → Keeps tool plan out

  -- The parts of a preflight that passed.
  preflight-parts :
      (tool : Tool) (plan : PrunePlan)
      → preflight env tool plan ≡ ok tt
      → (bs : List VersionRef) × (bind_protected env [] plan.protected ≡ ok bs)
        × (check_deletions env (tags_of bs) [] plan.delete ≡ ok tt)
        × (verify_refs env tool plan.name bs ≡ ok tt)
  unfolding preflight
  preflight-parts tool plan h = go (bind_protected env [] plan.protected) refl h
    where
      go :
          (r : Result StoreError (List VersionRef))
          → bind_protected env [] plan.protected ≡ r
          → (validate_name_tag env true plan.name >>= λ _.
              refuse_if
                (is_nil plan.current.tag || is_nil plan.current.sha256)
                StoreError.unbound_ref
              >>= λ _. r >>= λ p.
                  refuse_if
                    (not (protects plan.current plan.protected))
                    StoreError.current_not_protected
                  >>= λ _. check_deletions env (tags_of p) [] plan.delete >>= λ _.
                      verify_refs env tool plan.name p >>= λ _.
                      verify_refs env tool plan.name (map lowered plan.delete))
            ≡ ok tt
          → (bs : List VersionRef) × (bind_protected env [] plan.protected ≡ ok bs)
            × (check_deletions env (tags_of bs) [] plan.delete ≡ ok tt)
            × (verify_refs env tool plan.name bs ≡ ok tt)
      go (err e) eq k = ground arith
      go (ok bs) eq k = (bs, eq, ground arith, ground arith)

  pub Member-tags_of :
      (x : VersionRef) (bs : List VersionRef) → Member x bs → member x.tag (tags_of bs) ≡ true
  unfolding member
  Member-tags_of x [] m = absurd m
  Member-tags_of x (b ∷ bs) (inl e) = rw ((text_eq_iff x.tag b.tag).1 (ap (λ r. r.tag) e)) refl
  Member-tags_of x (b ∷ bs) (inr m) = rw (Member-tags_of x bs m) (ground arith)

  deletions-distinct :
      (tag : Text) (kept : List Text) (refs : List VersionRef)
      → member tag kept ≡ true
      → All (λ d. member d.tag kept ≡ false) refs
      → All (λ d. d.tag ≢ tag) refs
  deletions-distinct tag kept [] m a = tt
  deletions-distinct tag kept (d ∷ refs) m (n, a) =
      (λ e. clash e, deletions-distinct tag kept refs m a)
    where
      clash : d.tag ≡ tag → ⊥
      clash e = let n' : member tag kept ≡ false = ap (λ t. member t kept) (sym e) ∙ n in cc

  protected-stay :
      (rs : List Removal) (tool : Tool) (name : Text) (bs refs deletes : List VersionRef)
      → All (λ ref. Member (lowered ref) bs) refs
      → All (λ d. member d.tag (tags_of bs) ≡ false) deletes
      → ((x : VersionRef) → Member x bs → inspect_version env tool name x.tag ≡ ok x)
      → All
          (λ ref.
            inspect_version env (remove_versions env rs deletes tool).1 name ref.tag
            ≡ ok (lowered ref))
          refs
  protected-stay rs tool name bs [] deletes a d v = tt
  protected-stay rs tool name bs (ref ∷ refs) deletes (m, a) d v = (
    remove-keeps rs deletes tool name (lowered ref)
        (deletions-distinct ref.tag (tags_of bs) deletes (Member-tags_of (lowered ref) bs m) d)
        (v (lowered ref) m),
    protected-stay rs tool name bs refs deletes a d v,
  )

  -- A version that the plan does not delete is left alone.
  pub apply_prune_plan-others :
      (rs : List Removal) (plan : PrunePlan) (tool : Tool) (ref : VersionRef)
      → All (λ d. d.tag ≢ ref.tag) plan.delete
      → inspect_version env tool plan.name ref.tag ≡ ok ref
      → inspect_version env (apply_prune_plan env rs plan tool).1 plan.name ref.tag ≡ ok ref
  unfolding apply_prune_plan
  apply_prune_plan-others rs plan tool ref apart h =
      go_on-keeps plan.name ref (preflight env tool plan) tool
        (remove_versions env rs plan.delete tool) h
        (remove-keeps rs plan.delete tool plan.name ref apart h)

  -- A plan that does not pass the checks changes nothing. With one that does, whatever removal fails and however
  -- far it came: every protected version is read with its digest, before and after, and every
  -- version that the plan does not delete is read as before.
  pub apply_prune_plan-Keeps :
      (rs : List Removal) (plan : PrunePlan) (tool : Tool)
      → Keeps tool plan (apply_prune_plan env rs plan tool)
  unfolding apply_prune_plan go_on
  apply_prune_plan-Keeps rs plan tool = elim (Result-cases (preflight env tool plan)) [
    | inl (t, h) ↦
        let (bs, bound, deletions, checked) = preflight-parts tool plan h in
        applied h
          (rw h (
            protected-stay rs tool plan.name bs plan.protected plan.delete
              (bind-Member env plan.protected [] bs bound).0
              (deletions-apart (tags_of bs) [] plan.delete deletions)
              (verify-All env tool plan.name bs checked)))
          (apply_prune_plan-others rs plan tool)
    | inr (e, h) ↦ refused e h (rw h refl)
  ]
