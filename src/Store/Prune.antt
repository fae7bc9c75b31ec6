-- ===== src/Store/Prune.antt =====
-- internal/store/store.go: `PlanPrune`, `ApplyPrunePlan` and `PruneHistory`. The maps from tags are lists, and what
-- is checked in the order of a map is checked in that of the list.
use hukou.Prelude.{
  ℤ, pos, negsuc, is_negative, Text, Bool, true, false, not, ◌&&◌, ◌||◌, Option, none, some, List,
  [], ◌∷◌, ◌++◌, map, ◌==◌, if◌then◌else◌, is_nil, length, take, text_eq, text_lt, to_lower,
  all_hex, member, sort_slice, Result, ok, err, refuse_if, ◌>>=◌, ◌>>◌,
}
use hukou.Store.{
  Node, Entries, Tool, Env, StoreError, VersionRef, original_tag, validate_name_tag,
  validate_activation_tag, resolve_child, in_tool, inspect_version, installed_versions, original,
  unbound_ref, negative_count, conflicting_digest, digest_mismatch, current_not_protected,
  protected_and_deleted, duplicate_deletion, invalid_digest, remove_failed,
}

pub record PruneRequest : Type 0 where
  pub name : Text
  pub current : VersionRef
  pub pinned_tag : Text
  pub ancestors : List VersionRef
  pub retain_ancestors : ℤ

pub record PrunePlan : Type 0 where
  pub name : Text
  pub current : VersionRef
  pub protected : List VersionRef
  pub delete : List VersionRef

abbrev pub tags_of : List VersionRef → List Text
tags_of = map (λ ref. ref.tag)

abbrev pub lowered : VersionRef → VersionRef
lowered ref = record { tag = ref.tag; sha256 = to_lower ref.sha256 }

unfoldable pub find_ref : Text → List VersionRef → Option VersionRef
unfolding text_eq
find_ref tag [] = none
find_ref tag (ref ∷ refs) = if text_eq ref.tag tag then some ref else find_ref tag refs

-- The map under the tag of a reference: one with the digest is there already, or it is new.
unfoldable pub keep_protected :
    List VersionRef → VersionRef → Option VersionRef → Result StoreError (List VersionRef)
unfolding text_eq
keep_protected protected ref none = ok (ref ∷ protected)
keep_protected protected ref (some existing) =
    if text_eq existing.sha256 ref.sha256 then ok protected else err conflicting_digest

unfoldable pub add_protected :
    Env → List VersionRef → VersionRef → Result StoreError (List VersionRef)
unfolding validate_activation_tag find_ref keep_protected to_lower
add_protected env protected ref = do
  refuse_if (is_nil ref.tag || is_nil ref.sha256) unbound_ref
  validate_activation_tag env ref.tag
  keep_protected protected (lowered ref) (find_ref ref.tag protected)

unfoldable pub add_all :
    Env → List VersionRef → List VersionRef → Result StoreError (List VersionRef)
unfolding add_protected
add_all env protected [] = ok protected
add_all env protected (ref ∷ refs) = do
  protected' ← add_protected env protected ref
  add_all env protected' refs

abbrev pub some_ref : Option VersionRef → List VersionRef
some_ref none = []
some_ref (some ref) = ref ∷ []

-- The version of an exact pin, if it is installed.
unfoldable pub pinned_ref : Text → List VersionRef → List VersionRef
unfolding find_ref
pinned_ref pin installed = if is_nil pin then [] else some_ref (find_ref pin installed)

unfoldable pub verify_ref : Env → Tool → Text → VersionRef → Result StoreError Unit
unfolding inspect_version text_eq
verify_ref env tool name ref = do
  observed ← inspect_version env tool name ref.tag
  refuse_if (not (text_eq observed.sha256 ref.sha256)) digest_mismatch

unfoldable pub verify_refs : Env → Tool → Text → List VersionRef → Result StoreError Unit
unfolding verify_ref
verify_refs env tool name [] = ok tt
verify_refs env tool name (ref ∷ refs) = do
  verify_ref env tool name ref
  verify_refs env tool name refs

-- The installed versions that are not protected.
unfoldable pub unprotected : List Text → List VersionRef → List VersionRef
unfolding member
unprotected kept [] = []
unprotected kept (ref ∷ refs) =
    let rest = unprotected kept refs in if member ref.tag kept then rest else ref ∷ rest

abbrev pub tag_less : VersionRef → VersionRef → Bool
tag_less a b = text_lt a.tag b.tag

-- min(request.RetainAncestors, len(request.Ancestors)) of the ancestors; a negative count was refused.
abbrev pub retained : ℤ → List VersionRef → List VersionRef
retained (pos n) refs = take n refs
retained (negsuc n) refs = []

-- The references that `PlanPrune` protects, in its order.
abbrev pub protected_refs : PruneRequest → VersionRef → List VersionRef → List VersionRef
protected_refs request original installed =
    request.current ∷ original ∷ retained request.retain_ancestors request.ancestors
    ++ pinned_ref request.pinned_tag installed

unfoldable pub check_request : Env → PruneRequest → Result StoreError Unit
unfolding validate_name_tag validate_activation_tag
check_request env request = do
  validate_name_tag env true request.name
  refuse_if (is_negative request.retain_ancestors) negative_count
  refuse_if (is_nil request.current.tag || is_nil request.current.sha256) unbound_ref
  validate_activation_tag env request.current.tag
  (if is_nil request.pinned_tag then ok tt else validate_name_tag env false request.pinned_tag)

unfoldable pub plan_prune : Env → Tool → PruneRequest → Result StoreError PrunePlan
unfolding check_request installed_versions inspect_version add_all pinned_ref verify_refs
    unprotected sort_slice text_lt
plan_prune env tool request = do
  check_request env request
  installed ← installed_versions env tool request.name
  original ← inspect_version env tool request.name original_tag
  protected ← add_all env [] (protected_refs request original installed)
  verify_refs env tool request.name protected
  ok (record {
    name = request.name;
    current = lowered request.current;
    protected = sort_slice tag_less protected;
    delete = sort_slice tag_less (unprotected (tags_of protected) installed);
  })

unfoldable pub validate_bound_ref : Env → VersionRef → Result StoreError Unit
unfolding validate_activation_tag
validate_bound_ref env ref = do
  refuse_if (is_nil ref.tag || is_nil ref.sha256) unbound_ref
  validate_activation_tag env ref.tag
  refuse_if (not (length ref.sha256 == 64)) invalid_digest
  refuse_if (not (all_hex ref.sha256)) invalid_digest

-- The loop over the protected references of a plan; the map it fills is returned.
unfoldable pub bind_protected :
    Env → List VersionRef → List VersionRef → Result StoreError (List VersionRef)
unfolding validate_bound_ref keep_protected find_ref to_lower
bind_protected env protected [] = ok protected
bind_protected env protected (ref ∷ refs) = do
  validate_bound_ref env ref
  protected' ← keep_protected protected (lowered ref) (find_ref ref.tag protected)
  bind_protected env protected' refs

-- The current version is among the protected ones, with its digest.
unfoldable pub protects : VersionRef → List VersionRef → Bool
unfolding text_eq to_lower
protects current [] = false
protects current (ref ∷ refs) =
    text_eq ref.tag current.tag && text_eq (to_lower ref.sha256) (to_lower current.sha256)
    || protects current refs

unfoldable pub check_deletions :
    Env → List Text → List Text → List VersionRef → Result StoreError Unit
unfolding validate_bound_ref member
check_deletions env kept seen [] = ok tt
check_deletions env kept seen (ref ∷ refs) = do
  validate_bound_ref env ref
  refuse_if (member ref.tag kept) protected_and_deleted
  refuse_if (member ref.tag seen) duplicate_deletion
  check_deletions env kept (ref.tag ∷ seen) refs

-- All that `ApplyPrunePlan` does before the first removal.
unfoldable pub preflight : Env → Tool → PrunePlan → Result StoreError Unit
unfolding validate_name_tag bind_protected protects check_deletions verify_refs to_lower
preflight env tool plan = do
  validate_name_tag env true plan.name
  refuse_if (is_nil plan.current.tag || is_nil plan.current.sha256) unbound_ref
  protected ← bind_protected env [] plan.protected
  refuse_if (not (protects plan.current plan.protected)) current_not_protected
  check_deletions env (tags_of protected) [] plan.delete
  verify_refs env tool plan.name protected
  verify_refs env tool plan.name (map lowered plan.delete)

-- What a call of `RemoveAll` does: it succeeds, or fails with the directory in some state, or gone.
pub data Removal : Type 0 where
  removes : Removal
  fails : Option Node → Removal

abbrev pub left_after : Removal → Option Node
left_after removes = none
left_after (fails left) = left

abbrev pub put_back : Text → Option Node → Entries → Entries
put_back name none es = es
put_back name (some node) es = (name, node) ∷ es

-- The entry under a name becomes what is left of it.
unfoldable pub remove_entry : Text → Option Node → Entries → Entries
unfolding text_eq
remove_entry tag left [] = []
remove_entry tag left ((name, node) ∷ es) =
    if text_eq name tag then put_back tag left es else (name, node) ∷ remove_entry tag left es

abbrev pub remove_from : Text → Option Node → Tool → Tool
remove_from tag left none = none
remove_from tag left (some es) = some (remove_entry tag left es)

abbrev pub next_removal : List Removal → Removal
next_removal [] = removes
next_removal (r ∷ rs) = r

abbrev pub later_removals : List Removal → List Removal
later_removals [] = []
later_removals (r ∷ rs) = rs

abbrev pub removal_error : Removal → Result StoreError Unit
removal_error removes = ok tt
removal_error (fails left) = err remove_failed

-- `if err != nil { return err }`, with the directory as it is then.
unfoldable pub go_on :
    Result StoreError Unit → Tool → Result StoreError Unit × Tool → Result StoreError Unit × Tool
go_on (err e) tool rest = (err e, tool)
go_on (ok t) tool rest = rest

-- The loop of the removals, with the outcome of each; the result, and the directory after.
unfoldable pub remove_versions :
    Env → List Removal → List VersionRef → Tool → Result StoreError Unit × Tool
unfolding resolve_child remove_entry go_on
remove_versions env rs [] tool = (ok tt, tool)
remove_versions env rs (ref ∷ refs) tool =
    let after = remove_from ref.tag (left_after (next_removal rs)) tool in
    let rest = remove_versions env (later_removals rs) refs after in
    go_on (in_tool env ref.tag tool >>= λ files. ok tt) tool
      (go_on (removal_error (next_removal rs)) after rest)

unfoldable pub apply_prune_plan :
    Env → List Removal → PrunePlan → Tool → Result StoreError Unit × Tool
unfolding preflight remove_versions go_on
apply_prune_plan env rs plan tool =
    let run = remove_versions env rs plan.delete tool in go_on (preflight env tool plan) tool run

abbrev pub apply_planned :
    Env → List Removal → Result StoreError PrunePlan → Tool → Result StoreError Unit × Tool
apply_planned env rs (err e) tool = (err e, tool)
apply_planned env rs (ok plan) tool = apply_prune_plan env rs plan tool

unfoldable pub prune_history :
    Env → List Removal → PruneRequest → Tool → Result StoreError Unit × Tool
unfolding plan_prune apply_prune_plan
prune_history env rs request tool = apply_planned env rs (plan_prune env tool request) tool
