-- ===== src/Store/Tests.antt =====
-- Runs of the pruning, and the theorems at a concrete directory.
use hukou.Prelude.{
  ◌≡◌, refl, Text, codes, ℕ, zero, suc, pos, some, [], ◌∷◌, text_eq, all_hex, to_lower, ok, err,
}
use hukou.Store.{Tool, Env, VersionRef, version, regular, digest_mismatch, remove_failed}
use hukou.Store.Prune.{PruneRequest, PrunePlan, fails, plan_prune, apply_prune_plan, prune_history}
use hukou.Store.Removals.{Keeps, apply_prune_plan-Keeps}
use hukou.Store.Plans.{Plans, plan_prune-Plans, Safe, prune_history-Safe}

abbrev repeated : ℕ → ℕ → Text
repeated zero c = []
repeated (suc n) c = c ∷ repeated n c

-- The digest repeats the first byte.
abbrev digest_of : Text → Text
digest_of [] = repeated 64 b'0'
digest_of (c ∷ s) = repeated 64 c

abbrev env : Env
env = record { equal_fold = text_eq; sha256_hex = digest_of }

abbrev ref : Text → Text → VersionRef
ref tag bytes = record { tag = tag; sha256 = digest_of bytes }

abbrev tool : Tool
tool = some (
    (codes "original", version (regular (codes "e") ∷ []))
    ∷ (codes "v1", version (regular (codes "a") ∷ []))
    ∷ (codes "v2", version (regular (codes "b") ∷ []))
    ∷ (codes "v3", version (regular (codes "c") ∷ []))
    ∷ [])

abbrev request : PruneRequest
request = record {
  name = codes "tool";
  current = ref (codes "v3") (codes "c");
  pinned_tag = codes "v2";
  ancestors = ref (codes "v2") (codes "b") ∷ ref (codes "v1") (codes "a") ∷ [];
  retain_ancestors = pos 1;
}

abbrev plan : PrunePlan
plan = record {
  name = codes "tool";
  current = ref (codes "v3") (codes "c");
  protected =
      ref (codes "original") (codes "e")
      ∷ ref (codes "v2") (codes "b")
      ∷ ref (codes "v3") (codes "c")
      ∷ [];
  delete = ref (codes "v1") (codes "a") ∷ [];
}

plans : plan_prune env tool request ≡ ok plan
unfolding plan_prune to_lower text_eq
plans = refl

-- Only the version that is no longer needed goes.
prunes : prune_history env [] request tool ≡ (
  ok tt,
  some (
      (codes "original", version (regular (codes "e") ∷ []))
      ∷ (codes "v2", version (regular (codes "b") ∷ []))
      ∷ (codes "v3", version (regular (codes "c") ∷ []))
      ∷ []),
)
unfolding prune_history to_lower text_eq all_hex
prunes = refl

-- A version that has another digest than the one in use is not pruned around.
changed_refused :
    plan_prune env tool (record request { current = ref (codes "v3") (codes "a") })
    ≡ err digest_mismatch
unfolding plan_prune to_lower text_eq
changed_refused = refl

failed_removal :
    (prune_history env (fails (some (version [])) ∷ []) request tool).0 ≡ err remove_failed
unfolding prune_history to_lower text_eq all_hex
failed_removal = refl

prune_history-Safe_example :
    Safe env tool request (prune_history env (fails (some (version [])) ∷ []) request tool)
prune_history-Safe_example = prune_history-Safe env (fails (some (version [])) ∷ []) request tool

plan_prune-Plans_example : Plans env tool request plan
plan_prune-Plans_example = plan_prune-Plans env tool request plan plans

apply_prune_plan-Keeps_example : Keeps env tool plan (apply_prune_plan env [] plan tool)
apply_prune_plan-Keeps_example = apply_prune_plan-Keeps env [] plan tool
