-- ===== src/Command/Tests.antt =====
-- The pruning after an upgrade at a concrete store.
use hukou.Prelude.{
  ◌≡◌, refl, Text, codes, some, [], ◌∷◌, ◌++◌, if◌then◌else◌, text_eq, ok, to_lower, all_hex,
}
use hukou.Disk.{directory, nil}
use hukou.Manifest.{Entry}
use hukou.Manifest.Samples.{plain, digest_a, digest_b, tool, manifest}
use hukou.Activation.{upgrade_event}
use hukou.Store.{Node, Entries, Env, Tool, version, regular}
use hukou.Command.{prune_activation_history}
use hukou.Command.Pruning.{Retains, prune_activation_history-Retains}

abbrev env : Env
env = record {
  equal_fold = text_eq;
  sha256_hex = λ s. if text_eq s (codes "one") then digest_a else digest_b;
}

-- An upgraded entry, its two versions and one that the lineage does not know.
abbrev upgraded : Entry
upgraded = record tool {
  activations =
      tool.activations ++ (upgrade_event tool (codes "e2") (codes "v2") digest_b (codes "t1") ∷ []);
  active_activation_id = codes "e2";
  tag = codes "v2";
  sha256 = digest_b;
  updated_at = codes "t1";
}

abbrev original_dir : Text × Node
original_dir = (codes "original", version (regular (codes "zero") ∷ []))

abbrev kept : Entries
kept =
    original_dir
    ∷ (codes "v1", version (regular (codes "one") ∷ []))
    ∷ (codes "v2", version (regular (codes "two") ∷ []))
    ∷ []

abbrev store : Tool
store = some (kept ++ ((codes "v9", version (regular (codes "nine") ∷ [])) ∷ []))

-- Only the version that the lineage does not know goes.
prunes :
    prune_activation_history plain env [] (some (directory nil)) manifest upgraded store
    ≡ (ok tt, some kept)
unfolding prune_activation_history all_hex to_lower text_eq
prunes = refl

prune_activation_history-Retains_example :
    Retains plain env manifest upgraded store
      (prune_activation_history plain env [] (some (directory nil)) manifest upgraded store)
prune_activation_history-Retains_example =
    prune_activation_history-Retains plain env [] (some (directory nil)) manifest upgraded store
