-- ===== src/Command.antt =====
-- cmd/upgrade.go: the pruning after an upgrade, which joins the transaction journal, the manifest, the lineage
-- of the entry and the store.
pub mod Pruning
mod Tests
use hukou.Prelude.{Text, pos, length, some, Option, List, map, Result, ok, err}
use hukou.Disk.{Node}
use hukou.Transaction.Inspect.{CheckError, check_clean}
use hukou.Manifest.{Event, Entry, Manifest, Formats}
use hukou.Manifest.Entries.{effective_retention}
use hukou.Activation.{ActivationError, ancestors}
use hukou.Store.{Env, Tool, StoreError, VersionRef}
use hukou.Store.Prune.{PruneRequest, Removal, prune_history}

pub data PruneError : Type 0 where
  unclean : CheckError → PruneError
  no_lineage : ActivationError → PruneError
  not_pruned : StoreError → PruneError

abbrev pub ref_of : Event → VersionRef
ref_of event = record { tag = event.tag; sha256 = event.sha256 }

-- The request for the entry, with the references of its ancestors.
unfoldable pub prune_request : Manifest → Entry → List Event → PruneRequest
unfolding effective_retention
prune_request m entry events = record {
  name = entry.name;
  current = record { tag = entry.tag; sha256 = entry.sha256 };
  pinned_tag = entry.update_policy.pinned_tag;
  ancestors = map ref_of events;
  retain_ancestors = (effective_retention m (some entry)).rollback_depth;
}

-- The error of the store as one of the command.
abbrev pub as_pruned : Result StoreError Unit × Tool → Result PruneError Unit × Tool
as_pruned (ok t, tool) = (ok t, tool)
as_pruned (err e, tool) = (err (not_pruned e), tool)

abbrev pub prune_with :
    Env
    → List Removal
    → Manifest
    → Entry
    → Result ActivationError (List Event)
    → Tool
    → Result PruneError Unit × Tool
prune_with env rs m entry (err e) tool = (err (no_lineage e), tool)
prune_with env rs m entry (ok events) tool =
    as_pruned (prune_history env rs (prune_request m entry events) tool)

abbrev pub when_clean :
    Result CheckError Unit → Tool → Result PruneError Unit × Tool → Result PruneError Unit × Tool
when_clean (err e) tool rest = (err (unclean e), tool)
when_clean (ok t) tool rest = rest

unfoldable pub prune_activation_history :
    Formats
    → Env
    → List Removal
    → Option Node
    → Manifest
    → Entry
    → Tool
    → Result PruneError Unit × Tool
unfolding check_clean ancestors prune_history prune_request
prune_activation_history fm env rs root m entry tool =
    when_clean (check_clean root) tool
      (prune_with env rs m entry (ancestors fm entry (pos (length entry.activations))) tool)
