-- ===== src/Command/Pruning.antt =====
-- What the pruning after an upgrade leaves: the versions that a rollback can lead to.
use hukou.Prelude.{
  ℕ, zero, suc, some, Option, ◌≡◌, refl, sym, ap, subst, ℤ, pos, negsuc, length, take, List, [],
  ◌∷◌, All, map, Result, ok, err,
}
use hukou.Disk.{Node}
use hukou.Transaction.Inspect.{CheckError, check_clean}
use hukou.Manifest.{Event, Entry, Manifest, Formats}
use hukou.Manifest.Entries.{effective_retention}
use hukou.Activation.{ActivationError, ancestors}
use hukou.Store.{Env, Tool, StoreError, VersionRef, inspect_version}
use hukou.Store.Prune.{lowered, Removal, prune_history}
use hukou.Store.Plans.{Safe, unplanned, pruned, prune_history-Safe}
use hukou.Command.{
  PruneError, ref_of, prune_request, as_pruned, prune_with, when_clean, prune_activation_history,
}

-- As many of the nearest events as the depth says.
abbrev pub nearest : ℤ → List Event → List Event
nearest (pos n) events = take n events
nearest (negsuc n) events = []

take-map : (n : ℕ) (es : List Event) → take n (map ref_of es) ≡ map ref_of (take n es)
take-map zero es = refl
take-map (suc n) [] = refl
take-map (suc n) (e ∷ es) = ap (λ l. ref_of e ∷ l) (take-map n es)

All-map :
    (P : VersionRef → Type 0) (es : List Event) → All P (map ref_of es) → All (λ e. P (ref_of e)) es
All-map P [] a = tt
All-map P (e ∷ es) (p, a) = (p, All-map P es a)

nearest-All :
    (P : VersionRef → Type 0) (depth : ℤ) (es : List Event)
    → ((n : ℕ) → depth ≡ pos n → All P (take n (map ref_of es)))
    → All (λ e. P (ref_of e)) (nearest depth es)
nearest-All P (pos n) es near = All-map P (take n es) (subst (All P) (take-map n es) (near n refl))
nearest-All P (negsuc n) es near = tt

module _ (fm : Formats) (env : Env) where
  -- A version of the tool that is there with its digest.
  abbrev pub Stored : Entry → Tool → VersionRef → Type 0
  Stored entry tool ref = inspect_version env tool entry.name ref.tag ≡ ok (lowered ref)

  -- The outcome of the pruning, as long as it runs or when it is over.
  pub data Retains (m : Manifest) (entry : Entry) (tool : Tool)
      (out : Result PruneError Unit × Tool) : Type 0 where
    untouched : (e : PruneError) → out ≡ (err e, tool) → Retains m entry tool out
    retains :
        (events : List Event)
        → ancestors fm entry (pos (length entry.activations)) ≡ ok events
        → Stored entry out.1 (record { tag = entry.tag; sha256 = entry.sha256 })
        → All
            (λ e. Stored entry out.1 (ref_of e))
            (nearest (effective_retention m (some entry)).rollback_depth events)
        → Retains m entry tool out

  as_pruned-tool : (out : Result StoreError Unit × Tool) → (as_pruned out).1 ≡ out.1
  as_pruned-tool (ok t, tool) = refl
  as_pruned-tool (err e, tool) = refl

  Retains-pruned :
      (m : Manifest) (entry : Entry) (tool : Tool) (events : List Event)
      (out : Result StoreError Unit × Tool)
      → ancestors fm entry (pos (length entry.activations)) ≡ ok events
      → Safe env tool (prune_request m entry events) out
      → Retains m entry tool (as_pruned out)
  unfolding prune_request
  Retains-pruned m entry tool events out a (unplanned e h same) =
      untouched (PruneError.not_pruned e) (ap as_pruned same)
  Retains-pruned m entry tool events out a (pruned installed original i o k) =
      let depth = (effective_retention m (some entry)).rollback_depth in
      let stored : Tool → VersionRef → Type 0 = λ t ref. Stored entry t ref in
      let near = nearest-All (stored out.1) depth events k.near in
      let back = sym (as_pruned-tool out) in
      retains events a
        (subst (λ t. stored t (record { tag = entry.tag; sha256 = entry.sha256 })) back k.in_use)
        (subst (λ t. All (λ e. stored t (ref_of e)) (nearest depth events)) back near)

  -- Pruning after an upgrade takes nothing that a rollback within the retention depth may need. Whatever
  -- removal fails, and wherever: either nothing was changed and there is an error, or the version in
  -- use and, of the ancestors of the entry, as many of the nearest as the effective retention says
  -- are all in the store with the digests that the lineage records, letter case aside.
  pub prune_activation_history-Retains :
      (rs : List Removal) (root : Option Node) (m : Manifest) (entry : Entry) (tool : Tool)
      → Retains m entry tool (prune_activation_history fm env rs root m entry tool)
  unfolding prune_activation_history
  prune_activation_history-Retains rs root m entry tool = clean (check_clean root)
    where
      with :
          (r : Result ActivationError (List Event))
          → ancestors fm entry (pos (length entry.activations)) ≡ r
          → Retains m entry tool (prune_with env rs m entry r tool)
      with (err e) a = untouched (PruneError.no_lineage e) refl
      with (ok events) a =
          Retains-pruned m entry tool events
            (prune_history env rs (prune_request m entry events) tool) a
            (prune_history-Safe env rs (prune_request m entry events) tool)

      clean :
          (c : Result CheckError Unit)
          → Retains m entry tool (
              when_clean c tool (
                prune_with env rs m entry
                  (ancestors fm entry (pos (length entry.activations)))
                  tool))
      clean (err e) = untouched (PruneError.unclean e) refl
      clean (ok t) = with (ancestors fm entry (pos (length entry.activations))) refl
