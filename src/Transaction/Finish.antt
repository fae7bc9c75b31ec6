-- ===== src/Transaction/Finish.antt =====
-- `recoverLoaded`, `verifyIntentTarget`, `hasValidCommit`, `finalizeDirectory` and
-- `removeJournalDirectory` of internal/transaction/recover.go.
pub mod Roots
pub mod Classify
pub mod Recovery
use hukou.Prelude.{
  ℕ, zero, suc, Text, codes, Bool, true, false, Option, none, some, List, [], ◌∷◌, ◌++◌, not, ltb,
  length, text_eq, if◌then◌else◌, ◌||◌, Result, ok, err,
}
use hukou.Disk.{Node, Listing, nil, entry, regular, directory, World, Os, find, put, remove}
use hukou.Disk.Effects
use hukou.Disk.Effects.{◌>>=◌, ◌>>◌, pure, raise, require}
use hukou.Journal.{State, Mutation, Intent}
use hukou.Journal.Commit.{MarkerError, classify_commit_marker}
use hukou.Transaction.Errors.{
  TxError, io, not_exist, exists, drift, not_target, marker_topology, invalid_marker,
  unexpected_path, Tx, touch, change, look,
}
use hukou.Transaction.Match.{in_dir, matches_state, verify_state_payload}
use hukou.Transaction.Converge.{converge_mutation}

abbrev pub pending_prefix : Text
pending_prefix = codes "pending-"

abbrev pub completed_prefix : Text
completed_prefix = codes "completed-"

abbrev pub intent_file_name : Text
intent_file_name = codes "intent.json"

abbrev pub commit_file_name : Text
commit_file_name = codes "COMMIT"

-- `target := mutation.Before; if after { target = mutation.After }`
abbrev pub target_of : Bool → Mutation → State
target_of after m = if after then m.after else m.before

-- The marker that `Lstat` and `ReadFile` find.
unfoldable pub marker_decision : Text → Option Node → Tx Bool
marker_decision id none = pure false
marker_decision id (some (regular bytes mode)) =
    if ltb 256 (length bytes)
    then raise marker_topology
    else elim (classify_commit_marker bytes id) [
      | ok committed ↦ pure committed
      | err e ↦ raise invalid_marker
    ]
marker_decision id (some _) = raise marker_topology

unfoldable pub has_valid_commit : Text → Text → Tx Bool
unfolding marker_decision
has_valid_commit dir id = do
  info ← look (λ w. in_dir w dir commit_file_name)
  marker_decision id info

-- A directory may replace an empty directory only.
abbrev is_free : Option Node → Bool
is_free none = true
is_free (some (directory nil)) = true
is_free (some _) = false

abbrev pub is_present : Option Node → Bool
is_present none = false
is_present (some n) = true

move : Text → Text → Option Node → Listing → Listing
move old new none l = l
move old new (some n) l = put new n (remove old l)

-- `durablefs.Rename` within the transaction root
unfoldable pub rename_dir : Text → Text → Tx Unit
unfolding move find put remove
rename_dir old new = do
  source ← look (λ w. find old w.root)
  require (is_present source) not_exist
  destination ← look (λ w. find new w.root)
  require (is_free destination) exists
  change (λ w. record w { root = move old new (find old w.root) w.root })
  touch

keep : ℕ → Listing → Listing
keep k nil = nil
keep zero (entry name n l) = nil
keep (suc k) (entry name n l) = entry name n (keep k l)

-- `os.RemoveAll` of a directory of the transaction root stops anywhere between its entries.
remove_partly : Text → ℕ → Option Node → Listing → Listing
unfolding keep
remove_partly name k (some (directory l)) root = put name (directory (keep k l)) root
remove_partly name k _ root = root

unfoldable pub remove_all : Text → Tx Unit
unfolding remove_partly find put remove
remove_all name = do
  info ← look (λ w. find name w.root)
  if not (is_present info) then touch else do
    Effects.effect io (λ k w. record w { root = remove_partly name k (find name w.root) w.root })
        (λ w. record w { root = remove name w.root })
    touch

unfoldable pub finalize_directory : Text → Text → Tx Unit
finalize_directory dir id = do
  require (text_eq dir (pending_prefix ++ id)) unexpected_path
  rename_dir dir (completed_prefix ++ id)
  remove_all (completed_prefix ++ id)

module _ (os : Os) (dir : Text) where
  verify_target : Mutation → State → Tx Unit
  verify_target m target = do
    verify_state_payload os dir target
    matches ← matches_state os m.path target
    require matches (not_target m.path)

  unfoldable pub verify_intent_target : Bool → List Mutation → Tx Unit
  unfolding verify_target
  verify_intent_target after [] = pure tt
  verify_intent_target after (m ∷ ms) = do
    verify_target m (target_of after m)
    verify_intent_target after ms

  -- One round of the classification loop.
  classify : Mutation → Tx Unit
  classify m = do
    before ← matches_state os m.path m.before
    after ← matches_state os m.path m.after
    require (before || after) (drift m.path)
    verify_state_payload os dir m.before
    verify_state_payload os dir m.after

  unfoldable pub classify_all : List Mutation → Tx Unit
  unfolding classify
  classify_all [] = pure tt
  classify_all (m ∷ ms) = do classify m; classify_all ms

  unfoldable pub converge_all : Bool → List Mutation → Tx Unit
  converge_all after [] = pure tt
  converge_all after (m ∷ ms) = do
    converge_mutation os dir m (target_of after m)
    converge_all after ms

  unfoldable pub recover_loaded : Intent → Bool → Tx Unit
  recover_loaded t committed = do
    classify_all t.mutations
    converge_all committed t.mutations
    verify_intent_target committed t.mutations
    finalize_directory dir t.id
