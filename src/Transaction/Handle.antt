-- ===== src/Transaction/Handle.antt =====
-- The Transaction type of internal/transaction/journal.go: `Apply`, `Verify`, `VerifyAfter`, `Commit`,
-- `Abort` and `Finalize`. A method returns the changed transaction; on an error the transaction is as it
-- was, since each method writes its fields last.
pub mod Marker
pub mod Decision
use hukou.Prelude.{
  Text, Bool, true, false, not, Option, none, some, List, [], ◌∷◌, text_eq, if◌then◌else◌, take, ℕ,
}
use hukou.Disk.{Node, Listing, regular, directory, World, Os, find, put}
use hukou.Disk.Effects
use hukou.Disk.Effects.{◌>>=◌, ◌>>◌, pure, raise, require}
use hukou.Journal.{State, Mutation, Intent}
use hukou.Journal.Commit.{decision}
use hukou.Transaction.Errors.{
  TxError, io, exists, not_exist, not_active, unknown_role, role_mismatch, abort_committed,
  not_committed, Tx, touch, change, look,
}
use hukou.Transaction.Match.{in_dir, matches_state}
use hukou.Transaction.Converge.{converge_mutation}
use hukou.Transaction.Finish.{
  commit_file_name, is_present, has_valid_commit, verify_intent_target, recover_loaded,
  finalize_directory,
}

pub record Transaction : Type 0 where
  pub dir : Text
  pub intent : Intent
  pub committed : Bool
  pub is_done : Bool

-- `mutation`: the first with the role.
unfoldable pub find_role : Text → List Mutation → Option Mutation
unfolding text_eq
find_role role [] = none
find_role role (m ∷ ms) = if text_eq m.role role then some m else find_role role ms

pub mutation : Transaction → Text → Option Mutation
mutation t role = find_role role t.intent.mutations

-- `Before` and `After`
pub before : Transaction → Text → Option State
before t role = elim (mutation t role) [ none ↦ none | some m ↦ some m.before ]

pub after : Transaction → Text → Option State
after t role = elim (mutation t role) [ none ↦ none | some m ↦ some m.after ]

known : Option Mutation → Tx Mutation
known none = raise unknown_role
known (some m) = pure m

-- `filepath.Join(dir, name)` made to hold a file.
write_in : Text → Text → Node → Option Node → Listing → Listing
write_in dir name n (some (directory l)) root = put dir (directory (put name n l)) root
write_in dir name n _ root = root

unfoldable pub write_file : Text → Text → Node → World → World
unfolding write_in find put
write_file dir name n w = record w { root = write_in dir name n (find dir w.root) w.root }

abbrev pub is_directory : Option Node → Bool
is_directory (some (directory l)) = true
is_directory _ = false

-- The marker after its first `k` bytes.
abbrev pub marker : Text → ℕ → Node
marker id k = regular (take k (decision id)) 384

module _ (os : Os) where
  unfoldable pub apply : Transaction → Text → Tx Unit
  unfolding known
  apply t role = do
    require (not t.is_done) not_active
    m ← known (mutation t role)
    converge_mutation os t.dir m m.after

  unfoldable pub verify : Transaction → Text → Bool → Tx Unit
  unfolding known
  verify t role after = do
    require (not t.is_done) not_active
    m ← known (mutation t role)
    matches ← matches_state os m.path (if after then m.after else m.before)
    require matches role_mismatch

  unfoldable pub verify_after : Transaction → Tx Unit
  verify_after t = do
    require (not t.is_done) not_active
    verify_intent_target os t.dir true t.intent.mutations

  -- The marker is created empty, written, synced and closed.
  pub write_marker : Text → Text → Tx Unit
  write_marker dir id = do
    parent ← look (λ w. find dir w.root)
    require (is_directory parent) not_exist
    old ← look (λ w. in_dir w dir commit_file_name)
    require (not (is_present old)) exists
    change (write_file dir commit_file_name (regular [] 384))
    Effects.effect io (λ k. write_file dir commit_file_name (marker id k))
        (write_file dir commit_file_name (regular (decision id) 384))
    touch
    touch
    touch

  unfoldable pub commit : Transaction → Tx Transaction
  unfolding write_marker
  commit t = do
    require (not t.is_done) not_active
    if t.committed
        then pure t
        else do verify_after t; write_marker t.dir t.intent.id; pure (record t { committed = true })

  unfoldable pub abort : Transaction → Tx Transaction
  abort t = if t.is_done then pure t else do
    require (not t.committed) abort_committed
    decided ← has_valid_commit t.dir t.intent.id
    require (not decided) abort_committed
    recover_loaded os t.dir t.intent false
    pure (record t { is_done = true })

  unfoldable pub finalize : Transaction → Tx Transaction
  finalize t = if t.is_done then pure t else do
    decided ← has_valid_commit t.dir t.intent.id
    require decided not_committed
    finalize_directory t.dir t.intent.id
    pure (record t { is_done = true })
