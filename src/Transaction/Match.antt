-- ===== src/Transaction/Match.antt =====
-- `matchesState`, `verifyStatePayload`, `persistMatchedState` and `sha256File` of
-- internal/transaction: comparing a path or a payload with the state that the journal records.
pub mod Reads
use hukou.Prelude.{
  ℕ, Text, Bool, true, false, ◌&&◌, Option, none, some, ◌==◌, text_eq, if◌then◌else◌,
}
use hukou.Disk.{Node, regular, symlink, directory, World, Os, find}
use hukou.Disk.Effects.{◌>>=◌, ◌>>◌, pure, raise, require}
use hukou.Journal
use hukou.Journal.{Kind, State, kind_eq, is_base_name}
use hukou.Transaction.Errors.{
  TxError, not_exist, not_regular, unknown_kind, payload_escapes, payload_not_regular,
  payload_mismatch, topology_changed, Tx, touch, look,
}

-- The node at `filepath.Join(txRoot, dir, name)`.
unfoldable pub in_dir : World → Text → Text → Option Node
unfolding find
in_dir w dir name = elim (find dir w.root) [ some (directory l) ↦ find name l | _ ↦ none ]

module _ (os : Os) where
  -- What `safeopen.Open` and the digest make of the node that a path leads to.
  digest : Option Node → Tx Text
  digest (some (regular bytes mode)) = pure (os.sha256 bytes)
  digest (some _) = raise not_regular
  digest none = raise not_exist

  -- `sha256File` on a path outside the journal: links are followed.
  unfoldable pub sha256_file : Text → Tx Text
  unfolding digest
  sha256_file path = do node ← look (λ w. os.follow w.live path); digest node

  -- `sha256File(path) == want`
  same_digest : Text → Text → Tx Bool
  same_digest path want = do got ← sha256_file path; pure (text_eq got want)

  -- The `switch` of `matchesState`, on what `Lstat` found.
  match_node : Text → State → Kind → Node → Tx Bool
  unfolding same_digest
  match_node path s Kind.absent n = pure false
  match_node path s Kind.regular (regular bytes mode) =
      if mode == s.mode then same_digest path s.sha256 else pure false
  match_node path s Kind.regular _ = pure false
  match_node path s Kind.symlink (symlink target) =
      if text_eq target s.link_target then same_digest path s.sha256 else pure false
  match_node path s Kind.symlink _ = pure false
  match_node path s (Kind.unknown k) n = raise unknown_kind

  match_info : Text → State → Option Node → Tx Bool
  unfolding match_node
  match_info path s none = pure (kind_eq s.kind Kind.absent)
  match_info path s (some n) = match_node path s s.kind n

  unfoldable pub matches_state : Text → State → Tx Bool
  unfolding match_info
  matches_state path s = do info ← look (λ w. w.live path); match_info path s info

  -- The digest of a payload that `Lstat` found to be a regular file.
  payload_digest : Option Node → Tx Text
  payload_digest none = raise not_exist
  payload_digest (some (regular bytes mode)) = pure (os.sha256 bytes)
  payload_digest (some _) = raise payload_not_regular

  verify_regular : Text → State → Tx Unit
  unfolding payload_digest
  verify_regular dir s = do
    require (is_base_name s.payload) payload_escapes
    info ← look (λ w. in_dir w dir s.payload)
    got ← payload_digest info
    require (text_eq got s.sha256) payload_mismatch

  unfoldable pub verify_state_payload : Text → State → Tx Unit
  unfolding verify_regular
  verify_state_payload dir s = if kind_eq s.kind Kind.regular then verify_regular dir s else pure tt

-- The checks on the regular file that `persistMatchedState` syncs.
require_regular : Option Node → Tx Unit
require_regular none = raise not_exist
require_regular (some (regular bytes mode)) = pure tt
require_regular (some _) = raise topology_changed

persist_kind : Text → Kind → Tx Unit
unfolding require_regular
persist_kind path Kind.regular = do
  before ← look (λ w. w.live path)
  require_regular before
  touch
  touch
persist_kind path Kind.symlink = touch
persist_kind path Kind.absent = touch
persist_kind path (Kind.unknown k) = raise unknown_kind

unfoldable pub persist_matched_state : Text → State → Tx Unit
unfolding persist_kind
persist_matched_state path s = persist_kind path s.kind
