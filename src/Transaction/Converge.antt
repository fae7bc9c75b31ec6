-- ===== src/Transaction/Converge.antt =====
-- `convergeMutation` of internal/transaction/recover.go.
pub mod Safety
use hukou.Prelude.{Text, Bool, if◌then◌else◌}
use hukou.Disk.{Os}
use hukou.Disk.Effects.{◌>>=◌, ◌>>◌, pure, require}
use hukou.Journal.{State, Mutation, states_equal}
use hukou.Transaction.Errors.{drift, not_target, Tx}
use hukou.Transaction.Match.{matches_state, verify_state_payload, persist_matched_state}
use hukou.Transaction.Replace.{apply_state}

-- The state that a path comes from.
abbrev pub other_state : Mutation → State → State
other_state m target = if states_equal target m.before then m.after else m.before

module _ (os : Os) (dir : Text) where
  -- The target is there already: its durability is reasserted, unless it is a guard.
  reassert : Mutation → State → Tx Unit
  reassert m target = if states_equal m.before m.after then pure tt else do
    persist_matched_state m.path target
    still ← matches_state os m.path target
    require still (drift m.path)

  advance : Mutation → State → Tx Unit
  advance m target = do
    other ← matches_state os m.path (other_state m target)
    require other (drift m.path)
    verify_state_payload os dir target
    apply_state os dir m.path (other_state m target) target
    reached ← matches_state os m.path target
    require reached (not_target m.path)

  unfoldable pub converge_mutation : Mutation → State → Tx Unit
  unfolding reassert advance
  converge_mutation m target = do
    there ← matches_state os m.path target
    if there then reassert m target else advance m target
