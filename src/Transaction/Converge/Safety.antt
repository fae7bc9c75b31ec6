-- ===== src/Transaction/Converge/Safety.antt =====
-- `convergeMutation`: what it can leave behind, and what its success means.
use hukou.Prelude.{Text, true, ◌≡◌, List, Bool-cases, inl, inr}
use hukou.Disk.{World, Os}
use hukou.Disk.Effects.{Fault, ◌>>=◌, pure, require}
use hukou.Disk.Holds.{Holds, Holds-seq, Holds-map, require-Holds, require->>}
use hukou.Journal.{State, Mutation, states_equal}
use hukou.Transaction.Errors.{drift, not_target}
use hukou.Transaction.Match.{matches_state}
use hukou.Transaction.Match.Reads.{
  matches, matches_state->>=, verify_state_payload->>, persist_matched_state->>,
}
use hukou.Transaction.Replace.{apply_state}
use hukou.Transaction.Beside.Near.{Side, Side-refl}
use hukou.Transaction.Replace.Effect.{Moves, stays, apply_state-Holds}
use hukou.Transaction.Converge.{reassert, advance, other_state, converge_mutation}

module _ (os : Os) (dir : Text) (m : Mutation) (target : State) (w : World) where
  abbrev pub Converges : World → Type 0
  Converges = Moves os m.path (other_state m target) target w

  abbrev Reaches : Unit {0} → World → Type 0
  Reaches u w' = Converges w' × (matches os w'.live m.path target ≡ true)

  same : Side os m.path w w
  same = Side-refl os m.path w

  reassert-Holds :
      (fs : List Fault)
      → matches os w.live m.path target ≡ true
      → Holds (reassert os dir m target w fs) Reaches Converges
  unfolding reassert
  reassert-Holds fs there = elim (Bool-cases (states_equal m.before m.after)) [
    | inl guard ↦ rw guard (unfold pure in (stays same, there))
    | inr mutable ↦ rw mutable (
        persist_matched_state->> w Converges (stays same) Reaches m.path target _ fs (λ fs1.
          matches_state->>= os w Reaches Converges (stays same) m.path target _ fs1 (λ fs2.
            Holds-map _ Converges Reaches Converges (λ a w' (still, e). rw e (stays same, still))
              (λ w' c. c) _
              (require-Holds w Converges (matches os w.live m.path target) (drift m.path) fs2
                (stays same)))))
  ]

  advance-Holds : (fs : List Fault) → Holds (advance os dir m target w fs) Reaches Converges
  unfolding advance
  advance-Holds fs =
      matches_state->>= os w Reaches Converges (stays same) m.path (other_state m target) _ fs
        (λ fs1. require->> w Reaches Converges (stays same) _ (drift m.path) _ fs1 (λ _.
          verify_state_payload->> os w Converges (stays same) Reaches dir target _ fs1 (λ good fs2.
            Holds-seq Converges Reaches Converges
              (apply_state os dir m.path (other_state m target) target) _ w fs2
              (apply_state-Holds os dir m.path (other_state m target) target w fs2 good)
              (λ w' fs3 moved. check w' fs3 moved))))
    where
      check :
          (w' : World) (fs : List Fault)
          → Converges w'
          → Holds
              ((do reached ← matches_state os m.path target; require reached (not_target m.path)) w'
                fs)
              Reaches
              Converges
      check w' fs moved = matches_state->>= os w' Reaches Converges moved m.path target _ fs (λ fs'.
          Holds-map _ Converges Reaches Converges (λ a v (ok, e). rw e (moved, ok)) (λ v c. c) _
            (require-Holds w' Converges (matches os w'.live m.path target) (not_target m.path) fs'
              moved))

  -- Whatever fails, converging a mutation changes at most its path, the directories above it and its temporary
  -- file, and the path from its other state to the target: a path in neither state is left alone. If it
  -- succeeds the path is in the target state.
  pub converge_mutation-Holds :
      (fs : List Fault) → Holds (converge_mutation os dir m target w fs) Reaches Converges
  unfolding converge_mutation
  converge_mutation-Holds fs =
      matches_state->>= os w Reaches Converges (stays same) m.path target _ fs (λ fs1.
        elim (Bool-cases (matches os w.live m.path target)) [
          | inl there ↦ rw there (reassert-Holds fs1 there)
          | inr not_there ↦ rw not_there (advance-Holds fs1)
        ])
