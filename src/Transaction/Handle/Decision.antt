-- ===== src/Transaction/Handle/Decision.antt =====
-- `hasValidCommit` on what `Commit` leaves: the decision that recovery reads.
use hukou.Prelude.{ℕ, Text, Bool, false, ◌≡◌, refl, List, [], some, ltb, leb, length, take}
use hukou.Disk.{World}
use hukou.Disk.Effects
use hukou.Disk.Effects.{Fault, ◌>>=◌, look, touch, pure, raise}
use hukou.Disk.Holds.{Holds, look->>=}
use hukou.Journal.Commit.{decision, classify-take}
use hukou.Transaction.Errors.{io}
use hukou.Transaction.Match.{in_dir}
use hukou.Transaction.Finish.{commit_file_name, marker_decision, has_valid_commit}
use hukou.Transaction.Handle.{marker}

module _ (dir id : Text) (k : ℕ) (w : World) where
  abbrev Reads : Bool → World → Type 0
  Reads b w' = (b ≡ leb (length (decision id)) k) × (w' ≡ w)

  abbrev Unchanged : World → Type 0
  Unchanged w' = w' ≡ w

  marker_decision-Holds :
      (fs : List Fault)
      → ltb 256 (length (take k (decision id))) ≡ false
      → Holds (marker_decision id (some (marker id k)) w fs) Reads Unchanged
  unfolding marker_decision
  marker_decision-Holds fs short = rw (short, classify-take k id) (unfold pure in (refl, refl))

  has_valid_commit-Holds :
      (fs : List Fault)
      → in_dir w dir commit_file_name ≡ some (marker id k)
      → ltb 256 (length (take k (decision id))) ≡ false
      → Holds (has_valid_commit dir id w fs) Reads Unchanged
  unfolding has_valid_commit
  has_valid_commit-Holds fs there short =
      look->>= io w Reads Unchanged refl _ _ fs (λ fs'. rw there (marker_decision-Holds fs' short))

  -- Without faults it does not fail.
  has_valid_commit-take :
      in_dir w dir commit_file_name ≡ some (marker id k)
      → ltb 256 (length (take k (decision id))) ≡ false
      → has_valid_commit dir id w [] ≡ (Effects.done (leb (length (decision id)) k), w, [])
  unfolding has_valid_commit ◌>>=◌ look touch Effects.change Effects.effect
  has_valid_commit-take there short = rw there (reads [])
    where
      reads :
          (fs : List Fault)
          → marker_decision id (some (marker id k)) w fs
            ≡ (Effects.done (leb (length (decision id)) k), w, fs)
      reads fs = unfold marker_decision in rw (short, classify-take k id) (unfold pure in refl)

  -- After a commit was cut off when `k` bytes of the marker were written, recovery reads the transaction
  -- as committed exactly where that is the whole decision, and changes nothing; it fails only where a
  -- call fails or is killed. The marker must fit into the 256 bytes that the program reads.
  pub has_valid_commit-marker :
      (fs : List Fault)
      → in_dir w dir commit_file_name ≡ some (marker id k)
      → ltb 256 (length (take k (decision id))) ≡ false
      → Holds
          (has_valid_commit dir id w fs)
          (λ b w'. (b ≡ leb (length (decision id)) k) × (w' ≡ w))
          (λ w'. w' ≡ w)
        × (has_valid_commit dir id w [] ≡ (Effects.done (leb (length (decision id)) k), w, []))
  has_valid_commit-marker fs there short =
      (has_valid_commit-Holds fs there short, has_valid_commit-take there short)
