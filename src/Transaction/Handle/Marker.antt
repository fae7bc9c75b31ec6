-- ===== src/Transaction/Handle/Marker.antt =====
-- `Commit`: the COMMIT marker is the decision, and what an interrupted commit leaves.
use hukou.Prelude.{
  ℕ, Text, Bool, true, false, ◌≡◌, ◌⊎◌, inl, inr, refl, sym, ◌∙◌, ap, List, [], ◌∷◌, All, Option,
  none, some, text_eq_refl, if◌then◌else◌, take, length,
}
use hukou.Disk.{Node, Listing, regular, symlink, special, directory, World, Os, find, put}
use hukou.Disk.Effects
use hukou.Disk.Effects.{Fault, Step, ◌>>=◌, ◌>>◌, pure, raise, require}
use hukou.Disk.Holds.{
  Holds, Holds-map, Holds-seq, look->>=, touch->>, change->>, effect->>, require->>, touch-Holds,
}
use hukou.Disk.Tree.{find-put}
use hukou.Journal.Commit.{decision}
use hukou.Transaction.Errors.{Tx, TxError, io, exists, not_exist, not_active, touch}
use hukou.Transaction.Match.{in_dir}
use hukou.Transaction.Finish.{commit_file_name}
use hukou.Transaction.Finish.Classify.{AtTarget, verify_intent_target-Holds}
use hukou.Transaction.Handle.{
  Transaction, is_directory, write_in, write_file, marker, write_marker, verify_after, commit,
}

-- Writing into a directory that exists.
in_dir-find :
    (w : World) (dir name : Text) (l : Listing)
    → find dir w.root ≡ some (directory l)
    → in_dir w dir name ≡ find name l
unfolding in_dir find
in_dir-find w dir name l e = rw (in_dir, e) refl

take-length : (l : Text) → take (length l) l ≡ l
take-length [] = refl
take-length (x ∷ l) = ap (◌∷◌ x) (take-length l)

module _ (dir name : Text) (n : Node) (w : World) where
  abbrev IsDir : World → Type 0
  IsDir v = is_directory (find dir v.root) ≡ true

  in_dir-write_in :
      (o : Option Node) (root : Listing)
      → is_directory o ≡ true
      → (l : Listing) × (find dir (write_in dir name n o root) ≡ some (directory (put name n l)))
  unfolding write_in
  in_dir-write_in (some (directory l)) root h =
      (l, rw (find-put dir dir (directory (put name n l)) root, text_eq_refl dir))
  in_dir-write_in none root h = cc
  in_dir-write_in (some (regular b m)) root h = cc
  in_dir-write_in (some (symlink t)) root h = cc
  in_dir-write_in (some special) root h = cc

  pub in_dir-write_file :
      IsDir w
      → (in_dir (write_file dir name n w) dir name ≡ some n) × IsDir (write_file dir name n w)
  unfolding write_file
  in_dir-write_file h =
      let (l, e) = in_dir-write_in (find dir w.root) w.root h in
      let listed = in_dir-find (write_file dir name n w) dir name (put name n l) e in
      (listed ∙ rw (find-put name name n l, text_eq_refl name) refl, ap is_directory e)

module _ (dir id : Text) where
  -- The directory of the journal has a part of the marker, and nothing else of the disk moved.
  abbrev pub Torn : World → World → Type 0
  Torn w w' = (w'.live ≡ w.live) × (k : ℕ) × (in_dir w' dir commit_file_name ≡ some (marker id k))

  abbrev pub Whole : World → World → Type 0
  Whole w w' =
      (w'.live ≡ w.live) × (in_dir w' dir commit_file_name ≡ some (regular (decision id) 384))

  abbrev pub Unfinished : World → World → Type 0
  Unfinished w w' = (w' ≡ w) ⊎ Torn w w'

  Whole-Torn : (w w' : World) → Whole w w' → Torn w w'
  Whole-Torn w w' (h, e) = (
    h,
    length (decision id),
    e ∙ ap (λ b. some (regular b 384)) (sym (take-length (decision id))),
  )

  write_file-live : (n : Node) (w : World) → (write_file dir commit_file_name n w).live ≡ w.live
  unfolding write_file
  write_file-live n w = refl

  module _ (os : Os) (w : World) where
    abbrev P : Unit {0} → World → Type 0
    P _ = Whole w

    abbrev Q : World → Type 0
    Q = Unfinished w

    abbrev created : World
    created = write_file dir commit_file_name (regular [] 384) w

    abbrev part : ℕ → World
    part k = write_file dir commit_file_name (marker id k) created

    abbrev all : World
    all = write_file dir commit_file_name (regular (decision id) 384) created

    module _ (parent : is_directory (find dir w.root) ≡ true) where
      created-IsDir : is_directory (find dir created.root) ≡ true
      created-IsDir = (in_dir-write_file dir commit_file_name (regular [] 384) w parent).1

      live_twice : (n : Node) → (write_file dir commit_file_name n created).live ≡ w.live
      live_twice n = write_file-live n created ∙ write_file-live (regular [] 384) w

      created-Q : Q created
      created-Q = inr (
        write_file-live (regular [] 384) w,
        0,
        (in_dir-write_file dir commit_file_name (regular [] 384) w parent).0,
      )

      part-Q : (k : ℕ) → Q (part k)
      part-Q k = inr (
        live_twice (marker id k),
        k,
        (in_dir-write_file dir commit_file_name (marker id k) created created-IsDir).0,
      )

      all-Whole : Whole w all
      all-Whole = (
        live_twice (regular (decision id) 384),
        (in_dir-write_file dir commit_file_name (regular (decision id) 384) created
            created-IsDir).0,
      )

      all-Q : Q all
      all-Q = inr (Whole-Torn w all all-Whole)

      filled :
          (fs : List Fault)
          → Holds
              ((Effects.effect io
                    (λ k. write_file dir commit_file_name (marker id k))
                    (write_file dir commit_file_name (regular (decision id) 384))
                  >> (touch >> (touch >> touch)))
                created fs)
              P
              Q
      filled fs = effect->> created P Q created-Q io _ _ _ fs part-Q (λ fs1.
          touch->> all P Q all-Q io _ fs1 (λ fs2.
            touch->> all P Q all-Q io _ fs2 (λ fs3. touch-Holds io all P Q fs3 all-Whole all-Q)))

    pub write_marker-Holds :
        (fs : List Fault) → Holds (write_marker os dir id w fs) (λ _. Whole w) (Unfinished w)
    unfolding write_marker
    write_marker-Holds fs = look->>= io w P Q (inl refl) _ _ fs (λ fs1.
        require->> w P Q (inl refl) _ not_exist _ fs1 (λ parent.
          look->>= io w P Q (inl refl) _ _ fs1 (λ fs2.
            require->> w P Q (inl refl) _ exists _ fs2
              (λ fresh. change->> w P Q (inl refl) io _ _ fs2 (λ fs3. filled parent fs3)))))

module _ (os : Os) (t : Transaction) (w : World) where
  -- The disk and the transaction that a successful commit leaves.
  pub record Commits (t' : Transaction) (w' : World) : Type 0 where
    pub live_same : w'.live ≡ w.live
    pub marked : in_dir w' t.dir commit_file_name ≡ some (regular (decision t.intent.id) 384)
    pub after_side : All (AtTarget os t.dir w true) t.intent.mutations
    pub flagged : t' ≡ record t { committed = true }

  -- What a commit leaves that fails or is killed.
  abbrev pub Interrupted : World → Type 0
  Interrupted w' =
      (w' ≡ w) ⊎ (All (AtTarget os t.dir w true) t.intent.mutations × Torn t.dir t.intent.id w w')

  -- The part after the guard on the state.
  commit_body : Tx Transaction
  commit_body = do
    verify_after os t
    write_marker os t.dir t.intent.id
    pure (record t { committed = true })

  marked :
      (fs : List Fault)
      → All (AtTarget os t.dir w true) t.intent.mutations
      → Holds
          ((write_marker os t.dir t.intent.id >> pure {E = TxError} (record t { committed = true }))
            w fs)
          Commits
          Interrupted
  marked fs reached =
      Holds-seq (Whole t.dir t.intent.id w) Commits Interrupted (write_marker os t.dir t.intent.id)
        _ w fs
        (Holds-map (λ _. Whole t.dir t.intent.id w) (Unfinished t.dir t.intent.id w)
          (λ _. Whole t.dir t.intent.id w) Interrupted (λ _ w' x. x)
          (λ w' u. elim u [ inl e ↦ inl e | inr torn ↦ inr (reached, torn) ]) _
          (write_marker-Holds t.dir t.intent.id os w fs))
        (λ w' fs' (e, m).
          unfold pure in
          (record { live_same = e; marked = m; after_side = reached; flagged = refl }))

  commit_body-Holds :
      t.is_done ≡ false → (fs : List Fault) → Holds (commit_body w fs) Commits Interrupted
  unfolding commit_body verify_after
  commit_body-Holds active fs =
      Holds-seq (λ w'. All (AtTarget os t.dir w true) t.intent.mutations × (w' ≡ w)) Commits
        Interrupted (verify_after os t) _ w fs
        (require->> w _ Interrupted (inl refl) _ not_active _ fs (λ _.
          verify_intent_target-Holds os t.dir w Interrupted (inl refl) true t.intent.mutations fs))
        (λ w' fs' (reached, e). rw e (marked fs' reached))

  -- A commit of an open transaction that is not yet committed, under every schedule of faults and kills: one that succeeds has
  -- found every participant in its after state with its payload good, left all paths outside the
  -- journal alone, and written the whole decision; one that fails or is killed has changed nothing, or
  -- has found every participant in its after state and left a marker with the first bytes of the
  -- decision, some or all or none of them.
  pub commit_decides :
      (fs : List Fault)
      → t.is_done ≡ false
      → t.committed ≡ false
      → Holds (commit os t w fs) Commits Interrupted
  unfolding commit commit_body
  commit_decides fs active undecided =
      require->> w Commits Interrupted (inl refl) _ not_active _ fs (λ _. go t.committed undecided)
    where
      go :
          (b : Bool)
          → b ≡ false
          → Holds ((if b then pure t else commit_body) w fs) Commits Interrupted
      go false e = commit_body-Holds active fs
      go true e = cc
