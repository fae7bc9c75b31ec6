-- ===== src/Transaction/Finish/Roots.antt =====
-- `finalizeDirectory` and the removal of a journal directory: what they leave in the transaction root.
use hukou.Prelude.{
  ℕ, Text, true, false, ◌≡◌, ◌≢◌, ◌⊎◌, inl, inr, refl, sym, ap, ◌∙◌, List, [], ◌∷◌, ◌++◌, Option,
  none, some, text_eq, text_eq_iff, text_eq_refl, Bool-cases, arith,
}
use hukou.Disk.{Node, Listing, regular, symlink, special, directory, World, find, remove}
use hukou.Disk.Effects.{Fault, Step}
use hukou.Disk.Holds.{
  Holds, Holds-map, Holds-seq, look->>=, change->>, effect->>, require->>, touch-Holds,
}
use hukou.Disk.Tree.{find-remove, find-put}
use hukou.Transaction.Errors.{TxError, io, not_exist, exists, unexpected_path, touch}
use hukou.Transaction.Finish.{
  pending_prefix, completed_prefix, is_present, is_free, move, rename_dir, keep, remove_partly,
  remove_all, finalize_directory,
}

text_ne : (s t : Text) → s ≢ t → text_eq s t ≡ false
text_ne s t ne = elim (Bool-cases (text_eq s t)) [
  | inl e ↦ absurd (ne ((text_eq_iff s t).0 e))
  | inr e ↦ e
]

find-move :
    (old new : Text) (n : Node) (l : Listing)
    → old ≢ new
    → find old (move old new (some n) l) ≡ none
unfolding move
find-move old new n l ne =
    rw (
      find-put old new n (remove old l),
      text_ne old new ne,
      find-remove old old l,
      text_eq_refl old,
    )

-- Removing the entry `name` touches no other entry, not even when it stops halfway.
module _ (name q : Text) (ne : q ≢ name) where
  find-remove_partly :
      (k : ℕ) (o : Option Node) (l : Listing) → find q (remove_partly name k o l) ≡ find q l
  unfolding remove_partly
  find-remove_partly k (some (directory d)) l =
      rw (find-put q name (directory (keep k d)) l, text_ne q name ne)
  find-remove_partly k none l = refl
  find-remove_partly k (some (regular b m)) l = refl
  find-remove_partly k (some (symlink t)) l = refl
  find-remove_partly k (some special) l = refl

  -- Everything outside the entry `name` is as it was.
  pub record Spares (w w' : World) : Type 0 where
    pub live_same : w'.live ≡ w.live
    pub entry_same : find q w'.root ≡ find q w.root

  pub remove_all-Holds :
      (w : World) (fs : List Fault)
      → Holds (remove_all name w fs) (λ _ w'. Spares w w' × (find name w'.root ≡ none)) (Spares w)
  unfolding remove_all
  remove_all-Holds w fs =
      let same : Spares w w = record { live_same = refl; entry_same = refl } in
      look->>= io w _ (Spares w) same _ _ fs (λ fs1.
        elim (Bool-cases (is_present (find name w.root))) [
          | inr gone ↦
              rw gone
                (touch-Holds io w _ (Spares w) fs1 (same, nothing (find name w.root) gone) same)
          | inl there ↦ rw there (
              effect->> w _ (Spares w) same io _ _ touch fs1
                (λ k. record {
                  live_same = refl;
                  entry_same = find-remove_partly k (find name w.root) w.root;
                })
                (λ fs2.
                  touch-Holds io _ _ (Spares w) fs2
                    (removed, rw (find-remove name name w.root, text_eq_refl name)) removed))
        ])
    where
      nothing : (o : Option Node) → is_present o ≡ false → o ≡ none
      nothing none e = refl
      nothing (some n) e = cc

      removed : Spares w (record w { root = remove name w.root })
      removed = record {
        live_same = refl;
        entry_same = rw (find-remove q name w.root, text_ne q name ne);
      }

-- What `finalizeDirectory` leaves: the paths as they were, and the journal directory whole or gone.
pub record Finalizes (dir : Text) (w w' : World) : Type 0 where
  pub live_same : w'.live ≡ w.live
  pub whole_or_gone : (find dir w'.root ≡ find dir w.root) ⊎ (find dir w'.root ≡ none)

prefix_ne : (id : Text) → pending_prefix ++ id ≢ completed_prefix ++ id
prefix_ne id e = omega (arith, ap first e)
  where
    first : Text → ℕ
    first [] = 0
    first (c ∷ s) = c

-- Whatever fails, `finalizeDirectory` leaves the paths outside the journal alone, and the pending
-- directory as it was or gone. If it succeeds, neither the pending nor the completed directory is left.
pub finalize_directory-Holds :
    (dir id : Text) (w : World) (fs : List Fault)
    → Holds
        (finalize_directory dir id w fs)
        (λ _ w'.
          (w'.live ≡ w.live)
          × (find dir w'.root ≡ none)
          × (find (completed_prefix ++ id) w'.root ≡ none))
        (Finalizes dir w)
unfolding finalize_directory
finalize_directory-Holds dir id w fs =
    require->> w _ Q same (text_eq dir (pending_prefix ++ id)) unexpected_path _ fs (λ named.
      let ne : dir ≢ completed_prefix ++ id =
        λ e. prefix_ne id (sym ((text_eq_iff dir (pending_prefix ++ id)).0 named) ∙ e) in
      Holds-seq (Gone w) _ Q (rename_dir dir (completed_prefix ++ id)) _ w fs (renames ne fs)
        (λ w1 fs1 (e, gone).
          cleans ne w1 e gone _ (remove_all-Holds (completed_prefix ++ id) dir ne w1 fs1)))
  where
    Q : World → Type 0
    Q = Finalizes dir w

    same : Q w
    same = record { live_same = refl; whole_or_gone = inl refl }

    Gone : World → World → Type 0
    Gone v w' = (w'.live ≡ v.live) × (find dir w'.root ≡ none)

    moved :
        dir ≢ completed_prefix ++ id
        → (o : Option Node) → is_present o ≡ true
        → find dir (move dir (completed_prefix ++ id) o w.root) ≡ none
    moved ne none p = cc
    moved ne (some n) p = find-move dir (completed_prefix ++ id) n w.root ne

    renames :
        dir ≢ completed_prefix ++ id
        → (fs : List Fault) → Holds (rename_dir dir (completed_prefix ++ id) w fs) (λ _. Gone w) Q
    renames ne fs =
        unfold rename_dir in
        look->>= io w _ Q same _ _ fs (λ fs1.
          require->> w _ Q same (is_present (find dir w.root)) not_exist _ fs1 (λ there.
            look->>= io w _ Q same _ _ fs1 (λ fs2.
              require->> w _ Q same (is_free (find (completed_prefix ++ id) w.root)) exists _ fs2
                (λ free. change->> w _ Q same io _ touch fs2 (λ fs3.
                  touch-Holds io _ _ Q fs3 (refl, moved ne (find dir w.root) there)
                    (record {
                      live_same = refl;
                      whole_or_gone = inr (moved ne (find dir w.root) there);
                    }))))))

    Final : Unit {0} → World → Type 0
    Final u w' =
        (w'.live ≡ w.live)
        × (find dir w'.root ≡ none)
        × (find (completed_prefix ++ id) w'.root ≡ none)

    cleans :
        (ne : dir ≢ completed_prefix ++ id) (w1 : World)
        → w1.live ≡ w.live
        → find dir w1.root ≡ none
        → (r : Step TxError (Unit {0}))
        → Holds r
            (λ _ w'.
              Spares (completed_prefix ++ id) dir ne w1 w'
              × (find (completed_prefix ++ id) w'.root ≡ none))
            (Spares (completed_prefix ++ id) dir ne w1)
        → Holds r Final Q
    cleans ne w1 e gone r h =
        Holds-map
          (λ _ w'.
            Spares (completed_prefix ++ id) dir ne w1 w'
            × (find (completed_prefix ++ id) w'.root ≡ none))
          (Spares (completed_prefix ++ id) dir ne w1) Final Q
          (λ _ w' (sp, clean). (sp.live_same ∙ e, sp.entry_same ∙ gone, clean))
          (λ w' sp. record {
            live_same = sp.live_same ∙ e;
            whole_or_gone = inr (sp.entry_same ∙ gone);
          })
          r h
