-- ===== src/Transaction/Beside/Near.antt =====
-- What stays as it was when parent directories and temporary files come and go.
use hukou.Prelude.{
  Text, true, false, ◌≡◌, ◌⊎◌, inl, inr, refl, ◌∙◌, List, [], ◌∷◌, Option, none, some, text_eq,
  text_eq_iff, Bool, Bool-cases, Member,
}
use hukou.Disk.{Node, regular, symlink, special, directory, World, Os, update}
use hukou.Disk.Effects.{Fault, Step, done, failed, crashed, ◌>>◌, pure, raise}
use hukou.Disk.Holds.{Holds, Holds-seq, look->>=, touch->>, touch-Holds, change->>}
use hukou.Transaction.Errors.{TxError, io, Tx, touch, change}
use hukou.Transaction.Beside.{
  place, still_failed, cleaned, on_failure, make_dir, make_dirs, make_parents, remove_found,
  remove_temp, stops, remove_dir, prune_dir, prune_dirs, remove_empty_parents,
}

-- A directory above a path, or the temporary file beside it.
abbrev pub Aside : Os → Text → Text → Type 0
Aside os path q = Member q (os.parents path) ⊎ (q ≡ os.temp_name path)

-- Nothing but directories above the path and the temporary file beside it has changed.
pub record Side (os : Os) (path : Text) (w w' : World) : Type 0 where
  pub root_same : w'.root ≡ w.root
  pub near : (q : Text) → (Aside os path q → ⊥) → w'.live q ≡ w.live q

-- A cleanup keeps what holds after an error.
pub on_failure-Holds :
    {A : Type 0} (P : A → World → Type 0) (Q : World → Type 0) (m : Tx A) (c : Tx Unit) (w : World)
    (fs : List Fault)
    → Holds (m w fs) P Q
    → ((w' : World) (fs' : List Fault) → Q w' → Holds (c w' fs') (λ _. Q) Q)
    → Holds (on_failure m c w fs) P Q
unfolding on_failure cleaned still_failed
on_failure-Holds {A} P Q m c w fs h clean = of_step (m w fs) h
  where
    ended :
        (e : TxError) (r : Step TxError Unit)
        → Holds r (λ _. Q) Q
        → Holds (still_failed {A = A} e r) P Q
    ended e (done t, w', fs') q = q
    ended e (failed e', w', fs') q = q
    ended e (crashed, w', fs') q = q

    of_step : (r : Step TxError A) → Holds r P Q → Holds (cleaned r c) P Q
    of_step (done a, w', fs') p = p
    of_step (failed e, w', fs') q = ended e (c w' fs') (clean w' fs' q)
    of_step (crashed, w', fs') q = q

module _ (os : Os) (path : Text) where
  pub Side-refl : (w : World) → Side os path w w
  Side-refl w = record { root_same = refl; near = λ q a. refl }

  pub Side-trans : (w w1 w2 : World) → Side os path w w1 → Side os path w1 w2 → Side os path w w2
  Side-trans w w1 w2 h k = record {
    root_same = k.root_same ∙ h.root_same;
    near = λ q a. k.near q a ∙ h.near q a;
  }

  pub Side-place :
      (w : World) (q : Text) (n : Option Node) → Aside os path q → Side os path w (place q n w)
  unfolding place update
  Side-place w q n a = record { root_same = refl; near = λ p b. rw (apart p b) refl }
    where
      apart : (p : Text) → (Aside os path p → ⊥) → text_eq p q ≡ false
      apart p b = elim (Bool-cases (text_eq p q)) [
        | inl same ↦ absurd (b (rw ((text_eq_iff p q).0 same) a))
        | inr other ↦ other
      ]

  -- What holds of a disk holds still when something beside the path has changed.
  abbrev pub Stable : (World → Type 0) → Type 0
  Stable Q = (w w' : World) → Side os path w w' → Q w → Q w'

  -- Every directory of the list is above the path.
  abbrev Above : List Text → Type 0
  Above dirs = (d : Text) → Member d dirs → Member d (os.parents path)

  module _ (Q : World → Type 0) (stable : Stable Q) where
    placed : (w : World) (q : Text) (n : Option Node) → Aside os path q → Q w → Q (place q n w)
    placed w q n a h = stable w (place q n w) (Side-place w q n a) h

    pub put_aside :
        (w : World) (fs : List Fault) (q : Text) (n : Option Node)
        → Aside os path q
        → Q w
        → Holds ((change (place q n) >> touch) w fs) (λ _. Q) Q
    put_aside w fs q n a h =
        change->> w _ Q h io (place q n) touch fs
          (λ fs'. touch-Holds io (place q n w) _ Q fs' (placed w q n a h) (placed w q n a h))

    make_dir-Holds :
        (info : Option Node) (d : Text) (above : Tx Unit) (w : World) (fs : List Fault)
        → Aside os path d
        → Q w
        → Holds (above w fs) (λ _. Q) Q
        → Holds (make_dir os info d above w fs) (λ _. Q) Q
    unfolding make_dir
    make_dir-Holds (some (directory l)) d above w fs a h rest = unfold pure in h
    make_dir-Holds (some (regular b m)) d above w fs a h rest = unfold raise in h
    make_dir-Holds (some (symlink t)) d above w fs a h rest = unfold raise in h
    make_dir-Holds (some special) d above w fs a h rest = unfold raise in h
    make_dir-Holds none d above w fs a h rest =
        Holds-seq Q _ Q above _ w fs rest (λ w' fs' h'. put_aside w' fs' d _ a h')

    make_dirs-Holds :
        (dirs : List Text) (w : World) (fs : List Fault)
        → Above dirs
        → Q w
        → Holds (make_dirs os dirs w fs) (λ _. Q) Q
    unfolding make_dirs
    make_dirs-Holds [] w fs a h = unfold raise in h
    make_dirs-Holds (d ∷ above) w fs a h = look->>= io w _ Q h _ _ fs (λ fs1.
        make_dir-Holds (os.follow w.live d) d (make_dirs os above) w fs1 (inl (a d (inl refl))) h
          (make_dirs-Holds above w fs1 (λ x m. a x (inr m)) h))

    pub make_parents-Holds :
        (w : World) (fs : List Fault) → Q w → Holds (make_parents os path w fs) (λ _. Q) Q
    unfolding make_parents
    make_parents-Holds w fs h = make_dirs-Holds (os.parents path) w fs (λ d m. m) h

    remove_found-Holds :
        (n : Option Node) (w : World) (fs : List Fault)
        → Q w
        → Holds (remove_found os n (os.temp_name path) w fs) (λ _. Q) Q
    unfolding remove_found
    remove_found-Holds none w fs h = unfold pure in h
    remove_found-Holds (some n) w fs h = put_aside w fs (os.temp_name path) none (inr refl) h

    pub remove_temp-Holds :
        (w : World) (fs : List Fault) → Q w → Holds (remove_temp os path w fs) (λ _. Q) Q
    unfolding remove_temp
    remove_temp-Holds w fs h =
        look->>= io w _ Q h _ _ fs (λ fs1. remove_found-Holds (w.live (os.temp_name path)) w fs1 h)

    remove_dir-Holds :
        (empty : Bool) (d : Text) (above : Tx Unit) (w : World) (fs : List Fault)
        → Aside os path d
        → Q w
        → ((w' : World) (fs' : List Fault) → Q w' → Holds (above w' fs') (λ _. Q) Q)
        → Holds (remove_dir os empty d above w fs) (λ _. Q) Q
    unfolding remove_dir
    remove_dir-Holds false d above w fs a h rest = unfold pure in h
    remove_dir-Holds true d above w fs a h rest =
        let h' = placed w d none a h in
        change->> w _ Q h io (place d none) _ fs (λ fs1.
          touch->> (place d none w) _ Q h' io above fs1 (λ fs2. rest (place d none w) fs2 h'))

    prune_dir-Holds :
        (info : Option Node) (d : Text) (above : Tx Unit) (w : World) (fs : List Fault)
        → Aside os path d
        → Q w
        → ((w' : World) (fs' : List Fault) → Q w' → Holds (above w' fs') (λ _. Q) Q)
        → Holds (prune_dir os info d above w fs) (λ _. Q) Q
    unfolding prune_dir
    prune_dir-Holds none d above w fs a h rest = rest w fs h
    prune_dir-Holds (some (directory l)) d above w fs a h rest =
        look->>= io w _ Q h _ _ fs
          (λ fs1. remove_dir-Holds (os.is_empty w.live d) d above w fs1 a h rest)
    prune_dir-Holds (some (regular b m)) d above w fs a h rest = unfold raise in h
    prune_dir-Holds (some (symlink t)) d above w fs a h rest = unfold raise in h
    prune_dir-Holds (some special) d above w fs a h rest = unfold raise in h

    prune_dirs-Holds :
        (dirs : List Text) (w : World) (fs : List Fault)
        → Above dirs
        → Q w
        → Holds (prune_dirs os dirs w fs) (λ _. Q) Q
    unfolding prune_dirs
    prune_dirs-Holds [] w fs a h = unfold pure in h
    prune_dirs-Holds (d ∷ above) w fs a h = elim (Bool-cases (stops os d)) [
      | inl stop ↦ rw stop (unfold pure in h)
      | inr goes ↦ rw goes (
          look->>= io w _ Q h _ _ fs (λ fs1.
            prune_dir-Holds (os.follow w.live d) d (prune_dirs os above) w fs1
              (inl (a d (inl refl))) h
              (λ w' fs2 h'. prune_dirs-Holds above w' fs2 (λ x m. a x (inr m)) h')))
    ]

    pub remove_empty_parents-Holds :
        (w : World) (fs : List Fault) → Q w → Holds (remove_empty_parents os path w fs) (λ _. Q) Q
    unfolding remove_empty_parents
    remove_empty_parents-Holds w fs h = prune_dirs-Holds (os.parents path) w fs (λ d m. m) h
