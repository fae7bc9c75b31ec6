-- ===== src/Transaction/Replace/Effect.antt =====
-- What `applyState` can leave behind, whatever fails: the disk as it was, or the path's new node in
-- place, put there over the state that was expected.
use Prim.Native.Nat.{◌%◌}
use hukou.Prelude.{
  ℕ, Text, true, false, ◌≡◌, refl, sym, subst, List, [], ap, ◌∙◌, Option, none, some, text_eq,
  if◌then◌else◌, Bool-cases, arith, inl, inr,
}
use hukou.Disk.{Node, regular, symlink, special, directory, World, Os, find}
use hukou.Disk.Effects.{Fault, ◌>>=◌, ◌>>◌, pure, raise, require}
use hukou.Disk.Holds.{
  Holds, Holds-bind, Holds-seq, Holds-map, effect->>, look->>=, touch->>, change->>, require->>,
  touch-Holds, change-Holds, require-Holds, reads->>,
}
use hukou.Journal.{Kind, State, kind_eq}
use hukou.Transaction.Errors.{Tx, io, exists, not_exist, payload_changed, drift, touch, change}
use hukou.Transaction.Beside.{place, on_failure, make_parents, remove_temp, remove_empty_parents}
use hukou.Transaction.Beside.Near.{
  Side, Side-refl, Side-trans, Side-place, Stable, on_failure-Holds, make_parents-Holds,
  remove_temp-Holds, remove_empty_parents-Holds,
}
use hukou.Transaction.Match.{in_dir}
use hukou.Transaction.Match.Reads.{has_digest, matches, matches_state->>=, payload_good}
use hukou.Transaction.Replace.{
  put_over, copy_regular, rename_over, is_none, create_new, remove_path, payload_bytes,
  require_expected_state, stage_regular, install_regular_no_replace, replace_regular,
  replace_symlink, install_symlink_no_replace, apply_kind, apply_state,
}

module _ (os : Os) where
  -- The node that a state describes: nothing, a file with the digest and the mode, or the link.
  abbrev pub InstallsKind : Kind → State → Option Node → Type 0
  InstallsKind Kind.absent s n = n ≡ none
  InstallsKind Kind.regular s n =
      (bytes : Text) × (n ≡ some (regular bytes (s.mode % 512)))
      × (text_eq (os.sha256 bytes) s.sha256 ≡ true)
  InstallsKind Kind.symlink s n = n ≡ some (symlink s.link_target)
  InstallsKind (Kind.unknown k) s n = ⊥

  abbrev pub Installs : State → Option Node → Type 0
  Installs s = InstallsKind s.kind s

  -- A path stays as it was, or goes from the state `current` to the state `target`. Nothing else on
  -- the disk changes but what lies beside the path: directories above it and the temporary file.
  pub data Moves (path : Text) (current target : State) (w w' : World) : Type 0 where
    stays : Side os path w w' → Moves path current target w w'
    places :
        (w1 w2 : World) (n : Option Node)
        → Side os path w w1
        → matches os w1.live path current ≡ true
        → Side os path w1 w2
        → Installs target n
        → Side os path (place path n w2) w'
        → Moves path current target w w'

  in_dir-root :
      (w w' : World) (dir name : Text) → w'.root ≡ w.root → in_dir w' dir name ≡ in_dir w dir name
  unfolding in_dir
  in_dir-root w w' dir name e =
      ap (λ r. elim (find dir r) [ some (directory l) ↦ find name l | _ ↦ none ]) e

  module _ (dir path : Text) (current target : State) (w : World) where
    abbrev Post : World → Type 0
    Post w' = Moves path current target w w'

    abbrev Near : World → Type 0
    Near w' = Side os path w w'

    same : Near w
    same = Side-refl os path w

    Near-Stable : Stable os path Near
    Near-Stable w1 w2 s h = Side-trans os path w w1 w2 h s

    Post-Stable : Stable os path Post
    Post-Stable w1 w2 s (stays h) = stays (Side-trans os path w w1 w2 h s)
    Post-Stable w1 w2 s (places v1 v2 n h m h' i k) =
        places v1 v2 n h m h' i (Side-trans os path (place path n v2) w1 w2 k s)

    Near-temp : (w1 : World) (n : Option Node) → Near w1 → Near (place (os.temp_name path) n w1)
    Near-temp w1 n s =
        Near-Stable w1 (place (os.temp_name path) n w1)
          (Side-place os path w1 (os.temp_name path) n (inr refl)) s

    clean_up :
        (w1 : World) (fs : List Fault)
        → Post w1
        → Holds (remove_temp os path w1 fs) (λ _. Post) Post
    clean_up w1 fs p = remove_temp-Holds os path Post Post-Stable w1 fs p

    -- Parent directories are made first.
    parents->> :
        (k : Tx Unit) (fs : List Fault)
        → ((w1 : World) (fs' : List Fault) → Near w1 → Holds (k w1 fs') (λ _. Post) Post)
        → Holds ((make_parents os path >> k) w fs) (λ _. Post) Post
    parents->> k fs h =
        Holds-seq Near _ Post (make_parents os path) k w fs
          (Holds-map (λ _. Near) Near (λ _. Near) Post (λ _ w1 s. s) (λ w1 s. stays s) _
            (make_parents-Holds os path Near Near-Stable w fs same))
          h

    require_expected_state->> :
        {B : Type 0} (P : B → World → Type 0) (k : Tx B) (w1 : World) (fs : List Fault)
        → Near w1
        → (matches os w1.live path current ≡ true → (fs' : List Fault) → Holds (k w1 fs') P Post)
        → Holds ((require_expected_state os path current >> k) w1 fs) P Post
    require_expected_state->> P k w1 fs s h =
        reads->> w1 P Post (require_expected_state os path current)
          (matches os w1.live path current ≡ true) k fs
          (unfold require_expected_state in
            matches_state->>= os w1 _ Post (stays s) path current _ fs (λ fs'.
              require-Holds w1 Post (matches os w1.live path current) (drift path) fs' (stays s)))
          h

    module _ (source : Text) (mode : ℕ) where
      abbrev Staged : Node → World → Type 0
      Staged a w' =
          (bytes : Text) × (has_digest os (in_dir w dir source) target.sha256
            ≡ text_eq (os.sha256 bytes) target.sha256)
          × (a ≡ regular bytes (mode % 512))
          × Near w'

      again_same :
          (bytes : Text) (m : ℕ) (w1 : World) (fs : List Fault)
          → Near w1
          → in_dir w dir source ≡ some (regular bytes m)
          → Holds
              ((do
                want ← payload_bytes (in_dir w1 dir source)
                require (text_eq (os.sha256 bytes) (os.sha256 want)) payload_changed
                pure (regular bytes (mode % 512)))
                w1 fs)
              Staged
              Near
      again_same bytes m w1 fs s e =
          let e1 = in_dir-root w w1 dir source s.root_same ∙ e in
          rw e1 (
            unfold payload_bytes pure ◌>>=◌ in
            require->> w1 Staged Near s (text_eq (os.sha256 bytes) (os.sha256 bytes))
              payload_changed (pure (regular bytes (mode % 512))) fs
              (λ _. unfold pure in (bytes, rw e, refl, s)))

      copy_regular-Holds :
          (bytes : Text) (m : ℕ) (w1 : World) (fs : List Fault)
          → Near w1
          → in_dir w dir source ≡ some (regular bytes m)
          → Holds (copy_regular os dir source path mode bytes w1 fs) Staged Near
      unfolding copy_regular
      copy_regular-Holds bytes m w1 fs s e =
          let temp = os.temp_name path in
          let w2 = place temp (some (regular bytes 384)) w1 in
          let s2 = Near-temp w1 (some (regular bytes 384)) s in
          let w3 = place temp (some (regular bytes (mode % 512))) w2 in
          let s3 = Near-temp w2 (some (regular bytes (mode % 512))) s2 in
          effect->> w1 Staged Near s io _ _ _ fs (λ k. Near-temp w1 _ s)
            (λ fs1. change->> w2 Staged Near s2 io _ _ fs1 (λ fs2.
              touch->> w3 Staged Near s3 io _ fs2 (λ fs3.
                look->>= io w3 Staged Near s3 _ _ fs3 (λ fs4. again_same bytes m w3 fs4 s3 e))))

      stage_regular-Holds :
          (w1 : World) (fs : List Fault)
          → Near w1
          → Holds (stage_regular os dir source path mode w1 fs) Staged Near
      unfolding stage_regular
      stage_regular-Holds w1 fs s = look->>= io w1 Staged Near s _ _ fs (λ fs1.
          of_node (in_dir w1 dir source) (sym (in_dir-root w w1 dir source s.root_same)) fs1)
        where
          rest : Text → Tx Node
          rest bytes = do
            change (place (os.temp_name path) (some (regular [] 384)))
            on_failure (copy_regular os dir source path mode bytes) (remove_temp os path)

          of_node :
              (n : Option Node)
              → in_dir w dir source ≡ n
              → (fs' : List Fault) → Holds ((payload_bytes n >>= rest) w1 fs') Staged Near
          of_node (some (regular bytes m)) e fs' =
              unfold payload_bytes pure ◌>>=◌ in
              change->> w1 Staged Near s io _ _ fs' (λ fs1.
                let s1 = Near-temp w1 (some (regular [] 384)) s in
                on_failure-Holds Staged Near (copy_regular os dir source path mode bytes)
                  (remove_temp os path) (place (os.temp_name path) (some (regular [] 384)) w1) fs1
                  (copy_regular-Holds bytes m _ fs1 s1 e)
                  (λ w2 fs2 s2. remove_temp-Holds os path Near Near-Stable w2 fs2 s2))
          of_node none e fs' = unfold payload_bytes raise ◌>>=◌ in s
          of_node (some (symlink t)) e fs' = unfold payload_bytes raise ◌>>=◌ in s
          of_node (some special) e fs' = unfold payload_bytes raise ◌>>=◌ in s
          of_node (some (directory l)) e fs' = unfold payload_bytes raise ◌>>=◌ in s

    stage_regular->>= :
        (source : Text) (mode : ℕ) (k : Node → Tx Unit) (w1 : World) (fs : List Fault)
        → Near w1
        → ((bytes : Text)
            → has_digest os (in_dir w dir source) target.sha256
              ≡ text_eq (os.sha256 bytes) target.sha256
            → (w2 : World) (fs' : List Fault) → Near w2
            → Holds (k (regular bytes (mode % 512)) w2 fs') (λ _. Post) Post)
        → Holds ((stage_regular os dir source path mode >>= k) w1 fs) (λ _. Post) Post
    stage_regular->>= source mode k w1 fs s h =
        Holds-bind (Staged source mode) Post (λ _. Post) (stage_regular os dir source path mode) k
          w1 fs
          (Holds-map (Staged source mode) Near (Staged source mode) Post (λ a w2 x. x)
            (λ w2 s2. stays s2) _ (stage_regular-Holds source mode w1 fs s))
          (λ a w2 fs' (bytes, e, e', s2). rw e' (h bytes e w2 fs' s2))

    -- The path is replaced by the temporary file, if it is in the expected state.
    rename_over-Holds :
        (n : Node) (w1 : World) (fs : List Fault)
        → Near w1
        → Installs target (some n)
        → Holds
            (on_failure (rename_over os path n current) (remove_temp os path) w1 fs)
            (λ _. Post)
            Post
    rename_over-Holds n w1 fs s i =
        on_failure-Holds (λ _. Post) Post (rename_over os path n current) (remove_temp os path) w1
          fs (unfold rename_over in require_expected_state->> _ _ w1 fs s (λ m fs1. put_down m fs1))
          clean_up
      where
        moved :
            matches os w1.live path current ≡ true → Post (put_over (os.temp_name path) path n w1)
        moved m =
            let w2 = place (os.temp_name path) none w1 in
            unfold put_over in
            places w1 w2 (some n) s m (Side-place os path w1 (os.temp_name path) none (inr refl)) i
              (Side-refl os path (place path (some n) w2))

        put_down :
            matches os w1.live path current ≡ true
            → (fs1 : List Fault)
            → Holds
                ((change (put_over (os.temp_name path) path n) >> touch) w1 fs1)
                (λ _. Post)
                Post
        put_down m fs1 = change->> w1 _ Post (stays s) io _ touch fs1 (λ fs2.
            touch-Holds io (put_over (os.temp_name path) path n w1) _ Post fs2 (moved m) (moved m))

    create_down :
        (n : Node) (w1 : World) (fs : List Fault)
        → Near w1
        → kind_eq current.kind Kind.absent ≡ true
        → Installs target (some n)
        → Holds ((create_new path n >> touch) w1 fs) (λ _. Post) Post
    create_down n w1 fs s m i =
        Holds-seq Post _ Post (create_new path n) touch w1 fs
          (unfold create_new in
            look->>= io w1 _ Post (stays s) _ _ fs (λ fs1.
              require->> w1 _ Post (stays s) (is_none (w1.live path)) exists _ fs1 (λ free.
                change-Holds io w1 _ Post (place path (some n)) _
                  (places w1 w1 (some n) s (on_nothing (ground arith)) (Side-refl os path w1) i
                    (Side-refl os path (place path (some n) w1)))
                  (stays s))))
          (λ w2 fs2 p. touch-Holds io w2 _ Post fs2 p p)
      where
        on_nothing : w1.live path ≡ none → matches os w1.live path current ≡ true
        on_nothing e = unfold matches in rw e m

    -- The staged node is the one that a regular target describes.
    staged-Installs :
        (bytes : Text)
        → target.kind ≡ Kind.regular
        → payload_good os w dir target ≡ true
        → has_digest os (in_dir w dir target.payload) target.sha256
          ≡ text_eq (os.sha256 bytes) target.sha256
        → Installs target (some (regular bytes (target.mode % 512)))
    staged-Installs bytes k good e =
        subst (λ x. InstallsKind x target (some (regular bytes (target.mode % 512)))) (sym k)
          (bytes, refl, ground arith)

    install_regular-Holds :
        (fs : List Fault)
        → target.kind ≡ Kind.regular
        → payload_good os w dir target ≡ true
        → kind_eq current.kind Kind.absent ≡ true
        → Holds
            (install_regular_no_replace os dir target.payload path target.mode w fs)
            (λ _. Post)
            Post
    unfolding install_regular_no_replace
    install_regular-Holds fs k good m = parents->> _ fs (λ w1 fs1 s1.
        stage_regular->>= target.payload target.mode _ w1 fs1 s1 (λ bytes e w2 fs2 s2.
          Holds-seq Post _ Post _ (remove_temp os path) w2 fs2
            (on_failure-Holds (λ _. Post) Post _ (remove_temp os path) w2 fs2
              (create_down (regular bytes (target.mode % 512)) w2 fs2 s2 m
                (staged-Installs bytes k good e))
              clean_up)
            clean_up))

    replace_regular-Holds :
        (fs : List Fault)
        → target.kind ≡ Kind.regular
        → payload_good os w dir target ≡ true
        → Holds
            (replace_regular os dir target.payload path target.mode current w fs)
            (λ _. Post)
            Post
    unfolding replace_regular
    replace_regular-Holds fs k good = parents->> _ fs (λ w1 fs1 s1.
        stage_regular->>= target.payload target.mode _ w1 fs1 s1 (λ bytes e w2 fs2 s2.
          rename_over-Holds (regular bytes (target.mode % 512)) w2 fs2 s2
            (staged-Installs bytes k good e)))

    remove-Holds :
        (fs : List Fault)
        → target.kind ≡ Kind.absent
        → Holds
            ((require_expected_state os path current
                >> (remove_path path >> remove_empty_parents os path))
              w fs)
            (λ _. Post)
            Post
    remove-Holds fs k = require_expected_state->> _ _ w fs same (λ m fs1.
        Holds-seq Post _ Post (remove_path path) (remove_empty_parents os path) w fs1
          (unfold remove_path in
            look->>= io w _ Post (stays same) _ _ fs1 (λ fs2.
              require->> w _ Post (stays same) (if is_none (w.live path) then false else true)
                not_exist _ fs2 (λ there. removed m _)))
          (λ w' fs' p. remove_empty_parents-Holds os path Post Post-Stable w' fs' p))
      where
        gone : matches os w.live path current ≡ true → Post (place path none w)
        gone m =
            places w w none same m same (subst (λ x. InstallsKind x target none) (sym k) refl)
              (Side-refl os path (place path none w))

        removed :
            matches os w.live path current ≡ true
            → (fs' : List Fault)
            → Holds ((change (place path none) >> touch) w fs') (λ _. Post) Post
        removed m fs' =
            change->> w _ Post (stays same) io (place path none) touch fs'
              (λ fs2. touch-Holds io (place path none w) _ Post fs2 (gone m) (gone m))

    link-Installs : target.kind ≡ Kind.symlink → Installs target (some (symlink target.link_target))
    link-Installs k =
        subst (λ x. InstallsKind x target (some (symlink target.link_target))) (sym k) refl

    install_symlink-Holds :
        (fs : List Fault)
        → target.kind ≡ Kind.symlink
        → kind_eq current.kind Kind.absent ≡ true
        → Holds (install_symlink_no_replace os target.link_target path w fs) (λ _. Post) Post
    unfolding install_symlink_no_replace
    install_symlink-Holds fs k m =
        parents->> _ fs
          (λ w1 fs1 s1. create_down (symlink target.link_target) w1 fs1 s1 m (link-Installs k))

    replace_symlink-Holds :
        (fs : List Fault)
        → target.kind ≡ Kind.symlink
        → Holds (replace_symlink os target.link_target path current w fs) (λ _. Post) Post
    unfolding replace_symlink
    replace_symlink-Holds fs k = parents->> _ fs (λ w1 fs1 s1.
        change->> w1 _ Post (stays s1) io _ _ fs1 (λ fs2.
          rename_over-Holds (symlink target.link_target) _ fs2 (Near-temp w1 _ s1)
            (link-Installs k)))

    apply_kind-Holds :
        (k : Kind) (fs : List Fault)
        → target.kind ≡ k
        → payload_good os w dir target ≡ true
        → Holds (apply_kind os dir path current target k w fs) (λ _. Post) Post
    unfolding apply_kind
    apply_kind-Holds Kind.absent fs e good = remove-Holds fs e
    apply_kind-Holds Kind.regular fs e good = elim (Bool-cases (kind_eq current.kind Kind.absent)) [
      | inl free ↦ rw free (install_regular-Holds fs e good free)
      | inr taken ↦ rw taken (replace_regular-Holds fs e good)
    ]
    apply_kind-Holds Kind.symlink fs e good = elim (Bool-cases (kind_eq current.kind Kind.absent)) [
      | inl free ↦ rw free (install_symlink-Holds fs e free)
      | inr taken ↦ rw taken (replace_symlink-Holds fs e)
    ]
    apply_kind-Holds (Kind.unknown u) fs e good = unfold raise in stays same

    -- With a verified payload, and whatever fails, `applyState` leaves the path alone or moves it from the
    -- expected state to the target. Nothing else changes but the directories above the path and its
    -- temporary file.
    pub apply_state-Holds :
        (fs : List Fault)
        → payload_good os w dir target ≡ true
        → Holds (apply_state os dir path current target w fs) (λ _. Post) Post
    unfolding apply_state
    apply_state-Holds fs good = apply_kind-Holds target.kind fs refl good
