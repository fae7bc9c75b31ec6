-- ===== src/Transaction/Match/Reads.antt =====
-- What the comparisons of the module above tell: they change nothing on the disk, and with no fault
-- they answer as the pure test `matches`.
use hukou.Prelude.{
  Text, Bool, true, false, ◌≡◌, inl, inr, refl, List, Option, none, some, ◌==◌, ◌&&◌, text_eq,
  if◌then◌else◌, Bool-cases, sym, subst,
}
use hukou.Disk.{Node, regular, symlink, directory, special, Live, World, Os}
use hukou.Disk.Effects.{Fault, ◌>>=◌, ◌>>◌, pure, raise, require}
use hukou.Disk.Holds.{
  Holds, Holds-bind, look->>=, require->>, reads->>=, reads->>, require-Holds, touch-Holds,
  touch->>,
}
use hukou.Journal.{Kind, State, kind_eq, is_base_name}
use hukou.Transaction.Errors.{Tx, payload_mismatch, payload_escapes, io, touch}
use hukou.Transaction.Match.{
  in_dir, digest, sha256_file, same_digest, match_node, match_info, matches_state, payload_digest,
  verify_regular, verify_state_payload, persist_kind, require_regular, persist_matched_state,
}

module _ (os : Os) where
  -- The digest of the regular file that a path leads to is the wanted one.
  abbrev pub has_digest : Option Node → Text → Bool
  has_digest (some (regular bytes mode)) want = text_eq (os.sha256 bytes) want
  has_digest _ want = false

  abbrev pub node_matches : Live → Text → State → Kind → Node → Bool
  node_matches live path s Kind.regular (regular bytes mode) =
      if mode == s.mode then has_digest (os.follow live path) s.sha256 else false
  node_matches live path s Kind.symlink (symlink target) =
      if text_eq target s.link_target then has_digest (os.follow live path) s.sha256 else false
  node_matches live path s _ _ = false

  abbrev pub info_matches : Live → Text → State → Option Node → Bool
  info_matches live path s none = kind_eq s.kind Kind.absent
  info_matches live path s (some n) = node_matches live path s s.kind n

  -- The path is in the recorded state.
  unfoldable pub matches : Live → Text → State → Bool
  matches live path s = info_matches live path s (live path)

  module _ (w : World) (path : Text) (s : State) (P : Bool → World → Type 0) (Q : World → Type 0)
      (q : Q w) where
    same_digest-Holds :
        (fs : List Fault)
        → P (has_digest (os.follow w.live path) s.sha256) w
        → Holds (same_digest os path s.sha256 w fs) P Q
    unfolding same_digest
    same_digest-Holds fs p =
        Holds-bind (λ got w'. (w' ≡ w) × P (text_eq got s.sha256) w) Q P (sha256_file os path) _ w
          fs (read_digest fs)
          (λ got w' fs' (e, h). unfold pure in subst (P (text_eq got s.sha256)) (sym e) h)
      where
        of_node :
            (n : Option Node) (fs' : List Fault)
            → P (has_digest n s.sha256) w
            → Holds (digest os n w fs') (λ got w'. (w' ≡ w) × P (text_eq got s.sha256) w) Q
        of_node (some (regular bytes mode)) fs' h = unfold digest pure in (refl, h)
        of_node none fs' h = unfold digest raise in q
        of_node (some (symlink t)) fs' h = unfold digest raise in q
        of_node (some special) fs' h = unfold digest raise in q
        of_node (some (directory l)) fs' h = unfold digest raise in q

        read_digest :
            (fs : List Fault)
            → Holds (sha256_file os path w fs) (λ got w'. (w' ≡ w) × P (text_eq got s.sha256) w) Q
        read_digest fs =
            unfold sha256_file in
            look->>= io w (λ got w'. (w' ≡ w) × P (text_eq got s.sha256) w) Q q _ _ fs
              (λ fs'. of_node _ fs' p)

    match_node-Holds :
        (k : Kind) (n : Node) (fs : List Fault)
        → P (node_matches w.live path s k n) w
        → Holds (match_node os path s k n w fs) P Q
    unfolding match_node
    match_node-Holds Kind.absent n fs p = unfold pure in p
    match_node-Holds Kind.regular (regular bytes mode) fs p = elim (Bool-cases (mode == s.mode)) [
      | inl same ↦ rw same (same_digest-Holds fs (rw same at p))
      | inr other ↦ rw other (unfold pure in rw other at p)
    ]
    match_node-Holds Kind.regular (symlink t) fs p = unfold pure in p
    match_node-Holds Kind.regular special fs p = unfold pure in p
    match_node-Holds Kind.regular (directory l) fs p = unfold pure in p
    match_node-Holds Kind.symlink (symlink t) fs p = elim (Bool-cases (text_eq t s.link_target)) [
      | inl same ↦ rw same (same_digest-Holds fs (rw same at p))
      | inr other ↦ rw other (unfold pure in rw other at p)
    ]
    match_node-Holds Kind.symlink (regular bytes mode) fs p = unfold pure in p
    match_node-Holds Kind.symlink special fs p = unfold pure in p
    match_node-Holds Kind.symlink (directory l) fs p = unfold pure in p
    match_node-Holds (Kind.unknown k) n fs p = unfold raise in q

    pub matches_state-Holds :
        (fs : List Fault) → P (matches w.live path s) w → Holds (matches_state os path s w fs) P Q
    unfolding matches_state matches
    matches_state-Holds fs p = look->>= io w P Q q _ _ fs (λ fs'. of_info (w.live path) fs' p)
      where
        of_info :
            (info : Option Node) (fs' : List Fault)
            → P (info_matches w.live path s info) w
            → Holds (match_info os path s info w fs') P Q
        of_info none fs' h = unfold match_info pure in h
        of_info (some n) fs' h = unfold match_info in match_node-Holds s.kind n fs' h

  module _ {B : Type 0} (w : World) (P : B → World → Type 0) (Q : World → Type 0) (q : Q w) where
    pub matches_state->>= :
        (path : Text) (s : State) (k : Bool → Tx B) (fs : List Fault)
        → ((fs' : List Fault) → Holds (k (matches w.live path s) w fs') P Q)
        → Holds ((matches_state os path s >>= k) w fs) P Q
    matches_state->>= path s k fs =
        reads->>= w P Q (matches_state os path s) (matches w.live path s) k fs (
          matches_state-Holds w path s (λ a w'. (a ≡ matches w.live path s) × (w' ≡ w)) Q q fs
            (refl, refl))

  -- A payload is good if it is not wanted, or a regular file of the directory with the digest.
  abbrev pub payload_good : World → Text → State → Bool
  payload_good w dir s =
      if kind_eq s.kind Kind.regular
      then is_base_name s.payload && has_digest (in_dir w dir s.payload) s.sha256
      else true

  module _ (w : World) (Q : World → Type 0) (q : Q w) where
    payload_of :
        (n : Option Node) (s : State) (fs : List Fault)
        → Holds
            ((do got ← payload_digest os n; require (text_eq got s.sha256) payload_mismatch) w fs)
            (λ _ w'. (has_digest n s.sha256 ≡ true) × (w' ≡ w))
            Q
    unfolding payload_digest ◌>>=◌
    payload_of (some (regular bytes mode)) s fs =
        unfold pure in require-Holds w Q (text_eq (os.sha256 bytes) s.sha256) payload_mismatch fs q
    payload_of none s fs = unfold raise in q
    payload_of (some (symlink t)) s fs = unfold raise in q
    payload_of (some special) s fs = unfold raise in q
    payload_of (some (directory l)) s fs = unfold raise in q

    verify_regular-Holds :
        (dir : Text) (s : State) (fs : List Fault)
        → Holds
            (verify_regular os dir s w fs)
            (λ _ w'.
              (is_base_name s.payload && has_digest (in_dir w dir s.payload) s.sha256 ≡ true)
              × (w' ≡ w))
            Q
    unfolding verify_regular
    verify_regular-Holds dir s fs =
        require->> w _ Q q (is_base_name s.payload) payload_escapes _ fs (λ base.
          look->>= io w _ Q q (λ v. in_dir v dir s.payload) _ fs
            (λ fs'. rw base (payload_of (in_dir w dir s.payload) s fs')))

    pub verify_state_payload-Holds :
        (dir : Text) (s : State) (fs : List Fault)
        → Holds
            (verify_state_payload os dir s w fs)
            (λ _ w'. (payload_good w dir s ≡ true) × (w' ≡ w))
            Q
    unfolding verify_state_payload
    verify_state_payload-Holds dir s fs = elim (Bool-cases (kind_eq s.kind Kind.regular)) [
      | inl reg ↦ rw reg (verify_regular-Holds dir s fs)
      | inr other ↦ rw other (unfold pure in (refl, refl))
    ]

    pub verify_state_payload->> :
        {B : Type 0} (P : B → World → Type 0) (dir : Text) (s : State) (k : Tx B) (fs : List Fault)
        → (payload_good w dir s ≡ true → (fs' : List Fault) → Holds (k w fs') P Q)
        → Holds ((verify_state_payload os dir s >> k) w fs) P Q
    verify_state_payload->> P dir s k fs =
        reads->> w P Q (verify_state_payload os dir s) (payload_good w dir s ≡ true) k fs
          (verify_state_payload-Holds dir s fs)

module _ (w : World) (Q : World → Type 0) (q : Q w) where
  persist_kind-Holds :
      (path : Text) (k : Kind) (fs : List Fault)
      → Holds (persist_kind path k w fs) (λ _ w'. Unit × (w' ≡ w)) Q
  unfolding persist_kind
  persist_kind-Holds path Kind.absent fs = touch-Holds io w _ Q fs (tt, refl) q
  persist_kind-Holds path Kind.symlink fs = touch-Holds io w _ Q fs (tt, refl) q
  persist_kind-Holds path (Kind.unknown k) fs = unfold raise in q
  persist_kind-Holds path Kind.regular fs =
      look->>= io w _ Q q (λ v. v.live path) _ fs (λ fs'. of_node (w.live path) fs')
    where
      synced : (fs' : List Fault) → Holds ((touch >> touch) w fs') (λ _ w'. Unit {0} × (w' ≡ w)) Q
      synced fs' = touch->> w _ Q q io touch fs' (λ fs''. touch-Holds io w _ Q fs'' (tt, refl) q)

      of_node :
          (n : Option Node) (fs' : List Fault)
          → Holds ((require_regular n >> (touch >> touch)) w fs') (λ _ w'. Unit {0} × (w' ≡ w)) Q
      of_node none fs' = unfold require_regular raise ◌>>◌ in q
      of_node (some (regular bytes mode)) fs' =
          unfold require_regular in unfold pure ◌>>◌ in synced fs'
      of_node (some (symlink t)) fs' = unfold require_regular raise ◌>>◌ in q
      of_node (some special) fs' = unfold require_regular raise ◌>>◌ in q
      of_node (some (directory l)) fs' = unfold require_regular raise ◌>>◌ in q

  pub persist_matched_state->> :
      {B : Type 0} (P : B → World → Type 0) (path : Text) (s : State) (k : Tx B) (fs : List Fault)
      → ((fs' : List Fault) → Holds (k w fs') P Q)
      → Holds ((persist_matched_state path s >> k) w fs) P Q
  unfolding persist_matched_state
  persist_matched_state->> P path s k fs h =
      reads->> w P Q (persist_kind path s.kind) Unit k fs (persist_kind-Holds path s.kind fs)
        (λ _. h)
