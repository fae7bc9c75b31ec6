-- ===== src/Transaction/Replace/Stands.antt =====
-- Which state a node is in, judged by the node alone, and when that is what `matches` tells: the
-- links of a transaction must lead to files that hold the recorded bytes.
use hukou.Prelude.{
  ℕ, ◌<◌, Text, Bool, true, false, ◌≡◌, ◌≢◌, ◌⊎◌, refl, sym, subst, ◌∙◌, ap, Option, none, some,
  ◌==◌, text_eq, text_eq_iff, text_eq_refl, if◌then◌else◌, arith, Bool-cases, inl, inr,
}
use hukou.Disk.{Node, regular, symlink, special, directory, Live, World, Os, update}
use hukou.Journal.{Kind, State}
use hukou.Transaction.Match.Reads.{has_digest, info_matches, matches}
use hukou.Transaction.Beside.{place}
use hukou.Transaction.Beside.Near.{Aside}
use hukou.Transaction.Replace.Effect.{Moves, stays, places, Installs, InstallsKind}

-- Following a path that is a regular file leads to the file.
abbrev pub FollowsRegular : Os → Type 0
FollowsRegular os =
    (live : Live) (path bytes : Text) (mode : ℕ)
    → live path ≡ some (regular bytes mode)
    → os.follow live path ≡ some (regular bytes mode)

module _ (os : Os) where
  abbrev stands_kind : Kind → State → Option Node → Bool
  stands_kind Kind.absent s none = true
  stands_kind Kind.regular s (some (regular bytes mode)) =
      if mode == s.mode then text_eq (os.sha256 bytes) s.sha256 else false
  stands_kind Kind.symlink s (some (symlink t)) = text_eq t s.link_target
  stands_kind _ s _ = false

  unfoldable pub stands : State → Option Node → Bool
  stands s n = stands_kind s.kind s n

  -- In every world of `A`, the link that a state describes leads to the recorded bytes.
  abbrev pub LinkHolds : (Live → Type 0) → Text → State → Type 0
  LinkHolds A path s =
      (live : Live)
      → A live
      → s.kind ≡ Kind.symlink
      → live path ≡ some (symlink s.link_target)
      → has_digest os (os.follow live path) s.sha256 ≡ true

  matches-stands_kind :
      FollowsRegular os
      → (live : Live) (path : Text) (s : State) (k : Kind) (n : Option Node) → live path ≡ n
      → s.kind ≡ k
      → (s.kind ≡ Kind.symlink
          → live path ≡ some (symlink s.link_target)
          → has_digest os (os.follow live path) s.sha256 ≡ true)
      → info_matches os live path s n ≡ stands_kind k s n
  matches-stands_kind law live path s Kind.absent none e ek link = rw ek
  matches-stands_kind law live path s Kind.regular none e ek link = rw ek
  matches-stands_kind law live path s Kind.symlink none e ek link = rw ek
  matches-stands_kind law live path s (Kind.unknown u) none e ek link = rw ek
  matches-stands_kind law live path s Kind.regular (some (regular b m)) e ek link =
      rw (ek, law live path b m e)
  matches-stands_kind law live path s Kind.symlink (some (symlink t)) e ek link =
      elim (Bool-cases (text_eq t s.link_target)) [
        | inl same ↦
            rw (ek, same)
              (link ek
                (e ∙ ap (λ (x : Text). some (symlink x)) ((text_eq_iff t s.link_target).0 same)))
        | inr other ↦ rw (ek, other) refl
      ]
  matches-stands_kind law live path s Kind.absent (some n) e ek link = rw ek
  matches-stands_kind law live path s (Kind.unknown u) (some n) e ek link = rw ek
  matches-stands_kind law live path s Kind.regular (some (symlink t)) e ek link = rw ek
  matches-stands_kind law live path s Kind.regular (some special) e ek link = rw ek
  matches-stands_kind law live path s Kind.regular (some (directory l)) e ek link = rw ek
  matches-stands_kind law live path s Kind.symlink (some (regular b m)) e ek link = rw ek
  matches-stands_kind law live path s Kind.symlink (some special) e ek link = rw ek
  matches-stands_kind law live path s Kind.symlink (some (directory l)) e ek link = rw ek

  pub matches-stands :
      FollowsRegular os
      → (A : Live → Type 0) (live : Live) (path : Text) (s : State) → A live
      → LinkHolds A path s
      → matches os live path s ≡ stands s (live path)
  unfolding matches stands
  matches-stands law A live path s a link =
      matches-stands_kind law live path s s.kind (live path) refl refl (link live a)

  pub Installs-stands :
      (s : State) (n : Option Node)
      → (s.kind ≡ Kind.regular → s.mode < 512)
      → Installs os s n
      → stands s n ≡ true
  unfolding stands
  Installs-stands s n mode i = go s.kind refl i
    where
      go : (k : Kind) → s.kind ≡ k → InstallsKind os k s n → stands_kind k s n ≡ true
      go Kind.absent e h = rw h
      go Kind.regular e (bytes, h, d) = let small = mode e in rw h (ground arith)
      go Kind.symlink e h = rw h (text_eq_refl s.link_target)
      go (Kind.unknown u) e h = absurd h

place_self : (path : Text) (n : Option Node) (w : World) → (place path n w).live path ≡ n
unfolding place update
place_self path n w = rw (text_eq_refl path)

place_elsewhere :
    (path : Text) (n : Option Node) (w : World) (q : Text)
    → q ≢ path
    → (place path n w).live q ≡ w.live q
unfolding place update
place_elsewhere path n w q ne = rw other
  where
    other : text_eq q path ≡ false
    other = ground (arith, text_eq_iff q path)

-- Two disks agree away from a path and from what lies beside it.
abbrev pub AgreeOff : Os → Text → Live → Live → Type 0
AgreeOff os path live live' = (q : Text) → q ≢ path → (Aside os path q → ⊥) → live' q ≡ live q

module _ {os : Os} {path : Text} {current target : State} {w w' : World} where
  pub Moves-elsewhere : Moves os path current target w w' → AgreeOff os path w.live w'.live
  Moves-elsewhere (stays s) q ne a = s.near q a
  Moves-elsewhere (places w1 w2 n s m s' i s'') q ne a =
      s''.near q a ∙ place_elsewhere path n w2 q ne ∙ s'.near q a ∙ s.near q a

  pub Moves-root : Moves os path current target w w' → w'.root ≡ w.root
  unfolding place
  Moves-root (stays s) = s.root_same
  Moves-root (places w1 w2 n s m s' i s'') = s''.root_same ∙ s'.root_same ∙ s.root_same

  -- The path itself is as it was, or holds what the target describes, unless it lies beside itself.
  pub Moves-there :
      (Aside os path path → ⊥)
      → Moves os path current target w w'
      → (w'.live path ≡ w.live path) ⊎ Installs os target (w'.live path)
  Moves-there own (stays s) = inl (s.near path own)
  Moves-there own (places w1 w2 n s m s' i s'') =
      inr (subst (Installs os target) (sym (s''.near path own ∙ place_self path n w2)) i)
