-- ===== src/Transaction/Finish/Recovery.antt =====
-- `recoverLoaded` under every schedule of faults and kills: the participants stay in their two states,
-- and recovery that ends has put all of them on the decided side.
use hukou.Prelude.{
  ◌<◌, Text, Bool, true, false, ◌||◌, ◌≡◌, ◌≢◌, ◌⊎◌, inl, inr, refl, sym, subst, ◌∙◌, ap, List, [],
  ◌∷◌, ◌++◌, All, Option, none, arith,
}
use hukou.Disk.{Node, Live, World, Os, find}
use hukou.Disk.Effects.{Fault, pure}
use hukou.Disk.Holds.{Holds, Holds-map, Holds-seq, reads->>}
use hukou.Journal.{Kind, Mutation, Intent}
use hukou.Journal.Intents.{Distinct, paths}
use hukou.Transaction.Match.Reads.{matches}
use hukou.Transaction.Beside.Near.{Aside}
use hukou.Transaction.Replace.Effect.{Moves, Installs}
use hukou.Transaction.Replace.Stands.{
  FollowsRegular, LinkHolds, stands, matches-stands, Installs-stands, Moves-elsewhere, Moves-root,
  Moves-there, AgreeOff,
}
use hukou.Transaction.Converge.{other_state, converge_mutation}
use hukou.Transaction.Converge.Safety.{converge_mutation-Holds}
use hukou.Transaction.Finish.{
  target_of, converge_all, recover_loaded, completed_prefix, finalize_directory, classify_all,
  verify_intent_target,
}
use hukou.Transaction.Finish.Classify.{
  Known, AtTarget, classify_all-Holds, verify_intent_target-Holds,
}
use hukou.Transaction.Finish.Roots.{finalize_directory-Holds}

module _ (os : Os) (A : Live → Type 0) where
  -- A mutation fit for the theorems, in the worlds `A`: modes are permission bits, its links hold, and
  -- changing its path, and what lies beside it, stays within `A`.
  pub record IsSound (m : Mutation) : Type 0 where
    pub mode_before : m.before.kind ≡ Kind.regular → m.before.mode < 512
    pub mode_after : m.after.kind ≡ Kind.regular → m.after.mode < 512
    pub link_before : LinkHolds os A m.path m.before
    pub link_after : LinkHolds os A m.path m.after
    pub closed : (live live' : Live) → AgreeOff os m.path live live' → A live → A live'

  -- The path is in one of its two states; in the one that was decided.
  abbrev pub TwoSided : Live → Mutation → Type 0
  TwoSided live m = (stands os m.before (live m.path) || stands os m.after (live m.path)) ≡ true

  abbrev pub Decided : Bool → Live → Mutation → Type 0
  Decided after live m = stands os (target_of after m) (live m.path) ≡ true

  -- No participant is on the path, and it lies beside none.
  abbrev Off : Text → List Mutation → Type 0
  Off q = All (λ m. (q ≢ m.path) × (Aside os m.path q → ⊥))

  -- No participant lies beside itself or another: none is a directory above one, or the temporary file.
  abbrev pub Spaced : List Mutation → Type 0
  Spaced [] = Unit
  Spaced (m ∷ ms) =
      (Aside os m.path m.path → ⊥)
      × All (λ b. (Aside os m.path b → ⊥) × (Aside os b m.path → ⊥)) (paths ms)
      × Spaced ms

  -- What a run leaves that changes no path but those of `ms` and what lies beside them.
  pub record Keeps (ms : List Mutation) (w w' : World) : Type 0 where
    pub root_same : w'.root ≡ w.root
    pub outside : (q : Text) → Off q ms → w'.live q ≡ w.live q
    pub within : A w'.live
    pub two_sided : All (TwoSided w'.live) ms

  module _ (after : Bool) (m : Mutation) (sound : IsSound m)
      (own : Aside os m.path m.path → ⊥) where
    Installs-TwoSided :
        (n : Option Node)
        → Installs os (target_of after m) n
        → (stands os m.before n || stands os m.after n) ≡ true
    Installs-TwoSided n i = go after i
      where
        go :
            (b : Bool)
            → Installs os (target_of b m) n
            → (stands os m.before n || stands os m.after n) ≡ true
        go true h = let e = Installs-stands os m.after n sound.mode_after h in ground arith
        go false h = let e = Installs-stands os m.before n sound.mode_before h in ground arith

    target-stands :
        FollowsRegular os
        → (live : Live) → A live
        → matches os live m.path (target_of after m) ≡ stands os (target_of after m) (live m.path)
    target-stands law live a = go after
      where
        go :
            (b : Bool)
            → matches os live m.path (target_of b m) ≡ stands os (target_of b m) (live m.path)
        go true = matches-stands os law A live m.path m.after a sound.link_after
        go false = matches-stands os law A live m.path m.before a sound.link_before

    Moves-TwoSided :
        (w w' : World)
        → Moves os m.path (other_state m (target_of after m)) (target_of after m) w w'
        → TwoSided w.live m
        → TwoSided w'.live m
    Moves-TwoSided w w' mv h = elim (Moves-there own mv) [
      | inl same ↦ rw same h
      | inr i ↦ Installs-TwoSided (w'.live m.path) i
    ]

  -- The paths of the others.
  Off-paths :
      (p : Text) (ms : List Mutation)
      → All (λ b. b ≢ p) (paths ms)
      → All (λ b. (Aside os p b → ⊥) × (Aside os b p → ⊥)) (paths ms)
      → Off p ms
  Off-paths p [] h c = tt
  Off-paths p (m ∷ ms) (h, hs) ((_, c), cs) = ((λ e. h (sym e), c), Off-paths p ms hs cs)

  transfer :
      (P : Mutation → Live → Type 0)
      → ((m : Mutation) (l l' : Live) → l' m.path ≡ l m.path → P m l → P m l')
      → (p : Text) (l l' : Live) → AgreeOff os p l l'
      → (ms : List Mutation) → All (λ b. b ≢ p) (paths ms)
      → All (λ b. (Aside os p b → ⊥) × (Aside os b p → ⊥)) (paths ms)
      → All (λ m. P m l) ms
      → All (λ m. P m l') ms
  transfer P local p l l' same [] d c h = tt
  transfer P local p l l' same (m ∷ ms) (d, ds) ((c, _), cs) (h, hs) =
      (local m l l' (same m.path d c) h, transfer P local p l l' same ms ds cs hs)

  module _ (after : Bool) (m : Mutation) (ms : List Mutation) (sound : IsSound m)
      (own : Aside os m.path m.path → ⊥) (apart : All (λ b. b ≢ m.path) (paths ms))
      (spaced : All (λ b. (Aside os m.path b → ⊥) × (Aside os b m.path → ⊥)) (paths ms))
      (w : World) where
    Keeps-head :
        (w1 : World)
        → Moves os m.path (other_state m (target_of after m)) (target_of after m) w w1
        → A w.live
        → TwoSided w.live m
        → All (TwoSided w.live) ms
        → Keeps (m ∷ ms) w w1
    Keeps-head w1 mv a t ts = record {
      root_same = Moves-root mv;
      outside = λ q ((ne, a), _). Moves-elsewhere mv q ne a;
      within = sound.closed w.live w1.live (Moves-elsewhere mv) a;
      two_sided = (
        Moves-TwoSided after m sound own w w1 mv t,
        transfer (λ m' l. TwoSided l m') (λ m' l l' e h. rw e h) m.path w.live w1.live
            (Moves-elsewhere mv) ms apart spaced ts,
      );
    }

    Keeps-tail : (w1 w' : World) → Keeps (m ∷ ms) w w1 → Keeps ms w1 w' → Keeps (m ∷ ms) w w'
    Keeps-tail w1 w' k1 k = record {
      root_same = k.root_same ∙ k1.root_same;
      outside = λ q (ne, off). k.outside q off ∙ k1.outside q (ne, off);
      within = k.within;
      two_sided =
          (rw (k.outside m.path (Off-paths m.path ms apart spaced)) k1.two_sided.0, k.two_sided);
    }

  module _ (law : FollowsRegular os) (dir : Text) (after : Bool) where
    pub converge_all-Holds :
        (ms : List Mutation) (w : World) (fs : List Fault)
        → A w.live
        → All IsSound ms
        → Distinct (paths ms)
        → Spaced ms
        → All (TwoSided w.live) ms
        → Holds
            (converge_all os dir after ms w fs)
            (λ _ w'. Keeps ms w w' × All (Decided after w'.live) ms)
            (Keeps ms w)
    unfolding converge_all
    converge_all-Holds [] w fs a s d sp t =
        unfold pure in
        (record { root_same = refl; outside = λ q o. refl; within = a; two_sided = tt }, tt)
    converge_all-Holds (m ∷ ms) w fs a (s, ss) (d, ds) (own, sp, sps) (t, ts) =
        Holds-seq (λ w1. Keeps (m ∷ ms) w w1 × Decided after w1.live m) _ (Keeps (m ∷ ms) w)
          (converge_mutation os dir m (target_of after m)) (converge_all os dir after ms) w fs
          (Holds-map _ _ (λ _ w1. Keeps (m ∷ ms) w w1 × Decided after w1.live m) (Keeps (m ∷ ms) w)
            (λ _ w1 (mv, at).
              let k = Keeps-head after m ms s own d sp w w1 mv a t ts in
              (k, rw (target-stands after m s own law w1.live k.within) at at))
            (λ w1 mv. Keeps-head after m ms s own d sp w w1 mv a t ts) _
            (converge_mutation-Holds os dir m (target_of after m) w fs))
          (λ w1 fs1 (k1, at).
            Holds-map (λ _ w'. Keeps ms w1 w' × All (Decided after w'.live) ms) (Keeps ms w1)
              (λ _ w'. Keeps (m ∷ ms) w w' × All (Decided after w'.live) (m ∷ ms))
              (Keeps (m ∷ ms) w)
              (λ _ w' (k, all). (
                Keeps-tail after m ms s own d sp w w1 w' k1 k,
                (rw (k.outside m.path (Off-paths m.path ms d sp)) at, all),
              ))
              (λ w' k. Keeps-tail after m ms s own d sp w w1 w' k1 k) _
              (converge_all-Holds ms w1 fs1 k1.within ss ds sps k1.two_sided.1))

    -- What recovery leaves when it fails or is killed: the participants in their two states, all
    -- paths as they were that are off them, and the journal whole until every participant is on the decided side.
    pub record Survives (ms : List Mutation) (w w' : World) : Type 0 where
      pub outside : (q : Text) → Off q ms → w'.live q ≡ w.live q
      pub within : A w'.live
      pub two_sided : All (TwoSided w'.live) ms
      pub journal :
          (w'.root ≡ w.root)
          ⊎ (((find dir w'.root ≡ find dir w.root) ⊎ (find dir w'.root ≡ none))
              × All (Decided after w'.live) ms)

    -- What recovery leaves when it succeeds: every participant on the decided side, and no journal.
    pub record Recovers (t : Intent) (w w' : World) : Type 0 where
      pub outside : (q : Text) → Off q t.mutations → w'.live q ≡ w.live q
      pub decided : All (Decided after w'.live) t.mutations
      pub within : A w'.live
      pub pending_gone : find dir w'.root ≡ none
      pub completed_gone : find (completed_prefix ++ t.id) w'.root ≡ none

    Survives-keep : (ms : List Mutation) (w w' : World) → Keeps ms w w' → Survives ms w w'
    Survives-keep ms w w' k = record {
      outside = k.outside;
      within = k.within;
      two_sided = k.two_sided;
      journal = inl k.root_same;
    }

    -- After convergence only the journal directory changes.
    module _ (ms : List Mutation) (w w1 w' : World) (k : Keeps ms w w1)
        (all : All (Decided after w1.live) ms) (e : w'.live ≡ w1.live) where
      outside_after : (q : Text) → Off q ms → w'.live q ≡ w.live q
      outside_after q off = ap (λ (l : Live). l q) e ∙ k.outside q off

      decided_after : All (Decided after w'.live) ms
      decided_after = subst (λ (l : Live). All (Decided after l) ms) (sym e) all

      Survives-finalize :
          (find dir w'.root ≡ find dir w1.root) ⊎ (find dir w'.root ≡ none) → Survives ms w w'
      Survives-finalize f = record {
        outside = outside_after;
        within = subst A (sym e) k.within;
        two_sided = subst (λ (l : Live). All (TwoSided l) ms) (sym e) k.two_sided;
        journal = inr (
          (elim f [ inl h ↦ inl (h ∙ ap (find dir) k.root_same) | inr h ↦ inr h ]),
          decided_after,
        );
      }

    finish-Holds :
        (t : Intent) (w w1 : World) (fs : List Fault)
        → Keeps t.mutations w w1
        → All (Decided after w1.live) t.mutations
        → Holds (finalize_directory dir t.id w1 fs) (λ _. Recovers t w) (Survives t.mutations w)
    finish-Holds t w w1 fs k all =
        Holds-map _ _ (λ _. Recovers t w) (Survives t.mutations w)
          (λ _ w' (e, gone, clean). record {
            outside = outside_after t.mutations w w1 w' k all e;
            decided = decided_after t.mutations w w1 w' k all e;
            within = subst A (sym e) k.within;
            pending_gone = gone;
            completed_gone = clean;
          })
          (λ w' f. Survives-finalize t.mutations w w1 w' k all f.live_same f.whole_or_gone) _
          (finalize_directory-Holds dir t.id w1 fs)

    -- Recovery under every schedule of faults and kills, where following a path that is a regular file
    -- leads to that file. The participants are on distinct paths, none of which is a directory above one of
    -- them or the temporary file of one; each is in one of its two states, their modes are permission
    -- bits, and their links lead to the recorded bytes in all worlds that changes of their paths, of the
    -- directories above and of the temporary files can reach. Then an interrupted recovery leaves each in
    -- one of its two states, no other path changed but these directories and temporary files, and the
    -- transaction root as it was until all participants are on the decided side, the journal then whole
    -- or gone; a recovery that ends has them all on the decided side, no other path changed but these, and
    -- neither the pending nor the completed directory left.
    pub recover_loaded_safe :
        (t : Intent) (w : World) (fs : List Fault)
        → A w.live
        → All IsSound t.mutations
        → Distinct (paths t.mutations)
        → Spaced t.mutations
        → All (TwoSided w.live) t.mutations
        → Holds (recover_loaded os dir t after w fs) (λ _. Recovers t w) (Survives t.mutations w)
    unfolding recover_loaded
    recover_loaded_safe t w fs a s d sp ts =
        reads->> w _ Q (classify_all os dir t.mutations) (All (Known os dir w) t.mutations) _ fs
          (classify_all-Holds os dir w Q same t.mutations fs)
          (λ _ fs1.
            Holds-seq (λ w1. Keeps t.mutations w w1 × All (Decided after w1.live) t.mutations) _ Q
              (converge_all os dir after t.mutations) _ w fs1
              (Holds-map _ _
                (λ _ w1. Keeps t.mutations w w1 × All (Decided after w1.live) t.mutations) Q
                (λ _ w1 x. x) (λ w1 k. Survives-keep t.mutations w w1 k) _
                (converge_all-Holds t.mutations w fs1 a s d sp ts))
              (λ w1 fs2 (k, all).
                reads->> w1 _ Q (verify_intent_target os dir after t.mutations)
                  (All (AtTarget os dir w1 after) t.mutations) _ fs2
                  (verify_intent_target-Holds os dir w1 Q (Survives-keep t.mutations w w1 k) after
                    t.mutations fs2)
                  (λ _ fs3. finish-Holds t w w1 fs3 k all)))
      where
        Q : World → Type 0
        Q = Survives t.mutations w

        same : Q w
        same = record { outside = λ q o. refl; within = a; two_sided = ts; journal = inl refl }
