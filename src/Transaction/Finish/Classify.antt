-- ===== src/Transaction/Finish/Classify.antt =====
-- The two loops of recovery that only read: the classification before any change, and the check of the
-- target after it.
use hukou.Prelude.{
  Text, Bool, true, false, ◌||◌, ◌≡◌, inl, inr, refl, sym, ◌∙◌, List, [], ◌∷◌, All, Any,
}
use hukou.Disk.{World, Os}
use hukou.Disk.Effects.{Fault, pure}
use hukou.Disk.Holds.{Holds, Holds-map, require->>, require-Holds, reads->>}
use hukou.Journal.{Mutation, Intent}
use hukou.Transaction.Errors.{TxError, drift, not_target}
use hukou.Transaction.Match.{verify_state_payload}
use hukou.Transaction.Match.Reads.{
  matches, matches_state->>=, payload_good, verify_state_payload->>, verify_state_payload-Holds,
}
use hukou.Transaction.Finish.{
  target_of, verify_target, verify_intent_target, classify, classify_all, recover_loaded,
}

module _ (os : Os) (dir : Text) (w : World) where
  -- A participant that recovery may touch: in one of its two states, and with both payloads good.
  pub record Known (m : Mutation) : Type 0 where
    pub in_state : (matches os w.live m.path m.before || matches os w.live m.path m.after) ≡ true
    pub before_good : payload_good os w dir m.before ≡ true
    pub after_good : payload_good os w dir m.after ≡ true

  -- A participant that is in the state wanted, its payload good.
  pub record AtTarget (after : Bool) (m : Mutation) : Type 0 where
    pub reached : matches os w.live m.path (target_of after m) ≡ true
    pub good : payload_good os w dir (target_of after m) ≡ true

  module _ (Q : World → Type 0) (q : Q w) where
    ends :
        (C : Type 0) (c : C) (fs : List Fault)
        → Holds (pure {E = TxError} (tt {0}) w fs) (λ _ w'. C × (w' ≡ w)) Q
    unfolding pure
    ends C c fs = (c, refl)

    classify-Holds :
        (m : Mutation) (fs : List Fault)
        → Holds (classify os dir m w fs) (λ _ w'. Known m × (w' ≡ w)) Q
    unfolding classify
    classify-Holds m fs = matches_state->>= os w _ Q q m.path m.before _ fs (λ fs1.
        matches_state->>= os w _ Q q m.path m.after _ fs1 (λ fs2.
          require->> w _ Q q _ (drift m.path) _ fs2 (λ known.
            verify_state_payload->> os w Q q _ dir m.before _ fs2 (λ b fs3. last m known b fs3))))
      where
        last :
            (m : Mutation)
            → (matches os w.live m.path m.before || matches os w.live m.path m.after) ≡ true
            → payload_good os w dir m.before ≡ true
            → (fs : List Fault)
            → Holds (verify_state_payload os dir m.after w fs) (λ _ w'. Known m × (w' ≡ w)) Q
        last m known b fs =
            Holds-map (λ _ w'. (payload_good os w dir m.after ≡ true) × (w' ≡ w)) Q
              (λ _ w'. Known m × (w' ≡ w)) Q
              (λ _ w' (a, e). (record { in_state = known; before_good = b; after_good = a }, e))
              (λ w' x. x) _ (verify_state_payload-Holds os w Q q dir m.after fs)

    pub classify_all-Holds :
        (ms : List Mutation) (fs : List Fault)
        → Holds (classify_all os dir ms w fs) (λ _ w'. All Known ms × (w' ≡ w)) Q
    unfolding classify_all
    classify_all-Holds [] fs = ends Unit tt fs
    classify_all-Holds (m ∷ ms) fs =
        reads->> w _ Q (classify os dir m) (Known m) _ fs (classify-Holds m fs) (λ k fs'.
          Holds-map (λ _ w'. All Known ms × (w' ≡ w)) Q
            (λ _ w'. (Known m × All Known ms) × (w' ≡ w)) Q (λ _ w' (ks, e). ((k, ks), e))
            (λ w' x. x) _ (classify_all-Holds ms fs'))

    verify_target-Holds :
        (after : Bool) (m : Mutation) (fs : List Fault)
        → Holds
            (verify_target os dir m (target_of after m) w fs)
            (λ _ w'. AtTarget after m × (w' ≡ w))
            Q
    unfolding verify_target
    verify_target-Holds after m fs =
        verify_state_payload->> os w Q q _ dir (target_of after m) _ fs (λ g fs1.
          matches_state->>= os w _ Q q m.path (target_of after m) _ fs1 (λ fs2.
            Holds-map (λ _ w'. (matches os w.live m.path (target_of after m) ≡ true) × (w' ≡ w)) Q
              (λ _ w'. AtTarget after m × (w' ≡ w)) Q
              (λ _ w' (r, e). (record { reached = r; good = g }, e)) (λ w' x. x) _
              (require-Holds w Q _ (not_target m.path) fs2 q)))

    pub verify_intent_target-Holds :
        (after : Bool) (ms : List Mutation) (fs : List Fault)
        → Holds
            (verify_intent_target os dir after ms w fs)
            (λ _ w'. All (AtTarget after) ms × (w' ≡ w))
            Q
    unfolding verify_intent_target
    verify_intent_target-Holds after [] fs = ends Unit tt fs
    verify_intent_target-Holds after (m ∷ ms) fs =
        reads->> w _ Q (verify_target os dir m (target_of after m)) (AtTarget after m) _ fs
          (verify_target-Holds after m fs)
          (λ k fs'.
            Holds-map (λ _ w'. All (AtTarget after) ms × (w' ≡ w)) Q
              (λ _ w'. (AtTarget after m × All (AtTarget after) ms) × (w' ≡ w)) Q
              (λ _ w' (ks, e). ((k, ks), e)) (λ w' x. x) _
              (verify_intent_target-Holds after ms fs'))

-- Recovery fails closed: if one participant is in neither of its states, whatever else holds and
-- whatever fails, it does not succeed and changes nothing on the disk.
pub recover_loaded_fail_closed :
    (os : Os) (dir : Text) (t : Intent) (committed : Bool) (w : World) (fs : List Fault)
    → Any
        (λ m. (matches os w.live m.path m.before || matches os w.live m.path m.after) ≡ false)
        t.mutations
    → Holds (recover_loaded os dir t committed w fs) (λ _ _. ⊥) (λ w'. w' ≡ w)
unfolding recover_loaded
recover_loaded_fail_closed os dir t committed w fs unknown =
    reads->> w _ (λ w'. w' ≡ w) (classify_all os dir t.mutations) (All (Known os dir w) t.mutations)
      _ fs (classify_all-Holds os dir w (λ w'. w' ≡ w) refl t.mutations fs)
      (λ known. absurd (contradiction t.mutations known unknown))
  where
    contradiction :
        (ms : List Mutation)
        → All (Known os dir w) ms
        → Any
            (λ m. (matches os w.live m.path m.before || matches os w.live m.path m.after) ≡ false)
            ms
        → ⊥
    contradiction [] k u = u
    contradiction (m ∷ ms) (k, ks) (inl u) = cc (sym k.in_state ∙ u)
    contradiction (m ∷ ms) (k, ks) (inr u) = contradiction ms ks u
