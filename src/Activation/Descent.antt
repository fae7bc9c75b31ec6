-- ===== src/Activation/Descent.antt =====
-- Where a rollback leads: to the event that was named, whose ancestors become those of the entry; and how
-- often one can go back.
use mathlib.Core.List.{reverse, reverse-append}
use hukou.Prelude.{
  ℕ, zero, suc, ◌<◌, ◌≤◌, pos, Text, false, ◌≡◌, refl, sym, ◌∙◌, ap, subst, List, [], ◌∷◌, ◌++◌,
  All, arith, length, length-append, take, length-take, ◌≢◌, Result, ok,
}
use hukou.Manifest.{Event, Entry, Formats}
use hukou.Activation.{
  ActivationError, validate, append_current, record_rollback, rollback_event, ancestors,
}
use hukou.Activation.Ancestry.{
  newest_with, Chain, stop, climb, Chain-fresh, newest_with-fresh, ancestors_of_newest,
  ancestors-Chain,
}
use hukou.Manifest.Digests.{fresh_reverse}
use hukou.Activation.Rollback.{rolled_back, rollback_valid}

-- A newer event with the parent of an event has its chain.
pub Chain-same_parent :
    (h : List Event) (x e : Event) (up : List Event)
    → All (λ y. y.id ≢ x.id) h
    → x.parent_id ≡ e.parent_id
    → Chain h e up
    → Chain (x ∷ h) x up
Chain-same_parent h x _ _ f same (stop {e} root) = stop (same ∙ root)
Chain-same_parent h x _ _ f same (climb {e} {p} {up} ne l c) =
    climb (λ r. ne (sym same ∙ r))
      (newest_with-fresh x h x.parent_id p f (ap (λ i. newest_with i h) same ∙ l))
      (Chain-fresh x h f p up c)

ok_length :
    (xs ys : List Event)
    → Path (Result ActivationError (List Event)) (ok xs) (ok ys)
    → length xs ≡ length ys
ok_length xs ys e = let same : xs ≡ ys = cc in ap length same

module _ (fm : Formats) (no_time : fm.is_rfc3339 [] ≡ false) where
  -- Where a rollback leads.
  pub record LeadsTo (entry e' : Entry) (target : Text) : Type 0 where
    pub event : Event
    pub above : List Event
    pub below : List Event
    pub chain : ancestors fm entry (pos (length entry.activations)) ≡ ok (above ++ (event ∷ below))
    pub named : event.id ≡ target
    pub valid : validate fm e' ≡ ok tt
    pub same_tag : e'.tag ≡ event.tag
    pub same_digest : e'.sha256 ≡ event.sha256
    pub descended : (limit : ℕ) → ancestors fm e' (pos limit) ≡ ok (take limit below)

  -- A rollback that succeeds leads to an ancestor with the id that was asked for: the entry is valid again,
  -- has the tag and the digest of that ancestor, and its ancestors are from now on those below it. An
  -- empty text is no timestamp.
  pub rollback-LeadsTo :
      (entry e' : Entry) (id target at : Text)
      → record_rollback fm entry id target at ≡ ok e'
      → LeadsTo entry e' target
  unfolding append_current
  rollback-LeadsTo entry e' id target at r =
      let k = rolled_back fm no_time entry e' id target at r in
      let v = rollback_valid fm no_time entry e' id target at r in
      let ev = rollback_event entry id k.event at in
      let newest : reverse e'.activations ≡ ev ∷ reverse entry.activations =
        ap (λ e. reverse e.activations) k.appended ∙ reverse-append entry.activations (ev ∷ []) in
      let c =
        Chain-same_parent (reverse entry.activations) ev k.event k.below
          (fresh_reverse id entry.activations k.id_fresh) refl k.rest in
      record {
        event = k.event;
        above = k.above;
        below = k.below;
        chain = k.chain;
        named = k.named;
        valid = v;
        same_tag = ap (λ e. e.tag) k.appended;
        same_digest = ap (λ e. e.sha256) k.appended;
        descended =
            ancestors_of_newest fm e' ev (reverse entry.activations) k.below v newest
              (sym (ap (λ e. e.active_activation_id) k.appended))
              (subst (λ h. Chain h ev k.below) (sym newest) c);
      }

  -- Successive rollbacks, and their number.
  pub data Rollbacks : ℕ → Entry → Entry → Type 0 where
    done : {entry : Entry} → Rollbacks zero entry entry
    back :
        {n : ℕ}
        → {entry e' e'' : Entry} → (id target at : Text)
        → record_rollback fm entry id target at ≡ ok e'
        → Rollbacks n e' e''
        → Rollbacks (suc n) entry e''

  shorter :
      (n : ℕ) (entry e' : Entry) (up : List Event)
      → ((limit : ℕ) → ancestors fm entry (pos limit) ≡ ok (take limit up))
      → Rollbacks n entry e'
      → n ≤ length up
  shorter _ entry _ up walk done = omega arith
  shorter _ _ _ up walk (back {n} {entry} {e'} {e''} id target at r rs) =
      let l = rollback-LeadsTo entry e' id target at r in
      let below = shorter n e' e'' l.below l.descended rs in
      let whole =
        ok_length (l.above ++ (l.event ∷ l.below)) (take (length entry.activations) up)
          (sym l.chain ∙ walk (length entry.activations)) in
      omega (
        arith,
        below,
        whole,
        length-append l.above (l.event ∷ l.below),
        length-take (length entry.activations) up,
      )

  -- There are fewer successive rollbacks of a valid entry than events of its lineage, whatever their targets.
  -- An empty text is no timestamp.
  pub Rollbacks-end :
      (n : ℕ) (entry e' : Entry)
      → validate fm entry ≡ ok tt
      → Rollbacks n entry e'
      → n < length entry.activations
  Rollbacks-end n entry e' v rs =
      let (a, up, last, c, short, walk) = ancestors-Chain fm no_time entry v in
      omega (arith, short, shorter n entry e' up walk rs)
