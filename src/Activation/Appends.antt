-- ===== src/Activation/Appends.antt =====
-- What `appendCurrent` keeps: an entry stays one with a lineage.
use mathlib.Core.List.{reverse, reverse_aux, reverse-append}
use hukou.Prelude.{
  Text, false, ◌≡◌, inl, inr, refl, sym, subst, List, [], ◌∷◌, ◌++◌, All, some, arith, text_eq,
  to_lower, lookup, Bool-cases, Result, ok, err, ◌>>=◌,
}
use hukou.Manifest.{Event, Entry, Formats, Bindings, is_rebound}
use hukou.Manifest.History.{
  IsEvent, Refers, Binds, Extends, History, IsLineage, bindings_of, is_rebound-bindings_of,
}
use hukou.Activation.{
  ActivationError, bind_tag_sha, bind_all, validate_new_tag_binding, append_current,
}
use hukou.Activation.Ancestry.{newest_with}

bind_all-ok :
    (xs es : List Event) (bs : Bindings)
    → bind_all (bindings_of es) xs ≡ ok bs
    → bs ≡ bindings_of (reverse_aux xs es)
unfolding bind_all bind_tag_sha
bind_all-ok [] es bs e = cc
bind_all-ok (x ∷ xs) es bs e =
    elim (Bool-cases (is_rebound (lookup x.tag (bindings_of es)) (to_lower x.sha256))) [
      | inl r ↦ absurd (ground (arith, r))
      | inr r ↦ bind_all-ok xs (x ∷ es) bs (rw r at e)
    ]

-- A binding that `validateNewTagBinding` lets through agrees with the history.
pub new_tag-Binds :
    (fm : Formats) (xs : List Event) (tag sha : Text)
    → History fm (reverse xs)
    → validate_new_tag_binding xs tag sha ≡ ok tt
    → Binds tag sha (reverse xs)
unfolding validate_new_tag_binding bind_tag_sha
new_tag-Binds fm xs tag sha h v = go (bind_all [] xs) refl v
  where
    go :
        (r : Result ActivationError Bindings)
        → bind_all [] xs ≡ r
        → (do bindings ← r; bindings' ← bind_tag_sha bindings tag sha; ok tt) ≡ ok tt
        → Binds tag sha (reverse xs)
    go (err x) e w = cc
    go (ok bs) e w =
        let same : bs ≡ bindings_of (reverse xs) = bind_all-ok xs [] bs e in
        let free : is_rebound (lookup tag bs) (to_lower sha) ≡ false = ground arith in
        (is_rebound-bindings_of fm tag sha (reverse xs) h).0
          (subst (λ b. is_rebound (lookup tag b) (to_lower sha) ≡ false) same free)

-- The events that an event was made of.
All-newest :
    (P : Event → Type 0) (h : List Event) (id : Text) (p : Event)
    → newest_with id h ≡ some p
    → All P h
    → P p
unfolding newest_with
All-newest P [] id p e a = cc
All-newest P (x ∷ h) id p e (a, as') = elim (Bool-cases (text_eq id x.id)) [
  | inl same ↦ subst P (found (rw same at e)) a
  | inr other ↦ All-newest P h id p (rw other at e) as'
]
  where
    found : some x ≡ some p → x ≡ p
    found eq = cc

Refers-cons : (id : Text) (x : Event) (h : List Event) → Refers id h → Refers id (x ∷ h)
Refers-cons id x h (inl e) = inl e
Refers-cons id x h (inr m) = inr (inr m)

-- What stands for an event of the history: its checks, its parent, and its digest.
pub record Stands (fm : Formats) (h : List Event) (p : Event) : Type 0 where
  pub well_formed : IsEvent fm p
  pub parent_before : Refers p.parent_id h
  pub bound : Binds p.tag p.sha256 h

pub newest-Stands :
    (fm : Formats) (h : List Event) (id : Text) (p : Event)
    → History fm h
    → newest_with id h ≡ some p
    → Stands fm h p
unfolding newest_with
newest-Stands fm [] id p k e = cc
newest-Stands fm (x ∷ h) id p (ext, k) e = elim (Bool-cases (text_eq id x.id)) [
  | inl same ↦ subst (Stands fm (x ∷ h)) (found (rw same at e)) (record {
    well_formed = ext.well_formed;
    parent_before = Refers-cons x.parent_id x h ext.parent_before;
    bound = (λ t. refl, ext.bound);
  })
  | inr other ↦
      let e' = rw other at e in
      let s = newest-Stands fm h id p k e' in
      record {
        well_formed = s.well_formed;
        parent_before = Refers-cons p.parent_id x h s.parent_before;
        bound = (
          λ t. sym (
              All-newest (λ y. y.tag ≡ x.tag → to_lower y.sha256 ≡ to_lower x.sha256) h id p e'
                ext.bound (sym t)),
          s.bound,
        );
      }
]
  where
    found : some x ≡ some p → x ≡ p
    found eq = cc

-- `appendCurrent` with an event that extends the history.
pub append_current-IsLineage :
    (fm : Formats) (entry : Entry) (ev : Event)
    → History fm (reverse entry.activations)
    → Extends fm ev (reverse entry.activations)
    → IsLineage fm (append_current entry ev)
unfolding append_current
append_current-IsLineage fm entry ev h x = record {
  history = subst (History fm) (sym newest) (x, h);
  active = ev;
  earlier = reverse entry.activations;
  newest = newest;
  active_id = refl;
  active_tag = refl;
  active_digest = refl;
}
  where
    newest : reverse (entry.activations ++ (ev ∷ [])) ≡ ev ∷ reverse entry.activations
    newest = reverse-append entry.activations (ev ∷ [])
