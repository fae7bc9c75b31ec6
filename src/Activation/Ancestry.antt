-- ===== src/Activation/Ancestry.antt =====
-- `Ancestors` of the package activation: the chain of parents, which ends.
use mathlib.Core.List.{reverse, reverse-cons}
use hukou.Prelude.{
  ℕ, zero, suc, ◌<◌, pos, Text, Bool, true, false, ◌≡◌, ◌≢◌, ◌⊎◌, inl, inr, refl, sym, ◌∙◌, ap,
  subst, List, [], ◌∷◌, ◌++◌, All, Any, Option, none, some, arith, text_eq, text_eq_iff,
  text_eq_refl, if◌then◌else◌, is_nil, length, length-append, take, Bool-cases, Result,
  Result-cases, ok, err, refuse_if, ◌>>=◌, ◌>>◌,
}
use hukou.Manifest.{Event, Entry, Formats, last_event}
use hukou.Manifest.History.{Extends, History}
use hukou.Manifest.Lineage.{last_event-reverse}
use hukou.Activation.{
  ActivationError, or_this, find_event, or_first, event_at, ancestors_from, ancestors_limited,
  ancestors, previous, validate,
}
use hukou.Activation.Validity.{validate_iff}

-- The newest event with an id, in a history.
unfoldable pub newest_with : Text → List Event → Option Event
newest_with id [] = none
newest_with id (e ∷ es) = if text_eq id e.id then some e else newest_with id es

newest_with-append :
    (id : Text) (ys : List Event) (x : Event)
    → newest_with id (ys ++ (x ∷ [])) ≡ or_this (newest_with id ys) (text_eq id x.id) x
unfolding newest_with or_this
newest_with-append id [] x = refl
newest_with-append id (y ∷ ys) x = elim (Bool-cases (text_eq id y.id)) [
  | inl e ↦ rw e refl
  | inr e ↦ rw e (newest_with-append id ys x)
]

find_event-reverse : (id : Text) (xs : List Event) → find_event id xs ≡ newest_with id (reverse xs)
unfolding find_event newest_with
find_event-reverse id [] = refl
find_event-reverse id (x ∷ xs) =
    rw (reverse-cons x xs, newest_with-append id (reverse xs) x, find_event-reverse id xs) refl

pub event_at-newest_with :
    (xs : List Event) (id : Text) (p : Event)
    → newest_with id (reverse xs) ≡ some p
    → event_at xs id ≡ ok p
event_at-newest_with [] id p e = unfold newest_with in cc
event_at-newest_with (x ∷ xs) id p e =
    unfold event_at in rw (find_event-reverse id (x ∷ xs), e) (unfold or_first in refl)

-- The parents of an event, nearest first, to the root of the lineage.
pub data Chain (h : List Event) : Event → List Event → Type 0 where
  stop : {e : Event} → e.parent_id ≡ [] → Chain h e []
  climb :
      {e p : Event}
      → {up : List Event} → e.parent_id ≢ []
      → newest_with e.parent_id h ≡ some p
      → Chain h p up
      → Chain h e (p ∷ up)

-- A newer event with a fresh id hides none.
pub newest_with-fresh :
    (x : Event) (h : List Event) (id : Text) (p : Event)
    → All (λ y. y.id ≢ x.id) h
    → newest_with id h ≡ some p
    → newest_with id (x ∷ h) ≡ some p
unfolding newest_with
newest_with-fresh x h id p f e = elim (Bool-cases (text_eq id x.id)) [
  | inl same ↦ absurd (hidden h f ((text_eq_iff id x.id).0 same) e)
  | inr other ↦ rw other e
]
  where
    hidden : (l : List Event) → All (λ y. y.id ≢ x.id) l → id ≡ x.id → newest_with id l ≡ some p → ⊥
    hidden [] f' same e' = cc
    hidden (y ∷ l) (ne, f') same e' = elim (Bool-cases (text_eq id y.id)) [
      | inl k ↦ ne (sym ((text_eq_iff id y.id).0 k) ∙ same)
      | inr k ↦ hidden l f' same (rw k at e')
    ]

pub Chain-fresh :
    (x : Event) (h : List Event)
    → All (λ y. y.id ≢ x.id) h
    → (e : Event) (up : List Event) → Chain h e up
    → Chain (x ∷ h) e up
Chain-fresh x h f _ _ (stop e) = stop e
Chain-fresh x h f _ _ (climb {e} {p} {up} ne l c) =
    climb ne (newest_with-fresh x h e.parent_id p f l) (Chain-fresh x h f p up c)

Any-newest :
    (id : Text) (h : List Event)
    → Any (λ e. e.id ≡ id) h
    → (p : Event) × (newest_with id h ≡ some p)
unfolding newest_with
Any-newest id [] m = absurd m
Any-newest id (x ∷ h) m = elim (Bool-cases (text_eq id x.id)) [
  | inl e ↦ (x, rw e refl)
  | inr e ↦ elim m [
    | inl k ↦ absurd (differs k e)
    | inr k ↦ let (p, l) = Any-newest id h k in (p, rw e l)
  ]
]
  where
    differs : x.id ≡ id → text_eq id x.id ≡ false → ⊥
    differs k e = let y = text_eq_refl id in cc

nil_or_not : (s : Text) → (s ≡ []) ⊎ (s ≢ [])
nil_or_not [] = inl refl
nil_or_not (c ∷ s) = inr (λ e. cc)

not_nil : (s : Text) → s ≢ [] → is_nil s ≡ false
not_nil [] ne = absurd (ne refl)
not_nil (c ∷ s) ne = refl

module _ (fm : Formats) where
  -- The chain of an event of a history, shorter than the history.
  abbrev pub Climbs : List Event → Event → Type 0
  Climbs h e = (up : List Event) × Chain h e up × (length up < length h)

  -- The newest event of a history climbs, where those before it do.
  newest-Climbs :
      (x : Event) (h : List Event)
      → Extends fm x h
      → ((p : Event) → newest_with x.parent_id h ≡ some p → Climbs h p)
      → Climbs (x ∷ h) x
  newest-Climbs x h ext below = elim (nil_or_not x.parent_id) [
    | inl root ↦ ([], stop root, omega arith)
    | inr ne ↦ elim ext.parent_before [
      | inl root ↦ absurd (ne root)
      | inr m ↦
          let (p, l) = Any-newest x.parent_id h m in
          let (up, c, lt) = below p l in
          (
            p ∷ up,
            climb ne (newest_with-fresh x h x.parent_id p ext.fresh l)
                (Chain-fresh x h ext.fresh p up c),
            omega (arith, lt),
          )
    ]
  ]

  climbs :
      (h : List Event)
      → History fm h
      → (id : Text) (e : Event) → newest_with id h ≡ some e
      → Climbs h e
  unfolding newest_with
  climbs [] k id e l = cc
  climbs (x ∷ h) (ext, k) id e l = elim (Bool-cases (text_eq id x.id)) [
    | inl same ↦
        let is_x : x ≡ e = found (rw same at l) in
        subst (Climbs (x ∷ h)) is_x (newest-Climbs x h ext (λ p l'. climbs h k x.parent_id p l'))
    | inr other ↦
        let (up, c, lt) = climbs h k id e (rw other at l) in
        (up, Chain-fresh x h ext.fresh e up c, omega (arith, lt))
  ]
    where
      found : some x ≡ some e → x ≡ e
      found eq = cc

  pub active-Climbs : (a : Event) (h : List Event) → History fm (a ∷ h) → Climbs (a ∷ h) a
  active-Climbs a h (ext, k) = newest-Climbs a h ext (λ p l. climbs h k a.parent_id p l)

-- The loop walks the chain.
pub ancestors_from-Chain :
    (xs : List Event) (limit : ℕ) (e : Event) (up : List Event)
    → Chain (reverse xs) e up
    → ancestors_from xs limit e ≡ ok (take limit up)
unfolding ancestors_from
ancestors_from-Chain xs zero e up c = refl
ancestors_from-Chain xs (suc n) _ _ (stop {e} root) = rw root refl
ancestors_from-Chain xs (suc n) _ _ (climb {e} {p} {up} ne l c) =
    rw
      (
        not_nil e.parent_id ne,
        event_at-newest_with xs e.parent_id p l,
        ancestors_from-Chain xs n p up c,
      )
      refl

length-reverse : (xs : List Event) → length (reverse xs) ≡ length xs
length-reverse [] = refl
length-reverse (x ∷ xs) =
    rw (reverse-cons x xs) (omega (arith, length-append (reverse xs) (x ∷ []), length-reverse xs))

-- The ancestors of an entry are those of its newest event.
pub ancestors_of_newest :
    (fm : Formats) (entry : Entry) (a : Event) (earlier up : List Event)
    → validate fm entry ≡ ok tt
    → reverse entry.activations ≡ a ∷ earlier
    → a.id ≡ entry.active_activation_id
    → Chain (reverse entry.activations) a up
    → (limit : ℕ) → ancestors fm entry (pos limit) ≡ ok (take limit up)
unfolding ancestors ancestors_limited
ancestors_of_newest fm entry a earlier up v newest active c limit =
    rw (v, event_at-newest_with entry.activations entry.active_activation_id a found)
      (ancestors_from-Chain entry.activations limit a up c)
  where
    found : newest_with entry.active_activation_id (reverse entry.activations) ≡ some a
    found = unfold newest_with in rw (newest, active, text_eq_refl entry.active_activation_id) refl

-- An entry whose lineage is valid has a chain of ancestors, which starts at its last event, ends at an
-- event without a parent, and is shorter than the lineage; so `Ancestors` ends, and gives the first
-- events of the chain, as many as are asked for. An empty text is no timestamp.
pub ancestors-Chain :
    (fm : Formats) (no_time : fm.is_rfc3339 [] ≡ false) (entry : Entry)
    → validate fm entry ≡ ok tt
    → (a : Event) × (up : List Event) × (last_event entry.activations ≡ some a)
      × Chain (reverse entry.activations) a up
      × (length up < length entry.activations)
      × ((limit : ℕ) → ancestors fm entry (pos limit) ≡ ok (take limit up))
ancestors-Chain fm no_time entry v =
    let k = (validate_iff fm no_time entry).0 v in
    let whole : History fm (k.active ∷ k.earlier) = subst (History fm) k.newest k.history in
    let (up, c, lt) = active-Climbs fm k.active k.earlier whole in
    let c' : Chain (reverse entry.activations) k.active up = rw k.newest c in
    let n : length (k.active ∷ k.earlier) ≡ length entry.activations =
      ap length (sym k.newest) ∙ length-reverse entry.activations in
    (
      k.active,
      up,
      last_event-reverse entry.activations k.active k.earlier k.newest,
      c',
      omega (arith, lt, n),
      ancestors_of_newest fm entry k.active k.earlier up v k.newest k.active_id c',
    )

-- `Previous` of a chain.
abbrev pub first : List Event → Result ActivationError Event
first [] = err ActivationError.no_previous_activation
first (e ∷ es) = ok e

-- The version to go back to is the first ancestor, whatever the entry; the errors are the same.
pub previous-ancestors :
    (fm : Formats) (entry : Entry)
    → previous fm entry ≡ (do up ← ancestors fm entry (pos 1); first up)
unfolding previous ancestors ancestors_limited ancestors_from
previous-ancestors fm entry = elim (Result-cases (validate fm entry)) [
  | inl (u, v) ↦ rw v (from (event_at entry.activations entry.active_activation_id))
  | inr (e, v) ↦ rw v refl
]
  where
    parent : (r : Result ActivationError Event) → r ≡ (do up ← (do p ← r; ok (p ∷ [])); first up)
    parent (err e) = refl
    parent (ok p) = refl

    named :
        (b : Bool) (r : Result ActivationError Event)
        → (do refuse_if b ActivationError.no_previous_activation; r)
          ≡ (do up ← (if b then ok [] else (do p ← r; ok (p ∷ []))); first up)
    named true r = refl
    named false r = parent r

    from :
        (r : Result ActivationError Event)
        → (do
          current ← r
          refuse_if (is_nil current.parent_id) ActivationError.no_previous_activation
          event_at entry.activations current.parent_id)
          ≡ (do
            up ← (do
              current ← r
              if is_nil current.parent_id
                  then ok []
                  else (do p ← event_at entry.activations current.parent_id; ok (p ∷ [])))
            first up)
    from (err e) = refl
    from (ok current) =
        named (is_nil current.parent_id) (event_at entry.activations current.parent_id)
