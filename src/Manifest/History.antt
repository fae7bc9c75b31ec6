-- ===== src/Manifest/History.antt =====
-- The history of an entry, newest first, in which each event is well formed and refers to what came before
-- it; and the sets and maps of the validators, which say what such a history has.
use mathlib.Core.List.{reverse}
use hukou.Prelude.{
  ◌≤◌, Text, Bool, true, false, not, ◌&&◌, ◌≡◌, ◌≢◌, ◌↔◌, ◌⊎◌, inl, inr, refl, sym, ◌∙◌, List, [],
  ◌∷◌, All, Any, map, arith, text_eq, text_eq_iff, text_eq_refl, is_nil, length, to_lower, member,
  lookup, Bool-cases, ok,
}
use hukou.Manifest.{
  Event, Entry, Formats, Bindings, is_rebound, all_id_bytes, known_operations,
  validate_activation_tag, validate_decoded_activation, valid_digest,
}

-- A tag that may name a directory of the store.
abbrev pub IsTag : Text → Type 0
IsTag tag = validate_activation_tag tag ≡ ok tt

pub record IsEvent (fm : Formats) (e : Event) : Type 0 where
  pub id_named : e.id ≢ []
  pub id_short : length e.id ≤ 128
  pub id_plain : all_id_bytes e.id ≡ true
  pub operation_known : member e.operation known_operations ≡ true
  pub tag_fit : IsTag e.tag
  pub digest_fit : valid_digest e.sha256 ≡ true
  pub time_fit : fm.is_rfc3339 e.activated_at ≡ true

-- One of the events has the id, or there is none to have.
abbrev pub Refers : Text → List Event → Type 0
Refers id es = (id ≡ []) ⊎ Any (λ e. e.id ≡ id) es

-- The tag stands for one digest among the events.
abbrev pub Binds : Text → Text → List Event → Type 0
Binds tag sha es = All (λ e. e.tag ≡ tag → to_lower e.sha256 ≡ to_lower sha) es

-- What an event is to the events before it.
pub record Extends (fm : Formats) (e : Event) (es : List Event) : Type 0 where
  pub well_formed : IsEvent fm e
  pub fresh : All (λ x. x.id ≢ e.id) es
  pub parent_before : Refers e.parent_id es
  pub reverted_before : Refers e.reverts_id es
  pub bound : Binds e.tag e.sha256 es

abbrev pub History : Formats → List Event → Type 0
History fm [] = Unit
History fm (e ∷ es) = Extends fm e es × History fm es

-- The lineage of an entry.
pub record IsLineage (fm : Formats) (entry : Entry) : Type 0 where
  pub history : History fm (reverse entry.activations)
  pub active : Event
  pub earlier : List Event
  pub newest : reverse entry.activations ≡ active ∷ earlier
  pub active_id : active.id ≡ entry.active_activation_id
  pub active_tag : active.tag ≡ entry.tag
  pub active_digest : to_lower active.sha256 ≡ to_lower entry.sha256

abbrev pub bindings_of : List Event → Bindings
bindings_of = map (λ e. (e.tag, to_lower e.sha256))

abbrev pub ids_of : List Event → List Text
ids_of = map (λ e. e.id)

pub member-ids_of :
    (id : Text) (es : List Event) → (member id (ids_of es) ≡ true) ↔ Any (λ e. e.id ≡ id) es
unfolding member
member-ids_of id [] = (λ e. cc, λ f. absurd f)
member-ids_of id (e ∷ es) = elim (Bool-cases (text_eq id e.id)) [
  | inl h ↦ rw h (λ x. inl (sym ((text_eq_iff id e.id).0 h)), λ x. refl)
  | inr h ↦ rw h (
    λ x. inr ((member-ids_of id es).0 x),
    λ x. elim x [ inl k ↦ absurd (differs k h) | inr k ↦ (member-ids_of id es).1 k ],
  )
]
  where
    differs : e.id ≡ id → text_eq id e.id ≡ false → ⊥
    differs k h = let y = text_eq_refl id in cc

pub fresh-ids_of :
    (id : Text) (es : List Event) → (member id (ids_of es) ≡ false) ↔ All (λ e. e.id ≢ id) es
unfolding member
fresh-ids_of id [] = (λ e. tt, λ f. refl)
fresh-ids_of id (e ∷ es) = elim (Bool-cases (text_eq id e.id)) [
  | inl h ↦ rw h (λ x. cc, λ (ne, k). absurd (ne (sym ((text_eq_iff id e.id).0 h))))
  | inr h ↦ rw h (λ x. (differs h, (fresh-ids_of id es).0 x), λ (ne, k). (fresh-ids_of id es).1 k)
]
  where
    differs : text_eq id e.id ≡ false → e.id ≢ id
    differs h k = let y = text_eq_refl id in cc

-- The binding that the map has is the one of all events with the tag.
pub is_rebound-bindings_of :
    (fm : Formats) (tag sha : Text) (es : List Event)
    → History fm es
    → (is_rebound (lookup tag (bindings_of es)) (to_lower sha) ≡ false) ↔ Binds tag sha es
unfolding lookup
is_rebound-bindings_of fm tag sha [] h = (λ e. tt, λ e. refl)
is_rebound-bindings_of fm tag sha (e ∷ es) (x, h) = elim (Bool-cases (text_eq tag e.tag)) [
  | inl same ↦ rw same (
    λ b.
        let eq = not_rebound b in
        (λ _. eq, all_bound es x.bound ((text_eq_iff tag e.tag).0 same) eq),
    λ (k, ks). rw (k (sym ((text_eq_iff tag e.tag).0 same)), text_eq_refl (to_lower sha)) refl,
  )
  | inr other ↦ rw other (
    λ b. (λ k. absurd (differs k other), (is_rebound-bindings_of fm tag sha es h).0 b),
    λ (k, ks). (is_rebound-bindings_of fm tag sha es h).1 ks,
  )
]
  where
    differs : e.tag ≡ tag → text_eq tag e.tag ≡ false → ⊥
    differs k o = let y = text_eq_refl tag in cc

    not_rebound :
        not (text_eq (to_lower e.sha256) (to_lower sha)) ≡ false → to_lower e.sha256 ≡ to_lower sha
    not_rebound b = ground (arith, text_eq_iff (to_lower e.sha256) (to_lower sha))

    all_bound :
        (l : List Event)
        → Binds e.tag e.sha256 l
        → tag ≡ e.tag
        → to_lower e.sha256 ≡ to_lower sha
        → Binds tag sha l
    all_bound [] b t eq = tt
    all_bound (y ∷ l) (b, bs) t eq = (λ k. b (k ∙ t) ∙ eq, all_bound l bs t eq)

module _ (fm : Formats) (e : Event) where
  -- The checks on one event, apart from the binding.
  pub decoded-ok :
      (bs bs' : Bindings)
      → validate_decoded_activation fm e bs ≡ ok bs'
      → IsEvent fm e
        × (is_rebound (lookup e.tag bs) (to_lower e.sha256) ≡ false)
        × (bs' ≡ (e.tag, to_lower e.sha256) ∷ bs)
  unfolding validate_decoded_activation
  decoded-ok bs bs' h = (
    record {
      id_named = ground arith;
      id_short = ground arith;
      id_plain = ground arith;
      operation_known = ground arith;
      tag_fit = ground arith;
      digest_fit = ground arith;
      time_fit = ground arith;
    },
    ground arith,
    ground arith,
  )

  pub ok-decoded :
      (bs : Bindings)
      → IsEvent fm e
      → is_rebound (lookup e.tag bs) (to_lower e.sha256) ≡ false
      → validate_decoded_activation fm e bs ≡ ok ((e.tag, to_lower e.sha256) ∷ bs)
  unfolding validate_decoded_activation
  ok-decoded bs v b = ground (
    arith, v.id_named, v.id_short, v.id_plain, v.operation_known, v.tag_fit, v.digest_fit,
    v.time_fit,
  )

pub Refers-iff :
    (id : Text) (es : List Event)
    → ((not (is_nil id) && not (member id (ids_of es))) ≡ false) ↔ Refers id es
Refers-iff [] es = (λ h. inl refl, λ h. refl)
Refers-iff (c ∷ id) es = (
  λ h. inr ((member-ids_of (c ∷ id) es).0 (there (member (c ∷ id) (ids_of es)) h)),
  λ x. elim x [ inl e ↦ cc | inr k ↦ rw ((member-ids_of (c ∷ id) es).1 k) refl ],
)
  where
    there : (b : Bool) → not b ≡ false → b ≡ true
    there true h = refl
    there false h = cc
