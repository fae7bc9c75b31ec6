-- ===== src/Manifest/Digests.antt =====
-- Digests in lower case, and ids that are not in use, in a history of activation events.
use mathlib.Core.List.{reverse}
use hukou.Prelude.{
  Text, true, false, ◌≡◌, ◌≢◌, sym, ◌∙◌, List, [], ◌∷◌, All, All-reverse, arith, all_hex, to_lower,
  to_lower-hex, lower_ascii, lower_ascii-hex, lower_ascii_idem, member,
}
use hukou.Manifest.{Event, valid_digest}
use hukou.Manifest.History.{Binds, ids_of, fresh-ids_of}

-- A digest in lower case is one, and stays as it is.
pub to_lower-valid_digest :
    (s : Text)
    → valid_digest s ≡ true
    → (valid_digest (to_lower s) ≡ true) × (to_lower (to_lower s) ≡ to_lower s)
to_lower-valid_digest s v =
    let hex : all_hex s ≡ true = ground arith in
    let same = to_lower-hex s hex in
    let (hex', len) = lower_ascii-hex s hex in
    (
      rw (same, len, hex') (ground arith),
      rw same (to_lower-hex (lower_ascii s) hex' ∙ lower_ascii_idem s),
    )

-- An id that is not in use is fresh to the history.
pub fresh_reverse :
    (id : Text) (xs : List Event)
    → member id (ids_of xs) ≡ false
    → All (λ x. x.id ≢ id) (reverse xs)
fresh_reverse id xs h = All-reverse (λ x. x.id ≢ id) xs ((fresh-ids_of id xs).0 h)

pub lower_Binds :
    (tag sha : Text) (es : List Event)
    → valid_digest sha ≡ true
    → Binds tag sha es
    → Binds tag (to_lower sha) es
lower_Binds tag sha [] v b = tt
lower_Binds tag sha (e ∷ es) v (b, bs) =
    (λ t. b t ∙ sym (to_lower-valid_digest sha v).1, lower_Binds tag sha es v bs)
