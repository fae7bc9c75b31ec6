-- ===== src/Manifest/Updates.antt =====
-- `Put`, `Remove` and `Get` as a map from names, and what they keep of a valid manifest.
use hukou.Prelude.{
  ◌≡◌, ◌≢◌, inl, inr, refl, sym, ◌∙◌, ap, Text, false, none, some, List, [], ◌∷◌, if◌then◌else◌,
  text_eq, text_eq_iff, text_eq_refl, member, Bool-cases, ok,
}
use hukou.Manifest.{Entry, Manifest, Formats, validate}
use hukou.Manifest.Entries.{find_entry, get, put_entry, put, delete_entry, remove, is_found}
use hukou.Manifest.Names.{Distinct, names_of, member-cons, validate_iff}

text_neq : (x y : Text) → x ≢ y → text_eq x y ≡ false
text_neq x y n = elim (Bool-cases (text_eq x y)) [
  | inl e ↦ absurd (n ((text_eq_iff x y).0 e))
  | inr e ↦ e
]

find_entry-put_same :
    (entry : Entry) (es : List Entry) → find_entry entry.name (put_entry entry es) ≡ some entry
unfolding find_entry put_entry
find_entry-put_same entry [] = rw (text_eq_refl entry.name) refl
find_entry-put_same entry (e ∷ es) = elim (Bool-cases (text_eq e.name entry.name)) [
  | inl same ↦ rw (same, text_eq_refl entry.name) refl
  | inr other ↦ rw (other, other) (find_entry-put_same entry es)
]

find_entry-put_other :
    (entry : Entry) (name : Text) (es : List Entry)
    → name ≢ entry.name
    → find_entry name (put_entry entry es) ≡ find_entry name es
unfolding find_entry put_entry
find_entry-put_other entry name [] n = rw (text_neq entry.name name (λ e. n (sym e))) refl
find_entry-put_other entry name (e ∷ es) n = elim (Bool-cases (text_eq e.name entry.name)) [
  | inl same ↦
      let apart = text_neq entry.name name (λ e. n (sym e)) in
      let apart' =
        text_neq e.name name (λ e'. n (sym e' ∙ (text_eq_iff e.name entry.name).0 same)) in
      rw (same, apart, apart') refl
  | inr other ↦
      rw other
        (ap (λ r. if text_eq e.name name then some e else r) (find_entry-put_other entry name es n))
]

find_entry-delete_other :
    (gone name : Text) (es : List Entry)
    → name ≢ gone
    → find_entry name (delete_entry gone es) ≡ find_entry name es
unfolding find_entry delete_entry
find_entry-delete_other gone name [] n = refl
find_entry-delete_other gone name (e ∷ es) n = elim (Bool-cases (text_eq e.name gone)) [
  | inl same ↦
      let apart = text_neq e.name name (λ e'. n (sym e' ∙ (text_eq_iff e.name gone).0 same)) in
      rw (same, apart) refl
  | inr other ↦
      rw other (
        ap (λ r. if text_eq e.name name then some e else r)
          (find_entry-delete_other gone name es n))
]

find_entry-missing :
    (name : Text) (es : List Entry) → member name (names_of es) ≡ false → find_entry name es ≡ none
unfolding find_entry
find_entry-missing name [] h = refl
find_entry-missing name (e ∷ es) h =
    let (n, m) = (member-cons name e.name (names_of es)).0 h in
    rw (text_neq e.name name (λ x. n (sym x))) (find_entry-missing name es m)

find_entry-delete_same :
    (name : Text) (es : List Entry)
    → Distinct (names_of es)
    → find_entry name (delete_entry name es) ≡ none
unfolding find_entry delete_entry
find_entry-delete_same name [] d = refl
find_entry-delete_same name (e ∷ es) (m, d) = elim (Bool-cases (text_eq e.name name)) [
  | inl same ↦ rw same (
      find_entry-missing name es
        (ap (λ n. member n (names_of es)) (sym ((text_eq_iff e.name name).0 same)) ∙ m))
  | inr other ↦ rw (other, other) (find_entry-delete_same name es d)
]

-- `Put` makes its entry the one under its name and changes no other name's; whatever the manifest holds.
pub get-put :
    (m : Manifest) (entry : Entry) (name : Text)
    → get (put m entry) name ≡ (if text_eq entry.name name then some entry else get m name)
unfolding get put
get-put m entry name = elim (Bool-cases (text_eq entry.name name)) [
  | inl same ↦ rw same (
      ap (λ n. find_entry n (put_entry entry m.entries))
        (sym ((text_eq_iff entry.name name).0 same))
      ∙ find_entry-put_same entry m.entries)
  | inr other ↦ rw other (find_entry-put_other entry name m.entries (λ e. differs e other))
]
  where
    differs : name ≡ entry.name → text_eq entry.name name ≡ false → ⊥
    differs e f = let r = (text_eq_iff entry.name name).1 (sym e) in cc

-- `Remove` takes the entry under the name out of a valid manifest and leaves the others; it tells whether
-- there was one.
pub get-remove :
    (fm : Formats) (m : Manifest) (gone name : Text)
    → validate fm m ≡ ok tt
    → ((remove m gone).0 ≡ is_found (get m gone))
      × (get (remove m gone).1 name ≡ (if text_eq gone name then none else get m name))
unfolding get remove
get-remove fm m gone name v = (
  refl,
  elim (Bool-cases (text_eq gone name)) [
    | inl same ↦ rw same (
        ap (λ n. find_entry n (delete_entry gone m.entries)) (sym ((text_eq_iff gone name).0 same))
        ∙ find_entry-delete_same gone m.entries ((validate_iff fm m).0 v).names)
    | inr other ↦ rw other (find_entry-delete_other gone name m.entries (λ e. differs e other))
  ],
)
  where
    differs : name ≡ gone → text_eq gone name ≡ false → ⊥
    differs e f = let r = (text_eq_iff gone name).1 (sym e) in cc
