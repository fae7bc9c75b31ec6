-- ===== src/Manifest/Preserve.antt =====
-- `Put` and `Remove` keep a manifest valid.
use hukou.Prelude.{
  ◌≡◌, ◌≢◌, ◌↔◌, inl, inr, refl, sym, Text, false, List, [], ◌∷◌, All, text_eq, text_eq_iff, map,
  subst, member, Bool-cases, ok,
}
use hukou.Manifest.{Entry, Manifest, Formats, validate_entry, validate}
use hukou.Manifest.Entries.{put_entry, put, delete_entry, remove}
use hukou.Manifest.Names.{Distinct, member-cons, validate_iff}

All-put :
    (P : Entry → Type 0) (entry : Entry) (es : List Entry)
    → P entry
    → All P es
    → All P (put_entry entry es)
unfolding put_entry
All-put P entry [] p a = (p, tt)
All-put P entry (e ∷ es) p (a, as') = elim (Bool-cases (text_eq e.name entry.name)) [
  | inl same ↦ rw same (p, as')
  | inr other ↦ rw other (a, All-put P entry es p as')
]

All-delete :
    (P : Entry → Type 0) (name : Text) (es : List Entry) → All P es → All P (delete_entry name es)
unfolding delete_entry
All-delete P name [] a = tt
All-delete P name (e ∷ es) (a, as') = elim (Bool-cases (text_eq e.name name)) [
  | inl same ↦ rw same as'
  | inr other ↦ rw other (a, All-delete P name es as')
]

-- No entry has the text in a field; the field is the name or the path below.
Lacks : (Entry → Text) → Text → List Entry → Type 0
Lacks field x es = All (λ e. x ≢ field e) es

Lacks-member :
    (field : Entry → Text) (x : Text) (es : List Entry)
    → Lacks field x es ↔ (member x (map field es) ≡ false)
unfolding member Lacks
Lacks-member field x [] = (λ h. refl, λ h. tt)
Lacks-member field x (e ∷ es) =
    let (to, from) = Lacks-member field x es in
    let (to', from') = member-cons x (field e) (map field es) in
    (λ (n, l). from' (n, to l), λ m. let (n, m') = to' m in (n, from m'))

Different : (Entry → Text) → List Entry → Type 0
Different field [] = Unit
Different field (e ∷ es) = Lacks field (field e) es × Different field es

Different-Distinct :
    (field : Entry → Text) (es : List Entry) → Different field es ↔ Distinct (map field es)
unfolding Different
Different-Distinct field [] = (λ h. tt, λ h. tt)
Different-Distinct field (e ∷ es) =
    let (to, from) = Different-Distinct field es in
    let (to', from') = Lacks-member field (field e) es in
    (λ (l, d). (to' l, to d), λ (m, d). (from' m, from d))

-- Entries of another name differ from the new entry in the field.
abbrev Agrees : (Entry → Text) → Entry → List Entry → Type 0
Agrees field entry = All (λ e. entry.name ≢ e.name → field entry ≢ field e)

Lacks-put :
    (field : Entry → Text) (x : Text) (entry : Entry) (es : List Entry)
    → x ≢ field entry
    → Lacks field x es
    → Lacks field x (put_entry entry es)
unfolding Lacks
Lacks-put field x entry es n l = All-put (λ e. x ≢ field e) entry es n l

named_apart :
    (field : Entry → Text) (entry : Entry) (es : List Entry)
    → Lacks (λ e. e.name) entry.name es
    → Agrees field entry es
    → Lacks field (field entry) es
unfolding Lacks
named_apart field entry [] l a = tt
named_apart field entry (e ∷ es) (n, l) (f, a) = (f n, named_apart field entry es l a)

Different-put :
    (field : Entry → Text) (entry : Entry) (es : List Entry)
    → Different (λ e. e.name) es
    → Agrees field entry es
    → Different field es
    → Different field (put_entry entry es)
unfolding put_entry Different
Different-put field entry [] names a d = (unfold Lacks in tt, tt)
Different-put field entry (e ∷ es) (l, names) (f, a) (l', d) =
    elim (Bool-cases (text_eq e.name entry.name)) [
      | inl same ↦ rw same (
        named_apart field entry es
            (subst (λ n. Lacks (λ e. e.name) n es) ((text_eq_iff e.name entry.name).0 same) l) a,
        d,
      )
      | inr other ↦ rw other (
        Lacks-put field (field e) entry es (λ x. f (λ n. differs n other) (sym x)) l',
        Different-put field entry es names a d,
      )
    ]
  where
    differs : entry.name ≡ e.name → text_eq e.name entry.name ≡ false → ⊥
    differs n o = let y = (text_eq_iff e.name entry.name).1 (sym n) in cc

Different-delete :
    (field : Entry → Text) (name : Text) (es : List Entry)
    → Different field es
    → Different field (delete_entry name es)
unfolding delete_entry Different Lacks
Different-delete field name [] d = tt
Different-delete field name (e ∷ es) (l, d) = elim (Bool-cases (text_eq e.name name)) [
  | inl same ↦ rw same d
  | inr other ↦
      rw other (All-delete (λ x. field e ≢ field x) name es l, Different-delete field name es d)
]

names_agree : (entry : Entry) (es : List Entry) → Agrees (λ e. e.name) entry es
names_agree entry [] = tt
names_agree entry (e ∷ es) = (λ n. n, names_agree entry es)

-- `Put` of a valid entry, whose path no entry of another name has, keeps a valid manifest valid.
pub validate-put :
    (fm : Formats) (m : Manifest) (entry : Entry)
    → validate fm m ≡ ok tt
    → validate_entry fm entry ≡ ok tt
    → All (λ e. entry.name ≢ e.name → entry.path ≢ e.path) m.entries
    → validate fm (put m entry) ≡ ok tt
unfolding put
validate-put fm m entry v fit free =
    let k = (validate_iff fm m).0 v in
    let names = (Different-Distinct (λ e. e.name) m.entries).1 k.names in
    let paths = (Different-Distinct (λ e. e.path) m.entries).1 k.paths in
    (validate_iff fm (put m entry)).1 (record {
      schema = k.schema;
      depth = k.depth;
      entries_fit = All-put (λ e. validate_entry fm e ≡ ok tt) entry m.entries fit k.entries_fit;
      names =
          (Different-Distinct (λ e. e.name) (put_entry entry m.entries)).0
            (Different-put (λ e. e.name) entry m.entries names (names_agree entry m.entries) names);
      paths =
          (Different-Distinct (λ e. e.path) (put_entry entry m.entries)).0
            (Different-put (λ e. e.path) entry m.entries names free paths);
    })

-- `Remove` keeps a valid manifest valid.
pub validate-remove :
    (fm : Formats) (m : Manifest) (name : Text)
    → validate fm m ≡ ok tt
    → validate fm (remove m name).1 ≡ ok tt
unfolding remove
validate-remove fm m name v =
    let k = (validate_iff fm m).0 v in
    let names = (Different-Distinct (λ e. e.name) m.entries).1 k.names in
    let paths = (Different-Distinct (λ e. e.path) m.entries).1 k.paths in
    (validate_iff fm (remove m name).1).1 (record {
      schema = k.schema;
      depth = k.depth;
      entries_fit = All-delete (λ e. validate_entry fm e ≡ ok tt) name m.entries k.entries_fit;
      names =
          (Different-Distinct (λ e. e.name) (delete_entry name m.entries)).0
            (Different-delete (λ e. e.name) name m.entries names);
      paths =
          (Different-Distinct (λ e. e.path) (delete_entry name m.entries)).0
            (Different-delete (λ e. e.path) name m.entries paths);
    })
