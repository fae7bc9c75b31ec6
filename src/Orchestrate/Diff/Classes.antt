-- ===== src/Orchestrate/Diff/Classes.antt =====
-- `ComputeDiff` against a description of the three classes.
use hukou.Orchestrate.Diff.Order.{
  InOrder, Sorted-InOrder, ItemBefore, ChangeBefore, key_less-Before,
}
use hukou.Orchestrate.Diff.Keys.{
  Lacks, LastWith, Reasons, by_key-Lacks, by_key-of_Lacks, by_key-LastWith, by_key-of_LastWith,
  change_reasons-Reasons, change_reasons-of_Reasons,
}
use hukou.Prelude.{
  subst, sym, ap, ◌∙◌, Text, true, false, ◌≡◌, ◌≢◌, ◌↔◌, inl, inr, refl, List, [], ◌∷◌, Option,
  none, some, is_nil, Bool-cases,
}
use hukou.Orchestrate.Diff.{
  key_less, SnapItem, Change, Diff, by_key, change_reasons, change_of, item_less, change_less,
  keep_new, keep_changed, added_of, changed_of, removed_of, compute_diff,
}
use hukou.Prelude.{
  arith, Member, sort_slice, sort_slice-Member, sort_slice-Sorted, text_eq_iff, text_lt_asymm,
}

-- A change that the loop makes.
abbrev Changes : List SnapItem → List SnapItem → Change → Type 0
Changes before after c =
    (it : SnapItem) × (b : SnapItem) × Member it after
    × (by_key it before ≡ some b)
    × (change_reasons b it ≢ [])
    × (c ≡ change_of b it)

-- A change, as it is described: of an item of `after`, from the last item of `before` with its name and
-- path, with a reason, and with what the two say.
abbrev pub Describes : List SnapItem → List SnapItem → Change → Type 0
Describes before after c =
    (it : SnapItem) × (b : SnapItem) × Member it after
    × LastWith it before b
    × Reasons b it c.reasons
    × (c ≡ record {
      name = it.name;
      path = it.path;
      source = it.source;
      before_version = b.version;
      after_version = it.version;
      before_sha256 = b.sha256;
      after_sha256 = it.sha256;
      reasons = c.reasons;
    })

pub record Classifies (before after : List SnapItem) (d : Diff) : Type 0 where
  pub added_iff : (it : SnapItem) → Member it d.added ↔ (Member it after × Lacks it before)
  pub removed_iff : (it : SnapItem) → Member it d.removed ↔ (Member it before × Lacks it after)
  pub changed_iff : (c : Change) → Member c d.changed ↔ Describes before after c
  pub added_in_order : InOrder ItemBefore d.added
  pub removed_in_order : InOrder ItemBefore d.removed
  pub changed_in_order : InOrder ChangeBefore d.changed

-- What one item puts in front.
cons-Member :
    (P : SnapItem → Type 0) (x it : SnapItem) (l out : List SnapItem)
    → P x
    → (Member it out ↔ (Member it l × P it))
    → Member it (x ∷ out) ↔ (Member it (x ∷ l) × P it)
cons-Member P x it l out p h = (
  λ m. elim m [ inl e ↦ (inl e, rw e p) | inr k ↦ let (m', q) = h.0 k in (inr m', q) ],
  λ (m, q). elim m [ inl e ↦ inl e | inr k ↦ inr (h.1 (k, q)) ],
)

drop-Member :
    (P : SnapItem → Type 0) (x it : SnapItem) (l out : List SnapItem)
    → (P x → ⊥)
    → (Member it out ↔ (Member it l × P it))
    → Member it out ↔ (Member it (x ∷ l) × P it)
drop-Member P x it l out np h = (
  λ m. let (m', q) = h.0 m in (inr m', q),
  λ (m, q). elim m [ inl e ↦ absurd (np (subst P e q)) | inr k ↦ h.1 (k, q) ],
)

module _ (other : List SnapItem) where
  abbrev Missing : SnapItem → Type 0
  Missing x = by_key x other ≡ none

  keep_new-Member :
      (o : Option SnapItem) (x it : SnapItem) (l out : List SnapItem)
      → by_key x other ≡ o
      → (Member it out ↔ (Member it l × Missing it))
      → Member it (keep_new o x out) ↔ (Member it (x ∷ l) × Missing it)
  unfolding keep_new
  keep_new-Member none x it l out e h = cons-Member Missing x it l out e h
  keep_new-Member (some b) x it l out e h = drop-Member Missing x it l out (λ e'. cc) h

  added_of-Member :
      (it : SnapItem) (l : List SnapItem)
      → Member it (added_of other l) ↔ (Member it l × Missing it)
  unfolding added_of
  added_of-Member it [] = (λ f. absurd f, λ (f, _). f)
  added_of-Member it (x ∷ l) =
      keep_new-Member (by_key x other) x it l (added_of other l) refl (added_of-Member it l)

  removed_of-Member :
      (it : SnapItem) (l : List SnapItem)
      → Member it (removed_of other l) ↔ (Member it l × Missing it)
  unfolding removed_of
  removed_of-Member it [] = (λ f. absurd f, λ (f, _). f)
  removed_of-Member it (x ∷ l) =
      keep_new-Member (by_key x other) x it l (removed_of other l) refl (removed_of-Member it l)

  -- A change stays one behind another item.
  later :
      (c : Change) (x : SnapItem) (l : List SnapItem) → Changes other l c → Changes other (x ∷ l) c
  later c x l (it, b, m, e, ne, eq) = (it, b, inr m, e, ne, eq)

  keep_changed-Member :
      (o : Option SnapItem) (c : Change) (x : SnapItem) (l : List SnapItem) (out : List Change)
      → by_key x other ≡ o
      → (Member c out ↔ Changes other l c)
      → Member c (keep_changed o x out) ↔ Changes other (x ∷ l) c
  unfolding keep_changed
  keep_changed-Member none c x l out e h = (
    λ m. later c x l (h.0 m),
    λ (it, b, m, e', ne, eq). elim m [
      | inl same ↦ absurd (unseen it b same e')
      | inr m' ↦ h.1 (it, b, m', e', ne, eq)
    ],
  )
    where
      unseen : (it b : SnapItem) → it ≡ x → by_key it other ≡ some b → ⊥
      unseen it b same e' = cc
  keep_changed-Member (some b) c x l out e h = elim (Bool-cases (is_nil (change_reasons b x))) [
    | inl nothing ↦ rw nothing (
      λ m. later c x l (h.0 m),
      λ (it, b', m, e', ne, eq). elim m [
        | inl same ↦ absurd (ne (no_reasons it b' same e' nothing))
        | inr m' ↦ h.1 (it, b', m', e', ne, eq)
      ],
    )
    | inr something ↦ rw something (
      λ m. elim m [
        | inl eq ↦ (x, b, inl refl, e, reasons something, eq)
        | inr m' ↦ later c x l (h.0 m')
      ],
      λ (it, b', m, e', ne, eq). elim m [
        | inl same ↦ inl (eq ∙ first it b' same e')
        | inr m' ↦ inr (h.1 (it, b', m', e', ne, eq))
      ],
    )
  ]
    where
      nil_of : (l : List Text) → is_nil l ≡ true → l ≡ []
      nil_of [] n = refl
      nil_of (r ∷ rs) n = cc

      pair : (it b' : SnapItem) → it ≡ x → by_key it other ≡ some b' → b' ≡ b
      pair it b' same e' = cc

      no_reasons :
          (it b' : SnapItem)
          → it ≡ x
          → by_key it other ≡ some b'
          → is_nil (change_reasons b x) ≡ true
          → change_reasons b' it ≡ []
      no_reasons it b' same e' n = rw (pair it b' same e', same) (nil_of (change_reasons b x) n)

      reasons : is_nil (change_reasons b x) ≡ false → change_reasons b x ≢ []
      reasons n r = cc

      first :
          (it b' : SnapItem) → it ≡ x → by_key it other ≡ some b' → change_of b' it ≡ change_of b x
      first it b' same e' = rw (pair it b' same e', same) refl

  changed_of-Member :
      (c : Change) (l : List SnapItem) → Member c (changed_of other l) ↔ Changes other l c
  unfolding changed_of
  changed_of-Member c [] = (λ f. absurd f, λ (it, b, f, e, ne, eq). f)
  changed_of-Member c (x ∷ l) =
      keep_changed-Member (by_key x other) c x l (changed_of other l) refl (changed_of-Member c l)

key_less_asymm :
    (s n p s' n' p' : Text) → key_less s n p s' n' p' ≡ true → key_less s' n' p' s n p ≡ false
unfolding key_less
key_less_asymm s n p s' n' p' e = ground (
  arith,
  text_eq_iff s s',
  text_eq_iff s' s,
  text_eq_iff n n',
  text_eq_iff n' n,
  text_lt_asymm s s',
  text_lt_asymm n n',
  text_lt_asymm p p',
)

through : {P Q R : Type 0} → P ↔ Q → Q ↔ R → P ↔ R
through h k = (λ p. k.0 (h.0 p), λ r. h.1 (k.1 r))

lacking :
    (it : SnapItem) (l other : List SnapItem)
    → (Member it l × (by_key it other ≡ none)) ↔ (Member it l × Lacks it other)
lacking it l other =
    (λ (m, e). (m, by_key-Lacks it other e), λ (m, a). (m, by_key-of_Lacks it other a))

described :
    (before after : List SnapItem) (c : Change) → Changes before after c ↔ Describes before after c
described before after c = (
  λ (it, b, m, e, ne, eq).
      let rs : c.reasons ≡ change_reasons b it = ap (λ c. c.reasons) eq in
      (
        it,
        b,
        m,
        by_key-LastWith it before b e,
        subst (Reasons b it) (sym rs) (change_reasons-Reasons b it ne),
        eq ∙ ap (made it b) (sym rs),
      ),
  λ (it, b, m, w, r, eq).
      let (ne, rs) = change_reasons-of_Reasons b it c.reasons r in
      (it, b, m, by_key-of_LastWith it before b w, ne, eq ∙ ap (made it b) rs),
)
  where
    made : SnapItem → SnapItem → List Text → Change
    made it b rs = record {
      name = it.name;
      path = it.path;
      source = it.source;
      before_version = b.version;
      after_version = it.version;
      before_sha256 = b.sha256;
      after_sha256 = it.sha256;
      reasons = rs;
    }

-- The diff of two inventories, as it is described. An item is added where it is in the second inventory and
-- no item of the first has its name and path, and removed where it is in the first and no item of the
-- second has them. A change is made of an item of the second and the last one of the first with its
-- name and path, with the versions and digests of both, where the versions differ or the digests, both
-- known, do, and says which of these it is. Each class is sorted by source, name and path.
pub compute_diff-Classifies :
    (before after : List SnapItem) → Classifies before after (compute_diff before after)
unfolding compute_diff
compute_diff-Classifies before after = record {
  added_iff = λ it.
      through (sort_slice-Member item_less it (added_of before after))
        (through (added_of-Member before it after) (lacking it after before));
  removed_iff = λ it.
      through (sort_slice-Member item_less it (removed_of after before))
        (through (removed_of-Member after it before) (lacking it before after));
  changed_iff = λ c.
      through (sort_slice-Member change_less c (changed_of before after))
        (through (changed_of-Member before c after) (described before after c));
  added_in_order = item_order (added_of before after);
  removed_in_order = item_order (removed_of after before);
  changed_in_order =
      Sorted-InOrder ChangeBefore change_less
        (λ a b. key_less-Before a.source a.name a.path b.source b.name b.path)
        (sort_slice change_less (changed_of before after))
        (sort_slice-Sorted change_less
          (λ a b. key_less_asymm a.source a.name a.path b.source b.name b.path)
          (changed_of before after));
}
  where
    item_order : (l : List SnapItem) → InOrder ItemBefore (sort_slice item_less l)
    item_order l =
        Sorted-InOrder ItemBefore item_less
          (λ a b. key_less-Before a.source a.name a.path b.source b.name b.path)
          (sort_slice item_less l)
          (sort_slice-Sorted item_less
            (λ a b. key_less_asymm a.source a.name a.path b.source b.name b.path) l)
