-- ===== src/Orchestrate/Diff/Keys.antt =====
-- The maps by key and the reasons of `ComputeDiff`, described without them.
use hukou.Prelude.{
  Text, codes, true, false, ◌≡◌, ◌≢◌, ◌↔◌, inl, inr, refl, ap, ◌∙◌, List, [], ◌∷◌, ◌++◌, Option,
  none, some, arith, All, subst, is_nil, not, ◌&&◌, text_eq, Option-cases, Bool-cases, text_eq_iff,
}
use hukou.Orchestrate.Diff.{SnapItem, same_key, by_key, change_reasons}

-- Two items have the same name and the same path.
abbrev pub SameKey : SnapItem → SnapItem → Type 0
SameKey a b = (a.name ≡ b.name) × (a.path ≡ b.path)

-- No item of the list has the name and the path of `k`.
abbrev pub Lacks : SnapItem → List SnapItem → Type 0
Lacks k l = All (λ x. SameKey k x → ⊥) l

-- The last item of the list with the name and the path of `k`.
pub record LastWith (k : SnapItem) (l : List SnapItem) (b : SnapItem) : Type 0 where
  pub before : List SnapItem
  pub after : List SnapItem
  pub split : l ≡ before ++ (b ∷ after)
  pub same : SameKey k b
  pub last : Lacks k after

-- Both digests are known, and differ.
abbrev pub OtherContent : SnapItem → SnapItem → Type 0
OtherContent b it = (b.sha256 ≢ []) × (it.sha256 ≢ []) × (b.sha256 ≢ it.sha256)

-- The reasons of a change from `b` to `it`: there is one at least.
pub data Reasons (b it : SnapItem) (rs : List Text) : Type 0 where
  only_version :
      b.version ≢ it.version → (OtherContent b it → ⊥) → rs ≡ codes "version" ∷ [] → Reasons b it rs
  only_content :
      b.version ≡ it.version → OtherContent b it → rs ≡ codes "sha256" ∷ [] → Reasons b it rs
  both :
      b.version ≢ it.version
      → OtherContent b it
      → rs ≡ codes "version" ∷ (codes "sha256" ∷ [])
      → Reasons b it rs

same_key-SameKey : (a b : SnapItem) → (same_key a b ≡ true) ↔ SameKey a b
unfolding same_key
same_key-SameKey a b = ground (arith, text_eq_iff a.name b.name, text_eq_iff a.path b.path)

other_key : (a b : SnapItem) → same_key a b ≡ false → SameKey a b → ⊥
other_key a b e s = let t = (same_key-SameKey a b).1 s in cc

pub by_key-Lacks : (k : SnapItem) (l : List SnapItem) → by_key k l ≡ none → Lacks k l
unfolding by_key
by_key-Lacks k [] e = tt
by_key-Lacks k (it ∷ l) e = elim (Option-cases (by_key k l)) [
  | inr (x, h) ↦ absurd (clash x h (rw h at e))
  | inl h ↦ elim (Bool-cases (same_key k it)) [
    | inl same ↦ absurd (hit same (rw (h, same) at e))
    | inr other ↦ (other_key k it other, by_key-Lacks k l h)
  ]
]
  where
    clash : (x : SnapItem) → by_key k l ≡ some x → Path (Option SnapItem) (some x) none → ⊥
    clash x h e = cc

    hit : same_key k it ≡ true → Path (Option SnapItem) (some it) none → ⊥
    hit h e = cc

pub by_key-LastWith :
    (k : SnapItem) (l : List SnapItem) (b : SnapItem) → by_key k l ≡ some b → LastWith k l b
unfolding by_key
by_key-LastWith k [] b e = cc
by_key-LastWith k (it ∷ l) b e = elim (Option-cases (by_key k l)) [
  | inr (x, h) ↦ further (by_key-LastWith k l b (h ∙ (rw h at e)))
  | inl h ↦ elim (Bool-cases (same_key k it)) [
    | inl same ↦ here h same (rw (h, same) at e)
    | inr other ↦ absurd (no (rw (h, other) at e))
  ]
]
  where
    further : LastWith k l b → LastWith k (it ∷ l) b
    further w = record {
      before = it ∷ w.before;
      after = w.after;
      split = ap (λ l. it ∷ l) w.split;
      same = w.same;
      last = w.last;
    }

    here :
        by_key k l ≡ none
        → same_key k it ≡ true
        → Path (Option SnapItem) (some it) (some b)
        → LastWith k (it ∷ l) b
    here h same e =
        let eq : it ≡ b = cc in
        record {
          before = [];
          after = l;
          split = ap (λ x. x ∷ l) eq;
          same = subst (SameKey k) eq ((same_key-SameKey k it).0 same);
          last = by_key-Lacks k l h;
        }

    no : Path (Option SnapItem) none (some b) → ⊥
    no e = cc

pub by_key-of_Lacks : (k : SnapItem) (l : List SnapItem) → Lacks k l → by_key k l ≡ none
unfolding by_key
by_key-of_Lacks k [] a = refl
by_key-of_Lacks k (it ∷ l) (a, as') =
    let e = by_key-of_Lacks k l as' in
    let f : same_key k it ≡ false = elim (Bool-cases (same_key k it)) [
      | inl t ↦ absurd (a ((same_key-SameKey k it).0 t))
      | inr f ↦ f
    ] in
    rw (e, f) refl

last_found :
    (k : SnapItem) (xs : List SnapItem) (b : SnapItem) (ys : List SnapItem)
    → SameKey k b
    → Lacks k ys
    → by_key k (xs ++ (b ∷ ys)) ≡ some b
unfolding by_key
last_found k [] b ys s a = rw (by_key-of_Lacks k ys a, (same_key-SameKey k b).1 s) refl
last_found k (x ∷ xs) b ys s a = rw (last_found k xs b ys s a) refl

pub by_key-of_LastWith :
    (k : SnapItem) (l : List SnapItem) (b : SnapItem) → LastWith k l b → by_key k l ≡ some b
by_key-of_LastWith k l b w =
    ap (λ l. by_key k l) w.split ∙ last_found k w.before b w.after w.same w.last

nil_iff : (t : Text) → (is_nil t ≡ true) ↔ (t ≡ [])
nil_iff [] = (λ h. refl, λ h. refl)
nil_iff (c ∷ t) = (λ h. cc, λ h. cc)

content-OtherContent :
    (b it : SnapItem)
    → (not (is_nil b.sha256) && not (is_nil it.sha256) && not (text_eq b.sha256 it.sha256) ≡ true)
      ↔ OtherContent b it
content-OtherContent b it =
    ground (arith, nil_iff b.sha256, nil_iff it.sha256, text_eq_iff b.sha256 it.sha256)

pub change_reasons-Reasons :
    (b it : SnapItem) → change_reasons b it ≢ [] → Reasons b it (change_reasons b it)
unfolding change_reasons
change_reasons-Reasons b it ne = elim (Bool-cases (text_eq b.version it.version)) [
  | inl v ↦
      elim (Bool-cases
        (not (is_nil b.sha256) && not (is_nil it.sha256) && not (text_eq b.sha256 it.sha256))) [
          | inl c ↦
              only_content ((text_eq_iff b.version it.version).0 v)
                ((content-OtherContent b it).0 c) (rw (v, c) refl)
          | inr c ↦ absurd (ne (rw (v, c) refl))
        ]
  | inr v ↦
      elim (Bool-cases
        (not (is_nil b.sha256) && not (is_nil it.sha256) && not (text_eq b.sha256 it.sha256))) [
          | inl c ↦ both (differ v) ((content-OtherContent b it).0 c) (rw (v, c) refl)
          | inr c ↦ only_version (differ v) (alike c) (rw (v, c) refl)
        ]
]
  where
    differ : text_eq b.version it.version ≡ false → b.version ≢ it.version
    differ v e = let t = (text_eq_iff b.version it.version).1 e in cc

    alike :
        (not (is_nil b.sha256) && not (is_nil it.sha256) && not (text_eq b.sha256 it.sha256)
          ≡ false)
        → OtherContent b it
        → ⊥
    alike c o = let t = (content-OtherContent b it).1 o in cc

pub change_reasons-of_Reasons :
    (b it : SnapItem) (rs : List Text)
    → Reasons b it rs
    → (change_reasons b it ≢ []) × (rs ≡ change_reasons b it)
unfolding change_reasons
change_reasons-of_Reasons b it rs (only_version v c e) =
    ground (arith, text_eq_iff b.version it.version, content-OtherContent b it)
change_reasons-of_Reasons b it rs (only_content v c e) =
    ground (arith, text_eq_iff b.version it.version, content-OtherContent b it)
change_reasons-of_Reasons b it rs (both v c e) =
    ground (arith, text_eq_iff b.version it.version, content-OtherContent b it)
