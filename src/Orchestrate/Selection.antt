-- ===== src/Orchestrate/Selection.antt =====
-- `Filter` and `Detect`: which managers take part.
use hukou.Prelude.{
  ap, subst, Result-cases, Text, true, false, ◌≡◌, ◌≢◌, ◌↔◌, ◌⊎◌, inl, inr, refl, List, [], ◌∷◌,
  ◌++◌, map, All, Any, arith, text_eq, text_eq_iff, is_nil, Bool-cases, ok,
}
use hukou.Orchestrate.{Manager, has_name, check_names, is_permitted, permitted, filter}

-- A name occurs in a list.
abbrev pub Occurs : Text → List Text → Type 0
Occurs name = Any (λ n. name ≡ n)

has_name_iff : (name : Text) (ns : List Text) → (has_name name ns ≡ true) ↔ Occurs name ns
unfolding has_name
has_name_iff name [] = (λ e. cc, λ f. absurd f)
has_name_iff name (n ∷ ns) = (
  λ e. elim (Bool-cases (text_eq name n)) [
    | inl h ↦ inl ((text_eq_iff name n).0 h)
    | inr h ↦ inr ((has_name_iff name ns).0 (ground arith))
  ],
  λ x. elim x [
    | inl h ↦ ground (arith, text_eq_iff name n)
    | inr h ↦ let e = (has_name_iff name ns).1 h in ground arith
  ],
)

check_names_iff :
    (known ns : List Text) → (check_names known ns ≡ ok tt) ↔ All (λ n. Occurs n known) ns
unfolding check_names
check_names_iff known [] = (λ e. tt, λ h. refl)
check_names_iff known (n ∷ ns) = (
  λ e. ((has_name_iff n known).0 (ground arith), (check_names_iff known ns).0 (ground arith)),
  λ (h, hs). rw ((has_name_iff n known).1 h) ((check_names_iff known ns).1 hs),
)

-- The managers that take part, in the order of the table: those named by `only`, or all where it is
-- empty, without those named by `skip`.
pub data Picks (only skip : List Text) : List Manager → List Manager → Type 0 where
  stop : Picks only skip [] []
  takes :
      {m : Manager}
      → {ms out : List Manager} → (only ≡ []) ⊎ Occurs m.name only
      → (Occurs m.name skip → ⊥)
      → Picks only skip ms out
      → Picks only skip (m ∷ ms) (m ∷ out)
  skips :
      {m : Manager}
      → {ms out : List Manager} → ((only ≢ []) × (Occurs m.name only → ⊥)) ⊎ Occurs m.name skip
      → Picks only skip ms out
      → Picks only skip (m ∷ ms) out

has_name_no : (name : Text) (ns : List Text) → has_name name ns ≡ false → Occurs name ns → ⊥
has_name_no name ns e o = let h = (has_name_iff name ns).1 o in cc

no_has_name : (name : Text) (ns : List Text) → (Occurs name ns → ⊥) → has_name name ns ≡ false
no_has_name name ns f = elim (Bool-cases (has_name name ns)) [
  | inl h ↦ absurd (f ((has_name_iff name ns).0 h))
  | inr h ↦ h
]

nil_or : (only : List Text) → is_nil only ≡ true → only ≡ []
nil_or [] e = refl
nil_or (n ∷ ns) e = cc

module _ (only skip : List Text) where
  takes-if :
      (m : Manager) (ms out : List Manager)
      → is_permitted only skip m ≡ true
      → Picks only skip ms out
      → Picks only skip (m ∷ ms) (m ∷ out)
  unfolding is_permitted
  takes-if m ms out e p =
      takes
        (elim (Bool-cases (is_nil only)) [
          | inl none_given ↦ inl (nil_or only none_given)
          | inr given ↦ inr ((has_name_iff m.name only).0 (ground arith))
        ])
        (has_name_no m.name skip (ground arith)) p

  skips-if :
      (m : Manager) (ms out : List Manager)
      → is_permitted only skip m ≡ false
      → Picks only skip ms out
      → Picks only skip (m ∷ ms) out
  unfolding is_permitted
  skips-if m ms out e p =
      skips
        (elim (Bool-cases (has_name m.name skip)) [
          | inl named ↦ inr ((has_name_iff m.name skip).0 named)
          | inr unnamed ↦ inl (λ empty. given empty unnamed, has_name_no m.name only (ground arith))
        ])
        p
    where
      given : only ≡ [] → has_name m.name skip ≡ false → ⊥
      given empty unnamed = let h : is_nil only ≡ true = rw empty refl in ground arith

  permitted-Picks : (ms : List Manager) → Picks only skip ms (permitted only skip ms)
  unfolding permitted
  permitted-Picks [] = stop
  permitted-Picks (m ∷ ms) = elim (Bool-cases (is_permitted only skip m)) [
    | inl e ↦ rw e (takes-if m ms (permitted only skip ms) e (permitted-Picks ms))
    | inr e ↦ rw e (skips-if m ms (permitted only skip ms) e (permitted-Picks ms))
  ]

  taken :
      (m : Manager)
      → (only ≡ []) ⊎ Occurs m.name only
      → (Occurs m.name skip → ⊥)
      → is_permitted only skip m ≡ true
  unfolding is_permitted
  taken m (inl empty) h = rw (empty, no_has_name m.name skip h) refl
  taken m (inr o) h = rw ((has_name_iff m.name only).1 o, no_has_name m.name skip h) (ground arith)

  skipped :
      (m : Manager)
      → ((only ≢ []) × (Occurs m.name only → ⊥)) ⊎ Occurs m.name skip
      → is_permitted only skip m ≡ false
  unfolding is_permitted
  skipped m (inl (ne, h)) = elim (Bool-cases (is_nil only)) [
    | inl empty ↦ absurd (ne (nil_or only empty))
    | inr given ↦ rw (given, no_has_name m.name only h) refl
  ]
  skipped m (inr o) = rw ((has_name_iff m.name skip).1 o) (ground arith)

  Picks-permitted : (ms out : List Manager) → Picks only skip ms out → permitted only skip ms ≡ out
  unfolding permitted
  Picks-permitted _ _ stop = refl
  Picks-permitted _ _ (takes {m} {ms} {out} o h p) =
      rw (taken m o h) (ap (◌∷◌ m) (Picks-permitted ms out p))
  Picks-permitted _ _ (skips {m} {ms} {out} h p) = rw (skipped m h) (Picks-permitted ms out p)

-- `Filter` succeeds exactly where every name given is a manager of the table, and gives the managers
-- named by `only`, or all where no name is given, less those named by `skip`, in the table's order.
pub filter_iff :
    (managers : List Manager) (only skip : List Text) (out : List Manager)
    → (filter managers only skip ≡ ok out) ↔ (
        All (λ n. Occurs n (map (λ m. m.name) managers)) (only ++ skip)
        × Picks only skip managers out)
unfolding filter
filter_iff managers only skip out = (
  λ e. elim (Result-cases (check_names (map (λ m. m.name) managers) (only ++ skip))) [
    | inl (t, e1) ↦
        let same : permitted only skip managers ≡ out = ground (arith, e1) in
        (
          (check_names_iff (map (λ m. m.name) managers) (only ++ skip)).0 e1,
          subst (λ o. Picks only skip managers o) same (permitted-Picks only skip managers),
        )
    | inr (x, e1) ↦ absurd (ground (arith, e1))
  ],
  λ (h, p).
      rw ((check_names_iff (map (λ m. m.name) managers) (only ++ skip)).1 h)
        (ap ok (Picks-permitted only skip managers out p)),
)
