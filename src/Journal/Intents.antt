-- ===== src/Journal/Intents.antt =====
-- What `validateIntent` and `validateState` of internal/transaction/journal.go accept.
use hukou.Prelude.{
  member, all_hex, ◌≤◌, ◌<◌, Text, true, false, ◌≡◌, ◌≢◌, ◌↔◌, refl, List, [], ◌∷◌, map, arith,
  length, All, text_eq_iff, ok,
}
use hukou.Journal.{
  Kind, absent, regular, symlink, unknown, State, Mutation, Intent, journal_schema_version,
  max_mutations, is_base_name, validate_kind, validate_state, has_separator, is_clean_abs,
  validate_mutations, validate_intent,
}

-- A well-formed description of a resource.
abbrev pub IsValidKind : Kind → State → Type 0
IsValidKind absent s = (s.sha256 ≡ []) × (s.mode ≡ 0) × (s.link_target ≡ []) × (s.payload ≡ [])
IsValidKind regular s =
    (length s.sha256 ≡ 64)
    × (all_hex s.sha256 ≡ true)
    × (is_base_name s.payload ≡ true)
    × (s.mode < 512)
    × (s.link_target ≡ [])
IsValidKind symlink s =
    (s.link_target ≢ [])
    × (length s.sha256 ≡ 64)
    × (all_hex s.sha256 ≡ true)
    × (s.payload ≡ [])
    × (s.mode ≡ 0)
IsValidKind (unknown k) s = ⊥

abbrev pub IsValidState : State → Type 0
IsValidState s = IsValidKind s.kind s

validate_kind_iff : (k : Kind) (s : State) → (validate_kind k s ≡ ok tt) ↔ IsValidKind k s
unfolding validate_kind is_base_name
validate_kind_iff absent s = (λ h. ground arith, λ h. ground arith)
validate_kind_iff regular s = (λ h. ground arith, λ h. ground arith)
validate_kind_iff symlink s = (λ h. ground arith, λ h. ground arith)
validate_kind_iff (unknown k) s = (λ h. cc, λ h. absurd h)

validate_state_iff : (s : State) → (validate_state s ≡ ok tt) ↔ IsValidState s
unfolding validate_state
validate_state_iff s = validate_kind_iff s.kind s

pub record IsValidMutation (m : Mutation) : Type 0 where
  pub role_named : m.role ≢ []
  pub role_flat : has_separator m.role ≡ false
  pub path_clean : is_clean_abs m.path ≡ true
  pub before_valid : IsValidState m.before
  pub after_valid : IsValidState m.after

abbrev pub Distinct : List Text → Type 0
Distinct [] = Unit
Distinct (a ∷ l) = All (λ b. b ≢ a) l × Distinct l

abbrev pub roles : List Mutation → List Text
roles = map (λ m. m.role)

abbrev pub paths : List Mutation → List Text
paths = map (λ m. m.path)

-- The head of the loop's body.
record Passes (rs ps : List Text) (m : Mutation) : Type 0 where
  valid : IsValidMutation m
  new_role : member m.role rs ≡ false
  new_path : member m.path ps ≡ false

All-uncons :
    (a : Text) (seen : List Text) (l : List Text)
    → All (λ b. member b (a ∷ seen) ≡ false) l
    → All (λ b. b ≢ a) l × All (λ b. member b seen ≡ false) l
unfolding member
All-uncons a seen [] h = (tt, tt)
All-uncons a seen (b ∷ l) (h, hs) =
    let (x, y) = All-uncons a seen l hs in ((ground (arith, text_eq_iff b a), x), (ground arith, y))

All-recons :
    (a : Text) (seen : List Text) (l : List Text)
    → All (λ b. b ≢ a) l
    → All (λ b. member b seen ≡ false) l
    → All (λ b. member b (a ∷ seen) ≡ false) l
unfolding member
All-recons a seen [] h k = tt
All-recons a seen (b ∷ l) (h, hs) (k, ks) =
    (ground (arith, text_eq_iff b a), All-recons a seen l hs ks)

validate_mutations-head :
    (rs ps : List Text) (m : Mutation) (ms : List Mutation)
    → (validate_mutations rs ps (m ∷ ms) ≡ ok tt)
      ↔ (Passes rs ps m × (validate_mutations (m.role ∷ rs) (m.path ∷ ps) ms ≡ ok tt))
unfolding validate_mutations
validate_mutations-head rs ps m ms = (
  λ h. ground (arith, validate_state_iff m.before, validate_state_iff m.after),
  λ (p, h). ground (arith, validate_state_iff m.before, validate_state_iff m.after),
)

-- What the loop accepts behind roles `rs` and paths `ps`.
abbrev Accepts : List Text → List Text → List Mutation → Type 0
Accepts rs ps ms =
    All IsValidMutation ms
    × All (λ r. member r rs ≡ false) (roles ms)
    × All (λ p. member p ps ≡ false) (paths ms)
    × Distinct (roles ms)
    × Distinct (paths ms)

validate_mutations-Accepts :
    (rs ps : List Text) (ms : List Mutation)
    → validate_mutations rs ps ms ≡ ok tt
    → Accepts rs ps ms
validate_mutations-Accepts rs ps [] h = (tt, tt, tt, tt, tt)
validate_mutations-Accepts rs ps (m ∷ ms) h =
    let (p, h') = (validate_mutations-head rs ps m ms).0 h in
    let (v, r, q, dr, dp) = validate_mutations-Accepts (m.role ∷ rs) (m.path ∷ ps) ms h' in
    let (r', r'') = All-uncons m.role rs (roles ms) r in
    let (q', q'') = All-uncons m.path ps (paths ms) q in
    ((p.valid, v), (p.new_role, r''), (p.new_path, q''), (r', dr), (q', dp))

Accepts-validate_mutations :
    (rs ps : List Text) (ms : List Mutation)
    → Accepts rs ps ms
    → validate_mutations rs ps ms ≡ ok tt
Accepts-validate_mutations rs ps [] h = unfold validate_mutations in refl
Accepts-validate_mutations rs ps (m ∷ ms) ((v, vs), (r, r''), (q, q''), (r', dr), (q', dp)) =
    (validate_mutations-head rs ps m ms).1 (
      record { valid = v; new_role = r; new_path = q },
      Accepts-validate_mutations (m.role ∷ rs) (m.path ∷ ps) ms (
        vs,
        All-recons m.role rs (roles ms) r' r'',
        All-recons m.path ps (paths ms) q' q'',
        dr,
        dp,
      ),
    )

pub record IsValidIntent (t : Intent) : Type 0 where
  pub schema_known : t.schema_version ≡ journal_schema_version
  pub id_sized : length t.id ≡ 32
  pub id_hex : all_hex t.id ≡ true
  pub operation_named : t.operation ≢ []
  pub name_named : t.name ≢ []
  pub some_mutation : t.mutations ≢ []
  pub few_mutations : length t.mutations ≤ max_mutations
  pub mutations_valid : All IsValidMutation t.mutations
  pub roles_distinct : Distinct (roles t.mutations)
  pub paths_distinct : Distinct (paths t.mutations)

nothing_seen : (l : List Text) → All (λ b. member b [] ≡ false) l
unfolding member
nothing_seen [] = tt
nothing_seen (b ∷ l) = (refl, nothing_seen l)

-- An intent is accepted exactly where it is well formed: the schema and the id have their form, there
-- are one to sixteen mutations, every role, path and state is valid, and no role or path repeats.
pub validate_intent_iff : (t : Intent) → (validate_intent t ≡ ok tt) ↔ IsValidIntent t
unfolding validate_intent
validate_intent_iff t = (
  λ h.
      let mutations_ok : validate_mutations [] [] t.mutations ≡ ok tt = ground arith in
      let (v, _, _, dr, dp) = validate_mutations-Accepts [] [] t.mutations mutations_ok in
      record {
        schema_known = ground arith;
        id_sized = ground arith;
        id_hex = ground arith;
        operation_named = ground arith;
        name_named = ground arith;
        some_mutation = ground arith;
        few_mutations = ground arith;
        mutations_valid = v;
        roles_distinct = dr;
        paths_distinct = dp;
      },
  λ v. ground (
    arith,
    Accepts-validate_mutations [] [] t.mutations (
      v.mutations_valid,
      nothing_seen (roles t.mutations),
      nothing_seen (paths t.mutations),
      v.roles_distinct,
      v.paths_distinct,
    ),
  ),
)
