-- ===== src/Store/Plans.antt =====
-- What `PlanPrune` plans, and what `PruneHistory` keeps.
use hukou.Prelude.{
  ◌≡◌, ◌≢◌, ◌↔◌, inl, inr, refl, sym, ◌∙◌, ap, subst, Text, true, false, ◌||◌, List, [], ◌∷◌, All,
  Member, is_nil, text_eq, text_eq_iff, member, sort_slice, sort_slice-Member, Bool-cases, Result,
  Result-cases, ok, err, bind-ok, refuse_if, ◌>>=◌,
}
use hukou.Store.{
  Tool, Env, StoreError, VersionRef, original_tag, inspect_version, installed_versions,
  validate_activation_tag,
}
use hukou.Store.Prune.{
  PruneRequest, PrunePlan, lowered, tags_of, find_ref, keep_protected, add_protected, add_all,
  protected_refs, verify_refs, unprotected, tag_less, check_request, plan_prune, Removal,
  apply_prune_plan, apply_planned, prune_history,
}
use hukou.Store.Stays.{MustStay, protected_refs-MustStay, MustStay-map}
use hukou.Store.Bindings.{keep-Member, verify-All}
use hukou.Store.Removals.{Member-tags_of, apply_prune_plan-others}

unprotected-Member :
    (kept : List Text) (refs : List VersionRef) (x : VersionRef)
    → Member x (unprotected kept refs) ↔ (Member x refs × (member x.tag kept ≡ false))
unfolding unprotected
unprotected-Member kept [] x = (λ m. absurd m, λ (m, h). absurd m)
unprotected-Member kept (ref ∷ refs) x =
    let (to, from) = unprotected-Member kept refs x in
    elim (Bool-cases (member ref.tag kept)) [
      | inl isin ↦ rw isin (
        λ m. let (a, b) = to m in (inr a, b),
        λ (m, h). elim m [ inl e ↦ absurd (clash e h isin) | inr k ↦ from (k, h) ],
      )
      | inr out ↦ rw out (
        λ m. elim m [
          | inl e ↦ (inl e, ap (λ r. member r.tag kept) e ∙ out)
          | inr k ↦ let (a, b) = to k in (inr a, b)
        ],
        λ (m, h). elim m [ inl e ↦ inl e | inr k ↦ inr (from (k, h)) ],
      )
    ]
  where
    clash : x ≡ ref → member x.tag kept ≡ false → member ref.tag kept ≡ true → ⊥
    clash e h isin =
        let h' : member ref.tag kept ≡ false = ap (λ r. member r.tag kept) (sym e) ∙ h in cc

-- No reference of the list has the tag.
tags_of-member :
    (tag : Text) (refs : List VersionRef)
    → ((p : VersionRef) → Member p refs → p.tag ≢ tag)
    → member tag (tags_of refs) ≡ false
unfolding member
tags_of-member tag [] f = refl
tags_of-member tag (ref ∷ refs) f = elim (Bool-cases (text_eq tag ref.tag)) [
  | inl same ↦ absurd (f ref (inl refl) (sym ((text_eq_iff tag ref.tag).0 same)))
  | inr other ↦ rw other (tags_of-member tag refs (λ p m. f p (inr m)))
]

module _ (env : Env) where
  add-parts :
      (protected : List VersionRef) (ref : VersionRef) (bs : List VersionRef)
      → add_protected env protected ref ≡ ok bs
      → keep_protected protected (lowered ref) (find_ref ref.tag protected) ≡ ok bs
  unfolding add_protected
  add-parts protected ref bs h =
      go (refuse_if (is_nil ref.tag || is_nil ref.sha256) StoreError.unbound_ref)
        (validate_activation_tag env ref.tag) h
    where
      go :
          (a b : Result StoreError Unit)
          → (a >>= λ _.
              b >>= λ _. keep_protected protected (lowered ref) (find_ref ref.tag protected))
            ≡ ok bs
          → keep_protected protected (lowered ref) (find_ref ref.tag protected) ≡ ok bs
      go (err e) b k = cc
      go (ok t) (err e) k = cc
      go (ok t) (ok u) k = k

  add_all-parts :
      (protected refs bs : List VersionRef) (ref : VersionRef)
      → add_all env protected (ref ∷ refs) ≡ ok bs
      → (p : List VersionRef) × (add_protected env protected ref ≡ ok p)
        × (add_all env p refs ≡ ok bs)
  unfolding add_all
  add_all-parts protected refs bs ref h = go (add_protected env protected ref) refl h
    where
      go :
          (r : Result StoreError (List VersionRef))
          → add_protected env protected ref ≡ r
          → (r >>= λ p. add_all env p refs) ≡ ok bs
          → (p : List VersionRef) × (add_protected env protected ref ≡ ok p)
            × (add_all env p refs ≡ ok bs)
      go (err e) eq k = cc
      go (ok p) eq k = (p, eq, k)

  add_all-Member :
      (refs protected bs : List VersionRef)
      → add_all env protected refs ≡ ok bs
      → All (λ ref. Member (lowered ref) bs) refs
        × ((x : VersionRef) → Member x protected → Member x bs)
  add_all-Member [] protected bs h = (tt, λ x m. subst (Member x) (whole h) m)
    where
      whole : add_all env protected [] ≡ ok bs → protected ≡ bs
      whole h = unfold add_all in cc
  add_all-Member (ref ∷ refs) protected bs h =
      let (p, eq, k) = add_all-parts protected refs bs ref h in
      let (all, kept) = add_all-Member refs p bs k in
      let (isin, before) = keep-Member protected (lowered ref) p (add-parts protected ref p eq) in
      ((kept (lowered ref) isin, all), λ x m. kept x (before x m))

  -- A plan, against what the directory holds and what was asked for.
  pub record Plans (tool : Tool) (request : PruneRequest) (plan : PrunePlan) : Type 0 where
    pub installed : List VersionRef
    pub original : VersionRef
    pub read_installed : installed_versions env tool request.name ≡ ok installed
    pub read_original : inspect_version env tool request.name original_tag ≡ ok original
    pub same_name : plan.name ≡ request.name
    pub kept : MustStay (λ ref. Member (lowered ref) plan.protected) request original installed
    pub readable :
        (x : VersionRef)
        → Member x plan.protected
        → inspect_version env tool request.name x.tag ≡ ok x
    pub deleted :
        (x : VersionRef)
        → Member x plan.delete
          ↔ (Member x installed × ((p : VersionRef) → Member p plan.protected → p.tag ≢ x.tag))

  -- The parts of a plan that was made.
  plan-parts :
      (tool : Tool) (request : PruneRequest) (plan : PrunePlan)
      → plan_prune env tool request ≡ ok plan
      → (installed bs : List VersionRef) × (original : VersionRef) × (installed_versions env tool
            request.name
          ≡ ok installed)
        × (inspect_version env tool request.name original_tag ≡ ok original)
        × (add_all env [] (protected_refs request original installed) ≡ ok bs)
        × (verify_refs env tool request.name bs ≡ ok tt)
        × (plan ≡ record {
          name = request.name;
          current = lowered request.current;
          protected = sort_slice tag_less bs;
          delete = sort_slice tag_less (unprotected (tags_of bs) installed);
        })
  unfolding plan_prune
  plan-parts tool request plan h =
      let (t, _, h1) = bind-ok (check_request env request) _ plan h in
      let (installed, e1, h2) = bind-ok (installed_versions env tool request.name) _ plan h1 in
      let (original, e2, h3) =
        bind-ok (inspect_version env tool request.name original_tag) _ plan h2 in
      let (bs, e3, h4) =
        bind-ok (add_all env [] (protected_refs request original installed)) _ plan h3 in
      let (u, e4, h5) = bind-ok (verify_refs env tool request.name bs) _ plan h4 in
      (
        installed,
        bs,
        original,
        e1,
        e2,
        e3,
        e4,
        made
            (record {
              name = request.name;
              current = lowered request.current;
              protected = sort_slice tag_less bs;
              delete = sort_slice tag_less (unprotected (tags_of bs) installed);
            })
            h5,
      )
    where
      made : (q : PrunePlan) → Path (Result StoreError PrunePlan) (ok q) (ok plan) → plan ≡ q
      made q e = cc

  -- A plan that is made protects the version in use, the original backup, the nearest ancestors, as many as are
  -- to be retained, and, where a version with the pinned tag is installed, one with this tag; each of these
  -- can be read, with the digest that was asked for, letter case aside; and the plan deletes exactly the installed versions whose tag is not protected.
  pub plan_prune-Plans :
      (tool : Tool) (request : PruneRequest) (plan : PrunePlan)
      → plan_prune env tool request ≡ ok plan
      → Plans tool request plan
  plan_prune-Plans tool request plan h =
      let (installed, bs, original, e1, e2, e3, e4, same) = plan-parts tool request plan h in
      let (all, before) = add_all-Member (protected_refs request original installed) [] bs e3 in
      let planned : Plans tool request (record {
        name = request.name;
        current = lowered request.current;
        protected = sort_slice tag_less bs;
        delete = sort_slice tag_less (unprotected (tags_of bs) installed);
      }) =
        record {
          installed = installed;
          original = original;
          read_installed = e1;
          read_original = e2;
          same_name = refl;
          kept =
              protected_refs-MustStay (λ ref. Member (lowered ref) (sort_slice tag_less bs)) request
                original installed (All-sorted bs (protected_refs request original installed) all);
          readable = λ x m.
              verify-All env tool request.name bs e4 x ((sort_slice-Member tag_less x bs).0 m);
          deleted = λ x. (
            λ m.
                let (isin, out) =
                  (unprotected-Member (tags_of bs) installed x).0
                    ((sort_slice-Member tag_less x (unprotected (tags_of bs) installed)).0 m) in
                (isin, λ p q e. apart p bs x.tag ((sort_slice-Member tag_less p bs).0 q) e out),
            λ (isin, f). (sort_slice-Member tag_less x (unprotected (tags_of bs) installed)).1 (
                (unprotected-Member (tags_of bs) installed x).1 (
                  isin,
                  tags_of-member x.tag bs (λ p m. f p ((sort_slice-Member tag_less p bs).1 m)),
                )),
          );
        } in
      subst (Plans tool request) (sym same) planned
    where
      apart :
          (p : VersionRef) (bs : List VersionRef) (tag : Text)
          → Member p bs
          → p.tag ≡ tag
          → member tag (tags_of bs) ≡ false
          → ⊥
      apart p bs tag m e out =
          let isin : member tag (tags_of bs) ≡ true =
            ap (λ t. member t (tags_of bs)) (sym e) ∙ Member-tags_of env p bs m in
          cc

      All-sorted :
          (bs refs : List VersionRef)
          → All (λ ref. Member (lowered ref) bs) refs
          → All (λ ref. Member (lowered ref) (sort_slice tag_less bs)) refs
      All-sorted bs [] a = tt
      All-sorted bs (ref ∷ refs) (m, a) =
          ((sort_slice-Member tag_less (lowered ref) bs).1 m, All-sorted bs refs a)

  -- The outcome of `PruneHistory`, as long as it runs or when it is over.
  pub data Safe (tool : Tool) (request : PruneRequest) (out : Result StoreError Unit × Tool)
      : Type 0 where
    unplanned :
        (e : StoreError)
        → plan_prune env tool request ≡ err e
        → out ≡ (err e, tool)
        → Safe tool request out
    pruned :
        (installed : List VersionRef)
        → (original : VersionRef) → installed_versions env tool request.name ≡ ok installed
        → inspect_version env tool request.name original_tag ≡ ok original
        → MustStay
            (λ ref. inspect_version env out.1 request.name ref.tag ≡ ok (lowered ref))
            request
            original
            installed
        → Safe tool request out

  all_apart :
      (tag : Text) (refs : List VersionRef)
      → ((x : VersionRef) → Member x refs → x.tag ≢ tag)
      → All (λ d. d.tag ≢ tag) refs
  all_apart tag [] f = tt
  all_apart tag (d ∷ refs) f = (f d (inl refl), all_apart tag refs (λ x m. f x (inr m)))

  -- A protected version can be read when the plan was carried out.
  planned_stays :
      (rs : List Removal) (tool : Tool) (request : PruneRequest) (plan : PrunePlan)
      (k : Plans tool request plan) (ref : VersionRef)
      → Member (lowered ref) plan.protected
      → inspect_version env (apply_prune_plan env rs plan tool).1 request.name ref.tag
        ≡ ok (lowered ref)
  planned_stays rs tool request plan k ref m =
      subst
        (λ n.
          inspect_version env (apply_prune_plan env rs plan tool).1 n ref.tag ≡ ok (lowered ref))
        k.same_name
        (apply_prune_plan-others env rs plan tool (lowered ref)
          (all_apart ref.tag plan.delete (λ x d e. ((k.deleted x).0 d).1 (lowered ref) m (sym e)))
          (subst (λ n. inspect_version env tool n ref.tag ≡ ok (lowered ref)) (sym k.same_name)
            (k.readable (lowered ref) m)))

  history-planned :
      (rs : List Removal) (request : PruneRequest) (tool : Tool) (plan : PrunePlan)
      → plan_prune env tool request ≡ ok plan
      → prune_history env rs request tool ≡ apply_prune_plan env rs plan tool
  unfolding prune_history
  history-planned rs request tool plan h = ap (λ r. apply_planned env rs r tool) h

  history-unplanned :
      (rs : List Removal) (request : PruneRequest) (tool : Tool) (e : StoreError)
      → plan_prune env tool request ≡ err e
      → prune_history env rs request tool ≡ (err e, tool)
  unfolding prune_history
  history-unplanned rs request tool e h = ap (λ r. apply_planned env rs r tool) h

  -- Pruning never loses what must stay. Whatever removal fails, and wherever: either no plan was made, and the
  -- directory is as it was, or the version in use, the original backup, as many of the nearest ancestors
  -- as are to be retained and, where a version with the pinned tag was installed, one with this tag are
  -- all still there, each with one regular file of the digest that was asked for, letter case aside.
  pub prune_history-Safe :
      (rs : List Removal) (request : PruneRequest) (tool : Tool)
      → Safe tool request (prune_history env rs request tool)
  prune_history-Safe rs request tool = elim (Result-cases (plan_prune env tool request)) [
    | inl (plan, h) ↦
        let k = plan_prune-Plans tool request plan h in
        subst (Safe tool request) (sym (history-planned rs request tool plan h)) (
          pruned k.installed k.original k.read_installed k.read_original (
            MustStay-map (λ ref. Member (lowered ref) plan.protected)
              (λ ref.
                inspect_version env (apply_prune_plan env rs plan tool).1 request.name ref.tag
                ≡ ok (lowered ref))
              (planned_stays rs tool request plan k) request k.original k.installed k.kept))
    | inr (e, h) ↦ unplanned e h (history-unplanned rs request tool e h)
  ]
