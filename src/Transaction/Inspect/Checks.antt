-- ===== src/Transaction/Inspect/Checks.antt =====
-- What `CheckClean` and `CheckReadable` let through.
use hukou.Prelude.{
  ℕ, Text, Bool, true, false, not, ◌&&◌, ◌≡◌, ◌≢◌, ◌↔◌, ◌⊎◌, inl, inr, refl, sym, ◌∙◌, List, [],
  ◌∷◌, Option, none, some, is_nil, text_lt, length, if◌then◌else◌, Bool-cases, Result, ok, err,
  sort_slice-Member, Member,
}
use hukou.Disk.{Node, Listing, regular, symlink, special, directory}
use hukou.Transaction.Inspect.Residue.{
  Quarantined, Finished, bucket-Quarantined, bucket-of_Quarantined, verified-Finished,
  verified-of_Finished,
}
use hukou.Transaction.Inspect.{
  Bucket, building, pending, completed, unknown, quarantined, bucket, bucket_eq, in_bucket,
  entry_names, inspect, inspect_listing, clean_status, readable_status, CheckError, unfinished,
  check_clean, all_verified, is_verified_completed_journal, check_readable, sorted_bucket,
}

bucket_eq→eq : (a b : Bucket) → bucket_eq a b ≡ true → a ≡ b
bucket_eq→eq building building e = refl
bucket_eq→eq building pending e = cc
bucket_eq→eq building completed e = cc
bucket_eq→eq building unknown e = cc
bucket_eq→eq building quarantined e = cc
bucket_eq→eq pending building e = cc
bucket_eq→eq pending pending e = refl
bucket_eq→eq pending completed e = cc
bucket_eq→eq pending unknown e = cc
bucket_eq→eq pending quarantined e = cc
bucket_eq→eq completed building e = cc
bucket_eq→eq completed pending e = cc
bucket_eq→eq completed completed e = refl
bucket_eq→eq completed unknown e = cc
bucket_eq→eq completed quarantined e = cc
bucket_eq→eq unknown building e = cc
bucket_eq→eq unknown pending e = cc
bucket_eq→eq unknown completed e = cc
bucket_eq→eq unknown unknown e = refl
bucket_eq→eq unknown quarantined e = cc
bucket_eq→eq quarantined building e = cc
bucket_eq→eq quarantined pending e = cc
bucket_eq→eq quarantined completed e = cc
bucket_eq→eq quarantined unknown e = cc
bucket_eq→eq quarantined quarantined e = refl

bucket_eq_refl : (a : Bucket) → bucket_eq a a ≡ true
bucket_eq_refl building = refl
bucket_eq_refl pending = refl
bucket_eq_refl completed = refl
bucket_eq_refl unknown = refl
bucket_eq_refl quarantined = refl

no-Member : (l : List Text) → is_nil l ≡ true → (x : Text) → Member x l → ⊥
no-Member [] e x m = m
no-Member (y ∷ l) e x m = cc

nil_if : (l : List Text) → ((x : Text) → Member x l → ⊥) → is_nil l ≡ true
nil_if [] f = refl
nil_if (y ∷ l) f = absurd (f y (inl refl))

and_true : (a b : Bool) → (a && b) ≡ true → (a ≡ true) × (b ≡ true)
and_true true b e = (refl, e)
and_true false b e = cc

-- The two checks, on what the lists are found to be.
clean : Bool → Bool → Bool → Bool → Result CheckError Unit
clean a b c d = if not (a && b && c && d) then err unfinished else ok tt

clean-ok :
    (a b c d : Bool) → clean a b c d ≡ ok tt → (a ≡ true) × (b ≡ true) × (c ≡ true) × (d ≡ true)
unfolding clean
clean-ok true true true true e = (refl, refl, refl, refl)
clean-ok true true true false e = cc
clean-ok true true false d e = cc
clean-ok true false c d e = cc
clean-ok false b c d e = cc

readable : Bool → Bool → Bool → Bool → Bool → ℕ → Result CheckError (Option ℕ)
readable a b d c v n =
    if not (a && b && d)
    then err unfinished
    else if c
    then ok none
    else if v
    then ok (some n)
    else err unfinished

readable-ok :
    (a b d c v : Bool) (n : ℕ) (notes : Option ℕ)
    → readable a b d c v n ≡ ok notes
    → (a ≡ true) × (b ≡ true) × (d ≡ true) × ((c ≡ true) ⊎ (v ≡ true))
unfolding readable
readable-ok true true true true v n notes e = (refl, refl, refl, inl refl)
readable-ok true true true false true n notes e = (refl, refl, refl, inr refl)
readable-ok true true true false false n notes e = cc
readable-ok true true false c v n notes e = cc
readable-ok true false d c v n notes e = cc
readable-ok false b d c v n notes e = cc

accepts-readable :
    (c v : Bool) (n : ℕ)
    → v ≡ true
    → (notes : Option ℕ) × (readable true true true c v n ≡ ok notes)
unfolding readable
accepts-readable true v n e = (none, refl)
accepts-readable false true n e = (some n, refl)
accepts-readable false false n e = cc

remaining :
    (b : Bucket) → b ≢ building → b ≢ pending → b ≢ unknown → (b ≡ quarantined) ⊎ (b ≡ completed)
remaining building p q r = absurd (p refl)
remaining pending p q r = absurd (q refl)
remaining unknown p q r = absurd (r refl)
remaining completed p q r = inr refl
remaining quarantined p q r = inl refl

module _ (root : Listing) where
  in_bucket-Member :
      (b : Bucket) (name : Text) (names : List Text)
      → Member name (in_bucket b root names) ↔ (Member name names × (bucket root name ≡ b))
  unfolding in_bucket
  in_bucket-Member b name [] = (λ f. absurd f, λ (f, _). f)
  in_bucket-Member b name (x ∷ l) = elim (Bool-cases (bucket_eq (bucket root x) b)) [
    | inl e ↦ rw e (
      λ m. elim m [
        | inl h ↦ (inl h, rw h (bucket_eq→eq (bucket root x) b e))
        | inr k ↦ let (k', q) = (in_bucket-Member b name l).0 k in (inr k', q)
      ],
      λ (m, q). elim m [ inl h ↦ inl h | inr k ↦ inr ((in_bucket-Member b name l).1 (k, q)) ],
    )
    | inr e ↦ rw e (
      λ m. let (k', q) = (in_bucket-Member b name l).0 m in (inr k', q),
      λ (m, q). elim m [
        | inl h ↦ absurd (elsewhere x h q e)
        | inr k ↦ (in_bucket-Member b name l).1 (k, q)
      ],
    )
  ]
    where
      elsewhere :
          (x : Text) → name ≡ x → bucket root name ≡ b → bucket_eq (bucket root x) b ≡ false → ⊥
      elsewhere x h q e =
          let same : bucket root x ≡ b = rw (sym h) q in
          let yes : bucket_eq (bucket root x) b ≡ true = rw same (bucket_eq_refl b) in cc

  abbrev Entry : Text → Type 0
  Entry name = Member name (entry_names root)

  sorted-Member :
      (b : Bucket) (name : Text)
      → Member name (sorted_bucket b root) ↔ (Entry name × (bucket root name ≡ b))
  sorted-Member b name =
      let s = sort_slice-Member text_lt name (in_bucket b root (entry_names root)) in
      let k = in_bucket-Member b name (entry_names root) in (λ m. k.0 (s.0 m), λ m. s.1 (k.1 m))

  abbrev Without : Bucket → Type 0
  Without b = (name : Text) → Entry name → bucket root name ≢ b

  empty_iff : (b : Bucket) → (is_nil (sorted_bucket b root) ≡ true) ↔ Without b
  empty_iff b = (
    λ e name m q. no-Member (sorted_bucket b root) e name ((sorted-Member b name).1 (m, q)),
    λ w. nil_if (sorted_bucket b root) (λ x m. let (m', q) = (sorted-Member b x).0 m in w x m' q),
  )

  -- The entries of a listing are all containers of the quarantine where `CheckClean` accepts it.
  clean_status_iff :
      (clean_status (inspect_listing root) ≡ ok tt)
      ↔ ((name : Text) → Member name (entry_names root) → bucket root name ≡ quarantined)
  unfolding inspect_listing clean
  clean_status_iff = (
    λ e name m.
        let (no_building, no_pending, no_completed, no_unknown) =
          clean-ok (is_nil (sorted_bucket building root)) (is_nil (sorted_bucket pending root))
            (is_nil (sorted_bucket completed root)) (is_nil (sorted_bucket unknown root)) e in
        elim (remaining (bucket root name) ((empty_iff building).0 no_building name m)
          ((empty_iff pending).0 no_pending name m) ((empty_iff unknown).0 no_unknown name m)) [
            | inl q ↦ q
            | inr q ↦ absurd ((empty_iff completed).0 no_completed name m q)
          ],
    λ h.
        let other : (b : Bucket) → b ≢ quarantined → is_nil (sorted_bucket b root) ≡ true =
          λ b ne. (empty_iff b).1 (λ name m q. ne (sym q ∙ h name m)) in
        rw
          (
            other building (λ x. cc),
            other pending (λ x. cc),
            other completed (λ x. cc),
            other unknown (λ x. cc),
          )
          refl,
  )

  all_verified_iff :
      (names : List Text)
      → (all_verified root names ≡ true)
        ↔ ((name : Text) → Member name names → is_verified_completed_journal root name ≡ true)
  unfolding all_verified
  all_verified_iff [] = (λ e name m. absurd m, λ h. refl)
  all_verified_iff (x ∷ l) = (
    λ e name m.
        let (first, rest) =
          and_true (is_verified_completed_journal root x) (all_verified root l) e in
        elim m [ inl h ↦ rw h first | inr k ↦ (all_verified_iff l).0 rest name k ],
    λ h. rw (h x (inl refl), (all_verified_iff l).1 (λ name k. h name (inr k))) refl,
  )

  readable_status_iff :
      ((notes : Option ℕ) × (readable_status root (inspect_listing root) ≡ ok notes)) ↔ (
        (name : Text)
        → Member name (entry_names root)
        → (bucket root name ≡ quarantined)
          ⊎ ((bucket root name ≡ completed) × (is_verified_completed_journal root name ≡ true)))
  unfolding readable_status inspect_listing readable
  readable_status_iff = (
    λ (notes, e) name m.
        let (no_building, no_pending, no_unknown, done) =
          readable-ok (is_nil (sorted_bucket building root)) (is_nil (sorted_bucket pending root))
            (is_nil (sorted_bucket unknown root)) (is_nil (sorted_bucket completed root))
            (all_verified root (sorted_bucket completed root))
            (length (sorted_bucket completed root)) notes e in
        elim (remaining (bucket root name) ((empty_iff building).0 no_building name m)
          ((empty_iff pending).0 no_pending name m) ((empty_iff unknown).0 no_unknown name m)) [
            | inl q ↦ inl q
            | inr q ↦ inr (q, verified name m q done)
          ],
    λ h.
        let no_building : is_nil (sorted_bucket building root) ≡ true =
          (empty_iff building).1
            (λ name m q. foreign building name q (h name m) (λ x. cc) (λ x. cc)) in
        let no_pending : is_nil (sorted_bucket pending root) ≡ true =
          (empty_iff pending).1
            (λ name m q. foreign pending name q (h name m) (λ x. cc) (λ x. cc)) in
        let no_unknown : is_nil (sorted_bucket unknown root) ≡ true =
          (empty_iff unknown).1
            (λ name m q. foreign unknown name q (h name m) (λ x. cc) (λ x. cc)) in
        rw (no_building, no_pending, no_unknown)
          (accepts-readable (is_nil (sorted_bucket completed root))
            (all_verified root (sorted_bucket completed root))
            (length (sorted_bucket completed root))
            ((all_verified_iff (sorted_bucket completed root)).1 (λ name k.
              let (m, q) = (sorted-Member completed name).0 k in second name q (h name m)))),
  )
    where
      Fine : Text → Type 0
      Fine name =
          (bucket root name ≡ quarantined)
          ⊎ ((bucket root name ≡ completed) × (is_verified_completed_journal root name ≡ true))

      verified :
          (name : Text)
          → Entry name
          → bucket root name ≡ completed
          → (is_nil (sorted_bucket completed root) ≡ true)
            ⊎ (all_verified root (sorted_bucket completed root) ≡ true)
          → is_verified_completed_journal root name ≡ true
      verified name m q (inl e) = absurd ((empty_iff completed).0 e name m q)
      verified name m q (inr v) =
          (all_verified_iff (sorted_bucket completed root)).0 v name
            ((sorted-Member completed name).1 (m, q))

      foreign :
          (b : Bucket) (name : Text)
          → bucket root name ≡ b
          → Fine name
          → b ≢ quarantined
          → b ≢ completed
          → ⊥
      foreign b name q (inl x) ne ne' = ne (sym q ∙ x)
      foreign b name q (inr (x, v)) ne ne' = ne' (sym q ∙ x)

      second :
          (name : Text)
          → bucket root name ≡ completed
          → Fine name
          → is_verified_completed_journal root name ≡ true
      second name q (inl x) = cc
      second name q (inr (x, v)) = v

-- `P` holds of what the transaction root lists: there is none, or it is a directory.
abbrev pub RootLists : (Listing → Type 0) → Option Node → Type 0
RootLists P none = Unit
RootLists P (some (directory root)) = P root
RootLists P (some _) = ⊥

-- All entries are containers of the quarantine.
abbrev pub Clean : Listing → Type 0
Clean root = (name : Text) → Member name (entry_names root) → Quarantined root name

-- All entries are containers of the quarantine, or journals that are finished but for their removal.
abbrev pub Readable : Listing → Type 0
Readable root =
    (name : Text) → Member name (entry_names root) → Quarantined root name ⊎ Finished root name

-- `CheckClean` succeeds exactly where there is no transaction root, or it is a directory all of whose entries
-- are containers of the quarantine: a name of quarantined- and 16 lower-case hexadecimal digits, and a
-- directory with META, a regular file, and payload, and nothing else.
pub check_clean_iff : (root : Option Node) → (check_clean root ≡ ok tt) ↔ RootLists Clean root
unfolding check_clean inspect
check_clean_iff none = (λ e. tt, λ h. refl)
check_clean_iff (some (regular b m)) = (λ e. cc, λ h. absurd h)
check_clean_iff (some (symlink t)) = (λ e. cc, λ h. absurd h)
check_clean_iff (some special) = (λ e. cc, λ h. absurd h)
check_clean_iff (some (directory root)) =
    let k = clean_status_iff root in
    (
      λ e name m. bucket-Quarantined root name (k.0 e name m),
      λ h. k.1 (λ name m. bucket-of_Quarantined root name (h name m)),
    )

-- `CheckReadable` succeeds exactly where there is no transaction root, or it is a directory all of whose
-- entries are containers of the quarantine or finished journals: a name of completed- and an id of 32
-- lower-case hexadecimal digits, and a directory whose COMMIT is a regular file with the id and a newline.
pub check_readable_iff :
    (root : Option Node)
    → ((notes : Option ℕ) × (check_readable root ≡ ok notes)) ↔ RootLists Readable root
unfolding check_readable inspect
check_readable_iff none = (λ e. tt, λ h. (none, unfold readable_status in refl))
check_readable_iff (some (regular b m)) = (λ (n, e). cc, λ h. absurd h)
check_readable_iff (some (symlink t)) = (λ (n, e). cc, λ h. absurd h)
check_readable_iff (some special) = (λ (n, e). cc, λ h. absurd h)
check_readable_iff (some (directory root)) =
    let k = readable_status_iff root in
    (
      λ e name m. described root name (k.0 e name m),
      λ h. k.1 (λ name m. found root name (h name m)),
    )
  where
    described :
        (root : Listing) (name : Text)
        → (bucket root name ≡ quarantined)
          ⊎ ((bucket root name ≡ completed) × (is_verified_completed_journal root name ≡ true))
        → Quarantined root name ⊎ Finished root name
    described root name (inl q) = inl (bucket-Quarantined root name q)
    described root name (inr (c, v)) = inr (verified-Finished root name c v)

    found :
        (root : Listing) (name : Text)
        → Quarantined root name ⊎ Finished root name
        → (bucket root name ≡ quarantined)
          ⊎ ((bucket root name ≡ completed) × (is_verified_completed_journal root name ≡ true))
    found root name (inl q) = inl (bucket-of_Quarantined root name q)
    found root name (inr f) = inr (verified-of_Finished root name f)
