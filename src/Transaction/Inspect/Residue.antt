-- ===== src/Transaction/Inspect/Residue.antt =====
-- What an entry of the transaction root is, described without the tests of `Inspect`.
use hukou.Prelude.{
  ℕ, ◌+◌, ◌≤◌, Text, codes, Bool, true, false, ◌&&◌, ◌≡◌, ◌↔◌, ◌⊎◌, inl, inr, refl, sym, ◌∙◌, subst,
  [], ◌∷◌, ◌++◌, Option, none, some, arith, All, ltb, leb, ◌||◌, length, drop, length-append,
  text_eq_iff, has_prefix, has_prefix-split, all_hex, to_lower, Bool-cases, Result-cases, ok,
  if◌then◌else◌, text_eq, ◌==◌,
}
use hukou.Disk.{Node, Listing, regular, symlink, special, directory, find}
use hukou.Journal.Commit.{decision, classify_commit_marker, classify_commit_marker_lem}
use hukou.Transaction.Finish.{completed_prefix, pending_prefix, commit_file_name}
use hukou.Transaction.Inspect.{
  building_prefix, quarantined_prefix, quarantined_hex_len, quarantine_container_name_valid,
  container_valid, is_valid_quarantine_container, Bucket, building, pending, completed, unknown,
  quarantined, bucket, all_lower_hex, is_journal_id, marker_committed, directory_committed,
  trim_prefix, is_verified_completed_journal,
}
use hukou.Transaction.Inspect.Containers.{
  Container, container_valid-Container, container_valid-of_Container,
}

-- A container of the quarantine: its name is quarantined- and 16 lower-case hexadecimal digits.
pub record Quarantined (root : Listing) (name : Text) : Type 0 where
  pub digits : Text
  pub named : name ≡ codes "quarantined-" ++ digits
  pub count : length digits ≡ 16
  pub hexadecimal : all_hex digits ≡ true
  pub lower : to_lower digits ≡ digits
  pub held : Container (find name root)

abbrev pub LowerHex : ℕ → Type 0
LowerHex c = ((b'0' ≤ c) × (c ≤ b'9')) ⊎ ((b'a' ≤ c) × (c ≤ b'f'))

-- A journal that is finished but for its removal: its name is completed- and an id of 32 lower-case
-- hexadecimal digits, and it is a directory whose COMMIT is a regular file with the decision.
pub record Finished (root : Listing) (name : Text) : Type 0 where
  pub id : Text
  pub named : name ≡ codes "completed-" ++ id
  pub count : length id ≡ 32
  pub digits : All LowerHex id
  pub files : Listing
  pub held : find name root ≡ some (directory files)
  pub mode : ℕ
  pub marker : find (codes "COMMIT") files ≡ some (regular (id ++ (10 ∷ [])) mode)

choose : Bool → Bool → Bool → Bool → Bool → Bucket
choose a b v p c =
    if a
    then building
    else if b
    then (if v then quarantined else unknown)
    else if p
    then pending
    else if c
    then completed
    else unknown

choose-quarantined : (a b v p c : Bool) → choose a b v p c ≡ quarantined → (b ≡ true) × (v ≡ true)
unfolding choose
choose-quarantined true b v p c e = cc
choose-quarantined false true true p c e = (refl, refl)
choose-quarantined false true false p c e = cc
choose-quarantined false false v true c e = cc
choose-quarantined false false v false true e = cc
choose-quarantined false false v false false e = cc

choose-completed : (a b v p c : Bool) → choose a b v p c ≡ completed → c ≡ true
unfolding choose
choose-completed true b v p c e = cc
choose-completed false true true p c e = cc
choose-completed false true false p c e = cc
choose-completed false false v true c e = cc
choose-completed false false v false true e = refl
choose-completed false false v false false e = cc

and_true : (a b : Bool) → (a && b) ≡ true → (a ≡ true) × (b ≡ true)
and_true true b e = (refl, e)
and_true false b e = cc

of_four : (a b c d : Bool) → (a && b && c && d) ≡ true → (a ≡ true) × (c ≡ true) × (d ≡ true)
of_four true true true true e = (refl, refl, refl)
of_four true true true false e = cc
of_four true true false d e = cc
of_four true false c d e = cc
of_four false b c d e = cc

counted : (m n : ℕ) → m ≡ 12 + n → (m == 28) ≡ true → n ≡ 16
counted m n s e = ground arith

name_valid-parts :
    (digits : Text)
    → quarantine_container_name_valid (quarantined_prefix ++ digits) ≡ true
    → (length digits ≡ 16) × (to_lower digits ≡ digits) × (all_hex digits ≡ true)
unfolding quarantine_container_name_valid has_prefix
name_valid-parts digits h =
    let (exact, low, hex) =
      of_four
        (length (quarantined_prefix ++ digits) == length quarantined_prefix + quarantined_hex_len)
        (has_prefix (quarantined_prefix ++ digits) quarantined_prefix)
        (text_eq (to_lower digits) digits) (all_hex digits) h in
    (
      counted (length (quarantined_prefix ++ digits)) (length digits)
          (length-append quarantined_prefix digits) exact,
      (text_eq_iff (to_lower digits) digits).0 low,
      hex,
    )

name_valid-of_parts :
    (digits : Text)
    → length digits ≡ 16
    → to_lower digits ≡ digits
    → all_hex digits ≡ true
    → quarantine_container_name_valid (quarantined_prefix ++ digits) ≡ true
unfolding quarantine_container_name_valid has_prefix
name_valid-of_parts digits len low hex =
    rw (len, (text_eq_iff (to_lower digits) digits).1 low, hex) refl

module _ (root : Listing) (name : Text) where
  bucket-choose :
      bucket root name
      ≡ choose
          (has_prefix name building_prefix)
          (has_prefix name quarantined_prefix)
          (is_valid_quarantine_container root name)
          (has_prefix name pending_prefix)
          (has_prefix name completed_prefix)
  unfolding bucket choose
  bucket-choose = refl

  pub bucket-Quarantined : bucket root name ≡ quarantined → Quarantined root name
  bucket-Quarantined e =
      let (pre, valid) =
        choose-quarantined (has_prefix name building_prefix) (has_prefix name quarantined_prefix)
          (is_valid_quarantine_container root name) (has_prefix name pending_prefix)
          (has_prefix name completed_prefix) (sym bucket-choose ∙ e) in
      let (named, held) =
        and_true (quarantine_container_name_valid name) (container_valid (find name root))
          (unfold is_valid_quarantine_container in valid) in
      let digits = drop (length quarantined_prefix) name in
      let split = has_prefix-split name quarantined_prefix pre in
      let (count, lower, hexadecimal) =
        name_valid-parts digits
          (subst (λ n. quarantine_container_name_valid n ≡ true) split named) in
      record {
        digits = digits;
        named = split;
        count = count;
        hexadecimal = hexadecimal;
        lower = lower;
        held = container_valid-Container (find name root) held;
      }

  pub bucket-of_Quarantined : Quarantined root name → bucket root name ≡ quarantined
  bucket-of_Quarantined k =
      let named : quarantine_container_name_valid name ≡ true =
        subst (λ n. quarantine_container_name_valid n ≡ true) (sym k.named)
          (name_valid-of_parts k.digits k.count k.lower k.hexadecimal) in
      let valid : is_valid_quarantine_container root name ≡ true =
        unfold is_valid_quarantine_container in
        rw (named, container_valid-of_Container (find name root) k.held) refl in
      let a : has_prefix name building_prefix ≡ false =
        subst (λ n. has_prefix n building_prefix ≡ false) (sym k.named)
          (unfold has_prefix in refl) in
      let b : has_prefix name quarantined_prefix ≡ true =
        subst (λ n. has_prefix n quarantined_prefix ≡ true) (sym k.named)
          (unfold has_prefix in refl) in
      bucket-choose ∙ unfold choose in rw (a, b, valid) refl

all_lower_hex-All : (t : Text) → (all_lower_hex t ≡ true) ↔ All LowerHex t
unfolding all_lower_hex
all_lower_hex-All [] = (λ e. tt, λ a. refl)
all_lower_hex-All (c ∷ t) = (
  λ e.
      let (first, rest) = and_true _ (all_lower_hex t) e in
      (ground arith, (all_lower_hex-All t).0 rest),
  λ (d, a). rw (digit d, (all_lower_hex-All t).1 a) refl,
)
  where
    digit : LowerHex c → (leb b'0' c && leb c b'9' || leb b'a' c && leb c b'f') ≡ true
    digit d = ground arith

is_journal_id-parts : (id : Text) → is_journal_id id ≡ true → (length id ≡ 32) × All LowerHex id
unfolding is_journal_id
is_journal_id-parts id h =
    let (len, hex) = and_true (length id == 32) (all_lower_hex id) h in
    (ground arith, (all_lower_hex-All id).0 hex)

is_journal_id-of_parts : (id : Text) → length id ≡ 32 → All LowerHex id → is_journal_id id ≡ true
unfolding is_journal_id
is_journal_id-of_parts id len a = rw (len, (all_lower_hex-All id).1 a) refl

marker_committed-node :
    (id : Text) (n : Option Node)
    → marker_committed id n ≡ true
    → (mode : ℕ) × (n ≡ some (regular (decision id) mode))
unfolding marker_committed
marker_committed-node id none e = cc
marker_committed-node id (some (symlink t)) e = cc
marker_committed-node id (some special) e = cc
marker_committed-node id (some (directory l)) e = cc
marker_committed-node id (some (regular bytes mode)) e =
    elim (Bool-cases (ltb 256 (length bytes))) [
      | inl big ↦ absurd (refuted (rw big at e))
      | inr small ↦ elim (Result-cases (classify_commit_marker bytes id)) [
        | inl (c, h) ↦ decided c h (rw (small, h) at e)
        | inr (x, h) ↦ absurd (refuted (rw (small, h) at e))
      ]
    ]
  where
    refuted : false ≡ true → ⊥
    refuted f = cc

    decided :
        (c : Bool)
        → classify_commit_marker bytes id ≡ ok c
        → c ≡ true
        → (mode' : ℕ) × (some (regular bytes mode) ≡ some (regular (decision id) mode'))
    decided c h t =
        let same = (classify_commit_marker_lem bytes id).0.0 (rw t at h) in (mode, rw same refl)

marker_committed-of_decision :
    (id : Text) (mode : ℕ)
    → length id ≡ 32
    → marker_committed id (some (regular (decision id) mode)) ≡ true
unfolding marker_committed
marker_committed-of_decision id mode len =
    let small : ltb 256 (length (decision id)) ≡ false =
      rw (length-append id (10 ∷ []), len) refl in
    rw (small, (classify_commit_marker_lem (decision id) id).0.1 refl) refl

module _ (root : Listing) (name : Text) where
  pub verified-Finished :
      bucket root name ≡ completed
      → is_verified_completed_journal root name ≡ true
      → Finished root name
  unfolding trim_prefix directory_committed
  verified-Finished e v =
      let pre =
        choose-completed (has_prefix name building_prefix) (has_prefix name quarantined_prefix)
          (is_valid_quarantine_container root name) (has_prefix name pending_prefix)
          (has_prefix name completed_prefix) (sym (bucket-choose root name) ∙ e) in
      let id = drop (length completed_prefix) name in
      let trimmed : trim_prefix name completed_prefix ≡ id = rw pre refl in
      let (shape, done) = and_true (is_journal_id id) (directory_committed id (find name root)) (
        subst (λ t. (is_journal_id t && directory_committed t (find name root)) ≡ true) trimmed
          (unfold is_verified_completed_journal in v)) in
      let (count, digits) = is_journal_id-parts id shape in
      of_node (find name root) refl id (has_prefix-split name completed_prefix pre) count digits
        done
    where
      of_node :
          (n : Option Node)
          → find name root ≡ n
          → (id : Text) → name ≡ completed_prefix ++ id
          → length id ≡ 32
          → All LowerHex id
          → directory_committed id n ≡ true
          → Finished root name
      of_node (some (directory files)) found id named count digits done =
          let (mode, marker) = marker_committed-node id (find commit_file_name files) done in
          record {
            id = id;
            named = named;
            count = count;
            digits = digits;
            files = files;
            held = found;
            mode = mode;
            marker = marker;
          }
      of_node none found id named count digits done = cc
      of_node (some (regular b m)) found id named count digits done = cc
      of_node (some (symlink t)) found id named count digits done = cc
      of_node (some special) found id named count digits done = cc

  pub verified-of_Finished :
      Finished root name
      → (bucket root name ≡ completed) × (is_verified_completed_journal root name ≡ true)
  unfolding has_prefix trim_prefix
  verified-of_Finished k =
      let a : has_prefix name building_prefix ≡ false =
        subst (λ n. has_prefix n building_prefix ≡ false) (sym k.named) refl in
      let b : has_prefix name quarantined_prefix ≡ false =
        subst (λ n. has_prefix n quarantined_prefix ≡ false) (sym k.named) refl in
      let p : has_prefix name pending_prefix ≡ false =
        subst (λ n. has_prefix n pending_prefix ≡ false) (sym k.named) refl in
      let c : has_prefix name completed_prefix ≡ true =
        subst (λ n. has_prefix n completed_prefix ≡ true) (sym k.named) refl in
      let trimmed : trim_prefix name completed_prefix ≡ k.id =
        subst (λ n. trim_prefix n completed_prefix ≡ k.id) (sym k.named) refl in
      let done : directory_committed k.id (find name root) ≡ true =
        unfold directory_committed in
        rw (k.held, k.marker) (marker_committed-of_decision k.id k.mode k.count) in
      (
        bucket-choose root name ∙ unfold choose in rw (a, b, p, c) refl,
        unfold is_verified_completed_journal in
            rw (trimmed, is_journal_id-of_parts k.id k.count k.digits, done) refl,
      )
