-- ===== src/Verify/Entries.antt =====
-- `ParseChecksums`: the map of digests against what each line says.
use mathlib.Core.Bool.{false≢true}
use hukou.Prelude.{
  lookup, ap, ℕ, suc, Text, Bool, true, false, ◌≡◌, ◌≢◌, ◌↔◌, ◌⊎◌, inl, inr, refl, sym, ◌∙◌, List,
  [], ◌∷◌, All, Any, Option, none, some, arith, text_eq, text_eq_iff, text_eq_refl, if◌then◌else◌,
  Result, Result-cases, ok, err, refuse_if, ◌>>=◌, ◌>>◌,
}
use hukou.Verify.{
  Checksums, Line, blank, malformed, unnamed, named, bare, read_line, ParseError, conflicts,
  put_checksum, Scan, add, step, scan_lines, parse_checksums, parse_lines,
}

-- Some line names the file with the digest.
abbrev pub Names : Text → Text → List Text → Type 0
Names name hash lines = Any (λ l. read_line l ≡ named name hash) lines

-- A line that a checksum file may hold: blank, or a digest with the name of a file.
abbrev pub Readable : Text → Type 0
Readable l =
    (read_line l ≡ blank)
    ⊎ ((name : Text) × (hash : Text) × (name ≢ []) × (read_line l ≡ named name hash))

-- No two lines give different digests for a name.
abbrev pub Consistent : List Text → Type 0
Consistent lines = (name h h' : Text) → Names name h lines → Names name h' lines → h ≡ h'

-- The map has the entries of `out` and one more.
abbrev Extends : Checksums → Line → Checksums → Type 0
Extends out line out' =
    (name hash : Text)
    → (lookup name out' ≡ some hash) ↔ ((lookup name out ≡ some hash) ⊎ (line ≡ named name hash))

put-ok :
    (out out' : Checksums) (a h : Text) (n : ℕ)
    → put_checksum out a h n ≡ ok out'
    → (a ≢ []) × (conflicts (lookup a out) h ≡ false) × (out' ≡ (a, h) ∷ out)
unfolding put_checksum
put-ok out out' a h n e = (ground arith, ground arith, ground arith)

-- What stands under a name that does not conflict.
no_conflict : (o : Option Text) (h : Text) → conflicts o h ≡ false → (o ≡ none) ⊎ (o ≡ some h)
no_conflict none h e = inl refl
no_conflict (some x) h e = inr (ground (arith, text_eq_iff x h))

module _ (out : Checksums) (a h : Text) (free : conflicts (lookup a out) h ≡ false) where
  agrees : (hash : Text) → lookup a out ≡ some hash → h ≡ hash
  agrees hash e = elim (no_conflict (lookup a out) h free) [ inl absent ↦ cc | inr there ↦ cc ]

  name_same : (name hash : Text) → named a h ≡ named name hash → text_eq name a ≡ true
  name_same name hash e = ground (arith, text_eq_refl a)

  -- The lookup after the entry, by whether its name is the one looked up.
  found :
      (b : Bool) (name hash : Text)
      → text_eq name a ≡ b
      → ((if b then some h else lookup name out) ≡ some hash)
        ↔ ((lookup name out ≡ some hash) ⊎ (named a h ≡ named name hash))
  found true name hash e =
      rw ((text_eq_iff name a).0 e)
        (λ x. inr (cc), λ x. elim x [ inl old ↦ ap some (agrees hash old) | inr new ↦ cc ])
  found false name hash e = (
    inl,
    λ x. elim x [ inl old ↦ old | inr new ↦ absurd (false≢true (sym e ∙ name_same name hash new)) ],
  )

  cons-Extends : Extends out (named a h) ((a, h) ∷ out)
  unfolding lookup
  cons-Extends name hash = found (text_eq name a) name hash refl

-- One line behind others, with no asset name to bind a bare digest to.
module _ (n : ℕ) (out : Checksums) where
  abbrev state : Checksums → Scan
  state c = record { out = c; bare_seen = false }

  abbrev Accepts : Line → Scan → Type 0
  Accepts l s' =
      (s'.bare_seen ≡ false)
      × Extends out l s'.out
      × ((l ≡ blank) ⊎ ((name : Text) × (hash : Text) × (name ≢ []) × (l ≡ named name hash)))

  named-Accepts :
      (a h : Text) (s' : Scan) (r : Result ParseError Checksums)
      → put_checksum out a h n ≡ r
      → (r >>= λ out'. ok (state out')) ≡ ok s'
      → Accepts (named a h) s'
  named-Accepts a h s' (err x) e e' = cc
  named-Accepts a h s' (ok out') e e' =
      let (ne, free, eq) = put-ok out out' a h n e in
      let same : s' ≡ state ((a, h) ∷ out) = ground (arith, eq) in
      rw same (refl, cons-Extends out a h free, inr (a, h, ne, refl))

  step-ok : (l : Line) (s' : Scan) → step [] n (state out) l ≡ ok s' → Accepts l s'
  unfolding step add
  step-ok blank s' e =
      let same : s' ≡ state out = cc in
      rw same (refl, λ name hash. (inl, λ x. elim x [ inl old ↦ old | inr new ↦ cc ]), inl refl)
  step-ok (named a h) s' e = named-Accepts a h s' (put_checksum out a h n) refl e
  step-ok (bare h) s' e = cc
  step-ok malformed s' e = cc
  step-ok unnamed s' e = cc

abbrev Holding : Checksums → List Text → Checksums → Type 0
Holding out lines out' =
    (name hash : Text)
    → (lookup name out' ≡ some hash) ↔ ((lookup name out ≡ some hash) ⊎ Names name hash lines)

scan_lines-uncons :
    (n : ℕ) (s s' : Scan) (l : Text) (ls : List Text)
    → scan_lines [] n s (l ∷ ls) ≡ ok s'
    → (s1 : Scan) × (step [] (suc n) s (read_line l) ≡ ok s1)
      × (scan_lines [] (suc n) s1 ls ≡ ok s')
unfolding scan_lines
scan_lines-uncons n s s' l ls e = elim (Result-cases (step [] (suc n) s (read_line l))) [
  | inl (s1, e1) ↦ (s1, e1, ground (arith, e1))
  | inr (x, e1) ↦ absurd (ground (arith, e1))
]

Holding-cons :
    (l : Text) (ls : List Text) (out out1 out' : Checksums)
    → Extends out (read_line l) out1
    → Holding out1 ls out'
    → Holding out (l ∷ ls) out'
Holding-cons l ls out out1 out' ext hold name hash = (
  λ e. elim ((hold name hash).0 e) [
    | inl h ↦ elim ((ext name hash).0 h) [ inl old ↦ inl old | inr new ↦ inr (inl new) ]
    | inr later ↦ inr (inr later)
  ],
  λ x. elim x [
    | inl old ↦ (hold name hash).1 (inl ((ext name hash).1 (inl old)))
    | inr here ↦ elim here [
      | inl new ↦ (hold name hash).1 (inl ((ext name hash).1 (inr new)))
      | inr later ↦ (hold name hash).1 (inr later)
    ]
  ],
)

scan_lines-ok :
    (lines : List Text) (n : ℕ) (s s' : Scan)
    → s.bare_seen ≡ false
    → scan_lines [] n s lines ≡ ok s'
    → Holding s.out lines s'.out × All Readable lines
scan_lines-ok [] n s s' b e =
    unfold scan_lines in
    let same : s' ≡ s = cc in
    rw same ((λ name hash. (inl, λ x. elim x [ inl old ↦ old | inr f ↦ absurd f ])), tt)
scan_lines-ok (l ∷ ls) n s s' b e =
    let (s1, e1, rest) = scan_lines-uncons n s s' l ls e in
    let (seen, ext, readable) = step-ok (suc n) s.out (read_line l) s1 (rw (sym b) e1) in
    let (hold, all) = scan_lines-ok ls (suc n) s1 s' seen rest in
    (Holding-cons l ls s.out s1.out s'.out ext hold, (readable, all))

-- A line that is readable and agrees with what is there is accepted.
put-accepts :
    (out : Checksums) (a h : Text) (n : ℕ)
    → a ≢ []
    → ((h' : Text) → lookup a out ≡ some h' → h' ≡ h)
    → put_checksum out a h n ≡ ok ((a, h) ∷ out)
unfolding put_checksum
put-accepts out [] h n ne agree = absurd (ne refl)
put-accepts out (c ∷ a) h n ne agree = go (lookup (c ∷ a) out) refl
  where
    go :
        (o : Option Text)
        → lookup (c ∷ a) out ≡ o
        → (refuse_if (conflicts o h) (ParseError.conflicting n (c ∷ a)) >> ok ((c ∷ a, h) ∷ out))
          ≡ ok ((c ∷ a, h) ∷ out)
    go none e = refl
    go (some x) e = rw (agree x e, text_eq_refl h) refl

module _ (n : ℕ) (s : Scan) (b : s.bare_seen ≡ false) where
  step-accepts :
      (l : Line)
      → (l ≡ blank) ⊎ ((name : Text) × (hash : Text) × (name ≢ []) × (l ≡ named name hash))
      → ((name h h' : Text) → lookup name s.out ≡ some h' → l ≡ named name h → h' ≡ h)
      → (s1 : Scan) × (step [] n s l ≡ ok s1)
  unfolding step add
  step-accepts l (inl e) agree = rw e (s, refl)
  step-accepts l (inr (name, hash, ne, e)) agree =
      rw (e, b, put-accepts s.out name hash n ne (λ h' e'. agree name hash h' e' e))
        (record { out = (name, hash) ∷ s.out; bare_seen = false }, refl)

-- What a name has, behind the entries of `out` and on the lines.
abbrev Says : Checksums → List Text → Text → Text → Type 0
Says out lines name h = (lookup name out ≡ some h) ⊎ Names name h lines

abbrev Agree : Checksums → List Text → Type 0
Agree out lines = (name h h' : Text) → Says out lines name h → Says out lines name h' → h ≡ h'

Agree-tail :
    (l : Text) (ls : List Text) (out out1 : Checksums)
    → Extends out (read_line l) out1
    → Agree out (l ∷ ls)
    → Agree out1 ls
Agree-tail l ls out out1 ext agree name h h' x y = agree name h h' (back h x) (back h' y)
  where
    back : (k : Text) → Says out1 ls name k → Says out (l ∷ ls) name k
    back k (inl e) = elim ((ext name k).0 e) [ inl old ↦ inl old | inr new ↦ inr (inl new) ]
    back k (inr later) = inr (inr later)

scan_lines-cons :
    (n : ℕ) (s s1 : Scan) (l : Text) (ls : List Text)
    → step [] (suc n) s (read_line l) ≡ ok s1
    → scan_lines [] n s (l ∷ ls) ≡ scan_lines [] (suc n) s1 ls
unfolding scan_lines
scan_lines-cons n s s1 l ls e = rw e refl

scan_lines-accepts :
    (lines : List Text) (n : ℕ) (s : Scan)
    → s.bare_seen ≡ false
    → All Readable lines
    → Agree s.out lines
    → (s' : Scan) × (scan_lines [] n s lines ≡ ok s')
scan_lines-accepts [] n s b readable agree = unfold scan_lines in (s, refl)
scan_lines-accepts (l ∷ ls) n s b (r, rs) agree =
    let (s1, e1) =
      step-accepts (suc n) s b (read_line l) r
        (λ name h h' old new. agree name h' h (inl old) (inr (inl new))) in
    let (seen, ext, _) = step-ok (suc n) s.out (read_line l) s1 (rw (sym b) e1) in
    let (s', e) =
      scan_lines-accepts ls (suc n) s1 seen rs (Agree-tail l ls s.out s1.out ext agree) in
    (s', scan_lines-cons n s s1 l ls e1 ∙ e)

abbrev start : Scan
start = record { out = []; bare_seen = false }

parse_checksums-scan :
    (lines : List Text)
    → parse_checksums lines false ≡ (scan_lines [] 0 start lines >>= λ s. ok s.out)
unfolding parse_checksums parse_lines
parse_checksums-scan lines = refl

parse_checksums-ok :
    (lines : List Text) (sums : Checksums)
    → parse_checksums lines false ≡ ok sums
    → Holding [] lines sums × All Readable lines
parse_checksums-ok lines sums e =
    go (scan_lines [] 0 start lines) refl (sym (parse_checksums-scan lines) ∙ e)
  where
    go :
        (r : Result ParseError Scan)
        → scan_lines [] 0 start lines ≡ r
        → (r >>= λ s. ok s.out) ≡ ok sums
        → Holding [] lines sums × All Readable lines
    go (ok s') e1 e2 =
        let same : s'.out ≡ sums = cc in rw (sym same) (scan_lines-ok lines 0 start s' refl e1)
    go (err x) e1 e2 = cc

-- Every entry of a parsed checksum file stands on one of its lines, and every line that names a file
-- has its entry: the map has a digest for a name exactly where some line gives it.
pub parse_checksums_entries :
    (lines : List Text) (sums : Checksums)
    → parse_checksums lines false ≡ ok sums
    → (name hash : Text) → (lookup name sums ≡ some hash) ↔ Names name hash lines
unfolding lookup
parse_checksums_entries lines sums e name hash =
    let hold = (parse_checksums-ok lines sums e).0 in
    (λ x. only (lookup name []) refl ((hold name hash).0 x), λ x. (hold name hash).1 (inr x))
  where
    only :
        (o : Option Text)
        → o ≡ none
        → (o ≡ some hash) ⊎ Names name hash lines
        → Names name hash lines
    only o e0 (inl e') = cc
    only o e0 (inr x) = x

-- A checksum file is accepted exactly where each of its lines is blank or names a file with a digest,
-- and no two lines give different digests for a name.
pub parse_checksums_iff :
    (lines : List Text)
    → ((sums : Checksums) × (parse_checksums lines false ≡ ok sums))
      ↔ (All Readable lines × Consistent lines)
parse_checksums_iff lines = (
  λ (sums, e). (
    (parse_checksums-ok lines sums e).1,
    λ name h h' x y. some-inj h h' (
        sym ((parse_checksums_entries lines sums e name h).1 x)
        ∙ (parse_checksums_entries lines sums e name h').1 y),
  ),
  λ (readable, consistent).
      let (s', e) =
        scan_lines-accepts lines 0 start refl readable
          (λ name h h' x y. consistent name h h' (on_lines name h x) (on_lines name h' y)) in
      (s'.out, parse_checksums-scan lines ∙ rw e refl),
)
  where
    some-inj : (h h' : Text) → some h ≡ some h' → h ≡ h'
    some-inj h h' e = cc

    on_lines : (name h : Text) → Says [] lines name h → Names name h lines
    on_lines name h (inl e) = unfold lookup in cc
    on_lines name h (inr x) = x
