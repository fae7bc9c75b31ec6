-- ===== src/Journal/Commit.antt =====
-- `ClassifyCommitMarker` of internal/transaction/recover.go: the decision that a COMMIT marker's
-- bytes stand for.
use hukou.Prelude.{
  ℕ, zero, suc, ◌≤◌, ◌<◌, Text, Bool, true, false, ◌≡◌, ◌↔◌, refl, [], ◌∷◌, ◌++◌, ltb, leb, ◌&&◌,
  length, take, text_eq, Result, ok, err, if◌then◌else◌, arith, text_eq_iff, eq→text_eq,
}

pub data MarkerError : Type 0 where
  invalid_marker : MarkerError

-- The bytes that `Commit` writes: the id and a newline.
abbrev pub decision : Text → Text
decision id = id ++ (10 ∷ [])

unfoldable pub classify_commit_marker : Text → Text → Result MarkerError Bool
classify_commit_marker bytes id =
    if text_eq bytes (decision id)
    then ok true
    else if ltb (length bytes) (length (decision id))
        && text_eq (take (length bytes) (decision id)) bytes
    then ok false
    else err invalid_marker

-- One of the two ways in which bytes are a strict prefix of a text.
abbrev pub StrictPrefix : Text → Text → Type 0
StrictPrefix s t = (c : ℕ) × (rest : Text) × (t ≡ s ++ (c ∷ rest))

take-strict : (s t : Text) → length s < length t → take (length s) t ≡ s → StrictPrefix s t
take-strict [] [] h e = elim h [ ]
take-strict [] (c ∷ t) h e = (c, t, refl)
take-strict (a ∷ s) [] h e = elim h [ ]
take-strict (a ∷ s) (b ∷ t) h e =
    let (c, rest, eq) = take-strict s t (omega arith) (ground arith) in
    (c, rest, ground (arith, eq))

strict-take :
    (s : Text) (c : ℕ) (rest : Text)
    → (take (length s) (s ++ (c ∷ rest)) ≡ s) × (length s < length (s ++ (c ∷ rest)))
strict-take [] c rest = (refl, omega arith)
strict-take (a ∷ s) c rest =
    let (eq, lt) = strict-take s c rest in (ground (arith, eq), omega (arith, lt))

-- A marker is read as committed exactly where it is the whole decision, and as not committed exactly
-- where it is a strict prefix of it, the empty marker included; all else is an error.
pub classify_commit_marker_lem :
    (bytes id : Text)
    → ((classify_commit_marker bytes id ≡ ok true) ↔ (bytes ≡ decision id))
      × ((classify_commit_marker bytes id ≡ ok false) ↔ StrictPrefix bytes (decision id))
unfolding classify_commit_marker
classify_commit_marker_lem bytes id = (
  (
    λ h. ground (arith, text_eq_iff bytes (decision id)),
    λ e. rw (eq→text_eq bytes (decision id) e),
  ),
  (
    λ h. let (lt, eq) = unfinished h in take-strict bytes (decision id) lt eq,
    λ (c, rest, e). ground (
      arith,
      text_eq_iff bytes (decision id),
      strict-take bytes c rest,
      text_eq_iff (take (length bytes) (decision id)) bytes,
    ),
  ),
)
  where
    unfinished :
        classify_commit_marker bytes id ≡ ok false
        → (length bytes < length (decision id)) × (take (length bytes) (decision id) ≡ bytes)
    unfinished h = ground (arith, text_eq_iff (take (length bytes) (decision id)) bytes)

take-all : (k : ℕ) (t : Text) → length t ≤ k → take k t ≡ t
take-all zero [] h = refl
take-all zero (c ∷ t) h = elim h [ ]
take-all (suc k) [] h = refl
take-all (suc k) (c ∷ t) h = ground (arith, take-all k t)

length-take_lt : (k : ℕ) (t : Text) → k < length t → length (take k t) ≡ k
length-take_lt zero t h = refl
length-take_lt (suc k) [] h = elim h [ ]
length-take_lt (suc k) (c ∷ t) h = omega (arith, length-take_lt k t)

-- What an interrupted write of the decision leaves is never an error: after `k` bytes it is read as
-- committed exactly where all bytes were written.
pub classify-take :
    (k : ℕ) (id : Text)
    → classify_commit_marker (take k (decision id)) id ≡ ok (leb (length (decision id)) k)
unfolding classify_commit_marker
classify-take k id = ground (
  arith,
  text_eq_iff (take k (decision id)) (decision id),
  take-all k (decision id),
  length-take_lt k (decision id),
  text_eq_iff (take (length (take k (decision id))) (decision id)) (take k (decision id)),
)
