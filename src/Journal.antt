-- ===== src/Journal.antt =====
-- internal/transaction/journal.go: the write-ahead record of a transaction, and its validation.
pub mod Commit
pub mod Intents
mod Tests
use hukou.Prelude.{
  split, member, all_hex, ℕ, Text, codes, Bool, true, false, not, ◌&&◌, ◌||◌, List, [], ◌∷◌, ◌==◌,
  leb, ltb, if◌then◌else◌, is_nil, length, text_eq, contains_byte, Result, ok, err, refuse_if,
  ◌>>=◌, ◌>>◌,
}

pub data Kind : Type 0 where
  absent regular symlink : Kind
  unknown : Text → Kind

-- The durable description of one resource; `payload` names a file of the transaction directory.
pub record State : Type 0 where
  pub kind : Kind
  pub sha256 : Text
  pub mode : ℕ
  pub link_target : Text
  pub payload : Text

pub record Mutation : Type 0 where
  pub role : Text
  pub path : Text
  pub before : State
  pub after : State

pub record Intent : Type 0 where
  pub schema_version : ℕ
  pub id : Text
  pub operation : Text
  pub name : Text
  pub created_at : Text
  pub mutations : List Mutation

abbrev pub journal_schema_version : ℕ
journal_schema_version = 1

abbrev pub max_mutations : ℕ
max_mutations = 16

-- Each constructor is one `return i18n.Errorf(...)` of `validateIntent` and `validateState`.
pub data IntentError : Type 0 where
  unsupported_schema invalid_id incomplete : IntentError
  invalid_role duplicate_role path_not_clean duplicate_path : Text → IntentError
  absent_with_metadata bad_digest_or_payload bad_digest bad_mode_or_link : IntentError
  bad_symlink_metadata unknown_kind : IntentError

abbrev pub kind_eq : Kind → Kind → Bool
kind_eq absent absent = true
kind_eq regular regular = true
kind_eq symlink symlink = true
kind_eq (unknown a) (unknown b) = text_eq a b
kind_eq _ _ = false

-- `statesEqual`: the payload's name is not compared.
unfoldable pub states_equal : State → State → Bool
unfolding text_eq
states_equal a b =
    kind_eq a.kind b.kind
    && text_eq a.sha256 b.sha256
    && a.mode == b.mode
    && text_eq a.link_target b.link_target

-- `state.Mode &^ 0o777 != 0`, on a value of 32 bits
abbrev pub mode_ok : ℕ → Bool
mode_ok mode = ltb mode 512

-- `filepath.Base(p) == p`: a name with no separator, or the root.
unfoldable pub is_base_name : Text → Bool
unfolding contains_byte text_eq
is_base_name p = not (is_nil p) && not (contains_byte b'/' p) || text_eq p (codes "/")

-- The cases of `validateState`; a digest of 64 bytes decodes exactly where all are hex digits.
validate_kind : Kind → State → Result IntentError Unit
validate_kind absent s =
    refuse_if
      (not (is_nil s.sha256)
        || not (s.mode == 0)
        || not (is_nil s.link_target)
        || not (is_nil s.payload))
      absent_with_metadata
validate_kind regular s = do
  refuse_if (not (length s.sha256 == 64) || is_nil s.payload || not (is_base_name s.payload))
      bad_digest_or_payload
  refuse_if (not (all_hex s.sha256)) bad_digest
  refuse_if (not (mode_ok s.mode) || not (is_nil s.link_target)) bad_mode_or_link
validate_kind symlink s = do
  refuse_if
      (is_nil s.link_target
        || not (length s.sha256 == 64)
        || not (is_nil s.payload)
        || not (s.mode == 0))
      bad_symlink_metadata
  refuse_if (not (all_hex s.sha256)) bad_digest
validate_kind (unknown k) s = err unknown_kind

unfoldable pub validate_state : State → Result IntentError Unit
unfolding validate_kind
validate_state s = validate_kind s.kind s

-- strings.ContainsAny(role, `/\\`)
abbrev pub has_separator : Text → Bool
has_separator role = contains_byte b'/' role || contains_byte b'\\' role

-- `filepath.IsAbs(p) && filepath.Clean(p) == p` on Unix: the root, or a separator and parts of which
-- none is empty, `.` or `..`.
clean_parts : List Text → Bool
clean_parts [] = true
clean_parts (p ∷ ps) =
    not (is_nil p) && not (text_eq p (codes ".")) && not (text_eq p (codes "..")) && clean_parts ps

unfoldable pub is_clean_abs : Text → Bool
unfolding split clean_parts text_eq
is_clean_abs [] = false
is_clean_abs (c ∷ s) = c == b'/' && (is_nil s || clean_parts (split b'/' s))

-- The loop of `validateIntent`, over the roles and paths that it has seen.
unfoldable pub validate_mutations : List Text → List Text → List Mutation → Result IntentError Unit
unfolding contains_byte member is_clean_abs validate_state
validate_mutations roles paths [] = ok tt
validate_mutations roles paths (m ∷ ms) = do
  refuse_if (is_nil m.role || has_separator m.role) (invalid_role m.role)
  refuse_if (member m.role roles) (duplicate_role m.role)
  refuse_if (not (is_clean_abs m.path)) (path_not_clean m.path)
  refuse_if (member m.path paths) (duplicate_path m.path)
  validate_state m.before
  validate_state m.after
  validate_mutations (m.role ∷ roles) (m.path ∷ paths) ms

-- `len(intent.ID) != 32` and `hex.DecodeString(intent.ID)`
unfoldable pub validate_intent : Intent → Result IntentError Unit
validate_intent t = do
  refuse_if (not (t.schema_version == journal_schema_version)) unsupported_schema
  refuse_if (not (length t.id == 32)) invalid_id
  refuse_if (not (all_hex t.id)) invalid_id
  refuse_if
      (is_nil t.operation
        || is_nil t.name
        || is_nil t.mutations
        || ltb max_mutations (length t.mutations))
      incomplete
  validate_mutations [] [] t.mutations
