-- ===== src/Store.antt =====
-- internal/store/store.go: the versions of one tool, and the pruning of those no longer needed. The state is
-- what the directory of the tool holds; the directories above it are taken to be there, under the names asked
-- for, and to be no links, so that `absRoot` and `ensureUnderRoot` succeed.
pub mod Prune
pub mod Reads
pub mod Stays
pub mod Bindings
pub mod Plans
pub mod Removals
mod Tests
use hukou.Prelude.{
  ℕ, zero, suc, ◌<◌, ℤ, pos, negsuc, is_negative, Text, codes, Bool, true, false, not, ◌&&◌, ◌||◌,
  Option, none, some, List, [], ◌∷◌, ◌++◌, map, ltb, ◌==◌, if◌then◌else◌, is_nil, length, take,
  text_eq, text_lt, to_lower, trim_space, all_hex, contains, contains_byte, member, sort_slice,
  Result, ok, err, refuse_if, ◌>>=◌, ◌>>◌,
}

-- What the directory of a version holds; a symbolic link is not regular.
pub data Artifact : Type 0 where
  regular : Text → Artifact
  irregular : Artifact

pub data Node : Type 0 where
  version : List Artifact → Node
  not_dir : Node

-- The entries of the directory of a tool, as os.ReadDir lists them; or there is no such directory.
abbrev pub Entries : Type 0
Entries = List (Text × Node)

abbrev pub Tool : Type 0
Tool = Option Entries

-- `strings.EqualFold`, and the hexadecimal SHA-256 digest.
pub record Env : Type 0 where
  pub equal_fold : Text → Text → Bool
  pub sha256_hex : Text → Text

pub data StoreError : Type 0 where
  empty_component blank_component control_character dotted_component separator_component
        reserved_component :
      StoreError
  missing case_alias not_a_directory not_one_binary irregular_binary unbound_ref : StoreError
  negative_count conflicting_digest digest_mismatch current_not_protected protected_and_deleted
        duplicate_deletion :
      StoreError
  invalid_digest remove_failed : StoreError

pub record VersionRef : Type 0 where
  pub tag : Text
  pub sha256 : Text

-- `r < 0x20 || r == 0x7f` for some rune; the runes of more than one byte are none of these.
unfoldable pub has_control : Text → Bool
has_control [] = false
has_control (c ∷ s) = ltb c 0x20 || c == 0x7f || has_control s

abbrev pub original_tag : Text
original_tag = codes "original"

unfoldable pub validate_name_tag : Env → Bool → Text → Result StoreError Unit
unfolding trim_space has_control contains contains_byte text_eq
validate_name_tag env is_name v = do
  refuse_if (is_nil v) empty_component
  refuse_if (is_nil (trim_space v)) blank_component
  refuse_if (has_control v) control_character
  refuse_if (text_eq v (codes ".") || text_eq v (codes "..")) dotted_component
  refuse_if (contains v (codes "..")) dotted_component
  refuse_if (contains_byte b'/' v || contains_byte b'\\' v) separator_component
  refuse_if (is_name && env.equal_fold v (codes ".tmp")) reserved_component
  refuse_if (env.equal_fold v original_tag) reserved_component

unfoldable pub validate_activation_tag : Env → Text → Result StoreError Unit
unfolding validate_name_tag text_eq
validate_activation_tag env tag =
    if text_eq tag original_tag then ok tt else validate_name_tag env false tag

abbrev pub is_dir : Node → Bool
is_dir (version files) = true
is_dir not_dir = false

abbrev pub contents : Node → Result StoreError (List Artifact)
contents (version files) = ok files
contents not_dir = err not_a_directory

-- `resolveStoreChild`, without `create`, and the listing of the directory it finds.
unfoldable pub resolve_child : Env → Text → Entries → Result StoreError (List Artifact)
unfolding text_eq
resolve_child env requested [] = err missing
resolve_child env requested ((name, node) ∷ es) =
    let rest = resolve_child env requested es in
    if not (env.equal_fold name requested)
    then rest
    else if not (text_eq name requested)
    then err case_alias
    else contents node

abbrev pub in_tool : Env → Text → Tool → Result StoreError (List Artifact)
in_tool env requested none = err missing
in_tool env requested (some es) = resolve_child env requested es

abbrev pub one_binary : List Artifact → Result StoreError Text
one_binary (regular bytes ∷ []) = ok bytes
one_binary (irregular ∷ []) = err irregular_binary
one_binary _ = err not_one_binary

unfoldable pub inspect_version : Env → Tool → Text → Text → Result StoreError VersionRef
unfolding validate_name_tag validate_activation_tag resolve_child
inspect_version env tool name tag = do
  validate_name_tag env true name
  validate_activation_tag env tag
  files ← in_tool env tag tool
  bytes ← one_binary files
  ok (record { tag = tag; sha256 = env.sha256_hex bytes })

-- One round of the loop of `installedVersions`: nothing for the original backup.
unfoldable pub installed_entry :
    Env → Tool → Text → Text → Node → Result StoreError (Option VersionRef)
unfolding inspect_version resolve_child text_eq validate_name_tag
installed_entry env tool name entry node =
    if env.equal_fold entry original_tag
    then (do
      refuse_if (not (text_eq entry original_tag)) case_alias
      refuse_if (not (is_dir node)) not_a_directory
      files ← in_tool env original_tag tool
      ok none)
    else (do
      refuse_if (not (is_dir node)) not_a_directory
      validate_name_tag env false entry
      ref ← inspect_version env tool name entry
      ok (some ref))

abbrev pub with_found : Option VersionRef → List VersionRef → List VersionRef
with_found none refs = refs
with_found (some ref) refs = ref ∷ refs

-- The map from tags is a list, since the entries of a directory have distinct names.
unfoldable pub installed_from : Env → Tool → Text → Entries → Result StoreError (List VersionRef)
unfolding installed_entry
installed_from env tool name [] = ok []
installed_from env tool name ((entry, node) ∷ es) = do
  found ← installed_entry env tool name entry node
  refs ← installed_from env tool name es
  ok (with_found found refs)

unfoldable pub installed_versions : Env → Tool → Text → Result StoreError (List VersionRef)
unfolding installed_from
installed_versions env none name = ok []
installed_versions env (some es) name = installed_from env (some es) name es

unfoldable pub versions : Env → Tool → Text → Result StoreError (List Text)
unfolding validate_name_tag installed_versions sort_slice text_lt
versions env tool name = do
  validate_name_tag env true name
  installed ← installed_versions env tool name
  ok (sort_slice text_lt (map (λ ref. ref.tag) installed))

unfoldable pub original : Env → Tool → Text → Result StoreError VersionRef
unfolding inspect_version
original env tool name = inspect_version env tool name original_tag
