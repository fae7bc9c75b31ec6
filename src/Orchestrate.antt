-- ===== src/Orchestrate.antt =====
-- internal/orchestrate: the registry of managers (registry.go), and the difference of two inventories
-- (diff.go).
pub mod Selection
pub mod Diff
mod Tests
use hukou.Prelude.{
  Text, codes, Bool, true, false, not, ◌&&◌, ◌||◌, Option, none, some, List, [], ◌∷◌, ◌++◌, map,
  is_nil, text_eq, if◌then◌else◌, Result, ok, err, refuse_if, ◌>>=◌, ◌>>◌,
}

pub record Manager : Type 0 where
  pub name : Text
  pub detect_binary : Text
  pub commands : List (List Text)
  pub internal : Bool

-- A manager of the registry that runs another program.
abbrev external : Text → Text → List (List Text) → Manager
external name binary commands = record {
  name = name;
  detect_binary = binary;
  commands = commands;
  internal = false;
}

abbrev pub registry : List Manager
registry =
    external (codes "brew") (codes "brew")
      ((codes "brew" ∷ codes "update" ∷ []) ∷ (codes "brew" ∷ codes "upgrade" ∷ []) ∷ [])
    ∷ external (codes "npm") (codes "npm") ((codes "npm" ∷ codes "update" ∷ codes "-g" ∷ []) ∷ [])
    ∷ external (codes "pnpm") (codes "pnpm")
        ((codes "pnpm" ∷ codes "update" ∷ codes "-g" ∷ []) ∷ [])
    ∷ external (codes "rustup") (codes "rustup") ((codes "rustup" ∷ codes "update" ∷ []) ∷ [])
    ∷ external (codes "cargo-install") (codes "cargo-install-update")
        ((codes "cargo-install-update" ∷ codes "-a" ∷ []) ∷ [])
    ∷ external (codes "uv") (codes "uv")
        ((codes "uv" ∷ codes "tool" ∷ codes "upgrade" ∷ codes "--all" ∷ []) ∷ [])
    ∷ external (codes "pipx") (codes "pipx") ((codes "pipx" ∷ codes "upgrade-all" ∷ []) ∷ [])
    ∷ external (codes "gh-extensions") (codes "gh")
        ((codes "gh" ∷ codes "extension" ∷ codes "upgrade" ∷ codes "--all" ∷ []) ∷ [])
    ∷ record {
      name = codes "hukou";
      detect_binary = [];
      commands = (codes "hukou" ∷ codes "upgrade" ∷ codes "--all" ∷ []) ∷ [];
      internal = true;
    }
    ∷ []

pub record Detected : Type 0 where
  pub manager : Manager
  pub available : Bool
  pub binary_path : Text

-- One round of `Detect`; `look_path` finds an executable, or fails.
pub detect_one : (Text → Option Text) → Manager → Detected
detect_one look_path m =
    if m.internal
    then record { manager = m; available = true; binary_path = [] }
    else elim (look_path m.detect_binary) [
      | some p ↦ record { manager = m; available = true; binary_path = p }
      | none ↦ record { manager = m; available = false; binary_path = [] }
    ]

unfoldable pub detect : (Text → Option Text) → List Manager → List Detected
unfolding detect_one
detect look_path [] = []
detect look_path (m ∷ ms) = detect_one look_path m ∷ detect look_path ms

pub data FilterError : Type 0 where
  unknown_manager : Text → FilterError

-- A set made of a list of names.
unfoldable pub has_name : Text → List Text → Bool
unfolding text_eq
has_name name [] = false
has_name name (n ∷ ns) = text_eq name n || has_name name ns

pub check_names : List Text → List Text → Result FilterError Unit
unfolding has_name
check_names known [] = ok tt
check_names known (n ∷ ns) = do
  refuse_if (not (has_name n known)) (unknown_manager n)
  check_names known ns

-- The conditions of the loop that a manager passes.
pub is_permitted : List Text → List Text → Manager → Bool
unfolding has_name
is_permitted only skip m = (is_nil only || has_name m.name only) && not (has_name m.name skip)

unfoldable pub permitted : List Text → List Text → List Manager → List Manager
unfolding is_permitted
permitted only skip [] = []
permitted only skip (m ∷ ms) =
    let rest = permitted only skip ms in if is_permitted only skip m then m ∷ rest else rest

unfoldable pub filter : List Manager → List Text → List Text → Result FilterError (List Manager)
unfolding check_names permitted
filter managers only skip = do
  check_names (map (λ m. m.name) managers) (only ++ skip)
  ok (permitted only skip managers)
