-- ===== src/Disk.antt =====
-- The disk as internal/transaction uses it: the paths outside the journal, and the transaction root.
-- internal/durablefs and internal/safeopen are modelled in the module Effects, over what the system
-- calls do. Paths outside the journal form a map; the transaction root is a tree of entries, since
-- the program lists it.
pub mod Effects
pub mod Holds
pub mod Tree
use hukou.Prelude.{ℕ, List, Text, Bool, Option, none, some, text_eq, if◌then◌else◌}

-- What `Lstat` finds under a name: a regular file with its bytes and permission bits, a symbolic
-- link, a directory, or something else (a pipe, a device, a socket).
mutual
  pub data Node : Type 0 where
    regular : Text → ℕ → Node
    symlink : Text → Node
    special : Node
    directory : Listing → Node

  pub data Listing : Type 0 where
    nil : Listing
    entry : Text → Node → Listing → Listing

abbrev pub Live : Type 0
Live = Text → Option Node

unfoldable pub update : Live → Text → Option Node → Live
update live p n q = if text_eq q p then n else live q

-- The entry of a directory with a name.
unfoldable pub find : Text → Listing → Option Node
find name nil = none
find name (entry m n l) = if text_eq name m then some n else find name l

unfoldable pub remove : Text → Listing → Listing
remove name nil = nil
remove name (entry m n l) =
    let rest = remove name l in if text_eq name m then rest else entry m n rest

-- A name stands at most once: what was there is replaced.
unfoldable pub put : Text → Node → Listing → Listing
unfolding remove
put name n l = entry name n (remove name l)

pub record World : Type 0 where
  pub live : Live
  pub root : Listing

-- What the operating system and the standard library decide: the SHA-256 digest of bytes, in
-- hexadecimal; the node that a path leads to when its links are followed; the directories above a path
-- by `filepath.Dir`, nearest first; the fresh name beside a path that a temporary file gets; whether
-- `ReadDir` finds no entry in a directory; and the home directory and the data root, cleaned.
pub record Os : Type 0 where
  pub sha256 : Text → Text
  pub follow : Live → Text → Option Node
  pub parents : Text → List Text
  pub temp_name : Text → Text
  pub is_empty : Live → Text → Bool
  pub home : Text
  pub data_root : Text
