-- ===== src/Transaction/Replace.antt =====
-- `applyState` of internal/transaction/recover.go and the helpers that it calls, with the directories
-- and the temporary file beside the path that they make and remove.
pub mod Effect
pub mod Stands
use Prim.Native.Nat.{◌%◌}
use hukou.Prelude.{
  ℕ, Text, Bool, true, false, Option, none, some, text_eq, List, [], take, if◌then◌else◌,
}
use hukou.Disk.{Node, regular, symlink, World, Os, update}
use hukou.Disk.Effects.{◌>>=◌, ◌>>◌, pure, raise, require}
use hukou.Journal.{Kind, State, kind_eq}
use hukou.Transaction.Errors.{
  io, not_exist, exists, not_regular, payload_changed, drift, unknown_kind, Tx, touch, change, look,
}
use hukou.Disk.Effects
use hukou.Transaction.Beside.{place, on_failure, make_parents, remove_temp, remove_empty_parents}
use hukou.Transaction.Match.{in_dir, matches_state}

abbrev is_none : Option Node → Bool
is_none none = true
is_none (some n) = false

-- `os.Rename` of the temporary file over its destination.
put_over : Text → Text → Node → World → World
unfolding place
put_over temp path n w = place path (some n) (place temp none w)

-- `os.Link`, and `os.Symlink` at its destination: the name must be free.
create_new : Text → Node → Tx Unit
create_new path n = do
  old ← look (λ w. w.live path)
  require (is_none old) exists
  change (place path (some n))

-- `durablefs.Remove`
remove_path : Text → Tx Unit
remove_path path = do
  old ← look (λ w. w.live path)
  require (if is_none old then false else true) not_exist
  change (place path none)
  touch

-- The bytes of a journal payload, opened by its name.
payload_bytes : Option Node → Tx Text
payload_bytes none = raise not_exist
payload_bytes (some (regular bytes mode)) = pure bytes
payload_bytes (some _) = raise not_regular

module _ (os : Os) where
  unfoldable pub require_expected_state : Text → State → Tx Unit
  require_expected_state path expected = do
    same ← matches_state os path expected
    require same (drift path)

  -- `stageRegular` once the temporary file is there: the copy, its mode, and the comparison.
  copy_regular : Text → Text → Text → ℕ → Text → Tx Node
  unfolding payload_bytes place
  copy_regular dir source path mode bytes = do
    Effects.effect io (λ k. place (os.temp_name path) (some (regular (take k bytes) 384)))
        (place (os.temp_name path) (some (regular bytes 384)))
    change (place (os.temp_name path) (some (regular bytes (mode % 512))))
    touch
    again ← look (λ w. in_dir w dir source)
    want ← payload_bytes again
    require (text_eq (os.sha256 bytes) (os.sha256 want)) payload_changed
    pure (regular bytes (mode % 512))

  -- `source` is a payload of the journal directory `dir`. The node of the temporary file is returned.
  stage_regular : Text → Text → Text → ℕ → Tx Node
  unfolding payload_bytes place copy_regular
  stage_regular dir source path mode = do
    info ← look (λ w. in_dir w dir source)
    bytes ← payload_bytes info
    change (place (os.temp_name path) (some (regular [] 384)))
    on_failure (copy_regular dir source path mode bytes) (remove_temp os path)

  install_regular_no_replace : Text → Text → Text → ℕ → Tx Unit
  unfolding stage_regular create_new
  install_regular_no_replace dir source destination mode = do
    make_parents os destination
    staged ← stage_regular dir source destination mode
    on_failure (create_new destination staged >> touch) (remove_temp os destination)
    remove_temp os destination

  -- The replacement of a path by the temporary file, with its guard.
  rename_over : Text → Node → State → Tx Unit
  unfolding put_over
  rename_over destination n expected = do
    require_expected_state destination expected
    change (put_over (os.temp_name destination) destination n)
    touch

  replace_regular : Text → Text → Text → ℕ → State → Tx Unit
  unfolding stage_regular rename_over
  replace_regular dir source destination mode expected = do
    make_parents os destination
    staged ← stage_regular dir source destination mode
    on_failure (rename_over destination staged expected) (remove_temp os destination)

  replace_symlink : Text → Text → State → Tx Unit
  unfolding rename_over place
  replace_symlink target destination expected = do
    make_parents os destination
    change (place (os.temp_name destination) (some (symlink target)))
    on_failure (rename_over destination (symlink target) expected) (remove_temp os destination)

  install_symlink_no_replace : Text → Text → Tx Unit
  unfolding create_new
  install_symlink_no_replace target destination = do
    make_parents os destination
    create_new destination (symlink target)
    touch

  apply_kind : Text → Text → State → State → Kind → Tx Unit
  unfolding install_regular_no_replace replace_regular replace_symlink install_symlink_no_replace
      remove_path
  apply_kind dir path current target Kind.absent = do
    require_expected_state path current
    remove_path path
    remove_empty_parents os path
  apply_kind dir path current target Kind.regular =
      if kind_eq current.kind Kind.absent
      then install_regular_no_replace dir target.payload path target.mode
      else replace_regular dir target.payload path target.mode current
  apply_kind dir path current target Kind.symlink =
      if kind_eq current.kind Kind.absent
      then install_symlink_no_replace target.link_target path
      else replace_symlink target.link_target path current
  apply_kind dir path current target (Kind.unknown k) = raise unknown_kind

  unfoldable pub apply_state : Text → Text → State → State → Tx Unit
  unfolding apply_kind
  apply_state dir path current target = apply_kind dir path current target target.kind
