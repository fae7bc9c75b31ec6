-- ===== src/Transaction/Beside.antt =====
-- What `applyState` of internal/transaction/recover.go changes beside the path itself: the directories
-- above it, which `durablefs.MkdirAll` makes and `removeEmptyParents` removes where they are empty,
-- and a temporary file under a fresh name.
pub mod Near
use hukou.Prelude.{
  Text, codes, Bool, true, false, ◌||◌, Option, none, some, List, [], ◌∷◌, text_eq, member,
  if◌then◌else◌,
}
use hukou.Disk.{Node, nil, directory, World, Os, update}
use hukou.Disk.Effects.{Fault, Step, done, failed, crashed, ◌>>=◌, ◌>>◌, pure, raise}
use hukou.Transaction.Errors.{TxError, not_exist, not_directory, Tx, touch, change, look}

-- A name that leads to `n`, or to nothing.
unfoldable pub place : Text → Option Node → World → World
unfolding update
place path n w = record w { live = update w.live path n }

-- `defer` of a cleanup: it runs after an error, which stays, and not after a kill.
still_failed : {A : Type 0} → TxError → Step TxError Unit → Step TxError A
still_failed e (done t, w, fs) = (failed e, w, fs)
still_failed e (failed e', w, fs) = (failed e, w, fs)
still_failed e (crashed, w, fs) = (crashed, w, fs)

cleaned : {A : Type 0} → Step TxError A → Tx Unit → Step TxError A
unfolding still_failed
cleaned (done a, w, fs) c = (done a, w, fs)
cleaned (failed e, w, fs) c = still_failed e (c w fs)
cleaned (crashed, w, fs) c = (crashed, w, fs)

unfoldable pub on_failure : {A : Type 0} → Tx A → Tx Unit → Tx A
unfolding cleaned
on_failure m c w fs = cleaned (m w fs) c

module _ (os : Os) where
  -- One directory of `MkdirAll`, after those above it.
  make_dir : Option Node → Text → Tx Unit → Tx Unit
  make_dir (some (directory l)) dir above = pure tt
  make_dir (some _) dir above = raise not_directory
  make_dir none dir above = do above; change (place dir (some (directory nil))); touch

  make_dirs : List Text → Tx Unit
  unfolding make_dir
  make_dirs [] = raise not_exist
  make_dirs (dir ∷ above) = do
    info ← look (λ w. os.follow w.live dir)
    make_dir info dir (make_dirs above)

  -- `durablefs.MkdirAll(filepath.Dir(path))`
  unfoldable pub make_parents : Text → Tx Unit
  unfolding make_dirs
  make_parents path = make_dirs (os.parents path)

  remove_found : Option Node → Text → Tx Unit
  remove_found none temp = pure tt
  remove_found (some n) temp = do change (place temp none); touch

  -- `durablefs.Remove(tmpPath)`, where a name that is not there is no error.
  unfoldable pub remove_temp : Text → Tx Unit
  unfolding remove_found
  remove_temp path = do
    found ← look (λ w. w.live (os.temp_name path))
    remove_found found (os.temp_name path)

  -- filepath.Dir
  parent_of : Text → Text
  parent_of dir = elim (os.parents dir) [ [] ↦ dir | parent ∷ above ↦ parent ]

  -- The guards of `removeEmptyParents`. A directory right below the file system's root is `origTop`.
  stops : Text → Bool
  unfolding text_eq parent_of member
  stops dir =
      text_eq dir (codes "/")
      || text_eq (parent_of dir) (codes "/")
      || text_eq dir os.home
      || text_eq dir os.data_root
      || text_eq (parent_of dir) os.data_root
      || text_eq (parent_of dir) os.home
      || member dir (os.parents os.data_root)

  remove_dir : Bool → Text → Tx Unit → Tx Unit
  remove_dir false dir above = pure tt
  remove_dir true dir above = do change (place dir none); touch; above

  -- One round, on what `ReadDir` finds.
  prune_dir : Option Node → Text → Tx Unit → Tx Unit
  unfolding remove_dir
  prune_dir none dir above = above
  prune_dir (some (directory l)) dir above = do
    empty ← look (λ w. os.is_empty w.live dir)
    remove_dir empty dir above
  prune_dir (some _) dir above = raise not_directory

  prune_dirs : List Text → Tx Unit
  unfolding stops prune_dir
  prune_dirs [] = pure tt
  prune_dirs (dir ∷ above) =
      let rest = prune_dirs above in
      if stops dir
      then pure tt
      else (do info ← look (λ w. os.follow w.live dir); prune_dir info dir rest)

  unfoldable pub remove_empty_parents : Text → Tx Unit
  unfolding prune_dirs
  remove_empty_parents path = prune_dirs (os.parents path)
