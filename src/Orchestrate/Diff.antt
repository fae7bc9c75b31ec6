-- ===== src/Orchestrate/Diff.antt =====
-- internal/orchestrate/diff.go: what changed between two inventories.
pub mod Keys
pub mod Order
pub mod Classes
use hukou.Prelude.{
  sort_slice, Text, codes, Bool, true, false, not, ◌&&◌, ◌||◌, Option, none, some, List, [], ◌∷◌,
  is_nil, text_eq, text_lt, if◌then◌else◌, ◌++◌,
}

pub record SnapItem : Type 0 where
  pub name : Text
  pub path : Text
  pub source : Text
  pub version : Text
  pub sha256 : Text

pub record Change : Type 0 where
  pub name : Text
  pub path : Text
  pub source : Text
  pub before_version : Text
  pub after_version : Text
  pub before_sha256 : Text
  pub after_sha256 : Text
  pub reasons : List Text

pub record Diff : Type 0 where
  pub added : List SnapItem
  pub removed : List SnapItem
  pub changed : List Change

-- `snapKey(a) == snapKey(b)`
unfoldable pub same_key : SnapItem → SnapItem → Bool
unfolding text_eq
same_key a b = text_eq a.name b.name && text_eq a.path b.path

-- The map of a list by key: a later item replaces an earlier one.
unfoldable pub by_key : SnapItem → List SnapItem → Option SnapItem
unfolding same_key
by_key k [] = none
by_key k (it ∷ l) = elim (by_key k l) [
  | some x ↦ some x
  | none ↦ if same_key k it then some it else none
]

unfoldable pub change_reasons : SnapItem → SnapItem → List Text
unfolding text_eq
change_reasons before after =
    let content =
      if not (is_nil before.sha256)
        && not (is_nil after.sha256)
        && not (text_eq before.sha256 after.sha256)
      then codes "sha256" ∷ []
      else [] in
    if not (text_eq before.version after.version) then codes "version" ∷ content else content

abbrev pub change_of : SnapItem → SnapItem → Change
change_of b it = record {
  name = it.name;
  path = it.path;
  source = it.source;
  before_version = b.version;
  after_version = it.version;
  before_sha256 = b.sha256;
  after_sha256 = it.sha256;
  reasons = change_reasons b it;
}

-- The order by source, name and path of `sortItems` and `sortChanges`.
unfoldable pub key_less : Text → Text → Text → Text → Text → Text → Bool
unfolding text_eq text_lt
key_less s n p s' n' p' =
    if not (text_eq s s')
    then text_lt s s'
    else if not (text_eq n n')
    then text_lt n n'
    else text_lt p p'

abbrev pub item_less : SnapItem → SnapItem → Bool
item_less a b = key_less a.source a.name a.path b.source b.name b.path

abbrev pub change_less : Change → Change → Bool
change_less a b = key_less a.source a.name a.path b.source b.name b.path

-- One round of the loops: `seen` is what the other map has under the item's key.
pub keep_new : Option SnapItem → SnapItem → List SnapItem → List SnapItem
keep_new none it rest = it ∷ rest
keep_new (some b) it rest = rest

pub keep_changed : Option SnapItem → SnapItem → List Change → List Change
unfolding change_reasons
keep_changed none it rest = rest
keep_changed (some b) it rest = if is_nil (change_reasons b it) then rest else change_of b it ∷ rest

-- The loop over `after`, which appends to `added` and `changed`.
unfoldable pub added_of : List SnapItem → List SnapItem → List SnapItem
unfolding by_key keep_new
added_of before [] = []
added_of before (it ∷ l) = keep_new (by_key it before) it (added_of before l)

unfoldable pub changed_of : List SnapItem → List SnapItem → List Change
unfolding by_key keep_changed
changed_of before [] = []
changed_of before (it ∷ l) = keep_changed (by_key it before) it (changed_of before l)

-- The loop over `before`.
unfoldable pub removed_of : List SnapItem → List SnapItem → List SnapItem
unfolding by_key keep_new
removed_of after [] = []
removed_of after (it ∷ l) = keep_new (by_key it after) it (removed_of after l)

unfoldable pub compute_diff : List SnapItem → List SnapItem → Diff
unfolding added_of removed_of changed_of sort_slice key_less
compute_diff before after = record {
  added = sort_slice item_less (added_of before after);
  removed = sort_slice item_less (removed_of after before);
  changed = sort_slice change_less (changed_of before after);
}

-- `Empty`
abbrev pub is_empty : Diff → Bool
is_empty d = is_nil d.added && is_nil d.removed && is_nil d.changed
