-- ===== src/Manifest/Entries.antt =====
-- internal/manifest/manifest.go: `Get`, `Put`, `Remove` and `EffectiveRetention`. An entry is found by its
-- name with `slices.IndexFunc`; the one that a pointer refers to is the value itself.
use hukou.Prelude.{
  Text, Bool, true, false, Option, none, some, List, [], ◌∷◌, if◌then◌else◌, text_eq,
}
use hukou.Manifest.{Entry, Manifest, RetentionPolicy}

unfoldable pub find_entry : Text → List Entry → Option Entry
unfolding text_eq
find_entry name [] = none
find_entry name (e ∷ es) = if text_eq e.name name then some e else find_entry name es

unfoldable pub get : Manifest → Text → Option Entry
unfolding find_entry
get m name = find_entry name m.entries

-- The first entry with the name is replaced; where there is none, the new one stands last.
unfoldable pub put_entry : Entry → List Entry → List Entry
unfolding text_eq
put_entry entry [] = entry ∷ []
put_entry entry (e ∷ es) = if text_eq e.name entry.name then entry ∷ es else e ∷ put_entry entry es

unfoldable pub put : Manifest → Entry → Manifest
unfolding put_entry
put m entry = record m { entries = put_entry entry m.entries }

unfoldable pub delete_entry : Text → List Entry → List Entry
unfolding text_eq
delete_entry name [] = []
delete_entry name (e ∷ es) = if text_eq e.name name then es else e ∷ delete_entry name es

abbrev pub is_found : Option Entry → Bool
is_found none = false
is_found (some e) = true

-- Whether an entry was removed, and the manifest after.
unfoldable pub remove : Manifest → Text → Bool × Manifest
unfolding find_entry delete_entry
remove m name =
    (is_found (find_entry name m.entries), record m { entries = delete_entry name m.entries })

abbrev own_or : Option RetentionPolicy → RetentionPolicy → RetentionPolicy
own_or (some own) general = own
own_or none general = general

unfoldable pub effective_retention : Manifest → Option Entry → RetentionPolicy
effective_retention m none = m.retention
effective_retention m (some entry) = own_or entry.retention m.retention
