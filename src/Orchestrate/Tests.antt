-- ===== src/Orchestrate/Tests.antt =====
-- Runs of the selection of managers and of the diff of two inventories.
use hukou.Prelude.{
  sort_slice, insert, Text, codes, false, ◌≡◌, ◌↔◌, refl, List, [], ◌∷◌, ◌++◌, map, All, ok, err,
  text_eq,
}
use hukou.Orchestrate.{Manager, registry, FilterError, has_name, permitted, filter}
use hukou.Orchestrate.Selection.{Occurs, Picks, filter_iff}
use hukou.Orchestrate.Diff.{
  SnapItem, by_key, same_key, change_reasons, change_of, added_of, changed_of, removed_of, key_less,
  compute_diff,
}
use hukou.Orchestrate.Diff.Classes.{Classifies, compute_diff-Classifies}

abbrev npm_only : List Manager
npm_only =
    record {
      name = codes "npm";
      detect_binary = codes "npm";
      commands = (codes "npm" ∷ codes "update" ∷ codes "-g" ∷ []) ∷ [];
      internal = false;
    }
    ∷ []

filter_runs : filter registry (codes "npm" ∷ codes "uv" ∷ []) (codes "uv" ∷ []) ≡ ok npm_only
unfolding filter has_name permitted text_eq
filter_runs = refl

filter_unknown :
    filter registry (codes "nmp" ∷ []) [] ≡ err (FilterError.unknown_manager (codes "nmp"))
unfolding filter has_name permitted text_eq
filter_unknown = refl

filter_iff_example :
    (filter registry (codes "npm" ∷ codes "uv" ∷ []) (codes "uv" ∷ []) ≡ ok npm_only) ↔ (
      All
        (λ n. Occurs n (map (λ m. m.name) registry))
        ((codes "npm" ∷ codes "uv" ∷ []) ++ (codes "uv" ∷ []))
      × Picks (codes "npm" ∷ codes "uv" ∷ []) (codes "uv" ∷ []) registry npm_only)
filter_iff_example = filter_iff registry (codes "npm" ∷ codes "uv" ∷ []) (codes "uv" ∷ []) npm_only

abbrev item : Text → Text → SnapItem
item name version = record {
  name = name;
  path = codes "/bin";
  source = codes "npm";
  version = version;
  sha256 = [];
}

abbrev earlier : List SnapItem
earlier = item (codes "a") (codes "1") ∷ item (codes "b") (codes "1") ∷ []

abbrev later : List SnapItem
later = item (codes "c") (codes "1") ∷ item (codes "b") (codes "2") ∷ []

diff_runs : compute_diff earlier later ≡ record {
  added = item (codes "c") (codes "1") ∷ [];
  removed = item (codes "a") (codes "1") ∷ [];
  changed = change_of (item (codes "b") (codes "1")) (item (codes "b") (codes "2")) ∷ [];
}
unfolding compute_diff added_of changed_of removed_of by_key same_key change_reasons sort_slice
    insert key_less text_eq
diff_runs = refl

compute_diff-Classifies_example : Classifies earlier later (compute_diff earlier later)
compute_diff-Classifies_example = compute_diff-Classifies earlier later
