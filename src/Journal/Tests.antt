-- ===== src/Journal/Tests.antt =====
-- Runs of the validation of an intent and of the classification of a marker.
use hukou.Prelude.{all_hex, Text, codes, true, false, ◌≡◌, ◌↔◌, refl, [], ◌∷◌, ok}
use hukou.Journal.{Kind, State, Mutation, Intent, validate_intent, validate_mutations, is_base_name}
use hukou.Journal.Commit.{
  decision, classify_commit_marker, classify_commit_marker_lem, StrictPrefix,
}
use hukou.Journal.Intents.{IsValidIntent, validate_intent_iff}

abbrev absent_state : State
absent_state = record { kind = Kind.absent; sha256 = []; mode = 0; link_target = []; payload = [] }

abbrev digest : Text
digest = codes "0123456789abcdef0123456789abcdef0123456789abcdef0123456789abcdef"

abbrev file_state : State
file_state = record {
  kind = Kind.regular;
  sha256 = digest;
  mode = 493;
  link_target = [];
  payload = codes "after-00";
}

abbrev install : Mutation
install = record {
  role = codes "binary";
  path = codes "/bin/app";
  before = absent_state;
  after = file_state;
}

abbrev intent : Intent
intent = record {
  schema_version = 1;
  id = codes "0123456789abcdef0123456789abcdef";
  operation = codes "install";
  name = codes "app";
  created_at = [];
  mutations = install ∷ [];
}

validate_intent_iff_example : (validate_intent intent ≡ ok tt) ↔ IsValidIntent intent
validate_intent_iff_example = validate_intent_iff intent

classify_commit_marker_lem_example :
    ((classify_commit_marker (codes "ab") (codes "abc") ≡ ok true)
      ↔ (codes "ab" ≡ decision (codes "abc")))
    × ((classify_commit_marker (codes "ab") (codes "abc") ≡ ok false)
        ↔ StrictPrefix (codes "ab") (decision (codes "abc")))
classify_commit_marker_lem_example = classify_commit_marker_lem (codes "ab") (codes "abc")

intent_runs : validate_intent intent ≡ ok tt
unfolding validate_intent all_hex validate_mutations is_base_name
intent_runs = refl
