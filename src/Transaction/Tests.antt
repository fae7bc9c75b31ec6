-- ===== src/Transaction/Tests.antt =====
-- Runs of recovery and of a commit on a transaction that puts down one file, over a system whose
-- digest of bytes is the bytes.
use hukou.Prelude.{
  Text, codes, true, false, ◌||◌, ◌≡◌, inl, refl, List, [], ◌∷◌, ◌++◌, none, some, arith,
}
use hukou.Disk.{Listing, nil, entry, regular, special, directory, Live, World, Os, find}
use hukou.Transaction.Errors.{TxError}
use hukou.Disk.Effects.{
  Step, Outcome, done, ◌>>◌, ◌>>=◌, look, pure, change, effect, raise, touch, Fault, pass, short,
  cut,
}
use hukou.Disk.Holds.{Holds}
use hukou.Journal.{Kind, State, Mutation, Intent, is_base_name}
use hukou.Transaction.Match.{in_dir}
use hukou.Transaction.Match.Reads.{matches, payload_good}
use hukou.Transaction.Replace.{apply_state}
use hukou.Transaction.Replace.Effect.{Moves, apply_state-Holds}
use hukou.Transaction.Replace.Stands.{FollowsRegular, stands}
use hukou.Transaction.Converge.{converge_mutation}
use hukou.Transaction.Converge.Safety.{Converges, converge_mutation-Holds}
use hukou.Transaction.Finish.{completed_prefix, finalize_directory, recover_loaded}
use hukou.Transaction.Finish.Classify.{recover_loaded_fail_closed}
use hukou.Transaction.Finish.Roots.{Finalizes, finalize_directory-Holds}
use hukou.Transaction.Finish.Recovery.{IsSound, TwoSided, Recovers, Survives, recover_loaded_safe}
use hukou.Transaction.Handle.{Transaction, commit}
use hukou.Transaction.Handle.Marker.{Commits, Interrupted, commit_decides}
use hukou.Prelude.{
  ◌↔◌, Option, ℕ, ok, err, has_prefix, all_hex, to_lower, sort_slice, insert, text_lt, text_eq,
}
use hukou.Journal.Commit.{decision, classify_commit_marker}
use hukou.Transaction.Inspect.{
  bucket, is_valid_quarantine_container, quarantine_container_name_valid, in_bucket, entry_names,
  inspect, inspect_listing, readable_status, unfinished, check_clean, all_verified,
  is_verified_completed_journal, is_journal_id, all_lower_hex, marker_committed, check_readable,
}
use hukou.Transaction.Inspect.Checks.{
  RootLists, Clean, Readable, check_clean_iff, check_readable_iff,
}
use hukou.Prelude.{contains_byte, if◌then◌else◌, inr}
use hukou.Disk.{Node, put, remove, update}
use hukou.Transaction.Match.{
  matches_state, verify_state_payload, sha256_file, persist_matched_state,
}
use hukou.Transaction.Beside.{place, make_parents, remove_temp, remove_empty_parents, on_failure}
use hukou.Transaction.Beside.Near.{Aside}
use hukou.Transaction.Replace.{require_expected_state}
use hukou.Transaction.Finish.{
  classify_all, converge_all, verify_intent_target, rename_dir, remove_all,
}
use hukou.Journal.{states_equal}
use hukou.Prelude.{leb, length}
use hukou.Transaction.Finish.{commit_file_name, has_valid_commit}
use hukou.Transaction.Handle.{marker}
use hukou.Transaction.Handle.Decision.{has_valid_commit-marker}

abbrev os : Os
os = record {
  sha256 = λ bytes. bytes;
  follow = λ live path. live path;
  parents = λ path. codes "/bin" ∷ (codes "/" ∷ []);
  temp_name = λ path. codes "/bin/.hukou-txn-1";
  is_empty = λ live path. false;
  home = codes "/root";
  data_root = codes "/data";
}

follows : FollowsRegular os
follows live path bytes mode e = e

abbrev absent_state : State
absent_state = record { kind = Kind.absent; sha256 = []; mode = 0; link_target = []; payload = [] }

abbrev file_state : State
file_state = record {
  kind = Kind.regular;
  sha256 = codes "new";
  mode = 493;
  link_target = [];
  payload = codes "after";
}

abbrev app : Text
app = codes "/bin/app"

abbrev install : Mutation
install = record { role = codes "binary"; path = app; before = absent_state; after = file_state }

abbrev intent : Intent
intent = record {
  schema_version = 1;
  id = codes "01";
  operation = codes "install";
  name = codes "app";
  created_at = [];
  mutations = install ∷ [];
}

abbrev journal : Text
journal = codes "pending-01"

abbrev listing : Listing
listing = entry journal (directory (entry (codes "after") (regular (codes "new") 384) nil)) nil

abbrev bin_only : Live
bin_only p = if text_eq p (codes "/bin") then some (directory nil) else none

abbrev fresh : World
fresh = record { live = bin_only; root = listing }

-- Something else lies at the path.
abbrev foreign : World
foreign = record { live = λ p. some special; root = listing }

-- The file is in place.
abbrev installed : World
installed = record { live = update bin_only app (some (regular (codes "new") 493)); root = listing }

abbrev interrupted : List Fault
interrupted = pass ∷ pass ∷ pass ∷ pass ∷ short 1 ∷ []

abbrev Everywhere : Live → Type 0
Everywhere live = Unit

install-IsSound : IsSound os Everywhere install
install-IsSound = record {
  mode_before = λ e. cc;
  mode_after = λ e. omega arith;
  link_before = λ live a e. cc;
  link_after = λ live a e. cc;
  closed = λ live live' e a. tt;
}

install-TwoSided : TwoSided os Everywhere fresh.live install
unfolding stands text_eq
install-TwoSided = refl

-- The path lies neither above itself nor at its temporary file.
alone : Aside os app app → ⊥
alone (inl (inl e)) = cc
alone (inl (inr (inl e))) = cc
alone (inl (inr (inr f))) = f
alone (inr e) = cc

recover_loaded_safe_example :
    Holds
      (recover_loaded os journal intent true fresh interrupted)
      (λ _. Recovers os Everywhere follows journal true intent fresh)
      (Survives os Everywhere follows journal true (install ∷ []) fresh)
recover_loaded_safe_example =
    recover_loaded_safe os Everywhere follows journal true intent fresh interrupted tt
      (install-IsSound, tt) (tt, tt) (alone, tt, tt) (install-TwoSided, tt)

foreign_unknown :
    (matches os foreign.live app absent_state || matches os foreign.live app file_state) ≡ false
unfolding matches
foreign_unknown = refl

recover_loaded_fail_closed_example :
    Holds (recover_loaded os journal intent false foreign []) (λ _ _. ⊥) (λ w'. w' ≡ foreign)
recover_loaded_fail_closed_example =
    recover_loaded_fail_closed os journal intent false foreign [] (inl foreign_unknown)

converge_mutation-Holds_example :
    Holds
      (converge_mutation os journal install file_state fresh interrupted)
      (λ _ w'.
        Converges os journal install file_state fresh w'
        × (matches os w'.live app file_state ≡ true))
      (Converges os journal install file_state fresh)
converge_mutation-Holds_example =
    converge_mutation-Holds os journal install file_state fresh interrupted

payload_there : payload_good os fresh journal file_state ≡ true
unfolding is_base_name in_dir
payload_there = refl

apply_state-Holds_example :
    Holds
      (apply_state os journal app absent_state file_state fresh interrupted)
      (λ _. Moves os app absent_state file_state fresh)
      (Moves os app absent_state file_state fresh)
apply_state-Holds_example =
    apply_state-Holds os journal app absent_state file_state fresh interrupted payload_there

finalize_directory-Holds_example :
    Holds
      (finalize_directory journal
        (codes "01")
        fresh
        (pass ∷ pass ∷ pass ∷ pass ∷ pass ∷ cut 0 ∷ []))
      (λ _ w'.
        (w'.live ≡ fresh.live)
        × (find journal w'.root ≡ none)
        × (find (completed_prefix ++ codes "01") w'.root ≡ none))
      (Finalizes journal fresh)
finalize_directory-Holds_example =
    finalize_directory-Holds journal (codes "01") fresh
      (pass ∷ pass ∷ pass ∷ pass ∷ pass ∷ cut 0 ∷ [])

abbrev handle : Transaction
handle = record { dir = journal; intent = intent; committed = false; is_done = false }

commit_decides_example :
    Holds
      (commit os handle installed [])
      (Commits os handle installed)
      (Interrupted os handle installed)
commit_decides_example = commit_decides os handle installed [] refl refl

-- A container of the quarantine and a completed journal with its marker.
abbrev container : Text
container = codes "quarantined-0123456789abcdef"

abbrev finished : Text
finished = codes "0123456789abcdef0123456789abcdef"

abbrev residue : Option Node
residue = some (
    directory (
      entry container
        (directory (entry (codes "META") (regular [] 384) (entry (codes "payload") special nil)))
        (entry (completed_prefix ++ finished)
          (directory (entry (codes "COMMIT") (regular (decision finished) 384) nil)) nil)))

residue_readable : check_readable residue ≡ ok (some 1)
unfolding check_readable inspect inspect_listing readable_status bucket
    is_valid_quarantine_container quarantine_container_name_valid in_bucket entry_names all_verified
    is_verified_completed_journal is_journal_id all_lower_hex marker_committed
    classify_commit_marker find text_eq has_prefix all_hex to_lower sort_slice insert text_lt
residue_readable = refl

residue_unclean : check_clean residue ≡ err unfinished
unfolding check_clean inspect inspect_listing bucket is_valid_quarantine_container
    quarantine_container_name_valid in_bucket entry_names find text_eq has_prefix all_hex to_lower
    sort_slice insert text_lt
residue_unclean = refl

check_clean_iff_example : (check_clean residue ≡ ok tt) ↔ RootLists Clean residue
check_clean_iff_example = check_clean_iff residue

check_readable_iff_example :
    ((notes : Option ℕ) × (check_readable residue ≡ ok notes)) ↔ RootLists Readable residue
check_readable_iff_example = check_readable_iff residue

outcome : Step TxError (Unit {0}) → Outcome TxError (Unit {0})
outcome (o, w, fs) = o

-- Recovery without faults succeeds on both sides.
recover_runs : outcome (recover_loaded os journal intent true fresh []) ≡ done tt
unfolding outcome recover_loaded ◌>>◌ classify_all matches_state look pure verify_state_payload
    is_base_name in_dir converge_all converge_mutation states_equal apply_state place make_parents
    remove_temp remove_empty_parents on_failure sha256_file verify_intent_target finalize_directory
    rename_dir change effect raise touch ◌>>=◌ find put remove update contains_byte text_eq
    remove_all persist_matched_state require_expected_state
recover_runs = refl

rollback_runs : outcome (recover_loaded os journal intent false installed []) ≡ done tt
unfolding outcome recover_loaded ◌>>◌ classify_all matches_state look pure verify_state_payload
    is_base_name in_dir converge_all converge_mutation states_equal apply_state place make_parents
    remove_temp remove_empty_parents on_failure sha256_file verify_intent_target finalize_directory
    rename_dir change effect raise touch ◌>>=◌ find put remove update contains_byte text_eq
    remove_all persist_matched_state require_expected_state
rollback_runs = refl

-- A commit was killed after it wrote two bytes of the marker.
abbrev torn : World
torn = record {
  live = λ p. none;
  root = entry journal (directory (entry (codes "COMMIT") (marker (codes "01") 2) nil)) nil;
}

torn_there : in_dir torn journal commit_file_name ≡ some (marker (codes "01") 2)
unfolding in_dir find text_eq
torn_there = refl

has_valid_commit-marker_example :
    Holds
      (has_valid_commit journal (codes "01") torn interrupted)
      (λ b w'. (b ≡ leb (length (decision (codes "01"))) 2) × (w' ≡ torn))
      (λ w'. w' ≡ torn)
    × (has_valid_commit journal (codes "01") torn []
        ≡ (done (leb (length (decision (codes "01"))) 2), torn, []))
has_valid_commit-marker_example =
    has_valid_commit-marker journal (codes "01") 2 torn interrupted torn_there refl
