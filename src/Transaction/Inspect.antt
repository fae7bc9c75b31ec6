-- ===== src/Transaction/Inspect.antt =====
-- `Inspect`, `CheckClean` and `CheckReadable` of internal/transaction/journal.go: what the transaction
-- root holds. The reads are taken to succeed; a failed read is an error of the program, or makes
-- `IsValidQuarantineContainer` and `isVerifiedCompletedJournal` say no.
pub mod Containers
pub mod Residue
pub mod Checks
use hukou.Prelude.{
  ℕ, zero, suc, ◌+◌, Text, codes, Bool, true, false, not, ◌&&◌, ◌||◌, Option, none, some, List, [],
  ◌∷◌, ◌++◌, ◌==◌, leb, ltb, if◌then◌else◌, is_nil, length, drop, text_eq, text_lt, has_prefix,
  all_hex, to_lower, sort_slice, ◌>>=◌, Result, ok, err,
}
use hukou.Disk.{Node, Listing, nil, entry, regular, directory, find}
use hukou.Journal.Commit.{classify_commit_marker}
use hukou.Transaction.Finish.{pending_prefix, completed_prefix, commit_file_name}

abbrev pub building_prefix : Text
building_prefix = codes ".building-"

abbrev pub quarantined_prefix : Text
quarantined_prefix = codes "quarantined-"

abbrev pub quarantined_hex_len : ℕ
quarantined_hex_len = 16

abbrev pub quarantine_meta_file_name : Text
quarantine_meta_file_name = codes "META"

abbrev pub quarantine_payload_name : Text
quarantine_payload_name = codes "payload"

-- `quarantineContainerNameValid`, and the first checks of `IsValidQuarantineContainer`
unfoldable pub quarantine_container_name_valid : Text → Bool
unfolding has_prefix to_lower text_eq all_hex
quarantine_container_name_valid name =
    length name == length quarantined_prefix + quarantined_hex_len
    && has_prefix name quarantined_prefix
    && text_eq (to_lower (drop (length quarantined_prefix) name))
        (drop (length quarantined_prefix) name)
    && all_hex (drop (length quarantined_prefix) name)

pub data Contents : Type 0 where
  only : Bool → Bool → Contents
  refused : Contents

is_regular : Node → Bool
is_regular (regular bytes mode) = true
is_regular _ = false

-- The loop over the entries of a container, with `hasMeta` and `hasPayload`.
contents : Bool → Bool → Listing → Contents
unfolding text_eq is_regular
contents has_meta has_payload nil = only has_meta has_payload
contents has_meta has_payload (entry name n l) =
    let with_meta = contents true has_payload l in
    let with_payload = contents has_meta true l in
    if text_eq name quarantine_meta_file_name
    then (if is_regular n then with_meta else refused)
    else if text_eq name quarantine_payload_name
    then with_payload
    else refused

is_complete : Contents → Bool
is_complete (only has_meta has_payload) = has_meta && has_payload
is_complete refused = false

entries : Listing → ℕ
entries nil = 0
entries (entry name n l) = suc (entries l)

pub container_valid : Option Node → Bool
unfolding contents is_complete entries
container_valid (some (directory l)) = entries l == 2 && is_complete (contents false false l)
container_valid _ = false

unfoldable pub is_valid_quarantine_container : Listing → Text → Bool
unfolding quarantine_container_name_valid container_valid find
is_valid_quarantine_container root name =
    quarantine_container_name_valid name && container_valid (find name root)

pub data Bucket : Type 0 where
  building pending completed unknown quarantined : Bucket

-- The `switch` of `Inspect`.
unfoldable pub bucket : Listing → Text → Bucket
unfolding is_valid_quarantine_container has_prefix
bucket root name =
    if has_prefix name building_prefix
    then building
    else if has_prefix name quarantined_prefix
    then (if is_valid_quarantine_container root name then quarantined else unknown)
    else if has_prefix name pending_prefix
    then pending
    else if has_prefix name completed_prefix
    then completed
    else unknown

pub record Status : Type 0 where
  pub building_names : List Text
  pub pending_names : List Text
  pub completed_names : List Text
  pub unknown_names : List Text
  pub quarantined_names : List Text

unfoldable pub entry_names : Listing → List Text
entry_names nil = []
entry_names (entry name n l) = name ∷ entry_names l

abbrev pub bucket_eq : Bucket → Bucket → Bool
bucket_eq building building = true
bucket_eq pending pending = true
bucket_eq completed completed = true
bucket_eq unknown unknown = true
bucket_eq quarantined quarantined = true
bucket_eq _ _ = false

-- What the loop of `Inspect` appends to one of the lists.
unfoldable pub in_bucket : Bucket → Listing → List Text → List Text
unfolding bucket
in_bucket b root [] = []
in_bucket b root (name ∷ names) =
    let rest = in_bucket b root names in
    if bucket_eq (bucket root name) b then name ∷ rest else rest

abbrev pub sorted_bucket : Bucket → Listing → List Text
sorted_bucket b root = sort_slice text_lt (in_bucket b root (entry_names root))

unfoldable pub inspect_listing : Listing → Status
unfolding in_bucket entry_names sort_slice text_lt
inspect_listing root = record {
  building_names = sorted_bucket building root;
  pending_names = sorted_bucket pending root;
  completed_names = sorted_bucket completed root;
  unknown_names = sorted_bucket unknown root;
  quarantined_names = sorted_bucket quarantined root;
}

abbrev empty_status : Status
empty_status = record {
  building_names = [];
  pending_names = [];
  completed_names = [];
  unknown_names = [];
  quarantined_names = [];
}

-- `unfinished` is a `PendingError`, without its status.
pub data CheckError : Type 0 where
  unfinished root_not_directory : CheckError

-- The transaction root, as `Lstat` finds it: with none there is nothing to list.
unfoldable pub inspect : Option Node → Result CheckError Status
unfolding inspect_listing
inspect none = ok empty_status
inspect (some (directory root)) = ok (inspect_listing root)
inspect (some _) = err root_not_directory

abbrev pub needs_recovery : Status → Bool
needs_recovery s = not (
    is_nil s.building_names
    && is_nil s.pending_names
    && is_nil s.completed_names
    && is_nil s.unknown_names)

abbrev pub clean_status : Status → Result CheckError Unit
clean_status s = if needs_recovery s then err unfinished else ok tt

unfoldable pub check_clean : Option Node → Result CheckError Unit
unfolding inspect
check_clean root = do status ← inspect root; clean_status status

unfoldable pub all_lower_hex : Text → Bool
all_lower_hex [] = true
all_lower_hex (c ∷ t) = (leb b'0' c && leb c b'9' || leb b'a' c && leb c b'f') && all_lower_hex t

-- `isJournalID`
unfoldable pub is_journal_id : Text → Bool
unfolding all_lower_hex
is_journal_id s = length s == 32 && all_lower_hex s

-- `hasValidCommit` of a directory, an error read as no
unfoldable pub marker_committed : Text → Option Node → Bool
unfolding classify_commit_marker
marker_committed id (some (regular bytes mode)) =
    if ltb 256 (length bytes)
    then false
    else elim (classify_commit_marker bytes id) [ ok committed ↦ committed | err e ↦ false ]
marker_committed id _ = false

directory_committed : Text → Option Node → Bool
unfolding marker_committed find
directory_committed id (some (directory l)) = marker_committed id (find commit_file_name l)
directory_committed id _ = false

-- strings.TrimPrefix
trim_prefix : Text → Text → Text
unfolding has_prefix
trim_prefix s p = if has_prefix s p then drop (length p) s else s

unfoldable pub is_verified_completed_journal : Listing → Text → Bool
unfolding is_journal_id directory_committed trim_prefix find
is_verified_completed_journal root name =
    is_journal_id (trim_prefix name completed_prefix)
    && directory_committed (trim_prefix name completed_prefix) (find name root)

-- The loop over the completed journals.
unfoldable pub all_verified : Listing → List Text → Bool
unfolding is_verified_completed_journal
all_verified root [] = true
all_verified root (name ∷ names) =
    is_verified_completed_journal root name && all_verified root names

-- What is read of the root after it was listed.
abbrev pub listed : Option Node → Listing
listed (some (directory root)) = root
listed _ = nil

-- The note that is returned says how many completed journals there are.
unfoldable pub readable_status : Listing → Status → Result CheckError (Option ℕ)
unfolding all_verified
readable_status root s =
    if not (is_nil s.building_names && is_nil s.pending_names && is_nil s.unknown_names)
    then err unfinished
    else if is_nil s.completed_names
    then ok none
    else if all_verified root s.completed_names
    then ok (some (length s.completed_names))
    else err unfinished

unfoldable pub check_readable : Option Node → Result CheckError (Option ℕ)
unfolding inspect readable_status
check_readable root = do status ← inspect root; readable_status (listed root) status
