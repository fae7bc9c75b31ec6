-- ===== src/Lib.antt =====
-- hukou, a manager of command-line binaries: its transaction journal, its manifest with the lineage
-- of versions of each binary, the pruning of old versions, its choice of releases, the check of
-- their digests, and the inventory of `hukou up`.
--
-- The program changes several resources at once (a binary, links, the manifest) through a
-- write-ahead journal. `Begin` writes a directory pending-<id> with an intent and the payloads of
-- both states of each resource; `Apply` moves a resource from its before to its after state;
-- `Commit` checks that all are in the after state and creates the marker COMMIT; `Finalize` removes
-- the directory. After a kill, recovery reads the marker and moves every resource to the side that
-- was decided. Which release an upgrade installs is decided by the package versionpolicy, and
-- whether the asset may be trusted by the package verify. The package activation records each
-- version in the entry of the binary, and the manifest, which holds the entries, refuses one whose
-- record is not sound. `hukou up` runs the managers that orchestrate selects and reports the
-- difference of the inventories before and after.
--
-- The files:
--   Prelude      names of the library, and tests, lists, bytes and results that the modules share.
--   Disk         the file system that internal/durablefs and internal/safeopen work on: a map of the
--                paths outside the journal, the tree of the transaction root, and effects that read a
--                schedule of faults (Disk/Effects). Disk/Holds has the rules for postconditions.
--   Journal      internal/transaction/journal.go: State, Mutation, Intent, `validateIntent` and
--                `validateState`; Journal/Commit has `ClassifyCommitMarker` of recover.go.
--   Transaction  internal/transaction/recover.go and the methods of Transaction. Match has
--                `matchesState`, `verifyStatePayload` and `persistMatchedState`; Replace has
--                `applyState` and its helpers, over Beside, which has the temporary file and the
--                directories that they make and remove (`removeEmptyParents`, and `MkdirAll` of
--                internal/durablefs); Converge has `convergeMutation`; Finish has
--                `recoverLoaded`, `verifyIntentTarget`, `hasValidCommit` and `finalizeDirectory`;
--                Handle has `Apply`, `Verify`, `VerifyAfter`, `Commit`, `Abort` and `Finalize`;
--                Inspect has `Inspect`, `CheckClean` and `CheckReadable` of journal.go.
--   Manifest     internal/manifest/manifest.go: entries, their activation events, `Validate` and what it
--                calls; Manifest/Entries has `Get`, `Put`, `Remove` and `EffectiveRetention`,
--                Manifest/Migration `Normalize`, `PrepareEntry` and the checks of `Decode`.
--   Activation   internal/activation/activation.go: what is recorded in an entry when a version is
--                adopted, upgraded to, rolled back to or restored, and the way back to earlier ones.
--   Store        internal/store/store.go: how the versions of a tool are read and listed; Store/Prune has
--                `PlanPrune`, `ApplyPrunePlan` and `PruneHistory`.
--   Command      cmd/upgrade.go: `pruneActivationHistory`, which joins the journal, the manifest, the
--                lineage and the store.
--   Policy       internal/versionpolicy/policy.go, whole.
--   Verify       internal/verify/verify.go: checksum files, and the comparison of an asset's digest.
--   Orchestrate  internal/orchestrate/registry.go, and in Orchestrate/Diff diff.go.
--
-- State and faults: an operation takes the disk and a list of faults, one for each system call, and
-- gives an outcome (done, failed, or crashed), the disk and the faults left. A call succeeds, fails
-- with no effect, fails after a part of its effect, or is cut short by a kill of the process. After
-- the end of the list all calls succeed. A statement for every list is one for each moment at which
-- a call may fail or the process may be killed. Loops are recursion on the list of resources or of
-- releases, so no fuel is used but for trimming white space, where the length is enough, since each
-- round drops a byte.
--
-- Parameters: the SHA-256 digest and the resolution of links are fields of the record Os. Where a
-- theorem on recovery needs it, following a path that is a regular file leads to that file, and the
-- links of a transaction lead to files with the recorded bytes. The package golang.org/x/mod/semver
-- is a record of functions, and its order is taken to be the order of a precedence: reversing the
-- arguments reverses the result, and not being lower is transitive. The parser of timestamps, the
-- test for printable runes and the digest that makes up an id are the record Formats of the module
-- Manifest; where it is needed, an empty text is no timestamp and a digest is 64 hexadecimal digits.
-- The store's record Env has the comparison of names that ignores case, and the digest, of which no
-- property is assumed.
--
-- The store of a tool is the list of its directory's entries, and a removal that fails leaves an
-- arbitrary directory or none, so a plan is applied under a list of removals, as elsewhere under a
-- list of faults.
--
-- Entries and manifests are values: the operation that changes one in place returns the new one, and
-- an error leaves the old, since each operation checks all before it writes.
--
-- Not modelled: the loss of unsynced data at a power failure, writes of other processes while an
-- operation runs, JSON, random ids and the names of temporary files (each path has one, which is given), the copying of files into the store, its pruning by count, the texts of error
-- messages, and the packages that only read the system or print. Paths are those of Unix. A digest
-- is compared as a text, and equal digests are not taken to mean equal bytes.
pub mod Activation
pub mod Command
pub mod Disk
pub mod Journal
pub mod Manifest
pub mod Orchestrate
pub mod Policy
pub mod Prelude
pub mod Store
pub mod Transaction
pub mod Verify
