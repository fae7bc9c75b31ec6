-- ===== src/Manifest/Samples.antt =====
-- Concrete entries for the tests of the manifest and of the activations.
use hukou.Prelude.{ℕ, zero, suc, pos, Text, codes, true, false, not, none, [], ◌∷◌, is_nil}
use hukou.Policy.{mode_semver, channel_stable}
use hukou.Manifest.{Event, Entry, Manifest, Formats}

abbrev pub repeated : ℕ → ℕ → Text
repeated zero c = []
repeated (suc n) c = c ∷ repeated n c

-- Any text but the empty one is a timestamp, and all have one digest.
abbrev pub plain : Formats
plain = record {
  is_rfc3339 = λ s. not (is_nil s);
  is_print = λ s. true;
  sha256_hex = λ s. repeated 64 b'd';
}

abbrev pub digest_a : Text
digest_a = repeated 64 b'a'

abbrev pub digest_b : Text
digest_b = repeated 64 b'b'

-- An entry that was not adopted yet.
abbrev pub blank : Entry
blank = record {
  name = codes "tool";
  path = codes "/bin/tool";
  repo = codes "o/tool";
  tag = codes "v1";
  sha256 = digest_a;
  upstream = [];
  adopted_at = codes "t0";
  updated_at = codes "t0";
  asset_name = [];
  asset_sha256 = [];
  checksum_asset = [];
  checksum_verified = false;
  active_activation_id = [];
  activations = [];
  update_policy = record { mode = []; channel = []; pinned_tag = [] };
  retention = none;
  archive_exe = [];
  adopted_sha256 = [];
}

abbrev pub first_event : Event
first_event = record {
  id = codes "e1";
  parent_id = [];
  operation = codes "adopt";
  tag = codes "v1";
  sha256 = digest_a;
  activated_at = codes "t0";
  reverts_id = [];
}

abbrev pub tool : Entry
tool = record blank {
  active_activation_id = codes "e1";
  activations = first_event ∷ [];
  update_policy = record { mode = mode_semver; channel = channel_stable; pinned_tag = [] };
}

-- Another entry, of another name and path.
abbrev pub other : Entry
other = record tool { name = codes "other"; path = codes "/bin/other" }

-- The tool at a version that no event stands for.
abbrev pub changed : Entry
changed = record tool { tag = codes "v2"; sha256 = digest_b; updated_at = codes "t1" }

abbrev pub manifest : Manifest
manifest = record {
  schema_version = pos 2;
  retention = record { rollback_depth = pos 2 };
  entries = tool ∷ [];
}

abbrev pub legacy : Manifest
legacy = record manifest { schema_version = pos 1; entries = blank ∷ [] }
