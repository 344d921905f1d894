-- ===== src/Harness/Evidence.antt =====
-- harness/include/harness_evidence.h and src/harness_evidence.cpp: the manifest, its text, its hash and its schema.
use litenyx.Common.{Bool, false, not, List, [], ◌∷◌, ◌++◌, if◌then◌else◌}
use litenyx.Commitment.{same_bytes}
use litenyx.Harness.Bytes.{Text, codes, is_empty}

pub record TestResult : Type 0 where
  pub test_name : Text
  pub passed : Bool
  pub details : Text

pub record EvidenceEntry : Type 0 where
  pub key : Text
  pub value : Text

pub record EvidenceManifest : Type 0 where
  pub task_id : Text
  pub authority_envelope_hash : Text
  pub h_msf : Text
  pub timestamps : List Text
  pub canonical_input_hashes : List EvidenceEntry
  pub test_results : List TestResult
  pub negative_control_results : List TestResult
  pub errors : List Text
  pub manifest_hash : Text

first_timestamp : List Text → Text
first_timestamp [] = codes "unknown"
first_timestamp (t ∷ ts) = t

-- `"," ` after each element but the last.
comma : {A : Type 0} → List A → Text
comma [] = []
comma (x ∷ xs) = codes ","

test_lines : List TestResult → Text
unfolding comma
test_lines [] = []
test_lines (t ∷ ts) =
    codes "    {\n      \"test_name\": \""
    ++ t.test_name
    ++ codes "\",\n      \"passed\": "
    ++ (if t.passed then codes "true" else codes "false")
    ++ codes ",\n      \"details\": \""
    ++ t.details
    ++ codes "\"\n    }"
    ++ comma ts
    ++ codes "\n"
    ++ test_lines ts

error_lines : List Text → Text
unfolding comma
error_lines [] = []
error_lines (e ∷ es) = codes "    \"" ++ e ++ codes "\"" ++ comma es ++ codes "\n" ++ error_lines es

-- The text before the manifest's own hash, and the text after it.
unfoldable pub serialize_head : EvidenceManifest → Text
serialize_head m =
    codes "{\n  \"task_id\": \""
    ++ m.task_id
    ++ codes "\",\n  \"authority_envelope_hash\": \""
    ++ m.authority_envelope_hash
    ++ codes "\",\n  \"H_MSF\": \""
    ++ m.h_msf
    ++ codes "\",\n  \"manifest_hash\": \""

unfoldable pub serialize_tail : EvidenceManifest → Text
unfolding first_timestamp test_lines error_lines
serialize_tail m =
    codes "\",\n  \"timestamp\": \""
    ++ first_timestamp m.timestamps
    ++ codes "\",\n  \"test_results\": [\n"
    ++ test_lines m.test_results
    ++ codes "  ],\n  \"negative_control_results\": [\n"
    ++ test_lines m.negative_control_results
    ++ codes "  ],\n  \"errors\": [\n"
    ++ error_lines m.errors
    ++ codes "  ]\n}\n"

unfoldable pub serialize_manifest : EvidenceManifest → Text
serialize_manifest m = serialize_head m ++ (m.manifest_hash ++ serialize_tail m)

-- The one schema check; the name of the schema does not matter to it.
unfoldable pub validate_manifest : EvidenceManifest → Bool
validate_manifest m =
    if is_empty m.task_id
    then false
    else if is_empty m.h_msf
    then false
    else not (is_empty m.manifest_hash)

module _ (sha256 : Text → Text) where
  unfoldable pub compute_manifest_hash : EvidenceManifest → Text
  compute_manifest_hash m = sha256 (serialize_manifest m)

  -- The file that it also writes is not modelled.
  unfoldable pub finalize_manifest : EvidenceManifest → EvidenceManifest
  finalize_manifest m = record {
    task_id = m.task_id;
    authority_envelope_hash = m.authority_envelope_hash;
    h_msf = m.h_msf;
    timestamps = m.timestamps;
    canonical_input_hashes = m.canonical_input_hashes;
    test_results = m.test_results;
    negative_control_results = m.negative_control_results;
    errors = m.errors;
    manifest_hash = compute_manifest_hash m;
  }

  unfoldable pub verify_manifest_integrity : EvidenceManifest → Bool
  verify_manifest_integrity m = same_bytes (compute_manifest_hash m) m.manifest_hash
