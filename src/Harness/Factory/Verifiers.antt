-- ===== src/Harness/Factory/Verifiers.antt =====
-- harness/src/harness_authority.cpp: the envelopes that `AuthorityFactory` creates for H5 to H8.
use litenyx.Common.{true, false, [], ◌∷◌}
use litenyx.Harness.{codes, AuthorityEnvelope, executable, preparation_only}

abbrev pub create_h5 : AuthorityEnvelope
create_h5 = record {
  task_id = codes "H5-missing-telemetry-handler";
  operation_class = codes "missing-data-handling";
  source = codes "ORCH-HARNESS-BUILD-1";
  state = preparation_only;
  discover = true;
  mutate = false;
  promote = false;
  allowed_operations =
      codes "detect-missing-telemetry"
      ∷ codes "apply-conservative-defaults"
      ∷ codes "document-missing-data"
      ∷ [];
  prohibited_operations =
      codes "modify-conservative-defaults" ∷ codes "modify-documentation-format" ∷ [];
  immutable_inputs =
      codes "H_MSF:fa003d0f52f88414ecf3f206deb6f2ebf0dc34b469b34b525f38a0d6eff574fc"
      ∷ codes "MSF-CONTRACT-FREEZE-1:missing-data-section"
      ∷ [];
  dependencies = codes "H4-rentability-external-telemetry" ∷ [];
  worktree = [];
  allowed_paths = [];
  prohibited_paths = codes "*" ∷ [];
  required_evidence = codes "missing-data-report" ∷ codes "conservative-default-application" ∷ [];
  evidence_manifest_schema = codes "missing-data-manifest";
  required_passes = codes "missing-data-detection-test" ∷ codes "conservative-default-test" ∷ [];
  required_controls = [];
  invalidation_conditions =
      codes "incorrect-missing-data-detection" ∷ codes "non-conservative-default" ∷ [];
}

abbrev pub create_h6 : AuthorityEnvelope
create_h6 = record {
  task_id = codes "H6-anti-gaming-executor";
  operation_class = codes "anti-gaming-testing";
  source = codes "ORCH-HARNESS-BUILD-1";
  state = executable;
  discover = true;
  mutate = true;
  promote = false;
  allowed_operations =
      codes "apply-metric-mutations"
      ∷ codes "test-gameability"
      ∷ codes "compute-statistical-significance"
      ∷ codes "detect-gaming"
      ∷ [];
  prohibited_operations =
      codes "modify-anti-gaming-rules" ∷ codes "modify-significance-threshold" ∷ [];
  immutable_inputs =
      codes "H_MSF:fa003d0f52f88414ecf3f206deb6f2ebf0dc34b469b34b525f38a0d6eff574fc"
      ∷ codes "MSF-CONTRACT-FREEZE-1:anti-gaming-section"
      ∷ [];
  dependencies =
      codes "H2-nativepow-auxpow-executor" ∷ codes "H3-fork-reorg-displacement-engine" ∷ [];
  worktree = codes "h6-anti-gaming-worktree";
  allowed_paths =
      codes "harness/src/h6_*.cpp"
      ∷ codes "harness/src/h6_*.h"
      ∷ codes "harness/test/h6_*.cpp"
      ∷ [];
  prohibited_paths = codes "litenyx/litenyx/*.h" ∷ codes "litenyx/cpp_reference/test/*.cpp" ∷ [];
  required_evidence =
      codes "mutation-results"
      ∷ codes "gameability-detection"
      ∷ codes "statistical-significance"
      ∷ [];
  evidence_manifest_schema = codes "anti-gaming-manifest";
  required_passes = codes "gameability-detection-test" ∷ codes "mutation-sensitivity-test" ∷ [];
  required_controls = codes "known-gameable-metric-injection" ∷ [];
  invalidation_conditions =
      codes "non-deterministic-mutation" ∷ codes "incorrect-gameability-detection" ∷ [];
}

abbrev pub create_h7 : AuthorityEnvelope
create_h7 = record {
  task_id = codes "H7-deterministic-evidence-emitter";
  operation_class = codes "evidence-emission";
  source = codes "ORCH-HARNESS-BUILD-1";
  state = executable;
  discover = true;
  mutate = true;
  promote = false;
  allowed_operations =
      codes "emit-evidence-manifest"
      ∷ codes "compute-evidence-hash"
      ∷ codes "verify-evidence-integrity"
      ∷ codes "replay-evidence"
      ∷ [];
  prohibited_operations = codes "modify-evidence-schema" ∷ codes "modify-hash-algorithm" ∷ [];
  immutable_inputs =
      codes "H_MSF:fa003d0f52f88414ecf3f206deb6f2ebf0dc34b469b34b525f38a0d6eff574fc"
      ∷ codes "MSF-CONTRACT-FREEZE-1:evidence-section"
      ∷ [];
  dependencies =
      codes "H1-canonical-state-generator"
      ∷ codes "H2-nativepow-auxpow-executor"
      ∷ codes "H3-fork-reorg-displacement-engine"
      ∷ codes "H4-rentability-external-telemetry"
      ∷ codes "H5-missing-telemetry-handler"
      ∷ codes "H6-anti-gaming-executor"
      ∷ [];
  worktree = codes "h7-evidence-worktree";
  allowed_paths =
      codes "harness/src/h7_*.cpp"
      ∷ codes "harness/src/h7_*.h"
      ∷ codes "harness/test/h7_*.cpp"
      ∷ codes "harness/evidence/*.json"
      ∷ [];
  prohibited_paths = codes "litenyx/litenyx/*.h" ∷ codes "litenyx/cpp_reference/test/*.cpp" ∷ [];
  required_evidence = codes "evidence-manifest-hash" ∷ codes "replay-verification" ∷ [];
  evidence_manifest_schema = codes "evidence-manifest-schema";
  required_passes = codes "evidence-determinism-test" ∷ codes "evidence-replay-test" ∷ [];
  required_controls = codes "corrupted-evidence-injection" ∷ codes "mismatched-hash-injection" ∷ [];
  invalidation_conditions =
      codes "non-deterministic-evidence" ∷ codes "evidence-integrity-failure" ∷ [];
}

abbrev pub create_h8 : AuthorityEnvelope
create_h8 = record {
  task_id = codes "H8-independent-conformance-verifier";
  operation_class = codes "independent-verification";
  source = codes "ORCH-HARNESS-BUILD-1";
  state = executable;
  discover = true;
  mutate = true;
  promote = true;
  allowed_operations =
      codes "verify-contract-conformance"
      ∷ codes "verify-determinism"
      ∷ codes "verify-replayability"
      ∷ codes "verify-telemetry"
      ∷ codes "verify-mutation-sensitivity"
      ∷ codes "verify-evidence-integrity"
      ∷ codes "verify-independent-implementation"
      ∷ [];
  prohibited_operations =
      codes "modify-verification-logic" ∷ codes "modify-contract-reference" ∷ [];
  immutable_inputs =
      codes "H_MSF:fa003d0f52f88414ecf3f206deb6f2ebf0dc34b469b34b525f38a0d6eff574fc"
      ∷ codes "MSF-CONTRACT-FREEZE-1"
      ∷ codes "MSF-CONTRACT-REFREEZE-1"
      ∷ [];
  dependencies =
      codes "H1-canonical-state-generator"
      ∷ codes "H2-nativepow-auxpow-executor"
      ∷ codes "H3-fork-reorg-displacement-engine"
      ∷ codes "H4-rentability-external-telemetry"
      ∷ codes "H5-missing-telemetry-handler"
      ∷ codes "H6-anti-gaming-executor"
      ∷ codes "H7-deterministic-evidence-emitter"
      ∷ [];
  worktree = codes "h8-verifier-worktree";
  allowed_paths =
      codes "harness/src/h8_*.cpp"
      ∷ codes "harness/src/h8_*.h"
      ∷ codes "harness/test/h8_*.cpp"
      ∷ [];
  prohibited_paths =
      codes "harness/src/h1_*.cpp"
      ∷ codes "harness/src/h2_*.cpp"
      ∷ codes "harness/src/h3_*.cpp"
      ∷ codes "harness/src/h4_*.cpp"
      ∷ codes "harness/src/h5_*.cpp"
      ∷ codes "harness/src/h6_*.cpp"
      ∷ codes "harness/src/h7_*.cpp"
      ∷ [];
  required_evidence = codes "verification-result" ∷ codes "independent-implementation-hash" ∷ [];
  evidence_manifest_schema = codes "verification-manifest";
  required_passes =
      codes "contract-conformance-test"
      ∷ codes "determinism-test"
      ∷ codes "replayability-test"
      ∷ codes "telemetry-test"
      ∷ codes "mutation-sensitivity-test"
      ∷ codes "evidence-integrity-test"
      ∷ codes "independent-implementation-test"
      ∷ [];
  required_controls =
      codes "mismatched-immutable-input-injection" ∷ codes "unauthorized-mutation-injection" ∷ [];
  invalidation_conditions =
      codes "verification-logic-defect" ∷ codes "shared-implementation-with-h1-h7" ∷ [];
}
