-- ===== src/Harness/Factory/Executors.antt =====
-- harness/src/harness_authority.cpp: the envelopes that `AuthorityFactory` creates for H1 to H4.
use litenyx.Common.{true, false, [], ◌∷◌}
use litenyx.Harness.{codes, AuthorityEnvelope, executable, preparation_only}

abbrev pub create_h1 : AuthorityEnvelope
create_h1 = record {
  task_id = codes "H1-canonical-state-generator";
  operation_class = codes "state-generation";
  source = codes "ORCH-HARNESS-BUILD-1";
  state = executable;
  discover = true;
  mutate = false;
  promote = false;
  allowed_operations =
      codes "generate-genesis-state"
      ∷ codes "generate-block-state"
      ∷ codes "generate-utxo-set"
      ∷ codes "generate-work-source-composition"
      ∷ [];
  prohibited_operations =
      codes "modify-consensus-parameters"
      ∷ codes "modify-activation-state"
      ∷ codes "modify-mempool"
      ∷ [];
  immutable_inputs =
      codes "H_MSF:fa003d0f52f88414ecf3f206deb6f2ebf0dc34b469b34b525f38a0d6eff574fc"
      ∷ codes "SPEC-WORK-ADAPTER-1"
      ∷ codes "CONSENSUS-ARITHMETIC-1"
      ∷ [];
  dependencies = [];
  worktree = [];
  allowed_paths = [];
  prohibited_paths = codes "*" ∷ [];
  required_evidence = codes "state-hash" ∷ codes "utxo-root" ∷ codes "work-source-composition" ∷ [];
  evidence_manifest_schema = codes "state-generation-manifest";
  required_passes = codes "state-determinism-test" ∷ codes "state-reproducibility-test" ∷ [];
  required_controls = [];
  invalidation_conditions =
      codes "non-deterministic-state-generation"
      ∷ codes "utxo-set-corruption"
      ∷ codes "work-source-mismatch"
      ∷ [];
}

abbrev pub create_h2 : AuthorityEnvelope
create_h2 = record {
  task_id = codes "H2-nativepow-auxpow-executor";
  operation_class = codes "work-execution";
  source = codes "ORCH-HARNESS-BUILD-1";
  state = executable;
  discover = true;
  mutate = true;
  promote = false;
  allowed_operations =
      codes "execute-nativepow-validation"
      ∷ codes "execute-auxpow-validation"
      ∷ codes "execute-carrier-validation"
      ∷ codes "compute-work-hash"
      ∷ codes "verify-work-validity"
      ∷ [];
  prohibited_operations = codes "modify-consensus-rules" ∷ codes "modify-validation-logic" ∷ [];
  immutable_inputs =
      codes "H_MSF:fa003d0f52f88414ecf3f206deb6f2ebf0dc34b469b34b525f38a0d6eff574fc"
      ∷ codes "SPEC-WORK-ADAPTER-1"
      ∷ codes "test_work_adapter_eng1.exe"
      ∷ [];
  dependencies = codes "H1-canonical-state-generator" ∷ [];
  worktree = codes "h2-executor-worktree";
  allowed_paths =
      codes "harness/src/h2_*.cpp"
      ∷ codes "harness/src/h2_*.h"
      ∷ codes "harness/test/h2_*.cpp"
      ∷ [];
  prohibited_paths = codes "litenyx/litenyx/*.h" ∷ codes "litenyx/cpp_reference/test/*.cpp" ∷ [];
  required_evidence =
      codes "validation-result" ∷ codes "work-hash" ∷ codes "target-comparison" ∷ [];
  evidence_manifest_schema = codes "work-execution-manifest";
  required_passes = codes "49-work-adapter-tests" ∷ codes "reproducibility-test" ∷ [];
  required_controls = codes "invalid-work-injection" ∷ codes "malformed-header-injection" ∷ [];
  invalidation_conditions =
      codes "non-deterministic-validation"
      ∷ codes "consensus-rule-violation"
      ∷ codes "incorrect-accepted-work-accounting"
      ∷ [];
}

abbrev pub create_h3 : AuthorityEnvelope
create_h3 = record {
  task_id = codes "H3-fork-reorg-displacement-engine";
  operation_class = codes "fork-simulation";
  source = codes "ORCH-HARNESS-BUILD-1";
  state = executable;
  discover = true;
  mutate = true;
  promote = false;
  allowed_operations =
      codes "create-competing-histories"
      ∷ codes "simulate-reorganization"
      ∷ codes "simulate-displacement"
      ∷ codes "compute-reorg-depth"
      ∷ codes "compute-displacement-cost"
      ∷ [];
  prohibited_operations = codes "modify-fork-choice-rules" ∷ codes "modify-daAlgorithm" ∷ [];
  immutable_inputs =
      codes "H_MSF:fa003d0f52f88414ecf3f206deb6f2ebf0dc34b469b34b525f38a0d6eff574fc"
      ∷ codes "SPEC-WORK-ADAPTER-1"
      ∷ codes "FORK-AUTHORITY-1"
      ∷ [];
  dependencies = codes "H1-canonical-state-generator" ∷ codes "H2-nativepow-auxpow-executor" ∷ [];
  worktree = codes "h3-fork-engine-worktree";
  allowed_paths =
      codes "harness/src/h3_*.cpp"
      ∷ codes "harness/src/h3_*.h"
      ∷ codes "harness/test/h3_*.cpp"
      ∷ [];
  prohibited_paths = codes "litenyx/litenyx/*.h" ∷ codes "litenyx/cpp_reference/test/*.cpp" ∷ [];
  required_evidence =
      codes "competing-history-hashes"
      ∷ codes "reorg-depth"
      ∷ codes "displacement-cost"
      ∷ codes "fork-winner"
      ∷ [];
  evidence_manifest_schema = codes "fork-simulation-manifest";
  required_passes =
      codes "reorg-consistency-test"
      ∷ codes "displacement-cost-test"
      ∷ codes "fork-choice-test"
      ∷ [];
  required_controls =
      codes "wrong-fork-winner-injection" ∷ codes "incorrect-disconnect-state-injection" ∷ [];
  invalidation_conditions =
      codes "non-deterministic-fork-behavior"
      ∷ codes "incorrect-reorg-depth"
      ∷ codes "utxo-rollback-corruption"
      ∷ [];
}

abbrev pub create_h4 : AuthorityEnvelope
create_h4 = record {
  task_id = codes "H4-rentability-external-telemetry";
  operation_class = codes "telemetry-collection";
  source = codes "ORCH-HARNESS-BUILD-1";
  state = preparation_only;
  discover = true;
  mutate = false;
  promote = false;
  allowed_operations =
      codes "collect-hash-rental-rates"
      ∷ codes "collect-exchange-rates"
      ∷ codes "collect-bandwidth-costs"
      ∷ codes "collect-capital-costs"
      ∷ codes "compute-rentability-discount"
      ∷ [];
  prohibited_operations = codes "modify-telemetry-sources" ∷ codes "modify-aggregation-rules" ∷ [];
  immutable_inputs =
      codes "H_MSF:fa003d0f52f88414ecf3f206deb6f2ebf0dc34b469b34b525f38a0d6eff574fc"
      ∷ codes "MSF-CONTRACT-FREEZE-1:telemetry-section"
      ∷ [];
  dependencies = codes "H1-canonical-state-generator" ∷ [];
  worktree = [];
  allowed_paths = [];
  prohibited_paths = codes "*" ∷ [];
  required_evidence =
      codes "telemetry-sources" ∷ codes "aggregation-rules" ∷ codes "missing-data-treatment" ∷ [];
  evidence_manifest_schema = codes "telemetry-manifest";
  required_passes = codes "telemetry-availability-test" ∷ codes "aggregation-consistency-test" ∷ [];
  required_controls = codes "missing-telemetry-injection" ∷ codes "stale-telemetry-injection" ∷ [];
  invalidation_conditions =
      codes "non-canonical-telemetry-source"
      ∷ codes "incorrect-aggregation"
      ∷ codes "missing-data-without-conservative-default"
      ∷ [];
}
