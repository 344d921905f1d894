-- ===== src/Lib.antt =====
-- The verification library of Litenyx: the consensus core that litenyx/ adds to the daemon.
--
-- The program derives everything that consensus needs from canonical history alone. A block carries
-- a lane and a weight; at every window of 100 blocks the demand of the lanes moves the number of
-- lanes by at most one (topology), each lane carries a persistent chain identity (lifecycle), the
-- identity decides who may route and bind (execution authority), and a commitment may suspend
-- binding on an identity (draining). Beside this, one set of spent outpoints is shared by all chains.
--
--   Common         lists, integers and machine words over the native numbers
--   Params         litenyx/LITENYX_types.h and LITENYX_identity.h: LitenyxChainParamsFor and the
--                  heights of each network
--   Topology       litenyx/LITENYX_topology.h: LitenyxTopoDecide (topo_decide), LitenyxTopoApply,
--                  LitenyxTopoTransitionHeight
--   Authority      litenyx/LITENYX_topology_authority.h: LitenyxReconstructMcV1Window,
--                  LitenyxDeriveTopologyAtBoundary, LitenyxCalculateExpectedTopology,
--                  LitenyxCalculateExpectedTopologyFromChain; the staged activation of all phases is
--                  in Authority/Activation
--   Lifecycle      litenyx/LITENYX_chainid_lifecycle.h: LitenyxLifecycleStateCoherent,
--                  LitenyxAdvanceChainIdLifecycle, LitenyxClassifyChainId,
--                  LitenyxCalculateExpectedLifecycleFromChain
--   Execution      litenyx/LITENYX_execution_authority.h: LitenyxResolveExecutionAuthority and its
--                  form for a lane
--   Draining       litenyx/LITENYX_draining_authority.h: LitenyxIsDraining,
--                  LitenyxValidateDrainCommitmentSemantics, LitenyxProjectDrainCapability
--   Spend          litenyx/LITENYX_sharedstate.h and .cpp, and the connect, disconnect and rehydrate
--                  hooks of litenyx/LITENYX_validation.cpp, composed as
--                  deploy/patches/litenyx-validation.patch composes them in ConnectTip
--   FixedPoint     litenyx/LITENYX_fixed_point.h: Q32_32 (Q32) and Q64_32 (Q64) with their operations
--   SecurityFloor  litenyx/LITENYX_security_floor.h: C_effective, H_attackable, α and B_min
--   Sha256         the double SHA-256 of litenyx/LITENYX_topology_authority.h
--   Commitment     the commitment hashes and LitenyxVerifyTopologyCommitment and
--                  LitenyxVerifyLifecycleCommitment, of the same file and LITENYX_chainid_lifecycle.h
--   AuxHeader      litenyx/LITENYX_auxpow.h: the header of a block and its wire formats
--   Validation     the other hooks of litenyx/LITENYX_validation.cpp: LitenyxCheckAuxHeader,
--                  LitenyxCheckTopologyCommitment, LitenyxCheckLifecycleCommitment,
--                  LitenyxCheckExecutionAuthority, in the order in which ConnectBlock calls them
--   Carrier        litenyx/LITENYX_galactic_carrier.h: EncodeGW (encode_gw) and DecodeGW
--   Verifier       litenyx/LITENYX_iw2_verifier.h: ValidParentWorkCarrier_G and its four predicates
--   Tracker        litenyx/LITENYX_topology_tracker.h and .cpp: the state that the daemon keeps around
--                  the controller (Connect, Disconnect, Observe, Tick, Finalize, Reset)
--   S1             cpp_reference/s1/litenyx_h1_pow_target.h and litenyx_h1_candidate_policy.h: the
--                  counterfactual target and the candidate policies of an experiment
--   Dag            harness/src/harness_dag.cpp: DependencyDAG; its cycle search is in Dag/Search
--   Harness        harness/src/harness_authority.cpp, harness_evidence.cpp and harness_promotion.cpp:
--                  envelopes (Harness/Authority), manifests (Harness/Evidence), the promotion gate,
--                  which asks the graph of Dag, and the completion gate (Harness/Complete)
--
-- A number is a native natural with its wrap-around written out (u8, u32, u64); a signed value is a ℤ,
-- wrapped (i32, i64) where an operation of the tracker or of the target can overflow.
-- A function that returns `bool` with an out parameter returns an Option, and the live set and the
-- thread's scopes are passed as one record. Loops over a vector are recursion on a list. The loops over
-- window boundaries have a uint32 height that wraps: they run on 2^30 rounds of fuel, which is every
-- height that they can visit, so the fuel runs out only where the source does not return, for a tip
-- from 2^32 - 4 on; the theorems about them say below which tip the height does not wrap. The loops of
-- the hash run on fuel: a write takes at most as many rounds as it has bytes, the padding at most 64.
--
-- The cycle search runs on fuel too: each nested visit meets a task that was not visited before, so
-- one more than the number of named tasks is enough.
--
-- Not modelled: conversions from and to floating point, printing, locks (the tip transition is
-- single-threaded), and the daemon around the hooks, whose block storage, block hashes and weights
-- are data of the model; SHA-256 and scrypt of the daemon in Verifier, and the hash that certutil
-- computes in Harness, are parameters. Of the mining prototypes under cpp_reference/ the metrics, the
-- mining engine and the replay shell, and of the qualification harness under harness/ the programs
-- named msf_*, which compute with floating point, random numbers, files and shell commands, are not
-- modelled; they do not take part in consensus.
pub mod Common
pub mod Params
pub mod Topology
pub mod Authority
pub mod Lifecycle
pub mod Execution
pub mod Draining
pub mod Spend
pub mod Sha256
pub mod Commitment
pub mod AuxHeader
pub mod Validation
pub mod Tracker
pub mod FixedPoint
pub mod SecurityFloor
pub mod Carrier
pub mod Verifier
pub mod Dag
pub mod Harness
pub mod S1
