-- ===== src/Harness/Authority.antt =====
-- harness/include/harness_authority.h and src/harness_authority.cpp: the envelope, its validation, its permissions and its states.
use litenyx.Common.{Bool, true, false, not, ◌&&◌, ◌||◌, List, if◌then◌else◌}
use litenyx.Commitment.{same_bytes}
use litenyx.Harness.Bytes.{Text, codes, is_empty, starts_with, any}

pub data AuthorityState : Type 0 where
  blocked preparation_only executable : AuthorityState

pub record AuthorityEnvelope : Type 0 where
  pub task_id : Text
  pub operation_class : Text
  pub source : Text
  pub state : AuthorityState
  pub discover : Bool
  pub mutate : Bool
  pub promote : Bool
  pub allowed_operations : List Text
  pub prohibited_operations : List Text
  pub immutable_inputs : List Text
  pub dependencies : List Text
  pub worktree : Text
  pub allowed_paths : List Text
  pub prohibited_paths : List Text
  pub required_evidence : List Text
  pub evidence_manifest_schema : Text
  pub required_passes : List Text
  pub required_controls : List Text
  pub invalidation_conditions : List Text

abbrev pub h_msf_tag : Text
h_msf_tag = codes "H_MSF:"

unfoldable pub validate : AuthorityEnvelope → Bool
validate e =
    if is_empty e.task_id
    then false
    else if is_empty e.operation_class
    then false
    else if is_empty e.source
    then false
    else if is_empty e.immutable_inputs
    then false
    else if not (any (λ input. starts_with input h_msf_tag) e.immutable_inputs)
    then false
    else if not e.discover
    then false
    else if e.promote && not e.mutate
    then false
    else true

unfoldable pub is_operation_allowed : AuthorityEnvelope → Text → Bool
is_operation_allowed e operation =
    if not (any (λ op. same_bytes op operation) e.allowed_operations)
    then false
    else not (any (λ op. same_bytes op operation) e.prohibited_operations)

unfoldable pub is_path_in_scope : AuthorityEnvelope → Text → Bool
is_path_in_scope e path =
    if any (λ p. same_bytes p (codes "*") || starts_with path p) e.prohibited_paths
    then false
    else if is_empty e.allowed_paths
    then true
    else any (λ p. starts_with path p) e.allowed_paths

abbrev pub is_valid_transition : AuthorityState → AuthorityState → Bool
is_valid_transition from blocked = true
is_valid_transition blocked preparation_only = true
is_valid_transition blocked executable = false
is_valid_transition preparation_only preparation_only = false
is_valid_transition preparation_only executable = true
is_valid_transition executable preparation_only = false
is_valid_transition executable executable = false

-- The state of the envelope afterwards; the result says whether it was set.
unfoldable pub transition : AuthorityState → AuthorityState → Bool × AuthorityState
transition from to = if is_valid_transition from to then (true, to) else (false, from)
