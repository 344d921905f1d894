-- ===== src/AuxHeader/Tests.antt =====
-- The wire formats at a concrete header.
use litenyx.Common.{◌≡◌, refl, some, [], ◌∷◌, ◌++◌, length, replicate, arith}
use litenyx.AuxHeader.{AuxHeader, magic_v2, null_header, serialize, deserialize}
use litenyx.AuxHeader.Layout.{IsSized, carried, wire_size, deserialize-serialize, length-serialize}

abbrev with_commitment : AuxHeader
with_commitment = record null_header {
  magic = magic_v2;
  chain_id = 1;
  aux_anchor = replicate 32 7;
  split_vector = 5000000000;
  topology_commitment = replicate 32 9;
}

with_commitment-IsSized : IsSized with_commitment
with_commitment-IsSized = record {
  magic = omega arith;
  chain_id = omega arith;
  event_height = omega arith;
  aux_anchor = refl;
  split_vector = omega arith;
  reserved = omega arith;
  topology_commitment = refl;
  lifecycle_commitment = refl;
  drain_chain_id = omega arith;
  drain_start_height = omega arith;
}

deserialize-serialize_example :
    deserialize null_header (serialize with_commitment ++ 1 ∷ [])
    ≡ some (carried with_commitment null_header, 1 ∷ [])
deserialize-serialize_example =
    deserialize-serialize with_commitment null_header (1 ∷ []) with_commitment-IsSized

length-serialize_example : length (serialize with_commitment) ≡ wire_size with_commitment
length-serialize_example = length-serialize with_commitment with_commitment-IsSized
