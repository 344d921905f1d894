-- ===== src/Carrier/Tests.antt =====
-- The carrier's bytes at a concrete header.
use litenyx.Common.{◌≡◌, refl, replicate, arith}
use litenyx.Carrier.{GalacticWorkHeader, encode_gw, decode_gw}
use litenyx.Carrier.RoundTrip.{IsHeader, encode-decode}

abbrev mainnet : GalacticWorkHeader
mainnet = record {
  version = 1;
  protocol_domain = 0x4C47_5744;
  network_domain = 0x4C4D_4E4E;
  commitment_root = replicate 32 7;
  nonce = 5000000000;
}

mainnet-IsHeader : IsHeader mainnet
mainnet-IsHeader = record {
  version = omega arith;
  protocol_domain = omega arith;
  network_domain = omega arith;
  commitment_root = refl;
  nonce = omega arith;
}

encode-decode_example :
    (decode_gw (encode_gw mainnet) ≡ mainnet)
    × (encode_gw (decode_gw (replicate 49 1)) ≡ replicate 49 1)
encode-decode_example = encode-decode mainnet (replicate 49 1) mainnet-IsHeader refl (omega arith)
