-- ===== src/Sha256/Tests.antt =====
-- Published digests.
use litenyx.Common.{◌≡◌, refl, [], ◌∷◌, length, arith}
use litenyx.Sha256.Stream.{sha256_update-append, pad_loop_ends}
use litenyx.Sha256.{
  absorb, update_loop, sha256_update, pad_loop, sha256_block, sha256_final, sha256, sha256_init,
  load_words, extend_words, sha_rounds, sha_round, add_words, be32, be_words,
}

abc_digest :
    sha256 (97 ∷ 98 ∷ 99 ∷ [])
    ≡ 0xba ∷ 0x78 ∷ 0x16 ∷ 0xbf ∷ 0x8f ∷ 0x01 ∷ 0xcf ∷ 0xea ∷ 0x41 ∷ 0x41 ∷ 0x40 ∷ 0xde ∷ 0x5d
      ∷ 0xae ∷ 0x22 ∷ 0x23 ∷ 0xb0 ∷ 0x03 ∷ 0x61 ∷ 0xa3 ∷ 0x96 ∷ 0x17 ∷ 0x7a ∷ 0x9c ∷ 0xb4 ∷ 0x10
      ∷ 0xff ∷ 0x61 ∷ 0xf2 ∷ 0x00 ∷ 0x15 ∷ 0xad ∷ []
unfolding sha256 sha256_final sha256_update update_loop absorb pad_loop sha256_block load_words
    extend_words sha_rounds sha_round add_words be32 be_words
abc_digest = refl

sha256_update-append_example :
    sha256_update (sha256_update sha256_init (97 ∷ 98 ∷ [])) (99 ∷ [])
    ≡ sha256_update sha256_init (97 ∷ 98 ∷ 99 ∷ [])
sha256_update-append_example =
    sha256_update-append sha256_init (97 ∷ 98 ∷ []) (99 ∷ []) (omega arith)

pad_loop_ends_example : length (pad_loop 64 sha256_init).buf ≡ 56
pad_loop_ends_example = pad_loop_ends sha256_init (omega arith)
