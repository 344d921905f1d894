-- ===== src/Params.antt =====
-- litenyx/LITENYX_types.h and litenyx/LITENYX_identity.h: the fixed parameters of the fork.
use Prim.Native.String.{String}
use text.Mathlib.Text.{◌==◌ as str_eq}
use litenyx.Common.{ℕ, leb, ◌==◌, if◌then◌else◌, Option, none, some}
use litenyx.Common.Int.{ℤ, pos, negsuc}

abbrev pub min_chains : ℕ
min_chains = 2

abbrev pub max_chains : ℕ
max_chains = 2

pub record ChainParams : Type 0 where
  pub n_min_fee_rate : ℕ
  pub n_max_block_size : ℕ
  pub n_target_spacing : ℕ

-- The table of two entries; a read past its end has no value.
pub chain_params : ℕ → Option ChainParams
chain_params i =
    if i == 0
    then some (record { n_min_fee_rate = 10; n_max_block_size = 1000000; n_target_spacing = 60 })
    else if i == 1
    then some (record { n_min_fee_rate = 100; n_max_block_size = 4000000; n_target_spacing = 300 })
    else none

pub chain_params_for : ℕ → Option ChainParams
unfolding chain_params
chain_params_for n_chain_id =
    chain_params (if leb max_chains n_chain_id then min_chains else n_chain_id)

-- Selects a per-network constant by `NetworkIDString()`.
unfoldable pub for_network {ℓ} : {A : Type ℓ} → A → A → A → A → String → A
for_network regtest test main other net_id =
    if str_eq net_id "regtest"
    then regtest
    else if str_eq net_id "test"
    then test
    else if str_eq net_id "main"
    then main
    else other

-- The function returns an `int`, so its `0xFFFFFFFF` becomes -1.
unfoldable pub shared_state_height_for_network : String → ℤ
unfolding for_network
shared_state_height_for_network = for_network (pos 2) (pos 6000000) (negsuc 0) (negsuc 0)
