-- ===== src/Lifecycle/Encoding.antt =====
-- `LitenyxSerializeLifecycleState`, read from its bytes.
use litenyx.Common.{ℕ, ◌%◌, ◌^◌, ◌<◌, ◌≡◌, refl, List, [], ◌∷◌, ◌++◌, length, All, arith}
use litenyx.Common.Words.{le32, IsU8, IsU32}
use litenyx.Lifecycle.{
  ChainIdBinding, LifecycleState, serialize_bindings, serialize_lifecycle_state,
}

-- Each field is within its C++ width.
abbrev pub BindingFits : ChainIdBinding → Type 0
BindingFits b = IsU8 b.lane_id × IsU32 b.chain_id

pub record Fits (l : LifecycleState) : Type 0 where
  pub version : l.n_version < 2 ^ 16
  pub next_id : IsU32 l.next_chain_id
  pub few : length l.active_bindings < 256
  pub bindings : All BindingFits l.active_bindings
  pub last : IsU32 l.last_lifecycle_height

pub le32-injective :
    (v w : ℕ) (xs ys : List ℕ)
    → IsU32 v
    → IsU32 w
    → le32 v ++ xs ≡ le32 w ++ ys
    → (v ≡ w) × (xs ≡ ys)
le32-injective v w xs ys hv hw e = ground arith

bindings-injective :
    (bs cs : List ChainIdBinding) (xs ys : List ℕ)
    → length bs ≡ length cs
    → All BindingFits bs
    → All BindingFits cs
    → serialize_bindings bs ++ xs ≡ serialize_bindings cs ++ ys
    → (bs ≡ cs) × (xs ≡ ys)
unfolding serialize_bindings
bindings-injective [] [] xs ys len hb hc e = (refl, e)
bindings-injective [] (c ∷ cs) xs ys len hb hc e = absurd (omega arith)
bindings-injective (b ∷ bs) [] xs ys len hb hc e = absurd (omega arith)
bindings-injective (b ∷ bs) (c ∷ cs) xs ys len ((bl, bc), hb) ((cl, cc'), hc) e =
    let tails =
      le32-injective b.chain_id c.chain_id (serialize_bindings bs ++ xs)
        (serialize_bindings cs ++ ys) bc cc' (ground arith) in
    let (f, g) = bindings-injective bs cs xs ys (omega arith) hb hc tails.1 in
    let ids : b.chain_id ≡ c.chain_id = tails.0 in
    let lanes : b.lane_id ≡ c.lane_id = ground arith in (ground arith, g)

abbrev after_id : LifecycleState → List ℕ
after_id l =
    length l.active_bindings % 256 ∷ serialize_bindings l.active_bindings
    ++ le32 l.last_lifecycle_height

-- Two states whose fields are within their widths have the same bytes only if they are equal.
pub serialize_lifecycle_state-injective :
    (l m : LifecycleState)
    → Fits l
    → Fits m
    → serialize_lifecycle_state l ≡ serialize_lifecycle_state m
    → l ≡ m
unfolding serialize_lifecycle_state
serialize_lifecycle_state-injective l m hl hm e =
    let (ids, after_ids) =
      le32-injective l.next_chain_id m.next_chain_id (after_id l) (after_id m) hl.next_id hm.next_id
        (ground arith) in
    let few = hl.few in
    let few' = hm.few in
    let counts : length l.active_bindings ≡ length m.active_bindings = ground arith in
    let (bindings, after_bindings) =
      bindings-injective l.active_bindings m.active_bindings (le32 l.last_lifecycle_height)
        (le32 m.last_lifecycle_height) counts hl.bindings hm.bindings (ground arith) in
    let last = hl.last in
    let last' = hm.last in
    let lasts : l.last_lifecycle_height ≡ m.last_lifecycle_height = ground arith in
    let v = hl.version in
    let v' = hm.version in let versions : l.n_version ≡ m.n_version = ground arith in ground arith
