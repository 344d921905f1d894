-- ===== src/Authority/Window.antt =====
-- `LitenyxReconstructMcV1Window` against a description lane by lane.
use mathlib.Core.Logic.{∥∥₁_elim}
use mathlib.Core.Path.{ap₂}
use mathlib.Core.List.{Perm, Permᴰ}
use native.Mathlib.Nat.{ℕ_set, div-mul-le_self, lt-div-mul-add, zero-add}
use litenyx.Common.{
  ℕ, zero, suc, ◌+◌, ◌<◌, ◌≤◌, ◌*◌, ◌/◌, ap, ◌⊎◌, inl, inr, ◌≡◌, refl, ◌∙◌, List, [], ◌∷◌, ◌==◌,
  if◌then◌else◌, length, get_or, set, replicate, length-set, length-replicate, arith,
}
use litenyx.Common.Int.{ℤ, pos}
use litenyx.Topology.{clamp_chains}
use litenyx.Authority.{
  CommittedBlock, WindowSums, demand_v1, add_block, add_blocks, mean, for_lanes,
  reconstruct_mc_v1_window,
}

-- The demand of the blocks on a lane, and their number.
pub lane_sum : ℕ → List CommittedBlock → ℕ
lane_sum c [] = 0
lane_sum c (b ∷ bs) = (if b.chain_id == c then demand_v1 b.block_weight else 0) + lane_sum c bs

pub lane_count : ℕ → List CommittedBlock → ℕ
lane_count c [] = 0
lane_count c (b ∷ bs) = (if b.chain_id == c then 1 else 0) + lane_count c bs

get_or-set :
    (xs : List ℕ) (i j v : ℕ)
    → j < length xs
    → get_or (set xs i v) j 0 ≡ (if i == j then v else get_or xs j 0)
get_or-set [] i j v h = absurd (omega arith)
get_or-set (x ∷ xs) zero zero v h = refl
get_or-set (x ∷ xs) zero (suc j) v h = ground arith
get_or-set (x ∷ xs) (suc i) zero v h = ground arith
get_or-set (x ∷ xs) (suc i) (suc j) v h = ground (arith, get_or-set xs i j v)

abbrev Sized : ℕ → WindowSums → Type 0
Sized k s = (length s.sum_d ≡ k) × (length s.cnt_d ≡ k)

add_block-Sized :
    (k : ℕ) (s : WindowSums) (b : CommittedBlock) → Sized k s → Sized k (add_block k s b)
unfolding add_block
add_block-Sized k s b h = ground (
  arith,
  length-set s.sum_d b.chain_id (get_or s.sum_d b.chain_id 0 + demand_v1 b.block_weight),
  length-set s.cnt_d b.chain_id (get_or s.cnt_d b.chain_id 0 + 1),
)

add_block_lem :
    (k c : ℕ) (s : WindowSums) (b : CommittedBlock)
    → Sized k s
    → c < k
    → (get_or (add_block k s b).sum_d c 0
        ≡ get_or s.sum_d c 0 + (if b.chain_id == c then demand_v1 b.block_weight else 0))
      × (get_or (add_block k s b).cnt_d c 0
          ≡ get_or s.cnt_d c 0 + (if b.chain_id == c then 1 else 0))
unfolding add_block
add_block_lem k c s b h lt = ground (
  arith,
  get_or-set s.sum_d b.chain_id c (get_or s.sum_d b.chain_id 0 + demand_v1 b.block_weight),
  get_or-set s.cnt_d b.chain_id c (get_or s.cnt_d b.chain_id 0 + 1),
)

add_blocks_lem :
    (k c : ℕ) (s : WindowSums) (bs : List CommittedBlock)
    → Sized k s
    → c < k
    → (get_or (add_blocks k s bs).sum_d c 0 ≡ get_or s.sum_d c 0 + lane_sum c bs)
      × (get_or (add_blocks k s bs).cnt_d c 0 ≡ get_or s.cnt_d c 0 + lane_count c bs)
unfolding add_blocks lane_sum lane_count
add_blocks_lem k c s [] h lt = omega arith
add_blocks_lem k c s (b ∷ bs) h lt = omega (
  arith,
  add_blocks_lem k c (add_block k s b) bs (add_block-Sized k s b h) lt,
  add_block_lem k c s b h lt,
)

for_lanes-congr :
    (k i : ℕ) (f g : ℕ → ℤ) → ((c : ℕ) → c < i + k → f c ≡ g c) → for_lanes k i f ≡ for_lanes k i g
unfolding for_lanes
for_lanes-congr zero i f g h = refl
for_lanes-congr (suc k) i f g h =
    cc (h i (omega arith), for_lanes-congr k (i + 1) f g (λ c lt. h c (omega arith)))

get_or-replicate : (k c : ℕ) → get_or {A = ℕ} (replicate k 0) c 0 ≡ 0
get_or-replicate zero c = refl
get_or-replicate (suc k) zero = refl
get_or-replicate (suc k) (suc c) = get_or-replicate k c

lane_means :
    (blocks : List CommittedBlock) (n : ℕ)
    → reconstruct_mc_v1_window blocks n
      ≡ for_lanes (clamp_chains n) 0 (λ c. mean (lane_sum c blocks) (lane_count c blocks))
unfolding reconstruct_mc_v1_window
lane_means blocks n = for_lanes-congr (clamp_chains n) 0 _ _ λ c lt.
    let zeros : List ℕ = replicate (clamp_chains n) 0 in
    let l : length zeros ≡ clamp_chains n = length-replicate (clamp_chains n) 0 in
    let (sums, counts) =
      add_blocks_lem (clamp_chains n) c (record { sum_d = zeros; cnt_d = zeros }) blocks (l, l)
        (omega arith) in
    let e : get_or zeros c 0 ≡ 0 = get_or-replicate (clamp_chains n) c in
    ap₂ mean (sums ∙ omega (arith, e)) (counts ∙ omega (arith, e))

get_or-for_lanes : (k i c : ℕ) (f : ℕ → ℤ) → c < k → get_or (for_lanes k i f) c (pos 0) ≡ f (i + c)
unfolding for_lanes
get_or-for_lanes zero i c f h = absurd (omega arith)
get_or-for_lanes (suc k) i zero f h = ap f (omega arith)
get_or-for_lanes (suc k) i (suc c) f h =
    get_or-for_lanes k (i + 1) c f (omega arith) ∙ ap f (omega arith)

length-for_lanes : (k i : ℕ) (f : ℕ → ℤ) → length (for_lanes k i f) ≡ k
unfolding for_lanes
length-for_lanes zero i f = refl
length-for_lanes (suc k) i f = ap suc (length-for_lanes k (i + 1) f)

-- The floor of the mean of `cnt` values with the given sum, and 0 for no value.
abbrev pub IsMean : ℕ → ℕ → ℤ → Type 0
IsMean sum cnt v =
    ((cnt ≡ 0) × (v ≡ pos 0))
    ⊎ ((0 < cnt) × (q : ℕ) × (v ≡ pos q) × (q * cnt ≤ sum) × (sum < q * cnt + cnt))

mean-IsMean : (sum cnt : ℕ) → IsMean sum cnt (mean sum cnt)
unfolding mean
mean-IsMean sum zero = inl (refl, refl)
mean-IsMean sum (suc n) = inr (
  omega arith,
  sum / suc n,
  ground arith,
  div-mul-le_self sum (suc n),
  lt-div-mul-add (omega arith),
)

-- The vector has an entry for each active lane: the floor of the mean demand of that lane's blocks,
-- and 0 for a lane without a block; the blocks of other lanes are ignored.
pub reconstruct_mc_v1_window_lem :
    (blocks : List CommittedBlock) (n c : ℕ)
    → c < clamp_chains n
    → (length (reconstruct_mc_v1_window blocks n) ≡ clamp_chains n)
      × IsMean
          (lane_sum c blocks)
          (lane_count c blocks)
          (get_or (reconstruct_mc_v1_window blocks n) c (pos 0))
reconstruct_mc_v1_window_lem blocks n c h =
    let f : ℕ → ℤ = λ c. mean (lane_sum c blocks) (lane_count c blocks) in
    rw (lane_means blocks n) (
      length-for_lanes (clamp_chains n) 0 f,
      rw (get_or-for_lanes (clamp_chains n) 0 c f h ∙ ap f (zero-add c))
          (mean-IsMean (lane_sum c blocks) (lane_count c blocks)),
    )

lane_sum-Permᴰ : (c : ℕ) {bs cs : List CommittedBlock} → Permᴰ bs cs → lane_sum c bs ≡ lane_sum c cs
unfolding lane_sum
lane_sum-Permᴰ c Permᴰ.nil = refl
lane_sum-Permᴰ c (Permᴰ.cons e p) = cc (e, lane_sum-Permᴰ c p)
lane_sum-Permᴰ c (Permᴰ.swap {l = l} e f) = rw (e, f) (omega arith)
lane_sum-Permᴰ c (Permᴰ.trans p q) = lane_sum-Permᴰ c p ∙ lane_sum-Permᴰ c q

lane_count-Permᴰ :
    (c : ℕ) {bs cs : List CommittedBlock} → Permᴰ bs cs → lane_count c bs ≡ lane_count c cs
unfolding lane_count
lane_count-Permᴰ c Permᴰ.nil = refl
lane_count-Permᴰ c (Permᴰ.cons e p) = cc (e, lane_count-Permᴰ c p)
lane_count-Permᴰ c (Permᴰ.swap {l = l} e f) = rw (e, f) (omega arith)
lane_count-Permᴰ c (Permᴰ.trans p q) = lane_count-Permᴰ c p ∙ lane_count-Permᴰ c q

lane_sum-Perm : (c : ℕ) {bs cs : List CommittedBlock} → Perm bs cs → lane_sum c bs ≡ lane_sum c cs
lane_sum-Perm c p = ∥∥₁_elim p (ℕ_set _ _) (lane_sum-Permᴰ c)

lane_count-Perm :
    (c : ℕ) {bs cs : List CommittedBlock} → Perm bs cs → lane_count c bs ≡ lane_count c cs
lane_count-Perm c p = ∥∥₁_elim p (ℕ_set _ _) (lane_count-Permᴰ c)

-- The vector does not depend on the order of the blocks within the window.
pub reconstruct_mc_v1_window-Perm :
    (bs cs : List CommittedBlock) (n : ℕ)
    → Perm bs cs
    → reconstruct_mc_v1_window bs n ≡ reconstruct_mc_v1_window cs n
reconstruct_mc_v1_window-Perm bs cs n p =
    rw (lane_means bs n, lane_means cs n)
      (for_lanes-congr (clamp_chains n) 0 _ _
        λ c lt. ap₂ mean (lane_sum-Perm c p) (lane_count-Perm c p))
