-- ===== src/Sha256/Stream.antt =====
-- Writes to the hash of litenyx/LITENYX_topology_authority.h, one call against several, and its padding loop.
use litenyx.Common.{
  ℕ, zero, suc, ◌+◌, ◌-◌, ◌*◌, ◌%◌, ◌≤◌, ◌<◌, ◌≡◌, refl, sym, ap, ◌∙◌, Bool, true, false, List, [],
  ◌∷◌, ◌++◌, ◌==◌, if◌then◌else◌, length, take, drop, min, arith, length-append, length-take,
  length-drop, Bool-cases, inl, inr, ◌⊎◌, ==_iff,
}
use litenyx.Common.Words.{u64}
use mathlib.Core.List.{append_assoc}
use litenyx.Sha256.{Sha256Ctx, sha256_block, absorb, update_loop, sha256_update, pad_loop}

-- The buffer holds less than a block.
abbrev pub IsOpen : Sha256Ctx → Type 0
IsOpen c = length c.buf < 64

-- A write byte by byte.
pub feed : Sha256Ctx → List ℕ → Sha256Ctx
feed c [] = c
feed c (b ∷ p) = feed (absorb c (b ∷ [])) p

absorb-IsOpen : (c : Sha256Ctx) (b : ℕ) → IsOpen c → IsOpen (absorb c (b ∷ []))
unfolding absorb
absorb-IsOpen c b o = let e = length-append c.buf (b ∷ []) in ground arith

absorb-one :
    (c : Sha256Ctx) (b : ℕ)
    → length c.buf + 1 < 64
    → absorb c (b ∷ []) ≡ record c { buf = c.buf ++ b ∷ [] }
unfolding absorb
absorb-one c b h = let e = length-append c.buf (b ∷ []) in ground arith

-- A copy that fits into the block is a write byte by byte.
absorb-feed :
    (c : Sha256Ctx) (b : ℕ) (p : List ℕ)
    → length c.buf + length (b ∷ p) ≤ 64
    → absorb c (b ∷ p) ≡ feed c (b ∷ p)
unfolding feed absorb
absorb-feed c b [] h = refl
absorb-feed c b (x ∷ p) h =
    let c' : Sha256Ctx = record c { buf = c.buf ++ b ∷ [] } in
    let e = length-append c.buf (b ∷ []) in
    ap
      (λ (buf : List ℕ).
        if length buf == 64
        then record c { s = sha256_block c.s buf; buf = [] }
        else record c { buf = buf })
      (sym (append_assoc c.buf (b ∷ []) (x ∷ p)))
    ∙ absorb-feed c' x p (omega arith)
    ∙ ap (λ d. feed d (x ∷ p)) (sym (absorb-one c b (omega arith)))

feed-append : (c : Sha256Ctx) (p q : List ℕ) → feed c (p ++ q) ≡ feed (feed c p) q
unfolding feed
feed-append c [] q = refl
feed-append c (b ∷ p) q = feed-append (absorb c (b ∷ [])) p q

feed-IsOpen : (c : Sha256Ctx) (p : List ℕ) → IsOpen c → IsOpen (feed c p)
unfolding feed
feed-IsOpen c [] o = o
feed-IsOpen c (b ∷ p) o = feed-IsOpen (absorb c (b ∷ [])) p (absorb-IsOpen c b o)

-- The length counter is not read before the end.
abbrev with_len : ℕ → Sha256Ctx → Sha256Ctx
with_len v c = record c { len = v }

absorb-with_len :
    (c : Sha256Ctx) (b v : ℕ) → absorb (with_len v c) (b ∷ []) ≡ with_len v (absorb c (b ∷ []))
unfolding absorb
absorb-with_len c b v = elim (Bool-cases (length (c.buf ++ b ∷ []) == 64)) [
  | inl e ↦ rw e refl
  | inr e ↦ rw e refl
]

feed-with_len : (c : Sha256Ctx) (p : List ℕ) (v : ℕ) → feed (with_len v c) p ≡ with_len v (feed c p)
unfolding feed
feed-with_len c [] v = refl
feed-with_len c (b ∷ p) v =
    ap (λ d. feed d p) (absorb-with_len c b v) ∙ feed-with_len (absorb c (b ∷ [])) p v

take-append-drop : (n : ℕ) (p : List ℕ) → take n p ++ drop n p ≡ p
take-append-drop zero p = refl
take-append-drop (suc n) [] = refl
take-append-drop (suc n) (b ∷ p) = ap (λ l. b ∷ l) (take-append-drop n p)

-- A non-empty copy, whichever byte it starts with.
absorb-feed_any :
    (c : Sha256Ctx) (p : List ℕ)
    → 1 ≤ length p
    → length c.buf + length p ≤ 64
    → absorb c p ≡ feed c p
absorb-feed_any c [] one h = absurd (omega arith)
absorb-feed_any c (b ∷ p) one h = absorb-feed c b p h

update_loop-feed :
    (fuel : ℕ) (c : Sha256Ctx) (p : List ℕ)
    → IsOpen c
    → length p ≤ fuel
    → update_loop fuel c p ≡ feed c p
unfolding update_loop
update_loop-feed zero c [] o h = unfold feed in refl
update_loop-feed (suc fuel) c [] o h = unfold feed in refl
update_loop-feed zero c (b ∷ p) o h = absurd (omega arith)
update_loop-feed (suc fuel) c (b ∷ p) o h =
    let n = min (64 - length c.buf) (length (b ∷ p)) in
    let t = length-take n (b ∷ p) in
    let d = length-drop n (b ∷ p) in
    let a = absorb-feed_any c (take n (b ∷ p)) (omega arith) (omega arith) in
    ap (λ e. update_loop fuel e (drop n (b ∷ p))) a
    ∙ update_loop-feed fuel (feed c (take n (b ∷ p))) (drop n (b ∷ p))
        (feed-IsOpen c (take n (b ∷ p)) o) (omega arith)
    ∙ sym (feed-append c (take n (b ∷ p)) (drop n (b ∷ p)))
    ∙ ap (feed c) (take-append-drop n (b ∷ p))

update-feed :
    (c : Sha256Ctx) (p : List ℕ)
    → IsOpen c
    → sha256_update c p ≡ with_len (u64 (c.len + length p * 8)) (feed c p)
unfolding sha256_update
update-feed c p o =
    update_loop-feed (length p) (with_len (u64 (c.len + length p * 8)) c) p o (omega arith)
    ∙ feed-with_len c p (u64 (c.len + length p * 8))

-- Writing two pieces in two calls leaves the state that writing them in one call leaves.
pub sha256_update-append :
    (c : Sha256Ctx) (p q : List ℕ)
    → IsOpen c
    → sha256_update (sha256_update c p) q ≡ sha256_update c (p ++ q)
sha256_update-append c p q o =
    let l = u64 (c.len + length p * 8) in
    let e = length-append p q in
    let v : u64 (l + length q * 8) ≡ u64 (c.len + length (p ++ q) * 8) = omega arith in
    ap (λ d. sha256_update d q) (update-feed c p o)
    ∙ update-feed (with_len l (feed c p)) q (feed-IsOpen c p o)
    ∙ ap (with_len _) (feed-with_len (feed c p) q l ∙ ap (with_len l) (sym (feed-append c p q)))
    ∙ (ap (λ n. record (feed c (p ++ q)) { len = n }) v)
    ∙ sym (update-feed c (p ++ q) o)

-- How many zero bytes are missing up to the place of the length.
abbrev missing : ℕ → ℕ
missing n = (120 - n) % 64

zero_byte :
    (c : Sha256Ctx)
    → IsOpen c
    → (length (sha256_update c (0 ∷ [])).buf < 64)
      × ((length (sha256_update c (0 ∷ [])).buf ≡ length c.buf + 1)
          ⊎ ((length c.buf ≡ 63) × (length (sha256_update c (0 ∷ [])).buf ≡ 0)))
zero_byte c o =
    rw (update-feed c (0 ∷ []) o)
      (unfold feed absorb in let e = length-append c.buf (0 ∷ []) in ground arith)

pad_loop_lem :
    (fuel : ℕ) (c : Sha256Ctx)
    → IsOpen c
    → missing (length c.buf) ≤ fuel
    → length (pad_loop fuel c).buf ≡ 56
unfolding pad_loop
pad_loop_lem zero c o h = omega arith
pad_loop_lem (suc fuel) c o h =
    let next : Bool → Sha256Ctx =
      λ b. elim b [ true ↦ c | false ↦ pad_loop fuel (sha256_update c (0 ∷ [])) ] in
    elim (Bool-cases (length c.buf == 56)) [
      | inl e ↦ ap (λ b. length (next b).buf) e ∙ (==_iff (length c.buf) 56).0 e
      | inr e ↦
          let z = zero_byte c o in
          let k : missing (length (sha256_update c (0 ∷ [])).buf) ≤ fuel = ground arith in
          ap (λ b. length (next b).buf) e ∙ pad_loop_lem fuel (sha256_update c (0 ∷ [])) z.0 k
    ]

-- The padding loop ends with the 56 bytes that leave room for the length, from every open state.
pub pad_loop_ends : (c : Sha256Ctx) → IsOpen c → length (pad_loop 64 c).buf ≡ 56
pad_loop_ends c o = pad_loop_lem 64 c o (omega arith)
