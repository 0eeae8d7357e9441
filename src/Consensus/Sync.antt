-- ===== src/Consensus/Sync.antt =====
-- src/libblockchain/node_synchronization.cpp: the header that the peers promise next, and the one that
-- the node itself could mine. The distance of the node's key from a hash is the parameter `dist`.
use publiq_pp.Base.{
  ℕ, zero, suc, ◌+◌, ◌%◌, ◌<◌, ◌≤◌, ◌≡◌, refl, ap, ◌∙◌, ◌⊎◌, inl, inr, true, false, ◌&&◌, some,
  List, [], ◌∷◌, String, arith, ltb, ◌==◌, if◌then◌else◌, get_elem?, Bool-cases,
}
use publiq_pp.Base.Effects.{Result, ok, bind}
use publiq_pp.Coin.{Coin, u64_mod}
use publiq_pp.State.{NodeType}
use publiq_pp.Loaders.{VectorLoader}
use publiq_pp.Blockchain.{BlockHeaderExtended, Blockchain, last_header_ex}
use publiq_pp.Consensus.{block_mine_delay, check_headers, calc_delta, is_miner}
use publiq_pp.Consensus.Headers.{Follows, check_headers_iff}

-- A header as its constructor makes it.
abbrev pub no_header : BlockHeaderExtended
no_header = record {
  block_number = 0;
  delta = 0;
  c_sum = 0;
  c_const = 0;
  prev_hash = "";
  block_hash = "";
  time_signed = 0;
}

-- The loop of `net_sync_info` over the promised headers, given the number of the last block.
unfoldable pub best_promise :
    ℕ → List BlockHeaderExtended → BlockHeaderExtended → BlockHeaderExtended
best_promise last [] result = result
best_promise last (h ∷ hs) result =
    best_promise last hs
      (if h.block_number == (last + 1) % u64_mod && ltb result.c_sum h.c_sum then h else result)

module _ ⦃L : VectorLoader⦄ where
  unfoldable pub net_sync_info : List BlockHeaderExtended → Blockchain → BlockHeaderExtended
  unfolding best_promise
  net_sync_info promised c = best_promise c.last_header.block_number promised no_header

module _ ⦃L : VectorLoader⦄ (dist : String → ℕ) where
  unfoldable pub own_sync_info : NodeType → Coin → Coin → Blockchain → Result BlockHeaderExtended
  own_sync_info node_type balance mine_amount_threshold c =
      let last = last_header_ex c in
      if is_miner node_type balance mine_amount_threshold
      then bind (calc_delta (dist last.block_hash) balance.whole last.c_const) (λ delta.
        ok (record last {
          prev_hash = last.block_hash;
          block_hash = "";
          delta = delta;
          c_sum = (last.c_sum + delta) % u64_mod;
          time_signed = last.time_signed + block_mine_delay;
          block_number = (last.block_number + 1) % u64_mod;
        }))
      else ok last

  -- For a node that may mine and gets a delta above 0 that does not overflow the sum,
  -- `own_sync_info` returns a header that passes `check_headers` against the last header of the
  -- chain.
  pub own_sync_info_lem :
      (node_type : NodeType) (balance mine_amount_threshold : Coin) (c : Blockchain) (delta : ℕ)
      → is_miner node_type balance mine_amount_threshold ≡ true
      → calc_delta (dist (last_header_ex c).block_hash) balance.whole (last_header_ex c).c_const
        ≡ ok delta
      → 0 < delta
      → (last_header_ex c).c_sum + delta < u64_mod
      → (h : BlockHeaderExtended) × (own_sync_info node_type balance mine_amount_threshold c ≡ ok h)
        × (check_headers h (last_header_ex c) ≡ false)
  unfolding own_sync_info
  own_sync_info_lem node_type balance threshold c delta miner calc some_delta fits =
      let last = last_header_ex c in
      let h : BlockHeaderExtended = record last {
        prev_hash = last.block_hash;
        block_hash = "";
        delta = delta;
        c_sum = (last.c_sum + delta) % u64_mod;
        time_signed = last.time_signed + block_mine_delay;
        block_number = (last.block_number + 1) % u64_mod;
      } in
      let follows : Follows h last = record {
        number = refl;
        grows = omega arith;
        sum = omega arith;
        constant = inl refl;
        link = refl;
        time = refl;
      } in
      (h, rw (miner, calc) refl, (check_headers_iff h last).1 follows)

best_promise-grows :
    (last : ℕ) (hs : List BlockHeaderExtended) (result : BlockHeaderExtended)
    → result.c_sum ≤ (best_promise last hs result).c_sum
unfolding best_promise
best_promise-grows last [] result = omega arith
best_promise-grows last (x ∷ xs) result =
    let chosen =
      if x.block_number == (last + 1) % u64_mod && ltb result.c_sum x.c_sum then x else result in
    let kept : result.c_sum ≤ chosen.c_sum = ground arith in
    omega (arith, best_promise-grows last xs chosen, kept)

best_promise-bound :
    (last : ℕ) (hs : List BlockHeaderExtended) (result : BlockHeaderExtended) (i : ℕ)
    (h : BlockHeaderExtended)
    → get_elem? hs i ≡ some h
    → h.block_number ≡ (last + 1) % u64_mod
    → h.c_sum ≤ (best_promise last hs result).c_sum
unfolding best_promise
best_promise-bound last [] result i h e n = absurd (ground arith)
best_promise-bound last (x ∷ xs) result zero h e n =
    let chosen =
      if x.block_number == (last + 1) % u64_mod && ltb result.c_sum x.c_sum then x else result in
    let same : x ≡ h = cc in
    let taken : x.c_sum ≤ chosen.c_sum =
      ground (arith, ap (λ (y : BlockHeaderExtended). y.block_number) same, n) in
    omega (
      arith,
      best_promise-grows last xs chosen,
      taken,
      ap (λ (y : BlockHeaderExtended). y.c_sum) same,
    )
best_promise-bound last (x ∷ xs) result (suc i) h e n =
    best_promise-bound last xs
      (if x.block_number == (last + 1) % u64_mod && ltb result.c_sum x.c_sum then x else result) i h
      e n

chosen_cases :
    (last : ℕ) (x result : BlockHeaderExtended)
    → let chosen =
        if x.block_number == (last + 1) % u64_mod && ltb result.c_sum x.c_sum then x else result in
      (chosen ≡ result) ⊎ (chosen.block_number ≡ (last + 1) % u64_mod)
chosen_cases last x result =
    elim (Bool-cases (x.block_number == (last + 1) % u64_mod && ltb result.c_sum x.c_sum)) [
      | inl p ↦ inr (rw p (ground (arith, p)))
      | inr p ↦ inl (rw p refl)
    ]

-- The result is the first one, or a promise for the next block.
best_promise-cases :
    (last : ℕ) (hs : List BlockHeaderExtended) (result : BlockHeaderExtended)
    → (best_promise last hs result ≡ result)
      ⊎ ((best_promise last hs result).block_number ≡ (last + 1) % u64_mod)
unfolding best_promise
best_promise-cases last [] result = inl refl
best_promise-cases last (x ∷ xs) result =
    let chosen =
      if x.block_number == (last + 1) % u64_mod && ltb result.c_sum x.c_sum then x else result in
    elim (best_promise-cases last xs chosen) [
      | inr next ↦ inr next
      | inl same ↦ elim (chosen_cases last x result) [
        | inl e ↦ inl (same ∙ e)
        | inr next ↦ inr (ap (λ (y : BlockHeaderExtended). y.block_number) same ∙ next)
      ]
    ]

module _ ⦃L : VectorLoader⦄ where
  -- `net_sync_info` gives the empty header or one with the number after the last header's, modulo
  -- 2^64, and its sum of difficulties is at least that of every promised header with that number.
  pub net_sync_info_lem :
      (promised : List BlockHeaderExtended) (c : Blockchain)
      → ((net_sync_info promised c ≡ no_header)
          ⊎ ((net_sync_info promised c).block_number ≡ (c.last_header.block_number + 1) % u64_mod))
        × ((i : ℕ) (h : BlockHeaderExtended)
            → get_elem? promised i ≡ some h
            → h.block_number ≡ (c.last_header.block_number + 1) % u64_mod
            → h.c_sum ≤ (net_sync_info promised c).c_sum)
  unfolding net_sync_info
  net_sync_info_lem promised c = (
    best_promise-cases c.last_header.block_number promised no_header,
    best_promise-bound c.last_header.block_number promised no_header,
  )
