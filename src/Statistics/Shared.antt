-- ===== src/Statistics/Shared.antt =====
-- The shares of the storages and of the channels are parts of a whole.
use publiq_pp.Base.{
  ℕ, ◌+◌, ◌*◌, ◌%◌, ◌<◌, ◌≤◌, ◌≡◌, refl, sym, ◌∙◌, subst, List, [], ◌∷◌, String, str_eq, arith,
  Bool-cases, inl, inr,
}
use publiq_pp.Base.Ordered.{insert_multi}
use publiq_pp.Coin.{u64_mod}
use publiq_pp.Rewards.{Share}
use publiq_pp.Rewards.Shares.{Within}
use publiq_pp.Statistics.Collect.{
  ByContent, Channels, sum_views, storage_shares, collect_storages, channel_share, content_counts,
  owner_shares, server_shares, collect_channels,
}
use publiq_pp.Statistics.Wholes.{
  AreParts, Within-le, Within-insert_multi, Scales, Scales-insert_multi, scale-AreParts,
}

-- Storages: one over the sum of all views each.
abbrev pub sum_of : List (String × ℕ) → ℕ
sum_of [] = 0
sum_of ((key, n) ∷ items) = n + sum_of items

sum_views_lem :
    (items : List (String × ℕ)) (sum : ℕ)
    → sum + sum_of items < u64_mod
    → sum_views items sum ≡ sum + sum_of items
sum_views_lem [] sum h = omega arith
sum_views_lem ((key, n) ∷ items) sum h =
    let exact : (sum + n) % u64_mod ≡ sum + n = omega (arith, h) in
    rw exact (omega (arith, sum_views_lem items (sum + n) (omega (arith, h))))

storage_shares_lem :
    (items : List (String × ℕ)) (n : ℕ) (xs : List Share)
    → Within 1 n xs
    → Within 1 (n + sum_of items) (storage_shares items xs)
unfolding storage_shares
storage_shares_lem [] n xs k = Within-le 1 n (n + 0) xs (omega arith) k
storage_shares_lem ((key, c) ∷ items) n xs k =
    Within-le 1 (n + c + sum_of items) (n + (c + sum_of items)) _ (omega arith) (
      storage_shares_lem items (n + c) (insert_multi key (c, 1) xs)
        (Within-insert_multi 1 n c key c 1 xs refl k))

storage_shares-Scales :
    (t : ℕ) (items : List (String × ℕ)) (xs : List Share)
    → t < u64_mod
    → Scales t xs
    → Scales t (storage_shares items xs)
unfolding storage_shares
storage_shares-Scales t [] xs h k = k
storage_shares-Scales t ((key, c) ∷ items) xs h k =
    storage_shares-Scales t items (insert_multi key (c, 1) xs) h
      (Scales-insert_multi t key c 1 xs (omega (arith, h)) k)

-- Where the sum of the views does not overflow, the storages share at most the whole.
pub collect_storages-AreParts :
    (group : List (String × ℕ)) → sum_of group < u64_mod → AreParts (collect_storages group)
unfolding collect_storages
collect_storages-AreParts group h =
    let total : sum_views group 0 ≡ sum_of group =
      sum_views_lem group 0 (omega (arith, h)) ∙ omega arith in
    rw total (
      scale-AreParts 1 (sum_of group) (storage_shares group []) (omega arith)
        (Within-le 1 (0 + sum_of group) (sum_of group * 1) _ (omega arith)
          (storage_shares_lem group 0 [] tt))
        (storage_shares-Scales (sum_of group) group [] h tt))

module _ (count_views : ByContent → ℕ) where
  -- What the owners' contents count together.
  abbrev owners_sum : List (String × ByContent) → ℕ
  owners_sum [] = 0
  owners_sum ((owner, contents) ∷ items) = count_views contents + owners_sum items

  abbrev pub servers_sum : List (String × List (String × ByContent)) → ℕ
  servers_sum [] = 0
  servers_sum ((server, owners) ∷ items) = owners_sum owners + servers_sum items

  -- Shares in halves, which the sum so far doubles.
  record Halves (t : ℕ) (c : Channels) : Type 0 where
    within : Within 2 (c.total * 2) c.shares
    scales : Scales t c.shares

  channel_share-Halves :
      (t count n : ℕ) (serving owner : String) (xs : List Share)
      → 2 * t < u64_mod
      → count ≤ t
      → Within 2 (n * 2) xs
      → Scales t xs
      → Within 2 ((n + count) * 2) (channel_share serving owner count xs)
        × Scales t (channel_share serving owner count xs)
  unfolding channel_share
  channel_share-Halves t count n serving owner xs h l k s =
      elim (Bool-cases (str_eq serving owner)) [
        | inl b ↦
            let exact : (2 * count) % u64_mod ≡ 2 * count = omega arith in
            rw (b, exact)
              (
                Within-le 2 (n * 2 + 2 * count) ((n + count) * 2) _ (omega arith)
                    (Within-insert_multi 2 (n * 2) (2 * count) serving (2 * count) 2 xs refl k),
                Scales-insert_multi t serving (2 * count) 2 xs h s,
              )
        | inr b ↦ rw b (
          Within-le 2 (n * 2 + count + count) ((n + count) * 2) _ (omega arith) (
              Within-insert_multi 2 (n * 2 + count) count serving count 2 _ refl
                (Within-insert_multi 2 (n * 2) count owner count 2 xs refl k)),
          Scales-insert_multi t serving count 2 _ h (Scales-insert_multi t owner count 2 xs h s),
        )
      ]

  owner_shares-Halves :
      (t : ℕ) (serving : String) (items : List (String × ByContent)) (c : Channels)
      → 2 * t < u64_mod
      → c.total + owners_sum items ≤ t
      → Halves t c
      → Halves t (owner_shares count_views serving items c)
        × ((owner_shares count_views serving items c).total ≡ c.total + owners_sum items)
  unfolding owner_shares
  owner_shares-Halves t serving [] c h l k = (k, omega arith)
  owner_shares-Halves t serving ((owner, contents) ∷ items) c h l k =
      let exact : (c.total + count_views contents) % u64_mod ≡ c.total + count_views contents =
        omega arith in
      let (within, scales) =
        channel_share-Halves t (count_views contents) c.total serving owner c.shares h (omega arith)
          k.within k.scales in
      let (k', e) =
        owner_shares-Halves t serving items
          (record {
            shares = channel_share serving owner (count_views contents) c.shares;
            total = (c.total + count_views contents) % u64_mod;
            unit_uri_view_counts = content_counts serving contents c.unit_uri_view_counts;
          })
          h (omega (arith, exact, l))
          (record {
            within =
                subst
                  (λ n.
                    Within 2 (n * 2) (channel_share serving owner (count_views contents) c.shares))
                  (sym exact) within;
            scales = scales;
          }) in
      (k', omega (arith, e, exact))

  server_shares-Halves :
      (t : ℕ) (items : List (String × List (String × ByContent))) (c : Channels)
      → 2 * t < u64_mod
      → c.total + servers_sum items ≤ t
      → Halves t c
      → Halves t (server_shares count_views items c)
        × ((server_shares count_views items c).total ≡ c.total + servers_sum items)
  unfolding server_shares
  server_shares-Halves t [] c h l k = (k, omega arith)
  server_shares-Halves t ((serving, owners) ∷ items) c h l k =
      let (k', e') = owner_shares-Halves t serving owners c h (omega arith) k in
      let (k'', e'') = server_shares-Halves t items _ h (omega (arith, e', l)) k' in
      (k'', omega (arith, e', e''))

  -- Where twice the sum of the counts does not overflow, the channels share at most the whole.
  pub collect_channels-AreParts :
      (group : List (String × List (String × ByContent)))
      → 2 * servers_sum group < u64_mod
      → AreParts (collect_channels count_views group).shares
  unfolding collect_channels
  collect_channels-AreParts group h =
      let start : Channels = record { shares = []; total = 0; unit_uri_view_counts = [] } in
      let (k, e) =
        server_shares-Halves (servers_sum group) group start h (omega arith)
          (record { within = tt; scales = tt }) in
      let total : (server_shares count_views group start).total ≡ servers_sum group =
        omega (arith, e) in
      scale-AreParts 2 (server_shares count_views group start).total
        (server_shares count_views group start).shares (omega arith) k.within
        (subst (λ t. Scales t (server_shares count_views group start).shares) (sym total) k.scales)
