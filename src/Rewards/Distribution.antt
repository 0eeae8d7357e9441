-- ===== src/Rewards/Distribution.antt =====
-- Nothing is lost and nothing is made when an amount is distributed.
use publiq_pp.Base.{
  ◌+◌, ◌<◌, ◌≡◌, refl, ap, ◌∙◌, false, List, [], ◌∷◌, ◌++◌, String, arith, ◌||◌, Bool-cases, inl,
  inr, is_empty,
}
use publiq_pp.Base.Effects.{ok}
use publiq_pp.Coin.{Coin, zero_coin, gt, empty}
use publiq_pp.Coin.Value.{value, IsCoin, capacity, IsCoin-zero_coin, compare-value}
use publiq_pp.Blockchain.{Reward, RewardType}
use publiq_pp.Rewards.{Share, fix_rounding, settle, rewards_for, distribute_rewards}
use publiq_pp.Rewards.Totals.{
  total, total_of, AllCoins, IsRewards, total-append, IsRewards-append, total-rewards_for,
  IsRewards-rewards_for, add_to_last_lem,
}
use publiq_pp.Rewards.Shares.{IsDivision, share_out_lem}

fix_rounding_lem :
    (rest : Coin) (rs : List Reward)
    → IsCoin rest
    → IsRewards rs
    → is_empty rs ≡ false
    → total rs + value rest < capacity
    → (ss : List Reward) × (fix_rounding rest rs ≡ ok ss)
      × IsRewards ss
      × (total ss ≡ total rs + value rest)
fix_rounding_lem rest [] hr h ne fits = absurd (ground (arith, ne))
fix_rounding_lem rest (r ∷ rs) hr h ne fits = add_to_last_lem rest r rs hr h fits

granted_some :
    (kind : RewardType) (rewards : List Reward) (given : List (String × Coin))
    → is_empty given ≡ false
    → is_empty (rewards ++ rewards_for kind given) ≡ false
granted_some kind [] [] e = absurd (ground (arith, e))
granted_some kind [] (x ∷ xs) e = refl
granted_some kind (r ∷ rs) xs e = refl

settle_lem :
    (kind : RewardType) (rewards : List Reward) (rest : Coin) (given : List (String × Coin))
    → IsRewards rewards
    → IsCoin rest
    → AllCoins given
    → is_empty given ≡ false
    → total rewards + (value rest + total_of given) < capacity
    → (ss : List Reward) × (settle kind rewards (rest, given) ≡ ok (zero_coin, ss))
      × IsRewards ss
      × (total ss ≡ total rewards + (value rest + total_of given))
unfolding settle
settle_lem kind rewards rest given h hr hg some_given fits =
    let granted = rewards ++ rewards_for kind given in
    let all =
      IsRewards-append rewards (rewards_for kind given) h (IsRewards-rewards_for kind given hg) in
    let sums : total granted ≡ total rewards + total_of given =
      total-append rewards (rewards_for kind given)
      ∙ ap (λ n. total rewards + n) (total-rewards_for kind given) in
    let (ss, runs, hs, es) =
      fix_rounding_lem rest granted hr all (granted_some kind rewards given some_given)
        (omega (arith, sums)) in
    elim (Bool-cases (gt rest zero_coin)) [
      | inl p ↦ (ss, rw (p, runs) refl, hs, omega (arith, es, sums))
      | inr p ↦
          let nothing : value rest ≡ 0 =
            ground (arith, compare-value rest zero_coin hr IsCoin-zero_coin) in
          (granted, rw p refl, all, omega (arith, sums, nothing))
    ]

-- For an amount and shares that are together at most a whole, with no product that overflows, and
-- rewards whose total stays a coin, `distribute_rewards` returns, and what it adds to the rewards
-- and what it leaves for the miner are together the amount.
pub distribute_rewards_lem :
    (rewards : List Reward) (shares : List Share) (amount : Coin) (kind : RewardType)
    → IsRewards rewards
    → IsCoin amount
    → IsDivision (value amount) shares
    → total rewards + value amount < capacity
    → (left : Coin) × (rewards' : List Reward) × (distribute_rewards rewards shares amount kind
        ≡ ok (left, rewards'))
      × IsCoin left
      × IsRewards rewards'
      × (value left + total rewards' ≡ total rewards + value amount)
unfolding distribute_rewards
distribute_rewards_lem rewards shares amount kind h ha d fits =
    elim (Bool-cases (is_empty shares || empty amount)) [
      | inl p ↦ (amount, rewards, rw p refl, ha, h, omega arith)
      | inr p ↦
          let (rest, given, runs, hr, hg, sums, some_given) =
            share_out_lem amount shares d.whole d.whole amount [] ha ha tt d.computes d.some_whole
              d.within (omega arith) (omega (arith, fits)) in
          let some' : is_empty given ≡ false = ground (arith, p, some_given) in
          let (ss, settles, hs, es) =
            settle_lem kind rewards rest given h hr hg some' (omega (arith, sums, fits)) in
          (zero_coin, ss, rw (p, runs) settles, IsCoin-zero_coin, hs, omega (arith, es, sums))
    ]
