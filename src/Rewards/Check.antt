-- ===== src/Rewards/Check.antt =====
-- The rewards that a block may carry.
use publiq_pp.Base.{
  ℕ, ◌+◌, ◌*◌, ◌<◌, ◌≡◌, refl, ap, ◌↔◌, Bool, true, false, some, List, [], ◌∷◌, String, arith,
  get_elem?,
}
use publiq_pp.Base.Effects.{ok}
use publiq_pp.Coin.{Coin}
use publiq_pp.Coin.Value.{value, IsCoin, capacity}
use publiq_pp.Blockchain.{Reward}
use publiq_pp.Rewards.{Share, grant, compare_rewards, bad_reward, check_rewards}
use publiq_pp.Rewards.Totals.{total, total_of}
use publiq_pp.Rewards.Shares.{IsDivision}
use publiq_pp.Rewards.Emission.{grant_lem}

module _ (same_reward : Reward → Reward → Bool)
    (exact : (r s : Reward) → (same_reward r s ≡ true) ↔ (r ≡ s)) where
  bad_reward_iff : (rs ss : List Reward) → (bad_reward same_reward rs ss ≡ false) ↔ (ss ≡ rs)
  unfolding bad_reward compare_rewards
  bad_reward_iff [] [] = (λ _. refl, λ _. refl)
  bad_reward_iff [] (s ∷ ss) = (λ e. absurd (ground (arith, e)), λ e. absurd (ground (arith, e)))
  bad_reward_iff (r ∷ rs) [] = (λ e. absurd (ground (arith, e)), λ e. absurd (ground (arith, e)))
  bad_reward_iff (r ∷ rs) (s ∷ ss) =
      let (same, more) = bad_reward_iff rs ss in
      (λ e. ground (arith, e, same, exact r s), λ e. ground (arith, e, more, exact r s))

  -- Where the year has an emission and the shares of authors, channels and storages are each
  -- together at most a whole, with no product that overflows and amounts whose hundredfold is a
  -- coin, and where two rewards compare equal exactly if they are: the rewards are granted without
  -- an exception, they add up to the emission, the sponsored reward and what goes back to sponsors,
  -- and `check_rewards` finds no error exactly in a block that carries these rewards in their
  -- order.
  pub check_rewards_lem :
      (array : List Coin) (year : ℕ) (authors channels storages : List Share)
      (emission sponsored : Coin) (returns : List (String × Coin)) (miner_address : String)
      (block_rewards : List Reward)
      → get_elem? array year ≡ some emission
      → IsCoin emission
      → IsCoin sponsored
      → (value emission + value sponsored) * 100 < capacity
      → IsDivision (value emission + value sponsored) authors
      → IsDivision (value emission + value sponsored) channels
      → IsDivision (value emission + value sponsored) storages
      → (granted : List Reward) × (grant array year authors channels storages sponsored returns
            miner_address
          ≡ ok granted)
        × (total granted ≡ value emission + value sponsored + total_of returns)
        × ((check_rewards same_reward array year authors channels storages sponsored returns
                miner_address block_rewards
              ≡ ok false)
            ↔ (block_rewards ≡ granted))
  unfolding check_rewards
  check_rewards_lem array year authors channels storages emission sponsored returns miner_address
        block_rewards there he hs fits d1 d2 d3 =
      let (granted, runs, sum) =
        grant_lem array year authors channels storages emission sponsored returns miner_address
          there he hs fits d1 d2 d3 in
      let (same, more) = bad_reward_iff granted block_rewards in
      (granted, runs, sum, rw runs (λ e. same (ground (arith, e)), λ e. ap ok (more e)))
