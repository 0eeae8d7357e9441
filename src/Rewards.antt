-- ===== src/Rewards.antt =====
-- The rewards of a block: `distribute_rewards`, the second half of `grant_rewards`, and
-- `check_rewards`, of src/libblockchain/communication_p2p.cpp. Maps that the code walks in the order
-- of their keys are lists in that order.
pub mod Totals
pub mod Shares
pub mod Distribution
pub mod Emission
pub mod Check
use publiq_pp.Base.{
  ℕ, zero, suc, ◌+◌, ◌-◌, ◌*◌, ◌/◌, ◌%◌, Bool, true, false, not, ◌&&◌, ◌||◌, Option, none, some,
  List, [], ◌∷◌, ◌++◌, String, str_eq, if◌then◌else◌, ◌==◌, ltb, leb, length, is_empty, get_elem?,
}
use publiq_pp.Base.Ordered.{before}
use publiq_pp.Base.Effects.{out_of_range, Result, ok, err, bind}
use publiq_pp.Coin.{Coin, zero_coin, add, sub, mul, div, gt, eq, ne, empty}
use publiq_pp.State.{from_message}
use publiq_pp.Blockchain.{Reward, RewardType}

-- An entry of a `multimap<string, pair<uint64_t, uint64_t>>`: a part of the whole as a fraction.
abbrev pub Share : Type 0
Share = String × (ℕ × ℕ)

-- `coin_distribution[key] += amount` on a `map<string, coin>`
unfoldable pub add_to : String → Coin → List (String × Coin) → List (String × Coin)
add_to key amount [] = (key, add zero_coin amount) ∷ []
add_to key amount ((k, c) ∷ entries) =
    let rest = add_to key amount entries in
    if str_eq key k
    then (k, add c amount) ∷ entries
    else if before key k
    then (key, add zero_coin amount) ∷ (k, c) ∷ entries
    else (k, c) ∷ rest

-- The loop over `stat_distribution`, with `rest_amount` and `coin_distribution`.
unfoldable pub share_out :
    Coin → List Share → Coin → List (String × Coin) → Result (Coin × List (String × Coin))
unfolding add_to
share_out total_amount [] rest_amount coin_distribution = ok (rest_amount, coin_distribution)
share_out total_amount ((key, (first, second)) ∷ items) rest_amount coin_distribution =
    bind (div (mul total_amount first) second) λ amount.
      bind (sub rest_amount amount)
        λ rest. share_out total_amount items rest (add_to key amount coin_distribution)

abbrev pub reward_of : RewardType → String × Coin → Reward
reward_of kind item = record { to = item.0; amount = item.1; reward_type = kind }

-- `rewards.back()` gets the rest of the rounding as well.
unfoldable pub add_to_last : Coin → Reward → List Reward → Result (List Reward)
add_to_last rest r [] =
    bind (from_message r.amount) λ amount. ok (record r { amount = add rest amount } ∷ [])
add_to_last rest r (r' ∷ rs) = bind (add_to_last rest r' rs) λ rs'. ok (r ∷ rs')

abbrev pub fix_rounding : Coin → List Reward → Result (List Reward)
fix_rounding rest [] = err out_of_range
fix_rounding rest (r ∷ rs) = add_to_last rest r rs

abbrev pub rewards_for : RewardType → List (String × Coin) → List Reward
rewards_for kind [] = []
rewards_for kind (item ∷ items) = reward_of kind item ∷ rewards_for kind items

-- The rewards of a distribution, and what it could not divide added to the last of them.
unfoldable pub settle :
    RewardType → List Reward → Coin × List (String × Coin) → Result (Coin × List Reward)
unfolding add_to_last
settle reward_type rewards (rest_amount, coin_distribution) =
    let granted = rewards ++ rewards_for reward_type coin_distribution in
    if gt rest_amount zero_coin
    then bind (fix_rounding rest_amount granted) (λ granted'. ok (zero_coin, granted'))
    else ok (zero_coin, granted)

-- What is left for the miner, and the rewards with those added.
unfoldable pub distribute_rewards :
    List Reward → List Share → Coin → RewardType → Result (Coin × List Reward)
unfolding share_out settle
distribute_rewards rewards stat_distribution total_amount reward_type =
    if is_empty stat_distribution || empty total_amount
    then ok (total_amount, rewards)
    else bind (share_out total_amount stat_distribution total_amount [])
        (settle reward_type rewards)

-- `amount * percent / 100`
abbrev pub percent_of : Coin → ℕ → Result Coin
percent_of amount percent = div (mul amount percent) 100

-- How an amount is divided: the part of the miner, of the authors, of the channels and of the storages.
pub record Parts : Type 0 where
  pub miner : Coin
  pub author : Coin
  pub channel : Coin
  pub storage : Coin

abbrev pub no_parts : Parts
no_parts = record {
  miner = zero_coin;
  author = zero_coin;
  channel = zero_coin;
  storage = zero_coin;
}

unfoldable pub split_emission : Coin → Result Parts
split_emission emission_reward = bind (percent_of emission_reward 10) λ miner.
    bind (percent_of emission_reward 40) λ author. bind (percent_of emission_reward 30) λ channel.
      bind (sub emission_reward miner) λ rest. bind (sub rest author) λ rest'.
        bind (sub rest' channel) λ storage.
          ok (record { miner = miner; author = author; channel = channel; storage = storage })

-- `block_reward_array` is read before the year is compared with its size, past the end as well.
unfoldable pub emission_parts : List Coin → ℕ → Result Parts
unfolding split_emission
emission_parts block_reward_array year_index = elim (get_elem? block_reward_array year_index) [
  | none ↦ err out_of_range
  | some emission_reward ↦ split_emission emission_reward
]

unfoldable pub sponsored_parts : Coin → Result Parts
sponsored_parts sponsored_reward = bind (percent_of sponsored_reward 50) λ author.
    bind (percent_of sponsored_reward 30) λ channel. bind (sub sponsored_reward author) λ rest.
      bind (sub rest channel) λ storage.
        ok (record { miner = zero_coin; author = author; channel = channel; storage = storage })

-- The reward of the miner, if there is one.
abbrev pub miner_rewards : String → Coin → List Reward
miner_rewards miner_address amount =
    if not (empty amount) then reward_of RewardType.miner (miner_address, amount) ∷ [] else []

-- The three distributions: the miner's reward grows by what they leave.
unfoldable pub distribute_all :
    List Share → List Share → List Share → Coin → Coin → Coin → Coin → Result (Coin × List Reward)
unfolding distribute_rewards
distribute_all author_result channel_result storage_result miner author channel storage =
    bind (distribute_rewards [] author_result author RewardType.author) λ (left1, rewards1).
      bind (distribute_rewards rewards1 channel_result channel RewardType.channel)
        λ (left2, rewards2).
          bind (distribute_rewards rewards2 storage_result storage RewardType.storage)
            λ (left3, rewards3). ok (add (add (add miner left1) left2) left3, rewards3)

-- `grant_rewards` from `emission_reward` on, given what the first half has collected: the three
-- results of the statistics, the sponsored reward and what goes back to sponsors.
unfoldable pub grant :
    List Coin
    → ℕ
    → List Share
    → List Share
    → List Share
    → Coin
    → List (String × Coin)
    → String
    → Result (List Reward)
unfolding emission_parts sponsored_parts distribute_all
grant block_reward_array year_index author_result channel_result storage_result sponsored_reward
      sponsored_rewards_returns miner_address =
    bind (emission_parts block_reward_array year_index) λ e.
      bind (sponsored_parts sponsored_reward) λ s.
        bind
          (distribute_all author_result channel_result storage_result e.miner
            (add e.author s.author) (add e.channel s.channel) (add e.storage s.storage))
          λ (miner_emission_reward, rewards). ok (
            rewards
            ++ rewards_for RewardType.sponsored_return sponsored_rewards_returns
            ++ miner_rewards miner_address miner_emission_reward)

-- `operator ==` of a `Reward`, which is generated, is the parameter `same_reward`.
module _ (same_reward : Reward → Reward → Bool) where
  -- The loop of `check_rewards` over both lists, which are of one length.
  unfoldable pub compare_rewards : List Reward → List Reward → Bool
  compare_rewards [] rewards = false
  compare_rewards (r ∷ rs) [] = true
  compare_rewards (r ∷ rs) (s ∷ ss) =
      let rest = compare_rewards rs ss in if not (same_reward r s) then true else rest

  unfoldable pub bad_reward : List Reward → List Reward → Bool
  unfolding compare_rewards
  bad_reward rewards block_rewards =
      let bad = compare_rewards rewards block_rewards in
      if not (length rewards == length block_rewards) then true else bad

  -- The call of `grant_rewards` takes what `grant` takes; true means an error.
  unfoldable pub check_rewards :
      List Coin
      → ℕ
      → List Share
      → List Share
      → List Share
      → Coin
      → List (String × Coin)
      → String
      → List Reward
      → Result Bool
  unfolding grant bad_reward
  check_rewards block_reward_array year_index author_result channel_result storage_result
        sponsored_reward sponsored_rewards_returns miner_address block_rewards =
      bind
        (grant block_reward_array year_index author_result channel_result storage_result
          sponsored_reward sponsored_rewards_returns miner_address)
        λ rewards. ok (bad_reward rewards block_rewards)
