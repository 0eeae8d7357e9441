-- ===== src/Tests/Payouts.antt =====
-- The rewards of a block with two authors, a channel and a storage.
use publiq_pp.Base.{
  ℕ, ◌+◌, ◌≡◌, refl, sym, ap, ◌∙◌, ◌↔◌, Bool, true, false, List, [], ◌∷◌, String, arith, str_eq,
  eq_iff, ◌==◌, ◌&&◌, if◌then◌else◌,
}
use publiq_pp.Base.Effects.{ok}
use publiq_pp.Coin.{Coin, empty, div, sub, mul, gt, add}
use publiq_pp.State.{from_message}
use publiq_pp.Coin.Value.{value, IsCoin}
use publiq_pp.Blockchain.{Reward, RewardType}
use publiq_pp.Rewards.{Share, distribute_rewards, grant, bad_reward, check_rewards}
use publiq_pp.Rewards.Totals.{total, total_of, IsRewards}
use publiq_pp.Rewards.Shares.{IsDivision}
use publiq_pp.Rewards.Distribution.{distribute_rewards_lem}
use publiq_pp.Rewards.Emission.{grant_lem}
use publiq_pp.Rewards.Check.{check_rewards_lem}
use publiq_pp.Tests.Nodes.{coins}

-- Alice has two views of three, bob has one.
abbrev two_authors : List Share
two_authors = ("alice", (2, 3)) ∷ ("bob", (1, 3)) ∷ []

abbrev one_channel : List Share
one_channel = ("carol", (6, 6)) ∷ []

two_authors-IsDivision : IsDivision 200000000000 two_authors
two_authors-IsDivision = record {
  whole = 3;
  some_whole = omega arith;
  within = (2, refl, omega arith, (1, refl, omega arith, tt));
  computes = (
    omega arith,
    omega arith,
    omega arith,
    omega arith,
    (omega arith, omega arith, omega arith, omega arith, tt),
  );
}

one_channel-IsDivision : IsDivision 200000000000 one_channel
one_channel-IsDivision = record {
  whole = 6;
  some_whole = omega arith;
  within = (6, refl, omega arith, tt);
  computes = (omega arith, omega arith, omega arith, omega arith, tt);
}

abbrev reward : RewardType → String → ℕ → ℕ → Reward
reward kind to whole fraction = record {
  to = to;
  amount = coins whole fraction;
  reward_type = kind;
}

-- The fraction that three cannot divide goes to bob, who is the last.
rounds :
    distribute_rewards [] two_authors (coins 10 0) RewardType.author
    ≡ ok (
      coins 0 0,
      reward RewardType.author "alice" 6 66666666 ∷ reward RewardType.author "bob" 3 33333334 ∷ [],
    )
unfolding distribute_rewards empty div sub mul gt from_message add
rounds = refl

pays :
    grant
      (coins 1000 0 ∷ [])
      0
      two_authors
      one_channel
      []
      (coins 1000 0)
      (("dave", coins 1 0) ∷ [])
      "miner"
    ≡ ok (
        reward RewardType.author "alice" 600 0
        ∷ reward RewardType.author "bob" 300 0
        ∷ reward RewardType.channel "carol" 600 0
        ∷ reward RewardType.sponsored_return "dave" 1 0
        ∷ reward RewardType.miner "miner" 500 0
        ∷ [])
unfolding grant empty div sub mul gt add
pays = refl

distribute_rewards_lem_example :
    (left : Coin) × (rewards' : List Reward) × (distribute_rewards [] two_authors
        (coins 2000 0)
        RewardType.author
      ≡ ok (left, rewards'))
    × IsCoin left
    × IsRewards rewards'
    × (value left + total rewards' ≡ total [] + value (coins 2000 0))
distribute_rewards_lem_example =
    distribute_rewards_lem [] two_authors (coins 2000 0) RewardType.author tt (omega arith)
      two_authors-IsDivision (omega arith)

grant_lem_example :
    (rewards : List Reward) × (grant
        (coins 1000 0 ∷ [])
        0
        two_authors
        one_channel
        []
        (coins 1000 0)
        (("dave", coins 1 0) ∷ [])
        "miner"
      ≡ ok rewards)
    × (total rewards
        ≡ value (coins 1000 0) + value (coins 1000 0) + total_of (("dave", coins 1 0) ∷ []))
grant_lem_example =
    grant_lem (coins 1000 0 ∷ []) 0 two_authors one_channel [] (coins 1000 0) (coins 1000 0)
      (("dave", coins 1 0) ∷ []) "miner" refl (omega arith) (omega arith) (omega arith)
      two_authors-IsDivision one_channel-IsDivision
      (record { whole = 1; some_whole = omega arith; within = tt; computes = tt })

abbrev kind_number : RewardType → ℕ
kind_number RewardType.initial = 0
kind_number RewardType.miner = 1
kind_number RewardType.author = 2
kind_number RewardType.channel = 3
kind_number RewardType.storage = 4
kind_number RewardType.sponsored_return = 5

abbrev kind_at : ℕ → RewardType
kind_at n =
    if n == 0
    then RewardType.initial
    else if n == 1
    then RewardType.miner
    else if n == 2
    then RewardType.author
    else if n == 3
    then RewardType.channel
    else if n == 4
    then RewardType.storage
    else RewardType.sponsored_return

kind_at-kind_number : (a : RewardType) → kind_at (kind_number a) ≡ a
kind_at-kind_number RewardType.initial = refl
kind_at-kind_number RewardType.miner = refl
kind_at-kind_number RewardType.author = refl
kind_at-kind_number RewardType.channel = refl
kind_at-kind_number RewardType.storage = refl
kind_at-kind_number RewardType.sponsored_return = refl

kind_injective : (a b : RewardType) → kind_number a ≡ kind_number b → a ≡ b
kind_injective a b e = sym (kind_at-kind_number a) ∙ ap kind_at e ∙ kind_at-kind_number b

-- All fields are compared.
abbrev same_fields : Reward → Reward → Bool
same_fields r s =
    str_eq r.to s.to
    && r.amount.whole == s.amount.whole
    && r.amount.fraction == s.amount.fraction
    && kind_number r.reward_type == kind_number s.reward_type

same_fields_iff : (r s : Reward) → (same_fields r s ≡ true) ↔ (r ≡ s)
same_fields_iff r s = (
  λ e. ground (arith, e, eq_iff r.to s.to, kind_injective r.reward_type s.reward_type),
  λ e. ground (arith, e, eq_iff r.to s.to),
)

-- A block whose one reward is for another role.
differs :
    bad_reward same_fields
      (reward RewardType.miner "a" 1 0 ∷ [])
      (reward RewardType.author "a" 1 0 ∷ [])
    ≡ true
unfolding bad_reward
differs = refl

check_rewards_lem_example :
    (granted : List Reward) × (grant
        (coins 1000 0 ∷ [])
        0
        two_authors
        one_channel
        []
        (coins 1000 0)
        (("dave", coins 1 0) ∷ [])
        "miner"
      ≡ ok granted)
    × (total granted
        ≡ value (coins 1000 0) + value (coins 1000 0) + total_of (("dave", coins 1 0) ∷ []))
    × ((check_rewards same_fields
            (coins 1000 0 ∷ [])
            0
            two_authors
            one_channel
            []
            (coins 1000 0)
            (("dave", coins 1 0) ∷ [])
            "miner"
            (reward RewardType.miner "miner" 500 0 ∷ [])
          ≡ ok false)
        ↔ (reward RewardType.miner "miner" 500 0 ∷ [] ≡ granted))
check_rewards_lem_example =
    check_rewards_lem same_fields same_fields_iff (coins 1000 0 ∷ []) 0 two_authors one_channel []
      (coins 1000 0) (coins 1000 0) (("dave", coins 1 0) ∷ []) "miner"
      (reward RewardType.miner "miner" 500 0 ∷ []) refl (omega arith) (omega arith) (omega arith)
      two_authors-IsDivision one_channel-IsDivision
      (record { whole = 1; some_whole = omega arith; within = tt; computes = tt })
