-- ===== src/Rewards/Totals.antt =====
-- What a list of rewards adds up to.
use publiq_pp.Base.{
  ℕ, ◌+◌, ◌<◌, ◌≡◌, refl, ap, List, [], ◌∷◌, ◌++◌, String, str_eq, arith, Bool-cases, inl, inr,
}
use publiq_pp.Base.Ordered.{before}
use publiq_pp.Base.Effects.{ok, bind}
use publiq_pp.Coin.{Coin, zero_coin, add}
use publiq_pp.Coin.Value.{value, IsCoin, capacity, IsCoin-zero_coin, make-fields}
use publiq_pp.Coin.Arithmetic.{add-value}
use publiq_pp.State.{from_message}
use publiq_pp.Blockchain.{Reward, RewardType}
use publiq_pp.Rewards.{add_to, add_to_last, rewards_for}

abbrev pub total_of : List (String × Coin) → ℕ
total_of [] = 0
total_of (x ∷ xs) = value x.1 + total_of xs

abbrev pub AllCoins : List (String × Coin) → Type 0
AllCoins [] = Unit {0}
AllCoins (x ∷ xs) = IsCoin x.1 × AllCoins xs

abbrev pub total : List Reward → ℕ
total [] = 0
total (r ∷ rs) = value r.amount + total rs

abbrev pub IsRewards : List Reward → Type 0
IsRewards [] = Unit {0}
IsRewards (r ∷ rs) = IsCoin r.amount × IsRewards rs

pub total-append : (rs ss : List Reward) → total (rs ++ ss) ≡ total rs + total ss
total-append [] ss = omega arith
total-append (r ∷ rs) ss = omega (arith, total-append rs ss)

pub IsRewards-append : (rs ss : List Reward) → IsRewards rs → IsRewards ss → IsRewards (rs ++ ss)
IsRewards-append [] ss h k = k
IsRewards-append (r ∷ rs) ss h k = (h.0, IsRewards-append rs ss h.1 k)

pub total-rewards_for :
    (t : RewardType) (xs : List (String × Coin)) → total (rewards_for t xs) ≡ total_of xs
total-rewards_for t [] = refl
total-rewards_for t (x ∷ xs) = ap (λ n. value x.1 + n) (total-rewards_for t xs)

pub IsRewards-rewards_for :
    (t : RewardType) (xs : List (String × Coin)) → AllCoins xs → IsRewards (rewards_for t xs)
IsRewards-rewards_for t [] h = tt
IsRewards-rewards_for t (x ∷ xs) h = (h.0, IsRewards-rewards_for t xs h.1)

pub add_to_lem :
    (key : String) (a : Coin) (xs : List (String × Coin))
    → IsCoin a
    → AllCoins xs
    → total_of xs + value a < capacity
    → AllCoins (add_to key a xs) × (total_of (add_to key a xs) ≡ total_of xs + value a)
unfolding add_to
add_to_lem key a [] ha h fits =
    let (hs, es) = add-value zero_coin a IsCoin-zero_coin ha fits in ((hs, tt), omega (arith, es))
add_to_lem key a ((k, c) ∷ xs) ha h fits =
    let (hs, es) = add-value c a h.0 ha (omega (arith, fits)) in
    let (h0, e0) = add-value zero_coin a IsCoin-zero_coin ha (omega (arith, fits)) in
    let (hr, er) = add_to_lem key a xs ha h.1 (omega (arith, fits)) in
    elim (Bool-cases (str_eq key k)) [
      | inl p ↦ rw p ((hs, h.1), omega (arith, es))
      | inr p ↦ elim (Bool-cases (before key k)) [
        | inl q ↦ rw (p, q) ((h0, h), omega (arith, e0))
        | inr q ↦ rw (p, q) ((h.0, hr), omega (arith, er))
      ]
    ]

pub add_to_last_lem :
    (rest : Coin) (r : Reward) (rs : List Reward)
    → IsCoin rest
    → IsRewards (r ∷ rs)
    → total (r ∷ rs) + value rest < capacity
    → (ss : List Reward) × (add_to_last rest r rs ≡ ok ss)
      × IsRewards ss
      × (total ss ≡ total (r ∷ rs) + value rest)
unfolding add_to_last from_message
add_to_last_lem rest r [] hr h fits =
    let (hs, es) = add-value rest r.amount hr h.0 (omega (arith, fits)) in
    (
      record r { amount = add rest r.amount } ∷ [],
      ap (λ m. bind m λ amount. ok (record r { amount = add rest amount } ∷ []))
          (make-fields r.amount h.0),
      (hs, tt),
      omega (arith, es),
    )
add_to_last_lem rest r (r' ∷ rs) hr h fits =
    let (ss, runs, hs, sums) = add_to_last_lem rest r' rs hr h.1 (omega (arith, fits)) in
    (r ∷ ss, ap (λ m. bind m λ rs'. ok (r ∷ rs')) runs, (h.0, hs), omega (arith, sums))
