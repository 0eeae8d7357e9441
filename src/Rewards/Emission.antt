-- ===== src/Rewards/Emission.antt =====
-- What the rewards of a block add up to.
use publiq_pp.Base.{
  ℕ, ◌+◌, ◌*◌, ◌/◌, ◌<◌, ◌≤◌, ◌≡◌, refl, ap, ◌∙◌, some, List, [], ◌++◌, String, arith, get_elem?,
  Bool-cases, inl, inr,
}
use publiq_pp.Base.Effects.{ok}
use publiq_pp.Coin.{Coin, zero_coin, add, mul, empty}
use publiq_pp.Coin.Value.{value, IsCoin, capacity, IsCoin-zero_coin, empty-value}
use publiq_pp.Coin.Arithmetic.{add-value, sub-value}
use publiq_pp.Coin.Scaling.{mul-value, div-value}
use publiq_pp.Blockchain.{Reward, RewardType}
use publiq_pp.Rewards.{
  Share, Parts, percent_of, split_emission, emission_parts, sponsored_parts, distribute_all,
  rewards_for, miner_rewards, grant,
}
use publiq_pp.Rewards.Totals.{total, total_of, total-append, total-rewards_for}
use publiq_pp.Rewards.Shares.{IsDivision, Computes-le}
use publiq_pp.Rewards.Distribution.{distribute_rewards_lem}

percent-value :
    (c : Coin) (percent : ℕ)
    → IsCoin c
    → percent ≤ 100
    → value c * 100 < capacity
    → (a : Coin) × (percent_of c percent ≡ ok a) × IsCoin a × (value a ≡ value c * percent / 100)
percent-value c percent h l fits =
    let bound : value c * percent ≤ value c * 100 = grind arith in
    let (hm, em) = mul-value c percent h (grind arith) (omega (arith, bound, fits)) in
    let (a, runs, ha, ea) = div-value (mul c percent) 100 hm (omega arith) (omega arith) in
    (a, runs, ha, ea ∙ ap (λ n. n / 100) em)

-- The parts are coins, and together they are the amount.
record IsSplit (c : Coin) (p : Parts) : Type 0 where
  miner : IsCoin p.miner
  author : IsCoin p.author
  channel : IsCoin p.channel
  storage : IsCoin p.storage
  whole : value p.miner + (value p.author + (value p.channel + value p.storage)) ≡ value c

split_emission_lem :
    (c : Coin)
    → IsCoin c
    → value c * 100 < capacity
    → (p : Parts) × (split_emission c ≡ ok p) × IsSplit c p
unfolding split_emission
split_emission_lem c h fits =
    let (m, runs1, hm, em) = percent-value c 10 h (omega arith) fits in
    let (a, runs2, ha, ea) = percent-value c 40 h (omega arith) fits in
    let (n, runs3, hn, en) = percent-value c 30 h (omega arith) fits in
    let (r, runs4, hr, er) = sub-value c m h hm (omega (arith, em)) in
    let (r', runs5, hr', er') = sub-value r a hr ha (omega (arith, em, ea, er)) in
    let (s, runs6, hs, es) = sub-value r' n hr' hn (omega (arith, em, ea, en, er, er')) in
    (
      record { miner = m; author = a; channel = n; storage = s },
      rw (runs1, runs2, runs3, runs4, runs5, runs6) refl,
      record {
        miner = hm;
        author = ha;
        channel = hn;
        storage = hs;
        whole = omega (arith, es, er', er);
      },
    )

emission_parts_lem :
    (rewards : List Coin) (year : ℕ) (c : Coin)
    → get_elem? rewards year ≡ some c
    → IsCoin c
    → value c * 100 < capacity
    → (p : Parts) × (emission_parts rewards year ≡ ok p) × IsSplit c p
unfolding emission_parts
emission_parts_lem rewards year c there h fits =
    let (p, runs, split) = split_emission_lem c h fits in (p, ground (arith, there, runs), split)

sponsored_parts_lem :
    (c : Coin)
    → IsCoin c
    → value c * 100 < capacity
    → (p : Parts) × (sponsored_parts c ≡ ok p) × IsSplit c p × (value p.miner ≡ 0)
unfolding sponsored_parts
sponsored_parts_lem c h fits =
    let (a, runs2, ha, ea) = percent-value c 50 h (omega arith) fits in
    let (n, runs3, hn, en) = percent-value c 30 h (omega arith) fits in
    let (r, runs5, hr, er) = sub-value c a h ha (omega (arith, ea)) in
    let (s, runs6, hs, es) = sub-value r n hr hn (omega (arith, ea, en, er)) in
    (
      record { miner = zero_coin; author = a; channel = n; storage = s },
      rw (runs2, runs3, runs5, runs6) refl,
      record {
        miner = IsCoin-zero_coin;
        author = ha;
        channel = hn;
        storage = hs;
        whole = omega (arith, es, er);
      },
      refl,
    )

miner_rewards_lem : (address : String) (c : Coin) → total (miner_rewards address c) ≡ value c
miner_rewards_lem address c = elim (Bool-cases (empty c)) [
  | inl p ↦ rw p (ground (arith, p, empty-value c))
  | inr p ↦ rw p (omega arith)
]

smaller : {n m : ℕ} {xs : List Share} → IsDivision m xs → n ≤ m → IsDivision n xs
smaller {n} {m} {xs} d h = record {
  whole = d.whole;
  some_whole = d.some_whole;
  within = d.within;
  computes = Computes-le n m xs h d.computes;
}

distribute_all_lem :
    (authors channels storages : List Share) (m a c t : Coin) (most : ℕ)
    → IsCoin m
    → IsCoin a
    → IsCoin c
    → IsCoin t
    → value m + value a + value c + value t ≤ most
    → most < capacity
    → IsDivision most authors
    → IsDivision most channels
    → IsDivision most storages
    → (miner : Coin) × (rewards : List Reward) × (distribute_all authors channels storages m a c t
        ≡ ok (miner, rewards))
      × (value miner + total rewards ≡ value m + value a + value c + value t)
unfolding distribute_all
distribute_all_lem authors channels storages m a c t most hm ha hc ht within fits d1 d2 d3 =
    let (left1, rewards1, runs3, hl1, hr1, sum1) =
      distribute_rewards_lem [] authors a RewardType.author tt ha (smaller d1 (omega arith))
        (omega arith) in
    let (left2, rewards2, runs4, hl2, hr2, sum2) =
      distribute_rewards_lem rewards1 channels c RewardType.channel hr1 hc
        (smaller d2 (omega arith)) (omega (arith, sum1)) in
    let (left3, rewards3, runs5, hl3, hr3, sum3) =
      distribute_rewards_lem rewards2 storages t RewardType.storage hr2 ht
        (smaller d3 (omega arith)) (omega (arith, sum1, sum2)) in
    let (h1, v1) = add-value m left1 hm hl1 (omega (arith, sum1)) in
    let (h2, v2) = add-value (add m left1) left2 h1 hl2 (omega (arith, v1, sum1, sum2)) in
    let (h3, v3) =
      add-value (add (add m left1) left2) left3 h2 hl3 (omega (arith, v1, v2, sum1, sum2, sum3)) in
    (
      add (add (add m left1) left2) left3,
      rewards3,
      rw (runs3, runs4, runs5) refl,
      omega (arith, v1, v2, v3, sum1, sum2, sum3),
    )

joined :
    (emission sponsored : Coin) (e s : Parts)
    → IsSplit emission e
    → IsSplit sponsored s
    → value emission + value sponsored < capacity
    → IsCoin (add e.author s.author)
      × IsCoin (add e.channel s.channel)
      × IsCoin (add e.storage s.storage)
      × (value e.miner
            + value (add e.author s.author)
            + value (add e.channel s.channel)
            + value (add e.storage s.storage)
            + value s.miner
          ≡ value emission + value sponsored)
joined emission sponsored e s h k fits =
    let (ha, ea) =
      add-value e.author s.author h.author k.author (omega (arith, h.whole, k.whole)) in
    let (hc, ec) =
      add-value e.channel s.channel h.channel k.channel (omega (arith, h.whole, k.whole)) in
    let (ht, et) =
      add-value e.storage s.storage h.storage k.storage (omega (arith, h.whole, k.whole)) in
    (ha, hc, ht, omega (arith, ea, ec, et, h.whole, k.whole))

total-three :
    (rewards : List Reward) (returns : List (String × Coin)) (address : String) (miner : Coin)
    → total
        (rewards ++ rewards_for RewardType.sponsored_return returns ++ miner_rewards address miner)
      ≡ value miner + total rewards + total_of returns
total-three rewards returns address miner =
    let one =
      total-append (rewards ++ rewards_for RewardType.sponsored_return returns)
        (miner_rewards address miner) in
    let two = total-append rewards (rewards_for RewardType.sponsored_return returns) in
    omega (
      arith,
      one,
      two,
      total-rewards_for RewardType.sponsored_return returns,
      miner_rewards_lem address miner,
    )

-- Where the year has an emission and the shares of authors, channels and storages are each together
-- at most a whole, with no product that overflows and amounts whose hundredfold is a coin, the
-- rewards are granted without an exception, and they add up to the emission, the sponsored reward
-- and what goes back to sponsors.
pub grant_lem :
    (array : List Coin) (year : ℕ) (authors channels storages : List Share)
    (emission sponsored : Coin) (returns : List (String × Coin)) (miner_address : String)
    → get_elem? array year ≡ some emission
    → IsCoin emission
    → IsCoin sponsored
    → (value emission + value sponsored) * 100 < capacity
    → IsDivision (value emission + value sponsored) authors
    → IsDivision (value emission + value sponsored) channels
    → IsDivision (value emission + value sponsored) storages
    → (rewards : List Reward) × (grant array year authors channels storages sponsored returns
          miner_address
        ≡ ok rewards)
      × (total rewards ≡ value emission + value sponsored + total_of returns)
unfolding grant
grant_lem array year authors channels storages emission sponsored returns miner_address there he hs
      fits d1 d2 d3 =
    let (e, runs1, split1) =
      emission_parts_lem array year emission there he (omega (arith, fits)) in
    let (s, runs2, split2, no_miner) = sponsored_parts_lem sponsored hs (omega (arith, fits)) in
    let (ha, hc, ht, sums) = joined emission sponsored e s split1 split2 (omega (arith, fits)) in
    let (miner, rewards, runs3, whole) =
      distribute_all_lem authors channels storages e.miner (add e.author s.author)
        (add e.channel s.channel) (add e.storage s.storage) (value emission + value sponsored)
        split1.miner ha hc ht (omega (arith, sums)) (omega (arith, fits)) d1 d2 d3 in
    (
      rewards
          ++ rewards_for RewardType.sponsored_return returns
          ++ miner_rewards miner_address miner,
      rw (runs1, runs2, runs3) refl,
      omega (arith, total-three rewards returns miner_address miner, whole, sums, no_miner),
    )
