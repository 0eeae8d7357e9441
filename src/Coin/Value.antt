-- ===== src/Coin/Value.antt =====
-- What a coin is worth, in fractions, and the comparisons read as comparisons of worth.
use publiq_pp.Base.{ℕ, ◌+◌, ◌*◌, ◌<◌, ◌≤◌, ◌≡◌, ltb, leb, ◌==◌, not, arith}
use publiq_pp.Coin.{
  Coin, u64_mod, fractions_in_whole, zero_coin, make, to_uint64, empty, gt, lt, ge, le, eq, ne,
}
use publiq_pp.Base.Effects.{Result, ok, err, runtime_error}

-- The worth in fractions.
abbrev pub value : Coin → ℕ
value c = c.whole * fractions_in_whole + c.fraction

-- What the constructor establishes, and what fits the two words.
pub record IsCoin (c : Coin) : Type 0 where
  pub below_whole : c.fraction < fractions_in_whole
  pub fits : c.whole < u64_mod

-- The worths that a coin can hold.
abbrev pub capacity : ℕ
capacity = u64_mod * fractions_in_whole

pub value-lt-capacity : (c : Coin) → IsCoin c → value c < capacity
value-lt-capacity c h = omega arith

-- A normalised coin is determined by its worth.
pub value_injective : (a b : Coin) → IsCoin a → IsCoin b → value a ≡ value b → a ≡ b
value_injective a b ha hb e = ground arith

-- Every comparison of normalised coins is the same comparison of their worths.
pub compare-value :
    (a b : Coin)
    → IsCoin a
    → IsCoin b
    → (gt a b ≡ ltb (value b) (value a))
      × (lt a b ≡ ltb (value a) (value b))
      × (ge a b ≡ leb (value b) (value a))
      × (le a b ≡ leb (value a) (value b))
      × (eq a b ≡ (value a == value b))
      × (ne a b ≡ not (value a == value b))
unfolding gt lt ge le eq ne
compare-value a b ha hb =
    (ground arith, ground arith, ground arith, ground arith, ground arith, ground arith)

pub lt-value : (a b : Coin) → IsCoin a → IsCoin b → lt a b ≡ ltb (value a) (value b)
lt-value a b ha hb = (compare-value a b ha hb).1

pub empty-value : (a : Coin) → empty a ≡ (value a == 0)
unfolding empty
empty-value a = ground arith

pub IsCoin-zero_coin : IsCoin zero_coin
IsCoin-zero_coin = omega arith

-- The constructor accepts exactly the normalised pairs.
abbrev pub MakeOutcome : ℕ → ℕ → Result Coin → Type 0
MakeOutcome w f (ok c) = IsCoin c × (c.whole ≡ w) × (c.fraction ≡ f)
MakeOutcome w f (err e) = (e ≡ runtime_error) × (fractions_in_whole ≤ f)

pub make_lem : (w f : ℕ) → w < u64_mod → MakeOutcome w f (make w f)
unfolding make
make_lem w f h = ground arith

-- A coin sent in a message and read back is the same coin.
pub make-fields : (c : Coin) → IsCoin c → make c.whole c.fraction ≡ ok c
unfolding make
make-fields c h = ground arith

-- The worth in one word is exact up to the word's size.
pub to_uint64-value : (c : Coin) → value c < u64_mod → to_uint64 c ≡ value c
unfolding to_uint64
to_uint64-value c h = omega arith
