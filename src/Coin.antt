-- ===== src/Coin.antt =====
-- src/libblockchain/coin.hpp and coin.cpp: amounts of money as a whole part and a fraction, two
-- uint64_t. Every operation wraps at 2 ^ 64 where the source's does.
pub mod Value
pub mod Arithmetic
pub mod Scaling
use publiq_pp.Base.{
  ℕ, ◌+◌, ◌-◌, ◌*◌, ◌/◌, ◌%◌, ◌^◌, Bool, true, false, ◌&&◌, ◌||◌, not, ltb, leb, ◌==◌,
  if◌then◌else◌,
}
use publiq_pp.Base.Effects.{Result, ok, err, bind, Error, runtime_error}

pub record Coin : Type 0 where
  pub whole : ℕ
  pub fraction : ℕ

abbrev pub u64_mod : ℕ
u64_mod = 2 ^ 64

abbrev pub fractions_in_whole : ℕ
fractions_in_whole = 100000000

-- `coin::coin()`
abbrev pub zero_coin : Coin
zero_coin = record { whole = 0; fraction = 0 }

-- `coin::coin(uint64_t, uint64_t)`
unfoldable pub make : ℕ → ℕ → Result Coin
make whole fraction =
    if leb fractions_in_whole fraction
    then err runtime_error
    else ok (record { whole = whole; fraction = fraction })

unfoldable pub to_uint64 : Coin → ℕ
to_uint64 c = (fractions_in_whole * c.whole + c.fraction) % u64_mod

unfoldable pub empty : Coin → Bool
empty c = c.whole == 0 && c.fraction == 0

carry : ℕ → ℕ → Coin
carry whole fraction =
    if leb fractions_in_whole fraction
    then record { whole = (whole + 1) % u64_mod; fraction = fraction - fractions_in_whole }
    else record { whole = whole; fraction = fraction }

-- `operator +=`
unfoldable pub add : Coin → Coin → Coin
unfolding carry
add a b =
    let c = carry a.whole ((a.fraction + b.fraction) % u64_mod) in
    record c { whole = (c.whole + b.whole) % u64_mod }

borrow : Coin → ℕ → Coin
borrow a fraction =
    if ltb a.fraction fraction
    then record {
      whole = (a.whole + u64_mod - 1) % u64_mod;
      fraction = (a.fraction + fractions_in_whole) % u64_mod;
    }
    else a

-- `operator -=`
unfoldable pub sub : Coin → Coin → Result Coin
unfolding borrow
sub a b =
    if ltb a.whole b.whole || (a.whole == b.whole && ltb a.fraction b.fraction)
    then err runtime_error
    else let c = borrow a b.fraction in
      ok (record {
        whole = (c.whole + u64_mod - b.whole) % u64_mod;
        fraction = (c.fraction + u64_mod - b.fraction) % u64_mod;
      })

-- `operator *=`
unfoldable pub mul : Coin → ℕ → Coin
mul a times =
    let fraction = (a.fraction * times) % u64_mod in
    record {
      whole = ((a.whole * times) % u64_mod + fraction / fractions_in_whole) % u64_mod;
      fraction = fraction % fractions_in_whole;
    }

-- `operator /=`
unfoldable pub div : Coin → ℕ → Result Coin
div a times =
    if 0 == times
    then err runtime_error
    else ok (record {
      whole = a.whole / times;
      fraction =
          ((a.fraction + (a.whole % times * fractions_in_whole) % u64_mod) % u64_mod) / times;
    })

-- `operator %=`
unfoldable pub mod_times : Coin → ℕ → Result Coin
unfolding mul div sub
mod_times a times = bind (div a times) λ q. sub a (mul q times)

-- `operator >`
unfoldable pub gt : Coin → Coin → Bool
gt a b = ltb b.whole a.whole || (a.whole == b.whole && ltb b.fraction a.fraction)

-- `operator <`
unfoldable pub lt : Coin → Coin → Bool
unfolding gt
lt a b = gt b a

-- `operator >=`
unfoldable pub ge : Coin → Coin → Bool
unfolding gt
ge a b = not (gt b a)

-- `operator <=`
unfoldable pub le : Coin → Coin → Bool
unfolding gt
le a b = not (gt a b)

-- `operator ==`
unfoldable pub eq : Coin → Coin → Bool
unfolding gt
eq a b = not (gt a b) && not (gt b a)

-- `operator !=`
unfoldable pub ne : Coin → Coin → Bool
unfolding gt
ne a b = gt a b || gt b a
