-- ===== src/Tests/Coins.antt =====
-- Coins near a whole and near the end of a word.
use publiq_pp.Base.{◌-◌, ◌/◌, ◌^◌, ◌≡◌, refl, arith}
use publiq_pp.Base.Effects.{ok, err, runtime_error}
use publiq_pp.Coin.{Coin, add, sub, div}
use publiq_pp.Coin.Value.{value, IsCoin}
use publiq_pp.Coin.Scaling.{div-value}
use publiq_pp.Tests.Nodes.{coins}

abbrev small : Coin
small = coins 2 70000000

abbrev large : Coin
large = coins 3 60000000

small-IsCoin : IsCoin small
small-IsCoin = omega arith

large-IsCoin : IsCoin large
large-IsCoin = omega arith

add_carries : add small large ≡ coins 6 30000000
unfolding add
add_carries = refl

sub_borrows : sub large small ≡ ok (coins 0 90000000)
unfolding sub
sub_borrows = refl

sub_refuses : sub small large ≡ err runtime_error
unfolding sub
sub_refuses = refl

add_wraps : add (coins (2 ^ 64 - 1) 0) (coins 1 0) ≡ coins 0 0
unfolding add
add_wraps = refl

div_rounds : div large 7 ≡ ok (coins 0 51428571)
unfolding div
div_rounds = refl

div-value_example : (c : Coin) × (div large 7 ≡ ok c) × IsCoin c × (value c ≡ value large / 7)
div-value_example = div-value large 7 large-IsCoin (omega arith) (omega arith)
