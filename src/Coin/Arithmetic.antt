-- ===== src/Coin/Arithmetic.antt =====
-- Addition and subtraction of coins against the addition and subtraction of their worths.
use publiq_pp.Base.{◌+◌, ◌<◌, ◌≤◌, ◌≡◌, refl, arith, ap, ◌∙◌}
use publiq_pp.Base.Effects.{Result, ok, err, runtime_error}
use publiq_pp.Coin.{Coin, add, sub}
use publiq_pp.Coin.Value.{value, IsCoin, capacity, value_injective}

-- For normalised coins whose sum fits, addition is exact and its result is normalised.
pub add-value :
    (a b : Coin)
    → IsCoin a
    → IsCoin b
    → value a + value b < capacity
    → IsCoin (add a b) × (value (add a b) ≡ value a + value b)
unfolding add
add-value a b ha hb h = (ground arith, ground arith)

-- Subtraction throws exactly when the result would be negative, and is exact otherwise.
abbrev pub SubOutcome : Coin → Coin → Result Coin → Type 0
SubOutcome a b (ok c) = IsCoin c × (value c + value b ≡ value a)
SubOutcome a b (err e) = (e ≡ runtime_error) × (value a < value b)

-- For normalised coins, subtraction throws exactly when the result would be negative, and is exact
-- and normalised otherwise.
pub sub_lem : (a b : Coin) → IsCoin a → IsCoin b → SubOutcome a b (sub a b)
unfolding sub
sub_lem a b ha hb = ground arith

outcome-ok :
    (a b : Coin) (r : Result Coin)
    → SubOutcome a b r
    → value b ≤ value a
    → (c : Coin) × (r ≡ ok c) × IsCoin c × (value c + value b ≡ value a)
outcome-ok a b (ok c) o h = (c, refl, o.0, o.1)
outcome-ok a b (err e) o h = absurd (omega arith)

pub sub-value :
    (a b : Coin)
    → IsCoin a
    → IsCoin b
    → value b ≤ value a
    → (c : Coin) × (sub a b ≡ ok c) × IsCoin c × (value c + value b ≡ value a)
sub-value a b ha hb = outcome-ok a b (sub a b) (sub_lem a b ha hb)

-- What was added can be taken away again.
pub sub-add :
    (a b : Coin) → IsCoin a → IsCoin b → value a + value b < capacity → sub (add a b) b ≡ ok a
sub-add a b ha hb h =
    let (hs, es) = add-value a b ha hb h in
    let (c, e, hc, ec) = sub-value (add a b) b hs hb (omega arith) in
    e ∙ ap ok (value_injective c a hc ha (omega arith))
