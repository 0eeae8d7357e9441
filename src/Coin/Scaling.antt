-- ===== src/Coin/Scaling.antt =====
-- Multiplication, division and remainder by a machine word.
use publiq_pp.Base.{ℕ, ◌+◌, ◌*◌, ◌/◌, ◌%◌, ◌<◌, ◌≤◌, ◌≡◌, sym, ap, ◌∙◌, arith}
use publiq_pp.Base.Effects.{bind, ok}
use publiq_pp.Coin.{Coin, u64_mod, fractions_in_whole, mul, div, mod_times}
use publiq_pp.Coin.Value.{value, IsCoin, capacity}
use publiq_pp.Coin.Arithmetic.{sub-value}

-- Multiplication is exact where the product of the worth fits, and the product of the fraction
-- alone fits a word.
pub mul-value :
    (a : Coin) (t : ℕ)
    → IsCoin a
    → a.fraction * t < u64_mod
    → value a * t < capacity
    → IsCoin (mul a t) × (value (mul a t) ≡ value a * t)
unfolding mul
mul-value a t ha hf h = omega arith

-- The largest divisor for which the carried remainder cannot overflow a word.
abbrev pub max_divisor : ℕ
max_divisor = u64_mod / fractions_in_whole

div_unique : (n q t r : ℕ) → n ≡ q * t + r → r < t → n / t ≡ q
div_unique n q t r e h = grind arith

-- The remainder of the whole part, carried into the fraction, as the code computes it.
carried :
    (a : Coin) (t : ℕ)
    → IsCoin a
    → 0 < t
    → t ≤ max_divisor
    → (a.fraction + (a.whole % t * fractions_in_whole) % u64_mod) % u64_mod
      ≡ a.fraction + a.whole % t * fractions_in_whole
carried a t ha h k = let hr : a.whole % t < t = omega arith in omega arith

quotient_lt : (m t f : ℕ) → 0 < t → m < t * f → m / t < f
quotient_lt m t f h k = grind arith

-- Division of a normalised coin by a number that is not zero, up to the largest for which the
-- carried remainder fits a word, returns the quotient of the worth, rounded down and normalised.
pub div-value :
    (a : Coin) (t : ℕ)
    → IsCoin a
    → 0 < t
    → t ≤ max_divisor
    → (c : Coin) × (div a t ≡ ok c) × IsCoin c × (value c ≡ value a / t)
unfolding div
div-value a t ha h k =
    let hr : a.whole % t < t = omega arith in
    let m : ℕ = a.fraction + a.whole % t * fractions_in_whole in
    let small : m / t < fractions_in_whole = quotient_lt m t fractions_in_whole h (omega arith) in
    let exact : a.whole ≡ a.whole / t * t + a.whole % t = omega arith in
    (
      record { whole = a.whole / t; fraction = m / t },
      ground (arith, carried a t ha h k),
      record { below_whole = small; fits = omega arith },
      sym (
          div_unique (value a) (a.whole / t * fractions_in_whole + m / t) t (m % t) (omega arith)
            (omega arith)),
    )

quotient_mul_le : (n t q : ℕ) → q ≡ n / t → q * t ≤ n
quotient_mul_le n t q e = rw e (omega arith)

mul_le_mul : (a t f k : ℕ) → a ≤ f → t ≤ k → a * t ≤ f * k
mul_le_mul a t f k h p = grind arith

remainder : (n t q c : ℕ) → q ≡ n / t → c + q * t ≡ n → c ≡ n % t
remainder n t q c e h =
    let p : c + n / t * t ≡ n = ap (λ (x : ℕ). c + x * t) (sym e) ∙ h in omega arith

-- For a normalised coin and a number that is not zero, up to the largest for which the carried
-- remainder of a division fits a word, the remainder does not throw, and is the remainder of the
-- worth, normalised.
pub mod_times-value :
    (a : Coin) (t : ℕ)
    → IsCoin a
    → 0 < t
    → t ≤ max_divisor
    → (c : Coin) × (mod_times a t ≡ ok c) × IsCoin c × (value c ≡ value a % t)
unfolding mod_times
mod_times-value a t ha h k =
    let (q, eq, hq, vq) = div-value a t ha h k in
    let below : value q * t ≤ value a = quotient_mul_le (value a) t (value q) vq in
    let bound : q.fraction * t ≤ fractions_in_whole * max_divisor =
      mul_le_mul q.fraction t fractions_in_whole max_divisor (omega arith) k in
    let (hp, vp) = mul-value q t hq (omega arith) (omega arith) in
    let (c, ec, hc, vc) = sub-value a (mul q t) ha hp (omega arith) in
    (c, rw (eq, bind) ec, hc, remainder (value a) t (value q) (value c) vq (omega arith))
