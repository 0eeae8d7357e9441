-- ===== src/Rewards/Shares.antt =====
-- The division of an amount by shares that are together no more than the whole.
use native.Mathlib.Nat.{mul-le-mul_right}
use publiq_pp.Base.{
  ℕ, ◌+◌, ◌-◌, ◌*◌, ◌/◌, ◌<◌, ◌≤◌, ◌≡◌, refl, sym, ap, subst, ◌∙◌, List, [], ◌∷◌, String, arith,
  is_empty, false, ◌&&◌,
}
use publiq_pp.Base.Effects.{ok}
use publiq_pp.Coin.{Coin, mul, div}
use publiq_pp.Coin.Value.{value, IsCoin, capacity}
use publiq_pp.Coin.Arithmetic.{sub-value}
use publiq_pp.Coin.Scaling.{mul-value, div-value, max_divisor}
use publiq_pp.Rewards.{Share, add_to, share_out}
use publiq_pp.Rewards.Totals.{total_of, AllCoins, add_to_lem}

-- The shares are fractions with a common denominator, and together at most a given numerator.
abbrev pub Within : ℕ → ℕ → List Share → Type 0
Within whole left [] = Unit {0}
Within whole left ((key, (first, second)) ∷ items) =
    (w : ℕ) × (first * whole ≡ w * second) × (w ≤ left) × Within whole (left - w) items

-- No product or carried remainder of an amount of at most this worth and a share overflows.
abbrev pub Computes : ℕ → List Share → Type 0
Computes most [] = Unit {0}
Computes most ((key, (first, second)) ∷ items) =
    (0 < second)
    × (second ≤ max_divisor)
    × (first ≤ max_divisor)
    × (most * first < capacity)
    × Computes most items

product_le : (n m p : ℕ) → n ≤ m → n * p ≤ m * p
product_le n m p h = grind arith

pub Computes-le : (n m : ℕ) (xs : List Share) → n ≤ m → Computes m xs → Computes n xs
Computes-le n m [] h c = tt
Computes-le n m ((key, (p, q)) ∷ xs) h (c1, c2, c3, c4, c5) =
    (c1, c2, c3, omega (arith, c4, product_le n m p h), Computes-le n m xs h c5)

-- Shares that divide amounts up to a worth: parts of a whole, with nothing that overflows.
pub record IsDivision (most : ℕ) (xs : List Share) : Type 0 where
  pub whole : ℕ
  pub some_whole : 0 < whole
  pub within : Within whole whole xs
  pub computes : Computes most xs

cancel : (a b q : ℕ) → 0 < q → a * q ≤ b * q → a ≤ b
cancel a b q h k = grind arith

part_bound : (v p q whole w : ℕ) → 0 < q → p * whole ≡ w * q → v * p / q * whole ≤ v * w
part_bound v p q whole w h e =
    let a : ℕ = v * p / q in
    let below : a * q ≤ v * p = omega arith in
    let scaled : a * q * whole ≤ v * p * whole = mul-le-mul_right whole below in
    let swapped : v * p * whole ≡ v * (w * q) = grind arith in
    cancel (a * whole) (v * w) q h (grind (arith, scaled, swapped))

part :
    (t : Coin) (p q : ℕ)
    → IsCoin t
    → 0 < q
    → q ≤ max_divisor
    → p ≤ max_divisor
    → value t * p < capacity
    → (a : Coin) × (div (mul t p) q ≡ ok a) × IsCoin a × (value a ≡ value t * p / q)
part t p q ht h k l fits =
    let (hm, em) = mul-value t p ht (grind arith) fits in
    let (a, runs, ha, ea) = div-value (mul t p) q hm h k in (a, runs, ha, ea ∙ ap (λ n. n / q) em)

distribute : (a b c : ℕ) → a * c + b * c ≡ (a + b) * c
distribute a b c = grind arith

-- What is left suffices for the part, and then for the shares that follow.
left_over :
    (v r a whole left w : ℕ)
    → 0 < whole
    → a * whole ≤ v * w
    → w ≤ left
    → v * left ≤ r * whole
    → (a ≤ r) × (v * (left - w) ≤ (r - a) * whole)
left_over v r a whole left w h k l m =
    let covered : v * w + v * (left - w) ≡ v * left = grind arith in
    let enough : a ≤ r = cancel a r whole h (grind arith) in
    let divided : (r - a) * whole + a * whole ≡ r * whole =
      distribute (r - a) a whole ∙ ap (λ n. n * whole) (omega (arith, enough)) in
    (enough, omega (arith, covered, divided))

add_to_some :
    (key : String) (a : Coin) (xs : List (String × Coin)) → is_empty (add_to key a xs) ≡ false
unfolding add_to
add_to_some key a [] = refl
add_to_some key a (x ∷ xs) = ground (arith)

pub share_out_lem :
    (t : Coin) (xs : List Share) (whole left : ℕ) (rest : Coin) (given : List (String × Coin))
    → IsCoin t
    → IsCoin rest
    → AllCoins given
    → Computes (value t) xs
    → 0 < whole
    → Within whole left xs
    → value t * left ≤ value rest * whole
    → value rest + total_of given < capacity
    → (rest' : Coin) × (given' : List (String × Coin)) × (share_out t xs rest given
        ≡ ok (rest', given'))
      × IsCoin rest'
      × AllCoins given'
      × (value rest' + total_of given' ≡ value rest + total_of given)
      × (is_empty given' ≡ (is_empty xs && is_empty given))
unfolding share_out
share_out_lem t [] whole left rest given ht hr hg c pos parts enough fits =
    (rest, given, refl, hr, hg, refl, refl)
share_out_lem t ((key, (p, q)) ∷ xs) whole left rest given ht hr hg c pos parts enough fits =
    let (c1, c2, c3, c4, c5) = c in
    let (w, e, l, parts') = parts in
    let (a, runs, ha, ea) = part t p q ht c1 c2 c3 c4 in
    let bound : value a * whole ≤ value t * w =
      subst (λ n. n * whole ≤ value t * w) (sym ea) (part_bound (value t) p q whole w c1 e) in
    let (covers, enough') =
      left_over (value t) (value rest) (value a) whole left w pos bound l enough in
    let (b, subtracts, hb, eb) = sub-value rest a hr ha covers in
    let less : value b ≡ value rest - value a = omega (arith, eb) in
    let (hg', eg) = add_to_lem key a given ha hg (omega (arith, eb, fits)) in
    let (rest', given', goes, h1, h2, sums, some_given) =
      share_out_lem t xs whole (left - w) b (add_to key a given) ht hb hg' c5 pos parts'
        (subst (λ n. value t * (left - w) ≤ n * whole) (sym less) enough')
        (omega (arith, eb, eg, fits)) in
    (
      rest',
      given',
      rw (runs, subtracts) goes,
      h1,
      h2,
      omega (arith, sums, eb, eg),
      ground (arith, some_given, add_to_some key a given),
    )
