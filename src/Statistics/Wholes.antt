-- ===== src/Statistics/Wholes.antt =====
-- The shares of each result are together at most the whole.
use publiq_pp.Base.{
  ℕ, zero, suc, ◌+◌, ◌-◌, ◌*◌, ◌%◌, ◌<◌, ◌≤◌, ◌≡◌, sym, ap, ◌∙◌, List, [], ◌∷◌, String, arith,
  Bool-cases, inl, inr,
}
use publiq_pp.Base.Ordered.{before, insert_multi}
use publiq_pp.Coin.{u64_mod}
use publiq_pp.Rewards.{Share}
use publiq_pp.Rewards.Shares.{Within}
use publiq_pp.Statistics.Collect.{scale}

-- The shares are parts of a whole, with a common denominator.
abbrev pub AreParts : List Share → Type 0
AreParts xs = (whole : ℕ) × (0 < whole) × Within whole whole xs

pub Within-le : (whole n m : ℕ) (xs : List Share) → n ≤ m → Within whole n xs → Within whole m xs
Within-le whole n m [] h k = tt
Within-le whole n m ((key, (p, q)) ∷ xs) h (w, e, l, k) =
    (w, e, omega arith, Within-le whole (n - w) (m - w) xs (omega arith) k)

-- A share more, anywhere in the list.
pub Within-insert_multi :
    (whole n w : ℕ) (key : String) (p q : ℕ) (xs : List Share)
    → p * whole ≡ w * q
    → Within whole n xs
    → Within whole (n + w) (insert_multi key (p, q) xs)
unfolding insert_multi
Within-insert_multi whole n w key p q [] e k = (w, e, omega arith, tt)
Within-insert_multi whole n w key p q ((key', (p', q')) ∷ xs) e (w', e', l', k) =
    elim (Bool-cases (before key key')) [
      | inl b ↦ rw b (
        w,
        e,
        omega arith,
        (w', e', omega arith, Within-le whole (n - w') (n + w - w - w') xs (omega arith) k),
      )
      | inr b ↦ rw b (
        w',
        e',
        omega arith,
        Within-le whole (n - w' + w) (n + w - w') (insert_multi key (p, q) xs) (omega arith)
            (Within-insert_multi whole (n - w') w key p q xs e k),
      )
    ]

-- Every denominator times this number is below 2^64.
abbrev pub Scales : ℕ → List Share → Type 0
Scales total [] = Unit {0}
Scales total ((key, (p, q)) ∷ xs) = (q * total < u64_mod) × Scales total xs

pub assoc : (a b c : ℕ) → a * (b * c) ≡ a * b * c
assoc a b c = grind arith

commute : (p whole w q total : ℕ) → p * whole ≡ w * q → p * (whole * total) ≡ w * (q * total)
commute p whole w q total e = assoc p whole total ∙ ap (λ d. d * total) e ∙ sym (assoc w q total)

pub Within-scale :
    (whole n total : ℕ) (xs : List Share)
    → Scales total xs
    → Within whole n xs
    → Within (whole * total) n (scale total xs)
unfolding scale
Within-scale whole n total [] s k = tt
Within-scale whole n total ((key, (p, q)) ∷ xs) s (w, e, l, k) =
    let exact : (q * total) % u64_mod ≡ q * total = omega (arith, s.0) in
    (
      w,
      commute p whole w q total e ∙ ap (λ d. w * d) (sym exact),
      l,
      Within-scale whole (n - w) total xs s.1 k,
    )

pub Scales-insert_multi :
    (total : ℕ) (key : String) (p q : ℕ) (xs : List Share)
    → q * total < u64_mod
    → Scales total xs
    → Scales total (insert_multi key (p, q) xs)
unfolding insert_multi
Scales-insert_multi total key p q [] h k = (h, tt)
Scales-insert_multi total key p q ((key', (p', q')) ∷ xs) h k =
    elim (Bool-cases (before key key')) [
      | inl b ↦ rw b (h, k)
      | inr b ↦ rw b (k.0, Scales-insert_multi total key p q xs h k.1)
    ]

-- Where nothing is shared, every numerator is 0.
Within-nothing :
    (whole total n : ℕ) (xs : List Share)
    → 0 < whole
    → Within whole 0 xs
    → Within 1 n (scale total xs)
unfolding scale
Within-nothing whole total n [] h k = tt
Within-nothing whole total n ((key, (p, q)) ∷ xs) h (w, e, l, k) =
    let none_left : w ≡ 0 = omega arith in
    let zero_part : p * whole ≡ 0 = e ∙ ap (λ d. d * q) none_left ∙ omega arith in
    let zero_share : p ≡ 0 = grind (arith, zero_part, h) in
    (
      0,
      ap (λ d. d * 1) zero_share ∙ omega arith,
      omega arith,
      Within-nothing whole total (n - 0) xs h (Within-le whole (0 - w) 0 xs (omega arith) k),
    )

-- Shares of a sum become parts of the whole when they are divided by it.
pub scale-AreParts :
    (whole total : ℕ) (xs : List Share)
    → 0 < whole
    → Within whole (total * whole) xs
    → Scales total xs
    → AreParts (scale total xs)
scale-AreParts whole zero xs h k s = (
  1,
  omega arith,
  Within-nothing whole 0 1 xs h (Within-le whole (0 * whole) 0 xs (omega arith) k),
)
scale-AreParts whole (suc t) xs h k s =
    let swapped : suc t * whole ≡ whole * suc t = grind arith in
    (
      whole * suc t,
      grind arith,
      Within-le (whole * suc t) (suc t * whole) (whole * suc t) _ (omega (arith, swapped))
          (Within-scale whole (suc t * whole) (suc t) xs s k),
    )
