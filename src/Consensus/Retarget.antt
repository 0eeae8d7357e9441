-- ===== src/Consensus/Retarget.antt =====
-- The rule for the difficulty constant, read as a condition on every four entries that follow one
-- another.
use publiq_pp.Base.{
  ℕ, suc, ◌+◌, ◌-◌, ◌*◌, ◌/◌, ◌%◌, ◌<◌, ◌≤◌, ◌≡◌, refl, sym, ap, ◌∙◌, ◌↔◌, ◌⊎◌, inl, inr, true,
  false, none, some, List, [], ◌∷◌, arith, length, Bool-cases, if◌then◌else◌, ◌==◌, ==_iff, leb,
  ltb,
}
use publiq_pp.Base.Effects.{ok}
use publiq_pp.Coin.{u64_mod}
use publiq_pp.Consensus.{
  delta_max, mismatch, summed, scan, adjust, Checked, windows, check_delta_vector, calc_delta,
  delta_step, first_expected, dist_max,
}

-- Three entries together.
abbrev weight : ℕ × ℕ → ℕ × ℕ → ℕ × ℕ → ℕ
weight a b c = a.0 + b.0 + c.0

-- The constants from the fourth entry on: each is the one before it, adjusted to the weight of the
-- three entries before it. The first number is the position of the third entry.
abbrev pub slide : ℕ → ℕ → ℕ × ℕ → ℕ × ℕ → ℕ × ℕ → List (ℕ × ℕ) → Checked
slide k expected a b c [] = record { c_const = adjust true (weight a b c) expected; error = none }
slide k expected a b c (d ∷ rest) =
    let next = adjust true (weight a b c) expected in
    let further = slide (suc k) next b c d rest in
    if d.1 == next then further else record { c_const = next; error = some (suc k, d.1, next) }

-- No delta is above the most that `calc_delta` gives.
abbrev pub Bounded : List (ℕ × ℕ) → Type 0
Bounded [] = Unit {0}
Bounded (x ∷ xs) = (x.0 ≤ delta_max) × Bounded xs

scan_first :
    (a b c : ℕ × ℕ) (rest : List (ℕ × ℕ)) (expected : ℕ)
    → Bounded (a ∷ b ∷ c ∷ rest)
    → scan 3 0 (a ∷ b ∷ c ∷ rest) expected 3 0 ≡ summed 3 (weight a b c)
unfolding scan
scan_first a b c rest expected h = ground (arith, h.0, h.1.0, h.1.1.0)

scan_next :
    (i : ℕ) (a b c : ℕ × ℕ) (rest : List (ℕ × ℕ)) (expected : ℕ)
    → Bounded (a ∷ b ∷ c ∷ rest)
    → scan 3 i (a ∷ b ∷ c ∷ rest) expected (suc (suc i)) 0 ≡ (
        if c.1 == expected
        then summed (suc (suc (suc i))) (weight a b c)
        else mismatch (suc (suc i)) c.1)
unfolding scan
scan_next i a b c rest expected h = ground (arith, h.0, h.1.0, h.1.1.0)

windows_done :
    (i : ℕ) (xs : List (ℕ × ℕ)) (expected check_at : ℕ)
    → windows 0 i xs expected check_at ≡ (record { c_const = expected; error = none })
unfolding windows
windows_done i xs expected check_at = refl

windows_summed :
    (n i : ℕ) (a b c : ℕ × ℕ) (rest : List (ℕ × ℕ)) (expected check_at check_at' sum : ℕ)
    → scan 3 i (a ∷ b ∷ c ∷ rest) expected check_at 0 ≡ summed check_at' sum
    → windows (suc n) i (a ∷ b ∷ c ∷ rest) expected check_at
      ≡ windows n (suc i) (b ∷ c ∷ rest) (adjust true sum expected) check_at'
unfolding windows adjust
windows_summed n i a b c rest expected check_at check_at' sum e = ground (arith, e)

windows_mismatch :
    (n i : ℕ) (xs : List (ℕ × ℕ)) (expected check_at at actual : ℕ)
    → scan 3 i xs expected check_at 0 ≡ mismatch at actual
    → windows (suc n) i xs expected check_at
      ≡ (record { c_const = expected; error = some (at, actual, expected) })
unfolding windows
windows_mismatch n i xs expected check_at at actual e = ground (arith, e)

windows-slide :
    (rest : List (ℕ × ℕ)) (i : ℕ) (a b c : ℕ × ℕ) (expected check_at : ℕ)
    → Bounded (a ∷ b ∷ c ∷ rest)
    → scan 3 i (a ∷ b ∷ c ∷ rest) expected check_at 0 ≡ summed (suc (suc (suc i))) (weight a b c)
    → windows (suc (length rest)) i (a ∷ b ∷ c ∷ rest) expected check_at
      ≡ slide (suc (suc i)) expected a b c rest
windows-slide [] i a b c expected check_at h e =
    windows_summed 0 i a b c [] expected check_at _ _ e ∙ windows_done (suc i) (b ∷ c ∷ []) _ _
windows-slide (d ∷ rest) i a b c expected check_at h e =
    let next = adjust true (weight a b c) expected in
    let later = scan_next (suc i) b c d rest next h.1 in
    windows_summed (suc (length rest)) i a b c (d ∷ rest) expected check_at _ _ e
    ∙ elim (Bool-cases (d.1 == next)) [
      | inl q ↦ rw q (windows-slide rest (suc i) b c d next _ h.1 (ground (arith, later, q)))
      | inr q ↦ rw q (
          windows_mismatch (length rest) (suc i) (b ∷ c ∷ d ∷ rest) next _ _ _
            (ground (arith, later, q)))
    ]

-- For at least three entries with deltas of at most `delta_max`, `check_delta_vector` computes the
-- sliding description: the constant of the third entry is kept or changed by the weight of each
-- three entries that follow one another, and the first entry that does not bear the constant so
-- expected is the error.
pub check_delta_vector_lem :
    (a b c : ℕ × ℕ) (rest : List (ℕ × ℕ))
    → Bounded (a ∷ b ∷ c ∷ rest)
    → check_delta_vector (a ∷ b ∷ c ∷ rest) ≡ ok (slide 2 c.1 a b c rest)
unfolding check_delta_vector
check_delta_vector_lem a b c rest h =
    let rounds : (if leb delta_step (length (a ∷ b ∷ c ∷ rest))
          then length (a ∷ b ∷ c ∷ rest) - delta_step + 1
          else 1)
        ≡ suc (length rest) =
      ground arith in
    let first : first_expected a (b ∷ c ∷ rest) ≡ c.1 = ground arith in
    rw (rounds, first) (ap ok (windows-slide rest 0 a b c c.1 3 h (scan_first a b c rest c.1 h)))

-- Each constant from the fourth on is the one before it, adjusted to the three entries before it.
abbrev pub Retargeted : ℕ × ℕ → ℕ × ℕ → ℕ × ℕ → List (ℕ × ℕ) → Type 0
Retargeted a b c [] = Unit {0}
Retargeted a b c (d ∷ rest) = (d.1 ≡ adjust true (weight a b c) c.1) × Retargeted b c d rest

slide_iff :
    (k : ℕ) (a b c : ℕ × ℕ) (rest : List (ℕ × ℕ))
    → ((slide k c.1 a b c rest).error ≡ none) ↔ Retargeted a b c rest
slide_iff k a b c [] = (λ _. tt, λ _. refl)
slide_iff k a b c (d ∷ rest) = elim (Bool-cases (d.1 == adjust true (weight a b c) c.1)) [
  | inl q ↦
      let same : d.1 ≡ adjust true (weight a b c) c.1 = (==_iff _ _).0 q in
      let rest_iff = slide_iff (suc k) b c d rest in
      rw (q, sym same) (λ e. (refl, rest_iff.0 e), λ r. rest_iff.1 r.1)
  | inr q ↦ rw q (λ e. absurd (ground (arith, e)), λ r. absurd (ground (arith, q, r.0)))
]

-- For at least three entries with deltas of at most `delta_max`, `check_delta_vector` returns, and
-- without an error exactly when every constant from the fourth on is the one before it, adjusted to
-- the weight of the three entries before.
pub check_delta_vector_iff :
    (a b c : ℕ × ℕ) (rest : List (ℕ × ℕ))
    → Bounded (a ∷ b ∷ c ∷ rest)
    → (checked : Checked) × (check_delta_vector (a ∷ b ∷ c ∷ rest) ≡ ok checked)
      × ((checked.error ≡ none) ↔ Retargeted a b c rest)
check_delta_vector_iff a b c rest h =
    (slide 2 c.1 a b c rest, check_delta_vector_lem a b c rest h, slide_iff 2 a b c rest)

-- Where no product wraps and the constant is not zero, `calc_delta` returns a delta of at most
-- `delta_max`, which is that bound or the quotient of amount and distance.
pub calc_delta_lem :
    (dist amount cons_const : ℕ)
    → dist + 1 < u64_mod
    → (dist + 1) * cons_const < u64_mod
    → amount * dist_max < u64_mod
    → 0 < cons_const
    → (delta : ℕ) × (calc_delta dist amount cons_const ≡ ok delta)
      × (delta ≤ delta_max)
      × ((delta ≡ delta_max) ⊎ (delta ≡ amount * dist_max / ((dist + 1) * cons_const)))
unfolding calc_delta
calc_delta_lem dist amount cons_const near fits whole positive =
    let near' : (dist + 1) % u64_mod ≡ dist + 1 = omega arith in
    let fits' : ((dist + 1) % u64_mod * cons_const) % u64_mod ≡ (dist + 1) * cons_const =
      rw near' (omega (arith, fits)) in
    let whole' : (amount * dist_max) % u64_mod ≡ amount * dist_max = omega arith in
    let q : ℕ = amount * dist_max / ((dist + 1) * cons_const) in
    let nonzero : (((dist + 1) * cons_const) == 0) ≡ false = grind arith in
    (
      if ltb delta_max q then delta_max else q,
      rw (fits', whole', nonzero) refl,
      ground arith,
      ground arith,
    )
