-- ===== src/Statistics/Files.antt =====
-- How the parts of a unit's files add up, with a denominator that all shares have in common.
use native.Mathlib.Nat.{mul-le-mul_right}
use publiq_pp.Base.{
  ℕ, suc, ◌+◌, ◌-◌, ◌*◌, ◌%◌, ◌<◌, ◌≤◌, ◌≡◌, ap, ◌∙◌, subst, List, [], ◌∷◌, String, length, arith,
}
use publiq_pp.Base.Ordered.{insert_multi}
use publiq_pp.Coin.{u64_mod}
use publiq_pp.Rewards.{Share}
use publiq_pp.Rewards.Shares.{Within}
use publiq_pp.Statistics.Collect.{author_shares}
use publiq_pp.Statistics.Wholes.{Within-le, Within-insert_multi, Scales, Scales-insert_multi, assoc}

swap_last : (w q k : ℕ) → w * q * k ≡ w * k * q
swap_last w q k = grind arith

distribute_sum : (a b c : ℕ) → (a + b) * c ≡ a * c + b * c
distribute_sum a b c = grind arith

distribute_minus : (n w k : ℕ) → w ≤ n → (n - w) * k ≡ n * k - w * k
distribute_minus n w k l =
    let whole : (n - w + w) * k ≡ n * k = ap (λ d. d * k) (omega (arith, l)) in
    omega (arith, whole, distribute_sum (n - w) w k)

more : (m n w : ℕ) → n + w + m * w ≤ n + suc m * w
more m n w = grind arith

-- Where a unit's views stand when some of its files are shared out: with a denominator for all shares so
-- far, the numerators are together at most the units' views and the files' part of this unit's.
pub record Shared (t files done total all : ℕ) (xs : List Share) : Type 0 where
  pub whole : ℕ
  pub taken : ℕ
  pub some_whole : 0 < whole
  pub within : Within whole taken xs
  pub bound : taken * files ≤ (all * files + done * total) * whole
  pub scales : Scales t xs

Within-refine :
    (whole n k : ℕ) (xs : List Share) → Within whole n xs → Within (whole * k) (n * k) xs
Within-refine whole n k [] h = tt
Within-refine whole n k ((key, (p, q)) ∷ xs) (w, e, l, h) =
    let bound : w * k ≤ n * k = mul-le-mul_right k l in
    let exact : p * (whole * k) ≡ w * k * q =
      assoc p whole k ∙ ap (λ d. d * k) e ∙ swap_last w q k in
    let left : (n - w) * k ≡ n * k - w * k = distribute_minus n w k l in
    (
      w * k,
      exact,
      bound,
      subst (λ d. Within (whole * k) d xs) left (Within-refine whole (n - w) k xs h),
    )

-- Each author of a file takes as much.
author_shares_lem :
    (t whole n w p q : ℕ) (authors : List String) (xs : List Share)
    → p * whole ≡ w * q
    → q * t < u64_mod
    → Within whole n xs
    → Scales t xs
    → Within whole (n + length authors * w) (author_shares authors (p, q) xs)
      × Scales t (author_shares authors (p, q) xs)
unfolding author_shares
author_shares_lem t whole n w p q [] xs e l h s =
    (Within-le whole n (n + 0 * w) xs (omega arith) h, s)
author_shares_lem t whole n w p q (a ∷ authors) xs e l h s =
    let (h', s') =
      author_shares_lem t whole (n + w) w p q authors (insert_multi a (p, q) xs) e l
        (Within-insert_multi whole n w a p q xs e h) (Scales-insert_multi t a p q xs l s) in
    (
      Within-le whole (n + w + length authors * w) (n + length (a ∷ authors) * w) _
          (more (length authors) n w) h',
      s',
    )

regroup :
    (taken fc ac s : ℕ) → (taken * (fc * ac) + ac * s) * fc ≡ taken * fc * (fc * ac) + s * (fc * ac)
regroup taken fc ac s = grind arith

spread : (a total whole k : ℕ) → (a + total) * (whole * k) ≡ a * whole * k + total * whole * k
spread a total whole k = grind arith

grow :
    (a taken fc ac whole total : ℕ)
    → taken * fc ≤ a * whole
    → (taken * (fc * ac) + ac * (total * whole)) * fc ≤ (a + total) * (whole * (fc * ac))
grow a taken fc ac whole total h =
    let scaled : taken * fc * (fc * ac) ≤ a * whole * (fc * ac) = mul-le-mul_right (fc * ac) h in
    omega (arith, scaled, regroup taken fc ac (total * whole), spread a total whole (fc * ac))

one_done :
    (all files done total : ℕ) → all * files + done * total + total ≡ all * files + suc done * total
one_done all files done total = grind arith

mono : (a b w : ℕ) → a ≤ b → a * w ≤ b * w
mono a b w h = mul-le-mul_right w h

positive : (a b : ℕ) → 0 < a → 0 < b → 0 < a * b
positive a b h k = grind arith

pub file_step :
    (t files done total all : ℕ) (authors : List String) (xs : List Share)
    → 0 < files
    → files * length authors < u64_mod
    → files * length authors * t < u64_mod
    → Shared t files done total all xs
    → Shared t files
        (suc done)
        total
        all
        (author_shares authors (total, (files * length authors) % u64_mod) xs)
unfolding author_shares
file_step t files done total all [] xs pos small fits s = record {
  whole = s.whole;
  taken = s.taken;
  some_whole = s.some_whole;
  within = s.within;
  bound =
      let less =
        mono (all * files + done * total) (all * files + suc done * total) s.whole
          (omega (arith, one_done all files done total)) in
      omega (arith, s.bound, less);
  scales = s.scales;
}
file_step t files done total all (a ∷ authors) xs pos small fits s =
    let k : ℕ = files * length (a ∷ authors) in
    let exact : k % u64_mod ≡ k = omega (arith, small) in
    let some_k : 0 < k = grind (arith, pos) in
    let (within, scales) =
      author_shares_lem t (s.whole * k) (s.taken * k) (total * s.whole) total k (a ∷ authors) xs
        (assoc total s.whole k) fits (Within-refine s.whole s.taken k xs s.within) s.scales in
    rw exact (record {
      whole = s.whole * k;
      taken = s.taken * k + length (a ∷ authors) * (total * s.whole);
      some_whole = positive s.whole k s.some_whole some_k;
      within = within;
      bound =
          subst
            (λ b.
              (s.taken * k + length (a ∷ authors) * (total * s.whole)) * files ≤ b * (s.whole * k))
            (one_done all files done total)
            (grow (all * files + done * total) s.taken files (length (a ∷ authors)) s.whole total
              s.bound);
      scales = scales;
    })

pub none_done :
    (all files total whole : ℕ) → all * whole * files ≤ (all * files + 0 * total) * whole
none_done all files total whole = grind arith

factor :
    (all total files whole : ℕ)
    → (all * files + files * total) * whole ≡ (all + total) * whole * files
factor all total files whole = grind arith

cancel : (a b q : ℕ) → 0 < q → a * q ≤ b * q → a ≤ b
cancel a b q h k = grind arith

pub all_done :
    (taken all total files whole : ℕ)
    → 0 < files
    → taken * files ≤ (all * files + (0 + files) * total) * whole
    → taken ≤ (all + total) * whole
all_done taken all total files whole pos h =
    let same : (all * files + (0 + files) * total) * whole ≡ (all * files + files * total) * whole =
      ap (λ n. (all * files + n * total) * whole) (omega arith) in
    cancel taken ((all + total) * whole) files pos
      (omega (arith, h, same, factor all total files whole))
