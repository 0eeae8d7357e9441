-- ===== src/Statistics/Authors.antt =====
-- The shares of the authors are parts of a whole: of each unit, of each of its files, of each author.
use publiq_pp.Base.{
  ℕ, suc, ◌+◌, ◌*◌, ◌/◌, ◌%◌, ◌<◌, ◌≡◌, refl, ap, ◌∙◌, subst, false, some, List, [], ◌∷◌, String,
  ◌==◌, length, arith,
}
use publiq_pp.Base.Effects.{ok}
use publiq_pp.Coin.{u64_mod}
use publiq_pp.Loaders.{MapLoader}
use publiq_pp.Documents.{Documents, File, get_file}
use publiq_pp.Rewards.{Share}
use publiq_pp.Rewards.Shares.{Within}
use publiq_pp.Statistics.Collect.{
  scale, sum_views, author_shares, file_shares, unit_shares, collect_authors,
}
use publiq_pp.Statistics.Wholes.{AreParts, Within-le, Scales, scale-AreParts}
use publiq_pp.Statistics.Files.{Shared, file_step, none_done, all_done}

-- The views of a unit: the average of its files.
abbrev pub unit_views : List (String × ℕ) → ℕ
unit_views files = sum_views files 0 / length files

abbrev pub all_views : List (String × List (String × ℕ)) → ℕ
all_views [] = 0
all_views ((unit, files) ∷ items) = unit_views files + all_views items

-- Between two units.
record Between (t all : ℕ) (xs : List Share) : Type 0 where
  whole : ℕ
  some_whole : 0 < whole
  within : Within whole (all * whole) xs
  scales : Scales t xs

starts :
    (t files total all : ℕ) (xs : List Share) → Between t all xs → Shared t files 0 total all xs
starts t files total all xs b = record {
  whole = b.whole;
  taken = all * b.whole;
  some_whole = b.some_whole;
  within = b.within;
  bound = none_done all files total b.whole;
  scales = b.scales;
}

ends :
    (t files total all : ℕ) (xs : List Share)
    → 0 < files
    → Shared t files (0 + files) total all xs
    → Between t (all + total) xs
ends t files total all xs pos s = record {
  whole = s.whole;
  some_whole = s.some_whole;
  within =
      Within-le s.whole s.taken ((all + total) * s.whole) xs
        (all_done s.taken all total files s.whole pos s.bound) s.within;
  scales = s.scales;
}

module _ ⦃L : MapLoader⦄ (documents : Documents) where
  -- The files of a unit are known, and no denominator overflows.
  abbrev pub FilesFit : ℕ → ℕ → List (String × ℕ) → Type 0
  FilesFit t files [] = Unit {0}
  FilesFit t files ((uri, count) ∷ items) =
      (file : File) × (get_file uri documents ≡ some file)
      × (files * length file.author_addresses < u64_mod)
      × (files * length file.author_addresses * t < u64_mod)
      × FilesFit t files items

  file_shares_lem :
      (t files done total all : ℕ) (items : List (String × ℕ)) (xs : List Share)
      → 0 < files
      → FilesFit t files items
      → Shared t files done total all xs
      → (ys : List Share) × (file_shares documents total files items xs ≡ ok ys)
        × Shared t files (done + length items) total all ys
  unfolding file_shares
  file_shares_lem t files done total all [] xs pos fit s =
      (xs, refl, subst (λ d. Shared t files d total all xs) (omega arith) s)
  file_shares_lem t files done total all ((uri, count) ∷ items) xs pos fit s =
      let (file, known, small, fits, fit') = fit in
      let step = file_step t files done total all file.author_addresses xs pos small fits s in
      let (ys, runs, s') =
        file_shares_lem t files (suc done) total all items
          (author_shares file.author_addresses
            (total, (files * length file.author_addresses) % u64_mod) xs)
          pos fit' step in
      (ys, ground (arith, known, runs), subst (λ d. Shared t files d total all ys) (omega arith) s')

  -- Every unit has files and views, and its files fit.
  abbrev pub UnitsFit : ℕ → List (String × List (String × ℕ)) → Type 0
  UnitsFit t [] = Unit {0}
  UnitsFit t ((unit, files) ∷ items) =
      (0 < length files)
      × (0 < unit_views files)
      × FilesFit t (length files) files
      × UnitsFit t items

  unit_shares_lem :
      (t all : ℕ) (group : List (String × List (String × ℕ))) (xs : List Share)
      → UnitsFit t group
      → all + all_views group < u64_mod
      → Between t all xs
      → (ys : List Share) × (unit_shares documents group all xs ≡ ok (all + all_views group, ys))
        × Between t (all + all_views group) ys
  unfolding unit_shares
  unit_shares_lem t all [] xs fit small b =
      (xs, ap (λ n. ok (n, xs)) (omega arith), subst (λ n. Between t n xs) (omega arith) b)
  unit_shares_lem t all ((unit, files) ∷ group) xs (some_files, some_views, fit, fits) small b =
      let (ys, runs, s) =
        file_shares_lem t (length files) 0 (unit_views files) all files xs some_files fit
          (starts t (length files) (unit_views files) all xs b) in
      let b' = ends t (length files) (unit_views files) all ys some_files s in
      let (zs, runs', b'') =
        unit_shares_lem t (all + unit_views files) group ys fits (omega arith) b' in
      let exact : (all + unit_views files) % u64_mod ≡ all + unit_views files = omega arith in
      let same : all + unit_views files + all_views group
          ≡ all + (unit_views files + all_views group) =
        omega arith in
      let has_files : (length files == 0) ≡ false = ground arith in
      let has_views : (unit_views files == 0) ≡ false = ground arith in
      (
        zs,
        rw (has_files, has_views, runs, exact) (runs' ∙ ap (λ n. ok (n, zs)) same),
        subst (λ n. Between t n zs) same b'',
      )

  -- Where the views do not overflow and the units fit, the authors share at most the whole.
  pub collect_authors-AreParts :
      (group : List (String × List (String × ℕ)))
      → all_views group < u64_mod
      → UnitsFit (all_views group) group
      → (shares : List Share) × (collect_authors documents group ≡ ok shares) × AreParts shares
  unfolding collect_authors
  collect_authors-AreParts group small fit =
      let nothing : Between (all_views group) 0 [] = record {
        whole = 1;
        some_whole = omega arith;
        within = tt;
        scales = tt;
      } in
      let (ys, runs, b) =
        unit_shares_lem (all_views group) 0 group [] fit (omega (arith, small)) nothing in
      let same : 0 + all_views group ≡ all_views group = omega arith in
      (
        scale (all_views group) ys,
        rw runs (ap (λ n. ok (scale n ys)) same),
        scale-AreParts b.whole (all_views group) ys b.some_whole
            (subst (λ n. Within b.whole (n * b.whole) ys) same b.within) b.scales,
      )
