-- ===== src/Statistics/Results.antt =====
-- The three results of the statistics together.
use publiq_pp.Base.{ℕ, ◌*◌, ◌<◌, ◌≡◌, refl}
use publiq_pp.Base.Effects.{ok}
use publiq_pp.Coin.{u64_mod}
use publiq_pp.Loaders.{MapLoader}
use publiq_pp.Documents.{Documents}
use publiq_pp.Statistics.Collect.{ByContent, collect_channels, collect_storages}
use publiq_pp.Statistics.Validate.{Groups, Results, collect}
use publiq_pp.Statistics.Wholes.{AreParts}
use publiq_pp.Statistics.Shared.{
  sum_of, servers_sum, collect_storages-AreParts, collect_channels-AreParts,
}
use publiq_pp.Statistics.Authors.{all_views, UnitsFit, collect_authors-AreParts}

module _ ⦃L : MapLoader⦄ (count_views : ByContent → ℕ) (documents : Documents) where
  -- For groups whose views do not overflow, whose units have files and views, and whose files are
  -- known, collecting the results returns, and the shares of the authors, of the channels and of
  -- the storages are each fractions with a common denominator that are together at most the whole.
  pub collect-AreParts :
      (g : Groups)
      → sum_of g.storage_group < u64_mod
      → 2 * servers_sum count_views g.content_group < u64_mod
      → all_views g.author_group < u64_mod
      → UnitsFit documents (all_views g.author_group) g.author_group
      → (r : Results) × (collect count_views documents g ≡ ok r)
        × AreParts r.author_result
        × AreParts r.channel_result
        × AreParts r.storage_result
  unfolding collect
  collect-AreParts g h1 h2 h3 fit =
      let (authors, runs, parts) = collect_authors-AreParts documents g.author_group h3 fit in
      (
        record {
          author_result = authors;
          channel_result = (collect_channels count_views g.content_group).shares;
          storage_result = collect_storages g.storage_group;
          unit_uri_view_counts =
              (collect_channels count_views g.content_group).unit_uri_view_counts;
        },
        rw runs refl,
        parts,
        collect_channels-AreParts count_views g.content_group h2,
        collect_storages-AreParts g.storage_group h1,
      )
