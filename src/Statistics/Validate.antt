-- ===== src/Statistics/Validate.antt =====
-- `validate_statistics` up to the groups: the views that channels and storages agree on.
use publiq_pp.Base.{
  ℕ, ◌+◌, ◌%◌, Bool, not, ◌&&◌, ◌||◌, none, some, List, [], ◌∷◌, String, if◌then◌else◌, ◌==◌, ltb,
  is_some,
}
use publiq_pp.Base.Effects.{assertion_failed, out_of_range, Result, ok, err, bind}
use publiq_pp.Base.Ordered.{at_text, at_number, text_or}
use publiq_pp.Base.Texts.{contains, add_text}
use publiq_pp.Coin.{u64_mod}
use publiq_pp.Loaders.{MapLoader}
use publiq_pp.Documents.{Documents, get_unit, files_exist, units_exist}
use publiq_pp.Rewards.{Share}
use publiq_pp.Statistics.{ServiceStatistics, View, views}
use publiq_pp.Statistics.Collect.{ByContent, collect_storages, collect_authors, collect_channels}

abbrev plus : ℕ → ℕ → ℕ
plus count n = (n + count) % u64_mod

-- channel, file, storage and views
abbrev pub ByFile : Type 0
ByFile = List (String × List (String × List (String × ℕ)))

-- channel, file and the storages that agree
abbrev pub Agreeing : Type 0
Agreeing = List (String × List (String × List String))

-- The first loop, over what the channels report.
unfoldable pub group_by_channel : List View → ByFile → Result ByFile
group_by_channel [] statistics = ok statistics
group_by_channel (v ∷ vs) statistics =
    let rest = group_by_channel vs (
      at_text v.server [] (at_text v.file_uri [] (at_text v.peer_address 0 (plus v.count)))
        statistics) in
    if v.count == 0 then err assertion_failed else rest

-- What the channel that a storage names has reported of that storage.
abbrev pub reported : View → ByFile → ℕ
reported v statistics =
    text_or v.server 0 (text_or v.file_uri [] (text_or v.peer_address [] statistics))

abbrev pub agree : View → Agreeing → Agreeing
agree v = at_text v.peer_address [] (at_text v.file_uri [] (add_text v.server))

module _ (stat_mismatch : ℕ → ℕ → Bool) where
  -- The second loop, over what the storages report. `stat_mismatch` compares in floating point.
  unfoldable pub cross_verify : ByFile → List View → Agreeing → Result Agreeing
  cross_verify statistics [] verified = ok verified
  cross_verify statistics (v ∷ vs) verified =
      let stat_value = reported v statistics in
      let rest = cross_verify statistics vs (
        if ltb 0 stat_value && not (stat_mismatch stat_value v.count)
        then agree v verified
        else verified) in
      if v.count == 0 then err assertion_failed else rest

abbrev pub is_cross_verified : View → Agreeing → Bool
is_cross_verified v verified =
    contains v.peer_address (text_or v.file_uri [] (text_or v.server [] verified))

abbrev pub file_uris : List View → List String
file_uris [] = []
file_uris (v ∷ vs) = add_text v.file_uri (file_uris vs)

abbrev pub unit_uris : List View → List String
unit_uris [] = []
unit_uris (v ∷ vs) = add_text v.unit_uri (unit_uris vs)

-- The views grouped by storage, by unit and file, and by channel, owner, content, unit and file.
pub record Groups : Type 0 where
  pub storage_group : List (String × ℕ)
  pub author_group : List (String × List (String × ℕ))
  pub content_group : List (String × List (String × ByContent))

abbrev pub add_view : View → String → ℕ → Groups → Groups
add_view v channel_address content_id g = record {
  storage_group = at_text v.peer_address 0 (plus v.count) g.storage_group;
  author_group = at_text v.unit_uri [] (at_text v.file_uri 0 (plus v.count)) g.author_group;
  content_group =
      at_text v.server []
        (at_text channel_address []
          (at_number content_id [] (at_text v.unit_uri [] (at_text v.file_uri 0 (plus v.count)))))
        g.content_group;
}

module _ ⦃L : MapLoader⦄ (documents : Documents) where
  -- The third loop, over what the channels report. No count is 0 here, since the first loop has passed.
  unfoldable pub group_views : Agreeing → List View → Groups → Result Groups
  group_views verified [] g = ok g
  group_views verified (v ∷ vs) g =
      if v.count == 0
      then err assertion_failed
      else if is_cross_verified v verified
      then elim (get_unit v.unit_uri documents) [
        | none ↦ err out_of_range
        | some unit ↦ group_views verified vs (add_view v unit.channel_address unit.content_id g)
      ]
      else group_views verified vs g

-- What `validate_statistics` writes through its references.
pub record Results : Type 0 where
  pub author_result : List Share
  pub channel_result : List Share
  pub storage_result : List Share
  pub unit_uri_view_counts : List (String × List (String × ℕ))

abbrev pub no_groups : Groups
no_groups = record { storage_group = []; author_group = []; content_group = [] }

module _ ⦃L : MapLoader⦄ (count_views : ByContent → ℕ) (documents : Documents) where
  unfoldable pub collect : Groups → Result Results
  unfolding collect_authors collect_channels collect_storages
  collect g = bind (collect_authors documents g.author_group) λ authors.
      let c = collect_channels count_views g.content_group in
      ok (record {
        author_result = authors;
        channel_result = c.shares;
        storage_result = collect_storages g.storage_group;
        unit_uri_view_counts = c.unit_uri_view_counts;
      })

  -- `stat_mismatch` as above
  unfoldable pub validate_statistics :
      (ℕ → ℕ → Bool)
      → List (String × ServiceStatistics)
      → List (String × ServiceStatistics)
      → Result Results
  unfolding group_by_channel cross_verify group_views collect
  validate_statistics stat_mismatch channel_provided_statistics storage_provided_statistics =
      let channel_views = views channel_provided_statistics in
      bind (group_by_channel channel_views []) λ channel_statistics.
        bind (cross_verify stat_mismatch channel_statistics (views storage_provided_statistics) [])
          λ verified.
            if is_some (files_exist (file_uris channel_views) documents)
              || is_some (units_exist (unit_uris channel_views) documents)
            then err assertion_failed
            else bind (group_views documents verified channel_views no_groups) collect
