-- ===== src/Statistics/Collect.antt =====
-- The last part of `validate_statistics`: the shares of storages, authors and channels, from the views
-- grouped for each.
use publiq_pp.Base.{
  ℕ, ◌+◌, ◌*◌, ◌/◌, ◌%◌, Bool, none, some, List, [], ◌∷◌, String, str_eq, if◌then◌else◌, ◌==◌, ltb,
  length,
}
use publiq_pp.Base.Effects.{assertion_failed, out_of_range, Result, ok, err, bind}
use publiq_pp.Base.Ordered.{at_text, insert_multi}
use publiq_pp.Coin.{u64_mod}
use publiq_pp.Loaders.{MapLoader}
use publiq_pp.Documents.{Documents, get_file}
use publiq_pp.Rewards.{Share}

-- `item_result.second.second *= total` for every entry
unfoldable pub scale : ℕ → List Share → List Share
scale total [] = []
scale total ((key, (first, second)) ∷ items) =
    (key, (first, (second * total) % u64_mod)) ∷ scale total items

abbrev pub sum_views : List (String × ℕ) → ℕ → ℕ
sum_views [] sum = sum
sum_views ((key, count) ∷ items) sum = sum_views items ((sum + count) % u64_mod)

unfoldable pub storage_shares : List (String × ℕ) → List Share → List Share
storage_shares [] shares = shares
storage_shares ((storage, count) ∷ items) shares =
    storage_shares items (insert_multi storage (count, 1) shares)

unfoldable pub collect_storages : List (String × ℕ) → List Share
unfolding scale storage_shares
collect_storages storage_group = scale (sum_views storage_group 0) (storage_shares storage_group [])

-- Each author of a file gets an equal part of the file's part of the unit.
unfoldable pub author_shares : List String → ℕ × ℕ → List Share → List Share
author_shares [] share shares = shares
author_shares (author ∷ authors) share shares =
    author_shares authors share (insert_multi author share shares)

abbrev pub max : ℕ → ℕ → ℕ
max a b = if ltb a b then b else a

-- `unit -> file -> views` of one owner and content, as `counts_per_channel_views` gets them.
abbrev pub ByContent : Type 0
ByContent = List (ℕ × List (String × List (String × ℕ)))

abbrev pub max_views : List (String × ℕ) → ℕ → ℕ
max_views [] most = most
max_views ((file, count) ∷ items) most = max_views items (max most count)

abbrev pub max_unit_views : List (String × List (String × ℕ)) → ℕ → ℕ
max_unit_views [] most = most
max_unit_views ((unit, files) ∷ items) most = max_unit_views items (max_views files most)

-- The default of the node's function pointer.
unfoldable pub counts_per_channel_views : ByContent → ℕ → Bool → ℕ
counts_per_channel_views [] block_number is_testnet = 0
counts_per_channel_views ((content, units) ∷ items) block_number is_testnet =
    (counts_per_channel_views items block_number is_testnet + max_unit_views units 0) % u64_mod

-- `unit_value = max(unit_value, ...)` for the units of one owner
abbrev pub unit_counts :
    String
    → List (String × List (String × ℕ))
    → List (String × List (String × ℕ))
    → List (String × List (String × ℕ))
unit_counts server [] counts = counts
unit_counts server ((unit, files) ∷ items) counts =
    unit_counts server items (at_text unit [] (at_text server 0 (max_views files)) counts)

abbrev pub content_counts :
    String → ByContent → List (String × List (String × ℕ)) → List (String × List (String × ℕ))
content_counts server [] counts = counts
content_counts server ((content, units) ∷ items) counts =
    content_counts server items (unit_counts server units counts)

-- What the walk over the channels has gathered: the shares, their sum and the views by unit.
pub record Channels : Type 0 where
  pub shares : List Share
  pub total : ℕ
  pub unit_uri_view_counts : List (String × List (String × ℕ))

-- One owner whose units a channel has served, given the count of its views.
unfoldable pub channel_share : String → String → ℕ → List Share → List Share
channel_share serving_channel owner_channel count shares =
    if str_eq serving_channel owner_channel
    then insert_multi serving_channel ((2 * count) % u64_mod, 2) shares
    else insert_multi serving_channel (count, 2) (insert_multi owner_channel (count, 2) shares)

module _ (count_views : ByContent → ℕ) where
  unfoldable pub owner_shares : String → List (String × ByContent) → Channels → Channels
  unfolding channel_share
  owner_shares serving_channel [] c = c
  owner_shares serving_channel ((owner_channel, contents) ∷ items) c =
      owner_shares serving_channel items (record {
        shares = channel_share serving_channel owner_channel (count_views contents) c.shares;
        total = (c.total + count_views contents) % u64_mod;
        unit_uri_view_counts = content_counts serving_channel contents c.unit_uri_view_counts;
      })

  unfoldable pub server_shares : List (String × List (String × ByContent)) → Channels → Channels
  unfolding owner_shares
  server_shares [] c = c
  server_shares ((serving_channel, owners) ∷ items) c =
      server_shares items (owner_shares serving_channel owners c)

  unfoldable pub collect_channels : List (String × List (String × ByContent)) → Channels
  unfolding server_shares scale
  collect_channels content_group =
      let c =
        server_shares content_group
          (record { shares = []; total = 0; unit_uri_view_counts = [] }) in
      record c { shares = scale c.total c.shares }

module _ ⦃L : MapLoader⦄ (documents : Documents) where
  -- The loop over the files of a unit with `total` views.
  unfoldable pub file_shares : ℕ → ℕ → List (String × ℕ) → List Share → Result (List Share)
  unfolding author_shares
  file_shares total file_count [] shares = ok shares
  file_shares total file_count ((file_uri, count) ∷ items) shares =
      elim (get_file file_uri documents) [
        | none ↦ err out_of_range
        | some file ↦ file_shares total file_count items (
            author_shares file.author_addresses
              (total, (file_count * length file.author_addresses) % u64_mod) shares)
      ]

  unfoldable pub unit_shares :
      List (String × List (String × ℕ)) → ℕ → List Share → Result (ℕ × List Share)
  unfolding file_shares
  unit_shares [] all shares = ok (all, shares)
  unit_shares ((unit, files) ∷ items) all shares =
      if length files == 0
      then err assertion_failed
      else let total = sum_views files 0 / length files in
        if total == 0
        then err assertion_failed
        else bind (file_shares total (length files) files shares)
            (unit_shares items ((all + total) % u64_mod))

  unfoldable pub collect_authors : List (String × List (String × ℕ)) → Result (List Share)
  unfolding unit_shares scale
  collect_authors author_group =
      bind (unit_shares author_group 0 []) λ (all, shares). ok (scale all shares)
