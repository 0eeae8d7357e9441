-- ===== src/Storage.antt =====
-- src/libblockchain/storage.cpp: the requests of a storage for the files that channels announce
-- (`storage_controller`). `channels_files_requesting` is a map of maps, both in memory.
pub mod Requests
use publiq_pp.Base.{
  ℕ, ◌+◌, ◌||◌, ◌==◌, length, Bool, true, false, not, Option, none, some, List, [], ◌∷◌, String,
  str_eq, if◌then◌else◌, is_empty, is_some,
}
use publiq_pp.Base.Effects.{logic_error, out_of_range, Result, ok, err, bind, Eff}
use publiq_pp.Base.Dict.{Dict, lookup, assign, erase as drop}
use publiq_pp.Base.Texts.{contains, add_text}
use publiq_pp.Loaders.{MapLoader}

pub record FileRequest : Type 0 where
  pub file_uri : String
  pub channel_address : String

-- `enum initiate_type`
pub data InitiateType : Type 0 where
  check revert : InitiateType

abbrev pub is_check : InitiateType → Bool
is_check check = true
is_check revert = false

-- `STORAGE_MAX_FILE_REQUESTS` of common.hpp
abbrev pub max_file_requests : ℕ
max_file_requests = 100

abbrev or_empty : Option (Dict Bool) → Dict Bool
or_empty none = []
or_empty (some d) = d

-- What `channels_files_requesting[channel_address].find(file_uri)` finds.
abbrev pub requesting : Dict (Dict Bool) → String → String → Option Bool
requesting channels file_uri channel_address =
    lookup file_uri (or_empty (lookup channel_address channels))

module _ ⦃L : MapLoader⦄ where
  open L use {Map, find, insert, erase, keys}

  -- `active` tells whether `m_pimpl` is there.
  pub record StorageController : Type 0 where
    pub active : Bool
    pub requests : Map FileRequest
    pub channels_files_requesting : Dict (Dict Bool)

  unfoldable pub enqueue : String → String → StorageController → StorageController
  enqueue file_uri channel_address s = if not s.active then s else record s {
    requests =
        insert s.requests file_uri
          (record { file_uri = file_uri; channel_address = channel_address });
  }

  unfoldable pub pop : String → String → Eff StorageController (Unit {0})
  pop file_uri channel_address s =
      if not s.active
      then (ok tt, s)
      else if is_some (requesting s.channels_files_requesting file_uri channel_address)
      then (err logic_error, s)
      else elim (find s.requests file_uri) [
        | none ↦ (err out_of_range, s)
        | some fr ↦ (
          ok tt,
          if str_eq fr.channel_address channel_address
              then record s { requests = erase s.requests file_uri }
              else s,
        )
      ]

  -- A file that is no longer requested, and its channel with the last one.
  abbrev drop_file : String → String → Dict (Dict Bool) → Dict (Dict Bool)
  drop_file file_uri channel_address channels =
      let left = drop file_uri (or_empty (lookup channel_address channels)) in
      if is_empty left then drop channel_address channels else assign channel_address left channels

  unfoldable pub initiate : String → String → InitiateType → Eff StorageController (Unit {0})
  initiate file_uri channel_address initiate_type s =
      if not s.active
      then (ok tt, s)
      else elim (requesting s.channels_files_requesting file_uri channel_address) [
        | none ↦ (err logic_error, s)
        | some checked ↦
            if is_check initiate_type
            then if checked then (err logic_error, s) else (
              ok tt,
              record s {
                channels_files_requesting =
                    assign channel_address
                      (assign file_uri true
                        (or_empty (lookup channel_address s.channels_files_requesting)))
                      s.channels_files_requesting;
              },
            )
            else (
              ok tt,
              record s {
                channels_files_requesting =
                    drop_file file_uri channel_address s.channels_files_requesting;
              },
            )
      ]

  -- Where the loop of `get_file_requests` stands.
  pub record Round : Type 0 where
    pub controller : StorageController
    pub unresolved : List String
    pub count_all : ℕ
    pub file_to_channel : Dict String

  -- A request for a channel that is not resolved: the first ten such channels are kept.
  abbrev pub pass_over : String → String → Round → Round
  pass_over file_uri channel_address r =
      if length r.unresolved == 10
      then if contains channel_address r.unresolved then r else record r {
        controller = record r.controller { requests = erase r.controller.requests file_uri };
      }
      else record r { unresolved = add_text channel_address r.unresolved }

  abbrev pub request_file : String → String → Round → Round
  request_file file_uri channel_address r =
      if r.count_all == max_file_requests
      then r
      else if is_some (requesting r.controller.channels_files_requesting file_uri channel_address)
      then r
      else record r {
        controller = record r.controller {
          channels_files_requesting =
              assign channel_address
                (assign file_uri false
                  (or_empty (lookup channel_address r.controller.channels_files_requesting)))
                r.controller.channels_files_requesting;
        };
        count_all = r.count_all + 1;
        file_to_channel = assign file_uri channel_address r.file_to_channel;
      }

  unfoldable pub visit : List String → String → Round → Result Round
  unfolding contains add_text
  visit resolved_channels file_uri r = elim (find r.controller.requests file_uri) [
    | none ↦ err out_of_range
    | some fr ↦ ok (
        if contains fr.channel_address resolved_channels
        then request_file file_uri fr.channel_address r
        else pass_over file_uri fr.channel_address r)
  ]

  unfoldable pub visit_all : List String → List String → Round → Result Round
  unfolding visit
  visit_all resolved_channels [] r = ok r
  visit_all resolved_channels (file_uri ∷ file_uris) r =
      bind (visit resolved_channels file_uri r) (visit_all resolved_channels file_uris)

  abbrev pub count_requests : Dict (Dict Bool) → ℕ
  count_requests [] = 0
  count_requests ((channel, files) ∷ channels) = length files + count_requests channels

  -- The map that is returned and the controller after it, without what a throw would leave behind.
  unfoldable pub get_file_requests :
      List String → StorageController → Result (Dict String × StorageController)
  unfolding visit_all
  get_file_requests resolved_channels s =
      if not s.active || not (count_requests s.channels_files_requesting == 0)
      then ok ([], s)
      else bind
          (visit_all resolved_channels (keys s.requests)
            (record { controller = s; unresolved = []; count_all = 0; file_to_channel = [] }))
          (λ r. ok (r.file_to_channel, r.controller))
