-- ===== src/Statistics.antt =====
-- The reports of channels and storages on what was served in a block's time (`ServiceStatistics` of
-- message.idl), and `validate_statistics` of src/libblockchain/communication_p2p.cpp.
pub mod Collect
pub mod Validate
pub mod Wholes
pub mod Shared
pub mod Files
pub mod Authors
pub mod Results
pub mod Included
use publiq_pp.Base.{ℕ, List, [], ◌∷◌, ◌++◌, String}

pub record ServiceStatisticsCount : Type 0 where
  pub count : ℕ
  pub peer_address : String

pub record ServiceStatisticsFile : Type 0 where
  pub file_uri : String
  pub unit_uri : String
  pub count_items : List ServiceStatisticsCount

pub record ServiceStatistics : Type 0 where
  pub server_address : String
  pub start_time_point : ℕ
  pub end_time_point : ℕ
  pub file_items : List ServiceStatisticsFile

-- One round of the three nested loops over a map of reports.
pub record View : Type 0 where
  pub server : String
  pub file_uri : String
  pub unit_uri : String
  pub peer_address : String
  pub count : ℕ

abbrev count_views : String → ServiceStatisticsFile → List ServiceStatisticsCount → List View
count_views server f [] = []
count_views server f (c ∷ cs) =
    record {
      server = server;
      file_uri = f.file_uri;
      unit_uri = f.unit_uri;
      peer_address = c.peer_address;
      count = c.count;
    }
    ∷ count_views server f cs

abbrev file_views : String → List ServiceStatisticsFile → List View
file_views server [] = []
file_views server (f ∷ fs) = count_views server f f.count_items ++ file_views server fs

-- The rounds in their order.
abbrev pub views : List (String × ServiceStatistics) → List View
views [] = []
views ((server, s) ∷ items) = file_views server s.file_items ++ views items
