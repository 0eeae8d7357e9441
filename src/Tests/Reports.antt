-- ===== src/Tests/Reports.antt =====
-- A channel and a storage that report the same views of a file with two authors.
use publiq_pp.Base.{
  Option, some, false, ℕ, ◌≡◌, ◌↔◌, ◌≤◌, ◌*◌, refl, Bool, true, not, ◌==◌, [], ◌∷◌, String, arith,
}
use publiq_pp.Base.Effects.{ok, is_ok}
use publiq_pp.Loaders.Assoc.{assoc_loader}
use publiq_pp.Documents.{Documents, get_file, get_unit, files_exist, units_exist}
use publiq_pp.Base.Texts.{add_text}
use publiq_pp.Base.Dict.{lookup}
use publiq_pp.Base.Ordered.{text_or, at_text, at_number, insert_multi}
use publiq_pp.Statistics.{ServiceStatistics}
use publiq_pp.Statistics.Collect.{ByContent, counts_per_channel_views}
use publiq_pp.Statistics.Validate.{Groups, Results, collect, validate_statistics}
use publiq_pp.Statistics.Wholes.{AreParts}
use publiq_pp.State.{chain, get_role, get_balance, from_message}
use publiq_pp.Authority.{check_authority}
use publiq_pp.Coin.{lt}
use publiq_pp.Node.{SignedTransaction}
use publiq_pp.Blockchain.{Block}
use publiq_pp.Transaction.ServiceStatistics.{action_can_apply, action_apply}
use publiq_pp.Transaction.ServiceStatistics.Foretold.{service_statistics_foretold}
use publiq_pp.Statistics.Included.{
  check_service_statistics, by_channel, by_other, reports, half_included_iff,
}
use publiq_pp.Tests.Nodes.{ids, node, bank, signed_by, node-IsValid}
use publiq_pp.Statistics.Results.{collect-AreParts}

abbrev shelf : Documents
shelf = record {
  files = ("f1", record { uri = "f1"; author_addresses = "alice" ∷ "bob" ∷ [] }) ∷ [];
  units =
      (
        "u1",
        record {
          uri = "u1";
          content_id = 7;
          author_addresses = "alice" ∷ [];
          channel_address = "owner";
          file_uris = "f1" ∷ [];
        },
      )
      ∷ [];
  storages = [];
}

-- A mismatch of any size.
abbrev differs : ℕ → ℕ → Bool
differs a b = not (a == b)

abbrev counts : ByContent → ℕ
counts contents = counts_per_channel_views contents 1 true

abbrev report : String → String → ServiceStatistics
report server peer = record {
  server_address = server;
  start_time_point = 0;
  end_time_point = 600;
  file_items =
      record {
        file_uri = "f1";
        unit_uri = "u1";
        count_items = record { count = 4; peer_address = peer } ∷ [];
      }
      ∷ [];
}

abbrev four_views : Groups
four_views = record {
  storage_group = ("storage", 4) ∷ [];
  author_group = ("u1", ("f1", 4) ∷ []) ∷ [];
  content_group = ("server", ("owner", (7, ("u1", ("f1", 4) ∷ []) ∷ []) ∷ []) ∷ []) ∷ [];
}

abbrev halves : Results
halves = record {
  author_result = ("alice", (4, 8)) ∷ ("bob", (4, 8)) ∷ [];
  channel_result = ("owner", (4, 8)) ∷ ("server", (4, 8)) ∷ [];
  storage_result = ("storage", (4, 4)) ∷ [];
  unit_uri_view_counts = ("u1", ("server", 4) ∷ []) ∷ [];
}

agrees :
    validate_statistics counts shelf differs
      (("server", report "server" "storage") ∷ [])
      (("storage", report "storage" "server") ∷ [])
    ≡ ok halves
unfolding validate_statistics counts_per_channel_views files_exist add_text lookup units_exist
    text_or at_text get_unit get_file insert_multi at_number
agrees = refl

collect-AreParts_example :
    (r : Results) × (collect counts shelf four_views ≡ ok r)
    × AreParts r.author_result
    × AreParts r.channel_result
    × AreParts r.storage_result
unfolding counts_per_channel_views get_file lookup
collect-AreParts_example =
    collect-AreParts counts shelf four_views (omega arith) (omega arith) (omega arith) (
      omega arith,
      omega arith,
      (
        record { uri = "f1"; author_addresses = "alice" ∷ "bob" ∷ [] },
        refl,
        omega arith,
        omega arith,
        tt,
      ),
      tt,
    )

-- Carol, a storage, reports one view of a file; the addresses of nobody are known.
abbrev carols : ServiceStatistics
carols = record (report "carol" "bob") { start_time_point = 400; end_time_point = 1000 }

refused : action_can_apply ids 1000 [] (signed_by "carol") carols chain node ≡ ok false
unfolding action_can_apply check_authority get_role get_balance from_message files_exist add_text
    lookup lt
refused = refl

service_statistics_foretold_example :
    (action_can_apply ids 1000 [] (signed_by "carol") carols chain node
      ≡ ok (is_ok (action_apply ids 1000 [] (signed_by "carol") carols chain node).0))
    × ((action_apply ids 1000 [] (signed_by "carol") carols chain node).1 ≡ node)
service_statistics_foretold_example =
    service_statistics_foretold 1000 [] ids (signed_by "carol") carols chain node
      (record { address = "carol"; signature = "s" }) node-IsValid refl

-- Every transaction is a report of Carol's.
abbrev reads_carols : SignedTransaction → Option ServiceStatistics
reads_carols st = some carols

abbrev full_block : Block
full_block = record {
  header = record {
    block_number = 2;
    delta = 1;
    c_sum = 3;
    c_const = 1;
    prev_hash = "";
    time_signed = 1600;
  };
  rewards = [];
  signed_transactions = signed_by "carol" ∷ signed_by "dave" ∷ [];
}

half_missing :
    check_service_statistics reads_carols bank
      (record full_block { signed_transactions = [] })
      (signed_by "carol" ∷ [])
      []
    ≡ true
unfolding check_service_statistics get_role lookup
half_missing = refl

half_included_iff_example :
    (check_service_statistics reads_carols bank full_block
        (signed_by "carol" ∷ [])
        (signed_by "dave" ∷ [])
      ≡ false)
    ↔ ((reports reads_carols bank by_channel 1600 (signed_by "carol" ∷ signed_by "dave" ∷ [])
          ≤ 2
            * reports reads_carols bank by_channel 1600 (signed_by "carol" ∷ signed_by "dave" ∷ []))
        × (reports reads_carols bank by_other 1600 (signed_by "carol" ∷ signed_by "dave" ∷ [])
            ≤ 2
              * reports reads_carols bank by_other 1600
                  (signed_by "carol" ∷ signed_by "dave" ∷ [])))
half_included_iff_example =
    half_included_iff reads_carols bank full_block (signed_by "carol" ∷ []) (signed_by "dave" ∷ [])
      (omega arith)
