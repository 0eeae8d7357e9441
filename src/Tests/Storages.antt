-- ===== src/Tests/Storages.antt =====
-- A storage that is asked for the files of a content, and what it requests.
use publiq_pp.Base.{◌≤◌, ◌≡◌, ◌↔◌, refl, length, true, false, some, [], ◌∷◌, String}
use publiq_pp.Base.Effects.{ok, is_ok}
use publiq_pp.Base.Dict.{Dict, lookup, erase, assign}
use publiq_pp.Base.Texts.{contains}
use publiq_pp.Loaders.Assoc.{assoc_loader}
use publiq_pp.State.{chain}
use publiq_pp.Storage.{StorageController, max_file_requests, pop, get_file_requests}
use publiq_pp.Storage.Requests.{get_file_requests_lem}
use publiq_pp.Transaction.Content.{Content, action_can_apply, action_apply}
use publiq_pp.Transaction.Content.Foretold.{content_foretold}
use publiq_pp.Tests.Nodes.{ids, node, node-IsValid, signed_by}

abbrev two_requests : StorageController
two_requests = record {
  active = true;
  requests =
      ("f1", record { file_uri = "f1"; channel_address = "carol" })
      ∷ ("f2", record { file_uri = "f2"; channel_address = "dave" })
      ∷ [];
  channels_files_requesting = [];
}

one_resolved :
    get_file_requests ("carol" ∷ []) two_requests
    ≡ ok (
      ("f1", "carol") ∷ [],
      record two_requests { channels_files_requesting = ("carol", ("f1", false) ∷ []) ∷ [] },
    )
unfolding get_file_requests lookup assign contains
one_resolved = refl

popped :
    (pop "f1" "carol" two_requests).1.requests
    ≡ ("f2", record { file_uri = "f2"; channel_address = "dave" }) ∷ []
unfolding pop lookup erase
popped = refl

get_file_requests_lem_example :
    (given : Dict String) × (s' : StorageController) × (get_file_requests
        ("carol" ∷ [])
        two_requests
      ≡ ok (given, s'))
    × (length given ≤ max_file_requests)
    × ((file channel : String)
        → lookup file given ≡ some channel
        → contains channel ("carol" ∷ []) ≡ true)
unfolding contains
get_file_requests_lem_example = get_file_requests_lem ("carol" ∷ []) two_requests (refl, (refl, tt))

abbrev announced : Content
announced = record { content_id = 7; channel_address = "carol"; content_unit_uris = "u1" ∷ [] }

content_foretold_example :
    ((action_can_apply ids (signed_by "carol") announced node ≡ ok true) ↔ (
      is_ok (action_apply ids "" (signed_by "carol") announced chain node two_requests).0 ≡ true))
    × (is_ok (action_apply ids "" (signed_by "carol") announced chain node two_requests).0 ≡ false
        → (action_apply ids "" (signed_by "carol") announced chain node two_requests).1
          ≡ two_requests)
content_foretold_example =
    content_foretold ids "" (signed_by "carol") announced chain node two_requests
      (record { address = "carol"; signature = "s" }) node-IsValid refl
