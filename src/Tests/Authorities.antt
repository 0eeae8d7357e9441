-- ===== src/Tests/Authorities.antt =====
-- Awarding and taking back authorities on the example node.
use publiq_pp.Base.{ℕ, ◌≡◌, refl, false, ◌&&◌, [], ◌∷◌, String, str_eq, if◌then◌else◌, arith}
use publiq_pp.Base.Dict.{lookup, insert, assign}
use publiq_pp.Base.Effects.{ok, ◌>>◌}
use publiq_pp.Loaders.Assoc.{assoc_loader}
use publiq_pp.State.{pool}
use publiq_pp.Documents.{store}
use publiq_pp.Authority.{
  Store, full, permits, get_record, check_authority, set_record, smart_create_dummy_record,
  smart_cleanup_dummy_record,
}
use publiq_pp.Authority.Records.{grant, IsSound, Replaced, replace_lem}
use publiq_pp.Node.View.{IsValid, Permitted}
use publiq_pp.Transaction.Authorization.{
  AuthorizationUpdate, apply_record, change_record, insert_ids, action_can_apply, action_apply,
}
use publiq_pp.Transaction.Authorization.Records.{decided}
use publiq_pp.Transaction.Authorization.Round.{
  Agrees, authorization_decides, authorization_foretold,
}
use publiq_pp.Tests.Nodes.{ids, node, node-IsValid, signed_by}

-- Alice lets bob sign transfers and files for her.
abbrev award : AuthorizationUpdate
award = record { update_type = store; owner = "alice"; actor = "bob"; action_ids = 4 ∷ 7 ∷ [] }

by_alice : Permitted ids.authorization_update "alice" (signed_by "alice") node
unfolding lookup permits
by_alice = record {
  signer = record { address = "alice"; signature = "s" };
  alone = refl;
  allowed = ground arith;
}

awarded : (action_apply ids (signed_by "alice") award pool node).0 ≡ ok tt
unfolding action_apply check_authority get_record permits lookup insert assign change_record
    apply_record insert_ids set_record smart_create_dummy_record smart_cleanup_dummy_record
awarded = refl

abbrev split_store : Store
split_store =
    ("alice", ("alice", full) ∷ ("bob", record { default_full = false; action_ids = 4 ∷ [] }) ∷ [])
    ∷ []

split-IsSound : IsSound split_store
unfolding lookup
split-IsSound a = ground arith

replace_lem_example :
    Replaced "alice" "bob" full split_store
      ((set_record "alice" "bob" full >> smart_cleanup_dummy_record "alice" "bob") split_store)
unfolding lookup
replace_lem_example = replace_lem "alice" "bob" full split_store split-IsSound (record {
  auths = ("alice", full) ∷ ("bob", record { default_full = false; action_ids = 4 ∷ [] }) ∷ [];
  stored = refl;
  own = refl;
  signer = refl;
})

authorization_decides_example :
    let m = (action_apply ids (signed_by "alice") award pool node).1 in
    IsValid m
    × ((a b : String) (id : ℕ)
        → permits (grant a b m.authority_manager) id ≡ (
            if str_eq "alice" a && str_eq "bob" b
            then decided store (4 ∷ 7 ∷ []) id (permits (grant a b node.authority_manager) id)
            else permits (grant a b node.authority_manager) id))
    × (m.state ≡ node.state)
    × (m.documents ≡ node.documents)
authorization_decides_example =
    authorization_decides ids (signed_by "alice") award pool node node-IsValid by_alice awarded

authorization_foretold_example :
    Agrees
      (action_can_apply ids (signed_by "alice") award node)
      (action_apply ids (signed_by "alice") award pool node).0
authorization_foretold_example =
    authorization_foretold ids (signed_by "alice") award pool node node-IsValid by_alice
