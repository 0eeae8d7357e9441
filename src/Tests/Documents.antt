-- ===== src/Tests/Documents.antt =====
-- Files, units and holders on the example node.
use publiq_pp.Base.{
  ◌≡◌, refl, true, ◌&&◌, some, [], ◌∷◌, String, str_eq, if◌then◌else◌, arith, eq_iff,
}
use publiq_pp.Base.Dict.{lookup}
use publiq_pp.Base.Texts.{contains, add_text}
use publiq_pp.Base.Effects.{ok}
use publiq_pp.Loaders.Assoc.{assoc_loader}
use publiq_pp.State.{pool, get_role}
use publiq_pp.Documents.{
  File, ContentUnit, store, get_file, get_unit, file_exists, files_exist, storage_has_uri,
}
use publiq_pp.Authority.{permits}
use publiq_pp.Node.{Node}
use publiq_pp.Node.View.{SameView, Permitted}
use publiq_pp.Transaction.File as FileAction
use publiq_pp.Transaction.File.Round.{file_round}
use publiq_pp.Transaction.ContentUnit as UnitAction
use publiq_pp.Transaction.ContentUnit.{content_unit_validate_check, text_set}
use publiq_pp.Transaction.ContentUnit.Round.{unit_round}
use publiq_pp.Transaction.StorageUpdate as UpdateAction
use publiq_pp.Transaction.StorageUpdate.{StorageUpdate}
use publiq_pp.Transaction.StorageUpdate.Round.{storage_update_round}
use publiq_pp.Tests.Nodes.{ids, library, node, node-IsValid, signed_by}

abbrev new_file : File
new_file = record { uri = "f2"; author_addresses = "alice" ∷ [] }

abbrev new_unit : ContentUnit
new_unit = record {
  uri = "u1";
  content_id = 1;
  author_addresses = "alice" ∷ [];
  channel_address = "dave";
  file_uris = "f1" ∷ [];
}

abbrev holding : StorageUpdate
holding = record { status = store; file_uri = "f1"; storage_address = "carol" }

file_round_example :
    (m : Node) × (n' : Node) × (FileAction.action_apply ids (signed_by "alice") new_file pool node
      ≡ (ok tt, m))
    × ((j : String)
        → get_file j m.documents ≡ (if str_eq "f2" j then some new_file else get_file j library))
    × (FileAction.action_revert ids (signed_by "alice") new_file pool m ≡ (ok tt, n'))
    × SameView n' node
unfolding lookup permits get_file FileAction.action_is_complete
file_round_example =
    file_round ids (signed_by "alice") new_file pool node node-IsValid refl (ground arith)
      (ground (arith, eq_iff "f2" "")) refl

unit_round_example :
    (m : Node) × (n' : Node) × (UnitAction.action_apply ids content_unit_validate_check
        (signed_by "alice")
        new_unit
        pool
        node
      ≡ (ok tt, m))
    × ((j : String)
        → get_unit j m.documents ≡ (if str_eq "u1" j then some new_unit else get_unit j library))
    × (UnitAction.action_revert ids content_unit_validate_check (signed_by "alice") new_unit pool m
        ≡ (ok tt, n'))
    × SameView n' node
unfolding lookup permits get_unit UnitAction.action_is_complete content_unit_validate_check text_set
    files_exist contains add_text
unit_round_example =
    unit_round ids content_unit_validate_check (signed_by "alice") new_unit pool node node-IsValid
      refl (ground arith) refl refl refl

by_carol : Permitted ids.storage_update "carol" (signed_by "carol") node
unfolding lookup permits
by_carol = record {
  signer = record { address = "carol"; signature = "s" };
  alone = refl;
  allowed = ground arith;
}

storage_update_round_example :
    (m : Node) × (n' : Node) × (UpdateAction.action_apply ids (signed_by "carol") holding pool node
      ≡ (ok tt, m))
    × ((uri a : String)
        → storage_has_uri uri a m.documents
          ≡ (if str_eq "f1" uri && str_eq "carol" a then true else storage_has_uri uri a library))
    × (UpdateAction.action_revert ids (signed_by "carol") holding pool m ≡ (ok tt, n'))
    × SameView n' node
unfolding lookup get_role file_exists storage_has_uri
storage_update_round_example =
    storage_update_round ids (signed_by "carol") holding pool node node-IsValid by_carol refl refl
      refl
