-- ===== src/Tests/Transactions.antt =====
-- Whole transactions with their fees on the example node.
use publiq_pp.Base.{◌≡◌, ◌≢◌, refl, true, false, [], ◌∷◌, String, eq_iff, arith}
use publiq_pp.Base.Dict.{lookup, assign, erase}
use publiq_pp.Base.Effects.{ok}
use publiq_pp.Coin.{Coin, empty, add, lt, sub}
use publiq_pp.Coin.Value.{value}
use publiq_pp.Loaders.Assoc.{assoc_loader}
use publiq_pp.State.{
  Role, chain, pool, storage, get_balance, get_role, from_message, increase_balance,
  decrease_balance,
}
use publiq_pp.State.Layers.{IsSynced, Follows}
use publiq_pp.Authority.{check_authority, get_record, permits}
use publiq_pp.Documents.{store, file_exists, storage_has_uri}
use publiq_pp.Node.{Node, Authority}
use publiq_pp.Node.View.{SameView}
use publiq_pp.Transaction.Fee.{fee_can_apply, fee_apply, fee_revert}
use publiq_pp.Transaction.Fee.Round.{Moves, fee_round}
use publiq_pp.Transaction.Transfer as TransferAction
use publiq_pp.Transaction.Transfer.{Transfer}
use publiq_pp.Transaction.Authorization as UpdateAction
use publiq_pp.Transaction.Authorization.{AuthorizationUpdate}
use publiq_pp.Transaction.Role as RoleAction
use publiq_pp.Transaction.StorageUpdate as StorageAction
use publiq_pp.Transaction.StorageUpdate.{StorageUpdate}
use publiq_pp.Transaction.Apply.{apply_transaction, revert_transaction}
use publiq_pp.Transaction.Apply.Round.{Reverts, apply_transaction_refused, revert-apply_transaction}
use publiq_pp.Transaction.Apply.Kinds.{
  transfer_action, authorization_action, role_action, storage_update_action, transfer-Reverts,
  authorization-Reverts, role-Reverts, storage_update-Reverts,
}
use publiq_pp.Tests.Nodes.{ids, coins, bank, node, node-IsValid, signed_by}

abbrev fee : Coin
fee = coins 0 1000

abbrev by : String → Authority
by a = record { address = a; signature = "s" }

bank-IsSynced : IsSynced chain bank
unfolding get_balance lookup
bank-IsSynced c = refl

fee_round_example :
    (m : Node) × (n' : Node) × (fee_apply "bob" fee "node" node ≡ (ok tt, m))
    × Moves "bob" "node" (value fee) bank m.state
    × Follows chain bank m.state
    × (fee_revert "bob" fee "node" m ≡ (ok tt, n'))
    × SameView n' node
unfolding get_balance lookup
fee_round_example =
    fee_round "bob" fee "node" node node-IsValid (omega arith) bank-IsSynced
      (ground (arith, eq_iff "node" "")) (omega arith) (omega arith)

-- All that bob has, so that nothing is left for a fee.
abbrev everything : Transfer
everything = record { from = "bob"; to = "alice"; amount = coins 3 0; message = "" }

bob-alice : ◌≢◌ {A = String} "bob" "alice"
bob-alice = ground (arith, eq_iff "bob" "alice")

everything-Reverts :
    (TransferAction.action_can_apply ids (signed_by "bob") everything node ≡ ok true)
    → Reverts (transfer_action ids (signed_by "bob") everything) pool node
unfolding get_balance lookup
everything-Reverts can =
    (transfer-Reverts ids (signed_by "bob") everything pool node (by "bob") node-IsValid
      (omega arith) (λ c. absurd (ground (arith, c))) refl bob-alice (omega arith) can).0

-- The node itself is paid, at the chain layer.
abbrev to_node : Transfer
to_node = record { from = "bob"; to = "node"; amount = coins 2 0; message = "" }

covered : TransferAction.action_can_apply ids (signed_by "bob") to_node node ≡ ok true
unfolding TransferAction.action_can_apply check_authority get_record permits get_balance
    from_message lookup lt
covered = refl

bob-node : ◌≢◌ {A = String} "bob" "node"
bob-node = ground (arith, eq_iff "bob" "node")

transfer-Reverts_example :
    Reverts (transfer_action ids (signed_by "bob") to_node) chain node
    × Follows chain bank
        (TransferAction.action_apply ids (signed_by "bob") to_node chain node).1.state
unfolding get_balance lookup
transfer-Reverts_example =
    transfer-Reverts ids (signed_by "bob") to_node chain node (by "bob") node-IsValid (omega arith)
      bank-IsSynced refl bob-node (omega arith) covered

not_left :
    (apply_transaction (transfer_action ids (signed_by "bob") everything) fee "" node).0 ≡ ok false
unfolding apply_transaction fee_can_apply TransferAction.action_can_apply
    TransferAction.action_apply TransferAction.action_revert check_authority get_record permits
    get_balance from_message lookup assign lt increase_balance decrease_balance add sub empty erase
not_left = refl

apply_transaction_refused_example :
    SameView
      (apply_transaction (transfer_action ids (signed_by "bob") everything) fee "" node).1
      node
apply_transaction_refused_example =
    apply_transaction_refused (transfer_action ids (signed_by "bob") everything) fee "" node
      everything-Reverts not_left

taken :
    (apply_transaction (transfer_action ids (signed_by "bob") everything) (coins 0 0) "" node).0
    ≡ ok true
unfolding apply_transaction fee_can_apply fee_apply TransferAction.action_can_apply
    TransferAction.action_apply check_authority get_record permits get_balance from_message lookup
    assign lt increase_balance decrease_balance add sub empty erase
taken = refl

revert-apply_transaction_example :
    (n' : Node) × (revert_transaction
        (transfer_action ids (signed_by "bob") everything)
        (coins 0 0)
        ""
        (apply_transaction (transfer_action ids (signed_by "bob") everything) (coins 0 0) "" node).1
      ≡ (ok tt, n'))
    × SameView n' node
revert-apply_transaction_example =
    revert-apply_transaction (transfer_action ids (signed_by "bob") everything) (coins 0 0) node
      everything-Reverts taken

abbrev award : AuthorizationUpdate
award = record { update_type = store; owner = "alice"; actor = "bob"; action_ids = 4 ∷ 7 ∷ [] }

award_allowed : UpdateAction.action_can_apply ids (signed_by "alice") award node ≡ ok true
unfolding UpdateAction.action_can_apply UpdateAction.can_apply_record UpdateAction.insert_ids
    check_authority get_record permits lookup
award_allowed = refl

authorization-Reverts_example :
    Reverts (authorization_action ids (signed_by "alice") award) pool node
authorization-Reverts_example =
    authorization-Reverts ids (signed_by "alice") award pool node (by "alice") node-IsValid refl
      award_allowed

abbrev as_storage : Role
as_storage = record { node_address = "alice"; node_type = storage }

storage_allowed : RoleAction.action_can_apply ids (signed_by "alice") as_storage node ≡ ok true
unfolding RoleAction.action_can_apply check_authority get_record permits lookup get_role get_balance
    from_message lt
storage_allowed = refl

role-Reverts_example : Reverts (role_action ids (signed_by "alice") as_storage) pool node
role-Reverts_example =
    role-Reverts ids (signed_by "alice") as_storage pool node (by "alice") node-IsValid refl
      storage_allowed

abbrev holding : StorageUpdate
holding = record { status = store; file_uri = "f1"; storage_address = "carol" }

holding_allowed : StorageAction.action_can_apply ids (signed_by "carol") holding node ≡ ok true
unfolding StorageAction.action_can_apply check_authority get_record permits lookup get_role
    file_exists storage_has_uri
holding_allowed = refl

storage_update-Reverts_example :
    Reverts (storage_update_action ids (signed_by "carol") holding) pool node
storage_update-Reverts_example =
    storage_update-Reverts ids (signed_by "carol") holding pool node (by "carol") node-IsValid refl
      holding_allowed
