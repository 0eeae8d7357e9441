-- ===== src/Transaction/Apply/Kinds.antt =====
-- Four kinds of action as the operations that `apply_transaction` calls, and when each goes through
-- and can be reverted.
use publiq_pp.Base.{◌+◌, ◌<◌, ◌≤◌, ◌≡◌, ◌≢◌, ap, subst, true, [], ◌∷◌, arith}
use publiq_pp.Base.Effects.{ok}
use publiq_pp.Coin.Value.{value, IsCoin, capacity}
use publiq_pp.Loaders.{MapLoader}
use publiq_pp.State.{StateLayer, Role}
use publiq_pp.State.Balances.{worth}
use publiq_pp.State.Layers.{IsSynced, Follows}
use publiq_pp.Authority.{permits}
use publiq_pp.Authority.Records.{grant}
use publiq_pp.Node.{Node, Authority, SignedTransaction, ActionIds}
use publiq_pp.Node.View.{IsValid, Permitted, check_authority_lem}
use publiq_pp.Transaction.Transfer as TransferAction
use publiq_pp.Transaction.Transfer.{Transfer}
use publiq_pp.Transaction.Transfer.Round.{transfer_foretold, transfer_reverts}
use publiq_pp.Transaction.Authorization as UpdateAction
use publiq_pp.Transaction.Authorization.{AuthorizationUpdate}
use publiq_pp.Transaction.Authorization.Round.{
  Agrees, authorization_foretold, authorization_reverts,
}
use publiq_pp.Transaction.Role as RoleAction
use publiq_pp.Transaction.Role.Round.{role_foretold, role_granted_iff, role_round}
use publiq_pp.Transaction.StorageUpdate as StorageAction
use publiq_pp.Transaction.StorageUpdate.{StorageUpdate}
use publiq_pp.Transaction.StorageUpdate.Round.{storage_update_round}
use publiq_pp.Transaction.Apply.{Action}
use publiq_pp.Transaction.Apply.Round.{Reverts}

module _ ⦃L : MapLoader⦄ (ids : ActionIds) (st : SignedTransaction) where
  abbrev pub transfer_action : Transfer → Action
  transfer_action t = record {
    owner = t.from;
    can_apply = TransferAction.action_can_apply ids st t;
    apply = TransferAction.action_apply ids st t;
    revert = TransferAction.action_revert ids st t;
  }

  abbrev pub authorization_action : AuthorizationUpdate → Action
  authorization_action u = record {
    owner = u.owner;
    can_apply = UpdateAction.action_can_apply ids st u;
    apply = UpdateAction.action_apply ids st u;
    revert = UpdateAction.action_revert ids st u;
  }

  abbrev pub role_action : Role → Action
  role_action r = record {
    owner = r.node_address;
    can_apply = RoleAction.action_can_apply ids st r;
    apply = RoleAction.action_apply ids st r;
    revert = RoleAction.action_revert ids st r;
  }

  abbrev pub storage_update_action : StorageUpdate → Action
  storage_update_action u = record {
    owner = u.storage_address;
    can_apply = StorageAction.action_can_apply ids st u;
    apply = StorageAction.action_apply ids st u;
    revert = StorageAction.action_revert ids st u;
  }

  -- In a valid node, a transfer of a normalised amount that `action_can_apply` accepts for its one
  -- signer, to another account that has room for it, at the pool layer, or at the chain layer where
  -- that has the balance of the node's own key that the pool layer has: it goes through, at the
  -- chain layer the balance of the node's own key follows the one of the pool layer while no other
  -- balance of the chain layer changes, and reverting it succeeds and gives back the view of the
  -- node, with the balances of both layers.
  pub transfer-Reverts :
      (t : Transfer) (layer : StateLayer) (n : Node) (a : Authority)
      → IsValid n
      → IsCoin t.amount
      → IsSynced layer n.state
      → st.authorizations ≡ a ∷ []
      → t.from ≢ t.to
      → worth t.to n.state + value t.amount < capacity
      → TransferAction.action_can_apply ids st t n ≡ ok true
      → Reverts (transfer_action t) layer n
        × Follows layer n.state (TransferAction.action_apply ids st t layer n).1.state
  transfer-Reverts t layer n a v ha synced one ne fits can =
      let told = transfer_foretold ids st t n a v ha one in
      let allowed : permits (grant t.from a.address n.authority_manager) ids.transfer ≡ true =
        ground (arith, told, can) in
      let enough : value t.amount ≤ worth t.from n.state = ground (arith, told, can) in
      let (done, over, (back, e, same)) =
        transfer_reverts ids st t layer n v ha
          (record { signer = a; alone = one; allowed = allowed }) synced ne enough fits in
      (
        record {
          after = (TransferAction.action_apply ids st t layer n).1;
          back = back;
          applied = ap (λ r. (r, (TransferAction.action_apply ids st t layer n).1)) done;
          reverted = e;
          same = same;
        },
        over,
      )

  -- In a valid node, an authorization update that `action_can_apply` accepts for its one signer
  -- goes through, and reverting it succeeds and gives back the view of the node.
  pub authorization-Reverts :
      (u : AuthorizationUpdate) (layer : StateLayer) (n : Node) (a : Authority)
      → IsValid n
      → st.authorizations ≡ a ∷ []
      → UpdateAction.action_can_apply ids st u n ≡ ok true
      → Reverts (authorization_action u) layer n
  unfolding UpdateAction.action_can_apply
  authorization-Reverts u layer n a v one can =
      let allowed : permits (grant u.owner a.address n.authority_manager) ids.authorization_update
          ≡ true =
        ground
          (arith, one, can, check_authority_lem u.owner a.address ids.authorization_update n v) in
      let p : Permitted ids.authorization_update u.owner st n = record {
        signer = a;
        alone = one;
        allowed = allowed;
      } in
      let told = authorization_foretold ids st u layer n v p in
      let done : (UpdateAction.action_apply ids st u layer n).0 ≡ ok tt =
        subst (λ c. Agrees c (UpdateAction.action_apply ids st u layer n).0) can told in
      let (back, e, same) = authorization_reverts ids st u layer n v p done in
      record {
        after = (UpdateAction.action_apply ids st u layer n).1;
        back = back;
        applied = ap (λ r. (r, (UpdateAction.action_apply ids st u layer n).1)) done;
        reverted = e;
        same = same;
      }

  -- In a valid node, a role that `action_can_apply` accepts for its one signer is granted, and
  -- reverting it succeeds and gives back the view of the node.
  pub role-Reverts :
      (r : Role) (layer : StateLayer) (n : Node) (a : Authority)
      → IsValid n
      → st.authorizations ≡ a ∷ []
      → RoleAction.action_can_apply ids st r n ≡ ok true
      → Reverts (role_action r) layer n
  role-Reverts r layer n a v one can =
      let told = role_foretold ids st r layer n a v one in
      let g = (role_granted_iff ids st r layer n a v one).0 (ground (arith, told, can)) in
      let (after, back, applied, there, reverted, same) =
        role_round ids st r layer n v (record { signer = a; alone = one; allowed = g.0 })
          (record { unset = g.1; own_type = g.2; backed = g.3 }) in
      record { after = after; back = back; applied = applied; reverted = reverted; same = same }

  -- In a valid node, a storage update that `action_can_apply` accepts for its one signer goes
  -- through, and reverting it succeeds and gives back the view of the node.
  pub storage_update-Reverts :
      (u : StorageUpdate) (layer : StateLayer) (n : Node) (a : Authority)
      → IsValid n
      → st.authorizations ≡ a ∷ []
      → StorageAction.action_can_apply ids st u n ≡ ok true
      → Reverts (storage_update_action u) layer n
  unfolding StorageAction.action_can_apply
  storage_update-Reverts u layer n a v one can =
      let checked = check_authority_lem u.storage_address a.address ids.storage_update n v in
      let (after, back, applied, there, reverted, same) =
        storage_update_round ids st u layer n v
          (record { signer = a; alone = one; allowed = ground (arith, one, can, checked) })
          (ground (arith, one, can, checked)) (ground (arith, one, can, checked))
          (ground (arith, one, can, checked)) in
      record { after = after; back = back; applied = applied; reverted = reverted; same = same }
