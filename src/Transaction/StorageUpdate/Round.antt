-- ===== src/Transaction/StorageUpdate/Round.antt =====
-- The contract of a storage update: when it is taken, what it changes, and that reverting undoes it.
use publiq_pp.Base.{
  ◌≡◌, refl, ◌∙◌, true, not, ◌&&◌, [], ◌∷◌, String, str_eq, eq_iff, if◌then◌else◌, arith,
}
use publiq_pp.Base.Effects.{ok, is_ok}
use publiq_pp.Loaders.{MapLoader}
use publiq_pp.State.{StateLayer}
use publiq_pp.Documents.{
  Documents, UpdateType, store, remove, is_store, file_exists, storage_update, storage_has_uri,
}
use publiq_pp.Documents.Contents.{storage_has_uri-storage_update, storage_update-others}
use publiq_pp.Node.{Node, Authority, SignedTransaction, ActionIds}
use publiq_pp.Node.View.{SameView, IsValid, Permitted, check_authority_lem}
use publiq_pp.Transaction.StorageUpdate.{
  StorageUpdate, opposite, is_storage, action_can_apply, action_apply, action_revert,
}

is_store-opposite : (t : UpdateType) → is_store (opposite t) ≡ not (is_store t)
is_store-opposite store = refl
is_store-opposite remove = refl

module _ ⦃L : MapLoader⦄ (ids : ActionIds) where
  -- In a valid node and for one signer, `action_can_apply` for a storage update returns, and says
  -- yes exactly when `action_apply` succeeds.
  pub storage_update_foretold :
      (st : SignedTransaction) (u : StorageUpdate) (layer : StateLayer) (n : Node) (a : Authority)
      → IsValid n
      → st.authorizations ≡ a ∷ []
      → action_can_apply ids st u n ≡ ok (is_ok (action_apply ids st u layer n).0)
  unfolding action_can_apply action_apply
  storage_update_foretold st u layer n a v one =
      ground (arith, one, check_authority_lem u.storage_address a.address ids.storage_update n v)

  -- In a valid node, a storage with a permitted signer, and another status for a known file than
  -- the update's, gets that status for that file, and no other status of a file at an account
  -- changes; reverting gives back the view of the node.
  pub storage_update_round :
      (st : SignedTransaction) (u : StorageUpdate) (layer : StateLayer) (n : Node)
      → IsValid n
      → Permitted ids.storage_update u.storage_address st n
      → is_storage u.storage_address n ≡ true
      → file_exists u.file_uri n.documents ≡ true
      → storage_has_uri u.file_uri u.storage_address n.documents ≡ not (is_store u.status)
      → (m : Node) × (n' : Node) × (action_apply ids st u layer n ≡ (ok tt, m))
        × ((uri a : String)
            → storage_has_uri uri a m.documents ≡ (
                if str_eq u.file_uri uri && str_eq u.storage_address a
                then is_store u.status
                else storage_has_uri uri a n.documents))
        × (action_revert ids st u layer m ≡ (ok tt, n'))
        × SameView n' n
  unfolding action_apply action_revert
  storage_update_round st u layer n v p one known other =
      let d : Documents = storage_update u.file_uri u.storage_address u.status n.documents in
      let d' : Documents = storage_update u.file_uri u.storage_address (opposite u.status) d in
      let there = λ (uri a : String).
        storage_has_uri-storage_update u.file_uri u.storage_address uri a u.status n.documents in
      let back = λ (uri a : String).
        storage_has_uri-storage_update u.file_uri u.storage_address uri a (opposite u.status) d in
      (
        record n { documents = d },
        record n { documents = d' },
        ground (
          arith,
          p.alone,
          p.allowed,
          check_authority_lem u.storage_address p.signer.address ids.storage_update n v,
        ),
        there,
        ground (
          arith,
          p.alone,
          p.allowed,
          check_authority_lem u.storage_address p.signer.address ids.storage_update n v,
        ),
        record {
          own_key = refl;
          own_type = refl;
          chain_balances = λ k. refl;
          balances = λ k. refl;
          roles = λ k. refl;
          permissions = λ a b id. refl;
          files = λ uri.
              (storage_update-others u.file_uri u.storage_address (opposite u.status) d).0 uri
              ∙ (storage_update-others u.file_uri u.storage_address u.status n.documents).0 uri;
          units = λ uri.
              (storage_update-others u.file_uri u.storage_address (opposite u.status) d).1 uri
              ∙ (storage_update-others u.file_uri u.storage_address u.status n.documents).1 uri;
          holders = λ uri a. ground (
            arith,
            there uri a,
            back uri a,
            eq_iff u.file_uri uri,
            eq_iff u.storage_address a,
            is_store-opposite u.status,
          );
        },
      )
