-- ===== src/Transaction/StorageUpdate.antt =====
-- src/libblockchain/transaction_storageupdate.cpp: a storage says that it has a file, or no longer.
pub mod Round
use publiq_pp.Base.{
  ℕ, Bool, true, false, not, ◌&&◌, ◌||◌, Option, none, some, List, [], ◌∷◌, String, if◌then◌else◌,
}
use publiq_pp.Base.Effects.{
  Error, authority_error, logic_error, wrong_data, uri_duplicate, uri_missing, Result, ok, err,
  bind, Eff, ◌>>=◌, ◌>>◌, reads, gets, throw_if,
}
use publiq_pp.Loaders.{MapLoader}
use publiq_pp.State.{NodeType, storage, StateLayer, has_type, get_role}
use publiq_pp.Authority.{check_authority, get_authority}
use publiq_pp.Documents.{
  Documents, UpdateType, store, remove, is_store, file_exists, storage_update, storage_has_uri,
}
use publiq_pp.Node.{
  Node, SignedTransaction, Crypto, ActionIds, on_documents, authorized, only_signer, expect_signers,
  expect_one_signer, expect_public_key, check_all,
}

pub record StorageUpdate : Type 0 where
  pub status : UpdateType
  pub file_uri : String
  pub storage_address : String

unfoldable pub action_owners : StorageUpdate → List String
action_owners u = u.storage_address ∷ []

unfoldable pub action_participants : StorageUpdate → List String
action_participants u = u.storage_address ∷ u.file_uri ∷ []

unfoldable pub action_validate : Crypto → SignedTransaction → StorageUpdate → Result (Unit {0})
action_validate k st u = check_all (
    expect_signers st.authorizations
    ∷ expect_one_signer st.authorizations
    ∷ expect_public_key k u.storage_address
    ∷ [])

unfoldable pub action_is_complete : SignedTransaction → StorageUpdate → Bool
action_is_complete st u = true

-- `status == UpdateType::remove ? UpdateType::store : UpdateType::remove`
abbrev pub opposite : UpdateType → UpdateType
opposite store = remove
opposite remove = store

module _ ⦃L : MapLoader⦄ where
  abbrev pub is_storage : String → Node → Bool
  is_storage a n = has_type storage (get_role a n.state)

  -- The storage has the file already, or is to drop one that it does not have.
  abbrev pub has_already : StorageUpdate → Documents → Bool
  has_already u d = is_store u.status && storage_has_uri u.file_uri u.storage_address d

  abbrev pub has_nothing : StorageUpdate → Documents → Bool
  has_nothing u d = not (is_store u.status) && not (storage_has_uri u.file_uri u.storage_address d)

module _ ⦃L : MapLoader⦄ (ids : ActionIds) where
  unfoldable pub action_can_apply : SignedTransaction → StorageUpdate → Node → Result Bool
  action_can_apply st u n = bind (only_signer st.authorizations) λ signer.
      bind (check_authority u.storage_address signer ids.storage_update n.authority_manager)
        λ allowed. ok (
          allowed
          && is_storage u.storage_address n
          && file_exists u.file_uri n.documents
          && not (has_already u n.documents)
          && not (has_nothing u n.documents))

  unfoldable pub action_apply : SignedTransaction → StorageUpdate → StateLayer → Eff Node (Unit {0})
  action_apply st u layer = do
    signer ← reads (λ _. only_signer st.authorizations)
    allowed ← authorized u.storage_address signer ids.storage_update
    throw_if (not allowed)
        (authority_error signer (get_authority u.storage_address ids.storage_update))
    is_one ← gets (is_storage u.storage_address)
    throw_if (not is_one) wrong_data
    found ← gets (λ n. file_exists u.file_uri n.documents)
    throw_if (not found) (uri_missing u.file_uri)
    already ← gets (λ n. has_already u n.documents)
    throw_if already (uri_duplicate u.file_uri)
    lacking ← gets (λ n. has_nothing u n.documents)
    throw_if lacking (uri_missing u.file_uri)
    on_documents (storage_update u.file_uri u.storage_address u.status)

  unfoldable pub action_revert :
      SignedTransaction → StorageUpdate → StateLayer → Eff Node (Unit {0})
  action_revert st u layer = do
    on_documents (storage_update u.file_uri u.storage_address (opposite u.status))
    signer ← reads (λ _. only_signer st.authorizations)
    allowed ← authorized u.storage_address signer ids.storage_update
    throw_if (not allowed) logic_error
