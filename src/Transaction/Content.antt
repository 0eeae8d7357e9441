-- ===== src/Transaction/Content.antt =====
-- src/libblockchain/transaction_content.cpp: a channel announces the units of a content. Where a storage
-- is not managed by another program, it asks for their files.
pub mod Foretold
use publiq_pp.Base.{
  ℕ, Bool, true, false, not, ◌&&◌, Option, none, some, List, [], ◌∷◌, ◌++◌, String, str_eq,
  if◌then◌else◌, ◌==◌, is_empty, is_some,
}
use publiq_pp.Base.Effects.{
  Error, authority_error, logic_error, wrong_data, out_of_range, uri_invalid, uri_missing, Result,
  ok, err, bind, Eff, ◌>>=◌, ◌>>◌, reads, gets, throw_if, modify,
}
use publiq_pp.Loaders.{MapLoader}
use publiq_pp.State.{
  NodeType, channel, storage, same_type, has_type, StateLayer, is_chain, get_role,
}
use publiq_pp.Authority.{check_authority, get_authority}
use publiq_pp.Documents.{Documents, ContentUnit, units_exist, get_unit}
use publiq_pp.Node.{
  Node, SignedTransaction, Crypto, ActionIds, authorized, only_signer, expect_signers,
  expect_one_signer, expect_public_key, expect_hash, check_all, refuse_if, then_check,
}
use publiq_pp.Storage.{StorageController, enqueue}
use publiq_pp.Transaction.ContentUnit.{text_set}

pub record Content : Type 0 where
  pub content_id : ℕ
  pub channel_address : String
  pub content_unit_uris : List String

unfoldable pub action_owners : Content → List String
action_owners c = c.channel_address ∷ []

unfoldable pub action_participants : Content → List String
action_participants c = c.content_unit_uris ++ c.channel_address ∷ []

expect_units : Crypto → List String → Result (Unit {0})
expect_units k [] = ok tt
expect_units k (uri ∷ uris) = then_check (expect_hash k uri (uri_invalid uri)) (expect_units k uris)

unfoldable pub action_validate : Crypto → SignedTransaction → Content → Result (Unit {0})
unfolding expect_units
action_validate k st c = check_all (
    expect_signers st.authorizations
    ∷ expect_one_signer st.authorizations
    ∷ expect_public_key k c.channel_address
    ∷ refuse_if (is_empty c.content_unit_uris) wrong_data
    ∷ expect_units k c.content_unit_uris
    ∷ [])

unfoldable pub action_is_complete : SignedTransaction → Content → Bool
action_is_complete st c = true

module _ ⦃L : MapLoader⦄ where
  abbrev pub corresponds : Content → ContentUnit → Bool
  corresponds c unit =
      str_eq unit.channel_address c.channel_address && unit.content_id == c.content_id

  -- The loop of `action_can_apply` over the units, and that of `action_apply`.
  unfoldable pub all_correspond : Content → List String → Documents → Result Bool
  all_correspond c [] d = ok true
  all_correspond c (uri ∷ uris) d =
      let rest = all_correspond c uris d in
      elim (get_unit uri d) [
        | none ↦ err out_of_range
        | some unit ↦ if corresponds c unit then rest else ok false
      ]

  unfoldable pub expect_corresponding : Content → List String → Documents → Result (Unit {0})
  expect_corresponding c [] d = ok tt
  expect_corresponding c (uri ∷ uris) d =
      let rest = expect_corresponding c uris d in
      elim (get_unit uri d) [
        | none ↦ err out_of_range
        | some unit ↦ if corresponds c unit then rest else err wrong_data
      ]

  abbrev pub enqueue_files : String → List String → StorageController → StorageController
  enqueue_files channel_address [] s = s
  enqueue_files channel_address (file_uri ∷ file_uris) s =
      enqueue_files channel_address file_uris (enqueue file_uri channel_address s)

  abbrev pub files_of : Option ContentUnit → List String
  files_of none = []
  files_of (some unit) = unit.file_uris

  -- The requests for the files of all units, which are known by then.
  unfoldable pub enqueue_units :
      String → List String → Documents → StorageController → StorageController
  unfolding enqueue
  enqueue_units channel_address [] d s = s
  enqueue_units channel_address (uri ∷ uris) d s =
      enqueue_units channel_address uris d
        (enqueue_files channel_address (files_of (get_unit uri d)) s)

module _ ⦃L : MapLoader⦄ (ids : ActionIds) where
  -- An owner that is no channel is an exception here too, unlike in the other kinds.
  unfoldable pub action_can_apply : SignedTransaction → Content → Node → Result Bool
  unfolding all_correspond
  action_can_apply st c n = bind (only_signer st.authorizations) λ signer.
      bind (check_authority c.channel_address signer ids.content n.authority_manager) λ allowed.
        if not allowed
        then ok false
        else if not (has_type channel (get_role c.channel_address n.state))
        then err wrong_data
        else if is_some (units_exist (text_set c.content_unit_uris) n.documents)
        then ok false
        else all_correspond c c.content_unit_uris n.documents

  -- What `action_apply` asks of the node before it enqueues.
  unfoldable pub expect_content : SignedTransaction → Content → Node → Result (Unit {0})
  unfolding expect_corresponding
  expect_content st c n = bind (only_signer st.authorizations) λ signer.
      bind (check_authority c.channel_address signer ids.content n.authority_manager) λ allowed.
        if not allowed
        then err (authority_error signer (get_authority c.channel_address ids.content))
        else if not (has_type channel (get_role c.channel_address n.state))
        then err wrong_data
        else elim (units_exist (text_set c.content_unit_uris) n.documents) [
          | some uri ↦ err (uri_missing uri)
          | none ↦ expect_corresponding c c.content_unit_uris n.documents
        ]

  unfoldable pub action_apply :
      String → SignedTransaction → Content → StateLayer → Node → Eff StorageController (Unit {0})
  unfolding expect_content enqueue_units
  action_apply manager_address st c layer n s = elim (expect_content st c n) [
    | err e ↦ (err e, s)
    | ok _ ↦ (
      ok tt,
      if str_eq manager_address "" && same_type n.node_type storage && is_chain layer
          then enqueue_units c.channel_address c.content_unit_uris n.documents s
          else s,
    )
  ]

  unfoldable pub action_revert : SignedTransaction → Content → StateLayer → Eff Node (Unit {0})
  action_revert st c layer = do
    signer ← reads (λ _. only_signer st.authorizations)
    allowed ← authorized c.channel_address signer ids.content
    throw_if (not allowed) logic_error
