-- ===== src/Transaction/Role.antt =====
-- src/libblockchain/transaction_role.cpp: an account becomes a channel or a storage.
pub mod Round
use publiq_pp.Base.{
  ℕ, Bool, true, false, not, ◌&&◌, Option, none, some, List, [], ◌∷◌, String, str_eq, if◌then◌else◌,
  is_some,
}
use publiq_pp.Base.Effects.{
  Error, authority_error, logic_error, runtime_error, not_enough_balance, Result, ok, err, bind,
  Eff, ◌>>=◌, ◌>>◌, reads, gets, throw_if,
}
use publiq_pp.Coin.{Coin, lt}
use publiq_pp.Loaders.{MapLoader}
use publiq_pp.State.{
  Role, NodeType, blockchain, channel, storage, same_type, StateLayer, pool, pair_of, from_message,
  get_balance, get_role, insert_role, remove_role,
}
use publiq_pp.Authority.{check_authority, get_authority}
use publiq_pp.Node.{
  Node, SignedTransaction, Crypto, ActionIds, on_state, authorized, only_signer, expect_signers,
  expect_one_signer, expect_public_key, refuse_if, check_all,
}

-- `CHANNEL_AMOUNT_THRESHOLD` and `STORAGE_AMOUNT_THRESHOLD` of common.hpp
abbrev pub channel_amount_threshold : Coin
channel_amount_threshold = record { whole = 100000; fraction = 0 }

abbrev pub storage_amount_threshold : Coin
storage_amount_threshold = record { whole = 10000; fraction = 0 }

unfoldable pub action_owners : Role → List String
action_owners r = r.node_address ∷ []

unfoldable pub action_participants : Role → List String
action_participants r = r.node_address ∷ []

unfoldable pub action_validate : Crypto → SignedTransaction → Role → Result (Unit {0})
action_validate k st r = check_all (
    expect_signers st.authorizations
    ∷ expect_one_signer st.authorizations
    ∷ expect_public_key k r.node_address
    ∷ refuse_if (same_type r.node_type blockchain) runtime_error
    ∷ [])

unfoldable pub action_is_complete : SignedTransaction → Role → Bool
action_is_complete st r = true

module _ ⦃L : MapLoader⦄ where
  -- the node's own address with another type than the node is configured for
  abbrev pub foreign_type : Role → Node → Bool
  foreign_type r n =
      str_eq n.state.front_key r.node_address && not (same_type n.node_type r.node_type)

  abbrev short_channel : Role → Coin → Bool
  short_channel r balance = same_type r.node_type channel && lt balance channel_amount_threshold

  abbrev short_storage : Role → Coin → Bool
  short_storage r balance = same_type r.node_type storage && lt balance storage_amount_threshold

  may_take : Role → Node → Result Bool
  may_take r n =
      if is_some (get_role r.node_address n.state)
      then ok false
      else if foreign_type r n
      then ok false
      else bind (from_message (get_balance r.node_address pool n.state)) λ balance.
        if short_channel r balance then ok false else ok (not (short_storage r balance))

module _ ⦃L : MapLoader⦄ (ids : ActionIds) where
  unfoldable pub action_can_apply : SignedTransaction → Role → Node → Result Bool
  unfolding may_take
  action_can_apply st r n = bind (only_signer st.authorizations) λ signer.
      bind (check_authority r.node_address signer ids.role n.authority_manager)
        λ allowed. if allowed then may_take r n else ok false

  unfoldable pub action_apply : SignedTransaction → Role → StateLayer → Eff Node (Unit {0})
  action_apply st r layer = do
    signer ← reads (λ _. only_signer st.authorizations)
    allowed ← authorized r.node_address signer ids.role
    throw_if (not allowed) (authority_error signer (get_authority r.node_address ids.role))
    found ← gets (λ n. get_role r.node_address n.state)
    throw_if (is_some found) runtime_error
    foreign ← gets (foreign_type r)
    throw_if foreign runtime_error
    balance ← reads (λ n. from_message (get_balance r.node_address pool n.state))
    throw_if (short_channel r balance)
        (not_enough_balance r.node_address (pair_of balance) (pair_of channel_amount_threshold))
    throw_if (short_storage r balance)
        (not_enough_balance r.node_address (pair_of balance) (pair_of storage_amount_threshold))
    on_state (insert_role r)

  unfoldable pub action_revert : SignedTransaction → Role → StateLayer → Eff Node (Unit {0})
  action_revert st r layer = do
    on_state (λ s. (ok tt, remove_role r.node_address s))
    signer ← reads (λ _. only_signer st.authorizations)
    allowed ← authorized r.node_address signer ids.role
    throw_if (not allowed) logic_error
