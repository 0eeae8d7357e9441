-- ===== src/Transaction/Transfer.antt =====
-- src/libblockchain/transaction_transfer.cpp
pub mod Effects
pub mod Round
use Prim.Native.String.{len}
use publiq_pp.Base.{
  ℕ, ◌==◌, ◌&&◌, ◌||◌, Bool, true, false, not, List, [], ◌∷◌, String, str_eq, if◌then◌else◌, ltb,
}
use publiq_pp.Base.Effects.{
  Error, authority_error, logic_error, too_long_string, wrong_data, Result, ok, err, bind, Eff,
  ◌>>=◌, ◌>>◌, reads, throw_if,
}
use publiq_pp.Coin.{Coin, lt}
use publiq_pp.Loaders.{MapLoader}
use publiq_pp.State.{
  StateLayer, pool, from_message, get_balance, increase_balance, decrease_balance,
}
use publiq_pp.Authority.{check_authority, get_authority}
use publiq_pp.Node.{
  Node, SignedTransaction, Crypto, ActionIds, on_state, authorized, only_signer, expect_signers,
  expect_one_signer, expect_public_key, refuse_if, check_all,
}

pub record Transfer : Type 0 where
  pub from : String
  pub to : String
  pub amount : Coin
  pub message : String

unfoldable pub action_owners : Transfer → List String
action_owners t = t.from ∷ []

unfoldable pub action_participants : Transfer → List String
action_participants t = t.from ∷ t.to ∷ []

unfoldable pub action_validate : Crypto → SignedTransaction → Transfer → Result (Unit {0})
action_validate k st t = check_all (
    expect_signers st.authorizations
    ∷ refuse_if (str_eq t.from t.to || (t.amount.whole == 0 && t.amount.fraction == 0)) wrong_data
    ∷ expect_one_signer st.authorizations
    ∷ expect_public_key k t.to
    ∷ expect_public_key k t.from
    ∷ refuse_if (ltb 80 (len t.message)) (too_long_string 80)
    ∷ [])

unfoldable pub action_is_complete : SignedTransaction → Transfer → Bool
action_is_complete st t = true

module _ ⦃L : MapLoader⦄ (ids : ActionIds) where
  covered : Transfer → Node → Result Bool
  covered t n =
      bind (from_message (get_balance t.from pool n.state))
        λ balance. bind (from_message t.amount) λ amount. ok (not (lt balance amount))

  unfoldable pub action_can_apply : SignedTransaction → Transfer → Node → Result Bool
  unfolding covered
  action_can_apply st t n = bind (only_signer st.authorizations) λ signer.
      bind (check_authority t.from signer ids.transfer n.authority_manager)
        λ allowed. if allowed then covered t n else ok false

  unfoldable pub action_apply : SignedTransaction → Transfer → StateLayer → Eff Node (Unit {0})
  action_apply st t layer = do
    signer ← reads (λ _. only_signer st.authorizations)
    allowed ← authorized t.from signer ids.transfer
    throw_if (not allowed) (authority_error signer (get_authority t.from ids.transfer))
    amount ← reads (λ _. from_message t.amount)
    on_state (increase_balance t.to amount layer)
    on_state (decrease_balance t.from amount layer)

  unfoldable pub action_revert : SignedTransaction → Transfer → StateLayer → Eff Node (Unit {0})
  action_revert st t layer = do
    amount ← reads (λ _. from_message t.amount)
    on_state (increase_balance t.from amount layer)
    on_state (decrease_balance t.to amount layer)
    signer ← reads (λ _. only_signer st.authorizations)
    allowed ← authorized t.from signer ids.transfer
    throw_if (not allowed) logic_error
