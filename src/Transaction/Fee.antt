-- ===== src/Transaction/Fee.antt =====
-- src/libblockchain/transaction_handler.cpp, the fee of a signed transaction. The `address` here is
-- the first of `action_owners(signed_transaction)`.
pub mod Round
use publiq_pp.Base.{Bool, true, false, not, String, str_eq, if◌then◌else◌}
use publiq_pp.Base.Effects.{
  not_enough_balance, Result, ok, err, bind, Eff, ◌>>=◌, ◌>>◌, reads, pure,
}
use publiq_pp.Coin.{Coin, lt}
use publiq_pp.Loaders.{MapLoader}
use publiq_pp.State.{
  chain, pool, pair_of, from_message, get_balance, increase_balance, decrease_balance,
}
use publiq_pp.Node.{Node, on_state}

module _ ⦃L : MapLoader⦄ where
  unfoldable pub fee_validate : String → Coin → Node → Result (Unit {0})
  fee_validate address fee n = bind (from_message (get_balance address pool n.state)) λ balance.
      bind (from_message fee) λ fee'.
        if lt balance fee'
        then err (not_enough_balance address (pair_of balance) (pair_of fee'))
        else ok tt

  unfoldable pub fee_can_apply : String → Coin → Node → Result Bool
  fee_can_apply address fee n =
      bind (from_message (get_balance address pool n.state))
        λ balance. bind (from_message fee) λ fee'. ok (not (lt balance fee'))

  unfoldable pub fee_apply : String → Coin → String → Eff Node (Unit {0})
  fee_apply address fee fee_receiver = if str_eq fee_receiver "" then pure tt else do
    fee' ← reads (λ _. from_message fee)
    on_state (increase_balance fee_receiver fee' chain)
    on_state (decrease_balance address fee' chain)

  unfoldable pub fee_revert : String → Coin → String → Eff Node (Unit {0})
  fee_revert address fee fee_receiver = if str_eq fee_receiver "" then pure tt else do
    fee' ← reads (λ _. from_message fee)
    on_state (decrease_balance fee_receiver fee' chain)
    on_state (increase_balance address fee' chain)
