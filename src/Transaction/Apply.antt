-- ===== src/Transaction/Apply.antt =====
-- src/libblockchain/communication_p2p.cpp, `apply_transaction` and `revert_transaction`: an action and
-- its fee, together. The dispatch over the kinds of action enters as the operations of one kind.
pub mod Round
pub mod Kinds
use publiq_pp.Base.{Bool, true, false, not, String, str_eq, if◌then◌else◌}
use publiq_pp.Base.Effects.{Result, ok, err, Eff, ◌>>=◌, ◌>>◌, reads, pure}
use publiq_pp.Coin.{Coin}
use publiq_pp.Loaders.{MapLoader}
use publiq_pp.State.{StateLayer, chain, pool}
use publiq_pp.Node.{Node}
use publiq_pp.Transaction.Fee.{fee_can_apply, fee_apply, fee_revert}

-- `state_layer::pool`, or `state_layer::chain` for a key that is not empty
abbrev pub layer_of : String → StateLayer
layer_of key = if str_eq key "" then pool else chain

module _ ⦃L : MapLoader⦄ where
  -- What `transaction_handler.cpp` calls of the action of one signed transaction.
  pub record Action : Type 0 where
    -- the first of `action_owners`
    pub owner : String
    pub can_apply : Node → Result Bool
    pub apply : StateLayer → Eff Node (Unit {0})
    pub revert : StateLayer → Eff Node (Unit {0})

  -- the part after `action_apply`
  charge : Action → Coin → String → Bool → Eff Node Bool
  charge a fee key true = fee_apply a.owner fee key >> pure true
  charge a fee key false = a.revert (layer_of key) >> pure false

  -- the part after `action_can_apply`
  perform : Action → Coin → String → Bool → Eff Node Bool
  unfolding charge
  perform a fee key false = pure false
  perform a fee key true = do
    a.apply (layer_of key)
    payable ← reads (fee_can_apply a.owner fee)
    charge a fee key payable

  unfoldable pub apply_transaction : Action → Coin → String → Eff Node Bool
  unfolding perform
  apply_transaction a fee key = do possible ← reads a.can_apply; perform a fee key possible

  unfoldable pub revert_transaction : Action → Coin → String → Eff Node (Unit {0})
  revert_transaction a fee key = do fee_revert a.owner fee key; a.revert (layer_of key)
