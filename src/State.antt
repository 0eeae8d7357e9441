-- ===== src/State.antt =====
-- src/libblockchain/state.cpp: the balances and the roles of the accounts. The node that owns the
-- state is seen through its public key only (`pimpl_node->front_public_key()`).
pub mod Balances
pub mod Layers
pub mod Payments
pub mod Roles
use publiq_pp.Base.{
  ℕ, Bool, true, false, ◌&&◌, Option, none, some, List, [], ◌∷◌, String, str_eq, if◌then◌else◌,
  is_some,
}
use publiq_pp.Base.Effects.{
  Error, logic_error, not_enough_balance, Result, ok, err, bind, Eff, ◌>>=◌, ◌>>◌, reads, gets,
  modify, throw_if, pure,
}
use publiq_pp.Coin.{Coin, zero_coin, make, empty, add, sub, lt}
use publiq_pp.Loaders.{MapLoader}

-- `enum class state_layer`
pub data StateLayer : Type 0 where
  chain pool : StateLayer

pub data NodeType : Type 0 where
  blockchain channel storage : NodeType

abbrev pub is_chain : StateLayer → Bool
is_chain chain = true
is_chain pool = false

-- `operator ==` of the enumeration
abbrev pub same_type : NodeType → NodeType → Bool
same_type blockchain blockchain = true
same_type channel channel = true
same_type storage storage = true
same_type _ _ = false

pub record Role : Type 0 where
  pub node_address : String
  pub node_type : NodeType

-- A `Coin` of a message has the fields of a `coin`; the conversion is the checking constructor.
unfoldable pub from_message : Coin → Result Coin
unfolding make
from_message c = make c.whole c.fraction

abbrev pub pair_of : Coin → ℕ × ℕ
pair_of c = (c.whole, c.fraction)

module _ ⦃L : MapLoader⦄ where
  open L use {Map, find, insert, update, erase, keys}

  pub record State : Type 0 where
    pub accounts : Map Coin
    pub node_accounts : Map Coin
    pub roles : Map Role
    pub front_key : String

  abbrev coin_or_zero : Option Coin → Coin
  coin_or_zero none = zero_coin
  coin_or_zero (some c) = c

  unfoldable pub get_balance : String → StateLayer → State → Coin
  get_balance key pool s = coin_or_zero (find s.accounts key)
  get_balance key chain s = coin_or_zero (find s.node_accounts key)

  -- The three branches that `set_balance` has for either map.
  put_amount : String → Coin → Map Coin → Map Coin
  put_amount key amount m =
      if empty amount
      then erase m key
      else if is_some (find m key)
      then update m key amount
      else insert m key amount

  unfoldable pub set_balance : String → Coin → StateLayer → State → State
  unfolding put_amount
  set_balance key amount layer s =
      let s' = record s { accounts = put_amount key amount s.accounts } in
      if is_chain layer && str_eq s.front_key key
      then record s' { node_accounts = put_amount key amount s.node_accounts }
      else s'

  unfoldable pub increase_balance : String → Coin → StateLayer → Eff State (Unit {0})
  unfolding get_balance set_balance
  increase_balance key amount layer = if empty amount then pure tt else do
    balance ← gets (get_balance key pool)
    balance ← reads (λ _. from_message balance)
    modify (set_balance key (add balance amount) layer)

  unfoldable pub decrease_balance : String → Coin → StateLayer → Eff State (Unit {0})
  unfolding get_balance set_balance
  decrease_balance key amount layer = if empty amount then pure tt else do
    balance ← gets (get_balance key pool)
    balance ← reads (λ _. from_message balance)
    throw_if (lt balance amount) (not_enough_balance key (pair_of balance) (pair_of amount))
    rest ← reads (λ _. sub balance amount)
    modify (set_balance key rest layer)

  -- `none` is the answer false, which leaves the caller's variable alone.
  unfoldable pub get_role : String → State → Option NodeType
  get_role nodeid s = elim (find s.roles nodeid) [ some r ↦ some r.node_type | none ↦ none ]

  unfoldable pub insert_role : Role → Eff State (Unit {0})
  insert_role role = do
    found ← gets (λ s. is_some (find s.roles role.node_address))
    throw_if found logic_error
    modify (λ s. record s { roles = insert s.roles role.node_address role })

  unfoldable pub remove_role : String → State → State
  remove_role nodeid s = record s { roles = erase s.roles nodeid }

  abbrev pub has_type : NodeType → Option NodeType → Bool
  has_type t none = false
  has_type t (some u) = same_type u t

  select_nodes : NodeType → State → List String → List String
  unfolding get_role
  select_nodes t s [] = []
  select_nodes t s (id ∷ ids) =
      if has_type t (get_role id s) then id ∷ select_nodes t s ids else select_nodes t s ids

  unfoldable pub get_nodes : NodeType → State → List String
  unfolding select_nodes
  get_nodes t s = select_nodes t s (keys s.roles)
