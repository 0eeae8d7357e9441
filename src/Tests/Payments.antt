-- ===== src/Tests/Payments.antt =====
-- Payments, transfers and roles on the example bank.
use publiq_pp.Base.{
  ℕ, ◌+◌, ◌≤◌, ◌≡◌, ◌≢◌, ◌↔◌, refl, true, false, ◌&&◌, none, [], ◌∷◌, String, leb, arith, eq_iff,
  eq_refl,
}
use publiq_pp.Base.Dict.{lookup, assign}
use publiq_pp.Base.Texts.{contains}
use publiq_pp.Base.Effects.{ok, err, is_ok, not_enough_balance}
use publiq_pp.Coin.{Coin, empty, add, lt, sub}
use publiq_pp.Coin.Value.{value}
use publiq_pp.Loaders.Assoc.{assoc_loader}
use publiq_pp.State.{
  Role, pool, storage, pair_of, from_message, get_balance, get_role, increase_balance,
  decrease_balance,
}
use publiq_pp.State.Balances.{worth, Holds}
use publiq_pp.State.Payments.{Pays, total}
use publiq_pp.Authority.{permits, check_authority}
use publiq_pp.Authority.Records.{grant}
use publiq_pp.Node.{Node}
use publiq_pp.Node.View.{IsValid, Permitted}
use publiq_pp.Transaction.Transfer.{Transfer, action_can_apply, action_apply}
use publiq_pp.Transaction.Transfer.Effects.{transfer-Pays, transfer_short}
use publiq_pp.Transaction.Transfer.Round.{transfer_conserves, transfer_foretold}
use publiq_pp.Transaction.Role as RoleAction
use publiq_pp.Transaction.Role.Round.{required, Grounds, role_granted_iff}
use publiq_pp.Tests.Nodes.{ids, coins, bank, node, node-IsValid, signed_by}

alice-bob : ◌≢◌ {A = String} "alice" "bob"
alice-bob = ground (arith, eq_iff "alice" "bob")

bob-alice : ◌≢◌ {A = String} "bob" "alice"
bob-alice = ground (arith, eq_iff "bob" "alice")

abbrev some_coins : Coin
some_coins = coins 2 70000000

abbrev gift : Transfer
gift = record { from = "alice"; to = "bob"; amount = some_coins; message = "" }

abbrev loan : Transfer
loan = record { from = "bob"; to = "alice"; amount = coins 7 0; message = "" }

permitted : (a : String) (id : ℕ) → Permitted id a (signed_by a) node
unfolding lookup permits
permitted a id = record {
  signer = record { address = a; signature = "s" };
  alone = refl;
  allowed = ground (arith, eq_refl a);
}

-- The gift arrives, and the balances are those that the code writes.
gift_arrives :
    ((action_apply ids (signed_by "alice") gift pool node).0 ≡ ok tt)
    × (get_balance "bob" pool (action_apply ids (signed_by "alice") gift pool node).1.state
        ≡ coins 5 70000000)
unfolding action_apply get_balance lookup check_authority from_message increase_balance empty
    decrease_balance add assign lt sub
gift_arrives = (refl, refl)

transfer-Pays_example :
    (m : Node) × (action_apply ids (signed_by "alice") gift pool node ≡ (ok tt, m))
    × IsValid m
    × Pays "alice" "bob" (value some_coins) bank m.state
    × (m.authority_manager ≡ node.authority_manager)
    × (m.documents ≡ node.documents)
unfolding get_balance lookup
transfer-Pays_example =
    transfer-Pays ids (signed_by "alice") gift pool node node-IsValid (omega arith)
      (permitted "alice" 4) alice-bob (omega arith) (omega arith)

transfer_short_example :
    ((action_apply ids (signed_by "bob") loan pool node).0
      ≡ err (not_enough_balance "bob" (pair_of (get_balance "bob" pool bank)) (7, 0)))
    × Holds "alice"
        (worth "alice" bank + value loan.amount)
        bank
        (action_apply ids (signed_by "bob") loan pool node).1.state
unfolding get_balance lookup
transfer_short_example =
    transfer_short ids (signed_by "bob") loan pool node node-IsValid (omega arith)
      (permitted "bob" 4) bob-alice (omega arith) (omega arith)

transfer_conserves_example :
    ((action_apply ids (signed_by "alice") gift pool node).0 ≡ ok tt)
    × (total ("alice" ∷ "bob" ∷ []) (action_apply ids (signed_by "alice") gift pool node).1.state
        ≡ total ("alice" ∷ "bob" ∷ []) bank)
unfolding get_balance lookup contains
transfer_conserves_example =
    transfer_conserves ids (signed_by "alice") gift pool node ("alice" ∷ "bob" ∷ []) node-IsValid
      (omega arith) (permitted "alice" 4) alice-bob (omega arith) (omega arith) (ground arith)
      (ground arith) (ground arith)

transfer_foretold_example :
    action_can_apply ids (signed_by "alice") gift node
    ≡ ok (
        permits (grant "alice" "alice" node.authority_manager) 4
        && leb (value some_coins) (worth "alice" bank))
transfer_foretold_example =
    transfer_foretold ids (signed_by "alice") gift node
      (record { address = "alice"; signature = "s" }) node-IsValid (omega arith) refl

abbrev as_storage : String → Role
as_storage a = record { node_address = a; node_type = storage }

role_granted_iff_example :
    (is_ok (RoleAction.action_apply ids (signed_by "alice") (as_storage "alice") pool node).0
      ≡ true)
    ↔ ((permits (grant "alice" "alice" node.authority_manager) 6 ≡ true)
        × (get_role "alice" bank ≡ none)
        × (RoleAction.foreign_type (as_storage "alice") node ≡ false)
        × (required storage ≤ worth "alice" bank))
role_granted_iff_example =
    role_granted_iff ids (signed_by "alice") (as_storage "alice") pool node
      (record { address = "alice"; signature = "s" }) node-IsValid refl

alice-Grounds : Grounds ids (as_storage "alice") node
unfolding get_role get_balance lookup
alice-Grounds = record { unset = refl; own_type = refl; backed = omega arith }
