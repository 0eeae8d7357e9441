-- ===== src/State/Roles.antt =====
-- The roles of the accounts after each operation, and the nodes that are listed for a role.
use publiq_pp.Base.{
  ◌≡◌, refl, ◌∙◌, true, ◌&&◌, none, some, List, [], ◌∷◌, String, str_eq, eq_iff, if◌then◌else◌,
  is_some, arith,
}
use publiq_pp.Base.Texts.{contains}
use publiq_pp.Base.Effects.{ok, err, logic_error}
use publiq_pp.Loaders.{MapLoader}
use publiq_pp.State.{
  State, Role, NodeType, StateLayer, chain, pool, get_balance, has_type, get_role, insert_role,
  remove_role, get_nodes, select_nodes,
}

module _ ⦃L : MapLoader⦄ where
  open L use {find, find-insert, find-erase, keys, contains-keys}

  -- A role goes in once: an address that has one already makes it throw.
  pub insert_role_runs :
      (r : Role) (s : State)
      → get_role r.node_address s ≡ none
      → insert_role r s ≡ (ok tt, record s { roles = L.insert s.roles r.node_address r })
  unfolding insert_role get_role
  insert_role_runs r s e = ground arith

  pub insert_role_twice :
      (r : Role) (t : NodeType) (s : State)
      → get_role r.node_address s ≡ some t
      → insert_role r s ≡ (err logic_error, s)
  unfolding insert_role get_role
  insert_role_twice r t s e = ground arith

  pub get_role-insert_role :
      (r : Role) (j : String) (s : State)
      → get_role r.node_address s ≡ none
      → get_role j (insert_role r s).1
        ≡ (if str_eq r.node_address j then some r.node_type else get_role j s)
  unfolding insert_role get_role
  get_role-insert_role r j s e = ground (arith, find-insert s.roles r.node_address j r)

  pub get_role-remove_role :
      (k j : String) (s : State)
      → get_role j (remove_role k s) ≡ (if str_eq k j then none else get_role j s)
  unfolding remove_role get_role
  get_role-remove_role k j s = ground (arith, find-erase s.roles k j)

  contains-select_nodes :
      (t : NodeType) (s : State) (k : String) (ids : List String)
      → contains k (select_nodes t s ids) ≡ (contains k ids && has_type t (get_role k s))
  unfolding select_nodes contains
  contains-select_nodes t s k [] = refl
  contains-select_nodes t s k (i ∷ ids) =
      ground (arith, eq_iff i k, contains-select_nodes t s k ids)

  has_role→find :
      (t : NodeType) (k : String) (s : State)
      → has_type t (get_role k s) ≡ true
      → is_some (find s.roles k) ≡ true
  unfolding get_role
  has_role→find t k s e = ground arith

  -- The nodes listed for a type are exactly the accounts that have that role.
  pub contains-get_nodes :
      (t : NodeType) (s : State) (k : String)
      → contains k (get_nodes t s) ≡ has_type t (get_role k s)
  unfolding get_nodes
  contains-get_nodes t s k =
      contains-select_nodes t s k (keys s.roles)
      ∙ ground (arith, contains-keys s.roles k, has_role→find t k s)

  -- The balances do not see the roles.
  pub insert_role-balance :
      (r : Role) (k : String) (layer : StateLayer) (s : State)
      → get_role r.node_address s ≡ none
      → get_balance k layer (insert_role r s).1 ≡ get_balance k layer s
  unfolding get_balance
  insert_role-balance r k pool s e = rw (insert_role_runs r s e) refl
  insert_role-balance r k chain s e = rw (insert_role_runs r s e) refl

  pub insert_role-own_key :
      (r : Role) (s : State)
      → get_role r.node_address s ≡ none
      → (insert_role r s).1.front_key ≡ s.front_key
  insert_role-own_key r s e = rw (insert_role_runs r s e) refl

  pub remove_role-balance :
      (a k : String) (layer : StateLayer) (s : State)
      → get_balance k layer (remove_role a s) ≡ get_balance k layer s
  unfolding get_balance remove_role
  remove_role-balance a k pool s = refl
  remove_role-balance a k chain s = refl

  pub remove_role-own_key : (a : String) (s : State) → (remove_role a s).front_key ≡ s.front_key
  unfolding remove_role
  remove_role-own_key a s = refl
