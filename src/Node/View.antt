-- ===== src/Node/View.antt =====
-- What the operations read of a node, compared between two nodes field by field, and what the
-- operations rely on.
use publiq_pp.Base.{ℕ, ◌≡◌, refl, true, [], ◌∷◌, String}
use publiq_pp.Loaders.{MapLoader}
use publiq_pp.State.{chain, pool, get_balance, get_role}
use publiq_pp.State.Balances.{IsNormal}
use publiq_pp.Authority.{permits, check_authority}
use publiq_pp.Authority.Records.{grant, IsSound, get_record_lem}
use publiq_pp.Documents.{get_file, get_unit, storage_has_uri}
use publiq_pp.Node.{Node, Authority, SignedTransaction}
use publiq_pp.Base.Effects.{ok}

module _ ⦃L : MapLoader⦄ where
  -- The node's own key and type, the balances of both layers, the roles, the permissions and the
  -- documents are the same.
  pub record SameView (n m : Node) : Type 0 where
    pub own_key : n.state.front_key ≡ m.state.front_key
    pub own_type : n.node_type ≡ m.node_type
    pub chain_balances : (k : String) → get_balance k chain n.state ≡ get_balance k chain m.state
    pub balances : (k : String) → get_balance k pool n.state ≡ get_balance k pool m.state
    pub roles : (k : String) → get_role k n.state ≡ get_role k m.state
    pub permissions :
        (a b : String) (id : ℕ)
        → permits (grant a b n.authority_manager) id ≡ permits (grant a b m.authority_manager) id
    pub files : (uri : String) → get_file uri n.documents ≡ get_file uri m.documents
    pub units : (uri : String) → get_unit uri n.documents ≡ get_unit uri m.documents
    pub holders :
        (uri a : String) → storage_has_uri uri a n.documents ≡ storage_has_uri uri a m.documents

  -- The amounts are normalised and every stored address has a record of its own.
  pub record IsValid (n : Node) : Type 0 where
    pub normal : IsNormal n.state
    pub sound : IsSound n.authority_manager

  pub SameView-refl : (n : Node) → SameView n n
  SameView-refl n = record {
    own_key = refl;
    own_type = refl;
    chain_balances = λ k. refl;
    balances = λ k. refl;
    roles = λ k. refl;
    permissions = λ a b id. refl;
    files = λ uri. refl;
    units = λ uri. refl;
    holders = λ uri a. refl;
  }

  -- One signer alone signs, and has the authority of the address for the kind of action.
  pub record Permitted (id : ℕ) (address : String) (st : SignedTransaction) (n : Node)
      : Type 0 where
    pub signer : Authority
    pub alone : st.authorizations ≡ signer ∷ []
    pub allowed : permits (grant address signer.address n.authority_manager) id ≡ true

  -- In a valid node the check of an authority returns what the store's record permits.
  pub check_authority_lem :
      (a b : String) (id : ℕ) (n : Node)
      → IsValid n
      → check_authority a b id n.authority_manager ≡ ok (permits (grant a b n.authority_manager) id)
  unfolding check_authority
  check_authority_lem a b id n v = rw (get_record_lem a b n.authority_manager v.sound)
