-- ===== src/Node.antt =====
-- The parts of `node_internals` (src/libblockchain/node_internals.hpp) that the actions of the chain
-- read and change, and the signed transactions that carry the actions (message.idl).
pub mod View
use publiq_pp.Base.{
  ℕ, Bool, true, false, Option, none, some, List, [], ◌∷◌, String, if◌then◌else◌, back, length,
  is_empty, get_elem?, ◌==◌,
}
use publiq_pp.Base.Effects.{
  Error, assertion_failed, authority_error, bad_text, Result, ok, err, bind, Eff, ◌>>=◌, ◌>>◌,
  reads, gets, zoom, throw_if, throw, pure,
}
use publiq_pp.Coin.{Coin}
use publiq_pp.Loaders.{MapLoader}
use publiq_pp.State.{State, NodeType}
use publiq_pp.Authority.{Store, check_authority, get_authority}
use publiq_pp.Documents.{Documents}

-- `class Authority` of message.idl
pub record Authority : Type 0 where
  pub address : String
  pub signature : String

pub record SignedTransaction : Type 0 where
  pub authorizations : List Authority
  -- the creation and the expiry of the transaction, in seconds
  pub creation : ℕ
  pub expiry : ℕ
  pub fee : Coin
  -- the text of the package with the action
  pub action : String

-- What the code calls in mesh.pp's <mesh.pp/cryptoutility.hpp>.
pub record Crypto : Type 0 where
  -- whether `meshpp::public_key` accepts the text; its constructor throws if not
  pub is_public_key : String → Bool
  -- the length of `meshpp::from_base58`, `none` where that throws
  pub base58_length : String → Option ℕ

module _ ⦃L : MapLoader⦄ where
  pub record Node : Type 0 where
    pub state : State
    pub authority_manager : Store
    pub documents : Documents
    -- `pconfig->get_node_type()`
    pub node_type : NodeType

  abbrev pub on_state : {A : Type 0} → Eff State A → Eff Node A
  on_state = zoom (λ n. n.state) (λ s n. record n { state = s })

  abbrev pub on_authorities : {A : Type 0} → Eff Store A → Eff Node A
  on_authorities = zoom (λ n. n.authority_manager) (λ s n. record n { authority_manager = s })

  abbrev pub on_documents : (Documents → Documents) → Eff Node (Unit {0})
  on_documents f n = (ok tt, record n { documents = f n.documents })

  -- `impl.m_authority_manager.check_authority`, which may throw
  abbrev pub authorized : String → String → ℕ → Eff Node Bool
  authorized address authority id =
      reads (λ n. check_authority address authority id n.authority_manager)

-- `assert(authorizations.size() == 1)`, then `authorizations.front().address`
abbrev pub only_signer : List Authority → Result String
only_signer [] = err assertion_failed
only_signer (a ∷ []) = ok a.address
only_signer (a ∷ b ∷ as') = err assertion_failed

-- `assert(false == authorizations.empty())`, then the test for one signer alone: any other number
-- is refused in the name of the last signer.
abbrev pub expect_one_signer : List Authority → Result (Unit {0})
expect_one_signer [] = err assertion_failed
expect_one_signer (a ∷ []) = ok tt
expect_one_signer (a ∷ b ∷ as') = err (authority_error (back b as').address "")

-- `assert(false == authorizations.empty())`
abbrev pub expect_signers : List Authority → Result (Unit {0})
expect_signers [] = err assertion_failed
expect_signers (a ∷ as') = ok tt

-- `meshpp::public_key pb_key(address)`, run for its exception
abbrev pub expect_public_key : Crypto → String → Result (Unit {0})
expect_public_key k address = if k.is_public_key address then ok tt else err (bad_text address)

-- a decoded hash of 32 bytes
abbrev pub expect_hash : Crypto → String → Error → Result (Unit {0})
expect_hash k uri e = elim (k.base58_length uri) [
  | none ↦ err (bad_text uri)
  | some n ↦ if n == 32 then ok tt else err e
]

abbrev pub then_check : Result (Unit {0}) → Result (Unit {0}) → Result (Unit {0})
then_check (ok _) r = r
then_check (err e) r = err e

abbrev pub refuse_if : Bool → Error → Result (Unit {0})
refuse_if true e = err e
refuse_if false e = ok tt

abbrev pub check_all : List (Result (Unit {0})) → Result (Unit {0})
check_all [] = ok tt
check_all (c ∷ cs) = then_check c (check_all cs)

-- The ids that message.idl gives the kinds of action, in its order of classes.
pub record ActionIds : Type 0 where
  pub address_info : ℕ
  pub letter : ℕ
  pub storage_update_command : ℕ
  pub transfer : ℕ
  pub authorization_update : ℕ
  pub role : ℕ
  pub file : ℕ
  pub content_unit : ℕ
  pub content : ℕ
  pub sponsor_content_unit : ℕ
  pub cancel_sponsor_content_unit : ℕ
  pub service_statistics : ℕ
  pub storage_update : ℕ
  pub block : ℕ
