-- ===== src/Authority.antt =====
-- src/libblockchain/authority_manager.cpp: who may sign which kind of action for an address. The
-- store keeps, for an address that has changed its authorities, a record for each signer.
pub mod Entries
pub mod Edits
pub mod Records
use publiq_pp.Base.{
  ℕ, Bool, true, false, ◌&&◌, not, Option, none, some, List, [], ◌∷◌, String, str_eq, if◌then◌else◌,
  is_some, is_empty, length, has, ◌==◌,
}
use publiq_pp.Base.Dict.{Dict, lookup, assign, insert, erase}
use publiq_pp.Base.Effects.{
  Error, logic_error, Result, ok, err, bind, Eff, ◌>>=◌, ◌>>◌, gets, modify, throw_if, throw, pure,
}
use publiq_pp.Loaders.{MapLoader}

-- `default_full` tells what the empty set of ids means; the ids are the exceptions from it.
pub record AccountAuthorization : Type 0 where
  pub default_full : Bool
  pub action_ids : List ℕ

-- The key is the signer.
abbrev pub AccountAuthorizations : Type 0
AccountAuthorizations = Dict AccountAuthorization

abbrev pub full : AccountAuthorization
full = record { default_full = true; action_ids = [] }

abbrev pub nothing : AccountAuthorization
nothing = record { default_full = false; action_ids = [] }

-- What a record says of one kind of action.
unfoldable pub permits : AccountAuthorization → ℕ → Bool
permits r id = if has id r.action_ids then not r.default_full else r.default_full

-- `false == default_full && action_ids.empty()`
abbrev pub is_nothing : AccountAuthorization → Bool
is_nothing r = not r.default_full && is_empty r.action_ids

abbrev pub is_full : AccountAuthorization → Bool
is_full r = r.default_full && is_empty r.action_ids

-- `get_authority`
abbrev pub get_authority : String → ℕ → String
get_authority address id = address

module _ ⦃L : MapLoader⦄ where
  open L use {Map, find, insert as add_entry, update, erase as remove_entry}

  abbrev pub Store : Type 0
  Store = Map AccountAuthorizations

  missing_record : String → String → Result AccountAuthorization
  missing_record address authority = if str_eq authority address then ok full else ok nothing

  -- The signer has no record although the address has some.
  missing_signer : String → String → Result AccountAuthorization
  missing_signer address authority =
      if str_eq authority address then err logic_error else ok nothing

  unfoldable pub get_record : String → String → Store → Result AccountAuthorization
  unfolding missing_record missing_signer
  get_record address authority s = elim (find s address) [
    | none ↦ missing_record address authority
    | some auths ↦ elim (lookup authority auths) [
      | none ↦ missing_signer address authority
      | some r ↦ ok r
    ]
  ]

  unfoldable pub check_authority : String → String → ℕ → Store → Result Bool
  unfolding get_record permits
  check_authority address authority id s =
      bind (get_record address authority s) λ r. ok (permits r id)

  -- The signers are tried in the order in which the set lists them; `""` is no signer.
  first_permitted : String → ℕ → Store → List String → Result String
  unfolding check_authority
  first_permitted address id s [] = ok ""
  first_permitted address id s (a ∷ as') =
      let rest = first_permitted address id s as' in
      bind (check_authority address a id s) λ allowed. if allowed then ok a else rest

  contains_text : String → List String → Bool
  contains_text a [] = false
  contains_text a (b ∷ bs) = if str_eq a b then true else contains_text a bs

  unfoldable pub find_authority : List String → String → ℕ → Store → Result String
  unfolding first_permitted contains_text
  find_authority authorities address id s = elim (find s address) [
    | none ↦ if contains_text address authorities then ok address else ok ""
    | some auths ↦ first_permitted address id s authorities
  ]

  -- The authorizations of an address that must be there, else `logic_error`.
  entry : String → Eff Store AccountAuthorizations
  entry address s = elim (find s address) [
    | none ↦ (err logic_error, s)
    | some auths ↦ (ok auths, s)
  ]

  signer_record : String → AccountAuthorizations → Eff Store AccountAuthorization
  signer_record authority auths s = elim (lookup authority auths) [
    | none ↦ (err logic_error, s)
    | some r ↦ (ok r, s)
  ]

  unfoldable pub set_record : String → String → AccountAuthorization → Eff Store (Unit {0})
  unfolding entry signer_record assign
  set_record address authority r = do
    auths ← entry address
    signer_record authority auths
    modify (λ s. update s address (assign authority r auths))

  pub create_address : String → Eff Store (Unit {0})
  create_address address s =
      (ok tt, if is_some (find s address) then s else add_entry s address ((address, full) ∷ []))

  pub create_signer : String → String → Eff Store (Unit {0})
  unfolding entry
  create_signer address authority =
      if str_eq address authority
      then pure tt
      else do auths ← entry address; modify (λ s. update s address (insert authority nothing auths))

  unfoldable pub smart_create_dummy_record : String → String → Eff Store (Unit {0})
  unfolding create_address create_signer
  smart_create_dummy_record address authority = do
    create_address address
    create_signer address authority

  pub cleanup_signer : String → String → Eff Store (Unit {0})
  unfolding entry signer_record
  cleanup_signer address authority = if str_eq address authority then pure tt else do
    auths ← entry address
    r ← signer_record authority auths
    if is_nothing r then modify (λ s. update s address (erase authority auths)) else pure tt

  drop_address : String → AccountAuthorizations → Eff Store (Unit {0})
  unfolding signer_record
  drop_address address auths = do
    r ← signer_record address auths
    if is_full r && length auths == 1 then modify (λ s. remove_entry s address) else pure tt

  pub cleanup_address : String → Eff Store (Unit {0})
  unfolding drop_address
  cleanup_address address s = elim (find s address) [
    | none ↦ (ok tt, s)
    | some auths ↦ drop_address address auths s
  ]

  unfoldable pub smart_cleanup_dummy_record : String → String → Eff Store (Unit {0})
  unfolding cleanup_signer cleanup_address
  smart_cleanup_dummy_record address authority = do
    cleanup_signer address authority
    cleanup_address address
