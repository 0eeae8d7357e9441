-- ===== src/Transaction/Authorization.antt =====
-- src/libblockchain/transaction_authorization.cpp: an owner awards a signer the authority for kinds
-- of action, or rejects it.
pub mod Ids
pub mod Records
pub mod Effects
pub mod Round
use publiq_pp.Base.{
  ℕ, Bool, true, false, not, ◌&&◌, ◌||◌, Option, none, some, List, [], ◌∷◌, String, str_eq,
  if◌then◌else◌, has, remove as remove_id, is_empty,
}
use publiq_pp.Base.Effects.{
  Error, authority_error, logic_error, wrong_data, Result, ok, err, bind, Eff, ◌>>=◌, ◌>>◌, reads,
  throw_if,
}
use publiq_pp.Loaders.{MapLoader}
use publiq_pp.State.{StateLayer}
use publiq_pp.Documents.{UpdateType, store, remove}
use publiq_pp.Authority.{
  AccountAuthorization, Store, get_record, check_authority, get_authority, set_record,
  smart_create_dummy_record, smart_cleanup_dummy_record,
}
use publiq_pp.Node.{
  Node, Authority, SignedTransaction, Crypto, ActionIds, on_authorities, authorized, only_signer,
  expect_signers, expect_one_signer, expect_public_key, refuse_if, check_all,
}

-- The ids are a set, in the order in which it is walked.
pub record AuthorizationUpdate : Type 0 where
  pub update_type : UpdateType
  pub owner : String
  pub actor : String
  pub action_ids : List ℕ

unfoldable pub action_owners : AuthorizationUpdate → List String
action_owners u = u.owner ∷ []

unfoldable pub action_participants : AuthorizationUpdate → List String
action_participants u = u.owner ∷ u.actor ∷ []

abbrev allowed_ids : ActionIds → List ℕ
allowed_ids i =
    i.address_info ∷ i.letter ∷ i.storage_update_command ∷ i.transfer ∷ i.role ∷ i.file
    ∷ i.content_unit ∷ i.content ∷ i.sponsor_content_unit ∷ i.cancel_sponsor_content_unit
    ∷ i.service_statistics ∷ i.storage_update ∷ i.block ∷ []

only_allowed : List ℕ → List ℕ → Result (Unit {0})
only_allowed allowed [] = ok tt
only_allowed allowed (id ∷ ids) =
    if has id allowed then only_allowed allowed ids else err wrong_data

signs_for_actor : List Authority → String → Bool
signs_for_actor [] actor = false
signs_for_actor (a ∷ as') actor = str_eq a.address actor

unfoldable pub action_validate :
    Crypto → ActionIds → SignedTransaction → AuthorizationUpdate → Result (Unit {0})
unfolding signs_for_actor only_allowed
action_validate k ids st u = check_all (
    expect_signers st.authorizations
    ∷ expect_one_signer st.authorizations
    ∷ refuse_if (signs_for_actor st.authorizations u.actor) wrong_data
    ∷ only_allowed (allowed_ids ids) u.action_ids
    ∷ expect_public_key k u.owner
    ∷ expect_public_key k u.actor
    ∷ [])

unfoldable pub action_is_complete : SignedTransaction → AuthorizationUpdate → Bool
action_is_complete st u = true

-- `insert` of every id; `none` at the first that is there already.
unfoldable pub insert_ids : List ℕ → List ℕ → Option (List ℕ)
insert_ids [] s = some s
insert_ids (id ∷ ids) s = if has id s then none else insert_ids ids (id ∷ s)

-- `erase` of every id; `none` at the first that is not there.
unfoldable pub erase_ids : List ℕ → List ℕ → Option (List ℕ)
erase_ids [] s = some s
erase_ids (id ∷ ids) s = if has id s then erase_ids ids (remove_id id s) else none

-- The record with the ids that a loop left, or the error of the loop.
abbrev with_ids : Error → AccountAuthorization → Option (List ℕ) → Result AccountAuthorization
with_ids e r none = err e
with_ids e r (some s) = ok (record r { action_ids = s })

-- The exceptions of a full record can be neither awarded nor taken back: the first id that passes
-- the loop's own test runs into the limitation.
limited : Error → Bool → Result AccountAuthorization
limited e passes = if passes then err logic_error else err e

first_id : List ℕ → ℕ → ℕ
first_id [] d = d
first_id (id ∷ ids) d = id

award_full : Error → AccountAuthorization → Result AccountAuthorization
award_full e r =
    if r.default_full || not (is_empty r.action_ids)
    then err e
    else ok (record r { default_full = true })

reject_full : Error → AccountAuthorization → Result AccountAuthorization
reject_full e r =
    if not r.default_full || not (is_empty r.action_ids)
    then err e
    else ok (record r { default_full = false })

-- The body of `action_apply` between reading the record and writing it.
unfoldable pub apply_record :
    AuthorizationUpdate → AccountAuthorization → Result AccountAuthorization
unfolding award_full reject_full limited first_id
apply_record u r = elim u.update_type [
  | store ↦
      if is_empty u.action_ids
      then award_full wrong_data r
      else if r.default_full
      then limited wrong_data (has (first_id u.action_ids 0) r.action_ids)
      else with_ids wrong_data r (insert_ids u.action_ids r.action_ids)
  | remove ↦
      if is_empty u.action_ids
      then reject_full wrong_data r
      else if r.default_full
      then err wrong_data
      else with_ids wrong_data r (erase_ids u.action_ids r.action_ids)
]

-- The same of `action_revert`, where every refusal is a `logic_error`.
unfoldable pub revert_record :
    AuthorizationUpdate → AccountAuthorization → Result AccountAuthorization
unfolding award_full reject_full limited first_id
revert_record u r = elim u.update_type [
  | store ↦
      if is_empty u.action_ids
      then reject_full logic_error r
      else if r.default_full
      then limited logic_error (not (has (first_id u.action_ids 0) r.action_ids))
      else with_ids logic_error r (erase_ids u.action_ids r.action_ids)
  | remove ↦
      if is_empty u.action_ids
      then award_full logic_error r
      else if r.default_full
      then err logic_error
      else with_ids logic_error r (insert_ids u.action_ids r.action_ids)
]

abbrev was_done : Option (List ℕ) → Bool
was_done none = false
was_done (some s) = true

-- The body of `action_can_apply` after reading the record.
unfoldable pub can_apply_record : AuthorizationUpdate → AccountAuthorization → Result Bool
unfolding first_id
can_apply_record u r = elim u.update_type [
  | store ↦
      if is_empty u.action_ids
      then ok (not (r.default_full || not (is_empty r.action_ids)))
      else if r.default_full
      then if has (first_id u.action_ids 0) r.action_ids then err logic_error else ok false
      else ok (was_done (insert_ids u.action_ids r.action_ids))
  | remove ↦
      if is_empty u.action_ids
      then ok (not (not r.default_full || not (is_empty r.action_ids)))
      else if r.default_full
      then ok false
      else ok (was_done (erase_ids u.action_ids r.action_ids))
]

module _ ⦃L : MapLoader⦄ where
  -- One record read, changed and written, with the dummies before and after.
  unfoldable pub change_record :
      (AccountAuthorization → Result AccountAuthorization)
      → AuthorizationUpdate
      → Eff Store (Unit {0})
  change_record change u = do
    smart_create_dummy_record u.owner u.actor
    old ← reads (get_record u.owner u.actor)
    new ← reads (λ _. change old)
    set_record u.owner u.actor new
    smart_cleanup_dummy_record u.owner u.actor

module _ ⦃L : MapLoader⦄ (ids : ActionIds) where
  unfoldable pub action_can_apply : SignedTransaction → AuthorizationUpdate → Node → Result Bool
  unfolding can_apply_record
  action_can_apply st u n = bind (only_signer st.authorizations) λ signer.
      bind (check_authority u.owner signer ids.authorization_update n.authority_manager) λ allowed.
        if allowed
        then bind (get_record u.owner u.actor n.authority_manager) (can_apply_record u)
        else ok false

  unfoldable pub action_apply :
      SignedTransaction → AuthorizationUpdate → StateLayer → Eff Node (Unit {0})
  unfolding change_record apply_record
  action_apply st u layer = do
    signer ← reads (λ _. only_signer st.authorizations)
    allowed ← authorized u.owner signer ids.authorization_update
    throw_if (not allowed) (authority_error signer (get_authority u.owner ids.authorization_update))
    on_authorities (change_record (apply_record u) u)

  unfoldable pub action_revert :
      SignedTransaction → AuthorizationUpdate → StateLayer → Eff Node (Unit {0})
  unfolding change_record revert_record
  action_revert st u layer = on_authorities (change_record (revert_record u) u)
