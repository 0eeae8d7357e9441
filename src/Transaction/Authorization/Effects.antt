-- ===== src/Transaction/Authorization/Effects.antt =====
-- What an update does to the node: one signer's record changes, or nothing is written.
use publiq_pp.Base.{◌≡◌, arith}
use publiq_pp.Base.Effects.{Error, Result, ok, err, ◌>>◌}
use publiq_pp.Loaders.{MapLoader}
use publiq_pp.State.{StateLayer}
use publiq_pp.Authority.{
  AccountAuthorization, Store, check_authority, set_record, smart_create_dummy_record,
  smart_cleanup_dummy_record,
}
use publiq_pp.Authority.Records.{grant, IsSound, get_record_lem, create_lem, Replaced, replace_lem}
use publiq_pp.Node.{Node, SignedTransaction, ActionIds}
use publiq_pp.Node.View.{IsValid, Permitted}
use publiq_pp.Transaction.Authorization.{
  AuthorizationUpdate, apply_record, can_apply_record, change_record, action_can_apply,
  action_apply,
}

module _ ⦃L : MapLoader⦄ (change : AccountAuthorization → Result AccountAuthorization)
    (u : AuthorizationUpdate) (s : Store) (h : IsSound s) where
  change_record_runs :
      (q : AccountAuthorization)
      → change (grant u.owner u.actor s) ≡ ok q
      → change_record change u s
        ≡ (set_record u.owner u.actor q >> smart_cleanup_dummy_record u.owner u.actor)
            (smart_create_dummy_record u.owner u.actor s).1
  unfolding change_record
  change_record_runs q e =
      let p = create_lem u.owner u.actor s h in
      ground (
        arith,
        p.returned,
        p.same u.owner u.actor,
        e,
        get_record_lem u.owner u.actor (smart_create_dummy_record u.owner u.actor s).1 p.sound,
      )

  -- The changed record is written, and the store says the same of everything else.
  pub change_record_lem :
      (q : AccountAuthorization)
      → change (grant u.owner u.actor s) ≡ ok q
      → Replaced u.owner u.actor q s (change_record change u s)
  change_record_lem q e =
      let p = create_lem u.owner u.actor s h in
      let r = replace_lem u.owner u.actor q _ p.sound p.listed in
      rw (change_record_runs q e) (record {
        returned = r.returned;
        sound = r.sound;
        given = λ a b. ground (arith, r.given a b, p.same a b);
      })

  pub change_record_fails :
      (e : Error) → change (grant u.owner u.actor s) ≡ err e → (change_record change u s).0 ≡ err e
  unfolding change_record
  change_record_fails e f =
      let p = create_lem u.owner u.actor s h in
      ground (
        arith,
        p.returned,
        p.same u.owner u.actor,
        f,
        get_record_lem u.owner u.actor (smart_create_dummy_record u.owner u.actor s).1 p.sound,
      )

module _ ⦃L : MapLoader⦄ (ids : ActionIds) where
  pub apply_runs :
      (st : SignedTransaction) (u : AuthorizationUpdate) (layer : StateLayer) (n : Node)
      → IsValid n
      → Permitted ids.authorization_update u.owner st n
      → action_apply ids st u layer n ≡ (
          let (r, s) = change_record (apply_record u) u n.authority_manager in
          (r, record n { authority_manager = s }))
  unfolding action_apply check_authority
  apply_runs st u layer n v p = ground (
    arith,
    p.alone,
    p.allowed,
    get_record_lem u.owner p.signer.address n.authority_manager v.sound,
  )

  pub can_apply_runs :
      (st : SignedTransaction) (u : AuthorizationUpdate) (n : Node)
      → IsValid n
      → Permitted ids.authorization_update u.owner st n
      → action_can_apply ids st u n ≡ can_apply_record u (grant u.owner u.actor n.authority_manager)
  unfolding action_can_apply check_authority
  can_apply_runs st u n v p = ground (
    arith,
    p.alone,
    p.allowed,
    get_record_lem u.owner p.signer.address n.authority_manager v.sound,
    get_record_lem u.owner u.actor n.authority_manager v.sound,
  )
