-- ===== src/Transaction/Authorization/Round.antt =====
-- The contract of an authorization update: what it decides, that asking foretells it, and that
-- reverting it gives the permissions back.
use publiq_pp.Base.{
  ℕ, ◌≡◌, refl, ap, ◌∙◌, ◌⊎◌, inl, inr, Bool, true, false, ◌&&◌, [], ◌∷◌, String, str_eq, eq_iff,
  eq_refl, if◌then◌else◌, arith,
}
use publiq_pp.Base.Effects.{Error, authority_error, wrong_data, Result, ok, err}
use publiq_pp.Loaders.{MapLoader}
use publiq_pp.State.{StateLayer}
use publiq_pp.Authority.{AccountAuthorization, Store, permits, check_authority}
use publiq_pp.Authority.Records.{grant, get_record_lem}
use publiq_pp.Node.{Node, Authority, SignedTransaction, ActionIds}
use publiq_pp.Node.View.{SameView, IsValid, Permitted}
use publiq_pp.Transaction.Authorization.{
  AuthorizationUpdate, apply_record, revert_record, can_apply_record, change_record,
  action_can_apply, action_apply, action_revert,
}
use publiq_pp.Transaction.Authorization.Records.{
  decided, Foretells, can_apply-apply, apply_record-permits, revert_record-apply_record,
}
use publiq_pp.Transaction.Authorization.Effects.{
  change_record_lem, change_record_fails, apply_runs, can_apply_runs,
}

abbrev pub Agrees : Result Bool → Result (Unit {0}) → Type 0
Agrees (ok true) r = r ≡ ok tt
Agrees (ok false) r = r ≡ err wrong_data
Agrees (err e) r = r ≡ err e

Result-cases : {A : Type 0} (r : Result A) → ((a : A) × (r ≡ ok a)) ⊎ ((e : Error) × (r ≡ err e))
Result-cases (ok a) = inl (a, refl)
Result-cases (err e) = inr (e, refl)

agrees :
    (c : Result Bool) (r : Result AccountAuthorization) (x : Result (Unit {0}))
    → Foretells c r
    → ((q : AccountAuthorization) → r ≡ ok q → x ≡ ok tt)
    → ((e : Error) → r ≡ err e → x ≡ err e)
    → Agrees c x
agrees (ok true) (ok q) x f good bad = good q refl
agrees (ok true) (err e) x f good bad = cc
agrees (ok false) r x f good bad = bad wrong_data f
agrees (err e) r x f good bad = bad e f

module _ ⦃L : MapLoader⦄ (ids : ActionIds) where
  -- The record that an update which went through has computed.
  computed :
      (st : SignedTransaction) (u : AuthorizationUpdate) (layer : StateLayer) (n : Node)
      → IsValid n
      → Permitted ids.authorization_update u.owner st n
      → (action_apply ids st u layer n).0 ≡ ok tt
      → (q : AccountAuthorization) × (apply_record u (grant u.owner u.actor n.authority_manager)
          ≡ ok q)
  computed st u layer n v p e =
      elim (Result-cases (apply_record u (grant u.owner u.actor n.authority_manager))) [
        | inl found ↦ found
        | inr (x, f) ↦
            let fails = change_record_fails (apply_record u) u n.authority_manager v.sound x f in
            absurd (ground (arith, fails, apply_runs ids st u layer n v p))
      ]

  -- In a valid node, an update by a permitted signer that goes through decides the named
  -- permissions of the one actor, and leaves every other permission, the balances and the documents
  -- as they were; the node stays valid.
  pub authorization_decides :
      (st : SignedTransaction) (u : AuthorizationUpdate) (layer : StateLayer) (n : Node)
      → IsValid n
      → Permitted ids.authorization_update u.owner st n
      → (action_apply ids st u layer n).0 ≡ ok tt
      → let m = (action_apply ids st u layer n).1 in
        IsValid m
        × ((a b : String) (id : ℕ)
            → permits (grant a b m.authority_manager) id ≡ (
                if str_eq u.owner a && str_eq u.actor b
                then decided u.update_type u.action_ids id
                    (permits (grant a b n.authority_manager) id)
                else permits (grant a b n.authority_manager) id))
        × (m.state ≡ n.state)
        × (m.documents ≡ n.documents)
  authorization_decides st u layer n v p e =
      let (q, f) = computed st u layer n v p e in
      let r = change_record_lem (apply_record u) u n.authority_manager v.sound q f in
      rw (apply_runs ids st u layer n v p) (
        record { normal = v.normal; sound = r.sound },
        λ a b id. ground (
          arith,
          r.given a b,
          eq_iff u.owner a,
          eq_iff u.actor b,
          apply_record-permits u.update_type u.owner u.actor u.action_ids
              (grant u.owner u.actor n.authority_manager) q f id,
        ),
        refl,
        refl,
      )

  -- In a valid node and for a permitted signer, `action_can_apply` foretells how `action_apply`
  -- ends: yes for success, no for `wrong_data`, and its own exception for the same one.
  pub authorization_foretold :
      (st : SignedTransaction) (u : AuthorizationUpdate) (layer : StateLayer) (n : Node)
      → IsValid n
      → Permitted ids.authorization_update u.owner st n
      → Agrees (action_can_apply ids st u n) (action_apply ids st u layer n).0
  authorization_foretold st u layer n v p =
      let g : AccountAuthorization = grant u.owner u.actor n.authority_manager in
      rw (can_apply_runs ids st u n v p, apply_runs ids st u layer n v p)
        (agrees (can_apply_record u g) (apply_record u g) _
          (can_apply-apply u.update_type u.owner u.actor u.action_ids g)
          (λ q f. (change_record_lem (apply_record u) u n.authority_manager v.sound q f).returned)
          (change_record_fails (apply_record u) u n.authority_manager v.sound))

  revert_runs :
      (st : SignedTransaction) (u : AuthorizationUpdate) (layer : StateLayer) (n : Node)
      → action_revert ids st u layer n ≡ (
          let (r, s) = change_record (revert_record u) u n.authority_manager in
          (r, record n { authority_manager = s }))
  unfolding action_revert
  revert_runs st u layer n = refl

  -- Reverting an update that went through succeeds and gives every permission back.
  pub authorization_reverts :
      (st : SignedTransaction) (u : AuthorizationUpdate) (layer : StateLayer) (n : Node)
      → IsValid n
      → Permitted ids.authorization_update u.owner st n
      → (action_apply ids st u layer n).0 ≡ ok tt
      → (n' : Node) × (action_revert ids st u layer (action_apply ids st u layer n).1 ≡ (ok tt, n'))
        × SameView n' n
  authorization_reverts st u layer n v p e =
      let (q, f) = computed st u layer n v p e in
      let r = change_record_lem (apply_record u) u n.authority_manager v.sound q f in
      let s : Store = (change_record (apply_record u) u n.authority_manager).1 in
      let (q', f', same) =
        revert_record-apply_record u.update_type u.owner u.actor u.action_ids
          (grant u.owner u.actor n.authority_manager) q f in
      let here : grant u.owner u.actor s ≡ q =
        ground (arith, r.given u.owner u.actor, eq_refl u.owner, eq_refl u.actor) in
      let r' = change_record_lem (revert_record u) u s r.sound q' (rw here f') in
      rw (apply_runs ids st u layer n v p) (
        _,
        revert_runs st u layer (record n { authority_manager = s })
            ∙ ap
                (λ x. (x, record n { authority_manager = (change_record (revert_record u) u s).1 }))
                r'.returned,
        record {
          own_key = refl;
          own_type = refl;
          chain_balances = λ k. refl;
          balances = λ k. refl;
          roles = λ k. refl;
          permissions = λ a b id.
              ground
                (arith, r'.given a b, r.given a b, same id, eq_iff u.owner a, eq_iff u.actor b);
          files = λ uri. refl;
          units = λ uri. refl;
          holders = λ uri a. refl;
        },
      )

  -- In a valid node, a single signer without the authority is refused by name, and nothing is
  -- written.
  pub authorization_refused :
      (st : SignedTransaction) (u : AuthorizationUpdate) (layer : StateLayer) (n : Node)
      (a : Authority)
      → IsValid n
      → st.authorizations ≡ a ∷ []
      → permits (grant u.owner a.address n.authority_manager) ids.authorization_update ≡ false
      → action_apply ids st u layer n ≡ (err (authority_error a.address u.owner), n)
  unfolding action_apply check_authority
  authorization_refused st u layer n a v one refused =
      ground (arith, one, refused, get_record_lem u.owner a.address n.authority_manager v.sound)
