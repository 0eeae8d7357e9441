-- ===== src/Transaction/Role/Round.antt =====
-- The contract of a role: when it is granted, what it changes, and that reverting takes it back.
use publiq_pp.Base.{
  ℕ, ◌≤◌, ◌≡◌, ◌↔◌, refl, ap, ◌∙◌, true, false, none, some, [], ◌∷◌, String, str_eq, eq_iff,
  if◌then◌else◌, arith,
}
use publiq_pp.Base.Effects.{ok, is_ok}
use publiq_pp.Coin.Value.{value, IsCoin, make-fields, lt-value}
use publiq_pp.Loaders.{MapLoader}
use publiq_pp.State.{
  State, Role, NodeType, blockchain, channel, storage, StateLayer, chain, pool, from_message,
  get_balance, get_role, insert_role, remove_role,
}
use publiq_pp.State.Balances.{worth}
use publiq_pp.State.Roles.{
  insert_role_runs, get_role-insert_role, get_role-remove_role, insert_role-balance,
  remove_role-balance, insert_role-own_key, remove_role-own_key,
}
use publiq_pp.Authority.{permits}
use publiq_pp.Authority.Records.{grant}
use publiq_pp.Node.{Node, Authority, SignedTransaction, ActionIds}
use publiq_pp.Node.View.{SameView, IsValid, Permitted, check_authority_lem}
use publiq_pp.Transaction.Role.{
  channel_amount_threshold, storage_amount_threshold, foreign_type, action_can_apply, action_apply,
  action_revert,
}

-- What an account of a type must hold, in fractions.
abbrev pub required : NodeType → ℕ
required blockchain = 0
required channel = value channel_amount_threshold
required storage = value storage_amount_threshold

thresholds : IsCoin channel_amount_threshold × IsCoin storage_amount_threshold
thresholds = (omega arith, omega arith)

module _ ⦃L : MapLoader⦄ (ids : ActionIds) where
  -- In a valid node and for one signer, `action_can_apply` returns, and says yes exactly when
  -- `action_apply` succeeds.
  pub role_foretold :
      (st : SignedTransaction) (r : Role) (layer : StateLayer) (n : Node) (a : Authority)
      → IsValid n
      → st.authorizations ≡ a ∷ []
      → action_can_apply ids st r n ≡ ok (is_ok (action_apply ids st r layer n).0)
  unfolding action_can_apply action_apply from_message insert_role get_role
  role_foretold st r layer n a v one = ground (
    arith,
    one,
    check_authority_lem r.node_address a.address ids.role n v,
    make-fields (get_balance r.node_address pool n.state) (v.normal r.node_address),
  )

  -- What a role that was granted rests on.
  pub record Grounds (r : Role) (n : Node) : Type 0 where
    pub unset : get_role r.node_address n.state ≡ none
    pub own_type : foreign_type r n ≡ false
    pub backed : required r.node_type ≤ worth r.node_address n.state

  apply_runs :
      (st : SignedTransaction) (r : Role) (layer : StateLayer) (n : Node)
      → IsValid n
      → Permitted ids.role r.node_address st n
      → Grounds r n
      → action_apply ids st r layer n ≡ (ok tt, record n { state = (insert_role r n.state).1 })
  unfolding action_apply from_message
  apply_runs st r layer n v p g = ground (
    arith,
    p.alone,
    p.allowed,
    g.unset,
    g.own_type,
    g.backed,
    check_authority_lem r.node_address p.signer.address ids.role n v,
    make-fields (get_balance r.node_address pool n.state) (v.normal r.node_address),
    lt-value (get_balance r.node_address pool n.state) channel_amount_threshold
        (v.normal r.node_address) thresholds.0,
    lt-value (get_balance r.node_address pool n.state) storage_amount_threshold
        (v.normal r.node_address) thresholds.1,
    insert_role_runs r n.state g.unset,
  )

  apply-Grounds :
      (st : SignedTransaction) (r : Role) (layer : StateLayer) (n : Node) (a : Authority)
      → IsValid n
      → st.authorizations ≡ a ∷ []
      → is_ok (action_apply ids st r layer n).0 ≡ true
      → (permits (grant r.node_address a.address n.authority_manager) ids.role ≡ true)
        × (get_role r.node_address n.state ≡ none)
        × (foreign_type r n ≡ false)
        × (required r.node_type ≤ worth r.node_address n.state)
  unfolding action_apply from_message
  apply-Grounds st r layer n a v one e =
      let facts =
        lt-value (get_balance r.node_address pool n.state) channel_amount_threshold
          (v.normal r.node_address) thresholds.0 in
      let facts' =
        lt-value (get_balance r.node_address pool n.state) storage_amount_threshold
          (v.normal r.node_address) thresholds.1 in
      let checked = check_authority_lem r.node_address a.address ids.role n v in
      let made = make-fields (get_balance r.node_address pool n.state) (v.normal r.node_address) in
      (
        ground (arith, one, checked),
        ground (arith, one, checked),
        ground (arith, one, checked),
        ground (arith, one, checked, made, facts, facts'),
      )

  -- In a valid node and for one signer, a role is granted exactly on its grounds: the signer's
  -- authority, no role yet, the type that the node itself is configured for where it is the node's
  -- own address, and a balance of the amount that the type requires.
  pub role_granted_iff :
      (st : SignedTransaction) (r : Role) (layer : StateLayer) (n : Node) (a : Authority)
      → IsValid n
      → st.authorizations ≡ a ∷ []
      → (is_ok (action_apply ids st r layer n).0 ≡ true) ↔ (
          (permits (grant r.node_address a.address n.authority_manager) ids.role ≡ true)
          × (get_role r.node_address n.state ≡ none)
          × (foreign_type r n ≡ false)
          × (required r.node_type ≤ worth r.node_address n.state))
  role_granted_iff st r layer n a v one = (
    apply-Grounds st r layer n a v one,
    λ g.
        ap (λ x. is_ok x.0)
          (apply_runs st r layer n v (record { signer = a; alone = one; allowed = g.0 })
            (record { unset = g.1; own_type = g.2; backed = g.3 })),
  )

  revert_runs :
      (st : SignedTransaction) (r : Role) (layer : StateLayer) (n : Node)
      → IsValid n
      → Permitted ids.role r.node_address st n
      → action_revert ids st r layer n
        ≡ (ok tt, record n { state = remove_role r.node_address n.state })
  unfolding action_revert
  revert_runs st r layer n v p =
      ground (
        arith,
        p.alone,
        p.allowed,
        check_authority_lem r.node_address p.signer.address ids.role n v,
      )

  -- In a valid node, a role that a permitted signer takes on its grounds becomes the account's role
  -- and nobody else's; reverting takes it back and gives back the view of the node.
  pub role_round :
      (st : SignedTransaction) (r : Role) (layer : StateLayer) (n : Node)
      → IsValid n
      → Permitted ids.role r.node_address st n
      → Grounds r n
      → (m : Node) × (n' : Node) × (action_apply ids st r layer n ≡ (ok tt, m))
        × ((j : String)
            → get_role j m.state
              ≡ (if str_eq r.node_address j then some r.node_type else get_role j n.state))
        × (action_revert ids st r layer m ≡ (ok tt, n'))
        × SameView n' n
  role_round st r layer n v p g =
      let s : State = (insert_role r n.state).1 in
      let m : Node = record n { state = s } in
      let kept : (k : String) (l : StateLayer) → get_balance k l s ≡ get_balance k l n.state =
        λ k l. insert_role-balance r k l n.state g.unset in
      let vm : IsValid m = record {
        normal = λ j. rw (kept j pool) (v.normal j);
        sound = v.sound;
      } in
      (
        m,
        record m { state = remove_role r.node_address s },
        apply_runs st r layer n v p g,
        λ j. get_role-insert_role r j n.state g.unset,
        revert_runs st r layer m vm
            (record { signer = p.signer; alone = p.alone; allowed = p.allowed }),
        record {
          own_key = remove_role-own_key r.node_address s ∙ insert_role-own_key r n.state g.unset;
          own_type = refl;
          chain_balances = λ k. remove_role-balance r.node_address k chain s ∙ kept k chain;
          balances = λ k. remove_role-balance r.node_address k pool s ∙ kept k pool;
          roles = λ k. ground (
            arith,
            get_role-remove_role r.node_address k s,
            get_role-insert_role r k n.state g.unset,
            eq_iff r.node_address k,
            g.unset,
          );
          permissions = λ a b id. refl;
          files = λ uri. refl;
          units = λ uri. refl;
          holders = λ uri a. refl;
        },
      )
