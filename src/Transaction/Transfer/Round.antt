-- ===== src/Transaction/Transfer/Round.antt =====
-- Asking before applying, undoing after applying, and what a transfer keeps in total.
use publiq_pp.Base.{◌+◌, ◌<◌, ◌≤◌, ◌≡◌, ◌≢◌, refl, true, ◌&&◌, List, [], ◌∷◌, String, arith, leb}
use publiq_pp.Base.Texts.{contains, Distinct}
use publiq_pp.Base.Effects.{Result, ok, ◌>>◌}
use publiq_pp.Coin.Value.{value, IsCoin, capacity, make-fields, lt-value}
use publiq_pp.Loaders.{MapLoader}
use publiq_pp.State.{
  State, StateLayer, pool, from_message, get_balance, increase_balance, decrease_balance,
}
use publiq_pp.State.Payments.{pay_lem, pay_back, total, total-Pays}
use publiq_pp.State.Balances.{worth}
use publiq_pp.State.Layers.{
  IsSynced, Follows, Follows-pay, Follows-trans, Follows-IsSynced, Follows-back,
}
use publiq_pp.Authority.{permits, check_authority}
use publiq_pp.Authority.Records.{grant, get_record_lem}
use publiq_pp.Node.{Node, Authority, SignedTransaction, ActionIds}
use publiq_pp.Node.View.{SameView, IsValid, Permitted}
use publiq_pp.Transaction.Transfer.{Transfer, action_can_apply, action_apply, action_revert}
use publiq_pp.Transaction.Transfer.Effects.{transfer-Pays, apply_runs}

module _ ⦃L : MapLoader⦄ (ids : ActionIds) where
  -- In a valid node, a transfer of a normalised amount between two accounts, whose one signer has
  -- the authority of the sender, which the sender's balance covers and for which the receiver has
  -- room, succeeds and keeps the total of any list of distinct accounts that both its parties are
  -- among.
  pub transfer_conserves :
      (st : SignedTransaction) (t : Transfer) (layer : StateLayer) (n : Node) (ks : List String)
      → IsValid n
      → IsCoin t.amount
      → Permitted ids.transfer t.from st n
      → t.from ≢ t.to
      → value t.amount ≤ worth t.from n.state
      → worth t.to n.state + value t.amount < capacity
      → Distinct ks
      → contains t.from ks ≡ true
      → contains t.to ks ≡ true
      → ((action_apply ids st t layer n).0 ≡ ok tt)
        × (total ks (action_apply ids st t layer n).1.state ≡ total ks n.state)
  transfer_conserves st t layer n ks v ha p ne enough fits d cf ct =
      let (m, e, v', pays, _, _) = transfer-Pays ids st t layer n v ha p ne enough fits in
      let sums = total-Pays t.from t.to (value t.amount) n.state m.state ks ne enough d pays in
      rw e (refl, ground (arith, sums))

  -- In a valid node, for a normalised amount and one signer, `action_can_apply` returns, and says
  -- yes exactly when the signer has the authority of the sender and the sender's balance covers the
  -- amount.
  pub transfer_foretold :
      (st : SignedTransaction) (t : Transfer) (n : Node) (a : Authority)
      → IsValid n
      → IsCoin t.amount
      → st.authorizations ≡ a ∷ []
      → action_can_apply ids st t n
        ≡ ok (
            permits (grant t.from a.address n.authority_manager) ids.transfer
            && leb (value t.amount) (worth t.from n.state))
  unfolding action_can_apply from_message check_authority
  transfer_foretold st t n a v ha one = ground (
    arith,
    one,
    make-fields t.amount ha,
    make-fields (get_balance t.from pool n.state) (v.normal t.from),
    lt-value (get_balance t.from pool n.state) t.amount (v.normal t.from) ha,
    get_record_lem t.from a.address n.authority_manager v.sound,
  )

  revert_runs :
      (st : SignedTransaction) (t : Transfer) (layer : StateLayer) (n : Node)
      (u : Result (Unit {0}) × State)
      → IsValid n
      → IsCoin t.amount
      → Permitted ids.transfer t.from st n
      → (increase_balance t.from t.amount layer >> decrease_balance t.to t.amount layer) n.state ≡ u
      → u.0 ≡ ok tt
      → action_revert ids st t layer n ≡ (ok tt, record n { state = u.1 })
  unfolding action_revert from_message check_authority
  revert_runs st t layer n u v ha p e done = ground (
    arith,
    p.alone,
    p.allowed,
    make-fields t.amount ha,
    get_record_lem t.from p.signer.address n.authority_manager v.sound,
  )

  -- Undoing a transfer that was applied gives every balance of both layers, role, permission and
  -- document back.
  pub transfer_reverts :
      (st : SignedTransaction) (t : Transfer) (layer : StateLayer) (n : Node)
      → IsValid n
      → IsCoin t.amount
      → Permitted ids.transfer t.from st n
      → IsSynced layer n.state
      → t.from ≢ t.to
      → value t.amount ≤ worth t.from n.state
      → worth t.to n.state + value t.amount < capacity
      → ((action_apply ids st t layer n).0 ≡ ok tt)
        × Follows layer n.state (action_apply ids st t layer n).1.state
        × ((n' : Node) × (action_revert ids st t layer (action_apply ids st t layer n).1
              ≡ (ok tt, n'))
            × SameView n' n)
  transfer_reverts st t layer n v ha p synced ne enough fits =
      let there =
        (increase_balance t.to t.amount layer >> decrease_balance t.from t.amount layer) n.state in
      let paid = pay_lem t.from t.to t.amount layer n.state v.normal ha ne enough fits in
      let back = pay_back t.from t.to t.amount layer n.state v.normal ha ne enough fits in
      let m : Node = record n { state = there.1 } in
      let over = Follows-pay t.from t.to t.amount layer n.state synced in
      let u : State =
        ((increase_balance t.from t.amount layer >> decrease_balance t.to t.amount layer)
          there.1).1 in
      let round : Follows layer n.state u = Follows-trans layer n.state there.1 u over (
        Follows-pay t.to t.from t.amount layer there.1
          (Follows-IsSynced layer n.state there.1 over)) in
      rw (apply_runs ids st t layer n v ha p) (
        paid.0,
        over,
        (
          _,
          revert_runs st t layer m _ (record { normal = paid.1; sound = v.sound }) ha
              (record { signer = p.signer; alone = p.alone; allowed = p.allowed }) refl back.0,
          record {
            own_key = round.own_key;
            own_type = refl;
            chain_balances = Follows-back layer n.state u synced round back.1;
            balances = back.1;
            roles = back.2;
            permissions = λ a b id. refl;
            files = λ uri. refl;
            units = λ uri. refl;
            holders = λ uri a. refl;
          },
        ),
      )
