-- ===== src/Transaction/Transfer/Effects.antt =====
-- What a transfer does to the node, by how it ends.
use publiq_pp.Base.{◌+◌, ◌<◌, ◌≤◌, ◌≡◌, ◌≢◌, refl, ap, ◌∙◌, eq_iff, arith}
use publiq_pp.Base.Effects.{not_enough_balance, ok, err, ◌>>=◌, ◌>>◌}
use publiq_pp.Coin.Value.{value, IsCoin, capacity, make-fields, value_injective}
use publiq_pp.Loaders.{MapLoader}
use publiq_pp.State.{
  State, StateLayer, pool, from_message, pair_of, get_balance, increase_balance, decrease_balance,
}
use publiq_pp.State.Payments.{Pays, pay_lem}
use publiq_pp.State.Balances.{worth, Holds, increase_balance_lem, decrease_balance_short}
use publiq_pp.Authority.{check_authority}
use publiq_pp.Authority.Records.{get_record_lem}
use publiq_pp.Node.{Node, SignedTransaction, ActionIds}
use publiq_pp.Node.View.{IsValid, Permitted}
use publiq_pp.Transaction.Transfer.{Transfer, action_apply}

module _ ⦃L : MapLoader⦄ (ids : ActionIds) where
  -- The balances change as the two calls on the state change them, and nothing else does.
  pub apply_runs :
      (st : SignedTransaction) (t : Transfer) (layer : StateLayer) (n : Node)
      → IsValid n
      → IsCoin t.amount
      → Permitted ids.transfer t.from st n
      → action_apply ids st t layer n ≡ (
          let (r, s) =
            (increase_balance t.to t.amount layer >> decrease_balance t.from t.amount layer)
              n.state in
          (r, record n { state = s }))
  unfolding action_apply from_message check_authority
  apply_runs st t layer n v ha p = ground (
    arith,
    p.alone,
    p.allowed,
    make-fields t.amount ha,
    get_record_lem t.from p.signer.address n.authority_manager v.sound,
  )

  -- In a valid node, a transfer of a normalised amount between two accounts, whose one signer has
  -- the authority of the sender, which the sender's balance covers and for which the receiver has
  -- room, succeeds: it moves exactly its amount, every other balance stays, the node stays valid,
  -- and the authorities and the documents are untouched.
  pub transfer-Pays :
      (st : SignedTransaction) (t : Transfer) (layer : StateLayer) (n : Node)
      → IsValid n
      → IsCoin t.amount
      → Permitted ids.transfer t.from st n
      → t.from ≢ t.to
      → value t.amount ≤ worth t.from n.state
      → worth t.to n.state + value t.amount < capacity
      → (m : Node) × (action_apply ids st t layer n ≡ (ok tt, m))
        × IsValid m
        × Pays t.from t.to (value t.amount) n.state m.state
        × (m.authority_manager ≡ n.authority_manager)
        × (m.documents ≡ n.documents)
  transfer-Pays st t layer n v ha p ne enough fits =
      let (done, normal, pays) =
        pay_lem t.from t.to t.amount layer n.state v.normal ha ne enough fits in
      let paid =
        (increase_balance t.to t.amount layer >> decrease_balance t.from t.amount layer) n.state in
      (
        record n { state = paid.1 },
        apply_runs st t layer n v ha p ∙ ap (λ r. (r, record n { state = paid.1 })) done,
        record { normal = normal; sound = v.sound },
        pays,
        refl,
        refl,
      )

  -- In a valid node, an authorised transfer to another account that has room, but that the sender's
  -- balance does not cover, throws and names both amounts; by then the receiver, and nobody else,
  -- has been credited.
  pub transfer_short :
      (st : SignedTransaction) (t : Transfer) (layer : StateLayer) (n : Node)
      → IsValid n
      → IsCoin t.amount
      → Permitted ids.transfer t.from st n
      → t.from ≢ t.to
      → worth t.from n.state < value t.amount
      → worth t.to n.state + value t.amount < capacity
      → ((action_apply ids st t layer n).0
          ≡ err (
              not_enough_balance t.from
                (pair_of (get_balance t.from pool n.state))
                (pair_of t.amount)))
        × Holds t.to
            (worth t.to n.state + value t.amount)
            n.state
            (action_apply ids st t layer n).1.state
  transfer_short st t layer n v ha p ne short fits =
      let up = increase_balance_lem t.to t.amount layer n.state v.normal ha fits in
      let s1 : State = (increase_balance t.to t.amount layer n.state).1 in
      let there : worth t.from s1 ≡ worth t.from n.state =
        ground (arith, up.2 t.from, eq_iff t.to t.from) in
      let down = decrease_balance_short t.from t.amount layer s1 up.1 ha (omega arith) in
      let same : get_balance t.from pool s1 ≡ get_balance t.from pool n.state =
        value_injective _ _ (up.1 t.from) (v.normal t.from) there in
      rw (apply_runs st t layer n v ha p, up.0, ◌>>=◌, down, same) (refl, up.2)
