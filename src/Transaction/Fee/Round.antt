-- ===== src/Transaction/Fee/Round.antt =====
-- What a fee moves, and that reverting it gives every balance back.
use publiq_pp.Base.{
  ℕ, ◌+◌, ◌<◌, ◌≤◌, ◌≡◌, ◌≢◌, refl, ap, ◌∙◌, false, String, str_eq, eq_iff, eq_refl, if◌then◌else◌,
  leb, arith,
}
use publiq_pp.Base.Effects.{Result, ok, is_ok, ◌>>=◌, ◌>>◌}
use publiq_pp.Coin.{Coin}
use publiq_pp.Coin.Value.{
  value, IsCoin, capacity, make-fields, lt-value, value_injective, value-lt-capacity,
}
use publiq_pp.Loaders.{MapLoader}
use publiq_pp.State.{
  State, chain, pool, from_message, get_balance, get_role, increase_balance, decrease_balance,
}
use publiq_pp.State.Balances.{
  worth, IsNormal, increase_balance_lem, decrease_balance_lem, increase-roles, decrease-roles,
}
use publiq_pp.State.Layers.{
  IsSynced, Follows, Follows-pay, Follows-refund, Follows-trans, Follows-IsSynced, Follows-back,
}
use publiq_pp.Node.{Node}
use publiq_pp.Node.View.{SameView, IsValid}
use publiq_pp.Transaction.Fee.{fee_validate, fee_can_apply, fee_apply, fee_revert}

module _ ⦃L : MapLoader⦄ where
  -- The account `from` has given the amount and the account `to` has got it; they may be one.
  abbrev pub Moves : String → String → ℕ → State → State → Type 0
  Moves from to x s u =
      (j : String)
      → worth j u + (if str_eq from j then x else 0) ≡ worth j s + (if str_eq to j then x else 0)

  abbrev Moved : String → String → ℕ → State → Result (Unit {0}) × State → Type 0
  Moved from to x s (r, u) = (r ≡ ok tt) × IsNormal u × Moves from to x s u

  collect_lem :
      (from to : String) (a : Coin) (s : State)
      → IsNormal s
      → IsCoin a
      → value a ≤ worth from s
      → worth to s + value a < capacity
      → Moved from to (value a) s ((increase_balance to a chain >> decrease_balance from a chain) s)
  collect_lem from to a s h ha enough fits =
      let up = increase_balance_lem to a chain s h ha fits in
      let s1 : State = (increase_balance to a chain s).1 in
      let covered : value a ≤ worth from s1 = ground (arith, up.2 from, eq_iff to from) in
      let down = decrease_balance_lem from a chain s1 up.1 ha covered in
      rw (up.0, ◌>>=◌)
        (
          down.0,
          down.1,
          λ j. ground (
            arith,
            up.2 j,
            up.2 from,
            down.2 j,
            eq_iff to j,
            eq_iff from j,
            eq_iff to from,
            covered,
          ),
        )

  refund_lem :
      (from to : String) (a : Coin) (s : State)
      → IsNormal s
      → IsCoin a
      → value a ≤ worth to s
      → (str_eq from to ≡ false → worth from s + value a < capacity)
      → Moved to from (value a) s ((decrease_balance to a chain >> increase_balance from a chain) s)
  refund_lem from to a s h ha enough fits =
      let down = decrease_balance_lem to a chain s h ha enough in
      let s1 : State = (decrease_balance to a chain s).1 in
      let top = value-lt-capacity (get_balance to pool s) (h to) in
      let room : worth from s1 + value a < capacity =
        ground (arith, down.2 from, eq_iff to from, eq_iff from to, fits) in
      let up = increase_balance_lem from a chain s1 down.1 ha room in
      rw (down.0, ◌>>=◌)
        (
          up.0,
          up.1,
          λ j. ground (
            arith,
            down.2 j,
            down.2 from,
            up.2 j,
            eq_iff to j,
            eq_iff from j,
            eq_iff to from,
            enough,
          ),
        )

  -- In a valid node and for a normalised fee, `fee_can_apply` returns whether the owner's balance
  -- covers the fee, and `fee_validate` throws exactly when it does not.
  pub fee_covered :
      (address : String) (fee : Coin) (n : Node)
      → IsValid n
      → IsCoin fee
      → (fee_can_apply address fee n ≡ ok (leb (value fee) (worth address n.state)))
        × (is_ok (fee_validate address fee n) ≡ leb (value fee) (worth address n.state))
  unfolding fee_can_apply fee_validate from_message
  fee_covered address fee n v ha =
      let made = make-fields fee ha in
      let made' = make-fields (get_balance address pool n.state) (v.normal address) in
      let less = lt-value (get_balance address pool n.state) fee (v.normal address) ha in
      (ground (arith, made, made', less), ground (arith, made, made', less))

  apply_runs :
      (address : String) (fee : Coin) (receiver : String) (n : Node)
      → IsCoin fee
      → receiver ≢ ""
      → fee_apply address fee receiver n ≡ (
          let (r, s) =
            (increase_balance receiver fee chain >> decrease_balance address fee chain) n.state in
          (r, record n { state = s }))
  unfolding fee_apply from_message
  apply_runs address fee receiver n ha ne = ground (arith, make-fields fee ha, eq_iff receiver "")

  revert_runs :
      (address : String) (fee : Coin) (receiver : String) (n : Node)
      → IsCoin fee
      → receiver ≢ ""
      → fee_revert address fee receiver n ≡ (
          let (r, s) =
            (decrease_balance receiver fee chain >> increase_balance address fee chain) n.state in
          (r, record n { state = s }))
  unfolding fee_revert from_message
  revert_runs address fee receiver n ha ne = ground (arith, make-fields fee ha, eq_iff receiver "")

  -- The roles are not touched by a fee or its refund.
  fee-roles :
      (from to : String) (a : Coin) (s : State) (k : String)
      → (get_role k ((increase_balance to a chain >> decrease_balance from a chain) s).1
          ≡ get_role k s)
        × (get_role k ((decrease_balance to a chain >> increase_balance from a chain) s).1
            ≡ get_role k s)
  unfolding get_role
  fee-roles from to a s k = (
    ground (
      arith,
      increase-roles to a chain s,
      decrease-roles from a chain (increase_balance to a chain s).1,
    ),
    ground (
      arith,
      decrease-roles to a chain s,
      increase-roles from a chain (decrease_balance to a chain s).1,
    ),
  )

  -- In a valid node whose chain layer has the balance of the node's own key that the pool layer
  -- has, a normalised fee that its owner's balance covers moves to the receiver, who has a name and
  -- room for it and may be the owner; the chain layer's balance of the node's own key follows, and
  -- no other of the chain layer changes; reverting the fee succeeds and gives back the view of the
  -- node, with the balances of both layers.
  pub fee_round :
      (address : String) (fee : Coin) (receiver : String) (n : Node)
      → IsValid n
      → IsCoin fee
      → IsSynced chain n.state
      → receiver ≢ ""
      → value fee ≤ worth address n.state
      → worth receiver n.state + value fee < capacity
      → (m : Node) × (n' : Node) × (fee_apply address fee receiver n ≡ (ok tt, m))
        × Moves address receiver (value fee) n.state m.state
        × Follows chain n.state m.state
        × (fee_revert address fee receiver m ≡ (ok tt, n'))
        × SameView n' n
  fee_round address fee receiver n v ha synced ne enough fits =
      let u = (increase_balance receiver fee chain >> decrease_balance address fee chain) n.state in
      let there = collect_lem address receiver fee n.state v.normal ha enough fits in
      let w = (decrease_balance receiver fee chain >> increase_balance address fee chain) u.1 in
      let top = value-lt-capacity (get_balance address pool n.state) (v.normal address) in
      let back =
        refund_lem address receiver fee u.1 there.1 ha
          (ground (arith, there.2 receiver, eq_refl receiver, eq_iff address receiver))
          (λ apart. ground (
            arith,
            there.2 address,
            eq_refl address,
            eq_iff receiver address,
            eq_iff address receiver,
          )) in
      let m : Node = record n { state = u.1 } in
      let over = Follows-pay address receiver fee chain n.state synced in
      let round =
        Follows-trans chain n.state u.1 w.1 over (
          Follows-refund address receiver fee chain u.1
            (Follows-IsSynced chain n.state u.1 over)) in
      let restored : (k : String) → get_balance k pool w.1 ≡ get_balance k pool n.state =
        λ k. value_injective _ _ (back.1 k) (v.normal k) (ground (arith, there.2 k, back.2 k)) in
      (
        m,
        record n { state = w.1 },
        apply_runs address fee receiver n ha ne ∙ ap (λ r. (r, m)) there.0,
        there.2,
        over,
        revert_runs address fee receiver m ha ne ∙ ap (λ r. (r, record n { state = w.1 })) back.0,
        record {
          own_key = round.own_key;
          own_type = refl;
          chain_balances = Follows-back chain n.state w.1 synced round restored;
          balances = restored;
          roles = λ k.
              (fee-roles address receiver fee u.1 k).1
              ∙ (fee-roles address receiver fee n.state k).0;
          permissions = λ a b id. refl;
          files = λ uri. refl;
          units = λ uri. refl;
          holders = λ uri a. refl;
        },
      )
