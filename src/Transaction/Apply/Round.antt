-- ===== src/Transaction/Apply/Round.antt =====
-- src/libblockchain/communication_p2p.cpp, `apply_transaction` and `revert_transaction` for any kind
-- of action: what a refused transaction leaves, and what reverting gives back.
use publiq_pp.Base.{◌≡◌, refl, Bool, true, false, String, arith, inl, inr, ◌⊎◌}
use publiq_pp.Base.Effects.{Error, Result, ok, err}
use publiq_pp.Coin.{Coin}
use publiq_pp.Loaders.{MapLoader}
use publiq_pp.State.{StateLayer, pool}
use publiq_pp.Node.{Node}
use publiq_pp.Node.View.{SameView, SameView-refl}
use publiq_pp.Transaction.Fee.{fee_can_apply, fee_apply, fee_revert}
use publiq_pp.Transaction.Apply.{Action, layer_of, apply_transaction, revert_transaction}

module _ ⦃L : MapLoader⦄ where
  -- The action goes through at this node, and reverting it gives back the view of the node.
  pub record Reverts (a : Action) (layer : StateLayer) (n : Node) : Type 0 where
    pub after : Node
    pub back : Node
    pub applied : a.apply layer n ≡ (ok tt, after)
    pub reverted : a.revert layer after ≡ (ok tt, back)
    pub same : SameView back n

  answers : (r : Result Bool) → (r ≡ ok true) ⊎ ((r ≡ ok false) ⊎ ((e : Error) × (r ≡ err e)))
  answers (ok true) = inl refl
  answers (ok false) = inr (inl refl)
  answers (err e) = inr (inr (e, refl))

  refused :
      (a : Action) (fee : Coin) (key : String) (n : Node) (r : Reverts a (layer_of key) n)
      → a.can_apply n ≡ ok true
      → fee_can_apply a.owner fee r.after ≡ ok false
      → apply_transaction a fee key n ≡ (ok false, r.back)
  unfolding apply_transaction
  refused a fee key n r can short = ground (arith, can, short, r.applied, r.reverted)

  accepted :
      (a : Action) (fee : Coin) (n : Node) (r : Reverts a pool n)
      → a.can_apply n ≡ ok true
      → fee_can_apply a.owner fee r.after ≡ ok true
      → apply_transaction a fee "" n ≡ (ok true, r.after)
  unfolding apply_transaction fee_apply
  accepted a fee n r can enough = ground (arith, can, enough, r.applied)

  -- For an action that goes through and can be reverted wherever it is accepted, a transaction that
  -- `apply_transaction` answers with false leaves the view of the node as it was, also where the
  -- action was applied before the fee turned out not to be covered.
  pub apply_transaction_refused :
      (a : Action) (fee : Coin) (key : String) (n : Node)
      → (a.can_apply n ≡ ok true → Reverts a (layer_of key) n)
      → (apply_transaction a fee key n).0 ≡ ok false
      → SameView (apply_transaction a fee key n).1 n
  unfolding apply_transaction
  apply_transaction_refused a fee key n h e = elim (answers (a.can_apply n)) [
    | inl can ↦
        let r = h can in
        elim (answers (fee_can_apply a.owner fee r.after)) [
          | inl enough ↦ absurd (ground (arith, e, can, enough, r.applied))
          | inr (inl short) ↦ rw (refused a fee key n r can short) r.same
          | inr (inr (x, f)) ↦ absurd (ground (arith, e, can, f, r.applied))
        ]
    | inr (inl cannot) ↦
        let kept : apply_transaction a fee key n ≡ (ok false, n) = ground (arith, cannot) in
        rw kept (SameView-refl n)
    | inr (inr (x, f)) ↦ absurd (ground (arith, e, f))
  ]

  -- For an action that goes through and can be reverted wherever it is accepted, a transaction that
  -- was applied in the pool (with an empty key) is reverted with success, to a node with the view
  -- from before.
  pub revert-apply_transaction :
      (a : Action) (fee : Coin) (n : Node)
      → (a.can_apply n ≡ ok true → Reverts a pool n)
      → (apply_transaction a fee "" n).0 ≡ ok true
      → (n' : Node) × (revert_transaction a fee "" (apply_transaction a fee "" n).1 ≡ (ok tt, n'))
        × SameView n' n
  unfolding apply_transaction revert_transaction fee_revert
  revert-apply_transaction a fee n h e = elim (answers (a.can_apply n)) [
    | inl can ↦
        let r = h can in
        elim (answers (fee_can_apply a.owner fee r.after)) [
          | inl enough ↦
              rw (accepted a fee n r can enough) (r.back, ground (arith, r.reverted), r.same)
          | inr (inl short) ↦ absurd (ground (arith, e, can, short, r.applied, r.reverted))
          | inr (inr (x, f)) ↦ absurd (ground (arith, e, can, f, r.applied))
        ]
    | inr (inl cannot) ↦ absurd (ground (arith, e, cannot))
    | inr (inr (x, f)) ↦ absurd (ground (arith, e, f))
  ]
