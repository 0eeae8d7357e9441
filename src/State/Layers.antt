-- ===== src/State/Layers.antt =====
-- src/libblockchain/state.cpp: the balance that the chain layer keeps of the node's own key, beside
-- the balances of all accounts that the pool layer has.
use publiq_pp.Base.{
  ◌≡◌, refl, ◌∙◌, true, ◌&&◌, String, str_eq, eq_iff, eq_refl, if◌then◌else◌, arith, Bool-cases,
  inl, inr,
}
use publiq_pp.Base.Effects.{Result, ok, err, Eff, ◌>>=◌, ◌>>◌, Result-cases}
use publiq_pp.Coin.{Coin, empty, lt, add, sub}
use publiq_pp.Loaders.{MapLoader}
use publiq_pp.State.{
  State, StateLayer, chain, pool, is_chain, from_message, get_balance, set_balance,
  increase_balance, decrease_balance,
}
use publiq_pp.State.Balances.{get_balance-set_balance, chain_balance-set_balance}

module _ ⦃L : MapLoader⦄ where
  -- For work at the chain layer: the balance that it has of the node's own key is the one of the
  -- pool layer, to which `revert_pool` of communication_p2p.cpp sets it.
  abbrev pub IsSynced : StateLayer → State → Type 0
  IsSynced layer s =
      is_chain layer ≡ true → get_balance s.front_key chain s ≡ get_balance s.front_key pool s

  -- From `s` to `u` the chain layer has followed the pool layer for the node's own key, if the work
  -- was at the chain layer, and has otherwise stayed.
  pub record Follows (layer : StateLayer) (s u : State) : Type 0 where
    pub own_key : u.front_key ≡ s.front_key
    pub balances :
        (j : String)
        → get_balance j chain u ≡ (
            if is_chain layer && str_eq s.front_key j
            then get_balance j pool u
            else get_balance j chain s)

  pub Follows-refl : (layer : StateLayer) (s : State) → IsSynced layer s → Follows layer s s
  Follows-refl layer s h = record {
    own_key = refl;
    balances = λ j. ground (arith, h, eq_iff s.front_key j);
  }

  Follows-set_balance :
      (k : String) (a : Coin) (layer : StateLayer) (s : State)
      → IsSynced layer s
      → Follows layer s (set_balance k a layer s)
  unfolding set_balance
  Follows-set_balance k a layer s h = record {
    own_key = ground arith;
    balances = λ j. ground (
      arith,
      h,
      chain_balance-set_balance k j a layer s,
      get_balance-set_balance k j a layer s,
      eq_iff s.front_key j,
      eq_iff s.front_key k,
      eq_iff k j,
    );
  }

  pub Follows-IsSynced : (layer : StateLayer) (s u : State) → Follows layer s u → IsSynced layer u
  Follows-IsSynced layer s u f c =
      rw f.own_key (ground (arith, c, f.balances s.front_key, eq_refl s.front_key))

  pub Follows-trans :
      (layer : StateLayer) (s u w : State)
      → Follows layer s u
      → Follows layer u w
      → Follows layer s w
  Follows-trans layer s u w f g = record {
    own_key = g.own_key ∙ f.own_key;
    balances = λ j. ground (arith, f.own_key, f.balances j, g.balances j);
  }

  pub Follows-increase :
      (k : String) (a : Coin) (layer : StateLayer) (s : State)
      → IsSynced layer s
      → Follows layer s (increase_balance k a layer s).1
  unfolding increase_balance
  Follows-increase k a layer s h = elim (Bool-cases (empty a)) [
    | inl e ↦ rw e (Follows-refl layer s h)
    | inr e ↦ elim (Result-cases (from_message (get_balance k pool s))) [
      | inl (c, p) ↦ rw (e, p, ◌>>=◌) (Follows-set_balance k (add c a) layer s h)
      | inr (x, p) ↦ rw (e, p, ◌>>=◌) (Follows-refl layer s h)
    ]
  ]

  pub Follows-decrease :
      (k : String) (a : Coin) (layer : StateLayer) (s : State)
      → IsSynced layer s
      → Follows layer s (decrease_balance k a layer s).1
  unfolding decrease_balance
  Follows-decrease k a layer s h = elim (Bool-cases (empty a)) [
    | inl e ↦ rw e (Follows-refl layer s h)
    | inr e ↦ elim (Result-cases (from_message (get_balance k pool s))) [
      | inr (x, p) ↦ rw (e, p, ◌>>=◌) (Follows-refl layer s h)
      | inl (c, p) ↦ elim (Bool-cases (lt c a)) [
        | inl q ↦ rw (e, p, ◌>>=◌, q) (Follows-refl layer s h)
        | inr q ↦ elim (Result-cases (sub c a)) [
          | inl (d, r) ↦ rw (e, p, ◌>>=◌, q, r) (Follows-set_balance k d layer s h)
          | inr (x, r) ↦ rw (e, p, ◌>>=◌, q, r) (Follows-refl layer s h)
        ]
      ]
    ]
  ]

  -- Back to where every pool balance is as before, the chain layer is as before too.
  pub Follows-back :
      (layer : StateLayer) (s u : State)
      → IsSynced layer s
      → Follows layer s u
      → ((k : String) → get_balance k pool u ≡ get_balance k pool s)
      → (k : String) → get_balance k chain u ≡ get_balance k chain s
  Follows-back layer s u h f same k = ground (arith, h, f.balances k, same k, eq_iff s.front_key k)

  then-Follows :
      (layer : StateLayer) (s : State) (f : Eff State (Unit {0}))
      → ((u : State) → IsSynced layer u → Follows layer u (f u).1)
      → (r : Result (Unit {0}) × State) → Follows layer s r.1
      → Follows layer s
          (elim r.0 as (λ x. Result (Unit {0}) × State) [ ok a ↦ f r.1 | err e ↦ (err e, r.1) ]).1
  then-Follows layer s f k (ok a, u) h =
      Follows-trans layer s u (f u).1 h (k u (Follows-IsSynced layer s u h))
  then-Follows layer s f k (err e, u) h = h

  -- A credit and then a debit, and a debit and then a credit, keep following.
  pub Follows-pay :
      (from to : String) (a : Coin) (layer : StateLayer) (s : State)
      → IsSynced layer s
      → Follows layer s ((increase_balance to a layer >> decrease_balance from a layer) s).1
  Follows-pay from to a layer s h =
      then-Follows layer s (decrease_balance from a layer)
        (λ u k. Follows-decrease from a layer u k) (increase_balance to a layer s)
        (Follows-increase to a layer s h)

  pub Follows-refund :
      (from to : String) (a : Coin) (layer : StateLayer) (s : State)
      → IsSynced layer s
      → Follows layer s ((decrease_balance to a layer >> increase_balance from a layer) s).1
  Follows-refund from to a layer s h =
      then-Follows layer s (increase_balance from a layer)
        (λ u k. Follows-increase from a layer u k) (decrease_balance to a layer s)
        (Follows-decrease to a layer s h)
