-- ===== src/State/Balances.antt =====
-- The balances after each operation of the state, for every key at once.
use publiq_pp.Base.{
  ℕ, ◌+◌, ◌-◌, ◌<◌, ◌≤◌, ◌≡◌, refl, true, false, ◌&&◌, String, str_eq, eq_iff, if◌then◌else◌, arith,
  Bool-cases, Option-cases, inl, inr,
}
use publiq_pp.Base.Effects.{Result, ok, err, not_enough_balance, ◌>>=◌}
use publiq_pp.Coin.{Coin, zero_coin, empty, add, sub, lt}
use publiq_pp.Coin.Value.{value, IsCoin, capacity, make-fields, lt-value, empty-value}
use publiq_pp.Coin.Arithmetic.{add-value, sub-value}
use publiq_pp.Loaders.{MapLoader}
use publiq_pp.State.{
  State, StateLayer, chain, pool, is_chain, from_message, pair_of, get_balance, coin_or_zero,
  put_amount, set_balance, increase_balance, decrease_balance,
}

empty→zero : (c : Coin) → empty c ≡ true → c ≡ zero_coin
unfolding empty
empty→zero c e = ground arith

module _ ⦃L : MapLoader⦄ where
  open L use {Map, find, insert, update, erase, find-insert, find-update, find-erase}

  -- Whatever branch it takes, a write leaves the amount at its key and the rest alone.
  find-put_amount :
      (k j : String) (a : Coin) (m : Map Coin)
      → coin_or_zero (find (put_amount k a m) j)
        ≡ (if str_eq k j then a else coin_or_zero (find m j))
  unfolding put_amount
  find-put_amount k j a m = elim (Bool-cases (empty a)) [
    | inl e ↦ ground (arith, find-erase m k j, empty→zero a e)
    | inr e ↦ elim (Option-cases (find m k)) [
      | inl new ↦ ground (arith, find-insert m k j a)
      | inr (u, old) ↦ ground (arith, find-update m k j u a)
    ]
  ]

  pub get_balance-set_balance :
      (k j : String) (a : Coin) (layer : StateLayer) (s : State)
      → get_balance j pool (set_balance k a layer s)
        ≡ (if str_eq k j then a else get_balance j pool s)
  unfolding get_balance set_balance
  get_balance-set_balance k j a layer s = ground (arith, find-put_amount k j a s.accounts)

  -- The chain layer keeps the balance of the node's own key, and that alone.
  pub chain_balance-set_balance :
      (k j : String) (a : Coin) (layer : StateLayer) (s : State)
      → get_balance j chain (set_balance k a layer s) ≡ (
          if is_chain layer && str_eq s.front_key k && str_eq k j then a else get_balance j chain s)
  unfolding get_balance set_balance
  chain_balance-set_balance k j a layer s = ground (arith, find-put_amount k j a s.node_accounts)

  -- What an account holds, in fractions.
  abbrev pub worth : String → State → ℕ
  worth j s = value (get_balance j pool s)

  -- Every stored amount is normalised.
  abbrev pub IsNormal : State → Type 0
  IsNormal s = (j : String) → IsCoin (get_balance j pool s)

  -- From `s` to `t` the account `k` now holds `n`, and no other account has changed.
  abbrev pub Holds : String → ℕ → State → State → Type 0
  Holds k n s t = (j : String) → worth j t ≡ (if str_eq k j then n else worth j s)

  set_balance-Holds :
      (k : String) (a : Coin) (layer : StateLayer) (s : State)
      → Holds k (value a) s (set_balance k a layer s)
  set_balance-Holds k a layer s j = ground (arith, get_balance-set_balance k j a layer s)

  set_balance-IsNormal :
      (k : String) (a : Coin) (layer : StateLayer) (s : State)
      → IsCoin a
      → IsNormal s
      → IsNormal (set_balance k a layer s)
  set_balance-IsNormal k a layer s ha h j = elim (Bool-cases (str_eq k j)) [
    | inl e ↦ rw (get_balance-set_balance k j a layer s, e) ha
    | inr e ↦ rw (get_balance-set_balance k j a layer s, e) (h j)
  ]

  same-Holds : (k : String) (n : ℕ) (s : State) → n ≡ worth k s → Holds k n s s
  same-Holds k n s e j = ground (arith, eq_iff k j)

  -- A call that returned, left every amount normalised and the account `k` holding `n`.
  abbrev pub Sets : String → ℕ → State → Result (Unit {0}) × State → Type 0
  Sets k n s (r, t) = (r ≡ ok tt) × IsNormal t × Holds k n s t

  increase_runs :
      (k : String) (a : Coin) (layer : StateLayer) (s : State)
      → IsNormal s
      → empty a ≡ false
      → increase_balance k a layer s ≡ (ok tt, set_balance k (add (get_balance k pool s) a) layer s)
  unfolding increase_balance from_message
  increase_runs k a layer s h e = rw (e, make-fields (get_balance k pool s) (h k), ◌>>=◌)

  -- An increase that fits adds exactly the amount to the one account.
  pub increase_balance_lem :
      (k : String) (a : Coin) (layer : StateLayer) (s : State)
      → IsNormal s
      → IsCoin a
      → worth k s + value a < capacity
      → Sets k (worth k s + value a) s (increase_balance k a layer s)
  unfolding increase_balance
  increase_balance_lem k a layer s h ha fits = elim (Bool-cases (empty a)) [
    | inl e ↦ rw e (refl, h, same-Holds k _ s (ground (arith, empty-value a)))
    | inr e ↦
        let (hc, vc) = add-value (get_balance k pool s) a (h k) ha fits in
        rw (increase_runs k a layer s h e) (
          refl,
          set_balance-IsNormal k _ layer s hc h,
          rw (← vc) (set_balance-Holds k (add (get_balance k pool s) a) layer s),
        )
  ]

  decrease_runs :
      (k : String) (a c : Coin) (layer : StateLayer) (s : State)
      → IsNormal s
      → empty a ≡ false
      → lt (get_balance k pool s) a ≡ false
      → sub (get_balance k pool s) a ≡ ok c
      → decrease_balance k a layer s ≡ (ok tt, set_balance k c layer s)
  unfolding decrease_balance from_message
  decrease_runs k a c layer s h e enough d =
      rw (e, make-fields (get_balance k pool s) (h k), ◌>>=◌, enough, d)

  -- In a state with normalised amounts, a decrease that the balance covers returns, keeps the
  -- amounts normalised, takes exactly the amount from the one account and leaves the others.
  pub decrease_balance_lem :
      (k : String) (a : Coin) (layer : StateLayer) (s : State)
      → IsNormal s
      → IsCoin a
      → value a ≤ worth k s
      → Sets k (worth k s - value a) s (decrease_balance k a layer s)
  unfolding decrease_balance
  decrease_balance_lem k a layer s h ha enough = elim (Bool-cases (empty a)) [
    | inl e ↦ rw e (refl, h, same-Holds k _ s (ground (arith, empty-value a)))
    | inr e ↦
        let (c, d, hc, vc) = sub-value (get_balance k pool s) a (h k) ha enough in
        let left : worth k s - value a ≡ value c = omega arith in
        rw
          (decrease_runs k a c layer s h e
            (ground (arith, lt-value (get_balance k pool s) a (h k) ha)) d)
          (refl, set_balance-IsNormal k c layer s hc h, rw left (set_balance-Holds k c layer s))
  ]

  -- One that is not covered throws, names both amounts, and changes nothing.
  pub decrease_balance_short :
      (k : String) (a : Coin) (layer : StateLayer) (s : State)
      → IsNormal s
      → IsCoin a
      → worth k s < value a
      → decrease_balance k a layer s
        ≡ (err (not_enough_balance k (pair_of (get_balance k pool s)) (pair_of a)), s)
  unfolding decrease_balance from_message
  decrease_balance_short k a layer s h ha short =
      let some_amount : empty a ≡ false = ground (arith, empty-value a) in
      let below : lt (get_balance k pool s) a ≡ true =
        ground (arith, lt-value (get_balance k pool s) a (h k) ha) in
      rw (some_amount, make-fields (get_balance k pool s) (h k), ◌>>=◌, below)

  pub increase-roles :
      (k : String) (a : Coin) (layer : StateLayer) (s : State)
      → (increase_balance k a layer s).1.roles ≡ s.roles
  unfolding increase_balance
  increase-roles k a layer s = ground arith

  pub decrease-roles :
      (k : String) (a : Coin) (layer : StateLayer) (s : State)
      → (decrease_balance k a layer s).1.roles ≡ s.roles
  unfolding decrease_balance
  decrease-roles k a layer s = ground arith
