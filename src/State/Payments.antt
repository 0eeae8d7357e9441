-- ===== src/State/Payments.antt =====
-- A payment from one account to another, as the increase and the decrease that it is made of, and
-- the sum of balances.
use publiq_pp.Base.{
  ℕ, ◌+◌, ◌-◌, ◌<◌, ◌≤◌, ◌≡◌, ◌≢◌, refl, sym, ◌∙◌, List, [], ◌∷◌, String, str_eq, eq_iff, eq_refl,
  if◌then◌else◌, arith,
}
use publiq_pp.Base.Texts.{contains, Distinct}
use publiq_pp.Base.Effects.{Result, ok, ◌>>=◌, ◌>>◌}
use publiq_pp.Coin.{Coin}
use publiq_pp.Coin.Value.{value, IsCoin, capacity, value_injective, value-lt-capacity}
use publiq_pp.Loaders.{MapLoader}
use publiq_pp.State.{
  State, StateLayer, pool, get_balance, get_role, increase_balance, decrease_balance,
}
use publiq_pp.State.Balances.{
  worth, IsNormal, increase_balance_lem, decrease_balance_lem, increase-roles, decrease-roles,
}

module _ ⦃L : MapLoader⦄ where
  -- One account has paid the amount to another; every other balance is as it was.
  abbrev pub Pays : String → String → ℕ → State → State → Type 0
  Pays from to x s u =
      (j : String)
      → worth j u ≡ (
          if str_eq from j then worth j s - x else if str_eq to j then worth j s + x else worth j s)

  abbrev pub Paid : String → String → ℕ → State → Result (Unit {0}) × State → Type 0
  Paid from to x s (r, u) = (r ≡ ok tt) × IsNormal u × Pays from to x s u

  -- In a state with normalised amounts, an increase of one account that has room and then a
  -- decrease by the same normalised amount of another that covers it both return, keep the amounts
  -- normalised, and move exactly the amount.
  pub pay_lem :
      (from to : String) (a : Coin) (layer : StateLayer) (s : State)
      → IsNormal s
      → IsCoin a
      → from ≢ to
      → value a ≤ worth from s
      → worth to s + value a < capacity
      → Paid from to (value a) s ((increase_balance to a layer >> decrease_balance from a layer) s)
  pay_lem from to a layer s h ha ne enough fits =
      let up = increase_balance_lem to a layer s h ha fits in
      let s1 : State = (increase_balance to a layer s).1 in
      let there : worth from s1 ≡ worth from s = ground (arith, up.2 from, eq_iff to from) in
      let down = decrease_balance_lem from a layer s1 up.1 ha (omega arith) in
      rw (up.0, ◌>>=◌)
        (down.0, down.1, λ j. ground (arith, up.2 j, down.2 j, eq_iff to j, eq_iff from j))

  pay-roles :
      (from to : String) (a : Coin) (layer : StateLayer) (s : State) (k : String)
      → get_role k ((increase_balance to a layer >> decrease_balance from a layer) s).1
        ≡ get_role k s
  unfolding get_role
  pay-roles from to a layer s k = ground (
    arith,
    increase-roles to a layer s,
    decrease-roles from a layer (increase_balance to a layer s).1,
  )

  -- Paid back, every account holds at the pool layer the coin that it held, and the roles were never
  -- touched.
  pub pay_back :
      (from to : String) (a : Coin) (layer : StateLayer) (s : State)
      → IsNormal s
      → IsCoin a
      → from ≢ to
      → value a ≤ worth from s
      → worth to s + value a < capacity
      → let u = ((increase_balance to a layer >> decrease_balance from a layer) s).1 in
        let r = (increase_balance from a layer >> decrease_balance to a layer) u in
        (r.0 ≡ ok tt)
        × ((k : String) → get_balance k pool r.1 ≡ get_balance k pool s)
        × ((k : String) → get_role k r.1 ≡ get_role k s)
  pay_back from to a layer s h ha ne enough fits =
      let (e, hu, there) = pay_lem from to a layer s h ha ne enough fits in
      let u : State = ((increase_balance to a layer >> decrease_balance from a layer) s).1 in
      let paid : worth from u ≡ worth from s - value a = ground (arith, there from, eq_refl from) in
      let got : worth to u ≡ worth to s + value a =
        ground (arith, there to, eq_refl to, eq_iff from to) in
      let top = value-lt-capacity (get_balance from pool s) (h from) in
      let (e', hr, back) =
        pay_lem to from a layer u hu ha (λ p. ne (sym p)) (omega arith) (omega arith) in
      (
        e',
        λ k.
            value_injective _ _ (hr k) (h k)
              (ground (arith, there k, back k, eq_iff from k, eq_iff to k)),
        λ k. pay-roles to from a layer u k ∙ pay-roles from to a layer s k,
      )

  -- The sum of the worths of the listed accounts.
  abbrev pub total : List String → State → ℕ
  total [] s = 0
  total (k ∷ ks) s = worth k s + total ks s

  pub total-Pays :
      (from to : String) (x : ℕ) (s u : State) (ks : List String)
      → from ≢ to
      → x ≤ worth from s
      → Distinct ks
      → Pays from to x s u
      → total ks u + (if contains from ks then x else 0)
        ≡ total ks s + (if contains to ks then x else 0)
  unfolding contains
  total-Pays from to x s u [] ne enough d h = refl
  total-Pays from to x s u (k ∷ ks) ne enough d h = ground (
    arith,
    h k,
    eq_iff from k,
    eq_iff to k,
    eq_iff k from,
    eq_iff k to,
    total-Pays from to x s u ks ne enough d.1 h,
  )
