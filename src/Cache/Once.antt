-- ===== src/Cache/Once.antt =====
-- No operation of the cache makes it hold a key twice.
use publiq_pp.Base.{ℕ, Bool, true, List, [], ◌∷◌, String, is_some, Bool-cases, inl, inr}
use publiq_pp.Base.Dict.{Dict, lookup, insert, erase}
use publiq_pp.Base.Effects.{Result, ok, err, Eff, ◌>>=◌, ◌>>◌, pure}
use publiq_pp.Node.{Authority, SignedTransaction}
use publiq_pp.Cache.{
  Entry, Cache, signed_by_one, entry_of, any_known, insert_new, insert_each, several, add_chain,
  erase_each, erase_chain, add_pool, erase_pool, clean,
}
use publiq_pp.Cache.Lifetime.{
  HasKeysOnce, HasKeysOnce-assign, HasKeysOnce-erase, HasKeysOnce-drop_old,
}

Keeps : {A : Type 0} → Eff Cache A → Type 0
Keeps m = (c : Cache) → HasKeysOnce c.data_map → HasKeysOnce (m c).1.data_map

after-Keeps :
    {A B : Type 0} (f : A → Eff Cache B)
    → ((a : A) → Keeps (f a))
    → (r : Result A × Cache) → HasKeysOnce r.1.data_map
    → HasKeysOnce
        (elim r.0 as (λ x. Result B × Cache) [ ok a ↦ f a r.1 | err e ↦ (err e, r.1) ]).1.data_map
unfolding Keeps
after-Keeps f k (ok a, c) h = k a c h
after-Keeps f k (err e, c) h = h

Keeps-bind :
    {A B : Type 0} (m : Eff Cache A) (f : A → Eff Cache B)
    → Keeps m
    → ((a : A) → Keeps (f a))
    → Keeps (m >>= f)
unfolding Keeps
Keeps-bind m f h k c once = after-Keeps f k (m c) (h c once)

module _ (key : SignedTransaction → String) where
  insert_new-Keeps : (k : String) (e : Entry) → Keeps (insert_new key k e)
  unfolding insert_new Keeps
  insert_new-Keeps k e c h = elim (Bool-cases (is_some (lookup k c.data_map))) [
    | inl p ↦ rw p h
    | inr p ↦ rw p (HasKeysOnce-assign k e c.data_map h)
  ]

  insert_each-Keeps :
      (st : SignedTransaction) (as' : List Authority) → Keeps (insert_each key st as')
  unfolding insert_each Keeps
  insert_each-Keeps st [] c h = h
  insert_each-Keeps st (a ∷ as') c h =
      Keeps-bind (insert_new key (key (signed_by_one st a)) (entry_of key st true))
        (λ u. insert_each key st as')
        (insert_new-Keeps (key (signed_by_one st a)) (entry_of key st true))
        (λ u. insert_each-Keeps st as') c h

  erase_each-keeps :
      (st : SignedTransaction) (as' : List Authority) (d : Dict Entry)
      → HasKeysOnce d
      → HasKeysOnce (erase_each key st as' d)
  unfolding erase_each
  erase_each-keeps st [] d h = h
  erase_each-keeps st (a ∷ as') d h =
      erase_each-keeps st as' (erase (key (signed_by_one st a)) d)
        (HasKeysOnce-erase (key (signed_by_one st a)) d h)

  add_chain-Keeps : (st : SignedTransaction) → Keeps (add_chain key st)
  unfolding add_chain Keeps
  add_chain-Keeps st c h = elim (Bool-cases (is_some (lookup (key st) c.data_map))) [
    | inl p ↦ rw p h
    | inr p ↦ elim (Bool-cases (any_known key st (several st.authorizations) c.data_map)) [
      | inl q ↦ rw (p, q) h
      | inr q ↦
          rw (p, q)
            (Keeps-bind
              (insert_each key st (several st.authorizations)
                >> insert_new key (key st) (entry_of key st true))
              (λ u. pure true)
              (Keeps-bind (insert_each key st (several st.authorizations))
                (λ u. insert_new key (key st) (entry_of key st true))
                (insert_each-Keeps st (several st.authorizations))
                (λ u. insert_new-Keeps (key st) (entry_of key st true)))
              (λ u c' h'. h') c h)
    ]
  ]

  -- Every operation that adds to the cache or removes from it, `add_chain` also where it throws,
  -- keeps that no key is there twice.
  pub cache_keeps_keys_once :
      (st : SignedTransaction) (complete : Bool) (now : ℕ) (c : Cache)
      → HasKeysOnce c.data_map
      → HasKeysOnce (add_chain key st c).1.data_map
        × HasKeysOnce (erase_chain key st c).data_map
        × HasKeysOnce (add_pool key st complete c).1.data_map
        × HasKeysOnce (erase_pool key st c).1.data_map
        × HasKeysOnce (clean now c).data_map
  unfolding erase_chain add_pool erase_pool clean insert Keeps
  cache_keeps_keys_once st complete now c h = (
    add_chain-Keeps st c h,
    erase_each-keeps st (several st.authorizations) (erase (key st) c.data_map)
        (HasKeysOnce-erase (key st) c.data_map h),
    elim (Bool-cases (is_some (lookup (key st) c.data_map))) [
      | inl p ↦ rw p h
      | inr p ↦ rw p (HasKeysOnce-assign (key st) (entry_of key st complete) c.data_map h)
    ],
    HasKeysOnce-erase (key st) c.data_map h,
    HasKeysOnce-drop_old now c.data_map h,
  )
