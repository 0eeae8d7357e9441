-- ===== src/Cache/Chain.antt =====
-- Transactions of the chain in the cache, and transactions of the pool.
use publiq_pp.Base.{
  ◌≡◌, refl, ap, ◌∙◌, Bool, true, false, none, some, List, [], ◌∷◌, String, eq_iff, eq_refl,
  if◌then◌else◌, is_some, arith,
}
use publiq_pp.Base.Dict.{Dict, lookup, assign, insert, erase, lookup-assign, lookup-erase}
use publiq_pp.Base.Texts.{contains as listed, Distinct}
use publiq_pp.Base.Effects.{Result, ok, err}
use publiq_pp.Node.{Authority, SignedTransaction}
use publiq_pp.Cache.{
  Entry, Cache, signed_by_one, entry_of, any_known, insert_new, insert_each, several, add_chain,
  erase_each, erase_chain, add_pool, erase_pool, contains,
}

module _ (key : SignedTransaction → String) where
  -- The keys of the transaction signed by each one of the signers alone.
  abbrev pub sub_keys : SignedTransaction → List Authority → List String
  sub_keys st [] = []
  sub_keys st (a ∷ as') = key (signed_by_one st a) ∷ sub_keys st as'

  -- All keys under which the chain knows a transaction.
  abbrev pub keys_of : SignedTransaction → List String
  keys_of st = key st ∷ sub_keys st (several st.authorizations)

  any_known-lookup :
      (st : SignedTransaction) (as' : List Authority) (d : Dict Entry) (k : String)
      → any_known key st as' d ≡ false
      → listed k (sub_keys st as') ≡ true
      → lookup k d ≡ none
  unfolding any_known listed
  any_known-lookup st [] d k e h = absurd (ground arith)
  any_known-lookup st (a ∷ as') d k e h =
      ground (arith, any_known-lookup st as' d k, eq_iff (key (signed_by_one st a)) k)

  known :
      (st : SignedTransaction) (as' : List Authority) (d : Dict Entry) (a : String) (e : Entry)
      → listed a (sub_keys st as') ≡ true
      → lookup a d ≡ some e
      → any_known key st as' d ≡ true
  unfolding any_known listed
  known st [] d k e h f = absurd (ground arith)
  known st (a ∷ as') d k e h f =
      ground (arith, known st as' d k e, eq_iff (key (signed_by_one st a)) k)

  -- A call that returned, and gave the keys of the list the entry.
  abbrev Adds : List String → Entry → Dict Entry → Result (Unit {0}) × Cache → Type 0
  Adds ks e d (r, c) =
      (r ≡ ok tt)
      × ((k : String) → lookup k c.data_map ≡ (if listed k ks then some e else lookup k d))

  any_known-assign :
      (st : SignedTransaction) (as' : List Authority) (k : String) (e : Entry) (d : Dict Entry)
      → listed k (sub_keys st as') ≡ false
      → any_known key st as' (assign k e d) ≡ any_known key st as' d
  unfolding any_known listed
  any_known-assign st [] k e d h = refl
  any_known-assign st (a ∷ as') k e d h = ground (
    arith,
    lookup-assign k (key (signed_by_one st a)) e d,
    eq_iff k (key (signed_by_one st a)),
    eq_iff (key (signed_by_one st a)) k,
    any_known-assign st as' k e d,
  )

  insert_each_step :
      (st : SignedTransaction) (a : Authority) (as' : List Authority) (c c1 : Cache)
      → insert_new key (key (signed_by_one st a)) (entry_of key st true) c ≡ (ok tt, c1)
      → insert_each key st (a ∷ as') c ≡ insert_each key st as' c1
  unfolding insert_each
  insert_each_step st a as' c c1 e =
      ap
        (λ (r : Result (Unit {0}) × Cache). elim r.0 [
          | ok u ↦ insert_each key st as' r.1
          | err x ↦ (err x, r.1)
        ])
        e

  insert_each_lem :
      (st : SignedTransaction) (as' : List Authority) (c : Cache)
      → any_known key st as' c.data_map ≡ false
      → Distinct (sub_keys st as')
      → Adds (sub_keys st as') (entry_of key st true) c.data_map (insert_each key st as' c)
        × ((insert_each key st as' c).1.data_backup ≡ c.data_backup)
  unfolding insert_each insert_new any_known listed
  insert_each_lem st [] c e d = ((refl, λ k. refl), refl)
  insert_each_lem st (a ∷ as') c e d =
      let k : String = key (signed_by_one st a) in
      let c1 : Cache = record c { data_map = assign k (entry_of key st true) c.data_map } in
      let new : is_some (lookup k c.data_map) ≡ false = ground arith in
      let rest : any_known key st as' c.data_map ≡ false = ground arith in
      let unknown = any_known-assign st as' k (entry_of key st true) c.data_map d.0 in
      let ((done, adds), kept) = insert_each_lem st as' c1 (unknown ∙ rest) d.1 in
      let runs : insert_new key k (entry_of key st true) c ≡ (ok tt, c1) = ground arith in
      rw (insert_each_step st a as' c c1 runs) (
        (done, λ j. ground (arith, adds j, lookup-assign k j (entry_of key st true) c.data_map)),
        kept,
      )

  erase_each_lem :
      (st : SignedTransaction) (as' : List Authority) (d : Dict Entry) (k : String)
      → lookup k (erase_each key st as' d)
        ≡ (if listed k (sub_keys st as') then none else lookup k d)
  unfolding erase_each listed
  erase_each_lem st [] d k = refl
  erase_each_lem st (a ∷ as') d k = ground (
    arith,
    erase_each_lem st as' (erase (key (signed_by_one st a)) d) k,
    lookup-erase (key (signed_by_one st a)) k d,
  )

  -- None of the keys of the transaction is known.
  abbrev pub IsNew : SignedTransaction → Cache → Type 0
  IsNew st c =
      (lookup (key st) c.data_map ≡ none)
      × (any_known key st (several st.authorizations) c.data_map ≡ false)

  -- A transaction of which no key is known, and whose keys are distinct, goes into the cache for
  -- the chain under exactly its keys: its own, and for several signers that of each signer alone.
  pub add_chain_lem :
      (st : SignedTransaction) (c : Cache)
      → Distinct (keys_of st)
      → IsNew st c
      → ((add_chain key st c).0 ≡ ok true)
        × ((k : String)
            → lookup k (add_chain key st c).1.data_map ≡ (
                if listed k (keys_of st) then some (entry_of key st true) else lookup k c.data_map))
  unfolding add_chain listed insert_new
  add_chain_lem st c d new =
      let as' : List Authority = several st.authorizations in
      let ((done, adds), kept) = insert_each_lem st as' c new.1 d.1 in
      let c1 : Cache = (insert_each key st as' c).1 in
      let absent : lookup (key st) c1.data_map ≡ none = ground (arith, adds (key st), d.0, new.0) in
      let c2 : Cache = record c1 {
        data_map = assign (key st) (entry_of key st true) c1.data_map;
      } in
      let runs : add_chain key st c ≡ (ok true, c2) = ground (arith, new.0, new.1, done, absent) in
      rw runs (
        refl,
        λ k. ground (arith, adds k, lookup-assign (key st) k (entry_of key st true) c1.data_map),
      )

  -- A transaction of which some key is known is refused, and the cache stays as it is.
  pub add_chain_refused :
      (st : SignedTransaction) (c : Cache) (k : String) (e : Entry)
      → listed k (keys_of st) ≡ true
      → lookup k c.data_map ≡ some e
      → add_chain key st c ≡ (ok false, c)
  unfolding add_chain listed
  add_chain_refused st c k e h f =
      ground (arith, known st (several st.authorizations) c.data_map k e, eq_iff (key st) k)

  -- Erasing a transaction that was added, when none of its distinct keys was known, gives back what
  -- the cache had before at every key.
  pub erase_chain-add_chain :
      (st : SignedTransaction) (c : Cache) (k : String)
      → Distinct (keys_of st)
      → IsNew st c
      → lookup k (erase_chain key st (add_chain key st c).1).data_map ≡ lookup k c.data_map
  unfolding erase_chain listed
  erase_chain-add_chain st c k d new =
      let added = add_chain_lem st c d new in
      let c1 : Cache = (add_chain key st c).1 in
      ground (
        arith,
        added.1 k,
        erase_each_lem st (several st.authorizations) (erase (key st) c1.data_map) k,
        lookup-erase (key st) k c1.data_map,
        eq_iff (key st) k,
        new.0,
        any_known-lookup st (several st.authorizations) c.data_map k new.1,
      )

  -- A transaction that is not known goes into the pool and is known then; erasing it tells whether
  -- it was complete and gives back what the cache had before at every key.
  pub erase_pool-add_pool :
      (st : SignedTransaction) (complete : Bool) (c : Cache)
      → contains key st c ≡ false
      → let taken = add_pool key st complete c in
        let erased = erase_pool key st taken.1 in
        (taken.0 ≡ true)
        × (contains key st taken.1 ≡ true)
        × (erased.0 ≡ complete)
        × ((k : String) → lookup k erased.1.data_map ≡ lookup k c.data_map)
  unfolding add_pool erase_pool contains insert
  erase_pool-add_pool st complete c new =
      let e : Entry = entry_of key st complete in
      let here = lookup-assign (key st) (key st) e c.data_map in
      (
        ground arith,
        ground (arith, here, eq_refl (key st)),
        ground (arith, here, eq_refl (key st)),
        λ k. ground (
          arith,
          lookup-erase (key st) k (assign (key st) e c.data_map),
          lookup-assign (key st) k e c.data_map,
          eq_iff (key st) k,
        ),
      )
