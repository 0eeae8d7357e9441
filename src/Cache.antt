-- ===== src/Cache.antt =====
-- src/libblockchain/node_internals.hpp, `class transaction_cache`: the hashes of the transactions that
-- are in the pool or on the chain, so that none is taken twice. `std::unordered_map` is an
-- association list; `meshpp::hash` of a transaction's text is the parameter `key`.
pub mod Chain
pub mod Lifetime
pub mod Once
use publiq_pp.Base.{
  ℕ, ◌+◌, ◌*◌, Bool, true, false, List, [], ◌∷◌, String, if◌then◌else◌, ltb, length, is_some,
  Option, none, some,
}
use publiq_pp.Base.Dict.{Dict, lookup, assign, insert, erase}
use publiq_pp.Base.Effects.{assertion_failed, Result, ok, err, Eff, ◌>>=◌, ◌>>◌, pure, gets}
use publiq_pp.Node.{Authority, SignedTransaction}

-- `data_type`, the time in seconds
pub record Entry : Type 0 where
  pub complete : Bool
  pub tp : ℕ

pub record Cache : Type 0 where
  pub data_map : Dict Entry
  pub data_backup : Dict Entry

-- `TRANSACTION_MAX_LIFETIME_HOURS` and `NODES_TIME_SHIFT` of common.hpp, in seconds together
abbrev pub max_age : ℕ
max_age = 24 * 3600 + 60

abbrev pub signed_by_one : SignedTransaction → Authority → SignedTransaction
signed_by_one st a = record st { authorizations = a ∷ [] }

pub drop_old : ℕ → Dict Entry → Dict Entry
drop_old now [] = []
drop_old now ((k, e) ∷ d) =
    if ltb (e.tp + max_age) now then drop_old now d else (k, e) ∷ drop_old now d

unfoldable pub clean : ℕ → Cache → Cache
unfolding drop_old
clean now c = record c { data_map = drop_old now c.data_map }

unfoldable pub backup : Cache → Cache
backup c = record c { data_backup = c.data_map }

-- `left` is what the moved map is left with.
unfoldable pub restore : Dict Entry → Cache → Cache
restore left c = record { data_map = c.data_backup; data_backup = left }

-- the authorizations that the loops walk: none for one signer alone
abbrev pub several : List Authority → List Authority
several as' = if ltb 1 (length as') then as' else []

module _ (key : SignedTransaction → String) where
  abbrev pub entry_of : SignedTransaction → Bool → Entry
  entry_of st complete = record { complete = complete; tp = st.creation }

  unfoldable pub any_known : SignedTransaction → List Authority → Dict Entry → Bool
  unfolding lookup
  any_known st [] d = false
  any_known st (a ∷ as') d =
      if is_some (lookup (key (signed_by_one st a)) d) then true else any_known st as' d

  -- `data.insert`, which is asserted to insert
  insert_new : String → Entry → Eff Cache (Unit {0})
  unfolding lookup assign
  insert_new k e c =
      if is_some (lookup k c.data_map)
      then (err assertion_failed, c)
      else (ok tt, record c { data_map = assign k e c.data_map })

  insert_each : SignedTransaction → List Authority → Eff Cache (Unit {0})
  unfolding insert_new
  insert_each st [] = pure tt
  insert_each st (a ∷ as') =
      insert_new (key (signed_by_one st a)) (entry_of st true) >> insert_each st as'

  unfoldable pub add_chain : SignedTransaction → Eff Cache Bool
  unfolding any_known insert_each
  add_chain st c =
      if is_some (lookup (key st) c.data_map)
      then (ok false, c)
      else if any_known st (several st.authorizations) c.data_map
      then (ok false, c)
      else (insert_each st (several st.authorizations)
            >> insert_new (key st) (entry_of st true)
            >> pure true)
          c

  erase_each : SignedTransaction → List Authority → Dict Entry → Dict Entry
  unfolding erase
  erase_each st [] d = d
  erase_each st (a ∷ as') d = erase_each st as' (erase (key (signed_by_one st a)) d)

  unfoldable pub erase_chain : SignedTransaction → Cache → Cache
  unfolding erase_each
  erase_chain st c = record c {
    data_map = erase_each st (several st.authorizations) (erase (key st) c.data_map);
  }

  unfoldable pub add_pool : SignedTransaction → Bool → Cache → Bool × Cache
  add_pool st complete c = (
    if is_some (lookup (key st) c.data_map) then false else true,
    record c { data_map = insert (key st) (entry_of st complete) c.data_map },
  )

  abbrev was_complete : Option Entry → Bool
  was_complete none = false
  was_complete (some e) = e.complete

  unfoldable pub erase_pool : SignedTransaction → Cache → Bool × Cache
  erase_pool st c =
      (was_complete (lookup (key st) c.data_map), record c { data_map = erase (key st) c.data_map })

  unfoldable pub contains : SignedTransaction → Cache → Bool
  contains st c = is_some (lookup (key st) c.data_map)
