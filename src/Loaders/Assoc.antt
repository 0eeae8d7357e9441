-- ===== src/Loaders/Assoc.antt =====
-- A map loader kept in memory: the assumptions on the loaders can be met.
use publiq_pp.Base.{[], ◌∷◌, map, ◌≡◌, refl, String, is_some, arith}
use publiq_pp.Base.Texts.{contains}
use publiq_pp.Base.Dict.{Dict, lookup, assign, erase, lookup-assign, lookup-erase}
use publiq_pp.Loaders.{MapLoader}

pub contains-keys_lem :
    {V : Type 0} (m : Dict V) (k : String)
    → contains k (map (λ (e : String × V). e.0) m) ≡ is_some (lookup k m)
unfolding contains lookup
contains-keys_lem [] k = refl
contains-keys_lem ((j, v) ∷ m) k = ground (arith, contains-keys_lem m k)

instance abbrev pub assoc_loader : MapLoader
assoc_loader = record {
  Map = Dict;
  find = λ m k. lookup k m;
  insert = λ m k v. assign k v m;
  update = λ m k v. assign k v m;
  erase = λ m k. erase k m;
  keys = λ m. map (λ e. e.0) m;
  find-insert = λ m k j v _. lookup-assign k j v m;
  find-update = λ m k j u v _. lookup-assign k j v m;
  find-erase = λ m k j. lookup-erase k j m;
  contains-keys = contains-keys_lem;
}
