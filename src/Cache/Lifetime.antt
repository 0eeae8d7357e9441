-- ===== src/Cache/Lifetime.antt =====
-- Old entries of the cache, and its backup.
use publiq_pp.Base.{
  ℕ, ◌+◌, ◌≡◌, refl, Option, none, some, [], ◌∷◌, String, eq_iff, if◌then◌else◌, ltb, arith,
}
use publiq_pp.Base.{Bool-cases, inl, inr, str_eq}
use publiq_pp.Base.Dict.{Dict, lookup, assign, erase, lookup-assign, lookup-erase}
use publiq_pp.Cache.{Entry, Cache, max_age, drop_old, clean, backup, restore}

-- No key is twice in a map.
abbrev pub HasKeysOnce : Dict Entry → Type 0
HasKeysOnce [] = Unit {0}
HasKeysOnce ((k, e) ∷ d) = (lookup k d ≡ none) × HasKeysOnce d

abbrev pub unless_old : ℕ → Option Entry → Option Entry
unless_old now none = none
unless_old now (some e) = if ltb (e.tp + max_age) now then none else some e

drop_old_lem :
    (now : ℕ) (d : Dict Entry) (k : String)
    → HasKeysOnce d
    → lookup k (drop_old now d) ≡ unless_old now (lookup k d)
unfolding drop_old lookup
drop_old_lem now [] k h = refl
drop_old_lem now ((j, e) ∷ d) k h = ground (arith, drop_old_lem now d k h.1, eq_iff j k, h.0)

-- In a cache with no key twice, cleaning drops exactly the entries that are older than the longest
-- lifetime and the shift between nodes, and keeps the others.
pub clean_lem :
    (now : ℕ) (c : Cache) (k : String)
    → HasKeysOnce c.data_map
    → lookup k (clean now c).data_map ≡ unless_old now (lookup k c.data_map)
unfolding clean
clean_lem now c k h = drop_old_lem now c.data_map k h

-- Whatever happened to the map since the backup, restoring gives the backed up map.
pub restore-backup :
    (c c' : Cache) (left : Dict Entry)
    → c'.data_backup ≡ (backup c).data_backup
    → (restore left c').data_map ≡ c.data_map
unfolding backup restore
restore-backup c c' left e = e

pub HasKeysOnce-assign :
    (k : String) (e : Entry) (d : Dict Entry) → HasKeysOnce d → HasKeysOnce (assign k e d)
unfolding assign lookup
HasKeysOnce-assign k e [] h = (refl, tt)
HasKeysOnce-assign k e ((j, f) ∷ d) h = elim (Bool-cases (str_eq j k)) [
  | inl p ↦ rw p (ground (arith, h.0, eq_iff j k), h.1)
  | inr p ↦ rw p (
    ground (arith, h.0, p, lookup-assign k j e d, eq_iff j k, eq_iff k j),
    HasKeysOnce-assign k e d h.1,
  )
]

pub HasKeysOnce-erase : (k : String) (d : Dict Entry) → HasKeysOnce d → HasKeysOnce (erase k d)
unfolding erase
HasKeysOnce-erase k [] h = tt
HasKeysOnce-erase k ((j, f) ∷ d) h = elim (Bool-cases (str_eq j k)) [
  | inl p ↦ rw p (HasKeysOnce-erase k d h.1)
  | inr p ↦ rw p (ground (arith, h.0, lookup-erase k j d), HasKeysOnce-erase k d h.1)
]

pub HasKeysOnce-drop_old : (now : ℕ) (d : Dict Entry) → HasKeysOnce d → HasKeysOnce (drop_old now d)
unfolding drop_old
HasKeysOnce-drop_old now [] h = tt
HasKeysOnce-drop_old now ((j, f) ∷ d) h = elim (Bool-cases (ltb (f.tp + max_age) now)) [
  | inl p ↦ rw p (HasKeysOnce-drop_old now d h.1)
  | inr p ↦ rw p (ground (arith, h.0, drop_old_lem now d j h.1), HasKeysOnce-drop_old now d h.1)
]
