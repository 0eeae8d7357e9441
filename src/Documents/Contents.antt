-- ===== src/Documents/Contents.antt =====
-- What the documents contain after each of their operations.
use publiq_pp.Base.{
  ◌≡◌, refl, Bool, true, false, ◌&&◌, Option, none, some, List, [], ◌∷◌, String, str_eq, eq_iff,
  if◌then◌else◌, is_some, is_empty, arith, Option-cases, inl, inr,
}
use publiq_pp.Base.Texts.{contains, add_text, remove_text, contains-add_text, contains-remove_text}
use publiq_pp.Loaders.{MapLoader}
use publiq_pp.Documents.{
  Documents, File, ContentUnit, UpdateType, store, remove, is_store, file_exists, insert_file,
  remove_file, unit_exists, insert_unit, remove_unit, storage_update, storage_has_uri, add_holder,
  remove_holder, get_file, get_unit,
}

module _ ⦃L : MapLoader⦄ where
  open L use {Map, find, insert, update, erase, find-insert, find-update, find-erase}

  abbrev holds : Option (List String) → String → Bool
  holds none a = false
  holds (some bs) a = contains a bs

  holds-add_holder :
      (uri a u b : String) (m : Map (List String))
      → holds (find (add_holder uri a m) u) b
        ≡ (if str_eq uri u && str_eq a b then true else holds (find m u) b)
  unfolding add_holder contains
  holds-add_holder uri a u b m = elim (Option-cases (find m uri)) [
    | inl e ↦
        ground (arith, find-insert m uri u (add_text a []), contains-add_text a b [], eq_iff uri u)
    | inr (bs, e) ↦
        ground
          (arith, find-update m uri u bs (add_text a bs), contains-add_text a b bs, eq_iff uri u)
  ]

  empty-contains : (b : String) (bs : List String) → is_empty bs ≡ true → contains b bs ≡ false
  unfolding contains
  empty-contains b [] e = refl
  empty-contains b (c ∷ bs) e = cc

  holds-remove_holder :
      (uri a u b : String) (m : Map (List String))
      → holds (find (remove_holder uri a m) u) b
        ≡ (if str_eq uri u && str_eq a b then false else holds (find m u) b)
  unfolding remove_holder
  holds-remove_holder uri a u b m = elim (Option-cases (find m uri)) [
    | inl e ↦ ground (arith, eq_iff uri u)
    | inr (bs, e) ↦ ground (
      arith,
      find-update m uri u bs (remove_text a bs),
      find-erase (update m uri (remove_text a bs)) uri u,
      empty-contains b (remove_text a bs),
      contains-remove_text a b bs,
      eq_iff uri u,
    )
  ]

  -- A storage update changes what one storage has of one uri, and nothing else.
  pub storage_has_uri-storage_update :
      (uri a u b : String) (t : UpdateType) (d : Documents)
      → storage_has_uri u b (storage_update uri a t d)
        ≡ (if str_eq uri u && str_eq a b then is_store t else storage_has_uri u b d)
  unfolding storage_has_uri storage_update contains
  storage_has_uri-storage_update uri a u b store d =
      ground (arith, holds-add_holder uri a u b d.storages)
  storage_has_uri-storage_update uri a u b remove d =
      ground (arith, holds-remove_holder uri a u b d.storages)

  pub get_file-insert_file :
      (f : File) (j : String) (d : Documents)
      → get_file f.uri d ≡ none
      → get_file j (insert_file f d).1 ≡ (if str_eq f.uri j then some f else get_file j d)
  unfolding get_file insert_file
  get_file-insert_file f j d e = ground (arith, find-insert d.files f.uri j f)

  pub get_file-remove_file :
      (uri j : String) (d : Documents)
      → get_file j (remove_file uri d) ≡ (if str_eq uri j then none else get_file j d)
  unfolding get_file remove_file
  get_file-remove_file uri j d = find-erase d.files uri j

  pub get_unit-insert_unit :
      (u : ContentUnit) (j : String) (d : Documents)
      → get_unit u.uri d ≡ none
      → get_unit j (insert_unit u d).1 ≡ (if str_eq u.uri j then some u else get_unit j d)
  unfolding get_unit insert_unit
  get_unit-insert_unit u j d e = ground (arith, find-insert d.units u.uri j u)

  pub get_unit-remove_unit :
      (uri j : String) (d : Documents)
      → get_unit j (remove_unit uri d) ≡ (if str_eq uri j then none else get_unit j d)
  unfolding get_unit remove_unit
  get_unit-remove_unit uri j d = find-erase d.units uri j

  -- A uri that is not empty exists exactly when something is found under it.
  pub file_exists-get_file :
      (uri : String) (d : Documents)
      → file_exists uri d ≡ (if str_eq uri "" then false else is_some (get_file uri d))
  unfolding file_exists get_file
  file_exists-get_file uri d = refl

  pub unit_exists-get_unit :
      (uri : String) (d : Documents)
      → unit_exists uri d ≡ (if str_eq uri "" then false else is_some (get_unit uri d))
  unfolding unit_exists get_unit
  unit_exists-get_unit uri d = refl

  -- The files, the units and the holders do not see one another.
  abbrev pub SameOthers : Documents → Documents → Type 0
  SameOthers d e =
      ((uri : String) → get_unit uri d ≡ get_unit uri e)
      × ((uri a : String) → storage_has_uri uri a d ≡ storage_has_uri uri a e)

  pub insert_file-others : (f : File) (d : Documents) → SameOthers (insert_file f d).1 d
  unfolding insert_file get_unit storage_has_uri
  insert_file-others f d = (λ uri. ground arith, λ uri a. ground arith)

  pub remove_file-others : (uri : String) (d : Documents) → SameOthers (remove_file uri d) d
  unfolding remove_file get_unit storage_has_uri
  remove_file-others uri d = (λ u. refl, λ u a. refl)

  -- The files and the holders do not see the units, nor the files and the units the holders.
  abbrev pub SameFiles : Documents → Documents → Type 0
  SameFiles d e = (uri : String) → get_file uri d ≡ get_file uri e

  abbrev pub SameHolders : Documents → Documents → Type 0
  SameHolders d e = (uri a : String) → storage_has_uri uri a d ≡ storage_has_uri uri a e

  pub insert_unit-others :
      (u : ContentUnit) (d : Documents)
      → SameFiles (insert_unit u d).1 d × SameHolders (insert_unit u d).1 d
  unfolding insert_unit get_file storage_has_uri
  insert_unit-others u d = (λ uri. ground arith, λ uri a. ground arith)

  pub remove_unit-others :
      (uri : String) (d : Documents)
      → SameFiles (remove_unit uri d) d × SameHolders (remove_unit uri d) d
  unfolding remove_unit get_file storage_has_uri
  remove_unit-others uri d = (λ u. refl, λ u a. refl)

  pub storage_update-others :
      (uri a : String) (t : UpdateType) (d : Documents)
      → SameFiles (storage_update uri a t d) d
        × ((u : String) → get_unit u (storage_update uri a t d) ≡ get_unit u d)
  unfolding storage_update get_file get_unit
  storage_update-others uri a store d = (λ u. refl, λ u. refl)
  storage_update-others uri a remove d = (λ u. refl, λ u. refl)
