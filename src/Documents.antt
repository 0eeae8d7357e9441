-- ===== src/Documents.antt =====
-- src/libblockchain/documents.cpp: the files and content units that the chain knows, and which
-- storages hold a file. The sponsoring part of the class is not here.
pub mod Contents
use publiq_pp.Base.{
  ℕ, Bool, true, false, Option, none, some, List, [], ◌∷◌, String, str_eq, if◌then◌else◌, is_some,
  is_empty,
}
use publiq_pp.Base.Texts.{contains, add_text, remove_text}
use publiq_pp.Loaders.{MapLoader}

pub record File : Type 0 where
  pub uri : String
  pub author_addresses : List String

pub record ContentUnit : Type 0 where
  pub uri : String
  pub content_id : ℕ
  pub author_addresses : List String
  pub channel_address : String
  pub file_uris : List String

-- `enum UpdateType`
pub data UpdateType : Type 0 where
  store remove : UpdateType

abbrev pub is_store : UpdateType → Bool
is_store store = true
is_store remove = false

module _ ⦃L : MapLoader⦄ where
  open L use {Map, find, insert, update, erase, keys}

  pub record Documents : Type 0 where
    pub files : Map File
    pub units : Map ContentUnit
    -- the addresses of a `FileUriHolders`
    pub storages : Map (List String)

  unfoldable pub file_exists : String → Documents → Bool
  file_exists uri d = if str_eq uri "" then false else is_some (find d.files uri)

  -- `none` is the answer (true, ""), a uri is the answer (false, uri).
  unfoldable pub files_exist : List String → Documents → Option String
  unfolding file_exists
  files_exist [] d = none
  files_exist (uri ∷ uris) d = if file_exists uri d then files_exist uris d else some uri

  unfoldable pub insert_file : File → Documents → Bool × Documents
  insert_file file d =
      if is_some (find d.files file.uri)
      then (false, d)
      else (true, record d { files = insert d.files file.uri file })

  unfoldable pub remove_file : String → Documents → Documents
  remove_file uri d = record d { files = erase d.files uri }

  unfoldable pub get_file : String → Documents → Option File
  get_file uri d = find d.files uri

  unfoldable pub get_file_uris : Documents → List String
  get_file_uris d = keys d.files

  unfoldable pub unit_exists : String → Documents → Bool
  unit_exists uri d = if str_eq uri "" then false else is_some (find d.units uri)

  unfoldable pub units_exist : List String → Documents → Option String
  unfolding unit_exists
  units_exist [] d = none
  units_exist (uri ∷ uris) d = if unit_exists uri d then units_exist uris d else some uri

  unfoldable pub insert_unit : ContentUnit → Documents → Bool × Documents
  insert_unit unit d =
      if is_some (find d.units unit.uri)
      then (false, d)
      else (true, record d { units = insert d.units unit.uri unit })

  unfoldable pub remove_unit : String → Documents → Documents
  remove_unit uri d = record d { units = erase d.units uri }

  unfoldable pub get_unit : String → Documents → Option ContentUnit
  get_unit uri d = find d.units uri

  unfoldable pub get_unit_uris : Documents → List String
  get_unit_uris d = keys d.units

  add_holder : String → String → Map (List String) → Map (List String)
  unfolding add_text
  add_holder uri address m = elim (find m uri) [
    | none ↦ insert m uri (add_text address [])
    | some addresses ↦ update m uri (add_text address addresses)
  ]

  -- The holders that are left are written back before the entry is dropped for want of any.
  shrink_holders : String → List String → Map (List String) → Map (List String)
  shrink_holders uri left m =
      let m' = update m uri left in if is_empty left then erase m' uri else m'

  remove_holder : String → String → Map (List String) → Map (List String)
  unfolding remove_text shrink_holders
  remove_holder uri address m = elim (find m uri) [
    | none ↦ m
    | some addresses ↦ shrink_holders uri (remove_text address addresses) m
  ]

  unfoldable pub storage_update : String → String → UpdateType → Documents → Documents
  unfolding add_holder remove_holder
  storage_update uri address store d = record d { storages = add_holder uri address d.storages }
  storage_update uri address remove d = record d { storages = remove_holder uri address d.storages }

  unfoldable pub storage_has_uri : String → String → Documents → Bool
  unfolding contains
  storage_has_uri uri address d = elim (find d.storages uri) [
    | none ↦ false
    | some addresses ↦ contains address addresses
  ]
