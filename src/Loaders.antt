-- ===== src/Loaders.antt =====
-- The persistent containers of mesh.pp (map_loader and vector_loader of <mesh.pp/fileutility.hpp>),
-- a submodule that is not part of this repository: they enter as an interface. Its laws say that a
-- map loader is a map and that a vector loader is a sequence, as the callers rely on.
pub mod Assoc
pub mod Sequence
use publiq_pp.Base.{
  length, get_elem?, [], ◌∷◌, ◌++◌, ℕ, zero, suc, ◌+◌, ◌-◌, ◌≡◌, Bool, true, false, Option, none,
  some, List, String, str_eq, if◌then◌else◌, is_some,
}
use publiq_pp.Base.Texts.{contains}

pub record MapLoader : Type 1 where
  pub Map : Type 0 → Type 0
  -- `contains` and `at` in one: `none` is what `contains` answers with false.
  pub find : {V : Type 0} → Map V → String → Option V
  pub insert : {V : Type 0} → Map V → String → V → Map V
  -- a write through the reference that `at` gives
  pub update : {V : Type 0} → Map V → String → V → Map V
  pub erase : {V : Type 0} → Map V → String → Map V
  pub keys : {V : Type 0} → Map V → List String
  pub find-insert :
      {V : Type 0} (m : Map V) (k j : String) (v : V)
      → find m k ≡ none
      → find (insert m k v) j ≡ (if str_eq k j then some v else find m j)
  pub find-update :
      {V : Type 0} (m : Map V) (k j : String) (u v : V)
      → find m k ≡ some u
      → find (update m k v) j ≡ (if str_eq k j then some v else find m j)
  pub find-erase :
      {V : Type 0} (m : Map V) (k j : String)
      → find (erase m k) j ≡ (if str_eq k j then none else find m j)
  pub contains-keys :
      {V : Type 0} (m : Map V) (k : String) → contains k (keys m) ≡ is_some (find m k)

-- `none` is the exception that `at` throws past the end. What `pop_back` does of an empty loader is
-- left open.
pub record VectorLoader : Type 1 where
  pub Vec : Type 0 → Type 0
  pub contents : {A : Type 0} → Vec A → List A
  pub size : {A : Type 0} → Vec A → ℕ
  pub at : {A : Type 0} → Vec A → ℕ → Option A
  pub push_back : {A : Type 0} → Vec A → A → Vec A
  pub pop_back : {A : Type 0} → Vec A → Vec A
  pub size_lem : {A : Type 0} (v : Vec A) → size v ≡ length (contents v)
  pub at_lem : {A : Type 0} (v : Vec A) (i : ℕ) → at v i ≡ get_elem? (contents v) i
  pub contents-push_back :
      {A : Type 0} (v : Vec A) (a : A) → contents (push_back v a) ≡ contents v ++ a ∷ []
  pub contents-pop_back :
      {A : Type 0} (v : Vec A) (as' : List A) (a : A)
      → contents v ≡ as' ++ a ∷ []
      → contents (pop_back v) ≡ as'
