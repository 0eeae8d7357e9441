-- ===== src/Loaders/Sequence.antt =====
-- A vector loader kept in memory.
use publiq_pp.Base.{List, [], ◌∷◌, ◌++◌, ◌≡◌, refl, ap, ◌∙◌, length, get_elem?, init, init-snoc}
use publiq_pp.Loaders.{VectorLoader}

pub pop_back_lem : {A : Type 0} (v as' : List A) (a : A) → v ≡ as' ++ a ∷ [] → init v ≡ as'
pop_back_lem v as' a e = ap init e ∙ init-snoc as' a

instance abbrev pub list_loader : VectorLoader
list_loader = record {
  Vec = List;
  contents = λ v. v;
  size = length;
  at = get_elem?;
  push_back = λ v a. v ++ a ∷ [];
  pop_back = init;
  size_lem = λ v. refl;
  at_lem = λ v i. refl;
  contents-push_back = λ v a. refl;
  contents-pop_back = pop_back_lem;
}
