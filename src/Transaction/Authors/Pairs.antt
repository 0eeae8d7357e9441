-- ===== src/Transaction/Authors/Pairs.antt =====
-- The two loops over the signers agree, in a valid node.
use publiq_pp.Base.{
  ℕ, ◌≡◌, refl, ap, Bool, true, false, List, [], ◌∷◌, String, if◌then◌else◌, length, arith, ◌==◌,
}
use publiq_pp.Base.Effects.{Error, ok, is_ok}
use publiq_pp.Loaders.{MapLoader}
use publiq_pp.Authority.{permits}
use publiq_pp.Authority.Records.{grant}
use publiq_pp.Documents.{Documents}
use publiq_pp.Node.{Node, Authority}
use publiq_pp.Node.View.{IsValid, check_authority_lem}
use publiq_pp.Transaction.Authors.{pairs_permitted, expect_pairs}

module _ ⦃L : MapLoader⦄ (id : ℕ) where
  -- Every signer has the authority of the author at the same place.
  abbrev pub all_permitted : List Authority → List String → Node → Bool
  all_permitted [] authors n = true
  all_permitted (a ∷ as') [] n = false
  all_permitted (a ∷ as') (w ∷ ws) n =
      if permits (grant w a.address n.authority_manager) id then all_permitted as' ws n else false

  pub pairs_permitted_lem :
      (as' : List Authority) (ws : List String) (n : Node)
      → IsValid n
      → (length as' == length ws) ≡ true
      → pairs_permitted id as' ws n ≡ ok (all_permitted as' ws n)
  unfolding pairs_permitted
  pairs_permitted_lem [] ws n v e = refl
  pairs_permitted_lem (a ∷ as') [] n v e = ground arith
  pairs_permitted_lem (a ∷ as') (w ∷ ws) n v e =
      ground (arith, check_authority_lem w a.address id n v, pairs_permitted_lem as' ws n v)

  pub expect_pairs_lem :
      (e : String → String → Error) (as' : List Authority) (ws : List String) (n : Node)
      → IsValid n
      → all_permitted as' ws n ≡ true
      → expect_pairs id e as' ws n ≡ ok tt
  unfolding expect_pairs
  expect_pairs_lem e [] ws n v p = refl
  expect_pairs_lem e (a ∷ as') [] n v p = cc
  expect_pairs_lem e (a ∷ as') (w ∷ ws) n v p =
      ground (arith, check_authority_lem w a.address id n v, expect_pairs_lem e as' ws n v)

  pub expect_pairs_fails :
      (e : String → String → Error) (as' : List Authority) (ws : List String) (n : Node)
      → IsValid n
      → all_permitted as' ws n ≡ false
      → is_ok (expect_pairs id e as' ws n) ≡ false
  unfolding expect_pairs
  expect_pairs_fails e [] ws n v p = cc
  expect_pairs_fails e (a ∷ as') [] n v p = refl
  expect_pairs_fails e (a ∷ as') (w ∷ ws) n v p =
      ground (arith, check_authority_lem w a.address id n v, expect_pairs_fails e as' ws n v)

  -- The permissions do not see the documents.
  pub all_permitted-documents :
      (as' : List Authority) (ws : List String) (n : Node) (d : Documents)
      → all_permitted as' ws (record n { documents = d }) ≡ all_permitted as' ws n
  all_permitted-documents [] ws n d = refl
  all_permitted-documents (a ∷ as') [] n d = refl
  all_permitted-documents (a ∷ as') (w ∷ ws) n d =
      ap (λ x. if permits (grant w a.address n.authority_manager) id then x else false)
        (all_permitted-documents as' ws n d)
