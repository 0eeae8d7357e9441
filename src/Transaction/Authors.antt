-- ===== src/Transaction/Authors.antt =====
-- The parts that the actions with several authors share (src/libblockchain/transaction_file.cpp and
-- transaction_contentunit.cpp have them in the same words).
pub mod Pairs
use publiq_pp.Base.{
  ℕ, Bool, true, false, not, ◌==◌, List, [], ◌∷◌, String, str_eq, if◌then◌else◌, length, is_empty,
  ltb, back,
}
use publiq_pp.Base.Texts.{contains}
use publiq_pp.Base.Effects.{
  Error, authority_error, logic_error, wrong_data, out_of_range, Result, ok, err, bind,
}
use publiq_pp.Loaders.{MapLoader}
use publiq_pp.Authority.{check_authority}
use publiq_pp.Node.{Node, Authority, SignedTransaction, Crypto, expect_public_key, then_check}

abbrev last_address : List Authority → String
last_address [] = ""
last_address (a ∷ as') = (back a as').address

abbrev last_author : List String → String
last_author [] = ""
last_author (w ∷ ws) = back w ws

-- A complete transaction has as many signers as authors, any other has one.
unfoldable pub expect_count : Bool → List Authority → List String → Result (Unit {0})
expect_count true as' authors =
    if ltb (length authors) (length as')
    then err (authority_error (last_address as') "")
    else if ltb (length as') (length authors)
    then err (authority_error "" (last_author authors))
    else ok tt
expect_count false [] authors = err out_of_range
expect_count false (a ∷ []) authors = ok tt
expect_count false (a ∷ b ∷ as') authors = err (authority_error b.address "")

-- Each author is a public key, and none is named twice; `seen` are the authors before.
unfoldable pub expect_distinct : Crypto → List String → List String → Result (Unit {0})
expect_distinct k seen [] = ok tt
expect_distinct k seen (w ∷ ws) =
    let rest = expect_distinct k (w ∷ seen) ws in
    then_check (expect_public_key k w) (if contains w seen then err wrong_data else rest)

module _ ⦃L : MapLoader⦄ (id : ℕ) where
  -- The loop of `action_can_apply`: the signer at each index for the author at that index.
  unfoldable pub pairs_permitted : List Authority → List String → Node → Result Bool
  pairs_permitted [] authors n = ok true
  pairs_permitted (a ∷ as') [] n = err out_of_range
  pairs_permitted (a ∷ as') (w ∷ ws) n =
      let rest = pairs_permitted as' ws n in
      bind (check_authority w a.address id n.authority_manager)
        λ allowed. if allowed then rest else ok false

  -- The same loop where it throws: `e` is the exception for the signer and the author.
  unfoldable pub expect_pairs :
      (String → String → Error) → List Authority → List String → Node → Result (Unit {0})
  expect_pairs e [] authors n = ok tt
  expect_pairs e (a ∷ as') [] n = err out_of_range
  expect_pairs e (a ∷ as') (w ∷ ws) n =
      let rest = expect_pairs e as' ws n in
      bind (check_authority w a.address id n.authority_manager)
        λ allowed. if allowed then rest else err (e a.address w)
