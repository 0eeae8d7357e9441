-- ===== src/Transaction/ContentUnit.antt =====
-- src/libblockchain/transaction_contentunit.cpp: authors publish a unit of content made of files,
-- and the default check of its files of node_internals.hpp.
pub mod Round
use publiq_pp.Base.{
  ℕ, Bool, true, false, not, ◌==◌, Option, none, some, List, [], ◌∷◌, ◌++◌, String, if◌then◌else◌,
  length, is_empty, is_some,
}
use publiq_pp.Base.Texts.{contains, add_text}
use publiq_pp.Base.Effects.{
  Error, authority_error, logic_error, wrong_data, uri_invalid, uri_duplicate, uri_missing, Result,
  ok, err, bind, Eff, ◌>>=◌, ◌>>◌, reads, gets, throw_if,
}
use publiq_pp.Loaders.{MapLoader}
use publiq_pp.State.{StateLayer}
use publiq_pp.Documents.{Documents, ContentUnit, unit_exists, insert_unit, remove_unit, files_exist}
use publiq_pp.Node.{
  Node, SignedTransaction, Crypto, ActionIds, on_documents, expect_signers, expect_hash,
  expect_public_key, refuse_if, check_all, then_check,
}
use publiq_pp.Transaction.Authors.{expect_count, expect_distinct, pairs_permitted, expect_pairs}

unfoldable pub action_owners : ContentUnit → List String
action_owners u = u.author_addresses

unfoldable pub action_participants : ContentUnit → List String
action_participants u = u.author_addresses ++ u.uri ∷ u.file_uris ++ u.channel_address ∷ []

expect_hashes : Crypto → List String → Result (Unit {0})
expect_hashes k [] = ok tt
expect_hashes k (uri ∷ uris) =
    then_check (expect_hash k uri (uri_invalid uri)) (expect_hashes k uris)

unfoldable pub action_validate : Crypto → SignedTransaction → ContentUnit → Bool → Result (Unit {0})
unfolding expect_hashes
action_validate k st u check_complete = check_all (
    expect_signers st.authorizations
    ∷ refuse_if (is_empty u.author_addresses) wrong_data
    ∷ expect_count check_complete st.authorizations u.author_addresses
    ∷ expect_distinct k [] u.author_addresses
    ∷ expect_public_key k u.channel_address
    ∷ refuse_if (is_empty u.file_uris) (uri_missing "")
    ∷ expect_hash k u.uri (uri_invalid u.uri)
    ∷ expect_hashes k u.file_uris
    ∷ [])

unfoldable pub action_is_complete : SignedTransaction → ContentUnit → Bool
action_is_complete st u = length st.authorizations == length u.author_addresses

first_repeated : List String → List String → Option String
first_repeated seen [] = none
first_repeated seen (uri ∷ uris) =
    if contains uri seen then some uri else first_repeated (uri ∷ seen) uris

-- `content_unit_validate_check`: a repeated uri, or `none` where the answer is true.
unfoldable pub content_unit_validate_check : List String → Option String
unfolding first_repeated
content_unit_validate_check uris = first_repeated [] uris

-- The uris as a set, in the order in which they are walked.
unfoldable pub text_set : List String → List String
text_set [] = []
text_set (uri ∷ uris) = add_text uri (text_set uris)

-- `validate_check` is what `pcontent_unit_validate_check` points to, at the number of blocks and for
-- the network of the node.
module _ ⦃L : MapLoader⦄ (ids : ActionIds) (validate_check : List String → Option String) where
  free_and_backed : ContentUnit → Documents → Bool
  unfolding text_set
  free_and_backed u d =
      if is_some (validate_check u.file_uris)
      then false
      else if unit_exists u.uri d
      then false
      else not (is_some (files_exist (text_set u.file_uris) d))

  unfoldable pub action_can_apply : SignedTransaction → ContentUnit → Node → Result Bool
  unfolding action_is_complete free_and_backed
  action_can_apply st u n =
      bind
        (if action_is_complete st u
          then pairs_permitted ids.content_unit st.authorizations u.author_addresses n
          else ok true)
        λ permitted. if permitted then ok (free_and_backed u n.documents) else ok false

  refuse_found : Option String → (String → Error) → Result (Unit {0})
  refuse_found none e = ok tt
  refuse_found (some uri) e = err (e uri)

  unfoldable pub action_apply : SignedTransaction → ContentUnit → StateLayer → Eff Node (Unit {0})
  unfolding action_is_complete refuse_found text_set
  action_apply st u layer = do
    reads (λ n.
        if action_is_complete st u
        then expect_pairs ids.content_unit authority_error st.authorizations u.author_addresses n
        else ok tt)
    reads (λ _. refuse_found (validate_check u.file_uris) uri_duplicate)
    found ← gets (λ n. unit_exists u.uri n.documents)
    throw_if found (uri_duplicate u.uri)
    reads (λ n. refuse_found (files_exist (text_set u.file_uris) n.documents) uri_missing)
    on_documents (λ d. (insert_unit u d).1)

  unfoldable pub action_revert : SignedTransaction → ContentUnit → StateLayer → Eff Node (Unit {0})
  action_revert st u layer = do
    on_documents (remove_unit u.uri)
    reads (expect_pairs ids.content_unit (λ a w. logic_error) st.authorizations u.author_addresses)
