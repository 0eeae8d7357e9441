-- ===== src/Transaction/File.antt =====
-- src/libblockchain/transaction_file.cpp: authors publish a file.
pub mod Round
use publiq_pp.Base.{
  ℕ, Bool, true, false, not, ◌==◌, List, [], ◌∷◌, ◌++◌, String, if◌then◌else◌, length, is_empty,
}
use publiq_pp.Base.Effects.{
  Error, authority_error, logic_error, wrong_data, uri_invalid, uri_duplicate, Result, ok, err,
  bind, Eff, ◌>>=◌, ◌>>◌, reads, gets, throw_if,
}
use publiq_pp.Loaders.{MapLoader}
use publiq_pp.State.{StateLayer}
use publiq_pp.Documents.{File, file_exists, insert_file, remove_file}
use publiq_pp.Node.{
  Node, SignedTransaction, Crypto, ActionIds, on_documents, expect_signers, expect_hash, refuse_if,
  check_all,
}
use publiq_pp.Transaction.Authors.{expect_count, expect_distinct, pairs_permitted, expect_pairs}

unfoldable pub action_owners : File → List String
action_owners f = f.author_addresses

unfoldable pub action_participants : File → List String
action_participants f = f.author_addresses ++ f.uri ∷ []

unfoldable pub action_validate : Crypto → SignedTransaction → File → Bool → Result (Unit {0})
action_validate k st f check_complete = check_all (
    expect_signers st.authorizations
    ∷ refuse_if (is_empty f.author_addresses) wrong_data
    ∷ expect_count check_complete st.authorizations f.author_addresses
    ∷ expect_distinct k [] f.author_addresses
    ∷ expect_hash k f.uri (uri_invalid f.uri)
    ∷ [])

unfoldable pub action_is_complete : SignedTransaction → File → Bool
action_is_complete st f = length st.authorizations == length f.author_addresses

module _ ⦃L : MapLoader⦄ (ids : ActionIds) where
  unfoldable pub action_can_apply : SignedTransaction → File → Node → Result Bool
  unfolding action_is_complete
  action_can_apply st f n =
      bind
        (if action_is_complete st f
          then pairs_permitted ids.file st.authorizations f.author_addresses n
          else ok true)
        λ permitted. if permitted then ok (not (file_exists f.uri n.documents)) else ok false

  unfoldable pub action_apply : SignedTransaction → File → StateLayer → Eff Node (Unit {0})
  unfolding action_is_complete
  action_apply st f layer = do
    reads (λ n.
        if action_is_complete st f
        then expect_pairs ids.file authority_error st.authorizations f.author_addresses n
        else ok tt)
    found ← gets (λ n. file_exists f.uri n.documents)
    throw_if found (uri_duplicate f.uri)
    on_documents (λ d. (insert_file f d).1)

  unfoldable pub action_revert : SignedTransaction → File → StateLayer → Eff Node (Unit {0})
  action_revert st f layer = do
    on_documents (remove_file f.uri)
    reads (expect_pairs ids.file (λ a w. logic_error) st.authorizations f.author_addresses)
