-- ===== src/Transaction/File/Round.antt =====
-- The contract of a file: when it is taken, what it adds, and that reverting removes it.
use publiq_pp.Base.{
  ◌≡◌, ◌≢◌, refl, ◌∙◌, true, none, some, String, str_eq, eq_iff, if◌then◌else◌, arith, Bool-cases,
  inl, inr,
}
use publiq_pp.Base.Effects.{authority_error, logic_error, ok, is_ok}
use publiq_pp.Loaders.{MapLoader}
use publiq_pp.State.{StateLayer}
use publiq_pp.Documents.{Documents, File, insert_file, remove_file, get_file}
use publiq_pp.Documents.Contents.{
  get_file-insert_file, get_file-remove_file, file_exists-get_file, insert_file-others,
  remove_file-others,
}
use publiq_pp.Node.{Node, SignedTransaction, ActionIds}
use publiq_pp.Node.View.{SameView, IsValid}
use publiq_pp.Transaction.Authors.Pairs.{
  all_permitted, pairs_permitted_lem, expect_pairs_lem, expect_pairs_fails, all_permitted-documents,
}
use publiq_pp.Transaction.File.{action_is_complete, action_can_apply, action_apply, action_revert}

module _ ⦃L : MapLoader⦄ (ids : ActionIds) where
  -- In a valid node, `action_can_apply` for a file returns, and says yes exactly when
  -- `action_apply` succeeds.
  pub file_foretold :
      (st : SignedTransaction) (f : File) (layer : StateLayer) (n : Node)
      → IsValid n
      → action_can_apply ids st f n ≡ ok (is_ok (action_apply ids st f layer n).0)
  unfolding action_can_apply action_apply
  file_foretold st f layer n v =
      elim (Bool-cases (all_permitted ids.file st.authorizations f.author_addresses n)) [
        | inl p ↦ ground (
          arith,
          p,
          pairs_permitted_lem ids.file st.authorizations f.author_addresses n v,
          expect_pairs_lem ids.file authority_error st.authorizations f.author_addresses n v p,
        )
        | inr p ↦ ground (
          arith,
          p,
          pairs_permitted_lem ids.file st.authorizations f.author_addresses n v,
          expect_pairs_fails ids.file authority_error st.authorizations f.author_addresses n v p,
        )
      ]

  -- In a valid node, a new file with a uri that all its authors have signed for is added, and no
  -- other file changes; reverting removes it and gives back the view of the node.
  pub file_round :
      (st : SignedTransaction) (f : File) (layer : StateLayer) (n : Node)
      → IsValid n
      → action_is_complete st f ≡ true
      → all_permitted ids.file st.authorizations f.author_addresses n ≡ true
      → f.uri ≢ ""
      → get_file f.uri n.documents ≡ none
      → (m : Node) × (n' : Node) × (action_apply ids st f layer n ≡ (ok tt, m))
        × ((j : String)
            → get_file j m.documents ≡ (if str_eq f.uri j then some f else get_file j n.documents))
        × (action_revert ids st f layer m ≡ (ok tt, n'))
        × SameView n' n
  unfolding action_apply action_revert
  file_round st f layer n v whole p named new =
      let d : Documents = (insert_file f n.documents).1 in
      let m : Node = record n { documents = d } in
      let signed =
        expect_pairs_lem ids.file authority_error st.authorizations f.author_addresses n v p in
      let m' : Node = record n { documents = remove_file f.uri d } in
      let vm : IsValid m' = record { normal = v.normal; sound = v.sound } in
      let again =
        expect_pairs_lem ids.file (λ a w. logic_error) st.authorizations f.author_addresses m' vm
          (all_permitted-documents ids.file st.authorizations f.author_addresses n
              (remove_file f.uri d)
            ∙ p) in
      (
        m,
        m',
        ground (arith, whole, signed, file_exists-get_file f.uri n.documents, new),
        λ j. get_file-insert_file f j n.documents new,
        ground (arith, again),
        record {
          own_key = refl;
          own_type = refl;
          chain_balances = λ k. refl;
          balances = λ k. refl;
          roles = λ k. refl;
          permissions = λ a b id. refl;
          files = λ j. ground (
            arith,
            get_file-remove_file f.uri j d,
            get_file-insert_file f j n.documents new,
            eq_iff f.uri j,
            new,
          );
          units =
              λ uri. (remove_file-others f.uri d).0 uri ∙ (insert_file-others f n.documents).0 uri;
          holders = λ uri a.
              (remove_file-others f.uri d).1 uri a ∙ (insert_file-others f n.documents).1 uri a;
        },
      )
