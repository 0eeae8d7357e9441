-- ===== src/Transaction/Content/Foretold.antt =====
-- The contract of an announcement: when it goes through, and when it asks for nothing.
use publiq_pp.Base.{◌≡◌, refl, ◌↔◌, true, false, List, [], ◌∷◌, String, arith}
use publiq_pp.Base.Effects.{ok, is_ok}
use publiq_pp.Loaders.{MapLoader}
use publiq_pp.State.{StateLayer}
use publiq_pp.Documents.{Documents}
use publiq_pp.Node.{Node, Authority, SignedTransaction, ActionIds}
use publiq_pp.Node.View.{IsValid, check_authority_lem}
use publiq_pp.Storage.{StorageController}
use publiq_pp.Transaction.Content.{
  Content, all_correspond, expect_corresponding, action_can_apply, expect_content, action_apply,
}

module _ ⦃L : MapLoader⦄ where
  correspond_foretold :
      (c : Content) (uris : List String) (d : Documents)
      → (all_correspond c uris d ≡ ok true) ↔ (is_ok (expect_corresponding c uris d) ≡ true)
  unfolding all_correspond expect_corresponding
  correspond_foretold c [] d = (λ _. refl, λ _. refl)
  correspond_foretold c (uri ∷ uris) d =
      let (there, back) = correspond_foretold c uris d in
      (λ e. ground (arith, e, there), λ e. ground (arith, e, back))

module _ ⦃L : MapLoader⦄ (ids : ActionIds) where
  -- In a valid node and for one signer, `action_can_apply` for a content answers yes exactly when
  -- `action_apply` succeeds, for any managing program and layer, and where `action_apply` throws
  -- the storage's requests stay as they were.
  pub content_foretold :
      (manager_address : String) (st : SignedTransaction) (c : Content) (layer : StateLayer)
      (n : Node) (s : StorageController) (a : Authority)
      → IsValid n
      → st.authorizations ≡ a ∷ []
      → ((action_can_apply ids st c n ≡ ok true)
          ↔ (is_ok (action_apply ids manager_address st c layer n s).0 ≡ true))
        × (is_ok (action_apply ids manager_address st c layer n s).0 ≡ false
            → (action_apply ids manager_address st c layer n s).1 ≡ s)
  unfolding action_can_apply action_apply expect_content
  content_foretold manager st c layer n s a v one =
      let may = check_authority_lem c.channel_address a.address ids.content n v in
      let (there, back) = correspond_foretold c c.content_unit_uris n.documents in
      (
        (λ e. ground (arith, one, may, e, there), λ e. ground (arith, one, may, e, back)),
        λ e. ground (arith, one, may, e),
      )
