-- ===== src/Transaction/ContentUnit/Round.antt =====
-- The contract of a content unit: when it is taken, what it adds, and that reverting removes it.
use publiq_pp.Base.{
  ◌≡◌, ◌↔◌, refl, ◌∙◌, true, false, Option, none, some, List, [], ◌∷◌, String, str_eq, eq_iff,
  if◌then◌else◌, arith, Bool-cases, inl, inr,
}
use publiq_pp.Base.Texts.{contains, Distinct}
use publiq_pp.Base.Effects.{authority_error, logic_error, ok, is_ok}
use publiq_pp.Loaders.{MapLoader}
use publiq_pp.State.{StateLayer}
use publiq_pp.Documents.{Documents, ContentUnit, insert_unit, remove_unit, get_unit, files_exist}
use publiq_pp.Documents.Contents.{
  get_unit-insert_unit, get_unit-remove_unit, unit_exists-get_unit, insert_unit-others,
  remove_unit-others,
}
use publiq_pp.Node.{Node, SignedTransaction, ActionIds}
use publiq_pp.Node.View.{SameView, IsValid}
use publiq_pp.Transaction.Authors.Pairs.{
  all_permitted, pairs_permitted_lem, expect_pairs_lem, expect_pairs_fails, all_permitted-documents,
}
use publiq_pp.Transaction.ContentUnit.{
  first_repeated, content_unit_validate_check, text_set, action_is_complete, action_can_apply,
  action_apply, action_revert,
}

-- No uri of the second list is in the first.
abbrev Fresh : List String → List String → Type 0
Fresh seen [] = Unit {0}
Fresh seen (uri ∷ uris) = (contains uri seen ≡ false) × Fresh seen uris

Fresh-cons :
    (a : String) (seen uris : List String)
    → Fresh (a ∷ seen) uris ↔ (Fresh seen uris × (contains a uris ≡ false))
unfolding contains
Fresh-cons a seen [] = (λ h. (tt, refl), λ h. tt)
Fresh-cons a seen (b ∷ uris) =
    let ih = Fresh-cons a seen uris in
    (
      λ h. let k = ih.0 h.1 in ((ground arith, k.0), ground (arith, k.1, eq_iff a b, eq_iff b a)),
      λ h. (ground (arith, eq_iff a b, eq_iff b a), ih.1 (h.0.1, ground (arith, eq_iff b a))),
    )

first_repeated_iff :
    (seen uris : List String)
    → (first_repeated seen uris ≡ none) ↔ (Distinct uris × Fresh seen uris)
unfolding first_repeated
first_repeated_iff seen [] = (λ e. (tt, tt), λ h. refl)
first_repeated_iff seen (a ∷ uris) =
    let ih = first_repeated_iff (a ∷ seen) uris in
    let f = Fresh-cons a seen uris in
    (
      λ e.
          let old : contains a seen ≡ false = ground arith in
          let k = ih.0 (ground arith) in let g = f.0 k.1 in ((g.1, k.0), (old, g.0)),
      λ h. rw h.1.0 (ih.1 (h.0.1, f.1 (h.1.1, h.0.0))),
    )

nothing_seen : (uris : List String) → Fresh [] uris
unfolding contains
nothing_seen [] = tt
nothing_seen (a ∷ uris) = (refl, nothing_seen uris)

-- The default check of a unit's files passes exactly the lists with no uri twice.
pub validate_check_iff :
    (uris : List String) → (content_unit_validate_check uris ≡ none) ↔ Distinct uris
unfolding content_unit_validate_check contains
validate_check_iff uris = (
  (λ e. ((first_repeated_iff [] uris).0 e).0),
  (λ d. (first_repeated_iff [] uris).1 (d, nothing_seen uris)),
)

module _ ⦃L : MapLoader⦄ (ids : ActionIds) (validate_check : List String → Option String) where
  -- In a valid node and for any check of the files, `action_can_apply` for a content unit returns,
  -- and says yes exactly when `action_apply` succeeds.
  pub unit_foretold :
      (st : SignedTransaction) (u : ContentUnit) (layer : StateLayer) (n : Node)
      → IsValid n
      → action_can_apply ids validate_check st u n
        ≡ ok (is_ok (action_apply ids validate_check st u layer n).0)
  unfolding action_can_apply action_apply
  unit_foretold st u layer n v =
      elim (Bool-cases (all_permitted ids.content_unit st.authorizations u.author_addresses n)) [
        | inl p ↦ ground (
          arith,
          p,
          pairs_permitted_lem ids.content_unit st.authorizations u.author_addresses n v,
          expect_pairs_lem ids.content_unit authority_error st.authorizations u.author_addresses n v
              p,
        )
        | inr p ↦ ground (
          arith,
          p,
          pairs_permitted_lem ids.content_unit st.authorizations u.author_addresses n v,
          expect_pairs_fails ids.content_unit authority_error st.authorizations u.author_addresses n
              v p,
        )
      ]

  -- In a valid node, a new unit that all its authors have signed for, with files that are known and
  -- pass the check, is added, and no other unit changes; reverting removes it and gives back the
  -- view of the node.
  pub unit_round :
      (st : SignedTransaction) (u : ContentUnit) (layer : StateLayer) (n : Node)
      → IsValid n
      → action_is_complete st u ≡ true
      → all_permitted ids.content_unit st.authorizations u.author_addresses n ≡ true
      → validate_check u.file_uris ≡ none
      → files_exist (text_set u.file_uris) n.documents ≡ none
      → get_unit u.uri n.documents ≡ none
      → (m : Node) × (n' : Node) × (action_apply ids validate_check st u layer n ≡ (ok tt, m))
        × ((j : String)
            → get_unit j m.documents ≡ (if str_eq u.uri j then some u else get_unit j n.documents))
        × (action_revert ids validate_check st u layer m ≡ (ok tt, n'))
        × SameView n' n
  unfolding action_apply action_revert
  unit_round st u layer n v whole p checked known new =
      let d : Documents = (insert_unit u n.documents).1 in
      let m : Node = record n { documents = d } in
      let signed =
        expect_pairs_lem ids.content_unit authority_error st.authorizations u.author_addresses n v
          p in
      let m' : Node = record n { documents = remove_unit u.uri d } in
      let vm : IsValid m' = record { normal = v.normal; sound = v.sound } in
      let still =
        all_permitted-documents ids.content_unit st.authorizations u.author_addresses n
          (remove_unit u.uri d)
        ∙ p in
      let again =
        expect_pairs_lem ids.content_unit (λ a w. logic_error) st.authorizations u.author_addresses
          m' vm still in
      (
        m,
        m',
        ground (arith, whole, signed, unit_exists-get_unit u.uri n.documents, new, checked, known),
        λ j. get_unit-insert_unit u j n.documents new,
        ground (arith, again),
        record {
          own_key = refl;
          own_type = refl;
          chain_balances = λ k. refl;
          balances = λ k. refl;
          roles = λ k. refl;
          permissions = λ a b id. refl;
          files =
              λ uri. (remove_unit-others u.uri d).0 uri ∙ (insert_unit-others u n.documents).0 uri;
          units = λ j. ground (
            arith,
            get_unit-remove_unit u.uri j d,
            get_unit-insert_unit u j n.documents new,
            eq_iff u.uri j,
            new,
          );
          holders = λ uri a.
              (remove_unit-others u.uri d).1 uri a ∙ (insert_unit-others u n.documents).1 uri a;
        },
      )
