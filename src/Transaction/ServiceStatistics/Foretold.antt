-- ===== src/Transaction/ServiceStatistics/Foretold.antt =====
-- The contract of a report: what `action_can_apply` foretells, and that nothing is changed.
use publiq_pp.Base.{
  ℕ, ◌≡◌, refl, true, none, List, [], ◌∷◌, String, arith, Option-cases, inl, inr, is_some, eq_iff,
  eq_refl,
}
use publiq_pp.Base.Texts.{contains, contains-add_text}
use publiq_pp.Base.Effects.{ok, is_ok}
use publiq_pp.Coin.Value.{make-fields}
use publiq_pp.Loaders.{MapLoader}
use publiq_pp.State.{
  NodeType, channel, same_type, StateLayer, pool, from_message, get_balance, get_role,
}
use publiq_pp.Documents.{Documents, units_exist, get_unit}
use publiq_pp.Node.{Node, Authority, SignedTransaction, ActionIds}
use publiq_pp.Node.View.{IsValid, check_authority_lem}
use publiq_pp.Statistics.{ServiceStatisticsCount, ServiceStatisticsFile, ServiceStatistics}
use publiq_pp.Transaction.ServiceStatistics.{
  PublicAddressInfo, unit_uris, serving, counts_match, in_unit, files_match, expect_peers,
  expect_matches, can_serve, expect_service, action_can_apply, action_apply,
}

module _ ⦃L : MapLoader⦄ where
  peers_foretold :
      (t : NodeType) (cs : List ServiceStatisticsCount) (n : Node)
      → counts_match t cs n ≡ is_ok (expect_peers t cs n)
  unfolding counts_match expect_peers
  peers_foretold t [] n = refl
  peers_foretold t (c ∷ cs) n = ground (arith, peers_foretold t cs n)

  unit_found :
      (u : String) (us : List String) (d : Documents)
      → units_exist us d ≡ none
      → contains u us ≡ true
      → is_some (get_unit u d) ≡ true
  unfolding units_exist get_unit contains
  unit_found u [] d e c = absurd (ground (arith, c))
  unit_found u (v ∷ us) d e c = ground (arith, e, c, eq_iff v u, unit_found u us d)

  -- Every unit that a channel reports is there.
  abbrev UnitsKnown : NodeType → List ServiceStatisticsFile → Documents → Type 0
  UnitsKnown t [] d = Unit {0}
  UnitsKnown t (f ∷ fs) d =
      ((same_type t channel ≡ true) → is_some (get_unit f.unit_uri d) ≡ true) × UnitsKnown t fs d

  units_known :
      (t : NodeType) (fs : List ServiceStatisticsFile) (all : List String) (d : Documents)
      → ((u : String) → contains u (unit_uris t fs) ≡ true → contains u all ≡ true)
      → units_exist all d ≡ none
      → UnitsKnown t fs d
  units_known t [] all d within e = tt
  units_known t (f ∷ fs) all d within e = (
    λ c. unit_found f.unit_uri all d e (
        within f.unit_uri (
          ground (
            arith,
            c,
            contains-add_text f.unit_uri f.unit_uri (unit_uris t fs),
            eq_refl f.unit_uri,
          ))),
    units_known t fs all d
        (λ u c. within u (ground (arith, c, contains-add_text f.unit_uri u (unit_uris t fs)))) e,
  )

  matches_foretold :
      (t : NodeType) (fs : List ServiceStatisticsFile) (n : Node)
      → UnitsKnown t fs n.documents
      → files_match t fs n ≡ ok (is_ok (expect_matches t fs n))
  unfolding files_match expect_matches in_unit
  matches_foretold t [] n k = refl
  matches_foretold t (f ∷ fs) n k =
      ground (arith, k.0, peers_foretold t f.count_items n, matches_foretold t fs n k.1)

module _ ⦃L : MapLoader⦄ (last_time : ℕ) (addresses : List PublicAddressInfo) where
  service_foretold :
      (ids : ActionIds) (t : NodeType) (s : ServiceStatistics) (layer : StateLayer) (n : Node)
      → IsValid n
      → can_serve last_time addresses t s layer n
        ≡ ok (is_ok (expect_service ids last_time addresses t s layer n))
  unfolding can_serve expect_service from_message
  service_foretold ids t s layer n v =
      elim (Option-cases (units_exist (unit_uris t s.file_items) n.documents)) [
        | inl none_missing ↦ ground (
          arith,
          none_missing,
          make-fields (get_balance s.server_address pool n.state) (v.normal s.server_address),
          matches_foretold t s.file_items n (
              units_known t s.file_items (unit_uris t s.file_items) n.documents (λ u c. c)
                none_missing),
        )
        | inr (u, missing) ↦ ground (
          arith,
          missing,
          make-fields (get_balance s.server_address pool n.state) (v.normal s.server_address),
        )
      ]

  -- In a valid node and for one signer, `action_can_apply` for a report returns, and says yes
  -- exactly when `action_apply` succeeds, which never changes the node.
  pub service_statistics_foretold :
      (ids : ActionIds) (st : SignedTransaction) (s : ServiceStatistics) (layer : StateLayer)
      (n : Node) (a : Authority)
      → IsValid n
      → st.authorizations ≡ a ∷ []
      → (action_can_apply ids last_time addresses st s layer n
          ≡ ok (is_ok (action_apply ids last_time addresses st s layer n).0))
        × ((action_apply ids last_time addresses st s layer n).1 ≡ n)
  unfolding action_can_apply action_apply
  service_statistics_foretold ids st s layer n a v one =
      elim (Option-cases (serving (get_role s.server_address n.state))) [
        | inl e ↦ (
          ground (
            arith,
            one,
            e,
            check_authority_lem s.server_address a.address ids.service_statistics n v,
          ),
          ground (
            arith,
            one,
            e,
            check_authority_lem s.server_address a.address ids.service_statistics n v,
          ),
        )
        | inr (t, e) ↦ (
          ground (
            arith,
            one,
            e,
            service_foretold ids t s layer n v,
            check_authority_lem s.server_address a.address ids.service_statistics n v,
          ),
          ground (
            arith,
            one,
            e,
            check_authority_lem s.server_address a.address ids.service_statistics n v,
          ),
        )
      ]
