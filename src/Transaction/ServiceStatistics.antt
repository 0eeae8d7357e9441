-- ===== src/Transaction/ServiceStatistics.antt =====
-- src/libblockchain/transaction_statinfo.cpp: a channel or a storage reports what it has served. The
-- action changes nothing in the node; the reports of a block decide its rewards. The time of the last
-- header and the addresses of the node id service are arguments.
pub mod Foretold
use publiq_pp.Base.{
  ℕ, ◌+◌, Bool, true, false, not, ◌&&◌, ◌||◌, Option, none, some, List, [], ◌∷◌, ◌++◌, String,
  str_eq, if◌then◌else◌, ◌==◌, ltb, length, is_empty, is_some,
}
use publiq_pp.Base.Texts.{contains, add_text}
use publiq_pp.Base.Effects.{
  Error, authority_error, logic_error, wrong_data, not_enough_balance, out_of_range, uri_invalid,
  uri_missing, Result, ok, err, bind, Eff, ◌>>=◌, ◌>>◌, reads, gets, throw_if,
}
use publiq_pp.Coin.{Coin, lt}
use publiq_pp.Loaders.{MapLoader}
use publiq_pp.State.{
  NodeType, blockchain, channel, storage, same_type, StateLayer, pool, is_chain, get_role,
  get_balance, from_message, pair_of,
}
use publiq_pp.Authority.{check_authority, get_authority}
use publiq_pp.Documents.{Documents, files_exist, units_exist, get_unit}
use publiq_pp.Node.{
  Node, SignedTransaction, Crypto, ActionIds, authorized, only_signer, expect_signers,
  expect_one_signer, expect_public_key, check_all, refuse_if, then_check,
}
use publiq_pp.Consensus.{block_mine_delay}
use publiq_pp.Statistics.{ServiceStatisticsCount, ServiceStatisticsFile, ServiceStatistics}
use publiq_pp.Transaction.Role.{channel_amount_threshold, storage_amount_threshold}

-- What is read of a `PublicAddressInfo`: the node and the local address.
pub record PublicAddressInfo : Type 0 where
  pub ip_address : String
  pub node_address : String
  pub seconds_since_checked : ℕ

-- `PUBLIC_ADDRESS_FRESH_THRESHHOLD_SECONDS` of common.hpp
abbrev pub fresh_threshold : ℕ
fresh_threshold = 600

unfoldable pub action_owners : ServiceStatistics → List String
action_owners s = s.server_address ∷ []

abbrev peers_of : List ServiceStatisticsCount → List String
peers_of [] = []
peers_of (c ∷ cs) = c.peer_address ∷ peers_of cs

abbrev participants : List ServiceStatisticsFile → List String
participants [] = []
participants (f ∷ fs) = peers_of f.count_items ++ f.file_uri ∷ f.unit_uri ∷ participants fs

unfoldable pub action_participants : ServiceStatistics → List String
action_participants s = participants s.file_items ++ s.server_address ∷ []

expect_counts : Crypto → List ServiceStatisticsCount → Result (Unit {0})
expect_counts k [] = ok tt
expect_counts k (c ∷ cs) =
    then_check (expect_public_key k c.peer_address)
      (then_check (refuse_if (c.count == 0) wrong_data) (expect_counts k cs))

expect_files : Crypto → List ServiceStatisticsFile → Result (Unit {0})
unfolding expect_counts
expect_files k [] = ok tt
expect_files k (f ∷ fs) =
    then_check (refuse_if (is_empty f.count_items) wrong_data)
      (then_check (expect_counts k f.count_items) (expect_files k fs))

unfoldable pub action_validate : Crypto → SignedTransaction → ServiceStatistics → Result (Unit {0})
unfolding expect_files
action_validate k st s = check_all (
    expect_signers st.authorizations
    ∷ expect_one_signer st.authorizations
    ∷ expect_public_key k s.server_address
    ∷ refuse_if (is_empty s.file_items) wrong_data
    ∷ expect_files k s.file_items
    ∷ [])

unfoldable pub action_is_complete : SignedTransaction → ServiceStatistics → Bool
action_is_complete st s = true

-- The peers other than the node itself.
abbrev count_peers : String → List ServiceStatisticsCount → List String → List String
count_peers me [] peers = peers
count_peers me (c ∷ cs) peers =
    count_peers me cs (if str_eq c.peer_address me then peers else add_text c.peer_address peers)

abbrev peers_set : String → List ServiceStatisticsFile → List String → List String
peers_set me [] peers = peers
peers_set me (f ∷ fs) peers = peers_set me fs (count_peers me f.count_items peers)

-- `server_address` and `addresses_set`: the walk ends at the first address that is not fresh.
abbrev known_addresses :
    String → List String → List PublicAddressInfo → String × List String → String × List String
known_addresses server peers [] found = found
known_addresses server peers (i ∷ is') (address, addresses) =
    let rest = known_addresses server peers is' (
      if str_eq i.node_address server
      then (i.ip_address, addresses)
      else if contains i.node_address peers
      then (address, add_text i.ip_address addresses)
      else (address, addresses)) in
    if ltb fresh_threshold i.seconds_since_checked then (address, addresses) else rest

-- Whether the server and all its peers have an address, the server one of its own.
unfoldable pub addresses_verified : String → List PublicAddressInfo → ServiceStatistics → Bool
unfolding add_text
addresses_verified me infos s =
    let peers = peers_set me s.file_items [] in
    let (found, addresses) = known_addresses s.server_address peers infos ("", []) in
    let server_address =
      if str_eq found "" && str_eq s.server_address me then s.server_address else found in
    not (str_eq server_address "")
    && length peers == length addresses
    && not (contains server_address addresses)

-- The block's time before the last header, for the chain.
abbrev pub in_time : ℕ → ServiceStatistics → Bool
in_time last_time s =
    s.start_time_point + block_mine_delay == last_time && s.end_time_point == last_time

abbrev pub file_uris : List ServiceStatisticsFile → List String
file_uris [] = []
file_uris (f ∷ fs) = add_text f.file_uri (file_uris fs)

abbrev pub unit_uris : NodeType → List ServiceStatisticsFile → List String
unit_uris t [] = []
unit_uris t (f ∷ fs) =
    let rest = unit_uris t fs in if same_type t channel then add_text f.unit_uri rest else rest

-- The first unit that a storage reports, which it must not.
abbrev pub reported_unit : NodeType → List ServiceStatisticsFile → Option String
reported_unit t [] = none
reported_unit t (f ∷ fs) =
    let rest = reported_unit t fs in
    if same_type t storage && not (str_eq f.unit_uri "") then some f.unit_uri else rest

-- A peer is a channel for a storage, and a storage for a channel.
abbrev pub wrong_peer : NodeType → Option NodeType → Bool
wrong_peer t none = true
wrong_peer t (some u) = same_type u blockchain || same_type u t

-- A node that serves: `none` for no role and for the type that does not.
abbrev pub serving : Option NodeType → Option NodeType
serving none = none
serving (some blockchain) = none
serving (some t) = some t

abbrev pub short_of : NodeType → Coin → Option Coin
short_of channel balance =
    if lt balance channel_amount_threshold then some channel_amount_threshold else none
short_of storage balance =
    if lt balance storage_amount_threshold then some storage_amount_threshold else none
short_of blockchain balance = none

module _ ⦃L : MapLoader⦄ where
  -- The last loop, where a wrong item is the answer false.
  unfoldable pub counts_match : NodeType → List ServiceStatisticsCount → Node → Bool
  counts_match t [] n = true
  counts_match t (c ∷ cs) n =
      let rest = counts_match t cs n in
      if wrong_peer t (get_role c.peer_address n.state) then false else rest

  -- Whether the channel's unit has the file; a unit that is not there throws.
  unfoldable pub in_unit : NodeType → ServiceStatisticsFile → Node → Result Bool
  in_unit t f n =
      if same_type t channel
      then elim (get_unit f.unit_uri n.documents) [
        | none ↦ err out_of_range
        | some unit ↦ ok (contains f.file_uri unit.file_uris)
      ]
      else ok true

  unfoldable pub files_match : NodeType → List ServiceStatisticsFile → Node → Result Bool
  unfolding counts_match in_unit
  files_match t [] n = ok true
  files_match t (f ∷ fs) n = bind (in_unit t f n) λ found.
      let rest = files_match t fs n in
      if not found then ok false else if counts_match t f.count_items n then rest else ok false

  -- The same loop, where a wrong item throws.
  unfoldable pub expect_peers : NodeType → List ServiceStatisticsCount → Node → Result (Unit {0})
  expect_peers t [] n = ok tt
  expect_peers t (c ∷ cs) n =
      let rest = expect_peers t cs n in
      if wrong_peer t (get_role c.peer_address n.state) then err wrong_data else rest

  unfoldable pub expect_matches : NodeType → List ServiceStatisticsFile → Node → Result (Unit {0})
  unfolding expect_peers in_unit
  expect_matches t [] n = ok tt
  expect_matches t (f ∷ fs) n = bind (in_unit t f n) λ found.
      let rest = expect_matches t fs n in
      if not found
      then err (uri_invalid f.unit_uri)
      else then_check (expect_peers t f.count_items n) rest

module _ ⦃L : MapLoader⦄ (last_time : ℕ) (addresses : List PublicAddressInfo) where
  abbrev pub timely : StateLayer → ServiceStatistics → Node → Bool
  timely layer s n =
      if is_chain layer
      then in_time last_time s
      else addresses_verified n.state.front_key addresses s

  unfoldable pub can_serve : NodeType → ServiceStatistics → StateLayer → Node → Result Bool
  unfolding addresses_verified files_match
  can_serve t s layer n = bind (from_message (get_balance s.server_address pool n.state)) λ balance.
      if is_some (short_of t balance)
      then ok false
      else if not (timely layer s n)
      then ok false
      else if is_some (reported_unit t s.file_items)
      then ok false
      else if is_some (files_exist (file_uris s.file_items) n.documents)
      then ok false
      else if is_some (units_exist (unit_uris t s.file_items) n.documents)
      then ok false
      else files_match t s.file_items n

abbrev pub refuse_some : {A : Type 0} → Option A → (A → Error) → Result (Unit {0})
refuse_some none e = ok tt
refuse_some (some a) e = err (e a)

module _ ⦃L : MapLoader⦄ (ids : ActionIds) (last_time : ℕ)
    (addresses : List PublicAddressInfo) where
  unfoldable pub action_can_apply :
      SignedTransaction → ServiceStatistics → StateLayer → Node → Result Bool
  unfolding can_serve
  action_can_apply st s layer n = bind (only_signer st.authorizations) λ signer.
      bind (check_authority s.server_address signer ids.service_statistics n.authority_manager)
        λ allowed.
          if not allowed then ok false else elim (serving (get_role s.server_address n.state)) [
            | none ↦ ok false
            | some t ↦ can_serve last_time addresses t s layer n
          ]

  unfoldable pub expect_service :
      NodeType → ServiceStatistics → StateLayer → Node → Result (Unit {0})
  unfolding addresses_verified expect_matches
  expect_service t s layer n =
      bind (from_message (get_balance s.server_address pool n.state)) λ balance. check_all (
        refuse_some (short_of t balance)
          (λ limit. not_enough_balance s.server_address (pair_of balance) (pair_of limit))
        ∷ refuse_if (not (timely last_time addresses layer s n)) wrong_data
        ∷ refuse_some (reported_unit t s.file_items) uri_invalid
        ∷ refuse_some (files_exist (file_uris s.file_items) n.documents) uri_missing
        ∷ refuse_some (units_exist (unit_uris t s.file_items) n.documents) uri_missing
        ∷ expect_matches t s.file_items n
        ∷ [])

  unfoldable pub action_apply :
      SignedTransaction → ServiceStatistics → StateLayer → Eff Node (Unit {0})
  unfolding expect_service
  action_apply st s layer = do
    signer ← reads (λ _. only_signer st.authorizations)
    allowed ← authorized s.server_address signer ids.service_statistics
    throw_if (not allowed)
        (authority_error signer (get_authority s.server_address ids.service_statistics))
    reads (λ n. elim (serving (get_role s.server_address n.state)) [
      | none ↦ err wrong_data
      | some t ↦ expect_service t s layer n
    ])

  unfoldable pub action_revert :
      SignedTransaction → ServiceStatistics → StateLayer → Eff Node (Unit {0})
  action_revert st s layer = do
    signer ← reads (λ _. only_signer st.authorizations)
    allowed ← authorized s.server_address signer ids.service_statistics
    throw_if (not allowed) logic_error
