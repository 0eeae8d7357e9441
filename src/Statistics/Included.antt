-- ===== src/Statistics/Included.antt =====
-- `check_service_statistics` of src/libblockchain/communication_p2p.cpp: a block must include half of the
-- reports that are known. What a transaction's action reports is read through the generated
-- package, the parameter `statistics_of`.
use publiq_pp.Base.{
  ℕ, suc, ◌+◌, ◌*◌, ◌%◌, ◌<◌, ◌≤◌, ◌≡◌, ◌↔◌, length, Bool, false, not, ◌&&◌, ◌||◌, Option, none,
  some, List, [], ◌∷◌, ◌++◌, arith, ltb, ◌==◌, if◌then◌else◌,
}
use publiq_pp.Coin.{u64_mod}
use publiq_pp.Loaders.{MapLoader}
use publiq_pp.State.{State, NodeType, channel, same_type, get_role}
use publiq_pp.Node.{SignedTransaction}
use publiq_pp.Blockchain.{Block}
use publiq_pp.Consensus.{block_mine_delay}
use publiq_pp.Statistics.{ServiceStatistics}

-- The report is about the time between the last two headers before the block's.
abbrev pub covers : ℕ → ServiceStatistics → Bool
covers time_signed s =
    s.start_time_point + 2 * block_mine_delay == time_signed
    && s.end_time_point + block_mine_delay == time_signed

-- The counts of channels and of storages; any other role is counted with the storages.
abbrev pub counted : Option NodeType → ℕ × ℕ → ℕ × ℕ
counted none n = n
counted (some t) (channels, storages) =
    if same_type t channel then (channels + 1, storages) else (channels, storages + 1)

-- The two kinds of report that are counted.
abbrev pub by_channel : NodeType → Bool
by_channel t = same_type t channel

abbrev pub by_other : NodeType → Bool
by_other t = not (same_type t channel)

module _ ⦃L : MapLoader⦄ (statistics_of : SignedTransaction → Option ServiceStatistics)
    (state : State) where
  abbrev pub tally_one : ℕ → Option ServiceStatistics → ℕ × ℕ → ℕ × ℕ
  tally_one time_signed none n = n
  tally_one time_signed (some s) n =
      if covers time_signed s then counted (get_role s.server_address state) n else n

  unfoldable pub tally : ℕ → List SignedTransaction → ℕ × ℕ → ℕ × ℕ
  tally time_signed [] n = n
  tally time_signed (st ∷ sts) n =
      tally time_signed sts (tally_one time_signed (statistics_of st) n)

  -- true means an error
  unfoldable pub check_service_statistics :
      Block → List SignedTransaction → List SignedTransaction → Bool
  unfolding tally
  check_service_statistics block pool_transactions reverted_transactions =
      let t = block.header.time_signed in
      let in_block = tally t block.signed_transactions (0, 0) in
      let known = tally t reverted_transactions (tally t pool_transactions (0, 0)) in
      ltb ((2 * in_block.0) % u64_mod) known.0 || ltb ((2 * in_block.1) % u64_mod) known.1

  -- Whether a transaction is a report on the time from two delays to one before `time_signed`, by an
  -- account whose role is one that `kind` accepts.
  abbrev pub is_report : (NodeType → Bool) → ℕ → SignedTransaction → Bool
  is_report kind time_signed st = elim (statistics_of st) [
    | none ↦ false
    | some s ↦
        s.start_time_point + 1200 == time_signed
        && s.end_time_point + 600 == time_signed
        && elim (get_role s.server_address state) [ none ↦ false | some t ↦ kind t ]
  ]

  -- How many reports of the kind a list has.
  abbrev pub reports : (NodeType → Bool) → ℕ → List SignedTransaction → ℕ
  reports kind time_signed [] = 0
  reports kind time_signed (st ∷ sts) =
      let rest = reports kind time_signed sts in
      if is_report kind time_signed st then suc rest else rest

  tally_lem :
      (t : ℕ) (sts : List SignedTransaction) (n : ℕ × ℕ)
      → ((tally t sts n).0 ≡ n.0 + reports by_channel t sts)
        × ((tally t sts n).1 ≡ n.1 + reports by_other t sts)
  unfolding tally
  tally_lem t [] n = (omega arith, omega arith)
  tally_lem t (st ∷ sts) n =
      let rest = tally_lem t sts (tally_one t (statistics_of st) n) in
      (ground (arith, rest.0), ground (arith, rest.1))

  reports-append :
      (kind : NodeType → Bool) (t : ℕ) (xs ys : List SignedTransaction)
      → reports kind t (xs ++ ys) ≡ reports kind t xs + reports kind t ys
  reports-append kind t [] ys = omega arith
  reports-append kind t (x ∷ xs) ys = ground (arith, reports-append kind t xs ys)

  reports-length :
      (kind : NodeType → Bool) (t : ℕ) (xs : List SignedTransaction) → reports kind t xs ≤ length xs
  reports-length kind t [] = omega arith
  reports-length kind t (x ∷ xs) = ground (arith, reports-length kind t xs)

  -- For a block with twice the number of its transactions within a word, `check_service_statistics`
  -- finds no error exactly where twice the block's own reports on the time before it, of channels
  -- and of other accounts with a role separately, are at least as many as such reports are among
  -- the known transactions of the pool and the reverted ones together.
  pub half_included_iff :
      (block : Block) (pool_transactions reverted_transactions : List SignedTransaction)
      → 2 * length block.signed_transactions < u64_mod
      → let t = block.header.time_signed in
        let known = pool_transactions ++ reverted_transactions in
        (check_service_statistics block pool_transactions reverted_transactions ≡ false) ↔ (
          (reports by_channel t known ≤ 2 * reports by_channel t block.signed_transactions)
          × (reports by_other t known ≤ 2 * reports by_other t block.signed_transactions))
  unfolding check_service_statistics
  half_included_iff block pool reverted small =
      let t = block.header.time_signed in
      let own = tally_lem t block.signed_transactions (0, 0) in
      let first = tally_lem t pool (0, 0) in
      let all = tally_lem t reverted (tally t pool (0, 0)) in
      let sum1 = reports-append by_channel t pool reverted in
      let sum2 = reports-append by_other t pool reverted in
      let short1 = reports-length by_channel t block.signed_transactions in
      let short2 = reports-length by_other t block.signed_transactions in
      let fits1 : (2 * (tally t block.signed_transactions (0, 0)).0) % u64_mod
          ≡ 2 * reports by_channel t block.signed_transactions =
        omega (arith, own.0, short1, small) in
      let fits2 : (2 * (tally t block.signed_transactions (0, 0)).1) % u64_mod
          ≡ 2 * reports by_other t block.signed_transactions =
        omega (arith, own.1, short2, small) in
      ground (arith, fits1, fits2, first.0, first.1, all.0, all.1, sum1, sum2)
