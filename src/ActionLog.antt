-- ===== src/ActionLog.antt =====
-- src/libblockchain/action_log.cpp: a vector of what the node applied and reverted. Reverting finds the
-- last action that still stands, and adds a mark for it.
pub mod Standing
pub mod Stack
pub mod Run
use Prim.Native.String.{len}
use publiq_pp.Base.{
  ℕ, zero, suc, ◌+◌, ◌-◌, ◌%◌, Bool, true, false, not, Option, none, some, List, [], ◌∷◌, map,
  String, if◌then◌else◌, ◌==◌,
}
use publiq_pp.Base.Effects.{
  Error, assertion_failed, out_of_range, runtime_error, Result, ok, err, bind, Eff, ◌>>=◌, ◌>>◌,
  pure, reads, modify,
}
use publiq_pp.Coin.{Coin, u64_mod}
use publiq_pp.Loaders.{VectorLoader}
use publiq_pp.Node.{SignedTransaction}
use publiq_pp.Blockchain.{Block, SignedBlock, Reward, get_miner}

pub record TransactionLog : Type 0 where
  pub fee : Coin
  pub action : String
  pub transaction_hash : String
  pub transaction_size : ℕ
  pub time_signed : ℕ

-- A `RewardLog` has the fields of a `Reward`.
pub record BlockLog : Type 0 where
  pub authority : String
  pub block_hash : String
  pub block_number : ℕ
  pub block_size : ℕ
  pub time_signed : ℕ
  pub rewards : List Reward
  pub transactions : List TransactionLog
  pub unit_uri_impacts : List (String × List (String × ℕ))
  pub applied_sponsor_items : List (String × Coin)

-- The object that an entry carries.
pub data Logged : Type 0 where
  block_logged : BlockLog → Logged
  transaction_logged : TransactionLog → Logged

-- `LoggedTransaction`; `is_apply` tells `LoggingType::apply` from `LoggingType::revert`.
pub record Entry : Type 0 where
  pub is_apply : Bool
  pub index : ℕ
  pub action : Logged

module _ ⦃L : VectorLoader⦄ where
  open L use {Vec, size, at as elem_at, push_back}

  pub record ActionLog : Type 0 where
    pub actions : Vec Entry
    pub enabled : Bool
    pub revert_index : ℕ

  unfoldable pub length : ActionLog → ℕ
  length l = size l.actions

  unfoldable pub at : ℕ → ActionLog → Result Entry
  at number l = elim (elem_at l.actions number) [ none ↦ err out_of_range | some e ↦ ok e ]

  -- the constructor, on what the vector holds
  unfoldable pub open_log : Vec Entry → Bool → ActionLog
  open_log actions enabled = record {
    actions = actions;
    enabled = enabled;
    revert_index = (size actions + u64_mod - 1) % u64_mod;
  }

  -- `discard` on the vector that the loader came back to
  unfoldable pub discard : Vec Entry → ActionLog → ActionLog
  discard actions l = record {
    actions = actions;
    enabled = l.enabled;
    revert_index = (size actions + u64_mod - 1) % u64_mod;
  }

  unfoldable pub insert : Logged → ActionLog → ActionLog
  unfolding length
  insert action l = record l {
    actions = push_back l.actions (record { is_apply = true; index = length l; action = action });
    revert_index = length l;
  }

  -- The while loop of `revert`: `mark` counts the reverts whose action is still to be passed.
  unfoldable pub find_standing : ActionLog → ℕ → ℕ → Result ℕ
  unfolding at
  find_standing l mark zero = bind (at zero l) λ e.
      if e.is_apply then if mark == 0 then ok zero else err runtime_error else err runtime_error
  find_standing l mark (suc i) = bind (at (suc i) l) λ e.
      let rest = find_standing l (if e.is_apply then mark - 1 else mark + 1) i in
      if e.is_apply then if mark == 0 then ok (suc i) else rest else rest

  mark_reverted : ℕ → Entry → ActionLog → ActionLog
  mark_reverted i e l = record l {
    actions = push_back l.actions (record e { is_apply = false });
    revert_index = (i + u64_mod - 1) % u64_mod;
  }

  unfoldable pub revert : Eff ActionLog (Unit {0})
  unfolding find_standing at mark_reverted
  revert l =
      if not l.enabled
      then (ok tt, l)
      else (do
        i ← reads (λ l. find_standing l 0 l.revert_index)
        e ← reads (at i)
        checked ← reads (λ l. if e.is_apply then ok tt else err assertion_failed)
        modify (mark_reverted i e))
          l

module _ ⦃L : VectorLoader⦄ (hash : String → String) (text_of : SignedTransaction → String) where
  abbrev pub transaction_log_of : SignedTransaction → TransactionLog
  transaction_log_of st = record {
    fee = st.fee;
    action = st.action;
    transaction_hash = hash (text_of st);
    transaction_size = len (text_of st);
    time_signed = st.creation;
  }

  unfoldable pub log_transaction : SignedTransaction → ActionLog → ActionLog
  unfolding insert
  log_transaction st l =
      if not l.enabled then l else insert (transaction_logged (transaction_log_of st)) l

  unfoldable pub log_block :
      (Block → String)
      → SignedBlock
      → List (String × List (String × ℕ))
      → List (String × Coin)
      → Eff ActionLog (Unit {0})
  unfolding insert get_miner
  log_block block_text b unit_uri_view_counts applied_sponsor_items l =
      if not l.enabled
      then (ok tt, l)
      else (do
        miner ← reads (λ _. get_miner b)
        modify (
            insert (
              block_logged (record {
                authority = miner;
                block_hash = hash (block_text b.block_details);
                block_number = b.block_details.header.block_number;
                block_size = len (block_text b.block_details);
                time_signed = b.block_details.header.time_signed;
                rewards = b.block_details.rewards;
                transactions = map transaction_log_of b.block_details.signed_transactions;
                unit_uri_impacts = unit_uri_view_counts;
                applied_sponsor_items = applied_sponsor_items;
              }))))
          l
