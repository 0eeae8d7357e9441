-- ===== src/Transaction.antt =====
-- src/libblockchain/transaction_*.cpp: the kinds of action, each with the functions that the
-- handler calls: `action_owners`, `action_participants`, `action_validate`, `action_is_complete`,
-- `action_can_apply`, `action_apply` and `action_revert`.
pub mod Validate
pub mod Fee
pub mod Transfer
pub mod Authorization
pub mod Authors
pub mod File
pub mod ContentUnit
pub mod StorageUpdate
pub mod Role
pub mod Content
pub mod ServiceStatistics
pub mod Apply
