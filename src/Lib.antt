-- ===== src/Lib.antt =====
-- Verification of publiq.pp, a blockchain for content: its ledger of coins, the authorities of its
-- accounts, its documents, the actions by which signed transactions change them, and the chain of
-- blocks with its log, its rules and its rewards.
--
-- How the program works. A node (src/libblockchain/node_internals.hpp) keeps a state of balances and
-- roles, a store of authorities and a registry of documents. A signed transaction carries one action
-- and a fee. `apply_transaction` asks the action whether it can be applied, applies it, asks whether
-- the owner's balance covers the fee, and moves the fee or reverts the action. Blocks are undone by
-- reverting their transactions, so that each action has a function that reverts it. The chain keeps
-- the blocks and their headers; a new header must follow the last one by the rules of consensus, and
-- the rewards of a block divide its emission and what sponsors pay. A log tells what was applied and
-- reverted, in order.
--
-- Which file models which part:
--   Coin          src/libblockchain/coin.cpp: two words, a whole part and a fraction
--   State         src/libblockchain/state.cpp: balances in two layers, and roles; State/Layers is how the
--                 chain layer's balance of the node's own key follows the pool layer's
--   Authority     src/libblockchain/authority_manager.cpp: who may sign what for whom
--   Documents     src/libblockchain/documents.cpp: files, content units, and who stores a file
--   Node          the parts that actions change, from node_internals.hpp and message.idl; Node/View is
--                 what the operations read of a node, compared field by field, and when a node is valid
--   Cache         `transaction_cache` of node_internals.hpp
--   Blockchain    src/libblockchain/blockchain.cpp: the headers and blocks, the last hash and header
--   ActionLog     src/libblockchain/action_log.cpp: what was applied, and marks for what was reverted
--   Consensus     `check_headers` and `check_delta_vector` of communication_p2p.cpp,
--                 `check_headers_vector` of sessions.cpp, `calc_delta` and `is_miner` of
--                 node_internals.hpp; Consensus/Sync is node_synchronization.cpp
--   Storage       `storage_controller` of storage.cpp: the files that a storage is to fetch
--   Statistics    `validate_statistics` and `check_service_statistics` of communication_p2p.cpp, on the
--                 reports of channels and storages
--   Rewards       `distribute_rewards`, `grant_rewards` from the emission on, and `check_rewards`, of
--                 communication_p2p.cpp
--   Transaction   the actions: Transfer, Authorization, Role, File, ContentUnit, Content and
--                 StorageUpdate from the transaction_*.cpp file of that name, ServiceStatistics from
--                 transaction_statinfo.cpp, Fee and Validate from
--                 transaction_handler.cpp, and Apply from communication_p2p.cpp (`apply_transaction`
--                 and `revert_transaction`)
--   Loaders       the map loader and the vector loader of mesh.pp, a submodule that the repository
--                 does not hold, as interfaces with the laws of a map and of a sequence;
--                 Loaders/Assoc and Loaders/Sequence are instances
--   Base          shared names, exceptions and state passing, texts and association lists
--   Tests         runs and concrete cases
-- An operation keeps its name. A function that throws returns a `Result`; one that changes an object
-- is an `Eff`, which gives the result and the object after it, also where it throws.
--
-- Bounds. A uint64_t is a natural number, and each operation is taken modulo 2 ^ 64 where the
-- source's may wrap. Times are whole seconds. Every loop is recursion on a list, or on an index
-- that falls (ActionLog) or a count of rounds that the length gives (Consensus), so that no fuel
-- is needed. The hashes of mesh.pp (`Cache`, Blockchain, ActionLog) and its distance of hashes
-- (`calc_delta`), its readers of keys and of base58 (`Crypto` in Node) and its check of a
-- signature (`Verifier` in Validate), the ids that the build generates for the kinds of action
-- (`ActionIds`) and the check of a unit's files and the count of a channel's views, function
-- pointers of the node, are parameters; so are `stat_mismatch`, which compares in floating point,
-- and the generated comparison of two rewards. A character of a text stands for a byte of a
-- std::string. A set is a list in the order in which it is walked. An `assert` that does not hold
-- is an exception of its own, as is an index past the end of a vector. Of the exceptions the
-- addresses, uris and amounts are kept, and not the texts.
--
-- Not modelled: sponsoring, and with it the first half of `grant_rewards`; the mining of a block,
-- the transaction pool, the sessions, the files that a storage keeps, the dispatch over the kinds
-- of action, and `save`, `commit` and `clear`, which forward to the loaders; networking,
-- configuration, the programs around the library and the code generators.
pub mod Base
pub mod Coin
pub mod Loaders
pub mod State
pub mod Authority
pub mod Documents
pub mod Node
pub mod Cache
pub mod Blockchain
pub mod ActionLog
pub mod Consensus
pub mod Rewards
pub mod Statistics
pub mod Storage
pub mod Transaction
pub mod Tests
