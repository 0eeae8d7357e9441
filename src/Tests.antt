-- ===== src/Tests.antt =====
-- Concrete runs of the modelled code, and a concrete case of each theorem that has hypotheses.
mod Nodes
mod Coins
mod Payments
mod Authorities
mod Documents
mod Transactions
mod Caches
mod Chains
mod Logs
mod Payouts
mod Reports
mod Storages
