-- ===== src/Admin.antt =====
-- What the administrative instructions of programs/alien-id-transfer-hook do to the ledger.
pub mod Checks
pub mod Authority
pub mod Whitelist
pub mod Config
pub mod ListWrites
pub mod MetaList
