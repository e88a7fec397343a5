-- ===== src/Instructions.antt =====
-- programs/alien-id-transfer-hook/src/instructions: a module for each instruction. Each has the
-- accounts struct, `validate` (the checks that the struct declares, account types first, then
-- `init`, then the attributes in the order of the fields), `handler`, and `execute`, which runs
-- the two and writes the changed accounts back.
pub mod InitializeConfig
pub mod UpdateConfig
pub mod TransferAuthority
pub mod AcceptAuthority
pub mod AddToWhitelist
pub mod RemoveFromWhitelist
pub mod InitializeExtraAccountMetaList
pub mod TransferHook
