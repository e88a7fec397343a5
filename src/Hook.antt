-- ===== src/Hook.antt =====
-- What programs/alien-id-transfer-hook/src/instructions/transfer_hook.rs decides about a transfer.
pub mod Acceptance
pub mod Errors
pub mod Resolved
pub mod Served
pub mod Transfer
pub mod Whitelisted
