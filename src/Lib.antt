-- ===== src/Lib.antt =====
-- A model of solana-sas-extension: the Token-2022 transfer hook
-- (programs/alien-id-transfer-hook) that lets a transfer through only if the transfer authority is
-- whitelisted or holds a live attestation, and the tool that administers it (admin-cli).
--
-- The parts and how they interact. The program keeps, per mint, a config account (HookConfig), a list
-- account that tells Token-2022 which accounts to pass to the hook, and whitelist entries. Seven
-- instructions administer these; the eighth, transfer_hook, is called by Token-2022 during every
-- transfer and only reads. admin-cli derives the addresses, and sends one instruction per command.
--
-- Which file models what (source paths from the repository's root):
-- - Prelude, Prelude/*: library names, Boolean tests, lists and integers over native numbers.
-- - HookError, Result: programs/alien-id-transfer-hook/src/error.rs, and Rust's Result.
-- - Solana, State, Seeds: accounts and the ledger, src/state and src/constants.rs of the program, and
--   the seeds of the derived addresses.
-- - Runtime: what the program calls and the repository does not hold (Solana, Anchor, SPL), as a
--   record of functions; Runtime/Laws states what those functions are documented to do.
-- - Accounts: the checks of Anchor's account types and attributes; Accounts/Laws, loads and saves.
-- - Instructions/*: src/instructions of the program, a file for a file. `validate` is the accounts
--   struct, `handler` the handler, `execute` both with the writing back of the accounts.
-- - Program: src/lib.rs, the dispatch of the entry points.
-- - Attestation: the byte checks of transfer_hook.rs (lines 141 to 179). Attestation/Words has
--   from_le_bytes, Attestation/Layout the documented layout as an encoder, Attestation/Access,
--   /Format, /Soundness and /Verdict the proofs.
-- - Hook/*: proofs about transfer_hook (Acceptance and Errors its handler, Transfer the whole
--   instruction, Resolved a transfer with resolved accounts, Served the stored lists, Whitelisted the
--   whitelist); Admin/*: proofs about the seven other instructions; History/*: one
--   instruction and runs of all eight (Effects, Evolution, Frozen, Guarded, InStep, Lasting);
--   Addresses: the seeds as bytes, and that addresses stand for their seeds; Resolution: how the
--   stored metas resolve.
-- - Registry: what the program promises of one mint, as operations on settings and a whitelist, with no
--   accounts or addresses. Registry/View reads a registry off a ledger, /Sane is the invariant of the
--   program's accounts, /Filled that of the whitelist addresses, /Refines the simulation, /Calls,
--   /Runs and /Enlisting sequences of operations and runs, /Transfers and /Lists what transfers and
--   the stored list make of it, /Enabled what an operation asks for, /Requests the instruction for it,
--   and that it succeeds.
-- - Cli/*: admin-cli/src; Cli/Host is what the tool uses of its libraries, Cli/Utils, /Handlers and
--   /Main are the files of the same names, with the options in Cli/Options; Cli/Printed is a run that
--   prints; the other files there have proofs.
-- - Tests/*: a small world that meets the laws, the theorems at concrete inputs, and runs.
--
-- How state and operations correspond. A ledger is a function from keys to accounts; an instruction
-- takes a ledger to a ledger or an error, and an error leaves the ledger as it was, as a failed
-- transaction does. Keys are numbers, read as the 32 bytes that they stand for, with
-- Pubkey::default() and the System Program's address both 0. The signer and writable flags of the keys
-- and the clock come with the invocation. The checks run in the order: account types in the order of
-- the fields, then `init`, then the other attributes in the order of the fields.
--
-- Bounds and fuel. No definition takes fuel: all recursion is on lists and numbers. Sums at usize
-- panic from 2 ^ 64 on, since the release profile checks overflow; slices and indexing panic out of
-- bounds; an i64 is read in two's complement from eight bytes.
--
-- What is not modelled: the program's logging; lamport balances beyond what the laws of Runtime need;
-- compute budgets; an upgrade of the program to other code; clap's parsing; the account borrow checks,
-- which cannot fail while each account is borrowed once. The TypeScript SDK, deployment scripts and
-- tests are no part of the model.
pub mod Prelude
pub mod HookError
pub mod Result
pub mod Solana
pub mod State
pub mod Seeds
pub mod Runtime
pub mod Accounts
pub mod Attestation
pub mod Instructions
pub mod Program
pub mod Admin
pub mod History
pub mod Addresses
pub mod Registry
pub mod Resolution
pub mod Hook
pub mod Cli
pub mod Tests
