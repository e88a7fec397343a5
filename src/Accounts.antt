-- ===== src/Accounts.antt =====
-- The checks that the account types and attributes of an accounts struct declare, as Anchor
-- documents them: each instruction module composes those that its struct names.
pub mod Laws
use solana_sas_extension.Prelude.{ℕ, not, ◌&&◌, none, some, Option, List, [], ◌∷◌, ◌++◌, ◌==◌}
use solana_sas_extension.HookError.{
  anchor, account_not_signer, account_not_initialized, account_owned_by_wrong_program,
  account_did_not_deserialize, account_did_not_serialize, invalid_program_id,
  invalid_program_executable, constraint_mut, constraint_raw, constraint_seeds,
}
use solana_sas_extension.Result.{Result, ok, err, Done, ◌>>=◌, ◌>>◌, require, ok_or}
use solana_sas_extension.Solana.{
  Pubkey, Bytes, Account, Ledger, Invocation, update, system_program_id,
}
use solana_sas_extension.State.{HookConfig, WhitelistEntry}
use solana_sas_extension.Runtime.{Runtime}

-- `Signer`
abbrev pub signer : Invocation → Pubkey → Done
signer tx key = require (tx.is_signer key) (anchor account_not_signer)

-- `#[account(mut)]`
abbrev pub mutable : Invocation → Pubkey → Done
mutable tx key = require (tx.is_writable key) (anchor constraint_mut)

-- `Program<System>`
abbrev pub system_program : Ledger → Pubkey → Done
system_program l key = do
  require (key == system_program_id) (anchor invalid_program_id)
  require (l key).executable (anchor invalid_program_executable)

-- `constraint = a.key() == b`, with no error of its own
abbrev pub same_key : Pubkey → Pubkey → Done
same_key a b = require (a == b) (anchor constraint_raw)

module _ (rt : Runtime) where
  -- `Account<T>`: created, and owned by the program
  abbrev pub owned : Account → Done
  owned a = do
    require (not (a.owner == system_program_id && a.lamports == 0)) (anchor account_not_initialized)
    require (a.owner == rt.program_id) (anchor account_owned_by_wrong_program)

  -- `Account<HookConfig>`, read on entry and written on exit
  unfoldable pub load_config : Ledger → Pubkey → Result HookConfig
  load_config l key = do
    owned (l key)
    ok_or (rt.read_config (l key).bytes) (anchor account_did_not_deserialize)

  unfoldable pub save_config : Ledger → Pubkey → HookConfig → Result Ledger
  save_config l key c = do
    b ← ok_or (rt.write_config c (l key).bytes) (anchor account_did_not_serialize)
    ok (update l key (record (l key) { bytes = b }))

  -- `Account<WhitelistEntry>`
  unfoldable pub load_entry : Ledger → Pubkey → Result WhitelistEntry
  load_entry l key = do
    owned (l key)
    ok_or (rt.read_entry (l key).bytes) (anchor account_did_not_deserialize)

  unfoldable pub save_entry : Ledger → Pubkey → WhitelistEntry → Result Ledger
  save_entry l key e = do
    b ← ok_or (rt.write_entry e (l key).bytes) (anchor account_did_not_serialize)
    ok (update l key (record (l key) { bytes = b }))

  -- `seeds = […], bump`: the derived address, with the bump that was found
  abbrev pub seeds_found : List Bytes → Pubkey → Result ℕ
  seeds_found seeds key = do
    let found = rt.find_program_address seeds rt.program_id
    require (key == found.0) (anchor constraint_seeds)
    ok found.1

  abbrev same_address : Option Pubkey → Pubkey → Done
  same_address none key = err (anchor constraint_seeds)
  same_address (some pda) key = require (key == pda) (anchor constraint_seeds)

  -- `seeds = […], bump = b`: the address that the seeds and the given bump derive
  abbrev pub seeds_with_bump : List Bytes → ℕ → Pubkey → Done
  seeds_with_bump seeds bump key =
      same_address (rt.create_program_address (seeds ++ (bump ∷ []) ∷ []) rt.program_id) key
