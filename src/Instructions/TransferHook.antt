-- ===== src/Instructions/TransferHook.antt =====
-- programs/alien-id-transfer-hook/src/instructions/transfer_hook.rs: the instruction that
-- Token-2022 calls during each transfer.
use solana_sas_extension.Prelude.{
  ℕ, Bool, false, ◌&&◌, ◌||◌, Option, none, some, ◌==◌, ltb, if◌then◌else◌,
}
use solana_sas_extension.HookError.{
  hook, anchor, constraint_token_mint, is_not_currently_transferring,
  unauthorized_transfer_authority, invalid_whitelist_entry, credential_mismatch, schema_mismatch,
  sas_program_mismatch, invalid_attestation,
}
use solana_sas_extension.Result.{Result, ok, ◌>>=◌, ◌>>◌, Done, require}
use solana_sas_extension.Solana.{Pubkey, Ledger, Invocation}
use solana_sas_extension.State.{HookConfig}
use solana_sas_extension.Seeds.{config_seeds, meta_list_seeds, whitelist_seeds, attestation_seeds}
use solana_sas_extension.Runtime.{Runtime, TokenAccount}
use solana_sas_extension.Accounts.{load_config, seeds_found, seeds_with_bump}
use solana_sas_extension.Attestation.{verify}

pub record TransferHook : Type 0 where
  pub source_token : Pubkey
  pub mint : Pubkey
  pub destination_token : Pubkey
  pub transfer_authority : Pubkey
  pub extra_account_meta_list : Pubkey
  pub config : Pubkey
  pub credential : Pubkey
  pub schema : Pubkey
  pub sas_program : Pubkey
  pub attestation : Pubkey
  pub whitelist_entry : Pubkey

-- `Option::<Pubkey>::from(delegate).map(|d| d == owner_key).unwrap_or(false)`
abbrev pub is_delegate : Option Pubkey → Pubkey → Bool
is_delegate none key = false
is_delegate (some d) key = d == key

-- `is_direct_owner || is_approved_delegate`
unfoldable pub may_transfer : TokenAccount → Pubkey → Bool
may_transfer source key =
    let is_direct_owner = source.owner == key in
    let is_approved_delegate = is_delegate source.delegate key && ltb 0 source.delegated_amount in
    is_direct_owner || is_approved_delegate

module _ (rt : Runtime) where
  -- `token::mint = mint`
  abbrev pub token_mint : TokenAccount → Pubkey → Done
  token_mint token mint = require (token.mint == mint) (anchor constraint_token_mint)

  unfoldable pub validate : TransferHook → Ledger → Result (TokenAccount × HookConfig)
  validate a l = do
    source ← rt.read_token (l a.source_token)
    rt.read_mint (l a.mint)
    destination ← rt.read_token (l a.destination_token)
    config ← load_config rt l a.config
    token_mint source a.mint
    token_mint destination a.mint
    seeds_found rt (meta_list_seeds rt a.mint) a.extra_account_meta_list
    seeds_with_bump rt (config_seeds rt a.mint) config.bump a.config
    ok (source, config)

  unfoldable pub assert_is_transferring : TransferHook → Ledger → Done
  assert_is_transferring a l = do
    transferring ← rt.transferring (l a.source_token).bytes
    require transferring (hook is_not_currently_transferring)

  -- The branch for an entry that the program owns: only the address is checked.
  unfoldable pub check_whitelist : TransferHook → Done
  check_whitelist a =
      let expected =
        rt.find_program_address (whitelist_seeds rt a.mint a.transfer_authority) rt.program_id in
      require (a.whitelist_entry == expected.0) (hook invalid_whitelist_entry)

  -- The branch for everyone else.
  unfoldable pub check_attestation : Invocation → TransferHook → HookConfig → Ledger → Done
  check_attestation tx a config l = do
    require (a.credential == config.credential) (hook credential_mismatch)
    require (a.schema == config.schema) (hook schema_mismatch)
    require (a.sas_program == config.sas_program) (hook sas_program_mismatch)
    let expected =
        rt.find_program_address
          (attestation_seeds rt config.credential config.schema a.transfer_authority)
          config.sas_program
    require (a.attestation == expected.0) (hook invalid_attestation)
    require ((l a.attestation).owner == config.sas_program) (hook invalid_attestation)
    verify (l a.attestation).bytes tx.clock

  unfoldable pub handler : Invocation → TransferHook → TokenAccount → HookConfig → Ledger → Done
  handler tx a source config l = do
    assert_is_transferring a l
    require (may_transfer source a.transfer_authority) (hook unauthorized_transfer_authority)
    if (l a.whitelist_entry).owner == rt.program_id
        then check_whitelist a
        else check_attestation tx a config l

  -- The hook changes no account: a transfer goes on exactly when this is `ok`.
  -- The amount is not looked at.
  unfoldable pub execute : Invocation → TransferHook → ℕ → Ledger → Done
  execute tx a amount l = do (source, config) ← validate a l; handler tx a source config l
