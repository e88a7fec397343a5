-- ===== src/Tests/Transfers.antt =====
-- The hook at concrete transfers of a mint with one whitelisted wallet.
use solana_sas_extension.Prelude.{◌≡◌, ◌≢◌, ◌⊎◌, ◌↔◌, refl, true, false, none}
use solana_sas_extension.Prelude.Int.{pos}
use solana_sas_extension.HookError.{hook, invalid_attestation}
use solana_sas_extension.Result.{ok, err}
use solana_sas_extension.Solana.{Ledger, update}
use solana_sas_extension.Runtime.{TokenAccount}
use solana_sas_extension.Accounts.{load_config, save_config}
use solana_sas_extension.Attestation.Words.{AreBytes}
use solana_sas_extension.Attestation.{
  index, slice, add_usize, read_data_len, read_expiry, check_expiry, verify,
}
use solana_sas_extension.Attestation.Words.{from_le_bytes}
use solana_sas_extension.Instructions.InitializeConfig
use solana_sas_extension.Instructions.TransferHook
use solana_sas_extension.Instructions.TransferHook.{
  TransferHook, handler, may_transfer, assert_is_transferring, check_whitelist, check_attestation,
}
use solana_sas_extension.Hook.Acceptance.{MayTransfer, IsWhitelisted, IsAttested, handler_accepts}
use solana_sas_extension.Hook.Errors.{IsHandlerError, handler_errors}
use solana_sas_extension.Resolution.{expected}
use solana_sas_extension.Tests.World.{world, digest}
use solana_sas_extension.Tests.Attestations.{stored, stored_bytes}
use solana_sas_extension.Tests.Scenario.{by, list_key, after_initialize, first_config}

-- The wallet 102 sends from its own account.
abbrev pub transfer : TransferHook
transfer = expected world first_config 60 50 61 102 list_key

abbrev pub source : TokenAccount
source = record { mint = 50; owner = 102; delegate = none; delegated_amount = 0 }

-- The wallet has an attestation until 2000, and is not whitelisted.
abbrev pub attested : Ledger
attested =
    update after_initialize transfer.attestation
      (record { lamports = 1; owner = 203; bytes = stored; executable = false })

pub attested_bytes : AreBytes (attested transfer.attestation).bytes
unfolding digest
attested_bytes = stored_bytes

pub attested_passes : TransferHook.execute world (by 102) transfer 5 attested ≡ ok tt
unfolding TransferHook.execute TransferHook.validate handler may_transfer assert_is_transferring
    check_attestation InitializeConfig.execute load_config save_config digest verify read_expiry
    read_data_len check_expiry index slice add_usize from_le_bytes
attested_passes = refl

handler_accepts_example : (handler world (by 102) transfer source first_config attested ≡ ok tt) ↔ (
    (world.transferring (attested transfer.source_token).bytes ≡ ok true)
    × MayTransfer source 102
    × (IsWhitelisted world transfer first_config attested
        ⊎ (((attested transfer.whitelist_entry).owner ≢ 7)
            × IsAttested world transfer first_config attested (pos 1000))))
handler_accepts_example =
    handler_accepts world transfer first_config attested (by 102) (pos 1000) refl attested_bytes
      source

-- Without an attestation, and not whitelisted.
plain_bytes : AreBytes (after_initialize transfer.attestation).bytes
unfolding InitializeConfig.execute load_config save_config digest
plain_bytes = tt

plain_flag : world.transferring (after_initialize transfer.source_token).bytes ≡ ok true
unfolding InitializeConfig.execute load_config save_config digest
plain_flag = refl

plain_fails :
    handler world (by 102) transfer source first_config after_initialize
    ≡ err (hook invalid_attestation)
unfolding handler may_transfer assert_is_transferring check_attestation InitializeConfig.execute
    load_config save_config digest
plain_fails = refl

handler_errors_example : IsHandlerError (hook invalid_attestation)
handler_errors_example =
    handler_errors world transfer first_config after_initialize (by 102) source (pos 1000) true
      (hook invalid_attestation) refl plain_flag plain_bytes plain_fails
