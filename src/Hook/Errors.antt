-- ===== src/Hook/Errors.antt =====
-- The errors of the hook: which ones its handler can end with.
use solana_sas_extension.Prelude.{◌≡◌, Bool, arith}
use solana_sas_extension.Prelude.Int.{ℤ}
use solana_sas_extension.HookError.{
  Error, hook, invalid_attestation, attestation_expired, credential_mismatch, schema_mismatch,
  sas_program_mismatch, invalid_whitelist_entry, is_not_currently_transferring,
  unauthorized_transfer_authority,
}
use solana_sas_extension.Result.{ok, err}
use solana_sas_extension.Solana.{Ledger, Invocation}
use solana_sas_extension.State.{HookConfig}
use solana_sas_extension.Runtime.{Runtime, TokenAccount}
use solana_sas_extension.Attestation.Words.{AreBytes}
use solana_sas_extension.Attestation.Verdict.{verify_errors}
use solana_sas_extension.Instructions.TransferHook.{
  TransferHook, assert_is_transferring, check_whitelist, check_attestation, handler,
}

-- The errors of error.rs that the hook's handler uses.
abbrev pub IsHandlerError : Error → Type 0
IsHandlerError (hook invalid_attestation) = Unit
IsHandlerError (hook attestation_expired) = Unit
IsHandlerError (hook credential_mismatch) = Unit
IsHandlerError (hook schema_mismatch) = Unit
IsHandlerError (hook sas_program_mismatch) = Unit
IsHandlerError (hook invalid_whitelist_entry) = Unit
IsHandlerError (hook is_not_currently_transferring) = Unit
IsHandlerError (hook unauthorized_transfer_authority) = Unit
IsHandlerError e = ⊥

module _ (rt : Runtime) (a : TransferHook) (config : HookConfig) (l : Ledger) where
  check_attestation_errors :
      (tx : Invocation) (now : ℤ) (e : Error)
      → tx.clock ≡ ok now
      → AreBytes (l a.attestation).bytes
      → check_attestation rt tx a config l ≡ err e
      → IsHandlerError e
  unfolding check_attestation
  check_attestation_errors tx now e clock are h =
      ground (arith, verify_errors (l a.attestation).bytes now e are)

  -- Where Token-2022's data and the clock can be read, the handler ends with `ok` or with one of
  -- its own eight errors.
  pub handler_errors :
      (tx : Invocation) (source : TokenAccount) (now : ℤ) (flag : Bool) (e : Error)
      → tx.clock ≡ ok now
      → rt.transferring (l a.source_token).bytes ≡ ok flag
      → AreBytes (l a.attestation).bytes
      → handler rt tx a source config l ≡ err e
      → IsHandlerError e
  unfolding handler assert_is_transferring check_whitelist
  handler_errors tx source now flag e clock transferring are h =
      ground (arith, check_attestation_errors tx now e)
