-- ===== src/HookError.antt =====
-- programs/alien-id-transfer-hook/src/error.rs: the program's own errors; and the errors that
-- reach a caller of the program from the frameworks it runs in.
use Prim.Native.String.{String}

pub data TransferHookError : Type 0 where
  invalid_attestation : TransferHookError
  attestation_expired : TransferHookError
  credential_mismatch : TransferHookError
  schema_mismatch : TransferHookError
  sas_program_mismatch : TransferHookError
  unauthorized_mint_authority : TransferHookError
  invalid_whitelist_entry : TransferHookError
  unauthorized : TransferHookError
  is_not_currently_transferring : TransferHookError
  unauthorized_transfer_authority : TransferHookError
  no_pending_authority : TransferHookError

-- The errors of Anchor's account types and attributes that the program declares.
pub data AnchorError : Type 0 where
  account_not_signer : AnchorError
  account_not_initialized : AnchorError
  account_owned_by_wrong_program : AnchorError
  account_did_not_deserialize : AnchorError
  account_did_not_serialize : AnchorError
  invalid_program_id : AnchorError
  invalid_program_executable : AnchorError
  constraint_mut : AnchorError
  constraint_raw : AnchorError
  constraint_seeds : AnchorError
  constraint_token_mint : AnchorError
  constraint_close : AnchorError

-- `external` is an error of a library or system call, `panic` an abort of the program, and
-- `message` an error text of admin-cli.
pub data Error : Type 0 where
  hook : TransferHookError → Error
  anchor : AnchorError → Error
  external : Error
  panic : Error
  message : String → Error
