-- ===== src/Program.antt =====
-- programs/alien-id-transfer-hook/src/lib.rs: the program's entry points, and a run of one.
use solana_sas_extension.Prelude.{ℕ}
use solana_sas_extension.Result.{Result, ok, err, ◌>>◌}
use solana_sas_extension.Solana.{Pubkey, Ledger, Invocation}
use solana_sas_extension.Runtime.{Runtime}
use solana_sas_extension.Instructions.InitializeConfig
use solana_sas_extension.Instructions.UpdateConfig
use solana_sas_extension.Instructions.TransferAuthority
use solana_sas_extension.Instructions.AcceptAuthority
use solana_sas_extension.Instructions.AddToWhitelist
use solana_sas_extension.Instructions.RemoveFromWhitelist
use solana_sas_extension.Instructions.InitializeExtraAccountMetaList
use solana_sas_extension.Instructions.TransferHook

-- The functions of `mod alien_id_transfer_hook`, each with its accounts and arguments.
pub data Instruction : Type 0 where
  initialize_config : InitializeConfig.InitializeConfig → Pubkey → Pubkey → Pubkey → Instruction
  update_config : UpdateConfig.UpdateConfig → Pubkey → Pubkey → Pubkey → Instruction
  add_to_whitelist : AddToWhitelist.AddToWhitelist → Pubkey → Instruction
  remove_from_whitelist : RemoveFromWhitelist.RemoveFromWhitelist → Pubkey → Instruction
  transfer_authority : TransferAuthority.TransferAuthority → Instruction
  accept_authority : AcceptAuthority.AcceptAuthority → Instruction
  initialize_extra_account_meta_list :
      InitializeExtraAccountMetaList.InitializeExtraAccountMetaList → Instruction
  transfer_hook : TransferHook.TransferHook → ℕ → Instruction

module _ (rt : Runtime) where
  unfoldable pub process : Invocation → Instruction → Ledger → Result Ledger
  process tx (initialize_config a credential schema sas_program) l =
      InitializeConfig.execute rt tx a credential schema sas_program l
  process tx (update_config a credential schema sas_program) l =
      UpdateConfig.execute rt tx a credential schema sas_program l
  process tx (add_to_whitelist a wallet) l = AddToWhitelist.execute rt tx a wallet l
  process tx (remove_from_whitelist a wallet) l = RemoveFromWhitelist.execute rt tx a wallet l
  process tx (transfer_authority a) l = TransferAuthority.execute rt tx a l
  process tx (accept_authority a) l = AcceptAuthority.execute rt tx a l
  process tx (initialize_extra_account_meta_list a) l =
      InitializeExtraAccountMetaList.execute rt tx a l
  process tx (transfer_hook a amount) l = TransferHook.execute rt tx a amount l >> ok l

  -- An instruction that fails leaves the ledger as it was.
  abbrev pub commit : Result Ledger → Ledger → Ledger
  commit (ok l') l = l'
  commit (err e) l = l
