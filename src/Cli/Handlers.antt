-- ===== src/Cli/Handlers.antt =====
-- admin-cli/src/handlers.rs: each handler derives the accounts, sends one instruction, and prints;
-- what it ends with is the request with its signature.
use Prim.Native.String.{String, ◌++◌}
use solana_sas_extension.Prelude.{ℕ, Bool, not, ◌==◌, if◌then◌else◌}
use solana_sas_extension.Result
use solana_sas_extension.Result.{Result, ok, err}
use solana_sas_extension.Solana.{Pubkey, default, system_program_id}
use solana_sas_extension.State.{HookConfig}
use solana_sas_extension.Program.{
  Instruction, initialize_config, update_config, add_to_whitelist, remove_from_whitelist,
  transfer_authority, accept_authority, initialize_extra_account_meta_list,
}
use solana_sas_extension.Cli.Host.{Host, Client, Request}
use solana_sas_extension.Cli.Printed.{Printed, println, quiet, done, ◌>>=◌, ◌>>◌}
use solana_sas_extension.Cli.Utils.{
  get_config_address, get_extra_account_meta_list_address, get_whitelist_entry_address,
}

-- How a command ends that succeeds: `info` sends nothing.
pub data Outcome : Type 0 where
  sent : Request → ℕ → Outcome
  reported : Outcome

module _ (h : Host) (program : Client) where
  abbrev pub request_for : Instruction → Request
  request_for instruction = record {
    program = program.id;
    payer = program.payer;
    instruction = instruction;
  }

  -- `program.request().accounts(…).args(…).send()?`
  unfoldable pub send : Instruction → Printed ℕ
  send instruction = quiet (h.send program (request_for instruction))

  -- How a command ends that sends this instruction.
  abbrev pub answer : Instruction → Result Outcome
  answer instruction =
      Result.◌>>=◌ (h.send program (request_for instruction))
        (λ tx. ok (sent (request_for instruction) tx))

  status_line : Bool → String
  status_line exists = if exists then "initialized" else "not initialized"

  print_pending : Pubkey → Printed {0} Unit
  print_pending key =
      if not (key == default)
      then println ("Pending:    " ++ h.show_key key ++ " (awaiting acceptance)")
      else done tt

  -- The lines behind the addresses.
  info_status : Result HookConfig → Pubkey → Printed Outcome
  unfolding status_line print_pending
  info_status (err e) list_address = do println "Status:     not initialized"; done reported
  info_status (ok config) list_address = do
    println ("Authority:  " ++ h.show_key config.authority)
    print_pending config.pending_authority
    println ("Credential: " ++ h.show_key config.credential)
    println ("Schema:     " ++ h.show_key config.schema)
    println ("SAS Program:" ++ h.show_key config.sas_program)
    println (
        "\nExtraAccountMetaList ("
        ++ h.show_key list_address
        ++ "): "
        ++ status_line (h.account_exists program list_address))
    done reported

  unfoldable pub handle_info : Pubkey → Printed Outcome
  unfolding info_status
  handle_info mint = do
    let config_address = (get_config_address h mint program.id).0
    println "\n=== Transfer Hook Config ===\n"
    println ("Mint:       " ++ h.show_key mint)
    println ("Config PDA: " ++ h.show_key config_address)
    info_status (h.fetch_config program config_address)
        (get_extra_account_meta_list_address h mint program.id).0

  unfoldable pub handle_initialize_config : Pubkey → Pubkey → Pubkey → Pubkey → Printed Outcome
  unfolding send
  handle_initialize_config mint credential schema sas_program = do
    let instruction : Instruction =
        initialize_config
          (record {
            authority = program.payer;
            config = (get_config_address h mint program.id).0;
            mint = mint;
            system_program = system_program_id;
          })
          credential schema sas_program
    println ("Initializing config for mint: " ++ h.show_key mint)
    tx ← send instruction
    println ("Config PDA: " ++ h.show_key (get_config_address h mint program.id).0)
    println ("Transaction successful: " ++ h.show_signature tx)
    println ("\nNext steps:")
    println (
        "  1. Initialize ExtraAccountMetaList:\n     admin-cli init-extra-account-meta-list --mint "
        ++ h.show_key mint)
    println (
        "  2. (Optional) Add wallets to whitelist:\n     admin-cli add-to-whitelist --mint "
        ++ h.show_key mint
        ++ " --wallet <WALLET>")
    done (sent (request_for instruction) tx)

  unfoldable pub handle_update_config : Pubkey → Pubkey → Pubkey → Pubkey → Printed Outcome
  unfolding send
  handle_update_config mint credential schema sas_program = do
    let instruction : Instruction =
        update_config
          (record {
            authority = program.payer;
            config = (get_config_address h mint program.id).0;
            mint = mint;
            extra_account_meta_list = (get_extra_account_meta_list_address h mint program.id).0;
          })
          credential schema sas_program
    println ("Updating config for mint: " ++ h.show_key mint)
    tx ← send instruction
    println ("Transaction successful: " ++ h.show_signature tx)
    done (sent (request_for instruction) tx)

  unfoldable pub handle_init_extra_account_meta_list : Pubkey → Printed Outcome
  unfolding send
  handle_init_extra_account_meta_list mint = do
    let instruction : Instruction = initialize_extra_account_meta_list (record {
      payer = program.payer;
      extra_account_meta_list = (get_extra_account_meta_list_address h mint program.id).0;
      mint = mint;
      config = (get_config_address h mint program.id).0;
      system_program = system_program_id;
    })
    println ("Initializing ExtraAccountMetaList for mint: " ++ h.show_key mint)
    tx ← send instruction
    println (
        "ExtraAccountMetaList PDA: "
        ++ h.show_key (get_extra_account_meta_list_address h mint program.id).0)
    println ("Transaction successful: " ++ h.show_signature tx)
    done (sent (request_for instruction) tx)

  unfoldable pub handle_add_to_whitelist : Pubkey → Pubkey → Printed Outcome
  unfolding send
  handle_add_to_whitelist mint wallet = do
    let instruction : Instruction =
        add_to_whitelist
          (record {
            authority = program.payer;
            config = (get_config_address h mint program.id).0;
            whitelist_entry = (get_whitelist_entry_address h mint wallet program.id).0;
            mint = mint;
            system_program = system_program_id;
          })
          wallet
    println ("Adding " ++ h.show_key wallet ++ " to whitelist for mint: " ++ h.show_key mint)
    tx ← send instruction
    println (
        "WhitelistEntry PDA: "
        ++ h.show_key (get_whitelist_entry_address h mint wallet program.id).0)
    println ("Transaction successful: " ++ h.show_signature tx)
    done (sent (request_for instruction) tx)

  unfoldable pub handle_transfer_authority : Pubkey → Pubkey → Printed Outcome
  unfolding send
  handle_transfer_authority mint new_authority = do
    let instruction : Instruction = transfer_authority (record {
      authority = program.payer;
      new_authority = new_authority;
      config = (get_config_address h mint program.id).0;
      mint = mint;
      system_program = system_program_id;
    })
    println ("Initiating authority transfer for mint: " ++ h.show_key mint)
    println ("Pending new authority: " ++ h.show_key new_authority)
    tx ← send instruction
    println ("Transaction successful: " ++ h.show_signature tx)
    println (
        "The new authority must accept by running:\n  admin-cli accept-authority --mint "
        ++ h.show_key mint)
    done (sent (request_for instruction) tx)

  unfoldable pub handle_accept_authority : Pubkey → Printed Outcome
  unfolding send
  handle_accept_authority mint = do
    let instruction : Instruction = accept_authority (record {
      pending_authority = program.payer;
      config = (get_config_address h mint program.id).0;
      mint = mint;
    })
    println ("Accepting authority transfer for mint: " ++ h.show_key mint)
    println ("Accepting as: " ++ h.show_key program.payer)
    tx ← send instruction
    println ("Transaction successful: " ++ h.show_signature tx)
    println ("Authority transfer complete. New authority: " ++ h.show_key program.payer)
    done (sent (request_for instruction) tx)

  unfoldable pub handle_remove_from_whitelist : Pubkey → Pubkey → Printed Outcome
  unfolding send
  handle_remove_from_whitelist mint wallet = do
    let instruction : Instruction =
        remove_from_whitelist
          (record {
            authority = program.payer;
            config = (get_config_address h mint program.id).0;
            whitelist_entry = (get_whitelist_entry_address h mint wallet program.id).0;
            mint = mint;
            system_program = system_program_id;
          })
          wallet
    println ("Removing " ++ h.show_key wallet ++ " from whitelist for mint: " ++ h.show_key mint)
    tx ← send instruction
    println ("Transaction successful: " ++ h.show_signature tx)
    done (sent (request_for instruction) tx)
