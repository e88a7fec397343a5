-- ===== src/Cli/Main.antt =====
-- admin-cli/src/main.rs: the command line, the client, and the dispatch of the commands.
use Prim.Native.String.{String, ◌++◌}
use text.Mathlib.Text.{◌==◌ as str_eq}
use solana_sas_extension.Prelude.{Option, ◌||◌, if◌then◌else◌}
use solana_sas_extension.Solana.{Pubkey}
use solana_sas_extension.Cli.Host.{Host, Client, Cluster, mainnet, devnet, localnet, custom}
use solana_sas_extension.Cli.Printed.{Printed, println, quiet, done, ◌>>=◌, ◌>>◌}
use solana_sas_extension.Cli.Options.{load_keypair, parse_pubkey, program_id_of}
use solana_sas_extension.Cli.Handlers.{
  Outcome, handle_info, handle_initialize_config, handle_update_config,
  handle_init_extra_account_meta_list, handle_add_to_whitelist, handle_remove_from_whitelist,
  handle_transfer_authority, handle_accept_authority,
}

pub data Commands : Type 0 where
  info : String → Commands
  initialize_config : String → String → String → String → Commands
  update_config : String → String → String → String → Commands
  init_extra_account_meta_list : String → Commands
  add_to_whitelist : String → String → Commands
  remove_from_whitelist : String → String → Commands
  transfer_authority : String → String → Commands
  accept_authority : String → Commands

pub record Cli : Type 0 where
  pub keypair : String
  pub keypair_base58_file : Option String
  pub cluster : String
  pub override_program_id : Option String
  pub command : Commands

unfoldable pub cluster_of : String → Cluster
cluster_of s =
    if str_eq s "mainnet"
    then mainnet
    else if str_eq s "devnet"
    then devnet
    else if str_eq s "localnet" || str_eq s "localhost"
    then localnet
    else custom s

module _ (h : Host) where
  unfoldable pub get_program_client : String → Option String → String → Pubkey → Printed Client
  get_program_client keypair_path keypair_base58_file cluster_str program_id = do
    keypair ← quiet (load_keypair h keypair_path keypair_base58_file)
    println ("Using keypair: " ++ h.show_key keypair)
    let client : Client = record {
      id = program_id;
      payer = keypair;
      cluster = cluster_of cluster_str;
    }
    quiet (h.connect client)
    done client

  unfoldable pub run_command : Client → Commands → Printed Outcome
  run_command program (info mint) = do
    mint ← quiet (parse_pubkey h mint "mint")
    handle_info h program mint
  run_command program (initialize_config mint credential schema sas_program) = do
    mint ← quiet (parse_pubkey h mint "mint")
    credential ← quiet (parse_pubkey h credential "credential")
    schema ← quiet (parse_pubkey h schema "schema")
    sas_program ← quiet (parse_pubkey h sas_program "sas-program")
    handle_initialize_config h program mint credential schema sas_program
  run_command program (update_config mint credential schema sas_program) = do
    mint ← quiet (parse_pubkey h mint "mint")
    credential ← quiet (parse_pubkey h credential "credential")
    schema ← quiet (parse_pubkey h schema "schema")
    sas_program ← quiet (parse_pubkey h sas_program "sas-program")
    handle_update_config h program mint credential schema sas_program
  run_command program (init_extra_account_meta_list mint) = do
    mint ← quiet (parse_pubkey h mint "mint")
    handle_init_extra_account_meta_list h program mint
  run_command program (add_to_whitelist mint wallet) = do
    mint ← quiet (parse_pubkey h mint "mint")
    wallet ← quiet (parse_pubkey h wallet "wallet")
    handle_add_to_whitelist h program mint wallet
  run_command program (remove_from_whitelist mint wallet) = do
    mint ← quiet (parse_pubkey h mint "mint")
    wallet ← quiet (parse_pubkey h wallet "wallet")
    handle_remove_from_whitelist h program mint wallet
  run_command program (transfer_authority mint new_authority) = do
    mint ← quiet (parse_pubkey h mint "mint")
    new_authority ← quiet (parse_pubkey h new_authority "new-authority")
    handle_transfer_authority h program mint new_authority
  run_command program (accept_authority mint) = do
    mint ← quiet (parse_pubkey h mint "mint")
    handle_accept_authority h program mint

  unfoldable pub main : Cli → Printed Outcome
  main cli = do
    program_id ← quiet (program_id_of h cli.override_program_id)
    program ← get_program_client cli.keypair cli.keypair_base58_file cli.cluster program_id
    run_command program cli.command
