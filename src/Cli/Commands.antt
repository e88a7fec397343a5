-- ===== src/Cli/Commands.antt =====
-- What each command asks of the registry of a mint, and the instruction that it sends for it.
use Prim.Native.String.{String}
use solana_sas_extension.Prelude.{◌≡◌}
use solana_sas_extension.Solana.{Pubkey}
use solana_sas_extension.Runtime.{Runtime}
use solana_sas_extension.Registry.{Op, configure, reconfigure, name_next, accept, enlist, delist}
use solana_sas_extension.Registry.Requests
use solana_sas_extension.Cli.Host.{Host, Client}
use solana_sas_extension.Result.{ok}
use solana_sas_extension.Cli.Addressed.{
  SameLibrary, config_at-program, list_at-program, entry_at-program,
}
use solana_sas_extension.Cli.Handlers.{
  answer, handle_initialize_config, handle_update_config, handle_add_to_whitelist,
  handle_remove_from_whitelist, handle_transfer_authority, handle_accept_authority,
}
use solana_sas_extension.Cli.Main.{Commands, run_command}
use solana_sas_extension.Cli.Options.{parse_pubkey}

module _ (h : Host) where
  abbrev Names : String → Pubkey → Type 0
  Names s k = h.parse s ≡ ok k

  -- The command, given with this key pair, asks for this operation on the registry of this mint.
  abbrev pub Asks : Pubkey → Commands → Pubkey → Op → Type 0
  Asks payer (Commands.info mint) m op = ⊥
  Asks payer (Commands.initialize_config mint credential schema sas_program) m op =
      Names mint m
      × (c : Pubkey) × Names credential c
      × (s : Pubkey) × Names schema s
      × (p : Pubkey) × Names sas_program p
      × (op ≡ configure payer c s p)
  Asks payer (Commands.update_config mint credential schema sas_program) m op =
      Names mint m
      × (c : Pubkey) × Names credential c
      × (s : Pubkey) × Names schema s
      × (p : Pubkey) × Names sas_program p
      × (op ≡ reconfigure c s p)
  Asks payer (Commands.init_extra_account_meta_list mint) m op = ⊥
  Asks payer (Commands.add_to_whitelist mint wallet) m op =
      Names mint m × (w : Pubkey) × Names wallet w × (op ≡ enlist w)
  Asks payer (Commands.remove_from_whitelist mint wallet) m op =
      Names mint m × (w : Pubkey) × Names wallet w × (op ≡ delist w)
  Asks payer (Commands.transfer_authority mint new_authority) m op =
      Names mint m × (k : Pubkey) × Names new_authority k × (op ≡ name_next k)
  Asks payer (Commands.accept_authority mint) m op = Names mint m × (op ≡ accept payer)

module _ (rt : Runtime) (h : Host) (same : SameLibrary rt h) (program : Client)
    (deployed : program.id ≡ rt.program_id) where
  -- The command sends the instruction that asks for the operation.
  pub Asks-run_command :
      (c : Commands) (m : Pubkey) (op : Op)
      → Asks h program.payer c m op
      → (run_command h program c).result ≡ answer h program (Requests.request rt m program.payer op)
  unfolding run_command parse_pubkey handle_initialize_config handle_update_config
      handle_add_to_whitelist handle_remove_from_whitelist handle_transfer_authority
      handle_accept_authority
  Asks-run_command (Commands.info mint) m op asks = absurd asks
  Asks-run_command (Commands.initialize_config mint credential schema sas_program) m op
        (is_m, c, is_c, s, is_s, p, is_p, asks) =
      rw (asks, is_m, is_c, is_s, is_p, config_at-program rt h same m program.id deployed)
  Asks-run_command (Commands.update_config mint credential schema sas_program) m op
        (is_m, c, is_c, s, is_s, p, is_p, asks) =
      rw (
        asks,
        is_m,
        is_c,
        is_s,
        is_p,
        config_at-program rt h same m program.id deployed,
        list_at-program rt h same m program.id deployed,
      )
  Asks-run_command (Commands.init_extra_account_meta_list mint) m op asks = absurd asks
  Asks-run_command (Commands.add_to_whitelist mint wallet) m op (is_m, w, is_w, asks) = rw (
    asks,
    is_m,
    is_w,
    config_at-program rt h same m program.id deployed,
    entry_at-program rt h same m w program.id deployed,
  )
  Asks-run_command (Commands.remove_from_whitelist mint wallet) m op (is_m, w, is_w, asks) = rw (
    asks,
    is_m,
    is_w,
    config_at-program rt h same m program.id deployed,
    entry_at-program rt h same m w program.id deployed,
  )
  Asks-run_command (Commands.transfer_authority mint new_authority) m op (is_m, k, is_k, asks) =
      rw (asks, is_m, is_k, config_at-program rt h same m program.id deployed)
  Asks-run_command (Commands.accept_authority mint) m op (is_m, asks) =
      rw (asks, is_m, config_at-program rt h same m program.id deployed)
