-- ===== src/Registry/Refines.antt =====
-- The program implements the registry: each instruction does to a mint's registry what one
-- operation does, or nothing.
pub mod Frames
pub mod Configs
pub mod Entries
pub mod Simulation
use solana_sas_extension.Prelude.{Option, none, some, ◌==◌, if◌then◌else◌}
use solana_sas_extension.Solana.{Pubkey}
use solana_sas_extension.Program.{
  Instruction, initialize_config, update_config, add_to_whitelist, remove_from_whitelist,
  transfer_authority, accept_authority, initialize_extra_account_meta_list, transfer_hook,
}
use solana_sas_extension.Registry.{Op, configure, reconfigure, name_next, accept, enlist, delist}

abbrev pub about : Pubkey → Pubkey → Op → Option Op
about mint m op = if m == mint then some op else none

-- What an instruction is to the registry of a mint.
unfoldable pub op_of : Pubkey → Instruction → Option Op
op_of mint (initialize_config a credential schema sas_program) =
    about mint a.mint (configure a.authority credential schema sas_program)
op_of mint (update_config a credential schema sas_program) =
    about mint a.mint (reconfigure credential schema sas_program)
op_of mint (add_to_whitelist a wallet) = about mint a.mint (enlist wallet)
op_of mint (remove_from_whitelist a wallet) = about mint a.mint (delist wallet)
op_of mint (transfer_authority a) = about mint a.mint (name_next a.new_authority)
op_of mint (accept_authority a) = about mint a.mint (accept a.pending_authority)
op_of mint (initialize_extra_account_meta_list a) = none
op_of mint (transfer_hook a amount) = none
