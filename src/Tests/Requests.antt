-- ===== src/Tests/Requests.antt =====
-- Requests that the registry of the small world's mint consents to, and the program grants.
use Prim.Native.String.{◌++◌}
use solana_sas_extension.Prelude.{◌∷◌}
use solana_sas_extension.Prelude.{ℕ, ◌≡◌, refl, true, none, some, arith, false, ◌==◌}
use solana_sas_extension.HookError.{external}
use solana_sas_extension.Result.{ok}
use solana_sas_extension.Solana.{Pubkey, Ledger, update}
use solana_sas_extension.State.{hook_config_len, whitelist_entry_len}
use solana_sas_extension.Accounts.{load_config, save_config}
use solana_sas_extension.Instructions.InitializeConfig
use solana_sas_extension.Program.{initialize_config, process}
use solana_sas_extension.Registry.{
  Registry, enlist, name_next, perform, perform-enlist, perform-name_next, mark, named,
}
use solana_sas_extension.Registry.Filled.{IsFilled, Reach-IsFilled}
use solana_sas_extension.Registry.Requests.{request, IsReady}
use solana_sas_extension.Registry.Requests.Granted.{request_granted}
use solana_sas_extension.Registry.View.{settings_of, entry_at, summary, registry_of}
use solana_sas_extension.History.{Reach, here, next, instruction, Anyone}
use solana_sas_extension.Registry.Runs.{Foreign}
use solana_sas_extension.Cli.Handlers.{sent, reported}
use solana_sas_extension.Cli.Host.{Client, Request}
use solana_sas_extension.Cli.Info.{Answers, report, info_prints}
use solana_sas_extension.Cli.Granted.{Confirms, command_granted}
use solana_sas_extension.Cli.Main
use solana_sas_extension.Cli.Main.{run_command, main, cluster_of}
use solana_sas_extension.Cli.Options.{program_id_of, load_keypair}
use solana_sas_extension.Tests.World.{world, digest, new_account, fit}
use solana_sas_extension.Tests.World.Laws.{world_laws}
use solana_sas_extension.Tests.Scenario.{
  list_key, by, config_key, start, first_config, initialize, after_initialize,
}
use solana_sas_extension.Tests.Registry.{run, initialized-IsSane, settled, not_yet, initializing}
use solana_sas_extension.Tests.InStep.{start_not_ours}
use solana_sas_extension.Tests.Transfers.{attested}
use solana_sas_extension.Tests.CommandLine.{host, line, same_library}

start-IsFilled : IsFilled world start
start-IsFilled mint w ours = absurd (start_not_ours (entry_at world mint w) ours)

Reach-IsFilled_example : IsFilled world attested
Reach-IsFilled_example = Reach-IsFilled world world_laws start-IsFilled run

configured : Reach world Anyone (Foreign world) start after_initialize
configured =
    next here (instruction (by 100) (initialize_config initialize 201 202 203) tt initializing)

initialized-IsFilled : IsFilled world after_initialize
initialized-IsFilled = Reach-IsFilled world world_laws start-IsFilled configured

only : (k : Pubkey) → (k == 100) ≡ true → k ≡ 100
only k signed = ground arith

abbrev enlisted : Registry
enlisted = record (registry_of world 50 after_initialize) {
  whitelisted = mark (registry_of world 50 after_initialize).whitelisted 102 true;
}

consents :
    perform (by 100).is_signer (some (enlist 102)) (registry_of world 50 after_initialize)
    ≡ some enlisted
consents =
    perform-enlist (by 100).is_signer (registry_of world 50 after_initialize) (summary first_config)
      settled 102 refl not_yet

abbrev with_entry : Ledger
with_entry = update after_initialize (entry_at world 50 102) (new_account 7 whitelist_entry_len)

ready : IsReady world 50 100 (by 100) after_initialize (enlist 102)
unfolding InitializeConfig.execute load_config save_config digest
ready = (refl, refl, refl, record { mint_authority = some 100 }, refl, with_entry, refl)

request_granted_example :
    (l' : Ledger) × (process world (by 100) (request world 50 100 (enlist 102)) after_initialize
      ≡ ok l')
    × (registry_of world 50 l' ≡ enlisted)
request_granted_example =
    request_granted world world_laws 50 100 (by 100) after_initialize initialized-IsSane
      initialized-IsFilled only (enlist 102) enlisted consents ready

abbrev handed : Registry
handed = record (registry_of world 50 after_initialize) {
  settings = some (record (summary first_config) { pending = named 101 });
}

consents_to_handover :
    perform (by 100).is_signer (some (name_next 101)) (registry_of world 50 after_initialize)
    ≡ some handed
consents_to_handover =
    perform-name_next (by 100).is_signer (registry_of world 50 after_initialize)
      (summary first_config) settled 101 refl

abbrev grown : Ledger
grown = update after_initialize config_key (record (after_initialize config_key) {
  bytes = fit hook_config_len (after_initialize config_key).bytes;
})

handover-IsReady : IsReady world 50 100 (by 100) after_initialize (name_next 101)
unfolding InitializeConfig.execute load_config save_config digest
handover-IsReady = (refl, refl, refl, record { mint_authority = some 100 }, refl, grown, refl)

abbrev client : Client
client = record { id = 7; payer = 100; cluster = cluster_of "devnet" }

deployed : program_id_of host none ≡ ok 7
unfolding program_id_of
deployed = refl

loaded : load_keypair host "id.json" none ≡ ok 100
unfolding load_keypair
loaded = refl

confirms : Confirms world host client (by 100) after_initialize
confirms = record { confirmed = λ i l' done. (1, refl) }

command_granted_example :
    (request : Request) × (n : ℕ) × (l' : Ledger) × ((main host line).result ≡ ok (sent request n))
    × (process world (by 100) request.instruction after_initialize ≡ ok l')
    × (registry_of world 50 l' ≡ handed)
command_granted_example =
    command_granted world world_laws host same_library line 100 deployed loaded 50 (name_next 101)
      (refl, 101, refl, refl) refl (by 100) after_initialize confirms initialized-IsSane
      initialized-IsFilled only handed consents_to_handover handover-IsReady

answers : Answers world host client after_initialize
answers = record { found = λ k c held. rw held; missing = λ k gone. (external, rw gone) }

config_ours : (after_initialize config_key).owner ≡ 7
unfolding InitializeConfig.execute load_config save_config digest
config_ours = refl

abbrev info_line : Main.Cli
info_line = record line { command = Main.Commands.info "mint" }

info_prints_example : main host info_line ≡ record {
  lines =
      ("Using keypair: " ++ "key")
      ∷ report host.show_key 50 config_key (settings_of world 50 after_initialize) list_key false;
  result = ok reported;
}
info_prints_example =
    info_prints world host same_library after_initialize world_laws.accounts.program_ne_system
      info_line 100 deployed loaded "mint" 50 refl refl refl answers
      (λ other. absurd (other config_ours))
