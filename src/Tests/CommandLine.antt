-- ===== src/Tests/CommandLine.antt =====
-- A command line and the transaction that it sends.
use solana_sas_extension.Prelude.{ℕ, ◌≡◌, refl, false, none, some, ◌⊎◌, ◌==◌}
use solana_sas_extension.HookError.{Error, external, message}
use solana_sas_extension.Result.{ok, err, ok_or}
use solana_sas_extension.Cli.Host.{Host, Request}
use solana_sas_extension.Cli.Utils.{get_config_address}
use solana_sas_extension.Cli.Handlers.{sent, handle_transfer_authority}
use solana_sas_extension.Cli.Main
use solana_sas_extension.Cli.Main.{Cli, main, cluster_of, run_command, get_program_client}
use solana_sas_extension.Cli.Options.{parse_pubkey, program_id_of, load_keypair}
use solana_sas_extension.Cli.Addressed.{SameLibrary, IsAddressed}
use solana_sas_extension.Cli.Failures.{first_failure, RefusedFor, main_errors}
use solana_sas_extension.Cli.Requests.{main-IsAddressed}
use solana_sas_extension.Program
use solana_sas_extension.Tests.World.{world}
use solana_sas_extension.Tests.Scenario.{name_next, after_initialize}
use text.Mathlib.Text.{◌==◌ as str_eq}
use solana_sas_extension.Prelude.{if◌then◌else◌}

-- A host that knows one mint and one key, and whose node confirms everything.
abbrev pub host : Host
host = record {
  find_program_address = world.find_program_address;
  as_ref = world.as_ref;
  id = 7;
  tilde = λ s. s;
  trim = λ s. s;
  read_to_string = λ s. err external;
  bs58_decode = λ s. err external;
  keypair_from_bytes = λ b. err external;
  read_keypair_file = λ s. ok 100;
  parse = λ s. if str_eq s "mint" then ok 50 else if str_eq s "next" then ok 101 else err external;
  display = λ e. "unknown";
  show_key = λ k. if k == 50 then "mint" else "key";
  show_signature = λ n. "signature";
  connect = λ client. ok tt;
  fetch_config = λ client key. ok_or (world.read_config (after_initialize key).bytes) external;
  account_exists = λ client key. false;
  send = λ client request. ok 1;
}

pub same_library : SameLibrary world host
same_library = record { find = λ seeds program. refl; ref = λ k. refl }

abbrev pub line : Cli
line = record {
  keypair = "id.json";
  keypair_base58_file = none;
  cluster = "devnet";
  override_program_id = none;
  command = Main.Commands.transfer_authority "mint" "next";
}

abbrev request : Request
request = record {
  program = 7;
  payer = 100;
  instruction = Program.Instruction.transfer_authority name_next;
}

line_runs : (main host line).result ≡ ok (sent request 1)
unfolding main program_id_of get_program_client load_keypair run_command parse_pubkey
    handle_transfer_authority get_config_address
line_runs = refl

main-IsAddressed_example :
    (program_id_of host none ≡ ok 7)
    × (load_keypair host "id.json" none ≡ ok 100)
    × (◌≡◌ {A = ℕ} 7 7 → IsAddressed world 100 (Program.Instruction.transfer_authority name_next))
main-IsAddressed_example = main-IsAddressed world host same_library line request 1 line_runs

abbrev wrong_line : Cli
wrong_line = record line { command = Main.Commands.add_to_whitelist "mint" "nobody" }

abbrev wrong_wallet : Error
wrong_wallet = message "Invalid wallet: unknown"

main_errors_example :
    (first_failure host wrong_line ≡ some wrong_wallet
      → (main host wrong_line).result ≡ err wrong_wallet)
    × ((main host wrong_line).result ≡ err wrong_wallet
        → (first_failure host wrong_line ≡ some wrong_wallet)
          ⊎ ((first_failure host wrong_line ≡ none) × RefusedFor host wrong_line wrong_wallet))
main_errors_example = main_errors host wrong_line wrong_wallet

wrong_line_fails : (main host wrong_line).result ≡ err wrong_wallet
unfolding main program_id_of get_program_client load_keypair run_command parse_pubkey
wrong_line_fails = refl
