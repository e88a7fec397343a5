-- ===== src/Cli/Info.antt =====
-- What the `info` command reports, beside the registry of the mint.
use Prim.Native.String.{String, ◌++◌}
use solana_sas_extension.Prelude.{
  ◌≡◌, ◌≢◌, refl, ap, Option, none, some, inl, inr, arith, Option-cases, Bool, true, false, List,
  [], ◌∷◌, Bool-cases, ◌==◌,
}
use solana_sas_extension.HookError.{Error}
use solana_sas_extension.Result.{ok, err}
use solana_sas_extension.Solana.{Pubkey, Ledger, system_program_id, default}
use solana_sas_extension.State.{HookConfig}
use solana_sas_extension.Runtime.{Runtime}
use solana_sas_extension.Accounts.{load_config}
use solana_sas_extension.Registry.{Settings}
use solana_sas_extension.Seeds.{meta_list_seeds}
use solana_sas_extension.Admin.Checks.{address}
use solana_sas_extension.Registry.View.{config_at, settings_of, summary}
use solana_sas_extension.Cli.Host.{Host, Client}
use solana_sas_extension.Cli.Addressed.{SameLibrary, config_at-program, list_at-program}
use solana_sas_extension.Cli.Handlers.{Outcome, reported, handle_info}
use solana_sas_extension.Cli.Printed.{Printed}
use solana_sas_extension.Cli.Reported.{handle_info_total}
use solana_sas_extension.Cli.Main.{Commands, Cli, cluster_of, get_program_client, run_command, main}
use solana_sas_extension.Cli.Options.{parse_pubkey, program_id_of, load_keypair}

module _ (show : Pubkey → String) where
  abbrev pending_lines : Option Pubkey → List String → List String
  pending_lines none rest = rest
  pending_lines (some k) rest = ("Pending:    " ++ show k ++ " (awaiting acceptance)") ∷ rest

  abbrev settings_lines : Option Settings → String → List String
  settings_lines none list = "Status:     not initialized" ∷ []
  settings_lines (some s) list =
      ("Authority:  " ++ show s.authority)
      ∷ pending_lines s.pending (
          ("Credential: " ++ show s.credential)
          ∷ ("Schema:     " ++ show s.schema)
          ∷ ("SAS Program:" ++ show s.sas_program)
          ∷ list
          ∷ [])

  abbrev list_line : Pubkey → Bool → String
  list_line list true = "\nExtraAccountMetaList (" ++ show list ++ "): " ++ "initialized"
  list_line list false = "\nExtraAccountMetaList (" ++ show list ++ "): " ++ "not initialized"

  -- The report on a mint: the mint, its config's address, its settings, and whether it has a list.
  abbrev pub report : Pubkey → Pubkey → Option Settings → Pubkey → Bool → List String
  report mint config settings list exists =
      "\n=== Transfer Hook Config ===\n"
      ∷ ("Mint:       " ++ show mint)
      ∷ ("Config PDA: " ++ show config)
      ∷ settings_lines settings (list_line list exists)

-- The node answers from the ledger: the client decodes the account's bytes, whoever owns it.
pub record Answers (rt : Runtime) (h : Host) (client : Client) (l : Ledger) : Type 0 where
  pub found :
      (k : Pubkey) (c : HookConfig)
      → rt.read_config (l k).bytes ≡ some c
      → h.fetch_config client k ≡ ok c
  pub missing :
      (k : Pubkey)
      → rt.read_config (l k).bytes ≡ none
      → (e : Error) × (h.fetch_config client k ≡ err e)

module _ (rt : Runtime) (h : Host) (same : SameLibrary rt h) (l : Ledger)
    (ne : rt.program_id ≢ system_program_id) (client : Client)
    (deployed : client.id ≡ rt.program_id) (answers : Answers rt h client l) (m : Pubkey)
    (ours : (l (config_at rt m)).owner ≢ rt.program_id
      → rt.read_config (l (config_at rt m)).bytes ≡ none) where
  abbrev list_key : Pubkey
  list_key = address rt (meta_list_seeds rt m)

  settings_held :
      (c : HookConfig)
      → rt.read_config (l (config_at rt m)).bytes ≡ some c
      → settings_of rt m l ≡ some (summary c)
  unfolding load_config
  settings_held c held = ground (arith, held, ours)

  settings_gone : rt.read_config (l (config_at rt m)).bytes ≡ none → settings_of rt m l ≡ none
  unfolding load_config
  settings_gone gone = ground (arith, gone)

  handle_info_lines :
      (handle_info h client m).lines
      ≡ report h.show_key m
          (config_at rt m)
          (settings_of rt m l)
          list_key
          (h.account_exists client list_key)
  unfolding handle_info
  handle_info_lines =
      let key = config_at rt m in
      let at = config_at-program rt h same m client.id deployed in
      let at_list = list_at-program rt h same m client.id deployed in
      elim (Option-cases (rt.read_config (l key).bytes)) [
        | inl gone ↦
            let (f, missing) = answers.missing key gone in
            rw (at, at_list, missing, settings_gone gone)
        | inr (c, held) ↦
            let found = answers.found key c held in
            let settings = settings_held c held in
            elim (Bool-cases (h.account_exists client list_key)) [
              | inl there ↦ elim (Bool-cases (c.pending_authority == default)) [
                | inl nobody ↦ rw (at, at_list, found, settings, there, nobody)
                | inr somebody ↦ rw (at, at_list, found, settings, there, somebody)
              ]
              | inr gone ↦ elim (Bool-cases (c.pending_authority == default)) [
                | inl nobody ↦ rw (at, at_list, found, settings, gone, nobody)
                | inr somebody ↦ rw (at, at_list, found, settings, gone, somebody)
              ]
            ]
      ]

  run_command_prints :
      (mint : String)
      → h.parse mint ≡ ok m
      → run_command h client (Commands.info mint) ≡ record {
        lines =
            report h.show_key m
              (config_at rt m)
              (settings_of rt m l)
              list_key
              (h.account_exists client list_key);
        result = ok reported;
      }
  unfolding run_command parse_pubkey
  run_command_prints mint parsed = rw (parsed, handle_info_lines, handle_info_total h client m)

module _ (rt : Runtime) (h : Host) (same : SameLibrary rt h) (l : Ledger)
    (ne : rt.program_id ≢ system_program_id) (cli : Cli) (payer : Pubkey)
    (program_is : program_id_of h cli.override_program_id ≡ ok rt.program_id)
    (payer_is : load_keypair h cli.keypair cli.keypair_base58_file ≡ ok payer) where
  abbrev client : Client
  client = record { id = rt.program_id; payer = payer; cluster = cluster_of cli.cluster }

  -- Where the options name the deployed program and a payer, and the node is reached and answers from
  -- a ledger on which nobody but the program has a config at the address of the mint's config: the
  -- tool with the command `info` on a mint does not fail, and what it prints is the payer and the
  -- report on the mint, the derived addresses of its config and list, the settings of the mint's
  -- registry, and whether the node has an account for the list.
  pub info_prints :
      (mint : String) (m : Pubkey)
      → cli.command ≡ Commands.info mint
      → h.parse mint ≡ ok m
      → h.connect client ≡ ok tt
      → Answers rt h client l
      → ((l (config_at rt m)).owner ≢ rt.program_id
          → rt.read_config (l (config_at rt m)).bytes ≡ none)
      → main h cli ≡ record {
        lines =
            ("Using keypair: " ++ h.show_key payer)
            ∷ report h.show_key m
                (config_at rt m)
                (settings_of rt m l)
                (address rt (meta_list_seeds rt m))
                (h.account_exists client (address rt (meta_list_seeds rt m)));
        result = ok reported;
      }
  unfolding main get_program_client
  info_prints mint m command parsed connected answers ours =
      let prints = run_command_prints rt h same l ne client refl answers m ours mint parsed in
      let introduced = λ (r : Printed Outcome).
        let all : Printed Outcome = record {
          lines = ("Using keypair: " ++ h.show_key payer) ∷ r.lines;
          result = r.result;
        } in
        all in
      rw (program_is, payer_is, connected, command) (ap introduced prints)
