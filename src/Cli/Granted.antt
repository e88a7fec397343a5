-- ===== src/Cli/Granted.antt =====
-- From the command line to the registry: what a command asks for happens.
use solana_sas_extension.Prelude.{ℕ, ◌≡◌, refl, ◌∙◌, true, some}
use solana_sas_extension.Result.{ok}
use solana_sas_extension.Solana.{Pubkey, Ledger, Invocation}
use solana_sas_extension.Runtime.{Runtime}
use solana_sas_extension.Program.{Instruction, process}
use solana_sas_extension.Registry.{Registry, Op, perform}
use solana_sas_extension.Registry.Filled.{IsFilled}
use solana_sas_extension.Registry.Requests.{request, IsReady}
use solana_sas_extension.Registry.Requests.Granted.{request_granted}
use solana_sas_extension.Registry.Sane.{Laws, IsSane}
use solana_sas_extension.Registry.View.{registry_of}
use solana_sas_extension.Cli.Host.{Host, Client, Request}
use solana_sas_extension.Cli.Addressed.{SameLibrary}
use solana_sas_extension.Cli.Commands.{Asks, Asks-run_command}
use solana_sas_extension.Cli.Handlers.{sent, answer}
use solana_sas_extension.Cli.Main.{Cli, main, cluster_of, get_program_client, run_command}
use solana_sas_extension.Cli.Options.{program_id_of, load_keypair}

-- The node runs the instruction that it is sent, in this transaction on this ledger, and confirms it
-- when it succeeds.
pub record Confirms (rt : Runtime) (h : Host) (client : Client) (tx : Invocation) (l : Ledger)
    : Type 0 where
  pub confirmed :
      (i : Instruction) (l' : Ledger)
      → process rt tx i l ≡ ok l'
      → (n : ℕ) × (h.send client
            (record { program = client.id; payer = client.payer; instruction = i })
          ≡ ok n)

module _ (rt : Runtime) (laws : Laws rt) (h : Host) (same : SameLibrary rt h) (cli : Cli)
    (payer : Pubkey) (program_is : program_id_of h cli.override_program_id ≡ ok rt.program_id)
    (payer_is : load_keypair h cli.keypair cli.keypair_base58_file ≡ ok payer) where
  abbrev pub client : Client
  client = record { id = rt.program_id; payer = payer; cluster = cluster_of cli.cluster }

  main-run_command :
      h.connect client ≡ ok tt → (main h cli).result ≡ (run_command h client cli.command).result
  unfolding main get_program_client
  main-run_command connected = rw (program_is, payer_is, connected)

  -- Where the options name the deployed program and a payer, and the command asks for an operation
  -- on the registry of a mint: on a ledger where every config and entry stands in its place and every
  -- account of the program at a whitelist address is the entry that belongs there, if the payer alone
  -- signs, the registry consents to the operation, the accounts and libraries are ready for it, and
  -- the node is reached and confirms what succeeds, then the tool sends a transaction, its instruction
  -- succeeds, and the registry is then what the operation makes of it.
  pub command_granted :
      (mint : Pubkey) (op : Op)
      → Asks h payer cli.command mint op
      → h.connect client ≡ ok tt
      → (tx : Invocation) (l : Ledger) → Confirms rt h client tx l
      → IsSane rt l
      → IsFilled rt l
      → ((k : Pubkey) → tx.is_signer k ≡ true → k ≡ payer)
      → (r : Registry) → perform tx.is_signer (some op) (registry_of rt mint l) ≡ some r
      → IsReady rt mint payer tx l op
      → (request : Request) × (n : ℕ) × (l' : Ledger) × ((main h cli).result ≡ ok (sent request n))
        × (process rt tx request.instruction l ≡ ok l')
        × (registry_of rt mint l' ≡ r)
  command_granted mint op asks connected tx l node sane filled only r consent ready =
      let (l', done, result) =
        request_granted rt laws mint payer tx l sane filled only op r consent ready in
      let i = request rt mint payer op in
      let (n, confirmed) = node.confirmed i l' done in
      let asked = Asks-run_command rt h same client refl cli.command mint op asks in
      let sends : answer h client i
          ≡ ok (sent (record { program = client.id; payer = payer; instruction = i }) n) =
        rw confirmed in
      (
        record { program = client.id; payer = payer; instruction = i },
        n,
        l',
        main-run_command connected ∙ asked ∙ sends,
        done,
        result,
      )
