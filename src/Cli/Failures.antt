-- ===== src/Cli/Failures.antt =====
-- When a command line fails, and with which error.
use Prim.Native.String.{String}
use solana_sas_extension.Prelude.{
  ◌≡◌, refl, sym, ◌∙◌, none, some, Option, List, [], ◌∷◌, ◌⊎◌, inl, inr, arith,
}
use solana_sas_extension.HookError.{Error}
use solana_sas_extension.Result.{Result, ok, err, ◌>>=◌, Result-cases}
use solana_sas_extension.Solana.{Pubkey}
use solana_sas_extension.Program.{Instruction}
use solana_sas_extension.Cli.Host.{Host, Client}
use solana_sas_extension.Cli.Reported.{handle_info_total}
use solana_sas_extension.Cli.Handlers.{
  Outcome, answer, handle_initialize_config, handle_update_config,
  handle_init_extra_account_meta_list, handle_add_to_whitelist, handle_remove_from_whitelist,
  handle_transfer_authority, handle_accept_authority,
}
use solana_sas_extension.Cli.Main.{Commands, Cli, cluster_of, get_program_client, run_command, main}
use solana_sas_extension.Cli.Options.{parse_pubkey, program_id_of, load_keypair}

-- The keys that a command names, in the order of the command line, with the names of their fields.
abbrev fields : Commands → List (String × String)
fields (Commands.info mint) = (mint, "mint") ∷ []
fields (Commands.initialize_config mint credential schema sas_program) =
    (mint, "mint")
    ∷ (credential, "credential")
    ∷ (schema, "schema")
    ∷ (sas_program, "sas-program")
    ∷ []
fields (Commands.update_config mint credential schema sas_program) =
    (mint, "mint")
    ∷ (credential, "credential")
    ∷ (schema, "schema")
    ∷ (sas_program, "sas-program")
    ∷ []
fields (Commands.init_extra_account_meta_list mint) = (mint, "mint") ∷ []
fields (Commands.add_to_whitelist mint wallet) = (mint, "mint") ∷ (wallet, "wallet") ∷ []
fields (Commands.remove_from_whitelist mint wallet) = (mint, "mint") ∷ (wallet, "wallet") ∷ []
fields (Commands.transfer_authority mint new_authority) =
    (mint, "mint") ∷ (new_authority, "new-authority") ∷ []
fields (Commands.accept_authority mint) = (mint, "mint") ∷ []

abbrev error_or {ℓ} : {A : Type ℓ} → Result A → (A → Option Error) → Option Error
error_or (err e) rest = some e
error_or (ok a) rest = rest a

-- Something goes wrong on this side, or nothing does and `Q` holds.
abbrev Ends : Type 0 → Error → Option Error → Type 0
Ends Q e bad = (bad ≡ some e) ⊎ ((bad ≡ none) × Q)

module _ {ℓ κ} {A : Type ℓ} {B : Type κ} (e : Error) where
  Ends-error_or :
      {Q : Type 0} (read : Result A) (rest : A → Option Error) {next : A → Result B}
      → ((a : A) → read ≡ ok a → next a ≡ err e → Ends Q e (rest a))
      → (read >>= next) ≡ err e
      → Ends Q e (error_or read rest)
  Ends-error_or (err f) rest ends failed = inl (ground arith)
  Ends-error_or (ok a) rest ends failed = ends a refl failed

module _ (h : Host) where
  -- The error of the first field that is no key.
  abbrev first_bad : List (String × String) → Option Error
  first_bad [] = none
  first_bad ((s, field) ∷ rest) = error_or (parse_pubkey h s field) (λ k. first_bad rest)

  abbrev client_of : Pubkey → Pubkey → String → Client
  client_of id payer cluster = record { id = id; payer = payer; cluster = cluster_of cluster }

  -- What goes wrong first on this side of the node: the program's address, the key pair, the
  -- connection, then the fields of the command in their order.
  abbrev pub first_failure : Cli → Option Error
  first_failure cli = error_or (program_id_of h cli.override_program_id) (λ id.
      error_or (load_keypair h cli.keypair cli.keypair_base58_file) (λ payer.
        error_or (h.connect (client_of id payer cli.cluster))
          (λ _. first_bad (fields cli.command))))

  module _ (client : Client) (e : Error) where
    -- The node refuses a transaction that the client sends.
    abbrev pub Refused : Type 0
    Refused =
        (i : Instruction) × (h.send client
            (record { program = client.id; payer = client.payer; instruction = i })
          ≡ err e)

    send_refused : (i : Instruction) → answer h client i ≡ err e → Ends Refused e none
    send_refused i failed = inr (refl, (i, ground arith))

    Ends-field :
        (s field : String) {rest : Option Error} {next : Pubkey → Result Outcome}
        → (parse_pubkey h s field >>= next) ≡ err e
        → ((k : Pubkey) → next k ≡ err e → Ends Refused e rest)
        → Ends Refused e (error_or (parse_pubkey h s field) (λ k. rest))
    Ends-field s field failed ends =
        Ends-error_or e (parse_pubkey h s field) (λ k. _) (λ k good. ends k) failed

    run_command-Ends :
        (c : Commands)
        → (run_command h client c).result ≡ err e
        → Ends Refused e (first_bad (fields c))
    unfolding run_command handle_initialize_config handle_update_config
        handle_init_extra_account_meta_list handle_add_to_whitelist handle_remove_from_whitelist
        handle_transfer_authority handle_accept_authority
    run_command-Ends (Commands.info mint) failed =
        Ends-field mint "mint" failed
          (λ k failed. absurd (cc (failed, handle_info_total h client k)))
    run_command-Ends (Commands.initialize_config mint credential schema sas_program) failed =
        Ends-field mint "mint" failed (λ m failed.
          Ends-field credential "credential" failed (λ c failed.
            Ends-field schema "schema" failed (λ s failed.
              Ends-field sas_program "sas-program" failed (λ s failed. send_refused _ failed))))
    run_command-Ends (Commands.update_config mint credential schema sas_program) failed =
        Ends-field mint "mint" failed (λ m failed.
          Ends-field credential "credential" failed (λ c failed.
            Ends-field schema "schema" failed (λ s failed.
              Ends-field sas_program "sas-program" failed (λ s failed. send_refused _ failed))))
    run_command-Ends (Commands.init_extra_account_meta_list mint) failed =
        Ends-field mint "mint" failed (λ m failed. send_refused _ failed)
    run_command-Ends (Commands.add_to_whitelist mint wallet) failed =
        Ends-field mint "mint" failed
          (λ m failed. Ends-field wallet "wallet" failed (λ w failed. send_refused _ failed))
    run_command-Ends (Commands.remove_from_whitelist mint wallet) failed =
        Ends-field mint "mint" failed
          (λ m failed. Ends-field wallet "wallet" failed (λ w failed. send_refused _ failed))
    run_command-Ends (Commands.transfer_authority mint new_authority) failed =
        Ends-field mint "mint" failed (λ m failed.
          Ends-field new_authority "new-authority" failed (λ n failed. send_refused _ failed))
    run_command-Ends (Commands.accept_authority mint) failed =
        Ends-field mint "mint" failed (λ m failed. send_refused _ failed)

    run_command_bad :
        (c : Commands) → first_bad (fields c) ≡ some e → (run_command h client c).result ≡ err e
    unfolding run_command
    run_command_bad (Commands.info mint) bad = ground arith
    run_command_bad (Commands.initialize_config mint credential schema sas_program) bad =
        ground arith
    run_command_bad (Commands.update_config mint credential schema sas_program) bad = ground arith
    run_command_bad (Commands.init_extra_account_meta_list mint) bad = ground arith
    run_command_bad (Commands.add_to_whitelist mint wallet) bad = ground arith
    run_command_bad (Commands.remove_from_whitelist mint wallet) bad = ground arith
    run_command_bad (Commands.transfer_authority mint new_authority) bad = ground arith
    run_command_bad (Commands.accept_authority mint) bad = ground arith

  -- The node refuses a transaction for the program and the payer that the options name.
  abbrev pub RefusedFor : Cli → Error → Type 0
  RefusedFor cli e =
      (id payer : Pubkey) × (program_id_of h cli.override_program_id ≡ ok id)
      × (load_keypair h cli.keypair cli.keypair_base58_file ≡ ok payer)
      × Refused (client_of id payer cli.cluster) e

  -- How far the tool gets on this side of the node.
  abbrev Setup : Cli → Type 0
  Setup cli =
      ((e : Error) × (first_failure cli ≡ some e) × ((main h cli).result ≡ err e))
      ⊎ ((id payer : Pubkey) × (program_id_of h cli.override_program_id ≡ ok id)
          × (load_keypair h cli.keypair cli.keypair_base58_file ≡ ok payer)
          × (first_failure cli ≡ first_bad (fields cli.command))
          × ((main h cli).result
              ≡ (run_command h (client_of id payer cli.cluster) cli.command).result))

  Setup-cases : (cli : Cli) → Setup cli
  unfolding main get_program_client
  Setup-cases cli = elim (Result-cases (program_id_of h cli.override_program_id)) [
    | inl (e, bad) ↦ inl (e, rw bad, rw bad)
    | inr (id, is_id) ↦ elim (Result-cases (load_keypair h cli.keypair cli.keypair_base58_file)) [
      | inl (e, bad) ↦ inl (e, rw (is_id, bad), rw (is_id, bad))
      | inr (payer, is_payer) ↦ elim (Result-cases (h.connect (client_of id payer cli.cluster))) [
        | inl (e, bad) ↦ inl (e, rw (is_id, is_payer, bad), rw (is_id, is_payer, bad))
        | inr (u, up) ↦
            inr (id, payer, is_id, is_payer, rw (is_id, is_payer, up), rw (is_id, is_payer, up))
      ]
    ]
  ]

  -- If something goes wrong on the tool's side, the first such error (of the program's address, the
  -- key pair, the connection, the fields of the command in their order) is what it fails with; and
  -- whenever it fails, it is with that error, or nothing went wrong on its side and the node refused
  -- with this error a transaction for the program and the payer that the options name.
  pub main_errors :
      (cli : Cli) (e : Error)
      → (first_failure cli ≡ some e → (main h cli).result ≡ err e)
        × ((main h cli).result ≡ err e
            → (first_failure cli ≡ some e) ⊎ ((first_failure cli ≡ none) × RefusedFor cli e))
  main_errors cli e = elim (Setup-cases cli) [
    | inl (f, bad, fails) ↦
        ((λ first. cc (bad, fails, first)), (λ failed. inl (cc (bad, fails, failed))))
    | inr (id, payer, is_id, is_payer, rest, runs) ↦
        let client = client_of id payer cli.cluster in
        (
          (λ first. runs ∙ run_command_bad client e cli.command (sym rest ∙ first)),
          (λ failed. elim (run_command-Ends client e cli.command (sym runs ∙ failed)) [
            | inl bad ↦ inl (rest ∙ bad)
            | inr (fine, refused) ↦ inr (rest ∙ fine, (id, payer, is_id, is_payer, refused))
          ]),
        )
  ]
