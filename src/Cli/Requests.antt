-- ===== src/Cli/Requests.antt =====
-- The transaction that a command sends: who signs it, for which program, with which accounts.
use solana_sas_extension.Prelude.{ℕ, ◌≡◌, refl, arith}
use solana_sas_extension.Result.{ok, ok_of_bind}
use solana_sas_extension.Solana.{Pubkey}
use solana_sas_extension.Runtime.{Runtime}
use solana_sas_extension.Program.{Instruction}
use solana_sas_extension.Cli.Host.{Host, Client, Request}
use solana_sas_extension.Cli.Addressed.{
  IsAddressed, SameLibrary, config_at-program, list_at-program, entry_at-program,
}
use solana_sas_extension.Cli.Reported.{handle_info_total}
use solana_sas_extension.Cli.Handlers.{
  Outcome, sent, answer, handle_initialize_config, handle_update_config,
  handle_init_extra_account_meta_list, handle_add_to_whitelist, handle_remove_from_whitelist,
  handle_transfer_authority, handle_accept_authority,
}
use solana_sas_extension.Cli.Main.{Commands, Cli, get_program_client, run_command, main}
use solana_sas_extension.Cli.Options.{parse_pubkey, program_id_of, load_keypair}

module _ (rt : Runtime) where
  module _ (h : Host) (same : SameLibrary rt h) where
    module _ (program : Client) (request : Request) (tx : ℕ) where
      -- The request goes to the client's program and is paid by the client's key; if that program
      -- is the deployed one, the accounts are those that it asks for.
      pub record IsSound : Type 0 where
        pub program_is : request.program ≡ program.id
        pub payer_is : request.payer ≡ program.payer
        pub addressed :
            program.id ≡ rt.program_id → IsAddressed rt request.payer request.instruction

      send-IsSound :
          (instruction : Instruction)
          → (program.id ≡ rt.program_id → IsAddressed rt program.payer instruction)
          → answer h program instruction ≡ ok (sent request tx)
          → IsSound
      send-IsSound instruction addressed e =
          let made : Request = record {
            program = program.id;
            payer = program.payer;
            instruction = instruction;
          } in
          let (signature, _, r) = ok_of_bind (h.send program made) _ e in
          let same_request : request ≡ made = cc r in
          rw same_request (record { program_is = refl; payer_is = refl; addressed = addressed })

      initialize_config-IsSound :
          (m c s p : Pubkey)
          → (handle_initialize_config h program m c s p).result ≡ ok (sent request tx)
          → IsSound
      unfolding handle_initialize_config
      initialize_config-IsSound m c s p e =
          send-IsSound _ (λ d. (refl, config_at-program rt h same m program.id d, refl)) e

      update_config-IsSound :
          (m c s p : Pubkey)
          → (handle_update_config h program m c s p).result ≡ ok (sent request tx)
          → IsSound
      unfolding handle_update_config
      update_config-IsSound m c s p e =
          send-IsSound _
            (λ d. (
              refl,
              config_at-program rt h same m program.id d,
              list_at-program rt h same m program.id d,
            ))
            e

      init_list-IsSound :
          (m : Pubkey)
          → (handle_init_extra_account_meta_list h program m).result ≡ ok (sent request tx)
          → IsSound
      unfolding handle_init_extra_account_meta_list
      init_list-IsSound m e =
          send-IsSound _
            (λ d. (
              refl,
              config_at-program rt h same m program.id d,
              list_at-program rt h same m program.id d,
              refl,
            ))
            e

      add_to_whitelist-IsSound :
          (m w : Pubkey)
          → (handle_add_to_whitelist h program m w).result ≡ ok (sent request tx)
          → IsSound
      unfolding handle_add_to_whitelist
      add_to_whitelist-IsSound m w e =
          send-IsSound _
            (λ d. (
              refl,
              config_at-program rt h same m program.id d,
              entry_at-program rt h same m w program.id d,
              refl,
            ))
            e

      remove_from_whitelist-IsSound :
          (m w : Pubkey)
          → (handle_remove_from_whitelist h program m w).result ≡ ok (sent request tx)
          → IsSound
      unfolding handle_remove_from_whitelist
      remove_from_whitelist-IsSound m w e =
          send-IsSound _
            (λ d. (
              refl,
              config_at-program rt h same m program.id d,
              entry_at-program rt h same m w program.id d,
              refl,
            ))
            e

      transfer_authority-IsSound :
          (m n : Pubkey)
          → (handle_transfer_authority h program m n).result ≡ ok (sent request tx)
          → IsSound
      unfolding handle_transfer_authority
      transfer_authority-IsSound m n e =
          send-IsSound _ (λ d. (refl, config_at-program rt h same m program.id d, refl)) e

      accept_authority-IsSound :
          (m : Pubkey)
          → (handle_accept_authority h program m).result ≡ ok (sent request tx)
          → IsSound
      unfolding handle_accept_authority
      accept_authority-IsSound m e =
          send-IsSound _ (λ d. (refl, config_at-program rt h same m program.id d)) e

      run_command-IsSound :
          (c : Commands) → (run_command h program c).result ≡ ok (sent request tx) → IsSound
      unfolding run_command
      run_command-IsSound (Commands.info mint) e =
          let (m, _, r) = ok_of_bind (parse_pubkey h mint "mint") _ e in
          absurd (cc (r, handle_info_total h program m))
      run_command-IsSound (Commands.initialize_config mint c s p) e =
          let (m, _, e₁) = ok_of_bind (parse_pubkey h mint "mint") _ e in
          let (c', _, e₂) = ok_of_bind (parse_pubkey h c "credential") _ e₁ in
          let (s', _, e₃) = ok_of_bind (parse_pubkey h s "schema") _ e₂ in
          let (p', _, e₄) = ok_of_bind (parse_pubkey h p "sas-program") _ e₃ in
          initialize_config-IsSound m c' s' p' e₄
      run_command-IsSound (Commands.update_config mint c s p) e =
          let (m, _, e₁) = ok_of_bind (parse_pubkey h mint "mint") _ e in
          let (c', _, e₂) = ok_of_bind (parse_pubkey h c "credential") _ e₁ in
          let (s', _, e₃) = ok_of_bind (parse_pubkey h s "schema") _ e₂ in
          let (p', _, e₄) = ok_of_bind (parse_pubkey h p "sas-program") _ e₃ in
          update_config-IsSound m c' s' p' e₄
      run_command-IsSound (Commands.init_extra_account_meta_list mint) e =
          let (m, _, e₁) = ok_of_bind (parse_pubkey h mint "mint") _ e in init_list-IsSound m e₁
      run_command-IsSound (Commands.add_to_whitelist mint wallet) e =
          let (m, _, e₁) = ok_of_bind (parse_pubkey h mint "mint") _ e in
          let (w, _, e₂) = ok_of_bind (parse_pubkey h wallet "wallet") _ e₁ in
          add_to_whitelist-IsSound m w e₂
      run_command-IsSound (Commands.remove_from_whitelist mint wallet) e =
          let (m, _, e₁) = ok_of_bind (parse_pubkey h mint "mint") _ e in
          let (w, _, e₂) = ok_of_bind (parse_pubkey h wallet "wallet") _ e₁ in
          remove_from_whitelist-IsSound m w e₂
      run_command-IsSound (Commands.transfer_authority mint new_authority) e =
          let (m, _, e₁) = ok_of_bind (parse_pubkey h mint "mint") _ e in
          let (n, _, e₂) = ok_of_bind (parse_pubkey h new_authority "new-authority") _ e₁ in
          transfer_authority-IsSound m n e₂
      run_command-IsSound (Commands.accept_authority mint) e =
          let (m, _, e₁) = ok_of_bind (parse_pubkey h mint "mint") _ e in
          accept_authority-IsSound m e₁

    -- The command runs with the program and the key pair that the options name.
    pub main_client :
        (cli : Cli) (outcome : Outcome)
        → (main h cli).result ≡ ok outcome
        → (client : Client) × ((run_command h client cli.command).result ≡ ok outcome)
          × (program_id_of h cli.override_program_id ≡ ok client.id)
          × (load_keypair h cli.keypair cli.keypair_base58_file ≡ ok client.payer)
    unfolding main get_program_client
    main_client cli outcome e =
        let (id, program_found, e₁) = ok_of_bind (program_id_of h cli.override_program_id) _ e in
        let (client, made, e₂) =
          ok_of_bind
            (get_program_client h cli.keypair cli.keypair_base58_file cli.cluster id).result _ e₁ in
        let (key, loaded, r) =
          ok_of_bind (load_keypair h cli.keypair cli.keypair_base58_file) _ made in
        let same_id : client.id ≡ id = ground (arith, r) in
        let same_key : client.payer ≡ key = ground (arith, r) in
        (client, e₂, rw same_id program_found, rw same_key loaded)

    -- Whatever the command line, a transaction that is sent goes to the overridden or the declared
    -- program, is signed by the key pair of the options, and, where that program is the deployed
    -- one, names the payer as authority and the derived addresses that the program checks.
    pub main-IsAddressed :
        (cli : Cli) (request : Request) (tx : ℕ)
        → (main h cli).result ≡ ok (sent request tx)
        → (program_id_of h cli.override_program_id ≡ ok request.program)
          × (load_keypair h cli.keypair cli.keypair_base58_file ≡ ok request.payer)
          × (request.program ≡ rt.program_id → IsAddressed rt request.payer request.instruction)
    main-IsAddressed cli request tx e =
        let (client, runs, program_found, loaded) = main_client cli (sent request tx) e in
        let sound = run_command-IsSound client request tx cli.command runs in
        (
          rw sound.program_is program_found,
          rw sound.payer_is loaded,
          λ d. sound.addressed (rw (← sound.program_is) d),
        )
