-- ===== src/Cli/Addressed.antt =====
-- The addresses that the tool derives are the program's, and what it means that an instruction names
-- them.
use solana_sas_extension.Prelude.{◌≡◌}
use solana_sas_extension.Solana.{Pubkey, system_program_id}
use solana_sas_extension.Seeds.{config_seeds, meta_list_seeds, whitelist_seeds}
use solana_sas_extension.Runtime.{Runtime}
use solana_sas_extension.Admin.Checks.{address}
use solana_sas_extension.Program.{
  Instruction, initialize_config, update_config, add_to_whitelist, remove_from_whitelist,
  transfer_authority, accept_authority, initialize_extra_account_meta_list, transfer_hook,
}
use solana_sas_extension.Cli.Host.{Host}
use solana_sas_extension.Cli.Utils.{
  get_config_address, get_extra_account_meta_list_address, get_whitelist_entry_address,
}

module _ (rt : Runtime) where
  -- The program signs with the payer and names the addresses that its checks ask for.
  abbrev pub IsAddressed : Pubkey → Instruction → Type 0
  IsAddressed payer (initialize_config a c s p) =
      (a.authority ≡ payer)
      × (a.config ≡ address rt (config_seeds rt a.mint))
      × (a.system_program ≡ system_program_id)
  IsAddressed payer (update_config a c s p) =
      (a.authority ≡ payer)
      × (a.config ≡ address rt (config_seeds rt a.mint))
      × (a.extra_account_meta_list ≡ address rt (meta_list_seeds rt a.mint))
  IsAddressed payer (add_to_whitelist a w) =
      (a.authority ≡ payer)
      × (a.config ≡ address rt (config_seeds rt a.mint))
      × (a.whitelist_entry ≡ address rt (whitelist_seeds rt a.mint w))
      × (a.system_program ≡ system_program_id)
  IsAddressed payer (remove_from_whitelist a w) =
      (a.authority ≡ payer)
      × (a.config ≡ address rt (config_seeds rt a.mint))
      × (a.whitelist_entry ≡ address rt (whitelist_seeds rt a.mint w))
      × (a.system_program ≡ system_program_id)
  IsAddressed payer (transfer_authority a) =
      (a.authority ≡ payer)
      × (a.config ≡ address rt (config_seeds rt a.mint))
      × (a.system_program ≡ system_program_id)
  IsAddressed payer (accept_authority a) =
      (a.pending_authority ≡ payer) × (a.config ≡ address rt (config_seeds rt a.mint))
  IsAddressed payer (initialize_extra_account_meta_list a) =
      (a.payer ≡ payer)
      × (a.config ≡ address rt (config_seeds rt a.mint))
      × (a.extra_account_meta_list ≡ address rt (meta_list_seeds rt a.mint))
      × (a.system_program ≡ system_program_id)
  IsAddressed payer (transfer_hook a amount) = ⊥

  -- The tool and the program derive addresses with one library.
  pub record SameLibrary (h : Host) : Type 0 where
    pub find :
        (seeds : _) (program : Pubkey)
        → h.find_program_address seeds program ≡ rt.find_program_address seeds program
    pub ref : (k : Pubkey) → h.as_ref k ≡ rt.as_ref k

  module _ (h : Host) (same : SameLibrary h) where
    find_config :
        (mint program : Pubkey)
        → get_config_address h mint program ≡ rt.find_program_address (config_seeds rt mint) program
    unfolding get_config_address
    find_config mint program = rw (same.find, same.ref)

    find_list :
        (mint program : Pubkey)
        → get_extra_account_meta_list_address h mint program
          ≡ rt.find_program_address (meta_list_seeds rt mint) program
    unfolding get_extra_account_meta_list_address
    find_list mint program = rw (same.find, same.ref)

    find_entry :
        (mint wallet program : Pubkey)
        → get_whitelist_entry_address h mint wallet program
          ≡ rt.find_program_address (whitelist_seeds rt mint wallet) program
    unfolding get_whitelist_entry_address
    find_entry mint wallet program = rw (same.find, same.ref mint, same.ref wallet)

    -- For the deployed program they are the addresses that it derives.
    pub config_at-program :
        (mint program : Pubkey)
        → program ≡ rt.program_id
        → (get_config_address h mint program).0 ≡ address rt (config_seeds rt mint)
    config_at-program mint program e = rw (find_config mint program, e)

    pub list_at-program :
        (mint program : Pubkey)
        → program ≡ rt.program_id
        → (get_extra_account_meta_list_address h mint program).0
          ≡ address rt (meta_list_seeds rt mint)
    list_at-program mint program e = rw (find_list mint program, e)

    pub entry_at-program :
        (mint wallet program : Pubkey)
        → program ≡ rt.program_id
        → (get_whitelist_entry_address h mint wallet program).0
          ≡ address rt (whitelist_seeds rt mint wallet)
    entry_at-program mint wallet program e = rw (find_entry mint wallet program, e)
