-- ===== src/Admin/Config.antt =====
-- initialize_config.rs: who creates a config, where, and what it holds.
use solana_sas_extension.Prelude.{◌≡◌, ◌≢◌, true, some}
use solana_sas_extension.Result.{ok, ok_of_bind}
use solana_sas_extension.Solana.{Pubkey, Ledger, Invocation, default, system_program_id}
use solana_sas_extension.State.{hook_config_len}
use solana_sas_extension.Seeds.{config_seeds}
use solana_sas_extension.Runtime.{Runtime, Mint}
use solana_sas_extension.Runtime.Laws.{AddressLaws, CodecLaws, AccountLaws, Unchanged}
use solana_sas_extension.Accounts.{load_config}
use solana_sas_extension.Accounts.Laws.{
  HoldsConfig-load_config, save_config-HoldsConfig, save_config_other,
}
use solana_sas_extension.Instructions.InitializeConfig
use solana_sas_extension.Admin.Checks.{IsDerived, address, initialize_config_checks}

module _ (rt : Runtime) (address_laws : AddressLaws rt) (codec : CodecLaws rt)
    (accounts : AccountLaws rt) (tx : Invocation) where
  -- What a successful initialize_config has done.
  pub record Initialized (a : InitializeConfig.InitializeConfig)
      (credential schema sas_program : Pubkey) (l l' : Ledger) (mint : Mint) : Type 0 where
    pub minted : rt.read_mint (l a.mint) ≡ ok mint
    pub authority : mint.mint_authority ≡ some a.authority
    pub signed : tx.is_signer a.authority ≡ true
    pub at : a.config ≡ address rt (config_seeds rt a.mint)
    pub fresh : (l a.config).owner ≡ system_program_id
    pub written :
        load_config rt l' a.config
        ≡ ok (record {
          authority = a.authority;
          credential = credential;
          schema = schema;
          sas_program = sas_program;
          bump = (rt.find_program_address (config_seeds rt a.mint) rt.program_id).1;
          pending_authority = default;
        })
    -- the address check of every later instruction passes with the stored bump
    pub derived :
        IsDerived rt
          (config_seeds rt a.mint)
          (rt.find_program_address (config_seeds rt a.mint) rt.program_id).1
          a.config
    pub others : (k : Pubkey) → k ≢ a.config → Unchanged l l' k

  -- A successful initialize_config was signed by the mint's authority, used the address found for the
  -- mint's config, which the System Program owned until then, and left there a config with the signer as authority, the
  -- given keys, the found bump and nobody pending; that bump derives the address again, and no other
  -- account's owner or data changed.
  pub initialize_config-Initialized :
      (a : InitializeConfig.InitializeConfig) (credential schema sas_program : Pubkey)
      (l l' : Ledger)
      → InitializeConfig.execute rt tx a credential schema sas_program l ≡ ok l'
      → (mint : Mint) × Initialized a credential schema sas_program l l' mint
  unfolding InitializeConfig.execute
  initialize_config-Initialized a credential schema sas_program l l' h =
      let ((m, bump), valid, saved) = ok_of_bind (InitializeConfig.validate rt tx a l) _ h in
      let (mint, checks) = initialize_config_checks rt tx l a m bump valid in
      let new = accounts.init_new l m a.authority a.config hook_config_len checks.created in
      let kept = save_config-HoldsConfig rt m a.config codec new.0 _ l' saved in
      let written = HoldsConfig-load_config rt l' a.config _ accounts.program_ne_system kept in
      (
        mint,
        record {
          minted = checks.minted;
          authority = checks.authority;
          signed = checks.signed;
          at = checks.config;
          fresh = accounts.init_old l m a.authority a.config hook_config_len checks.created;
          written = rw checks.found at written;
          derived =
              rw checks.config (address_laws.create-find (config_seeds rt a.mint) rt.program_id);
          others = λ k ne.
              rw (save_config_other rt m a.config _ l' k saved ne)
                (accounts.init_other l m a.authority a.config k hook_config_len checks.created ne);
        },
      )
