-- ===== src/Admin/Checks.antt =====
-- What the checks of each accounts struct establish when they pass.
use solana_sas_extension.Prelude.{ℕ, ◌≡◌, true, some, [], ◌∷◌, ◌++◌, arith, inl, inr, List}
use solana_sas_extension.Result.{ok, Result-cases}
use solana_sas_extension.Solana.{Pubkey, Bytes, Ledger, Invocation}
use solana_sas_extension.State.{HookConfig, WhitelistEntry, hook_config_len, whitelist_entry_len}
use solana_sas_extension.Seeds.{config_seeds, whitelist_seeds, meta_list_seeds}
use solana_sas_extension.Runtime.{Runtime, Mint}
use solana_sas_extension.Accounts.{load_config, load_entry}
use solana_sas_extension.Instructions.InitializeConfig
use solana_sas_extension.Instructions.TransferAuthority
use solana_sas_extension.Instructions.AcceptAuthority
use solana_sas_extension.Instructions.AddToWhitelist
use solana_sas_extension.Instructions.RemoveFromWhitelist
use solana_sas_extension.Instructions.UpdateConfig
use solana_sas_extension.Instructions.InitializeExtraAccountMetaList

module _ (rt : Runtime) where
  -- The key is what the seeds and the bump derive.
  abbrev pub IsDerived : List Bytes → ℕ → Pubkey → Type 0
  IsDerived seeds bump key =
      rt.create_program_address (seeds ++ (bump ∷ []) ∷ []) rt.program_id ≡ some key

  -- The address that is found for the seeds.
  abbrev pub address : List Bytes → Pubkey
  address seeds = (rt.find_program_address seeds rt.program_id).0

  module _ (tx : Invocation) (l : Ledger) where
    pub record TransferAuthorityChecks (a : TransferAuthority.TransferAuthority) (l' : Ledger)
        (c : HookConfig) : Type 0 where
      pub signed : tx.is_signer a.authority ≡ true
      pub loaded : load_config rt l a.config ≡ ok c
      pub authority : a.authority ≡ c.authority
      pub resized : rt.realloc_account l a.authority a.config hook_config_len ≡ ok l'
      pub derived : IsDerived (config_seeds rt a.mint) c.bump a.config

    pub transfer_authority_checks :
        (a : TransferAuthority.TransferAuthority) (l' : Ledger) (c : HookConfig)
        → TransferAuthority.validate rt tx a l ≡ ok (l', c)
        → TransferAuthorityChecks a l' c
    unfolding TransferAuthority.validate
    transfer_authority_checks a l' c h = ground arith

    pub record AcceptAuthorityChecks (a : AcceptAuthority.AcceptAuthority) (c : HookConfig)
        : Type 0 where
      pub signed : tx.is_signer a.pending_authority ≡ true
      pub loaded : load_config rt l a.config ≡ ok c
      pub pending : a.pending_authority ≡ c.pending_authority
      pub derived : IsDerived (config_seeds rt a.mint) c.bump a.config

    pub accept_authority_checks :
        (a : AcceptAuthority.AcceptAuthority) (c : HookConfig)
        → AcceptAuthority.validate rt tx a l ≡ ok c
        → AcceptAuthorityChecks a c
    unfolding AcceptAuthority.validate
    accept_authority_checks a c h = ground arith

    pub record AddToWhitelistChecks (a : AddToWhitelist.AddToWhitelist) (wallet : Pubkey)
        (l' : Ledger) (bump : ℕ) (c : HookConfig) : Type 0 where
      pub signed : tx.is_signer a.authority ≡ true
      pub loaded : load_config rt l a.config ≡ ok c
      pub authority : a.authority ≡ c.authority
      pub derived : IsDerived (config_seeds rt a.mint) c.bump a.config
      pub entry : a.whitelist_entry ≡ address (whitelist_seeds rt a.mint wallet)
      pub found :
          bump ≡ (rt.find_program_address (whitelist_seeds rt a.mint wallet) rt.program_id).1
      pub created : rt.init_account l a.authority a.whitelist_entry whitelist_entry_len ≡ ok l'

    pub add_to_whitelist_checks :
        (a : AddToWhitelist.AddToWhitelist) (wallet : Pubkey) (l' : Ledger) (bump : ℕ)
        → AddToWhitelist.validate rt tx a wallet l ≡ ok (l', bump)
        → (c : HookConfig) × AddToWhitelistChecks a wallet l' bump c
    unfolding AddToWhitelist.validate
    add_to_whitelist_checks a wallet l' bump h = elim (Result-cases (load_config rt l a.config)) [
      | inl (e, p) ↦ absurd (ground arith)
      | inr (c, p) ↦ (c, ground arith)
    ]

    pub record RemoveFromWhitelistChecks (a : RemoveFromWhitelist.RemoveFromWhitelist)
        (wallet : Pubkey) (c : HookConfig) (e : WhitelistEntry) : Type 0 where
      pub signed : tx.is_signer a.authority ≡ true
      pub loaded : load_config rt l a.config ≡ ok c
      pub authority : a.authority ≡ c.authority
      pub derived : IsDerived (config_seeds rt a.mint) c.bump a.config
      pub entry : load_entry rt l a.whitelist_entry ≡ ok e
      pub address : IsDerived (whitelist_seeds rt a.mint wallet) e.bump a.whitelist_entry

    pub remove_from_whitelist_checks :
        (a : RemoveFromWhitelist.RemoveFromWhitelist) (wallet : Pubkey)
        → RemoveFromWhitelist.validate rt tx a wallet l ≡ ok tt
        → (c : HookConfig) × (e : WhitelistEntry) × RemoveFromWhitelistChecks a wallet c e
    unfolding RemoveFromWhitelist.validate
    remove_from_whitelist_checks a wallet h = elim (Result-cases (load_config rt l a.config)) [
      | inl (x, p) ↦ absurd (ground arith)
      | inr (c, p) ↦ elim (Result-cases (load_entry rt l a.whitelist_entry)) [
        | inl (x, q) ↦ absurd (ground arith)
        | inr (e, q) ↦ (c, e, ground arith)
      ]
    ]

    pub record InitializeConfigChecks (a : InitializeConfig.InitializeConfig) (l' : Ledger)
        (bump : ℕ) (mint : Mint) : Type 0 where
      pub signed : tx.is_signer a.authority ≡ true
      pub minted : rt.read_mint (l a.mint) ≡ ok mint
      pub authority : mint.mint_authority ≡ some a.authority
      pub config : a.config ≡ address (config_seeds rt a.mint)
      pub found : bump ≡ (rt.find_program_address (config_seeds rt a.mint) rt.program_id).1
      pub created : rt.init_account l a.authority a.config hook_config_len ≡ ok l'

    pub initialize_config_checks :
        (a : InitializeConfig.InitializeConfig) (l' : Ledger) (bump : ℕ)
        → InitializeConfig.validate rt tx a l ≡ ok (l', bump)
        → (mint : Mint) × InitializeConfigChecks a l' bump mint
    unfolding InitializeConfig.validate
    initialize_config_checks a l' bump h = elim (Result-cases (rt.read_mint (l a.mint))) [
      | inl (x, p) ↦ absurd (ground arith)
      | inr (m, p) ↦ (m, ground arith)
    ]

    pub record UpdateConfigChecks (a : UpdateConfig.UpdateConfig) (c : HookConfig) : Type 0 where
      pub signed : tx.is_signer a.authority ≡ true
      pub loaded : load_config rt l a.config ≡ ok c
      pub authority : a.authority ≡ c.authority
      pub derived : IsDerived (config_seeds rt a.mint) c.bump a.config
      pub list : a.extra_account_meta_list ≡ address (meta_list_seeds rt a.mint)

    pub update_config_checks :
        (a : UpdateConfig.UpdateConfig) (c : HookConfig)
        → UpdateConfig.validate rt tx a l ≡ ok c
        → UpdateConfigChecks a c
    unfolding UpdateConfig.validate
    update_config_checks a c h = ground arith

    pub record MetaListChecks (a : InitializeExtraAccountMetaList.InitializeExtraAccountMetaList)
        (c : HookConfig) (bump : ℕ) : Type 0 where
      pub signed : tx.is_signer a.payer ≡ true
      pub loaded : load_config rt l a.config ≡ ok c
      pub authority : a.payer ≡ c.authority
      pub derived : IsDerived (config_seeds rt a.mint) c.bump a.config
      pub list : a.extra_account_meta_list ≡ address (meta_list_seeds rt a.mint)
      pub found : bump ≡ (rt.find_program_address (meta_list_seeds rt a.mint) rt.program_id).1

    pub meta_list_checks :
        (a : InitializeExtraAccountMetaList.InitializeExtraAccountMetaList) (c : HookConfig)
        (bump : ℕ)
        → InitializeExtraAccountMetaList.validate rt tx a l ≡ ok (c, bump)
        → MetaListChecks a c bump
    unfolding InitializeExtraAccountMetaList.validate
    meta_list_checks a c bump h = ground arith
