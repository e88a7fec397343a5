-- ===== src/Hook/Served.antt =====
-- The list that the instructions leave behind, as Token-2022 reads it: it resolves to the accounts
-- of the config that is stored.
use solana_sas_extension.Prelude.{◌≡◌, ◌≢◌, some, List, [], ◌∷◌, Option}
use solana_sas_extension.Result.{ok}
use solana_sas_extension.Solana.{Pubkey, Bytes, Ledger, Invocation}
use solana_sas_extension.State.{HookConfig}
use solana_sas_extension.Runtime.{Runtime, ExtraAccountMeta}
use solana_sas_extension.Runtime.Laws.{CodecLaws, AccountLaws}
use solana_sas_extension.Accounts.{load_config}
use solana_sas_extension.Instructions.UpdateConfig
use solana_sas_extension.Instructions.InitializeExtraAccountMetaList
use solana_sas_extension.Admin.MetaList.{
  IsBaked, update_config-Updated, initialize_extra_account_meta_list-Listed,
}
use solana_sas_extension.Resolution.{
  ResolveLaws, resolve_all, resolve_all-account_metas, expected, in_order,
}

module _ (rt : Runtime) (resolve : ExtraAccountMeta → List Pubkey → Option Pubkey)
    (laws : ResolveLaws rt resolve) (source mint destination owner : Pubkey) where
  -- The list account holds metas that resolve, for a transfer with these four keys, to the accounts
  -- that the hook's checks ask for under the config `c`.
  abbrev pub Serves : HookConfig → Pubkey → Ledger → Type 0
  Serves c list l =
      (metas : List ExtraAccountMeta) × (blank : Bytes) × (rt.init_meta_list blank metas
        ≡ ok (l list).bytes)
      × (resolve_all rt resolve metas (source ∷ mint ∷ destination ∷ owner ∷ list ∷ [])
          ≡ some (in_order (expected rt c source mint destination owner list)))

  IsBaked-Serves :
      (config list : Pubkey) (l : Ledger)
      → IsBaked rt config list l
      → (c : HookConfig) × (load_config rt l config ≡ ok c) × Serves c list l
  IsBaked-Serves config list l b = (
    b.current,
    b.loaded,
    (
      b.metas,
      b.blank,
      b.baked,
      resolve_all-account_metas rt resolve laws b.current source mint destination owner list b.metas
          b.built,
    ),
  )

  module _ (codec : CodecLaws rt) (accounts : AccountLaws rt) (tx : Invocation)
      (l l' : Ledger) where
    -- After an update_config, its config and list being different keys, the list that is stored serves
    -- the config that is stored: a transfer with any source, destination and owner resolves to the
    -- accounts that the hook expects under that config, which has the three new keys.
    pub update_config-Serves :
        (a : UpdateConfig.UpdateConfig) (credential schema sas_program : Pubkey)
        → a.config ≢ a.extra_account_meta_list
        → UpdateConfig.execute rt tx a credential schema sas_program l ≡ ok l'
        → (c : HookConfig) × (load_config rt l' a.config ≡ ok c)
          × (c.credential ≡ credential)
          × (c.schema ≡ schema)
          × (c.sas_program ≡ sas_program)
          × Serves c a.extra_account_meta_list l'
    update_config-Serves a credential schema sas_program apart h =
        let (d, u) =
          update_config-Updated rt codec accounts tx a credential schema sas_program l l' apart h in
        let (c, loaded, serves) = IsBaked-Serves a.config a.extra_account_meta_list l' u.baked in
        let same : c
            ≡ record d { credential = credential; schema = schema; sas_program = sas_program } =
          cc (loaded, u.written) in
        (c, loaded, rw same, rw same, rw same, serves)

    -- After an initialize_extra_account_meta_list, its config and list being different keys, the list
    -- that is stored serves the config that is stored.
    pub initialize_extra_account_meta_list-Serves :
        (a : InitializeExtraAccountMetaList.InitializeExtraAccountMetaList)
        → a.config ≢ a.extra_account_meta_list
        → InitializeExtraAccountMetaList.execute rt tx a l ≡ ok l'
        → (c : HookConfig) × (load_config rt l' a.config ≡ ok c)
          × Serves c a.extra_account_meta_list l'
    initialize_extra_account_meta_list-Serves a apart h =
        let (d, listed) =
          initialize_extra_account_meta_list-Listed rt codec accounts tx a l l' apart h in
        IsBaked-Serves a.config a.extra_account_meta_list l' listed.baked
