-- ===== src/Instructions/InitializeExtraAccountMetaList.antt =====
-- programs/alien-id-transfer-hook/src/instructions/initialize_extra_account_meta_list.rs
use solana_sas_extension.Prelude.{ℕ, Bool, true, false, List, [], ◌∷◌, ◌==◌, length, if◌then◌else◌}
use solana_sas_extension.HookError.{hook, unauthorized}
use solana_sas_extension.Result.{Result, ok, ◌>>=◌, ◌>>◌, require}
use solana_sas_extension.Solana.{Pubkey, Bytes, Ledger, Invocation, update}
use solana_sas_extension.State.{HookConfig}
use solana_sas_extension.Seeds.{
  config_literal, extra_account_metas_literal, whitelist_literal, attestation_seed, config_seeds,
  meta_list_seeds,
}
use solana_sas_extension.Runtime.{Runtime, literal, account_key, ExtraAccountMeta}
use solana_sas_extension.Accounts.{
  signer, mutable, system_program, load_config, seeds_found, seeds_with_bump,
}

pub record InitializeExtraAccountMetaList : Type 0 where
  pub payer : Pubkey
  pub extra_account_meta_list : Pubkey
  pub mint : Pubkey
  pub config : Pubkey
  pub system_program : Pubkey

-- `data_is_empty`
abbrev pub is_empty : Bytes → Bool
is_empty [] = true
is_empty (x ∷ xs) = false

module _ (rt : Runtime) where
  unfoldable pub account_metas : HookConfig → Result (List ExtraAccountMeta)
  account_metas c = do
    -- index 5: the config
    config ← rt.new_with_seeds (literal config_literal ∷ account_key 1 ∷ []) false false
    -- index 6, 7, 8: credential, schema and SAS program
    credential ← rt.new_with_pubkey c.credential false false
    schema ← rt.new_with_pubkey c.schema false false
    sas_program ← rt.new_with_pubkey c.sas_program false false
    -- index 9: the attestation, an address derived under account 8
    attestation ←
        rt.new_external_pda_with_seeds 8
          (literal attestation_seed ∷ account_key 6 ∷ account_key 7 ∷ account_key 3 ∷ []) false
          false
    -- index 10: the whitelist entry
    whitelist ←
        rt.new_with_seeds (literal whitelist_literal ∷ account_key 1 ∷ account_key 3 ∷ []) false
          false
    ok (config ∷ credential ∷ schema ∷ sas_program ∷ attestation ∷ whitelist ∷ [])

  -- The list account is created if it has no data yet; the seeds sign for its address.
  unfoldable pub create_if_empty : InitializeExtraAccountMetaList → ℕ → ℕ → Ledger → Result Ledger
  create_if_empty a bump account_size l =
      if is_empty (l a.extra_account_meta_list).bytes
      then (do
        lamports ← rt.minimum_balance account_size
        rt.create_account l a.payer a.extra_account_meta_list lamports account_size rt.program_id
            (extra_account_metas_literal ∷ rt.as_ref a.mint ∷ (bump ∷ []) ∷ []))
      else ok l

  unfoldable pub write_meta_list : Pubkey → List ExtraAccountMeta → Ledger → Result Ledger
  write_meta_list key metas l = do
    b ← rt.init_meta_list (l key).bytes metas
    ok (update l key (record (l key) { bytes = b }))

  -- The config, and the bump of the list account's address.
  unfoldable pub validate :
      Invocation → InitializeExtraAccountMetaList → Ledger → Result (HookConfig × ℕ)
  validate tx a l = do
    signer tx a.payer
    rt.read_mint (l a.mint)
    config ← load_config rt l a.config
    system_program l a.system_program
    mutable tx a.payer
    require (a.payer == config.authority) (hook unauthorized)
    bump ← seeds_found rt (meta_list_seeds rt a.mint) a.extra_account_meta_list
    mutable tx a.extra_account_meta_list
    seeds_with_bump rt (config_seeds rt a.mint) config.bump a.config
    ok (config, bump)

  unfoldable pub handler : InitializeExtraAccountMetaList → HookConfig → ℕ → Ledger → Result Ledger
  handler a config bump l = do
    metas ← account_metas config
    account_size ← rt.size_of (length metas)
    l' ← create_if_empty a bump account_size l
    write_meta_list a.extra_account_meta_list metas l'

  unfoldable pub execute : Invocation → InitializeExtraAccountMetaList → Ledger → Result Ledger
  execute tx a l = do (config, bump) ← validate tx a l; handler a config bump l
