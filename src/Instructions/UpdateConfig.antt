-- ===== src/Instructions/UpdateConfig.antt =====
-- programs/alien-id-transfer-hook/src/instructions/update_config.rs
use solana_sas_extension.Prelude.{false, List, [], ◌∷◌, map}
use solana_sas_extension.Result.{Result, ok, ◌>>=◌, ◌>>◌}
use solana_sas_extension.Solana.{Pubkey, Bytes, Ledger, Invocation, update}
use solana_sas_extension.State.{HookConfig}
use solana_sas_extension.Seeds.{
  config_literal, whitelist_literal, attestation_seed, config_seeds, meta_list_seeds,
}
use solana_sas_extension.Runtime.{Runtime, literal, account_key, ExtraAccountMeta}
use solana_sas_extension.Accounts.{
  signer, mutable, same_key, load_config, save_config, seeds_found, seeds_with_bump,
}

pub record UpdateConfig : Type 0 where
  pub authority : Pubkey
  pub config : Pubkey
  pub mint : Pubkey
  pub extra_account_meta_list : Pubkey

-- The fields of the config that the handler sets.
unfoldable pub handler : Pubkey → Pubkey → Pubkey → HookConfig → HookConfig
handler credential schema sas_program config = record config {
  credential = credential;
  schema = schema;
  sas_program = sas_program;
}

module _ (rt : Runtime) where
  unfoldable pub account_metas : Pubkey → Pubkey → Pubkey → Result (List ExtraAccountMeta)
  account_metas credential schema sas_program = do
    config ← rt.new_with_seeds (literal config_literal ∷ account_key 1 ∷ []) false false
    credential' ← rt.new_with_pubkey credential false false
    schema' ← rt.new_with_pubkey schema false false
    sas_program' ← rt.new_with_pubkey sas_program false false
    attestation ←
        rt.new_external_pda_with_seeds 8
          (literal attestation_seed ∷ account_key 6 ∷ account_key 7 ∷ account_key 3 ∷ []) false
          false
    whitelist ←
        rt.new_with_seeds (literal whitelist_literal ∷ account_key 1 ∷ account_key 3 ∷ []) false
          false
    ok (config ∷ credential' ∷ schema' ∷ sas_program' ∷ attestation ∷ whitelist ∷ [])

  -- `data.fill(0)`
  abbrev pub zero_fill : Bytes → Bytes
  zero_fill = map (λ _. 0)

  -- The list account after the handler has written it.
  unfoldable pub rewrite_meta_list : Pubkey → List ExtraAccountMeta → Ledger → Result Ledger
  rewrite_meta_list key metas l = do
    b ← rt.init_meta_list (zero_fill (l key).bytes) metas
    ok (update l key (record (l key) { bytes = b }))

  unfoldable pub validate : Invocation → UpdateConfig → Ledger → Result HookConfig
  validate tx a l = do
    signer tx a.authority
    config ← load_config rt l a.config
    rt.read_mint (l a.mint)
    same_key a.authority config.authority
    seeds_with_bump rt (config_seeds rt a.mint) config.bump a.config
    mutable tx a.config
    seeds_found rt (meta_list_seeds rt a.mint) a.extra_account_meta_list
    mutable tx a.extra_account_meta_list
    ok config

  unfoldable pub execute :
      Invocation → UpdateConfig → Pubkey → Pubkey → Pubkey → Ledger → Result Ledger
  execute tx a credential schema sas_program l = do
    config ← validate tx a l
    metas ← account_metas credential schema sas_program
    l' ← rewrite_meta_list a.extra_account_meta_list metas l
    save_config rt l' a.config (handler credential schema sas_program config)
