-- ===== src/History/Effects.antt =====
-- update_config.rs and initialize_extra_account_meta_list.rs write to no account but the config
-- and the list.
use solana_sas_extension.Prelude.{◌≡◌, ◌≢◌, sym, ap, ◌∙◌, true, length}
use solana_sas_extension.Result.{ok, ok_of_bind}
use solana_sas_extension.Solana.{Pubkey, Ledger, Invocation, update_ne}
use solana_sas_extension.State.{HookConfig}
use solana_sas_extension.Seeds.{config_seeds, meta_list_seeds}
use solana_sas_extension.Runtime.{Runtime}
use solana_sas_extension.Runtime.Laws.{CodecLaws, AccountLaws, Unchanged}
use solana_sas_extension.Accounts.{load_config}
use solana_sas_extension.Accounts.Laws.{save_config_other}
use solana_sas_extension.Instructions.UpdateConfig
use solana_sas_extension.Instructions.InitializeExtraAccountMetaList
use solana_sas_extension.Admin.Checks.{address, IsDerived, update_config_checks, meta_list_checks}
use solana_sas_extension.Admin.ListWrites.{
  rewrite_meta_list-inv, write_meta_list-inv, create_if_empty_other,
}

module _ (rt : Runtime) (codec : CodecLaws rt) (accounts : AccountLaws rt) (tx : Invocation)
    (l l' : Ledger) (k : Pubkey)
    (apart : (m : Pubkey) → address rt (meta_list_seeds rt m) ≢ k) where
  pub update_config_effect :
      (a : UpdateConfig.UpdateConfig) (credential schema sas_program : Pubkey)
      → UpdateConfig.execute rt tx a credential schema sas_program l ≡ ok l'
      → (c : HookConfig) × (load_config rt l a.config ≡ ok c)
        × (tx.is_signer c.authority ≡ true)
        × (k ≢ a.config → l' k ≡ l k)
  unfolding UpdateConfig.execute
  update_config_effect a credential schema sas_program h =
      let list = a.extra_account_meta_list in
      let (c, valid, rest) = ok_of_bind (UpdateConfig.validate rt tx a l) _ h in
      let (metas, _, rest') =
        ok_of_bind (UpdateConfig.account_metas rt credential schema sas_program) _ rest in
      let (m, rewritten, saved) =
        ok_of_bind (UpdateConfig.rewrite_meta_list rt list metas l) _ rest' in
      let checks = update_config_checks rt tx l a c valid in
      let (b, _, e) = rewrite_meta_list-inv rt codec accounts tx list metas l m rewritten in
      let not_list : k ≢ list = λ p. apart a.mint (sym (p ∙ checks.list)) in
      (
        c,
        checks.loaded,
        rw checks.authority at checks.signed,
        λ ne.
            save_config_other rt m a.config _ l' k saved ne
            ∙ ap (λ (x : Ledger). x k) e
            ∙ update_ne l list k _ not_list,
      )

  pub meta_list_effect :
      (a : InitializeExtraAccountMetaList.InitializeExtraAccountMetaList)
      → InitializeExtraAccountMetaList.execute rt tx a l ≡ ok l'
      → Unchanged l l' k
  unfolding InitializeExtraAccountMetaList.execute InitializeExtraAccountMetaList.handler
  meta_list_effect a h =
      let list = a.extra_account_meta_list in
      let ((c, bump), valid, rest) =
        ok_of_bind (InitializeExtraAccountMetaList.validate rt tx a l) _ h in
      let (metas, _, rest') =
        ok_of_bind (InitializeExtraAccountMetaList.account_metas rt c) _ rest in
      let (size, _, rest'') = ok_of_bind (rt.size_of (length metas)) _ rest' in
      let (m, created, written) =
        ok_of_bind (InitializeExtraAccountMetaList.create_if_empty rt a bump size l) _ rest'' in
      let checks = meta_list_checks rt tx l a c bump valid in
      let (b, _, e) = write_meta_list-inv rt codec accounts tx list metas m l' written in
      let not_list : k ≢ list = λ p. apart a.mint (sym (p ∙ checks.list)) in
      let here = ap (λ (x : Ledger). x k) e ∙ update_ne m list k _ not_list in
      rw here (create_if_empty_other rt codec accounts tx a bump size l m k created not_list)

-- What the two instructions have found before they wrote.
module _ (rt : Runtime) (tx : Invocation) (l l' : Ledger) where
  pub update_config_found :
      (a : UpdateConfig.UpdateConfig) (credential schema sas_program : Pubkey)
      → UpdateConfig.execute rt tx a credential schema sas_program l ≡ ok l'
      → (c : HookConfig) × (load_config rt l a.config ≡ ok c)
        × IsDerived rt (config_seeds rt a.mint) c.bump a.config
        × (a.extra_account_meta_list ≡ address rt (meta_list_seeds rt a.mint))
  unfolding UpdateConfig.execute
  update_config_found a credential schema sas_program h =
      let (c, valid, _) = ok_of_bind (UpdateConfig.validate rt tx a l) _ h in
      let checks = update_config_checks rt tx l a c valid in
      (c, checks.loaded, checks.derived, checks.list)

  pub meta_list_found :
      (a : InitializeExtraAccountMetaList.InitializeExtraAccountMetaList)
      → InitializeExtraAccountMetaList.execute rt tx a l ≡ ok l'
      → (c : HookConfig) × (load_config rt l a.config ≡ ok c)
        × IsDerived rt (config_seeds rt a.mint) c.bump a.config
        × (a.extra_account_meta_list ≡ address rt (meta_list_seeds rt a.mint))
  unfolding InitializeExtraAccountMetaList.execute
  meta_list_found a h =
      let ((c, bump), valid, _) =
        ok_of_bind (InitializeExtraAccountMetaList.validate rt tx a l) _ h in
      let checks = meta_list_checks rt tx l a c bump valid in
      (c, checks.loaded, checks.derived, checks.list)
