-- ===== src/Admin/MetaList.antt =====
-- update_config.rs and initialize_extra_account_meta_list.rs: the list account always encodes the
-- credential, the schema and the SAS program of the config.
use solana_sas_extension.Prelude.{
  ◌≡◌, ◌≢◌, refl, sym, ap, ◌∙◌, true, List, ◌⊎◌, length, inl, inr, ℕ, replicate,
}
use solana_sas_extension.Result.{ok, ok_of_bind}
use solana_sas_extension.Solana.{Pubkey, Bytes, Account, Ledger, Invocation, update_self, update_ne}
use solana_sas_extension.State.{HookConfig}
use solana_sas_extension.Runtime.{Runtime, ExtraAccountMeta}
use solana_sas_extension.Runtime.Laws.{CodecLaws, AccountLaws, Unchanged}
use solana_sas_extension.Accounts.{load_config}
use solana_sas_extension.Accounts.Laws.{
  load_config-HoldsConfig, load_config-Unchanged, HoldsConfig-load_config, save_config-HoldsConfig,
  save_config_other,
}
use solana_sas_extension.Instructions.UpdateConfig
use solana_sas_extension.Instructions.InitializeExtraAccountMetaList
use solana_sas_extension.Admin.ListWrites.{
  rewrite_meta_list-inv, write_meta_list-inv, create_if_empty_other, create_if_empty_owner,
  create_if_empty_list,
}
use solana_sas_extension.Admin.Checks.{update_config_checks, meta_list_checks}

-- The list account holds what the library writes for the metas of the config.
pub record IsBaked (rt : Runtime) (config list : Pubkey) (l : Ledger) : Type 0 where
  pub current : HookConfig
  pub loaded : load_config rt l config ≡ ok current
  pub metas : List ExtraAccountMeta
  pub built : InitializeExtraAccountMetaList.account_metas rt current ≡ ok metas
  pub blank : Bytes
  pub baked : rt.init_meta_list blank metas ≡ ok (l list).bytes

-- The two copies of the list of metas in the source agree.
pub account_metas-handler :
    (rt : Runtime) (credential schema sas_program : Pubkey) (c : HookConfig)
    → InitializeExtraAccountMetaList.account_metas rt
        (UpdateConfig.handler credential schema sas_program c)
      ≡ UpdateConfig.account_metas rt credential schema sas_program
unfolding InitializeExtraAccountMetaList.account_metas UpdateConfig.account_metas
    UpdateConfig.handler
account_metas-handler rt credential schema sas_program c = refl

module _ (rt : Runtime) (codec : CodecLaws rt) (accounts : AccountLaws rt) (tx : Invocation) where
  -- What a successful update_config has done.
  pub record Updated (a : UpdateConfig.UpdateConfig) (credential schema sas_program : Pubkey)
      (l l' : Ledger) (c : HookConfig) : Type 0 where
    pub found : load_config rt l a.config ≡ ok c
    pub signed : tx.is_signer c.authority ≡ true
    pub written :
        load_config rt l' a.config
        ≡ ok (record c { credential = credential; schema = schema; sas_program = sas_program })
    pub baked : IsBaked rt a.config a.extra_account_meta_list l'
    pub list_owner : (l' a.extra_account_meta_list).owner ≡ (l a.extra_account_meta_list).owner
    pub over : baked.blank ≡ UpdateConfig.zero_fill rt (l a.extra_account_meta_list).bytes
    pub others : (k : Pubkey) → k ≢ a.config → k ≢ a.extra_account_meta_list → l' k ≡ l k

  -- A successful update_config, its two accounts being different keys, was signed by the config's
  -- authority, sets the three keys and keeps the rest of the config, leaves a list account that holds
  -- the metas of the new config and has the owner it had, and changes no other account.
  pub update_config-Updated :
      (a : UpdateConfig.UpdateConfig) (credential schema sas_program : Pubkey) (l l' : Ledger)
      → a.config ≢ a.extra_account_meta_list
      → UpdateConfig.execute rt tx a credential schema sas_program l ≡ ok l'
      → (c : HookConfig) × Updated a credential schema sas_program l l' c
  unfolding UpdateConfig.execute
  update_config-Updated a credential schema sas_program l l' apart h =
      let list = a.extra_account_meta_list in
      let c' = UpdateConfig.handler credential schema sas_program in
      let (c, valid, rest) = ok_of_bind (UpdateConfig.validate rt tx a l) _ h in
      let (metas, built, rest') =
        ok_of_bind (UpdateConfig.account_metas rt credential schema sas_program) _ rest in
      let (m, rewritten, saved) =
        ok_of_bind (UpdateConfig.rewrite_meta_list rt list metas l) _ rest' in
      let checks = update_config_checks rt tx l a c valid in
      let held = load_config-HoldsConfig rt l a.config c checks.loaded in
      let (b, blank, e) = rewrite_meta_list-inv rt codec accounts tx list metas l m rewritten in
      let at_config = ap (λ (x : Ledger). x a.config) e ∙ update_ne l list a.config _ apart in
      let at_list =
        save_config_other rt m a.config (c' c) l' list saved (λ p. apart (sym p))
        ∙ ap (λ (x : Ledger). x list) e
        ∙ update_self l list (record (l list) { bytes = b }) in
      let ours : (m a.config).owner ≡ rt.program_id = rw at_config held.0 in
      let kept = save_config-HoldsConfig rt m a.config codec ours (c' c) l' saved in
      let written = HoldsConfig-load_config rt l' a.config (c' c) accounts.program_ne_system kept in
      (
        c,
        record {
          found = checks.loaded;
          signed = rw checks.authority at checks.signed;
          written = unfold UpdateConfig.handler in written;
          baked = record {
            current = c' c;
            loaded = written;
            metas = metas;
            built = rw account_metas-handler built;
            blank = UpdateConfig.zero_fill rt (l list).bytes;
            baked = rw at_list blank;
          };
          list_owner = rw at_list;
          over = refl;
          others = λ k ne ne'.
              save_config_other rt m a.config (c' c) l' k saved ne
              ∙ ap (λ (x : Ledger). x k) e
              ∙ update_ne l list k _ ne';
        },
      )

  -- What a successful initialize_extra_account_meta_list has done.
  pub record Listed (a : InitializeExtraAccountMetaList.InitializeExtraAccountMetaList)
      (l l' : Ledger) (c : HookConfig) : Type 0 where
    pub found : load_config rt l a.config ≡ ok c
    pub signed : tx.is_signer c.authority ≡ true
    pub baked : IsBaked rt a.config a.extra_account_meta_list l'
    pub list_owner :
        ((l' a.extra_account_meta_list).owner ≡ rt.program_id)
        ⊎ ((l' a.extra_account_meta_list).owner ≡ (l a.extra_account_meta_list).owner)
    -- written over a new account full of zeros, or over what the list held
    pub over :
        ((n : ℕ) × (baked.blank ≡ replicate n 0))
        ⊎ ((baked.blank ≡ (l a.extra_account_meta_list).bytes)
            × ((l' a.extra_account_meta_list).owner ≡ (l a.extra_account_meta_list).owner))
    pub others : (k : Pubkey) → k ≢ a.extra_account_meta_list → Unchanged l l' k

  -- A successful initialize_extra_account_meta_list, its config and list being different keys, was
  -- signed by the config's authority, leaves a list account that holds the metas of the config and
  -- that is the program's or has the owner it had, and changes the owner or data of no other account.
  pub initialize_extra_account_meta_list-Listed :
      (a : InitializeExtraAccountMetaList.InitializeExtraAccountMetaList) (l l' : Ledger)
      → a.config ≢ a.extra_account_meta_list
      → InitializeExtraAccountMetaList.execute rt tx a l ≡ ok l'
      → (c : HookConfig) × Listed a l l' c
  unfolding InitializeExtraAccountMetaList.execute InitializeExtraAccountMetaList.handler
  initialize_extra_account_meta_list-Listed a l l' apart h =
      let list = a.extra_account_meta_list in
      let ((c, bump), valid, rest) =
        ok_of_bind (InitializeExtraAccountMetaList.validate rt tx a l) _ h in
      let (metas, built, rest') =
        ok_of_bind (InitializeExtraAccountMetaList.account_metas rt c) _ rest in
      let (size, _, rest'') = ok_of_bind (rt.size_of (length metas)) _ rest' in
      let (m, created, written) =
        ok_of_bind (InitializeExtraAccountMetaList.create_if_empty rt a bump size l) _ rest'' in
      let checks = meta_list_checks rt tx l a c bump valid in
      let (b, blank, e) = write_meta_list-inv rt codec accounts tx list metas m l' written in
      let others = λ (k : Pubkey) (ne : k ≢ list).
        let here = ap (λ (x : Ledger). x k) e ∙ update_ne m list k _ ne in
        let before = create_if_empty_other rt codec accounts tx a bump size l m k created ne in
        let both : Unchanged l l' k = rw here before in both in
      let at_list =
        ap (λ (x : Ledger). x list) e ∙ update_self m list (record (m list) { bytes = b }) in
      (
        c,
        record {
          found = checks.loaded;
          signed = rw checks.authority at checks.signed;
          baked = record {
            current = c;
            loaded =
                load_config-Unchanged rt l l' a.config c accounts.program_ne_system
                  (others a.config apart) checks.loaded;
            metas = metas;
            built = built;
            blank = (m list).bytes;
            baked = rw at_list blank;
          };
          list_owner =
              rw at_list (create_if_empty_owner rt codec accounts tx a bump size l m created);
          over = elim (create_if_empty_list rt codec accounts tx a bump size l m created) [
            | inl zeros ↦ inl (size, zeros)
            | inr same ↦ inr (
              ap (λ (x : Account). x.bytes) same,
              ap (λ (x : Account). x.owner) (at_list) ∙ ap (λ (x : Account). x.owner) same,
            )
          ];
          others = others;
        },
      )
