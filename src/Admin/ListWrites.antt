-- ===== src/Admin/ListWrites.antt =====
-- The writes of update_config.rs and initialize_extra_account_meta_list.rs to the list account.
use solana_sas_extension.Prelude.{
  ℕ, ◌≡◌, ◌≢◌, refl, sym, List, replicate, ◌⊎◌, inl, inr, Bool-cases,
}
use solana_sas_extension.Result.{ok, ok_of_bind}
use solana_sas_extension.Solana.{Pubkey, Bytes, Ledger, Invocation, update}
use solana_sas_extension.Runtime.{Runtime, ExtraAccountMeta}
use solana_sas_extension.Runtime.Laws.{CodecLaws, AccountLaws, Unchanged}
use solana_sas_extension.Instructions.UpdateConfig
use solana_sas_extension.Instructions.InitializeExtraAccountMetaList

module _ (rt : Runtime) (codec : CodecLaws rt) (accounts : AccountLaws rt) (tx : Invocation) where
  pub rewrite_meta_list-inv :
      (key : Pubkey) (metas : List ExtraAccountMeta) (l l' : Ledger)
      → UpdateConfig.rewrite_meta_list rt key metas l ≡ ok l'
      → (b : Bytes) × (rt.init_meta_list (UpdateConfig.zero_fill rt (l key).bytes) metas ≡ ok b)
        × (l' ≡ update l key (record (l key) { bytes = b }))
  unfolding UpdateConfig.rewrite_meta_list
  rewrite_meta_list-inv key metas l l' h =
      let (b, written, e) = ok_of_bind (rt.init_meta_list _ metas) _ h in (b, written, sym (cc e))

  pub write_meta_list-inv :
      (key : Pubkey) (metas : List ExtraAccountMeta) (l l' : Ledger)
      → InitializeExtraAccountMetaList.write_meta_list rt key metas l ≡ ok l'
      → (b : Bytes) × (rt.init_meta_list (l key).bytes metas ≡ ok b)
        × (l' ≡ update l key (record (l key) { bytes = b }))
  unfolding InitializeExtraAccountMetaList.write_meta_list
  write_meta_list-inv key metas l l' h =
      let (b, written, e) = ok_of_bind (rt.init_meta_list _ metas) _ h in (b, written, sym (cc e))

  pub create_if_empty_other :
      (a : InitializeExtraAccountMetaList.InitializeExtraAccountMetaList) (bump size : ℕ)
      (l m : Ledger) (k : Pubkey)
      → InitializeExtraAccountMetaList.create_if_empty rt a bump size l ≡ ok m
      → k ≢ a.extra_account_meta_list
      → Unchanged l m k
  unfolding InitializeExtraAccountMetaList.create_if_empty
  create_if_empty_other a bump size l m k h ne =
      elim (Bool-cases
        (InitializeExtraAccountMetaList.is_empty (l a.extra_account_meta_list).bytes)) [
          | inl empty ↦
              let (lamports, _, created) = ok_of_bind (rt.minimum_balance size) _ (rw empty at h) in
              accounts.create_other l m a.payer a.extra_account_meta_list k lamports size
                rt.program_id _ created ne
          | inr full ↦
              let kept = rw full at h in let same : l ≡ m = cc kept in rw (← same) (refl, refl)
        ]

  -- The list is created for the program, full of zeros, or it was there and stays as it was.
  pub create_if_empty_list :
      (a : InitializeExtraAccountMetaList.InitializeExtraAccountMetaList) (bump size : ℕ)
      (l m : Ledger)
      → InitializeExtraAccountMetaList.create_if_empty rt a bump size l ≡ ok m
      → ((m a.extra_account_meta_list).bytes ≡ replicate size 0)
        ⊎ (m a.extra_account_meta_list ≡ l a.extra_account_meta_list)
  unfolding InitializeExtraAccountMetaList.create_if_empty
  create_if_empty_list a bump size l m h =
      elim (Bool-cases
        (InitializeExtraAccountMetaList.is_empty (l a.extra_account_meta_list).bytes)) [
          | inl empty ↦
              let (lamports, _, created) = ok_of_bind (rt.minimum_balance size) _ (rw empty at h) in
              inl
                (accounts.create_new l m a.payer a.extra_account_meta_list lamports size
                  rt.program_id _ created).1
          | inr full ↦
              let kept = rw full at h in let same : l ≡ m = cc kept in inr (rw (← same) refl)
        ]

  -- The list is created for the program, or it was there and keeps its owner.
  pub create_if_empty_owner :
      (a : InitializeExtraAccountMetaList.InitializeExtraAccountMetaList) (bump size : ℕ)
      (l m : Ledger)
      → InitializeExtraAccountMetaList.create_if_empty rt a bump size l ≡ ok m
      → ((m a.extra_account_meta_list).owner ≡ rt.program_id)
        ⊎ ((m a.extra_account_meta_list).owner ≡ (l a.extra_account_meta_list).owner)
  unfolding InitializeExtraAccountMetaList.create_if_empty
  create_if_empty_owner a bump size l m h =
      elim (Bool-cases
        (InitializeExtraAccountMetaList.is_empty (l a.extra_account_meta_list).bytes)) [
          | inl empty ↦
              let (lamports, _, created) = ok_of_bind (rt.minimum_balance size) _ (rw empty at h) in
              inl
                (accounts.create_new l m a.payer a.extra_account_meta_list lamports size
                  rt.program_id _ created).0
          | inr full ↦
              let kept = rw full at h in let same : l ≡ m = cc kept in inr (rw (← same) refl)
        ]
