-- ===== src/Hook/Whitelisted.antt =====
-- The whitelist as the hook sees it: an added wallet passes without an attestation, a removed one
-- needs one again.
use solana_sas_extension.Prelude.{ℕ, ◌≡◌, ◌≢◌, ◌↔◌, sym, ◌∙◌, inl, inr, true, arith}
use solana_sas_extension.Prelude.Int.{ℤ}
use solana_sas_extension.Result.{ok}
use solana_sas_extension.Solana.{Ledger, Invocation}
use solana_sas_extension.State.{HookConfig}
use solana_sas_extension.Runtime.{Runtime, Mint, TokenAccount}
use solana_sas_extension.Runtime.Laws.{CodecLaws, AccountLaws}
use solana_sas_extension.Attestation.Words.{AreBytes}
use solana_sas_extension.Instructions.AddToWhitelist
use solana_sas_extension.Instructions.RemoveFromWhitelist
use solana_sas_extension.Instructions.TransferHook.{
  TransferHook, assert_is_transferring, handler, execute,
}
use solana_sas_extension.Admin.Whitelist.{add_to_whitelist-Added, remove_from_whitelist-Removed}
use solana_sas_extension.Hook.Acceptance.{
  MayTransfer, IsWhitelisted, IsAttested, may_transfer-MayTransfer, check_whitelist_iff,
}
use solana_sas_extension.Hook.Transfer.{Bound, Bound-validate, execute_accepts}
use solana_sas_extension.Registry.Sane.{Laws, IsSane, entry_canonical}

module _ (rt : Runtime) (codec : CodecLaws rt) (accounts : AccountLaws rt) (tx tx' : Invocation)
    (t : TransferHook) (amount : ℕ) (source destination : TokenAccount) (mint : Mint)
    (config : HookConfig) (l l' : Ledger) where
  -- Right after an add_to_whitelist has added a wallet for a mint: the whole hook instruction lets a
  -- transfer of that mint by that wallet through, if its accounts are bound to the mint and name the
  -- wallet's entry, the transfer is running and the wallet may move the tokens; whatever
  -- attestation, credential or schema accounts are named, and whatever the clock.
  pub added_wallet_passes :
      (a : AddToWhitelist.AddToWhitelist)
      → AddToWhitelist.execute rt tx a t.transfer_authority l ≡ ok l'
      → t.mint ≡ a.mint
      → t.whitelist_entry ≡ a.whitelist_entry
      → Bound rt t l' source destination mint config
      → rt.transferring (l' t.source_token).bytes ≡ ok true
      → MayTransfer source t.transfer_authority
      → execute rt tx' t amount l' ≡ ok tt
  unfolding execute handler assert_is_transferring
  added_wallet_passes a h mint_is entry bound transferring may =
      let (c, added) = add_to_whitelist-Added rt codec accounts tx a t.transfer_authority l l' h in
      let valid = Bound-validate rt t l' source destination mint config bound in
      let may' = (may_transfer-MayTransfer source t.transfer_authority).1 may in
      let listed = (check_whitelist_iff rt t config l').1 (rw (entry, mint_is) added.at) in
      let ours : (l' t.whitelist_entry).owner ≡ rt.program_id = rw entry added.ours in
      let handled : handler rt tx' t source config l' ≡ ok tt = ground arith in rw valid handled

module _ (rt : Runtime) (laws : Laws rt) (tx tx' : Invocation) (t : TransferHook) (l l' : Ledger)
    (sane : IsSane rt l) where
  -- The transfer is bound to the mint, runs, is one that the authority may make, and names a live
  -- attestation, and an entry account that is not the program's.
  abbrev pub IsAttestedTransfer : ℤ → Type 0
  IsAttestedTransfer now =
      (source : TokenAccount) × (destination : TokenAccount) × (mint : Mint) × (config : HookConfig)
      × Bound rt t l' source destination mint config
      × (rt.transferring (l' t.source_token).bytes ≡ ok true)
      × MayTransfer source t.transfer_authority
      × ((l' t.whitelist_entry).owner ≢ rt.program_id)
      × IsAttested rt t config l' now

  no_entry :
      (a : RemoveFromWhitelist.RemoveFromWhitelist) (config : HookConfig)
      → RemoveFromWhitelist.execute rt tx a t.transfer_authority l ≡ ok l'
      → t.mint ≡ a.mint
      → ¬ IsWhitelisted rt t config l'
  no_entry a config h mint_is (ours, at) =
      let (c, e, removed) =
        remove_from_whitelist-Removed rt laws.codec laws.accounts tx a t.transfer_authority l l'
          h in
      let place =
        entry_canonical rt laws l a.whitelist_entry a.mint t.transfer_authority e
          (sane a.whitelist_entry) removed.entry removed.at in
      let same : t.whitelist_entry ≡ a.whitelist_entry = rw mint_is at at ∙ sym place in
      laws.accounts.program_ne_system (sym (rw same at ours) ∙ removed.closed)

  -- From a ledger where every config and entry stands in its place: right after a
  -- remove_from_whitelist has removed a wallet for a mint, whatever entry account a transfer of that
  -- mint by that wallet names, the whole hook instruction lets it through exactly when it is bound to
  -- the mint, runs, is one that the wallet may make, names an entry that is not the program's, and
  -- names the account of a live attestation of the wallet under the config.
  pub removed_wallet_needs_attestation :
      (a : RemoveFromWhitelist.RemoveFromWhitelist) (amount : ℕ) (now : ℤ)
      → RemoveFromWhitelist.execute rt tx a t.transfer_authority l ≡ ok l'
      → t.mint ≡ a.mint
      → tx'.clock ≡ ok now
      → AreBytes (l' t.attestation).bytes
      → (execute rt tx' t amount l' ≡ ok tt) ↔ IsAttestedTransfer now
  removed_wallet_needs_attestation a amount now h mint_is clock are =
      let accepts = execute_accepts rt t l' tx' now amount clock are in
      (
        λ passed.
            let (source, destination, mint, config, bound, flag, may, granted) = accepts.0 passed in
            elim granted [
              | inl listed ↦ absurd (no_entry a config h mint_is listed)
              | inr (other, attested) ↦
                  (source, destination, mint, config, bound, flag, may, other, attested)
            ],
        λ (source, destination, mint, config, bound, flag, may, other, attested).
            accepts.1 (source, destination, mint, config, bound, flag, may, inr (other, attested)),
      )
