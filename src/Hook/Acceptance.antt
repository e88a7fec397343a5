-- ===== src/Hook/Acceptance.antt =====
-- When the hook lets a transfer through, in terms of the accounts and not of the checks.
use solana_sas_extension.Prelude.{
  ◌≡◌, ◌≢◌, ◌<◌, ◌↔◌, ◌⊎◌, inl, inr, true, some, arith, ◌==◌, Bool-cases,
}
use solana_sas_extension.Prelude.Int.{ℤ}
use solana_sas_extension.Result.{ok}
use solana_sas_extension.Solana.{Pubkey, Ledger, Invocation}
use solana_sas_extension.State.{HookConfig}
use solana_sas_extension.Seeds.{whitelist_seeds, attestation_seeds}
use solana_sas_extension.Runtime.{Runtime, TokenAccount}
use solana_sas_extension.Attestation.Words.{AreBytes}
use solana_sas_extension.Attestation.{verify}
use solana_sas_extension.Attestation.Verdict.{HoldsLive, verify-HoldsLive}
use solana_sas_extension.Instructions.TransferHook.{
  TransferHook, may_transfer, assert_is_transferring, check_whitelist, check_attestation, handler,
}

-- The transfer authority is the owner of the source account, or its delegate with an allowance.
abbrev pub MayTransfer : TokenAccount → Pubkey → Type 0
MayTransfer source key =
    (source.owner ≡ key) ⊎ ((source.delegate ≡ some key) × (0 < source.delegated_amount))

pub may_transfer-MayTransfer :
    (source : TokenAccount) (key : Pubkey)
    → (may_transfer source key ≡ true) ↔ MayTransfer source key
unfolding may_transfer
may_transfer-MayTransfer source key = (λ h. ground arith, λ h. ground arith)

module _ (rt : Runtime) (a : TransferHook) (config : HookConfig) (l : Ledger) where
  -- The account that the program owns at the whitelist address of the mint and the authority.
  abbrev pub IsWhitelisted : Type 0
  IsWhitelisted =
      ((l a.whitelist_entry).owner ≡ rt.program_id)
      × (a.whitelist_entry
          ≡ (rt.find_program_address (whitelist_seeds rt a.mint a.transfer_authority)
              rt.program_id).0)

  -- An account of the configured SAS program, at the attestation address of the configured
  -- credential and schema and the authority, that holds an attestation live at the time `now`.
  pub record IsAttested (now : ℤ) : Type 0 where
    pub credential : a.credential ≡ config.credential
    pub schema : a.schema ≡ config.schema
    pub sas_program : a.sas_program ≡ config.sas_program
    pub address :
        a.attestation
        ≡ (rt.find_program_address
            (attestation_seeds rt config.credential config.schema a.transfer_authority)
            config.sas_program).0
    pub owner : (l a.attestation).owner ≡ config.sas_program
    pub live : HoldsLive (l a.attestation).bytes now

  pub check_whitelist_iff : (check_whitelist rt a ≡ ok tt) ↔ (
      a.whitelist_entry
      ≡ (rt.find_program_address (whitelist_seeds rt a.mint a.transfer_authority) rt.program_id).0)
  unfolding check_whitelist
  check_whitelist_iff = (λ h. ground arith, λ h. ground arith)

  module _ (tx : Invocation) (now : ℤ) (clock : tx.clock ≡ ok now)
      (are : AreBytes (l a.attestation).bytes) where
    check_attestation-IsAttested : check_attestation rt tx a config l ≡ ok tt → IsAttested now
    unfolding check_attestation
    check_attestation-IsAttested h =
        let verdict : verify (l a.attestation).bytes (ok now) ≡ ok tt = ground arith in
        record {
          credential = ground arith;
          schema = ground arith;
          sas_program = ground arith;
          address = ground arith;
          owner = ground arith;
          live = (verify-HoldsLive (l a.attestation).bytes now are).0 verdict;
        }

    IsAttested-check_attestation : IsAttested now → check_attestation rt tx a config l ≡ ok tt
    unfolding check_attestation
    IsAttested-check_attestation h =
        ground (arith, (verify-HoldsLive (l a.attestation).bytes now are).1 h.live)

    -- The handler lets the transfer through exactly when it runs inside a transfer, the authority
    -- may move the tokens, and the authority is whitelisted or, where the program does not own the
    -- entry, attested.
    pub handler_accepts :
        (source : TokenAccount)
        → (handler rt tx a source config l ≡ ok tt) ↔ (
            (rt.transferring (l a.source_token).bytes ≡ ok true)
            × MayTransfer source a.transfer_authority
            × (IsWhitelisted ⊎ (((l a.whitelist_entry).owner ≢ rt.program_id) × IsAttested now)))
    unfolding handler assert_is_transferring
    handler_accepts source = (
      λ h.
          let may : may_transfer source a.transfer_authority ≡ true = ground arith in
          (
            ground arith,
            (may_transfer-MayTransfer source a.transfer_authority).0 may,
            elim (Bool-cases ((l a.whitelist_entry).owner == rt.program_id)) [
              | inl ours ↦
                  let passed : check_whitelist rt a ≡ ok tt = ground arith in
                  inl (ground arith, check_whitelist_iff.0 passed)
              | inr other ↦
                  let passed : check_attestation rt tx a config l ≡ ok tt = ground arith in
                  inr (ground arith, check_attestation-IsAttested passed)
            ],
          ),
      λ (transferring, may, granted).
          let may' = (may_transfer-MayTransfer source a.transfer_authority).1 may in
          elim granted [
            | inl listed ↦ ground (arith, check_whitelist_iff.1 listed.1)
            | inr attested ↦ ground (arith, IsAttested-check_attestation attested.1)
          ],
    )
