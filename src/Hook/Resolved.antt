-- ===== src/Hook/Resolved.antt =====
-- A transfer with the accounts that the stored metas resolve to: what is left for the sender to
-- have.
use solana_sas_extension.Prelude.{ℕ, ◌≡◌, ◌≢◌, ◌↔◌, ◌⊎◌, inl, inr, refl, true}
use solana_sas_extension.Prelude.Int.{ℤ}
use solana_sas_extension.Result.{ok}
use solana_sas_extension.Solana.{Pubkey, Ledger, Invocation}
use solana_sas_extension.State.{HookConfig}
use solana_sas_extension.Seeds.{config_seeds, meta_list_seeds}
use solana_sas_extension.Runtime.{Runtime, Mint, TokenAccount}
use solana_sas_extension.Runtime.Laws.{AddressLaws}
use solana_sas_extension.Accounts.{load_config}
use solana_sas_extension.Admin.Checks.{address}
use solana_sas_extension.Attestation.Words.{AreBytes}
use solana_sas_extension.Attestation.Verdict.{HoldsLive}
use solana_sas_extension.Instructions.TransferHook.{TransferHook, execute}
use solana_sas_extension.Hook.Acceptance.{MayTransfer, handler_accepts}
use solana_sas_extension.Hook.Transfer.{Bound, Bound-validate}
use solana_sas_extension.Resolution.{expected}

module _ (rt : Runtime) (addresses : AddressLaws rt) (l : Ledger) (c : HookConfig)
    (source_key mint_key destination_key owner : Pubkey) where
  abbrev pub resolved : TransferHook
  resolved =
      expected rt c source_key mint_key destination_key owner
        (address rt (meta_list_seeds rt mint_key))

  -- The mint is set up: its config `c` stands at the address of its seeds, with the bump that was
  -- found for it, and the three token accounts are readable and of this mint.
  pub record IsSetUp (source destination : TokenAccount) (mint : Mint) : Type 0 where
    pub config : load_config rt l (address rt (config_seeds rt mint_key)) ≡ ok c
    pub bump : c.bump ≡ (rt.find_program_address (config_seeds rt mint_key) rt.program_id).1
    pub minted : rt.read_mint (l mint_key) ≡ ok mint
    pub source_read : rt.read_token (l source_key) ≡ ok source
    pub source_mint : source.mint ≡ mint_key
    pub destination_read : rt.read_token (l destination_key) ≡ ok destination
    pub destination_mint : destination.mint ≡ mint_key

  -- The program owns the account at the owner's whitelist address, or else the SAS program of the
  -- config owns the one at the owner's attestation address, and it holds a live attestation.
  abbrev pub IsCleared : ℤ → Type 0
  IsCleared now =
      ((l resolved.whitelist_entry).owner ≡ rt.program_id)
      ⊎ (((l resolved.whitelist_entry).owner ≢ rt.program_id)
          × ((l resolved.attestation).owner ≡ c.sas_program)
          × HoldsLive (l resolved.attestation).bytes now)

  IsSetUp-Bound :
      (source destination : TokenAccount) (mint : Mint)
      → IsSetUp source destination mint
      → Bound rt resolved l source destination mint c
  IsSetUp-Bound source destination mint s = record {
    source_read = s.source_read;
    destination_read = s.destination_read;
    minted = s.minted;
    loaded = s.config;
    source_mint = s.source_mint;
    destination_mint = s.destination_mint;
    list = refl;
    derived = rw s.bump (addresses.create-find (config_seeds rt mint_key) rt.program_id);
  }

  -- On a mint that is set up, with a clock that reads `now`, the hook lets the owner's transfer with
  -- the resolved accounts through exactly when the transfer is running, the owner may move the tokens,
  -- and the owner is cleared: every check of an address passes by itself.
  pub resolved_accepts :
      (tx : Invocation) (now : ℤ) (amount : ℕ) (source destination : TokenAccount) (mint : Mint)
      → IsSetUp source destination mint
      → tx.clock ≡ ok now
      → AreBytes (l resolved.attestation).bytes
      → (execute rt tx resolved amount l ≡ ok tt) ↔ (
          (rt.transferring (l source_key).bytes ≡ ok true)
          × MayTransfer source owner
          × IsCleared now)
  unfolding execute
  resolved_accepts tx now amount source destination mint s clock are =
      let bound = IsSetUp-Bound source destination mint s in
      let valid = Bound-validate rt resolved l source destination mint c bound in
      let handled = handler_accepts rt resolved c l tx now clock are source in
      (
        λ h.
            let (flag, may, granted) = handled.0 (rw valid at h) in
            (
              flag,
              may,
              elim granted [
                | inl listed ↦ inl listed.0
                | inr (other, attested) ↦ inr (other, attested.owner, attested.live)
              ],
            ),
        λ (flag, may, cleared). rw valid (
            handled.1 (
              flag,
              may,
              elim cleared [
                | inl ours ↦ inl (ours, refl)
                | inr (other, owned, live) ↦ inr (
                  other,
                  record {
                    credential = refl;
                    schema = refl;
                    sas_program = refl;
                    address = refl;
                    owner = owned;
                    live = live;
                  },
                )
              ],
            )),
      )
