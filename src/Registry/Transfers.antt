-- ===== src/Registry/Transfers.antt =====
-- What a transfer needs, in terms of the registry.
use solana_sas_extension.Prelude.{
  ℕ, ◌≡◌, ◌↔◌, ◌⊎◌, inl, inr, true, false, some, arith, Option, List, [], ◌∷◌,
}
use solana_sas_extension.Prelude.Int.{ℤ}
use solana_sas_extension.Result.{ok}
use solana_sas_extension.Solana.{Pubkey, Bytes, Ledger, Invocation}
use solana_sas_extension.State.{HookConfig}
use solana_sas_extension.Seeds.{config_seeds, meta_list_seeds, attestation_seeds}
use solana_sas_extension.Runtime.{Runtime, Mint, TokenAccount, ExtraAccountMeta}
use solana_sas_extension.Accounts.{load_config}
use solana_sas_extension.Attestation.Words.{AreBytes}
use solana_sas_extension.Attestation.Verdict.{HoldsLive}
use solana_sas_extension.Instructions.TransferHook.{TransferHook, execute}
use solana_sas_extension.Hook.Acceptance.{MayTransfer}
use solana_sas_extension.Hook.Resolved.{resolved, resolved_accepts}
use solana_sas_extension.Admin.Checks.{address}
use solana_sas_extension.Resolution.{
  UnpackLaws, ResolveLaws, resolve_all, resolve_all-account_metas, expected, in_order,
  in_order_injective,
}
use solana_sas_extension.Registry.Lists.{IsServed}
use solana_sas_extension.Registry.{Registry, Settings}
use solana_sas_extension.Registry.Refines.Frames.{config_at_inj}
use solana_sas_extension.Registry.Sane.{Laws, IsSane}
use solana_sas_extension.Registry.View.{summary, config_at, registry_of}

-- A wallet may send if it is on the whitelist, or else if what the settings ask for is attested.
abbrev pub MaySend : Registry → (Settings → Type 0) → Pubkey → Type 0
MaySend r Attested wallet =
    (r.whitelisted wallet ≡ true)
    ⊎ ((r.whitelisted wallet ≡ false) × (s : Settings) × (r.settings ≡ some s) × Attested s)

-- The account at the attestation address that the settings give for the wallet belongs to the SAS
-- program of the settings and holds an attestation that is live.
abbrev pub HoldsAttestation : Runtime → Ledger → ℤ → Pubkey → Settings → Type 0
HoldsAttestation rt l now wallet s =
    let key =
      (rt.find_program_address (attestation_seeds rt s.credential s.schema wallet)
        s.sas_program).0 in
    ((l key).owner ≡ s.sas_program) × HoldsLive (l key).bytes now

-- The token accounts of a transfer are readable and of the mint, which is readable too.
pub record AreOf (rt : Runtime) (l : Ledger) (mint_key source_key destination_key : Pubkey)
    (source destination : TokenAccount) (mint : Mint) : Type 0 where
  pub minted : rt.read_mint (l mint_key) ≡ ok mint
  pub source_read : rt.read_token (l source_key) ≡ ok source
  pub source_mint : source.mint ≡ mint_key
  pub destination_read : rt.read_token (l destination_key) ≡ ok destination
  pub destination_mint : destination.mint ≡ mint_key

module _ (rt : Runtime) (laws : Laws rt) (l : Ledger) (sane : IsSane rt l) (c : HookConfig)
    (source_key mint_key destination_key owner : Pubkey)
    (found : load_config rt l (config_at rt mint_key) ≡ ok c) where
  bump_found : c.bump ≡ (rt.find_program_address (config_seeds rt mint_key) rt.program_id).1
  bump_found =
      let at = (sane (config_at rt mint_key)).configs c found in
      let same = config_at_inj rt laws mint_key at.mint at.at in rw same at.found

  follows_registry :
      (tx : Invocation) (now : ℤ) (amount : ℕ) (source destination : TokenAccount) (mint : Mint)
      → AreOf rt l mint_key source_key destination_key source destination mint
      → tx.clock ≡ ok now
      → let t = resolved rt laws.derivation.finds l c source_key mint_key destination_key owner in
        AreBytes (l t.attestation).bytes
        → (execute rt tx t amount l ≡ ok tt) ↔ (
            (rt.transferring (l source_key).bytes ≡ ok true)
            × MayTransfer source owner
            × MaySend (registry_of rt mint_key l) (HoldsAttestation rt l now owner) owner)
  follows_registry tx now amount source destination mint are clock bytes =
      let accepts =
        resolved_accepts rt laws.derivation.finds l c source_key mint_key destination_key owner tx
          now amount source destination mint
          (record {
            config = found;
            bump = bump_found;
            minted = are.minted;
            source_read = are.source_read;
            source_mint = are.source_mint;
            destination_read = are.destination_read;
            destination_mint = are.destination_mint;
          })
          clock bytes in
      (
        λ h.
            let (flag, may, cleared) = accepts.0 h in
            (
              flag,
              may,
              elim cleared [
                | inl ours ↦ inl (ground arith)
                | inr (other, owned, live) ↦ inr (ground arith, summary c, rw found, (owned, live))
              ],
            ),
        λ (flag, may, send). accepts.1 (
          flag,
          may,
          elim send [
            | inl listed ↦ inl (ground arith)
            | inr (out, s, settings, (owned, live)) ↦
                let is_c : s ≡ summary c = ground (arith, found) in
                inr (ground arith, rw is_c at owned, rw is_c at live)
          ],
        ),
      )

module _ (rt : Runtime) (laws : Laws rt) (unpack : Bytes → List ExtraAccountMeta)
    (reads : UnpackLaws rt unpack) (resolve : ExtraAccountMeta → List Pubkey → Option Pubkey)
    (resolves : ResolveLaws rt resolve) (l : Ledger)
    (source_key mint_key destination_key owner : Pubkey) where
  abbrev list_key : Pubkey
  list_key = address rt (meta_list_seeds rt mint_key)

  -- The accounts that Token-2022 passes to the hook: the four of the transfer and the list, and then
  -- those that the metas in the list account resolve to.
  abbrev pub IsPassed : TransferHook → Type 0
  IsPassed t =
      resolve_all rt resolve (unpack (l list_key).bytes)
        (source_key ∷ mint_key ∷ destination_key ∷ owner ∷ list_key ∷ [])
      ≡ some (in_order t)

  passed_expected :
      (served : IsServed rt laws mint_key l) (t : TransferHook)
      → IsPassed t
      → t ≡ expected rt served.baked.current source_key mint_key destination_key owner list_key
  passed_expected served t passed =
      let b = served.baked in
      let metas = reads.unpack-init b.blank (l list_key).bytes b.metas b.baked in
      let known =
        resolve_all-account_metas rt resolve resolves b.current source_key mint_key destination_key
          owner list_key b.metas b.built in
      in_order_injective t
        (expected rt b.current source_key mint_key destination_key owner list_key)
        (cc (rw metas at passed, known))

  -- On a ledger where every config and entry stands in its place and the mint's list is the program's
  -- and holds the metas of the mint's config, with a clock that reads `now`: a transfer between
  -- accounts of the mint, with the accounts that the stored list resolves to, goes through exactly
  -- when it is running, the owner may move the tokens, and the registry lets the owner send, be it by
  -- its whitelist or, for a wallet that is not on it, by a live attestation under its settings.
  pub transfer_follows_registry :
      IsSane rt l
      → IsServed rt laws mint_key l
      → (t : TransferHook) → IsPassed t
      → (tx : Invocation) (now : ℤ) (amount : ℕ) (source destination : TokenAccount) (mint : Mint)
      → AreOf rt l mint_key source_key destination_key source destination mint
      → tx.clock ≡ ok now
      → AreBytes (l t.attestation).bytes
      → (execute rt tx t amount l ≡ ok tt) ↔ (
          (rt.transferring (l source_key).bytes ≡ ok true)
          × MayTransfer source owner
          × MaySend (registry_of rt mint_key l) (HoldsAttestation rt l now owner) owner)
  transfer_follows_registry sane served t passed tx now amount source destination mint are clock
        bytes =
      let same = passed_expected served t passed in
      let b = served.baked in
      rw same (
        follows_registry rt laws l sane b.current source_key mint_key destination_key owner b.loaded
          tx now amount source destination mint are clock (rw same at bytes))
