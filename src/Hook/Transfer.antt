-- ===== src/Hook/Transfer.antt =====
-- The whole hook instruction: the checks of its accounts struct, then its handler.
use solana_sas_extension.Prelude.{ℕ, ◌≡◌, ◌≢◌, ◌↔◌, ◌⊎◌, inl, inr, true, arith}
use solana_sas_extension.Prelude.Int.{ℤ}
use solana_sas_extension.Result.{ok, ok_of_bind, Result-cases}
use solana_sas_extension.Solana.{Ledger, Invocation}
use solana_sas_extension.State.{HookConfig}
use solana_sas_extension.Seeds.{config_seeds, meta_list_seeds}
use solana_sas_extension.Runtime.{Runtime, Mint, TokenAccount}
use solana_sas_extension.Accounts.{load_config}
use solana_sas_extension.Admin.Checks.{IsDerived, address}
use solana_sas_extension.Attestation.Words.{AreBytes}
use solana_sas_extension.Instructions.TransferHook.{TransferHook, validate, execute}
use solana_sas_extension.Hook.Acceptance.{MayTransfer, IsWhitelisted, IsAttested, handler_accepts}

module _ (rt : Runtime) (a : TransferHook) (l : Ledger) where
  -- Two token accounts of the mint, the list at its address, and the config that its own bump
  -- derives for the mint.
  pub record Bound (source destination : TokenAccount) (mint : Mint) (config : HookConfig)
      : Type 0 where
    pub source_read : rt.read_token (l a.source_token) ≡ ok source
    pub destination_read : rt.read_token (l a.destination_token) ≡ ok destination
    pub minted : rt.read_mint (l a.mint) ≡ ok mint
    pub loaded : load_config rt l a.config ≡ ok config
    pub source_mint : source.mint ≡ a.mint
    pub destination_mint : destination.mint ≡ a.mint
    pub list : a.extra_account_meta_list ≡ address rt (meta_list_seeds rt a.mint)
    pub derived : IsDerived rt (config_seeds rt a.mint) config.bump a.config

  validate-Bound :
      (source : TokenAccount) (config : HookConfig)
      → validate rt a l ≡ ok (source, config)
      → (destination : TokenAccount) × (mint : Mint) × Bound source destination mint config
  unfolding validate
  validate-Bound source config h = elim (Result-cases (rt.read_mint (l a.mint))) [
    | inl (e, p) ↦ absurd (ground arith)
    | inr (mint, p) ↦ elim (Result-cases (rt.read_token (l a.destination_token))) [
      | inl (e, q) ↦ absurd (ground arith)
      | inr (destination, q) ↦ (destination, mint, ground arith)
    ]
  ]

  pub Bound-validate :
      (source destination : TokenAccount) (mint : Mint) (config : HookConfig)
      → Bound source destination mint config
      → validate rt a l ≡ ok (source, config)
  unfolding validate
  Bound-validate source destination mint config b = ground arith

  -- A transfer that the hook has to let through at the time `now`.
  abbrev pub IsAllowed : ℤ → Type 0
  IsAllowed now =
      (source : TokenAccount) × (destination : TokenAccount) × (mint : Mint) × (config : HookConfig)
      × Bound source destination mint config
      × (rt.transferring (l a.source_token).bytes ≡ ok true)
      × MayTransfer source a.transfer_authority
      × (IsWhitelisted rt a config l
          ⊎ (((l a.whitelist_entry).owner ≢ rt.program_id) × IsAttested rt a config l now))

  -- With a clock that reads `now`, the hook instruction succeeds exactly when its accounts are bound to
  -- the mint, the flag of the source account says that a transfer is running, the authority may move
  -- the tokens, and the authority is whitelisted or, where the program does not own the entry,
  -- attested. The amount plays no part.
  pub execute_accepts :
      (tx : Invocation) (now : ℤ) (amount : ℕ)
      → tx.clock ≡ ok now
      → AreBytes (l a.attestation).bytes
      → (execute rt tx a amount l ≡ ok tt) ↔ IsAllowed now
  unfolding execute
  execute_accepts tx now amount clock are = (
    λ h.
        let ((source, config), valid, handled) = ok_of_bind (validate rt a l) _ h in
        let (destination, mint, bound) = validate-Bound source config valid in
        let (flag, may, granted) =
          (handler_accepts rt a config l tx now clock are source).0 handled in
        (source, destination, mint, config, bound, flag, may, granted),
    λ (source, destination, mint, config, bound, flag, may, granted).
        let handled =
          (handler_accepts rt a config l tx now clock are source).1 (flag, may, granted) in
        let valid = Bound-validate source destination mint config bound in rw valid handled,
  )
