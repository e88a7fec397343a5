-- ===== src/Resolution.antt =====
-- What Token-2022 passes to the hook: the accounts that the stored metas resolve to are those that
-- the hook's checks ask for.
use solana_sas_extension.Prelude.{
  ℕ, zero, suc, ◌≡◌, refl, ap, Bool, Option, none, some, List, [], ◌∷◌, ◌++◌, arith, ◌==◌,
}
use solana_sas_extension.HookError.{hook, invalid_attestation}
use solana_sas_extension.Result.{ok, ok_of_bind, ◌>>◌, require}
use solana_sas_extension.Solana.{Pubkey, Bytes, Ledger, Invocation}
use solana_sas_extension.State.{HookConfig}
use solana_sas_extension.Seeds.{config_seeds, whitelist_seeds, attestation_seeds}
use solana_sas_extension.Runtime.{Runtime, Seed, literal, account_key, ExtraAccountMeta}
use solana_sas_extension.Attestation.{verify}
use solana_sas_extension.Instructions.TransferHook.{
  TransferHook, check_whitelist, check_attestation,
}
use solana_sas_extension.Instructions.InitializeExtraAccountMetaList.{account_metas}

abbrev pub get_elem? : List Pubkey → ℕ → Option Pubkey
get_elem? [] i = none
get_elem? (x ∷ xs) zero = some x
get_elem? (x ∷ xs) (suc i) = get_elem? xs i

-- The bytes of a seed, and of seeds, among the accounts that are known so far.
abbrev pub seed_bytes : Runtime → Seed → List Pubkey → Option Bytes
seed_bytes rt (literal b) known = some b
seed_bytes rt (account_key i) known = elim (get_elem? known i) [
  | none ↦ none
  | some k ↦ some (rt.as_ref k)
]

abbrev pub add_bytes : Option Bytes → Option (List Bytes) → Option (List Bytes)
add_bytes none bs = none
add_bytes (some b) none = none
add_bytes (some b) (some bs) = some (b ∷ bs)

abbrev pub seeds_bytes : Runtime → List Seed → List Pubkey → Option (List Bytes)
seeds_bytes rt [] known = some []
seeds_bytes rt (s ∷ ss) known = add_bytes (seed_bytes rt s known) (seeds_bytes rt ss known)

-- How the account resolution library documents the three kinds of metas.
pub record ResolveLaws (rt : Runtime) (resolve : ExtraAccountMeta → List Pubkey → Option Pubkey)
    : Type 0 where
  pub pubkey :
      (k : Pubkey) (s w : Bool) (m : ExtraAccountMeta) (known : List Pubkey)
      → rt.new_with_pubkey k s w ≡ ok m
      → resolve m known ≡ some k
  pub seeds :
      (ss : List Seed) (s w : Bool) (m : ExtraAccountMeta) (known : List Pubkey) (bs : List Bytes)
      → rt.new_with_seeds ss s w ≡ ok m
      → seeds_bytes rt ss known ≡ some bs
      → resolve m known ≡ some (rt.find_program_address bs rt.program_id).0
  pub external_seeds :
      (i : ℕ) (ss : List Seed) (s w : Bool) (m : ExtraAccountMeta) (known : List Pubkey)
      (program : Pubkey) (bs : List Bytes)
      → rt.new_external_pda_with_seeds i ss s w ≡ ok m
      → get_elem? known i ≡ some program
      → seeds_bytes rt ss known ≡ some bs
      → resolve m known ≡ some (rt.find_program_address bs program).0

-- The library reads back the metas of a list that it has written.
pub record UnpackLaws (rt : Runtime) (unpack : Bytes → List ExtraAccountMeta) : Type 0 where
  pub unpack-init :
      (blank b : Bytes) (metas : List ExtraAccountMeta)
      → rt.init_meta_list blank metas ≡ ok b
      → unpack b ≡ metas

-- The accounts of a transfer, in the order of the accounts struct.
abbrev pub expected :
    Runtime → HookConfig → Pubkey → Pubkey → Pubkey → Pubkey → Pubkey → TransferHook
expected rt c source mint destination owner list = record {
  source_token = source;
  mint = mint;
  destination_token = destination;
  transfer_authority = owner;
  extra_account_meta_list = list;
  config = (rt.find_program_address (config_seeds rt mint) rt.program_id).0;
  credential = c.credential;
  schema = c.schema;
  sas_program = c.sas_program;
  attestation =
      (rt.find_program_address (attestation_seeds rt c.credential c.schema owner) c.sas_program).0;
  whitelist_entry = (rt.find_program_address (whitelist_seeds rt mint owner) rt.program_id).0;
}

abbrev pub in_order : TransferHook → List Pubkey
in_order t =
    t.source_token ∷ t.mint ∷ t.destination_token ∷ t.transfer_authority ∷ t.extra_account_meta_list
    ∷ t.config ∷ t.credential ∷ t.schema ∷ t.sas_program ∷ t.attestation ∷ t.whitelist_entry ∷ []

-- The accounts struct of eleven keys; `t` for any other number.
abbrev from_keys : TransferHook → List Pubkey → TransferHook
from_keys t (k₁ ∷ k₂ ∷ k₃ ∷ k₄ ∷ k₅ ∷ k₆ ∷ k₇ ∷ k₈ ∷ k₉ ∷ k₁₀ ∷ k₁₁ ∷ []) = record {
  source_token = k₁;
  mint = k₂;
  destination_token = k₃;
  transfer_authority = k₄;
  extra_account_meta_list = k₅;
  config = k₆;
  credential = k₇;
  schema = k₈;
  sas_program = k₉;
  attestation = k₁₀;
  whitelist_entry = k₁₁;
}
from_keys t _ = t

pub in_order_injective : (t u : TransferHook) → in_order t ≡ in_order u → t ≡ u
in_order_injective t u e = ap (from_keys u) e

module _ (rt : Runtime) (resolve : ExtraAccountMeta → List Pubkey → Option Pubkey) where
  abbrev push_resolved :
      Option Pubkey → List Pubkey → (List Pubkey → Option (List Pubkey)) → Option (List Pubkey)
  push_resolved none known next = none
  push_resolved (some k) known next = next (known ++ k ∷ [])

  -- Each meta is resolved among the accounts before it.
  abbrev pub resolve_all : List ExtraAccountMeta → List Pubkey → Option (List Pubkey)
  resolve_all [] known = some known
  resolve_all (m ∷ ms) known = push_resolved (resolve m known) known (resolve_all ms)

  module _ (laws : ResolveLaws rt resolve) (c : HookConfig)
      (source mint destination owner list : Pubkey) where
    -- The metas of a config resolve to the config address, the config's three keys, the attestation
    -- address and the whitelist address, each at its index.
    pub resolve_all-account_metas :
        (metas : List ExtraAccountMeta)
        → account_metas rt c ≡ ok metas
        → resolve_all metas (source ∷ mint ∷ destination ∷ owner ∷ list ∷ [])
          ≡ some (in_order (expected rt c source mint destination owner list))
    unfolding account_metas
    resolve_all-account_metas metas h =
        let (m₁, e₁, h₁) = ok_of_bind (rt.new_with_seeds _ _ _) _ h in
        let (m₂, e₂, h₂) = ok_of_bind (rt.new_with_pubkey _ _ _) _ h₁ in
        let (m₃, e₃, h₃) = ok_of_bind (rt.new_with_pubkey _ _ _) _ h₂ in
        let (m₄, e₄, h₄) = ok_of_bind (rt.new_with_pubkey _ _ _) _ h₃ in
        let (m₅, e₅, h₅) = ok_of_bind (rt.new_external_pda_with_seeds _ _ _ _) _ h₄ in
        let (m₆, e₆, h₆) = ok_of_bind (rt.new_with_seeds _ _ _) _ h₅ in
        let listed : metas ≡ m₁ ∷ m₂ ∷ m₃ ∷ m₄ ∷ m₅ ∷ m₆ ∷ [] = cc h₆ in
        rw (
          listed,
          laws.seeds _ _ _ m₁ (source ∷ mint ∷ destination ∷ owner ∷ list ∷ []) _ e₁ refl,
          laws.pubkey c.credential _ _ m₂ _ e₂,
          laws.pubkey c.schema _ _ m₃ _ e₃,
          laws.pubkey c.sas_program _ _ m₄ _ e₄,
          laws.external_seeds 8 _ _ _ m₅ _ c.sas_program _ e₅ refl refl,
          laws.seeds _ _ _ m₆ _ _ e₆ refl,
        )

module _ (rt : Runtime) (c : HookConfig) (source mint destination owner list : Pubkey) where
  -- For the accounts that the metas resolve to, the whitelist check passes, and the attestation
  -- check is the test of the attestation's owner followed by that of its data.
  pub expected_checks :
      (tx : Invocation) (l : Ledger)
      → let t = expected rt c source mint destination owner list in
        (check_whitelist rt t ≡ ok tt)
        × (check_attestation rt tx t c l ≡ (
            require ((l t.attestation).owner == c.sas_program) (hook invalid_attestation)
            >> verify (l t.attestation).bytes tx.clock))
  unfolding check_whitelist check_attestation
  expected_checks tx l = (ground arith, ground arith)
