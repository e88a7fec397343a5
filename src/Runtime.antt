-- ===== src/Runtime.antt =====
-- The code that the program calls and that is not part of the repository: Solana's system calls,
-- Anchor's account types, Token-2022's and SPL's libraries. It is one record of functions, an
-- argument of every definition that uses it.
pub mod Laws
use solana_sas_extension.Prelude.{ℕ, Bool, Option, List}
use solana_sas_extension.Result.{Result}
use solana_sas_extension.Solana.{Pubkey, Bytes, Account, Ledger, Invocation}
use solana_sas_extension.State.{HookConfig, WhitelistEntry}

-- The fields of Token-2022's `Mint` and `TokenAccount` that the program reads.
pub record Mint : Type 0 where
  pub mint_authority : Option Pubkey

pub record TokenAccount : Type 0 where
  pub mint : Pubkey
  pub owner : Pubkey
  pub delegate : Option Pubkey
  pub delegated_amount : ℕ

-- `spl_tlv_account_resolution::seeds::Seed`, the two cases that the program builds.
pub data Seed : Type 0 where
  literal : Bytes → Seed
  account_key : ℕ → Seed

-- `spl_tlv_account_resolution::account::ExtraAccountMeta` is 35 bytes.
abbrev pub ExtraAccountMeta : Type 0
ExtraAccountMeta = Bytes

pub record Runtime : Type 0 where
  -- the address under which the program is deployed, `ctx.program_id`
  pub program_id : Pubkey
  -- `Pubkey::as_ref`, `Pubkey::find_program_address`, `Pubkey::create_program_address`
  pub as_ref : Pubkey → Bytes
  pub find_program_address : List Bytes → Pubkey → Pubkey × ℕ
  pub create_program_address : List Bytes → Pubkey → Option Pubkey
  -- Anchor's serialization of the two account types; writing keeps the rest of the buffer
  pub read_config : Bytes → Option HookConfig
  pub write_config : HookConfig → Bytes → Option Bytes
  pub read_entry : Bytes → Option WhitelistEntry
  pub write_entry : WhitelistEntry → Bytes → Option Bytes
  -- `InterfaceAccount<Mint>`, `InterfaceAccount<TokenAccount>`
  pub read_mint : Account → Result Mint
  pub read_token : Account → Result TokenAccount
  -- the flag `transferring` of the extension `TransferHookAccount` in a token account's data
  pub transferring : Bytes → Result Bool
  -- Anchor's `init` (payer, key, space), `realloc` (payer, key, space) and `close` (key, destination)
  pub init_account : Ledger → Pubkey → Pubkey → ℕ → Result Ledger
  pub realloc_account : Ledger → Pubkey → Pubkey → ℕ → Result Ledger
  pub close_account : Invocation → Ledger → Pubkey → Pubkey → Result Ledger
  -- `Rent::get()?.minimum_balance(size)`
  pub minimum_balance : ℕ → Result ℕ
  -- the System Program's `create_account` (from, to, lamports, space, owner), signed with seeds
  pub create_account : Ledger → Pubkey → Pubkey → ℕ → ℕ → Pubkey → List Bytes → Result Ledger
  -- `ExtraAccountMeta::new_…`, with the flags `is_signer` and `is_writable`
  pub new_with_seeds : List Seed → Bool → Bool → Result ExtraAccountMeta
  pub new_with_pubkey : Pubkey → Bool → Bool → Result ExtraAccountMeta
  pub new_external_pda_with_seeds : ℕ → List Seed → Bool → Bool → Result ExtraAccountMeta
  -- `ExtraAccountMetaList::size_of` and `ExtraAccountMetaList::init::<ExecuteInstruction>`
  pub size_of : ℕ → Result ℕ
  pub init_meta_list : Bytes → List ExtraAccountMeta → Result Bytes
