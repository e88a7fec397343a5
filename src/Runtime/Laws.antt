-- ===== src/Runtime/Laws.antt =====
-- What the program relies on of the code it calls, as that code's documentation states it. Each
-- record is a hypothesis of the theorems that need it.
use solana_sas_extension.Prelude.{
  ℕ, ◌≡◌, ◌≢◌, ◌≤◌, none, some, List, [], ◌∷◌, ◌++◌, length, replicate,
}
use solana_sas_extension.Result.{ok}
use solana_sas_extension.Solana.{Pubkey, Bytes, Ledger, Invocation, system_program_id}
use solana_sas_extension.State.{HookConfig, WhitelistEntry, hook_config_len, whitelist_entry_len}
use solana_sas_extension.Runtime.{Runtime, ExtraAccountMeta}

-- What owner and data show of an account: lamports may move freely.
abbrev pub Unchanged : Ledger → Ledger → Pubkey → Type 0
Unchanged l l' k = ((l' k).owner ≡ (l k).owner) × ((l' k).bytes ≡ (l k).bytes)

-- `Pubkey::find_program_address` returns an address that `create_program_address` derives from
-- the seeds and the bump.
pub record AddressLaws (rt : Runtime) : Type 0 where
  pub create-find :
      (seeds : List Bytes) (program : Pubkey)
      → rt.create_program_address
          (seeds ++ ((rt.find_program_address seeds program).1 ∷ []) ∷ [])
          program
        ≡ some (rt.find_program_address seeds program).0

-- Anchor's serialization: what is written into a buffer that is long enough is read back, and the
-- two account types have different discriminators.
pub record CodecLaws (rt : Runtime) : Type 0 where
  pub config_fits :
      (c : HookConfig) (b : Bytes) → hook_config_len ≤ length b → rt.write_config c b ≢ none
  pub config_back :
      (c : HookConfig) (b b' : Bytes)
      → rt.write_config c b ≡ some b'
      → (rt.read_config b' ≡ some c) × (length b' ≡ length b)
  pub entry_fits :
      (e : WhitelistEntry) (b : Bytes) → whitelist_entry_len ≤ length b → rt.write_entry e b ≢ none
  pub entry_back :
      (e : WhitelistEntry) (b b' : Bytes)
      → rt.write_entry e b ≡ some b'
      → (rt.read_entry b' ≡ some e) × (length b' ≡ length b)
  pub config_not_entry :
      (b : Bytes) (c : HookConfig) → rt.read_config b ≡ some c → rt.read_entry b ≡ none

-- `init`, `realloc` and `close` of Anchor, and the System Program's `create_account`. An account
-- is created only where the System Program owns the key, and no other account's owner or data
-- changes. The program is not the System Program.
pub record AccountLaws (rt : Runtime) : Type 0 where
  pub program_ne_system : rt.program_id ≢ system_program_id
  pub init_old :
      (l l' : Ledger) (payer key : Pubkey) (space : ℕ)
      → rt.init_account l payer key space ≡ ok l'
      → (l key).owner ≡ system_program_id
  pub init_new :
      (l l' : Ledger) (payer key : Pubkey) (space : ℕ)
      → rt.init_account l payer key space ≡ ok l'
      → ((l' key).owner ≡ rt.program_id) × ((l' key).bytes ≡ replicate space 0)
  pub init_other :
      (l l' : Ledger) (payer key k : Pubkey) (space : ℕ)
      → rt.init_account l payer key space ≡ ok l'
      → k ≢ key
      → Unchanged l l' k
  pub create_old :
      (l l' : Ledger) (payer key : Pubkey) (lamports space : ℕ) (owner : Pubkey)
      (seeds : List Bytes)
      → rt.create_account l payer key lamports space owner seeds ≡ ok l'
      → (l key).owner ≡ system_program_id
  pub create_new :
      (l l' : Ledger) (payer key : Pubkey) (lamports space : ℕ) (owner : Pubkey)
      (seeds : List Bytes)
      → rt.create_account l payer key lamports space owner seeds ≡ ok l'
      → ((l' key).owner ≡ owner) × ((l' key).bytes ≡ replicate space 0)
  pub create_other :
      (l l' : Ledger) (payer key k : Pubkey) (lamports space : ℕ) (owner : Pubkey)
      (seeds : List Bytes)
      → rt.create_account l payer key lamports space owner seeds ≡ ok l'
      → k ≢ key
      → Unchanged l l' k
  pub realloc_owner :
      (l l' : Ledger) (payer key : Pubkey) (space : ℕ)
      → rt.realloc_account l payer key space ≡ ok l'
      → (l' key).owner ≡ (l key).owner
  pub realloc_length :
      (l l' : Ledger) (payer key : Pubkey) (space : ℕ)
      → rt.realloc_account l payer key space ≡ ok l'
      → length (l' key).bytes ≡ space
  pub realloc_other :
      (l l' : Ledger) (payer key k : Pubkey) (space : ℕ)
      → rt.realloc_account l payer key space ≡ ok l'
      → k ≢ key
      → Unchanged l l' k
  pub close_closed :
      (tx : Invocation) (l l' : Ledger) (key destination : Pubkey)
      → rt.close_account tx l key destination ≡ ok l'
      → ((l' key).owner ≡ system_program_id) × ((l' key).bytes ≡ [])
  pub close_other :
      (tx : Invocation) (l l' : Ledger) (key destination k : Pubkey)
      → rt.close_account tx l key destination ≡ ok l'
      → k ≢ key
      → Unchanged l l' k

-- The discriminator of an account type is not zero. The library puts a list of metas at the start of
-- the buffer, behind the discriminator of the transfer hook's instruction, which is that of neither
-- account type, or behind what stands there already: so a buffer that reads as neither type does so
-- afterwards.
pub record MetaListLaws (rt : Runtime) : Type 0 where
  pub no_account_type :
      (blank b : Bytes) (metas : List ExtraAccountMeta)
      → (rt.read_config blank ≡ none) × (rt.read_entry blank ≡ none)
      → rt.init_meta_list blank metas ≡ ok b
      → (rt.read_config b ≡ none) × (rt.read_entry b ≡ none)
  pub no_zero_type :
      (n : ℕ) → (rt.read_config (replicate n 0) ≡ none) × (rt.read_entry (replicate n 0) ≡ none)
