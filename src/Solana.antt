-- ===== src/Solana.antt =====
-- The account model that every instruction of programs/alien-id-transfer-hook works on.
use solana_sas_extension.Prelude.{ℕ, ◌≡◌, ◌≢◌, Bool, List, ◌==◌, if◌then◌else◌, arith}
use solana_sas_extension.Prelude.Int.{ℤ}
use solana_sas_extension.Result.{Result}

-- A 32-byte key, read as one number: keys are compared, and hashed through `Runtime.as_ref`.
abbrev pub Pubkey : Type 0
Pubkey = ℕ

abbrev pub Bytes : Type 0
Bytes = List ℕ

-- `Pubkey::default()`, 32 zero bytes.
abbrev pub default : Pubkey
default = 0

-- The System Program's address, 32 zero bytes too.
abbrev pub system_program_id : Pubkey
system_program_id = 0

pub record Account : Type 0 where
  pub lamports : ℕ
  pub owner : Pubkey
  pub bytes : Bytes
  pub executable : Bool

-- Every key has an account; one that was never created has no lamports and no data, and the
-- System Program owns it.
abbrev pub Ledger : Type 0
Ledger = Pubkey → Account

abbrev pub update : Ledger → Pubkey → Account → Ledger
update l key a = λ k. if k == key then a else l k

-- What an invocation has from its transaction: the privileges of each key, and the clock sysvar.
pub record Invocation : Type 0 where
  pub is_signer : Pubkey → Bool
  pub is_writable : Pubkey → Bool
  pub clock : Result ℤ

pub update_self : (l : Ledger) (key : Pubkey) (a : Account) → update l key a key ≡ a
update_self l key a = ground arith

pub update_ne : (l : Ledger) (key k : Pubkey) (a : Account) → k ≢ key → update l key a k ≡ l k
update_ne l key k a h = ground arith
