-- ===== src/Cli/Host.antt =====
-- What admin-cli uses of its libraries, and the values that its handlers exchange with them.
use Prim.Native.String.{String}
use solana_sas_extension.Prelude.{ℕ, Bool, List}
use solana_sas_extension.HookError.{Error}
use solana_sas_extension.Result.{Result, Done}
use solana_sas_extension.Solana.{Pubkey, Bytes}
use solana_sas_extension.State.{HookConfig}
use solana_sas_extension.Program.{Instruction}

-- main.rs: the cluster that `--cluster` names
pub data Cluster : Type 0 where
  mainnet devnet localnet : Cluster
  custom : String → Cluster

-- `Program<Arc<Keypair>>`: the program's address, the key that pays and signs, the cluster
pub record Client : Type 0 where
  pub id : Pubkey
  pub payer : Pubkey
  pub cluster : Cluster

-- One instruction for a program, signed by the payer.
pub record Request : Type 0 where
  pub program : Pubkey
  pub payer : Pubkey
  pub instruction : Instruction

-- File access, base58, `Pubkey::from_str`, and the RPC node.
pub record Host : Type 0 where
  pub find_program_address : List Bytes → Pubkey → Pubkey × ℕ
  pub as_ref : Pubkey → Bytes
  -- `declare_id!`
  pub id : Pubkey
  pub tilde : String → String
  pub trim : String → String
  pub read_to_string : String → Result String
  pub bs58_decode : String → Result Bytes
  pub keypair_from_bytes : Bytes → Result Pubkey
  pub read_keypair_file : String → Result Pubkey
  pub parse : String → Result Pubkey
  -- the texts of errors, keys and signatures, as `{}` prints them
  pub display : Error → String
  pub show_key : Pubkey → String
  pub show_signature : ℕ → String
  -- `Client::new_with_options` and `program`
  pub connect : Client → Done
  -- the config account at an address, as `Program::account` fetches and decodes it
  pub fetch_config : Client → Pubkey → Result HookConfig
  pub account_exists : Client → Pubkey → Bool
  -- the signature of a confirmed transaction
  pub send : Client → Request → Result ℕ
