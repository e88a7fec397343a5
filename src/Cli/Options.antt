-- ===== src/Cli/Options.antt =====
-- admin-cli/src/main.rs: how the options and the fields of the command line are read.
use Prim.Native.String.{String, ◌++◌}
use solana_sas_extension.Prelude.{Option, none, some}
use solana_sas_extension.HookError.{message}
use solana_sas_extension.Result.{Result, ok, err, ◌>>=◌}
use solana_sas_extension.Solana.{Pubkey}
use solana_sas_extension.Cli.Host.{Host}

module _ (h : Host) where
  -- `map_err(|e| anyhow!("… {}", e))`
  abbrev pub or_message {ℓ} : {A : Type ℓ} → Result A → String → Result A
  or_message (ok a) text = ok a
  or_message (err e) text = err (message (text ++ h.display e))

  -- The public key of the key pair that the options name.
  unfoldable pub load_keypair : String → Option String → Result Pubkey
  load_keypair keypair_path (some base58_path) = do
    content ← or_message (h.read_to_string (h.tilde base58_path)) "Failed to read keypair: "
    bytes ← or_message (h.bs58_decode (h.trim content)) "Failed to decode base58 keypair: "
    or_message (h.keypair_from_bytes bytes) "Failed to create keypair: "
  load_keypair keypair_path none =
      or_message (h.read_keypair_file (h.tilde keypair_path)) "Failed to read keypair file: "

  unfoldable pub parse_pubkey : String → String → Result Pubkey
  parse_pubkey s field = or_message (h.parse s) ("Invalid " ++ field ++ ": ")

  unfoldable pub program_id_of : Option String → Result Pubkey
  program_id_of (some override_id) = parse_pubkey override_id "override program id"
  program_id_of none = ok h.id
