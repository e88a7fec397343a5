-- ===== src/Cli/Reported.antt =====
-- `info` does not fail and sends nothing.
use solana_sas_extension.Prelude.{◌≡◌, arith}
use solana_sas_extension.Result.{ok}
use solana_sas_extension.Solana.{Pubkey}
use solana_sas_extension.Cli.Host.{Host, Client}
use solana_sas_extension.Cli.Handlers.{reported, handle_info}

pub handle_info_total :
    (h : Host) (program : Client) (mint : Pubkey)
    → (handle_info h program mint).result ≡ ok reported
unfolding handle_info
handle_info_total h program mint = ground arith
