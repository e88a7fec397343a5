-- ===== src/Registry/Enabled.antt =====
-- What an operation requires of the registry that accepts it.
use solana_sas_extension.Prelude.{◌≡◌, Bool, true, false, Option, none, some, arith}
use solana_sas_extension.Solana.{Pubkey}
use solana_sas_extension.Registry.{
  Settings, Registry, Op, configure, reconfigure, name_next, accept, enlist, delist, perform,
  apply_at,
}

module _ (signs : Pubkey → Bool) where
  abbrev pub Requires : Op → Option Settings → (Pubkey → Bool) → Type 0
  Requires (configure k c t p) none listed = signs k ≡ true
  Requires (reconfigure c t p) (some s) listed = signs s.authority ≡ true
  Requires (name_next k) (some s) listed = signs s.authority ≡ true
  Requires (accept k) (some s) listed = (s.pending ≡ some k) × (signs k ≡ true)
  Requires (enlist w) (some s) listed = (signs s.authority ≡ true) × (listed w ≡ false)
  Requires (delist w) (some s) listed = (signs s.authority ≡ true) × (listed w ≡ true)
  Requires op o listed = ⊥

  apply_at-Requires :
      (op : Op) (o : Option Settings) (r r' : Registry)
      → apply_at signs op o r ≡ some r'
      → Requires op o r.whitelisted
  apply_at-Requires (configure k c t p) none r r' h = ground arith
  apply_at-Requires (configure k c t p) (some s) r r' h = absurd (cc h)
  apply_at-Requires (reconfigure c t p) none r r' h = absurd (cc h)
  apply_at-Requires (reconfigure c t p) (some s) r r' h = ground arith
  apply_at-Requires (name_next k) none r r' h = absurd (cc h)
  apply_at-Requires (name_next k) (some s) r r' h = ground arith
  apply_at-Requires (accept k) none r r' h = absurd (cc h)
  apply_at-Requires (accept k) (some s) r r' h = ground arith
  apply_at-Requires (enlist w) none r r' h = absurd (cc h)
  apply_at-Requires (enlist w) (some s) r r' h = ground arith
  apply_at-Requires (delist w) none r r' h = absurd (cc h)
  apply_at-Requires (delist w) (some s) r r' h = ground arith

  pub perform-Requires :
      (op : Op) (r r' : Registry)
      → perform signs (some op) r ≡ some r'
      → Requires op r.settings r.whitelisted
  unfolding perform
  perform-Requires op r r' h = apply_at-Requires op r.settings r r' h
