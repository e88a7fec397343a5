-- ===== src/Registry.antt =====
-- What the program promises of one mint, with no accounts, addresses or bytes: who administers it,
-- what attestations it asks for, and who is exempt. The operations say who must sign.
pub mod View
pub mod Sane
pub mod Refines
pub mod Calls
pub mod Runs
pub mod Enlisting
pub mod Transfers
pub mod Lists
pub mod Filled
pub mod Enabled
pub mod Requests
use solana_sas_extension.Prelude.{
  ◌≡◌, arith, Bool, true, false, not, ◌&&◌, Option, none, some, List, [], ◌∷◌, ◌==◌, if◌then◌else◌,
}
use solana_sas_extension.Solana.{Pubkey, default}

pub record Settings : Type 0 where
  pub authority : Pubkey
  pub pending : Option Pubkey
  pub credential : Pubkey
  pub schema : Pubkey
  pub sas_program : Pubkey

pub record Registry : Type 0 where
  pub settings : Option Settings
  pub whitelisted : Pubkey → Bool

pub data Op : Type 0 where
  configure : Pubkey → Pubkey → Pubkey → Pubkey → Op
  reconfigure : Pubkey → Pubkey → Pubkey → Op
  name_next : Pubkey → Op
  accept : Pubkey → Op
  enlist : Pubkey → Op
  delist : Pubkey → Op

-- A key, if it is not the default one.
abbrev pub named : Pubkey → Option Pubkey
named k = if k == default then none else some k

abbrev pub mark : (Pubkey → Bool) → Pubkey → Bool → Pubkey → Bool
mark f w b = λ k. if k == w then b else f k

abbrev pub only_if {ℓ} : {A : Type ℓ} → Bool → A → Option A
only_if true a = some a
only_if false a = none

abbrev pub accept_pending :
    (Pubkey → Bool) → Pubkey → Settings → Option Pubkey → Registry → Option Registry
accept_pending signs k s none r = none
accept_pending signs k s (some p) r =
    only_if (signs p && p == k)
      (record r { settings = some (record s { authority = p; pending = none }) })

-- The operations on a mint that has settings.
abbrev pub change : (Pubkey → Bool) → Op → Settings → Registry → Option Registry
change signs (configure authority credential schema sas_program) s r = none
change signs (reconfigure credential schema sas_program) s r =
    only_if (signs s.authority) (record r {
      settings =
          some (record s { credential = credential; schema = schema; sas_program = sas_program });
    })
change signs (name_next k) s r =
    only_if (signs s.authority) (record r { settings = some (record s { pending = named k }) })
change signs (accept k) s r = accept_pending signs k s s.pending r
change signs (enlist w) s r =
    only_if (signs s.authority && not (r.whitelisted w))
      (record r { whitelisted = mark r.whitelisted w true })
change signs (delist w) s r =
    only_if (signs s.authority && r.whitelisted w)
      (record r { whitelisted = mark r.whitelisted w false })

-- The one operation on a mint that has none.
abbrev pub create : (Pubkey → Bool) → Op → Registry → Option Registry
create signs (configure authority credential schema sas_program) r =
    only_if (signs authority) (record r {
      settings = some (record {
        authority = authority;
        pending = none;
        credential = credential;
        schema = schema;
        sas_program = sas_program;
      });
    })
create signs op r = none

abbrev pub apply_at : (Pubkey → Bool) → Op → Option Settings → Registry → Option Registry
apply_at signs op none r = create signs op r
apply_at signs op (some s) r = change signs op s r

-- One operation, where `signs` tells which keys signed; `none` is a refusal.
unfoldable pub apply : (Pubkey → Bool) → Op → Registry → Option Registry
apply signs op r = apply_at signs op r.settings r

unfoldable pub perform : (Pubkey → Bool) → Option Op → Registry → Option Registry
unfolding apply
perform signs none r = some r
perform signs (some op) r = apply signs op r

-- The operations that go through, and what they do.
module _ (signs : Pubkey → Bool) (r : Registry) where
  pub perform-configure :
      (k c s p : Pubkey)
      → r.settings ≡ none
      → signs k ≡ true
      → perform signs (some (configure k c s p)) r
        ≡ some (record r {
          settings = some (record {
            authority = k;
            pending = none;
            credential = c;
            schema = s;
            sas_program = p;
          });
        })
  unfolding perform
  perform-configure k c s p none_yet signed = rw (none_yet, signed)

  module _ (old : Settings) (here : r.settings ≡ some old) where
    pub perform-reconfigure :
        (c s p : Pubkey)
        → signs old.authority ≡ true
        → perform signs (some (reconfigure c s p)) r
          ≡ some (record r {
            settings = some (record old { credential = c; schema = s; sas_program = p });
          })
    unfolding perform
    perform-reconfigure c s p signed = rw (here, signed)

    pub perform-name_next :
        (k : Pubkey)
        → signs old.authority ≡ true
        → perform signs (some (name_next k)) r
          ≡ some (record r { settings = some (record old { pending = named k }) })
    unfolding perform
    perform-name_next k signed = rw (here, signed)

    pub perform-accept :
        (k : Pubkey)
        → old.pending ≡ some k
        → signs k ≡ true
        → perform signs (some (accept k)) r
          ≡ some (record r { settings = some (record old { authority = k; pending = none }) })
    unfolding perform
    perform-accept k pending signed = ground arith

    pub perform-enlist :
        (w : Pubkey)
        → signs old.authority ≡ true
        → r.whitelisted w ≡ false
        → perform signs (some (enlist w)) r
          ≡ some (record r { whitelisted = mark r.whitelisted w true })
    unfolding perform
    perform-enlist w signed out = rw (here, signed, out)

    pub perform-delist :
        (w : Pubkey)
        → signs old.authority ≡ true
        → r.whitelisted w ≡ true
        → perform signs (some (delist w)) r
          ≡ some (record r { whitelisted = mark r.whitelisted w false })
    unfolding perform
    perform-delist w signed in_it = rw (here, signed, in_it)
