-- ===== src/Registry/Calls.antt =====
-- Sequences of operations on a registry, and what they can and cannot do.
use solana_sas_extension.Prelude.{
  ◌≡◌, ◌≢◌, refl, sym, Bool, true, false, Option, none, some, List, [], ◌∷◌, ◌++◌, arith, inl, inr,
  Option-cases,
}
use solana_sas_extension.Solana.{Pubkey, Invocation}
use solana_sas_extension.Registry.{
  apply_at, Settings, Registry, Op, configure, reconfigure, name_next, accept, enlist, delist,
  apply, perform, change, create,
}

-- An operation in an invocation.
pub record Call : Type 0 where
  pub tx : Invocation
  pub op : Op

abbrev pub All {ℓ} : (Call → Type ℓ) → List Call → Type ℓ
All P [] = Unit
All P (c ∷ cs) = P c × All P cs

abbrev pub after : Option Registry → (Registry → Option Registry) → Option Registry
after none next = none
after (some r) next = next r

-- The calls one after the other; `none` if one is refused.
unfoldable pub replay : List Call → Registry → Option Registry
unfolding apply
replay [] r = some r
replay (c ∷ cs) r = after (apply c.tx.is_signer c.op r) (replay cs)

pub replay-append :
    (cs ds : List Call) (r : Registry) → replay (cs ++ ds) r ≡ after (replay cs r) (replay ds)
unfolding replay
replay-append [] ds r = refl
replay-append (c ∷ cs) ds r = elim (Option-cases (apply c.tx.is_signer c.op r)) [
  | inl refused ↦ rw refused
  | inr (s, done) ↦ rw done (replay-append cs ds s)
]

pub All-append : (P : Call → Type 0) (cs ds : List Call) → All P cs → All P ds → All P (cs ++ ds)
All-append P [] ds p q = q
All-append P (c ∷ cs) ds (h, p) q = (h, All-append P cs ds p q)

-- A mint with an authority that does not sign, and with nobody pending.
pub record IsLocked (s : Settings) (r : Registry) : Type 0 where
  pub settings : r.settings ≡ some s
  pub nobody : s.pending ≡ none

apply_locked :
    (signs : Pubkey → Bool) (op : Op) (s : Settings) (r : Registry)
    → IsLocked s r
    → signs s.authority ≡ false
    → apply signs op r ≡ none
unfolding apply
apply_locked signs (configure k c t p) s r h silent = ground arith
apply_locked signs (reconfigure c t p) s r h silent = ground arith
apply_locked signs (name_next k) s r h silent = ground arith
apply_locked signs (accept k) s r h silent = ground arith
apply_locked signs (enlist w) s r h silent = ground arith
apply_locked signs (delist w) s r h silent = ground arith

-- Without the authority's signature no call goes through, so nothing changes.
pub replay_locked :
    (s : Settings) (r r' : Registry) (cs : List Call)
    → IsLocked s r
    → All (λ c. c.tx.is_signer s.authority ≡ false) cs
    → replay cs r ≡ some r'
    → r' ≡ r
unfolding replay
replay_locked s r r' [] h silent done = sym (cc done)
replay_locked s r r' (c ∷ cs) h silent done =
    let refused = apply_locked c.tx.is_signer c.op s r h silent.0 in
    absurd (cc (rw refused at done))

-- One step as a sequence of at most one call.
pub perform_calls :
    (allowed : Invocation → Type 0) (tx : Invocation) (o : Option Op) (r r' : Registry)
    → allowed tx
    → perform tx.is_signer o r ≡ some r'
    → (cs : List Call) × All (λ c. allowed c.tx) cs × (replay cs r ≡ some r')
unfolding perform replay
perform_calls allowed tx none r r' may done = ([], tt, done)
perform_calls allowed tx (some op) r r' may done =
    (record { tx = tx; op = op } ∷ [], (may, tt), rw done)

create_enlists :
    (signs : Pubkey → Bool) (op : Op) (r r' : Registry) (w : Pubkey)
    → create signs op r ≡ some r'
    → r.whitelisted w ≡ false
    → r'.whitelisted w ≢ true
create_enlists signs (configure k c t p) r r' w done out in_it = ground arith
create_enlists signs (reconfigure c t p) r r' w done out in_it = absurd (cc done)
create_enlists signs (name_next k) r r' w done out in_it = absurd (cc done)
create_enlists signs (accept k) r r' w done out in_it = absurd (cc done)
create_enlists signs (enlist v) r r' w done out in_it = absurd (cc done)
create_enlists signs (delist v) r r' w done out in_it = absurd (cc done)

change_enlists :
    (signs : Pubkey → Bool) (op : Op) (s : Settings) (r r' : Registry) (w : Pubkey)
    → change signs op s r ≡ some r'
    → r.whitelisted w ≡ false
    → r'.whitelisted w ≡ true
    → (op ≡ enlist w) × (signs s.authority ≡ true)
change_enlists signs (configure k c t p) s r r' w done out in_it = absurd (cc done)
change_enlists signs (reconfigure c t p) s r r' w done out in_it = ground arith
change_enlists signs (name_next k) s r r' w done out in_it = ground arith
change_enlists signs (accept k) s r r' w done out in_it = ground arith
change_enlists signs (enlist v) s r r' w done out in_it = ground arith
change_enlists signs (delist v) s r r' w done out in_it = ground arith

at_enlists :
    (signs : Pubkey → Bool) (op : Op) (o : Option Settings) (r r' : Registry) (w : Pubkey)
    → apply_at signs op o r ≡ some r'
    → r.whitelisted w ≡ false
    → r'.whitelisted w ≡ true
    → (op ≡ enlist w) × (s : Settings) × (o ≡ some s) × (signs s.authority ≡ true)
at_enlists signs op none r r' w done out in_it =
    absurd (create_enlists signs op r r' w done out in_it)
at_enlists signs op (some s) r r' w done out in_it =
    let (it, signed) = change_enlists signs op s r r' w done out in_it in (it, s, refl, signed)

-- One operation puts a wallet on the whitelist: its own, signed by the authority.
pub perform_enlists :
    (signs : Pubkey → Bool) (o : Option Op) (r r' : Registry) (w : Pubkey)
    → perform signs o r ≡ some r'
    → r.whitelisted w ≡ false
    → r'.whitelisted w ≡ true
    → (o ≡ some (enlist w)) × (s : Settings) × (r.settings ≡ some s) × (signs s.authority ≡ true)
unfolding perform
perform_enlists signs none r r' w done out in_it =
    let same : r ≡ r' = cc done in absurd (cc (rw same at out, in_it))
perform_enlists signs (some op) r r' w done out in_it =
    let (it, s, here, signed) = at_enlists signs op r.settings r r' w done out in_it in
    (rw it, s, here, signed)
