-- ===== src/Result.antt =====
-- Rust's `Result<T>`: the `?` operator is `>>=`, and `require!(test, error)` is `require`.
use solana_sas_extension.Prelude.{◌≡◌, refl, Bool, true, false, Option, none, some, ◌⊎◌, inl, inr}
use solana_sas_extension.HookError.{Error}

pub data Result {ℓ} (T : Type ℓ) : Type ℓ where
  ok : T → Result T
  err : Error → Result T

-- `Result<()>`
abbrev pub Done : Type 0
Done = Result (Unit {0})

abbrev pub require : Bool → Error → Done
require test e = elim test [ true ↦ ok tt | false ↦ err e ]

module _ {ℓ} {T : Type ℓ} where
  abbrev pub ok_or : Option T → Error → Result T
  ok_or o e = elim o [ some t ↦ ok t | none ↦ err e ]

  pub Result-cases : (r : Result T) → ((e : Error) × (r ≡ err e)) ⊎ ((t : T) × (r ≡ ok t))
  Result-cases (ok t) = inr (t, refl)
  Result-cases (err e) = inl (e, refl)

module _ {ℓ κ} {S : Type ℓ} {T : Type κ} where
  infixl 5 ◌>>=◌ ◌>>◌
  abbrev pub ◌>>=◌ : Result S → (S → Result T) → Result T
  err e >>= next = err e
  ok s >>= next = next s

  abbrev pub ◌>>◌ : Result S → Result T → Result T
  ◌>>◌ first second = first >>= λ _. second

  -- A chain that succeeds has a first step that succeeds.
  pub ok_of_bind :
      (first : Result S) (next : S → Result T) {t : T}
      → (first >>= next) ≡ ok t
      → (s : S) × (first ≡ ok s) × (next s ≡ ok t)
  ok_of_bind (err e) next stopped = cc
  ok_of_bind (ok s) next done = (s, refl, done)
