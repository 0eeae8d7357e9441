-- ===== src/Base/Effects.antt =====
-- Exceptions, and code that changes a state. What was written before a throw stays written.
use mathlib.Core.Bool.{Bool, true, false}
use mathlib.Core.Logic.{◌⊎◌, inl, inr}
use mathlib.Core.Path.{◌≡◌, refl}
use Prim.Native.Nat.{ℕ}
use Prim.Native.String.{String}
use publiq_pp.Base.Tests.{if◌then◌else◌}

-- The exception classes that the modelled code throws (exception.hpp and <stdexcept>). Of the
-- values that they carry the addresses, uris and amounts are kept; the message texts are not.
pub data Error : Type 0 where
  -- an `assert` that does not hold
  assertion_failed : Error
  -- an index past the end of a vector, which the source leaves undefined
  out_of_range : Error
  logic_error runtime_error wrong_data : Error
  authority_error : String → String → Error
  -- key, then the balance and the amount spent as whole and fraction
  not_enough_balance : String → ℕ × ℕ → ℕ × ℕ → Error
  too_long_string : ℕ → Error
  uri_invalid uri_duplicate uri_missing : String → Error
  -- what the mesh.pp library throws on a text that it cannot read
  bad_text : String → Error

pub data Result {ℓ} (A : Type ℓ) : Type ℓ where
  ok : A → Result A
  err : Error → Result A

abbrev pub is_ok {ℓ} : {A : Type ℓ} → Result A → Bool
is_ok (ok a) = true
is_ok (err e) = false

abbrev pub bind {ℓ κ} : {A : Type ℓ} {B : Type κ} → Result A → (A → Result B) → Result B
bind (ok a) f = f a
bind (err e) f = err e

abbrev pub Eff : Type 0 → Type 0 → Type 0
Eff S A = S → Result A × S

infixl 5 ◌>>=◌ ◌>>◌
abbrev pub ◌>>=◌ : {S A B : Type 0} → Eff S A → (A → Eff S B) → Eff S B
◌>>=◌ m f s = let (r, s') = m s in elim r [ ok a ↦ f a s' | err e ↦ (err e, s') ]

abbrev pub ◌>>◌ : {S A B : Type 0} → Eff S A → Eff S B → Eff S B
m >> k = m >>= λ _. k

abbrev pub pure : {S A : Type 0} → A → Eff S A
pure a s = (ok a, s)

abbrev pub throw : {S A : Type 0} → Error → Eff S A
throw e s = (err e, s)

abbrev pub throw_if : {S : Type 0} → Bool → Error → Eff S (Unit {0})
throw_if c e s = (if c then err e else ok tt, s)

-- A const method that may throw.
abbrev pub reads : {S A : Type 0} → (S → Result A) → Eff S A
reads f s = (f s, s)

abbrev pub gets : {S A : Type 0} → (S → A) → Eff S A
gets f s = (ok (f s), s)

abbrev pub modify : {S : Type 0} → (S → S) → Eff S (Unit {0})
modify f s = (ok tt, f s)

-- Runs a part's method on the whole, given how to read the part and how to write it back.
abbrev pub zoom : {S T A : Type 0} → (S → T) → (T → S → S) → Eff T A → Eff S A
zoom get put m s = let (r, t) = m (get s) in (r, put t s)

-- A split on a result that keeps the equation.
pub Result-cases {ℓ} :
    {A : Type ℓ} (r : Result A) → ((a : A) × (r ≡ ok a)) ⊎ ((e : Error) × (r ≡ err e))
Result-cases (ok a) = inl (a, refl)
Result-cases (err e) = inr (e, refl)
