-- ===== src/Prelude/Action.antt =====
-- A service method: it reads and writes a state and returns, or throws an HTTP exception. A throw
-- keeps the state reached so far, since what was saved stays saved.
use Prim.Native.Nat.{ℕ}
use Prim.Native.String.{String}
use mathlib.Core.Bool.{Bool}
use mathlib.Core.Option.{Option, none, some}
use mathlib.Core.Path.{◌≡◌, refl}
use mathlib.Core.Logic.{◌⊎◌, inl, inr}
use developer_platform_backe.Prelude.Tests.{if◌then◌else◌}

-- The exceptions of @nestjs/common that the services throw, with their messages.
pub data HttpError : Type 0 where
  bad_request unauthorized forbidden not_found conflict : String → HttpError
  not_implemented bad_gateway : String → HttpError
  -- 429, with the seconds to wait and the limit
  too_many_requests : (retry_after limit : ℕ) → HttpError
  -- any other thrown `Error`
  failure : String → HttpError

pub data Result (A : Type 0) : Type 0 where
  ok : A → Result A
  err : HttpError → Result A

abbrev pub Action : Type 0 → Type 0 → Type 0
Action S A = S → Result A × S

module _ {S A : Type 0} where
  abbrev pub pure : A → Action S A
  pure a s = (ok a, s)

  abbrev pub throw : HttpError → Action S A
  throw e s = (err e, s)

  abbrev pub gets : (S → A) → Action S A
  gets f s = (ok (f s), s)

  -- `if (!x) throw e`, with the value known not to be null afterwards
  abbrev pub or_throw : Option A → HttpError → Action S A
  or_throw none e = throw e
  or_throw (some a) e = pure a

infixl 5 ◌>>=◌ ◌>>◌
abbrev pub ◌>>=◌ : {S A B : Type 0} → Action S A → (A → Action S B) → Action S B
◌>>=◌ m f s = let (r, s') = m s in elim r [ ok a ↦ f a s' | err e ↦ throw e s' ]

abbrev pub ◌>>◌ : {S A B : Type 0} → Action S A → Action S B → Action S B
m >> k = m >>= λ _. k

module _ {S : Type 0} where
  abbrev pub throw_if : Bool → HttpError → Action S (Unit {0})
  throw_if c e s = (if c then err e else ok tt, s)

  abbrev pub modify : (S → S) → Action S (Unit {0})
  modify f s = (ok tt, f s)

-- A call of another service, whose state is a part of this one's.
abbrev pub call : {S T A : Type 0} → (S → T) → (T → S → S) → Action T A → Action S A
call part put m s = let (r, t) = m (part s) in (r, put t s)

-- A run ends in a value or in an exception.
pub Run-cases :
    {S A : Type 0} (r : Result A × S)
    → ((a : A) × (s : S) × (r ≡ (ok a, s))) ⊎ ((e : HttpError) × (s : S) × (r ≡ (err e, s)))
Run-cases (ok a, s) = inl (a, s, refl)
Run-cases (err e, s) = inr (e, s, refl)
