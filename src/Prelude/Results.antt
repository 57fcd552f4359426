-- ===== src/Prelude/Results.antt =====
-- Exceptions as values: the failure classes of error.hpp and the standard exceptions that the
-- code throws, with `do` blocks.
use Prim.Native.String.{String}
use mathlib.Core.Path.{◌≡◌, refl}
use mathlib.Core.Logic.{◌⊎◌, inl, inr}
use mathlib.Core.Bool.{Bool, true, false}
use mathlib.Core.List.{List, [], ◌∷◌}

-- `ErrorCode`
pub data ErrorCode : Type 0 where
  system timeout closed protocol busy too_large invalid_request unavailable cancelled : ErrorCode

-- What a `throw` carries: `easy_uds::Error`, or a standard exception with its message.
pub data Exception : Type 0 where
  error : ErrorCode → String → Exception
  invalid_argument length_error runtime_error logic_error : String → Exception

pub data Result {u} (T : Type u) : Type u where
  err : Exception → Result T
  ok : T → Result T

-- What follows a call runs on its value, and an exception passes by it.
abbrev pub ◌>>=◌ {u v} : {S : Type u} {T : Type v} → Result S → (S → Result T) → Result T
(err thrown) >>= rest = err thrown
(ok value) >>= rest = rest value

infixl 5 ◌>>=◌
abbrev pub ◌>>◌ {v} : {T : Type v} → Result (Unit {0}) → Result T → Result T
first >> rest = first >>= (λ done. rest)

infixl 5 ◌>>◌
-- A row of statements `if (test) throw e;`: the first test that holds throws.
abbrev pub checks : List (Bool × Exception) → Result (Unit {0})
checks [] = ok tt
checks ((true, e) ∷ rest) = err e
checks ((false, e) ∷ rest) = checks rest

-- No test of the row holds.
abbrev pub AllPass : List (Bool × Exception) → Type 0
AllPass [] = Unit {0}
AllPass ((b, e) ∷ rest) = (b ≡ false) × AllPass rest

pub checks-pass : (cs : List (Bool × Exception)) → checks cs ≡ ok tt → AllPass cs
checks-pass [] h = tt
checks-pass ((true, e) ∷ rest) h = cc
checks-pass ((false, e) ∷ rest) h = (refl, checks-pass rest h)

pub pass-checks : (cs : List (Bool × Exception)) → AllPass cs → checks cs ≡ ok tt
pass-checks [] h = refl
pass-checks ((true, e) ∷ rest) h = cc
pass-checks ((false, e) ∷ rest) h = pass-checks rest h.1

pub checks-cases :
    (cs : List (Bool × Exception)) → (checks cs ≡ ok tt) ⊎ ((e : Exception) × (checks cs ≡ err e))
checks-cases [] = inl refl
checks-cases ((true, e) ∷ rest) = inr (e, refl)
checks-cases ((false, e) ∷ rest) = checks-cases rest

pub ok-injective {ℓ} : {A : Type ℓ} {a b : A} → ok a ≡ ok b → a ≡ b
ok-injective h = cc

-- A result that passed its checks.
pub checks->>-eq-ok {ℓ} :
    {B : Type ℓ} (cs : List (Bool × Exception)) (b : B) {r : B}
    → (checks cs >> ok b) ≡ ok r
    → AllPass cs × (b ≡ r)
checks->>-eq-ok cs b h = elim (checks-cases cs) [
  | inl e ↦ (checks-pass cs e, ok-injective (rw e at h))
  | inr (x, e) ↦ let bad = rw e at h in cc
]

-- Inversion of a bind that succeeded.
pub >>=-eq-ok {u v} :
    {S : Type u} {T : Type v} (call : Result S) (rest : S → Result T) {answer : T}
    → (call >>= rest) ≡ ok answer
    → (value : S) × (call ≡ ok value) × (rest value ≡ ok answer)
>>=-eq-ok (err thrown) rest h = cc
>>=-eq-ok (ok value) rest h = (value, refl, h)
