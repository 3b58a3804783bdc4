-- ===== src/Prelude/Results.antt =====
-- Rust's `Result<A, E>` and the operator `?`.
use mathlib.Core.Path.{◌≡◌, refl}

pub data Result (Failure Value : Type 0) : Type 0 where
  err : Failure → Result Failure Value
  ok : Value → Result Failure Value

-- `m?`, with what the function does next.
infixl 5 ◌>>=◌
abbrev pub ◌>>=◌ :
    {Failure Value Next : Type 0}
    → Result Failure Value
    → (Value → Result Failure Next)
    → Result Failure Next
err failure >>= next = err failure
ok value >>= next = next value

-- What a chain that succeeds went through.
pub >>=-eq-ok :
    {Failure Value Next : Type 0} (first : Result Failure Value)
    (next : Value → Result Failure Next) {final : Next}
    → (first >>= next) ≡ ok final
    → (value : Value) × (first ≡ ok value) × (next value ≡ ok final)
>>=-eq-ok (err failure) next success = cc
>>=-eq-ok (ok value) next success = (value, refl, success)
