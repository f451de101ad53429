-- ===== src/Prelude/Results.antt =====
-- What a call of a C function comes to: it returns, it ends the process, or it does what C leaves
-- undefined. `W` is what the outside world has seen when the process ends.
use Prim.Native.Nat.{ℕ}
use mathlib.Core.Path.{◌≡◌, refl}

pub data Fault : Type 0 where
  -- an array is read or written out of its bounds, or a string is copied that does not fit
  out_of_bounds : Fault
  -- a null pointer is read through
  null_pointer : Fault
  -- the caller uses the value of a function that returned none
  no_value : Fault
  -- the bound on a loop or a recursion is used up
  out_of_fuel : Fault

pub data Outcome (W A : Type 0) : Type 0 where
  done : A → Outcome W A
  -- `exit` with this status
  exited : ℕ → W → Outcome W A
  -- `execl` replaced the program
  replaced : W → Outcome W A
  undefined : Fault → Outcome W A

infixl 5 ◌>>=◌ ◌>>◌
abbrev pub ◌>>=◌ : {W A B : Type 0} → Outcome W A → (A → Outcome W B) → Outcome W B
done a >>= f = f a
exited n w >>= f = exited n w
replaced w >>= f = replaced w
undefined e >>= f = undefined e

abbrev pub ◌>>◌ : {W A B : Type 0} → Outcome W A → Outcome W B → Outcome W B
m >> k = m >>= λ _. k

-- Inversion of a bind that returned.
pub >>=-eq-done :
    {W A B : Type 0} (m : Outcome W A) (f : A → Outcome W B) {b : B}
    → (m >>= f) ≡ done b
    → (a : A) × (m ≡ done a) × (f a ≡ done b)
>>=-eq-done (done a) f h = (a, refl, h)
>>=-eq-done (exited n w) f h = cc
>>=-eq-done (replaced w) f h = cc
>>=-eq-done (undefined e) f h = cc

pub bind_assoc :
    {W A B C : Type 0} (call : Outcome W A) (f : A → Outcome W B) (g : B → Outcome W C)
    → (call >>= f >>= g) ≡ (call >>= λ a. f a >>= g)
bind_assoc (done a) f g = refl
bind_assoc (exited n w) f g = refl
bind_assoc (replaced w) f g = refl
bind_assoc (undefined e) f g = refl
