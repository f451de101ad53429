-- ===== src/Server/Slots.antt =====
-- Writes to one slot keep the numbering of the slots.
use kb_pm.Prelude.{
  ℕ, zero, suc, ◌+◌, ◌<◌, ◌≡◌, some, List, [], ◌∷◌, arith, length, get_elem?, set, pos,
}
use kb_pm.Process.{Process}
use kb_pm.Server.Spec.{IsNumbered}

pub IsNumbered-set :
    (i n : ℕ) (slots : List Process) (j : ℕ) (p q : Process)
    → j < n
    → get_elem? slots j ≡ some p
    → q.id ≡ p.id
    → IsNumbered i n slots
    → IsNumbered i n (set slots j q)
IsNumbered-set i zero slots j p q h at e num = absurd (omega arith)
IsNumbered-set i (suc n) [] j p q h at e num = absurd num
IsNumbered-set i (suc n) (r ∷ slots) zero p q h at e num = ground arith
IsNumbered-set i (suc n) (r ∷ slots) (suc j) p q h at e num =
    (num.0, IsNumbered-set (suc i) n slots j p q (omega arith) at e num.1)

pub IsNumbered-append :
    (i n : ℕ) (slots : List Process) (q : Process)
    → n < length slots
    → q.id ≡ pos (i + n)
    → IsNumbered i n slots
    → IsNumbered i (suc n) (set slots n q)
IsNumbered-append i n [] q h e num = absurd (omega arith)
IsNumbered-append i zero (p ∷ slots) q h e num = (ground arith, num.1)
IsNumbered-append i (suc n) (p ∷ slots) q h e num =
    (num.0, IsNumbered-append (suc i) n slots q (omega arith) (ground arith) num.1)
