-- ===== src/StatusTable/Elapsed.antt =====
-- The time since a program was started, in the largest unit of which one has passed.
use kb_pm.Prelude.{
  ℕ, ◌+◌, ◌*◌, ◌/◌, ◌≡◌, ◌≤◌, ◌<◌, refl, ◌⊎◌, inl, inr, Bool-cases, ltb, arith, pos,
}
use kb_pm.CString.{show_nat}
use kb_pm.StatusTable.{with_unit, turn_second}

-- Seconds, minutes, hours and days: the letter, and the seconds of one.
pub data Measure : Type 0 where
  seconds minutes hours days : Measure

abbrev pub letter : Measure → ℕ
letter seconds = b's'
letter minutes = b'm'
letter hours = b'h'
letter days = b'd'

abbrev pub seconds_of : Measure → ℕ
seconds_of seconds = 1
seconds_of minutes = 60
seconds_of hours = 3600
seconds_of days = 86400

-- How many make one of the next unit; there is none behind days.
abbrev pub in_next : Measure → ℕ
in_next seconds = 60
in_next minutes = 60
in_next hours = 24
in_next days = 0

-- `q` whole units have passed after `n` seconds, at least one unless these are seconds, and not as
-- many as make one of the next unit.
pub record IsElapsed (n q : ℕ) (m : Measure) : Type 0 where
  pub reached : q * seconds_of m ≤ n
  pub passed : n < (q + 1) * seconds_of m
  pub positive : (m ≡ seconds) ⊎ (0 < q)
  pub largest : (m ≡ days) ⊎ (q < in_next m)

IsElapsed-seconds : (n : ℕ) → n < 60 → IsElapsed n n seconds
IsElapsed-seconds n h = record {
  reached = omega arith;
  passed = omega arith;
  positive = inl refl;
  largest = inr h;
}

IsElapsed-minutes : (n : ℕ) → 60 ≤ n → n < 3600 → IsElapsed n (n / 60) minutes
IsElapsed-minutes n h l = record {
  reached = omega arith;
  passed = omega arith;
  positive = inr (omega arith);
  largest = inr (omega arith);
}

IsElapsed-hours : (n : ℕ) → 3600 ≤ n → n < 86400 → IsElapsed n (n / 60 / 60) hours
IsElapsed-hours n h l = record {
  reached = omega arith;
  passed = omega arith;
  positive = inr (omega arith);
  largest = inr (omega arith);
}

IsElapsed-days : (n : ℕ) → 86400 ≤ n → IsElapsed n (n / 60 / 60 / 24) days
IsElapsed-days n h = record {
  reached = omega arith;
  passed = omega arith;
  positive = inr (omega arith);
  largest = inl refl;
}

-- A time that has passed is shown as a number of whole seconds, minutes, hours or days: of the
-- largest unit of which one has passed, and rounded down.
pub turn_second_bounds :
    (n : ℕ)
    → (q : ℕ) × (m : Measure) × IsElapsed n q m
      × (turn_second (pos n) ≡ with_unit (show_nat q) (letter m))
unfolding turn_second
turn_second_bounds n = elim (Bool-cases (ltb n 60)) [
  | inl a ↦ (n, seconds, IsElapsed-seconds n (ground arith), rw a)
  | inr a ↦ elim (Bool-cases (ltb n (60 * 60))) [
    | inl b ↦ (n / 60, minutes, IsElapsed-minutes n (ground arith) (ground arith), rw a (rw b))
    | inr b ↦ elim (Bool-cases (ltb n (60 * 60 * 24))) [
      | inl c ↦
          (n / 60 / 60, hours, IsElapsed-hours n (ground arith) (ground arith), rw a (rw b (rw c)))
      | inr c ↦ (n / 60 / 60 / 24, days, IsElapsed-days n (ground arith), rw a (rw b (rw c)))
    ]
  ]
]
