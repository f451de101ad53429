-- ===== src/CString/Decimal.antt =====
-- What `atoi` reads of a print of `%d`, for an `int` that is not negative.
use kb_pm.Prelude.{ℕ, zero, suc, ◌+◌, ◌/◌, ◌%◌, ◌^◌, ◌<◌, ◌≡◌, [], ◌∷◌, arith, pos}
use kb_pm.CString.{Str, value_from, atoi, digits_from, show_nat}

value_from-digits_from :
    (fuel n : ℕ) (acc : Str) → n < fuel → value_from 0 (digits_from fuel n acc) ≡ value_from n acc
unfolding digits_from value_from
value_from-digits_from zero n acc h = elim h [ ]
value_from-digits_from (suc fuel) n acc h =
    ground (arith, value_from-digits_from fuel (n / 10) ((b'0' + n % 10) ∷ acc))

pub value_from-show_nat : (n : ℕ) → value_from 0 (show_nat n) ≡ n
unfolding show_nat value_from
value_from-show_nat n = value_from-digits_from (suc n) n [] (omega arith)

-- Every `int` of the program that is not negative is read back from its print.
pub atoi-show_nat : (n : ℕ) → n < 2 ^ 31 → atoi (show_nat n) ≡ pos n
unfolding atoi
atoi-show_nat n h = rw value_from-show_nat (ground arith)
