-- ===== src/Utils/Digits.antt =====
-- What `is_number` of src/utils.c says of a print.
use kb_pm.Prelude.{ℕ, zero, suc, ◌+◌, ◌/◌, ◌%◌, ◌≡◌, true, refl, [], ◌∷◌, arith}
use kb_pm.CString.{Str, is_digit, digits_from, show_nat}
use kb_pm.Utils.{is_number}

is_digit-digit : (n : ℕ) → is_digit (b'0' + n % 10) ≡ true
is_digit-digit n = ground arith

is_number-digits_from :
    (fuel n : ℕ) (acc : Str) → is_number acc ≡ true → is_number (digits_from fuel n acc) ≡ true
unfolding digits_from is_number
is_number-digits_from zero n acc h = h
is_number-digits_from (suc fuel) n acc h =
    ground (arith, is_digit-digit n, is_number-digits_from fuel (n / 10) ((b'0' + n % 10) ∷ acc))

pub is_number-show_nat : (n : ℕ) → is_number (show_nat n) ≡ true
unfolding show_nat is_number
is_number-show_nat n = is_number-digits_from (suc n) n [] refl
