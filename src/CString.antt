-- ===== src/CString.antt =====
-- C strings, and what the program uses of the C library on them (string.h, stdlib.h, stdio.h).
-- A string is the list of its bytes up to, and without, the terminating zero.
pub mod Decimal
mod Tests
use Prim.Native.Char.{code}
use Prim.Native.String.{String}
use kb_pm.Prelude.{
  ℕ, zero, suc, ◌+◌, ◌-◌, ◌*◌, ◌/◌, ◌%◌, ◌^◌, min, ◌≡◌, refl, ◌↔◌, Bool, true, false, ◌&&◌, List,
  [], ◌∷◌, ◌++◌, arith, ltb, leb, ◌==◌, if◌then◌else◌, length, ℤ, pos, negsuc, to_int32, Outcome,
  done, undefined, Fault,
}

abbrev pub Str : Type 0
Str = List ℕ

-- A literal of the source.
abbrev pub text : String → Str
text String.[] = []
text (String.◌∷◌ c s) = code c ∷ text s

-- `strcmp(a, b) == 0`
unfoldable pub eq_str : Str → Str → Bool
eq_str [] [] = true
eq_str (a ∷ s) (b ∷ t) = a == b && eq_str s t
eq_str _ _ = false

-- `strncmp(s, tag, strlen(tag)) == 0`
unfoldable pub starts_with : Str → Str → Bool
starts_with s [] = true
starts_with [] (b ∷ t) = false
starts_with (a ∷ s) (b ∷ t) = a == b && starts_with s t

-- `strcpy` into an array of `size` bytes, which also takes the terminating zero.
unfoldable pub strcpy : {W : Type 0} → ℕ → Str → Outcome W Str
strcpy size s = if ltb (length s) size then done s else undefined Fault.out_of_bounds

-- `'0' <= c && c <= '9'`
abbrev pub is_digit : ℕ → Bool
is_digit c = leb c b'9' && leb b'0' c

-- The number that the leading digits of a string stand for, after `v`.
unfoldable pub value_from : ℕ → Str → ℕ
value_from v [] = v
value_from v (c ∷ s) =
    let rest = value_from (v * 10 + (c - b'0')) s in if is_digit c then rest else v

-- `atoi` of a string of digits, as the GNU library computes it: the `long` is capped, and its low
-- 32 bits are the `int`. (The callers have tested the string by `is_number`: no sign, no blanks.)
unfoldable pub atoi : Str → ℤ
unfolding value_from
atoi s = to_int32 (min (value_from 0 s) (2 ^ 63 - 1) % 2 ^ 32)

unfoldable pub digits_from : ℕ → ℕ → Str → Str
digits_from zero n acc = acc
digits_from (suc fuel) n acc =
    let more = digits_from fuel (n / 10) ((b'0' + n % 10) ∷ acc) in
    if ltb n 10 then (b'0' + n) ∷ acc else more

-- The digits that `%d` prints: a number has at most as many as its value, and one.
unfoldable pub show_nat : ℕ → Str
unfolding digits_from
show_nat n = digits_from (suc n) n []

-- `sprintf` with `%d` (and `%ld`)
unfoldable pub show_int : ℤ → Str
unfolding show_nat
show_int (pos n) = show_nat n
show_int (negsuc n) = b'-' ∷ show_nat (suc n)

pub eq_str_refl : (s : Str) → eq_str s s ≡ true
unfolding eq_str
eq_str_refl [] = refl
eq_str_refl (a ∷ s) = ground (arith, eq_str_refl s)

pub eq_of_eq_str : (s t : Str) → eq_str s t ≡ true → s ≡ t
unfolding eq_str
eq_of_eq_str [] [] h = refl
eq_of_eq_str [] (b ∷ t) h = cc
eq_of_eq_str (a ∷ s) [] h = cc
eq_of_eq_str (a ∷ s) (b ∷ t) h = ground (arith, eq_of_eq_str s t)

pub eq_str_comm : (s t : Str) → eq_str s t ≡ eq_str t s
unfolding eq_str
eq_str_comm [] [] = refl
eq_str_comm [] (b ∷ t) = refl
eq_str_comm (a ∷ s) [] = refl
eq_str_comm (a ∷ s) (b ∷ t) = ground (arith, eq_str_comm s t)
