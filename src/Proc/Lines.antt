-- ===== src/Proc/Lines.antt =====
-- The lines of a status file, as `parse_proc_status_val_by_tag` of src/proc_status.c reads them.
use kb_pm.Prelude.{
  ℕ, zero, suc, ◌-◌, ◌≡◌, ◌≢◌, ◌<◌, ◌∙◌, refl, ap, true, false, List, [], ◌∷◌, ◌++◌, append_assoc,
  map, arith, length, All, ltb, leb, ◌>>=◌, ◌==◌, done, Outcome, Bool-cases, inl, inr,
}
use kb_pm.CString.{Str, text, starts_with, strcpy, is_digit, digits_from, show_nat}
use kb_pm.Utils.{is_number}
use kb_pm.Utils.Digits.{is_number-show_nat}
use kb_pm.System.{Log}
use kb_pm.Proc.{str_buffer_size, cut_lines, fgets_all, chop, skip_to_digit, find_tag}

-- A line that the buffer takes whole, with its end and the final zero.
abbrev pub IsLine : Str → Type 0
IsLine l = All (λ c. c == 0x0a ≡ false) l × (length l < str_buffer_size - 1)

abbrev pub ended : Str → Str
ended l = l ++ 0x0a ∷ []

abbrev pub joined : List Str → Str
joined [] = []
joined (l ∷ lines) = l ++ 0x0a ∷ joined lines

cut_lines-line :
    (room : ℕ) (seen l rest : Str)
    → All (λ c. c == 0x0a ≡ false) l
    → length l < room
    → cut_lines room seen (l ++ 0x0a ∷ rest)
      ≡ (seen ++ ended l) ∷ cut_lines (str_buffer_size - 1) [] rest
unfolding cut_lines
cut_lines-line room seen [] rest plain fits = refl
cut_lines-line room seen (c ∷ l) rest plain fits =
    let no_end = plain.0 in
    let roomy : leb room 1 ≡ false = ground (arith, fits) in
    let next = cut_lines-line (room - 1) (seen ++ c ∷ []) l rest plain.1 (omega (arith, fits)) in
    rw no_end (
      rw roomy (
        next
        ∙ ap (λ l'. l' ∷ cut_lines (str_buffer_size - 1) [] rest)
            (append_assoc seen (c ∷ []) (ended l))))

fgets_all-joined :
    (lines : List Str) → All IsLine lines → fgets_all (joined lines) ≡ map ended lines
unfolding fgets_all cut_lines
fgets_all-joined [] are = refl
fgets_all-joined (l ∷ lines) are =
    cut_lines-line (str_buffer_size - 1) [] l (joined lines) are.0.0 are.0.1
    ∙ ap (λ ls. ended l ∷ ls) (fgets_all-joined lines are.1)

chop-ended : (s : Str) (c : ℕ) → chop (s ++ c ∷ []) ≡ s
unfolding chop
chop-ended [] c = refl
chop-ended (a ∷ []) c = refl
chop-ended (a ∷ b ∷ s) c = ap (λ t. a ∷ t) (chop-ended (b ∷ s) c)

digits_from-ne_nil : (fuel n c : ℕ) (acc : Str) → digits_from fuel n (c ∷ acc) ≢ []
unfolding digits_from
digits_from-ne_nil zero n c acc e = cc
digits_from-ne_nil (suc fuel) n c acc e = elim (Bool-cases (ltb n 10)) [
  | inl last ↦ absurd (ground (arith, e))
  | inr more ↦ digits_from-ne_nil fuel _ _ (c ∷ acc) (rw more at e)
]

show_nat-ne_nil : (n : ℕ) → show_nat n ≢ []
unfolding show_nat digits_from
show_nat-ne_nil n e = elim (Bool-cases (ltb n 10)) [
  | inl last ↦ absurd (ground (arith, e))
  | inr more ↦ digits_from-ne_nil n _ _ [] (rw more at e)
]

skip_to_digit-number :
    (s : Str) → is_number s ≡ true → s ≢ [] → ◌≡◌ {A = Outcome Log Str} (skip_to_digit s) (done s)
unfolding skip_to_digit is_number
skip_to_digit-number [] number some = absurd (some refl)
skip_to_digit-number (c ∷ s) number some = let digit : is_digit c ≡ true = ground arith in rw digit

-- The line that names the parent.
abbrev pub parent_line : ℕ → Str
parent_line n = text "PPid:" ++ 0x09 ∷ show_nat n

find_parent :
    (n : ℕ) (rest : List Str)
    → IsLine (parent_line n)
    → ◌≡◌ {A = Outcome Log Str}
        (find_tag (text "PPid") (ended (parent_line n) ∷ rest))
        (done (show_nat n))
unfolding find_tag starts_with skip_to_digit strcpy
find_parent n rest line =
    let chopped = chop-ended (parent_line n) 0x0a in
    let digits = skip_to_digit-number (show_nat n) (is_number-show_nat n) (show_nat-ne_nil n) in
    let short : ltb (length (show_nat n)) str_buffer_size ≡ true = ground (arith, line.1) in
    ap (λ l. skip_to_digit l >>= strcpy str_buffer_size) chopped
    ∙ ap (λ o. o >>= strcpy str_buffer_size) digits
    ∙ rw short refl

-- The first line that begins with the tag is found.
pub find_tag-parent :
    (n : ℕ) (before after : List Str)
    → All (λ l. starts_with (ended l) (text "PPid") ≡ false) before
    → All IsLine (before ++ parent_line n ∷ after)
    → ◌≡◌ {A = Outcome Log Str}
        (find_tag (text "PPid") (fgets_all (joined (before ++ parent_line n ∷ after))))
        (done (show_nat n))
unfolding find_tag
find_tag-parent n before after others lines =
    ap (find_tag (text "PPid")) (fgets_all-joined (before ++ parent_line n ∷ after) lines)
    ∙ found before others lines
  where
    found :
        (before : List Str)
        → All (λ l. starts_with (ended l) (text "PPid") ≡ false) before
        → All IsLine (before ++ parent_line n ∷ after)
        → ◌≡◌ {A = Outcome Log Str}
            (find_tag (text "PPid") (map ended (before ++ parent_line n ∷ after)))
            (done (show_nat n))
    found [] others lines = find_parent n (map ended after) lines.0
    found (l ∷ before) others lines = rw (others.0) (found before others.1 lines.1)
