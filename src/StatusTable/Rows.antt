-- ===== src/StatusTable/Rows.antt =====
-- How wide the rows of the table are, and its rules.
use kb_pm.Prelude.{
  ℕ, zero, suc, ◌+◌, ◌-◌, ◌^◌, ◌≡◌, ◌≤◌, ◌<◌, refl, Bool, true, false, List, [], ◌∷◌, ◌++◌, ◌==◌,
  ◌||◌, arith, All, All-map, All-zip, length, Bool-cases, inl, inr, ltb, if◌then◌else◌,
}
use kb_pm.CString.{Str, text, eq_str}
use kb_pm.StatusTable.{
  print_ch, repeat, print_mid_line, print_bot_line, print_top_line, BoxLine, field, styled,
  size_sub, letters_from, print_box_letters, more_rows, print_rows, print_box, strlen_max,
  strlen_max_from, get_varible_strlen_max, vertical_line, ansi_color_cyan, ansi_color_green,
  ansi_color_red, ansi_font_bold, ansi_color_reset, var_num,
}
use kb_pm.StatusTable.Screen.{
  line_widths, next_mode, IsShown, Takes, Takes-append, Takes-nothing, Takes-text, Draws,
  Draws-nothing, Draws-append, Draws-eq,
}
use kb_pm.StatusTable.Shape.{
  Takes-eq, repeat-Takes, bar-Takes, span, framed-Draws, print_top_line-Draws, print_mid_line-Draws,
  print_bot_line-Draws,
}

-- The sequences that set colours take no place.
reset-Takes : Takes 0 ansi_color_reset
unfolding line_widths next_mode
reset-Takes = Takes-nothing

cyan-Takes : Takes 0 (ansi_color_cyan ++ ansi_font_bold)
unfolding line_widths next_mode
cyan-Takes = Takes-nothing

green-Takes : Takes 0 (ansi_color_green ++ ansi_font_bold)
unfolding line_widths next_mode
green-Takes = Takes-nothing

red-Takes : Takes 0 (ansi_color_red ++ ansi_font_bold)
unfolding line_widths next_mode
red-Takes = Takes-nothing

coloured-Takes :
    (prefix s : Str)
    → Takes 0 prefix
    → IsShown s
    → Takes (length s) (prefix ++ s ++ ansi_color_reset)
coloured-Takes prefix s hp hs =
    Takes-eq (0 + length s + 0) (length s) (prefix ++ s ++ ansi_color_reset) (omega arith) (
      Takes-append (0 + length s) 0 (prefix ++ s) ansi_color_reset
        (Takes-append 0 (length s) prefix s hp (Takes-text s hs)) reset-Takes)

styled-Takes :
    (all_bold : Bool) (i : ℕ) (s : Str) → IsShown s → Takes (length s) (styled all_bold i s)
unfolding styled
styled-Takes all_bold i s h = elim (Bool-cases (all_bold || i == 0)) [
  | inl bold ↦ rw bold (coloured-Takes (ansi_color_cyan ++ ansi_font_bold) s cyan-Takes h)
  | inr light ↦ elim (Bool-cases (i == 3)) [
    | inr other ↦ rw light (rw other (Takes-text s h))
    | inl status ↦ elim (Bool-cases (eq_str s (text " online "))) [
      | inl online ↦ rw light (
          rw status
            (rw online (coloured-Takes (ansi_color_green ++ ansi_font_bold) s green-Takes h)))
      | inr offline ↦
          rw light (
            rw status
              (rw offline (coloured-Takes (ansi_color_red ++ ansi_font_bold) s red-Takes h)))
    ]
  ]
]

-- The bound of `size_t`
abbrev pub size_limit : ℕ
size_limit = 2 ^ 64

size_sub_lem : (a b : ℕ) → b ≤ a → a < size_limit → size_sub a b ≡ a - b
size_sub_lem a b le small = omega arith

-- The texts from column `i` on can be shown, and fit these widths.
abbrev pub Fits : ℕ → BoxLine → List ℕ → Type 0
Fits i line [] = Unit
Fits i line (w ∷ widths) =
    IsShown (field i line)
    × (length (field i line) ≤ w)
    × (w < size_limit)
    × Fits (suc i) line widths

space-Takes : Takes 1 (text " ")
space-Takes = Takes-text (text " ") ((refl, refl), tt)

letters_from-Takes :
    (all_bold : Bool) (i : ℕ) (line : BoxLine) (widths : List ℕ)
    → Fits i line widths
    → Takes (span widths) (letters_from all_bold i line widths)
unfolding letters_from
letters_from-Takes all_bold i line [] h = Takes-nothing
letters_from-Takes all_bold i line (w ∷ widths) h =
    let s = field i line in
    let gap = size_sub w (length s) in
    Takes-eq (length s + (gap + (1 + span widths))) (span (w ∷ widths))
      (letters_from all_bold i line (w ∷ widths))
      (omega (arith, h.1, size_sub_lem w (length s) h.1 h.2))
      (Takes-append (length s) (gap + (1 + span widths)) (styled all_bold i s) _
        (styled-Takes all_bold i s h.0)
        (Takes-append gap (1 + span widths) (repeat gap (text " ")) _
          (repeat-Takes gap (text " ") space-Takes)
          (Takes-append 1 (span widths) (print_ch vertical_line)
            (letters_from all_bold (suc i) line widths) bar-Takes
            (letters_from-Takes all_bold (suc i) line widths h.3))))

module _ (widths : List ℕ) where
  print_box_letters-Draws :
      (line : BoxLine) (all_bold : Bool)
      → Fits 0 line widths
      → Draws 1 (1 + span widths) (print_box_letters line widths all_bold)
  unfolding print_box_letters
  print_box_letters-Draws line all_bold h =
      framed-Draws (span widths) (print_ch vertical_line) (letters_from all_bold 0 line widths)
        bar-Takes (letters_from-Takes all_bold 0 line widths h)

  more_rows-Draws :
      (lines : List BoxLine)
      → All (λ line. Fits 0 line widths) lines
      → Draws (length lines + length lines) (1 + span widths) (more_rows widths lines)
  unfolding more_rows
  more_rows-Draws [] h = Draws-nothing (1 + span widths)
  more_rows-Draws (line ∷ lines) h =
      Draws-eq (1 + (1 + (length lines + length lines)))
        (length (line ∷ lines) + length (line ∷ lines)) (1 + span widths) _ (omega arith)
        (Draws-append 1 (1 + (length lines + length lines)) (1 + span widths)
          (print_mid_line widths) _ (print_mid_line-Draws widths)
          (Draws-append 1 (length lines + length lines) (1 + span widths)
            (print_box_letters line widths false) (more_rows widths lines)
            (print_box_letters-Draws line false h.0) (more_rows-Draws lines h.1)))

  print_rows-Draws :
      (line : BoxLine) (lines : List BoxLine)
      → All (λ l. Fits 0 l widths) (line ∷ lines)
      → Draws
          (1 + (length lines + length lines))
          (1 + span widths)
          (print_rows widths (line ∷ lines))
  unfolding print_rows
  print_rows-Draws line lines h =
      Draws-append 1 (length lines + length lines) (1 + span widths)
        (print_box_letters line widths true) (more_rows widths lines)
        (print_box_letters-Draws line true h.0) (more_rows-Draws lines h.1)

-- The texts of a row can be shown, and are not longer than memory.
abbrev pub IsClean : BoxLine → Type 0
IsClean line = (i : ℕ) → IsShown (field i line) × (length (field i line) < size_limit)

strlen_max-ge : (i max : ℕ) (lines : List BoxLine) → max ≤ strlen_max i max lines
unfolding strlen_max
strlen_max-ge i max [] = omega arith
strlen_max-ge i max (line ∷ lines) = ground (
  arith,
  strlen_max-ge i (if ltb max (length (field i line)) then length (field i line) else max) lines,
)

strlen_max-lt :
    (i max : ℕ) (lines : List BoxLine)
    → max < size_limit
    → All IsClean lines
    → strlen_max i max lines < size_limit
unfolding strlen_max
strlen_max-lt i max [] lt clean = lt
strlen_max-lt i max (line ∷ lines) lt clean =
    strlen_max-lt i (if ltb max (length (field i line)) then length (field i line) else max) lines
      (ground (arith, (clean.0 i).1)) clean.1

-- No text of the column is longer than the maximum.
strlen_max-All :
    (i max : ℕ) (lines : List BoxLine)
    → All (λ line. length (field i line) ≤ strlen_max i max lines) lines
unfolding strlen_max
strlen_max-All i max [] = tt
strlen_max-All i max (line ∷ lines) =
    let next = if ltb max (length (field i line)) then length (field i line) else max in
    (ground (arith, strlen_max-ge i next lines), strlen_max-All i next lines)

abbrev Within : ℕ → ℕ → List BoxLine → BoxLine → Type 0
Within i columns lines line =
    (length (field i line) ≤ strlen_max i 0 lines)
    × Fits (suc i) line (strlen_max_from (suc i) columns lines)

Fits-All :
    (i columns : ℕ) (lines : List BoxLine)
    → All IsClean lines
    → All (λ line. Fits i line (strlen_max_from i columns lines)) lines
unfolding strlen_max_from
Fits-All i zero lines clean = All-map (λ line h. tt) lines clean
Fits-All i (suc columns) lines clean =
    let small = strlen_max-lt i 0 lines (omega arith) clean in
    let rest = Fits-All (suc i) columns lines clean in
    All-zip {Q = λ line. Within i columns lines line} (λ line is k. ((is i).0, k.0, small, k.1))
      lines clean
      (All-zip {R = λ line. Within i columns lines line} (λ line short k. (short, k)) lines
        (strlen_max-All i 0 lines) rest)

-- The table of clean rows, the header among them, has a rule above, between and below them; all its
-- lines are equally wide.
pub print_box-Draws :
    (line : BoxLine) (lines : List BoxLine)
    → All IsClean (line ∷ lines)
    → Draws
        (3 + (length lines + length lines))
        (1 + span (get_varible_strlen_max (line ∷ lines)))
        (print_box (line ∷ lines))
unfolding print_box get_varible_strlen_max
print_box-Draws line lines clean =
    let widths = strlen_max_from 0 var_num (line ∷ lines) in
    let n = length lines + length lines in
    Draws-eq (1 + (1 + n + 1)) (3 + n) (1 + span widths) (print_box (line ∷ lines)) (omega arith) (
      Draws-append 1 (1 + n + 1) (1 + span widths) (print_top_line widths) _
        (print_top_line-Draws widths)
        (Draws-append (1 + n) 1 (1 + span widths) (print_rows widths (line ∷ lines))
          (print_bot_line widths)
          (print_rows-Draws widths line lines (Fits-All 0 var_num (line ∷ lines) clean))
          (print_bot_line-Draws widths)))
