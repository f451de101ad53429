-- ===== src/StatusTable.antt =====
-- src/box_drawing.c: the table of the programs, as the bytes that are printed for it.
pub mod Screen
pub mod Shape
pub mod Rows
pub mod Box
pub mod Elapsed
pub mod Limits
use kb_pm.Prelude.{
  ℕ, zero, suc, ◌+◌, ◌-◌, ◌*◌, ◌/◌, ◌%◌, ◌^◌, Bool, true, false, ◌||◌, List, [], ◌∷◌, ◌++◌, ltb,
  ◌==◌, if◌then◌else◌, length, get_elem?, ℤ, pos, negsuc, is_nonzero, Outcome, done, undefined,
  Fault, ◌>>=◌, replicate,
}
use kb_pm.CString.{Str, text, eq_str, strcpy, show_nat, show_int}
use kb_pm.System.{Log}
use kb_pm.Proc.{str_buffer_size}
use kb_pm.Process.{Process, list_size}

-- ansi_escape.h
abbrev pub ansi_color_gray : Str
ansi_color_gray = 0x1b ∷ text "[30m"

abbrev pub ansi_color_red : Str
ansi_color_red = 0x1b ∷ text "[31m"

abbrev pub ansi_color_green : Str
ansi_color_green = 0x1b ∷ text "[32m"

abbrev pub ansi_color_cyan : Str
ansi_color_cyan = 0x1b ∷ text "[36m"

abbrev pub ansi_color_reset : Str
ansi_color_reset = 0x1b ∷ text "[0m"

abbrev pub ansi_font_bold : Str
ansi_font_bold = 0x1b ∷ text "[1m"

-- A character of the line drawing set: the terminal is switched to that set, and back.
abbrev pub drawn : ℕ → Str
drawn c = 0x1b ∷ b'(' ∷ b'0' ∷ c ∷ 0x1b ∷ b'(' ∷ b'B' ∷ []

-- Corners, crossings and lines: RB, RT, LT, LB, MC, HL, LC, RC, BC, TC, VL
abbrev pub right_bottom : Str
right_bottom = drawn 0x6a

abbrev pub right_top : Str
right_top = drawn 0x6b

abbrev pub left_top : Str
left_top = drawn 0x6c

abbrev pub left_bottom : Str
left_bottom = drawn 0x6d

abbrev pub middle_cross : Str
middle_cross = drawn 0x6e

abbrev pub horizontal_line : Str
horizontal_line = drawn 0x71

abbrev pub left_cross : Str
left_cross = drawn 0x74

abbrev pub right_cross : Str
right_cross = drawn 0x75

abbrev pub bottom_cross : Str
bottom_cross = drawn 0x76

abbrev pub top_cross : Str
top_cross = drawn 0x77

abbrev pub vertical_line : Str
vertical_line = drawn 0x78

abbrev pub newline : Str
newline = 0x0a ∷ []

unfoldable pub print_ch : Str → Str
print_ch ch = ansi_font_bold ++ ansi_color_gray ++ ch ++ ansi_color_reset

-- VAR_NUM
abbrev pub var_num : ℕ
var_num = 7

-- The seven texts of a row.
abbrev pub BoxLine : Type 0
BoxLine = List Str

-- `box_line[i]`
abbrev pub field : ℕ → BoxLine → Str
field i [] = []
field zero (s ∷ line) = s
field (suc i) (s ∷ line) = field i line

-- `sprintf(buffer, " %ldm ", n)` and its like
abbrev pub with_unit : Str → ℕ → Str
with_unit number unit = text " " ++ number ++ unit ∷ text " "

-- A time before 1970, or a clock that was set back, gives a number that is not positive.
unfoldable pub turn_second : ℤ → Str
turn_second (negsuc n) = with_unit (show_int (negsuc n)) b's'
turn_second (pos n) =
    if ltb n 60
    then with_unit (show_nat n) b's'
    else if ltb n (60 * 60)
    then with_unit (show_nat (n / 60)) b'm'
    else if ltb n (60 * 60 * 24)
    then with_unit (show_nat (n / 60 / 60)) b'h'
    else with_unit (show_nat (n / 60 / 60 / 24)) b'd'

-- `now - p->start_time`
unfoldable pub sub_ℤ : ℤ → ℤ → ℤ
sub_ℤ (pos n) (pos k) = if ltb n k then negsuc (k - n - 1) else pos (n - k)
sub_ℤ (pos n) (negsuc k) = pos (n + k + 1)
sub_ℤ (negsuc n) (pos k) = negsuc (n + k)
sub_ℤ (negsuc n) (negsuc k) = if ltb k n then negsuc (n - k - 1) else pos (k - n)

-- `sprintf(box_line_list[i + 1][k], " %s ", s)`
unfoldable pub put_field : Str → Outcome Log Str
put_field s = strcpy str_buffer_size (text " " ++ s ++ text " ")

unfoldable pub status_field : Process → Str
status_field p = if is_nonzero p.is_running then text " online " else text " stopped "

-- `now` is the answer of `time`.
unfoldable pub uptime_field : ℤ → Process → Str
uptime_field now p =
    if is_nonzero p.is_running then turn_second (sub_ℤ now p.start_time) else text " 0s "

unfoldable pub memory_field : Process → Outcome Log Str
memory_field p = if is_nonzero p.is_running then put_field p.memory else done (text " 0 B ")

-- `sprintf(box_line_list[i + 1][k], " %d ", n)`
abbrev pub int_field : ℤ → Str
int_field n = text " " ++ show_int n ++ text " "

abbrev pub box_row : ℤ → Process → Str → Str → BoxLine
box_row now p name memory =
    name
    ∷ int_field p.id
    ∷ int_field p.pid
    ∷ status_field p
    ∷ int_field p.restart_times
    ∷ uptime_field now p
    ∷ memory
    ∷ []

-- The row of one program.
unfoldable pub box_line : ℤ → Process → Outcome Log BoxLine
box_line now p = do
  name ← put_field p.app_name
  memory ← memory_field p
  done (box_row now p name memory)

-- The loop of `print_process_list_box`: row `i + 1` of an array of LIST_SIZE rows is that of slot
-- `i`, and `time` gives the answers of the clock.
unfoldable pub box_lines : (ℕ → ℤ) → ℕ → ℕ → List Process → Outcome Log (List BoxLine)
box_lines time i zero slots = done []
box_lines time i (suc rounds) [] = undefined Fault.out_of_bounds
box_lines time i (suc rounds) (p ∷ slots) =
    let rows = do
      row ← box_line (time i) p
      rest ← box_lines time (suc i) rounds slots
      done (row ∷ rest)
    in if ltb (i + 1) list_size then rows else undefined Fault.out_of_bounds

abbrev pub header : BoxLine
header =
    text " App name "
    ∷ text " id "
    ∷ text " pid "
    ∷ text " status "
    ∷ text " restart "
    ∷ text " uptime "
    ∷ text " memory "
    ∷ []

-- The loop over the rows, for the column `i`: `max` is the length of the longest text so far.
unfoldable pub strlen_max : ℕ → ℕ → List BoxLine → ℕ
strlen_max i max [] = max
strlen_max i max (line ∷ lines) =
    let str_len = length (field i line) in
    strlen_max i (if ltb max str_len then str_len else max) lines

-- `get_varible_strlen_max`, for the columns from `i` on
unfoldable pub strlen_max_from : ℕ → ℕ → List BoxLine → List ℕ
strlen_max_from i zero lines = []
strlen_max_from i (suc columns) lines = strlen_max i 0 lines ∷ strlen_max_from (suc i) columns lines

unfoldable pub get_varible_strlen_max : List BoxLine → List ℕ
get_varible_strlen_max lines = strlen_max_from 0 var_num lines

-- The same text `n` times
unfoldable pub repeat : ℕ → Str → Str
repeat zero s = []
repeat (suc n) s = s ++ repeat n s

-- What `print_top_line`, `print_mid_line` and `print_bot_line` print behind their first character.
unfoldable pub rule_from : Str → Str → List ℕ → Str
rule_from cross end [] = []
rule_from cross end (w ∷ []) = repeat w (print_ch horizontal_line) ++ print_ch end
rule_from cross end (w ∷ v ∷ widths) =
    repeat w (print_ch horizontal_line) ++ (print_ch cross ++ rule_from cross end (v ∷ widths))

unfoldable pub print_top_line : List ℕ → Str
print_top_line widths = print_ch left_top ++ (rule_from top_cross right_top widths ++ newline)

unfoldable pub print_mid_line : List ℕ → Str
print_mid_line widths =
    print_ch left_cross ++ (rule_from middle_cross right_cross widths ++ newline)

unfoldable pub print_bot_line : List ℕ → Str
print_bot_line widths =
    print_ch left_bottom ++ (rule_from bottom_cross right_bottom widths ++ newline)

-- `var_strlen_max[i] - strlen(box_line[i])`, a difference of the unsigned type `size_t`
abbrev pub size_sub : ℕ → ℕ → ℕ
size_sub a b = (a + 2 ^ 64 - b) % 2 ^ 64

-- The text of column `i`, with its colours.
unfoldable pub styled : Bool → ℕ → Str → Str
styled all_bold i s =
    if all_bold || i == 0
    then ansi_color_cyan ++ ansi_font_bold ++ s ++ ansi_color_reset
    else if i == 3
    then (if eq_str s (text " online ")
        then ansi_color_green ++ ansi_font_bold ++ s ++ ansi_color_reset
        else ansi_color_red ++ ansi_font_bold ++ s ++ ansi_color_reset)
    else s

-- The columns from `i` on.
unfoldable pub letters_from : Bool → ℕ → BoxLine → List ℕ → Str
letters_from all_bold i line [] = []
letters_from all_bold i line (w ∷ widths) =
    styled all_bold i (field i line)
    ++ (repeat (size_sub w (length (field i line))) (text " ")
        ++ (print_ch vertical_line ++ letters_from all_bold (suc i) line widths))

unfoldable pub print_box_letters : BoxLine → List ℕ → Bool → Str
print_box_letters line widths all_bold =
    print_ch vertical_line ++ (letters_from all_bold 0 line widths ++ newline)

-- The rows from the second on, each behind a line.
unfoldable pub more_rows : List ℕ → List BoxLine → Str
more_rows widths [] = []
more_rows widths (line ∷ lines) =
    print_mid_line widths ++ (print_box_letters line widths false ++ more_rows widths lines)

-- All rows: the first is bold, and there is a line between two rows.
unfoldable pub print_rows : List ℕ → List BoxLine → Str
print_rows widths [] = []
print_rows widths (line ∷ lines) = print_box_letters line widths true ++ more_rows widths lines

unfoldable pub print_box : List BoxLine → Str
print_box lines =
    let widths = get_varible_strlen_max lines in
    print_top_line widths ++ (print_rows widths lines ++ print_bot_line widths)

-- A count of -1 is that of a list that could not be read: not even the header is printed.
unfoldable pub print_process_list_box : (ℕ → ℤ) → List Process → ℤ → Outcome Log Str
print_process_list_box time process_list (negsuc n) = done (print_box [])
print_process_list_box time process_list (pos list_count) =
    box_lines time 0 list_count process_list >>= λ rows. done (print_box (header ∷ rows))
