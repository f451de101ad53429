-- ===== src/StatusTable/Box.antt =====
-- The table of a list of programs.
use kb_pm.Prelude.{
  ℕ, zero, suc, ◌+◌, ◌*◌, ◌/◌, ◌%◌, ◌^◌, ◌≡◌, ◌≤◌, ◌<◌, refl, ap, subst, List, [], ◌∷◌, ◌++◌, arith,
  All, length, length-append, Bool-cases, inl, inr, ltb, ℤ, pos, negsuc, is_nonzero, done,
  >>=-eq-done,
}
use kb_pm.CString.{Str, text, show_nat, show_int, digits_from}
use kb_pm.Proc.{str_buffer_size}
use kb_pm.Process.{Process, list_size}
use kb_pm.Process.Saved.{strcpy-done}
use kb_pm.StatusTable.{
  BoxLine, with_unit, turn_second, sub_ℤ, put_field, status_field, uptime_field, memory_field,
  box_row, box_line, box_lines, header, get_varible_strlen_max, print_box, print_process_list_box,
}
use kb_pm.StatusTable.Screen.{IsShown, IsShown-append, Draws}
use kb_pm.StatusTable.Shape.{span}
use kb_pm.StatusTable.Rows.{IsClean, print_box-Draws}

digits_from-IsShown : (fuel n : ℕ) (acc : Str) → IsShown acc → IsShown (digits_from fuel n acc)
unfolding digits_from
digits_from-IsShown zero n acc h = h
digits_from-IsShown (suc fuel) n acc h = elim (Bool-cases (ltb n 10)) [
  | inl last ↦ rw last ((ground arith, ground arith), h)
  | inr more ↦
      rw more (
        digits_from-IsShown fuel (n / 10) ((b'0' + n % 10) ∷ acc) ((ground arith, ground arith), h))
]

length-digits_from : (fuel n : ℕ) (acc : Str) → length (digits_from fuel n acc) ≤ fuel + length acc
unfolding digits_from
length-digits_from zero n acc = omega arith
length-digits_from (suc fuel) n acc =
    ground (arith, length-digits_from fuel (n / 10) ((b'0' + n % 10) ∷ acc))

-- A text that can be shown and is far shorter than memory.
abbrev pub IsPlainText : Str → Type 0
IsPlainText s = IsShown s × (length s < 2 ^ 63)

-- The numbers of the program are below 2^62 in size; their prints are not long.
abbrev pub IsInt : ℤ → Type 0
IsInt (pos n) = n < 2 ^ 62
IsInt (negsuc n) = n < 2 ^ 62

show_nat-IsPlainText :
    (n : ℕ) → n < 2 ^ 62 + 1 → IsShown (show_nat n) × (length (show_nat n) < 2 ^ 62 + 3)
unfolding show_nat
show_nat-IsPlainText n small =
    (digits_from-IsShown (suc n) n [] tt, omega (arith, length-digits_from (suc n) n []))

show_int-IsPlainText : (n : ℤ) → IsInt n → IsShown (show_int n) × (length (show_int n) < 2 ^ 62 + 4)
unfolding show_int
show_int-IsPlainText (pos n) h =
    let (s, l) = show_nat-IsPlainText n (omega (arith, h)) in (s, omega (arith, l))
show_int-IsPlainText (negsuc n) h =
    let (s, l) = show_nat-IsPlainText (suc n) (omega (arith, h)) in
    (((refl, refl), s), omega (arith, l))

space-IsShown : IsShown (text " ")
space-IsShown = ((refl, refl), tt)

-- A short text between two spaces.
spaced-IsPlainText :
    (s : Str) → IsShown s → length s < 2 ^ 62 + 4 → IsPlainText (text " " ++ s ++ text " ")
spaced-IsPlainText s h l = (
  ((refl, refl), IsShown-append s (text " ") h space-IsShown),
  omega (arith, l, length-append s (text " ")),
)

with_unit-IsPlainText :
    (s : Str) (unit : ℕ)
    → IsShown s
    → length s < 2 ^ 62 + 4
    → IsShown (unit ∷ [])
    → IsPlainText (with_unit s unit)
with_unit-IsPlainText s unit h l hu = (
  ((refl, refl), IsShown-append s (unit ∷ text " ") h (hu.0, space-IsShown)),
  omega (arith, l, length-append s (unit ∷ text " ")),
)

turn_second-IsPlainText : (sec : ℤ) → IsInt sec → IsPlainText (turn_second sec)
unfolding turn_second
turn_second-IsPlainText (negsuc n) h =
    let (s, l) = show_int-IsPlainText (negsuc n) h in
    with_unit-IsPlainText (show_int (negsuc n)) b's' s l ((refl, refl), tt)
turn_second-IsPlainText (pos n) h =
    let digits = λ (k : ℕ) (le : k ≤ n). show_nat-IsPlainText k (omega (arith, h, le)) in
    let plain = λ (k unit : ℕ) (le : k ≤ n) (hu : IsShown (unit ∷ [])).
      with_unit-IsPlainText (show_nat k) unit (digits k le).0 (omega (arith, (digits k le).1)) hu in
    elim (Bool-cases (ltb n 60)) [
      | inl seconds ↦ rw seconds (plain n b's' (omega arith) ((refl, refl), tt))
      | inr more ↦ elim (Bool-cases (ltb n (60 * 60))) [
        | inl minutes ↦ rw more (rw minutes (plain (n / 60) b'm' (omega arith) ((refl, refl), tt)))
        | inr hours ↦ elim (Bool-cases (ltb n (60 * 60 * 24))) [
          | inl hour ↦
              rw more
                (rw hours (rw hour (plain (n / 60 / 60) b'h' (omega arith) ((refl, refl), tt))))
          | inr day ↦
              rw more
                (rw hours (rw day (plain (n / 60 / 60 / 24) b'd' (omega arith) ((refl, refl), tt))))
        ]
      ]
    ]

put_field-IsPlainText : (s t : Str) → IsShown s → put_field s ≡ done t → IsPlainText t
unfolding put_field
put_field-IsPlainText s t h e =
    let (fits, same) = strcpy-done str_buffer_size (text " " ++ s ++ text " ") t e in
    subst IsPlainText same
      (((refl, refl), IsShown-append s (text " ") h space-IsShown), omega (arith, fits))

-- What is printed of a program can be shown, and its numbers are below 2^62 in size; `now` is the
-- time.
pub record IsPrintable (now : ℤ) (p : Process) : Type 0 where
  pub app_name : IsShown p.app_name
  pub memory : IsShown p.memory
  pub id : IsInt p.id
  pub pid : IsInt p.pid
  pub restart_times : IsInt p.restart_times
  pub uptime : IsInt (sub_ℤ now p.start_time)

-- A row of plain texts is clean.
plain-IsClean : (line : BoxLine) → All IsPlainText line → IsClean line
plain-IsClean [] h i = (tt, omega arith)
plain-IsClean (s ∷ line) h zero = (h.0.0, omega (arith, h.0.1))
plain-IsClean (s ∷ line) h (suc i) = plain-IsClean line h.1 i

spaced_int : (n : ℤ) → IsInt n → IsPlainText (text " " ++ show_int n ++ text " ")
spaced_int n h = let (s, l) = show_int-IsPlainText n h in spaced-IsPlainText (show_int n) s l

header-IsClean : IsClean header
header-IsClean = plain-IsClean header (ground arith)

status_field-IsPlainText : (p : Process) → IsPlainText (status_field p)
unfolding status_field
status_field-IsPlainText p = elim (Bool-cases (is_nonzero p.is_running)) [
  | inl on ↦ rw on online
  | inr off ↦ rw off stopped
]
  where
    online : IsPlainText (text " online ")
    online = ground arith

    stopped : IsPlainText (text " stopped ")
    stopped = ground arith

uptime_field-IsPlainText :
    (now : ℤ) (p : Process) → IsPrintable now p → IsPlainText (uptime_field now p)
unfolding uptime_field
uptime_field-IsPlainText now p h = elim (Bool-cases (is_nonzero p.is_running)) [
  | inl on ↦ rw on (turn_second-IsPlainText (sub_ℤ now p.start_time) h.uptime)
  | inr off ↦ rw off none
]
  where
    none : IsPlainText (text " 0s ")
    none = ground arith

memory_field-IsPlainText :
    (now : ℤ) (p : Process) (t : Str) → IsPrintable now p → memory_field p ≡ done t → IsPlainText t
unfolding memory_field
memory_field-IsPlainText now p t h e = elim (Bool-cases (is_nonzero p.is_running)) [
  | inl on ↦ put_field-IsPlainText p.memory t h.memory (ground arith)
  | inr off ↦ let same : text " 0 B " ≡ t = ground arith in subst IsPlainText same none
]
  where
    none : IsPlainText (text " 0 B ")
    none = ground arith

box_line-IsClean :
    (now : ℤ) (p : Process) (line : BoxLine)
    → IsPrintable now p
    → box_line now p ≡ done line
    → IsClean line
unfolding box_line
box_line-IsClean now p line h e =
    let (name, e1, h1) = >>=-eq-done (put_field p.app_name) _ e in
    let (memory, e2, h2) = >>=-eq-done (memory_field p) _ h1 in
    let row = box_row now p name memory in
    let ended : row ≡ line = ground arith in
    let plain : All IsPlainText row = (
      put_field-IsPlainText p.app_name name h.app_name e1,
      (
        spaced_int p.id h.id,
        (
          spaced_int p.pid h.pid,
          (
            status_field-IsPlainText p,
            (
              spaced_int p.restart_times h.restart_times,
              (uptime_field-IsPlainText now p h, (memory_field-IsPlainText now p memory h e2, tt)),
            ),
          ),
        ),
      ),
    ) in
    subst IsClean ended (plain-IsClean row plain)

-- The first `n` slots can be printed, at the times at which they are.
abbrev pub AllPrintable : (ℕ → ℤ) → ℕ → ℕ → List Process → Type 0
AllPrintable time i zero slots = Unit
AllPrintable time i (suc n) [] = Unit
AllPrintable time i (suc n) (p ∷ slots) = IsPrintable (time i) p × AllPrintable time (suc i) n slots

box_lines-IsClean :
    (time : ℕ → ℤ) (i n : ℕ) (slots : List Process) (rows : List BoxLine)
    → AllPrintable time i n slots
    → box_lines time i n slots ≡ done rows
    → All IsClean rows × (length rows ≡ n)
unfolding box_lines
box_lines-IsClean time i zero slots rows h e =
    let same : [] ≡ rows = ground arith in
    subst (λ r. All IsClean r × (length r ≡ 0)) same (tt, refl)
box_lines-IsClean time i (suc n) [] rows h e = absurd (cc)
box_lines-IsClean time i (suc n) (p ∷ slots) rows h e = elim (Bool-cases (ltb (i + 1) list_size)) [
  | inr full ↦ absurd (ground arith)
  | inl room ↦
      let (row, e1, h1) = >>=-eq-done (box_line (time i) p) _ (rw room at e) in
      let (rest, e2, h2) = >>=-eq-done (box_lines time (suc i) n slots) _ h1 in
      let (clean, len) = box_lines-IsClean time (suc i) n slots rest h.1 e2 in
      let ended : row ∷ rest ≡ rows = ground arith in
      subst (λ r. All IsClean r × (length r ≡ suc n)) ended
        ((box_line-IsClean (time i) p row h.0 e1, clean), ap suc len)
]

-- If the table of a list is printed, and the texts of the programs hold no escape and no end of a
-- line, and their numbers are below 2^62 in size, then printing it completes `3 + 2 * n` lines of one
-- width, where each byte that is shown takes one place.
pub print_process_list_box-Draws :
    (time : ℕ → ℤ) (slots : List Process) (n : ℕ) (out : Str)
    → AllPrintable time 0 n slots
    → print_process_list_box time slots (pos n) ≡ done out
    → (width : ℕ) × Draws (3 + (n + n)) width out
unfolding print_process_list_box
print_process_list_box-Draws time slots n out h e =
    let (rows, e1, h1) = >>=-eq-done (box_lines time 0 n slots) _ e in
    let (clean, len) = box_lines-IsClean time 0 n slots rows h e1 in
    let ended : print_box (header ∷ rows) ≡ out = ground arith in
    let width = 1 + span (get_varible_strlen_max (header ∷ rows)) in
    (
      width,
      subst (Draws (3 + (n + n)) width) ended (
          subst (λ k. Draws (3 + (k + k)) width (print_box (header ∷ rows))) len
            (print_box-Draws header rows (header-IsClean, clean))),
    )
