-- ===== src/StatusTable/Limits.antt =====
-- Which lists have a table.
use kb_pm.Prelude.{
  ℕ, zero, suc, ◌+◌, ◌≡◌, ◌≤◌, ◌<◌, refl, ◌⊎◌, inl, inr, true, List, [], ◌∷◌, ◌++◌, Bool-cases, ltb,
  arith, length, length-append, ℤ, pos, is_nonzero, Outcome, done, undefined, Fault, ◌>>=◌,
}
use kb_pm.CString.{Str, text, strcpy}
use kb_pm.System.{Log}
use kb_pm.Proc.{str_buffer_size}
use kb_pm.Process.{Process, list_size}
use kb_pm.StatusTable.{
  BoxLine, put_field, memory_field, box_line, box_lines, box_row, header, print_box,
  print_process_list_box,
}

-- The call returns, or it leaves the bounds of an array.
abbrev pub Bounded : {A : Type 0} → Outcome Log A → Type 0
Bounded {A} call = ((a : A) × (call ≡ done a)) ⊎ (call ≡ undefined Fault.out_of_bounds)

strcpy-Bounded : (n : ℕ) (s : Str) → Bounded (strcpy n s)
unfolding strcpy
strcpy-Bounded n s = elim (Bool-cases (ltb (length s) n)) [
  | inl fits ↦ inl (s, rw fits)
  | inr long ↦ inr (rw long)
]

memory_field-Bounded : (p : Process) → Bounded (memory_field p)
unfolding memory_field put_field
memory_field-Bounded p = elim (Bool-cases (is_nonzero p.is_running)) [
  | inl on ↦ rw on (strcpy-Bounded str_buffer_size (text " " ++ p.memory ++ text " "))
  | inr off ↦ rw off (inl (text " 0 B ", refl))
]

bind-Bounded :
    {A B : Type 0} (call : Outcome Log A) (next : A → Outcome Log B)
    → Bounded call
    → ((a : A) → Bounded (next a))
    → Bounded (call >>= next)
bind-Bounded call next (inl (a, e)) h = rw e (h a)
bind-Bounded call next (inr e) h = inr (rw e)

box_line-Bounded : (now : ℤ) (p : Process) → Bounded (box_line now p)
unfolding box_line put_field
box_line-Bounded now p =
    bind-Bounded (put_field p.app_name) _
      (strcpy-Bounded str_buffer_size (text " " ++ p.app_name ++ text " "))
      (λ name. bind-Bounded (memory_field p) _ (memory_field-Bounded p) (λ memory. inl (_, refl)))

-- Row `i + 1` of the last slot lies behind the array.
box_lines-full :
    (time : ℕ → ℤ) (i n : ℕ) (slots : List Process)
    → i < list_size
    → list_size ≤ i + n
    → box_lines time i n slots ≡ undefined Fault.out_of_bounds
unfolding box_lines
box_lines-full time i zero slots lt le = absurd (omega arith)
box_lines-full time i (suc n) [] lt le = refl
box_lines-full time i (suc n) (p ∷ slots) lt le = elim (Bool-cases (ltb (i + 1) list_size)) [
  | inr last ↦ rw last
  | inl inside ↦ elim (box_line-Bounded (time i) p) [
    | inr fails ↦ rw inside (rw fails)
    | inl (row, e) ↦
        let rest = box_lines-full time (suc i) n slots (ground arith) (omega (arith, le)) in
        rw inside (rw e (rw rest))
  ]
]

-- The texts fit a field of the table, with a space on each side.
abbrev pub AllFit : ℕ → List Process → Type 0
AllFit zero slots = Unit
AllFit (suc n) [] = Unit
AllFit (suc n) (p ∷ slots) =
    (length p.app_name + 2 < str_buffer_size)
    × (length p.memory + 2 < str_buffer_size)
    × AllFit n slots

put_field-done :
    (s : Str) → length s + 2 < str_buffer_size → put_field s ≡ done (text " " ++ s ++ text " ")
unfolding put_field strcpy
put_field-done s h =
    let fits : ltb (length (text " " ++ s ++ text " ")) str_buffer_size ≡ true =
      ground (arith, length-append s (text " ")) in
    rw fits

memory_field-done :
    (p : Process) → length p.memory + 2 < str_buffer_size → (m : Str) × (memory_field p ≡ done m)
unfolding memory_field
memory_field-done p h = elim (Bool-cases (is_nonzero p.is_running)) [
  | inl on ↦ (text " " ++ p.memory ++ text " ", rw on (put_field-done p.memory h))
  | inr off ↦ (text " 0 B ", rw off)
]

box_line-done :
    (now : ℤ) (p : Process)
    → length p.app_name + 2 < str_buffer_size
    → length p.memory + 2 < str_buffer_size
    → (row : BoxLine) × (box_line now p ≡ done row)
unfolding box_line
box_line-done now p name memory =
    let (m, e) = memory_field-done p memory in
    (
      box_row now p (text " " ++ p.app_name ++ text " ") m,
      rw (put_field-done p.app_name name) (rw e),
    )

box_lines-done :
    (time : ℕ → ℤ) (i n : ℕ) (slots : List Process)
    → i + n < list_size
    → n ≤ length slots
    → AllFit n slots
    → (rows : List BoxLine) × (box_lines time i n slots ≡ done rows)
unfolding box_lines
box_lines-done time i zero slots room len fit = ([], refl)
box_lines-done time i (suc n) [] room len fit = absurd (omega (arith, len))
box_lines-done time i (suc n) (p ∷ slots) room len fit =
    let inside : ltb (i + 1) list_size ≡ true = ground arith in
    let (row, e) = box_line-done (time i) p fit.0 fit.1 in
    let (rest, e') =
      box_lines-done time (suc i) n slots (omega (arith, room)) (omega (arith, len)) fit.2 in
    (row ∷ rest, rw inside (rw e (rw e')))

-- The table of a list of programs whose texts fit its fields is printed if there are at most 255,
-- and goes past the array of its rows if there are 256 or more, since the header takes one.
pub table_limits :
    (time : ℕ → ℤ) (n : ℕ) (slots : List Process)
    → n ≤ length slots
    → AllFit n slots
    → (n < list_size → (out : Str) × (print_process_list_box time slots (pos n) ≡ done out))
      × (list_size ≤ n → print_process_list_box time slots (pos n) ≡ undefined Fault.out_of_bounds)
unfolding print_process_list_box
table_limits time n slots len fit = (
  (λ room.
      (let (rows, e) = box_lines-done time 0 n slots (omega (arith, room)) len fit in
        (print_box (header ∷ rows), rw e))),
  (λ full. rw (box_lines-full time 0 n slots (omega arith) (omega (arith, full)))),
)
