-- ===== src/Server/Spec.antt =====
-- What a client may know of the service: a list of programs with distinct names, in the order in
-- which they were added. The array, the ids, the memory texts and the log are not part of it.
use kb_pm.Prelude.{
  ℕ, zero, suc, ◌+◌, ◌≡◌, ◌≢◌, ◌<◌, ◌⊎◌, false, Option, none, some, List, [], ◌∷◌, if◌then◌else◌, ℤ,
  pos, pos_part, All, ◌≤◌, length,
}
use kb_pm.CString.{Str, eq_str}
use kb_pm.Process.{Process, list_size}
use kb_pm.Server.{Server}

pub record App : Type 0 where
  pub name : Str
  pub cmd : Str
  pub dir : Str
  pub pid : ℤ
  pub is_running : ℤ
  pub restart_times : ℤ
  pub start_time : ℤ

abbrev pub app_of : Process → App
app_of p = record {
  name = p.app_name;
  cmd = p.cmd;
  dir = p.dir;
  pid = p.pid;
  is_running = p.is_running;
  restart_times = p.restart_times;
  start_time = p.start_time;
}

-- The programs in the first `n` slots.
abbrev pub entries : ℕ → List Process → List App
entries zero slots = []
entries (suc n) [] = []
entries (suc n) (p ∷ slots) = app_of p ∷ entries n slots

abbrev pub apps : Server → List App
apps s = entries s.process_count s.slots

abbrev pub find_from : ℕ → Str → List App → Option ℕ
find_from i name [] = none
find_from i name (a ∷ list) =
    let rest = find_from (i + 1) name list in if eq_str a.name name then some i else rest

-- The program of that name is replaced.
abbrev pub replace : Str → App → List App → List App
replace name b [] = []
replace name b (a ∷ list) =
    let rest = replace name b list in if eq_str a.name name then b ∷ list else a ∷ rest

-- Every program of that name is taken out.
abbrev pub erase : Str → List App → List App
erase name [] = []
erase name (a ∷ list) = let rest = erase name list in if eq_str a.name name then rest else a ∷ rest

abbrev pub IsAbsent : Str → List App → Type 0
IsAbsent name list = All (λ a. eq_str a.name name ≡ false) list

-- A program is stopped and has no process, or it runs in a process.
abbrev pub IsSettled : App → Type 0
IsSettled a =
    ((a.is_running ≡ pos 0) × (a.pid ≡ pos 0)) ⊎ ((a.is_running ≡ pos 1) × (0 < pos_part a.pid))

-- Every program has a name, which no later one bears, and is settled.
abbrev pub IsGood : List App → Type 0
IsGood [] = Unit
IsGood (a ∷ list) = (a.name ≢ []) × IsSettled a × IsAbsent a.name list × IsGood list

abbrev pub IsVacant : Process → Type 0
IsVacant p = p.app_name ≡ []

-- The first `n` slots bear the ids from `i` on, and the others are vacant.
abbrev pub IsNumbered : ℕ → ℕ → List Process → Type 0
IsNumbered i zero slots = All IsVacant slots
IsNumbered i (suc n) [] = ⊥
IsNumbered i (suc n) (p ∷ slots) = (p.id ≡ pos i) × IsNumbered (suc i) n slots

-- The invariant of the service.
pub record IsValid (s : Server) : Type 0 where
  pub sized : length s.slots ≡ list_size
  pub counted : s.process_count ≤ list_size
  pub numbered : IsNumbered 0 s.process_count s.slots
  pub good : IsGood (apps s)
