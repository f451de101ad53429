-- ===== src/Samples/Tables.antt =====
-- A table of the samples.
use kb_pm.Prelude.{
  ℕ, ◌≡◌, ◌<◌, ◌≤◌, refl, arith, ℤ, pos, [], Outcome, done, undefined, exited, replaced, Fault,
}
use kb_pm.CString.{Str, show_nat}
use kb_pm.System.{Log}
use kb_pm.Process.{list_size}
use kb_pm.StatusTable.{with_unit, turn_second, print_process_list_box}
use kb_pm.StatusTable.Elapsed.{Measure, letter, IsElapsed, turn_second_bounds}
use kb_pm.StatusTable.Limits.{table_limits}
use kb_pm.Samples.Machines.{service}
use kb_pm.Samples.Opened.{opened}

abbrev clock : ℕ → ℤ
clock i = pos 5000

abbrev printed : Outcome Log Str → Str
printed (done s) = s
printed (exited n w) = []
printed (replaced w) = []
printed (undefined e) = []

abbrev table : Str
table = printed (print_process_list_box clock service.slots (pos 2))

prints_table : print_process_list_box clock service.slots (pos 2) ≡ done table
unfolding opened
prints_table = refl

table_limits_example :
    (2 < list_size → (out : Str) × (print_process_list_box clock service.slots (pos 2) ≡ done out))
    × (list_size ≤ 2
        → print_process_list_box clock service.slots (pos 2) ≡ undefined Fault.out_of_bounds)
table_limits_example =
    table_limits clock 2 service.slots (omega arith)
      (omega arith, omega arith, (omega arith, omega arith, tt))

turn_second_bounds_example :
    (q : ℕ) × (m : Measure) × IsElapsed 4100 q m
    × (turn_second (pos 4100) ≡ with_unit (show_nat q) (letter m))
turn_second_bounds_example = turn_second_bounds 4100
