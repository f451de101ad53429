-- ===== src/Samples/Crowd.antt =====
-- A service with all its slots in use, and short runs on numbers and buffers.
use kb_pm.Prelude.{
  ℕ, zero, suc, ◌+◌, ◌/◌, ◌%◌, ◌≡◌, ◌≢◌, ◌<◌, ◌∙◌, refl, ap, sym, Bool-cases, inl, inr, false, List,
  [], ◌∷◌, arith, length, pos, none, some, Outcome, ℤ, done, undefined, Fault, replicate,
}
use kb_pm.CString.{Str, text, eq_str, eq_of_eq_str, show_nat, show_int, value_from, digits_from}
use kb_pm.CString.Decimal.{value_from-show_nat}
use kb_pm.System.{Log}
use kb_pm.Process.{Process}
use kb_pm.Process.Table.{del_process_by_app_name}
use kb_pm.Server.{Server}
use kb_pm.Server.Lookup.{find_app, type_id, parse_process_and_process_type}
use kb_pm.Server.Control.{server_start_process}
use kb_pm.Server.Requests.{start_new}
use kb_pm.Server.Service.{zero_process}
use kb_pm.Server.Spec.{entries, IsAbsent, IsGood, IsNumbered, IsValid}
use kb_pm.Server.Full.{del_process_by_app_name-full, start_new-full}
use kb_pm.Server.Ids.{found_by_id}
use kb_pm.Server.Wire.{c_string, read_into, pong_and_receive_data}
use kb_pm.Server.Wire.Exchange.{IsText, exchange-exact}
use kb_pm.Samples.Machines.{machine, service, web}
use kb_pm.Samples.Opened.{opened}
use kb_pm.Samples.Runs.{service-IsValid}

-- Stopped programs that are called by their ids.
abbrev numbered : ℕ → ℕ → List Process
numbered i zero = []
numbered i (suc n) = record zero_process { app_name = show_nat i; id = pos i } ∷ numbered (suc i) n

abbrev crowd : Server
crowd = record { slots = numbered 0 256; process_count = 256; log = [] }

show_nat-distinct : (i j : ℕ) → i < j → eq_str (show_nat j) (show_nat i) ≡ false
show_nat-distinct i j h = elim (Bool-cases (eq_str (show_nat j) (show_nat i))) [
  | inr other ↦ other
  | inl same ↦
      let shown = eq_of_eq_str (show_nat j) (show_nat i) same in
      let equal : j ≡ i =
        sym (value_from-show_nat j) ∙ ap (value_from 0) shown ∙ value_from-show_nat i in
      absurd (omega (arith, h, equal))
]

digits_from-ne_nil : (fuel n c : ℕ) (acc : Str) → digits_from fuel n (c ∷ acc) ≢ []
unfolding digits_from
digits_from-ne_nil zero n c acc e = cc
digits_from-ne_nil (suc fuel) n c acc e =
    ground (arith, digits_from-ne_nil fuel (n / 10) (b'0' + n % 10) (c ∷ acc))

show_nat-ne_nil : (i : ℕ) → show_nat i ≢ []
unfolding show_nat digits_from
show_nat-ne_nil i e = ground (arith, digits_from-ne_nil i (i / 10) (b'0' + i % 10) [])

numbered-IsAbsent : (k i n : ℕ) → k < i → IsAbsent (show_nat k) (entries n (numbered i n))
numbered-IsAbsent k i zero h = tt
numbered-IsAbsent k i (suc n) h =
    (show_nat-distinct k i h, numbered-IsAbsent k (suc i) n (omega arith))

numbered-IsGood : (i n : ℕ) → IsGood (entries n (numbered i n))
numbered-IsGood i zero = tt
numbered-IsGood i (suc n) = (
  show_nat-ne_nil i,
  inl (refl, refl),
  numbered-IsAbsent i (suc i) n (omega arith),
  numbered-IsGood (suc i) n,
)

numbered-IsNumbered : (i n : ℕ) → IsNumbered i n (numbered i n)
numbered-IsNumbered i zero = tt
numbered-IsNumbered i (suc n) = (refl, numbered-IsNumbered (suc i) n)

length-numbered : (i n : ℕ) → length (numbered i n) ≡ n
length-numbered i zero = refl
length-numbered i (suc n) = ap suc (length-numbered (suc i) n)

crowd-IsValid : IsValid crowd
crowd-IsValid = record {
  sized = length-numbered 0 256;
  counted = omega arith;
  numbered = numbered-IsNumbered 0 256;
  good = numbered-IsGood 0 256;
}

finds_zero : find_app crowd (text "0") ≡ some 0
unfolding opened
finds_zero = refl

del_process_by_app_name-full_example :
    ◌≡◌ {A = Outcome Log (ℤ × List Process)}
      (del_process_by_app_name crowd.slots (text "0"))
      (undefined Fault.out_of_bounds)
del_process_by_app_name-full_example =
    del_process_by_app_name-full crowd (text "0") 0 crowd-IsValid refl finds_zero

finds_no_web : find_app crowd web.app_name ≡ none
unfolding opened
finds_no_web = refl

start_new-full_example :
    ((q : Process) × (log' : Log) × (server_start_process machine.env web crowd.log
        ≡ done (q, log')))
    × (start_new machine web crowd ≡ undefined Fault.out_of_bounds)
start_new-full_example =
    start_new-full machine web crowd crowd-IsValid refl finds_no_web (omega arith)

found_by_id_example :
    parse_process_and_process_type machine service (show_int web.id) ≡ done (type_id, web)
found_by_id_example = found_by_id machine service 0 web service-IsValid (omega arith) refl

startall-IsText : IsText (text "startall")
startall-IsText = ground arith

web-IsText : IsText (text "web")
web-IsText = ground arith

exchange-exact_example :
    (c_string (read_into (replicate 600 0) (text "startall")) ≡ text "startall")
    × (c_string (pong_and_receive_data (read_into (replicate 600 0) (text "startall")) (text "web"))
        ≡ text "web")
exchange-exact_example =
    exchange-exact (text "startall") (text "web") 600 startall-IsText web-IsText (omega arith)
      (omega arith) (omega arith)
