-- ===== src/Server/Pointwise.antt =====
-- Loops that give each slot a new record of the same program.
use kb_pm.Prelude.{
  ℕ, zero, suc, ◌≡◌, ◌≤◌, ◌∙◌, refl, ap, sym, subst, List, [], ◌∷◌, arith, length, done, Outcome,
  >>=-eq-done,
}
use kb_pm.CString.{Str, eq_str}
use kb_pm.System.{Log}
use kb_pm.Process.{Process}
use kb_pm.Server.{Server}
use kb_pm.Server.Requests.{for_each_slot}
use kb_pm.Server.Spec.{app_of, entries, IsAbsent, IsGood, IsSettled, IsNumbered, IsValid}
use kb_pm.Server.Effects.{IsSame}

-- The first `n` slots are related, and the others are the same.
abbrev pub Pointwise : (Process → Process → Type 0) → ℕ → List Process → List Process → Type 0
Pointwise R zero xs ys = xs ≡ ys
Pointwise R (suc n) [] ys = ⊥
Pointwise R (suc n) (x ∷ xs) [] = ⊥
Pointwise R (suc n) (x ∷ xs) (y ∷ ys) = R x y × Pointwise R n xs ys

pub Pointwise-map :
    (R T : Process → Process → Type 0)
    → ((p q : Process) → R p q → T p q)
    → (n : ℕ) (xs ys : List Process) → Pointwise R n xs ys
    → Pointwise T n xs ys
Pointwise-map R T f zero xs ys h = h
Pointwise-map R T f (suc n) [] ys h = absurd h
Pointwise-map R T f (suc n) (x ∷ xs) [] h = absurd h
Pointwise-map R T f (suc n) (x ∷ xs) (y ∷ ys) h = (f x y h.0, Pointwise-map R T f n xs ys h.1)

pub for_each_slot-Pointwise :
    (R : Process → Process → Type 0) (f : Process → Log → Outcome Log (Process × Log))
    → ((p : Process) (log : Log) (q : Process) (log' : Log) → f p log ≡ done (q, log') → R p q)
    → (n : ℕ) (xs : List Process) (log : Log) (ys : List Process) (log' : Log)
    → for_each_slot f n xs log ≡ done (ys, log')
    → Pointwise R n xs ys
unfolding for_each_slot
for_each_slot-Pointwise R f each zero xs log ys log' h = ground arith
for_each_slot-Pointwise R f each (suc n) [] log ys log' h = absurd (cc)
for_each_slot-Pointwise R f each (suc n) (x ∷ xs) log ys log' h =
    let (a, e, h1) = >>=-eq-done (f x log) _ h in
    let (b, e1, h2) = >>=-eq-done (for_each_slot f n xs a.1) _ h1 in
    let ended : a.0 ∷ b.0 ≡ ys = ground arith in
    subst (Pointwise R (suc n) (x ∷ xs)) ended
      (each x log a.0 a.1 e, for_each_slot-Pointwise R f each n xs a.1 b.0 b.1 e1)

-- The program stays the same, and is settled if it was.
abbrev pub Keeps : Process → Process → Type 0
Keeps p q = IsSame p q × (IsSettled (app_of p) → IsSettled (app_of q))

pub length-Pointwise :
    (R : Process → Process → Type 0) (n : ℕ) (xs ys : List Process)
    → Pointwise R n xs ys
    → length ys ≡ length xs
length-Pointwise R zero xs ys h = ap length (sym h)
length-Pointwise R (suc n) [] ys h = absurd h
length-Pointwise R (suc n) (x ∷ xs) [] h = absurd h
length-Pointwise R (suc n) (x ∷ xs) (y ∷ ys) h = ap suc (length-Pointwise R n xs ys h.1)

IsNumbered-Pointwise :
    (i n : ℕ) (xs ys : List Process)
    → Pointwise Keeps n xs ys
    → IsNumbered i n xs
    → IsNumbered i n ys
IsNumbered-Pointwise i zero xs ys h num = subst (IsNumbered i 0) h num
IsNumbered-Pointwise i (suc n) [] ys h num = absurd h
IsNumbered-Pointwise i (suc n) (x ∷ xs) [] h num = absurd h
IsNumbered-Pointwise i (suc n) (x ∷ xs) (y ∷ ys) h num =
    (h.0.0.id ∙ num.0, IsNumbered-Pointwise (suc i) n xs ys h.1 num.1)

pub IsAbsent-Pointwise :
    (name : Str) (n : ℕ) (xs ys : List Process)
    → Pointwise Keeps n xs ys
    → IsAbsent name (entries n xs)
    → IsAbsent name (entries n ys)
IsAbsent-Pointwise name zero xs ys h absent = tt
IsAbsent-Pointwise name (suc n) [] ys h absent = absurd h
IsAbsent-Pointwise name (suc n) (x ∷ xs) [] h absent = absurd h
IsAbsent-Pointwise name (suc n) (x ∷ xs) (y ∷ ys) h absent =
    (ap (λ k. eq_str k name) h.0.0.name ∙ absent.0, IsAbsent-Pointwise name n xs ys h.1 absent.1)

IsGood-Pointwise :
    (n : ℕ) (xs ys : List Process)
    → Pointwise Keeps n xs ys
    → IsGood (entries n xs)
    → IsGood (entries n ys)
IsGood-Pointwise zero xs ys h good = tt
IsGood-Pointwise (suc n) [] ys h good = absurd h
IsGood-Pointwise (suc n) (x ∷ xs) [] h good = absurd h
IsGood-Pointwise (suc n) (x ∷ xs) (y ∷ ys) h good =
    let same = h.0.0.name in
    (
      (λ e. good.0 (sym same ∙ e)),
      h.0.1 good.1,
      subst (λ k. IsAbsent k (entries n ys)) (sym same)
          (IsAbsent-Pointwise x.app_name n xs ys h.1 good.2),
      IsGood-Pointwise n xs ys h.1 good.3,
    )

-- A loop that keeps the programs keeps the invariant.
pub Pointwise-IsValid :
    (s : Server) (slots' : List Process) (log' : Log)
    → IsValid s
    → Pointwise Keeps s.process_count s.slots slots'
    → IsValid (record s { slots = slots'; log = log' })
Pointwise-IsValid s slots' log' valid h = record {
  sized = length-Pointwise Keeps s.process_count s.slots slots' h ∙ valid.sized;
  counted = valid.counted;
  numbered = IsNumbered-Pointwise 0 s.process_count s.slots slots' h valid.numbered;
  good = IsGood-Pointwise s.process_count s.slots slots' h valid.good;
}

pub Pointwise-refl :
    (R : Process → Process → Type 0)
    → ((p : Process) → R p p)
    → (n : ℕ) (xs : List Process) → n ≤ length xs
    → Pointwise R n xs xs
Pointwise-refl R r zero xs h = refl
Pointwise-refl R r (suc n) [] h = absurd (omega arith)
Pointwise-refl R r (suc n) (x ∷ xs) h = (r x, Pointwise-refl R r n xs (omega arith))
