-- ===== src/StatusTable/Shape.antt =====
-- How wide the rules of the table are.
use kb_pm.Prelude.{
  ℕ, zero, suc, ◌+◌, ◌≡◌, ◌∙◌, refl, ap, sym, subst, false, List, [], ◌∷◌, ◌++◌, append_assoc, ◌==◌,
  arith,
}
use kb_pm.CString.{Str}
use kb_pm.StatusTable.{
  drawn, print_ch, repeat, rule_from, print_top_line, print_mid_line, print_bot_line, newline,
  left_top, top_cross, right_top, left_cross, middle_cross, right_cross, left_bottom, bottom_cross,
  right_bottom, horizontal_line, vertical_line,
}
use kb_pm.StatusTable.Screen.{
  showing, line_widths, next_mode, Takes, Takes-append, Takes-nothing, Draws, Draws-line,
}

-- A byte of the line drawing set takes one place, wherever it stands.
print_ch-Takes : (c : ℕ) → (c == 0x1b ≡ false) → (c == 0x0a ≡ false) → Takes 1 (print_ch (drawn c))
unfolding print_ch line_widths next_mode
print_ch-Takes c plain inside width rest =
    let shown : line_widths showing width (print_ch (drawn c) ++ rest)
        ≡ line_widths showing (suc width) rest =
      rw inside (rw plain) in
    shown ∙ ap (λ w. line_widths showing w rest) (omega arith)

pub Takes-eq : (n k : ℕ) (s : Str) → n ≡ k → Takes n s → Takes k s
Takes-eq n k s e h = subst (λ j. Takes j s) e h

pub repeat-Takes : (n : ℕ) (s : Str) → Takes 1 s → Takes n (repeat n s)
unfolding repeat
repeat-Takes zero s h = Takes-nothing
repeat-Takes (suc n) s h =
    Takes-eq (1 + n) (suc n) (repeat (suc n) s) (omega arith)
      (Takes-append 1 n s (repeat n s) h (repeat-Takes n s h))

line-Takes : Takes 1 (print_ch horizontal_line)
line-Takes = print_ch-Takes 0x71 refl refl

pub bar-Takes : Takes 1 (print_ch vertical_line)
bar-Takes = print_ch-Takes 0x78 refl refl

-- The places that columns take, each with the bar behind it.
abbrev pub span : List ℕ → ℕ
span [] = 0
span (w ∷ widths) = w + 1 + span widths

rule_from-Takes :
    (cross end : Str) (widths : List ℕ)
    → Takes 1 (print_ch cross)
    → Takes 1 (print_ch end)
    → Takes (span widths) (rule_from cross end widths)
unfolding rule_from
rule_from-Takes cross end [] hc he = Takes-nothing
rule_from-Takes cross end (w ∷ []) hc he =
    Takes-eq (w + 1) (w + 1 + 0) (rule_from cross end (w ∷ [])) (omega arith) (
      Takes-append w 1 (repeat w (print_ch horizontal_line)) (print_ch end)
        (repeat-Takes w (print_ch horizontal_line) line-Takes) he)
rule_from-Takes cross end (w ∷ v ∷ widths) hc he =
    Takes-eq (w + (1 + span (v ∷ widths))) (span (w ∷ v ∷ widths))
      (rule_from cross end (w ∷ v ∷ widths)) (omega arith)
      (Takes-append w (1 + span (v ∷ widths)) (repeat w (print_ch horizontal_line)) _
        (repeat-Takes w (print_ch horizontal_line) line-Takes)
        (Takes-append 1 (span (v ∷ widths)) (print_ch cross) (rule_from cross end (v ∷ widths)) hc
          (rule_from-Takes cross end (v ∷ widths) hc he)))

-- A line with a first character and what follows.
pub framed-Draws :
    (n : ℕ) (first body : Str)
    → Takes 1 first
    → Takes n body
    → Draws 1 (1 + n) (first ++ (body ++ newline))
framed-Draws n first body hf hb rest =
    ap (λ s. line_widths showing 0 (s ++ rest)) (sym (append_assoc first body newline))
    ∙ Draws-line (1 + n) (first ++ body) (Takes-append 1 n first body hf hb) rest

module _ (widths : List ℕ) where
  pub print_top_line-Draws : Draws 1 (1 + span widths) (print_top_line widths)
  unfolding print_top_line
  print_top_line-Draws =
      framed-Draws (span widths) (print_ch left_top) (rule_from top_cross right_top widths)
        (print_ch-Takes 0x6c refl refl)
        (rule_from-Takes top_cross right_top widths (print_ch-Takes 0x77 refl refl)
          (print_ch-Takes 0x6b refl refl))

  pub print_mid_line-Draws : Draws 1 (1 + span widths) (print_mid_line widths)
  unfolding print_mid_line
  print_mid_line-Draws =
      framed-Draws (span widths) (print_ch left_cross) (rule_from middle_cross right_cross widths)
        (print_ch-Takes 0x74 refl refl)
        (rule_from-Takes middle_cross right_cross widths (print_ch-Takes 0x6e refl refl)
          (print_ch-Takes 0x75 refl refl))

  pub print_bot_line-Draws : Draws 1 (1 + span widths) (print_bot_line widths)
  unfolding print_bot_line
  print_bot_line-Draws =
      framed-Draws (span widths) (print_ch left_bottom) (rule_from bottom_cross right_bottom widths)
        (print_ch-Takes 0x6d refl refl)
        (rule_from-Takes bottom_cross right_bottom widths (print_ch-Takes 0x76 refl refl)
          (print_ch-Takes 0x6a refl refl))
