-- ===== src/StatusTable/Screen.antt =====
-- How a terminal shows what is printed: which bytes take a place on the screen, and where a line
-- ends. This does not depend on the code that prints.
use kb_pm.Prelude.{
  ℕ, suc, ◌+◌, ◌≡◌, ◌∙◌, refl, ap, false, List, [], ◌∷◌, ◌++◌, append_assoc, ◌==◌, if◌then◌else◌,
  arith, All, length, replicate, replicate-append, sym, subst,
}
use kb_pm.CString.{Str}

-- Between two bytes, the terminal shows what comes, or it reads an escape sequence: the byte behind
-- ESC, the rest of a sequence `ESC [ ... m`, or the last byte of `ESC ( c`.
pub data Mode : Type 0 where
  showing escape style charset : Mode

unfoldable pub next_mode : Mode → ℕ → Mode
next_mode showing c = if c == 0x1b then escape else showing
next_mode escape c = if c == b'[' then style else if c == b'(' then charset else showing
next_mode style c = if c == b'm' then showing else style
next_mode charset c = showing

-- The widths of the lines that are completed: `width` places are taken on the current line.
unfoldable pub line_widths : Mode → ℕ → Str → List ℕ
line_widths showing width [] = []
line_widths escape width [] = []
line_widths style width [] = []
line_widths charset width [] = []
line_widths showing width (c ∷ s) =
    let ended = width ∷ line_widths showing 0 s in
    let shown = line_widths (next_mode showing c) (if c == 0x1b then width else suc width) s in
    if c == 0x0a then ended else shown
line_widths escape width (c ∷ s) = line_widths (next_mode escape c) width s
line_widths style width (c ∷ s) = line_widths (next_mode style c) width s
line_widths charset width (c ∷ s) = line_widths (next_mode charset c) width s

-- A text that holds neither an escape nor the end of a line.
abbrev pub IsShown : Str → Type 0
IsShown s = All (λ c. (c == 0x1b ≡ false) × (c == 0x0a ≡ false)) s

-- Printing `s` takes `n` places on the current line.
abbrev pub Takes : ℕ → Str → Type 0
Takes n s =
    (width : ℕ) (rest : Str)
    → line_widths showing width (s ++ rest) ≡ line_widths showing (width + n) rest

pub Takes-append : (n k : ℕ) (s t : Str) → Takes n s → Takes k t → Takes (n + k) (s ++ t)
Takes-append n k s t hs ht width rest =
    ap (line_widths showing width) (append_assoc s t rest)
    ∙ hs width (t ++ rest)
    ∙ ht (width + n) rest
    ∙ ap (λ w. line_widths showing w rest) (omega arith)

pub Takes-nothing : Takes 0 []
Takes-nothing width rest = ap (λ w. line_widths showing w rest) (omega arith)

pub Takes-text : (s : Str) → IsShown s → Takes (length s) s
unfolding line_widths next_mode
Takes-text [] h width rest = ap (λ w. line_widths showing w rest) (omega arith)
Takes-text (c ∷ s) h width rest =
    let first : line_widths showing width (c ∷ (s ++ rest))
        ≡ line_widths showing (suc width) (s ++ rest) =
      rw h.0.1 (rw h.0.0) in
    first ∙ Takes-text s h.1 (suc width) rest ∙ ap (λ w. line_widths showing w rest) (omega arith)

-- Printing `s` on an empty line completes `k` lines of `n` places each.
abbrev pub Draws : ℕ → ℕ → Str → Type 0
Draws k n s =
    (rest : Str) → line_widths showing 0 (s ++ rest) ≡ replicate k n ++ line_widths showing 0 rest

pub Draws-nothing : (n : ℕ) → Draws 0 n []
Draws-nothing n rest = refl

pub Draws-append : (k j n : ℕ) (s t : Str) → Draws k n s → Draws j n t → Draws (k + j) n (s ++ t)
Draws-append k j n s t hs ht rest =
    ap (line_widths showing 0) (append_assoc s t rest)
    ∙ hs (t ++ rest)
    ∙ ap (λ l. replicate k n ++ l) (ht rest)
    ∙ sym (append_assoc (replicate k n) (replicate j n) (line_widths showing 0 rest))
    ∙ ap (λ l. l ++ line_widths showing 0 rest) (replicate-append k j n)

-- A line is what takes its places, and the end of the line.
pub Draws-line : (n : ℕ) (s : Str) → Takes n s → Draws 1 n (s ++ 0x0a ∷ [])
unfolding line_widths
Draws-line n s h rest =
    ap (line_widths showing 0) (append_assoc s (0x0a ∷ []) rest)
    ∙ h 0 (0x0a ∷ rest)
    ∙ ap (λ w. w ∷ line_widths showing 0 rest) (omega arith)

pub Draws-eq : (k j n : ℕ) (s : Str) → k ≡ j → Draws k n s → Draws j n s
Draws-eq k j n s e h = subst (λ i. Draws i n s) e h

pub IsShown-append : (s t : Str) → IsShown s → IsShown t → IsShown (s ++ t)
IsShown-append [] t hs ht = ht
IsShown-append (c ∷ s) t hs ht = (hs.0, IsShown-append s t hs.1 ht)
