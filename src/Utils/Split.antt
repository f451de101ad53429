-- ===== src/Utils/Split.antt =====
-- The parts of a path.
use kb_pm.Prelude.{
  ℕ, zero, suc, ◌≡◌, ◌≢◌, ◌∙◌, refl, ap, ap₂, sym, true, false, List, [], ◌∷◌, ◌++◌, append_assoc,
  append-nil, arith, All, Bool-cases, inl, inr, done, Outcome, >>=-eq-done,
}
use kb_pm.CString.{Str, strcpy}
use kb_pm.System.{Log}
use kb_pm.Utils.{is_delimiter, close_token, strtok_all, copy_tokens, str_split}

abbrev pub IsPlain : Str → Str → Type 0
IsPlain spl s = All (λ c. is_delimiter spl c ≡ false) s

strtok_all-plain :
    (spl token s : Str) → IsPlain spl s → strtok_all spl token s ≡ close_token (token ++ s) []
unfolding strtok_all
strtok_all-plain spl token [] plain = ap (λ l. close_token l []) (sym (append-nil token))
strtok_all-plain spl token (c ∷ s) plain =
    rw plain.0 (strtok_all-plain spl (token ++ c ∷ []) s plain.1)
    ∙ ap (λ l. close_token l []) (append_assoc token (c ∷ []) s)

close_token-full : (s : Str) → s ≢ [] → close_token s [] ≡ s ∷ []
close_token-full [] h = absurd (h refl)
close_token-full (c ∷ s) h = refl

close_token-append :
    (token : Str) (first last : List Str)
    → close_token token (first ++ last) ≡ close_token token first ++ last
close_token-append [] first last = refl
close_token-append (c ∷ token) first last = refl

strcpy-copy : (size : ℕ) (s a : Str) → ◌≡◌ {A = Outcome Log Str} (strcpy size s) (done a) → a ≡ s
unfolding strcpy
strcpy-copy size s a h = ground arith

-- Whatever stands before the last delimiter, what follows it is the last token.
strtok_all-last :
    (spl token front : Str) (d : ℕ) (name : Str)
    → is_delimiter spl d ≡ true
    → IsPlain spl name
    → name ≢ []
    → (first : List Str) × (strtok_all spl token (front ++ d ∷ name) ≡ first ++ name ∷ [])
unfolding strtok_all
strtok_all-last spl token [] d name cut plain named = (
  close_token token [],
  rw cut (
      ap (close_token token) (strtok_all-plain spl [] name plain ∙ close_token-full name named)
      ∙ close_token-append token [] (name ∷ [])),
)
strtok_all-last spl token (c ∷ front) d name cut plain named =
    elim (Bool-cases (is_delimiter spl c)) [
      | inl ends ↦
          let (first, e) = strtok_all-last spl [] front d name cut plain named in
          (
            close_token token first,
            rw ends (ap (close_token token) e ∙ close_token-append token first (name ∷ [])),
          )
      | inr goes_on ↦
          let (first, e) = strtok_all-last spl (token ++ c ∷ []) front d name cut plain named in
          (first, rw goes_on e)
    ]

copy_tokens-done :
    (size room : ℕ) (tokens copied : List Str)
    → copy_tokens size room tokens ≡ done copied
    → copied ≡ tokens
unfolding copy_tokens
copy_tokens-done size room [] copied h = ground arith
copy_tokens-done size zero (t ∷ tokens) copied h = absurd (cc)
copy_tokens-done size (suc room) (t ∷ tokens) copied h =
    let (a, e, h1) = >>=-eq-done (strcpy size t) _ h in
    let (b, e1, h2) = >>=-eq-done (copy_tokens size room tokens) _ h1 in
    let same : a ≡ t = strcpy-copy size t a e in
    let ended : a ∷ b ≡ copied = ground arith in
    sym ended ∙ ap₂ ◌∷◌ same (copy_tokens-done size room tokens b e1)

-- If a path is split at all, its last string is what follows its last delimiter: the name of a
-- program is that of its file.
pub str_split-last :
    (size room : ℕ) (front : Str) (d : ℕ) (name spl : Str) (tokens : List Str)
    → is_delimiter spl d ≡ true
    → IsPlain spl name
    → name ≢ []
    → str_split size room (front ++ d ∷ name) spl ≡ done tokens
    → (first : List Str) × (tokens ≡ first ++ name ∷ [])
unfolding str_split
str_split-last size room front d name spl tokens cut plain named h =
    let (first, e) = strtok_all-last spl [] front d name cut plain named in
    (first, copy_tokens-done size room (strtok_all spl [] (front ++ d ∷ name)) tokens h ∙ e)
