-- ===== src/Utils.antt =====
-- src/utils.c
pub mod Digits
pub mod Split
use kb_pm.Prelude.{
  ℕ, zero, suc, ◌+◌, Bool, true, false, List, [], ◌∷◌, ◌++◌, ◌&&◌, ◌||◌, ◌==◌, if◌then◌else◌,
  Outcome, done, undefined, Fault, ◌>>=◌, length,
}
use kb_pm.CString.{Str, is_digit, strcpy}
use kb_pm.System.{Log}

-- Every byte is a digit; so is every byte of the empty string.
unfoldable pub is_number : Str → Bool
is_number [] = true
is_number (c ∷ s) = is_digit c && is_number s

unfoldable pub is_delimiter : Str → ℕ → Bool
is_delimiter [] c = false
is_delimiter (d ∷ spl) c = c == d || is_delimiter spl c

-- A token is closed; strtok leaves out empty ones.
abbrev pub close_token : Str → List Str → List Str
close_token [] rest = rest
close_token (c ∷ token) rest = (c ∷ token) ∷ rest

-- What calls of `strtok` find until it answers null: `token` has been read so far.
unfoldable pub strtok_all : Str → Str → Str → List Str
strtok_all spl token [] = close_token token []
strtok_all spl token (c ∷ s) =
    let ended = close_token token (strtok_all spl [] s) in
    let longer = strtok_all spl (token ++ c ∷ []) s in if is_delimiter spl c then ended else longer

-- `strcpy(dst[n++], result)` into an array of `room` strings of `size` bytes.
unfoldable pub copy_tokens : ℕ → ℕ → List Str → Outcome Log (List Str)
copy_tokens size room [] = done []
copy_tokens size zero (token ∷ tokens) = undefined Fault.out_of_bounds
copy_tokens size (suc room) (token ∷ tokens) = do
  copied ← strcpy size token
  rest ← copy_tokens size room tokens
  done (copied ∷ rest)

-- The strings of `dst`; their number is what the function returns.
unfoldable pub str_split : ℕ → ℕ → Str → Str → Outcome Log (List Str)
str_split size room str spl = copy_tokens size room (strtok_all spl [] str)
