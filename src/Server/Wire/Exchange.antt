-- ===== src/Server/Wire/Exchange.antt =====
-- What the service reads of the two messages of a client.
use kb_pm.Prelude.{
  ℕ, zero, suc, ◌-◌, ◌≡◌, ◌≢◌, ◌≤◌, ◌<◌, ◌∙◌, refl, ap, [], ◌∷◌, ◌++◌, arith, All, length, take-all,
  drop, replicate, replicate-append,
}
use kb_pm.CString.{Str}
use kb_pm.Proc.{str_buffer_size}
use kb_pm.Server.Wire.{c_string, read_into, clear, pointer_size, pong_and_receive_data}

-- The bytes of a text: none is zero.
abbrev pub IsText : Str → Type 0
IsText s = All (λ b. b ≢ 0) s

pub drop-replicate : (n k b : ℕ) → drop n (replicate k b) ≡ replicate (k - n) b
drop-replicate zero k b = ap (λ j. replicate j b) {x = k} {y = k - 0} (omega arith)
drop-replicate (suc n) zero b = ap (λ j. replicate j b) {x = 0} {y = 0 - suc n} (omega arith)
drop-replicate (suc n) (suc k) b = drop-replicate n k b ∙ ap (λ j. replicate j b) (omega arith)

pub c_string-text : (s : Str) (k : ℕ) → IsText s → 0 < k → c_string (s ++ replicate k 0) ≡ s
unfolding c_string
c_string-text [] zero h lt = absurd (omega arith)
c_string-text [] (suc k) h lt = refl
c_string-text (c ∷ s) k h lt = ground (arith, c_string-text s k h.1 lt)

-- A message goes into a buffer of zeros.
read_into-zeros :
    (s : Str) (n : ℕ)
    → length s ≤ str_buffer_size
    → read_into (replicate n 0) s ≡ s ++ replicate (n - length s) 0
unfolding read_into
read_into-zeros s n h =
    rw (take-all str_buffer_size s h) (ap (λ r. s ++ r) (drop-replicate (length s) n 0))

pub drop-short :
    (n : ℕ) (s : Str) (k : ℕ)
    → length s ≤ n
    → drop n (s ++ replicate k 0) ≡ replicate (k - (n - length s)) 0
drop-short n [] k h = drop-replicate n k 0 ∙ ap (λ j. replicate j 0) (omega arith)
drop-short zero (c ∷ s) k h = absurd (omega arith)
drop-short (suc n) (c ∷ s) k h =
    drop-short n s k (omega arith) ∙ ap (λ j. replicate j 0) (omega arith)

-- The eight bytes that are cleared are all that a short first message has left.
clear-short :
    (s : Str) (n : ℕ)
    → length s ≤ pointer_size
    → pointer_size ≤ n
    → clear pointer_size (s ++ replicate (n - length s) 0) ≡ replicate n 0
unfolding clear
clear-short s n h big =
    ap (λ r. replicate pointer_size 0 ++ r) (drop-short pointer_size s (n - length s) h)
    ∙ replicate-append pointer_size ((n - length s) - (pointer_size - length s)) 0
    ∙ ap (λ j. replicate j 0) (omega arith)

-- A client that writes to a cleared buffer a command of at most eight bytes and then, after the
-- pong, a message of at most 512 bytes is read exactly: the service sees the command, and then
-- the message, though only eight bytes are cleared in between.
pub exchange-exact :
    (first second : Str) (n : ℕ)
    → IsText first
    → IsText second
    → length first ≤ pointer_size
    → length second ≤ str_buffer_size
    → str_buffer_size < n
    → (c_string (read_into (replicate n 0) first) ≡ first)
      × (c_string (pong_and_receive_data (read_into (replicate n 0) first) second) ≡ second)
unfolding pong_and_receive_data
exchange-exact first second n text1 text2 short fits big =
    let first_read = read_into-zeros first n (omega (arith, short)) in
    (
      rw first_read (c_string-text first (n - length first) text1 (omega (arith, short, big))),
      rw first_read (
          rw (clear-short first n short (omega (arith, big))) (
            rw (read_into-zeros second n fits)
              (c_string-text second (n - length second) text2 (omega (arith, fits, big))))),
    )
