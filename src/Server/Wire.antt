-- ===== src/Server/Wire.antt =====
-- The buffer into which the service reads what a client writes: an array of bytes.
pub mod Exchange
use kb_pm.Prelude.{ℕ, List, [], ◌∷◌, ◌++◌, ◌==◌, if◌then◌else◌, length, take, drop, replicate}
use kb_pm.CString.{Str}
use kb_pm.Proc.{str_buffer_size}

-- The string that starts at the first byte.
unfoldable pub c_string : List ℕ → Str
c_string [] = []
c_string (b ∷ buffer) = let rest = c_string buffer in if b == 0 then [] else b ∷ rest

-- `read(client_sockfd, buffer, STR_BUFFER_SIZE)`: at most that many bytes of the message, and no
-- zero behind them.
unfoldable pub read_into : List ℕ → Str → List ℕ
read_into buffer message = let got = take str_buffer_size message in got ++ drop (length got) buffer

-- `memset(buffer, '\0', n)`
unfoldable pub clear : ℕ → List ℕ → List ℕ
clear n buffer = replicate n 0 ++ drop n buffer

-- `sizeof(buffer)` of a parameter is the size of a pointer.
abbrev pub pointer_size : ℕ
pointer_size = 8

-- The buffer after `pong_and_receive_data`.
unfoldable pub pong_and_receive_data : List ℕ → Str → List ℕ
pong_and_receive_data buffer message = read_into (clear pointer_size buffer) message
