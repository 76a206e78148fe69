-- ===== src/Praktikum/Streams.antt =====
-- Praktikum3/tcp_examples/tcp_echo_server_thread.c and tcp_echo_server_thread_chargen.c: what the thread
-- of a client does.
use mathlib.Core.Option
use ws25_np.Prelude.{
  ℕ, zero, suc, ◌+◌, ◌%◌, ◌^◌, Bool, true, false, List, [], ◌∷◌, Option, none, some, if◌then◌else◌,
  ltb, leb, length, drop,
}
use ws25_np.Prelude.Int.{ℤ, pos, negsuc, pos_part, ltb_ℤ, ◌+ℤ◌}
use ws25_np.Prelude.Run.{M, ◌>>=◌, ◌>>◌, pure, undefined, access}
use ws25_np.Memory.{Bytes}
use ws25_np.Praktikum.{Process, select, recv, send, close}

-- What `recv` delivers: bytes, where none mean the end of the stream, or -1.
pub data Arrival : Type 0 where
  arrives : Bytes → Arrival
  fails : Arrival

abbrev pub recv_result : Arrival → ℤ
recv_result (arrives bytes) = pos (length bytes)
recv_result fails = negsuc 0

abbrev pub recv_bytes : Arrival → Bytes
recv_bytes (arrives bytes) = bytes
recv_bytes fails = []

module _ {S : Type 0} (fd : ℤ) where
  -- The loop that sends a buffer; `taken` is what `send` returns when so many bytes are sent. A loop that
  -- has used up its rounds counts as undefined.
  unfoldable pub send_loop : (taken : ℕ → ℤ) → Bytes → (rounds : ℕ) → (sent : ℕ) → M (Process S) ℕ
  send_loop taken buf zero sent = undefined
  send_loop taken buf (suc rounds) sent = do
    n ← send fd (drop sent buf) (taken sent)
    let onward = send_loop taken buf rounds (sent + pos_part n)
    if ltb (sent + pos_part n) (length buf) then onward else pure (sent + pos_part n)

  -- `handle` of the echo server, for as long as there are arrivals: whether the connection has ended.
  unfoldable pub handle : (taken : Bytes → ℕ → ℤ) → (closed : ℤ) → List Arrival → M (Process S) Bool
  unfolding send_loop
  handle taken closed [] = pure false
  handle taken closed (arrival ∷ arrivals) = do
    n ← recv fd (recv_result arrival)
    if ltb_ℤ (pos 0) n
        then (do
          _ ←
              send_loop (taken (recv_bytes arrival)) (recv_bytes arrival)
                (length (recv_bytes arrival)) 0
          handle taken closed arrivals)
        else (do close fd closed; pure true)

abbrev pub line_length : ℕ
line_length = 72

-- `count` characters of a line from the position `i` on, and its end; `none` where `i + line_number`
-- overflows an `int`, which is undefined.
unfoldable pub characters : (count i line_number : ℕ) → Option Bytes
characters zero i line_number = some (13 ∷ 10 ∷ [])
characters (suc count) i line_number =
    let rest = characters count (suc i) line_number in
    if leb (2 ^ 31) (i + line_number)
    then none
    else Option.map (λ cs. ((i + line_number) % 95 + 32) ∷ cs) rest

-- What happens in one round of the character generator: the socket is readable, with the result of
-- `recv`, or not; it is writable or not.
pub record Turn : Type 0 where
  pub selected : ℤ
  pub readable : Option ℤ
  pub writable : Bool
  pub taken : ℕ → ℤ

module _ {S : Type 0} (fd : ℤ) where
  -- Whether the client has ended the connection.
  unfoldable pub ended : Option ℤ → M (Process S) Bool
  ended none = pure false
  ended (some result) = do n ← recv fd result; pure (if ltb_ℤ (pos 0) n then false else true)

  unfoldable pub send_line : (taken : ℕ → ℤ) → (line_number : ℕ) → M (Process S) ℕ
  unfolding characters send_loop
  send_line taken line_number = do
    buf ← access (characters line_length 0 line_number)
    send_loop fd taken buf (line_length + 2) 0

  -- `chargen_main`, for as long as there are rounds: whether the connection has ended.
  unfoldable pub chargen : (closed : ℤ) → List Turn → (line_number : ℕ) → M (Process S) Bool
  unfolding ended send_line
  chargen closed [] line_number = pure false
  chargen closed (t ∷ turns) line_number = do
    _ ← select (fd +ℤ pos 1) (fd ∷ []) t.selected
    over ← ended t.readable
    let onward = chargen closed turns
    if over
        then (do close fd closed; pure true)
        else if t.writable
        then (do _ ← send_line t.taken line_number; onward (line_number + 1))
        else onward line_number
