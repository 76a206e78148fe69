-- ===== src/Praktikum/Single.antt =====
-- Praktikum3/tcp_examples/tcp_client.c: a client with one connection.
use ws25_np.Prelude.{Bool, true, false, ◌||◌, List, [], ◌∷◌, Option, none, some, if◌then◌else◌}
use ws25_np.Prelude.Int.{ℤ, pos, ltb_ℤ, ◌+ℤ◌}
use ws25_np.Prelude.Run.{M, ◌>>=◌, ◌>>◌, pure}
use ws25_np.Praktikum.{
  Process, sys_read, sys_write, emit, socket, connect, select, send, shutdown, recv, close,
}
use ws25_np.Praktikum.Streams.{Arrival, recv_result, recv_bytes}

-- What happens in one round: what the server sends, and what is typed, if anything; `sent` is what `send`
-- returns.
pub record Exchange : Type 0 where
  pub selected : ℤ
  pub received : Option Arrival
  pub typed : Option Arrival
  pub sent : ℤ

-- What the other calls return, and what arrives behind the end of the standard input.
pub record Connection : Type 0 where
  pub created : ℤ
  pub connected : ℤ
  pub shut : ℤ
  pub closed : ℤ
  pub remaining : List Arrival

module _ {S : Type 0} where
  -- What the server sends is written; whether it has closed the connection.
  unfoldable pub hear : ℤ → Arrival → M (Process S) Bool
  hear fd arrival = do
    len ← recv fd (recv_result arrival)
    if ltb_ℤ (pos 0) len then (do emit (sys_write (recv_bytes arrival)); pure false) else pure true

  -- What is typed is sent; whether the standard input has ended.
  unfoldable pub pass_on : ℤ → Arrival → (sent : ℤ) → M (Process S) Bool
  pass_on fd arrival sent = do
    emit (sys_read (pos 0) (recv_result arrival))
    if ltb_ℤ (pos 0) (recv_result arrival)
        then (do _ ← send fd (recv_bytes arrival) sent; pure false)
        else pure true

  unfoldable pub hear_if : ℤ → Option Arrival → M (Process S) Bool
  unfolding hear
  hear_if fd none = pure false
  hear_if fd (some arrival) = hear fd arrival

  unfoldable pub pass_on_if : ℤ → Option Arrival → (sent : ℤ) → M (Process S) Bool
  unfolding pass_on
  pass_on_if fd none sent = pure false
  pass_on_if fd (some arrival) sent = pass_on fd arrival sent

  -- The first loop, for as many rounds as there are exchanges: behind it, whether the server has closed the
  -- connection.
  unfoldable pub converse : ℤ → List Exchange → M (Process S) (Option Bool)
  unfolding hear_if pass_on_if
  converse fd [] = pure none
  converse fd (x ∷ exchanges) = do
    _ ← select (fd +ℤ pos 1) (fd ∷ pos 0 ∷ []) x.selected
    server_closed ← hear_if fd x.received
    stdin_closed ← pass_on_if fd x.typed x.sent
    let onward = converse fd exchanges
    if server_closed || stdin_closed then pure (some server_closed) else onward

  -- The second loop reads what is left: whether the server has closed the connection.
  unfoldable pub drain : ℤ → List Arrival → M (Process S) Bool
  unfolding hear
  drain fd [] = pure false
  drain fd (arrival ∷ arrivals) = do
    server_closed ← hear fd arrival
    let onward = drain fd arrivals
    if server_closed then pure true else onward

  -- Behind the first loop; whether the program has ended.
  unfoldable pub finish : ℤ → Connection → Option Bool → M (Process S) Bool
  unfolding drain
  finish fd c none = pure false
  finish fd c (some true) = do close fd c.closed; pure true
  finish fd c (some false) = do
    _ ← shutdown fd c.shut
    server_closed ← drain fd c.remaining
    if server_closed then (do close fd c.closed; pure true) else pure false

  -- `main` with a valid address.
  unfoldable pub single_main : Connection → List Exchange → M (Process S) Bool
  unfolding converse finish
  single_main c exchanges = do
    fd ← socket c.created
    connect fd c.connected
    ended ← converse fd exchanges
    finish fd c ended
