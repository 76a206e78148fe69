-- ===== src/Praktikum/Clients.antt =====
-- Praktikum3/tcp_examples/tcp_client_with_dns.c: a client with a connection to each address of a name.
pub mod Leaks
use ws25_np.Prelude.{
  ℕ, suc, ◌+◌, Bool, true, false, not, List, [], ◌∷◌, if◌then◌else◌, length, ◌==◌,
}
use ws25_np.Prelude.Int.{ℤ, pos, negsuc, ltb_ℤ, ◌==ℤ◌, ◌+ℤ◌}
use ws25_np.Prelude.Run.{M, ◌>>=◌, ◌>>◌, pure, skip, get}
use ws25_np.Memory.{Bytes}
use ws25_np.Praktikum.{
  Process, sys_read, sys_write, emit, update, socket, connect, select, send, shutdown, recv, close,
}
use ws25_np.Praktikum.Streams.{Arrival, recv_result, recv_bytes}

pub record Sockets : Type 0 where
  pub sockets : List ℤ
  pub stdin_open : Bool

abbrev pub P : Type 0
P = Process Sockets

-- What `socket` and `connect` return for an address.
pub record Address : Type 0 where
  pub created : ℤ
  pub connected : ℤ

-- What the calls of one round return; `ready` is the set behind `select`.
pub record Round : Type 0 where
  pub selected : ℤ
  pub ready : ℤ → Bool
  pub typed : Arrival
  pub sent : ℤ → ℤ
  pub shut : ℤ → ℤ
  pub received : ℤ → Arrival
  pub closed : ℤ → ℤ

-- `getaddrinfo` returns `ret`, and fills in the addresses.
abbrev pub get_addresses_port : (ret : ℤ) → List Address → ℕ
get_addresses_port ret addresses = if ret ==ℤ pos 0 then length addresses else 0

unfoldable pub create_sockets : List Address → M P (List ℤ)
create_sockets [] = pure []
create_sockets (address ∷ addresses) = do
  fd ← socket address.created
  connect fd address.connected
  fds ← create_sockets addresses
  pure (fd ∷ fds)

-- The sockets that are not closed.
abbrev pub open_sockets : List ℤ → List ℤ
open_sockets [] = []
open_sockets (fd ∷ fds) = if ltb_ℤ (pos 0) fd then fd ∷ open_sockets fds else open_sockets fds

abbrev pub max_fd : ℤ → List ℤ → ℤ
max_fd m [] = m
max_fd m (fd ∷ fds) = max_fd (if ltb_ℤ m fd then fd else m) fds

-- A loop over the sockets that are not closed.
unfoldable pub each_open : (ℤ → M P (Unit {0})) → List ℤ → M P (Unit {0})
each_open f [] = skip
each_open f (fd ∷ fds) = do (if ltb_ℤ (pos 0) fd then f fd else skip); each_open f fds

module _ (r : Round) where
  -- The standard input is readable: what was typed goes to every server, or its end.
  unfoldable pub on_stdin : M P (Unit {0})
  unfolding each_open
  on_stdin = do
    emit (sys_read (pos 0) (recv_result r.typed))
    w ← get
    if ltb_ℤ (pos 0) (recv_result r.typed)
        then each_open (λ fd. do _ ← send fd (recv_bytes r.typed) (r.sent fd); skip) w.state.sockets
        else (do
          update (λ c. record c { stdin_open = false })
          each_open (λ fd. do _ ← shutdown fd (r.shut fd); skip) w.state.sockets)

  -- What the servers send, or that they have closed their connections.
  unfoldable pub recv_sockets : List ℤ → M P (List ℤ)
  recv_sockets [] = pure []
  recv_sockets (fd ∷ fds) =
      if ltb_ℤ (pos 0) fd
      then (if r.ready fd
          then (do
            len ← recv fd (recv_result (r.received fd))
            if ltb_ℤ (pos 0) len
                then (do
                  emit (sys_write (recv_bytes (r.received fd)))
                  rest ← recv_sockets fds
                  pure (fd ∷ rest))
                else (do close fd (r.closed fd); rest ← recv_sockets fds; pure (pos 0 ∷ rest)))
          else (do rest ← recv_sockets fds; pure (fd ∷ rest)))
      else (do rest ← recv_sockets fds; pure (fd ∷ rest))

  -- The body of the loop: whether it goes on.
  unfoldable pub round : (nfds : ℤ) → M P Bool
  unfolding on_stdin recv_sockets
  round nfds = do
    w ← get
    if length (open_sockets w.state.sockets) == 0 then pure false else do
      _ ←
          select nfds
            (if w.state.stdin_open
              then pos 0 ∷ open_sockets w.state.sockets
              else open_sockets w.state.sockets)
            r.selected
      if r.ready (pos 0) then on_stdin else skip
      w ← get
      fds ← recv_sockets w.state.sockets
      update (λ c. record c { sockets = fds })
      pure true

-- The loop, for as many rounds as there are results: whether it has ended.
unfoldable pub talk : (nfds : ℤ) → List Round → M P Bool
unfolding round
talk nfds [] = pure false
talk nfds (r ∷ rounds) = do more ← round r nfds; if more then talk nfds rounds else pure true

-- `main` with enough arguments: whether it has ended.
unfoldable pub client_main : (ret : ℤ) → List Address → List Round → M P Bool
unfolding create_sockets talk
client_main ret addresses rounds = if get_addresses_port ret addresses == 0 then pure true else do
  fds ← create_sockets addresses
  update (λ c. record { sockets = fds; stdin_open = true })
  talk (max_fd (pos 0) fds +ℤ pos 1) rounds
