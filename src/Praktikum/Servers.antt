-- ===== src/Praktikum/Servers.antt =====
-- Praktikum3/tcp_examples/tcp_discard_server.c and tcp_daytime_server.c: servers with twenty slots.
use ws25_np.Prelude.{ℕ, Bool, true, false, not, ◌&&◌, List, [], ◌∷◌, if◌then◌else◌, replicate}
use ws25_np.Prelude.Int.{ℤ, pos, negsuc, ltb_ℤ, ◌==ℤ◌, ◌+ℤ◌, ◌-ℤ◌}
use ws25_np.Prelude.Run.{M, ◌>>=◌, ◌>>◌, pure, skip, get}
use ws25_np.Memory.{Bytes}
use ws25_np.Praktikum.{
  Process, update, socket, bind, listen, set_sock_opt, select, accept, send, shutdown, recv, close,
}

abbrev pub max_fds : ℕ
max_fds = 20

pub record Connections : Type 0 where
  pub connection_fds : List ℤ
  pub count_connections : ℤ

-- What the calls of one round of the loop return; `ready` is the set behind `select`.
pub record Round : Type 0 where
  pub selected : ℤ
  pub ready : ℤ → Bool
  pub accepted : ℤ
  pub sent : ℤ
  pub shut : ℤ
  pub received : ℤ → ℤ
  pub closed : ℤ → ℤ

abbrev pub P : Type 0
P = Process Connections

-- The members of the set for `select` behind the parent's, and the largest of them all.
abbrev pub watched_fds : List ℤ → List ℤ
watched_fds [] = []
watched_fds (fd ∷ fds) = if ltb_ℤ fd (pos 0) then watched_fds fds else fd ∷ watched_fds fds

abbrev pub max_fd : ℤ → List ℤ → ℤ
max_fd m [] = m
max_fd m (fd ∷ fds) = max_fd (if ltb_ℤ fd (pos 0) then m else if ltb_ℤ m fd then fd else m) fds

module _ (greet : Round → ℤ → M P (Unit {0})) (parent : ℤ) (r : Round) where
  -- A new connection into the first free slot.
  unfoldable pub accept_slot : List ℤ → M P (List ℤ)
  accept_slot [] = pure []
  accept_slot (fd ∷ fds) =
      if fd ==ℤ negsuc 0
      then (do
        new ← accept parent r.accepted
        update (λ c. record c { count_connections = c.count_connections +ℤ pos 1 })
        greet r new
        pure (new ∷ fds))
      else (do rest ← accept_slot fds; pure (fd ∷ rest))

  unfoldable pub new_connection : M P (Unit {0})
  unfolding accept_slot
  new_connection = do
    w ← get
    if ltb_ℤ w.state.count_connections (pos max_fds)
        then (do
          fds ← accept_slot w.state.connection_fds
          update (λ c. record c { connection_fds = fds }))
        else (do fd ← accept parent r.accepted; close fd (r.closed fd))

  -- What the clients send, or that they have closed their connections.
  unfoldable pub recv_slots : List ℤ → M P (List ℤ)
  recv_slots [] = pure []
  recv_slots (fd ∷ fds) =
      if not (fd ==ℤ negsuc 0) && r.ready fd
      then (do
        n ← recv fd (r.received fd)
        if n ==ℤ pos 0
            then (do
              close fd (r.closed fd)
              update (λ c. record c { count_connections = c.count_connections -ℤ pos 1 })
              rest ← recv_slots fds
              pure (negsuc 0 ∷ rest))
            else (do rest ← recv_slots fds; pure (fd ∷ rest)))
      else (do rest ← recv_slots fds; pure (fd ∷ rest))

  -- The body of the loop.
  unfoldable pub round : M P (Unit {0})
  unfolding new_connection recv_slots
  round = do
    w ← get
    _ ←
        select (max_fd parent w.state.connection_fds +ℤ pos 1)
          (parent ∷ watched_fds w.state.connection_fds) r.selected
    if r.ready parent then new_connection else skip
    w ← get
    fds ← recv_slots w.state.connection_fds
    update (λ c. record c { connection_fds = fds })

-- What the calls before the loop return.
pub record Setup : Type 0 where
  pub created : ℤ
  pub option_set : ℤ
  pub converted : ℤ
  pub bound : ℤ
  pub listening : ℤ

module _ (greet : Round → ℤ → M P (Unit {0})) where
  -- The loop, for as many rounds as there are results.
  unfoldable pub serve : ℤ → List Round → M P (Unit {0})
  unfolding round
  serve parent [] = skip
  serve parent (r ∷ rounds) = do round greet parent r; serve parent rounds

  -- `main` with enough arguments: whether it comes to the loop, and the loop.
  unfoldable pub server_main : Setup → List Round → M P Bool
  unfolding serve
  server_main s rounds = do
    update
        (λ c. record { connection_fds = replicate max_fds (negsuc 0); count_connections = pos 0 })
    parent ← socket s.created
    _ ← set_sock_opt parent true s.option_set
    if not (s.converted ==ℤ pos 1) then pure false else do
      _ ← bind parent true s.bound
      listen parent s.listening
      serve parent rounds
      pure true

unfoldable pub discard_main : Setup → List Round → M P Bool
unfolding server_main
discard_main s rounds = server_main (λ r fd. skip) s rounds

-- The time is sent with its NUL, and nothing else.
unfoldable pub greet_with_time : Bytes → Round → ℤ → M P (Unit {0})
greet_with_time ascii_time r fd = do _ ← send fd ascii_time r.sent; _ ← shutdown fd r.shut; skip

unfoldable pub daytime_main : Bytes → Setup → List Round → M P Bool
unfolding server_main greet_with_time
daytime_main ascii_time s rounds = server_main (greet_with_time ascii_time) s rounds
