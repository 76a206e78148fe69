-- ===== src/Server.antt =====
-- client/src/server.c: the connections, the callbacks and `main` of the registration server.
pub mod Connect
pub mod Registration
pub mod Slots
use mathlib.Core.Option
use ws25_np.Prelude.{
  ℕ, zero, suc, ◌+◌, ◌%◌, ◌^◌, Bool, true, false, not, ◌||◌, Option, none, some, List, [], ◌∷◌,
  ◌++◌, ltb, ◌==◌, if◌then◌else◌, length, get_elem?, set, take,
}
use ws25_np.Prelude.Int.{ℤ, pos, negsuc, ◌==ℤ◌}
use ws25_np.Prelude.Run.{M, ◌>>=◌, ◌>>◌, pure, skip, undefined, get, access}
use ws25_np.System.{World, emit, update, shutdown, close}
use ws25_np.Memory.{Bytes, Endian, bytes16, bytes32, read_at, load16, load32, store16}
use ws25_np.Wire.{
  error_code_protocol_error, message_heartbeat_ack_type, message_registration_ack_type,
  message_registration_err_ack_type, message_peer_select_type,
}
use ws25_np.Protocol.{
  Slot, Callbacks, Handler, Buffer, Received, new_buffer, set_callback, no_callbacks, send_message,
  send_error_message, handle_tcp_message,
}
use ws25_np.Events
use ws25_np.Events.{Table, register_fd_callback, deregister_fd_callback, init_cblib}

abbrev pub connection_count : ℕ
connection_count = 2

-- `struct ConnectionInfo`, with the `fd` and the buffer of its `handle_message_params`. Of the array
-- `name` the first `name_len` bytes.
pub record Connection : Type 0 where
  pub registered : ℕ
  pub address : ℕ
  pub port : ℕ
  pub name_len : ℕ
  pub name : Bytes
  pub conn_send : ℕ
  pub fd : ℤ
  pub buffer : Buffer

-- The callbacks that the server registers, with their arguments.
pub data Callback : Type 0 where
  -- `on_acceptable`
  acceptable : Callback
  -- `handle_tcp_message` with the parameters of a connection.
  tcp_message : ℕ → Callback

pub record Server : Type 0 where
  pub socket_fd : ℤ
  pub connections : List Connection
  pub table : Table Callback

abbrev pub ServerM : Type 0
ServerM = M (World Server) (Unit {0})

unfoldable pub unused_connection : Connection
unused_connection = record {
  registered = 0;
  address = 0;
  port = 0;
  name_len = 0;
  name = [];
  conn_send = 0;
  fd = negsuc 0;
  buffer = new_buffer (2 ^ 16);
}

-- The index of the connection that a loop over the array finds.
unfoldable pub get_conn : ℤ → List Connection → Option ℕ
get_conn fd [] = none
get_conn fd (c ∷ connections) =
    if c.fd ==ℤ fd then some 0 else Option.map suc (get_conn fd connections)

pub with_connection : ℕ → Connection → Server → Server
with_connection i c s = record s { connections = set s.connections i c }

-- The connection of a descriptor, if it has one.
pub connection_of : ℤ → Server → Option (ℕ × Connection)
unfolding get_conn
connection_of fd s =
    Option.bind (get_conn fd s.connections)
      λ i. Option.map (λ c. (i, c)) (get_elem? s.connections i)

module _ (e : Endian) where
  -- `malloc(msg_size + 4)`; `msg->length` is a `uint16_t`.
  unfoldable pub peer_select_msg : Connection → ℕ → Bytes
  peer_select_msg conn start =
      bytes16 e message_peer_select_type
      ++ (bytes16 e ((8 + conn.name_len) % 2 ^ 16)
          ++ (bytes32 e conn.address
              ++ (bytes16 e conn.port ++ (bytes16 e start ++ take conn.name_len conn.name))))

  unfoldable pub connect_clients : ℕ → ℕ → ServerM
  unfolding peer_select_msg with_connection
  connect_clients i j = do
    w ← get
    a ← access (get_elem? w.app.connections i)
    b ← access (get_elem? w.app.connections j)
    if not (a.registered == 1) || not (b.registered == 1)
        then skip
        else if (a.conn_send == 1) || (b.conn_send == 1)
        then skip
        else do
          send_message e (peer_select_msg a 0) b.fd
          send_message e (peer_select_msg b 1) a.fd
          emit (shutdown a.fd)
          emit (shutdown b.fd)
          update (with_connection i (record a { conn_send = 1 }))
          update (with_connection j (record b { conn_send = 1 }))

  -- An answer with no content.
  abbrev pub answer : ℕ → Bytes
  answer type = bytes16 e type ++ bytes16 e 0

  abbrev pub equal_bytes : Bytes → Bytes → Bool
  equal_bytes [] [] = true
  equal_bytes [] (y ∷ ys) = false
  equal_bytes (x ∷ xs) [] = false
  equal_bytes (x ∷ xs) (y ∷ ys) = if x == y then equal_bytes xs ys else false

  -- The second and third test: the password is read only where it is as long as the name.
  pub wrong_password : Bytes → ℕ → ℕ → M (World Server) Bool
  wrong_password msg name_len pass_len = if not (name_len == pass_len) then pure true else do
    name ← access (read_at msg 14 name_len)
    password ← access (read_at msg (14 + name_len) name_len)
    pure (not (equal_bytes name password))

  -- The part of `on_message_registration` behind the two early returns. `MAX_NAME_LEN` is
  -- `1 << 16`.
  pub register_connection : ℕ → Connection → Handler Server
  unfolding with_connection connect_clients wrong_password
  register_connection i conn msg fd = do
    name_len ← access (load16 e msg 10)
    pass_len ← access (load16 e msg 12)
    let too_long = ltb (2 ^ 16) name_len
    rejected ← if too_long then pure true else wrong_password msg name_len pass_len
    if rejected then send_message e (answer message_registration_err_ack_type) fd else do
      address ← access (load32 e msg 4)
      port ← access (load16 e msg 8)
      name ← access (read_at msg 14 name_len)
      update (
          with_connection i (record conn {
            registered = 1;
            address = address;
            port = port;
            name_len = name_len;
            name = name;
          }))
      send_message e (answer message_registration_ack_type) fd
      connect_clients 0 1

  -- A connection that is registered already is left alone.
  pub register_found : Option (ℕ × Connection) → Handler Server
  unfolding register_connection
  register_found none msg fd = skip
  register_found (some (i, conn)) msg fd =
      if conn.registered == 1 then skip else register_connection i conn msg fd

  unfoldable pub on_message_registration : Handler Server
  unfolding connection_of register_found
  on_message_registration msg fd = do w ← get; register_found (connection_of fd w.app) msg fd

  pub close_found : Option (ℕ × Connection) → ℤ → ServerM
  unfolding with_connection
  close_found none fd = skip
  close_found (some (i, conn)) fd = do
    update (with_connection i (record conn { fd = negsuc 0; registered = 0; conn_send = 0 }))
    update (λ s. record s { table = deregister_fd_callback fd s.table })
    emit (close fd)

  unfoldable pub close_connection : ℤ → ServerM
  unfolding connection_of close_found
  close_connection fd = do w ← get; close_found (connection_of fd w.app) fd

  unfoldable pub on_tcp_closed : Handler Server
  unfolding close_connection
  on_tcp_closed args fd = close_connection fd

  unfoldable pub on_peer_select_ack : Handler Server
  unfolding close_connection
  on_peer_select_ack msg fd = close_connection fd

  unfoldable pub on_heartbeat_message : Handler Server
  on_heartbeat_message msg fd = do
    msg ← access (store16 e msg 0 message_heartbeat_ack_type)
    send_message e msg fd

  -- "Unsupported message type"
  abbrev pub unsupported_text : Bytes
  unsupported_text =
      b'U' ∷ b'n' ∷ b's' ∷ b'u' ∷ b'p' ∷ b'p' ∷ b'o' ∷ b'r' ∷ b't' ∷ b'e' ∷ b'd' ∷ b' ' ∷ b'm'
      ∷ b'e' ∷ b's' ∷ b's' ∷ b'a' ∷ b'g' ∷ b'e' ∷ b' ' ∷ b't' ∷ b'y' ∷ b'p' ∷ b'e' ∷ []

  unfoldable pub on_default : Handler Server
  on_default msg fd = send_error_message e error_code_protocol_error unsupported_text fd

  -- The connection that was looked for is used untested.
  pub accept_into : Option ℕ → ℤ → ServerM
  unfolding with_connection
  accept_into none accepted = undefined
  accept_into (some i) accepted = do
    w ← get
    conn ← access (get_elem? w.app.connections i)
    update (with_connection i (record conn { fd = accepted; registered = 0; conn_send = 0 }))
    update (λ s. record s { table = register_fd_callback accepted (some (tcp_message i)) s.table })

  -- `accepted` is what `accept` returns.
  unfoldable pub on_acceptable : ℤ → ServerM
  unfolding get_conn accept_into
  on_acceptable accepted = do
    w ← get
    if accepted ==ℤ negsuc 0
        then skip
        else accept_into (get_conn (negsuc 0) w.app.connections) accepted

  -- The calls of `cb_…` in `main`.
  unfoldable pub server_callbacks : Callbacks Server
  server_callbacks Slot.tcp_closed = some on_tcp_closed
  server_callbacks Slot.peer_select_ack = some on_peer_select_ack
  server_callbacks Slot.registration = some on_message_registration
  server_callbacks Slot.heartbeat = some on_heartbeat_message
  server_callbacks Slot.unhandled = some on_default
  server_callbacks _ = none

  abbrev pub with_buffer : ℕ → Buffer → Server → Server
  with_buffer i buffer s = elim (get_elem? s.connections i) [
    | some c ↦ record s { connections = set s.connections i (record c { buffer = buffer }) }
    | none ↦ s
  ]

  -- The callback of a descriptor that is readable; `result` is what `accept` or `recv` returns.
  unfoldable pub on_readable : Callback → (accepted : ℤ) → Received → ServerM
  on_readable acceptable accepted result = on_acceptable accepted
  on_readable (tcp_message i) accepted result = do
    w ← get
    conn ← access (get_elem? w.app.connections i)
    buffer ← handle_tcp_message e server_callbacks conn.fd conn.buffer result
    update (with_buffer i buffer)

  -- `main` up to `handle_events`: the exit code, or the state in which the loop starts. `created` and
  -- `bound` are what `create_tcp_socket` and `bind_listen_tcp_socket` return.
  unfoldable pub main :
      (argc : ℕ) → (created bound : ℤ) → (fd_setsize : ℕ) → M (World Server) (Option ℕ)
  main argc created bound fd_setsize =
      if not (argc == 2)
      then pure (some 1)
      else if created ==ℤ negsuc 0
      then pure (some 1)
      else if bound ==ℤ negsuc 0
      then (emit (close created) >> pure (some 1))
      else do
        update (λ s. record s {
          socket_fd = created;
          table = register_fd_callback created (some acceptable) (init_cblib fd_setsize);
        })
        pure none
