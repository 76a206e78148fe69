-- ===== src/Client.antt =====
-- client/src/client.c: the game of one player, the acknowledged moves and the heartbeats.
pub mod Answers
pub mod Game
pub mod Heartbeats
pub mod Invariant
pub mod Linked
pub mod Loop
pub mod Number
pub mod Pending
pub mod Safety
pub mod Start
pub mod Transmit
use mathlib.Core.Option
use ws25_np.Prelude.{
  ℕ, zero, suc, ◌+◌, ◌-◌, ◌*◌, ◌/◌, ◌%◌, ◌^◌, Bool, true, false, not, ◌&&◌, ◌||◌, Option, none,
  some, List, [], ◌∷◌, ◌++◌, ltb, leb, ◌==◌, if◌then◌else◌, length, take, drop,
}
use ws25_np.Prelude.Int.{ℤ, pos, negsuc, pos_part, neg_part, sub_ℕ, ◌==ℤ◌, ◌-ℤ◌, ltb_ℤ}
use ws25_np.Prelude.Run.{M, ◌>>=◌, ◌>>◌, pure, skip, get, exit, access}
use ws25_np.System.{World, emit, update, close, warned}
use ws25_np.Events.{Table, init_cblib, register_fd_callback, register_stdin_callback}
use ws25_np.Board
use ws25_np.Board.{Board, player_1, player_2}
use ws25_np.Memory.{Bytes, Endian, bytes16, bytes32, load16, load32, store16}
use ws25_np.Wire.{
  message_column_type, message_column_ack_type, message_heartbeat_type, message_heartbeat_ack_type,
}
use ws25_np.Protocol.{Slot, Callbacks, Handler, send_message}

abbrev pub default_retransmission_time : ℕ
default_retransmission_time = 1000

-- In milliseconds.
abbrev pub heartbeat_interval : ℕ
heartbeat_interval = 5000

abbrev pub heartbeat_warning_message_timeout : ℕ
heartbeat_warning_message_timeout = 30000

-- `enum {TURN, TURN_ACK, WAIT} state`
pub data State : Type 0 where
  turn turn_ack wait : State

-- `struct un_ack_column_message`, with the address that `malloc` gave it.
pub record UnAck : Type 0 where
  pub address : ℕ
  pub sequence : ℕ
  pub column : ℕ
  pub timer : ℕ
  pub next_timeout : ℕ

-- What a timer calls, with its argument.
pub data TimerCallback : Type 0 where
  transmit : (address : ℕ) → TimerCallback
  heartbeat : TimerCallback

-- The timers of client/lib/cblib.h, as the client uses them. A timer is a number; `none` is an access
-- through a pointer to a timer that there is not (any more).
pub record TimerService : Type 1 where
  pub Timers : Type 0
  pub create_timer : TimerCallback → Timers → ℕ × Timers
  pub start_timer : ℕ → (timeout : ℕ) → Timers → Option Timers
  pub stop_timer : ℕ → Timers → Option Timers
  pub delete_timer : ℕ → Timers → Option Timers

-- The callbacks of the event loop: `on_stdin`, and `handle_udp_message` with the default buffer.
pub data EventCallback : Type 0 where
  line datagram : EventCallback

-- The global variables; the list `un_ack_column_messages` without its first dummy.
pub record Client (T : Type 0) : Type 0 where
  pub socket_fd : ℤ
  pub stdin_buffer : Bytes
  pub board : Board
  pub state : State
  pub next_sequence : ℕ
  pub next_expected_sequence : ℕ
  pub last_send_heartbeat : ℕ
  pub last_received_heartbeat_time : ℕ
  pub un_ack : List UnAck
  pub timers : T
  pub heartbeat_timer : ℕ
  pub table : Table EventCallback

-- What `read` meets: an error, or bytes, of which it takes as many as the buffer has room for.
pub data ReadResult : Type 0 where
  read_failed : ReadResult
  read_bytes : Bytes → ReadResult

abbrev pub is_space : ℕ → Bool
is_space c = (c == 32) || (leb 9 c && leb c 13)

abbrev pub is_digit : ℕ → Bool
is_digit c = leb b'0' c && leb c b'9'

-- `read(…, buffer, sizeof(buffer))`
abbrev pub read_into : Bytes → Bytes → Bytes
read_into available buffer = take (length buffer) available ++ drop (length available) buffer

-- `atoi` of the standard library. `none` where it reads past the end of the buffer, and where an `int`
-- does not hold the value: both are undefined.
unfoldable pub digits : ℕ → Bytes → Option ℕ
digits acc [] = none
digits acc (c ∷ cs) =
    let more = digits (10 * acc + (c - b'0')) cs in if is_digit c then more else some acc

unfoldable pub signed_digits : Bytes → Option ℤ
unfolding digits
signed_digits [] = none
signed_digits (c ∷ cs) =
    if c == b'-'
    then Option.map (sub_ℕ 0) (digits 0 cs)
    else if c == b'+'
    then Option.map pos (digits 0 cs)
    else Option.map pos (digits 0 (c ∷ cs))

unfoldable pub scan : Bytes → Option ℤ
unfolding signed_digits
scan [] = none
scan (c ∷ cs) = let rest = scan cs in if is_space c then rest else signed_digits (c ∷ cs)

abbrev pub in_int : ℤ → Bool
in_int v = ltb (pos_part v) (2 ^ 31) && leb (neg_part v) (2 ^ 31)

unfoldable pub atoi : Bytes → Option ℤ
unfolding scan
atoi buffer = elim (scan buffer) [ some v ↦ if in_int v then some v else none | none ↦ none ]

-- The item of an address, and its update.
unfoldable pub find_item : ℕ → List UnAck → Option UnAck
find_item address [] = none
find_item address (item ∷ items) =
    if item.address == address then some item else find_item address items

unfoldable pub set_timeout : ℕ → ℕ → List UnAck → List UnAck
set_timeout address timeout [] = []
set_timeout address timeout (item ∷ items) =
    if item.address == address
    then record item { next_timeout = timeout } ∷ items
    else item ∷ set_timeout address timeout items

-- The first item with a sequence number, and the list without it.
unfoldable pub take_item : ℕ → List UnAck → Option (UnAck × List UnAck)
take_item sequence [] = none
take_item sequence (item ∷ items) =
    if item.sequence == sequence
    then some (item, items)
    else Option.map (λ found. (found.0, item ∷ found.1)) (take_item sequence items)

-- `struct HeartbeatContent`, a `time_t` of eight bytes.
abbrev pub heartbeat_content : Endian → ℕ → Bytes
heartbeat_content Endian.little time =
    bytes32 Endian.little (time % 2 ^ 32) ++ bytes32 Endian.little (time / 2 ^ 32)
heartbeat_content Endian.big time =
    bytes32 Endian.big (time / 2 ^ 32) ++ bytes32 Endian.big (time % 2 ^ 32)

module _ (e : Endian) (service : TimerService) where
  open service use {Timers, create_timer, start_timer, stop_timer, delete_timer}

  abbrev pub W : Type 0
  W = World (Client Timers)

  abbrev pub ClientM : Type 0
  ClientM = M W (Unit {0})

  -- A call of a function of the timers.
  abbrev pub change_timers : (Timers → Option Timers) → ClientM
  change_timers f = do
    w ← get
    timers' ← access (f w.app.timers)
    update (λ c. record c { timers = timers' })

  -- `send_message(…, socket_fd)`
  abbrev pub send_peer : Bytes → ClientM
  send_peer msg = do w ← get; send_message e msg w.app.socket_fd

  abbrev pub column_msg : ℕ → ℕ → Bytes
  column_msg sequence column =
      bytes16 e message_column_type ++ (bytes16 e 6 ++ (bytes32 e sequence ++ bytes16 e column))

  unfoldable pub transmit_column_message : ℕ → ClientM
  transmit_column_message address = do
    w ← get
    item ← access (find_item address w.app.un_ack)
    send_peer (column_msg item.sequence item.column)
    change_timers (start_timer item.timer item.next_timeout)
    update
        (λ c. record c { un_ack = set_timeout address ((item.next_timeout * 2) % 2 ^ 32) c.un_ack })

  -- `address` is what `malloc` returns.
  unfoldable pub send_column_message : (address : ℕ) → ℕ → ClientM
  unfolding transmit_column_message
  send_column_message address column = do
    update (λ c.
        let (timer, timers') = create_timer (transmit address) c.timers in
        record c {
          timers = timers';
          un_ack =
              c.un_ack
              ++ (record {
                address = address;
                sequence = c.next_sequence;
                column = column;
                timer = timer;
                next_timeout = default_retransmission_time;
              }
                  ∷ []);
        })
    transmit_column_message address
    update (λ c. record c { next_sequence = (c.next_sequence + 1) % 2 ^ 32 })

  -- Behind `state` and `valid_move` have been tested. The move is sent as a `uint16_t`.
  unfoldable pub make_own_move : (address : ℕ) → ℤ → ClientM
  unfolding send_column_message
  make_own_move address move = do
    w ← get
    board ← access (Board.make_move w.app.board move player_1)
    update (λ c. record c { board = board })
    send_column_message address (pos_part move % 2 ^ 16)
    if not (Board.winner board ==ℤ pos 0) then exit else update (λ c. record c { state = turn_ack })

  abbrev pub is_turn : State → Bool
  is_turn turn = true
  is_turn turn_ack = false
  is_turn wait = false

  unfoldable pub on_stdin : (address : ℕ) → ReadResult → ClientM
  unfolding make_own_move
  on_stdin address read_failed = skip
  on_stdin address (read_bytes available) = do
    update (λ c. record c { stdin_buffer = read_into available c.stdin_buffer })
    w ← get
    move ← access (atoi w.app.stdin_buffer)
    if not (is_turn w.app.state)
        then skip
        else if not (Board.valid_move w.app.board move)
        then skip
        else make_own_move address move

  -- `sent` and `compared` are what `time` returns in the two calls.
  unfoldable pub send_heartbeat : (sent compared : ℕ) → ClientM
  send_heartbeat sent compared = do
    update (λ c. record c { last_send_heartbeat = sent })
    send_peer (bytes16 e message_heartbeat_type ++ (bytes16 e 8 ++ heartbeat_content e sent))
    w ← get
    change_timers (start_timer w.app.heartbeat_timer heartbeat_interval)
    if ltb_ℤ (pos heartbeat_warning_message_timeout)
          (sub_ℕ w.app.last_received_heartbeat_time compared)
        then emit warned
        else skip

  abbrev pub ack_msg : ℕ → Bytes
  ack_msg sequence = bytes16 e message_column_ack_type ++ (bytes16 e 4 ++ bytes32 e sequence)

  -- The part of `on_column_message` behind the tests of the sequence number.
  unfoldable pub make_peer_move : ℕ → ClientM
  make_peer_move move = do
    w ← get
    if not (Board.valid_move w.app.board (pos move)) then skip else do
      board ← access (Board.make_move w.app.board (pos move) player_2)
      update (λ c. record c { board = board })
      if not (Board.winner board ==ℤ pos 0) then exit else update (λ c. record c { state = turn })

  unfoldable pub on_column_message : Handler (Client Timers)
  unfolding make_peer_move
  on_column_message msg fd = do
    w ← get
    sequence ← access (load32 e msg 4)
    let expected = w.app.next_expected_sequence
    if ltb expected sequence
        then send_peer (ack_msg ((expected + 2 ^ 32 - 1) % 2 ^ 32))
        else if ltb sequence expected
        then skip
        else do
          update (λ c. record c { next_expected_sequence = (expected + 1) % 2 ^ 32 })
          send_peer (ack_msg sequence)
          move ← access (load16 e msg 8)
          make_peer_move move

  unfoldable pub on_column_ack_message : Handler (Client Timers)
  on_column_ack_message msg fd = do
    w ← get
    sequence ← access (load32 e msg 4)
    elim (take_item sequence w.app.un_ack) [
      | none ↦ skip
      | some (item, items) ↦ do
        update (λ c. record c { state = wait; un_ack = items })
        change_timers (stop_timer item.timer)
        change_timers (delete_timer item.timer)
    ]

  unfoldable pub on_heartbeat_message : Handler (Client Timers)
  on_heartbeat_message msg fd = do
    msg ← access (store16 e msg 0 message_heartbeat_ack_type)
    send_peer msg

  -- `now` is what `time` returns.
  unfoldable pub on_heartbeat_ack_message : (now : ℕ) → Handler (Client Timers)
  on_heartbeat_ack_message now msg fd = do
    len ← access (load16 e msg 2)
    if ltb len 8 then skip else update (λ c. record c { last_received_heartbeat_time = now })

  -- It only prints.
  unfoldable pub on_error_message : Handler (Client Timers)
  on_error_message msg fd = skip

  unfoldable pub client_callbacks : (now : ℕ) → Callbacks (Client Timers)
  client_callbacks now Slot.column = some on_column_message
  client_callbacks now Slot.column_ack = some on_column_ack_message
  client_callbacks now Slot.heartbeat = some on_heartbeat_message
  client_callbacks now Slot.heartbeat_ack = some (on_heartbeat_ack_message now)
  client_callbacks now Slot.error = some on_error_message
  client_callbacks now _ = none

  -- `created` and `connected` are what `create_udp_socket` and `connect_socket` return; the result is
  -- whether the event loop is reached.
  unfoldable pub start_client : (created connected : ℤ) → (start fd_setsize : ℕ) → M W Bool
  start_client created connected start fd_setsize = do
    update (λ c. record c { socket_fd = created })
    if created ==ℤ negsuc 0
        then pure false
        else if connected ==ℤ negsuc 0
        then (emit (close created) >> pure false)
        else do
          update (λ c.
              let (timer, timers') = create_timer heartbeat c.timers in
              record c {
                board = Board.init_4clib c.board;
                heartbeat_timer = timer;
                table =
                    register_fd_callback created (some datagram)
                      (register_stdin_callback (some line) (init_cblib fd_setsize));
                timers = timers';
              })
          w ← get
          change_timers (start_timer w.app.heartbeat_timer heartbeat_interval)
          update (λ c. record c { state = if start == 0 then wait else turn })
          pure true
