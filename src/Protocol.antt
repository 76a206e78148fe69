-- ===== src/Protocol.antt =====
-- client/src/protocol.h and client/src/protocol.c: the messages, the callbacks, the handlers of
-- arriving data and the senders. A message is the block of memory that its pointer points at.
pub mod Send
pub mod Receive
pub mod Stream
pub mod Chunks
pub mod Datagram
pub mod Untrusted
pub mod Fields
pub mod Total
use mathlib.Core.Option
use ws25_np.Prelude.{
  ℕ, zero, suc, ◌+◌, ◌-◌, ◌*◌, ◌%◌, ◌^◌, Bool, true, false, not, Option, none, some, List, [], ◌∷◌,
  ◌++◌, ltb, ◌==◌, if◌then◌else◌, length, take, drop, replicate,
}
use ws25_np.Prelude.Int.{ℤ}
use ws25_np.Prelude.Run.{M, ◌>>=◌, ◌>>◌, pure, skip, undefined, access}
use ws25_np.System.{World, send, emit}
use ws25_np.Wire.{
  message_column_type, message_column_ack_type, message_heartbeat_type, message_heartbeat_ack_type,
  message_error_type, message_registration_type, message_registration_ack_type,
  message_registration_err_ack_type, message_peer_select_type, message_peer_select_ack_type,
  error_code_unknown_type, padded_message_size, packet, take_message,
}
use ws25_np.Memory.{
  Bytes, Endian, bytes16, bytes32, read_at, write_at, load16, store16, ntohs, swap16, swap32,
}

-- The static pointers `g_cb_…`.
pub data Slot : Type 0 where
  column column_ack heartbeat heartbeat_ack error registration registration_ack : Slot
  registration_error_ack peer_select peer_select_ack tcp_closed unhandled : Slot

abbrev pub same_slot : Slot → Slot → Bool
same_slot column column = true
same_slot column_ack column_ack = true
same_slot heartbeat heartbeat = true
same_slot heartbeat_ack heartbeat_ack = true
same_slot error error = true
same_slot registration registration = true
same_slot registration_ack registration_ack = true
same_slot registration_error_ack registration_error_ack = true
same_slot peer_select peer_select = true
same_slot peer_select_ack peer_select_ack = true
same_slot tcp_closed tcp_closed = true
same_slot unhandled unhandled = true
same_slot _ _ = false

-- A callback is given the message and the descriptor.
abbrev pub Handler : Type 0 → Type 0
Handler S = Bytes → ℤ → M (World S) (Unit {0})

abbrev pub Callbacks : Type 0 → Type 0
Callbacks S = Slot → Option (Handler S)

abbrev pub no_callbacks : {S : Type 0} → Callbacks S
no_callbacks slot = none

-- The functions that the macro `CB` defines; `none` for the failed assertion.
unfoldable pub set_callback :
    {S : Type 0} → Slot → Option (Handler S) → Callbacks S → Option (Callbacks S)
set_callback slot none callbacks = none
set_callback slot (some callback) callbacks =
    some (λ s. if same_slot slot s then some callback else callbacks s)

abbrev pub call_if_set : {S : Type 0} → Option (Handler S) → Handler S → Handler S
call_if_set (some callback) otherwise msg fd = callback msg fd
call_if_set none otherwise msg fd = otherwise msg fd

-- The macro `CALL_CB`.
unfoldable pub call_cb : {S : Type 0} → Callbacks S → Slot → Handler S
call_cb callbacks slot =
    call_if_set (callbacks slot) (call_if_set (callbacks unhandled) (λ msg fd. skip))

module _ {S : Type 0} (e : Endian) where
  unfoldable pub send_message : Bytes → ℤ → M (World S) (Unit {0})
  send_message msg fd = do buffer ← access (packet e msg); emit (send fd buffer)

  -- `msg->length` is a `uint16_t`; the text is given without its NUL.
  unfoldable pub send_error_message : ℕ → Bytes → ℤ → M (World S) (Unit {0})
  send_error_message error_code error_string fd =
      send_message
        (bytes16 e message_error_type
          ++ (bytes16 e ((length error_string + 4) % 2 ^ 16)
              ++ (bytes32 e error_code ++ error_string)))
        fd

module _ {S : Type 0} (e : Endian) (callbacks : Callbacks S) where
  -- The cases of `switch (msg->type)` that convert fields before the callback.
  pub on_column : ℕ → Handler S
  on_column len msg fd = if not (len == 6) then skip else do
    msg ← access (swap16 e msg 8)
    msg ← access (swap32 e msg 4)
    call_cb callbacks column msg fd

  pub on_column_ack : ℕ → Handler S
  on_column_ack len msg fd =
      if not (len == 4)
      then skip
      else do msg ← access (swap32 e msg 4); call_cb callbacks column_ack msg fd

  pub on_error : ℕ → Handler S
  on_error len msg fd =
      if ltb len 4 then skip else do msg ← access (swap32 e msg 4); call_cb callbacks error msg fd

  pub on_registration : ℕ → Handler S
  on_registration len msg fd = if ltb len 10 then skip else do
    msg ← access (swap32 e msg 4)
    msg ← access (swap16 e msg 8)
    msg ← access (swap16 e msg 10)
    msg ← access (swap16 e msg 12)
    name_len ← access (load16 e msg 10)
    pass_len ← access (load16 e msg 12)
    if not (len == 10 + name_len + pass_len) then skip else call_cb callbacks registration msg fd

  pub on_peer_select : ℕ → Handler S
  on_peer_select len msg fd = if ltb len 12 then skip else do
    msg ← access (swap32 e msg 4)
    msg ← access (swap16 e msg 8)
    msg ← access (swap16 e msg 10)
    call_cb callbacks peer_select msg fd

  pub on_empty : Slot → ℕ → Handler S
  on_empty slot len msg fd = if not (len == 0) then skip else call_cb callbacks slot msg fd

  -- "Unkown message type", as it is spelled there.
  abbrev pub unknown_text : Bytes
  unknown_text =
      b'U' ∷ b'n' ∷ b'k' ∷ b'o' ∷ b'w' ∷ b'n' ∷ b' ' ∷ b'm' ∷ b'e' ∷ b's' ∷ b's' ∷ b'a' ∷ b'g'
      ∷ b'e' ∷ b' ' ∷ b't' ∷ b'y' ∷ b'p' ∷ b'e' ∷ []

  pub dispatch : ℕ → ℕ → Handler S
  unfolding on_column on_column_ack on_error on_registration on_peer_select on_empty
  dispatch type len msg fd =
      if type == message_column_type
      then on_column len msg fd
      else if type == message_column_ack_type
      then on_column_ack len msg fd
      else if type == message_heartbeat_type
      then call_cb callbacks heartbeat msg fd
      else if type == message_heartbeat_ack_type
      then call_cb callbacks heartbeat_ack msg fd
      else if type == message_error_type
      then on_error len msg fd
      else if type == message_registration_type
      then on_registration len msg fd
      else if type == message_registration_ack_type
      then on_empty registration_ack len msg fd
      else if type == message_registration_err_ack_type
      then on_empty registration_error_ack len msg fd
      else if type == message_peer_select_type
      then on_peer_select len msg fd
      else if type == message_peer_select_ack_type
      then on_empty peer_select_ack len msg fd
      else send_error_message e error_code_unknown_type unknown_text fd

  unfoldable pub handle_incoming_message : Handler S
  unfolding dispatch
  handle_incoming_message msg fd = do
    type ← access (load16 e msg 0)
    len ← access (load16 e msg 2)
    dispatch type len msg fd

-- `struct HandleMessageBuffer`; `contents` is the array that `data` points at.
pub record Buffer : Type 0 where
  pub buff_size : ℕ
  pub filled_size : ℕ
  pub contents : Bytes

-- `HANDLE_MESSAGE_BUFFER_DEFINITION(NAME, SIZE)`
unfoldable pub new_buffer : ℕ → Buffer
new_buffer size = record { buff_size = size; filled_size = 0; contents = replicate size 0 }

-- What `recv` returns: -1, or the bytes that it has written (none at the end of a connection).
pub data Received : Type 0 where
  failed : Received
  received : Bytes → Received

-- `memmove(data, data + size, filled_size - size)` and `filled_size -= size`.
pub remove_front : ℕ → Buffer → Buffer
remove_front size buffer = record buffer {
  filled_size = buffer.filled_size - size;
  contents =
      take (buffer.filled_size - size) (drop size buffer.contents)
      ++ drop (buffer.filled_size - size) buffer.contents;
}

-- `recv` writes behind the bytes that are there.
pub append_received : Bytes → Buffer → Buffer
append_received bytes buffer = record buffer {
  filled_size = buffer.filled_size + length bytes;
  contents =
      take buffer.filled_size buffer.contents
      ++ (bytes ++ drop (buffer.filled_size + length bytes) buffer.contents);
}

-- A datagram is written over the start of the buffer, whose `filled_size` stays 0.
pub overwrite : Bytes → Buffer → Buffer
overwrite bytes buffer = record buffer { contents = bytes ++ drop (length bytes) buffer.contents }

module _ {S : Type 0} (e : Endian) (callbacks : Callbacks S) where
  -- The loop of `handle_tcp_message`. Each round takes four bytes or more, so that as many rounds
  -- as the buffer has bytes are enough.
  pub tcp_loop : ℕ → ℤ → Buffer → M (World S) Buffer
  unfolding remove_front
  tcp_loop zero fd buffer = pure buffer
  tcp_loop (suc rounds) fd buffer = if ltb buffer.filled_size 4 then pure buffer else do
    type_field ← access (load16 e buffer.contents 0)
    length_field ← access (load16 e buffer.contents 2)
    let type = ntohs e type_field
    let len = ntohs e length_field
    let expected_size_padded = padded_message_size (4 + len)
    if ltb buffer.filled_size expected_size_padded then pure buffer else do
      msg ← access (take_message e type len buffer.contents)
      handle_incoming_message e callbacks msg fd
      tcp_loop rounds fd (remove_front expected_size_padded buffer)

  -- `g_cb_tcp_closed(NULL, fd)`, with no test of the pointer.
  pub call_tcp_closed : ℤ → M (World S) (Unit {0})
  call_tcp_closed fd = call_if_set (callbacks tcp_closed) (λ msg fd. undefined) [] fd

  -- The buffer is the one that the parameters name, or the default one: its new value is returned.
  unfoldable pub handle_tcp_message : ℤ → Buffer → Received → M (World S) Buffer
  unfolding tcp_loop append_received call_tcp_closed
  handle_tcp_message fd buffer failed = pure buffer
  handle_tcp_message fd buffer (received []) = do call_tcp_closed fd; pure buffer
  handle_tcp_message fd buffer (received (x ∷ bytes)) =
      let filled = append_received (x ∷ bytes) buffer in tcp_loop filled.filled_size fd filled

  pub datagram : ℤ → ℕ → Bytes → M (World S) (Unit {0})
  datagram fd recv_size source = if ltb recv_size 4 then skip else do
    type_field ← access (load16 e source 0)
    length_field ← access (load16 e source 2)
    let type = ntohs e type_field
    let len = ntohs e length_field
    if not (recv_size == padded_message_size (4 + len)) then skip else do
      msg ← access (take_message e type len source)
      handle_incoming_message e callbacks msg fd

  pub receive_datagram : ℤ → Buffer → Received → M (World S) Buffer
  unfolding datagram overwrite
  receive_datagram fd buffer failed = pure buffer
  receive_datagram fd buffer (received bytes) = do
    datagram fd (length bytes) (overwrite bytes buffer).contents
    pure (overwrite bytes buffer)

  -- The assertion that the buffer is empty comes first.
  unfoldable pub handle_udp_message : ℤ → Buffer → Received → M (World S) Buffer
  unfolding receive_datagram
  handle_udp_message fd buffer event =
      if not (buffer.filled_size == 0) then undefined else receive_datagram fd buffer event
