-- ===== src/Wire.antt =====
-- Outgoing messages: the constants of client/src/protocol.h, and the block that `send_message` of
-- client/src/protocol.c builds from a message and hands to `send`.
pub mod Message
pub mod Packet
use mathlib.Core.Option
use ws25_np.Prelude.{
  ℕ, zero, suc, ◌+◌, ◌-◌, ◌%◌, ◌^◌, Option, none, some, List, [], ◌∷◌, ◌==◌, if◌then◌else◌,
  replicate,
}
use ws25_np.Prelude.Maybe.{◌>>=◌}
use ws25_np.Memory.{Bytes, Endian, read_at, write_at, load16, store16, ntohs, ntohl, swap16, swap32}

abbrev pub message_column_type : ℕ
message_column_type = 1

abbrev pub message_column_ack_type : ℕ
message_column_ack_type = 2

abbrev pub message_heartbeat_type : ℕ
message_heartbeat_type = 3

abbrev pub message_heartbeat_ack_type : ℕ
message_heartbeat_ack_type = 4

abbrev pub message_error_type : ℕ
message_error_type = 5

abbrev pub message_registration_type : ℕ
message_registration_type = 6

abbrev pub message_registration_ack_type : ℕ
message_registration_ack_type = 7

abbrev pub message_registration_err_ack_type : ℕ
message_registration_err_ack_type = 8

abbrev pub message_peer_select_type : ℕ
message_peer_select_type = 9

abbrev pub message_peer_select_ack_type : ℕ
message_peer_select_ack_type = 10

abbrev pub error_code_unknown_type : ℕ
error_code_unknown_type = 1

abbrev pub error_code_protocol_error : ℕ
error_code_protocol_error = 2

unfoldable pub padded_message_size : ℕ → ℕ
padded_message_size size =
    let remainder = size % 4 in if remainder == 0 then size else size + (4 - remainder)

-- The bytes from an offset up to the first NUL, which `printf("%s")` reads: `none` if the block
-- ends before.
unfoldable pub c_string : Bytes → ℕ → Option Bytes
c_string [] o = none
c_string (x ∷ m) (suc o) = c_string m o
c_string (x ∷ m) zero = if x == 0 then some [] else Option.map (λ r. x ∷ r) (c_string m zero)

-- The conversions of `switch (msg->type)` in `send_message`, on the copy that is sent. The name of a
-- peer selection is also printed with `%s`.
pub to_network : Endian → ℕ → Bytes → Option Bytes
unfolding c_string
to_network e type buffer =
    if type == message_column_type
    then (do m ← swap16 e buffer 8; swap32 e m 4)
    else if type == message_column_ack_type
    then swap32 e buffer 4
    else if type == message_error_type
    then swap32 e buffer 4
    else if type == message_registration_type
    then (do m ← swap32 e buffer 4; m ← swap16 e m 8; m ← swap16 e m 10; swap16 e m 12)
    else if type == message_peer_select_type
    then (do
      m ← swap32 e buffer 4
      m ← swap16 e m 8
      m ← swap16 e m 10
      name ← c_string m 12
      some m)
    else some buffer

-- The copy: `uint16_t message_size = 4 + msg->length`, `malloc`, `memset`, `memcpy`, and the header
-- in network byte order.
pub copy_message : Endian → ℕ → ℕ → Bytes → Option Bytes
unfolding padded_message_size
copy_message e type len msg = do
  let message_size = (4 + len) % 2 ^ 16
  copied ← read_at msg 0 message_size
  buffer ← write_at (replicate (padded_message_size message_size) 0) 0 copied
  buffer ← store16 e buffer 0 (ntohs e type)
  store16 e buffer 2 (ntohs e len)

-- The block that `send_message` hands to `send`; `none` for an access out of bounds.
unfoldable pub packet : Endian → Bytes → Option Bytes
unfolding to_network copy_message
packet e msg = do
  type ← load16 e msg 0
  len ← load16 e msg 2
  buffer ← copy_message e type len msg
  to_network e type buffer

-- The copy of an arriving message on the heap: `malloc(expected_size)`, `memcpy`, and the header as
-- the host reads it.
unfoldable pub take_message : Endian → ℕ → ℕ → Bytes → Option Bytes
take_message e type len source = do
  msg ← read_at source 0 (4 + len)
  msg ← store16 e msg 0 type
  store16 e msg 2 len
