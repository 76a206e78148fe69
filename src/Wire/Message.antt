-- ===== src/Wire/Message.antt =====
-- What the messages of protocol.h stand for: their values, their layout in the memory of a host,
-- and the format on the wire, written down from the struct declarations.
use ws25_np.Prelude.{
  ℕ, ◌+◌, ◌-◌, ◌%◌, ◌^◌, ◌<◌, [], ◌∷◌, ◌++◌, Bool, ◌==◌, false, true, ◌||◌, length, replicate,
}
use ws25_np.Memory.{Bytes, Endian, big, bytes16, bytes32}

pub data Message : Type 0 where
  column : (sequence column : ℕ) → Message
  column_ack : (sequence : ℕ) → Message
  heartbeat : (content : Bytes) → Message
  heartbeat_ack : (content : Bytes) → Message
  error : (error_code : ℕ) (text : Bytes) → Message
  registration : (address port : ℕ) (name password : Bytes) → Message
  registration_ack : Message
  registration_error_ack : Message
  peer_select : (address port start : ℕ) (name : Bytes) → Message
  peer_select_ack : Message

-- `type`
abbrev pub type_of : Message → ℕ
type_of (column s c) = 1
type_of (column_ack s) = 2
type_of (heartbeat c) = 3
type_of (heartbeat_ack c) = 4
type_of (error code text) = 5
type_of (registration a p n w) = 6
type_of registration_ack = 7
type_of registration_error_ack = 8
type_of (peer_select a p s n) = 9
type_of peer_select_ack = 10

-- The fields behind the header, in the byte order `e`.
abbrev pub body : Endian → Message → Bytes
body e (column s c) = bytes32 e s ++ bytes16 e c
body e (column_ack s) = bytes32 e s
body e (heartbeat c) = c
body e (heartbeat_ack c) = c
body e (error code text) = bytes32 e code ++ text
body e (registration a p n w) =
    bytes32 e a ++ (bytes16 e p ++ (bytes16 e (length n) ++ (bytes16 e (length w) ++ (n ++ w))))
body e registration_ack = []
body e registration_error_ack = []
body e (peer_select a p s n) = bytes32 e a ++ (bytes16 e p ++ (bytes16 e s ++ n))
body e peer_select_ack = []

-- `length`
abbrev pub length_of : Message → ℕ
length_of m = length (body big m)

-- The struct in the memory of a host.
abbrev pub layout : Endian → Message → Bytes
layout e m = bytes16 e (type_of m) ++ (bytes16 e (length_of m) ++ body e m)

-- The zero bytes that fill up a multiple of four.
abbrev pub padding : ℕ → Bytes
padding n = replicate ((4 - n % 4) % 4) 0

-- The format on the wire: network byte order, filled up to a multiple of four bytes.
abbrev pub wire : Message → Bytes
wire m = layout big m ++ padding (length (layout big m))

-- The numbers fit their fields, and the size fits the `uint16_t` of `send_message`.
abbrev pub InRange : Message → Type 0
InRange (column s c) = (s < 2 ^ 32) × (c < 2 ^ 16)
InRange (column_ack s) = s < 2 ^ 32
InRange (heartbeat c) = 4 + length c < 2 ^ 16
InRange (heartbeat_ack c) = 4 + length c < 2 ^ 16
InRange (error code text) = (code < 2 ^ 32) × (8 + length text < 2 ^ 16)
InRange (registration a p n w) = (a < 2 ^ 32) × (p < 2 ^ 16) × (14 + length n + length w < 2 ^ 16)
InRange registration_ack = Unit
InRange registration_error_ack = Unit
InRange (peer_select a p s n) =
    (a < 2 ^ 32) × (p < 2 ^ 16) × (s < 2 ^ 16) × (12 + length n < 2 ^ 16)
InRange peer_select_ack = Unit

abbrev pub has_nul : Bytes → Bool
has_nul [] = false
has_nul (x ∷ xs) = (x == 0) || has_nul xs

-- Whether `printf("%s")` finds a NUL inside the block: in the name of a peer, or in the padding.
abbrev pub printable : Message → Bool
printable (peer_select a p s n) = has_nul (n ++ padding (length (layout big (peer_select a p s n))))
printable (column s c) = true
printable (column_ack s) = true
printable (heartbeat c) = true
printable (heartbeat_ack c) = true
printable (error code text) = true
printable (registration a p n w) = true
printable registration_ack = true
printable registration_error_ack = true
printable peer_select_ack = true
