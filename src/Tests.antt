-- ===== src/Tests.antt =====
-- The theorems at concrete inputs: the messages and the stream of protocol.c.
mod Games
mod Moves
mod Programs
mod Queue
mod Services
mod Untrusted
use ws25_np.Prelude.{
  ℕ, zero, suc, ◌+◌, ◌-◌, ◌*◌, ◌%◌, ◌^◌, ◌≤◌, ◌<◌, ◌≡◌, ◌≢◌, refl, ◌⊎◌, inl, inr, ◌↔◌, Bool, true,
  false, ◌||◌, Option, none, some, List, [], ◌∷◌, ◌++◌, if◌then◌else◌, get_elem?, length, arith,
  replicate,
}
use ws25_np.Prelude.Int.{ℤ, pos, negsuc, ◌==ℤ◌}
use ws25_np.Prelude.Run.{ok, and_then, pure}
use ws25_np.System.{World, Effect, send, shutdown, close, update}
use ws25_np.Memory.{Bytes, Endian, little, big, bytes16}
use ws25_np.Wire.{packet, padded_message_size}
use ws25_np.Wire.Message.{Message, column, error, peer_select, registration, layout, wire}
use ws25_np.Wire.Packet.{
  packet-layout, packet-peer_select_overrun, packet_wraps, padded_message_size_lem,
}
use ws25_np.Protocol.{
  Callbacks, call_cb, received, handle_incoming_message, handle_tcp_message, handle_udp_message,
  new_buffer, overwrite,
}
use ws25_np.Protocol.Datagram.{handle_udp_message-packet}
use ws25_np.Protocol.Receive.{slot_of}
use ws25_np.Protocol.Chunks.{holding, unread, map_run, handle_tcp_message-pieces}

-- Callbacks that add up the sizes of the messages.
abbrev counting : Callbacks ℕ
counting slot = some (λ msg fd. update (λ n. n + length msg))

abbrev start : World ℕ
start = record { app = 0; log = [] }

-- The column message of sequence number 1 and column 3 on the wire, in two pieces.
abbrev first_piece : Bytes
first_piece = 0 ∷ 1 ∷ 0 ∷ 6 ∷ 0 ∷ []

abbrev second_piece : Bytes
second_piece = 0 ∷ 0 ∷ 1 ∷ 0 ∷ 3 ∷ 0 ∷ 0 ∷ []

handle_tcp_message-pieces_example :
    map_run unread (
      and_then
        (handle_tcp_message little counting
          (pos 4)
          (holding 16 [] (replicate 16 0))
          (received first_piece)
          start)
        (λ b. handle_tcp_message little counting (pos 4) b (received second_piece)))
    ≡ map_run unread (
        handle_tcp_message little counting
          (pos 4)
          (holding 16 [] (replicate 16 0))
          (received (first_piece ++ second_piece))
          start)
handle_tcp_message-pieces_example =
    handle_tcp_message-pieces little counting (pos 4) 16 [] (replicate 16 0) 0 0
      (1 ∷ 0 ∷ 6 ∷ 0 ∷ []) (0 ∷ 1 ∷ 0 ∷ 3 ∷ 0 ∷ 0 ∷ []) start refl (omega arith)

handle_tcp_message_run :
    handle_tcp_message little counting
      (pos 4)
      (holding 16 [] (replicate 16 0))
      (received (first_piece ++ second_piece))
      start
    ≡ ok
        (holding 16 [] (0 ∷ 1 ∷ 0 ∷ 6 ∷ 0 ∷ 0 ∷ 0 ∷ 1 ∷ 0 ∷ 3 ∷ 0 ∷ 0 ∷ 0 ∷ 0 ∷ 0 ∷ 0 ∷ []))
        (record { app = 10; log = [] })
unfolding handle_tcp_message ws25_np.Memory.load16 padded_message_size ws25_np.Memory.ntohs
    ws25_np.Wire.take_message ws25_np.Memory.store16 handle_incoming_message ws25_np.Memory.swap16
    mathlib.Core.Option.bind ws25_np.Memory.swap32 ws25_np.Memory.load32 ws25_np.Memory.store32
    call_cb
handle_tcp_message_run = refl

packet-layout_example :
    packet little (layout little (column 1 3) ++ (7 ∷ [])) ≡ some (wire (column 1 3))
packet-layout_example = packet-layout little (column 1 3) (7 ∷ []) (omega arith, omega arith) refl

abbrev bob : Bytes
bob = b'b' ∷ b'o' ∷ b'b' ∷ b'0' ∷ []

packet-peer_select_overrun_example :
    packet little (layout little (peer_select 1 2 0 bob) ++ (b'!' ∷ [])) ≡ none
packet-peer_select_overrun_example =
    packet-peer_select_overrun little 1 2 0 bob (b'!' ∷ [])
      (omega arith, omega arith, omega arith, omega arith) refl

packet_wraps_example : packet big (bytes16 big 3 ++ (bytes16 big 65532 ++ (1 ∷ []))) ≡ none
packet_wraps_example = packet_wraps big 3 (1 ∷ []) (omega arith)

handle_udp_message-packet_example :
    (bytes : Bytes) × (packet big (layout big (column 1 3)) ≡ some bytes)
    × (handle_udp_message little counting (pos 4) (new_buffer 64) (received bytes) start
        ≡ and_then
            (call_cb counting (slot_of (column 1 3)) (layout little (column 1 3)) (pos 4) start)
            (λ _. pure (overwrite bytes (new_buffer 64))))
unfolding new_buffer
handle_udp_message-packet_example =
    handle_udp_message-packet little counting (pos 4) start big (column 1 3) (new_buffer 64)
      (omega arith, omega arith) refl refl
