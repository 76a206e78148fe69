-- ===== src/Tests/Untrusted.antt =====
-- The theorems on arriving bytes at concrete blocks and datagrams.
use ws25_np.Prelude.{ℕ, ◌+◌, some, [], ◌∷◌, arith, length}
use ws25_np.Prelude.Int.{pos}
use ws25_np.Prelude.Run.{Run}
use ws25_np.System.{World, update}
use ws25_np.Memory.{Bytes, little}
use ws25_np.Protocol.{Callbacks}
use ws25_np.Protocol.Total.{Handled, handle_incoming_message-total}

-- Callbacks that add up the sizes of the messages.
abbrev counting : Callbacks ℕ
counting slot = some (λ msg fd. update (λ n. n + length msg))

abbrev start : World ℕ
start = record { app = 0; log = [] }

abbrev short_content : Bytes
short_content = 0 ∷ 1 ∷ []

-- The start of a registration that lacks most of its fields.
handle_incoming_message-total_example : Handled little counting (pos 4) start 6 short_content
handle_incoming_message-total_example =
    handle_incoming_message-total little counting (pos 4) start short_content
      (omega arith, (omega arith, tt)) (omega arith) 6 (omega arith)

-- A length field that claims more than has arrived.
abbrev lying : Bytes
lying = 0 ∷ 1 ∷ 255 ∷ 255 ∷ 7 ∷ []
