-- ===== src/Protocol/Send.antt =====
-- `send_message` of protocol.c as an effect.
use ws25_np.Prelude.{◌≡◌, refl, ap, sym, ◌∙◌, true, [], ◌∷◌, ◌++◌}
use ws25_np.Prelude.Int.{ℤ}
use ws25_np.Prelude.Run.{ok, access-step}
use ws25_np.System.{World, send}
use ws25_np.Memory.{Endian}
use mathlib.Core.List.{append-nil}
use ws25_np.Wire.{packet}
use ws25_np.Wire.Message.{Message, layout, wire, InRange, printable}
use ws25_np.Wire.Packet.{packet-layout}
use ws25_np.Protocol.{send_message}

-- `send_message` of a message that fits.
pub send_message-layout :
    {S : Type 0} (e : Endian) (m : Message) (fd : ℤ) (w : World S)
    → InRange m
    → printable m ≡ true
    → send_message e (layout e m) fd w ≡ ok tt (record w { log = w.log ++ (send fd (wire m) ∷ []) })
unfolding send_message
send_message-layout e m fd w h p =
    access-step _ _ w (ap (packet e) (sym (append-nil (layout e m))) ∙ packet-layout e m [] h p)
      refl
