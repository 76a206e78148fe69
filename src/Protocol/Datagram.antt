-- ===== src/Protocol/Datagram.antt =====
-- `handle_udp_message` on the datagrams that `send_message` makes.
use ws25_np.Prelude.{
  ℕ, ◌+◌, ◌-◌, ◌%◌, ◌≡◌, refl, ap, sym, ◌∙◌, true, false, not, some, [], ◌++◌, ◌==◌, if◌then◌else◌,
  arith, ltb, length, drop, length-append, length-replicate, take-append-length, ltb-eq-false,
  ==_iff,
}
use ws25_np.Prelude.Int.{ℤ}
use ws25_np.Prelude.Run.{M, ok, and_then, ◌>>=◌, pure, skip, access, access-step, else-step}
use ws25_np.System.{World}
use ws25_np.Memory.{Bytes, Endian, big, bytes16, value16, ntohs}
use ws25_np.Memory.Fields.{load16_big, ntohs-value16}
use ws25_np.Wire.{padded_message_size, packet, take_message}
use ws25_np.Wire.Message.{
  Message, type_of, length_of, body, layout, padding, wire, InRange, printable,
}
use ws25_np.Wire.Packet.{padded_message_size-eq, packet-layout, fits_of_range, type_lt}
use ws25_np.Protocol.{
  Callbacks, Buffer, received, call_cb, overwrite, datagram, handle_incoming_message,
  handle_udp_message,
}
use ws25_np.Protocol.Receive.{arrived, slot_of, accepted, handle_incoming_message-arrived}
use ws25_np.Protocol.Chunks.{take_message-lem}
use mathlib.Core.List.{append-nil}

length-wire : (m : Message) → length (wire m) ≡ padded_message_size (4 + length_of m)
length-wire m =
    length-append (layout big m) (padding (length (layout big m)))
    ∙ omega (
      arith,
      length-replicate {A = ℕ} ((4 - length (layout big m) % 4) % 4) 0,
      padded_message_size-eq (4 + length_of m),
    )

module _ (e : Endian) (m : Message) (dead : Bytes) where
  take_message-wire : take_message e (type_of m) (length_of m) (wire m ++ dead) ≡ some (arrived e m)
  take_message-wire =
      take_message-lem e (type_of m) (length_of m) _ _ _ _
        (body big m ++ padding (length (layout big m))) dead
        (omega (arith, length-append (body big m) (padding (length (layout big m)))))
      ∙ ap (λ b. some (bytes16 e (type_of m) ++ (bytes16 e (length_of m) ++ b)))
          (take-append-length (body big m) (padding (length (layout big m))))

module _ {S : Type 0} (e : Endian) (callbacks : Callbacks S) (fd : ℤ) (w : World S) where
  -- `handle_udp_message` behind the header has been read.
  abbrev deliver : Bytes → ℕ → ℕ → ℕ → M (World S) (Unit {0})
  deliver source size type len = if not (size == padded_message_size (4 + len)) then skip else do
    msg ← access (take_message e type len source)
    handle_incoming_message e callbacks msg fd

  size_test : (m : Message) → not (length (wire m) == padded_message_size (4 + length_of m)) ≡ false
  size_test m = ap not ((==_iff (length (wire m)) _).1 (length-wire m))

  datagram-wire :
      (m : Message) (dead : Bytes)
      → InRange m
      → datagram e callbacks fd (length (wire m)) (wire m ++ dead) w
        ≡ handle_incoming_message e callbacks (arrived e m) fd w
  unfolding datagram
  datagram-wire m dead h =
      let behind = (body big m ++ padding (length (layout big m))) ++ dead in
      else-step (ltb (length (wire m)) 4) _ _ w (ltb-eq-false (length (wire m)) 4 (omega arith)) (
        access-step _ _ w (load16_big e [] (type_of m) (bytes16 big (length_of m) ++ behind)) (
          access-step _ _ w (load16_big e (bytes16 big (type_of m)) (length_of m) behind) (
            ap
              (λ t.
                deliver (wire m ++ dead) (length (wire m)) t
                  (ntohs e (value16 e (bytes16 big (length_of m)))) w)
              (ntohs-value16 e (type_of m) (type_lt m))
            ∙ ap (λ l. deliver (wire m ++ dead) (length (wire m)) (type_of m) l w)
                (ntohs-value16 e (length_of m) (omega (arith, fits_of_range m h)))
            ∙ else-step (not (length (wire m) == padded_message_size (4 + length_of m))) _ _ w
                (size_test m) (access-step _ _ w (take_message-wire e m dead) refl))))

  -- What `send_message` makes of a message whose fields are in range, on a host of either byte order,
  -- is what `handle_udp_message`, on a host of either byte order and with an empty buffer, takes for
  -- this message: the callback of its type, or the default one, gets the struct of the sender in the
  -- byte order of the receiver; a peer selection only if its name has four bytes or more.
  pub handle_udp_message-packet :
      (sender : Endian) (m : Message) (buffer : Buffer)
      → InRange m
      → printable m ≡ true
      → buffer.filled_size ≡ 0
      → (bytes : Bytes) × (packet sender (layout sender m) ≡ some bytes)
        × (handle_udp_message e callbacks fd buffer (received bytes) w
            ≡ and_then
                (if accepted m then call_cb callbacks (slot_of m) (layout e m) fd w else ok tt w)
                (λ _. pure (overwrite bytes buffer)))
  unfolding handle_udp_message
  handle_udp_message-packet sender m buffer h p empty = (
    wire m,
    ap (packet sender) (sym (append-nil (layout sender m))) ∙ packet-layout sender m [] h p,
    else-step (not (buffer.filled_size == 0)) _ _ w (ap not ((==_iff buffer.filled_size 0).1 empty))
        (ap (λ r. and_then r (λ _. pure (overwrite (wire m) buffer)))
          (datagram-wire m (drop (length (wire m)) buffer.contents) h
            ∙ handle_incoming_message-arrived e callbacks fd w m h)),
  )
