-- ===== src/Protocol/Receive.antt =====
-- `handle_incoming_message`: the callback gets the message as the sender wrote it.
use ws25_np.Prelude.{
  ltb, ℕ, ◌+◌, ◌^◌, ◌<◌, ◌≡◌, refl, ◌∙◌, inl, inr, [], ◌++◌, Bool, ◌==◌, leb, false, true, not,
  length, if◌then◌else◌, arith, length-append, Bool-cases, ltb-eq-false, lt→ltb,
}
use ws25_np.Prelude.Int.{ℤ}
use ws25_np.Prelude.Run.{ok, skip, access-step, else-step, then-step}
use ws25_np.System.{World}
use ws25_np.Memory.{Bytes, Endian, big, bytes16, bytes32}
use ws25_np.Memory.Fields.{load16_host, swap16_in, swap32_in}
use ws25_np.Wire.Message.{
  Message, column, column_ack, heartbeat, heartbeat_ack, error, registration, registration_ack,
  registration_error_ack, peer_select, peer_select_ack, type_of, length_of, body, layout, InRange,
}
use ws25_np.Wire.Packet.{fits_of_range, type_lt}
use ws25_np.Protocol.{Slot, Callbacks, call_cb, handle_incoming_message, dispatch}

-- A message of the wire with its header converted, as the handlers of arriving data pass it on.
abbrev pub arrived : Endian → Message → Bytes
arrived e m = bytes16 e (type_of m) ++ (bytes16 e (length_of m) ++ body big m)

abbrev pub slot_of : Message → Slot
slot_of (column s c) = Slot.column
slot_of (column_ack s) = Slot.column_ack
slot_of (heartbeat c) = Slot.heartbeat
slot_of (heartbeat_ack c) = Slot.heartbeat_ack
slot_of (error code text) = Slot.error
slot_of (registration a p n w) = Slot.registration
slot_of registration_ack = Slot.registration_ack
slot_of registration_error_ack = Slot.registration_error_ack
slot_of (peer_select a p s n) = Slot.peer_select
slot_of peer_select_ack = Slot.peer_select_ack

-- What the receiver does not drop: a peer selection needs a name of four bytes or more.
abbrev pub accepted : Message → Bool
accepted (peer_select a p s n) = leb 4 (length n)
accepted (column s c) = true
accepted (column_ack s) = true
accepted (heartbeat c) = true
accepted (heartbeat_ack c) = true
accepted (error code text) = true
accepted (registration a p n w) = true
accepted registration_ack = true
accepted registration_error_ack = true
accepted peer_select_ack = true

size_matches :
    (a p : ℕ) (n v : Bytes)
    → not (length_of (registration a p n v) == 10 + length n + length v) ≡ false
size_matches a p n v = ground (arith, length-append n v)

module _ {S : Type 0} (e : Endian) (callbacks : Callbacks S) (fd : ℤ) (w : World S) where
  pub header :
      (t l : ℕ) (content : Bytes)
      → t < 2 ^ 16
      → l < 2 ^ 16
      → let msg = bytes16 e t ++ (bytes16 e l ++ content) in
        handle_incoming_message e callbacks msg fd w ≡ dispatch e callbacks t l msg fd w
  unfolding handle_incoming_message
  header t l content ht hl =
      access-step _ _ w (load16_host e [] t (bytes16 e l ++ content) ht)
        (access-step _ _ w (load16_host e (bytes16 e t) l content hl) refl)

  abbrev Delivers : Message → Type 0
  Delivers m =
      dispatch e callbacks (type_of m) (length_of m) (arrived e m) fd w
      ≡ (if accepted m then call_cb callbacks (slot_of m) (layout e m) fd w else ok tt w)

  dispatch_column : (s c : ℕ) → InRange (column s c) → Delivers (column s c)
  unfolding dispatch
  dispatch_column s c (hs, hc) =
      let header : Bytes = bytes16 e 1 ++ bytes16 e 6 in
      access-step _ _ w (swap16_in e (header ++ bytes32 big s) c [] hc)
        (access-step _ _ w (swap32_in e header s (bytes16 e c) hs) refl)

  dispatch_column_ack : (s : ℕ) → InRange (column_ack s) → Delivers (column_ack s)
  unfolding dispatch
  dispatch_column_ack s h = access-step _ _ w (swap32_in e (bytes16 e 2 ++ bytes16 e 4) s [] h) refl

  dispatch_error :
      (code : ℕ) (text : Bytes) → InRange (error code text) → Delivers (error code text)
  unfolding dispatch
  dispatch_error code text (hc, _) =
      let header : Bytes = bytes16 e 5 ++ bytes16 e (length_of (error code text)) in
      else-step _ _ _ w (ltb-eq-false (length_of (error code text)) 4 (omega arith))
        (access-step _ _ w (swap32_in e header code text hc) refl)

  -- The struct of a registration whose content is any ten bytes or more, in a byte order.
  abbrev pub registration_block : Endian → (size a p n v : ℕ) → Bytes → Bytes
  registration_block o size a p n v rest =
      bytes16 e 6
      ++ (bytes16 e size
          ++ (bytes32 o a ++ (bytes16 o p ++ (bytes16 o n ++ (bytes16 o v ++ rest)))))

  -- A registration has its fields converted before the sum of the lengths is tested.
  pub dispatch_registration_fields :
      (size a p n v : ℕ) (rest : Bytes)
      → ltb size 10 ≡ false
      → a < 2 ^ 32
      → p < 2 ^ 16
      → n < 2 ^ 16
      → v < 2 ^ 16
      → dispatch e callbacks 6 size (registration_block big size a p n v rest) fd w
        ≡ (if not (size == 10 + n + v)
              then skip
              else call_cb callbacks Slot.registration (registration_block e size a p n v rest) fd)
            w
  unfolding dispatch
  dispatch_registration_fields size a p n v rest enough ha hp hn hv =
      let header : Bytes = bytes16 e 6 ++ bytes16 e size in
      let fields : Bytes = header ++ (bytes32 e a ++ bytes16 e p) in
      else-step _ _ _ w enough (
        access-step _ _ w
          (swap32_in e header a (bytes16 big p ++ (bytes16 big n ++ (bytes16 big v ++ rest))) ha)
          (access-step _ _ w
            (swap16_in e (header ++ bytes32 e a) p (bytes16 big n ++ (bytes16 big v ++ rest)) hp)
            (access-step _ _ w (swap16_in e fields n (bytes16 big v ++ rest) hn) (
              access-step _ _ w (swap16_in e (fields ++ bytes16 e n) v rest hv) (
                access-step _ _ w (load16_host e fields n (bytes16 e v ++ rest) hn)
                  (access-step _ _ w (load16_host e (fields ++ bytes16 e n) v rest hv) refl))))))

  dispatch_registration :
      (a p : ℕ) (n v : Bytes) → InRange (registration a p n v) → Delivers (registration a p n v)
  dispatch_registration a p n v (ha, hp, hl) =
      let size = length_of (registration a p n v) in
      dispatch_registration_fields size a p (length n) (length v) (n ++ v)
        (ltb-eq-false size 10 (omega arith)) ha hp (omega arith) (omega arith)
      ∙ else-step (not (size == 10 + length n + length v)) _ _ w (size_matches a p n v) refl

  dispatch_peer_select :
      (a p s : ℕ) (n : Bytes) → InRange (peer_select a p s n) → Delivers (peer_select a p s n)
  unfolding dispatch
  dispatch_peer_select a p s n (ha, hp, hs, hl) =
      let size = length_of (peer_select a p s n) in
      let header : Bytes = bytes16 e 9 ++ bytes16 e size in
      elim (Bool-cases (leb 4 (length n))) [
        | inl long ↦ rw long (
            else-step _ _ _ w (ltb-eq-false size 12 (ground arith)) (
              access-step _ _ w (swap32_in e header a (bytes16 big p ++ (bytes16 big s ++ n)) ha) (
                access-step _ _ w (swap16_in e (header ++ bytes32 e a) p (bytes16 big s ++ n) hp) (
                  access-step _ _ w (swap16_in e (header ++ (bytes32 e a ++ bytes16 e p)) s n hs)
                    refl))))
        | inr short ↦ rw short (then-step _ _ _ w (lt→ltb size 12 (ground arith)) refl)
      ]

  delivers : (m : Message) → InRange m → Delivers m
  unfolding dispatch
  delivers (column s c) h = dispatch_column s c h
  delivers (column_ack s) h = dispatch_column_ack s h
  delivers (heartbeat c) h = refl
  delivers (heartbeat_ack c) h = refl
  delivers (error code text) h = dispatch_error code text h
  delivers (registration a p n v) h = dispatch_registration a p n v h
  delivers registration_ack h = refl
  delivers registration_error_ack h = refl
  delivers (peer_select a p s n) h = dispatch_peer_select a p s n h
  delivers peer_select_ack h = refl

  pub handle_incoming_message-arrived :
      (m : Message)
      → InRange m
      → handle_incoming_message e callbacks (arrived e m) fd w
        ≡ (if accepted m then call_cb callbacks (slot_of m) (layout e m) fd w else ok tt w)
  handle_incoming_message-arrived m h =
      header (type_of m) (length_of m) (body big m) (type_lt m) (omega (arith, fits_of_range m h))
      ∙ delivers m h
