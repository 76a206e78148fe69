-- ===== src/Wire/Packet.antt =====
-- `send_message` puts every message that fits on the wire as it should be.
use ws25_np.Prelude.{
  ℕ, zero, suc, ◌+◌, ◌-◌, ◌%◌, ◌^◌, ◌<◌, ◌≤◌, ◌≡◌, refl, ap, sym, ◌∙◌, inl, inr, none, some, [],
  ◌∷◌, ◌++◌, ◌==◌, false, true, length, replicate, arith, length-append, length-replicate,
  Bool-cases,
}
use ws25_np.Prelude.Maybe.{◌>>=◌, step}
use ws25_np.Memory.{Bytes, Endian, big, bytes16, bytes32, read_at, write_at, store16, ntohs}
use ws25_np.Memory.Fields.{
  read_at_start, write_at_start, load16_host, store16_part, swap16_out, swap32_out, bytes16-ntohs,
}
use ws25_np.Wire.{padded_message_size, c_string, to_network, copy_message, packet}
use ws25_np.Wire.Message.{
  Message, column, column_ack, heartbeat, heartbeat_ack, error, registration, registration_ack,
  registration_error_ack, peer_select, peer_select_ack, type_of, length_of, body, layout, padding,
  wire, InRange, has_nul, printable,
}

-- `padded_message_size` is the least multiple of four that is not below its argument.
pub padded_message_size_lem :
    (n : ℕ)
    → (padded_message_size n % 4 ≡ 0)
      × (n ≤ padded_message_size n)
      × (padded_message_size n < n + 4)
unfolding padded_message_size
padded_message_size_lem n = ground arith

pub padded_message_size-eq : (n : ℕ) → padded_message_size n ≡ n + (4 - n % 4) % 4
unfolding padded_message_size
padded_message_size-eq n = ground arith

module _ (x : ℕ) where
  replicate-add : (m n : ℕ) → replicate (m + n) x ≡ replicate m x ++ replicate n x
  replicate-add zero n = ap (λ k. replicate k x) (omega arith)
  replicate-add (suc m) n =
      ap (λ k. replicate k x) {x = suc m + n} {y = suc (m + n)} (omega arith)
      ∙ ap (λ t. x ∷ t) (replicate-add m n)

pub length-body : (e : Endian) (m : Message) → length (body e m) ≡ length_of m
length-body e (column s c) = refl
length-body e (column_ack s) = refl
length-body e (heartbeat c) = refl
length-body e _ = refl

-- `memcpy` into zeroed memory, the rest of which is padding.
write_at_zeros :
    (msg : Bytes)
    → write_at (replicate (padded_message_size (length msg)) 0) 0 msg
      ≡ some (msg ++ padding (length msg))
write_at_zeros msg =
    ap (λ m. write_at m 0 msg)
      (ap (λ k. replicate k 0) (padded_message_size-eq (length msg))
        ∙ replicate-add 0 (length msg) _)
    ∙ write_at_start msg (replicate (length msg) 0) _ (length-replicate (length msg) 0)

module _ (e : Endian) (t l : ℕ) (content extra : Bytes) (fits : 4 + length content < 2 ^ 16)
    (same : l ≡ length content) where
  abbrev zeros : Bytes
  zeros = padding (length (bytes16 e t ++ (bytes16 e l ++ content)))

  -- The copy of a block holds its header in network byte order, its content as it is, and padding.
  copy_message_lem :
      copy_message e t l (bytes16 e t ++ (bytes16 e l ++ (content ++ extra)))
      ≡ some (bytes16 big t ++ (bytes16 big l ++ (content ++ zeros)))
  unfolding copy_message
  copy_message_lem =
      let size : (4 + l) % 2 ^ 16 ≡ suc (suc (suc (suc (length content)))) = omega arith in
      rw size (
        step _ _ (read_at_start (bytes16 e t ++ (bytes16 e l ++ content)) extra) (
          step _ _ (write_at_zeros (bytes16 e t ++ (bytes16 e l ++ content))) (
            step _ _ (store16_part e [] t _ e (ntohs e t)) (
              store16_part e (bytes16 e (ntohs e t)) l _ e (ntohs e l)
              ∙ ap (λ b. some (b ++ (bytes16 e (ntohs e l) ++ (content ++ zeros))))
                  (bytes16-ntohs e t)
              ∙ ap (λ b. some (bytes16 big t ++ (b ++ (content ++ zeros)))) (bytes16-ntohs e l)))))

c_string_total : (m : Bytes) → has_nul m ≡ true → (text : Bytes) × (c_string m 0 ≡ some text)
unfolding c_string
c_string_total [] h = cc
c_string_total (x ∷ m) h = elim (Bool-cases (x == 0)) [
  | inl nul ↦ ([], rw nul)
  | inr other ↦ let (text, e) = c_string_total m (ground arith) in (x ∷ text, rw (other, e))
]

c_string_overrun : (m : Bytes) → has_nul m ≡ false → c_string m 0 ≡ none
unfolding c_string
c_string_overrun [] h = refl
c_string_overrun (x ∷ m) h = ground (arith, c_string_overrun m)

-- The copy of the block of a message, converted.
abbrev copied : Endian → Message → Bytes → Bytes
copied e m filling = bytes16 big (type_of m) ++ (bytes16 big (length_of m) ++ (body e m ++ filling))

peer_select_network :
    (e : Endian) (a port s : ℕ) (n filling : Bytes)
    → a < 2 ^ 32
    → port < 2 ^ 16
    → s < 2 ^ 16
    → to_network e 9 (copied e (peer_select a port s n) filling) ≡ (
        c_string (n ++ filling) 0 >>= λ text. some (layout big (peer_select a port s n) ++ filling))
unfolding to_network c_string
peer_select_network e a port s n filling ha hp hs =
    let header : Bytes = bytes16 big 9 ++ bytes16 big (length_of (peer_select a port s n)) in
    step _ _ (swap32_out e header a (bytes16 e port ++ (bytes16 e s ++ (n ++ filling))) ha) (
      step _ _ (swap16_out e (header ++ bytes32 big a) port (bytes16 e s ++ (n ++ filling)) hp) (
        step _ _ (swap16_out e (header ++ (bytes32 big a ++ bytes16 big port)) s (n ++ filling) hs)
          refl))

registration_network :
    (e : Endian) (a port : ℕ) (n w filling : Bytes)
    → a < 2 ^ 32
    → port < 2 ^ 16
    → length n < 2 ^ 16
    → length w < 2 ^ 16
    → to_network e 6 (copied e (registration a port n w) filling)
      ≡ some (layout big (registration a port n w) ++ filling)
unfolding to_network
registration_network e a port n w filling ha hp hn hw =
    let header : Bytes = bytes16 big 6 ++ bytes16 big (length_of (registration a port n w)) in
    let rest : Bytes = (n ++ w) ++ filling in
    step _ _
      (swap32_out e header a
        (bytes16 e port ++ (bytes16 e (length n) ++ (bytes16 e (length w) ++ rest))) ha)
      (step _ _
        (swap16_out e (header ++ bytes32 big a) port
          (bytes16 e (length n) ++ (bytes16 e (length w) ++ rest)) hp)
        (step _ _
          (swap16_out e (header ++ (bytes32 big a ++ bytes16 big port)) (length n)
            (bytes16 e (length w) ++ rest) hn)
          (swap16_out e (header ++ (bytes32 big a ++ (bytes16 big port ++ bytes16 big (length n))))
            (length w) rest hw)))

to_network_lem :
    (e : Endian) (m : Message)
    → InRange m
    → printable m ≡ true
    → to_network e (type_of m) (copied e m (padding (length (layout big m)))) ≡ some (wire m)
unfolding to_network
to_network_lem e (column s c) (hs, hc) p =
    let header : Bytes = bytes16 big 1 ++ bytes16 big 6 in
    step _ _ (swap16_out e (header ++ bytes32 e s) c _ hc)
      (swap32_out e header s (bytes16 big c ++ padding 10) hs)
to_network_lem e (column_ack s) h p = swap32_out e (bytes16 big 2 ++ bytes16 big 4) s _ h
to_network_lem e (heartbeat c) h p = refl
to_network_lem e (heartbeat_ack c) h p = refl
to_network_lem e (error code text) (hc, _) p =
    swap32_out e (bytes16 big 5 ++ bytes16 big (length_of (error code text))) code
      (text ++ padding (length (layout big (error code text)))) hc
to_network_lem e (registration a port n w) (ha, hp, hl) p =
    registration_network e a port n w _ ha hp (omega arith) (omega arith)
to_network_lem e registration_ack h p = refl
to_network_lem e registration_error_ack h p = refl
to_network_lem e (peer_select a port s n) (ha, hp, hs, hl) p =
    let (text, found) =
      c_string_total (n ++ padding (length (layout big (peer_select a port s n)))) p in
    peer_select_network e a port s n _ ha hp hs ∙ step _ _ found refl
to_network_lem e peer_select_ack h p = refl

pub fits_of_range : (m : Message) → InRange m → 4 + length_of m < 2 ^ 16
fits_of_range (column s c) h = omega arith
fits_of_range (column_ack s) h = omega arith
fits_of_range (heartbeat c) h = h
fits_of_range (heartbeat_ack c) h = h
fits_of_range (error code text) h = omega arith
fits_of_range (registration a p n w) h = omega (arith, length-append n w)
fits_of_range registration_ack h = omega arith
fits_of_range registration_error_ack h = omega arith
fits_of_range (peer_select a p s n) h = omega arith
fits_of_range peer_select_ack h = omega arith

pub type_lt : (m : Message) → type_of m < 2 ^ 16
type_lt registration_ack = omega arith
type_lt _ = omega arith

-- `send_message` reads the header and copies the block, whatever the message.
packet-copied :
    (e : Endian) (m : Message) (extra : Bytes)
    → 4 + length_of m < 2 ^ 16
    → packet e (layout e m ++ extra)
      ≡ to_network e (type_of m) (copied e m (padding (length (layout big m))))
unfolding packet
packet-copied e m extra fits = step _ _ (load16_host e [] (type_of m) _ (type_lt m)) (
    step _ _ (load16_host e (bytes16 e (type_of m)) (length_of m) _ (omega arith)) (
      step _ _
        (copy_message_lem e (type_of m) (length_of m) (body e m) extra
          (omega (arith, length-body e m)) (sym (length-body e m)))
        (ap (λ k. to_network e (type_of m) (copied e m (padding (suc (suc (suc (suc k)))))))
          (length-body e m))))

-- For a message whose numbers fit their fields and whose size fits a `uint16_t`, in the memory of a
-- host of either byte order and with anything behind it, `send_message` sends the message in the
-- format of the wire; a peer selection, if the `printf` of its name ends inside the block.
pub packet-layout :
    (e : Endian) (m : Message) (extra : Bytes)
    → InRange m
    → printable m ≡ true
    → packet e (layout e m ++ extra) ≡ some (wire m)
packet-layout e m extra h p = packet-copied e m extra (fits_of_range m h) ∙ to_network_lem e m h p

-- A peer selection whose fields are in range, with no NUL in its name and no padding behind it, makes
-- `send_message` read past the end of its block.
pub packet-peer_select_overrun :
    (e : Endian) (a port s : ℕ) (n extra : Bytes)
    → InRange (peer_select a port s n)
    → printable (peer_select a port s n) ≡ false
    → packet e (layout e (peer_select a port s n) ++ extra) ≡ none
packet-peer_select_overrun e a port s n extra h p =
    packet-copied e (peer_select a port s n) extra (fits_of_range (peer_select a port s n) h)
    ∙ peer_select_network e a port s n _ h.0 h.1 h.2
    ∙ ap (λ o. o >>= λ text. some (wire (peer_select a port s n))) (c_string_overrun _ p)

-- With any type, the length 65532 wraps the size to 0: `send_message` then writes the header past the end of an
-- empty block.
pub packet_wraps :
    (e : Endian) (t : ℕ) (content : Bytes)
    → t < 2 ^ 16
    → packet e (bytes16 e t ++ (bytes16 e 65532 ++ content)) ≡ none
unfolding packet store16 read_at
packet_wraps e t content ht =
    step _ _ (load16_host e [] t _ ht)
      (step _ _ (load16_host e (bytes16 e t) 65532 content (omega arith)) refl)
