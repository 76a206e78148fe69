-- ===== src/Protocol/Untrusted.antt =====
-- `handle_udp_message` on arbitrary datagrams.
use ws25_np.Prelude.{
  ℕ, zero, suc, ◌+◌, ◌^◌, ◌<◌, ◌≤◌, ◌≡◌, refl, ap, sym, ◌⊎◌, inl, inr, not, [], ◌∷◌, ◌++◌, ◌==◌,
  arith, ltb, length, take, drop, Bool-cases, ==_iff, length-take, ltb-eq-false,
}
use ws25_np.Prelude.Int.{ℤ}
use ws25_np.Prelude.Run.{Run, ok, and_then, pure, access-step, else-step, then-step}
use ws25_np.System.{World}
use ws25_np.Memory.{Bytes, Endian, little, big, bytes16, value16, ntohs, load16}
use ws25_np.Wire.{padded_message_size}
use ws25_np.Wire.Packet.{padded_message_size_lem}
use ws25_np.Protocol.{
  Callbacks, Buffer, received, overwrite, datagram, handle_incoming_message, handle_udp_message,
}
use ws25_np.Protocol.Stream.{net16}
use ws25_np.Protocol.Chunks.{take_message-lem}
use ws25_np.Protocol.Fields.{IsByte, AreBytes}
use ws25_np.Protocol.Total.{block}

net16-lt : (e : Endian) (a b : ℕ) → IsByte a → IsByte b → net16 e a b < 2 ^ 16
unfolding ntohs value16
net16-lt little a b ha hb = omega arith
net16-lt big a b ha hb = omega arith

AreBytes-take : (n : ℕ) (xs : Bytes) → AreBytes xs → AreBytes (take n xs)
AreBytes-take zero [] h = tt
AreBytes-take zero (x ∷ xs) h = tt
AreBytes-take (suc n) [] h = tt
AreBytes-take (suc n) (x ∷ xs) (hx, h) = (hx, AreBytes-take n xs h)

-- A run that only passes a block on.
abbrev pub PassesOn :
    {S : Type 0} → Endian → Callbacks S → ℤ → World S → ℕ → Run (World S) (Unit {0}) → Type 0
PassesOn e callbacks fd w size r =
    (r ≡ ok tt w)
    ⊎ ((t : ℕ) × (content : Bytes) × (t < 2 ^ 16)
        × AreBytes content
        × (4 + length content ≤ size)
        × (r ≡ handle_incoming_message e callbacks (block e t content) fd w))

module _ {S : Type 0} (e : Endian) (callbacks : Callbacks S) (fd : ℤ) (w : World S) where
  datagram-PassesOn :
      (bytes dead : Bytes)
      → AreBytes bytes
      → PassesOn e callbacks fd w
          (length bytes)
          (datagram e callbacks fd (length bytes) (bytes ++ dead) w)
  unfolding datagram load16
  datagram-PassesOn [] dead h = inl refl
  datagram-PassesOn (a ∷ []) dead h = inl refl
  datagram-PassesOn (a ∷ b ∷ []) dead h = inl refl
  datagram-PassesOn (a ∷ b ∷ c ∷ []) dead h = inl refl
  datagram-PassesOn (t₁ ∷ t₀ ∷ l₁ ∷ l₀ ∷ rest) dead (ht₁, (ht₀, (hl₁, (hl₀, h)))) =
      let size = suc (suc (suc (suc (length rest)))) in
      let l = net16 e l₁ l₀ in
      elim (Bool-cases (size == padded_message_size (4 + l))) [
        | inr other ↦ inl (
            else-step (ltb size 4) _ _ w (ltb-eq-false size 4 (omega arith))
              (then-step (not (size == padded_message_size (4 + l))) _ _ w (ap not other) refl))
        | inl same ↦
            let fits : l ≤ length rest = ground (arith, padded_message_size_lem (4 + l)) in
            let taken : length (take l rest) ≡ l = omega (arith, length-take l rest) in
            inr (
              net16 e t₁ t₀,
              take l rest,
              net16-lt e t₁ t₀ ht₁ ht₀,
              AreBytes-take l rest h,
              omega arith,
              else-step (ltb size 4) _ _ w (ltb-eq-false size 4 (omega arith)) (
                  else-step (not (size == padded_message_size (4 + l))) _ _ w (ap not same) (
                    access-step _ _ w
                      (take_message-lem e (net16 e t₁ t₀) l t₁ t₀ l₁ l₀ rest dead fits)
                      (ap
                        (λ n.
                          handle_incoming_message e callbacks
                            (bytes16 e (net16 e t₁ t₀) ++ (bytes16 e n ++ take l rest)) fd w)
                        (sym taken)))),
            )
      ]

  pub handle_udp_message-PassesOn :
      (buffer : Buffer) (bytes : Bytes)
      → buffer.filled_size ≡ 0
      → AreBytes bytes
      → (r : Run (World S) (Unit {0})) × PassesOn e callbacks fd w (length bytes) r
        × (handle_udp_message e callbacks fd buffer (received bytes) w
            ≡ and_then r (λ _. pure (overwrite bytes buffer)))
  unfolding handle_udp_message
  handle_udp_message-PassesOn buffer bytes empty h = (
    datagram e callbacks fd (length bytes) (bytes ++ drop (length bytes) buffer.contents) w,
    datagram-PassesOn bytes (drop (length bytes) buffer.contents) h,
    else-step (not (buffer.filled_size == 0)) _ _ w (ap not ((==_iff buffer.filled_size 0).1 empty))
        refl,
  )
