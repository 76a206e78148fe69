-- ===== src/Protocol/Total.antt =====
-- `handle_incoming_message` on arbitrary content: it is a message, it is dropped, or it is answered.
use native.Mathlib.Decide.{dec_lt}
use ws25_np.Prelude.{
  ℕ, zero, suc, ◌+◌, ◌^◌, ◌<◌, ◌≤◌, ◌≡◌, refl, ap, sym, ◌∙◌, ◌⊎◌, inl, inr, true, false, not, [],
  ◌++◌, ◌==◌, if◌then◌else◌, arith, ltb, length, take, drop, Bool-cases, ==_iff, length-take,
  length-drop, take-append-drop, le→leb, lt→ltb, ltb-eq-false,
}
use ws25_np.Prelude.Int.{ℤ}
use ws25_np.Prelude.Run.{ok, else-step, then-step}
use ws25_np.System.{World}
use ws25_np.Memory.{Bytes, Endian, big, bytes16, bytes32}
use ws25_np.Wire.{error_code_unknown_type}
use ws25_np.Wire.Message.{
  Message, type_of, body, layout, InRange, column, column_ack, heartbeat, heartbeat_ack, error,
  registration, registration_ack, registration_error_ack, peer_select, peer_select_ack,
}
use ws25_np.Protocol.{
  Callbacks, call_cb, dispatch, handle_incoming_message, send_error_message, unknown_text,
}
use ws25_np.Protocol.Receive.{
  slot_of, accepted, header, dispatch_registration_fields, handle_incoming_message-arrived,
}
use ws25_np.Protocol.Fields.{AreBytes, field16, field32, nil_of_length}

-- A block as the handlers of arriving data pass it on.
abbrev pub block : Endian → ℕ → Bytes → Bytes
block e t content = bytes16 e t ++ (bytes16 e (length content) ++ content)

-- What becomes of a block: the callback of a message in range gets the message, or nothing happens, or
-- an error is sent back.
abbrev pub Handled : {S : Type 0} → Endian → Callbacks S → ℤ → World S → ℕ → Bytes → Type 0
Handled e callbacks fd w t content =
    ((m : Message) × InRange m
      × (type_of m ≡ t)
      × (handle_incoming_message e callbacks (block e t content) fd w
          ≡ call_cb callbacks (slot_of m) (layout e m) fd w))
    ⊎ (handle_incoming_message e callbacks (block e t content) fd w ≡ ok tt w)
    ⊎ (handle_incoming_message e callbacks (block e t content) fd w
        ≡ send_error_message e error_code_unknown_type (unknown_text e callbacks) fd w)

module _ {S : Type 0} (e : Endian) (callbacks : Callbacks S) (fd : ℤ) (w : World S) where
  -- Content that is the body of a message.
  delivered :
      (m : Message) (content : Bytes)
      → InRange m
      → accepted m ≡ true
      → content ≡ body big m
      → Handled e callbacks fd w (type_of m) content
  delivered m content h a same = inl (
    m,
    h,
    refl,
    ap (λ c. handle_incoming_message e callbacks (block e (type_of m) c) fd w) same
        ∙ handle_incoming_message-arrived e callbacks fd w m h
        ∙ ap (λ b. (if b then call_cb callbacks (slot_of m) (layout e m) fd w else ok tt w)) a,
  )

  -- A block that `dispatch` drops.
  dropped :
      (t : ℕ) (content : Bytes)
      → t < 2 ^ 16
      → length content < 2 ^ 16
      → dispatch e callbacks t (length content) (block e t content) fd w ≡ ok tt w
      → Handled e callbacks fd w t content
  dropped t content ht hl h =
      inr (inl (header e callbacks fd w t (length content) content ht hl ∙ h))

  dispatch_unknown :
      (t l : ℕ) (msg : Bytes)
      → 10 < t
      → dispatch e callbacks t l msg fd w
        ≡ send_error_message e error_code_unknown_type (unknown_text e callbacks) fd w
  unfolding dispatch
  dispatch_unknown t l msg h = else-step (t == 1) _ _ w (other 1 (omega arith)) (
      else-step (t == 2) _ _ w (other 2 (omega arith)) (
        else-step (t == 3) _ _ w (other 3 (omega arith)) (
          else-step (t == 4) _ _ w (other 4 (omega arith)) (
            else-step (t == 5) _ _ w (other 5 (omega arith)) (
              else-step (t == 6) _ _ w (other 6 (omega arith)) (
                else-step (t == 7) _ _ w (other 7 (omega arith)) (
                  else-step (t == 8) _ _ w (other 8 (omega arith)) (
                    else-step (t == 9) _ _ w (other 9 (omega arith))
                      (else-step (t == 10) _ _ w (other 10 (omega arith)) refl)))))))))
    where
      other : (k : ℕ) → k ≤ 10 → (t == k) ≡ false
      other k hk = ground (arith, ==_iff t k)

  module _ (content : Bytes) (bytes : AreBytes content) (fits : 4 + length content < 2 ^ 16) where
    total_column : Handled e callbacks fd w 1 content
    unfolding dispatch
    total_column = elim (Bool-cases (length content == 6)) [
      | inr other ↦
          dropped 1 content (omega arith) (omega arith)
            (then-step (not (length content == 6)) _ _ w (ap not other) refl)
      | inl size ↦
          let (s, r₁, hs, e₁, b₁) = field32 content bytes (ground arith) in
          let (c, r₂, hc, e₂, b₂) = field16 r₁ b₁ (ground (arith, ap length e₁)) in
          let none_left = nil_of_length r₂ (ground (arith, ap length e₁, ap length e₂)) in
          delivered (column s c) content (hs, hc) refl
            (e₁ ∙ ap (λ r. bytes32 big s ++ r) (e₂ ∙ ap (λ r. bytes16 big c ++ r) none_left))
    ]

    total_column_ack : Handled e callbacks fd w 2 content
    unfolding dispatch
    total_column_ack = elim (Bool-cases (length content == 4)) [
      | inr other ↦
          dropped 2 content (omega arith) (omega arith)
            (then-step (not (length content == 4)) _ _ w (ap not other) refl)
      | inl size ↦
          let (s, r, hs, e₁, b) = field32 content bytes (ground arith) in
          delivered (column_ack s) content hs refl
            (e₁ ∙ ap (λ r. bytes32 big s ++ r) (nil_of_length r (ground (arith, ap length e₁))))
    ]

    total_error : Handled e callbacks fd w 5 content
    unfolding dispatch
    total_error = elim (dec_lt (length content) 4) [
      | yes short ↦
          dropped 5 content (omega arith) (omega arith)
            (then-step (ltb (length content) 4) _ _ w (lt→ltb _ _ short) refl)
      | no long ↦
          let (code, text, hc, e₁, b) = field32 content bytes (omega arith) in
          delivered (error code text) content (hc, omega (arith, ap length e₁)) refl e₁
    ]

    total_registration : Handled e callbacks fd w 6 content
    unfolding dispatch
    total_registration = elim (dec_lt (length content) 10) [
      | yes short ↦
          dropped 6 content (omega arith) (omega arith)
            (then-step (ltb (length content) 10) _ _ w (lt→ltb _ _ short) refl)
      | no long ↦
          let (a, r₁, ha, e₁, b₁) = field32 content bytes (omega arith) in
          let (p, r₂, hp, e₂, b₂) = field16 r₁ b₁ (omega (arith, ap length e₁)) in
          let (n, r₃, hn, e₃, b₃) = field16 r₂ b₂ (omega (arith, ap length e₁, ap length e₂)) in
          let (v, rest, hv, e₄, b₄) =
            field16 r₃ b₃ (omega (arith, ap length e₁, ap length e₂, ap length e₃)) in
          registration_content a p n v rest ha hp hn hv (
            e₁
            ∙ ap (λ r. bytes32 big a ++ r)
                (e₂ ∙ ap (λ r. bytes16 big p ++ r) (e₃ ∙ ap (λ r. bytes16 big n ++ r) e₄)))
    ]
      where
        registration_content :
            (a p n v : ℕ) (rest : Bytes)
            → a < 2 ^ 32
            → p < 2 ^ 16
            → n < 2 ^ 16
            → v < 2 ^ 16
            → content
              ≡ bytes32 big a ++ (bytes16 big p ++ (bytes16 big n ++ (bytes16 big v ++ rest)))
            → Handled e callbacks fd w 6 content
        registration_content a p n v rest ha hp hn hv same =
            elim (Bool-cases (length content == 10 + n + v)) [
              | inr other ↦ dropped 6 content (omega arith) (omega arith) (
                  ap
                    (λ c.
                      dispatch e callbacks 6 (length content)
                        (bytes16 e 6 ++ (bytes16 e (length content) ++ c)) fd w)
                    same
                  ∙ dispatch_registration_fields e callbacks fd w (length content) a p n v rest
                      (ltb-eq-false _ _ (omega (arith, ap length same))) ha hp hn hv
                  ∙ then-step (not (length content == 10 + n + v)) _ _ w (ap not other) refl)
              | inl size ↦
                  let sizes = ap length same in
                  let name_size : length (take n rest) ≡ n = ground (arith, length-take n rest) in
                  let password_size : length (drop n rest) ≡ v =
                    ground (arith, length-drop n rest) in
                  delivered (registration a p (take n rest) (drop n rest)) content
                    (ha, hp, omega (arith, (==_iff _ _).0 size, name_size, password_size)) refl
                    (same
                      ∙ ap (λ r. bytes32 big a ++ (bytes16 big p ++ r))
                          (ap (λ (k : ℕ × ℕ). bytes16 big k.0 ++ (bytes16 big k.1 ++ rest))
                              {y = (length (take n rest), length (drop n rest))}
                              (λ i. (sym name_size i, sym password_size i))
                            ∙ ap
                                (λ r.
                                  bytes16 big (length (take n rest))
                                  ++ (bytes16 big (length (drop n rest)) ++ r))
                                (sym (take-append-drop n rest))))
            ]

    total_peer_select : Handled e callbacks fd w 9 content
    unfolding dispatch
    total_peer_select = elim (dec_lt (length content) 12) [
      | yes short ↦
          dropped 9 content (omega arith) (omega arith)
            (then-step (ltb (length content) 12) _ _ w (lt→ltb _ _ short) refl)
      | no long ↦
          let (a, r₁, ha, e₁, b₁) = field32 content bytes (omega arith) in
          let (p, r₂, hp, e₂, b₂) = field16 r₁ b₁ (omega (arith, ap length e₁)) in
          let (s, name, hs, e₃, b₃) = field16 r₂ b₂ (omega (arith, ap length e₁, ap length e₂)) in
          let sizes : length content ≡ 8 + length name =
            omega (arith, ap length e₁, ap length e₂, ap length e₃) in
          delivered (peer_select a p s name) content (ha, hp, hs, omega arith)
            (le→leb 4 (length name) (omega arith))
            (e₁ ∙ ap (λ r. bytes32 big a ++ r) (e₂ ∙ ap (λ r. bytes16 big p ++ r) e₃))
    ]

    -- The types whose messages have no content.
    total_empty :
        (m : Message)
        → body big m ≡ []
        → InRange m
        → accepted m ≡ true
        → type_of m < 2 ^ 16
        → ((not (length content == 0) ≡ true)
            → dispatch e callbacks (type_of m) (length content) (block e (type_of m) content) fd w
              ≡ ok tt w)
        → Handled e callbacks fd w (type_of m) content
    total_empty m no_body h a small drops = elim (Bool-cases (length content == 0)) [
      | inl size ↦ delivered m content h a (nil_of_length content (ground arith) ∙ sym no_body)
      | inr other ↦ dropped (type_of m) content small (omega arith) (drops (ap not other))
    ]

    unknown :
        (t : ℕ)
        → t < 2 ^ 16
        → dispatch e callbacks t (length content) (block e t content) fd w
          ≡ send_error_message e error_code_unknown_type (unknown_text e callbacks) fd w
        → Handled e callbacks fd w t content
    unknown t ht h =
        inr (inr (header e callbacks fd w t (length content) content ht (omega arith) ∙ h))

    -- Whatever the type and the content of a block are: `handle_incoming_message` hands a message in
    -- range of that type to its callback or the default one, does nothing, or answers with an error.
    pub handle_incoming_message-total : (t : ℕ) → t < 2 ^ 16 → Handled e callbacks fd w t content
    unfolding dispatch
    handle_incoming_message-total zero h = unknown 0 h refl
    handle_incoming_message-total (suc zero) h = total_column
    handle_incoming_message-total (suc (suc zero)) h = total_column_ack
    handle_incoming_message-total (suc (suc (suc zero))) h =
        delivered (heartbeat content) content fits refl refl
    handle_incoming_message-total (suc (suc (suc (suc zero)))) h =
        delivered (heartbeat_ack content) content fits refl refl
    handle_incoming_message-total (suc (suc (suc (suc (suc zero))))) h = total_error
    handle_incoming_message-total (suc (suc (suc (suc (suc (suc zero)))))) h = total_registration
    handle_incoming_message-total (suc (suc (suc (suc (suc (suc (suc zero))))))) h =
        total_empty registration_ack refl tt refl h (λ other. then-step _ _ _ w other refl)
    handle_incoming_message-total (suc (suc (suc (suc (suc (suc (suc (suc zero)))))))) h =
        total_empty registration_error_ack refl tt refl h (λ other. then-step _ _ _ w other refl)
    handle_incoming_message-total (suc (suc (suc (suc (suc (suc (suc (suc (suc zero))))))))) h =
        total_peer_select
    handle_incoming_message-total (suc (suc (suc (suc (suc (suc (suc (suc (suc (suc zero))))))))))
          h =
        total_empty peer_select_ack refl tt refl h (λ other. then-step _ _ _ w other refl)
    handle_incoming_message-total
          (suc (suc (suc (suc (suc (suc (suc (suc (suc (suc (suc t))))))))))) h =
        unknown (suc (suc (suc (suc (suc (suc (suc (suc (suc (suc (suc t))))))))))) h (
          dispatch_unknown (suc (suc (suc (suc (suc (suc (suc (suc (suc (suc (suc t)))))))))))
            (length content) _ (omega arith))
