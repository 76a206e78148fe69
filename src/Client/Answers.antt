-- ===== src/Client/Answers.antt =====
-- The callbacks of client.c keep the invariant, whatever the message in range.
use ws25_np.Prelude.{
  ℕ, ◌+◌, ◌<◌, ◌^◌, ◌≡◌, ◌≢◌, refl, ap, sym, ◌∙◌, false, some, not, List, [], ◌++◌, ◌==◌, arith,
  ltb, length, inl, inr, Bool-cases, Option-cases, ==_iff,
}
use mathlib.Core.Path.{subst}
use ws25_np.Prelude.Int.{ℤ, pos}
use ws25_np.Prelude.Run.{ok, access-step, then-step}
use ws25_np.System.{World}
use ws25_np.Memory.{Bytes, Endian, bytes16}
use ws25_np.Memory.Fields.{load16_host, store16_part}
use ws25_np.Board.{player_2, valid_move}
use ws25_np.Wire.{error_code_unknown_type}
use ws25_np.Wire.Message.{
  Message, column, column_ack, heartbeat, heartbeat_ack, error, registration, registration_ack,
  registration_error_ack, peer_select, peer_select_ack, layout, InRange,
}
use ws25_np.Protocol.{call_cb, send_error_message, unknown_text}
use ws25_np.Protocol.Receive.{slot_of}
use ws25_np.Client.{
  Client, UnAck, TimerService, TimerCallback, take_item, make_peer_move, on_column_message,
  on_column_ack_message, on_heartbeat_message, on_heartbeat_ack_message, on_error_message,
  client_callbacks,
}
use ws25_np.Client.Pending
use ws25_np.Client.Pending.{Taken}
use ws25_np.Client.Loop.{TimerLaws}
use ws25_np.Client.Invariant.{Tracked, IsPlaying, Leads, Leads-send}
use ws25_np.Client.Game.{
  played, expected_message, on_column_message_out_of_order, on_column_message-winner,
  on_column_ack_message_found, on_column_ack_message_unknown,
}

module _ {service : TimerService} (laws : TimerLaws service) (e : Endian) where
  open service use {Timers, stop_timer, delete_timer}
  open laws use {callback_of, Fires, stop-live, delete-live}

  -- The item of an acknowledged move is gone, and so is its timer, which is stopped and then deleted.
  Tracked-take_item :
      (t : Timers) (items : List UnAck) (hb : ℕ) (i : UnAck) (rest : List UnAck)
      → Tracked laws t items hb
      → Taken (callback_of t) items i rest
      → (t₁ : Timers) × (t₂ : Timers) × (stop_timer i.timer t ≡ some t₁)
        × (delete_timer i.timer t₁ ≡ some t₂)
        × Tracked laws t₂ rest hb
  Tracked-take_item t items hb i rest h taken =
      let (t₁, stops, callbacks₁, fires₁) = stop-live i.timer t _ taken.live.0 in
      let (t₂, deletes, callbacks₂, fires₂) =
        delete-live i.timer t₁ _ (callbacks₁ i.timer ∙ taken.live.0)
          (λ d f. (fires₁ i.timer d f).1 refl) in
      let kept : (q : ℕ) → q ≢ i.timer → callback_of t₂ q ≡ callback_of t q =
        λ q ne. callbacks₂ q ne ∙ callbacks₁ q in
      (
        t₁,
        t₂,
        stops,
        deletes,
        record {
          live = Pending.AreLive-change (callback_of t) _ rest taken.lives λ j held _.
              kept j.timer (Pending.Holds-Absent j.address j.timer i.timer rest taken.absent held);
          distinct = taken.distinct;
          due = λ q a f.
              let (f', other) = fires₁ q (TimerCallback.transmit a) (fires₂ q _ f) in
              elim (taken.kept a q (h.due q a f')) [
                | inl same ↦ absurd (other same)
                | inr held ↦ held
              ];
          beats =
              kept hb
                (λ same. let clash = sym h.beats ∙ ap (callback_of t) same ∙ taken.live.0 in cc)
              ∙ h.beats;
        },
      )

  -- A move of the peer in order, acknowledged but not made.
  module _ (w : World (Client Timers)) (c : ℕ) (fd : ℤ) (h : IsPlaying laws w.app) where
    refused :
        valid_move w.app.board (pos c) ≡ false
        → c < 2 ^ 16
        → on_column_message e service (layout e (column w.app.next_expected_sequence c)) fd w
          ≡ ok tt (played e service w.app.board w.app.state w)
    unfolding make_peer_move
    refused bad hc =
        expected_message e service w c fd hc (h.1.1)
        ∙ then-step (not (valid_move w.app.board (pos c))) _ _ _ (ap not bad) refl

    in_order :
        c < 2 ^ 16
        → Leads laws
            (IsPlaying laws)
            (on_column_message e service (layout e (column w.app.next_expected_sequence c)) fd w)
    in_order hc =
        let (b, (hb, he, hn, hz, tracked), stacked, open_game) = h in
        elim (Bool-cases (valid_move w.app.board (pos c))) [
          | inr bad ↦
              subst (Leads laws (IsPlaying laws)) (sym (refused bad hc))
                (b, (hb, omega arith, hn, hz, tracked), stacked, open_game)
          | inl good ↦
              let (b', made, stacked', outcome) =
                on_column_message-winner e service w c fd hc he (rw hb stacked) (rw hb open_game)
                  good in
              elim outcome [
                | inl (open', run) ↦
                    subst (Leads laws (IsPlaying laws)) (sym run)
                      (b', (refl, omega arith, hn, hz, tracked), stacked', open')
                | inr (four, run) ↦
                    subst (Leads laws (IsPlaying laws)) (sym run)
                      (b', (refl, omega arith, hn, hz, tracked), stacked', (player_2, four))
              ]
        ]

  on_column_message-Leads :
      (w : World (Client Timers)) (s c : ℕ) (fd : ℤ)
      → InRange (column s c)
      → IsPlaying laws w.app
      → Leads laws (IsPlaying laws) (on_column_message e service (layout e (column s c)) fd w)
  on_column_message-Leads w s c fd (hs, hc) h =
      elim (Bool-cases (s == w.app.next_expected_sequence)) [
        | inl same ↦
            let next : s ≡ w.app.next_expected_sequence = (==_iff _ _).0 same in
            subst
              (λ s.
                Leads laws (IsPlaying laws)
                  (on_column_message e service (layout e (column s c)) fd w))
              (sym next) (in_order w c fd h hc)
        | inr other ↦
            subst (Leads laws (IsPlaying laws))
              (sym (
                on_column_message_out_of_order e service w s c fd hs (h.1.1)
                  (λ same. ground (arith, ==_iff s w.app.next_expected_sequence))))
              (elim (Bool-cases (ltb s w.app.next_expected_sequence)) [
                | inl old ↦ rw old h
                | inr later ↦ rw later h
              ])
      ]

  on_column_ack_message-Leads :
      (w : World (Client Timers)) (s : ℕ) (fd : ℤ)
      → s < 2 ^ 32
      → IsPlaying laws w.app
      → Leads laws (IsPlaying laws) (on_column_ack_message e service (layout e (column_ack s)) fd w)
  on_column_ack_message-Leads w s fd hs (b, (hb, he, hn, hz, tracked), stacked, open_game) =
      elim (Option-cases (take_item s w.app.un_ack)) [
        | inl missing ↦
            subst (Leads laws (IsPlaying laws))
              (sym (on_column_ack_message_unknown e service w s fd hs missing))
              (b, (hb, he, hn, hz, tracked), stacked, open_game)
        | inr ((i, items), found) ↦
            let (t₁, t₂, stops, deletes, tracked') =
              Tracked-take_item w.app.timers w.app.un_ack w.app.heartbeat_timer i items tracked (
                Pending.take_item-Taken (callback_of w.app.timers) s w.app.un_ack tracked.live
                  tracked.distinct found) in
            subst (Leads laws (IsPlaying laws))
              (sym
                (on_column_ack_message_found e service w s fd i items t₁ t₂ hs found stops deletes))
              (b, (hb, he, hn, hz, tracked'), stacked, open_game)
      ]

  on_heartbeat_message-Leads :
      (w : World (Client Timers)) (content : Bytes) (fd : ℤ)
      → 4 + length content < 2 ^ 16
      → IsPlaying laws w.app
      → Leads laws
          (IsPlaying laws)
          (on_heartbeat_message e service (layout e (heartbeat content)) fd w)
  unfolding on_heartbeat_message
  on_heartbeat_message-Leads w content fd fits h =
      subst (Leads laws (IsPlaying laws))
        (sym (
          access-step _ _ w (store16_part e [] 3 (bytes16 e (length content) ++ content) e 4) refl))
        (Leads-send laws (IsPlaying laws) e (heartbeat_ack content) w.app.socket_fd w fits refl h)

  on_heartbeat_ack_message-Leads :
      (now : ℕ) (w : World (Client Timers)) (content : Bytes) (fd : ℤ)
      → 4 + length content < 2 ^ 16
      → IsPlaying laws w.app
      → Leads laws
          (IsPlaying laws)
          (on_heartbeat_ack_message e service now (layout e (heartbeat_ack content)) fd w)
  unfolding on_heartbeat_ack_message
  on_heartbeat_ack_message-Leads now w content fd fits h =
      subst (Leads laws (IsPlaying laws))
        (sym (
          access-step _ _ w (load16_host e (bytes16 e 4) (length content) content (omega arith))
            refl))
        (elim (Bool-cases (ltb (length content) 8)) [
          | inl short ↦ rw short h
          | inr long ↦ rw long h
        ])

  -- Whatever message in range arrives, its callback keeps the invariant.
  pub call_cb-Leads :
      (now : ℕ) (m : Message) (fd : ℤ) (w : World (Client Timers))
      → InRange m
      → IsPlaying laws w.app
      → Leads laws
          (IsPlaying laws)
          (call_cb (client_callbacks e service now) (slot_of m) (layout e m) fd w)
  unfolding call_cb client_callbacks on_error_message
  call_cb-Leads now (column s c) fd w h p = on_column_message-Leads w s c fd h p
  call_cb-Leads now (column_ack s) fd w h p = on_column_ack_message-Leads w s fd h p
  call_cb-Leads now (heartbeat c) fd w h p = on_heartbeat_message-Leads w c fd h p
  call_cb-Leads now (heartbeat_ack c) fd w h p = on_heartbeat_ack_message-Leads now w c fd h p
  call_cb-Leads now (error code text) fd w h p = p
  call_cb-Leads now (registration a po n v) fd w h p = p
  call_cb-Leads now registration_ack fd w h p = p
  call_cb-Leads now registration_error_ack fd w h p = p
  call_cb-Leads now (peer_select a po s n) fd w h p = p
  call_cb-Leads now peer_select_ack fd w h p = p

  -- The answer to an unknown type.
  pub send_error_message-Leads :
      (now : ℕ) (fd : ℤ) (w : World (Client Timers))
      → IsPlaying laws w.app
      → Leads laws (IsPlaying laws) (
          send_error_message e error_code_unknown_type
            (unknown_text e (client_callbacks e service now))
            fd
            w)
  unfolding send_error_message
  send_error_message-Leads now fd w h =
      Leads-send laws (IsPlaying laws) e (error 1 (unknown_text e (client_callbacks e service now)))
        fd w (omega arith, omega arith) refl h
