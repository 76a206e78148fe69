-- ===== src/Client/Safety.antt =====
-- The client against everything that can happen to it.
use ws25_np.Prelude.{
  ℕ, ◌+◌, ◌%◌, ◌<◌, ◌^◌, ◌≡◌, ◌≢◌, refl, ap, sym, ◌∙◌, true, some, not, List, arith, length, inl,
  inr, Bool-cases,
}
use mathlib.Core.Path.{subst}
use ws25_np.Prelude.Int.{ℤ, pos, pos_part, ◌==ℤ◌, ==ℤ_iff}
use ws25_np.Prelude.Run.{ok, access-step, else-step, then-step, Keeps-weaken}
use ws25_np.System.{World}
use ws25_np.Memory.{Bytes, Endian}
use ws25_np.Board.{Board, player_1, valid_move, make_move, winner}
use ws25_np.Board.Turns.{winner-make_move}
use ws25_np.Protocol.{Buffer, received, failed, handle_incoming_message, handle_udp_message}
use ws25_np.Protocol.Fields.{AreBytes}
use ws25_np.Protocol.Total.{block, handle_incoming_message-total}
use ws25_np.Protocol.Untrusted.{handle_udp_message-PassesOn}
use ws25_np.Client.{
  Client, UnAck, TimerService, TimerCallback, transmit, heartbeat, ReadResult, read_failed,
  read_bytes, atoi, is_turn, make_own_move, on_stdin, client_callbacks, read_into,
}
use ws25_np.Client.Number.{IsTerminated, number, atoi-number, read_into-IsTerminated}
use ws25_np.Client.Pending
use ws25_np.Client.Loop.{Event, line, arrival, expiry, TimerLaws, Happens, on_event}
use ws25_np.Client.Invariant.{Tracked, IsConsistent, IsPlaying, IsOver, Leads, Leads-and_then}
use ws25_np.Client.Transmit.{
  send_column_message-Leads, transmit_column_message-Leads, send_heartbeat-Leads,
}
use ws25_np.Client.Answers.{call_cb-Leads, send_error_message-Leads}

module _ {service : TimerService} (laws : TimerLaws service) (e : Endian) where
  open service use {Timers, stop_timer}
  open laws use {callback_of, Fires, fires-callback, stop-live}

  -- An accepted move of the player.
  make_own_move-Leads :
      (address : ℕ) (move : ℤ) (w : World (Client Timers))
      → valid_move w.app.board move ≡ true
      → IsPlaying laws w.app
      → Leads laws (IsPlaying laws) (make_own_move e service address move w)
  unfolding make_own_move
  make_own_move-Leads address move w good (b, (hb, he, hn, hz, tracked), stacked, open_game) =
      let (b', made, stacked', outcome) =
        winner-make_move move player_1 (rw hb stacked) (λ e. absurd (ground arith))
          (rw hb open_game) good in
      subst (Leads laws (IsPlaying laws))
        (sym (access-step (make_move w.app.board move player_1) _ w made refl))
        (Leads-and_then laws (IsConsistent laws b') (IsPlaying laws) _ _
          (send_column_message-Leads laws e b' address (pos_part move % 2 ^ 16) _ (omega arith)
            (refl, he, hn, hz, tracked))
          λ _ w' h'. elim outcome [
            | inl open' ↦
                subst (Leads laws (IsPlaying laws))
                  (sym (
                    else-step (not (winner b' ==ℤ pos 0)) _ _ w' (ap not ((==ℤ_iff _ _).1 open'))
                      refl))
                  (b', h', stacked', open')
            | inr (won, four) ↦
                subst (Leads laws (IsPlaying laws))
                  (sym (
                    then-step (not (winner b' ==ℤ pos 0)) _ _ w' (winner_test b' won four.stone)
                      refl))
                  (b', h', stacked', (player_1, four))
          ])
    where
      winner_test : (b : Board) {v : ℤ} → winner b ≡ v → v ≢ pos 0 → not (winner b ==ℤ pos 0) ≡ true
      winner_test b e nz = ground (arith, ==ℤ_iff (winner b) (pos 0), e)

  on_stdin-Leads :
      (address : ℕ) (result : ReadResult) (w : World (Client Timers))
      → Happens laws (line address result) w
      → IsPlaying laws w.app
      → Leads laws (IsPlaying laws) (on_stdin e service address result w)
  unfolding on_stdin
  on_stdin-Leads address read_failed w _ h = h
  on_stdin-Leads address (read_bytes available) w (short, fits)
        (b, (hb, he, hn, hz, tracked), stacked, open_game) =
      let buffer = read_into available w.app.stdin_buffer in
      let ends : IsTerminated buffer =
        read_into-IsTerminated available w.app.stdin_buffer hz short in
      let w' : World (Client Timers) = record w {
        app = record (w.app) { stdin_buffer = buffer };
      } in
      let h' : IsPlaying laws w'.app = (b, (hb, he, hn, ends, tracked), stacked, open_game) in
      subst (Leads laws (IsPlaying laws))
        (sym (access-step (atoi buffer) _ w' (atoi-number buffer ends fits) refl))
        (elim (Bool-cases (is_turn e service w.app.state)) [
          | inr wait ↦ rw wait h'
          | inl mine ↦ rw mine (elim (Bool-cases (valid_move w.app.board (number buffer))) [
            | inr bad ↦ rw bad h'
            | inl good ↦ rw good (make_own_move-Leads address (number buffer) w' good h')
          ])
        ])

  -- A block of any type and content.
  incoming-Leads :
      (now t : ℕ) (content : Bytes) (fd : ℤ) (w : World (Client Timers))
      → t < 2 ^ 16
      → AreBytes content
      → 4 + length content < 2 ^ 16
      → IsPlaying laws w.app
      → Leads laws
          (IsPlaying laws)
          (handle_incoming_message e (client_callbacks e service now) (block e t content) fd w)
  incoming-Leads now t content fd w ht hc fits h =
      elim (handle_incoming_message-total e (client_callbacks e service now) fd w content hc fits t
        ht) [
          | inl (m, hm, _, run) ↦
              subst (Leads laws (IsPlaying laws)) (sym run) (call_cb-Leads laws e now m fd w hm h)
          | inr (inl run) ↦ subst (Leads laws (IsPlaying laws)) (sym run) h
          | inr (inr run) ↦
              subst (Leads laws (IsPlaying laws)) (sym run)
                (send_error_message-Leads laws e now fd w h)
        ]

  datagram-Leads :
      (now : ℕ) (buffer : Buffer) (bytes : Bytes) (fd : ℤ) (w : World (Client Timers))
      → buffer.filled_size ≡ 0
      → AreBytes bytes
      → length bytes < 2 ^ 16
      → IsPlaying laws w.app
      → Leads laws
          (IsPlaying laws)
          (handle_udp_message e (client_callbacks e service now) fd buffer (received bytes) w)
  datagram-Leads now buffer bytes fd w empty hb small h =
      let (r, passes, run) =
        handle_udp_message-PassesOn e (client_callbacks e service now) fd w buffer bytes empty hb in
      subst (Leads laws (IsPlaying laws)) (sym run) (
        Leads-and_then laws (IsPlaying laws) (IsPlaying laws) r _
          (elim passes [
            | inl nothing ↦ subst (Leads laws (IsPlaying laws)) (sym nothing) h
            | inr (t, content, ht, hc, fits, same) ↦
                subst (Leads laws (IsPlaying laws)) (sym same)
                  (incoming-Leads now t content fd w ht hc (omega arith) h)
          ])
          λ _ w' h'. h')

  -- A timer that expires is stopped first.
  Tracked-stop :
      (p : ℕ) (c : TimerCallback) (t : Timers) (items : List UnAck) (hb : ℕ)
      → Fires t p c
      → Tracked laws t items hb
      → (t' : Timers) × (stop_timer p t ≡ some t') × Tracked laws t' items hb
  Tracked-stop p c t items hb fires h =
      let (t', run, callbacks, fires') = stop-live p t c (fires-callback t p c fires) in
      (
        t',
        run,
        record {
          live = Pending.AreLive-change (callback_of t) _ items h.live (λ j _ _. callbacks j.timer);
          distinct = h.distinct;
          due = λ q a f. h.due q a (fires' q (transmit a) f).0;
          beats = callbacks hb ∙ h.beats;
        },
      )

  pub on_event-Leads :
      (event : Event) (w : World (Client Timers))
      → Happens laws event w
      → IsPlaying laws w.app
      → Leads laws (IsPlaying laws) (on_event e service event w)
  unfolding on_event handle_udp_message
  on_event-Leads (line address result) w happens h = on_stdin-Leads address result w happens h
  on_event-Leads (arrival now contents failed) w _ h = h
  on_event-Leads (arrival now contents (received bytes)) w (hb, small) h =
      Leads-and_then laws (IsPlaying laws) (IsPlaying laws) _ _
        (datagram-Leads now _ bytes w.app.socket_fd w refl hb small h) λ _ w' h'. h'
  on_event-Leads (expiry sent compared timer (transmit a)) w fires
        (b, (hb, he, hn, hz, h), stacked, open_game) =
      let (t', run, h') =
        Tracked-stop timer (transmit a) w.app.timers w.app.un_ack w.app.heartbeat_timer fires h in
      Keeps-weaken (λ u. IsConsistent laws b u.app) (λ u. IsPlaying laws u.app) (IsOver laws) _
        (λ w' h'. (b, h', stacked, open_game))
        (rw run (
          transmit_column_message-Leads laws e b a timer
            (record w { app = record (w.app) { timers = t' } }) (hb, he, hn, hz, h')
            (h.due timer a fires)))
  on_event-Leads (expiry sent compared timer heartbeat) w fires
        (b, (hb, he, hn, hz, h), stacked, open_game) =
      let (t', run, h') =
        Tracked-stop timer heartbeat w.app.timers w.app.un_ack w.app.heartbeat_timer fires h in
      Keeps-weaken (λ u. IsConsistent laws b u.app) (λ u. IsPlaying laws u.app) (IsOver laws) _
        (λ w' h'. (b, h', stacked, open_game))
        (rw run (
          send_heartbeat-Leads laws e b sent compared
            (record w { app = record (w.app) { timers = t' } }) (hb, he, hn, hz, h')))

  -- What a client can come to.
  pub data Reach (w : World (Client Timers)) : World (Client Timers) → Type 0 where
    here : Reach w w
    next :
        {u v : World (Client Timers)}
        → Reach w u
        → (event : Event) → Happens laws event u
        → on_event e service event u ≡ ok tt v
        → Reach w v

  pub Reach-IsPlaying :
      {w u : World (Client Timers)} → IsPlaying laws w.app → Reach w u → IsPlaying laws u.app
  Reach-IsPlaying h here = h
  Reach-IsPlaying h (next {u} {v} reach event happens run) =
      subst (Leads laws (IsPlaying laws)) run
        (on_event-Leads event u happens (Reach-IsPlaying h reach))
