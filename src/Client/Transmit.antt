-- ===== src/Client/Transmit.antt =====
-- What client.c sends by itself: moves, again and again, and heartbeats.
use ws25_np.Prelude.{
  ℕ, ◌*◌, ◌%◌, ◌<◌, ◌^◌, ◌≡◌, ◌≢◌, refl, ap, sym, ◌∙◌, false, List, [], ◌∷◌, ◌++◌, ◌==◌, some,
  arith, inl, inr, Bool-cases, ==_iff, length,
}
use ws25_np.Prelude.Int.{pos, sub_ℕ, ltb_ℤ}
use ws25_np.Prelude.Run.{ok}
use ws25_np.System.{World}
use ws25_np.Memory.{Endian, little, big, bytes16}
use ws25_np.Board.{Board}
use ws25_np.Wire.Message.{column, heartbeat}
use ws25_np.Client.{
  Client, UnAck, TimerService, TimerCallback, transmit, set_timeout, heartbeat_content,
  transmit_column_message, send_column_message, send_heartbeat, default_retransmission_time,
  heartbeat_interval,
}
use ws25_np.Client.Pending
use ws25_np.Client.Pending.{Holds, Absent, Distinct, IsLive, AreLive}
use ws25_np.Client.Loop.{TimerLaws}
use ws25_np.Client.Invariant.{Tracked, IsConsistent, Leads, Leads-and_then, Leads-sent}

transmit_inj : {a b : ℕ} → some (transmit a) ≡ some (transmit b) → a ≡ b
transmit_inj e = cc

not_transmit : {a : ℕ} → some (transmit a) ≢ some TimerCallback.heartbeat
not_transmit e = cc

length-heartbeat_content : (e : Endian) (t : ℕ) → length (heartbeat_content e t) ≡ 8
length-heartbeat_content little t = refl
length-heartbeat_content big t = refl

unlike : (p q : ℕ) → q ≢ p → (p == q) ≡ false
unlike p q ne = ground (arith, ==_iff p q)

module _ {service : TimerService} (laws : TimerLaws service) where
  open service use {Timers, create_timer, start_timer}
  open laws use {
    callback_of, Fires, fires-callback, create-fresh, create-callback, create-fires, start-live,
  }

  -- The timer of a live item may be started.
  Tracked-start :
      (t : Timers) (items : List UnAck) (hb : ℕ) (i : UnAck) (k : ℕ)
      → Tracked laws t items hb
      → IsLive (callback_of t) i
      → Holds i.address i.timer items
      → (t' : Timers) × (start_timer i.timer k t ≡ some t') × Tracked laws t' items hb
  Tracked-start t items hb i k h live held =
      let (t', run, callbacks, fires) = start-live i.timer k t _ live.0 in
      (
        t',
        run,
        record {
          live = Pending.AreLive-change (callback_of t) _ items h.live (λ j _ _. callbacks j.timer);
          distinct = h.distinct;
          due = λ q a f. elim (fires q (transmit a) f) [
            | inr old ↦ h.due q a old
            | inl same ↦
                let own : a ≡ i.address = transmit_inj (
                  sym (fires-callback t' q (transmit a) f)
                  ∙ callbacks q
                  ∙ ap (callback_of t) same
                  ∙ live.0) in
                rw (own, same) held
          ];
          beats = callbacks hb ∙ h.beats;
        },
      )

  Tracked-set_timeout :
      (t : Timers) (items : List UnAck) (hb a k : ℕ)
      → Tracked laws t items hb
      → Tracked laws t (set_timeout a k items) hb
  Tracked-set_timeout t items hb a k h = record {
    live = Pending.AreLive-set_timeout (callback_of t) a k items h.live;
    distinct = Pending.Distinct-set_timeout a k items h.distinct;
    due = λ q a' f. Pending.Holds-set_timeout a' q a k items (h.due q a' f);
    beats = h.beats;
  }

  -- The timer of the heartbeats may be started.
  pub Tracked-beat :
      (t : Timers) (items : List UnAck) (hb k : ℕ)
      → Tracked laws t items hb
      → (t' : Timers) × (start_timer hb k t ≡ some t') × Tracked laws t' items hb
  Tracked-beat t items hb k h =
      let (t', run, callbacks, fires) = start-live hb k t _ h.beats in
      (
        t',
        run,
        record {
          live = Pending.AreLive-change (callback_of t) _ items h.live (λ j _ _. callbacks j.timer);
          distinct = h.distinct;
          due = λ q a f. elim (fires q (transmit a) f) [
            | inr old ↦ h.due q a old
            | inl same ↦ absurd (
                not_transmit (
                  sym (fires-callback t' q (transmit a) f)
                  ∙ callbacks q
                  ∙ ap (callback_of t) same
                  ∙ h.beats))
          ];
          beats = callbacks hb ∙ h.beats;
        },
      )

  -- A new move with a new timer.
  Tracked-create :
      (t : Timers) (items : List UnAck) (hb a s move k : ℕ)
      → s < 2 ^ 32
      → move < 2 ^ 16
      → Tracked laws t items hb
      → let (p, t') = create_timer (transmit a) t in
        Tracked laws t'
          (items
            ++ (record { address = a; sequence = s; column = move; timer = p; next_timeout = k }
                ∷ []))
          hb
  Tracked-create t items hb a s move k hs hc h =
      let p = (create_timer (transmit a) t).0 in
      let item : UnAck = record {
        address = a;
        sequence = s;
        column = move;
        timer = p;
        next_timeout = k;
      } in
      let out : Absent p items =
        Pending.Absent-of_none (callback_of t) p items (create-fresh (transmit a) t) h.live in
      record {
        live =
            Pending.AreLive-append _ items item
              (Pending.AreLive-change (callback_of t) _ items h.live (λ j held _.
                create-callback (transmit a) t j.timer
                ∙ rw (unlike p j.timer (Pending.Holds-Absent j.address j.timer p items out held))))
              (create-callback (transmit a) t p ∙ rw ((==_iff p p).1 refl), hs, hc);
        distinct = Pending.Distinct-append items item h.distinct out;
        due = λ q a' f.
            Pending.Holds-append a' q items item
              (h.due q a' (create-fires (transmit a) (transmit a') t q f));
        beats =
            create-callback (transmit a) t hb
            ∙ rw
                (unlike p hb (λ e.
                  let clash = sym h.beats ∙ ap (callback_of t) e ∙ create-fresh (transmit a) t in
                  cc))
                h.beats;
      }

module _ {service : TimerService} (laws : TimerLaws service) (e : Endian) (b : Board) where
  open service use {Timers, create_timer, start_timer}
  open laws use {callback_of}

  -- A move that is held is sent, and its timer started.
  pub transmit_column_message-Leads :
      (a q : ℕ) (w : World (Client Timers))
      → IsConsistent laws b w.app
      → Holds a q w.app.un_ack
      → Leads laws (IsConsistent laws b) (transmit_column_message e service a w)
  unfolding transmit_column_message
  transmit_column_message-Leads a q w (hb, he, hn, hz, h) held =
      let (i, found, same, live, kept) =
        Pending.find_item-Holds (callback_of w.app.timers) a q w.app.un_ack h.live held in
      let (t', run, tracked) =
        Tracked-start laws w.app.timers w.app.un_ack w.app.heartbeat_timer i i.next_timeout h live
          (rw same kept) in
      rw found (
        Leads-sent laws (IsConsistent laws b) e (column i.sequence i.column) w.app.socket_fd w _
          refl (live.1, live.2) refl
          λ log.
            let after : List UnAck = set_timeout a ((i.next_timeout * 2) % 2 ^ 32) w.app.un_ack in
            let step : Leads laws (IsConsistent laws b) (
                ok tt
                  (record w { app = record (w.app) { timers = t'; un_ack = after }; log = log })) =
              (
                hb,
                he,
                hn,
                hz,
                Tracked-set_timeout laws t' w.app.un_ack w.app.heartbeat_timer a _ tracked,
              ) in
            rw run step)

  -- A new move is queued and sent.
  pub send_column_message-Leads :
      (address move : ℕ) (w : World (Client Timers))
      → move < 2 ^ 16
      → IsConsistent laws b w.app
      → Leads laws (IsConsistent laws b) (send_column_message e service address move w)
  unfolding send_column_message
  send_column_message-Leads address move w hm (hb, he, hn, hz, h) =
      Leads-and_then laws (IsConsistent laws b) (IsConsistent laws b) _ _
        (transmit_column_message-Leads address (create_timer (transmit address) w.app.timers).0 _
          (
            hb,
            he,
            hn,
            hz,
            Tracked-create laws w.app.timers w.app.un_ack w.app.heartbeat_timer address
                w.app.next_sequence move default_retransmission_time hn hm h,
          )
          (Pending.Holds-last w.app.un_ack _))
        λ _ w' (hb', he', hn', hz', h'). (hb', he', omega arith, hz', h')

  -- A heartbeat is sent.
  pub send_heartbeat-Leads :
      (sent compared : ℕ) (w : World (Client Timers))
      → IsConsistent laws b w.app
      → Leads laws (IsConsistent laws b) (send_heartbeat e service sent compared w)
  unfolding send_heartbeat
  send_heartbeat-Leads sent compared w (hb, he, hn, hz, h) =
      Leads-sent laws (IsConsistent laws b) e (heartbeat (heartbeat_content e sent)) w.app.socket_fd
        _ _
        (ap (λ l. bytes16 e 3 ++ (bytes16 e l ++ heartbeat_content e sent))
          (sym (length-heartbeat_content e sent)))
        (omega (arith, length-heartbeat_content e sent)) refl
        λ log.
          let (t', run, tracked) =
            Tracked-beat laws w.app.timers w.app.un_ack w.app.heartbeat_timer heartbeat_interval
              h in
          rw run
            (elim (Bool-cases
              (ltb_ℤ (pos 30000) (sub_ℕ w.app.last_received_heartbeat_time compared))) [
                | inl warns ↦ rw warns (hb, he, hn, hz, tracked)
                | inr silent ↦ rw silent (hb, he, hn, hz, tracked)
              ])
