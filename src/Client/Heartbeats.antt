-- ===== src/Client/Heartbeats.antt =====
-- The heartbeats of client.c.
use ws25_np.Prelude.{
  ℕ, ◌≤◌, ◌≡◌, refl, ap, ◌∙◌, none, some, inl, inr, Option-cases, length, false, [], ◌∷◌, ◌++◌,
  arith,
}
use ws25_np.Prelude.Int.{pos, sub_ℕ, ltb_ℤ}
use ws25_np.Prelude.Run.{ok, fault, else-step, run-step}
use ws25_np.System.{World, send}
use ws25_np.Memory.{Endian, little, big, bytes16}
use ws25_np.Wire.Message.{heartbeat, wire, layout}
use ws25_np.Protocol.{send_message}
use ws25_np.Protocol.Send.{send_message-layout}
use ws25_np.Client.{Client, TimerService, heartbeat_content, heartbeat_interval, send_heartbeat}

never : (last compared : ℕ) → last ≤ compared → ltb_ℤ (pos 30000) (sub_ℕ last compared) ≡ false
never last compared h = ground arith

module _ (service : TimerService) where
  open service use {Timers, start_timer}

  -- The client behind a heartbeat, with its timers.
  abbrev pub beaten : (e : Endian) → ℕ → World (Client Timers) → Timers → World (Client Timers)
  beaten e sent w timers = record {
    app = record (w.app) { last_send_heartbeat = sent; timers = timers };
    log = w.log ++ (send w.app.socket_fd (wire (heartbeat (heartbeat_content e sent))) ∷ []);
  }

  beats-then :
      (e : Endian) (w : World (Client Timers)) (sent compared : ℕ)
      → w.app.last_received_heartbeat_time ≤ compared
      → length (heartbeat_content e sent) ≡ 8
      → bytes16 e 3 ++ (bytes16 e 8 ++ heartbeat_content e sent)
        ≡ layout e (heartbeat (heartbeat_content e sent))
      → send_heartbeat e service sent compared w
        ≡ (elim (start_timer w.app.heartbeat_timer heartbeat_interval w.app.timers) [
          | some timers ↦ ok tt (beaten e sent w timers)
          | none ↦ fault
        ])
  unfolding send_heartbeat
  beats-then e w sent compared h size same =
      let noted : World (Client Timers) = record w {
        app = record (w.app) { last_send_heartbeat = sent };
      } in
      run-step _ _ {w = beaten e sent w w.app.timers}
        (ap (λ m. send_message e m w.app.socket_fd noted) same
          ∙ send_message-layout e (heartbeat (heartbeat_content e sent)) w.app.socket_fd noted
              (omega (arith, size)) refl)
        (elim (Option-cases (start_timer w.app.heartbeat_timer heartbeat_interval w.app.timers)) [
          | inl missing ↦ rw missing refl
          | inr (timers, starts) ↦
              rw starts
                (else-step _ _ _ _ (never w.app.last_received_heartbeat_time compared h) refl)
        ])

  -- Where the last heartbeat was received at the time of the test or before it, however long ago,
  -- `send_heartbeat` sends the time, starts its timer again, and does not warn; it is undefined exactly
  -- if the start of the timer goes through a dangling pointer.
  pub send_heartbeat_silent :
      (e : Endian) (w : World (Client Timers)) (sent compared : ℕ)
      → w.app.last_received_heartbeat_time ≤ compared
      → send_heartbeat e service sent compared w
        ≡ (elim (start_timer w.app.heartbeat_timer heartbeat_interval w.app.timers) [
          | some timers ↦ ok tt (beaten e sent w timers)
          | none ↦ fault
        ])
  send_heartbeat_silent little w sent compared h = beats-then little w sent compared h refl refl
  send_heartbeat_silent big w sent compared h = beats-then big w sent compared h refl refl
