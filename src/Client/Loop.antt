-- ===== src/Client/Loop.antt =====
-- The events of the client: what the loop of cblib.c calls, and what it relies on in the timers.
use ws25_np.Prelude.{ℕ, ◌^◌, ◌<◌, ◌≡◌, ◌≢◌, ◌⊎◌, Option, none, some, ◌==◌, if◌then◌else◌, length}
use ws25_np.Prelude.Run.{M, ◌>>=◌, ◌>>◌, skip, get}
use ws25_np.System.{World}
use ws25_np.Memory.{Bytes, Endian}
use ws25_np.Protocol.{Received, received, failed, handle_udp_message}
use ws25_np.Protocol.Fields.{AreBytes}
use ws25_np.Client.Number.{InInt, number}
use ws25_np.Client.{
  Client, TimerService, TimerCallback, transmit, heartbeat, ReadResult, read_failed, read_bytes,
  on_stdin, client_callbacks, transmit_column_message, send_heartbeat, change_timers, read_into,
}

-- A line of the player; a datagram, with what the default buffer held; a timer that has expired, with
-- its callback. The other numbers are what `malloc` and `time` return.
pub data Event : Type 0 where
  line : (address : ℕ) → ReadResult → Event
  arrival : (now : ℕ) (contents : Bytes) → Received → Event
  expiry : (sent compared : ℕ) (timer : ℕ) → TimerCallback → Event

module _ (e : Endian) (service : TimerService) where
  open service use {Timers, stop_timer}

  -- `(*timer->callback)(timer->arg)`
  pub run_callback : (sent compared : ℕ) → TimerCallback → M (World (Client Timers)) (Unit {0})
  run_callback sent compared (transmit address) = transmit_column_message e service address
  run_callback sent compared heartbeat = send_heartbeat e service sent compared

  unfoldable pub on_event : Event → M (World (Client Timers)) (Unit {0})
  unfolding run_callback
  on_event (line address result) = on_stdin e service address result
  on_event (arrival now contents result) = do
    w ← get
    _ ←
        handle_udp_message e (client_callbacks e service now) w.app.socket_fd
          (record { buff_size = 2 ^ 16; filled_size = 0; contents = contents }) result
    skip
  on_event (expiry sent compared timer callback) = do
    change_timers e service (stop_timer timer)
    run_callback sent compared callback

-- What the client relies on: which callback a timer was created with, and which timers may expire. A
-- timer that exists may be started and stopped, and deleted if it may not expire.
pub record TimerLaws (service : TimerService) : Type 1 where
  pub callback_of : service.Timers → ℕ → Option TimerCallback
  pub Fires : service.Timers → ℕ → TimerCallback → Type 0
  pub fires-callback :
      (t : service.Timers) (q : ℕ) (c : TimerCallback) → Fires t q c → callback_of t q ≡ some c
  pub create-fresh :
      (c : TimerCallback) (t : service.Timers) → callback_of t (service.create_timer c t).0 ≡ none
  pub create-callback :
      (c : TimerCallback) (t : service.Timers) (q : ℕ)
      → callback_of (service.create_timer c t).1 q
        ≡ (if (service.create_timer c t).0 == q then some c else callback_of t q)
  pub create-fires :
      (c d : TimerCallback) (t : service.Timers) (q : ℕ)
      → Fires (service.create_timer c t).1 q d
      → Fires t q d
  pub start-live :
      (p k : ℕ) (t : service.Timers) (c : TimerCallback)
      → callback_of t p ≡ some c
      → (t' : service.Timers) × (service.start_timer p k t ≡ some t')
        × ((q : ℕ) → callback_of t' q ≡ callback_of t q)
        × ((q : ℕ) (d : TimerCallback) → Fires t' q d → (q ≡ p) ⊎ Fires t q d)
  pub stop-live :
      (p : ℕ) (t : service.Timers) (c : TimerCallback)
      → callback_of t p ≡ some c
      → (t' : service.Timers) × (service.stop_timer p t ≡ some t')
        × ((q : ℕ) → callback_of t' q ≡ callback_of t q)
        × ((q : ℕ) (d : TimerCallback) → Fires t' q d → Fires t q d × (q ≢ p))
  pub delete-live :
      (p : ℕ) (t : service.Timers) (c : TimerCallback)
      → callback_of t p ≡ some c
      → ((d : TimerCallback) → ¬ Fires t p d)
      → (t' : service.Timers) × (service.delete_timer p t ≡ some t')
        × ((q : ℕ) → q ≢ p → callback_of t' q ≡ callback_of t q)
        × ((q : ℕ) (d : TimerCallback) → Fires t' q d → Fires t q d)

-- What the player, the system and the timers bring about: a line that is shorter than the buffer, with
-- which the buffer begins with a number that an `int` holds; bytes, in datagrams below 2^16 bytes; and
-- the timers that may expire.
abbrev pub Happens :
    {service : TimerService} → TimerLaws service → Event → World (Client service.Timers) → Type 0
Happens laws (line address read_failed) w = Unit
Happens laws (line address (read_bytes available)) w =
    (length available < length w.app.stdin_buffer)
    × InInt (number (read_into available w.app.stdin_buffer))
Happens laws (arrival now contents failed) w = Unit
Happens laws (arrival now contents (received bytes)) w = AreBytes bytes × (length bytes < 2 ^ 16)
Happens laws (expiry sent compared timer callback) w = laws.Fires w.app.timers timer callback
