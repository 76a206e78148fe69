-- ===== src/Client/Invariant.antt =====
-- The invariant of the client, and that what it sends keeps it.
use ws25_np.Prelude.{ℕ, ◌<◌, ◌^◌, ◌≡◌, ap, sym, ◌∙◌, true, List, some}
use mathlib.Core.Path.{subst}
use ws25_np.Prelude.Int.{ℤ, pos}
use ws25_np.Prelude.Run.{M, Run, and_then, Keeps, Keeps-and_then}
use ws25_np.System.{World, Effect}
use ws25_np.Memory.{Bytes, Endian}
use ws25_np.Board.{Board, winner}
use ws25_np.Board.Moves.{IsStacked}
use ws25_np.Board.Winner.{Four}
use ws25_np.Wire.Message.{Message, layout, InRange, printable}
use ws25_np.Protocol.{send_message}
use ws25_np.Protocol.Send.{send_message-layout}
use ws25_np.Client.{Client, UnAck, TimerService, transmit, heartbeat}
use ws25_np.Client.Pending.{Holds, Distinct, AreLive}
use ws25_np.Client.Loop.{TimerLaws}
use ws25_np.Client.Number.{IsTerminated}

module _ {service : TimerService} (laws : TimerLaws service) where
  open service use {Timers}
  open laws use {callback_of, Fires}

  -- Every unacknowledged move has a timer of its own that transmits it, no timer may expire that
  -- transmits anything else, and the timer of the heartbeats exists.
  pub record Tracked (t : Timers) (items : List UnAck) (heartbeat_timer : ℕ) : Type 0 where
    pub live : AreLive (callback_of t) items
    pub distinct : Distinct items
    pub due : (q a : ℕ) → Fires t q (transmit a) → Holds a q items
    pub beats : callback_of t heartbeat_timer ≡ some heartbeat

  -- The client with the board `b`: its numbers fit their fields, its line buffer ends in a NUL, and its
  -- moves are tracked.
  abbrev pub IsConsistent : Board → Client Timers → Type 0
  IsConsistent b c =
      (c.board ≡ b)
      × (c.next_expected_sequence < 2 ^ 32)
      × (c.next_sequence < 2 ^ 32)
      × IsTerminated c.stdin_buffer
      × Tracked c.timers c.un_ack c.heartbeat_timer

  -- The game goes on: a consistent client with a board without gaps that nobody has won.
  abbrev pub IsPlaying : Client Timers → Type 0
  IsPlaying c = (b : Board) × IsConsistent b c × IsStacked b × (winner b ≡ pos 0)

  -- The game is over: somebody has four stones in a line.
  abbrev pub IsOver : World (Client Timers) → Type 0
  IsOver w = (b : Board) × IsConsistent b w.app × IsStacked b × ((v : ℤ) × Four b v)

  -- A run without undefined behaviour that ends in a state with `P`, or exits when the game is over.
  abbrev pub Leads :
      {A : Type 0} → (Client Timers → Type 0) → Run (World (Client Timers)) A → Type 0
  Leads P r = Keeps (λ w. P w.app) IsOver r

  pub Leads-and_then :
      {A B : Type 0} (P Q : Client Timers → Type 0) (r : Run (World (Client Timers)) A)
      (k : A → M (World (Client Timers)) B)
      → Leads P r
      → ((a : A) (w : World (Client Timers)) → P w.app → Leads Q (k a w))
      → Leads Q (and_then r k)
  Leads-and_then P Q = Keeps-and_then (λ w. P w.app) (λ w. Q w.app) IsOver

  -- Sending a message in range changes nothing in the client.
  pub Leads-send :
      (P : Client Timers → Type 0) (e : Endian) (m : Message) (fd : ℤ) (w : World (Client Timers))
      → InRange m
      → printable m ≡ true
      → P w.app
      → Leads P (send_message e (layout e m) fd w)
  Leads-send P e m fd w h p holds = subst (Leads P) (sym (send_message-layout e m fd w h p)) holds

  -- The same at the front of a run, for a block that holds the message.
  pub Leads-sent :
      {A : Type 0} (Q : Client Timers → Type 0) (e : Endian) (m : Message) {msg : Bytes} (fd : ℤ)
      (w : World (Client Timers)) (k : Unit {0} → M (World (Client Timers)) A)
      → msg ≡ layout e m
      → InRange m
      → printable m ≡ true
      → ((log : List Effect) → Leads Q (k tt (record w { log = log })))
      → Leads Q (and_then (send_message e msg fd w) k)
  Leads-sent Q e m fd w k same h p next =
      subst (λ r. Leads Q (and_then r k))
        (sym (ap (λ msg. send_message e msg fd w) same ∙ send_message-layout e m fd w h p)) (next _)
