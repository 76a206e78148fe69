-- ===== src/Client/Start.antt =====
-- `start_client`, and a game from its start on.
use ws25_np.Prelude.{ℕ, ◌≡◌, some, ◌==◌, if◌then◌else◌, []}
use ws25_np.Prelude.Int.{ℤ}
use ws25_np.System.{World}
use ws25_np.Memory.{Endian}
use ws25_np.Events.{init_cblib, register_fd_callback, register_stdin_callback}
use ws25_np.Board.{init_4clib}
use ws25_np.Board.Cells.{IsShaped}
use ws25_np.Client.{Client, TimerService, TimerCallback, heartbeat, datagram, line, turn, wait}
use ws25_np.Client.Loop.{TimerLaws}
use ws25_np.Client.Number.{IsTerminated}

module _ {service : TimerService} (laws : TimerLaws service) (e : Endian) where
  open service use {Timers, create_timer, start_timer}
  open laws use {callback_of, Fires, create-callback, create-fires}

  -- The global variables before `start_client`: the arrays have their sizes, the line buffer
  -- ends in a NUL (it is static), and there are no moves and no timers that may expire.
  pub record IsInitial (c : Client Timers) : Type 0 where
    pub shaped : IsShaped c.board
    pub terminated : IsTerminated c.stdin_buffer
    pub none_sent : c.next_sequence ≡ 0
    pub none_received : c.next_expected_sequence ≡ 0
    pub nothing_unacknowledged : c.un_ack ≡ []
    pub quiet : (q : ℕ) (callback : TimerCallback) → ¬ Fires c.timers q callback

  -- The client that `start_client` makes, with its timers.
  begun :
      (created : ℤ) (start fd_setsize : ℕ) → World (Client Timers) → Timers → World (Client Timers)
  begun created start fd_setsize w timers = record w {
    app = record (w.app) {
      socket_fd = created;
      board = init_4clib w.app.board;
      heartbeat_timer = (create_timer heartbeat w.app.timers).0;
      table =
          register_fd_callback created (some datagram)
            (register_stdin_callback (some line) (init_cblib fd_setsize));
      timers = timers;
      state = if start == 0 then wait else turn;
    };
  }
