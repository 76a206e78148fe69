-- ===== src/Tests/Queue.antt =====
-- The theorems on the linked timers and on the client with them at concrete states.
use ws25_np.Prelude.{
  ℕ, ◌≡◌, ◌≢◌, refl, none, some, Option, ◌==◌, if◌then◌else◌, [], ◌∷◌, arith, replicate,
}
use ws25_np.Prelude.Int.{pos}
use ws25_np.System.{World}
use ws25_np.Board.{init_4clib}
use ws25_np.Events.{init_cblib}
use ws25_np.Timers.{
  Timeval, Timer, Timers, no_time, stop_time_of, start_timer, stop_timer, handle_event,
  handle_timeout,
}
use ws25_np.Timers.Queue.{Queue, insert, remove}
use ws25_np.Timers.Chain.{Represents}
use ws25_np.Timers.Refine.{Starts, start_timer-insert}
use ws25_np.Timers.Stopped.{Stops, stop_timer-remove}
use ws25_np.Timers.Due.{Serves, handle_event-Serves, handle_timeout-first}
use ws25_np.Client.{Client, State, TimerCallback, heartbeat}
use ws25_np.Client.Linked.{Linked, create_linked}
use ws25_np.Tests.Games.{blank}

abbrev noon : Timeval
noon = record { tv_sec = 43200; tv_usec = 900000 }

abbrev two_later : Timeval
two_later = record { tv_sec = 43202; tv_usec = 900000 }

-- The timer 1 runs until two seconds after noon, the timer 2 does not run.
abbrev first : Timer ℕ
first = record { prev = 0; next = 0; start_time = noon; stop_time = two_later; callback = 7 }

abbrev second : Timer ℕ
second = record { prev = 0; next = 0; start_time = no_time; stop_time = no_time; callback = 8 }

abbrev two_cells : ℕ → Option (Timer ℕ)
two_cells a = if a == 1 then some first else if a == 2 then some second else none

abbrev two_timers : Timers ℕ
two_timers = record { timer_list = 1; cells = two_cells }

abbrev one_running : Queue
one_running = (1, two_later) ∷ []

two_timers-Represents : Represents two_timers one_running
two_timers-Represents = (
  first,
  record {
    here = refl;
    not_null = λ e. absurd (omega (arith, e));
    holds = refl;
    back = refl;
    stops = refl;
    out = refl;
  },
  refl,
)

start_timer-insert_example :
    Starts 2 two_timers one_running
      (insert 2 (stop_time_of noon 1500) one_running)
      (start_timer 1 noon 2 1500 two_timers)
unfolding ws25_np.Timers.is_started
start_timer-insert_example =
    start_timer-insert 2 1 noon 1500 two_timers second one_running (λ e. absurd (omega (arith, e)))
      refl refl refl two_timers-Represents (omega arith)

stop_timer-remove_example :
    Stops 1 first two_timers refl one_running (remove 1 one_running) (stop_timer 1 1 two_timers)
stop_timer-remove_example =
    stop_timer-remove 1 1 first two_timers one_running (λ e. absurd (omega (arith, e))) refl
      two_timers-Represents (omega arith)

handle_event-Serves_example : Serves noon two_timers one_running (handle_event 1 noon two_timers)
handle_event-Serves_example =
    handle_event-Serves 1 noon two_timers one_running two_timers-Represents (omega arith, tt, tt)
      (omega arith) (omega arith)

handle_timeout-first_example :
    (timer : Timer ℕ) × (t' : Timers ℕ) × (two_timers.cells 1 ≡ some timer)
    × (handle_timeout 1 two_timers ≡ some (timer.callback, t'))
    × Represents t' []
handle_timeout-first_example =
    handle_timeout-first 1 1 two_later [] two_timers two_timers-Represents (omega arith)

none-some : (timer : Timer TimerCallback) → none ≢ some timer
none-some timer holds = cc

-- A client that has no timers yet, and a clock that stands still.
abbrev no_timers : Linked
no_timers = record {
  timers = record { timer_list = 0; cells = λ a. none };
  queue = [];
  fresh = 1;
  chain = refl;
  free = λ a h. refl;
  positive = omega arith;
  null = refl;
  idle = λ a timer holds out. absurd (none-some timer holds);
}

abbrev started_at : Queue → Timeval
started_at queue = noon

abbrev before_start : World (Client Linked)
before_start = record {
  app = record {
    socket_fd = pos 0;
    stdin_buffer = replicate 8 0;
    board = blank;
    state = State.wait;
    next_sequence = 0;
    next_expected_sequence = 0;
    last_send_heartbeat = 0;
    last_received_heartbeat_time = 0;
    un_ack = [];
    timers = no_timers;
    heartbeat_timer = 0;
    table = init_cblib 8;
  };
  log = [];
}

-- The client as it has started: the timer of the heartbeats exists.
abbrev with_heartbeat : Linked
with_heartbeat = create_linked heartbeat no_timers

abbrev playing : World (Client Linked)
playing = record before_start {
  app = record (before_start.app) {
    board = init_4clib blank;
    state = State.turn;
    timers = with_heartbeat;
    heartbeat_timer = 1;
  };
}
