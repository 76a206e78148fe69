-- ===== src/Tests/Moves.antt =====
-- The theorems on the moves of the client at a concrete game.
use ws25_np.Prelude.{
  ℕ, ◌≡◌, refl, ◌⊎◌, none, some, ◌==◌, if◌then◌else◌, List, [], ◌∷◌, length, arith,
}
use ws25_np.Prelude.Int.{pos}
use ws25_np.Prelude.Run.{ok, exited}
use ws25_np.System.{World}
use ws25_np.Memory.{little}
use ws25_np.Board.{Board, player_2, init_4clib, make_move, winner}
use ws25_np.Board.Start.{init_4clib-IsStacked}
use ws25_np.Tests.Games.{blank, blank-IsShaped, fresh-IsStacked, first_move_good}
use ws25_np.Board.Moves.{IsStacked}
use ws25_np.Board.Winner.{Four}
use ws25_np.Events.{init_cblib}
use ws25_np.Wire.Message.{column, column_ack, layout}
use ws25_np.Client.{Client, State, UnAck, TimerService, on_column_message, on_column_ack_message}
use ws25_np.Client.Game.{
  acknowledged, played, on_column_message_out_of_order, on_column_message-winner,
  on_column_ack_message-take_item,
}

-- Timers as the numbers of those that run. Only those may be stopped, and no other is deleted.
abbrev running : TimerService
running = record {
  Timers = List ℕ;
  create_timer = λ callback t. (length t, t);
  start_timer = λ timer timeout t. some (timer ∷ t);
  stop_timer = λ timer t. elim t [ [] ↦ none | p ∷ ps ↦ if p == timer then some ps else none ];
  delete_timer =
      λ timer t. elim t [ [] ↦ some [] | p ∷ ps ↦ if p == timer then none else some (p ∷ ps) ];
}

abbrev unacknowledged : UnAck
unacknowledged = record { address = 64; sequence = 0; column = 2; timer = 1; next_timeout = 2000 }

abbrev earlier : UnAck
earlier = record { address = 32; sequence = 7; column = 4; timer = 2; next_timeout = 2000 }

abbrev later : UnAck
later = record { address = 96; sequence = 8; column = 5; timer = 3; next_timeout = 2000 }

-- The first move of the player is not yet acknowledged, and the peer's move 1 is expected.
abbrev playing : State → World (Client (List ℕ))
playing state = record {
  app = record {
    socket_fd = pos 3;
    stdin_buffer = [];
    board = init_4clib blank;
    state = state;
    next_sequence = 1;
    next_expected_sequence = 1;
    last_send_heartbeat = 0;
    last_received_heartbeat_time = 0;
    un_ack = unacknowledged ∷ [];
    timers = 1 ∷ [];
    heartbeat_timer = 0;
    table = init_cblib 8;
  };
  log = [];
}

on_column_message_out_of_order_example :
    on_column_message little running (layout little (column 5 3)) (pos 3) (playing State.wait)
    ≡ ok tt (acknowledged little running 0 (playing State.wait))
on_column_message_out_of_order_example =
    on_column_message_out_of_order little running (playing State.wait) 5 3 (pos 3) (omega arith)
      (omega arith) (λ e. absurd (omega (arith, e)))

-- Three moves are not yet acknowledged, and the timer of the second runs.
abbrev busy : State → World (Client (List ℕ))
busy state = record (playing state) {
  app = record ((playing state).app) { un_ack = earlier ∷ unacknowledged ∷ later ∷ [] };
}

on_column_ack_message-take_item_example :
    on_column_ack_message little running (layout little (column_ack 0)) (pos 3) (busy State.turn)
    ≡ ok tt (record (playing State.wait) {
      app = record ((playing State.wait).app) { un_ack = earlier ∷ later ∷ []; timers = [] };
    })
on_column_ack_message-take_item_example =
    on_column_ack_message-take_item little running (busy State.turn) 0 (pos 3) (earlier ∷ [])
      (later ∷ []) unacknowledged [] [] (omega arith) refl (λ e. absurd (omega (arith, e)), tt) refl
      refl refl

on_column_message-winner_example :
    (b : Board) × (make_move (init_4clib blank) (pos 3) player_2 ≡ some b)
    × IsStacked b
    × (((winner b ≡ pos 0)
          × (on_column_message little running
                (layout little (column 1 3))
                (pos 3)
                (playing State.wait)
              ≡ ok tt (played little running b State.turn (playing State.wait))))
        ⊎ (Four b player_2
            × (on_column_message little running
                  (layout little (column 1 3))
                  (pos 3)
                  (playing State.wait)
                ≡ exited (played little running b State.wait (playing State.wait)))))
on_column_message-winner_example =
    on_column_message-winner little running (playing State.wait) 3 (pos 3) (omega arith)
      (omega arith) fresh-IsStacked (init_4clib-IsStacked blank blank-IsShaped).2 first_move_good
