-- ===== src/Tests/Services.antt =====
-- The theorems on the event loop, the timers, the server and the client at concrete states.
use ws25_np.Prelude.{
  ◌≢◌, ◌⊎◌, ℕ, ◌+◌, ◌*◌, ◌<◌, ◌≡◌, refl, inl, inr, false, ◌||◌, none, some, List, [], ◌∷◌, length,
  arith,
}
use ws25_np.Prelude.Int.{ℤ, pos, negsuc, ◌==ℤ◌}
use ws25_np.Prelude.Run.{ok, fault}
use ws25_np.System.{World, send, shutdown}
use ws25_np.Memory.{Bytes, little}
use ws25_np.Wire.Message.{wire, layout, registration, registration_ack, registration_error_ack}
use ws25_np.Protocol.{new_buffer}
use ws25_np.Events.{Table, entry, init_cblib, register, deregister_fd_callback}
use ws25_np.Events.Lookup.{find}
use ws25_np.Events.Register.{find-register, find-deregister_fd_callback}
use ws25_np.Timers.{Timeval, timeval_before, stop_time_of, time_left}
use ws25_np.Timers.Times.{micros, IsNormal, stop_time_of_lem, time_left_lem}
use ws25_np.Server.{Connection, Callback, connect_clients, on_acceptable, on_message_registration}
use ws25_np.Server.Connect.{Introduces, selection, serving, connect_clients-introduced}
use ws25_np.Server.Registration.{answered, enrolled, on_message_registration_lem}
use ws25_np.Server.Slots.{server, on_acceptable_full}
use ws25_np.Client.{Client, State, TimerService, send_heartbeat}
use ws25_np.Client.Heartbeats.{beaten, send_heartbeat_silent}

abbrev slots : Table ℕ
slots = init_cblib 4

abbrev two_slots : Table ℕ
two_slots = record {
  cb = entry (pos 5) (some 1) ∷ entry (pos 6) (some 2) ∷ entry (negsuc 0) none ∷ [];
  read_fds = λ fd. (fd ==ℤ pos 5) || (fd ==ℤ pos 6);
  maxfd = pos 6;
}

find-register_example :
    find (pos 7) (register (pos 7) 9 two_slots).cb ≡ some (entry (pos 7) (some 9))
find-register_example = find-register (pos 7) 9 two_slots (pos 7) refl refl

find-deregister_fd_callback_example :
    (find (pos 6) (deregister_fd_callback (pos 6) two_slots).cb ≡ none)
    × ((deregister_fd_callback (pos 6) two_slots).read_fds (pos 6) ≡ false)
find-deregister_fd_callback_example =
    find-deregister_fd_callback (pos 6) (pos 6) two_slots (inr refl, (inr refl, (inl refl, tt)))
      refl refl

abbrev noon : Timeval
noon = record { tv_sec = 43200; tv_usec = 900000 }

abbrev later : Timeval
later = record { tv_sec = 43202; tv_usec = 400000 }

stop_time_of_lem_example :
    (micros (stop_time_of noon 1500) ≡ micros noon + 1000 * 1500)
    × IsNormal (stop_time_of noon 1500)
stop_time_of_lem_example = stop_time_of_lem noon 1500 (omega arith)

not_due : timeval_before later noon ≡ false
unfolding timeval_before
not_due = refl

time_left_lem_example :
    (s u : ℕ) × (time_left later noon ≡ (pos s, pos u))
    × (u < 1000000)
    × (micros noon + (1000000 * s + u) ≡ micros later)
time_left_lem_example = time_left_lem later noon (omega arith) (omega arith) not_due

-- Two peers on the descriptors 4 and 5.
abbrev peer : ℤ → ℕ → Bytes → Connection
peer fd sent name = record {
  registered = 1;
  address = 2130706433;
  port = 5000;
  name_len = length name;
  name = name;
  conn_send = sent;
  fd = fd;
  buffer = new_buffer 64;
}

abbrev alice_name : Bytes
alice_name = b'a' ∷ b'l' ∷ b'i' ∷ b'c' ∷ b'e' ∷ []

abbrev bob_name : Bytes
bob_name = b'b' ∷ b'o' ∷ b'b' ∷ []

abbrev alice : Connection
alice = peer (pos 4) 0 alice_name

abbrev bob : Connection
bob = peer (pos 5) 0 bob_name

abbrev no_table : Table Callback
no_table = init_cblib 8

alice-Introduces : Introduces alice
alice-Introduces = record {
  registered = refl;
  unsent = refl;
  named = refl;
  in_range = λ start h. (omega arith, omega arith, omega arith, omega arith);
  prints = refl;
}

bob-Introduces : Introduces bob
bob-Introduces = record {
  registered = refl;
  unsent = refl;
  named = refl;
  in_range = λ start h. (omega arith, omega arith, omega arith, omega arith);
  prints = refl;
}

connect_clients-introduced_example :
    connect_clients little 0 1 (serving (pos 3) no_table [] alice bob)
    ≡ ok tt (
        serving
          (pos 3)
          no_table
          (send (pos 5) (wire (selection alice 0))
            ∷ send (pos 4) (wire (selection bob 1))
            ∷ shutdown (pos 4)
            ∷ shutdown (pos 5)
            ∷ [])
          (peer (pos 4) 1 alice_name)
          (peer (pos 5) 1 bob_name))
connect_clients-introduced_example =
    connect_clients-introduced (pos 3) no_table little [] alice bob alice-Introduces bob-Introduces

on_acceptable_full_example :
    on_acceptable little (pos 6) (server (pos 3) no_table alice bob []) ≡ fault
on_acceptable_full_example =
    on_acceptable_full little (pos 3) no_table alice bob [] (pos 6) (λ e. absurd (ground arith))
      (λ e. absurd (ground arith)) (λ e. absurd (ground arith))

-- The table with the descriptors of both connections.
abbrev both_served : Table Callback
both_served = record {
  cb =
      entry (pos 4) (some (Callback.tcp_message 0))
      ∷ entry (pos 5) (some (Callback.tcp_message 1))
      ∷ [];
  read_fds = λ fd. (fd ==ℤ pos 4) || (fd ==ℤ pos 5);
  maxfd = pos 5;
}

-- Timers as the list of what was started.
abbrev started_list : TimerService
started_list = record {
  Timers = List (ℕ × ℕ);
  create_timer = λ callback t. (length t, t);
  start_timer = λ timer timeout t. some ((timer, timeout) ∷ t);
  stop_timer = λ timer t. some t;
  delete_timer = λ timer t. some t;
}

abbrev waiting : World (Client (List (ℕ × ℕ)))
waiting = record {
  app = record {
    socket_fd = pos 3;
    stdin_buffer = [];
    board = record { field = []; next_row = [] };
    state = State.wait;
    next_sequence = 1;
    next_expected_sequence = 1;
    last_send_heartbeat = 0;
    last_received_heartbeat_time = 100;
    un_ack = [];
    timers = [];
    heartbeat_timer = 1;
    table = init_cblib 8;
  };
  log = [];
}

send_heartbeat_silent_example :
    send_heartbeat little started_list 4000000 4000000 waiting
    ≡ ok tt (beaten started_list little 4000000 waiting ((1, 5000) ∷ []))
send_heartbeat_silent_example =
    send_heartbeat_silent started_list little waiting 4000000 4000000 (omega arith)

-- A connection of which nothing is registered yet.
abbrev stranger : ℤ → Connection
stranger fd = record {
  registered = 0;
  address = 0;
  port = 0;
  name_len = 0;
  name = [];
  conn_send = 0;
  fd = fd;
  buffer = new_buffer 64;
}

on_message_registration_lem_example :
    ((bob_name ≢ alice_name)
      × (on_message_registration little
            (layout little (registration 1 5000 bob_name alice_name))
            (pos 4)
            (serving (pos 3) no_table [] (stranger (pos 4)) (stranger (pos 5)))
          ≡ ok tt (
              answered little
                (pos 3)
                no_table
                []
                (stranger (pos 4))
                (stranger (pos 5))
                (pos 4)
                registration_error_ack
                (stranger (pos 4)))))
    ⊎ ((bob_name ≡ alice_name)
        × (on_message_registration little
              (layout little (registration 1 5000 bob_name alice_name))
              (pos 4)
              (serving (pos 3) no_table [] (stranger (pos 4)) (stranger (pos 5)))
            ≡ ok tt (
                answered little
                  (pos 3)
                  no_table
                  []
                  (stranger (pos 4))
                  (stranger (pos 5))
                  (pos 4)
                  registration_ack
                  (enrolled little
                    (pos 3)
                    no_table
                    []
                    (stranger (pos 4))
                    (stranger (pos 5))
                    1
                    5000
                    bob_name))))
on_message_registration_lem_example =
    on_message_registration_lem little (pos 3) no_table [] (stranger (pos 4)) (stranger (pos 5)) 1
      5000 bob_name alice_name (pos 4) (omega arith, omega arith, omega arith) refl refl
      (λ e. absurd (omega (arith, e)))
