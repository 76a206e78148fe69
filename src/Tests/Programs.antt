-- ===== src/Tests/Programs.antt =====
-- The theorems on the programs of Praktikum3 at concrete runs.
use ws25_np.Prelude.{
  none, ℕ, ◌≤◌, ◌≡◌, ◌≢◌, refl, inr, true, false, some, List, [], ◌∷◌, ◌++◌, ltb, map, All,
  if◌then◌else◌, arith, length, take, drop, replicate,
}
use ws25_np.Prelude.Int.{ℤ, pos, negsuc, ◌==ℤ◌, ◌+ℤ◌}
use ws25_np.Prelude.Run.{ok, Yields}
use ws25_np.Memory.{Bytes}
use ws25_np.Praktikum.{Process, sys_accept, sys_close}
use ws25_np.Praktikum.Servers
use ws25_np.Praktikum.Servers.{
  Setup, Connections, discard_main, daytime_main, new_connection, greet_with_time,
}
use ws25_np.Praktikum.Slots
use ws25_np.Praktikum.Slots.{Holds}
use ws25_np.Praktikum.Rounds
use ws25_np.Praktikum.Rounds.{IsTidy, Starts, discard_main-IsTidy, daytime_main-IsTidy}
use ws25_np.Praktikum.Greeting.{placed, greeted, new_connection-placed}
use ws25_np.Praktikum.Streams.{arrives, Turn, handle, chargen, characters, line_length}
use ws25_np.Praktikum.Sending.{delivered, Takes}
use ws25_np.Praktikum.Echo.{Echoes, concat, handle-Echoes}
use ws25_np.Praktikum.Lines.{lines, IsQuiet, characters_pattern, chargen-lines}
use ws25_np.Praktikum.Single.{Exchange, Connection, single_main}
use ws25_np.Praktikum.Relay.{Settled, Connects, Works, single_main-Settled}
use ws25_np.Praktikum.Clients
use ws25_np.Praktikum.Clients.{Address, client_main}
use ws25_np.Praktikum.Clients.Leaks
use ws25_np.Praktikum.Clients.Leaks.{IsConnected, Accounts, client_main-Accounts}

abbrev new_process : Process Connections
new_process = record {
  state = record { connection_fds = []; count_connections = pos 0 };
  calls = [];
}

abbrev setup : Setup
setup = record {
  created = pos 3;
  option_set = pos 0;
  converted = pos 1;
  bound = pos 0;
  listening = pos 0;
}

-- A connection arrives, and in the next round it ends.
abbrev arriving : Servers.Round
arriving = record {
  selected = pos 1;
  ready = λ fd. fd ==ℤ pos 3;
  accepted = pos 4;
  sent = pos 25;
  shut = pos 0;
  received = λ fd. pos 0;
  closed = λ fd. pos 0;
}

abbrev ending : Servers.Round
ending = record arriving { ready = λ fd. fd ==ℤ pos 4 }

discard_main-IsTidy_example :
    Yields
      (λ loops w'. (loops ≡ (setup.converted ==ℤ pos 1)) × (loops ≡ true → IsTidy w'))
      (λ _. ¬ (Starts setup × All Slots.Succeeds (arriving ∷ ending ∷ [])))
      (discard_main setup (arriving ∷ ending ∷ []) new_process)
discard_main-IsTidy_example =
    discard_main-IsTidy setup (arriving ∷ ending ∷ []) new_process (λ fd. (refl, refl))

abbrev a_time : Bytes
a_time = b'1' ∷ b'2' ∷ b':' ∷ b'0' ∷ b'0' ∷ 10 ∷ 0 ∷ []

daytime_main-IsTidy_example :
    Yields
      (λ loops w'. (loops ≡ (setup.converted ==ℤ pos 1)) × (loops ≡ true → IsTidy w'))
      (λ _. ¬ (Starts setup × All Slots.Succeeds (arriving ∷ ending ∷ [])))
      (daytime_main a_time setup (arriving ∷ ending ∷ []) new_process)
daytime_main-IsTidy_example =
    daytime_main-IsTidy a_time setup (arriving ∷ ending ∷ []) new_process (λ fd. (refl, refl))

arriving-Succeeds : Slots.Succeeds arriving
arriving-Succeeds = record {
  selected = refl;
  accepted = refl;
  sent = refl;
  shut = refl;
  received = λ fd. refl;
  closed = λ fd. refl;
}

abbrev empty_server : Process Connections
empty_server = record {
  state = record { connection_fds = replicate 20 (negsuc 0); count_connections = pos 0 };
  calls = [];
}

unused_times : (fd : ℤ) → fd ≢ negsuc 0 → Slots.times fd (replicate 20 (negsuc 0)) ≡ 0
unused_times fd ne = Rounds.free_times 20 fd ne

empty_server-IsTidy : IsTidy empty_server
empty_server-IsTidy =
    (record { count = refl; kept = λ fd ne. omega (arith, unused_times fd ne) }, refl)

new_connection-placed_example :
    new_connection (greet_with_time a_time) (pos 3) arriving empty_server
    ≡ ok tt (
        if ltb 0 20
        then record {
          state = record {
            connection_fds = placed (pos 4) (replicate 20 (negsuc 0));
            count_connections = pos 0 +ℤ pos 1;
          };
          calls = greeted a_time (pos 3) arriving [];
        }
        else record empty_server {
          calls = sys_close (pos 4) (pos 0) ∷ sys_accept (pos 3) (pos 4) ∷ [];
        })
new_connection-placed_example =
    new_connection-placed a_time (pos 3) arriving arriving-Succeeds empty_server empty_server-IsTidy

-- `send` takes one byte at a time.
abbrev byte_by_byte : ℕ → ℤ
byte_by_byte sent = pos 1

byte_by_byte-Takes : (size : ℕ) → Takes byte_by_byte size
byte_by_byte-Takes size sent h = (0, refl, omega arith)

abbrev silent_process : Process ℕ
silent_process = record { state = 0; calls = [] }

nonempty : (b : ℕ) (bs : Bytes) → b ∷ bs ≢ []
nonempty b bs e = cc

handle-Echoes_example :
    Echoes
      (pos 4)
      (λ bytes. byte_by_byte)
      (pos 0)
      silent_process
      (concat ((1 ∷ 2 ∷ []) ∷ (3 ∷ []) ∷ []))
      (handle
        (pos 4)
        (λ bytes. byte_by_byte)
        (pos 0)
        (map arrives ((1 ∷ 2 ∷ []) ∷ (3 ∷ []) ∷ []) ++ (arrives [] ∷ []))
        silent_process)
handle-Echoes_example =
    handle-Echoes (pos 4) (λ bytes. byte_by_byte) (pos 0) ((1 ∷ 2 ∷ []) ∷ (3 ∷ []) ∷ []) []
      silent_process (λ bytes. byte_by_byte-Takes (length bytes)) refl
      (nonempty 1 (2 ∷ []), (nonempty 3 [], tt))

characters_pattern_example :
    (now : Bytes) × (next : Bytes) × (characters line_length 0 5 ≡ some now)
    × (characters line_length 0 6 ≡ some next)
    × (characters line_length 0 100 ≡ some now)
    × (length now ≡ 74)
    × All (λ c. (32 ≤ c) × (c ≤ 126)) (take 72 now)
    × (drop 72 now ≡ 13 ∷ 10 ∷ [])
    × (take 71 next ≡ take 71 (drop 1 now))
characters_pattern_example = characters_pattern 5 (omega arith)

abbrev writable : Turn
writable = record {
  selected = pos 1;
  readable = some (pos 8);
  writable = true;
  taken = byte_by_byte;
}

writable-IsQuiet : IsQuiet writable
writable-IsQuiet = record {
  selected = refl;
  open_still = inr (7, refl);
  takes = byte_by_byte-Takes 74;
}

chargen-lines_example :
    (w' : Process ℕ) × (chargen (pos 4) (pos 0) (writable ∷ writable ∷ []) 0 silent_process
      ≡ ok false w')
    × (delivered (pos 4) w'.calls ≡ [] ++ lines 0 (writable ∷ writable ∷ []))
chargen-lines_example =
    chargen-lines (pos 4) (pos 0) (writable ∷ writable ∷ []) 0 silent_process
      (writable-IsQuiet, (writable-IsQuiet, tt)) (omega arith)

abbrev one_address : List Address
one_address = record { created = pos 3; connected = pos 0 } ∷ []

abbrev hears_end : Clients.Round
hears_end = record {
  selected = pos 1;
  ready = λ fd. fd ==ℤ pos 3;
  typed = arrives [];
  sent = λ fd. pos 1;
  shut = λ fd. pos 0;
  received = λ fd. arrives [];
  closed = λ fd. pos 0;
}

abbrev new_client : Process Clients.Sockets
new_client = record { state = record { sockets = []; stdin_open = false }; calls = [] }

client_main-Accounts_example :
    Yields Accounts
      (λ _. ¬ (All IsConnected one_address × All Leaks.Succeeds (hears_end ∷ hears_end ∷ [])))
      (client_main (pos 0) one_address (hears_end ∷ hears_end ∷ []) new_client)
client_main-Accounts_example =
    client_main-Accounts (pos 0) one_address (hears_end ∷ hears_end ∷ []) new_client
      (λ fd. (refl, refl))

abbrev link : Connection
link = record {
  created = pos 3;
  connected = pos 0;
  shut = pos 0;
  closed = pos 0;
  remaining = arrives (7 ∷ []) ∷ arrives [] ∷ [];
}

-- A line is typed, then the standard input ends.
abbrev talk : List Exchange
talk =
    record { selected = pos 1; received = none; typed = some (arrives (1 ∷ 2 ∷ [])); sent = pos 2 }
    ∷ record { selected = pos 1; received = none; typed = some (arrives []); sent = pos 0 }
    ∷ []

single_main-Settled_example :
    Yields
      (Settled (pos 3))
      (λ _. ¬ (Connects link × All Works talk))
      (single_main link talk silent_process)
single_main-Settled_example =
    single_main-Settled link talk silent_process
      (record { shown = refl; passed = refl; kept = λ fd. refl })
