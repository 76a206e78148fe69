-- ===== src/Lib.antt =====
-- The client and the registration server of a Connect Four game over UDP and TCP, in C
-- (client/src and client/lib).
--
-- The parts and their files:
-- - Memory: blocks of memory as lists of bytes, 16- and 32-bit fields in the byte order of the host,
--   ntohs and ntohl. An access out of bounds is `none`.
-- - System: the state of a program with the system calls it has made. What a system call returns and
--   the code uses (recv, read, accept, time, gettimeofday, malloc) is an argument of the operation.
-- - Prelude/Run: the result of a run: `ok`, `fault` (undefined behaviour or a failed assert), `exited`.
-- - Board: client/lib/4clib.c. The arrays `field` and `next_row` are a record. Board/Cells has reads and
--   writes of the arrays, Board/Moves moves and games, Board/Start the empty board, Board/Winner the
--   search for four in a line, Board/Turns a turn of a player, Board/Print the printed board.
-- - Wire: the format of client/src/protocol.h and what `send_message` of client/src/protocol.c makes of
--   a message. Wire/Message describes messages and their format independently of that code,
--   Wire/Packet compares the two.
-- - Protocol: the callbacks, receivers and senders of client/src/protocol.c. Protocol/Send has
--   `send_message` as an effect, Protocol/Receive the conversion and delivery of a message,
--   Protocol/Stream a stream of messages without a buffer, Protocol/Chunks the buffer of
--   `handle_tcp_message` against it, Protocol/Datagram `handle_udp_message`. Protocol/Fields reads any
--   bytes as fields, Protocol/Total is about blocks of any content, Protocol/Untrusted about datagrams of
--   any bytes.
-- - Events: the callbacks for descriptors of client/lib/cblib.c. Events/Lookup reads the table as a
--   finite map, Events/Register is about its updates, Events/Moved about a callback that moves to another
--   descriptor.
-- - Timers: the timers of client/lib/cblib.c as cells of a heap, linked both ways by addresses, with 0
--   for NULL. Timers/Times is about the arithmetic of times, Timers/Queue has queues in the order of the
--   stop times, Timers/Chain what linked timers stand for a queue. Timers/Linking, Timers/Started
--   and Timers/Refine put a timer into the queue, Timers/Relinked, Timers/Unlinked and Timers/Stopped
--   take one out, Timers/Due is about `handle_event`, and
--   Timers/Callbacks about what the timers call.
-- - SocketUtil: what the functions of client/src/socket_util.c return.
-- - Server: client/src/server.c. Server/Registration is about registrations and their
--   answers, Server/Connect about the introduction of the two peers, Server/Slots about taking and
--   giving back a connection.
-- - Client: client/src/client.c, over an interface of the timers. Client/Heartbeats is about
--   `send_heartbeat`, Client/Game about the moves of the peer and their acknowledgement. Client/Loop has
--   the events that the loop of cblib.c brings to the client, and the laws of timers, whose functions are
--   `none` on a dangling pointer. Client/Number compares `atoi` on the line buffer with the number that a
--   text begins with. Client/Pending is about the list of unacknowledged moves, Client/Invariant has the
--   invariant of a client, which Client/Transmit (what it sends), Client/Answers (its callbacks), Client/Safety (all events) and
--   Client/Start (from `start_client` on) keep. Client/Linked has the timers of cblib.c as those of the
--   client, and Client/Linked/Laws their laws.
-- - Praktikum: the programs of Praktikum3/tcp_examples, in a process that records its calls, with the
--   wrappers of Socket.c. Praktikum/Servers has the discard and the daytime server, Praktikum/Slots what
--   their slots hold, Praktikum/Rounds their rounds, Praktikum/Greeting what becomes of a new connection.
--   Praktikum/Streams has the threads of the echo server and of the character generator,
--   Praktikum/Sending their sending of a buffer, Praktikum/Echo what is sent back, Praktikum/Lines the
--   lines of the generator. Praktikum/Clients is tcp_client_with_dns.c, and Praktikum/Clients/Leaks is
--   about the sockets that it opens. Praktikum/Single is tcp_client.c, and Praktikum/Relay is about what
--   it reads and passes on.
-- - Tests: concrete inputs.
--
-- The server and the client use Protocol for what they send and receive, and Events for the callbacks
-- that readable descriptors call; the client also plays on Board and uses timers.
--
-- Numbers are natural numbers below 2^16 or 2^32, with `% 2 ^ 16` or `% 2 ^ 32` where the code wraps;
-- C's int is an integer. Two of them come near its bounds, and are undefined there: the line number of
-- the character generator, and the move that `atoi` makes of a line, which is also undefined where `atoi`
-- reads past the end of the buffer. The loop of `handle_tcp_message` has as many rounds as the buffer
-- holds bytes, and each round takes four or more.
-- The loops over the linked timers take a number of rounds, and are `none` if it is too small. The loop
-- that sends a buffer has as many rounds as the buffer has bytes, of which `send` takes one or more in
-- each. The endless loops of the servers run for as many rounds as there are results of calls.
--
-- Not modelled: output other than `print_board` and the warning of the client, perror, malloc that
-- fails (but for `create_timer`), code under DEBUG, the description of a timer, the addresses of
-- sockets, the order in which `handle_event` goes through readable descriptors (a call of one callback
-- is `Server.on_readable`, or an event of Client/Loop), what the programs of Praktikum3 print, their
-- command lines and their threads, its program getaddresses, the UDP programs of Praktikum1, and those
-- of Praktikum2, which are earlier versions of programs of Praktikum3.
pub mod Prelude
pub mod Board
pub mod Memory
pub mod Praktikum
pub mod System
pub mod Wire
pub mod Protocol
pub mod Events
pub mod Timers
pub mod SocketUtil
pub mod Server
pub mod Client
pub mod Tests
