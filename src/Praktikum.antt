-- ===== src/Praktikum.antt =====
-- The TCP programs of Praktikum3/tcp_examples: a process with the system calls that it has made, and
-- the wrappers of Socket.c, which exit where a call fails; `perror` is left out. What a call returns is
-- an argument.

pub mod Servers
pub mod Clients
pub mod Echo
pub mod Greeting
pub mod Single
pub mod Lines
pub mod Relay
pub mod Rounds
pub mod Sending
pub mod Slots
pub mod Streams
use ws25_np.Prelude.{ℕ, suc, ◌+◌, Bool, true, false, List, [], ◌∷◌, if◌then◌else◌}
use ws25_np.Prelude.Int.{ℤ, pos, negsuc, ltb_ℤ, ◌==ℤ◌}
use ws25_np.Prelude.Run.{M, ◌>>=◌, ◌>>◌, pure, skip, exit, modify}
use ws25_np.Memory.{Bytes}

-- The calls, with what they return; `status` is the number given to `exit`.
pub data Call : Type 0 where
  sys_socket : (result : ℤ) → Call
  sys_bind sys_listen sys_setsockopt sys_connect sys_shutdown sys_close : (fd result : ℤ) → Call
  sys_accept sys_recv sys_recvfrom : (fd result : ℤ) → Call
  sys_read : (fd result : ℤ) → Call
  sys_write : Bytes → Call
  sys_send sys_sendto : (fd : ℤ) → Bytes → (result : ℤ) → Call
  sys_select : (nfds : ℤ) → (watched : List ℤ) → (result : ℤ) → Call
  status : ℤ → Call

-- The calls are listed from the last one on.
pub record Process (S : Type 0) : Type 0 where
  pub state : S
  pub calls : List Call

-- `EXIT_FAILURE` and `SOCKET_ERR`
abbrev pub exit_failure : ℤ
exit_failure = pos 1

abbrev pub socket_err : ℤ
socket_err = negsuc 0

module _ {S : Type 0} where
  abbrev pub emit : Call → M (Process S) (Unit {0})
  emit call = modify (λ w. record w { calls = call ∷ w.calls })

  abbrev pub update : (S → S) → M (Process S) (Unit {0})
  update f = modify (λ w. record w { state = f w.state })

  -- A call whose failure ends the process.
  abbrev pub checked : Call → ℤ → (code : ℤ) → M (Process S) ℤ
  checked call result code = do
    emit call
    if ltb_ℤ result (pos 0) then (do emit (status code); exit) else pure result

  -- A call whose failure may be left to the caller.
  abbrev pub checked_if : Bool → Call → ℤ → M (Process S) ℤ
  checked_if pexit call result = do
    emit call
    if ltb_ℤ result (pos 0)
        then (if pexit then (do emit (status socket_err); exit) else pure result)
        else pure result

  abbrev pub socket : (result : ℤ) → M (Process S) ℤ
  socket result = checked (sys_socket result) result exit_failure

  abbrev pub bind : (fd : ℤ) → (pexit : Bool) → (result : ℤ) → M (Process S) ℤ
  bind fd pexit result = checked_if pexit (sys_bind fd result) result

  abbrev pub send_to : (fd : ℤ) → Bytes → (result : ℤ) → M (Process S) ℤ
  send_to fd bytes result = checked (sys_sendto fd bytes result) result socket_err

  abbrev pub recv_from : (fd : ℤ) → (result : ℤ) → M (Process S) ℤ
  recv_from fd result = checked (sys_recvfrom fd result) result socket_err

  abbrev pub close : (fd : ℤ) → (result : ℤ) → M (Process S) (Unit {0})
  close fd result = do _ ← checked (sys_close fd result) result socket_err; skip

  abbrev pub connect : (fd : ℤ) → (result : ℤ) → M (Process S) (Unit {0})
  connect fd result = do _ ← checked (sys_connect fd result) result socket_err; skip

  abbrev pub send : (fd : ℤ) → Bytes → (result : ℤ) → M (Process S) ℤ
  send fd bytes result = checked (sys_send fd bytes result) result socket_err

  abbrev pub recv : (fd : ℤ) → (result : ℤ) → M (Process S) ℤ
  recv fd result = checked (sys_recv fd result) result socket_err

  abbrev pub shutdown : (fd : ℤ) → (result : ℤ) → M (Process S) ℤ
  shutdown fd result = checked (sys_shutdown fd result) result socket_err

  abbrev pub select : (nfds : ℤ) → (watched : List ℤ) → (result : ℤ) → M (Process S) ℤ
  select nfds watched result = checked (sys_select nfds watched result) result socket_err

  abbrev pub set_sock_opt : (fd : ℤ) → (pexit : Bool) → (result : ℤ) → M (Process S) ℤ
  set_sock_opt fd pexit result = checked_if pexit (sys_setsockopt fd result) result

  abbrev pub listen : (fd : ℤ) → (result : ℤ) → M (Process S) (Unit {0})
  listen fd result = do _ ← checked (sys_listen fd result) result socket_err; skip

  abbrev pub accept : (fd : ℤ) → (result : ℤ) → M (Process S) ℤ
  accept fd result = checked (sys_accept fd result) result socket_err
