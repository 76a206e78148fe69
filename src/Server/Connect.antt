-- ===== src/Server/Connect.antt =====
-- The registration of two peers and their introduction to each other.
use ws25_np.Prelude.{
  ℕ, ◌+◌, ◌^◌, ◌<◌, ◌≡◌, ◌≢◌, refl, ap, ◌∙◌, ◌⊎◌, inl, inr, true, false, not, ◌||◌, List, [], ◌∷◌,
  ◌++◌, ◌==◌, arith, length, take, take_all, Bool-cases,
}
use ws25_np.Prelude.Int.{ℤ}
use ws25_np.Prelude.Run.{ok, else-step, then-step, run-step}
use ws25_np.System.{World, Effect, send, shutdown}
use ws25_np.Memory.{Bytes, Endian, bytes16, bytes32}
use ws25_np.Wire.Message.{Message, peer_select, layout, wire, length_of, InRange, printable}
use ws25_np.Protocol.{send_message}
use ws25_np.Protocol.Send.{send_message-layout}
use ws25_np.Events.{Table}
use ws25_np.Server.{Server, Connection, Callback, connect_clients, peer_select_msg, with_connection}

-- A registered connection that has not been introduced: its name has the length that it says, its data fit
-- the fields of a selection, and its name, printed with `%s`, ends in a NUL inside the block.
pub record Introduces (c : Connection) : Type 0 where
  pub registered : c.registered ≡ 1
  pub unsent : c.conn_send ≡ 0
  pub named : c.name_len ≡ length c.name
  pub in_range : (start : ℕ) → start < 2 → InRange (peer_select c.address c.port start c.name)
  pub prints : printable (peer_select c.address c.port 0 c.name) ≡ true

abbrev pub selection : Connection → ℕ → Message
selection c start = peer_select c.address c.port start c.name

peer_select_msg_lem :
    (e : Endian) (c : Connection) (start : ℕ)
    → Introduces c
    → start < 2
    → peer_select_msg e c start ≡ layout e (selection c start)
unfolding peer_select_msg
peer_select_msg_lem e c start i h =
    let fields = λ (l : ℕ) (name : Bytes).
      bytes16 e 9
      ++ (bytes16 e l
          ++ (bytes32 e c.address ++ (bytes16 e c.port ++ (bytes16 e start ++ name)))) in
    let fits : 12 + length c.name < 2 ^ 16 = (i.in_range start h).3 in
    ap (λ l. fields l (take c.name_len c.name)) (omega (arith, i.named))
    ∙ ap (fields (length_of (selection c start)))
        (take_all c.name_len c.name (omega (arith, i.named)))

send-selection :
    (e : Endian) (c : Connection) (start : ℕ) (fd : ℤ) (w : World Server)
    → Introduces c
    → start < 2
    → send_message e (peer_select_msg e c start) fd w
      ≡ ok tt (record w { log = w.log ++ (send fd (wire (selection c start)) ∷ []) })
send-selection e c start fd w i h =
    ap (λ m. send_message e m fd w) (peer_select_msg_lem e c start i h)
    ∙ send_message-layout e (selection c start) fd w (i.in_range start h) i.prints

both_registered :
    {a b : Connection}
    → Introduces a
    → Introduces b
    → (not (a.registered == 1) || not (b.registered == 1)) ≡ false
both_registered ia ib = ground arith

none_sent :
    {a b : Connection}
    → Introduces a
    → Introduces b
    → ((a.conn_send == 1) || (b.conn_send == 1)) ≡ false
none_sent ia ib = ground arith

module _ (socket : ℤ) (table : Table Callback) where
  -- The server with two connections.
  abbrev pub serving : List Effect → Connection → Connection → World Server
  serving log a b = record {
    app = record { socket_fd = socket; connections = a ∷ b ∷ []; table = table };
    log = log;
  }

  -- Two registered connections that have not been introduced yet, whose name lengths are those of their
  -- names, whose data fit a selection and whose names end in a NUL inside its block when they are printed,
  -- are introduced: each is sent the address, the port and the name of the other in the format of the
  -- wire, the second with start 0 and the first with start 1, so that one of them begins; both are shut
  -- down for sending and marked.
  pub connect_clients-introduced :
      (e : Endian) (log : List Effect) (a b : Connection)
      → Introduces a
      → Introduces b
      → connect_clients e 0 1 (serving log a b)
        ≡ ok tt (
            serving
              ((((log ++ (send b.fd (wire (selection a 0)) ∷ []))
                    ++ (send a.fd (wire (selection b 1)) ∷ []))
                  ++ (shutdown a.fd ∷ []))
                ++ (shutdown b.fd ∷ []))
              (record a { conn_send = 1 })
              (record b { conn_send = 1 }))
  unfolding connect_clients with_connection
  connect_clients-introduced e log a b ia ib =
      else-step (not (a.registered == 1) || not (b.registered == 1)) _ _ _ (both_registered ia ib) (
        else-step ((a.conn_send == 1) || (b.conn_send == 1)) _ _ _ (none_sent ia ib) (
          run-step _ _ (send-selection e a 0 b.fd (serving log a b) ia (omega arith))
            (run-step _ _ (send-selection e b 1 a.fd _ ib (omega arith)) refl)))

  -- If one of the two connections is not registered, or one has been introduced already,
  -- `connect_clients` sends nothing and changes nothing.
  pub connect_clients-waits :
      (e : Endian) (log : List Effect) (a b : Connection)
      → (a.registered ≢ 1) ⊎ (b.registered ≢ 1) ⊎ (a.conn_send ≡ 1) ⊎ (b.conn_send ≡ 1)
      → connect_clients e 0 1 (serving log a b) ≡ ok tt (serving log a b)
  unfolding connect_clients
  connect_clients-waits e log a b h =
      elim (Bool-cases (not (a.registered == 1) || not (b.registered == 1))) [
        | inl early ↦ then-step _ _ _ _ early refl
        | inr go ↦
            else-step _ _ _ _ go
              (then-step ((a.conn_send == 1) || (b.conn_send == 1)) _ _ _ (ground arith) refl)
      ]
