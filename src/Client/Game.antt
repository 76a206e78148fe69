-- ===== src/Client/Game.antt =====
-- The moves of the peer in client.c, and the acknowledgements.
use native.Mathlib.Decide.{dec_lt}
use mathlib.Core.Option
use ws25_np.Prelude.{
  none, false, All, ◌==◌, ==_iff, ℕ, ◌+◌, ◌-◌, ◌%◌, ◌<◌, ◌^◌, ◌≡◌, ◌≢◌, refl, ap, ◌∙◌, ◌⊎◌, inl,
  inr, true, not, some, List, [], ◌∷◌, ◌++◌, if◌then◌else◌, arith, ltb, lt→ltb, ltb-eq-false,
}
use ws25_np.Prelude.Int.{ℤ, pos, ◌==ℤ◌, ==ℤ_iff}
use ws25_np.Prelude.Run.{Run, ok, exited, exit, access-step, else-step, then-step, run-step}
use ws25_np.System.{World, send, update}
use ws25_np.Memory.{Endian, bytes16, bytes32, load32, load16}
use ws25_np.Memory.Fields.{load16_host, load32_host}
use ws25_np.Board.{Board, player_2, valid_move, make_move, winner}
use ws25_np.Board.Moves.{IsStacked}
use ws25_np.Board.Winner.{Four}
use ws25_np.Board.Turns.{winner-make_move}
use ws25_np.Wire.Message.{column, column_ack, layout, wire}
use ws25_np.Protocol.{send_message}
use ws25_np.Protocol.Send.{send_message-layout}
use ws25_np.Client.{
  Client, UnAck, State, TimerService, take_item, make_peer_move, on_column_message,
  on_column_ack_message,
}

module _ (e : Endian) (service : TimerService) where
  open service use {Timers, stop_timer, delete_timer}

  -- The world behind an acknowledgement.
  abbrev pub acknowledged : ℕ → World (Client Timers) → World (Client Timers)
  acknowledged s w = record w { log = w.log ++ (send w.app.socket_fd (wire (column_ack s)) ∷ []) }

  -- The world behind a move of the peer.
  abbrev pub played : Board → State → World (Client Timers) → World (Client Timers)
  played b state w = record (acknowledged w.app.next_expected_sequence w) {
    app = record (w.app) {
      board = b;
      state = state;
      next_expected_sequence = (w.app.next_expected_sequence + 1) % 2 ^ 32;
    };
  }

  sequence_read : (s c : ℕ) → s < 2 ^ 32 → load32 e (layout e (column s c)) 4 ≡ some s
  sequence_read s c h = load32_host e (bytes16 e 1 ++ bytes16 e 6) s (bytes16 e c) h

  column_read : (s c : ℕ) → c < 2 ^ 16 → load16 e (layout e (column s c)) 8 ≡ some c
  column_read s c h = load16_host e (bytes16 e 1 ++ (bytes16 e 6 ++ bytes32 e s)) c [] h

  acknowledges :
      (s : ℕ) (w : World (Client Timers))
      → s < 2 ^ 32
      → send_message e (layout e (column_ack s)) w.app.socket_fd w ≡ ok tt (acknowledged s w)
  acknowledges s w h = send_message-layout e (column_ack s) w.app.socket_fd w h refl

  -- A column message whose number is not the expected one, both below 2^32, changes nothing but what
  -- is sent: a lower number is not answered, and a higher one with an acknowledgement of the number
  -- before the expected one, modulo 2^32.
  pub on_column_message_out_of_order :
      (w : World (Client Timers)) (s c : ℕ) (fd : ℤ)
      → s < 2 ^ 32
      → w.app.next_expected_sequence < 2 ^ 32
      → s ≢ w.app.next_expected_sequence
      → on_column_message e service (layout e (column s c)) fd w ≡ (
          if ltb s w.app.next_expected_sequence
          then ok tt w
          else ok tt (acknowledged ((w.app.next_expected_sequence + 2 ^ 32 - 1) % 2 ^ 32) w))
  unfolding on_column_message
  on_column_message_out_of_order w s c fd hs he ne =
      access-step _ _ w (sequence_read s c hs) (elim (dec_lt s w.app.next_expected_sequence) [
        | yes old ↦
            else-step (ltb w.app.next_expected_sequence s) _ _ w (ltb-eq-false _ _ (omega arith)) (
              then-step (ltb s w.app.next_expected_sequence) _ _ w (lt→ltb _ _ old)
                (rw (lt→ltb _ _ old)))
        | no late ↦
            then-step (ltb w.app.next_expected_sequence s) _ _ w (lt→ltb _ _ (omega arith)) (
              acknowledges ((w.app.next_expected_sequence + 2 ^ 32 - 1) % 2 ^ 32) w (omega arith)
              ∙ rw (ltb-eq-false s w.app.next_expected_sequence (omega arith)))
      ])

  -- A column message with the expected number is acknowledged, and then it is the peer's move.
  pub expected_message :
      (w : World (Client Timers)) (c : ℕ) (fd : ℤ)
      → c < 2 ^ 16
      → w.app.next_expected_sequence < 2 ^ 32
      → on_column_message e service (layout e (column w.app.next_expected_sequence c)) fd w
        ≡ make_peer_move e service c (played w.app.board w.app.state w)
  unfolding on_column_message
  expected_message w c fd hc he =
      access-step _ _ w (sequence_read w.app.next_expected_sequence c he) (
        else-step (ltb w.app.next_expected_sequence w.app.next_expected_sequence) _ _ w
          (ltb-eq-false _ _ (omega arith))
          (else-step (ltb w.app.next_expected_sequence w.app.next_expected_sequence) _ _ w
            (ltb-eq-false _ _ (omega arith))
            (run-step _ _ (acknowledges w.app.next_expected_sequence _ he)
              (access-step _ _ _ (column_read w.app.next_expected_sequence c hc) refl))))

  winner_test : (b : Board) (v : ℤ) → winner b ≡ v → v ≢ pos 0 → not (winner b ==ℤ pos 0) ≡ true
  winner_test b v e nz = ground (arith, ==ℤ_iff (winner b) (pos 0), e)

  -- The end of a move of the peer, from the test of the winner on.
  pub made_move :
      (w : World (Client Timers)) (c : ℕ) (fd : ℤ) (b : Board)
      {r : Run (World (Client Timers)) (Unit {0})}
      → c < 2 ^ 16
      → w.app.next_expected_sequence < 2 ^ 32
      → valid_move w.app.board (pos c) ≡ true
      → make_move w.app.board (pos c) player_2 ≡ some b
      → (if not (winner b ==ℤ pos 0) then exit else update (λ t. record t { state = State.turn }))
          (played b w.app.state w)
        ≡ r
      → on_column_message e service (layout e (column w.app.next_expected_sequence c)) fd w ≡ r
  unfolding make_peer_move
  made_move w c fd b hc he good made h =
      expected_message w c fd hc he
      ∙ else-step (not (valid_move w.app.board (pos c))) _ _ _ (ap not good)
          (access-step _ _ _ made h)

  -- An expected, acceptable move of the peer on a board without gaps that nobody has won is
  -- acknowledged and made inside the arrays; the board behind it has no gaps, and nobody has won and
  -- it is the player's turn, or the peer has four stones in a line and the game exits.
  pub on_column_message-winner :
      (w : World (Client Timers)) (c : ℕ) (fd : ℤ)
      → c < 2 ^ 16
      → w.app.next_expected_sequence < 2 ^ 32
      → IsStacked w.app.board
      → winner w.app.board ≡ pos 0
      → valid_move w.app.board (pos c) ≡ true
      → (b : Board) × (make_move w.app.board (pos c) player_2 ≡ some b)
        × IsStacked b
        × (((winner b ≡ pos 0)
              × (on_column_message e service (layout e (column w.app.next_expected_sequence c)) fd w
                  ≡ ok tt (played b State.turn w)))
            ⊎ (Four b player_2
                × (on_column_message e service
                      (layout e (column w.app.next_expected_sequence c))
                      fd
                      w
                    ≡ exited (played b w.app.state w))))
  on_column_message-winner w c fd hc he v nobody good =
      let (b, made, v', outcome) =
        winner-make_move (pos c) player_2 v (λ e. absurd (ground arith)) nobody good in
      (
        b,
        made,
        v',
        elim outcome [
          | inl none_won ↦ inl (
            none_won,
            made_move w c fd b hc he good made (
                else-step (not (winner b ==ℤ pos 0)) _ _ _ (ap not ((==ℤ_iff _ _).1 none_won))
                  refl),
          )
          | inr (won, line) ↦ inr (
            line,
            made_move w c fd b hc he good made (
                then-step (not (winner b ==ℤ pos 0)) _ _ _ (winner_test b player_2 won line.stone)
                  refl),
          )
        ],
      )

  -- Any other acknowledgement changes nothing.
  pub on_column_ack_message_unknown :
      (w : World (Client Timers)) (s : ℕ) (fd : ℤ)
      → s < 2 ^ 32
      → take_item s w.app.un_ack ≡ none
      → on_column_ack_message e service (layout e (column_ack s)) fd w ≡ ok tt w
  unfolding on_column_ack_message
  on_column_ack_message_unknown w s fd h missing =
      access-step _ _ w (load32_host e (bytes16 e 2 ++ bytes16 e 4) s [] h) (rw missing)

  -- An acknowledgement of an outstanding move, as long as its timer is there.
  pub on_column_ack_message_found :
      (w : World (Client Timers)) (s : ℕ) (fd : ℤ) (item : UnAck) (items : List UnAck)
      (t₁ t₂ : Timers)
      → s < 2 ^ 32
      → take_item s w.app.un_ack ≡ some (item, items)
      → stop_timer item.timer w.app.timers ≡ some t₁
      → delete_timer item.timer t₁ ≡ some t₂
      → on_column_ack_message e service (layout e (column_ack s)) fd w
        ≡ ok tt
            (record w { app = record (w.app) { state = State.wait; un_ack = items; timers = t₂ } })
  unfolding on_column_ack_message
  on_column_ack_message_found w s fd item items t₁ t₂ h found stops deletes =
      access-step _ _ w (load32_host e (bytes16 e 2 ++ bytes16 e 4) s [] h)
        (rw found (rw stops (rw deletes refl)))

  take_item-append :
      (s : ℕ) (before after : List UnAck) (item : UnAck)
      → All (λ i. i.sequence ≢ s) before
      → item.sequence ≡ s
      → take_item s (before ++ (item ∷ after)) ≡ some (item, before ++ after)
  unfolding take_item
  take_item-append s [] after item apart same =
      let hit : (item.sequence == s) ≡ true = (==_iff _ _).1 same in rw hit refl
  take_item-append s (i ∷ before) after item (first, apart) same =
      let miss : (i.sequence == s) ≡ false = ground (arith, ==_iff i.sequence s) in
      rw miss (
        ap (Option.map (λ (found : UnAck × List UnAck). (found.0, i ∷ found.1)))
          (take_item-append s before after item apart same))

  -- An acknowledgement of the first outstanding move with its sequence number (below 2^32), whose timer
  -- can be stopped and then deleted, takes this move from the list and leaves the moves before and
  -- behind it, stops and deletes the timer, and makes the client wait, in whatever state it was.
  pub on_column_ack_message-take_item :
      (w : World (Client Timers)) (s : ℕ) (fd : ℤ) (before after : List UnAck) (item : UnAck)
      (t₁ t₂ : Timers)
      → s < 2 ^ 32
      → w.app.un_ack ≡ before ++ (item ∷ after)
      → All (λ i. i.sequence ≢ s) before
      → item.sequence ≡ s
      → stop_timer item.timer w.app.timers ≡ some t₁
      → delete_timer item.timer t₁ ≡ some t₂
      → on_column_ack_message e service (layout e (column_ack s)) fd w
        ≡ ok tt (record w {
          app = record (w.app) { state = State.wait; un_ack = before ++ after; timers = t₂ };
        })
  on_column_ack_message-take_item w s fd before after item t₁ t₂ h list apart same stops deletes =
      on_column_ack_message_found w s fd item (before ++ after) t₁ t₂ h
        (ap (take_item s) list ∙ take_item-append s before after item apart same) stops deletes
