-- ===== src/Praktikum/Greeting.antt =====
-- What the daytime server does with a new connection.
use ws25_np.Prelude.{
  ◌<◌, ◌≡◌, refl, ap, ◌∙◌, Bool, true, false, List, [], ◌∷◌, if◌then◌else◌, arith, length,
  Bool-cases, inl, inr, ltb,
}
use ws25_np.Prelude.Int.{ℤ, pos, negsuc, ltb_ℤ, ◌==ℤ◌, ◌+ℤ◌}
use ws25_np.Prelude.Run.{ok, run-step, then-step, else-step}
use ws25_np.Memory.{Bytes}
use ws25_np.Praktikum.{Process, Call, sys_accept, sys_close, sys_send, sys_shutdown, checked}
use ws25_np.Praktikum.Servers.{Round, P, max_fds, accept_slot, new_connection, greet_with_time}
use ws25_np.Praktikum.Slots.{Succeeds, occupied}
use ws25_np.Praktikum.Rounds.{IsTidy}

-- The first free slot is taken.
abbrev pub placed : ℤ → List ℤ → List ℤ
placed a [] = []
placed a (fd ∷ fds) = if fd ==ℤ negsuc 0 then a ∷ fds else fd ∷ placed a fds

checked_good :
    {S : Type 0} (call : Call) (result code : ℤ) (w : Process S)
    → ltb_ℤ result (pos 0) ≡ false
    → checked call result code w ≡ ok result (record w { calls = call ∷ w.calls })
checked_good call result code w good = else-step (ltb_ℤ result (pos 0)) _ _ _ good refl

-- The calls that serve a new client.
abbrev pub greeted : Bytes → ℤ → Round → List Call → List Call
greeted ascii_time parent r calls =
    sys_shutdown r.accepted r.shut
    ∷ sys_send r.accepted ascii_time r.sent
    ∷ sys_accept parent r.accepted
    ∷ calls

module _ (ascii_time : Bytes) (parent : ℤ) (r : Round) (s : Succeeds r) where
  accept_slot-placed :
      (fds : List ℤ) (w : P)
      → occupied fds < length fds
      → accept_slot (greet_with_time ascii_time) parent r fds w
        ≡ ok (placed r.accepted fds) (record {
          state = record (w.state) { count_connections = w.state.count_connections +ℤ pos 1 };
          calls = greeted ascii_time parent r w.calls;
        })
  unfolding accept_slot greet_with_time
  accept_slot-placed [] w room = absurd (omega arith)
  accept_slot-placed (fd ∷ fds) w room = elim (Bool-cases (fd ==ℤ negsuc 0)) [
    | inl free ↦ then-step (fd ==ℤ negsuc 0) _ _ w free (
        run-step _ _
          (checked_good (sys_accept parent r.accepted) r.accepted (negsuc 0) w s.accepted)
          (run-step _ _
            (run-step _ _
              (checked_good (sys_send r.accepted ascii_time r.sent) r.sent (negsuc 0) _ s.sent)
              (run-step _ _
                (checked_good (sys_shutdown r.accepted r.shut) r.shut (negsuc 0) _ s.shut) refl))
            (rw free)))
    | inr busy ↦
        else-step (fd ==ℤ negsuc 0) _ _ w busy
          (run-step _ _ (accept_slot-placed fds w (ground (arith, busy))) (rw busy))
  ]

  -- A new connection of a tidy server, where the calls succeed: with fewer than twenty connections it gets
  -- the first free slot, is sent the time, and is shut down for sending; otherwise it is closed at once and
  -- nothing else changes.
  pub new_connection-placed :
      (w : P)
      → IsTidy w
      → new_connection (greet_with_time ascii_time) parent r w
        ≡ ok tt (
            if ltb (occupied w.state.connection_fds) max_fds
            then record {
              state = record {
                connection_fds = placed r.accepted w.state.connection_fds;
                count_connections = w.state.count_connections +ℤ pos 1;
              };
              calls = greeted ascii_time parent r w.calls;
            }
            else record w {
              calls =
                  sys_close r.accepted (r.closed r.accepted)
                  ∷ sys_accept parent r.accepted
                  ∷ w.calls;
            })
  unfolding new_connection
  new_connection-placed w (h, size) =
      elim (Bool-cases (ltb (occupied w.state.connection_fds) max_fds)) [
        | inl room ↦
            then-step (ltb_ℤ w.state.count_connections (pos max_fds)) _ _ w (test true room) (
              run-step _ _ (accept_slot-placed w.state.connection_fds w (ground (arith, size)))
                (rw room))
        | inr full ↦
            else-step (ltb_ℤ w.state.count_connections (pos max_fds)) _ _ w (test false full) (
              run-step _ _
                (checked_good (sys_accept parent r.accepted) r.accepted (negsuc 0) w s.accepted)
                (run-step _ _
                  (checked_good (sys_close r.accepted (r.closed r.accepted)) (r.closed r.accepted)
                    (negsuc 0) _ (s.closed r.accepted))
                  (rw full)))
      ]
    where
      test :
          (b : Bool)
          → ltb (occupied w.state.connection_fds) max_fds ≡ b
          → ltb_ℤ w.state.count_connections (pos max_fds) ≡ b
      test b e = ap (λ c. ltb_ℤ c (pos max_fds)) h.count ∙ ground (arith, e)
