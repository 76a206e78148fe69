-- ===== src/Praktikum/Rounds.antt =====
-- The discard and daytime servers, round by round.
use mathlib.Core.Path.{subst}
use ws25_np.Prelude.{
  ℕ, zero, suc, ◌≡◌, ◌≢◌, refl, ap, sym, ◌∙◌, Bool, true, false, not, List, [], ◌∷◌, arith, length,
  replicate, All,
}
use ws25_np.Prelude.Int.{ℤ, pos, negsuc, ltb_ℤ, ◌==ℤ◌, ◌+ℤ◌, ==ℤ_iff}
use ws25_np.Prelude.Run.{M, skip, Yields, Yields-and_then, Yields-if, Yields-weaken}
use ws25_np.Memory.{Bytes}
use ws25_np.Praktikum.{
  Call, sys_accept, sys_close, sys_select, sys_send, sys_shutdown, sys_socket, sys_bind, sys_listen,
  sys_setsockopt, checked_if, close,
}
use ws25_np.Praktikum.Servers.{
  Round, Setup, P, max_fds, max_fd, watched_fds, new_connection, round, serve, server_main,
  discard_main, daytime_main, greet_with_time,
}
use ws25_np.Praktikum.Slots.{
  Holds, Filled, Greets, Succeeds, times, accepts, closes, checked-Yields, clash, accept_slot-Holds,
  recv_slots-Holds,
}

-- A server between two rounds: twenty slots, the right count, and no connection that is neither in a
-- slot nor closed.
abbrev pub IsTidy : P → Type 0
IsTidy w = Holds (λ fd. 0) 0 w.state.connection_fds w × (length w.state.connection_fds ≡ max_fds)

module _ (greet : Round → ℤ → M P (Unit {0})) (parent : ℤ) (r : Round)
    (greets : Greets greet r) where
  abbrev Fails : P → Type 0
  Fails w = ¬ Succeeds r

  new_connection-IsTidy :
      (w : P) → IsTidy w → Yields (λ _ w'. IsTidy w') Fails (new_connection greet parent r w)
  unfolding new_connection
  new_connection-IsTidy w (h, size) =
      Yields-if (λ _ w'. IsTidy w') Fails (ltb_ℤ w.state.count_connections (pos max_fds)) _ _ w
        (λ room.
          Yields-and_then (Filled (λ fd. 0) 0 w.state.connection_fds) (λ _ w'. IsTidy w') Fails _ _
            (accept_slot-Holds greet parent r greets (λ fd. 0) 0 w.state.connection_fds w h)
            λ fds w' (h', l). (record { count = h'.count; kept = h'.kept }, l ∙ size))
        (λ full.
          let w₁ : P = record w { calls = sys_accept parent r.accepted ∷ w.calls } in
          let w₂ : P = record w {
            calls =
                sys_close r.accepted (r.closed r.accepted) ∷ sys_accept parent r.accepted ∷ w.calls;
          } in
          Yields-and_then (λ k w'. (k ≡ r.accepted) × (w' ≡ w₁)) (λ _ w'. IsTidy w') Fails _ _
            (checked-Yields (¬ Succeeds r) _ (sys_accept parent r.accepted) r.accepted (negsuc 0) w
              (λ bad s. clash bad s.accepted) (λ good. (refl, refl)))
            λ k w' (e, same).
              subst (λ k. Yields (λ _ w'. IsTidy w') Fails (close k (r.closed k) w')) (sym e)
                (Yields-and_then (λ _ v. v ≡ w₂) (λ _ w'. IsTidy w') Fails _ _
                  (checked-Yields (¬ Succeeds r) _ (sys_close r.accepted (r.closed r.accepted))
                    (r.closed r.accepted) (negsuc 0) w' (λ bad s. clash bad (s.closed r.accepted))
                    (λ good.
                      ap
                        (λ (v : P). record v {
                          calls = sys_close r.accepted (r.closed r.accepted) ∷ v.calls;
                        })
                        same))
                  λ _ v e'. subst IsTidy (sym e') (
                    record { count = h.count; kept = λ fd ne. omega (arith, h.kept fd ne) },
                    size,
                  )))

  -- One round of a server.
  round-IsTidy : (w : P) → IsTidy w → Yields (λ _ w'. IsTidy w') Fails (round greet parent r w)
  unfolding round
  round-IsTidy w (h, size) =
      Yields-and_then (λ _ w'. IsTidy w') (λ _ w'. IsTidy w') Fails _ _
        (checked-Yields (¬ Succeeds r) (λ _ w'. IsTidy w')
          (sys_select (max_fd parent w.state.connection_fds +ℤ pos 1)
            (parent ∷ watched_fds w.state.connection_fds) r.selected)
          r.selected (negsuc 0) w (λ bad s. clash bad s.selected)
          (λ good. (record { count = h.count; kept = h.kept }, size)))
        λ _ w₁ h₁.
          Yields-and_then (λ _ w'. IsTidy w') (λ _ w'. IsTidy w') Fails _ _
            (Yields-if (λ _ w'. IsTidy w') Fails (r.ready parent) _ _ w₁
              (λ waiting. new_connection-IsTidy w₁ h₁) (λ none_waits. h₁))
            λ _ w₂ (h₂, size₂).
              Yields-and_then (Filled (λ fd. 0) 0 w₂.state.connection_fds) (λ _ w'. IsTidy w') Fails
                _ _ (recv_slots-Holds greet parent r (λ fd. 0) 0 w₂.state.connection_fds w₂ h₂)
                λ fds w' (h', l). (record { count = h'.count; kept = h'.kept }, l ∙ size₂)

-- A number of rounds; the server exits only if a call of one of them fails.
serve-IsTidy :
    (greet : Round → ℤ → M P (Unit {0})) (parent : ℤ) (rounds : List Round) (w : P)
    → ((r : Round) → Greets greet r)
    → IsTidy w
    → Yields (λ _ w'. IsTidy w') (λ _. ¬ All Succeeds rounds) (serve greet parent rounds w)
unfolding serve
serve-IsTidy greet parent [] w greets h = h
serve-IsTidy greet parent (r ∷ rounds) w greets h =
    Yields-and_then (λ _ w'. IsTidy w') (λ _ w'. IsTidy w') (λ _. ¬ All Succeeds (r ∷ rounds)) _ _
      (Yields-weaken (λ _ w'. IsTidy w') (λ _. ¬ Succeeds r) _ (round greet parent r w)
        (λ _ fails all. fails all.0) (round-IsTidy greet parent r (greets r) w h))
      λ _ w' h'.
        Yields-weaken (λ _ w'. IsTidy w') (λ _. ¬ All Succeeds rounds) _
          (serve greet parent rounds w') (λ _ fails all. fails all.1)
          (serve-IsTidy greet parent rounds w' greets h')

-- The calls before the loop succeed.
pub record Starts (s : Setup) : Type 0 where
  pub created : ltb_ℤ s.created (pos 0) ≡ false
  pub option_set : ltb_ℤ s.option_set (pos 0) ≡ false
  pub bound : ltb_ℤ s.bound (pos 0) ≡ false
  pub listening : ltb_ℤ s.listening (pos 0) ≡ false

-- A process that has neither accepted nor closed anything.
abbrev pub IsFresh : P → Type 0
IsFresh w = (fd : ℤ) → (accepts fd w.calls ≡ 0) × (closes fd w.calls ≡ 0)

pub free_times : (k : ℕ) (fd : ℤ) → fd ≢ negsuc 0 → times fd (replicate k (negsuc 0)) ≡ 0
free_times zero fd ne = refl
free_times (suc k) fd ne =
    let other : (negsuc 0 ==ℤ fd) ≡ false = ground (arith, ==ℤ_iff (negsuc 0) fd) in
    rw other (omega (arith, free_times k fd ne))

checked_if-Yields :
    (B : Type 0) (R : ℤ → P → Type 0) (call : Call) (result : ℤ) (w : P)
    → (ltb_ℤ result (pos 0) ≡ true → B)
    → (ltb_ℤ result (pos 0) ≡ false → R result (record w { calls = call ∷ w.calls }))
    → Yields R (λ _. B) (checked_if true call result w)
checked_if-Yields B R call result w bad good =
    Yields-if R (λ _. B) (ltb_ℤ result (pos 0)) _ _ _ (λ e. bad e) (λ e. good e)

module _ (greet : Round → ℤ → M P (Unit {0})) (greets : (r : Round) → Greets greet r) (s : Setup)
    (rounds : List Round) where
  abbrev Breaks : P → Type 0
  Breaks w = ¬ (Starts s × All Succeeds rounds)

  -- It comes to the loop if the address is one, and is tidy behind the rounds.
  abbrev Loops : Bool → P → Type 0
  Loops loops w' = (loops ≡ (s.converted ==ℤ pos 1)) × (loops ≡ true → IsTidy w')

  server_main-Loops : (w : P) → IsFresh w → Yields Loops Breaks (server_main greet s rounds w)
  unfolding server_main
  server_main-Loops w fresh =
      let w₀ : P = record {
        state = record { connection_fds = replicate max_fds (negsuc 0); count_connections = pos 0 };
        calls = w.calls;
      } in
      let tidy : IsTidy w₀ = (
        record {
          count = refl;
          kept = λ fd ne. omega (arith, free_times max_fds fd ne, (fresh fd).0, (fresh fd).1);
        },
        refl,
      ) in
      Yields-and_then (λ _ w'. IsTidy w') Loops Breaks _ _
        (checked-Yields (¬ (Starts s × All Succeeds rounds)) (λ _ w'. IsTidy w')
          (sys_socket s.created) s.created (pos 1) w₀ (λ bad h. clash bad (h.0).created)
          (λ good. (record { count = (tidy.0).count; kept = (tidy.0).kept }, refl)))
        λ parent w₁ h₁.
          Yields-and_then (λ _ w'. IsTidy w') Loops Breaks _ _
            (checked_if-Yields (¬ (Starts s × All Succeeds rounds)) (λ _ w'. IsTidy w')
              (sys_setsockopt parent s.option_set) s.option_set w₁
              (λ bad h. clash bad (h.0).option_set)
              (λ good. (record { count = (h₁.0).count; kept = (h₁.0).kept }, h₁.1)))
            λ _ w₂ h₂.
              Yields-if Loops Breaks (not (s.converted ==ℤ pos 1)) _ _ w₂
                (λ wrong. (ground arith, λ e. cc))
                (λ right.
                  Yields-and_then (λ _ w'. IsTidy w') Loops Breaks _ _
                    (checked_if-Yields (¬ (Starts s × All Succeeds rounds)) (λ _ w'. IsTidy w')
                      (sys_bind parent s.bound) s.bound w₂ (λ bad h. clash bad (h.0).bound)
                      (λ good. (record { count = (h₂.0).count; kept = (h₂.0).kept }, h₂.1)))
                    λ _ w₃ h₃.
                      Yields-and_then (λ _ w'. IsTidy w') Loops Breaks _ _
                        (Yields-and_then (λ _ w'. IsTidy w') (λ _ w'. IsTidy w') Breaks _ _
                          (checked-Yields (¬ (Starts s × All Succeeds rounds)) (λ _ w'. IsTidy w')
                            (sys_listen parent s.listening) s.listening (negsuc 0) w₃
                            (λ bad h. clash bad (h.0).listening)
                            (λ good. (record { count = (h₃.0).count; kept = (h₃.0).kept }, h₃.1)))
                          λ _ w' h'. h')
                        λ _ w₄ h₄.
                          Yields-and_then (λ _ w'. IsTidy w') Loops Breaks _ _
                            (Yields-weaken (λ _ w'. IsTidy w') (λ _. ¬ All Succeeds rounds) _
                              (serve greet parent rounds w₄) (λ _ fails all. fails all.1)
                              (serve-IsTidy greet parent rounds w₄ greets h₄))
                            λ _ w₅ h₅. (ground arith, λ _. h₅))

-- The discard server, in a process that has accepted nothing, for any results of the calls: it comes to
-- its loop if the address is one, and behind any rounds of the loop every connection that was accepted
-- stands in one of twenty slots or has been closed, once for each time, and the count is that of the
-- slots in use. It exits only if a call fails.
pub discard_main-IsTidy :
    (s : Setup) (rounds : List Round) (w : P)
    → IsFresh w
    → Yields
        (λ loops w'. (loops ≡ (s.converted ==ℤ pos 1)) × (loops ≡ true → IsTidy w'))
        (λ _. ¬ (Starts s × All Succeeds rounds))
        (discard_main s rounds w)
unfolding discard_main
discard_main-IsTidy s rounds w fresh =
    server_main-Loops (λ r fd. skip) (λ r front n fds fd w h. (h, refl)) s rounds w fresh

greet_with_time-Greets : (ascii_time : Bytes) (r : Round) → Greets (greet_with_time ascii_time) r
unfolding greet_with_time
greet_with_time-Greets ascii_time r front n fds fd w h =
    Yields-and_then (λ _ w'. Holds front n fds w' × (w'.state ≡ w.state))
      (λ _ w'. Holds front n fds w' × (w'.state ≡ w.state)) (λ _. ¬ Succeeds r) _ _
      (checked-Yields (¬ Succeeds r) (λ _ w'. Holds front n fds w' × (w'.state ≡ w.state))
        (sys_send fd ascii_time r.sent) r.sent (negsuc 0) w (λ bad s. clash bad s.sent)
        (λ good. (record { count = h.count; kept = h.kept }, refl)))
      λ _ w₁ (h₁, e₁).
        Yields-and_then (λ _ w'. Holds front n fds w' × (w'.state ≡ w.state))
          (λ _ w'. Holds front n fds w' × (w'.state ≡ w.state)) (λ _. ¬ Succeeds r) _ _
          (checked-Yields (¬ Succeeds r) (λ _ w'. Holds front n fds w' × (w'.state ≡ w.state))
            (sys_shutdown fd r.shut) r.shut (negsuc 0) w₁ (λ bad s. clash bad s.shut)
            (λ good. (record { count = h₁.count; kept = h₁.kept }, e₁)))
          λ _ w₂ h₂. h₂

-- The daytime server, as the discard server: it comes to its loop if the address is one; behind any rounds
-- every connection that was accepted stands in one of twenty slots or has been closed, once for each
-- time, and the count is that of the slots in use. It exits only if a call fails.
pub daytime_main-IsTidy :
    (ascii_time : Bytes) (s : Setup) (rounds : List Round) (w : P)
    → IsFresh w
    → Yields
        (λ loops w'. (loops ≡ (s.converted ==ℤ pos 1)) × (loops ≡ true → IsTidy w'))
        (λ _. ¬ (Starts s × All Succeeds rounds))
        (daytime_main ascii_time s rounds w)
unfolding daytime_main
daytime_main-IsTidy ascii_time s rounds w fresh =
    server_main-Loops (greet_with_time ascii_time) (greet_with_time-Greets ascii_time) s rounds w
      fresh
