-- ===== src/Praktikum/Clients/Leaks.antt =====
-- The client of several addresses closes what it opens.
use ws25_np.Prelude.{
  ℕ, ◌+◌, ◌≡◌, ◌≢◌, refl, ap, sym, ◌∙◌, Bool, true, false, List, [], ◌∷◌, arith, length, All, ◌==◌,
  Bool-cases, inl, inr, ==_iff,
}
use ws25_np.Prelude.Int.{ℤ, pos, negsuc, ltb_ℤ, ◌==ℤ◌, ◌+ℤ◌, ==ℤ_iff}
use ws25_np.Prelude.Run.{
  M, ok, and_then, Yields, Yields-and_then, Yields-if, Yields-weaken, Yields-map,
}
use ws25_np.Praktikum.{Call, sys_socket, sys_connect, sys_close, sys_recv, sys_send, sys_shutdown}
use ws25_np.Praktikum.Streams.{recv_result, recv_bytes}
use ws25_np.Praktikum.Slots.{one, times, closes, checked-Yields, clash}
use ws25_np.Praktikum.Clients.{
  P, Address, Round, create_sockets, open_sockets, max_fd, each_open, on_stdin, recv_sockets, round,
  talk, client_main, get_addresses_port,
}

-- How often a descriptor has been created.
abbrev pub creates : ℤ → List Call → ℕ
creates fd [] = 0
creates fd (sys_socket result ∷ calls) = one result fd + creates fd calls
creates fd (call ∷ calls) = creates fd calls

-- Some sockets in front of `fds` hold `front fd` times the descriptor `fd`: each descriptor but 0 that was
-- created is one of the sockets or has been closed.
abbrev pub Keeps : (ℤ → ℕ) → List ℤ → P → Type 0
Keeps front fds w =
    (fd : ℤ) → fd ≢ pos 0 → front fd + times fd fds + closes fd w.calls ≡ creates fd w.calls

abbrev nothing : ℤ → ℕ
nothing fd = 0

-- The calls of a round, and those that make the sockets, succeed.
pub record Succeeds (r : Round) : Type 0 where
  pub selected : ltb_ℤ r.selected (pos 0) ≡ false
  pub sent : (fd : ℤ) → ltb_ℤ (r.sent fd) (pos 0) ≡ false
  pub shut : (fd : ℤ) → ltb_ℤ (r.shut fd) (pos 0) ≡ false
  pub received : (fd : ℤ) → ltb_ℤ (recv_result (r.received fd)) (pos 0) ≡ false
  pub closed : (fd : ℤ) → ltb_ℤ (r.closed fd) (pos 0) ≡ false

abbrev pub IsConnected : Address → Type 0
IsConnected a = (ltb_ℤ a.created (pos 0) ≡ false) × (ltb_ℤ a.connected (pos 0) ≡ false)

one_zero : (fd : ℤ) → fd ≢ pos 0 → one (pos 0) fd ≡ 0
one_zero fd ne = let other : (pos 0 ==ℤ fd) ≡ false = ground (arith, ==ℤ_iff (pos 0) fd) in rw other

create_sockets-Keeps :
    (front : ℤ → ℕ) (addresses : List Address) (w : P)
    → Keeps front [] w
    → Yields
        (λ fds w'. Keeps front fds w')
        (λ _. ¬ All IsConnected addresses)
        (create_sockets addresses w)
unfolding create_sockets
create_sockets-Keeps front [] w h = h
create_sockets-Keeps front (a ∷ addresses) w h =
    Yields-and_then (λ fd w'. Keeps (λ x. one fd x + front x) [] w') (λ fds w'. Keeps front fds w')
      (λ _. ¬ All IsConnected (a ∷ addresses)) _ _
      (checked-Yields (¬ All IsConnected (a ∷ addresses))
        (λ fd w'. Keeps (λ x. one fd x + front x) [] w') (sys_socket a.created) a.created (pos 1) w
        (λ bad all. clash bad ((all.0).0)) (λ good fd ne. omega (arith, h fd ne)))
      λ fd w₁ h₁.
        Yields-and_then (λ _ w'. Keeps (λ x. one fd x + front x) [] w')
          (λ fds w'. Keeps front fds w') (λ _. ¬ All IsConnected (a ∷ addresses)) _ _
          (Yields-and_then (λ _ w'. Keeps (λ x. one fd x + front x) [] w')
            (λ _ w'. Keeps (λ x. one fd x + front x) [] w') (λ _. ¬ All IsConnected (a ∷ addresses))
            _ _
            (checked-Yields (¬ All IsConnected (a ∷ addresses))
              (λ _ w'. Keeps (λ x. one fd x + front x) [] w') (sys_connect fd a.connected)
              a.connected (negsuc 0) w₁ (λ bad all. clash bad ((all.0).1)) (λ good. h₁))
            λ _ w' h'. h')
          λ _ w₂ h₂.
            Yields-and_then (λ fds w'. Keeps (λ x. one fd x + front x) fds w')
              (λ fds w'. Keeps front fds w') (λ _. ¬ All IsConnected (a ∷ addresses)) _ _
              (Yields-weaken (λ fds w'. Keeps (λ x. one fd x + front x) fds w')
                (λ _. ¬ All IsConnected addresses) _ (create_sockets addresses w₂)
                (λ _ fails all. fails (all.1))
                (create_sockets-Keeps (λ x. one fd x + front x) addresses w₂ h₂))
              λ fds w₃ h₃ x ne. omega (arith, h₃ x ne)

module _ (r : Round) where
  abbrev Fails : P → Type 0
  Fails w = ¬ Succeeds r

  -- A loop over the sockets that only makes calls which open and close nothing.
  each_open-Keeps :
      (R : P → Type 0) (f : ℤ → M P (Unit {0})) (fds : List ℤ) (w : P)
      → ((fd : ℤ) (w : P) → R w → Yields (λ _ w'. R w') Fails (f fd w))
      → R w
      → Yields (λ _ w'. R w') Fails (each_open f fds w)
  unfolding each_open
  each_open-Keeps R f [] w step h = h
  each_open-Keeps R f (fd ∷ fds) w step h =
      Yields-and_then (λ _ w'. R w') (λ _ w'. R w') Fails _ _
        (Yields-if (λ _ w'. R w') Fails (ltb_ℤ (pos 0) fd) (f fd) _ w (λ _. step fd w h) (λ _. h))
        λ _ w' h'. each_open-Keeps R f fds w' step h'

  -- The sockets in the state stand for what was created.
  abbrev Stands : P → Type 0
  Stands w = Keeps nothing w.state.sockets w

  on_stdin-Stands : (w : P) → Stands w → Yields (λ _ w'. Stands w') Fails (on_stdin r w)
  unfolding on_stdin
  on_stdin-Stands w h =
      Yields-if (λ _ w'. Stands w') Fails (ltb_ℤ (pos 0) (recv_result r.typed)) _ _ _
        (λ some_bytes.
          each_open-Keeps Stands _ w.state.sockets _
            (λ fd v hv.
              Yields-and_then (λ _ w'. Stands w') (λ _ w'. Stands w') Fails _ _
                (checked-Yields (¬ Succeeds r) (λ _ w'. Stands w')
                  (sys_send fd (recv_bytes r.typed) (r.sent fd)) (r.sent fd) (negsuc 0) v
                  (λ bad s. clash bad (s.sent fd)) (λ good. hv))
                λ _ w' h'. h')
            h)
        (λ ends.
          each_open-Keeps Stands _ w.state.sockets _
            (λ fd v hv.
              Yields-and_then (λ _ w'. Stands w') (λ _ w'. Stands w') Fails _ _
                (checked-Yields (¬ Succeeds r) (λ _ w'. Stands w') (sys_shutdown fd (r.shut fd))
                  (r.shut fd) (negsuc 0) v (λ bad s. clash bad (s.shut fd)) (λ good. hv))
                λ _ w' h'. h')
            h)

  -- A socket is passed over, or its slot is emptied.
  onward :
      (front : ℤ → ℕ) (fd : ℤ) (fds : List ℤ) (m : M P (List ℤ)) (w : P)
      → Yields (Keeps (λ x. one fd x + front x)) Fails (m w)
      → Yields (Keeps front) Fails (and_then (m w) λ rest u. ok (fd ∷ rest) u)
  onward front fd fds m w h =
      Yields-and_then (Keeps (λ x. one fd x + front x)) (Keeps front) Fails (m w) _ h
        λ rest w' h' x ne. omega (arith, h' x ne)

  recv_sockets-Keeps :
      (front : ℤ → ℕ) (fds : List ℤ) (w : P)
      → Keeps front fds w
      → Yields (Keeps front) Fails (recv_sockets r fds w)
  unfolding recv_sockets
  recv_sockets-Keeps front [] w h = h
  recv_sockets-Keeps front (fd ∷ fds) w h =
      let kept : (u : P)
          → Keeps front (fd ∷ fds) u
          → Yields (Keeps front) Fails
              (and_then (recv_sockets r fds u) λ rest v. ok (fd ∷ rest) v) =
        (λ u hu.
          onward front fd fds (recv_sockets r fds) u (
            recv_sockets-Keeps (λ x. one fd x + front x) fds u (λ x ne. omega (arith, hu x ne)))) in
      Yields-if (Keeps front) Fails (ltb_ℤ (pos 0) fd) _ _ w
        (λ is_open.
          Yields-if (Keeps front) Fails (r.ready fd) _ _ w
            (λ readable.
              Yields-and_then (λ len w'. Keeps front (fd ∷ fds) w') (Keeps front) Fails _ _
                (checked-Yields (¬ Succeeds r) (λ len w'. Keeps front (fd ∷ fds) w')
                  (sys_recv fd (recv_result (r.received fd))) (recv_result (r.received fd))
                  (negsuc 0) w (λ bad s. clash bad (s.received fd)) (λ good. h))
                λ len w₁ h₁.
                  Yields-if (Keeps front) Fails (ltb_ℤ (pos 0) len) _ _ w₁ (λ some_bytes. kept _ h₁)
                    (λ ends.
                      Yields-and_then (λ _ w'. Keeps front fds w') (Keeps front) Fails _ _
                        (Yields-and_then (λ _ w'. Keeps front fds w') (λ _ w'. Keeps front fds w')
                          Fails _ _
                          (checked-Yields (¬ Succeeds r) (λ _ w'. Keeps front fds w')
                            (sys_close fd (r.closed fd)) (r.closed fd) (negsuc 0) w₁
                            (λ bad s. clash bad (s.closed fd))
                            (λ good x ne. omega (arith, h₁ x ne)))
                          λ _ w' h'. h')
                        λ _ w₂ h₂.
                          Yields-and_then (Keeps front) (Keeps front) Fails _ _
                            (recv_sockets-Keeps front fds w₂ h₂)
                            λ rest w₃ h₃ x ne. omega (arith, h₃ x ne, one_zero x ne)))
            (λ quiet. kept w h))
        (λ is_closed. kept w h)

  -- One round: the client goes on, or none of its sockets is open.
  abbrev pub GoesOn : Bool → P → Type 0
  GoesOn more w =
      Keeps nothing w.state.sockets w × ((more ≡ false) → open_sockets w.state.sockets ≡ [])

  no_sockets : (fds : List ℤ) → length fds ≡ 0 → fds ≡ []
  no_sockets [] h = refl
  no_sockets (fd ∷ fds) h = absurd (omega arith)

  round-GoesOn : (nfds : ℤ) (w : P) → Stands w → Yields GoesOn Fails (round r nfds w)
  unfolding round
  round-GoesOn nfds w h =
      Yields-if GoesOn Fails (length (open_sockets w.state.sockets) == 0) _ _ w
        (λ none_open.
          (h, λ _. no_sockets (open_sockets w.state.sockets) ((==_iff _ _).0 none_open)))
        (λ some_open.
          Yields-and_then (λ _ w'. Stands w') GoesOn Fails _ _
            (checked-Yields (¬ Succeeds r) (λ _ w'. Stands w') _ r.selected (negsuc 0) w
              (λ bad s. clash bad s.selected) (λ good. h))
            λ _ w₁ h₁.
              Yields-and_then (λ _ w'. Stands w') GoesOn Fails _ _
                (Yields-if (λ _ w'. Stands w') Fails (r.ready (pos 0)) (on_stdin r) _ w₁
                  (λ typed. on_stdin-Stands w₁ h₁) (λ silent. h₁))
                λ _ w₂ h₂.
                  Yields-and_then (Keeps nothing) GoesOn Fails _ _
                    (recv_sockets-Keeps nothing w₂.state.sockets w₂ h₂) λ fds w₃ h₃. (h₃, λ e. cc))

-- The loop has ended, and no socket is open, or it goes on.
abbrev Talked : Bool → P → Type 0
Talked ended w =
    Keeps nothing w.state.sockets w × ((ended ≡ true) → open_sockets w.state.sockets ≡ [])

talk-Talked :
    (nfds : ℤ) (rounds : List Round) (w : P)
    → Keeps nothing w.state.sockets w
    → Yields Talked (λ _. ¬ All Succeeds rounds) (talk nfds rounds w)
unfolding talk
talk-Talked nfds [] w h = (h, λ e. cc)
talk-Talked nfds (r ∷ rounds) w h =
    Yields-and_then (GoesOn r) Talked (λ _. ¬ All Succeeds (r ∷ rounds)) _ _
      (Yields-weaken (GoesOn r) (λ _. ¬ Succeeds r) _ (round r nfds w)
        (λ _ fails all. fails (all.0)) (round-GoesOn r nfds w h))
      λ more w₁ (h₁, over).
        Yields-if Talked (λ _. ¬ All Succeeds (r ∷ rounds)) more _ _ w₁
          (λ _.
            Yields-weaken Talked (λ _. ¬ All Succeeds rounds) _ (talk nfds rounds w₁)
              (λ _ fails all. fails (all.1)) (talk-Talked nfds rounds w₁ h₁))
          (λ e. (h₁, λ _. over e))

-- A descriptor above 0 is none of the sockets where none is open.
times-open_sockets :
    (fds : List ℤ) (fd : ℤ) → open_sockets fds ≡ [] → ltb_ℤ (pos 0) fd ≡ true → times fd fds ≡ 0
times-open_sockets [] fd e h = refl
times-open_sockets (x ∷ fds) fd e h = elim (Bool-cases (ltb_ℤ (pos 0) x)) [
  | inl is_open ↦
      let here : open_sockets (x ∷ fds) ≡ x ∷ open_sockets fds = rw is_open refl in
      let nonempty : x ∷ open_sockets fds ≡ [] = sym here ∙ e in cc
  | inr is_closed ↦
      let other : (x ==ℤ fd) ≡ false = other_of x fd is_closed h in
      let here : open_sockets (x ∷ fds) ≡ open_sockets fds = rw is_closed refl in
      rw other (omega (arith, times-open_sockets fds fd (sym here ∙ e) h))
]
  where
    other_of : (x fd : ℤ) → ltb_ℤ (pos 0) x ≡ false → ltb_ℤ (pos 0) fd ≡ true → (x ==ℤ fd) ≡ false
    other_of x fd e h = elim (Bool-cases (x ==ℤ fd)) [
      | inl same ↦ absurd (clash h (sym (ap (λ k. ltb_ℤ (pos 0) k) ((==ℤ_iff x fd).0 same)) ∙ e))
      | inr other ↦ other
    ]

-- A process that has neither created nor closed anything.
abbrev pub IsFresh : P → Type 0
IsFresh w = (fd : ℤ) → (creates fd w.calls ≡ 0) × (closes fd w.calls ≡ 0)

-- Once the program has ended, every descriptor above 0 has been closed as often as it was created; until
-- then, every descriptor but 0 that was created is one of the sockets or has been closed.
abbrev pub Accounts : Bool → P → Type 0
Accounts ended w =
    ((ended ≡ true) → (fd : ℤ) → ltb_ℤ (pos 0) fd ≡ true → closes fd w.calls ≡ creates fd w.calls)
    × ((ended ≡ false) → Keeps nothing w.state.sockets w)

-- The client, in a process that has created nothing, for any addresses and any results of the calls: when
-- it ends, every descriptor above 0 has been closed as often as it was created, and while it runs, every
-- descriptor but 0 that was created is one of the sockets or has been closed. It exits only if a call fails.
pub client_main-Accounts :
    (ret : ℤ) (addresses : List Address) (rounds : List Round) (w : P)
    → IsFresh w
    → Yields Accounts
        (λ _. ¬ (All IsConnected addresses × All Succeeds rounds))
        (client_main ret addresses rounds w)
unfolding client_main
client_main-Accounts ret addresses rounds w fresh =
    Yields-if Accounts (λ _. ¬ (All IsConnected addresses × All Succeeds rounds))
      (get_addresses_port ret addresses == 0) _ _ w
      (λ none_found. (λ _ fd h. (fresh fd).1 ∙ sym ((fresh fd).0), λ e. cc))
      (λ some_found.
        Yields-and_then (Keeps nothing) Accounts
          (λ _. ¬ (All IsConnected addresses × All Succeeds rounds)) _ _
          (Yields-weaken (Keeps nothing) (λ _. ¬ All IsConnected addresses) _
            (create_sockets addresses w) (λ _ fails all. fails (all.0))
            (create_sockets-Keeps nothing addresses w
              (λ fd ne. omega (arith, (fresh fd).0, (fresh fd).1))))
          λ fds w₁ h₁.
            let w₂ : P = record w₁ { state = record { sockets = fds; stdin_open = true } } in
            Yields-map Talked Accounts (λ _. ¬ All Succeeds rounds) _
              (talk (max_fd (pos 0) fds +ℤ pos 1) rounds w₂)
              (λ ended u (hu, over). (
                λ e fd h. omega (
                  arith,
                  hu fd (λ z. clash h (ap (λ k. ltb_ℤ (pos 0) k) z)),
                  times-open_sockets u.state.sockets fd (over e) h,
                ),
                λ _. hu,
              ))
              (λ _ fails all. fails (all.1))
              (talk-Talked (max_fd (pos 0) fds +ℤ pos 1) rounds w₂ h₁))
