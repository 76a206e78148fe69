-- ===== src/Praktikum/Slots.antt =====
-- The slots of the discard and daytime servers: what they hold, and what becomes of a connection.
use mathlib.Core.Path.{subst}
use ws25_np.Prelude.{
  ℕ, suc, ◌+◌, ◌≡◌, ◌≢◌, refl, ap, sym, ◌∙◌, Bool, true, false, not, ◌&&◌, List, [], ◌∷◌,
  if◌then◌else◌, arith, length, Bool-cases, inl, inr,
}
use ws25_np.Prelude.Int.{ℤ, pos, negsuc, ltb_ℤ, ◌==ℤ◌, ◌+ℤ◌, ◌-ℤ◌, ==ℤ_iff}
use ws25_np.Prelude.Run.{M, pure, and_then, Yields, Yields-and_then, Yields-if}
use ws25_np.Praktikum.{Process, Call, sys_accept, sys_close, sys_recv, checked}
use ws25_np.Praktikum.Servers.{Round, P, accept_slot, recv_slots}

abbrev pub one : ℤ → ℤ → ℕ
one a b = if a ==ℤ b then 1 else 0

-- How often a descriptor stands in the slots, and how many slots are in use.
abbrev pub times : ℤ → List ℤ → ℕ
times fd [] = 0
times fd (x ∷ xs) = one x fd + times fd xs

abbrev pub occupied : List ℤ → ℕ
occupied [] = 0
occupied (x ∷ xs) = (if x ==ℤ negsuc 0 then 0 else 1) + occupied xs

-- How often a descriptor has been accepted, and closed.
abbrev pub accepts : ℤ → List Call → ℕ
accepts fd [] = 0
accepts fd (sys_accept parent result ∷ calls) = one result fd + accepts fd calls
accepts fd (call ∷ calls) = accepts fd calls

abbrev pub closes : ℤ → List Call → ℕ
closes fd [] = 0
closes fd (sys_close closed result ∷ calls) = one closed fd + closes fd calls
closes fd (call ∷ calls) = closes fd calls

-- Some slots in front of a rest `fds` hold `n` connections, `front fd` of them the descriptor `fd`: the count
-- is right, and every connection that was accepted is in a slot or has been closed.
pub record Holds (front : ℤ → ℕ) (n : ℕ) (fds : List ℤ) (w : P) : Type 0 where
  pub count : w.state.count_connections ≡ pos (n + occupied fds)
  pub kept :
      (fd : ℤ) → fd ≢ negsuc 0 → front fd + times fd fds + closes fd w.calls ≡ accepts fd w.calls

-- All calls of a round succeed.
pub record Succeeds (r : Round) : Type 0 where
  pub selected : ltb_ℤ r.selected (pos 0) ≡ false
  pub accepted : ltb_ℤ r.accepted (pos 0) ≡ false
  pub sent : ltb_ℤ r.sent (pos 0) ≡ false
  pub shut : ltb_ℤ r.shut (pos 0) ≡ false
  pub received : (fd : ℤ) → ltb_ℤ (r.received fd) (pos 0) ≡ false
  pub closed : (fd : ℤ) → ltb_ℤ (r.closed fd) (pos 0) ≡ false

-- A wrapped call.
pub checked-Yields :
    {S : Type 0} (B : Type 0) (R : ℤ → Process S → Type 0) (call : Call) (result code : ℤ)
    (w : Process S)
    → (ltb_ℤ result (pos 0) ≡ true → B)
    → (ltb_ℤ result (pos 0) ≡ false → R result (record w { calls = call ∷ w.calls }))
    → Yields R (λ _. B) (checked call result code w)
checked-Yields B R call result code w bad good =
    Yields-if R (λ _. B) (ltb_ℤ result (pos 0)) _ _ _ (λ e. bad e) (λ e. good e)

pub clash : {A : Type 0} {b : Bool} → b ≡ true → b ≡ false → A
clash e e' = absurd (cc)

module _ (front : ℤ → ℕ) (n : ℕ) (x : ℤ) (fds : List ℤ) (w : P) where
  -- A slot in use moves to the front, and back.
  Holds-pass :
      x ≢ negsuc 0 → Holds front n (x ∷ fds) w → Holds (λ fd. one x fd + front fd) (suc n) fds w
  Holds-pass used h = record {
    count =
        h.count
        ∙ (let busy : (x ==ℤ negsuc 0) ≡ false = ground (arith, ==ℤ_iff x (negsuc 0)) in
            rw busy (ap pos (omega arith)));
    kept = λ fd ne. omega (arith, h.kept fd ne);
  }

  Holds-back :
      x ≢ negsuc 0 → Holds (λ fd. one x fd + front fd) (suc n) fds w → Holds front n (x ∷ fds) w
  Holds-back used h = record {
    count =
        h.count
        ∙ (let busy : (x ==ℤ negsuc 0) ≡ false = ground (arith, ==ℤ_iff x (negsuc 0)) in
            rw busy (ap pos (omega arith)));
    kept = λ fd ne. omega (arith, h.kept fd ne);
  }

-- A free slot adds nothing.
one_free : (fd : ℤ) → fd ≢ negsuc 0 → one (negsuc 0) fd ≡ 0
one_free fd ne =
    let other : (negsuc 0 ==ℤ fd) ≡ false = ground (arith, ==ℤ_iff (negsuc 0) fd) in rw other

Holds-free :
    (front : ℤ → ℕ) (n : ℕ) (fds : List ℤ) (w : P)
    → Holds front n (negsuc 0 ∷ fds) w
    → Holds front n fds w
Holds-free front n fds w h = record {
  count = h.count ∙ ap pos (omega arith);
  kept = λ fd ne. omega (arith, h.kept fd ne, one_free fd ne);
}

Holds-freed :
    (front : ℤ → ℕ) (n : ℕ) (fds : List ℤ) (w : P)
    → Holds front n fds w
    → Holds front n (negsuc 0 ∷ fds) w
Holds-freed front n fds w h = record {
  count = h.count ∙ ap pos (omega arith);
  kept = λ fd ne. omega (arith, h.kept fd ne, one_free fd ne);
}

-- What a server sends to a new connection leaves the slots alone.
abbrev pub Greets : (Round → ℤ → M P (Unit {0})) → Round → Type 0
Greets greet r =
    (front : ℤ → ℕ) (n : ℕ) (fds : List ℤ) (fd : ℤ) (w : P)
    → Holds front n fds w
    → Yields (λ _ w'. Holds front n fds w' × (w'.state ≡ w.state)) (λ _. ¬ Succeeds r)
        (greet r fd w)

-- Every slot list that results holds what it has to, and has as many slots.
abbrev pub Filled : (ℤ → ℕ) → ℕ → List ℤ → List ℤ → P → Type 0
Filled front n fds fds' w = Holds front n fds' w × (length fds' ≡ length fds)

module _ (greet : Round → ℤ → M P (Unit {0})) (parent : ℤ) (r : Round) where
  abbrev Fails : P → Type 0
  Fails w = ¬ Succeeds r

  -- A slot in use is passed over.
  pass :
      (front : ℤ → ℕ) (n : ℕ) (fd : ℤ) (fds : List ℤ) (m : M P (List ℤ)) (w : P)
      → fd ≢ negsuc 0
      → Yields (Filled (λ a. one fd a + front a) (suc n) fds) Fails (m w)
      → Yields (Filled front n (fd ∷ fds)) Fails (and_then (m w) λ rest. pure (fd ∷ rest))
  pass front n fd fds m w used h =
      Yields-and_then (Filled (λ a. one fd a + front a) (suc n) fds) (Filled front n (fd ∷ fds))
        Fails (m w) _ h λ fds' w' h'. (Holds-back front n fd fds' w' used (h'.0), ap suc (h'.1))

  accepted-Holds :
      (front : ℤ → ℕ) (n : ℕ) (fds : List ℤ) (w : P)
      → ltb_ℤ r.accepted (pos 0) ≡ false
      → Holds front n (negsuc 0 ∷ fds) w
      → Holds front n (r.accepted ∷ fds) (record {
        state = record (w.state) { count_connections = w.state.count_connections +ℤ pos 1 };
        calls = sys_accept parent r.accepted ∷ w.calls;
      })
  unfolding ◌+ℤ◌
  accepted-Holds front n fds w good h =
      let busy : (r.accepted ==ℤ negsuc 0) ≡ false =
        ground (arith, ==ℤ_iff r.accepted (negsuc 0)) in
      record {
        count = rw (h.count, busy) (ground arith);
        kept = λ fd ne. omega (arith, h.kept fd ne, one_free fd ne);
      }

  pub accept_slot-Holds :
      Greets greet r
      → (front : ℤ → ℕ) (n : ℕ) (fds : List ℤ) (w : P) → Holds front n fds w
      → Yields (Filled front n fds) Fails (accept_slot greet parent r fds w)
  unfolding accept_slot
  accept_slot-Holds greets front n [] w h = (h, refl)
  accept_slot-Holds greets front n (fd ∷ fds) w h =
      Yields-if (Filled front n (fd ∷ fds)) Fails (fd ==ℤ negsuc 0) _ _ w
        (λ free.
          let h₀ = subst (λ a. Holds front n (a ∷ fds) w) ((==ℤ_iff fd (negsuc 0)).0 free) h in
          Yields-and_then
            (λ new w'.
              (new ≡ r.accepted)
              × Holds front n (r.accepted ∷ fds) (record w' {
                state = record (w'.state) {
                  count_connections = w'.state.count_connections +ℤ pos 1;
                };
              }))
            (Filled front n (fd ∷ fds)) Fails _ _
            (checked-Yields (¬ Succeeds r) _ (sys_accept parent r.accepted) r.accepted (negsuc 0) w
              (λ bad s. clash bad s.accepted)
              (λ good. (refl, accepted-Holds front n fds w good h₀)))
            λ new w' (same, h').
              Yields-and_then (λ _ u. Holds front n (r.accepted ∷ fds) u × (u.state ≡ _))
                (Filled front n (fd ∷ fds)) Fails _ _ (greets front n (r.accepted ∷ fds) new _ h')
                λ _ u (hu, _). (subst (λ a. Holds front n (a ∷ fds) u) (sym same) hu, refl))
        (λ busy.
          let used : fd ≢ negsuc 0 = ground (arith, ==ℤ_iff fd (negsuc 0)) in
          pass front n fd fds (accept_slot greet parent r fds) w used (
            accept_slot-Holds greets (λ a. one fd a + front a) (suc n) fds w
              (Holds-pass front n fd fds w used h)))

  -- The clients of the slots are heard; a connection that has ended is closed, and its slot is free.
  closed-Holds :
      (front : ℤ → ℕ) (n : ℕ) (fd : ℤ) (fds : List ℤ) (w : P)
      → fd ≢ negsuc 0
      → Holds front n (fd ∷ fds) w
      → Holds front n fds (record {
        state = record (w.state) { count_connections = w.state.count_connections -ℤ pos 1 };
        calls = sys_close fd (r.closed fd) ∷ sys_recv fd (r.received fd) ∷ w.calls;
      })
  unfolding ◌-ℤ◌
  closed-Holds front n fd fds w used h =
      let busy : (fd ==ℤ negsuc 0) ≡ false = ground (arith, ==ℤ_iff fd (negsuc 0)) in
      record {
        count = rw (h.count, busy) (ground arith);
        kept = λ a ne. omega (arith, h.kept a ne);
      }

  heard-Holds :
      (front : ℤ → ℕ) (n : ℕ) (fd : ℤ) (fds : List ℤ) (w : P)
      → Holds front n fds w
      → Holds front n fds (record w { calls = sys_recv fd (r.received fd) ∷ w.calls })
  heard-Holds front n fd fds w h = record { count = h.count; kept = h.kept }

  pub recv_slots-Holds :
      (front : ℤ → ℕ) (n : ℕ) (fds : List ℤ) (w : P)
      → Holds front n fds w
      → Yields (Filled front n fds) Fails (recv_slots greet parent r fds w)
  unfolding recv_slots
  recv_slots-Holds front n [] w h = (h, refl)
  recv_slots-Holds front n (fd ∷ fds) w h =
      Yields-if (Filled front n (fd ∷ fds)) Fails (not (fd ==ℤ negsuc 0) && r.ready fd) _ _ w
        (λ readable.
          let used : fd ≢ negsuc 0 = (λ e. ground (arith, ==ℤ_iff fd (negsuc 0))) in
          Yields-and_then
            (λ k w'.
              (k ≡ r.received fd)
              × (w' ≡ record w { calls = sys_recv fd (r.received fd) ∷ w.calls }))
            (Filled front n (fd ∷ fds)) Fails _ _
            (checked-Yields (¬ Succeeds r) _ (sys_recv fd (r.received fd)) (r.received fd)
              (negsuc 0) w (λ bad s. clash bad (s.received fd)) (λ good. (refl, refl)))
            λ k w' (_, same).
              Yields-if (Filled front n (fd ∷ fds)) Fails (k ==ℤ pos 0) _ _ w'
                (λ ended.
                  Yields-and_then
                    (λ _ u. u ≡ record w {
                      calls = sys_close fd (r.closed fd) ∷ sys_recv fd (r.received fd) ∷ w.calls;
                    })
                    (Filled front n (fd ∷ fds)) Fails _ _
                    (Yields-and_then
                      (λ _ u. u ≡ record w {
                        calls = sys_close fd (r.closed fd) ∷ sys_recv fd (r.received fd) ∷ w.calls;
                      })
                      _ Fails _ _
                      (checked-Yields (¬ Succeeds r) _ (sys_close fd (r.closed fd)) (r.closed fd)
                        (negsuc 0) w' (λ bad s. clash bad (s.closed fd))
                        (λ good.
                          ap (λ (v : P). record v { calls = sys_close fd (r.closed fd) ∷ v.calls })
                            same))
                      λ _ u e. e)
                    λ _ u e.
                      Yields-and_then (Filled front n fds) (Filled front n (fd ∷ fds)) Fails _ _
                        (recv_slots-Holds front n fds _ (
                          subst
                            (λ (v : P). Holds front n fds (record v {
                              state = record (v.state) {
                                count_connections = v.state.count_connections -ℤ pos 1;
                              };
                            }))
                            (sym e) (closed-Holds front n fd fds w used h)))
                        λ rest v (hv, l). (Holds-freed front n rest v hv, ap suc l))
                (λ goes_on. pass front n fd fds (recv_slots greet parent r fds) w' used (
                  recv_slots-Holds (λ a. one fd a + front a) (suc n) fds w'
                    (subst (Holds (λ a. one fd a + front a) (suc n) fds) (sym same) (
                      heard-Holds (λ a. one fd a + front a) (suc n) fd fds w
                        (Holds-pass front n fd fds w used h))))))
        (λ other. elim (Bool-cases (fd ==ℤ negsuc 0)) [
          | inl free ↦
              let h₀ =
                Holds-free front n fds w
                  (subst (λ a. Holds front n (a ∷ fds) w) ((==ℤ_iff fd (negsuc 0)).0 free) h) in
              Yields-and_then (Filled front n fds) (Filled front n (fd ∷ fds)) Fails _ _
                (recv_slots-Holds front n fds w h₀)
                λ rest v (hv, l). (
                  subst (λ a. Holds front n (a ∷ rest) v) (sym ((==ℤ_iff fd (negsuc 0)).0 free))
                      (Holds-freed front n rest v hv),
                  ap suc l,
                )
          | inr busy ↦
              let used : fd ≢ negsuc 0 = (λ e. ground (arith, ==ℤ_iff fd (negsuc 0))) in
              pass front n fd fds (recv_slots greet parent r fds) w used (
                recv_slots-Holds (λ a. one fd a + front a) (suc n) fds w
                  (Holds-pass front n fd fds w used h))
        ])
