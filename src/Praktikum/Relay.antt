-- ===== src/Praktikum/Relay.antt =====
-- The client with one connection passes on all that it reads, and closes its connection.
use mathlib.Core.Path.{subst}
use ws25_np.Prelude.{
  ℕ, ◌+◌, ◌≡◌, refl, ap, sym, ◌∙◌, Bool, true, false, ◌||◌, List, [], ◌∷◌, All, Option, none, some,
  arith, length,
}
use ws25_np.Prelude.Int.{ℤ, pos, negsuc, pos_part, ltb_ℤ, ◌+ℤ◌}
use ws25_np.Prelude.Run.{and_then, Yields, Yields-and_then, Yields-if}
use ws25_np.Praktikum
use ws25_np.Praktikum.{
  Process, Call, sys_socket, sys_connect, sys_select, sys_send, sys_recv, sys_shutdown, sys_close,
  sys_read, sys_write,
}
use ws25_np.Praktikum.Streams.{Arrival, arrives, fails, recv_result, recv_bytes}
use ws25_np.Praktikum.Slots.{one, closes, checked-Yields, clash}
use ws25_np.Praktikum.Clients.Leaks.{creates}
use ws25_np.Praktikum.Single.{
  Exchange, Connection, hear, hear_if, pass_on, pass_on_if, converse, drain, finish, single_main,
}

-- How many bytes were received, written, read and given to `send`.
abbrev pub heard : List Call → ℕ
heard [] = 0
heard (sys_recv fd result ∷ calls) = pos_part result + heard calls
heard (call ∷ calls) = heard calls

abbrev pub written : List Call → ℕ
written [] = 0
written (sys_write bytes ∷ calls) = length bytes + written calls
written (call ∷ calls) = written calls

abbrev pub typed : List Call → ℕ
typed [] = 0
typed (sys_read fd result ∷ calls) = pos_part result + typed calls
typed (call ∷ calls) = typed calls

abbrev pub offered : List Call → ℕ
offered [] = 0
offered (sys_send fd bytes result ∷ calls) = length bytes + offered calls
offered (call ∷ calls) = offered calls

-- All that was received is written, all that was read is sent on; `held` says which descriptors are open.
pub record IsEven (held : ℤ → ℕ) (calls : List Call) : Type 0 where
  pub shown : written calls ≡ heard calls
  pub passed : offered calls ≡ typed calls
  pub kept : (fd : ℤ) → held fd + closes fd calls ≡ creates fd calls

abbrev pub nothing : ℤ → ℕ
nothing fd = 0

abbrev pub Hears : Option Arrival → Type 0
Hears none = Unit
Hears (some arrival) = ltb_ℤ (recv_result arrival) (pos 0) ≡ false

-- The calls of a round, and those around the rounds, succeed.
pub record Works (x : Exchange) : Type 0 where
  pub selected : ltb_ℤ x.selected (pos 0) ≡ false
  pub received : Hears x.received
  pub sent : ltb_ℤ x.sent (pos 0) ≡ false

pub record Connects (c : Connection) : Type 0 where
  pub created : ltb_ℤ c.created (pos 0) ≡ false
  pub connected : ltb_ℤ c.connected (pos 0) ≡ false
  pub shut : ltb_ℤ c.shut (pos 0) ≡ false
  pub closed : ltb_ℤ c.closed (pos 0) ≡ false
  pub remaining : All (λ arrival. ltb_ℤ (recv_result arrival) (pos 0) ≡ false) c.remaining

size_of :
    (arrival : Arrival)
    → ltb_ℤ (pos 0) (recv_result arrival) ≡ true
    → length (recv_bytes arrival) ≡ pos_part (recv_result arrival)
size_of (arrives bytes) h = refl
size_of fails h = cc

none_of :
    (arrival : Arrival)
    → ltb_ℤ (pos 0) (recv_result arrival) ≡ false
    → pos_part (recv_result arrival) ≡ 0
none_of (arrives bytes) h = ground arith
none_of fails h = refl

module _ {S : Type 0} (B : Type 0) (held : ℤ → ℕ) where
  abbrev Even : Process S → Type 0
  Even w = IsEven held w.calls

  hear-Even :
      (fd : ℤ) (arrival : Arrival) (w : Process S)
      → (ltb_ℤ (recv_result arrival) (pos 0) ≡ true → B)
      → Even w
      → Yields (λ _ w'. Even w') (λ _. B) (hear fd arrival w)
  unfolding hear
  hear-Even fd arrival w bad h =
      Yields-and_then
        (λ len w'.
          (len ≡ recv_result arrival)
          × (w' ≡ record w { calls = sys_recv fd (recv_result arrival) ∷ w.calls }))
        (λ _ w'. Even w') (λ _. B) _ _
        (checked-Yields B _ (sys_recv fd (recv_result arrival)) (recv_result arrival) (negsuc 0) w
          bad (λ good. (refl, refl)))
        λ len w₁ (e, same).
          Yields-if (λ _ w'. Even w') (λ _. B) (ltb_ℤ (pos 0) len) _ _ w₁
            (λ some_bytes.
              let size = size_of arrival (sym (ap (λ l. ltb_ℤ (pos 0) l) e) ∙ some_bytes) in
              subst (λ (v : Process S). IsEven held (sys_write (recv_bytes arrival) ∷ v.calls))
                (sym same)
                (record { shown = omega (arith, size, h.shown); passed = h.passed; kept = h.kept }))
            (λ ends.
              let size = none_of arrival (sym (ap (λ l. ltb_ℤ (pos 0) l) e) ∙ ends) in
              subst Even (sym same)
                (record { shown = omega (arith, size, h.shown); passed = h.passed; kept = h.kept }))

  pass_on-Even :
      (fd : ℤ) (arrival : Arrival) (sent : ℤ) (w : Process S)
      → (ltb_ℤ sent (pos 0) ≡ true → B)
      → Even w
      → Yields (λ _ w'. Even w') (λ _. B) (pass_on fd arrival sent w)
  unfolding pass_on
  pass_on-Even fd arrival sent w bad h =
      Yields-if (λ _ w'. Even w') (λ _. B) (ltb_ℤ (pos 0) (recv_result arrival)) _ _ _
        (λ some_bytes.
          Yields-and_then (λ _ w'. Even w') (λ _ w'. Even w') (λ _. B) _ _
            (checked-Yields B (λ _ w'. Even w') (sys_send fd (recv_bytes arrival) sent) sent
              (negsuc 0) _ bad
              (λ good. record {
                shown = h.shown;
                passed = omega (arith, size_of arrival some_bytes, h.passed);
                kept = h.kept;
              }))
            λ _ w' h'. h')
        (λ ends. record {
          shown = h.shown;
          passed = omega (arith, none_of arrival ends, h.passed);
          kept = h.kept;
        })

  converse-Even :
      (fd : ℤ) (exchanges : List Exchange) (w : Process S)
      → (¬ All Works exchanges → B)
      → Even w
      → Yields (λ _ w'. Even w') (λ _. B) (converse fd exchanges w)
  unfolding converse hear_if pass_on_if
  converse-Even fd [] w bad h = h
  converse-Even fd (x ∷ exchanges) w bad h =
      Yields-and_then (λ _ w'. Even w') (λ _ w'. Even w') (λ _. B) _ _
        (checked-Yields B (λ _ w'. Even w') (sys_select (fd +ℤ pos 1) (fd ∷ pos 0 ∷ []) x.selected)
          x.selected (negsuc 0) w (λ e. bad (λ all. clash e ((all.0).selected)))
          (λ good. record { shown = h.shown; passed = h.passed; kept = h.kept }))
        λ _ w₁ h₁.
          Yields-and_then (λ _ w'. Even w') (λ _ w'. Even w') (λ _. B) _ _
            (heard_part x.received w₁ (λ fails_now. bad (λ all. fails_now ((all.0).received))) h₁)
            λ server w₂ h₂.
              Yields-and_then (λ _ w'. Even w') (λ _ w'. Even w') (λ _. B) _ _
                (passed_part x.typed w₂ (λ e. bad (λ all. clash e ((all.0).sent))) h₂)
                λ stdin w₃ h₃.
                  Yields-if (λ _ w'. Even w') (λ _. B) (server || stdin) _ _ w₃ (λ over. h₃)
                    (λ on.
                      converse-Even fd exchanges w₃
                        (λ fails_later. bad (λ all. fails_later (all.1))) h₃)
    where
      heard_part :
          (o : Option Arrival) (w : Process S)
          → (¬ Hears o → B)
          → Even w
          → Yields (λ _ w'. Even w') (λ _. B) (hear_if fd o w)
      heard_part none w bad h = h
      heard_part (some arrival) w bad h = hear-Even fd arrival w (λ e. bad (λ good. clash e good)) h

      passed_part :
          (o : Option Arrival) (w : Process S)
          → (ltb_ℤ x.sent (pos 0) ≡ true → B)
          → Even w
          → Yields (λ _ w'. Even w') (λ _. B) (pass_on_if fd o x.sent w)
      passed_part none w bad h = h
      passed_part (some arrival) w bad h = pass_on-Even fd arrival x.sent w bad h

  drain-Even :
      (fd : ℤ) (arrivals : List Arrival) (w : Process S)
      → (¬ All (λ arrival. ltb_ℤ (recv_result arrival) (pos 0) ≡ false) arrivals → B)
      → Even w
      → Yields (λ _ w'. Even w') (λ _. B) (drain fd arrivals w)
  unfolding drain
  drain-Even fd [] w bad h = h
  drain-Even fd (a ∷ arrivals) w bad h =
      Yields-and_then (λ _ w'. Even w') (λ _ w'. Even w') (λ _. B) _ _
        (hear-Even fd a w (λ e. bad (λ all. clash e (all.0))) h)
        λ over w₁ h₁.
          Yields-if (λ _ w'. Even w') (λ _. B) over _ _ w₁ (λ _. h₁)
            (λ _. drain-Even fd arrivals w₁ (λ fails_later. bad (λ all. fails_later (all.1))) h₁)

-- Behind the end of the program its connection is closed; before, it is open. All that was received is
-- written, and all that was read is sent on.
abbrev pub Settled : {S : Type 0} → ℤ → Bool → Process S → Type 0
Settled fd ended w =
    ((ended ≡ true) → IsEven nothing w.calls) × ((ended ≡ false) → IsEven (one fd) w.calls)

module _ {S : Type 0} (B : Type 0) (fd : ℤ) (c : Connection) (bad : ¬ Connects c → B) where
  close-Settled :
      (w : Process S)
      → IsEven (one fd) w.calls
      → Yields (λ _ w'. IsEven nothing w'.calls) (λ _. B) (Praktikum.close fd c.closed w)
  close-Settled w h =
      Yields-and_then (λ _ w'. IsEven nothing w'.calls) (λ _ w'. IsEven nothing w'.calls) (λ _. B) _
        _
        (checked-Yields B (λ _ w'. IsEven nothing w'.calls) (sys_close fd c.closed) c.closed
          (negsuc 0) w (λ e. bad (λ good. clash e good.closed))
          (λ good. record {
            shown = h.shown;
            passed = h.passed;
            kept = λ x. omega (arith, h.kept x);
          }))
        λ _ w' h'. h'

  finish-Settled :
      (over : Option Bool) (w : Process S)
      → IsEven (one fd) w.calls
      → Yields (Settled fd) (λ _. B) (finish fd c over w)
  unfolding finish
  finish-Settled none w h = (λ e. cc, λ _. h)
  finish-Settled (some true) w h =
      Yields-and_then (λ _ w'. IsEven nothing w'.calls) (Settled fd) (λ _. B) _ _
        (close-Settled w h) λ _ w' h'. (λ _. h', λ e. cc)
  finish-Settled (some false) w h =
      Yields-and_then (λ _ w'. IsEven (one fd) w'.calls) (Settled fd) (λ _. B) _ _
        (checked-Yields B (λ _ w'. IsEven (one fd) w'.calls) (sys_shutdown fd c.shut) c.shut
          (negsuc 0) w (λ e. bad (λ good. clash e good.shut))
          (λ good. record { shown = h.shown; passed = h.passed; kept = h.kept }))
        λ _ w₁ h₁.
          Yields-and_then (λ _ w'. IsEven (one fd) w'.calls) (Settled fd) (λ _. B) _ _
            (drain-Even B (one fd) fd c.remaining w₁
              (λ fails_there. bad (λ good. fails_there good.remaining)) h₁)
            λ over w₂ h₂.
              Yields-if (Settled fd) (λ _. B) over _ _ w₂
                (λ _.
                  Yields-and_then (λ _ w'. IsEven nothing w'.calls) (Settled fd) (λ _. B) _ _
                    (close-Settled w₂ h₂) λ _ w' h'. (λ _. h', λ e. cc))
                (λ _. (λ e. cc, λ _. h₂))

-- The client with one connection, for any results of its calls, in a process whose descriptors are
-- settled: it writes as many bytes as it has received, and gives as many to `send` as it has read; when it ends,
-- it has closed its connection once, and before that not at all. It exits only if a call fails.
pub single_main-Settled :
    {S : Type 0} (c : Connection) (exchanges : List Exchange) (w : Process S)
    → IsEven nothing w.calls
    → Yields
        (Settled c.created)
        (λ _. ¬ (Connects c × All Works exchanges))
        (single_main c exchanges w)
unfolding single_main
single_main-Settled {S} c exchanges w h =
    Yields-and_then (λ fd w'. (fd ≡ c.created) × IsEven (one c.created) w'.calls)
      (Settled c.created) Fails _ _
      (checked-Yields (¬ (Connects c × All Works exchanges))
        (λ fd w'. (fd ≡ c.created) × IsEven (one c.created) w'.calls) (sys_socket c.created)
        c.created (pos 1) w (λ e good. clash e ((good.0).created))
        (λ good. (
          refl,
          record { shown = h.shown; passed = h.passed; kept = λ x. omega (arith, h.kept x) },
        )))
      λ fd w₁ (same, h₁).
        subst
          (λ fd. Yields (Settled c.created) Fails (
            and_then (Praktikum.connect fd c.connected w₁)
              λ _ u. and_then (converse fd exchanges u) (finish fd c)))
          (sym same)
          (Yields-and_then (λ _ w'. IsEven (one c.created) w'.calls) (Settled c.created) Fails _ _
            (Yields-and_then (λ _ w'. IsEven (one c.created) w'.calls)
              (λ _ w'. IsEven (one c.created) w'.calls) Fails _ _
              (checked-Yields (¬ (Connects c × All Works exchanges))
                (λ _ w'. IsEven (one c.created) w'.calls) (sys_connect c.created c.connected)
                c.connected (negsuc 0) w₁ (λ e good. clash e ((good.0).connected))
                (λ good. record { shown = h₁.shown; passed = h₁.passed; kept = h₁.kept }))
              λ _ w' h'. h')
            λ _ w₂ h₂.
              Yields-and_then (λ _ w'. IsEven (one c.created) w'.calls) (Settled c.created) Fails _
                _
                (converse-Even (¬ (Connects c × All Works exchanges)) (one c.created) c.created
                  exchanges w₂ (λ fails_there good. fails_there (good.1)) h₂)
                λ over w₃ h₃.
                  finish-Settled (¬ (Connects c × All Works exchanges)) c.created c
                    (λ fails_there good. fails_there (good.0)) over w₃ h₃)
  where
    Fails : Process S → Type 0
    Fails _ = ¬ (Connects c × All Works exchanges)
