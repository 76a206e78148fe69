-- ===== src/Client/Linked/Laws.antt =====
-- The linked timers fulfil the laws that the client relies on.
use mathlib.Core.Option
use ws25_np.Prelude.{
  ℕ, ◌≡◌, ◌≢◌, refl, ap, sym, ◌∙◌, ◌⊎◌, inl, inr, Bool, true, false, Option, none, some, [], ◌==◌,
  arith, Bool-cases, ==_iff,
}
use ws25_np.Timers.{Timeval, Timer, stop_time_of}
use ws25_np.Timers.Queue.{Queue, running, remove, running-insert}
use ws25_np.Timers.Callbacks.{calls}
use ws25_np.Timers.Stopped.{gone}
use ws25_np.Client.{TimerService, TimerCallback}
use ws25_np.Client.Loop.{TimerLaws}
use ws25_np.Client.Linked.{
  Linked, create-calls, create_linked, delete_at, delete_linked, free-absent, remove-other, without,
  start_at, start_linked, started-calls, stop_at, stop_linked, stopped-calls,
}

-- A timer may expire when it runs.
abbrev pub Runs : Linked → ℕ → TimerCallback → Type 0
Runs s q c = (running q s.queue ≡ true) × (calls s.timers q ≡ some c)

create-Runs : (c d : TimerCallback) (s : Linked) (q : ℕ) → Runs (create_linked c s) q d → Runs s q d
unfolding create_linked
create-Runs c d s q (run, call) =
    let other : (s.fresh == q) ≡ false = elim (Bool-cases (s.fresh == q)) [
      | inl here ↦
          let out = free-absent s s.fresh (s.free s.fresh (omega arith)) in
          absurd (
            let clash =
              sym run ∙ ap (λ k. running k s.queue) (sym ((==_iff s.fresh q).0 here)) ∙ out in
            cc)
      | inr other ↦ other
    ] in
    (run, sym (create-calls c s q ∙ rw other refl) ∙ call)

-- What a timer calls that is not in the heap.
no_call :
    {A : Type 0} (s : Linked) (p : ℕ) (c : TimerCallback)
    → s.timers.cells p ≡ none
    → calls s.timers p ≡ some c
    → A
no_call s p c e live =
    let out = ap (Option.map (λ (u : Timer TimerCallback). u.callback)) e in
    absurd (let clash = sym out ∙ live in cc)

start_at-live :
    (now : Queue → Timeval) (p timeout : ℕ) (s : Linked) (o : Option (Timer TimerCallback))
    (b : Bool) (e : s.timers.cells p ≡ o) (e' : running p s.queue ≡ b) (c : TimerCallback)
    → calls s.timers p ≡ some c
    → (t : Linked) × (start_at now p timeout s o b e e' ≡ some t)
      × ((q : ℕ) → calls t.timers q ≡ calls s.timers q)
      × ((q : ℕ) → running q t.queue ≡ true → (q ≡ p) ⊎ (running q s.queue ≡ true))
unfolding start_at
start_at-live now p timeout s none b e e' c live = no_call s p c e live
start_at-live now p timeout s (some timer) true e e' c live = (s, refl, λ q. refl, λ q run. inr run)
start_at-live now p timeout s (some timer) false e e' c live = (
  _,
  refl,
  started-calls now p timeout s timer e e',
  λ q run. elim (Bool-cases (p == q)) [
    | inl here ↦ inl (sym ((==_iff p q).0 here))
    | inr other ↦
        inr (ground (arith, running-insert q p (stop_time_of (now s.queue) timeout) s.queue))
  ],
)

start-live :
    (now : Queue → Timeval) (p timeout : ℕ) (s : Linked) (c : TimerCallback)
    → calls s.timers p ≡ some c
    → (t : Linked) × (start_linked now p timeout s ≡ some t)
      × ((q : ℕ) → calls t.timers q ≡ calls s.timers q)
      × ((q : ℕ) (d : TimerCallback) → Runs t q d → (q ≡ p) ⊎ Runs s q d)
unfolding start_linked
start-live now p timeout s c live =
    let (t, run, same, runs) =
      start_at-live now p timeout s (s.timers.cells p) (running p s.queue) refl refl c live in
    (
      t,
      run,
      same,
      λ q d (r, call). elim (runs q r) [
        | inl e ↦ inl e
        | inr before ↦ inr (before, sym (same q) ∙ call)
      ],
    )

stop_at-live :
    (p : ℕ) (s : Linked) (o : Option (Timer TimerCallback)) (e : s.timers.cells p ≡ o)
    (c : TimerCallback)
    → calls s.timers p ≡ some c
    → (t : Linked) × (stop_at p s o e ≡ some t)
      × ((q : ℕ) → calls t.timers q ≡ calls s.timers q)
      × ((q : ℕ) → running q t.queue ≡ true → (running q s.queue ≡ true) × (q ≢ p))
unfolding stop_at
stop_at-live p s none e c live = no_call s p c e live
stop_at-live p s (some timer) e c live = (
  _,
  refl,
  stopped-calls p s timer e,
  λ q run.
      let apart : q ≢ p = λ same.
        (let out = gone s.timers.cells 0 s.timers.timer_list p s.queue s.chain in
          absurd (let clash = sym run ∙ ap (λ k. running k (remove p s.queue)) same ∙ out in cc)) in
      (sym (remove-other q p s.queue apart) ∙ run, apart),
)

stop-live :
    (p : ℕ) (s : Linked) (c : TimerCallback)
    → calls s.timers p ≡ some c
    → (t : Linked) × (stop_linked p s ≡ some t)
      × ((q : ℕ) → calls t.timers q ≡ calls s.timers q)
      × ((q : ℕ) (d : TimerCallback) → Runs t q d → Runs s q d × (q ≢ p))
unfolding stop_linked
stop-live p s c live =
    let (t, run, same, runs) = stop_at-live p s (s.timers.cells p) refl c live in
    (
      t,
      run,
      same,
      λ q d (r, call). let (before, apart) = runs q r in ((before, sym (same q) ∙ call), apart),
    )

without-Runs :
    (p : ℕ) (s : Linked) (e : running p s.queue ≡ false) (q : ℕ) (d : TimerCallback)
    → Runs (without p s e) q d
    → Runs s q d
unfolding without
without-Runs p s e q d (run, call) = elim (Bool-cases (p == q)) [
  | inl here ↦
      absurd
        (let clash = sym run ∙ ap (λ k. running k s.queue) (sym ((==_iff p q).0 here)) ∙ e in cc)
  | inr other ↦ (run, sym (rw other refl) ∙ call)
]

without-calls :
    (p : ℕ) (s : Linked) (e : running p s.queue ≡ false) (q : ℕ)
    → q ≢ p
    → calls (without p s e).timers q ≡ calls s.timers q
unfolding without
without-calls p s e q ne = let other : (p == q) ≡ false = ground (arith, ==_iff p q) in rw other

delete_at-live :
    (p : ℕ) (s : Linked) (o : Option (Timer TimerCallback)) (b : Bool) (e : s.timers.cells p ≡ o)
    (e' : running p s.queue ≡ b) (c : TimerCallback)
    → calls s.timers p ≡ some c
    → ((d : TimerCallback) → ¬ Runs s p d)
    → (t : Linked) × (delete_at p s o b e' ≡ some t)
      × ((q : ℕ) → q ≢ p → calls t.timers q ≡ calls s.timers q)
      × ((q : ℕ) (d : TimerCallback) → Runs t q d → Runs s q d)
unfolding delete_at
delete_at-live p s none b e e' c live still = no_call s p c e live
delete_at-live p s (some timer) true e e' c live still = absurd (still c (e', live))
delete_at-live p s (some timer) false e e' c live still =
    (without p s e', refl, without-calls p s e', without-Runs p s e')

delete-live :
    (p : ℕ) (s : Linked) (c : TimerCallback)
    → calls s.timers p ≡ some c
    → ((d : TimerCallback) → ¬ Runs s p d)
    → (t : Linked) × (delete_linked p s ≡ some t)
      × ((q : ℕ) → q ≢ p → calls t.timers q ≡ calls s.timers q)
      × ((q : ℕ) (d : TimerCallback) → Runs t q d → Runs s q d)
unfolding delete_linked
delete-live p s c = delete_at-live p s (s.timers.cells p) (running p s.queue) refl refl c

-- `now` is what `get_time` gives.
abbrev pub linked_timers : (now : Queue → Timeval) → TimerService
linked_timers now = record {
  Timers = Linked;
  create_timer = λ callback s. (s.fresh, create_linked callback s);
  start_timer = start_linked now;
  stop_timer = stop_linked;
  delete_timer = delete_linked;
}

pub linked_timers_laws : (now : Queue → Timeval) → TimerLaws (linked_timers now)
unfolding create_linked start_linked stop_linked delete_linked
linked_timers_laws now = record {
  callback_of = λ s q. calls s.timers q;
  Fires = Runs;
  fires-callback = λ s q c fires. fires.1;
  create-fresh = λ c s. s.free s.fresh (omega arith);
  create-callback = λ c s q. create-calls c s q;
  create-fires = create-Runs;
  start-live = start-live now;
  stop-live = stop-live;
  delete-live = delete-live;
}

-- Without running timers none may expire.
pub quiet_empty :
    (now : Queue → Timeval) (s : Linked) (q : ℕ) (c : TimerCallback)
    → s.queue ≡ []
    → ¬ (linked_timers_laws now).Fires s q c
unfolding linked_timers_laws
quiet_empty now s q c none_runs (run, _) = let clash = sym run ∙ ap (running q) none_runs in cc
