-- ===== src/Client/Linked.antt =====
-- The linked timers of client/lib/cblib.c as the timers of the client.
pub mod Laws
use mathlib.Core.Option
use ws25_np.Prelude.{
  ℕ, suc, ◌≤◌, ◌<◌, ◌≡◌, ◌≢◌, refl, ap, sym, ◌∙◌, ◌⊎◌, inl, inr, Bool, true, false, Option, none,
  some, [], ◌∷◌, ◌==◌, if◌then◌else◌, arith, Bool-cases, ==_iff, length, some_inj,
}
use mathlib.Core.Path.{subst}
use ws25_np.Timers.{
  Timeval, Timer, Timers, stop_time_of, is_started, create_timer, start_timer, stop_timer, no_time,
}
use ws25_np.Timers.Queue.{Queue, running, insert, remove, running-insert}
use ws25_np.Timers.Chain.{Chain, Represents, Cells, frame}
use ws25_np.Timers.Callbacks.{calls, Calling, start_timer-Calling, stop_timer-Calling}
use ws25_np.Timers.Refine.{Starts, start_timer-insert}
use ws25_np.Timers.Stopped.{Stops, stop_timer-remove, gone}
use ws25_np.Client.{TimerService, TimerCallback}
use ws25_np.Client.Loop.{TimerLaws}

-- A heap of timers that stands for a queue; from `fresh` on it is free.
pub record Linked : Type 0 where
  pub timers : Timers TimerCallback
  pub queue : Queue
  pub fresh : ℕ
  pub chain : Represents timers queue
  pub free : (a : ℕ) → fresh ≤ a → calls timers a ≡ none
  pub positive : 0 < fresh
  pub null : calls timers 0 ≡ none
  pub idle :
      (a : ℕ) (timer : Timer TimerCallback)
      → timers.cells a ≡ some timer
      → running a queue ≡ false
      → is_started timer ≡ false

Chain-holds :
    {C : Type 0} (cells : Cells C) (prev q a : ℕ) (queue : Queue)
    → Chain cells prev q queue
    → running a queue ≡ true
    → (timer : Timer C) × (cells a ≡ some timer)
Chain-holds cells prev q a [] h e = cc
Chain-holds cells prev q a ((r, s) ∷ queue) (timer, node, rest) e = elim (Bool-cases (r == a)) [
  | inl here ↦ (timer, ap cells (sym ((==_iff r a).0 here)) ∙ node.holds)
  | inr later ↦ Chain-holds cells r timer.next a queue rest (ground arith)
]

free-absent : (s : Linked) (a : ℕ) → calls s.timers a ≡ none → running a s.queue ≡ false
free-absent s a e = elim (Bool-cases (running a s.queue)) [
  | inl run ↦
      let (timer, holds) = Chain-holds s.timers.cells 0 s.timers.timer_list a s.queue s.chain run in
      absurd
        (let clash = sym e ∙ ap (Option.map (λ (u : Timer TimerCallback). u.callback)) holds in cc)
  | inr out ↦ out
]

new_idle :
    (callback : TimerCallback)
    → is_started (record {
      prev = 0;
      next = 0;
      start_time = no_time;
      stop_time = no_time;
      callback = callback;
    })
      ≡ false
unfolding is_started
new_idle callback = refl

create-cells :
    (c : TimerCallback) (fresh : ℕ) (t : Timers TimerCallback) (a : ℕ)
    → 0 < fresh
    → ((create_timer fresh (some c) t).1).cells a ≡ (
        if fresh == a
        then some
            (record { prev = 0; next = 0; start_time = no_time; stop_time = no_time; callback = c })
        else t.cells a)
unfolding create_timer
create-cells c fresh t a h = let nz : (fresh == 0) ≡ false = ground (arith, ==_iff fresh 0) in rw nz

create-list :
    (c : TimerCallback) (fresh : ℕ) (t : Timers TimerCallback)
    → ((create_timer fresh (some c) t).1).timer_list ≡ t.timer_list
unfolding create_timer
create-list c fresh t = elim (Bool-cases (fresh == 0)) [ inl e ↦ rw e | inr e ↦ rw e ]

create-calls :
    (c : TimerCallback) (s : Linked) (a : ℕ)
    → calls ((create_timer s.fresh (some c) s.timers).1) a
      ≡ (if s.fresh == a then some c else calls s.timers a)
create-calls c s a = elim (Bool-cases (s.fresh == a)) [
  | inl here ↦ rw (create-cells c s.fresh s.timers a s.positive, here)
  | inr other ↦ rw (create-cells c s.fresh s.timers a s.positive, other)
]

pub create_linked : TimerCallback → Linked → Linked
create_linked c s = record {
  timers = (create_timer s.fresh (some c) s.timers).1;
  queue = s.queue;
  fresh = suc s.fresh;
  chain =
      subst (λ q. Chain (((create_timer s.fresh (some c) s.timers).1).cells) 0 q s.queue)
        (sym (create-list c s.fresh s.timers))
        (frame s.queue 0 s.timers.timer_list s.chain λ a run.
          let out = free-absent s s.fresh (s.free s.fresh (omega arith)) in
          let other : (s.fresh == a) ≡ false =
            ground (arith, ==_iff s.fresh a, ap (λ k. running k s.queue)) in
          create-cells c s.fresh s.timers a s.positive ∙ rw other);
  free = λ a h.
      let other : (s.fresh == a) ≡ false = ground (arith, ==_iff s.fresh a) in
      create-calls c s a ∙ rw other (s.free a (omega arith));
  positive = omega arith;
  null =
      let other : (s.fresh == 0) ≡ false =
        (let h = s.positive in ground (arith, ==_iff s.fresh 0)) in
      create-calls c s 0 ∙ rw other s.null;
  idle = λ a timer holds out. elim (Bool-cases (s.fresh == a)) [
    | inl here ↦
        let e : some _ ≡ some timer =
          sym (create-cells c s.fresh s.timers a s.positive ∙ rw here refl) ∙ holds in
        ap is_started (sym (some_inj _ timer e)) ∙ new_idle c
    | inr other ↦
        s.idle a timer (sym (create-cells c s.fresh s.timers a s.positive ∙ rw other refl) ∙ holds)
          out
  ];
}

not_null_of :
    (s : Linked) (p : ℕ) (timer : Timer TimerCallback) → s.timers.cells p ≡ some timer → p ≢ 0
not_null_of s p timer e z =
    let clash =
      sym s.null
      ∙ ap (calls s.timers) (sym z)
      ∙ ap (Option.map (λ (u : Timer TimerCallback). u.callback)) e in
    absurd (cc)

module _ (now : Queue → Timeval) where
  -- What `start_timer` makes of an idle timer.
  started :
      (p timeout : ℕ) (s : Linked) (timer : Timer TimerCallback)
      → s.timers.cells p ≡ some timer
      → running p s.queue ≡ false
      → Starts p s.timers s.queue
          (insert p (stop_time_of (now s.queue) timeout) s.queue)
          (start_timer (length s.queue) (now s.queue) p timeout s.timers)
  started p timeout s timer e out =
      start_timer-insert p (length s.queue) (now s.queue) timeout s.timers timer s.queue
        (not_null_of s p timer e) e (s.idle p timer e out) out s.chain (omega arith)

  started-calls :
      (p timeout : ℕ) (s : Linked) (timer : Timer TimerCallback) (e : s.timers.cells p ≡ some timer)
      (out : running p s.queue ≡ false) (a : ℕ)
      → calls (started p timeout s timer e out).t' a ≡ calls s.timers a
  started-calls p timeout s timer e out =
      subst (Calling (calls s.timers)) (started p timeout s timer e out).returns (
        start_timer-Calling (calls s.timers) (length s.queue) (now s.queue) p timeout s.timers
          (λ a. refl))

  -- For any pointer: a NULL is passed over, a timer that runs already is left as it is, and a pointer to no
  -- timer dangles.
  start_at :
      (p timeout : ℕ) (s : Linked) (o : Option (Timer TimerCallback)) (b : Bool)
      → s.timers.cells p ≡ o
      → running p s.queue ≡ b
      → Option Linked
  start_at p timeout s none b e e' = if p == 0 then some s else none
  start_at p timeout s (some timer) true e e' = some s
  start_at p timeout s (some timer) false e out =
      let st = started p timeout s timer e out in
      let same = started-calls p timeout s timer e out in
      some (record {
        timers = st.t';
        queue = insert p (stop_time_of (now s.queue) timeout) s.queue;
        fresh = s.fresh;
        chain = st.represents;
        free = λ a h. same a ∙ s.free a h;
        positive = s.positive;
        null = same 0 ∙ s.null;
        idle = λ a u holds far.
            let apart : (p == a) ≡ false =
              ground (arith, running-insert a p (stop_time_of (now s.queue) timeout) s.queue) in
            let out' : running a s.queue ≡ false =
              ground (arith, running-insert a p (stop_time_of (now s.queue) timeout) s.queue) in
            s.idle a u (sym (st.others a (ground (arith, ==_iff p a)) out') ∙ holds) out';
      })

  pub start_linked : ℕ → ℕ → Linked → Option Linked
  start_linked p timeout s = start_at p timeout s (s.timers.cells p) (running p s.queue) refl refl

reset_idle :
    (timer : Timer TimerCallback)
    → is_started (record timer { prev = 0; next = 0; start_time = no_time; stop_time = no_time })
      ≡ false
unfolding is_started
reset_idle timer = refl

-- What `stop_timer` makes of a timer.
stopped :
    (p : ℕ) (s : Linked) (timer : Timer TimerCallback) (e : s.timers.cells p ≡ some timer)
    → Stops p timer s.timers e s.queue (remove p s.queue) (stop_timer (length s.queue) p s.timers)
stopped p s timer e =
    stop_timer-remove (length s.queue) p timer s.timers s.queue (not_null_of s p timer e) e s.chain
      (omega arith)

stopped-calls :
    (p : ℕ) (s : Linked) (timer : Timer TimerCallback) (e : s.timers.cells p ≡ some timer) (a : ℕ)
    → calls (stopped p s timer e).t' a ≡ calls s.timers a
stopped-calls p s timer e =
    subst (Calling (calls s.timers)) (stopped p s timer e).returns
      (stop_timer-Calling (calls s.timers) (length s.queue) p s.timers (λ a. refl))

remove-other : (a p : ℕ) (queue : Queue) → a ≢ p → running a (remove p queue) ≡ running a queue
remove-other a p [] ne = refl
remove-other a p ((q, s) ∷ queue) ne = elim (Bool-cases (q == p)) [
  | inl here ↦ rw here (ground (arith, ==_iff q p, ==_iff q a))
  | inr later ↦ rw (later, remove-other a p queue ne)
]

stop_at :
    (p : ℕ) (s : Linked) (o : Option (Timer TimerCallback)) → s.timers.cells p ≡ o → Option Linked
stop_at p s none e = if p == 0 then some s else none
stop_at p s (some timer) e =
    let st = stopped p s timer e in
    let same = stopped-calls p s timer e in
    some (record {
      timers = st.t';
      queue = remove p s.queue;
      fresh = s.fresh;
      chain = st.represents;
      free = λ a h. same a ∙ s.free a h;
      positive = s.positive;
      null = same 0 ∙ s.null;
      idle = λ a u holds far. elim (Bool-cases (a == p)) [
        | inl here ↦
            let e' : some _ ≡ some u =
              sym (ap st.t'.cells ((==_iff a p).0 here) ∙ st.fresh) ∙ holds in
            ap is_started (sym (some_inj _ u e')) ∙ reset_idle timer
        | inr other ↦
            let ne : a ≢ p = ground (arith, ==_iff a p) in
            let out = sym (remove-other a p s.queue ne) ∙ far in
            s.idle a u (sym (st.others a ne out) ∙ holds) out
      ];
    })

pub stop_linked : ℕ → Linked → Option Linked
stop_linked p s = stop_at p s (s.timers.cells p) refl

-- `free`, for a timer that does not run.
without : (p : ℕ) (s : Linked) → running p s.queue ≡ false → Linked
without p s e = record {
  timers = record (s.timers) { cells = λ q. if p == q then none else s.timers.cells q };
  queue = s.queue;
  fresh = s.fresh;
  chain = frame s.queue 0 s.timers.timer_list s.chain λ a run.
      let other : (p == a) ≡ false = ground (arith, ==_iff p a, ap (λ k. running k s.queue)) in
      rw other;
  free =
      λ a h. elim (Bool-cases (p == a)) [ inl here ↦ rw here | inr other ↦ rw other (s.free a h) ];
  positive = s.positive;
  null = elim (Bool-cases (p == 0)) [ inl here ↦ rw here | inr other ↦ rw other (s.null) ];
  idle = λ a u holds out. elim (Bool-cases (p == a)) [
    | inl here ↦ absurd (let clash : none ≡ some u = sym (rw here refl) ∙ holds in cc)
    | inr other ↦ s.idle a u (sym (rw other refl) ∙ holds) out
  ];
}

-- The `free` of a timer that runs, which leaves a dangling pointer in the list, counts as undefined at
-- once; so does that of a pointer to no timer.
delete_at :
    (p : ℕ) (s : Linked) (o : Option (Timer TimerCallback)) (b : Bool)
    → running p s.queue ≡ b
    → Option Linked
delete_at p s none b e = if p == 0 then some s else none
delete_at p s (some timer) true e = none
delete_at p s (some timer) false e = some (without p s e)

pub delete_linked : ℕ → Linked → Option Linked
delete_linked p s = delete_at p s (s.timers.cells p) (running p s.queue) refl
