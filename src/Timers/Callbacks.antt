-- ===== src/Timers/Callbacks.antt =====
-- What the timers call, and that `start_timer` and `stop_timer` never change it.
use mathlib.Core.Option
use ws25_np.Prelude.{
  ℕ, ◌≡◌, refl, ap, sym, ◌∙◌, Bool, true, false, Option, none, some, ◌==◌, if◌then◌else◌,
  Bool-cases, ==_iff, inl, inr,
}
use ws25_np.Prelude.Maybe.{◌>>=◌}
use ws25_np.Timers.{
  Timeval, Timer, Timers, change, timeval_before, insertion_point, link_front, link_behind,
  start_timer, is_started, stop_time_of, in_list, unlink, stop_timer,
}

module _ {C : Type 0} where
  abbrev pub calls : Timers C → ℕ → Option C
  calls t a = Option.map (λ (timer : Timer C). timer.callback) (t.cells a)

  -- The timers of the result, if there is one, call what `f` says.
  abbrev pub Calling : (ℕ → Option C) → Option (Timers C) → Type 0
  Calling f none = Unit
  Calling f (some t) = (a : ℕ) → calls t a ≡ f a

  module _ (f : ℕ → Option C) where
    Calling-bind :
        {A : Type 0} (o : Option A) (k : A → Option (Timers C))
        → ((x : A) → Calling f (k x))
        → Calling f (o >>= k)
    Calling-bind none k h = tt
    Calling-bind (some x) k h = h x

    Calling-then :
        (r : Option (Timers C)) (k : Timers C → Option (Timers C))
        → Calling f r
        → ((t : Timers C) → Calling f (some t) → Calling f (k t))
        → Calling f (r >>= k)
    Calling-then none k h next = tt
    Calling-then (some t) k h next = next t h

    Calling-if :
        (b : Bool) (r r' : Option (Timers C))
        → Calling f r
        → Calling f r'
        → Calling f (if b then r else r')
    Calling-if true r r' h h' = h
    Calling-if false r r' h h' = h'

    pub Calling-change :
        (p : ℕ) (g : Timer C → Timer C) (t : Timers C)
        → ((timer : Timer C) → (g timer).callback ≡ timer.callback)
        → Calling f (some t)
        → Calling f (change p g t)
    unfolding change
    Calling-change p g t same h =
        elim (t.cells p)
            as (λ o.
              ((t.cells p) ≡ o)
              → Calling f (
                  o >>= λ timer.
                  some (record t { cells = λ q. if p == q then some (g timer) else t.cells q }))) [
                    | none ↦ λ e. tt
                    | some timer ↦ λ e a. elim (Bool-cases (p == a)) [
                      | inl here ↦ rw here (
                          ap some (same timer)
                          ∙ ap (Option.map (λ (u : Timer C). u.callback))
                              (sym e ∙ ap t.cells ((==_iff p a).0 here))
                          ∙ h a)
                      | inr other ↦ rw other (h a)
                    ]
                  ]
          refl

    link_front-Calling :
        (p q : ℕ) (t : Timers C) → Calling f (some t) → Calling f (link_front p q t)
    unfolding link_front
    link_front-Calling p q t h =
        Calling-then (change p (λ timer. record timer { next = q; prev = 0 }) t) _
          (Calling-change p _ t (λ timer. refl) h)
          λ t₁ h₁.
            Calling-then (change q (λ timer. record timer { prev = p }) t₁) _
              (Calling-change q _ t₁ (λ timer. refl) h₁) λ t₂ h₂. h₂

    link_behind-Calling :
        (p q : ℕ) (t : Timers C) → Calling f (some t) → Calling f (link_behind p q t)
    unfolding link_behind
    link_behind-Calling p q t h = Calling-bind (t.cells q) _ λ timer.
        Calling-then
          (if timer.next == 0
            then some t
            else change timer.next (λ other. record other { prev = p }) t)
          _ (Calling-if (timer.next == 0) _ _ h (Calling-change timer.next _ t (λ other. refl) h))
          λ t₁ h₁.
            Calling-then (change p (λ new. record new { next = timer.next }) t₁) _
              (Calling-change p _ t₁ (λ u. refl) h₁)
              λ t₂ h₂.
                Calling-then (change q (λ other. record other { next = p }) t₂) _
                  (Calling-change q _ t₂ (λ u. refl) h₂)
                  λ t₃ h₃. Calling-change p (λ new. record new { prev = q }) t₃ (λ u. refl) h₃

    pub start_timer-Calling :
        (rounds : ℕ) (now : Timeval) (p timeout : ℕ) (t : Timers C)
        → Calling f (some t)
        → Calling f (start_timer rounds now p timeout t)
    unfolding start_timer
    start_timer-Calling rounds now p timeout t h = Calling-if (p == 0) _ _ h (
        Calling-bind (t.cells p) _ λ timer. Calling-if (is_started timer) _ _ h (
          Calling-then
            (change p
              (λ timer. record timer { start_time = now; stop_time = stop_time_of now timeout }) t)
            _ (Calling-change p _ t (λ u. refl) h)
            λ t₁ h₁. Calling-if (t₁.timer_list == 0) _ _ h₁ (
              Calling-bind (t₁.cells t₁.timer_list) _ λ first.
                Calling-if (timeval_before (stop_time_of now timeout) first.stop_time) _ _
                  (link_front-Calling p t₁.timer_list t₁ h₁)
                  (Calling-bind (insertion_point rounds (stop_time_of now timeout) t₁.timer_list t₁)
                    _ λ before. link_behind-Calling p before t₁ h₁))))

    unlink-Calling : (p : ℕ) (t : Timers C) → Calling f (some t) → Calling f (unlink p t)
    unfolding unlink
    unlink-Calling p t h = Calling-bind (t.cells p) _ λ timer.
        Calling-then
          (if timer.prev == 0
            then some t
            else change timer.prev (λ other. record other { next = timer.next }) t)
          _ (Calling-if (timer.prev == 0) _ _ h (Calling-change timer.prev _ t (λ u. refl) h))
          λ t₁ h₁.
            Calling-then
              (if timer.next == 0
                then some t₁
                else change timer.next (λ other. record other { prev = timer.prev }) t₁)
              _
              (Calling-if (timer.next == 0) _ _ h₁ (Calling-change timer.next _ t₁ (λ u. refl) h₁))
              λ t₂ h₂ a.
                elim (t₂.timer_list == p)
                  as (λ b.
                    calls (if b then record t₂ { timer_list = timer.next } else t₂) a ≡ f a) [
                      | true ↦ h₂ a
                      | false ↦ h₂ a
                    ]

    pub stop_timer-Calling :
        (rounds p : ℕ) (t : Timers C) → Calling f (some t) → Calling f (stop_timer rounds p t)
    unfolding stop_timer
    stop_timer-Calling rounds p t h = Calling-bind (in_list rounds t.timer_list p t) _ λ found.
        Calling-then (if found then unlink p t else some t) _
          (Calling-if found _ _ (unlink-Calling p t h) h)
          λ t₁ h₁. Calling-if (p == 0) _ _ h₁ (Calling-change p _ t₁ (λ u. refl) h₁)
