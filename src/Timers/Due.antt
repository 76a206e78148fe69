-- ===== src/Timers/Due.antt =====
-- What `handle_event` does with the timers, as a queue in the order of the stop times.
use ws25_np.Prelude.{
  ℕ, suc, ◌+◌, ◌*◌, ◌≤◌, ◌<◌, ◌≡◌, refl, ap, sym, ◌∙◌, ◌⊎◌, inl, inr, false, Option, some, [], ◌∷◌,
  ◌==◌, arith, All, Bool-cases, ==_iff, length,
}
use ws25_np.Prelude.Int.{pos}
use ws25_np.Prelude.Maybe.{step, then-case, else-case}
use mathlib.Core.Path.{subst}
use ws25_np.Timers.{
  Timeval, Timer, Timers, Plan, due, wait_for, wait_forever, timeval_before, time_left, stop_timer,
  handle_event, handle_timeout,
}
use ws25_np.Timers.Times.{micros, IsNormal, timeval_before_iff, time_left_lem}
use ws25_np.Timers.Queue.{Queue, remove, IsSorted}
use ws25_np.Timers.Chain.{Represents}
use ws25_np.Timers.Stopped.{Stops, stop_timer-remove}

module _ {C : Type 0} where
  -- Without timers, a wait without end. Otherwise no timer stops before the first one: it is run and
  -- taken out of the queue when it is due, or is waited for as long as it has left.
  abbrev pub Serves : Timeval → Timers C → Queue → Option (Plan C × Timers C) → Type 0
  Serves now t [] r = r ≡ some (wait_forever, t)
  Serves now t ((p, s) ∷ rest) r =
      (timer : Timer C) × (t.cells p ≡ some timer)
      × All (λ (later : ℕ × Timeval). micros s ≤ micros later.1) rest
      × (((micros s < micros now)
            × (t' : Timers C) × (r ≡ some (due timer.callback, t'))
            × Represents t' rest)
          ⊎ ((micros now ≤ micros s)
              × (seconds microseconds : ℕ) × (r
                  ≡ some (wait_for (pos seconds) (pos microseconds), t))
              × (microseconds < 1000000)
              × (micros now + (1000000 * seconds + microseconds) ≡ micros s)))

  -- The first timer is stopped through `timer_list`.
  stop-head :
      (rounds p : ℕ) (s : Timeval) (rest : Queue) (t : Timers C)
      → Represents t ((p, s) ∷ rest)
      → suc (length rest) ≤ rounds
      → (t' : Timers C) × (stop_timer rounds t.timer_list t ≡ some t') × Represents t' rest
  stop-head rounds p s rest t (timer, node, chain) fuel =
      let st : Stops p timer t node.holds ((p, s) ∷ rest) (remove p ((p, s) ∷ rest))
          (stop_timer rounds p t) =
        stop_timer-remove rounds p timer t ((p, s) ∷ rest) node.not_null node.holds
          (timer, node, chain) fuel in
      let head : remove p ((p, s) ∷ rest) ≡ rest = rw ((==_iff p p).1 refl) in
      (
        st.t',
        ap (λ q. stop_timer rounds q t) node.here ∙ st.returns,
        subst (Represents st.t') head st.represents,
      )

  -- The step of the event loop before its `select`, in as many rounds as there are timers.
  pub handle_event-Serves :
      (rounds : ℕ) (now : Timeval) (t : Timers C) (queue : Queue)
      → Represents t queue
      → IsSorted queue
      → IsNormal now
      → length queue ≤ rounds
      → Serves now t queue (handle_event rounds now t)
  unfolding handle_event
  handle_event-Serves rounds now t [] last sorted hn fuel = rw ((==_iff t.timer_list 0).1 last)
  handle_event-Serves rounds now t ((p, s) ∷ rest) (timer, node, chain) (hs, first, sorted) hn
        fuel =
      let linked : (t.timer_list == 0) ≡ false =
        (let ne = node.not_null in ground (arith, node.here, ==_iff t.timer_list 0)) in
      let holds : t.cells t.timer_list ≡ some timer = ap t.cells node.here ∙ node.holds in
      (
        timer,
        node.holds,
        first,
        elim (Bool-cases (timeval_before timer.stop_time now)) [
          | inl over ↦
              let (t', stopped, represents) =
                stop-head rounds p s rest t (timer, node, chain) fuel in
              inl (
                (timeval_before_iff s now hs hn).0
                    (ap (λ u. timeval_before u now) (sym node.stops) ∙ over),
                t',
                else-case _ _ _ linked (
                    step _ _ holds (
                      then-case _ _ _ over (
                        step (stop_timer rounds t.timer_list t)
                          (λ t'. some (due timer.callback, t')) stopped refl))),
                represents,
              )
          | inr wait ↦
              let before : timeval_before s now ≡ false =
                ap (λ u. timeval_before u now) (sym node.stops) ∙ wait in
              let (sec, usec, left, small, sum) = time_left_lem s now hs hn before in
              inr (
                grind (arith, (timeval_before_iff s now hs hn).1, before),
                sec,
                usec,
                else-case _ _ _ linked (
                    step _ _ holds
                      (else-case _ _ _ wait (rw (ap (λ u. time_left u now) node.stops ∙ left)))),
                small,
                sum,
              )
        ],
      )

  -- When `select` returns 0, the first timer is stopped and its callback is run.
  pub handle_timeout-first :
      (rounds p : ℕ) (s : Timeval) (rest : Queue) (t : Timers C)
      → Represents t ((p, s) ∷ rest)
      → suc (length rest) ≤ rounds
      → (timer : Timer C) × (t' : Timers C) × (t.cells p ≡ some timer)
        × (handle_timeout rounds t ≡ some (timer.callback, t'))
        × Represents t' rest
  unfolding handle_timeout
  handle_timeout-first rounds p s rest t (timer, node, chain) fuel =
      let (t', stopped, represents) = stop-head rounds p s rest t (timer, node, chain) fuel in
      (
        timer,
        t',
        node.holds,
        step _ _ (ap t.cells node.here ∙ node.holds) (
            step (stop_timer rounds t.timer_list t) (λ t'. some (timer.callback, t')) stopped refl),
        represents,
      )
