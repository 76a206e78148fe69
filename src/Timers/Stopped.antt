-- ===== src/Timers/Stopped.antt =====
-- `stop_timer` implements `remove`.
use ws25_np.Prelude.{
  ℕ, ◌≤◌, ◌≡◌, ◌≢◌, refl, ap, sym, ◌∙◌, inl, inr, true, false, Option, some, [], ◌∷◌, ◌==◌,
  if◌then◌else◌, arith, Bool-cases, ==_iff, length,
}
use ws25_np.Prelude.Maybe.{step}
use mathlib.Core.Path.{subst}
use ws25_np.Timers.{Timer, Timers, no_time, stop_timer}
use ws25_np.Timers.Queue.{Queue, running, remove, remove_absent}
use ws25_np.Timers.Chain.{
  Cells, IsAbsent, Chain, frame, Represents, write, write_self, write-other, change-write,
}
use ws25_np.Timers.Unlinked.{Unlinked, unlinking}
use ws25_np.Timers.Relinked.{in_list-running}

module _ {C : Type 0} (p : ℕ) (timer : Timer C) (t : Timers C) (hp : t.cells p ≡ some timer) where
  abbrev pub reset : Timer C
  reset = record timer { prev = 0; next = 0; start_time = no_time; stop_time = no_time }

  -- What a function makes of the queue: the timer `p` is as it was when it was made, and the cells of all
  -- timers that do not run are kept.
  pub record Stops (queue behind : Queue) (r : Option (Timers C)) : Type 0 where
    pub t' : Timers C
    pub returns : r ≡ some t'
    pub represents : Represents t' behind
    pub fresh : t'.cells p ≡ some reset
    pub others : (a : ℕ) → a ≢ p → running a queue ≡ false → t'.cells a ≡ t.cells a

  module _ (rounds : ℕ) (queue : Queue) (np : p ≢ 0) (chain : Represents t queue)
      (fuel : length queue ≤ rounds) where
    not_null : (p == 0) ≡ false
    not_null = ground (arith, ==_iff p 0)

    stop-absent : running p queue ≡ false → Stops queue (remove p queue) (stop_timer rounds p t)
    unfolding stop_timer
    stop-absent h = record {
      t' = record t { cells = write p reset t.cells };
      returns =
          step _ _ (in_list-running rounds 0 t.timer_list p t queue chain fuel)
            (rw h (rw not_null (change-write p _ t hp)));
      represents = rw (remove_absent p queue h) (
          frame queue 0 t.timer_list chain
            λ a run. write-other p a _ _ (λ e. ground (arith, ap (λ k. running k queue) e)));
      fresh = write_self p _ _;
      others = λ a ne far. write-other p a _ _ (λ e. ne (sym e));
    }

    stop-running :
        running p queue ≡ true
        → running p (remove p queue) ≡ false
        → Stops queue (remove p queue) (stop_timer rounds p t)
    unfolding stop_timer
    stop-running h gone =
        let u : Unlinked p timer t hp 0 (if t.timer_list == p then timer.next else t.timer_list)
            queue (remove p queue) =
          unlinking p timer t hp queue chain h in
        record {
          t' = record u.t' { cells = write p reset u.t'.cells };
          returns =
              step _ _ (in_list-running rounds 0 t.timer_list p t queue chain fuel)
                (rw h (step _ _ u.unlinks (rw not_null (change-write p _ u.t' u.kept))));
          represents =
              subst (λ q. Chain (write p reset u.t'.cells) 0 q (remove p queue)) (sym u.first)
                (frame (remove p queue) 0 _ u.chain λ a run.
                  write-other p a _ _
                    (λ e. ground (arith, ap (λ k. running k (remove p queue)) e)));
          fresh = write_self p _ _;
          others = λ a ne far. write-other p a _ _ (λ e. ne (sym e)) ∙ u.others a far;
        }

-- No timer stands in a chain twice.
pub gone :
    {C : Type 0} (cells : Cells C) (prev q p : ℕ) (queue : Queue)
    → Chain cells prev q queue
    → running p (remove p queue) ≡ false
gone cells prev q p [] h = refl
gone cells prev q p ((r, s) ∷ queue) (timer, node, rest) = elim (Bool-cases (r == p)) [
  | inl here ↦ rw here (subst (λ a. IsAbsent a queue) ((==_iff r p).0 here) node.out)
  | inr later ↦ rw later (rw later (gone cells r timer.next p queue rest))
]

-- `stop_timer` with any timer, whether it runs or not, in as many rounds as there are timers: no
-- access through a dangling pointer; the timers stand for the queue without this one, its own fields
-- are as when it was made, and the cells of other timers that do not run are kept.
pub stop_timer-remove :
    {C : Type 0} (rounds p : ℕ) (timer : Timer C) (t : Timers C) (queue : Queue)
    → p ≢ 0
    → (hp : t.cells p ≡ some timer) → Represents t queue
    → length queue ≤ rounds
    → Stops p timer t hp queue (remove p queue) (stop_timer rounds p t)
stop_timer-remove rounds p timer t queue np hp chain fuel = elim (Bool-cases (running p queue)) [
  | inl h ↦
      stop-running p timer t hp rounds queue np chain fuel h
        (gone t.cells 0 t.timer_list p queue chain)
  | inr h ↦ stop-absent p timer t hp rounds queue np chain fuel h
]
