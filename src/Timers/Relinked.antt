-- ===== src/Timers/Relinked.antt =====
-- The loop of `stop_timer`, and the second write of its unlinking.
use ws25_np.Prelude.{
  ℕ, zero, suc, ◌≤◌, ◌≡◌, refl, ap, sym, ◌∙◌, inl, inr, false, some, [], ◌∷◌, ◌==◌, if◌then◌else◌,
  arith, Bool-cases, ==_iff, length,
}
use ws25_np.Prelude.Maybe.{step}
use ws25_np.Timers.{Timer, Timers, change, in_list}
use ws25_np.Timers.Queue.{Queue, running}
use ws25_np.Timers.Chain.{Chain, frame, write, write_self, write-other, change-write}

-- The loop of `stop_timer` finds out whether the timer runs.
pub in_list-running :
    {C : Type 0} (rounds prev q p : ℕ) (t : Timers C) (queue : Queue)
    → Chain t.cells prev q queue
    → length queue ≤ rounds
    → in_list rounds q p t ≡ some (running p queue)
unfolding in_list
in_list-running zero prev q p t [] h fuel = rw ((==_iff q 0).1 h)
in_list-running (suc rounds) prev q p t [] h fuel = rw ((==_iff q 0).1 h)
in_list-running zero prev q p t ((r, s) ∷ queue) h fuel = absurd (omega arith)
in_list-running {C} (suc rounds) prev q p t ((r, s) ∷ queue) (timer, node, rest) fuel =
    rw node.here (
      rw linked (elim (Bool-cases (r == p)) [
        | inl here ↦ rw here
        | inr later ↦ rw later (
            step _ (λ (timer : Timer C). in_list rounds timer.next p t) node.holds
              (in_list-running rounds r timer.next p t queue rest (omega arith)))
      ]))
  where
    linked : (r == 0) ≡ false
    linked = let ne = node.not_null in ground (arith, ==_iff r 0)

module _ {C : Type 0} (p : ℕ) (timer : Timer C) where
  -- The second write of the unlinking: the timer behind `p` points back past it.
  pub record Relinked (t : Timers C) (rest : Queue) : Type 0 where
    pub t' : Timers C
    pub relinks :
        (if timer.next == 0
          then some t
          else change timer.next (λ other. record other { prev = timer.prev }) t)
        ≡ some t'
    pub first_kept : t'.timer_list ≡ t.timer_list
    pub chain : Chain t'.cells timer.prev timer.next rest
    pub others : (a : ℕ) → running a rest ≡ false → t'.cells a ≡ t.cells a

  pub relink : (t : Timers C) (rest : Queue) → Chain t.cells p timer.next rest → Relinked t rest
  relink t [] last = record {
    t' = t;
    relinks = rw ((==_iff timer.next 0).1 last);
    first_kept = refl;
    chain = last;
    others = λ a h. refl;
  }
  relink t ((r, s) ∷ rest) (other, node, chain) = record {
    t' = record t { cells = write timer.next (record other { prev = timer.prev }) t.cells };
    relinks = rw linked (change-write timer.next _ t (ap t.cells node.here ∙ node.holds));
    first_kept = refl;
    chain = (
      record other { prev = timer.prev },
      record {
        here = node.here;
        not_null = node.not_null;
        holds =
            ap (λ n. write n (record other { prev = timer.prev }) t.cells r) node.here
            ∙ write_self r _ _;
        back = refl;
        stops = node.stops;
        out = node.out;
      },
      frame rest r other.next chain λ a h.
          write-other timer.next a _ _
            (λ e. ground (arith, node.out, ap (λ k. running k rest) (sym node.here ∙ e))),
    );
    others =
        λ a far. write-other timer.next a _ _ (λ e. ground (arith, ==_iff r a, sym node.here ∙ e));
  }
    where
      linked : (timer.next == 0) ≡ false
      linked = let ne = node.not_null in ground (arith, node.here, ==_iff timer.next 0)
