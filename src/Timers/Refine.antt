-- ===== src/Timers/Refine.antt =====
-- `start_timer` implements `insert`.
use ws25_np.Prelude.{
  ℕ, ◌≤◌, ◌<◌, ◌≡◌, ◌≢◌, refl, ap, sym, ◌∙◌, inl, inr, false, Option, some, [], ◌∷◌, ◌==◌,
  if◌then◌else◌, arith, Bool-cases, ==_iff, length,
}
use ws25_np.Prelude.Maybe.{◌>>=◌, step}
use mathlib.Core.Path.{subst}
use ws25_np.Timers.{
  Timeval, Timer, Timers, timeval_before, insertion_point, link_front, link_behind, start_timer,
  stop_time_of, is_started,
}
use ws25_np.Timers.Queue.{Queue, running, insert}
use ws25_np.Timers.Chain.{
  IsAbsent, Node, Chain, frame, Represents, write, write_self, write-other, change-write,
}
use ws25_np.Timers.Started.{Inserted, insertion}

module _ {C : Type 0} (p : ℕ) where
  -- What a function makes of the queue, and that it keeps the cells of all other timers.
  pub record Starts (t : Timers C) (queue behind : Queue) (r : Option (Timers C)) : Type 0 where
    pub t' : Timers C
    pub returns : r ≡ some t'
    pub represents : Represents t' behind
    pub others : (a : ℕ) → a ≢ p → running a queue ≡ false → t'.cells a ≡ t.cells a

  unlinked : (timer : Timer C) → is_started timer ≡ false → (timer.next ≡ 0) × (timer.prev ≡ 0)
  unfolding is_started
  unlinked timer h = ground (arith, ==_iff timer.next 0, ==_iff timer.prev 0)

  module _ (t : Timers C) (new : Timer C) (np : p ≢ 0) (hp : t.cells p ≡ some new) where
    link_front-Starts :
        (q : ℕ) (first : Timer C) (queue : Queue)
        → p ≢ q
        → IsAbsent p queue
        → Node t.cells 0 q first q first.stop_time queue
        → Chain t.cells q first.next queue
        → Starts t
            ((q, first.stop_time) ∷ queue)
            ((p, new.stop_time) ∷ (q, first.stop_time) ∷ queue)
            (link_front p q t)
    unfolding link_front
    link_front-Starts q first queue apart out node rest =
        let cells =
          write q (record first { prev = p })
            (write p (record new { next = q; prev = 0 }) t.cells) in
        record {
          t' = record { timer_list = p; cells = cells };
          returns = step _ _ (change-write p _ t hp) (
              step _ (λ (u : Timers C). some (record u { timer_list = p }))
                (change-write q (λ timer. record timer { prev = p })
                  (record t { cells = write p (record new { next = q; prev = 0 }) t.cells })
                  (write-other p q _ _ apart ∙ node.holds))
                refl);
          represents = (
            record new { next = q; prev = 0 },
            record {
              here = refl;
              not_null = np;
              holds = write-other q p _ _ (λ e. apart (sym e)) ∙ write_self p _ _;
              back = refl;
              stops = refl;
              out = ground (arith, ==_iff q p);
            },
            (
              record first { prev = p },
              record {
                here = refl;
                not_null = node.not_null;
                holds = write_self q _ _;
                back = refl;
                stops = refl;
                out = node.out;
              },
              frame queue q first.next rest λ a h.
                  write-other q a _ _ (λ e. ground (arith, node.out, ap (λ k. running k queue) e))
                  ∙ write-other p a _ _ (λ e. ground (arith, ap (λ k. running k queue) e)),
            ),
          );
          others = λ a ne far.
              write-other q a _ _ (ground (arith, ==_iff q a))
              ∙ write-other p a _ _ (λ e. ne (sym e));
        }

    -- The new timer into a queue with a first one.
    link-Starts :
        (rounds q : ℕ) (first : Timer C) (queue : Queue)
        → t.timer_list ≡ q
        → p ≢ q
        → IsAbsent p queue
        → Node t.cells 0 q first q first.stop_time queue
        → Chain t.cells q first.next queue
        → length queue < rounds
        → Starts t
            ((q, first.stop_time) ∷ queue)
            (insert p new.stop_time ((q, first.stop_time) ∷ queue))
            (if timeval_before new.stop_time first.stop_time
              then link_front p q t
              else (do before ← insertion_point rounds new.stop_time q t; link_behind p before t))
    link-Starts rounds q first queue head apart out node rest fuel =
        elim (Bool-cases (timeval_before new.stop_time first.stop_time)) [
          | inl sooner ↦ rw sooner (link_front-Starts q first queue apart out node rest)
          | inr later ↦
              let i : Inserted p new t rounds 0 q ((q, first.stop_time) ∷ queue)
                  ((q, first.stop_time) ∷ insert p new.stop_time queue) =
                insertion p new t rounds 0 q first queue np hp apart out node rest fuel in
              rw later (record {
                t' = i.t';
                returns = step _ _ i.found i.linked_in;
                represents =
                    subst
                      (λ a.
                        Chain i.t'.cells 0 a ((q, first.stop_time) ∷ insert p new.stop_time queue))
                      (sym (i.first_kept ∙ head)) i.chain;
                others = i.others;
              })
        ]

  -- The queue as it stands behind the times have been set.
  module _ (rounds : ℕ) (now : Timeval) (timeout : ℕ) (t : Timers C) (timer : Timer C) (np : p ≢ 0)
      (hp : t.cells p ≡ some timer) (idle : is_started timer ≡ false) where
    abbrev new : Timer C
    new = record timer { start_time = now; stop_time = stop_time_of now timeout }

    abbrev timed : Timers C
    timed = record t { cells = write p new t.cells }

    not_null : (p == 0) ≡ false
    not_null = ground (arith, ==_iff p 0)

    start-empty :
        Represents t [] → Starts t [] ((p, new.stop_time) ∷ []) (start_timer rounds now p timeout t)
    unfolding start_timer
    start-empty none_first = record {
      t' = record timed { timer_list = p };
      returns = rw not_null (
          step _ _ hp (
            rw idle
              (step _ _ (change-write p _ t hp) (rw ((==_iff t.timer_list 0).1 none_first)))));
      represents = (
        new,
        record {
          here = refl;
          not_null = np;
          holds = write_self p _ _;
          back = (unlinked timer idle).1;
          stops = refl;
          out = refl;
        },
        (unlinked timer idle).0,
      );
      others = λ a ne far. write-other p a _ _ (λ e. ne (sym e));
    }

    start-behind :
        (q : ℕ) (first : Timer C) (queue : Queue)
        → IsAbsent p ((q, first.stop_time) ∷ queue)
        → Node t.cells 0 t.timer_list first q first.stop_time queue
        → Chain t.cells q first.next queue
        → length queue < rounds
        → Starts t
            ((q, first.stop_time) ∷ queue)
            (insert p new.stop_time ((q, first.stop_time) ∷ queue))
            (start_timer rounds now p timeout t)
    unfolding start_timer
    start-behind q first queue out node rest fuel = record {
      t' = s.t';
      returns = rw not_null (
          step _ _ hp (
            rw idle (
              step _ _ (change-write p _ t hp)
                (rw (linked_first) (step _ _ first_holds s.returns)))));
      represents = s.represents;
      others = λ a ne far. s.others a ne far ∙ write-other p a _ _ (λ e. ne (sym e));
    }
      where
        apart : p ≢ q
        apart e = ground (arith, ==_iff q p)

        linked_first : (t.timer_list == 0) ≡ false
        linked_first = let ne = node.not_null in ground (arith, node.here, ==_iff t.timer_list 0)

        first_holds : timed.cells t.timer_list ≡ some first
        first_holds = ap timed.cells node.here ∙ write-other p q _ _ apart ∙ node.holds

        s :
            Starts timed
              ((q, first.stop_time) ∷ queue)
              (insert p new.stop_time ((q, first.stop_time) ∷ queue))
              (if timeval_before new.stop_time first.stop_time
                then link_front p t.timer_list timed
                else (do
                  before ← insertion_point rounds new.stop_time t.timer_list timed
                  link_behind p before timed))
        s =
            subst
              (λ a.
                Starts timed ((q, first.stop_time) ∷ queue)
                  (insert p new.stop_time ((q, first.stop_time) ∷ queue))
                  (if timeval_before new.stop_time first.stop_time
                    then link_front p a timed
                    else (do
                      before ← insertion_point rounds new.stop_time a timed
                      link_behind p before timed)))
              (sym node.here)
              (link-Starts timed new np (write_self p _ _) rounds q first queue node.here apart
                (ground arith)
                (record {
                  here = refl;
                  not_null = node.not_null;
                  holds = write-other p q _ _ apart ∙ node.holds;
                  back = node.back;
                  stops = refl;
                  out = node.out;
                })
                (frame queue q first.next rest
                  λ a h. write-other p a _ _ (λ e. ground (arith, ap (λ k. running k queue) e)))
                fuel)

  -- `start_timer` with a timer that is not started, in as many rounds as there are timers: no access
  -- through a dangling pointer, and the timers stand for the queue with the new one at its place.
  pub start_timer-insert :
      (rounds : ℕ) (now : Timeval) (timeout : ℕ) (t : Timers C) (timer : Timer C) (queue : Queue)
      → p ≢ 0
      → t.cells p ≡ some timer
      → is_started timer ≡ false
      → IsAbsent p queue
      → Represents t queue
      → length queue ≤ rounds
      → Starts t queue
          (insert p (stop_time_of now timeout) queue)
          (start_timer rounds now p timeout t)
  start_timer-insert rounds now timeout t timer [] np hp idle out chain fuel =
      start-empty rounds now timeout t timer np hp idle chain
  start_timer-insert rounds now timeout t timer ((q, s) ∷ queue) np hp idle out (first, node, rest)
        fuel =
      subst
        (λ s.
          Starts t ((q, s) ∷ queue) (insert p (stop_time_of now timeout) ((q, s) ∷ queue))
            (start_timer rounds now p timeout t))
        node.stops
        (start-behind rounds now timeout t timer np hp idle q first queue out
          (record {
            here = node.here;
            not_null = node.not_null;
            holds = node.holds;
            back = node.back;
            stops = refl;
            out = node.out;
          })
          rest (omega arith))
