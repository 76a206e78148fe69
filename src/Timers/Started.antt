-- ===== src/Timers/Started.antt =====
-- `start_timer` puts a timer into the queue.
use ws25_np.Prelude.{
  ℕ, zero, suc, ◌<◌, ◌≡◌, ◌≢◌, refl, ap, sym, ◌∙◌, inl, inr, true, false, some, [], ◌∷◌, ◌==◌,
  arith, Bool-cases, ==_iff, length,
}
use ws25_np.Prelude.Maybe.{step}
use mathlib.Core.Path.{subst}
use ws25_np.Timers.{Timer, Timers, timeval_before, insertion_point, link_behind}
use ws25_np.Timers.Queue.{Queue, running, insert, running-insert}
use ws25_np.Timers.Chain.{Cells, IsAbsent, Node, Chain, frame, write, write_self, write-other}
use ws25_np.Timers.Linking.{
  linked, linked-new, linked-old, linked-other, link_behind-last, link_behind-inner,
}

module _ {C : Type 0} (p : ℕ) (new : Timer C) where
  -- What the loop of `start_timer` and the linking behind it make of the timers from `q` on.
  pub record Inserted (t : Timers C) (rounds prev q : ℕ) (queue behind : Queue) : Type 0 where
    pub before : ℕ
    pub t' : Timers C
    pub found : insertion_point rounds new.stop_time q t ≡ some before
    pub linked_in : link_behind p before t ≡ some t'
    pub first_kept : t'.timer_list ≡ t.timer_list
    pub chain : Chain t'.cells prev q behind
    pub others : (a : ℕ) → a ≢ p → running a queue ≡ false → t'.cells a ≡ t.cells a

  insertion-last :
      (t : Timers C) (rounds prev q : ℕ) (old : Timer C)
      → p ≢ 0
      → t.cells p ≡ some new
      → p ≢ q
      → Node t.cells prev q old q old.stop_time []
      → old.next ≡ 0
      → Inserted t
          (suc rounds)
          prev
          q
          ((q, old.stop_time) ∷ [])
          ((q, old.stop_time) ∷ (p, new.stop_time) ∷ [])
  unfolding insertion_point
  insertion-last t rounds prev q old np hp apart node last = record {
    before = q;
    t' = record t { cells = linked p q new old apart t.cells };
    found = step _ _ node.holds (rw ((==_iff old.next 0).1 last));
    linked_in = link_behind-last p q new old apart t hp node.holds last;
    first_kept = refl;
    chain = (
      record old { next = p },
      record {
        here = refl;
        not_null = node.not_null;
        holds = linked-old p q new old apart t.cells;
        back = node.back;
        stops = refl;
        out = ground (arith, ==_iff p q);
      },
      (
        record new { next = old.next; prev = q },
        record {
          here = refl;
          not_null = np;
          holds = linked-new p q new old apart t.cells;
          back = refl;
          stops = refl;
          out = refl;
        },
        last,
      ),
    );
    others = λ a ne out.
        linked-other p q new old apart t.cells a (λ e. ne (sym e)) (ground (arith, ==_iff q a));
  }

  module _ (t : Timers C) (rounds prev q r : ℕ) (old other : Timer C) (queue : Queue) (np : p ≢ 0)
      (hp : t.cells p ≡ some new) (apart : p ≢ q) (apart' : p ≢ r) (out : IsAbsent p queue)
      (node : Node t.cells prev q old q old.stop_time ((r, other.stop_time) ∷ queue))
      (node' : Node t.cells q old.next other r other.stop_time queue)
      (rest : Chain t.cells r other.next queue) where
    abbrev behind : Cells C
    behind = linked p q new old apart (write old.next (record other { prev = p }) t.cells)

    kept : (a : ℕ) → p ≢ a → q ≢ a → r ≢ a → behind a ≡ t.cells a
    kept a na qa ra =
        linked-other p q new old apart _ a na qa
        ∙ write-other old.next a _ _ (λ e. ra (sym node'.here ∙ e))

    q≢r : q ≢ r
    q≢r e = ground (arith, node.out, ==_iff r q)

    not_last : (old.next == 0) ≡ false
    not_last = let ne = node'.not_null in ground (arith, node'.here, ==_iff old.next 0)

    next_holds : t.cells old.next ≡ some other
    next_holds = ap t.cells node'.here ∙ node'.holds

    -- The new timer stops before the next one.
    insertion-here :
        timeval_before new.stop_time other.stop_time ≡ true
        → Inserted t
            (suc rounds)
            prev
            q
            ((q, old.stop_time) ∷ (r, other.stop_time) ∷ queue)
            ((q, old.stop_time) ∷ (p, new.stop_time) ∷ (r, other.stop_time) ∷ queue)
    unfolding insertion_point
    insertion-here sooner = record {
      before = q;
      t' = record t { cells = behind };
      found = step _ _ node.holds (rw not_last (step _ _ next_holds (rw sooner)));
      linked_in =
          link_behind-inner p q new old apart t other hp node.holds
            (λ e. node'.not_null (sym node'.here ∙ e)) (λ e. apart' (e ∙ node'.here))
            (λ e. q≢r (e ∙ node'.here)) next_holds;
      first_kept = refl;
      chain = (
        record old { next = p },
        record {
          here = refl;
          not_null = node.not_null;
          holds = linked-old p q new old apart _;
          back = node.back;
          stops = refl;
          out = ground (arith, ==_iff p q, node.out);
        },
        (
          record new { next = old.next; prev = q },
          record {
            here = refl;
            not_null = np;
            holds = linked-new p q new old apart _;
            back = refl;
            stops = refl;
            out = ground (arith, ==_iff r p);
          },
          (
            record other { prev = p },
            record {
              here = node'.here;
              not_null = node'.not_null;
              holds =
                  linked-other p q new old apart _ r apart' q≢r
                  ∙ ap (λ n. write n (record other { prev = p }) t.cells r) node'.here
                  ∙ write_self r _ _;
              back = refl;
              stops = refl;
              out = node'.out;
            },
            frame queue r other.next rest λ a h.
                kept a (λ e. ground (arith, ap (λ k. running k queue) e))
                  (λ e. ground (arith, node.out, ap (λ k. running k queue) e))
                  (λ e. ground (arith, node'.out, ap (λ k. running k queue) e)),
          ),
        ),
      );
      others = λ a ne far.
          kept a (λ e. ne (sym e)) (ground (arith, ==_iff q a)) (ground (arith, ==_iff r a));
    }

    -- The new timer does not stop before the next one, and goes somewhere behind it.
    insertion-later :
        timeval_before new.stop_time other.stop_time ≡ false
        → Inserted t rounds q r
            ((r, other.stop_time) ∷ queue)
            ((r, other.stop_time) ∷ insert p new.stop_time queue)
        → Inserted t
            (suc rounds)
            prev
            q
            ((q, old.stop_time) ∷ (r, other.stop_time) ∷ queue)
            ((q, old.stop_time) ∷ (r, other.stop_time) ∷ insert p new.stop_time queue)
    unfolding insertion_point
    insertion-later later ih = record {
      before = ih.before;
      t' = ih.t';
      found = step _ _ node.holds (
          rw not_last (
            step _ _ next_holds (
              rw later
                (ap (λ a. insertion_point rounds new.stop_time a t) node'.here ∙ ih.found))));
      linked_in = ih.linked_in;
      first_kept = ih.first_kept;
      chain = (
        old,
        record {
          here = refl;
          not_null = node.not_null;
          holds = ih.others q (λ e. apart (sym e)) node.out ∙ node.holds;
          back = node.back;
          stops = refl;
          out = ground (arith, running-insert q p new.stop_time queue, ==_iff p q, node.out);
        },
        subst (λ a. Chain ih.t'.cells q a ((r, other.stop_time) ∷ insert p new.stop_time queue))
            (sym node'.here) ih.chain,
      );
      others = λ a ne far. ih.others a ne (ground arith);
    }

  pub insertion :
      (t : Timers C) (rounds prev q : ℕ) (old : Timer C) (queue : Queue)
      → p ≢ 0
      → t.cells p ≡ some new
      → p ≢ q
      → IsAbsent p queue
      → Node t.cells prev q old q old.stop_time queue
      → Chain t.cells q old.next queue
      → length queue < rounds
      → Inserted t rounds prev q
          ((q, old.stop_time) ∷ queue)
          ((q, old.stop_time) ∷ insert p new.stop_time queue)
  insertion t zero prev q old queue np hp apart out node rest fuel = absurd (omega arith)
  insertion t (suc rounds) prev q old [] np hp apart out node last fuel =
      insertion-last t rounds prev q old np hp apart node last
  insertion t (suc rounds) prev q old ((r, s) ∷ queue) np hp apart out node (other, node', rest)
        fuel =
      subst
        (λ s.
          Inserted t (suc rounds) prev q ((q, old.stop_time) ∷ (r, s) ∷ queue)
            ((q, old.stop_time) ∷ insert p new.stop_time ((r, s) ∷ queue)))
        node'.stops
        (elim (Bool-cases (timeval_before new.stop_time other.stop_time)) [
          | inl sooner ↦ rw sooner (
              insertion-here t rounds prev q r old other queue np hp apart apart' (ground arith)
                node₁ node₂ rest sooner)
          | inr later ↦ rw later (
              insertion-later t rounds prev q r old other queue np hp apart apart' (ground arith)
                node₁ node₂ rest later
                (insertion t rounds q r other queue np hp apart' (ground arith) node₃ rest
                  (omega arith)))
        ])
    where
      apart' : p ≢ r
      apart' e = ground (arith, ==_iff r p)

      node₁ : Node t.cells prev q old q old.stop_time ((r, other.stop_time) ∷ queue)
      node₁ = record {
        here = refl;
        not_null = node.not_null;
        holds = node.holds;
        back = node.back;
        stops = refl;
        out = node.out;
      }

      node₂ : Node t.cells q old.next other r other.stop_time queue
      node₂ = record {
        here = node'.here;
        not_null = node'.not_null;
        holds = node'.holds;
        back = node'.back;
        stops = refl;
        out = node'.out;
      }

      node₃ : Node t.cells q r other r other.stop_time queue
      node₃ = record {
        here = refl;
        not_null = node'.not_null;
        holds = node'.holds;
        back = node'.back;
        stops = refl;
        out = node'.out;
      }
