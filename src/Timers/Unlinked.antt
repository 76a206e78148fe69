-- ===== src/Timers/Unlinked.antt =====
-- The unlinking in `stop_timer`: the neighbours of a timer are linked past it.
use ws25_np.Prelude.{
  ℕ, ◌≡◌, ◌≢◌, refl, ap, sym, ◌∙◌, inl, inr, true, false, some, [], ◌∷◌, ◌==◌, if◌then◌else◌, arith,
  Bool-cases, ==_iff, some_inj,
}
use ws25_np.Prelude.Maybe.{step}
use mathlib.Core.Path.{subst}
use ws25_np.Timers.{Timeval, Timer, Timers, change, unlink}
use ws25_np.Timers.Queue.{Queue, running, remove, remove-running}
use ws25_np.Timers.Chain.{
  IsAbsent, Node, Chain, frame, Represents, write, write_self, write-other, change-write,
}
use ws25_np.Timers.Relinked.{Relinked, relink}

module _ {C : Type 0} (p : ℕ) (timer : Timer C) (t : Timers C) (hp : t.cells p ≡ some timer) where
  -- What the unlinking makes of the timers from `q` on, of which `p` is one.
  pub record Unlinked (prev q' : ℕ) (queue behind : Queue) : Type 0 where
    pub t' : Timers C
    pub unlinks : unlink p t ≡ some t'
    pub first : t'.timer_list ≡ (if t.timer_list == p then timer.next else t.timer_list)
    pub chain : Chain t'.cells prev q' behind
    pub others : (a : ℕ) → running a queue ≡ false → t'.cells a ≡ t.cells a
    pub kept : t'.cells p ≡ some timer

  -- The first of all timers.
  unlink-first :
      (s : Timeval) (rest : Queue)
      → t.timer_list ≡ p
      → Node t.cells 0 p timer p s rest
      → Chain t.cells p timer.next rest
      → Unlinked 0 timer.next ((p, s) ∷ rest) rest
  unfolding unlink
  unlink-first s rest first node chain =
      let back : (timer.prev == 0) ≡ true = (==_iff timer.prev 0).1 node.back in
      let here : (t.timer_list == p) ≡ true = (==_iff t.timer_list p).1 first in
      let r : Relinked p timer t rest = relink p timer t rest chain in
      let here' : (r.t'.timer_list == p) ≡ true = ap (λ l. l == p) r.first_kept ∙ here in
      record {
        t' = record r.t' { timer_list = timer.next };
        unlinks = step _ _ hp (rw back (step _ _ r.relinks (rw here')));
        first = rw here;
        chain = subst (λ a. Chain r.t'.cells a timer.next rest) node.back r.chain;
        others = λ a far. r.others a (ground arith);
        kept = r.others p node.out ∙ hp;
      }

  -- The timer behind `q`.
  unlink-next :
      (prev q : ℕ) (old : Timer C) (s : Timeval) (rest : Queue)
      → t.timer_list ≢ p
      → Node t.cells prev q old q old.stop_time ((p, s) ∷ rest)
      → Node t.cells q old.next timer p s rest
      → Chain t.cells p timer.next rest
      → Unlinked prev q ((q, old.stop_time) ∷ (p, s) ∷ rest) ((q, old.stop_time) ∷ rest)
  unfolding unlink
  unlink-next prev q old s rest inner node node' chain = record {
    t' = r.t';
    unlinks = step _ _ hp (rw linked (step _ _ rewritten (step _ _ r.relinks (rw other_first'))));
    first = r.first_kept ∙ rw other_first;
    chain = (
      record old { next = timer.next },
      record {
        here = refl;
        not_null = node.not_null;
        holds = r.others q (ground (arith, node.out)) ∙ before_holds;
        back = node.back;
        stops = refl;
        out = ground (arith, node.out);
      },
      subst (λ a. Chain r.t'.cells a timer.next rest) node'.back r.chain,
    );
    others = λ a far.
        r.others a (ground arith)
        ∙ write-other timer.prev a _ _ (λ e. ground (arith, ==_iff q a, sym node'.back ∙ e));
    kept = r.others p node'.out ∙ write-other timer.prev p _ _ (λ e. q≢p (sym node'.back ∙ e)) ∙ hp;
  }
    where
      q≢p : q ≢ p
      q≢p e = ground (arith, node.out, ==_iff p q)

      linked : (timer.prev == 0) ≡ false
      linked = let ne = node.not_null in ground (arith, node'.back, ==_iff timer.prev 0)

      other_first : (t.timer_list == p) ≡ false
      other_first = ground (arith, ==_iff t.timer_list p)

      t₁ : Timers C
      t₁ = record t { cells = write timer.prev (record old { next = timer.next }) t.cells }

      rewritten :
          change timer.prev (λ (other : Timer C). record other { next = timer.next }) t ≡ some t₁
      rewritten = change-write timer.prev _ t (ap t.cells node'.back ∙ node.holds)

      before_holds : t₁.cells q ≡ some (record old { next = timer.next })
      before_holds =
          ap (λ n. write n (record old { next = timer.next }) t.cells q) node'.back
          ∙ write_self q _ _

      r : Relinked p timer t₁ rest
      r = relink p timer t₁ rest (
          frame rest p timer.next chain λ a h.
            write-other timer.prev a _ _
              (λ e. ground (arith, node.out, ap (λ k. running k rest) (sym node'.back ∙ e))))

      other_first' : (r.t'.timer_list == p) ≡ false
      other_first' = ap (λ l. l == p) r.first_kept ∙ other_first

  -- A timer behind the first.
  unlink-inner :
      (prev q : ℕ) (old : Timer C) (queue : Queue)
      → t.timer_list ≢ p
      → Node t.cells prev q old q old.stop_time queue
      → Chain t.cells q old.next queue
      → running p queue ≡ true
      → Unlinked prev q ((q, old.stop_time) ∷ queue) ((q, old.stop_time) ∷ remove p queue)
  unlink-inner prev q old [] inner node last h = cc
  unlink-inner prev q old ((r, s) ∷ queue) inner node (other, node', rest) h =
      elim (Bool-cases (r == p)) [
        | inl here ↦
            let e : p ≡ r = sym ((==_iff r p).0 here) in
            let same : other ≡ timer =
              some_inj other timer (sym node'.holds ∙ ap t.cells (sym e) ∙ hp) in
            rw here (
              subst
                (λ r.
                  Unlinked prev q ((q, old.stop_time) ∷ (r, s) ∷ queue)
                    ((q, old.stop_time) ∷ queue))
                e
                (unlink-next prev q old s queue inner
                  (record {
                    here = refl;
                    not_null = node.not_null;
                    holds = node.holds;
                    back = node.back;
                    stops = refl;
                    out = subst (λ r. IsAbsent q ((r, s) ∷ queue)) (sym e) node.out;
                  })
                  (record {
                    here = node'.here ∙ sym e;
                    not_null = λ n. node'.not_null (sym e ∙ n);
                    holds = hp;
                    back = ap (λ u. u.prev) (sym same) ∙ node'.back;
                    stops = ap (λ u. u.stop_time) (sym same) ∙ node'.stops;
                    out = subst (λ r. IsAbsent r queue) (sym e) node'.out;
                  })
                  (subst (λ r. Chain t.cells r timer.next queue) (sym e)
                    (subst (λ (u : Timer C). Chain t.cells r u.next queue) same rest))))
        | inr later ↦
            let node₁ : Node t.cells q r other r other.stop_time queue = record {
              here = refl;
              not_null = node'.not_null;
              holds = node'.holds;
              back = node'.back;
              stops = refl;
              out = node'.out;
            } in
            let ih : Unlinked q r ((r, other.stop_time) ∷ queue)
                ((r, other.stop_time) ∷ remove p queue) =
              unlink-inner q r other queue inner node₁ rest (ground arith) in
            rw later (record {
              t' = ih.t';
              unlinks = ih.unlinks;
              first = ih.first;
              chain = (
                old,
                record {
                  here = refl;
                  not_null = node.not_null;
                  holds = ih.others q node.out ∙ node.holds;
                  back = node.back;
                  stops = refl;
                  out = let absent = node.out in ground (arith, remove-running q p queue);
                },
                subst (λ s. Chain ih.t'.cells q old.next ((r, s) ∷ remove p queue)) node'.stops
                    (subst (λ a. Chain ih.t'.cells q a ((r, other.stop_time) ∷ remove p queue))
                      (sym node'.here) ih.chain),
              );
              others = λ a far. ih.others a (ground arith);
              kept = ih.kept;
            })
      ]

  pub unlinking :
      (queue : Queue)
      → Represents t queue
      → running p queue ≡ true
      → Unlinked 0 (if t.timer_list == p then timer.next else t.timer_list) queue (remove p queue)
  unlinking [] chain h = cc
  unlinking ((r, s) ∷ queue) (first, node, rest) h = elim (Bool-cases (r == p)) [
    | inl here ↦
        let e : p ≡ r = sym ((==_iff r p).0 here) in
        let same : first ≡ timer =
          some_inj first timer (sym node.holds ∙ ap t.cells (sym e) ∙ hp) in
        let head : (t.timer_list == p) ≡ true = (==_iff t.timer_list p).1 (node.here ∙ sym e) in
        rw (here, head)
          (subst (λ r. Unlinked 0 timer.next ((r, s) ∷ queue) queue) e
            (unlink-first s queue (node.here ∙ sym e)
              (record {
                here = refl;
                not_null = λ n. node.not_null (sym e ∙ n);
                holds = hp;
                back = ap (λ u. u.prev) (sym same) ∙ node.back;
                stops = ap (λ u. u.stop_time) (sym same) ∙ node.stops;
                out = subst (λ r. IsAbsent r queue) (sym e) node.out;
              })
              (subst (λ r. Chain t.cells r timer.next queue) (sym e)
                (subst (λ (u : Timer C). Chain t.cells r u.next queue) same rest))))
    | inr later ↦
        let apart : t.timer_list ≢ p = λ e. ground (arith, ==_iff r p, sym node.here ∙ e) in
        let head : (t.timer_list == p) ≡ false = ground (arith, ==_iff t.timer_list p) in
        rw (later, head)
          (subst (λ q. Unlinked 0 q ((r, s) ∷ queue) ((r, s) ∷ remove p queue)) (sym node.here)
            (subst (λ s. Unlinked 0 r ((r, s) ∷ queue) ((r, s) ∷ remove p queue)) node.stops
              (unlink-inner 0 r first queue apart
                (record {
                  here = refl;
                  not_null = node.not_null;
                  holds = node.holds;
                  back = node.back;
                  stops = refl;
                  out = node.out;
                })
                rest (ground arith))))
  ]
