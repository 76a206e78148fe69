-- ===== src/Timers/Chain.antt =====
-- The linked timers of cblib.c as a queue: what the pointers of a queue are.
use ws25_np.Prelude.{
  ℕ, ◌≡◌, ◌≢◌, ◌∙◌, true, false, Option, some, [], ◌∷◌, ◌==◌, if◌then◌else◌, arith, ==_iff,
}
use ws25_np.Timers.{Timeval, Timer, Timers, change}
use ws25_np.Timers.Queue.{Queue, running}

abbrev pub Cells : Type 0 → Type 0
Cells C = ℕ → Option (Timer C)

abbrev pub IsAbsent : ℕ → Queue → Type 0
IsAbsent p queue = running p queue ≡ false

module _ {C : Type 0} where
  -- The cell at `q` holds the timer `p` of a queue, with `prev` before it and the others behind it.
  pub record Node (cells : Cells C) (prev q : ℕ) (timer : Timer C) (p : ℕ) (stop : Timeval)
      (others : Queue) : Type 0 where
    pub here : q ≡ p
    pub not_null : p ≢ 0
    pub holds : cells p ≡ some timer
    pub back : timer.prev ≡ prev
    pub stops : timer.stop_time ≡ stop
    pub out : IsAbsent p others

  -- From the address `q` on lie the timers of the queue, linked both ways; `prev` lies before them.
  abbrev pub Chain : Cells C → (prev q : ℕ) → Queue → Type 0
  Chain cells prev q [] = q ≡ 0
  Chain cells prev q ((p, stop) ∷ queue) =
      (timer : Timer C) × Node cells prev q timer p stop queue × Chain cells p timer.next queue

  -- A chain does not depend on the cells of other addresses.
  pub frame :
      {cells cells' : Cells C} (queue : Queue) (prev q : ℕ)
      → Chain cells prev q queue
      → ((a : ℕ) → running a queue ≡ true → cells' a ≡ cells a)
      → Chain cells' prev q queue
  frame [] prev q h same = h
  frame ((p, stop) ∷ queue) prev q (timer, node, rest) same = (
    timer,
    record {
      here = node.here;
      not_null = node.not_null;
      holds = same p (ground (arith, ==_iff p p)) ∙ node.holds;
      back = node.back;
      stops = node.stops;
      out = node.out;
    },
    frame queue p timer.next rest λ a h. same a (ground arith),
  )

  -- The timers that run stand for a queue.
  abbrev pub Represents : Timers C → Queue → Type 0
  Represents t queue = Chain t.cells 0 t.timer_list queue

  -- A write through a pointer that points at a timer.
  pub write : ℕ → Timer C → Cells C → Cells C
  write p timer cells q = if p == q then some timer else cells q

  pub write_self : (p : ℕ) (timer : Timer C) (cells : Cells C) → write p timer cells p ≡ some timer
  unfolding write
  write_self p timer cells = ground (arith, ==_iff p p)

  pub write-other :
      (p q : ℕ) (timer : Timer C) (cells : Cells C) → p ≢ q → write p timer cells q ≡ cells q
  unfolding write
  write-other p q timer cells ne = ground (arith, ==_iff p q)

  pub change-write :
      (p : ℕ) (f : Timer C → Timer C) (t : Timers C) {timer : Timer C}
      → t.cells p ≡ some timer
      → change p f t ≡ some (record t { cells = write p (f timer) t.cells })
  unfolding change write
  change-write p f t e = rw e
