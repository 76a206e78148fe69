-- ===== src/Timers.antt =====
-- The timers of client/lib/cblib.c and cblib.h: `struct timer` on a heap, linked both ways, from
-- `timer_list` on. An address 0 is NULL; `none` is an access through a dangling pointer, or a loop
-- that has used up its rounds.
pub mod Due
pub mod Linking
pub mod Queue
pub mod Callbacks
pub mod Chain
pub mod Refine
pub mod Relinked
pub mod Started
pub mod Stopped
pub mod Times
pub mod Unlinked
use ws25_np.Prelude.{
  ℕ, zero, suc, ◌+◌, ◌-◌, ◌*◌, ◌/◌, ◌%◌, Bool, true, false, not, ◌&&◌, ◌||◌, Option, none, some,
  ltb, leb, ◌==◌, if◌then◌else◌,
}
use ws25_np.Prelude.Int.{ℤ, pos, sub_ℕ, ltb_ℤ, ◌-ℤ◌, ◌+ℤ◌}
use ws25_np.Prelude.Maybe.{◌>>=◌}

-- `struct timeval` of a time of day.
pub record Timeval : Type 0 where
  pub tv_sec : ℕ
  pub tv_usec : ℕ

abbrev pub no_time : Timeval
no_time = record { tv_sec = 0; tv_usec = 0 }

pub record Timer (C : Type 0) : Type 0 where
  pub prev : ℕ
  pub next : ℕ
  pub start_time : Timeval
  pub stop_time : Timeval
  pub callback : C

pub record Timers (C : Type 0) : Type 0 where
  pub timer_list : ℕ
  pub cells : ℕ → Option (Timer C)

unfoldable pub timeval_before : Timeval → Timeval → Bool
timeval_before tv1 tv2 =
    ltb tv1.tv_sec tv2.tv_sec || ((tv1.tv_sec == tv2.tv_sec) && ltb tv1.tv_usec tv2.tv_usec)

-- `now` and `timeout` milliseconds.
unfoldable pub stop_time_of : Timeval → ℕ → Timeval
stop_time_of now timeout =
    let sec = now.tv_sec + timeout / 1000 in
    let usec = now.tv_usec + 1000 * (timeout % 1000) in
    if leb 1000000 usec
    then record { tv_sec = sec + 1; tv_usec = usec - 1000000 }
    else record { tv_sec = sec; tv_usec = usec }

abbrev pub is_zero : Timeval → Bool
is_zero tv = (tv.tv_sec == 0) && (tv.tv_usec == 0)

-- What `handle_event` does with the head of the list at the time `now`: it runs the callback of a
-- timer that is due, or waits in `select` for a time, or without one.
pub data Plan (C : Type 0) : Type 0 where
  due : C → Plan C
  wait_for : (seconds microseconds : ℤ) → Plan C
  wait_forever : Plan C

-- The difference of two times, with a negative number of microseconds carried over.
unfoldable pub time_left : Timeval → Timeval → ℤ × ℤ
time_left stop now =
    let sec = sub_ℕ stop.tv_sec now.tv_sec in
    let usec = sub_ℕ stop.tv_usec now.tv_usec in
    if ltb_ℤ usec (pos 0) then (sec -ℤ pos 1, usec +ℤ pos 1000000) else (sec, usec)

module _ {C : Type 0} where
  -- The test of `start_timer` for a timer that runs already.
  unfoldable pub is_started : Timer C → Bool
  is_started timer =
      not (timer.next == 0)
      || not (timer.prev == 0)
      || not (is_zero timer.start_time)
      || not (is_zero timer.stop_time)

  -- `p->field = …`
  unfoldable pub change : ℕ → (Timer C → Timer C) → Timers C → Option (Timers C)
  change p f t = do
    timer ← t.cells p
    some (record t { cells = λ q. if p == q then some (f timer) else t.cells q })

  -- `fresh` is what `malloc` returns, and the timer that the function returns.
  unfoldable pub create_timer : (fresh : ℕ) → Option C → Timers C → ℕ × Timers C
  create_timer fresh none t = (0, t)
  create_timer fresh (some callback) t = if fresh == 0 then (0, t) else (
    fresh,
    record t {
      cells = λ q.
          if fresh == q
          then some (record {
            prev = 0;
            next = 0;
            start_time = no_time;
            stop_time = no_time;
            callback = callback;
          })
          else t.cells q;
    },
  )

  unfoldable pub delete_timer : ℕ → Timers C → Option (Timers C)
  delete_timer p t =
      if p == 0
      then some t
      else do timer ← t.cells p; some (record t { cells = λ q. if p == q then none else t.cells q })

  -- The loop of `start_timer`: the last timer that the new one has to stand behind.
  unfoldable pub insertion_point : (rounds : ℕ) → Timeval → ℕ → Timers C → Option ℕ
  insertion_point zero stop p t = none
  insertion_point (suc rounds) stop p t = do
    timer ← t.cells p
    let onward = insertion_point rounds stop timer.next t
    if timer.next == 0 then some p else do
      next ← t.cells timer.next
      if timeval_before stop next.stop_time then some p else onward

  unfoldable pub link_front : ℕ → ℕ → Timers C → Option (Timers C)
  unfolding change
  link_front p first t = do
    t ← change p (λ timer. record timer { next = first; prev = 0 }) t
    t ← change first (λ timer. record timer { prev = p }) t
    some (record t { timer_list = p })

  unfoldable pub link_behind : ℕ → ℕ → Timers C → Option (Timers C)
  unfolding change
  link_behind p before t = do
    timer ← t.cells before
    t ← if timer.next == 0 then some t else change timer.next (λ other. record other { prev = p }) t
    t ← change p (λ new. record new { next = timer.next }) t
    t ← change before (λ other. record other { next = p }) t
    change p (λ new. record new { prev = before }) t

  -- `now` is what `get_time` gives; as many rounds as the list has timers are wanted.
  unfoldable pub start_timer : (rounds : ℕ) → Timeval → ℕ → ℕ → Timers C → Option (Timers C)
  unfolding is_started insertion_point link_front link_behind
  start_timer rounds now p timeout t = if p == 0 then some t else do
    timer ← t.cells p
    if is_started timer then some t else do
      let stop = stop_time_of now timeout
      t ← change p (λ timer. record timer { start_time = now; stop_time = stop }) t
      if t.timer_list == 0 then some (record t { timer_list = p }) else do
        first ← t.cells t.timer_list
        if timeval_before stop first.stop_time
            then link_front p t.timer_list t
            else do before ← insertion_point rounds stop t.timer_list t; link_behind p before t

  -- The loop of `stop_timer`: whether the timer is in the list.
  unfoldable pub in_list : (rounds : ℕ) → ℕ → ℕ → Timers C → Option Bool
  in_list zero q p t = if q == 0 then some false else none
  in_list (suc rounds) q p t =
      let onward = λ (timer : Timer C). in_list rounds timer.next p t in
      if q == 0
      then some false
      else if q == p
      then some true
      else (do timer ← t.cells q; onward timer)

  unfoldable pub unlink : ℕ → Timers C → Option (Timers C)
  unfolding change
  unlink p t = do
    timer ← t.cells p
    t ←
        if timer.prev == 0
        then some t
        else change timer.prev (λ other. record other { next = timer.next }) t
    t ←
        if timer.next == 0
        then some t
        else change timer.next (λ other. record other { prev = timer.prev }) t
    some (if t.timer_list == p then record t { timer_list = timer.next } else t)

  unfoldable pub stop_timer : (rounds : ℕ) → ℕ → Timers C → Option (Timers C)
  unfolding in_list unlink change
  stop_timer rounds p t = do
    found ← in_list rounds t.timer_list p t
    t ← if found then unlink p t else some t
    if p == 0
        then some t
        else change p
            (λ timer. record timer {
              prev = 0;
              next = 0;
              start_time = no_time;
              stop_time = no_time;
            })
            t

  unfoldable pub handle_event : (rounds : ℕ) → Timeval → Timers C → Option (Plan C × Timers C)
  unfolding stop_timer time_left timeval_before
  handle_event rounds now t = if t.timer_list == 0 then some (wait_forever, t) else do
    timer ← t.cells t.timer_list
    if timeval_before timer.stop_time now
        then (do t' ← stop_timer rounds t.timer_list t; some (due timer.callback, t'))
        else (let (sec, usec) = time_left timer.stop_time now in some (wait_for sec usec, t))

  -- Behind `select` has returned 0: the head of the list as it was before is stopped and run.
  unfoldable pub handle_timeout : (rounds : ℕ) → Timers C → Option (C × Timers C)
  unfolding stop_timer
  handle_timeout rounds t = do
    timer ← t.cells t.timer_list
    t' ← stop_timer rounds t.timer_list t
    some (timer.callback, t')
