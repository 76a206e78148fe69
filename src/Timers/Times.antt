-- ===== src/Timers/Times.antt =====
-- The arithmetic of times in `start_timer`, `timeval_before` and `handle_event`.
use native.Mathlib.Decide.{dec_lt}
use ws25_np.Prelude.{ℕ, ◌+◌, ◌-◌, ◌*◌, ◌<◌, ◌≡◌, true, false, arith, ◌↔◌}
use ws25_np.Prelude.Int.{pos, ◌+ℤ◌, ◌-ℤ◌}
use ws25_np.Timers.{Timeval, timeval_before, stop_time_of, time_left}

-- A time in microseconds.
abbrev pub micros : Timeval → ℕ
micros tv = 1000000 * tv.tv_sec + tv.tv_usec

-- As `gettimeofday` gives it.
abbrev pub IsNormal : Timeval → Type 0
IsNormal tv = tv.tv_usec < 1000000

-- The stop time of a timer is `timeout` milliseconds after its start, and normal like it.
pub stop_time_of_lem :
    (now : Timeval) (timeout : ℕ)
    → IsNormal now
    → (micros (stop_time_of now timeout) ≡ micros now + 1000 * timeout)
      × IsNormal (stop_time_of now timeout)
unfolding stop_time_of
stop_time_of_lem now timeout h = ground arith

-- On normal times `timeval_before` compares the microseconds.
pub timeval_before_iff :
    (a b : Timeval) → IsNormal a → IsNormal b → (timeval_before a b ≡ true) ↔ (micros a < micros b)
unfolding timeval_before
timeval_before_iff a b ha hb = (λ h. ground arith, λ h. ground arith)

-- What is left of the time of a timer that is not yet due: seconds and microseconds that `select`
-- accepts, and that make up the difference.
pub time_left_lem :
    (stop now : Timeval)
    → IsNormal stop
    → IsNormal now
    → timeval_before stop now ≡ false
    → (s u : ℕ) × (time_left stop now ≡ (pos s, pos u))
      × (u < 1000000)
      × (micros now + (1000000 * s + u) ≡ micros stop)
unfolding time_left timeval_before ◌+ℤ◌ ◌-ℤ◌
time_left_lem stop now hs hn h = elim (dec_lt stop.tv_usec now.tv_usec) [
  | yes carry ↦ (
    stop.tv_sec - now.tv_sec - 1,
    stop.tv_usec + 1000000 - now.tv_usec,
    ground arith,
    ground arith,
    ground arith,
  )
  | no plain ↦ (
    stop.tv_sec - now.tv_sec,
    stop.tv_usec - now.tv_usec,
    ground arith,
    ground arith,
    ground arith,
  )
]
