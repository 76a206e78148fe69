-- ===== src/Timers/Queue.antt =====
-- Running timers as a queue in the order of their stop times: what start_timer and stop_timer of
-- cblib.c promise.
use ws25_np.Prelude.{
  ℕ, ◌≤◌, ◌≡◌, refl, inl, inr, Bool, true, false, ◌||◌, List, [], ◌∷◌, ◌==◌, if◌then◌else◌, arith,
  All, Bool-cases,
}
use ws25_np.Timers.{Timeval, timeval_before}
use ws25_np.Timers.Times.{micros, IsNormal, timeval_before_iff}

-- The timers with their stop times.
abbrev pub Queue : Type 0
Queue = List (ℕ × Timeval)

abbrev pub running : ℕ → Queue → Bool
running p [] = false
running p ((q, _) ∷ queue) = (q == p) || running p queue

-- A new timer goes behind all that stop at the same time or earlier.
abbrev pub insert : ℕ → Timeval → Queue → Queue
insert p stop [] = (p, stop) ∷ []
insert p stop ((q, s) ∷ queue) =
    if timeval_before stop s then (p, stop) ∷ (q, s) ∷ queue else (q, s) ∷ insert p stop queue

abbrev pub remove : ℕ → Queue → Queue
remove p [] = []
remove p ((q, s) ∷ queue) = if q == p then queue else (q, s) ∷ remove p queue

-- Later timers stop later or at the same time; the times are normal.
abbrev pub IsSorted : Queue → Type 0
IsSorted [] = Unit
IsSorted ((q, s) ∷ queue) =
    IsNormal s × All (λ (later : ℕ × Timeval). micros s ≤ micros later.1) queue × IsSorted queue

or_swap : (a b c : Bool) → (a || (b || c)) ≡ (b || (a || c))
or_swap true true c = refl
or_swap true false c = refl
or_swap false true c = refl
or_swap false false c = refl

All-insert :
    (P : ℕ × Timeval → Type 0) (p : ℕ) (stop : Timeval) (queue : Queue)
    → P (p, stop)
    → All P queue
    → All P (insert p stop queue)
All-insert P p stop [] new h = (new, tt)
All-insert P p stop ((q, s) ∷ queue) new (first, h) = elim (Bool-cases (timeval_before stop s)) [
  | inl before ↦ rw before (new, (first, h))
  | inr behind ↦ rw behind (first, All-insert P p stop queue new h)
]

All-remove :
    (P : ℕ × Timeval → Type 0) (p : ℕ) (queue : Queue) → All P queue → All P (remove p queue)
All-remove P p [] h = tt
All-remove P p ((q, s) ∷ queue) (first, h) = elim (Bool-cases (q == p)) [
  | inl here ↦ rw here h
  | inr later ↦ rw later (first, All-remove P p queue h)
]

weaken :
    (m n : ℕ) (queue : Queue)
    → m ≤ n
    → All (λ (later : ℕ × Timeval). n ≤ micros later.1) queue
    → All (λ (later : ℕ × Timeval). m ≤ micros later.1) queue
weaken m n [] le h = tt
weaken m n ((q, s) ∷ queue) le (first, h) = (omega arith, weaken m n queue le h)

pub insert-IsSorted :
    (p : ℕ) (stop : Timeval) (queue : Queue)
    → IsNormal stop
    → IsSorted queue
    → IsSorted (insert p stop queue)
insert-IsSorted p stop [] hs h = (hs, tt, tt)
insert-IsSorted p stop ((q, s) ∷ queue) hs (hn, first, h) =
    elim (Bool-cases (timeval_before stop s)) [
      | inl before ↦
          let earlier = (timeval_before_iff stop s hs hn).0 before in
          rw before (
            hs,
            (omega arith, weaken (micros stop) (micros s) queue (omega arith) first),
            (hn, first, h),
          )
      | inr behind ↦
          let later : micros s ≤ micros stop =
            grind (arith, (timeval_before_iff stop s hs hn).1, behind) in
          rw behind (hn, All-insert _ p stop queue later first, insert-IsSorted p stop queue hs h)
    ]

pub remove-IsSorted : (p : ℕ) (queue : Queue) → IsSorted queue → IsSorted (remove p queue)
remove-IsSorted p [] h = tt
remove-IsSorted p ((q, s) ∷ queue) (hn, first, h) = elim (Bool-cases (q == p)) [
  | inl here ↦ rw here h
  | inr later ↦ rw later (hn, All-remove _ p queue first, remove-IsSorted p queue h)
]

pub running-insert :
    (a p : ℕ) (stop : Timeval) (queue : Queue)
    → running a (insert p stop queue) ≡ ((p == a) || running a queue)
running-insert a p stop [] = refl
running-insert a p stop ((q, s) ∷ queue) = elim (Bool-cases (timeval_before stop s)) [
  | inl before ↦ rw before
  | inr behind ↦
      rw (behind, running-insert a p stop queue) (or_swap (q == a) (p == a) (running a queue))
]

pub remove-running :
    (a p : ℕ) (queue : Queue) → running a queue ≡ false → running a (remove p queue) ≡ false
remove-running a p [] h = refl
remove-running a p ((q, s) ∷ queue) h = elim (Bool-cases (q == p)) [
  | inl here ↦ rw here (ground arith)
  | inr later ↦ rw later (ground (arith, remove-running a p queue))
]

pub remove_absent : (p : ℕ) (queue : Queue) → running p queue ≡ false → remove p queue ≡ queue
remove_absent p [] h = refl
remove_absent p ((q, s) ∷ queue) h = ground (arith, remove_absent p queue)
