-- ===== src/Timers/Linking.antt =====
-- The writes that link a timer behind another one.
use ws25_np.Prelude.{ℕ, ◌≡◌, ◌≢◌, sym, ◌∙◌, false, some, ◌==◌, arith, ==_iff}
use ws25_np.Prelude.Maybe.{◌>>=◌, step, step-then, step-else}
use ws25_np.Timers.{Timer, Timers, change, link_behind}
use ws25_np.Timers.Chain.{Cells, write, write_self, write-other, change-write}

module _ {C : Type 0} (p q : ℕ) (new old : Timer C) (apart : p ≢ q) where
  -- The cells behind the linking of `new` behind `old`.
  abbrev pub linked : Cells C → Cells C
  linked cells =
      write p (record new { next = old.next; prev = q })
        (write q (record old { next = p }) (write p (record new { next = old.next }) cells))

  pub linked-new :
      (cells : Cells C) → linked cells p ≡ some (record new { next = old.next; prev = q })
  linked-new cells = write_self p _ _

  pub linked-old : (cells : Cells C) → linked cells q ≡ some (record old { next = p })
  linked-old cells = write-other p q _ _ apart ∙ write_self q _ _

  pub linked-other : (cells : Cells C) (a : ℕ) → p ≢ a → q ≢ a → linked cells a ≡ cells a
  linked-other cells a np nq =
      write-other p a _ _ np ∙ write-other q a _ _ nq ∙ write-other p a _ _ np

  -- The three writes of `start_timer` behind the one to the next timer.
  pub linking :
      (t : Timers C)
      → t.cells p ≡ some new
      → t.cells q ≡ some old
      → (do
        t ← change p (λ timer. record timer { next = old.next }) t
        t ← change q (λ other. record other { next = p }) t
        change p (λ timer. record timer { prev = q }) t)
        ≡ some (record t { cells = linked t.cells })
  linking t hp hq = step _ _ (change-write p _ t hp) (
      step _ _ (change-write q _ _ (write-other p q _ _ apart ∙ hq))
        (change-write p _ _ (write-other q p _ _ (λ e. apart (sym e)) ∙ write_self p _ _)))

  pub link_behind-last :
      (t : Timers C)
      → t.cells p ≡ some new
      → t.cells q ≡ some old
      → old.next ≡ 0
      → link_behind p q t ≡ some (record t { cells = linked t.cells })
  unfolding link_behind
  link_behind-last t hp hq last =
      step _ _ hq (step-then (old.next == 0) _ _ _ ((==_iff old.next 0).1 last) (linking t hp hq))

  pub link_behind-inner :
      (t : Timers C) (other : Timer C)
      → t.cells p ≡ some new
      → t.cells q ≡ some old
      → old.next ≢ 0
      → p ≢ old.next
      → q ≢ old.next
      → t.cells old.next ≡ some other
      → link_behind p q t
        ≡ some (record t { cells = linked (write old.next (record other { prev = p }) t.cells) })
  unfolding link_behind
  link_behind-inner t other hp hq ne np nq ho = step _ _ hq (
      step-else (old.next == 0) _ _ _ unlike (
        step _ _ (change-write old.next _ t ho) (
          linking (record t { cells = write old.next (record other { prev = p }) t.cells })
            (write-other old.next p _ _ (λ e. np (sym e)) ∙ hp)
            (write-other old.next q _ _ (λ e. nq (sym e)) ∙ hq))))
    where
      unlike : (old.next == 0) ≡ false
      unlike = ground (arith, ==_iff old.next 0)
