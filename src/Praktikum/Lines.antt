-- ===== src/Praktikum/Lines.antt =====
-- `chargen_main` of the character generator against the pattern of its lines.
use mathlib.Core.Option
use mathlib.Core.List.{append_assoc, append-nil}
use ws25_np.Prelude.{
  ℕ, zero, suc, ◌+◌, ◌%◌, ◌^◌, ◌≤◌, ◌<◌, ◌≡◌, ◌⊎◌, refl, ap, sym, ◌∙◌, true, false, none, some,
  List, [], ◌∷◌, ◌++◌, All, if◌then◌else◌, arith, length, take, drop, Bool-cases, inl, inr,
  leb-eq-false,
}
use ws25_np.Prelude.Int.{ℤ, pos, ltb_ℤ, ◌+ℤ◌}
use ws25_np.Prelude.Run.{ok, access-step, run-step, then-step, else-step}
use ws25_np.Memory.{Bytes}
use ws25_np.Praktikum.{Process, sys_recv, sys_select}
use ws25_np.Praktikum.Streams.{Turn, characters, line_length, ended, send_line, chargen, send_loop}
use ws25_np.Praktikum.Sending.{delivered, Takes, Sends, send_loop-Sends}

-- `count` characters from the position `i` of line `n` on, and its end.
pub pattern : (count i n : ℕ) → Bytes
pattern zero i n = 13 ∷ 10 ∷ []
pattern (suc count) i n = ((i + n) % 95 + 32) ∷ pattern count (suc i) n

-- The line of a number.
abbrev pub line : ℕ → Bytes
line n = pattern line_length 0 n

-- As long as the numbers fit an `int`.
characters-pattern :
    (count i n : ℕ) → i + n + count ≤ 2 ^ 31 → characters count i n ≡ some (pattern count i n)
unfolding characters pattern
characters-pattern zero i n h = refl
characters-pattern (suc count) i n h = rw (leb-eq-false (2 ^ 31) (i + n) (omega arith)) (
    ap (Option.map (λ cs. ((i + n) % 95 + 32) ∷ cs))
      (characters-pattern count (suc i) n (omega arith)))

length-pattern : (count i n : ℕ) → length (pattern count i n) ≡ count + 2
unfolding pattern
length-pattern zero i n = refl
length-pattern (suc count) i n = omega (arith, length-pattern count (suc i) n)

take-pattern :
    (count k i j m n : ℕ)
    → i + m ≡ j + n
    → k ≤ count
    → take k (pattern count i m) ≡ take k (pattern count j n)
unfolding pattern
take-pattern zero zero i j m n e h = refl
take-pattern zero (suc k) i j m n e h = absurd (omega arith)
take-pattern (suc count) zero i j m n e h = refl
take-pattern (suc count) (suc k) i j m n e h =
    let rest = take-pattern count k (suc i) (suc j) m n (omega (arith, e)) (omega arith) in
    λ l. (e l % 95 + 32) ∷ rest l

take-shorter :
    (count k i n : ℕ) → k ≤ count → take k (pattern (suc count) i n) ≡ take k (pattern count i n)
unfolding pattern
take-shorter count zero i n h = refl
take-shorter zero (suc k) i n h = absurd (omega arith)
take-shorter (suc count) (suc k) i n h =
    ap (λ r. ((i + n) % 95 + 32) ∷ r) (take-shorter count k (suc i) n (omega arith))

printable_pattern :
    (count i n : ℕ) → All (λ c. (32 ≤ c) × (c ≤ 126)) (take count (pattern count i n))
unfolding pattern
printable_pattern zero i n = tt
printable_pattern (suc count) i n = ((omega arith, omega arith), printable_pattern count (suc i) n)

pattern_period : (count i n : ℕ) → pattern count i (n + 95) ≡ pattern count i n
unfolding pattern
pattern_period zero i n = refl
pattern_period (suc count) i n =
    let same : (i + (n + 95)) % 95 ≡ (i + n) % 95 = omega arith in
    let rest = pattern_period count (suc i) n in λ l. (same l + 32) ∷ rest l

drop-pattern : (count i n : ℕ) → drop count (pattern count i n) ≡ 13 ∷ 10 ∷ []
unfolding pattern
drop-pattern zero i n = refl
drop-pattern (suc count) i n = drop-pattern count (suc i) n

-- While the numbers fit an `int`: a line has 72 printable characters, a carriage return and a line feed; the
-- next line begins with the second character and goes on as this one does; and the line after 95 lines is
-- the same again.
pub characters_pattern :
    (n : ℕ)
    → n + 95 + 72 ≤ 2 ^ 31
    → (now : Bytes) × (next : Bytes) × (characters line_length 0 n ≡ some now)
      × (characters line_length 0 (n + 1) ≡ some next)
      × (characters line_length 0 (n + 95) ≡ some now)
      × (length now ≡ 74)
      × All (λ c. (32 ≤ c) × (c ≤ 126)) (take 72 now)
      × (drop 72 now ≡ 13 ∷ 10 ∷ [])
      × (take 71 next ≡ take 71 (drop 1 now))
unfolding pattern
characters_pattern n h = (
  line n,
  line (n + 1),
  characters-pattern 72 0 n (omega arith),
  characters-pattern 72 0 (n + 1) (omega arith),
  characters-pattern 72 0 (n + 95) (omega arith) ∙ ap some (pattern_period 72 0 n),
  length-pattern 72 0 n,
  printable_pattern 72 0 n,
  drop-pattern 72 0 n,
  take-shorter 71 71 0 (n + 1) (omega arith)
      ∙ take-pattern 71 71 0 1 (n + 1) n (omega arith) (omega arith),
)

-- What is to be sent in some rounds: a line in each in which the socket is writable.
abbrev pub lines : ℕ → List Turn → Bytes
lines n [] = []
lines n (t ∷ turns) = if t.writable then line n ++ lines (n + 1) turns else lines n turns

-- A round whose calls succeed, in which the client does not end the connection.
pub record IsQuiet (t : Turn) : Type 0 where
  pub selected : ltb_ℤ t.selected (pos 0) ≡ false
  pub open_still : (t.readable ≡ none) ⊎ ((n : ℕ) × (t.readable ≡ some (pos (suc n))))
  pub takes : Takes t.taken 74

module _ {S : Type 0} (fd : ℤ) where
  ended_quiet :
      (t : Turn) (w : Process S)
      → IsQuiet t
      → (w' : Process S) × (ended fd t.readable w ≡ ok false w')
        × (delivered fd w'.calls ≡ delivered fd w.calls)
  unfolding ended
  ended_quiet t w quiet = elim (quiet.open_still) [
    | inl e ↦ (w, rw e, refl)
    | inr (n, e) ↦ (
      record w { calls = sys_recv fd (pos (suc n)) ∷ w.calls },
      rw e (
          run-step _ _ (else-step (ltb_ℤ (pos (suc n)) (pos 0)) _ _ _ (ground arith) refl)
            (let more : ltb_ℤ (pos 0) (pos (suc n)) ≡ true = ground arith in rw more)),
      refl,
    )
  ]

  send_line-Sends :
      (taken : ℕ → ℤ) (n : ℕ) (w : Process S)
      → Takes taken 74
      → n + 71 < 2 ^ 31
      → Sends fd w (line n) (send_line fd taken n w)
  unfolding send_line
  send_line-Sends taken n w takes small =
      let size : length (line n) ≡ 74 = length-pattern 72 0 n in
      let s : Sends fd w (line n) (send_loop fd taken (line n) 74 0 w) =
        send_loop-Sends fd taken (line n)
          (λ sent h.
            (let (k, e, fits) = takes sent (omega (arith, size)) in (k, e, omega (arith, size))))
          74 0 w (omega (arith, size)) (omega (arith, size)) in
      record {
        total = s.total;
        w' = s.w';
        same_state = s.same_state;
        out = s.out;
        returns =
            access-step (characters line_length 0 n) _ w
              (characters-pattern 72 0 n (omega (arith, small))) s.returns;
      }

  -- The character generator, with rounds whose calls succeed and a client that does not end the connection,
  -- sends its lines one after the other and whole, one in each round in which the socket is writable, as long as
  -- the line number and the position fit an `int`.
  pub chargen-lines :
      (closed : ℤ) (turns : List Turn) (n : ℕ) (w : Process S)
      → All IsQuiet turns
      → n + length turns + 71 < 2 ^ 31
      → (w' : Process S) × (chargen fd closed turns n w ≡ ok false w')
        × (delivered fd w'.calls ≡ delivered fd w.calls ++ lines n turns)
  unfolding chargen
  chargen-lines closed [] n w _ small = (w, refl, sym (append-nil (delivered fd w.calls)))
  chargen-lines closed (t ∷ turns) n w (quiet, all_quiet) small =
      let w₁ : Process S = record w {
        calls = sys_select (fd +ℤ pos 1) (fd ∷ []) t.selected ∷ w.calls;
      } in
      let (w₂, heard, out₂) = ended_quiet t w₁ quiet in
      elim (Bool-cases t.writable) [
        | inl ready ↦
            let s : Sends fd w₂ (line n) (send_line fd t.taken n w₂) =
              send_line-Sends t.taken n w₂ quiet.takes (omega arith) in
            let (w', run, out) = chargen-lines closed turns (n + 1) s.w' all_quiet (omega arith) in
            (
              w',
              run-step _ _ (else-step (ltb_ℤ t.selected (pos 0)) _ _ _ quiet.selected refl) (
                  run-step _ _ heard
                    (then-step t.writable _ _ w₂ ready (run-step _ _ s.returns run))),
              rw ready (
                  out
                  ∙ ap (λ d. d ++ lines (n + 1) turns) (s.out ∙ ap (λ d. d ++ line n) out₂)
                  ∙ append_assoc (delivered fd w.calls) (line n) (lines (n + 1) turns)),
            )
        | inr busy ↦
            let (w', run, out) = chargen-lines closed turns n w₂ all_quiet (omega arith) in
            (
              w',
              run-step _ _ (else-step (ltb_ℤ t.selected (pos 0)) _ _ _ quiet.selected refl)
                  (run-step _ _ heard (else-step t.writable _ _ w₂ busy run)),
              rw busy (out ∙ ap (λ d. d ++ lines n turns) out₂),
            )
      ]
