-- ===== src/Praktikum/Sending.antt =====
-- The loop that sends a buffer sends all of it.
use mathlib.Core.List.{append_assoc}
use ws25_np.Prelude.{
  ℕ, zero, suc, ◌+◌, ◌-◌, ◌≤◌, ◌<◌, ◌≡◌, refl, ap, sym, ◌∙◌, true, List, [], ◌∷◌, ◌++◌,
  if◌then◌else◌, arith, ltb, length, take, drop, Bool-cases, inl, inr, take_all, length-drop,
  take-append-drop,
}
use ws25_np.Prelude.Int.{ℤ, pos, negsuc, pos_part, ltb_ℤ, ◌==ℤ◌, ==ℤ_iff}
use ws25_np.Prelude.Run.{Run, ok, run-step, then-step, else-step}
use ws25_np.Memory.{Bytes}
use ws25_np.Praktikum.{Process, Call, sys_send, checked}
use ws25_np.Praktikum.Streams.{send_loop}

-- What has been sent through a descriptor.
abbrev pub delivered : ℤ → List Call → Bytes
delivered fd [] = []
delivered fd (sys_send to bytes result ∷ calls) =
    delivered fd calls ++ (if to ==ℤ fd then take (pos_part result) bytes else [])
delivered fd (call ∷ calls) = delivered fd calls

-- `send` takes at least one byte of `size - sent`, and no more than those.
abbrev pub Takes : (ℕ → ℤ) → ℕ → Type 0
Takes taken size =
    (sent : ℕ) → sent < size → (k : ℕ) × (taken sent ≡ pos (suc k)) × (suc k ≤ size - sent)

drop_nil : (n : ℕ) → ◌≡◌ {A = Bytes} (drop n []) []
drop_nil zero = refl
drop_nil (suc n) = refl

drop-add : (n m : ℕ) (xs : Bytes) → drop (n + m) xs ≡ drop m (drop n xs)
drop-add zero m xs = ap (λ k. drop k xs) (omega arith)
drop-add (suc n) m [] = drop_nil (suc n + m) ∙ sym (drop_nil m)
drop-add (suc n) m (x ∷ xs) =
    let next : suc n + m ≡ suc (n + m) = omega arith in
    ap (λ k. drop k (x ∷ xs)) next ∙ drop-add n m xs

-- A process that has sent some bytes more, and is as it was otherwise.
pub record Sends {S : Type 0} (fd : ℤ) (w : Process S) (bytes : Bytes) (r : Run (Process S) ℕ)
    : Type 0 where
  pub total : ℕ
  pub w' : Process S
  pub returns : r ≡ ok total w'
  pub same_state : w'.state ≡ w.state
  pub out : delivered fd w'.calls ≡ delivered fd w.calls ++ bytes

module _ {S : Type 0} (fd : ℤ) (taken : ℕ → ℤ) (buf : Bytes)
    (takes : Takes taken (length buf)) where
  -- One call of `send`.
  sent_once :
      (sent k : ℕ) (w : Process S)
      → taken sent ≡ pos (suc k)
      → delivered fd (sys_send fd (drop sent buf) (taken sent) ∷ w.calls)
        ≡ delivered fd w.calls ++ take (suc k) (drop sent buf)
  sent_once sent k w e = let same : (fd ==ℤ fd) ≡ true = (==ℤ_iff fd fd).1 refl in rw (same, e)

  pub send_loop-Sends :
      (rounds sent : ℕ) (w : Process S)
      → sent < length buf
      → length buf ≤ sent + rounds
      → Sends fd w (drop sent buf) (send_loop fd taken buf rounds sent w)
  unfolding send_loop
  send_loop-Sends zero sent w more fuel = absurd (omega arith)
  send_loop-Sends (suc rounds) sent w more fuel =
      let (k, e, fits) = takes sent more in
      let w₁ : Process S = record w {
        calls = sys_send fd (drop sent buf) (taken sent) ∷ w.calls;
      } in
      let n : pos_part (taken sent) ≡ suc k = ap pos_part e in
      let called : checked (sys_send fd (drop sent buf) (taken sent)) (taken sent) (negsuc 0) w
          ≡ ok (taken sent) w₁ =
        else-step (ltb_ℤ (taken sent) (pos 0)) _ _ _ (rw e (ground arith)) refl in
      elim (Bool-cases (ltb (sent + pos_part (taken sent)) (length buf))) [
        | inl again ↦
            let ih : Sends fd w₁ (drop (sent + pos_part (taken sent)) buf)
                (send_loop fd taken buf rounds (sent + pos_part (taken sent)) w₁) =
              send_loop-Sends rounds (sent + pos_part (taken sent)) w₁ (ground arith)
                (omega (arith, n)) in
            record {
              total = ih.total;
              w' = ih.w';
              returns = run-step _ _ called (then-step _ _ _ w₁ again ih.returns);
              same_state = ih.same_state;
              out =
                  ih.out
                  ∙ ap (λ d. d ++ drop (sent + pos_part (taken sent)) buf) (sent_once sent k w e)
                  ∙ append_assoc (delivered fd w.calls) (take (suc k) (drop sent buf)) _
                  ∙ ap (λ d. delivered fd w.calls ++ (take (suc k) (drop sent buf) ++ d))
                      (ap (λ j. drop (sent + j) buf) n ∙ drop-add sent (suc k) buf)
                  ∙ ap (λ d. delivered fd w.calls ++ d) (take-append-drop (suc k) (drop sent buf));
            }
        | inr done ↦ record {
          total = sent + pos_part (taken sent);
          w' = w₁;
          returns = run-step _ _ called (else-step _ _ _ w₁ done refl);
          same_state = refl;
          out =
              sent_once sent k w e
              ∙ ap (λ d. delivered fd w.calls ++ d)
                  (take_all (suc k) (drop sent buf) (ground (arith, length-drop sent buf, n)));
        }
      ]
