-- ===== src/Praktikum/Echo.antt =====
-- `handle` of the echo server against what it promises.
use mathlib.Core.List.{append_assoc, append-nil}
use ws25_np.Prelude.{
  ℕ, ◌<◌, ◌≡◌, ◌≢◌, refl, ap, sym, ◌∙◌, Bool, true, false, List, [], ◌∷◌, ◌++◌, map, All, arith,
  length,
}
use ws25_np.Prelude.Int.{ℤ, pos, ltb_ℤ}
use ws25_np.Prelude.Run.{Run, ok, run-step, then-step, else-step}
use ws25_np.Memory.{Bytes}
use ws25_np.Praktikum.{Process, Call, sys_recv, sys_close}
use ws25_np.Praktikum.Streams.{Arrival, arrives, handle, send_loop}
use ws25_np.Praktikum.Sending.{delivered, Takes, Sends, send_loop-Sends}

abbrev pub concat : List Bytes → Bytes
concat [] = []
concat (bytes ∷ more) = bytes ++ concat more

module _ {S : Type 0} (fd : ℤ) (taken : Bytes → ℕ → ℤ) (closed : ℤ) where
  -- A run that ends with the closing of the connection, behind some bytes that are sent.
  pub record Echoes (w : Process S) (bytes : Bytes) (r : Run (Process S) Bool) : Type 0 where
    pub w' : Process S
    pub returns : r ≡ ok true w'
    pub before : List Call
    pub last : w'.calls ≡ sys_close fd closed ∷ before
    pub out : delivered fd w'.calls ≡ delivered fd w.calls ++ bytes

  -- The thread of a client sends back the pieces that it receives, each whole and in their order, and closes
  -- the connection when the client has ended it; provided that `send` and `close` succeed, and `send` takes a byte at least.
  pub handle-Echoes :
      (chunks : List Bytes) (later : List Arrival) (w : Process S)
      → ((bytes : Bytes) → Takes (taken bytes) (length bytes))
      → ltb_ℤ closed (pos 0) ≡ false
      → All (λ bytes. bytes ≢ []) chunks
      → Echoes w
          (concat chunks)
          (handle fd taken closed (map arrives chunks ++ (arrives [] ∷ later)) w)
  unfolding handle
  handle-Echoes [] later w takes good _ = record {
    w' = record w { calls = sys_close fd closed ∷ sys_recv fd (pos 0) ∷ w.calls };
    returns =
        run-step _ _ (run-step _ _ (else-step (ltb_ℤ closed (pos 0)) _ _ _ good refl) refl) refl;
    before = sys_recv fd (pos 0) ∷ w.calls;
    last = refl;
    out = sym (append-nil (delivered fd w.calls));
  }
  handle-Echoes (bytes ∷ chunks) later w takes good (some_bytes, more) =
      let w₁ : Process S = record w { calls = sys_recv fd (pos (length bytes)) ∷ w.calls } in
      let filled : 0 < length bytes = filled_of bytes some_bytes in
      let s : Sends fd w₁ bytes (send_loop fd (taken bytes) bytes (length bytes) 0 w₁) =
        send_loop-Sends fd (taken bytes) bytes (takes bytes) (length bytes) 0 w₁ filled
          (omega arith) in
      let rest : Echoes s.w' (concat chunks)
          (handle fd taken closed (map arrives chunks ++ (arrives [] ∷ later)) s.w') =
        handle-Echoes chunks later s.w' takes good more in
      record {
        w' = rest.w';
        returns =
            run-step _ _ (else-step (ltb_ℤ (pos (length bytes)) (pos 0)) _ _ _ (ground arith) refl)
              (then-step (ltb_ℤ (pos 0) (pos (length bytes))) _ _ w₁ (ground arith)
                (run-step _ _ s.returns rest.returns));
        before = rest.before;
        last = rest.last;
        out =
            rest.out
            ∙ ap (λ d. d ++ concat chunks) s.out
            ∙ append_assoc (delivered fd w.calls) bytes (concat chunks);
      }
    where
      filled_of : (bytes : Bytes) → bytes ≢ [] → 0 < length bytes
      filled_of [] ne = absurd (ne refl)
      filled_of (b ∷ bs) ne = omega arith
