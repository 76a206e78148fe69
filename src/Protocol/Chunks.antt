-- ===== src/Protocol/Chunks.antt =====
-- The buffer of `handle_tcp_message` and its loop implement the stream of `Stream`, however the
-- stream is cut into pieces by `recv`.
use mathlib.Core.Path.{subst, subst₂}
use native.Mathlib.Decide.{dec_lt}
use mathlib.Core.List.{append_assoc}
use ws25_np.Prelude.{
  ℕ, zero, suc, ◌+◌, ◌-◌, ◌<◌, ◌≤◌, ◌≡◌, refl, ap, sym, ◌∙◌, none, some, [], ◌∷◌, ◌++◌, length,
  take, drop, if◌then◌else◌, arith, length-append, length-drop, length-take, drop-append_le,
  take-append-drop, take-append-length, le→leb, ltb-eq-false, leb-eq-false, lt→ltb,
}
use ws25_np.Prelude.Maybe.{step}
use ws25_np.Prelude.Int.{ℤ}
use ws25_np.Prelude.Run.{
  M, Run, ok, fault, exited, and_then, access-step, else-step, then-step, Ends,
}
use ws25_np.System.{World}
use ws25_np.Memory.{Bytes, Endian, bytes16, load16, read_at}
use ws25_np.Memory.Fields.{read_at_start, store16_over}
use ws25_np.Wire.{padded_message_size, take_message}
use ws25_np.Wire.Packet.{padded_message_size_lem}
use ws25_np.Protocol.{
  Callbacks, Buffer, received, handle_incoming_message, handle_tcp_message, tcp_loop, remove_front,
  append_received,
}
use ws25_np.Protocol.Stream.{
  net16, parse, consume, consume_enough, consume-append, consume-shrinks, consume-none,
  consume-some,
}

-- A buffer of the size `size` that holds the bytes `live`; behind them lies what was there before.
abbrev pub holding : ℕ → Bytes → Bytes → Buffer
holding size live dead = record {
  buff_size = size;
  filled_size = length live;
  contents = live ++ dead;
}

buffer-eq :
    {s s' f f' : ℕ} {c c' : Bytes}
    → s ≡ s'
    → f ≡ f'
    → c ≡ c'
    → ◌≡◌ {A = Buffer}
        (record { buff_size = s; filled_size = f; contents = c })
        (record { buff_size = s'; filled_size = f'; contents = c' })
buffer-eq p q r = λ i. record { buff_size = p i; filled_size = q i; contents = r i }

remove_front-holding :
    (size k : ℕ) (live dead : Bytes)
    → k ≤ length live
    → remove_front k (holding size live dead)
      ≡ holding size (drop k live) (drop (length live - k) (live ++ dead))
unfolding remove_front
remove_front-holding size k live dead h = buffer-eq refl (sym (length-drop k live)) (
    ap (λ t. t ++ drop (length live - k) (live ++ dead))
      (ap (take (length live - k)) (drop-append_le k live dead h)
        ∙ ap (λ n. take n (drop k live ++ dead)) (sym (length-drop k live))
        ∙ take-append-length (drop k live) dead))

append_received-holding :
    (size : ℕ) (bytes live dead : Bytes)
    → append_received bytes (holding size live dead)
      ≡ holding size (live ++ bytes) (drop (length live + length bytes) (live ++ dead))
unfolding append_received
append_received-holding size bytes live dead = buffer-eq refl (sym (length-append live bytes)) (
    ap (λ t. t ++ (bytes ++ drop (length live + length bytes) (live ++ dead)))
      (take-append-length live dead)
    ∙ sym (append_assoc live bytes _))

-- The message that the loop copies out of the buffer is the first of the stream.
pub take_message-lem :
    (e : Endian) (t l a b c d : ℕ) (rest dead : Bytes)
    → l ≤ length rest
    → take_message e t l (a ∷ b ∷ c ∷ d ∷ (rest ++ dead))
      ≡ some (bytes16 e t ++ (bytes16 e l ++ take l rest))
unfolding take_message
take_message-lem e t l a b c d rest dead h =
    step _ _
      (ap (read_at (a ∷ b ∷ c ∷ d ∷ (rest ++ dead)) 0) {x = 4 + l}
          (omega (arith, length-take l rest))
        ∙ ap (λ m. read_at m 0 (length (a ∷ b ∷ c ∷ d ∷ take l rest)))
            (ap (λ r. a ∷ b ∷ c ∷ d ∷ r)
              (ap (λ r. r ++ dead) (sym (take-append-drop l rest))
                ∙ append_assoc (take l rest) (drop l rest) dead))
        ∙ read_at_start (a ∷ b ∷ c ∷ d ∷ take l rest) (drop l rest ++ dead))
      (step _ _ (store16_over e [] a b (c ∷ d ∷ take l rest) t)
        (store16_over e (bytes16 e t) c d (take l rest) l))

-- The buffer holds the rest of the stream that the specification leaves, in the same world.
abbrev pub Agrees : {S : Type 0} → ℕ → Run (World S) Buffer → Run (World S) Bytes → Type 0
Agrees size (ok buffer w) (ok rest w') =
    (dead : Bytes) × (buffer ≡ holding size rest dead)
    × (length rest + length dead ≡ size)
    × (w ≡ w')
Agrees size fault fault = Unit
Agrees size (exited w) (exited w') = w ≡ w'
Agrees size (ok buffer w) fault = ⊥
Agrees size (ok buffer w) (exited w') = ⊥
Agrees size fault (ok rest w') = ⊥
Agrees size fault (exited w') = ⊥
Agrees size (exited w) (ok rest w') = ⊥
Agrees size (exited w) fault = ⊥

Agrees-and_then :
    {S : Type 0} (size : ℕ) (r : Run (World S) (Unit {0})) (f : Unit {0} → M (World S) Buffer)
    (g : Unit {0} → M (World S) Bytes)
    → ((w : World S) → Agrees size (f tt w) (g tt w))
    → Agrees size (and_then r f) (and_then r g)
Agrees-and_then size (ok tt w) f g h = h w
Agrees-and_then size fault f g h = tt
Agrees-and_then size (exited w) f g h = refl

module _ {S : Type 0} (e : Endian) (callbacks : Callbacks S) (fd : ℤ) (size : ℕ) (t₁ t₀ l₁ l₀ : ℕ)
    (rest dead : Bytes) (w : World S) where
  abbrev live : Bytes
  live = t₁ ∷ t₀ ∷ l₁ ∷ l₀ ∷ rest

  abbrev padded : ℕ
  padded = padded_message_size (4 + net16 e l₁ l₀)

  abbrev msg : Bytes
  msg = bytes16 e (net16 e t₁ t₀) ++ (bytes16 e (net16 e l₁ l₀) ++ take (net16 e l₁ l₀) rest)

  loop_fits :
      (n : ℕ)
      → padded ≤ length live
      → tcp_loop e callbacks (suc n) fd (holding size live dead) w
        ≡ and_then
            (handle_incoming_message e callbacks msg fd w)
            (λ _. tcp_loop e callbacks n fd (remove_front padded (holding size live dead)))
  unfolding tcp_loop load16
  loop_fits n h = else-step _ _ _ w (ltb-eq-false (length live) 4 (omega arith)) (
      else-step _ _ _ w (ltb-eq-false (length live) padded h) (
        access-step _ _ w
          (take_message-lem e (net16 e t₁ t₀) (net16 e l₁ l₀) t₁ t₀ l₁ l₀ rest dead
            (omega (arith, padded_message_size_lem (4 + net16 e l₁ l₀))))
          refl))

  loop_short :
      (n : ℕ)
      → length live < padded
      → tcp_loop e callbacks (suc n) fd (holding size live dead) w ≡ ok (holding size live dead) w
  unfolding tcp_loop load16
  loop_short n h =
      else-step _ _ _ w (ltb-eq-false (length live) 4 (omega arith))
        (then-step _ _ _ w (lt→ltb (length live) padded h) refl)

  parse_fits : padded ≤ length live → parse e live ≡ some (msg, drop padded live)
  unfolding parse
  parse_fits h =
      let four : suc (suc (suc (suc (padded - 4)))) ≡ padded =
        omega (arith, padded_message_size_lem (4 + net16 e l₁ l₀)) in
      ap (λ b. if b then some (msg, drop (padded - 4) rest) else none)
        (le→leb padded (4 + length rest) (omega arith))
      ∙ ap (λ k. some (msg, drop k live)) four

  parse_short : length live < padded → parse e live ≡ none
  unfolding parse
  parse_short h =
      ap (λ b. if b then some (msg, drop (padded - 4) rest) else none)
        (leb-eq-false padded (4 + length rest) (omega arith))

  four-Agrees :
      (n : ℕ)
      → ((live' dead' : Bytes) (w' : World S)
          → length live' + length dead' ≡ size
          → Agrees size
              (tcp_loop e callbacks n fd (holding size live' dead') w')
              (consume e callbacks fd n live' w'))
      → length live + length dead ≡ size
      → Agrees size
          (tcp_loop e callbacks (suc n) fd (holding size live dead) w)
          (consume e callbacks fd (suc n) live w)
  four-Agrees n ih h = elim (dec_lt (length live) padded) [
    | yes short ↦
        subst₂ (Agrees size) (sym (loop_short n short))
          (sym (consume-none e callbacks fd (suc n) live w (parse_short short)))
          (dead, refl, h, refl)
    | no fits ↦
        let enough : padded ≤ length live = omega arith in
        subst₂ (Agrees size) (sym (loop_fits n enough))
          (sym (consume-some e callbacks fd n live w (parse_fits enough)))
          (Agrees-and_then size (handle_incoming_message e callbacks msg fd w) _ _ λ w'.
            subst
              (λ b.
                Agrees size (tcp_loop e callbacks n fd b w')
                  (consume e callbacks fd n (drop padded live) w'))
              (sym (remove_front-holding size padded live dead enough))
              (ih (drop padded live) (drop (length live - padded) (live ++ dead)) w' (
                omega (
                  arith,
                  length-drop padded live,
                  length-drop (length live - padded) (live ++ dead),
                  length-append live dead,
                ))))
  ]

module _ {S : Type 0} (e : Endian) (callbacks : Callbacks S) (fd : ℤ) (size : ℕ) where
  loop-Agrees :
      (n : ℕ) (bytes dead : Bytes) (w : World S)
      → length bytes + length dead ≡ size
      → Agrees size
          (tcp_loop e callbacks n fd (holding size bytes dead) w)
          (consume e callbacks fd n bytes w)
  unfolding tcp_loop consume parse
  loop-Agrees zero bytes dead w h = (dead, refl, h, refl)
  loop-Agrees (suc n) [] dead w h = (dead, refl, h, refl)
  loop-Agrees (suc n) (a ∷ []) dead w h = (dead, refl, h, refl)
  loop-Agrees (suc n) (a ∷ b ∷ []) dead w h = (dead, refl, h, refl)
  loop-Agrees (suc n) (a ∷ b ∷ c ∷ []) dead w h = (dead, refl, h, refl)
  loop-Agrees (suc n) (t₁ ∷ t₀ ∷ l₁ ∷ l₀ ∷ rest) dead w h =
      four-Agrees e callbacks fd size t₁ t₀ l₁ l₀ rest dead w n (loop-Agrees n) h

  -- One call with bytes that fit behind the unread ones.
  pub handle_tcp_message-Agrees :
      (bytes dead : Bytes) (x : ℕ) (new : Bytes) (w : World S)
      → length bytes + length dead ≡ size
      → length (x ∷ new) ≤ length dead
      → Agrees size
          (handle_tcp_message e callbacks fd (holding size bytes dead) (received (x ∷ new)) w)
          (consume e callbacks fd (length (bytes ++ x ∷ new)) (bytes ++ x ∷ new) w)
  unfolding handle_tcp_message
  handle_tcp_message-Agrees bytes dead x new w h room =
      subst
        (λ b.
          Agrees size (tcp_loop e callbacks b.filled_size fd b w)
            (consume e callbacks fd (length (bytes ++ x ∷ new)) (bytes ++ x ∷ new) w))
        (sym (append_received-holding size (x ∷ new) bytes dead))
        (loop-Agrees (length (bytes ++ x ∷ new)) (bytes ++ x ∷ new) _ w (
          omega (
            arith,
            length-append bytes (x ∷ new),
            length-append bytes dead,
            length-drop (length bytes + length (x ∷ new)) (bytes ++ dead),
          )))

-- The bytes of the buffer that wait for the rest of their message.
abbrev pub unread : Buffer → Bytes
unread b = take b.filled_size b.contents

abbrev pub map_run : {W A B : Type 0} → (A → B) → Run W A → Run W B
map_run f (ok a w) = ok (f a) w
map_run f fault = fault
map_run f (exited w) = exited w

unread-Agrees :
    {S : Type 0} (size : ℕ) (r : Run (World S) Buffer) (c : Run (World S) Bytes)
    → Agrees size r c
    → map_run unread r ≡ c
unread-Agrees size (ok b w) (ok rest w') (dead, e, _, ew) =
    ap (λ b. ok (unread b) w) e ∙ ap (λ u. ok u w) (take-append-length rest dead) ∙ ap (ok rest) ew
unread-Agrees size fault fault h = refl
unread-Agrees size (exited w) (exited w') h = ap exited h
unread-Agrees size (ok b w) fault h = absurd h
unread-Agrees size (ok b w) (exited w') h = absurd h
unread-Agrees size fault (ok rest w') h = absurd h
unread-Agrees size fault (exited w') h = absurd h
unread-Agrees size (exited w) (ok rest w') h = absurd h
unread-Agrees size (exited w) fault h = absurd h

module _ {S : Type 0} (e : Endian) (callbacks : Callbacks S) (fd : ℤ) (size : ℕ) where
  -- Behind one call that agrees with the specification, a second one goes on with the stream.
  second-Agrees :
      (y : ℕ) (ys stream : Bytes) (r : Run (World S) Buffer) (c : Run (World S) Bytes)
      → Agrees size r c
      → Ends (λ rest. length rest ≤ length stream) c
      → length stream + length (y ∷ ys) ≤ size
      → Agrees size
          (and_then r (λ b. handle_tcp_message e callbacks fd b (received (y ∷ ys))))
          (and_then c (λ rest. consume e callbacks fd (length (stream ++ y ∷ ys)) (rest ++ y ∷ ys)))
  second-Agrees y ys stream (ok b w) (ok rest w') (dead, eb, total, ew) short room =
      subst₂
        (λ b' u.
          Agrees size (handle_tcp_message e callbacks fd b' (received (y ∷ ys)) w)
            (consume e callbacks fd (length (stream ++ y ∷ ys)) (rest ++ y ∷ ys) u))
        (sym eb) ew
        (subst (Agrees size _)
          (consume_enough e callbacks fd (length (rest ++ y ∷ ys)) (length (stream ++ y ∷ ys))
            (rest ++ y ∷ ys) w (omega arith)
            (omega (arith, length-append rest (y ∷ ys), length-append stream (y ∷ ys))))
          (handle_tcp_message-Agrees e callbacks fd size rest dead y ys w total (omega arith)))
  second-Agrees y ys stream fault fault h short room = tt
  second-Agrees y ys stream (exited w) (exited w') h short room = h
  second-Agrees y ys stream (ok b w) fault h short room = absurd h
  second-Agrees y ys stream (ok b w) (exited w') h short room = absurd h
  second-Agrees y ys stream fault (ok rest w') h short room = absurd h
  second-Agrees y ys stream fault (exited w') h short room = absurd h
  second-Agrees y ys stream (exited w) (ok rest w') h short room = absurd h
  second-Agrees y ys stream (exited w) fault h short room = absurd h

  -- However `recv` cuts the bytes into two pieces that fit the buffer: handling the first and then
  -- the second has the effects of handling both at once (callbacks, sends, a fault, an exit), and
  -- leaves the same unread bytes in the buffer.
  pub handle_tcp_message-pieces :
      (bytes dead : Bytes) (x y : ℕ) (xs ys : Bytes) (w : World S)
      → length bytes + length dead ≡ size
      → length (x ∷ xs) + length (y ∷ ys) ≤ length dead
      → map_run unread (
          and_then
            (handle_tcp_message e callbacks fd (holding size bytes dead) (received (x ∷ xs)) w)
            (λ b. handle_tcp_message e callbacks fd b (received (y ∷ ys))))
        ≡ map_run unread (
            handle_tcp_message e callbacks fd
              (holding size bytes dead)
              (received (x ∷ xs ++ y ∷ ys))
              w)
  handle_tcp_message-pieces bytes dead x y xs ys w total room =
      let first : Bytes = bytes ++ x ∷ xs in
      let sizes = length-append bytes (x ∷ xs) in
      unread-Agrees size _ _ (
        second-Agrees y ys first _ _
          (handle_tcp_message-Agrees e callbacks fd size bytes dead x xs w total (omega arith))
          (consume-shrinks e callbacks fd (length first) (length first) first w (omega arith))
          (omega arith))
      ∙ sym (
          consume-append e callbacks fd (length (first ++ y ∷ ys)) (length first)
            (length (first ++ y ∷ ys)) first (y ∷ ys) w (omega arith) (omega arith) (omega arith))
      ∙ ap (λ s. consume e callbacks fd (length s) s w) (append_assoc bytes (x ∷ xs) (y ∷ ys))
      ∙ sym (
          unread-Agrees size _ _ (
            handle_tcp_message-Agrees e callbacks fd size bytes dead x (xs ++ y ∷ ys) w total
              (omega (arith, length-append xs (y ∷ ys)))))
