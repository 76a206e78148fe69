-- ===== src/Protocol/Stream.antt =====
-- A TCP stream as a sequence of messages: the specification of the loop of `handle_tcp_message`.
use mathlib.Core.Path.{subst}
use ws25_np.Prelude.{
  ℕ, zero, suc, ◌+◌, ◌-◌, ◌≤◌, ◌≡◌, refl, ap, sym, ◌∙◌, inl, inr, Option, none, some, [], ◌∷◌, ◌++◌,
  leb, length, take, drop, if◌then◌else◌, arith, length-append, Option-cases, length-drop,
  take-append_le, drop-append_le,
}
use ws25_np.Prelude.Int.{ℤ}
use ws25_np.Prelude.Run.{M, Run, ok, fault, exited, and_then, ◌>>◌, pure, Ends, Ends-and_then}
use ws25_np.System.{World}
use ws25_np.Memory.{Bytes, Endian, bytes16, value16, ntohs}
use ws25_np.Wire.{padded_message_size}
use ws25_np.Wire.Packet.{padded_message_size_lem}
use ws25_np.Protocol.{Callbacks, handle_incoming_message}

-- A header field of network byte order.
abbrev pub net16 : Endian → ℕ → ℕ → ℕ
net16 e a b = ntohs e (value16 e (a ∷ b ∷ []))

-- The first message of a stream, its header converted, and what lies behind its padding; `none` if
-- it has not arrived as a whole.
unfoldable pub parse : Endian → Bytes → Option (Bytes × Bytes)
parse e (t₁ ∷ t₀ ∷ l₁ ∷ l₀ ∷ rest) =
    let len = net16 e l₁ l₀ in
    let size = padded_message_size (4 + len) in
    if leb size (4 + length rest)
    then some (bytes16 e (net16 e t₁ t₀) ++ (bytes16 e len ++ take len rest), drop (size - 4) rest)
    else none
parse e [] = none
parse e (a ∷ []) = none
parse e (a ∷ b ∷ []) = none
parse e (a ∷ b ∷ c ∷ []) = none

module _ {S : Type 0} (e : Endian) (callbacks : Callbacks S) (fd : ℤ) where
  abbrev pub next : Option (Bytes × Bytes) → Bytes → (Bytes → M (World S) Bytes) → M (World S) Bytes
  next none stream continue = pure stream
  next (some (msg, rest)) stream continue =
      handle_incoming_message e callbacks msg fd >> continue rest

  -- Handles the messages of a stream in order; the result is what is left of it.
  unfoldable pub consume : ℕ → Bytes → M (World S) Bytes
  unfolding parse
  consume zero stream = pure stream
  consume (suc n) stream = next (parse e stream) stream (consume n)

abbrev ParsesTo : Endian → Bytes → Bytes → Bytes → Type 0
ParsesTo e stream msg rest = parse e stream ≡ some (msg, rest)

-- A message takes four bytes or more.
pub parse-shrinks :
    (e : Endian) (stream : Bytes) {msg rest : Bytes}
    → parse e stream ≡ some (msg, rest)
    → length rest + 4 ≤ length stream
unfolding parse
parse-shrinks e (t₁ ∷ t₀ ∷ l₁ ∷ l₀ ∷ tail) {msg} {rest} h =
    let size = padded_message_size (4 + net16 e l₁ l₀) in
    ground (arith, padded_message_size_lem (4 + net16 e l₁ l₀), length-drop (size - 4) tail)
parse-shrinks e [] h = cc
parse-shrinks e (a ∷ []) h = cc
parse-shrinks e (a ∷ b ∷ []) h = cc
parse-shrinks e (a ∷ b ∷ c ∷ []) h = cc

-- What follows a message does not change it.
pub parse-append :
    (e : Endian) (stream more : Bytes) {msg rest : Bytes}
    → parse e stream ≡ some (msg, rest)
    → parse e (stream ++ more) ≡ some (msg, rest ++ more)
unfolding parse
parse-append e (t₁ ∷ t₀ ∷ l₁ ∷ l₀ ∷ tail) more {msg} {rest} h =
    let len = net16 e l₁ l₀ in
    let size = padded_message_size (4 + len) in
    ground (
      arith,
      take-append_le len tail more,
      drop-append_le (size - 4) tail more,
      length-append tail more,
      padded_message_size_lem (4 + len),
    )
parse-append e [] more h = cc
parse-append e (a ∷ []) more h = cc
parse-append e (a ∷ b ∷ []) more h = cc
parse-append e (a ∷ b ∷ c ∷ []) more h = cc

parse-none_of_empty : (e : Endian) (stream : Bytes) → length stream ≤ 0 → parse e stream ≡ none
parse-none_of_empty e stream h = elim (Option-cases (parse e stream)) [
  | inl stop ↦ stop
  | inr ((msg, rest), found) ↦ let shorter = parse-shrinks e stream found in absurd (omega arith)
]

module _ {S : Type 0} (e : Endian) (callbacks : Callbacks S) (fd : ℤ) where
  pub consume-none :
      (n : ℕ) (stream : Bytes) (w : World S)
      → parse e stream ≡ none
      → consume e callbacks fd n stream w ≡ ok stream w
  unfolding consume
  consume-none zero stream w h = refl
  consume-none (suc n) stream w h =
      ap (λ o. next e callbacks fd o stream (consume e callbacks fd n) w) h

  pub consume-some :
      (n : ℕ) (stream : Bytes) (w : World S) {msg rest : Bytes}
      → parse e stream ≡ some (msg, rest)
      → consume e callbacks fd (suc n) stream w
        ≡ and_then
            (handle_incoming_message e callbacks msg fd w)
            (λ _. consume e callbacks fd n rest)
  unfolding consume
  consume-some n stream w h = ap (λ o. next e callbacks fd o stream (consume e callbacks fd n) w) h

  -- Two runs that begin with the same run are equal if they go on equally.
  and_then-eq :
      {A B : Type 0} (r : Run (World S) A) {f g : A → M (World S) B}
      → ((a : A) (w : World S) → f a w ≡ g a w)
      → and_then r f ≡ and_then r g
  and_then-eq (ok a w) h = h a w
  and_then-eq fault h = refl
  and_then-eq (exited w) h = refl

  and_then_assoc :
      {A B C : Type 0} (r : Run (World S) A) (f : A → M (World S) B) (g : B → M (World S) C)
      → and_then (and_then r f) g ≡ and_then r (λ a w. and_then (f a w) g)
  and_then_assoc (ok a w) f g = refl
  and_then_assoc fault f g = refl
  and_then_assoc (exited w) f g = refl

  -- What is left of a stream is no longer than the stream.
  pub consume-shrinks :
      (n bound : ℕ) (stream : Bytes) (w : World S)
      → length stream ≤ bound
      → Ends (λ rest. length rest ≤ bound) (consume e callbacks fd n stream w)
  unfolding consume
  consume-shrinks zero bound stream w h = h
  consume-shrinks (suc n) bound stream w h = elim (Option-cases (parse e stream)) [
    | inl stop ↦ subst (Ends _) (sym (consume-none (suc n) stream w stop)) h
    | inr ((msg, rest), found) ↦
        let shorter = parse-shrinks e stream found in
        subst (Ends _) (sym (consume-some n stream w found)) (
          Ends-and_then _ (handle_incoming_message e callbacks msg fd w) _
            λ _ w'. consume-shrinks n bound rest w' (omega arith))
  ]

  -- As many rounds as the stream has bytes are enough: more make no difference.
  pub consume_enough :
      (n k : ℕ) (stream : Bytes) (w : World S)
      → length stream ≤ n
      → length stream ≤ k
      → consume e callbacks fd n stream w ≡ consume e callbacks fd k stream w
  consume_enough zero k stream w hn hk =
      let stop = parse-none_of_empty e stream hn in
      consume-none 0 stream w stop ∙ sym (consume-none k stream w stop)
  consume_enough (suc n) zero stream w hn hk =
      let stop = parse-none_of_empty e stream hk in
      consume-none (suc n) stream w stop ∙ sym (consume-none 0 stream w stop)
  consume_enough (suc n) (suc k) stream w hn hk = elim (Option-cases (parse e stream)) [
    | inl stop ↦ consume-none (suc n) stream w stop ∙ sym (consume-none (suc k) stream w stop)
    | inr ((msg, rest), found) ↦
        let shorter = parse-shrinks e stream found in
        consume-some n stream w found
        ∙ and_then-eq _ (λ _ w'. consume_enough n k rest w' (omega arith) (omega arith))
        ∙ sym (consume-some k stream w found)
  ]

  -- Reading on behind a first part of the stream is reading the whole of it.
  pub consume-append :
      (n m k : ℕ) (xs ys : Bytes) (w : World S)
      → length (xs ++ ys) ≤ n
      → length xs ≤ m
      → length (xs ++ ys) ≤ k
      → consume e callbacks fd n (xs ++ ys) w
        ≡ and_then (consume e callbacks fd m xs w) (λ rest. consume e callbacks fd k (rest ++ ys))
  consume-append n zero k xs ys w hn hm hk =
      consume_enough n k (xs ++ ys) w hn hk
      ∙ ap (λ r. and_then r (λ rest. consume e callbacks fd k (rest ++ ys)))
          (sym (consume-none 0 xs w (parse-none_of_empty e xs hm)))
  consume-append zero (suc m) k xs ys w hn hm hk =
      let empty : length xs ≤ 0 = omega (arith, length-append xs ys) in
      consume_enough 0 k (xs ++ ys) w hn hk
      ∙ ap (λ r. and_then r (λ rest. consume e callbacks fd k (rest ++ ys)))
          (sym (consume-none (suc m) xs w (parse-none_of_empty e xs empty)))
  consume-append (suc n) (suc m) k xs ys w hn hm hk = elim (Option-cases (parse e xs)) [
    | inl stop ↦
        consume_enough (suc n) k (xs ++ ys) w hn hk
        ∙ ap (λ r. and_then r (λ rest. consume e callbacks fd k (rest ++ ys)))
            (sym (consume-none (suc m) xs w stop))
    | inr ((msg, rest), found) ↦
        let shorter = parse-shrinks e xs found in
        let total = length-append xs ys in
        let total' = length-append rest ys in
        consume-some n (xs ++ ys) w (parse-append e xs ys found)
        ∙ and_then-eq _
            (λ _ w'. consume-append n m k rest ys w' (omega arith) (omega arith) (omega arith))
        ∙ sym (
            and_then_assoc (handle_incoming_message e callbacks msg fd w)
              (λ _. consume e callbacks fd m rest) _)
        ∙ ap (λ r. and_then r (λ rest. consume e callbacks fd k (rest ++ ys)))
            (sym (consume-some m xs w found))
  ]
