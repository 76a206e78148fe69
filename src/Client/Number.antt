-- ===== src/Client/Number.antt =====
-- `atoi(stdin_buffer)` in client.c: the number that a text begins with, and a buffer that ends in a NUL.
use mathlib.Core.List.{append_assoc}
use mathlib.Core.Option
use ws25_np.Prelude.{
  ℕ, zero, suc, ◌+◌, ◌-◌, ◌*◌, ◌^◌, ◌≤◌, ◌<◌, ◌≡◌, refl, ap, sym, ◌∙◌, inl, inr, true, some, [],
  ◌∷◌, ◌++◌, ◌==◌, if◌then◌else◌, arith, length, drop, take_all, Bool-cases,
}
use ws25_np.Prelude.Int.{ℤ, pos, pos_part, neg_part, sub_ℕ}
use ws25_np.Memory.{Bytes}
use ws25_np.Client.{is_space, is_digit, digits, signed_digits, scan, in_int, atoi, read_into}

-- The number of which the leading digits are the last ones.
pub natural : ℕ → Bytes → ℕ
natural acc [] = acc
natural acc (c ∷ cs) =
    let more = natural (10 * acc + (c - b'0')) cs in if is_digit c then more else acc

pub signed : Bytes → ℤ
unfolding natural
signed [] = pos 0
signed (c ∷ cs) =
    if c == b'-'
    then sub_ℕ 0 (natural 0 cs)
    else if c == b'+'
    then pos (natural 0 cs)
    else pos (natural 0 (c ∷ cs))

-- The number that a text begins with, however large, behind white space and a sign; 0 if there is none.
unfoldable pub number : Bytes → ℤ
unfolding signed
number [] = pos 0
number (c ∷ cs) = let rest = number cs in if is_space c then rest else signed (c ∷ cs)

-- An `int` holds it.
abbrev pub InInt : ℤ → Type 0
InInt v = (pos_part v < 2 ^ 31) × (neg_part v ≤ 2 ^ 31)

-- A buffer whose last byte is a NUL.
abbrev pub IsTerminated : Bytes → Type 0
IsTerminated buffer = (front : Bytes) × (buffer ≡ front ++ (0 ∷ []))

digits-natural :
    (front : Bytes) (acc : ℕ)
    → digits acc (front ++ (0 ∷ [])) ≡ some (natural acc (front ++ (0 ∷ [])))
unfolding digits natural
digits-natural [] acc = refl
digits-natural (c ∷ front) acc = elim (Bool-cases (is_digit c)) [
  | inl d ↦ rw d (digits-natural front (10 * acc + (c - b'0')))
  | inr d ↦ rw d refl
]

signed_digits-signed :
    (c : ℕ) (front : Bytes)
    → signed_digits (c ∷ (front ++ (0 ∷ []))) ≡ some (signed (c ∷ (front ++ (0 ∷ []))))
unfolding signed_digits signed
signed_digits-signed c front = elim (Bool-cases (c == b'-')) [
  | inl minus ↦ rw minus (ap (Option.map (sub_ℕ 0)) (digits-natural front 0))
  | inr unsigned ↦ elim (Bool-cases (c == b'+')) [
    | inl plus ↦ rw (unsigned, plus) (ap (Option.map pos) (digits-natural front 0))
    | inr digit ↦ rw (unsigned, digit) (ap (Option.map pos) (digits-natural (c ∷ front) 0))
  ]
]

scan-number : (front : Bytes) → scan (front ++ (0 ∷ [])) ≡ some (number (front ++ (0 ∷ [])))
unfolding scan number signed_digits signed digits natural
scan-number [] = refl
scan-number (c ∷ front) = elim (Bool-cases (is_space c)) [
  | inl blank ↦ rw blank (scan-number front)
  | inr text ↦ rw text (signed_digits-signed c front)
]

-- On a buffer that ends in a NUL, `atoi` reads a number that an `int` holds.
pub atoi-number :
    (buffer : Bytes)
    → IsTerminated buffer
    → InInt (number buffer)
    → atoi buffer ≡ some (number buffer)
unfolding atoi
atoi-number buffer (front, e) fits =
    let read : scan buffer ≡ some (number buffer) = rw e (scan-number front) in
    let small : in_int (number buffer) ≡ true = ground (arith, fits) in
    rw (atoi, read) (rw small refl)

drop-append :
    (k : ℕ) (front back : Bytes) → k ≤ length front → drop k (front ++ back) ≡ drop k front ++ back
drop-append zero front back h = refl
drop-append (suc k) [] back h = absurd (omega arith)
drop-append (suc k) (c ∷ front) back h = drop-append k front back (omega arith)

length-append_terminator : (front : Bytes) → length (front ++ (0 ∷ [])) ≡ suc (length front)
length-append_terminator [] = refl
length-append_terminator (c ∷ front) = ap suc (length-append_terminator front)

-- A read of fewer bytes than the buffer has leaves the last one.
pub read_into-IsTerminated :
    (available buffer : Bytes)
    → IsTerminated buffer
    → length available < length buffer
    → IsTerminated (read_into available buffer)
read_into-IsTerminated available buffer (front, e) short =
    let size : length buffer ≡ suc (length front) = ap length e ∙ length-append_terminator front in
    (
      available ++ drop (length available) front,
      rw (take_all (length buffer) available (omega arith)) (
          ap (λ b. available ++ drop (length available) b) e
          ∙ ap (λ b. available ++ b)
              (drop-append (length available) front (0 ∷ []) (omega (arith, size)))
          ∙ sym (append_assoc available (drop (length available) front) (0 ∷ []))),
    )
