-- ===== src/Memory/Fields.antt =====
-- What the byte-order conversions of the fields of a struct do to its bytes.
use mathlib.Core.Option
use ws25_np.Prelude.{ℕ, ◌<◌, ◌^◌, ◌≡◌, refl, ap, ◌∙◌, some, [], ◌∷◌, ◌++◌, arith, length}
use ws25_np.Memory.{
  Bytes, Endian, little, big, bytes16, bytes32, read_at, write_at, value16, value32, load16, load32,
  store16, store32, ntohs, ntohl, swap16, swap32,
}

-- The value that a field of network byte order has on the host.
pub ntohs-value16 : (e : Endian) (v : ℕ) → v < 2 ^ 16 → ntohs e (value16 e (bytes16 big v)) ≡ v
unfolding ntohs value16
ntohs-value16 little v h = omega arith
ntohs-value16 big v h = omega arith

pub value16-bytes16 : (e : Endian) (v : ℕ) → v < 2 ^ 16 → value16 e (bytes16 e v) ≡ v
unfolding value16
value16-bytes16 little v h = omega arith
value16-bytes16 big v h = omega arith

pub value32-bytes32 : (e : Endian) (v : ℕ) → v < 2 ^ 32 → value32 e (bytes32 e v) ≡ v
unfolding value32
value32-bytes32 little v h = omega arith
value32-bytes32 big v h = omega arith

pub ntohl-value32 : (e : Endian) (v : ℕ) → v < 2 ^ 32 → ntohl e (value32 e (bytes32 big v)) ≡ v
unfolding ntohl value32
ntohl-value32 little v h = omega arith
ntohl-value32 big v h = omega arith

pub bytes16-ntohs : (e : Endian) (v : ℕ) → bytes16 e (ntohs e v) ≡ bytes16 big v
unfolding ntohs
bytes16-ntohs little v = ground arith
bytes16-ntohs big v = refl

pub bytes32-ntohl : (e : Endian) (v : ℕ) → bytes32 e (ntohl e v) ≡ bytes32 big v
unfolding ntohl
bytes32-ntohl little v = ground arith
bytes32-ntohl big v = refl

pub read_at_start : (bs s : Bytes) → read_at (bs ++ s) 0 (length bs) ≡ some bs
unfolding read_at
read_at_start [] [] = refl
read_at_start [] (x ∷ s) = refl
read_at_start (b ∷ bs) s = ap (Option.map (λ r. b ∷ r)) (read_at_start bs s)

-- A read of the part `bs` behind `p`.
pub read_at_part : (p bs s : Bytes) → read_at (p ++ (bs ++ s)) (length p) (length bs) ≡ some bs
unfolding read_at
read_at_part [] bs s = read_at_start bs s
read_at_part (x ∷ p) bs s = read_at_part p bs s

pub write_at_start :
    (bs old s : Bytes) → length old ≡ length bs → write_at (old ++ s) 0 bs ≡ some (bs ++ s)
unfolding write_at
write_at_start [] [] [] h = refl
write_at_start [] [] (x ∷ s) h = refl
write_at_start [] (x ∷ old) s h = absurd (omega arith)
write_at_start (b ∷ bs) [] s h = absurd (omega arith)
write_at_start (b ∷ bs) (x ∷ old) s h =
    ap (Option.map (λ r. b ∷ r)) (write_at_start bs old s (omega arith))

-- A write over the part `old` behind `p`.
pub write_at_part :
    (p bs old s : Bytes)
    → length old ≡ length bs
    → write_at (p ++ (old ++ s)) (length p) bs ≡ some (p ++ (bs ++ s))
unfolding write_at
write_at_part [] bs old s h = write_at_start bs old s h
write_at_part (x ∷ p) bs old s h = ap (Option.map (λ r. x ∷ r)) (write_at_part p bs old s h)

-- A store over any two bytes.
pub store16_over :
    (e : Endian) (p : Bytes) (a b : ℕ) (s : Bytes) (v : ℕ)
    → store16 e (p ++ (a ∷ b ∷ s)) (length p) v ≡ some (p ++ (bytes16 e v ++ s))
unfolding store16
store16_over e p a b s v = write_at_part p (bytes16 e v) (a ∷ b ∷ []) s refl

module _ (e : Endian) (p : Bytes) (v : ℕ) (s : Bytes) where
  pub load16_host : v < 2 ^ 16 → load16 e (p ++ (bytes16 e v ++ s)) (length p) ≡ some v
  unfolding load16
  load16_host h =
      ap (Option.map (value16 e)) (read_at_part p (bytes16 e v) s) ∙ ap some (value16-bytes16 e v h)

  pub load32_host : v < 2 ^ 32 → load32 e (p ++ (bytes32 e v ++ s)) (length p) ≡ some v
  unfolding load32
  load32_host h =
      ap (Option.map (value32 e)) (read_at_part p (bytes32 e v) s) ∙ ap some (value32-bytes32 e v h)

  pub load16_big :
      load16 e (p ++ (bytes16 big v ++ s)) (length p) ≡ some (value16 e (bytes16 big v))
  unfolding load16
  load16_big = ap (Option.map (value16 e)) (read_at_part p (bytes16 big v) s)

  pub store16_part :
      (o : Endian) (new : ℕ)
      → store16 e (p ++ (bytes16 o v ++ s)) (length p) new ≡ some (p ++ (bytes16 e new ++ s))
  unfolding store16
  store16_part o new = write_at_part p (bytes16 e new) (bytes16 o v) s refl

  load32_big : load32 e (p ++ (bytes32 big v ++ s)) (length p) ≡ some (value32 e (bytes32 big v))
  unfolding load32
  load32_big = ap (Option.map (value32 e)) (read_at_part p (bytes32 big v) s)

  pub store32_part :
      (o : Endian) (new : ℕ)
      → store32 e (p ++ (bytes32 o v ++ s)) (length p) new ≡ some (p ++ (bytes32 e new ++ s))
  unfolding store32
  store32_part o new = write_at_part p (bytes32 e new) (bytes32 o v) s refl

  -- `msg->field = ntohs(msg->field)` on a field of network byte order.
  pub swap16_in :
      v < 2 ^ 16 → swap16 e (p ++ (bytes16 big v ++ s)) (length p) ≡ some (p ++ (bytes16 e v ++ s))
  unfolding swap16 Option.bind
  swap16_in h =
      ap (λ o. Option.bind o (λ w. store16 e (p ++ (bytes16 big v ++ s)) (length p) (ntohs e w)))
        load16_big
      ∙ ap (store16 e (p ++ (bytes16 big v ++ s)) (length p)) (ntohs-value16 e v h)
      ∙ store16_part big v

  -- The same on a field of the host's byte order.
  pub swap16_out :
      v < 2 ^ 16 → swap16 e (p ++ (bytes16 e v ++ s)) (length p) ≡ some (p ++ (bytes16 big v ++ s))
  unfolding swap16 Option.bind
  swap16_out h =
      ap (λ o. Option.bind o (λ w. store16 e (p ++ (bytes16 e v ++ s)) (length p) (ntohs e w)))
        (load16_host h)
      ∙ store16_part e (ntohs e v)
      ∙ ap (λ b. some (p ++ (b ++ s))) (bytes16-ntohs e v)

  -- `msg->field = ntohl(msg->field)` on a field of network byte order.
  pub swap32_in :
      v < 2 ^ 32 → swap32 e (p ++ (bytes32 big v ++ s)) (length p) ≡ some (p ++ (bytes32 e v ++ s))
  unfolding swap32 Option.bind
  swap32_in h =
      ap (λ o. Option.bind o (λ w. store32 e (p ++ (bytes32 big v ++ s)) (length p) (ntohl e w)))
        load32_big
      ∙ ap (store32 e (p ++ (bytes32 big v ++ s)) (length p)) (ntohl-value32 e v h)
      ∙ store32_part big v

  -- The same on a field of the host's byte order.
  pub swap32_out :
      v < 2 ^ 32 → swap32 e (p ++ (bytes32 e v ++ s)) (length p) ≡ some (p ++ (bytes32 big v ++ s))
  unfolding swap32 Option.bind
  swap32_out h =
      ap (λ o. Option.bind o (λ w. store32 e (p ++ (bytes32 e v ++ s)) (length p) (ntohl e w)))
        (load32_host h)
      ∙ store32_part e (ntohl e v)
      ∙ ap (λ b. some (p ++ (b ++ s))) (bytes32-ntohl e v)
