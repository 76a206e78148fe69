-- ===== src/Protocol/Fields.antt =====
-- Any bytes as fields of network byte order.
use ws25_np.Prelude.{
  ℕ, ◌+◌, ◌*◌, ◌/◌, ◌%◌, ◌≤◌, ◌<◌, ◌^◌, ◌≡◌, refl, [], ◌∷◌, ◌++◌, All, arith, length,
}
use ws25_np.Memory.{Bytes, big, bytes16, bytes32}

-- Numbers that a byte holds.
abbrev pub IsByte : ℕ → Type 0
IsByte n = n < 256

abbrev pub AreBytes : Bytes → Type 0
AreBytes = All IsByte

-- What a field of `size` bytes in front of some bytes holds.
abbrev pub Field : (ℕ → Bytes) → ℕ → Bytes → Type 0
Field encode limit xs =
    (v : ℕ) × (rest : Bytes) × (v < limit) × (xs ≡ encode v ++ rest) × AreBytes rest

pub field16 : (xs : Bytes) → AreBytes xs → 2 ≤ length xs → Field (bytes16 big) (2 ^ 16) xs
field16 [] h n = absurd (omega arith)
field16 (a ∷ []) h n = absurd (omega arith)
field16 (a ∷ b ∷ rest) (ha, (hb, h)) n =
    let high : a ≡ (256 * a + b) / 256 % 256 = omega arith in
    let low : b ≡ (256 * a + b) % 256 = omega arith in
    (256 * a + b, rest, omega arith, λ i. high i ∷ low i ∷ rest, h)

pub field32 : (xs : Bytes) → AreBytes xs → 4 ≤ length xs → Field (bytes32 big) (2 ^ 32) xs
field32 [] h n = absurd (omega arith)
field32 (a ∷ []) h n = absurd (omega arith)
field32 (a ∷ b ∷ []) h n = absurd (omega arith)
field32 (a ∷ b ∷ c ∷ []) h n = absurd (omega arith)
field32 (a ∷ b ∷ c ∷ d ∷ rest) (ha, (hb, (hc, (hd, h)))) n =
    let v = 16777216 * a + 65536 * b + 256 * c + d in
    let first : a ≡ v / 16777216 % 256 = omega arith in
    let second : b ≡ v / 65536 % 256 = omega arith in
    let third : c ≡ v / 256 % 256 = omega arith in
    let fourth : d ≡ v % 256 = omega arith in
    (v, rest, omega arith, λ i. first i ∷ second i ∷ third i ∷ fourth i ∷ rest, h)

pub nil_of_length : (xs : Bytes) → length xs ≡ 0 → xs ≡ []
nil_of_length [] h = refl
nil_of_length (x ∷ xs) h = absurd (omega arith)
