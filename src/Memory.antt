-- ===== src/Memory.antt =====
-- Blocks of memory as C code sees them: bytes, 16- and 32-bit fields in the byte order of the
-- host, and the byte-order functions of <netinet/in.h>. Nothing here stands for code of src/.
pub mod Fields
use mathlib.Core.Option
use ws25_np.Prelude.{
  ℕ, zero, suc, ◌+◌, ◌*◌, ◌/◌, ◌%◌, Option, none, some, List, [], ◌∷◌, Bool, true, false, ◌==◌,
  if◌then◌else◌,
}

abbrev pub Bytes : Type 0
Bytes = List ℕ

-- The byte order of the host.
pub data Endian : Type 0 where
  little big : Endian

abbrev pub pick : Endian → ℕ → ℕ → ℕ
pick little a b = a
pick big a b = b

-- The bytes of a `uint16_t` and a `uint32_t` in memory.
abbrev pub bytes16 : Endian → ℕ → Bytes
bytes16 e v = pick e (v % 256) (v / 256 % 256) ∷ pick e (v / 256 % 256) (v % 256) ∷ []

abbrev pub bytes32 : Endian → ℕ → Bytes
bytes32 e v =
    pick e (v % 256) (v / 16777216 % 256)
    ∷ pick e (v / 256 % 256) (v / 65536 % 256)
    ∷ pick e (v / 65536 % 256) (v / 256 % 256)
    ∷ pick e (v / 16777216 % 256) (v % 256)
    ∷ []

-- Reads and writes at an offset: `none` out of bounds.
unfoldable pub read_at : Bytes → ℕ → ℕ → Option Bytes
read_at m zero zero = some []
read_at [] zero (suc n) = none
read_at (x ∷ m) zero (suc n) = Option.map (λ r. x ∷ r) (read_at m zero n)
read_at [] (suc o) n = none
read_at (x ∷ m) (suc o) n = read_at m o n

unfoldable pub write_at : Bytes → ℕ → Bytes → Option Bytes
write_at m zero [] = some m
write_at [] zero (b ∷ bs) = none
write_at (x ∷ m) zero (b ∷ bs) = Option.map (λ r. b ∷ r) (write_at m zero bs)
write_at [] (suc o) bs = none
write_at (x ∷ m) (suc o) bs = Option.map (λ r. x ∷ r) (write_at m o bs)

unfoldable pub value16 : Endian → Bytes → ℕ
value16 e (a ∷ b ∷ m) = pick e (a + 256 * b) (256 * a + b)
value16 e [] = 0
value16 e (a ∷ []) = 0

unfoldable pub value32 : Endian → Bytes → ℕ
value32 e (a ∷ b ∷ c ∷ d ∷ m) =
    pick e (a + 256 * b + 65536 * c + 16777216 * d) (16777216 * a + 65536 * b + 256 * c + d)
value32 e [] = 0
value32 e (a ∷ []) = 0
value32 e (a ∷ b ∷ []) = 0
value32 e (a ∷ b ∷ c ∷ []) = 0

unfoldable pub load16 : Endian → Bytes → ℕ → Option ℕ
unfolding value16 read_at
load16 e m o = Option.map (value16 e) (read_at m o 2)

unfoldable pub load32 : Endian → Bytes → ℕ → Option ℕ
unfolding value32 read_at
load32 e m o = Option.map (value32 e) (read_at m o 4)

unfoldable pub store16 : Endian → Bytes → ℕ → ℕ → Option Bytes
unfolding write_at
store16 e m o v = write_at m o (bytes16 e v)

unfoldable pub store32 : Endian → Bytes → ℕ → ℕ → Option Bytes
unfolding write_at
store32 e m o v = write_at m o (bytes32 e v)

-- `ntohs` and `htons` are one function, and so are `ntohl` and `htonl`.
unfoldable pub ntohs : Endian → ℕ → ℕ
ntohs e v = pick e (256 * (v % 256) + v / 256 % 256) v

unfoldable pub ntohl : Endian → ℕ → ℕ
ntohl e v =
    pick e
      (16777216 * (v % 256)
        + 65536 * (v / 256 % 256)
        + 256 * (v / 65536 % 256)
        + v / 16777216 % 256)
      v

-- `p->field = ntohs(p->field)`, which is also `p->field = htons(p->field)`.
unfoldable pub swap16 : Endian → Bytes → ℕ → Option Bytes
swap16 e m o = Option.bind (load16 e m o) (λ v. store16 e m o (ntohs e v))

unfoldable pub swap32 : Endian → Bytes → ℕ → Option Bytes
swap32 e m o = Option.bind (load32 e m o) (λ v. store32 e m o (ntohl e v))
