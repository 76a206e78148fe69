-- ===== src/Prelude/Run.antt =====
-- Runs of C code: a result with the new state, an undefined behaviour or failed assertion, or a
-- call of `exit`; and the state monad over them.
use mathlib.Core.Path.{◌≡◌, refl, ap, ◌∙◌}
use mathlib.Core.Bool.{Bool, true, false}
use mathlib.Core.Option.{Option, none, some}
use ws25_np.Prelude.Tests.{if◌then◌else◌}

-- `fault` stands for what C leaves undefined (an access out of bounds, a NULL dereference) and
-- for a failed `assert`; `exited` for `exit(0)`.
pub data Run {ℓ} (W : Type ℓ) (A : Type ℓ) : Type ℓ where
  ok : A → W → Run W A
  fault : Run W A
  exited : W → Run W A

abbrev pub M : Type 0 → Type 0 → Type 0
M W A = W → Run W A

abbrev pub and_then : {W A B : Type 0} → Run W A → (A → M W B) → Run W B
and_then (ok a w) k = k a w
and_then fault k = fault
and_then (exited w) k = exited w

infixl 5 ◌>>=◌ ◌>>◌
abbrev pub ◌>>=◌ : {W A B : Type 0} → M W A → (A → M W B) → M W B
◌>>=◌ m k w = and_then (m w) k

abbrev pub ◌>>◌ : {W B : Type 0} → M W (Unit {0}) → M W B → M W B
m >> k = m >>= λ _. k

abbrev pub pure : {W A : Type 0} → A → M W A
pure a w = ok a w

abbrev pub skip : {W : Type 0} → M W (Unit {0})
skip w = ok tt w

abbrev pub undefined : {W A : Type 0} → M W A
undefined w = fault

abbrev pub get : {W : Type 0} → M W W
get w = ok w w

abbrev pub put : {W : Type 0} → W → M W (Unit {0})
put w' w = ok tt w'

abbrev pub modify : {W : Type 0} → (W → W) → M W (Unit {0})
modify f w = ok tt (f w)

abbrev pub exit : {W A : Type 0} → M W A
exit w = exited w

-- A memory access: `none` is an access out of bounds.
abbrev pub access : {W A : Type 0} → Option A → M W A
access (some a) w = ok a w
access none w = fault

-- A run that begins with an access in bounds.
pub access-step :
    {W A B : Type 0} (o : Option A) (k : A → M W B) (w : W) {a : A} {r : Run W B}
    → o ≡ some a
    → k a w ≡ r
    → and_then (access {W = W} o w) k ≡ r
access-step {W} o k w e h = ap (λ (o : Option _). and_then (access {W = W} o w) k) e ∙ h

-- A run that begins with a test.
pub else-step :
    {W A : Type 0} (b : Bool) (m k : M W A) (w : W) {r : Run W A}
    → b ≡ false
    → k w ≡ r
    → (if b then m else k) w ≡ r
else-step b m k w e h = ap (λ c. (if c then m else k) w) e ∙ h

pub then-step :
    {W A : Type 0} (b : Bool) (m k : M W A) (w : W) {r : Run W A}
    → b ≡ true
    → m w ≡ r
    → (if b then m else k) w ≡ r
then-step b m k w e h = ap (λ c. (if c then m else k) w) e ∙ h

-- The result of a run, if it has one, has the property.
abbrev pub Ends : {W A : Type 0} → (A → Type 0) → Run W A → Type 0
Ends P (ok a w) = P a
Ends P fault = Unit
Ends P (exited w) = Unit

pub Ends-and_then :
    {W A B : Type 0} (P : B → Type 0) (r : Run W A) (k : A → M W B)
    → ((a : A) (w : W) → Ends P (k a w))
    → Ends P (and_then r k)
Ends-and_then P (ok a w) k h = h a w
Ends-and_then P fault k h = tt
Ends-and_then P (exited w) k h = tt

-- A run that begins with a run that has a result.
pub run-step :
    {W A B : Type 0} (r : Run W A) (k : A → M W B) {a : A} {w : W} {r' : Run W B}
    → r ≡ ok a w
    → k a w ≡ r'
    → and_then r k ≡ r'
run-step r k e h = ap (λ r. and_then r k) e ∙ h

-- The run has no undefined behaviour, and ends in a state with `P`, or exits in one with `Q`.
abbrev pub Keeps : {W A : Type 0} → (W → Type 0) → (W → Type 0) → Run W A → Type 0
Keeps P Q (ok a w) = P w
Keeps P Q fault = ⊥
Keeps P Q (exited w) = Q w

pub Keeps-and_then :
    {W A B : Type 0} (P P' Q : W → Type 0) (r : Run W A) (k : A → M W B)
    → Keeps P Q r
    → ((a : A) (w : W) → P w → Keeps P' Q (k a w))
    → Keeps P' Q (and_then r k)
Keeps-and_then P P' Q (ok a w) k h next = next a w h
Keeps-and_then P P' Q fault k h next = h
Keeps-and_then P P' Q (exited w) k h next = h

pub Keeps-weaken :
    {W A : Type 0} (P P' Q : W → Type 0) (r : Run W A)
    → ((w : W) → P w → P' w)
    → Keeps P Q r
    → Keeps P' Q r
Keeps-weaken P P' Q (ok a w) weaker h = weaker w h
Keeps-weaken P P' Q fault weaker h = h
Keeps-weaken P P' Q (exited w) weaker h = h

-- The run has no undefined behaviour, and its result and state have `P`, or it exits in a state with `Q`.
abbrev pub Yields : {W A : Type 0} → (A → W → Type 0) → (W → Type 0) → Run W A → Type 0
Yields P Q (ok a w) = P a w
Yields P Q fault = ⊥
Yields P Q (exited w) = Q w

pub Yields-and_then :
    {W A B : Type 0} (P : A → W → Type 0) (P' : B → W → Type 0) (Q : W → Type 0) (r : Run W A)
    (k : A → M W B)
    → Yields P Q r
    → ((a : A) (w : W) → P a w → Yields P' Q (k a w))
    → Yields P' Q (and_then r k)
Yields-and_then P P' Q (ok a w) k h next = next a w h
Yields-and_then P P' Q fault k h next = h
Yields-and_then P P' Q (exited w) k h next = h

pub Yields-if :
    {W A : Type 0} (P : A → W → Type 0) (Q : W → Type 0) (b : Bool) (m k : M W A) (w : W)
    → (b ≡ true → Yields P Q (m w))
    → (b ≡ false → Yields P Q (k w))
    → Yields P Q ((if b then m else k) w)
Yields-if P Q true m k w yes' no' = yes' refl
Yields-if P Q false m k w yes' no' = no' refl

pub Yields-weaken :
    {W A : Type 0} (P : A → W → Type 0) (Q Q' : W → Type 0) (r : Run W A)
    → ((w : W) → Q w → Q' w)
    → Yields P Q r
    → Yields P Q' r
Yields-weaken P Q Q' (ok a w) weaker h = h
Yields-weaken P Q Q' fault weaker h = h
Yields-weaken P Q Q' (exited w) weaker h = weaker w h

-- A weaker postcondition and a weaker exit.
pub Yields-map :
    {W A : Type 0} (P P' : A → W → Type 0) (Q Q' : W → Type 0) (r : Run W A)
    → ((a : A) (w : W) → P a w → P' a w)
    → ((w : W) → Q w → Q' w)
    → Yields P Q r
    → Yields P' Q' r
Yields-map P P' Q Q' (ok a w) weaker weaker' h = weaker a w h
Yields-map P P' Q Q' fault weaker weaker' h = h
Yields-map P P' Q Q' (exited w) weaker weaker' h = weaker' w h
