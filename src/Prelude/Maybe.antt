-- ===== src/Prelude/Maybe.antt =====
-- The `do` blocks of computations that may make an access out of bounds.
use mathlib.Core.Path.{◌≡◌, ap, ◌∙◌}
use mathlib.Core.Option.{Option, none, some}
use mathlib.Core.Bool.{Bool, true, false}
use ws25_np.Prelude.Tests.{some_inj, if◌then◌else◌}

infixl 5 ◌>>=◌
abbrev pub ◌>>=◌ : {A B : Type 0} → Option A → (A → Option B) → Option B
none >>= f = none
some a >>= f = f a

-- A computation that begins with an access in bounds.
pub step :
    {A B : Type 0} (m : Option A) (f : A → Option B) {a : A} {r : Option B}
    → m ≡ some a
    → f a ≡ r
    → (m >>= f) ≡ r
step none f e h = cc
step (some x) f {a} e h = ap f (some_inj x a e) ∙ h

-- A computation that begins with a test.
pub step-then :
    {A B : Type 0} (b : Bool) (m k : Option A) (f : A → Option B) {r : Option B}
    → b ≡ true
    → (m >>= f) ≡ r
    → ((if b then m else k) >>= f) ≡ r
step-then b m k f e h = ap (λ c. (if c then m else k) >>= f) e ∙ h

pub step-else :
    {A B : Type 0} (b : Bool) (m k : Option A) (f : A → Option B) {r : Option B}
    → b ≡ false
    → (k >>= f) ≡ r
    → ((if b then m else k) >>= f) ≡ r
step-else b m k f e h = ap (λ c. (if c then m else k) >>= f) e ∙ h

-- A computation that is a test.
pub then-case :
    {A : Type 0} (b : Bool) (m k : Option A) {r : Option A}
    → b ≡ true
    → m ≡ r
    → (if b then m else k) ≡ r
then-case b m k e h = ap (λ c. if c then m else k) e ∙ h

pub else-case :
    {A : Type 0} (b : Bool) (m k : Option A) {r : Option A}
    → b ≡ false
    → k ≡ r
    → (if b then m else k) ≡ r
else-case b m k e h = ap (λ c. if c then m else k) e ∙ h
