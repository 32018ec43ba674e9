-- ===== src/Common/Effects.antt =====
-- Calls that may end in an error or a panic and that leave a state behind in any case.
use mathlib.Core.Path.{◌≡◌, refl}
use native.Mathlib.Omega.{arith}
use nikka.Common.Errors.{Outcome, ok, err, panic}

abbrev pub M : Type 0 → Type 0 → Type 0
M S X = S → S × Outcome X

abbrev pub continue : {S X Y : Type 0} → S × Outcome X → (X → M S Y) → S × Outcome Y
continue (s, ok x) f = f x s
continue (s, err e) f = (s, err e)
continue (s, panic) f = (s, panic)

infixl 5 ◌>>=◌ ◌>>◌
abbrev pub ◌>>=◌ : {S X Y : Type 0} → M S X → (X → M S Y) → M S Y
◌>>=◌ m f s = continue (m s) f

abbrev pub ◌>>◌ : {S Y : Type 0} → M S (Unit {0}) → M S Y → M S Y
m >> k = m >>= λ _. k

abbrev pub lift : {S X : Type 0} → Outcome X → M S X
lift r s = (s, r)

abbrev pub return : {S X : Type 0} → X → M S X
return x s = (s, ok x)

pub continue-ext :
    {S X Y : Type 0} (r : S × Outcome X) (f g : X → M S Y)
    → ((x : X) (s : S) → f x s ≡ g x s)
    → continue r f ≡ continue r g
continue-ext (s, ok x) f g h = h x s
continue-ext (s, err e) f g h = refl
continue-ext (s, panic) f g h = refl

pub continue_assoc :
    {S X Y Z : Type 0} (r : S × Outcome X) (f : X → M S Y) (g : Y → M S Z)
    → continue (continue r f) g ≡ continue r (λ x s. continue (f x s) g)
continue_assoc (s, ok x) f g = refl
continue_assoc (s, err e) f g = refl
continue_assoc (s, panic) f g = refl

pub continue-return : {S X : Type 0} (r : S × Outcome X) → continue r (λ x. return x) ≡ r
continue-return (s, ok x) = refl
continue-return (s, err e) = refl
continue-return (s, panic) = refl

-- What follows a call is compared only where the call succeeds.
pub continue-ext_ok :
    {S X Y : Type 0} (r : S × Outcome X) (f g : X → M S Y)
    → ((x : X) (s : S) → r ≡ (s, ok x) → f x s ≡ g x s)
    → continue r f ≡ continue r g
continue-ext_ok (s, ok x) f g h = h x s refl
continue-ext_ok (s, err e) f g h = refl
continue-ext_ok (s, panic) f g h = refl

-- A call that succeeds went on from one that did.
pub ok_of_continue :
    {S X Y : Type 0} (r : S × Outcome X) (f : X → M S Y) (t : S) (y : Y)
    → continue r f ≡ (t, ok y)
    → (x : X) × (s : S) × (r ≡ (s, ok x)) × (f x s ≡ (t, ok y))
ok_of_continue (s, ok x) f t y h = (x, s, refl, h)
ok_of_continue (s, err e) f t y h = ground arith
ok_of_continue (s, panic) f t y h = ground arith
