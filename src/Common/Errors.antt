-- ===== src/Common/Errors.antt =====
-- ku/src/error/mod.rs, and what a call of the kernel can end in: a value, an error or a panic.
use Prim.Native.Nat.{ℕ, ◌+◌, ◌-◌, ◌*◌, ◌^◌}
use Prim.Native.String.{String}
use mathlib.Core.Path.{◌≡◌, refl, ap}
use native.Mathlib.Omega.{arith}
use mathlib.Core.Bool.{Bool, true, false}
use mathlib.Core.Option.{Option, none, some}
use nikka.Common.Tests.{ltb, leb, if◌then◌else◌}

-- `enum Error`. The payloads that come from other crates are left out.
pub data Error : Type 0 where
  elf : String → Error
  file_exists file_not_found fmt int invalid_alignment invalid_argument medium : Error
  no_data no_disk no_frame no_page no_process no_process_slot : Error
  not_directory not_file null overflow permission_denied : Error
  pipe : ℕ → ℕ → ℕ → Error
  postcard timeout unimplemented : Error

-- `Result`, with a panic as a third way to end.
pub data Outcome {ℓ} (A : Type ℓ) : Type ℓ where
  ok : A → Outcome A
  err : Error → Outcome A
  panic : Outcome A

infixl 5 ◌>>=◌ ◌>>◌
abbrev pub ◌>>=◌ {ℓ κ} : {A : Type ℓ} {B : Type κ} → Outcome A → (A → Outcome B) → Outcome B
ok a >>= f = f a
err e >>= f = err e
panic >>= f = panic

abbrev pub ◌>>◌ {ℓ} : {B : Type ℓ} → Outcome (Unit {0}) → Outcome B → Outcome B
m >> k = m >>= λ _. k

-- `assert!`
abbrev pub assert : Bool → Outcome (Unit {0})
assert true = ok tt
assert false = panic

-- `.unwrap()` and `.expect()`: an error becomes a panic.
abbrev pub unwrap {ℓ} : {A : Type ℓ} → Outcome A → Outcome A
unwrap (ok a) = ok a
unwrap (err e) = panic
unwrap panic = panic

-- `Option::ok_or`
abbrev pub ok_or {ℓ} : {A : Type ℓ} → Option A → Error → Outcome A
ok_or (some a) e = ok a
ok_or none e = err e

-- `Result::ok`, where the call cannot panic.
abbrev pub to_option {ℓ} : {A : Type ℓ} → Outcome A → Outcome (Option A)
to_option (ok a) = ok (some a)
to_option (err e) = ok none
to_option panic = panic

abbrev pub usize_mod : ℕ
usize_mod = 2 ^ 64

abbrev pub checked_add : ℕ → ℕ → Option ℕ
checked_add a b = if ltb (a + b) usize_mod then some (a + b) else none

abbrev pub checked_sub : ℕ → ℕ → Option ℕ
checked_sub a b = if leb b a then some (a - b) else none

abbrev pub checked_mul : ℕ → ℕ → Option ℕ
checked_mul a b = if ltb (a * b) usize_mod then some (a * b) else none

-- `+`, `-` and `*` of `usize` panic on overflow.
abbrev pub or_panic {ℓ} : {A : Type ℓ} → Option A → Outcome A
or_panic (some a) = ok a
or_panic none = panic

abbrev pub add_usize : ℕ → ℕ → Outcome ℕ
add_usize a b = or_panic (checked_add a b)

abbrev pub sub_usize : ℕ → ℕ → Outcome ℕ
sub_usize a b = or_panic (checked_sub a b)

abbrev pub mul_usize : ℕ → ℕ → Outcome ℕ
mul_usize a b = or_panic (checked_mul a b)

-- What comes before a result is a result.
pub ok_of_bind :
    {A B : Type 0} (before : Outcome A) (rest : A → Outcome B) (z : B)
    → before >>= rest ≡ ok z
    → (x : A) × (before ≡ ok x) × (rest x ≡ ok z)
ok_of_bind (ok x) rest z e = (x, refl, e)
ok_of_bind (err reason) rest z e = ground arith
ok_of_bind panic rest z e = ground arith

pub ok-injective : {A : Type 0} (a b : A) → ok a ≡ ok b → a ≡ b
ok-injective a b h = ap (λ m. elim m [ ok c ↦ c | _ ↦ a ]) h
