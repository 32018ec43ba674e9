-- ===== src/Common/Words.antt =====
-- `&`, `|` and `^` of words that are made of two parts.
use Prim.Native.Nat.{
  ℕ, zero, suc, ◌+◌, ◌-◌, ◌*◌, ◌/◌, ◌%◌, ◌^◌, ◌≤◌, ◌<◌, max, min, bit_and, bit_or, bit_xor, differ,
  bit_and-bitwise,
}
use mathlib.Core.Path.{◌≡◌, refl, sym, ◌∙◌, ap}
use mathlib.Core.Logic.{◌⊎◌, inl, inr}
use native.Mathlib.Omega.{arith}
use native.Mathlib.Nat.{pow-suc, one-le-pow}
use nikka.Common.Bits.{
  joined, joined_fuel, bit_or_comm, bit_or_step, bit_xor_step, zero-bit_or, zero-bit_xor,
}

-- The lowest digit of the result of an operation comes from those of its arguments.
abbrev pub Digitwise : (ℕ → ℕ → ℕ) → (ℕ → ℕ → ℕ) → Type 0
Digitwise op f = (a b : ℕ) → op a b ≡ op (a / 2) (b / 2) * 2 + f (a % 2) (b % 2)

pub bit_and_left_zero : (b : ℕ) → bit_and 0 b ≡ 0
bit_and_left_zero b = bit_and-bitwise 0 b

pub bit_and-Digitwise : Digitwise bit_and min
unfolding joined
bit_and-Digitwise zero b = omega (arith, bit_and_left_zero b, bit_and_left_zero (b / 2))
bit_and-Digitwise (suc a) b =
    let same =
      joined_fuel (λ y. zero) min a (suc a / 2) (suc a / 2) (b / 2) (omega arith) (omega arith) in
    bit_and-bitwise (suc a) b
    ∙ ap (λ d. d * 2 + min (suc a % 2) (b % 2)) (same ∙ sym (bit_and-bitwise (suc a / 2) (b / 2)))

-- An operation on the digits works on the upper and on the lower part of a word.
module _ (op f : ℕ → ℕ → ℕ) (zeros : op 0 0 ≡ 0)
    (step : (a b : ℕ) → op a b ≡ op (a / 2) (b / 2) * 2 + f (a % 2) (b % 2)) where
  split :
      (k a b c d : ℕ)
      → b < 2 ^ k
      → d < 2 ^ k
      → op (a * 2 ^ k + b) (c * 2 ^ k + d) ≡ op a c * 2 ^ k + op b d
  split zero a b c d p q =
      let eb : b ≡ 0 = omega arith in
      let ed : d ≡ 0 = omega arith in
      let ea : a * 1 + 0 ≡ a = omega arith in
      let ec : c * 1 + 0 ≡ c = omega arith in rw (eb, ed, ea, ec, zeros) (omega arith)
  split (suc k) a b c d p q =
      let ea : (a * 2 ^ suc k + b) / 2 ≡ a * 2 ^ k + b / 2 = rw (pow-suc 2 k) (omega arith) in
      let ec : (c * 2 ^ suc k + d) / 2 ≡ c * 2 ^ k + d / 2 = rw (pow-suc 2 k) (omega arith) in
      let ma : (a * 2 ^ suc k + b) % 2 ≡ b % 2 = rw (pow-suc 2 k) (omega arith) in
      let mc : (c * 2 ^ suc k + d) % 2 ≡ d % 2 = rw (pow-suc 2 k) (omega arith) in
      let lower =
        split k a (b / 2) c (d / 2) (omega (arith, pow-suc 2 k)) (omega (arith, pow-suc 2 k)) in
      step (a * 2 ^ suc k + b) (c * 2 ^ suc k + d)
      ∙ rw (ea, ec, ma, mc, lower, step b d, pow-suc 2 k) (omega arith)

pub bit_and-split :
    (k a b c d : ℕ)
    → b < 2 ^ k
    → d < 2 ^ k
    → bit_and (a * 2 ^ k + b) (c * 2 ^ k + d) ≡ bit_and a c * 2 ^ k + bit_and b d
bit_and-split = split bit_and min (bit_and_left_zero 0) bit_and-Digitwise

pub bit_or-split :
    (k a b c d : ℕ)
    → b < 2 ^ k
    → d < 2 ^ k
    → bit_or (a * 2 ^ k + b) (c * 2 ^ k + d) ≡ bit_or a c * 2 ^ k + bit_or b d
bit_or-split = split bit_or max (zero-bit_or 0) bit_or_step

pub bit_xor-split :
    (k a b c d : ℕ)
    → b < 2 ^ k
    → d < 2 ^ k
    → bit_xor (a * 2 ^ k + b) (c * 2 ^ k + d) ≡ bit_xor a c * 2 ^ k + bit_xor b d
bit_xor-split = split bit_xor differ (zero-bit_xor 0) bit_xor_step

pub bit_and-ones : (k a : ℕ) → a < 2 ^ k → bit_and a (2 ^ k - 1) ≡ a
bit_and-ones zero a h = let e : a ≡ 0 = omega arith in rw e (bit_and_left_zero 0)
bit_and-ones (suc k) a h =
    let e : (2 ^ suc k - 1) / 2 ≡ 2 ^ k - 1 = omega (arith, pow-suc 2 k, one-le-pow k 2) in
    let m : (2 ^ suc k - 1) % 2 ≡ 1 = omega (arith, pow-suc 2 k, one-le-pow k 2) in
    rw
      (
        bit_and-Digitwise a (2 ^ suc k - 1),
        e,
        m,
        bit_and-ones k (a / 2) (omega (arith, pow-suc 2 k)),
      )
      (omega arith)

-- With zero on the right, each digit of the other argument goes through `r`.
right_zero :
    (op f : ℕ → ℕ → ℕ) (r : ℕ → ℕ)
    → op 0 0 ≡ r 0
    → Digitwise op f
    → ((a : ℕ) → r a ≡ r (a / 2) * 2 + f (a % 2) 0)
    → (n a : ℕ) → a ≤ n
    → op a 0 ≡ r a
right_zero op f r e d k zero a h = let z : a ≡ 0 = omega arith in rw z e
right_zero op f r e d k (suc n) zero h = e
right_zero op f r e d k (suc n) (suc a) h =
    let rest = right_zero op f r e d k n (suc a / 2) (omega arith) in
    d (suc a) 0 ∙ rw rest (sym (k (suc a)))

no_digit : (a : ℕ) → 0 ≡ 0 * 2 + min (a % 2) 0
no_digit a = omega arith

pub bit_and-zero : (a : ℕ) → bit_and a 0 ≡ 0
bit_and-zero a =
    right_zero bit_and min (λ x. 0) (bit_and_left_zero 0) bit_and-Digitwise no_digit a a
      (omega arith)

pub Digit-cases : (a : ℕ) → (a % 2 ≡ 0) ⊎ (a % 2 ≡ 1)
Digit-cases a = omega arith

own_digit : (a : ℕ) → a ≡ a / 2 * 2 + differ (a % 2) 0
own_digit a = elim (Digit-cases a) [
  | inl e ↦ omega (arith, ap (λ d. differ d 0) e)
  | inr e ↦ omega (arith, ap (λ d. differ d 0) e)
]

pub bit_xor-zero : (a : ℕ) → bit_xor a 0 ≡ a
bit_xor-zero a =
    right_zero bit_xor differ (λ x. x) (zero-bit_xor 0) bit_xor_step own_digit a a (omega arith)

pub bit_or-nothing : (a : ℕ) → bit_or a 0 ≡ a
bit_or-nothing a = bit_or_comm a 0 ∙ zero-bit_or a

pub bit_and-one : (a : ℕ) → bit_and a 1 ≡ a % 2
bit_and-one a =
    let e : a ≡ a / 2 * 2 ^ 1 + a % 2 = omega arith in
    let s = bit_and-split 1 (a / 2) (a % 2) 0 1 (omega arith) (omega arith) in
    ap (λ b. bit_and b 1) e
    ∙ s
    ∙ rw (bit_and-zero (a / 2), bit_and-ones 1 (a % 2) (omega arith)) (omega arith)

pub bit_and-seven : (a : ℕ) → bit_and a 7 ≡ a % 8
bit_and-seven a =
    let e : a ≡ a / 8 * 2 ^ 3 + a % 8 = omega arith in
    let s = bit_and-split 3 (a / 8) (a % 8) 0 7 (omega arith) (omega arith) in
    ap (λ b. bit_and b 7) e
    ∙ s
    ∙ rw (bit_and-zero (a / 8), bit_and-ones 3 (a % 8) (omega arith)) (omega arith)

-- The digit at place 7.
pub bit_and-digit : (a : ℕ) → bit_and a (2 ^ 7) ≡ a / 2 ^ 7 % 2 * 2 ^ 7
bit_and-digit a =
    let e : a ≡ a / 2 ^ 7 * 2 ^ 7 + a % 2 ^ 7 = omega arith in
    let s = bit_and-split 7 (a / 2 ^ 7) (a % 2 ^ 7) 1 0 (omega arith) (omega arith) in
    ap (λ b. bit_and b (2 ^ 7)) e
    ∙ s
    ∙ rw (bit_and-one (a / 2 ^ 7), bit_and-zero (a % 2 ^ 7)) (omega arith)

pub bit_or-one : (a : ℕ) → bit_or a 1 ≡ a / 2 * 2 + 1
bit_or-one a = elim (Digit-cases a) [
  | inl e ↦ bit_or_step a 1 ∙ rw (e, bit_or-nothing (a / 2)) refl
  | inr e ↦ bit_or_step a 1 ∙ rw (e, bit_or-nothing (a / 2)) refl
]

pub bit_or-lt : (k a b : ℕ) → a < 2 ^ k → b < 2 ^ k → bit_or a b < 2 ^ k
bit_or-lt zero a b p q =
    let e : a ≡ 0 = omega arith in let f : b ≡ 0 = omega arith in rw (e, f) (omega arith)
bit_or-lt (suc k) a b p q =
    let rest =
      bit_or-lt k (a / 2) (b / 2) (omega (arith, pow-suc 2 k)) (omega (arith, pow-suc 2 k)) in
    omega (arith, bit_or_step a b, pow-suc 2 k)

-- Digits that neither number has.
pub bit_or-even : (a b : ℕ) → a % 2 ≡ 0 → b % 2 ≡ 0 → bit_or a b % 2 ≡ 0
bit_or-even a b p q = omega (arith, bit_or_step a b)

pub bit_or-half : (a b : ℕ) → bit_or a b / 2 ≡ bit_or (a / 2) (b / 2)
bit_or-half a b = omega (arith, bit_or_step a b)

pub bit_or-odd : (a b : ℕ) → b % 2 ≡ 1 → bit_or a b % 2 ≡ 1
bit_or-odd a b q = omega (arith, bit_or_step a b)

contains_fuel :
    (n x a b : ℕ)
    → a + b ≤ n
    → bit_and x (bit_or a b) ≡ bit_or a b
    → (bit_and x a ≡ a) × (bit_and x b ≡ b)
contains_fuel zero x a b h e =
    let p : a ≡ 0 = omega arith in
    let q : b ≡ 0 = omega arith in rw (p, q) (bit_and-zero x, bit_and-zero x)
contains_fuel (suc n) x a b h e =
    let s = bit_and-Digitwise x (bit_or a b) in
    let o = bit_or_step a b in
    let half : bit_or a b / 2 ≡ bit_or (a / 2) (b / 2) = omega arith in
    let low : bit_or a b % 2 ≡ max (a % 2) (b % 2) = omega arith in
    let s' : bit_and x (bit_or a b)
        ≡ bit_and (x / 2) (bit_or (a / 2) (b / 2)) * 2 + min (x % 2) (max (a % 2) (b % 2)) =
      s ∙ rw (half, low) refl in
    let (p, q) = contains_fuel n (x / 2) (a / 2) (b / 2) (omega arith) (omega arith) in
    (omega (arith, bit_and-Digitwise x a), omega (arith, bit_and-Digitwise x b))

-- What has all the digits of two words has those of each.
pub contains-bit_or :
    (x a b : ℕ) → bit_and x (bit_or a b) ≡ bit_or a b → (bit_and x a ≡ a) × (bit_and x b ≡ b)
contains-bit_or x a b e = contains_fuel (a + b) x a b (omega arith) e

pub bit_and-four : (a : ℕ) → bit_and a 4 ≡ a / 4 % 2 * 4
bit_and-four a =
    omega (arith, bit_and-Digitwise a 4, bit_and-Digitwise (a / 2) 2, bit_and-one (a / 2 / 2))
