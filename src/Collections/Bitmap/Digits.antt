-- ===== src/Collections/Bitmap/Digits.antt =====
-- The digits of a word after one of them is set or cleared, and the first digit that is zero.
use Prim.Native.Nat.{bit_and, bit_or}
use native.Mathlib.Nat.{pow-suc, one-le-pow, mul_assoc}
use nikka.Common.{
  ℕ, zero, suc, ◌+◌, ◌-◌, ◌*◌, ◌/◌, ◌%◌, ◌^◌, ◌<◌, ◌≤◌, ◌≡◌, ◌≢◌, inl, inr, refl, sym, ◌∙◌, arith,
  min, max, not, ◌==◌, if◌then◌else◌, Bool-cases,
}
use nikka.Common.Bits.{bit_or_step, div_pow_suc, div_one}
use nikka.Common.Words.{bit_and-Digitwise, bit_and-one, bit_and_left_zero, Digit-cases}
use nikka.Collections.Bitmap.{trailing_ones}

abbrev pub digit : ℕ → ℕ → ℕ
digit x k = x / 2 ^ k % 2

pub digit-suc : (x k : ℕ) → digit x (suc k) ≡ digit (x / 2) k
digit-suc x k = rw (div_pow_suc k x) refl

pub digit_zero : (x : ℕ) → digit x 0 ≡ x % 2
digit_zero x = rw (div_one x) refl

pub digit-lt : (x k : ℕ) → digit x k < 2
digit-lt x k = omega arith

-- An operation on the digits, at each of them.
at_digit :
    (op f : ℕ → ℕ → ℕ)
    → ((a b : ℕ) → op a b ≡ op (a / 2) (b / 2) * 2 + f (a % 2) (b % 2))
    → ((a b : ℕ) → a < 2 → b < 2 → f a b < 2)
    → (k a b : ℕ) → digit (op a b) k ≡ f (digit a k) (digit b k)
at_digit op f step small zero a b =
    let lt = small (a % 2) (b % 2) (omega arith) (omega arith) in
    rw (digit_zero (op a b), digit_zero a, digit_zero b) (omega (arith, step a b))
at_digit op f step small (suc k) a b =
    let lt = small (a % 2) (b % 2) (omega arith) (omega arith) in
    let half : op a b / 2 ≡ op (a / 2) (b / 2) = omega (arith, step a b) in
    rw (digit-suc (op a b) k, digit-suc a k, digit-suc b k, half)
      (at_digit op f step small k (a / 2) (b / 2))

pub digit-bit_and : (k a b : ℕ) → digit (bit_and a b) k ≡ min (digit a k) (digit b k)
digit-bit_and = at_digit bit_and min bit_and-Digitwise (λ a b p q. omega arith)

pub digit-bit_or : (k a b : ℕ) → digit (bit_or a b) k ≡ max (digit a k) (digit b k)
digit-bit_or = at_digit bit_or max bit_or_step (λ a b p q. omega arith)

pub zero_digit : (k : ℕ) → digit 0 k ≡ 0
zero_digit k = omega arith

-- The word with the one digit `j`.
pub pow_digit : (j k : ℕ) → digit (2 ^ j) k ≡ (if j == k then 1 else 0)
pow_digit zero zero = refl
pow_digit zero (suc k) = rw (digit-suc 1 k) (ground (arith, zero_digit k))
pow_digit (suc j) zero = ground (arith, digit_zero (2 ^ suc j), pow-suc 2 j)
pow_digit (suc j) (suc k) =
    let half : 2 ^ suc j / 2 ≡ 2 ^ j = omega (arith, pow-suc 2 j) in
    rw (digit-suc (2 ^ suc j) k, half) (ground (arith, pow_digit j k))

ones_digit : (w k : ℕ) → k < w → digit (2 ^ w - 1) k ≡ 1
ones_digit zero k h = absurd (omega arith)
ones_digit (suc w) zero h = omega (arith, digit_zero (2 ^ suc w - 1), pow-suc 2 w, one-le-pow w 2)
ones_digit (suc w) (suc k) h =
    let half : (2 ^ suc w - 1) / 2 ≡ 2 ^ w - 1 = omega (arith, pow-suc 2 w, one-le-pow w 2) in
    rw (digit-suc (2 ^ suc w - 1) k, half) (ones_digit w k (omega arith))

pub pow-le : (j w : ℕ) → j < w → 2 ^ j + 1 ≤ 2 ^ w
pow-le j zero h = absurd (omega arith)
pow-le zero (suc w) h = omega (arith, pow-suc 2 w, one-le-pow w 2)
pow-le (suc j) (suc w) h = omega (arith, pow-suc 2 w, pow-suc 2 j, pow-le j w (omega arith))

-- The word with all digits but `j`.
pub mask_digit :
    (w j k : ℕ) → j < w → k < w → digit (2 ^ w - 1 - 2 ^ j) k ≡ (if j == k then 0 else 1)
mask_digit zero j k p q = absurd (omega arith)
mask_digit (suc w) zero zero p q =
    omega (arith, digit_zero (2 ^ suc w - 1 - 2 ^ 0), pow-suc 2 w, one-le-pow w 2)
mask_digit (suc w) zero (suc k) p q =
    let half : (2 ^ suc w - 1 - 2 ^ 0) / 2 ≡ 2 ^ w - 1 =
      omega (arith, pow-suc 2 w, one-le-pow w 2) in
    rw (digit-suc (2 ^ suc w - 1 - 2 ^ 0) k, half) (ground (arith, ones_digit w k (omega arith)))
mask_digit (suc w) (suc j) zero p q =
    let le = pow-le j w (omega arith) in
    let e : (2 ^ suc w - 1 - 2 ^ suc j) % 2 ≡ 1 = omega (arith, pow-suc 2 w, pow-suc 2 j) in
    ground (arith, digit_zero (2 ^ suc w - 1 - 2 ^ suc j), e)
mask_digit (suc w) (suc j) (suc k) p q =
    let le = pow-le j w (omega arith) in
    let half : (2 ^ suc w - 1 - 2 ^ suc j) / 2 ≡ 2 ^ w - 1 - 2 ^ j =
      omega (arith, pow-suc 2 w, pow-suc 2 j) in
    rw (digit-suc (2 ^ suc w - 1 - 2 ^ suc j) k, half)
      (ground (arith, mask_digit w j k (omega arith) (omega arith)))

pub bit_and-pow : (k word : ℕ) → bit_and word (2 ^ k) ≡ digit word k * 2 ^ k
bit_and-pow zero word = omega (arith, bit_and-one word, digit_zero word)
bit_and-pow (suc k) word =
    let half : 2 ^ suc k / 2 ≡ 2 ^ k = omega (arith, pow-suc 2 k) in
    let even : 2 ^ suc k % 2 ≡ 0 = omega (arith, pow-suc 2 k) in
    rw
      (
        bit_and-Digitwise word (2 ^ suc k),
        half,
        even,
        bit_and-pow k (word / 2),
        digit-suc word k,
        pow-suc 2 k,
      )
      (omega (arith, mul_assoc (digit (word / 2) k) (2 ^ k) 2))

-- `word & (1 << k) != 0`
pub tests_digit : (word k : ℕ) → not (bit_and word (2 ^ k) == 0) ≡ (digit word k == 1)
tests_digit word k = elim (Digit-cases (word / 2 ^ k)) [
  | inl z ↦ rw (bit_and-pow k word, z) (ground arith)
  | inr one ↦ rw (bit_and-pow k word, one) (ground (arith, one-le-pow k 2))
]

-- The first zero is at most at any zero.
pub trailing_ones-le : (w e k : ℕ) → k < w → digit e k ≡ 0 → trailing_ones w e ≤ k
unfolding trailing_ones
trailing_ones-le zero e k p h = absurd (omega arith)
trailing_ones-le (suc w) e zero p h = ground (arith, digit_zero e)
trailing_ones-le (suc w) e (suc k) p h = ground (arith, digit-suc e k, trailing_ones-le w (e / 2) k)

pub trailing_ones-zero : (w e k : ℕ) → k < w → digit e k ≡ 0 → digit e (trailing_ones w e) ≡ 0
unfolding trailing_ones
trailing_ones-zero zero e k p h = absurd (omega arith)
trailing_ones-zero (suc w) e zero p h =
    let even : e % 2 ≡ 0 = omega (arith, digit_zero e) in rw even h
trailing_ones-zero (suc w) e (suc k) p h = elim (Bool-cases (e % 2 == 0)) [
  | inl even ↦ rw even (ground (arith, digit_zero e))
  | inr odd ↦
      rw (odd, digit-suc e (trailing_ones w (e / 2)))
        (trailing_ones-zero w (e / 2) k (omega arith) (sym (digit-suc e k) ∙ h))
]

pub ones_lem : (w k : ℕ) → k < w → digit (2 ^ w - 1) k ≢ 0
ones_lem w k h e = omega (arith, ones_digit w k h)

pub bit_and-lt : (k a b : ℕ) → a < 2 ^ k → bit_and a b < 2 ^ k
bit_and-lt zero a b p = let e : a ≡ 0 = omega arith in rw (e, bit_and_left_zero b) (omega arith)
bit_and-lt (suc k) a b p =
    let rest = bit_and-lt k (a / 2) (b / 2) (omega (arith, pow-suc 2 k)) in
    omega (arith, bit_and-Digitwise a b, pow-suc 2 k)

-- A word that is not all ones has a zero.
pub zero_of_ne_ones : (w e : ℕ) → e < 2 ^ w → e ≢ 2 ^ w - 1 → (k : ℕ) × (k < w) × (digit e k ≡ 0)
zero_of_ne_ones zero e p q = absurd (q (omega arith))
zero_of_ne_ones (suc w) e p q = elim (Digit-cases e) [
  | inl even ↦ (0, omega arith, digit_zero e ∙ even)
  | inr odd ↦
      let (k, lt, z) =
        zero_of_ne_ones w (e / 2) (omega (arith, pow-suc 2 w))
          (λ o. q (omega (arith, pow-suc 2 w, one-le-pow w 2))) in
      (suc k, omega arith, digit-suc e k ∙ z)
]
