-- ===== src/Common/Bits.antt =====
-- Bits of machine words: counts of leading bits, `^`, `|` and shifts, read as arithmetic.
use Prim.Native.Nat.{
  ℕ, zero, suc, ◌+◌, ◌-◌, ◌*◌, ◌/◌, ◌%◌, ◌^◌, ◌≤◌, ◌<◌, max, bit_or, bit_xor, digits, differ,
  bit_or-bitwise, bit_xor-bitwise,
}
use mathlib.Core.Path.{◌≡◌, refl, sym, ◌∙◌, ap, subst}
use mathlib.Core.Logic.{◌↔◌}
use native.Mathlib.Omega.{arith}
use native.Mathlib.Nat.{pow-suc, pow-succ', one-le-pow, div-div-eq-div-mul}
use nikka.Common.Tests.{◌==◌, if◌then◌else◌}

-- The number of binary digits of a number of at most `fuel` digits.
unfoldable pub bit_length : ℕ → ℕ → ℕ
bit_length zero x = 0
bit_length (suc fuel) x = let rest = bit_length fuel (x / 2) in if x == 0 then 0 else suc rest

-- `u64::leading_zeros` and `u64::leading_ones`
unfoldable pub leading_zeros : ℕ → ℕ
unfolding bit_length
leading_zeros x = 64 - bit_length 64 x

abbrev pub leading_ones : ℕ → ℕ
leading_ones x = leading_zeros (2 ^ 64 - 1 - x)

bit_length-le_of_lt : (fuel k x : ℕ) → x < 2 ^ k → bit_length fuel x ≤ k
unfolding bit_length
bit_length-le_of_lt zero k x h = omega arith
bit_length-le_of_lt (suc fuel) zero x h = ground arith
bit_length-le_of_lt (suc fuel) (suc k) x h =
    ground (arith, pow-suc 2 k, bit_length-le_of_lt fuel k (x / 2))

lt_of_bit_length-le : (fuel k x : ℕ) → k < fuel → bit_length fuel x ≤ k → x < 2 ^ k
unfolding bit_length
lt_of_bit_length-le zero k x p h = absurd (omega arith)
lt_of_bit_length-le (suc fuel) zero x p h = ground arith
lt_of_bit_length-le (suc fuel) (suc k) x p h =
    ground (arith, pow-suc 2 k, one-le-pow k 2, lt_of_bit_length-le fuel k (x / 2))

-- A word has at least `64 - k` leading zeros exactly if it fits `k` bits.
pub lt_of_leading_zeros : (k x : ℕ) → k < 64 → 64 - k ≤ leading_zeros x → x < 2 ^ k
unfolding leading_zeros
lt_of_leading_zeros k x p h = lt_of_bit_length-le 64 k x p (omega arith)

pub leading_zeros_of_lt : (k x : ℕ) → x < 2 ^ k → 64 - k ≤ leading_zeros x
unfolding leading_zeros
leading_zeros_of_lt k x h = omega (arith, bit_length-le_of_lt 64 k x h)

-- The digits of `^` and `|`, from the definition that the native operations stand for.
module _ (z : ℕ → ℕ) (f : ℕ → ℕ → ℕ) where
  unfoldable pub joined : ℕ → ℕ → ℕ → ℕ
  joined n a b = digits z f n a b

  pub joined_fuel : (n m a b : ℕ) → a ≤ n → a ≤ m → joined n a b ≡ joined m a b
  unfolding joined
  joined_fuel zero zero a b p q = refl
  joined_fuel zero (suc m) zero b p q = refl
  joined_fuel zero (suc m) (suc a) b p q = absurd (omega arith)
  joined_fuel (suc n) zero zero b p q = refl
  joined_fuel (suc n) zero (suc a) b p q = absurd (omega arith)
  joined_fuel (suc n) (suc m) zero b p q = refl
  joined_fuel (suc n) (suc m) (suc a) b p q =
      ap (λ d. d * 2 + f (suc a % 2) (b % 2))
        (joined_fuel n m (suc a / 2) (b / 2) (omega arith) (omega arith))

pub zero-bit_xor : (b : ℕ) → bit_xor 0 b ≡ b
zero-bit_xor b = bit_xor-bitwise 0 b

pub zero-bit_or : (b : ℕ) → bit_or 0 b ≡ b
zero-bit_or b = bit_or-bitwise 0 b

-- The lowest digit apart from the others.
pub bit_xor_step : (a b : ℕ) → bit_xor a b ≡ bit_xor (a / 2) (b / 2) * 2 + differ (a % 2) (b % 2)
unfolding joined
bit_xor_step zero b = omega (arith, zero-bit_xor b, zero-bit_xor (b / 2))
bit_xor_step (suc a) b =
    bit_xor-bitwise (suc a) b
    ∙ ap (λ d. d * 2 + differ (suc a % 2) (b % 2))
        (joined_fuel (λ y. y) differ a (suc a / 2) (suc a / 2) (b / 2) (omega arith) (omega arith)
          ∙ sym (bit_xor-bitwise (suc a / 2) (b / 2)))

pub bit_or_step : (a b : ℕ) → bit_or a b ≡ bit_or (a / 2) (b / 2) * 2 + max (a % 2) (b % 2)
unfolding joined
bit_or_step zero b = omega (arith, zero-bit_or b, zero-bit_or (b / 2))
bit_or_step (suc a) b =
    bit_or-bitwise (suc a) b
    ∙ ap (λ d. d * 2 + max (suc a % 2) (b % 2))
        (joined_fuel (λ y. y) max a (suc a / 2) (suc a / 2) (b / 2) (omega arith) (omega arith)
          ∙ sym (bit_or-bitwise (suc a / 2) (b / 2)))

differ-zero_iff : (x y : ℕ) → (differ x y ≡ 0) ↔ (x ≡ y)
differ-zero_iff zero y = (λ e. sym e, λ e. sym e)
differ-zero_iff (suc x) zero = (λ e. e, λ e. e)
differ-zero_iff (suc x) (suc y) =
    (λ e. ap suc ((differ-zero_iff x y).0 e), λ e. (differ-zero_iff x y).1 (omega arith))

eq_of_bit_xor-zero : (n a b : ℕ) → a ≤ n → bit_xor a b ≡ 0 → a ≡ b
eq_of_bit_xor-zero n zero b h e = omega (arith, zero-bit_xor b)
eq_of_bit_xor-zero zero (suc a) b h e = absurd (omega arith)
eq_of_bit_xor-zero (suc n) (suc a) b h e =
    let low = (differ-zero_iff (suc a % 2) (b % 2)).0 (omega (arith, bit_xor_step (suc a) b)) in
    let high =
      eq_of_bit_xor-zero n (suc a / 2) (b / 2) (omega arith)
        (omega (arith, bit_xor_step (suc a) b)) in
    omega arith

bit_xor_self : (n a : ℕ) → a ≤ n → bit_xor a a ≡ 0
bit_xor_self n zero h = zero-bit_xor 0
bit_xor_self zero (suc a) h = absurd (omega arith)
bit_xor_self (suc n) (suc a) h = omega (
  arith,
  bit_xor_step (suc a) (suc a),
  (differ-zero_iff (suc a % 2) (suc a % 2)).1 refl,
  bit_xor_self n (suc a / 2) (omega arith),
)

-- Two numbers differ in no digit exactly if they are equal.
pub bit_xor-zero_iff : (a b : ℕ) → (bit_xor a b ≡ 0) ↔ (a ≡ b)
bit_xor-zero_iff a b = (
  eq_of_bit_xor-zero a a b (omega arith),
  λ e. subst (λ c. bit_xor a c ≡ 0) e (bit_xor_self a a (omega arith)),
)

pub div_pow_suc : (k x : ℕ) → x / 2 ^ suc k ≡ x / 2 / 2 ^ k
div_pow_suc k x = rw (pow-succ' 2 k) (sym (div-div-eq-div-mul x 2 (2 ^ k)))

pub div_one : (x : ℕ) → x / 1 ≡ x
div_one x = omega arith

differ-lt_two : (x y : ℕ) → x < 2 → y < 2 → differ x y < 2
differ-lt_two zero y p q = q
differ-lt_two (suc x) zero p q = p
differ-lt_two (suc x) (suc y) p q = differ-lt_two x y (omega arith) (omega arith)

bit_xor-half : (a b : ℕ) → bit_xor a b / 2 ≡ bit_xor (a / 2) (b / 2)
bit_xor-half a b =
    let low = differ-lt_two (a % 2) (b % 2) (omega arith) (omega arith) in
    omega (arith, bit_xor_step a b)

-- A shift to the right goes through `^`.
pub bit_xor-shr : (k a b : ℕ) → bit_xor a b / 2 ^ k ≡ bit_xor (a / 2 ^ k) (b / 2 ^ k)
bit_xor-shr zero a b = rw (div_one (bit_xor a b), div_one a, div_one b)
bit_xor-shr (suc k) a b =
    rw (div_pow_suc k (bit_xor a b), div_pow_suc k a, div_pow_suc k b, bit_xor-half a b)
      (bit_xor-shr k (a / 2) (b / 2))

bit_or-zero : (n a : ℕ) → a ≤ n → bit_or a 0 ≡ a
bit_or-zero n zero h = zero-bit_or 0
bit_or-zero zero (suc a) h = absurd (omega arith)
bit_or-zero (suc n) (suc a) h =
    omega (arith, bit_or_step (suc a) 0, bit_or-zero n (suc a / 2) (omega arith))

-- `(a << k) | b` is a sum where `b` fits the free bits.
pub bit_or-shl : (k a b : ℕ) → b < 2 ^ k → bit_or (a * 2 ^ k) b ≡ a * 2 ^ k + b
bit_or-shl zero a b h =
    let e : b ≡ 0 = omega arith in
    let one : a * 1 ≡ a = omega arith in rw (e, one, bit_or-zero a a (omega arith)) (omega arith)
bit_or-shl (suc k) a b h =
    let d : a * 2 ^ suc k ≡ a * 2 ^ k * 2 = rw (pow-suc 2 k) (omega arith) in
    let e : a * 2 ^ suc k / 2 ≡ a * 2 ^ k = omega arith in
    rw (bit_or_step (a * 2 ^ suc k) b, e, bit_or-shl k a (b / 2) (omega (arith, pow-suc 2 k)))
      (omega arith)

bit_or_comm_fuel : (n a b : ℕ) → a ≤ n → bit_or a b ≡ bit_or b a
bit_or_comm_fuel n zero b h = zero-bit_or b ∙ sym (bit_or-zero b b (omega arith))
bit_or_comm_fuel zero (suc a) b h = absurd (omega arith)
bit_or_comm_fuel (suc n) (suc a) b h = omega (
  arith,
  bit_or_step (suc a) b,
  bit_or_step b (suc a),
  bit_or_comm_fuel n (suc a / 2) (b / 2) (omega arith),
)

pub bit_or_comm : (a b : ℕ) → bit_or a b ≡ bit_or b a
bit_or_comm a b = bit_or_comm_fuel a a b (omega arith)
