-- ===== src/Collections/Bitmap/Zeros.antt =====
-- The numbers below a bound that a map of bits leaves free, and the count of them.
use nikka.Common.{
  ℕ, zero, suc, ◌+◌, ◌-◌, ◌*◌, ◌/◌, ◌%◌, ◌<◌, ◌≤◌, ◌≡◌, ◌≢◌, ◌⊎◌, inl, inr, refl, sym, ap, arith,
  Bool, true, false, ltb, ◌==◌, if◌then◌else◌, Bool-cases, List, [], ◌∷◌, length, ok,
}
use nikka.Collections.Bitmap.{bit}
use nikka.Collections.Bitmap.Digits.{digit, tests_digit}

-- How many of the numbers below `n` are free in `used`.
unfoldable pub zeros_below : (ℕ → Bool) → ℕ → ℕ
zeros_below used zero = 0
zeros_below used (suc n) = (if used n then 0 else 1) + zeros_below used n

pub zeros_below-le : (used : ℕ → Bool) (n : ℕ) → zeros_below used n ≤ n
unfolding zeros_below
zeros_below-le used zero = omega arith
zeros_below-le used (suc n) = ground (arith, zeros_below-le used n)

-- Where some are free there is a free one.
pub free_of_zeros :
    (used : ℕ → Bool) (n : ℕ) → 0 < zeros_below used n → (k : ℕ) × (k < n) × (used k ≡ false)
unfolding zeros_below
free_of_zeros used zero h = elim h [ ]
free_of_zeros used (suc n) h = elim (Bool-cases (used n)) [
  | inl u ↦
      let (k, lt, f) = free_of_zeros used n (let p = rw u at h in omega arith) in
      (k, omega arith, f)
  | inr f ↦ (n, omega arith, f)
]

pub zeros_of_free : (used : ℕ → Bool) (n k : ℕ) → k < n → used k ≡ false → 0 < zeros_below used n
unfolding zeros_below
zeros_of_free used zero k h f = elim h [ ]
zeros_of_free used (suc n) k h f = elim (Eq-cases k n) [
  | inl e ↦ rw (← e) (rw f (omega arith))
  | inr d ↦ let below = zeros_of_free used n k (omega arith) f in omega arith
]
  where
    Eq-cases : (a b : ℕ) → (a ≡ b) ⊎ (a ≢ b)
    Eq-cases a b = ground arith

pub zeros_below-ext :
    (f g : ℕ → Bool) (n : ℕ) → ((k : ℕ) → k < n → f k ≡ g k) → zeros_below f n ≡ zeros_below g n
unfolding zeros_below
zeros_below-ext f g zero h = refl
zeros_below-ext f g (suc n) h =
    rw (h n (omega arith), zeros_below-ext f g n (λ k p. h k (omega arith))) refl

-- To mark a free number as used takes one away.
pub zeros_below-mark :
    (f g : ℕ → Bool) (n k : ℕ)
    → k < n
    → f k ≡ false
    → g k ≡ true
    → ((j : ℕ) → j ≢ k → g j ≡ f j)
    → zeros_below f n ≡ suc (zeros_below g n)
unfolding zeros_below
zeros_below-mark f g zero k h u v e = elim h [ ]
zeros_below-mark f g (suc n) k h u v e = elim (Eq-cases k n) [
  | inl d ↦
      let same = zeros_below-ext f g n (λ j p. sym (e j (λ z. absurd (omega arith)))) in
      let fn : f n ≡ false = rw d at u in
      let gn : g n ≡ true = rw d at v in rw (fn, gn) (omega arith)
  | inr d ↦
      rw (e n (λ z. d (sym z)))
        (let rest = zeros_below-mark f g n k (omega arith) u v e in omega arith)
]
  where
    Eq-cases : (a b : ℕ) → (a ≡ b) ⊎ (a ≢ b)
    Eq-cases a b = ground arith

-- The lowest number apart, and a count in two parts.
pub zeros_below-first :
    (f : ℕ → Bool) (n : ℕ)
    → zeros_below f (suc n) ≡ (if f 0 then 0 else 1) + zeros_below (λ j. f (suc j)) n
unfolding zeros_below
zeros_below-first f zero = refl
zeros_below-first f (suc n) = let rest = zeros_below-first f n in omega arith

pub zeros_below-add :
    (f : ℕ → Bool) (a b : ℕ)
    → zeros_below f (a + b) ≡ zeros_below f a + zeros_below (λ j. f (a + j)) b
unfolding zeros_below
zeros_below-add f a zero = let e : a + 0 ≡ a = omega arith in rw e (omega arith)
zeros_below-add f a (suc b) =
    let e : a + suc b ≡ suc (a + b) = omega arith in
    let rest = zeros_below-add f a b in rw e (omega arith)

-- The bits of a list of words.
unfoldable pub used_at : List ℕ → ℕ → Bool
used_at [] n = false
used_at (e ∷ es) n = if ltb n 64 then digit e n == 1 else used_at es (n - 64)

pub bit_lem : (es : List ℕ) (n : ℕ) → n < 64 * length es → bit es n ≡ ok (used_at es n)
unfolding bit used_at
bit_lem [] n h = absurd (omega arith)
bit_lem (e ∷ es) n h = elim (Bool-cases (ltb n 64)) [
  | inl low ↦
      let q : n / 64 ≡ 0 = ground arith in
      let r : n % 64 ≡ n = ground arith in rw (low, q, r) (ap (λ b. ok b) (tests_digit e n))
  | inr high ↦
      let q : n / 64 ≡ suc ((n - 64) / 64) = ground arith in
      let r : n % 64 ≡ (n - 64) % 64 = ground arith in
      rw (high, q, r) (bit_lem es (n - 64) (ground arith))
]
