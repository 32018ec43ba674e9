-- ===== src/Collections/Bitmap/Free.antt =====
-- The count of free elements, and what a bitmap keeps true.
use nikka.Common.{
  ℕ, zero, suc, ◌+◌, ◌-◌, ◌*◌, ◌/◌, ◌%◌, ◌≤◌, ◌≡◌, inl, inr, refl, sym, ◌∙◌, ap, arith, false, ltb,
  leb, ◌==◌, if◌then◌else◌, Bool-cases, List, [], ◌∷◌, length, ok, panic,
}
use nikka.Collections.Bitmap.{count_zeros, sum_zeros, count_free_bits, count_free, take, div_ceil}
use nikka.Collections.Bitmap.Digits.{digit, digit-suc, digit_zero}
use nikka.Collections.Bitmap.Zeros.{
  zeros_below, zeros_below-ext, zeros_below-first, zeros_below-add, used_at, bit_lem,
}

count_zeros_lem : (w e : ℕ) → count_zeros w e ≡ zeros_below (λ j. digit e j == 1) w
unfolding count_zeros
count_zeros_lem zero e = unfold zeros_below in refl
count_zeros_lem (suc w) e =
    let first = zeros_below-first (λ j. digit e j == 1) w in
    let rest =
      zeros_below-ext (λ j. digit e (suc j) == 1) (λ j. digit (e / 2) j == 1) w
        (λ j p. ap (λ d. d == 1) (digit-suc e j)) in
    rw (first, rest, count_zeros_lem w (e / 2)) (ground (arith, digit_zero e))

sum_zeros_lem :
    (n : ℕ) (es : List ℕ)
    → n ≤ length es
    → sum_zeros (take n es) ≡ zeros_below (used_at es) (64 * n)
unfolding sum_zeros used_at
sum_zeros_lem zero es h = unfold zeros_below in refl
sum_zeros_lem (suc n) [] h = absurd (omega arith)
sum_zeros_lem (suc n) (e ∷ es) h =
    let size : 64 * suc n ≡ 64 + 64 * n = omega arith in
    let parts = zeros_below-add (used_at (e ∷ es)) 64 (64 * n) in
    let low = zeros_below-ext (used_at (e ∷ es)) (λ j. digit e j == 1) 64 (λ j p. ground arith) in
    let high =
      zeros_below-ext (λ j. used_at (e ∷ es) (64 + j)) (used_at es) (64 * n) (λ j p. later j) in
    rw (size, parts, low, high, sum_zeros_lem n es (omega arith), count_zeros_lem 64 e) refl
  where
    later : (j : ℕ) → used_at (e ∷ es) (64 + j) ≡ used_at es j
    later j =
        let l : ltb (64 + j) 64 ≡ false = ground arith in
        let m : 64 + j - 64 ≡ j = omega arith in rw (l, m) refl

count_free_bits_lem :
    (es : List ℕ) (first k : ℕ)
    → first + k ≤ 64 * length es
    → count_free_bits es first k ≡ ok (zeros_below (λ j. used_at es (first + j)) k)
unfolding count_free_bits
count_free_bits_lem es first zero h = unfold zeros_below in refl
count_free_bits_lem es first (suc k) h =
    let rest = count_free_bits_lem es (first + 1) k (omega arith) in
    let parts = zeros_below-first (λ j. used_at es (first + j)) k in
    let same =
      zeros_below-ext (λ j. used_at es (first + suc j)) (λ j. used_at es (first + 1 + j)) k
        (λ j p. ap (used_at es) (omega arith)) in
    let here : first + 0 ≡ first = omega arith in
    rw (bit_lem es first (omega arith), rest) (rw (parts, same, here) refl)

-- Enough words for so many elements.
abbrev pub Covers : List ℕ → ℕ → Type 0
Covers es len = len ≤ 64 * length es

pub div_ceil_lem : (len n : ℕ) → leb (div_ceil len 64) n ≡ leb len (64 * n)
div_ceil_lem len n = ground arith

pub div_ceil-size : (len : ℕ) → len ≤ 64 * div_ceil len 64
div_ceil-size len = ground arith

-- `count_free` counts the elements that are free, if there are words for all of them. Else it panics.
pub count_free_lem :
    (es : List ℕ) (len : ℕ)
    → count_free es len
      ≡ (if leb len (64 * length es) then ok (zeros_below (used_at es) len) else panic)
unfolding count_free
count_free_lem es len = elim (Bool-cases (leb len (64 * length es))) [
  | inl fits ↦
      let enough : len ≤ 64 * length es = ground arith in
      let split : len ≡ 64 * (len / 64) + len % 64 = omega arith in
      let swap : len / 64 * 64 ≡ 64 * (len / 64) = omega arith in
      let parts = zeros_below-add (used_at es) (64 * (len / 64)) (len % 64) in
      let bits = count_free_bits_lem es (64 * (len / 64)) (len % 64) (omega arith) in
      let words = sum_zeros_lem (len / 64) es (omega arith) in
      rw (div_ceil_lem len (length es), fits, swap, bits, words)
        (ap (λ n. ok n) (sym parts ∙ ap (zeros_below (used_at es)) (sym split)))
  | inr short ↦ rw (div_ceil_lem len (length es), short) refl
]
