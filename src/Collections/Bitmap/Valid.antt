-- ===== src/Collections/Bitmap/Valid.antt =====
-- What a bitmap keeps true, and the bits after one word is changed.
use Prim.Native.Nat.{bit_and, bit_or}
use nikka.Common.{
  ℕ, zero, suc, ◌-◌, ◌*◌, ◌/◌, ◌%◌, ◌^◌, ◌<◌, ◌≤◌, ◌≡◌, inl, inr, refl, ◌∙◌, arith, Bool, true,
  false, ltb, ◌==◌, if◌then◌else◌, Bool-cases, List, [], ◌∷◌, get_elem?, length, some, set, max,
  min,
}
use nikka.Collections.Bitmap.{Bitmap, div_ceil}
use nikka.Collections.Bitmap.Digits.{digit, digit-bit_and, digit-bit_or, mask_digit, pow_digit}
use nikka.Collections.Bitmap.Zeros.{zeros_below, used_at}

-- The words are words, and there are as many as the elements need. The free elements are counted, and
-- the cursor stands at a word.
pub record IsValid (b : Bitmap) : Type 0 where
  pub sized : length b.bitmap ≡ div_ceil b.len 64
  pub words : (i e : ℕ) → get_elem? b.bitmap i ≡ some e → e < 2 ^ 64
  pub counted : b.free ≡ zeros_below (used_at b.bitmap) b.len
  pub placed : 0 < b.len → b.cursor < length b.bitmap
  pub small : b.len < 2 ^ 64

pub covered : (es : List ℕ) (len : ℕ) → length es ≡ div_ceil len 64 → len ≤ 64 * length es
covered es len h = ground arith

pub in_words :
    (es : List ℕ) (len k : ℕ) → length es ≡ div_ceil len 64 → k < len → k / 64 < length es
in_words es len k h p = ground arith

pub used_at-get :
    (es : List ℕ) (n : ℕ) {e : ℕ}
    → get_elem? es (n / 64) ≡ some e
    → used_at es n ≡ (digit e (n % 64) == 1)
unfolding used_at
used_at-get [] n h = ground arith
used_at-get (x ∷ es) n h = elim (Bool-cases (ltb n 64)) [
  | inl low ↦
      let q : n / 64 ≡ 0 = ground arith in
      let r : n % 64 ≡ n = ground arith in rw (low, r) (ground (arith, rw q at h))
  | inr high ↦
      let q : n / 64 ≡ suc ((n - 64) / 64) = ground arith in
      let r : n % 64 ≡ (n - 64) % 64 = ground arith in
      rw (high, r) (used_at-get es (n - 64) (rw q at h))
]

pub used_at-set :
    (es : List ℕ) (i v n : ℕ)
    → i < length es
    → used_at (set es i v) n ≡ (if n / 64 == i then digit v (n % 64) == 1 else used_at es n)
unfolding used_at
used_at-set [] i v n h = absurd (omega arith)
used_at-set (x ∷ es) zero v n h = elim (Bool-cases (ltb n 64)) [
  | inl low ↦
      let q : n / 64 ≡ 0 = ground arith in let r : n % 64 ≡ n = ground arith in rw (low, q, r) refl
  | inr high ↦ let q : n / 64 ≡ suc ((n - 64) / 64) = ground arith in rw (high, q) (ground arith)
]
used_at-set (x ∷ es) (suc i) v n h = elim (Bool-cases (ltb n 64)) [
  | inl low ↦ let q : n / 64 ≡ 0 = ground arith in rw (low, q) (ground arith)
  | inr high ↦
      let q : n / 64 ≡ suc ((n - 64) / 64) = ground arith in
      let r : n % 64 ≡ (n - 64) % 64 = ground arith in
      rw (high, r, q) (ground (arith, used_at-set es i v (n - 64)))
]

same_place : (n k : ℕ) → n / 64 ≡ k / 64 → n % 64 ≡ k % 64 → n ≡ k
same_place n k p q = omega arith

cleared :
    (n k d : ℕ)
    → n / 64 ≡ k / 64
    → d < 2
    → (min d (if k % 64 == n % 64 then 0 else 1) == 1) ≡ (if n == k then false else d == 1)
cleared n k d p lt = ground (arith, same_place n k p)

marked :
    (n k d : ℕ)
    → n / 64 ≡ k / 64
    → d < 2
    → (max d (if k % 64 == n % 64 then 1 else 0) == 1) ≡ (if n == k then true else d == 1)
marked n k d p lt = ground (arith, same_place n k p)

-- One element of the list of words is cleared or set.
module _ (es : List ℕ) (k e n : ℕ) (h : get_elem? es (k / 64) ≡ some e)
    (lt : k / 64 < length es) where
  -- The word of `n` is the one that is changed, or it is not.
  changed :
      (v : ℕ) (b : Bool)
      → (n / 64 ≡ k / 64 → (digit v (n % 64) == 1) ≡ (if n == k then b else digit e (n % 64) == 1))
      → used_at (set es (k / 64) v) n ≡ (if n == k then b else used_at es n)
  changed v b step = elim (Bool-cases (n / 64 == k / 64)) [
    | inl word ↦
        let q : n / 64 ≡ k / 64 = ground arith in
        let there : get_elem? es (n / 64) ≡ some e = rw q h in
        let own = used_at-get es n there in used_at-set es (k / 64) v n lt ∙ rw (word, own) (step q)
    | inr other ↦ used_at-set es (k / 64) v n lt ∙ rw other (ground arith)
  ]

  pub used_at-clear :
      used_at (set es (k / 64) (bit_and e (2 ^ 64 - 1 - 2 ^ (k % 64)))) n
      ≡ (if n == k then false else used_at es n)
  used_at-clear = changed (bit_and e (2 ^ 64 - 1 - 2 ^ (k % 64))) false (λ q.
      rw
        (
          digit-bit_and (n % 64) e (2 ^ 64 - 1 - 2 ^ (k % 64)),
          mask_digit 64 (k % 64) (n % 64) (omega arith) (omega arith),
        )
        (cleared n k (digit e (n % 64)) q (omega arith)))

  pub used_at-mark :
      used_at (set es (k / 64) (bit_or e (2 ^ (k % 64)))) n
      ≡ (if n == k then true else used_at es n)
  used_at-mark = changed (bit_or e (2 ^ (k % 64))) true (λ q.
      rw (digit-bit_or (n % 64) e (2 ^ (k % 64)), pow_digit (k % 64) (n % 64))
        (marked n k (digit e (n % 64)) q (omega arith)))

-- Words stay words.
pub words-set :
    (es : List ℕ) (i v : ℕ)
    → ((j e : ℕ) → get_elem? es j ≡ some e → e < 2 ^ 64)
    → v < 2 ^ 64
    → (j e : ℕ) → get_elem? (set es i v) j ≡ some e
    → e < 2 ^ 64
words-set [] i v w p j e h = ground arith
words-set (x ∷ es) zero v w p zero e h = ground arith
words-set (x ∷ es) zero v w p (suc j) e h = w (suc j) e h
words-set (x ∷ es) (suc i) v w p zero e h = w zero e h
words-set (x ∷ es) (suc i) v w p (suc j) e h = words-set es i v (λ l f g. w (suc l) f g) p j e h

-- One bit is changed, and the number of elements is not.
pub record Changes (b b' : Bitmap) (k : ℕ) (used : Bool) : Type 0 where
  pub len : b'.len ≡ b.len
  pub bits : (n : ℕ) → used_at b'.bitmap n ≡ (if n == k then used else used_at b.bitmap n)
