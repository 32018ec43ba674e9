-- ===== src/Collections/Bitmap/Search.antt =====
-- `allocate` finds a free element whenever there is one.
use Prim.Native.Nat.{bit_or}
use nikka.Common.{
  ℕ, zero, suc, ◌+◌, ◌-◌, ◌*◌, ◌/◌, ◌%◌, ◌^◌, ◌<◌, ◌≤◌, ◌≡◌, ◌≢◌, ◌⊎◌, inl, inr, refl, sym, ◌∙◌, ap,
  arith, true, false, ltb, ltb_iff, leb, leb_iff, ◌==◌, ==_iff, Bool-cases, get_elem?, length,
  Option, some, none, set, Outcome, ok, get_elem?_of_lt, length-set,
}
use native.Mathlib.Nat.{mod-lt, mod-eq_of_lt, add-mod_right}
use nikka.Common.Words.{bit_or-lt}
use nikka.Collections.Bitmap.{Bitmap, allocate, scan, try_entry, mark_used, trailing_ones}
use nikka.Collections.Bitmap.Digits.{
  digit, zero_of_ne_ones, trailing_ones-le, trailing_ones-zero, ones_lem, pow-le,
}
use nikka.Collections.Bitmap.Zeros.{zeros_below-mark, zeros_of_free, free_of_zeros, used_at}
use nikka.Collections.Bitmap.Valid.{
  IsValid, in_words, used_at-mark, used_at-get, words-set, Changes,
}

-- `b'` is the valid bitmap `b` with its free element `n` used.
pub record Takes (b b' : Bitmap) (n : ℕ) : Type 0 where
  pub within : n < b.len
  pub was_free : used_at b.bitmap n ≡ false
  pub changes : Changes b b' n true
  pub counts : b.free ≡ suc b'.free
  pub valid : IsValid b'

abbrev taken : Bitmap → ℕ → ℕ → Bitmap
taken b n e = record b {
  bitmap = set b.bitmap (n / 64) (bit_or e (2 ^ (n % 64)));
  cursor = n / 64;
  free = b.free - 1;
}

taken-Takes :
    (b : Bitmap) (n e : ℕ)
    → IsValid b
    → get_elem? b.bitmap (n / 64) ≡ some e
    → n < b.len
    → digit e (n % 64) ≡ 0
    → Takes b (taken b n e) n
taken-Takes b n e v there lt z =
    let inside = in_words b.bitmap b.len n v.sized lt in
    let was : used_at b.bitmap n ≡ false = used_at-get b.bitmap n there ∙ rw z refl in
    let bits = λ (m : ℕ). used_at-mark b.bitmap n e m there inside in
    let same = length-set b.bitmap (n / 64) (bit_or e (2 ^ (n % 64))) in
    let less =
      zeros_below-mark (used_at b.bitmap) (used_at (taken b n e).bitmap) b.len n lt was
        (bits n ∙ ground arith) (λ j d. bits j ∙ ground arith) in
    record {
      within = lt;
      was_free = was;
      changes = record { len = refl; bits = bits };
      counts = omega (arith, v.counted);
      valid = record {
        sized = same ∙ v.sized;
        words = words-set b.bitmap (n / 64) _ v.words (
            bit_or-lt 64 e _ (v.words (n / 64) e there)
              (omega (arith, pow-le (n % 64) 64 (omega arith))));
        counted = omega (arith, v.counted);
        placed = λ p. omega (arith, same);
        small = v.small;
      };
    }

Found : Bitmap → Outcome (Bitmap × Option ℕ) → Type 0
Found b result = (b' : Bitmap) × (n : ℕ) × (result ≡ ok (b', some n)) × Takes b b' n

mark_used_lem :
    (b : Bitmap) (i e p : ℕ)
    → IsValid b
    → get_elem? b.bitmap i ≡ some e
    → p < 64
    → digit e p ≡ 0
    → i * 64 + p < b.len
    → Found b (mark_used b i e p)
unfolding mark_used Found
mark_used_lem b i e p v there small z lt =
    let n : ℕ = i * 64 + p in
    let q : n / 64 ≡ i = omega arith in
    let r : n % 64 ≡ p = omega arith in
    let at_n : get_elem? b.bitmap (n / 64) ≡ some e = rw q there in
    let was : used_at b.bitmap n ≡ false = used_at-get b.bitmap n at_n ∙ rw (r, z) refl in
    let some_free = zeros_of_free (used_at b.bitmap) b.len n lt was in
    let room : leb 1 b.free ≡ true = (leb_iff 1 b.free).1 (omega (arith, v.counted)) in
    (taken b n e, n, rw (room, q, r) refl, taken-Takes b n e v at_n lt (rw r z))

-- The word of a free element has a zero.
zero_there :
    (b : Bitmap) (k e : ℕ)
    → get_elem? b.bitmap (k / 64) ≡ some e
    → used_at b.bitmap k ≡ false
    → digit e (k % 64) ≡ 0
zero_there b k e there free =
    let d : (digit e (k % 64) == 1) ≡ false = sym (used_at-get b.bitmap k there) ∙ free in
    ground arith

-- The word of a free element is passed over only if it is another one.
try_entry_lem :
    (b : Bitmap) (i e k : ℕ) (rest : Outcome (Bitmap × Option ℕ))
    → IsValid b
    → get_elem? b.bitmap i ≡ some e
    → k < b.len
    → used_at b.bitmap k ≡ false
    → (i ≢ k / 64 → Found b rest)
    → Found b (try_entry b i e rest)
unfolding try_entry
try_entry_lem b i e k rest v there lt free go = elim (Bool-cases (e == 2 ^ 64 - 1)) [
  | inl full ↦ rw full (
      go (λ same.
        let z = zero_there b k e (rw same at there) free in
        let e' : e ≡ 2 ^ 64 - 1 = (==_iff e _).0 full in
        ones_lem 64 (k % 64) (omega arith) (rw e' at z)))
  | inr gap ↦
      let (j, lj, zj) = zero_of_ne_ones 64 e (v.words i e there) (ground arith) in
      let low = trailing_ones-le 64 e j lj zj in
      let z = trailing_ones-zero 64 e j lj zj in
      elim (Bool-cases (ltb (i * 64 + trailing_ones 64 e) b.len)) [
        | inl inside ↦
            rw (gap, inside)
              (mark_used_lem b i e (trailing_ones 64 e) v there (omega arith) z
                ((ltb_iff _ b.len).0 inside))
        | inr outside ↦
            rw (gap, outside)
              (go (λ same.
                let first =
                  trailing_ones-le 64 e (k % 64) (omega arith)
                    (zero_there b k e (rw same at there) free) in
                ground arith))
      ]
]

-- The loop finds a free element if the word of a free element lies ahead.
scan_lem :
    (b : Bitmap) (offset left k o : ℕ)
    → IsValid b
    → k < b.len
    → used_at b.bitmap k ≡ false
    → offset + left ≡ length b.bitmap
    → offset ≤ o
    → o < length b.bitmap
    → (b.cursor + o) % length b.bitmap ≡ k / 64
    → Found b (scan b offset left)
unfolding scan
scan_lem b offset zero k o v lt free total ahead within hit = absurd (omega arith)
scan_lem b offset (suc left) k o v lt free total ahead within hit =
    let i : ℕ = (b.cursor + offset) % length b.bitmap in
    let inside : i < length b.bitmap = mod-lt (b.cursor + offset) (omega arith) in
    let (e, there) = get_elem?_of_lt b.bitmap i inside in
    rw there (
      try_entry_lem b i e k (scan b (offset + 1) left) v there lt free (λ other.
        scan_lem b (offset + 1) left k o v lt free (omega arith)
          (further offset o ahead
            (λ same. other (ap (λ x. (b.cursor + x) % length b.bitmap) same ∙ hit)))
          within hit))
  where
    further : (a c : ℕ) → a ≤ c → a ≢ c → a + 1 ≤ c
    further a c p q = ground arith

-- Every word is reached from the cursor.
reached : (c i n : ℕ) → c < n → i < n → (o : ℕ) × (o < n) × ((c + o) % n ≡ i)
reached c i n p q = elim (Bool-cases (leb c i)) [
  | inl up ↦ let e : c + (i - c) ≡ i = ground arith in (i - c, omega arith, rw e (mod-eq_of_lt q))
  | inr down ↦
      let e : c + (i + n - c) ≡ i + n = omega arith in
      (i + n - c, ground arith, rw (e, add-mod_right i n) (mod-eq_of_lt q))
]

-- For a valid bitmap `allocate` returns, without reaching the end of its loop: without a free element
-- it returns none and changes nothing; else it returns an element below the length that was free,
-- makes this one used and no other, counts it, and keeps the bitmap valid.
pub allocate_lem :
    (b : Bitmap)
    → IsValid b
    → ((b.free ≡ 0) × (allocate b ≡ ok (b, none)))
      ⊎ ((b' : Bitmap) × (n : ℕ) × (allocate b ≡ ok (b', some n)) × Takes b b' n)
unfolding allocate Found
allocate_lem b v = elim (Bool-cases (b.free == 0)) [
  | inl empty ↦ inl ((==_iff b.free 0).0 empty, rw empty refl)
  | inr more ↦
      let some_free : 0 < b.free = ground arith in
      let (k, lt, free) = free_of_zeros (used_at b.bitmap) b.len (omega (arith, v.counted)) in
      let (o, within, hit) =
        reached b.cursor (k / 64) (length b.bitmap) (v.placed (omega arith))
          (in_words b.bitmap b.len k v.sized lt) in
      inr (
        rw more
          (scan_lem b 0 (length b.bitmap) k o v lt free (omega arith) (omega arith) within hit))
]
