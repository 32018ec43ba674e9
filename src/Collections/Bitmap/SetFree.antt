-- ===== src/Collections/Bitmap/SetFree.antt =====
-- `set_free`, on every branch.
use Prim.Native.Nat.{bit_and}
use nikka.Common.{
  ℕ, suc, ◌+◌, ◌-◌, ◌/◌, ◌%◌, ◌^◌, ◌<◌, ◌≤◌, ◌≡◌, ◌⊎◌, inl, inr, refl, sym, ◌∙◌, arith, true, false,
  ltb, ltb_iff, Bool-cases, get_elem?, length, some, set, ok, panic, get_elem?_of_lt, length-set,
}
use nikka.Collections.Bitmap.{Bitmap, set_free, is_free}
use nikka.Collections.Bitmap.Digits.{bit_and-lt}
use nikka.Collections.Bitmap.Zeros.{zeros_below, zeros_below-le, zeros_below-mark, used_at, bit_lem}
use nikka.Collections.Bitmap.Valid.{IsValid, covered, in_words, used_at-clear, words-set, Changes}

-- The bitmap after `set_free`.
abbrev freed : Bitmap → ℕ → ℕ → Bitmap
freed b k e = record b {
  bitmap = set b.bitmap (k / 64) (bit_and e (2 ^ 64 - 1 - 2 ^ (k % 64)));
  free = b.free + 1;
}

freed-Changes :
    (b : Bitmap) (k e : ℕ)
    → get_elem? b.bitmap (k / 64) ≡ some e
    → k / 64 < length b.bitmap
    → Changes b (freed b k e) k false
freed-Changes b k e h lt = record { len = refl; bits = λ n. used_at-clear b.bitmap k e n h lt }

more_free :
    (b b' : Bitmap) (k : ℕ)
    → k < b.len
    → used_at b.bitmap k ≡ true
    → Changes b b' k false
    → zeros_below (used_at b'.bitmap) b.len ≡ suc (zeros_below (used_at b.bitmap) b.len)
more_free b b' k lt u c =
    zeros_below-mark (used_at b'.bitmap) (used_at b.bitmap) b.len k lt (c.bits k ∙ ground arith) u
      (λ j d. sym (c.bits j ∙ ground arith))

-- For a used element of a valid bitmap: `set_free` makes it free, changes no other, counts it, and
-- keeps the bitmap valid.
pub set_free_lem :
    (b : Bitmap) (k : ℕ)
    → IsValid b
    → k < b.len
    → used_at b.bitmap k ≡ true
    → (b' : Bitmap) × (set_free b k ≡ ok b')
      × IsValid b'
      × Changes b b' k false
      × (b'.free ≡ suc b.free)
unfolding set_free is_free
set_free_lem b k v lt u =
    let inside = in_words b.bitmap b.len k v.sized lt in
    let (e, there) = get_elem?_of_lt b.bitmap (k / 64) inside in
    let changes = freed-Changes b k e there inside in
    let more = more_free b (freed b k e) k lt u changes in
    let le = zeros_below-le (used_at (freed b k e).bitmap) b.len in
    let here : ltb k b.len ≡ true = ground arith in
    let bits = bit_lem b.bitmap k (omega (arith, covered b.bitmap b.len v.sized)) in
    let room : ltb (b.free + 1) (2 ^ 64) ≡ true =
      (ltb_iff (b.free + 1) (2 ^ 64)).1 (omega (arith, v.counted, v.small)) in
    let run : set_free b k ≡ ok (freed b k e) = rw (here, bits, u, there, room) refl in
    (
      freed b k e,
      run,
      record {
        sized = length-set b.bitmap (k / 64) _ ∙ v.sized;
        words =
            words-set b.bitmap (k / 64) _ v.words (bit_and-lt 64 e _ (v.words (k / 64) e there));
        counted = omega (arith, v.counted);
        placed = λ p. omega (
          arith,
          v.placed p,
          length-set b.bitmap (k / 64) (bit_and e (2 ^ 64 - 1 - 2 ^ (k % 64))),
        );
        small = v.small;
      },
      changes,
      omega arith,
    )

-- Of a free element, or one beyond the end, `set_free` of a valid bitmap panics.
pub set_free-panic :
    (b : Bitmap) (k : ℕ)
    → IsValid b
    → (b.len ≤ k) ⊎ (used_at b.bitmap k ≡ false)
    → set_free b k ≡ panic
unfolding set_free is_free
set_free-panic b k v h = elim (Bool-cases (ltb k b.len)) [
  | inl here ↦
      let bits = bit_lem b.bitmap k (ground (arith, covered b.bitmap b.len v.sized)) in
      let u : used_at b.bitmap k ≡ false = ground arith in rw (here, bits, u) refl
  | inr beyond ↦ rw beyond refl
]
