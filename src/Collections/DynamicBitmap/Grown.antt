-- ===== src/Collections/DynamicBitmap/Grown.antt =====
-- A bitmap that has grown has its old elements as they were, and the new ones free.
use nikka.Common.{
  ℕ, zero, suc, ◌+◌, ◌-◌, ◌*◌, ◌^◌, ◌<◌, ◌≤◌, ◌≡◌, inl, inr, refl, sym, ◌∙◌, ap, arith, Bool, false,
  ltb, Bool-cases, List, [], ◌∷◌, ◌++◌, get_elem?, length, length-append, some, ok,
}
use nikka.Collections.Bitmap.{take, div_ceil}
use nikka.Collections.Bitmap.Digits.{zero_digit}
use nikka.Collections.Bitmap.Zeros.{used_at, zeros_below, zeros_below-add, zeros_below-ext}
use nikka.Collections.Bitmap.Valid.{IsValid, covered}
use nikka.Collections.Bitmap.Made.{new-IsValid}
use nikka.Collections.DynamicBitmap.{DynamicBitmap, over_words, page_count, zeros, skip}

abbrev pub all_words : DynamicBitmap → List ℕ
all_words d = d.bitmap.bitmap ++ d.unused

-- The words fill the mapped pages, and no bit behind the elements is set.
pub record IsClean (d : DynamicBitmap) : Type 0 where
  pub valid : IsValid d.bitmap
  pub filled : length (all_words d) ≡ 512 * page_count d.bitmap.len
  pub words : (i e : ℕ) → get_elem? (all_words d) i ≡ some e → e < 2 ^ 64
  pub clean : (n : ℕ) → d.bitmap.len ≤ n → used_at (all_words d) n ≡ false

take-skip : (n : ℕ) (xs : List ℕ) → take n xs ++ skip n xs ≡ xs
take-skip zero xs = refl
take-skip (suc n) [] = refl
take-skip (suc n) (x ∷ xs) = ap (λ ys. x ∷ ys) (take-skip n xs)

length-zeros : (k : ℕ) → length (zeros k) ≡ k
length-zeros zero = refl
length-zeros (suc k) = ap suc (length-zeros k)

used_at-zeros : (k n : ℕ) → used_at (zeros k) n ≡ false
unfolding used_at
used_at-zeros zero n = refl
used_at-zeros (suc k) n = ground (arith, zero_digit n, used_at-zeros k (n - 64))

used_at-append-zeros : (xs : List ℕ) (k n : ℕ) → used_at (xs ++ zeros k) n ≡ used_at xs n
unfolding used_at
used_at-append-zeros [] k n = used_at-zeros k n
used_at-append-zeros (x ∷ xs) k n = elim (Bool-cases (ltb n 64)) [
  | inl low ↦ rw low refl
  | inr high ↦ rw high (used_at-append-zeros xs k (n - 64))
]

used_at-append : (xs ys : List ℕ) (n : ℕ) → n < 64 * length xs → used_at (xs ++ ys) n ≡ used_at xs n
unfolding used_at
used_at-append [] ys n h = absurd (omega arith)
used_at-append (x ∷ xs) ys n h = elim (Bool-cases (ltb n 64)) [
  | inl low ↦ rw low refl
  | inr high ↦ rw high (used_at-append xs ys (n - 64) (ground arith))
]

words-zeros : (k i e : ℕ) → get_elem? (zeros k) i ≡ some e → e < 2 ^ 64
words-zeros zero i e h = ground arith
words-zeros (suc k) zero e h = ground arith
words-zeros (suc k) (suc i) e h = words-zeros k i e h

words-append :
    (xs ys : List ℕ)
    → ((i e : ℕ) → get_elem? xs i ≡ some e → e < 2 ^ 64)
    → ((i e : ℕ) → get_elem? ys i ≡ some e → e < 2 ^ 64)
    → (i e : ℕ) → get_elem? (xs ++ ys) i ≡ some e
    → e < 2 ^ 64
words-append [] ys p q i e h = q i e h
words-append (x ∷ xs) ys p q zero e h = p zero e h
words-append (x ∷ xs) ys p q (suc i) e h = words-append xs ys (λ j f g. p (suc j) f g) q i e h

-- All of the numbers are free where no bit is set.
zeros_below-unset : (f : ℕ → Bool) (n : ℕ) → ((k : ℕ) → f k ≡ false) → zeros_below f n ≡ n
unfolding zeros_below
zeros_below-unset f zero h = refl
zeros_below-unset f (suc n) h = rw (h n) (omega (arith, zeros_below-unset f n h))

page_count_mono : (a b : ℕ) → a ≤ b → page_count a ≤ page_count b
page_count_mono a b h = ground arith

page_count-covers : (n : ℕ) → n ≤ 64 * (512 * page_count n)
page_count-covers n = ground arith

-- The words after the growth.
abbrev pub grown_words : DynamicBitmap → ℕ → List ℕ
grown_words d n = all_words d ++ zeros ((page_count n - page_count d.bitmap.len) * 512)

module _ (d : DynamicBitmap) (n : ℕ) (c : IsClean d) (more : d.bitmap.len < n) where
  all_bits : (k : ℕ) → used_at (grown_words d n) k ≡ used_at (all_words d) k
  all_bits k = used_at-append-zeros (all_words d) ((page_count n - page_count d.bitmap.len) * 512) k

  grown-filled : length (grown_words d n) ≡ 512 * page_count n
  grown-filled = omega (
    arith,
    length-append (all_words d) (zeros ((page_count n - page_count d.bitmap.len) * 512)),
    length-zeros ((page_count n - page_count d.bitmap.len) * 512),
    c.filled,
    page_count_mono d.bitmap.len n (omega arith),
  )

  old_bits : (k : ℕ) → k < d.bitmap.len → used_at (grown_words d n) k ≡ used_at d.bitmap.bitmap k
  old_bits k lt =
      all_bits k
      ∙ used_at-append d.bitmap.bitmap d.unused k
          (omega (arith, covered d.bitmap.bitmap d.bitmap.len c.valid.sized))

  grown-free : zeros_below (used_at (grown_words d n)) n ≡ d.bitmap.free + (n - d.bitmap.len)
  grown-free =
      let split : n ≡ d.bitmap.len + (n - d.bitmap.len) = omega arith in
      let parts = zeros_below-add (used_at (grown_words d n)) d.bitmap.len (n - d.bitmap.len) in
      let low =
        zeros_below-ext (used_at (grown_words d n)) (used_at d.bitmap.bitmap) d.bitmap.len
          old_bits in
      let high =
        zeros_below-unset (λ j. used_at (grown_words d n) (d.bitmap.len + j)) (n - d.bitmap.len)
          (λ k. all_bits (d.bitmap.len + k) ∙ c.clean (d.bitmap.len + k) (omega arith)) in
      ap (zeros_below (used_at (grown_words d n))) split ∙ omega (arith, c.valid.counted)

  -- The words of the pages of a clean bitmap that grows, those of new pages filled with 0: `map` makes
  -- of them a clean bitmap of the new length. The old elements are used or free as they were, the new
  -- ones are free, and the count of the free ones has grown by as many.
  pub over_words_lem :
      n < 2 ^ 64
      → (e : DynamicBitmap) × (over_words d n (grown_words d n) ≡ ok e)
        × IsClean e
        × (e.bitmap.len ≡ n)
        × (e.bitmap.free ≡ d.bitmap.free + (n - d.bitmap.len))
        × ((k : ℕ) → k < d.bitmap.len → used_at e.bitmap.bitmap k ≡ used_at d.bitmap.bitmap k)
        × ((k : ℕ) → d.bitmap.len ≤ k → k < n → used_at e.bitmap.bitmap k ≡ false)
  unfolding over_words
  over_words_lem small =
      let ws = grown_words d n in
      let (b, made, valid, long, first, bits) =
        new-IsValid ws n (some (d.bitmap.free + (n - d.bitmap.len)))
          (words-append (all_words d) _ c.words (words-zeros _))
          (omega (arith, grown-filled, page_count-covers n)) small
          (inr (ap (λ f. some f) (sym grown-free))) in
      let e : DynamicBitmap = record d { bitmap = b; unused = skip (div_ceil n 64) ws } in
      let whole : all_words e ≡ ws =
        ap (λ f. f ++ skip (div_ceil n 64) ws) first ∙ take-skip (div_ceil n 64) ws in
      let counted : b.free ≡ d.bitmap.free + (n - d.bitmap.len) =
        valid.counted
        ∙ ap (zeros_below (used_at b.bitmap)) long
        ∙ zeros_below-ext (used_at b.bitmap) (used_at ws) n bits
        ∙ grown-free in
      (
        e,
        rw made refl,
        record {
          valid = valid;
          filled = ap length whole ∙ grown-filled ∙ ap (λ l. 512 * page_count l) (sym long);
          words = λ i x h. words-append (all_words d) _ c.words (words-zeros _) i x (rw whole at h);
          clean = λ k le. rw whole (all_bits k ∙ c.clean k (omega (arith, long)));
        },
        long,
        counted,
        λ k lt. bits k (omega arith) ∙ old_bits k lt,
        λ k le lt. bits k lt ∙ all_bits k ∙ c.clean k le,
      )
