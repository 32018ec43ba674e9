-- ===== src/Collections/Tests.antt =====
-- The theorems about bitmaps at concrete arguments.
use nikka.Common.{
  ℕ, zero, suc, ◌<◌, ◌≡◌, ◌⊎◌, inl, refl, arith, false, List, [], ◌∷◌, get_elem?, length, min, some,
  none, ok, panic, ◌^◌, ◌+◌, ◌-◌, ◌≤◌,
}
use nikka.Collections.Bitmap.{Bitmap, allocate, count_free, bulk_allocate, new, take, div_ceil}
use nikka.Collections.Bitmap.Zeros.{used_at, zeros_below}
use nikka.Collections.Bitmap.Valid.{IsValid}
use nikka.Collections.Bitmap.Search.{Takes, allocate_lem}
use nikka.Collections.Bitmap.Free.{count_free_lem}
use nikka.Collections.Bitmap.Bulk.{TakesAll, bulk_allocate_lem}
use nikka.Collections.Bitmap.Made.{new-IsValid}
use nikka.Collections.DynamicBitmap
use nikka.Collections.DynamicBitmap.{DynamicBitmap, over_words}
use nikka.Collections.DynamicBitmap.Grown.{IsClean, grown_words, over_words_lem}

-- Of three elements the one in the middle is free.
abbrev pub one_free : Bitmap
one_free = record { bitmap = 5 ∷ []; cursor = 0; free = 1; len = 3 }

one_word : (i e : ℕ) → get_elem? (5 ∷ []) i ≡ some e → e < 2 ^ 64
one_word zero e h = ground arith
one_word (suc i) e h = ground arith

pub one_free-IsValid : IsValid one_free
unfolding zeros_below used_at
one_free-IsValid = record {
  sized = refl;
  words = one_word;
  counted = refl;
  placed = λ p. omega arith;
  small = omega arith;
}

abbrev full : Bitmap
full = record { bitmap = 7 ∷ []; cursor = 0; free = 0; len = 3 }

allocate_run : allocate one_free ≡ ok (full, some 1)
unfolding allocate
allocate_run = refl

allocate_lem_example :
    (◌≡◌ {A = ℕ} 1 0 × (allocate one_free ≡ ok (one_free, none)))
    ⊎ ((b' : Bitmap) × (n : ℕ) × (allocate one_free ≡ ok (b', some n)) × Takes one_free b' n)
allocate_lem_example = allocate_lem one_free one_free-IsValid

bulk_allocate_lem_example :
    ((24 < 2) × (bulk_allocate 24 one_free 2 ≡ panic))
    ⊎ ((b' : Bitmap) × (ns : List ℕ) × (bulk_allocate 24 one_free 2 ≡ ok (b', ns))
        × (length ns ≡ min 2 1)
        × TakesAll one_free b' ns)
bulk_allocate_lem_example = bulk_allocate_lem 24 2 one_free one_free-IsValid

count_free_lem_example : count_free (5 ∷ []) 3 ≡ ok (zeros_below (used_at (5 ∷ [])) 3)
count_free_lem_example = count_free_lem (5 ∷ []) 3

new-IsValid_example :
    (b : Bitmap) × (new (5 ∷ []) 3 none ≡ ok b)
    × IsValid b
    × (b.len ≡ 3)
    × (b.bitmap ≡ take (div_ceil 3 64) (5 ∷ []))
    × ((k : ℕ) → k < 3 → used_at b.bitmap k ≡ used_at (5 ∷ []) k)
new-IsValid_example = new-IsValid (5 ∷ []) 3 none one_word (omega arith) (omega arith) (inl refl)

-- A bitmap without elements and without pages.
empty-IsClean : IsClean DynamicBitmap.new
unfolding zeros_below used_at
empty-IsClean = record {
  valid = record {
    sized = refl;
    words = λ i e h. ground arith;
    counted = refl;
    placed = λ p. elim p [ ];
    small = omega arith;
  };
  filled = refl;
  words = λ i e h. ground arith;
  clean = λ n h. refl;
}

over_words_lem_example :
    (e : DynamicBitmap) × (over_words DynamicBitmap.new 100 (grown_words DynamicBitmap.new 100)
      ≡ ok e)
    × IsClean e
    × (e.bitmap.len ≡ 100)
    × (e.bitmap.free ≡ 0 + (100 - 0))
    × ((k : ℕ) → k < 0 → used_at e.bitmap.bitmap k ≡ used_at [] k)
    × ((k : ℕ) → 0 ≤ k → k < 100 → used_at e.bitmap.bitmap k ≡ false)
over_words_lem_example =
    over_words_lem DynamicBitmap.new 100 empty-IsClean (omega arith) (omega arith)
