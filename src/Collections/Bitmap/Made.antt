-- ===== src/Collections/Bitmap/Made.antt =====
-- `new` makes a valid bitmap, and `validate` checks the count.
use nikka.Common.{
  ℕ, zero, suc, ◌-◌, ◌*◌, ◌/◌, ◌^◌, ◌<◌, ◌≤◌, ◌≡◌, ◌↔◌, ◌⊎◌, inl, inr, refl, sym, ◌∙◌, ap, arith,
  true, ltb, leb, leb_iff, if◌then◌else◌, Bool-cases, length, List, [], ◌∷◌, get_elem?, Option,
  some, none, ok,
}
use nikka.Collections.Bitmap.{Bitmap, new, validate, take, div_ceil, given_or_counted}
use nikka.Collections.Bitmap.Zeros.{zeros_below, zeros_below-le, zeros_below-ext, used_at}
use nikka.Collections.Bitmap.Valid.{IsValid}
use nikka.Collections.Bitmap.Free.{count_free_lem, div_ceil_lem, div_ceil-size}

length-take : (n : ℕ) (es : List ℕ) → n ≤ length es → length (take n es) ≡ n
length-take zero es h = refl
length-take (suc n) [] h = absurd (omega arith)
length-take (suc n) (e ∷ es) h = ap suc (length-take n es (omega arith))

get_elem?-take :
    (n : ℕ) (es : List ℕ) (i e : ℕ) → get_elem? (take n es) i ≡ some e → get_elem? es i ≡ some e
get_elem?-take zero es i e h = ground arith
get_elem?-take (suc n) [] i e h = h
get_elem?-take (suc n) (x ∷ es) zero e h = h
get_elem?-take (suc n) (x ∷ es) (suc i) e h = get_elem?-take n es i e h

used_at-take : (n : ℕ) (es : List ℕ) (k : ℕ) → k < 64 * n → used_at (take n es) k ≡ used_at es k
unfolding used_at
used_at-take zero es k h = absurd (omega arith)
used_at-take (suc n) [] k h = refl
used_at-take (suc n) (x ∷ es) k h = elim (Bool-cases (ltb k 64)) [
  | inl low ↦ rw low refl
  | inr high ↦ rw high (used_at-take n es (k - 64) (ground arith))
]

-- The bitmap that `new` makes for a count.
abbrev made : List ℕ → ℕ → ℕ → Bitmap
made es len free = record {
  bitmap = take (div_ceil len 64) es;
  cursor = if leb (div_ceil len 64) ((len - free) / 64) then 0 else (len - free) / 64;
  free = free;
  len = len;
}

cursor_lt : (n c : ℕ) → 0 < n → (if leb n c then 0 else c) < n
cursor_lt n c h = ground arith

div_ceil-pos : (len : ℕ) → 0 < len → 0 < div_ceil len 64
div_ceil-pos len h = ground arith

-- For words that suffice: `new` without a count, or with the right one, makes a valid bitmap over
-- the first words, as many as the elements need, with their bits.
pub new-IsValid :
    (es : List ℕ) (len : ℕ) (given : Option ℕ)
    → ((i e : ℕ) → get_elem? es i ≡ some e → e < 2 ^ 64)
    → len ≤ 64 * length es
    → len < 2 ^ 64
    → (given ≡ none) ⊎ (given ≡ some (zeros_below (used_at es) len))
    → (b : Bitmap) × (new es len given ≡ ok b)
      × IsValid b
      × (b.len ≡ len)
      × (b.bitmap ≡ take (div_ceil len 64) es)
      × ((k : ℕ) → k < len → used_at b.bitmap k ≡ used_at es k)
unfolding new
new-IsValid es len given words fits small h =
    let free : ℕ = zeros_below (used_at es) len in
    let le = zeros_below-le (used_at es) len in
    let enough : leb len (64 * length es) ≡ true = (leb_iff len (64 * length es)).1 fits in
    let rounds : leb (div_ceil len 64) (length es) ≡ true = div_ceil_lem len (length es) ∙ enough in
    let under : leb free len ≡ true = (leb_iff free len).1 le in
    let count : given_or_counted es len given ≡ ok free = elim h [
      | inl e ↦ rw e (count_free_lem es len ∙ rw enough refl)
      | inr e ↦ rw e refl
    ] in
    let inside : (k : ℕ) → k < len → used_at (take (div_ceil len 64) es) k ≡ used_at es k =
      λ k p. used_at-take (div_ceil len 64) es k (omega (arith, div_ceil-size len)) in
    let size =
      length-take (div_ceil len 64) es ((leb_iff (div_ceil len 64) (length es)).0 rounds) in
    (
      made es len free,
      rw (count, under, rounds) refl,
      record {
        sized = size;
        words = λ i e g. words i e (get_elem?-take (div_ceil len 64) es i e g);
        counted =
            sym (zeros_below-ext (used_at (take (div_ceil len 64) es)) (used_at es) len inside);
        placed =
            λ p. rw size (cursor_lt (div_ceil len 64) ((len - free) / 64) (div_ceil-pos len p));
        small = small;
      },
      refl,
      refl,
      inside,
    )

-- `validate` accepts a bitmap with words for its elements exactly if its count is that of the free
-- elements.
pub validate_iff :
    (b : Bitmap)
    → b.len ≤ 64 * length b.bitmap
    → (validate b ≡ ok tt) ↔ (b.free ≡ zeros_below (used_at b.bitmap) b.len)
unfolding validate
validate_iff b fits =
    let enough : leb b.len (64 * length b.bitmap) ≡ true =
      (leb_iff b.len (64 * length b.bitmap)).1 fits in
    let count = count_free_lem b.bitmap b.len in rw (count, enough) (ground arith)
