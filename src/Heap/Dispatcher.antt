-- ===== src/Heap/Dispatcher.antt =====
-- ku/src/allocator/dispatcher.rs: which allocator of one size serves a layout. The calls of the fallback
-- are left out.
pub mod Calls
pub mod Through
use mathlib.Core.Option.{some-injective}
use native.Mathlib.Nat.{
  div-add-mod', mod-lt, mul-mod_left, mul_assoc, mul-le-mul_right, mod-eq_of_lt,
}
use nikka.Common.{
  ◌↔◌, subst, Bool, ℕ, suc, ◌+◌, ◌-◌, ◌*◌, ◌/◌, ◌%◌, ◌<◌, ◌≤◌, ◌≡◌, ◌⊎◌, inl, inr, refl, sym, ◌∙◌,
  ap, arith, max, true, false, ◌||◌, ltb, leb, ◌==◌, if◌then◌else◌, Bool-cases, Option, some, none,
  ok,
}
use nikka.Heap.Quarry.{Quarry}
use nikka.Heap.FixedSize.{FixedSizeAllocator, Layout, validate_layout}

abbrev pub min_size : ℕ
min_size = 8

abbrev pub fixed_size_count : ℕ
fixed_size_count = (4 * 4096 - 1) / min_size

-- `usize::next_multiple_of`. The size and the alignment of a layout are below 2 ^ 63.
abbrev pub next_multiple_of : ℕ → ℕ → ℕ
next_multiple_of a m = if a % m == 0 then a else a + (m - a % m)

abbrev pub required_size : Layout → ℕ
required_size layout =
    next_multiple_of
      (max (next_multiple_of layout.size min_size) (next_multiple_of layout.align min_size))
      (next_multiple_of layout.align min_size)

unfoldable pub get_fixed_size_index : Layout → Option ℕ
get_fixed_size_index layout =
    if required_size layout % 4096 == 0 || ltb (fixed_size_count * min_size) (required_size layout)
    then none
    else some (required_size layout / min_size - 1)

abbrev pub get_size : ℕ → ℕ
get_size index = (index + 1) * min_size

next_multiple_of-ge : (a m : ℕ) → a ≤ next_multiple_of a m
next_multiple_of-ge a m = ground arith

-- A multiple of `m`.
next_multiple_of-mod : (a m : ℕ) → 0 < m → next_multiple_of a m % m ≡ 0
next_multiple_of-mod a m h = elim (Bool-cases (a % m == 0)) [
  | inl exact ↦ rw exact (ground arith)
  | inr over ↦
      let split = div-add-mod' a m in
      let rem = mod-lt a h in
      let next : suc (a / m) * m ≡ a / m * m + m = grind arith in
      let e : a + (m - a % m) ≡ suc (a / m) * m = omega arith in
      rw (over, e) (mul-mod_left (suc (a / m)) m)
]

-- The alignments of layouts: the powers of two, which are 1, 2, 4 or a multiple of 8.
abbrev pub IsAlignment : ℕ → Type 0
IsAlignment align = (align ≡ 1) ⊎ (align ≡ 2) ⊎ (align ≡ 4) ⊎ ((0 < align) × (align % 8 ≡ 0))

-- What a multiple of `m` is a multiple of.
multiple : (n m d : ℕ) → 0 < m → 0 < d → n % m ≡ 0 → m % d ≡ 0 → n % d ≡ 0
multiple n m d p q h k =
    let a = div-add-mod' n m in
    let b = div-add-mod' m d in
    let outer : n ≡ n / m * m = omega arith in
    let inner : m ≡ m / d * d = omega arith in
    let e : n ≡ n / m * (m / d) * d =
      outer ∙ ap (λ z. n / m * z) inner ∙ sym (mul_assoc (n / m) (m / d) d) in
    ap (λ z. z % d) e ∙ mul-mod_left (n / m * (m / d)) d

-- The alignment as a multiple of 8.
align_class :
    (align : ℕ)
    → IsAlignment align
    → (0 < next_multiple_of align 8)
      × (next_multiple_of align 8 % 8 ≡ 0)
      × (0 < align)
      × (next_multiple_of align 8 % align ≡ 0)
align_class align (inl e) = rw e (omega arith)
align_class align (inr (inl e)) = rw e (omega arith)
align_class align (inr (inr (inl e))) = rw e (omega arith)
align_class align (inr (inr (inr (pos, whole)))) =
    let same : next_multiple_of align 8 ≡ align = rw whole refl in
    let self = mul-mod_left 1 align in
    let one : 1 * align ≡ align = omega arith in rw same (pos, whole, pos, rw one at self)

required_class :
    (layout : Layout)
    → IsAlignment layout.align
    → (layout.size ≤ required_size layout)
      × (required_size layout % 8 ≡ 0)
      × (8 ≤ required_size layout)
      × (required_size layout % layout.align ≡ 0)
required_class layout h =
    let (pos, eight, align_pos, own) = align_class layout.align h in
    let m : ℕ = next_multiple_of layout.align 8 in
    let x : ℕ = max (next_multiple_of layout.size 8) m in
    let ge = next_multiple_of-ge x m in
    let small = next_multiple_of-ge layout.size 8 in
    let whole = next_multiple_of-mod x m pos in
    (
      omega arith,
      multiple (next_multiple_of x m) m 8 pos (omega arith) whole eight,
      omega arith,
      multiple (next_multiple_of x m) m layout.align pos align_pos whole own,
    )

le_or_gt : (a b : ℕ) → (a ≤ b) ⊎ (b < a)
le_or_gt a b = omega arith

quotient_lt : (x y m : ℕ) → x * m < y * m → x < y
quotient_lt x y m h = elim (le_or_gt y x) [
  | inl le ↦ let more = mul-le-mul_right {m = y} {n = x} m le in absurd (omega arith)
  | inr lt ↦ lt
]

-- `next_multiple_of` is the least multiple that is not smaller.
next_multiple_of-least : (a m k : ℕ) → 0 < m → a ≤ k → k % m ≡ 0 → next_multiple_of a m ≤ k
next_multiple_of-least a m k h le whole = elim (Bool-cases (a % m == 0)) [
  | inl exact ↦ rw exact le
  | inr over ↦
      let split = div-add-mod' a m in
      let split_k = div-add-mod' k m in
      let rem = mod-lt a h in
      let next : suc (a / m) * m ≡ a / m * m + m = grind arith in
      let some_over : 0 < a % m = ground arith in
      let le_k : a / m * m < k / m * m = omega arith in
      let more : suc (a / m) * m ≤ k / m * m =
        mul-le-mul_right m (quotient_lt (a / m) (k / m) m le_k) in
      rw over (omega arith)
]

le_of_multiple : (k m : ℕ) → 0 < k → k % m ≡ 0 → m ≤ k
le_of_multiple k m pos whole = elim (le_or_gt m k) [
  | inl le ↦ le
  | inr gt ↦ absurd (omega (arith, mod-eq_of_lt gt))
]

-- The least size for a layout: room for it, and a multiple of 8 and of the alignment.
pub record IsLeast (layout : Layout) (r : ℕ) : Type 0 where
  pub room : layout.size ≤ r
  pub positive : 0 < r
  pub eights : r % 8 ≡ 0
  pub aligned : r % layout.align ≡ 0
  pub least : (k : ℕ) → layout.size ≤ k → 0 < k → k % 8 ≡ 0 → k % layout.align ≡ 0 → r ≤ k

-- The alignment that is used divides all multiples of 8 and of the alignment.
aligned_class :
    (align k : ℕ) → IsAlignment align → k % 8 ≡ 0 → k % align ≡ 0 → k % next_multiple_of align 8 ≡ 0
aligned_class align k (inl e) p q = rw e p
aligned_class align k (inr (inl e)) p q = rw e p
aligned_class align k (inr (inr (inl e))) p q = rw e p
aligned_class align k (inr (inr (inr (pos, whole)))) p q =
    let same : next_multiple_of align 8 ≡ align = rw whole refl in rw same q

required_size-IsLeast :
    (layout : Layout) → IsAlignment layout.align → IsLeast layout (required_size layout)
required_size-IsLeast layout h =
    let (room, eights, more, aligned) = required_class layout h in
    let m : ℕ = next_multiple_of layout.align 8 in
    let n : ℕ = next_multiple_of layout.size 8 in
    record {
      room = room;
      positive = omega arith;
      eights = eights;
      aligned = aligned;
      least = λ k fits pos p q.
          let a = next_multiple_of-least layout.size 8 k (omega arith) fits p in
          let b =
            next_multiple_of-least layout.align 8 k (omega arith)
              (le_of_multiple k layout.align pos q) p in
          let x : max n m ≤ k = omega arith in
          next_multiple_of-least (max n m) m k ((align_class layout.align h).0) x
            (aligned_class layout.align k h p q);
    }

large_class :
    (r : ℕ)
    → (r % 4096 == 0 || ltb (fixed_size_count * min_size) r) ≡ true
    → (r % 4096 ≡ 0) ⊎ (16376 < r)
large_class r h = ground arith

not_small :
    (r : ℕ)
    → (r % 4096 == 0 || ltb (fixed_size_count * min_size) r) ≡ false
    → ¬ ((r % 4096 ≡ 0) ⊎ (16376 < r))
not_small r h o = ground arith

-- The test for what goes to the fallback.
abbrev too_large : Layout → Bool
too_large layout =
    required_size layout % 4096 == 0 || ltb (fixed_size_count * min_size) (required_size layout)

none_iff :
    (layout : Layout)
    → (get_fixed_size_index layout ≡ none)
      ↔ ((required_size layout % 4096 ≡ 0) ⊎ (16376 < required_size layout))
unfolding get_fixed_size_index
none_iff layout = (
  λ e. elim (Bool-cases (too_large layout)) [
    | inl large ↦ large_class (required_size layout) large
    | inr small ↦ let k = rw small at e in absurd (ground arith)
  ],
  λ o. elim (Bool-cases (too_large layout)) [
    | inl large ↦ rw large refl
    | inr small ↦ absurd (not_small (required_size layout) small o)
  ],
)

some_iff :
    (layout : Layout) (index : ℕ)
    → get_fixed_size_index layout ≡ some index
    → (too_large layout ≡ false) × (required_size layout / 8 - 1 ≡ index)
unfolding get_fixed_size_index
some_iff layout index e = elim (Bool-cases (too_large layout)) [
  | inl large ↦ let k = rw large at e in absurd (ground arith)
  | inr small ↦ let k = rw small at e in (small, some-injective _ index k)
]

accepted :
    (self : FixedSizeAllocator) (q : Quarry) (layout : Layout) {r : ℕ}
    → self.quarry ≡ some q
    → q.size ≡ r
    → IsLeast layout r
    → validate_layout self layout ≡ ok tt
unfolding validate_layout
accepted self q layout {r} has size least =
    let fits = least.room in
    let le : leb layout.size q.size ≡ true = ground arith in
    let aligned : q.size % layout.align ≡ 0 = rw size (least.aligned) in
    let whole : (q.size % layout.align == 0) ≡ true = rw aligned refl in
    rw has (rw (le, whole) refl)

small_class :
    (r : ℕ)
    → (r % 4096 == 0 || ltb (fixed_size_count * min_size) r) ≡ false
    → r / 8 - 1 < fixed_size_count
small_class r h = ground arith

-- For a layout with an alignment that is a power of two there is a least size that is a multiple of 8
-- and of the alignment with room for it. If that is a multiple of the page size, or larger than the
-- largest size of an allocator, `get_fixed_size_index` gives none, and only then. Else it gives an index
-- in range, whose size is exactly that least size; an allocator of that size accepts the layout.
pub get_fixed_size_index_lem :
    (layout : Layout)
    → IsAlignment layout.align
    → (r : ℕ) × IsLeast layout r
      × ((get_fixed_size_index layout ≡ none) ↔ ((r % 4096 ≡ 0) ⊎ (16376 < r)))
      × ((index : ℕ)
          → get_fixed_size_index layout ≡ some index
          → (index < fixed_size_count)
            × (get_size index ≡ r)
            × ((self : FixedSizeAllocator) (q : Quarry)
                → self.quarry ≡ some q
                → q.size ≡ get_size index
                → validate_layout self layout ≡ ok tt))
unfolding get_fixed_size_index validate_layout
get_fixed_size_index_lem layout h =
    let least = required_size-IsLeast layout h in
    let r : ℕ = required_size layout in
    (
      required_size layout,
      least,
      none_iff layout,
      λ index e.
          let (small, is) = some_iff layout index e in
          let back : (r / 8 - 1 + 1) * 8 ≡ r = omega (arith, least) in
          let size_is : get_size index ≡ r = ap get_size (sym is) ∙ back in
          (
            subst (λ i. i < fixed_size_count) is (small_class r small),
            size_is,
            λ self q has size. accepted self q layout has (size ∙ size_is) least,
          ),
    )
