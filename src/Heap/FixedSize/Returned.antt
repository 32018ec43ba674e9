-- ===== src/Heap/FixedSize/Returned.antt =====
-- What the allocator of one size gives, it takes back.
use nikka.Common.{
  ℕ, ◌<◌, ◌≤◌, ◌≡◌, ◌≢◌, ◌⊎◌, inl, inr, refl, ◌∙◌, arith, true, false, ltb, ◌==◌, Bool-cases, some,
  ok,
}
use nikka.Collections.Bitmap
use nikka.Collections.Bitmap.{Bitmap, is_free, set_free}
use nikka.Collections.Bitmap.Zeros.{used_at, bit_lem}
use nikka.Collections.Bitmap.Valid.{IsValid, covered}
use nikka.Collections.Bitmap.Search.{Takes, allocate_lem}
use nikka.Collections.Bitmap.Bulk.{Restores, give_back}
use nikka.Heap.Quarry.{Quarry, capacity, slab_index_of, slabs_for, allocation, allocation_index}
use nikka.Heap.Quarry.Address.{IsQuarry, AreApart, allocation_index-allocation}
use nikka.Heap.Quarry.Missing.{IsReserved}
use nikka.Heap.Quarry.Needed.{index_mono, same_index}
use nikka.Heap.FixedSize.{
  FixedSizeAllocator, Layout, validate_layout, allocate, address_of, deallocate, deallocate_impl,
}

-- The bitmap is valid, and the quarry has the slabs for all of its elements, and they are apart.
pub record IsStocked (self : FixedSizeAllocator) (q : Quarry) : Type 0 where
  pub has_quarry : self.quarry ≡ some q
  pub quarry_IsQuarry : IsQuarry q
  pub apart : AreApart q.slabs
  pub bits : IsValid self.bitmap.bitmap
  pub within : self.bitmap.bitmap.len ≤ capacity q
  pub slabs : (j : ℕ) → j < slabs_for q self.bitmap.bitmap.len → IsReserved q j

slab_of-element :
    (q : Quarry) (n len : ℕ) → IsQuarry q → n < len → slab_index_of q n < slabs_for q len
slab_of-element q n len v h = elim (Bool-cases (slab_index_of q n == slab_index_of q len)) [
  | inl same ↦
      let e : slab_index_of q n ≡ slab_index_of q len = ground arith in
      let more = same_index q n len e h in ground arith
  | inr other ↦ let le = index_mono q n len v (omega arith) in ground arith
]

-- The address of an element of a stocked allocator.
unfoldable pub Addressed : Quarry → ℕ → Type 0
Addressed q n = (a : ℕ) × (allocation q n ≡ ok a) × (a ≢ 0) × (allocation_index q a ≡ ok (some n))

pub addressed :
    (self : FixedSizeAllocator) (q : Quarry) (n : ℕ)
    → IsStocked self q
    → n < self.bitmap.bitmap.len
    → Addressed q n
unfolding Addressed
addressed self q n v h =
    let (s, there, good) =
      v.slabs (slab_index_of q n)
        (slab_of-element q n self.bitmap.bitmap.len v.quarry_IsQuarry h) in
    let (a, given, low, high, found) =
      allocation_index-allocation q n s v.quarry_IsQuarry v.apart (omega (arith, v.within)) there
        good.there in
    (a, given, λ z. good.there (omega arith), found)

-- What `allocate` and then `deallocate` of its address leave.
GivenAndReturned : FixedSizeAllocator → Quarry → Layout → Type 0
GivenAndReturned self q layout =
    (after : FixedSizeAllocator) × (a : ℕ) × (allocate self layout ≡ ok (after, a))
    × (a ≢ 0)
    × (back : FixedSizeAllocator) × (deallocate after a layout ≡ ok back)
    × IsStocked back q
    × ((m : ℕ) → used_at back.bitmap.bitmap.bitmap m ≡ used_at self.bitmap.bitmap.bitmap m)
    × (back.bitmap.bitmap.free ≡ self.bitmap.bitmap.free)

pub used-is_free :
    (b : Bitmap) (n : ℕ)
    → IsValid b
    → n < b.len
    → used_at b.bitmap n ≡ true
    → is_free b n ≡ ok false
unfolding is_free
used-is_free b n v h u =
    let lt : ltb n b.len ≡ true = ground arith in
    rw (lt, bit_lem b.bitmap n (omega (arith, covered b.bitmap b.len v.sized)), u) refl

-- The two calls, from what their parts return.
module _ (self : FixedSizeAllocator) (q : Quarry) (layout : Layout) (b' c : Bitmap) (n a : ℕ)
    (has : self.quarry ≡ some q) (nz : (a == 0) ≡ false) where
  with_bitmap : Bitmap → FixedSizeAllocator
  with_bitmap b = record self { bitmap = record (self.bitmap) { bitmap = b } }

  allocate_run :
      validate_layout self layout ≡ ok tt
      → Bitmap.allocate self.bitmap.bitmap ≡ ok (b', some n)
      → allocation q n ≡ ok a
      → allocate self layout ≡ ok (with_bitmap b', a)
  unfolding allocate address_of with_bitmap
  allocate_run fits taken given = rw (fits, taken, has, given, nz) refl

  deallocate_run :
      validate_layout (with_bitmap b') layout ≡ ok tt
      → allocation_index q a ≡ ok (some n)
      → is_free b' n ≡ ok false
      → set_free b' n ≡ ok c
      → deallocate (with_bitmap b') a layout ≡ ok (with_bitmap c)
  unfolding deallocate deallocate_impl with_bitmap
  deallocate_run fits found used freed = rw nz (rw fits (rw (has, found, used, freed) refl))

  validate_layout-same : validate_layout (with_bitmap b') layout ≡ validate_layout self layout
  unfolding validate_layout with_bitmap
  validate_layout-same = refl

given_and_returned :
    (self : FixedSizeAllocator) (q : Quarry) (layout : Layout) (b' : Bitmap) (n : ℕ)
    → IsStocked self q
    → validate_layout self layout ≡ ok tt
    → Bitmap.allocate self.bitmap.bitmap ≡ ok (b', some n)
    → Takes self.bitmap.bitmap b' n
    → GivenAndReturned self q layout
unfolding GivenAndReturned Addressed Restores with_bitmap
given_and_returned self q layout b' n v fits taken t =
    let (a, given, nz, found) = addressed self q n v t.within in
    let (c, freed, valid, bits, free, len) = give_back self.bitmap.bitmap b' n t in
    let z : (a == 0) ≡ false = ground arith in
    let used =
      used-is_free b' n t.valid (omega (arith, t.within, t.changes.len))
        (t.changes.bits n ∙ ground arith) in
    let back : FixedSizeAllocator = record self { bitmap = record (self.bitmap) { bitmap = c } } in
    (
      record self { bitmap = record (self.bitmap) { bitmap = b' } },
      a,
      allocate_run self q layout b' c n a v.has_quarry z fits taken given,
      nz,
      back,
      deallocate_run self q layout b' c n a v.has_quarry z
          (validate_layout-same self q layout b' c n a v.has_quarry z ∙ fits) found used freed,
      record {
        has_quarry = v.has_quarry;
        quarry_IsQuarry = v.quarry_IsQuarry;
        apart = v.apart;
        bits = valid;
        within = omega (arith, v.within);
        slabs = λ j p. v.slabs j (rw len at p);
      },
      bits,
      free,
    )

-- For a stocked allocator and a layout that it accepts: without a free element `allocate` returns the
-- null pointer and changes nothing. Else it returns an address that is not null, and `deallocate` of
-- that address succeeds and leaves a stocked allocator with the same elements used and as many free.
pub deallocate-allocate-IsStocked :
    (self : FixedSizeAllocator) (q : Quarry) (layout : Layout)
    → IsStocked self q
    → validate_layout self layout ≡ ok tt
    → ((self.bitmap.bitmap.free ≡ 0) × (allocate self layout ≡ ok (self, 0)))
      ⊎ ((after : FixedSizeAllocator) × (a : ℕ) × (allocate self layout ≡ ok (after, a))
          × (a ≢ 0)
          × (back : FixedSizeAllocator) × (deallocate after a layout ≡ ok back)
          × IsStocked back q
          × ((m : ℕ) → used_at back.bitmap.bitmap.bitmap m ≡ used_at self.bitmap.bitmap.bitmap m)
          × (back.bitmap.bitmap.free ≡ self.bitmap.bitmap.free))
unfolding allocate address_of GivenAndReturned
deallocate-allocate-IsStocked self q layout v fits = elim (allocate_lem self.bitmap.bitmap v.bits) [
  | inl (empty, nothing) ↦ inl (empty, rw (fits, nothing) refl)
  | inr (b', n, taken, t) ↦ inr (given_and_returned self q layout b' n v fits taken t)
]
