-- ===== src/Heap/FixedSize.antt =====
-- ku/src/allocator/fixed_size.rs and, of ku/src/allocator/cache.rs, the clip: allocations of one size
-- from a quarry, of which a bitmap knows the free ones. The null pointer is 0. `clip_size` is a constant
-- of the layout of the clip in memory. A failed call that panics leaves no state.
pub mod Stock
pub mod Returned
pub mod Clips
use nikka.Common.{
  ℕ, zero, suc, ◌+◌, ◌-◌, ◌%◌, Bool, true, false, not, Option, some, none, List, [], ◌∷◌, length,
  leb, ltb, ◌==◌, if◌then◌else◌, Outcome, ok, err, panic, ◌>>=◌, ◌>>◌, assert, or_panic,
}
use nikka.Heap.Info
use nikka.Heap.Info.{Info}
use nikka.Heap.Quarry.{Quarry, allocation, allocation_index}
use nikka.Collections.Bitmap.{Bitmap, is_free, set_free, bulk_allocate}
use nikka.Collections.Bitmap
use nikka.Collections.DynamicBitmap
use nikka.Collections.DynamicBitmap.{DynamicBitmap}

pub record FixedSizeAllocator : Type 0 where
  pub bitmap : DynamicBitmap
  pub info : Info
  pub quarry : Option Quarry

abbrev pub new : FixedSizeAllocator
new = record { bitmap = DynamicBitmap.new; info = Info.new; quarry = none }

abbrev pub is_empty : FixedSizeAllocator → Bool
is_empty self = self.bitmap.bitmap.free == 0

-- `Layout`
pub record Layout : Type 0 where
  pub size : ℕ
  pub align : ℕ

-- `DerefMut` of the bitmap.
abbrev pub with_bits : FixedSizeAllocator → Bitmap → FixedSizeAllocator
with_bits self bits = record self { bitmap = record (self.bitmap) { bitmap = bits } }

unfoldable pub validate_layout : FixedSizeAllocator → Layout → Outcome (Unit {0})
validate_layout self layout = do
  quarry ← or_panic self.quarry
  assert (leb layout.size quarry.size)
  assert (quarry.size % layout.align == 0)

-- The address of an element that the bitmap has given, which goes back if its slab is not there.
unfoldable pub address_of :
    FixedSizeAllocator → Bitmap × Option ℕ → Outcome (FixedSizeAllocator × ℕ)
address_of self (bits, none) = ok (with_bits self bits, 0)
address_of self (bits, some index) = do
  quarry ← or_panic self.quarry
  address ← allocation quarry index
  if address == 0
      then (do freed ← set_free bits index; ok (with_bits self freed, 0))
      else ok (with_bits self bits, address)

unfoldable pub allocate : FixedSizeAllocator → Layout → Outcome (FixedSizeAllocator × ℕ)
unfolding address_of
allocate self layout = do
  validate_layout self layout
  taken ← Bitmap.allocate self.bitmap.bitmap
  address_of self taken

unfoldable pub deallocate_impl : FixedSizeAllocator → ℕ → Outcome FixedSizeAllocator
deallocate_impl self address = do
  assert (not (address == 0))
  quarry ← or_panic self.quarry
  found ← allocation_index quarry address
  index ← or_panic found
  free ← is_free self.bitmap.bitmap index
  assert (not free)
  bits ← set_free self.bitmap.bitmap index
  ok (with_bits self bits)

unfoldable pub deallocate : FixedSizeAllocator → ℕ → Layout → Outcome FixedSizeAllocator
unfolding deallocate_impl
deallocate self address layout = do
  assert (not (address == 0))
  validate_layout self layout
  deallocate_impl self address

-- The last of the allocations comes first.
pub record Clip : Type 0 where
  pub allocations : List ℕ
  pub is_bound : Bool

-- The loop of `fill_clip` over the elements that the bitmap has given. `push_unchecked` to a clip that
-- is full, which is undefined behaviour, is written as a panic.
unfoldable pub push_all :
    ℕ → List ℕ → FixedSizeAllocator → Clip → Outcome (FixedSizeAllocator × Clip)
push_all clip_size [] self clip = ok (self, clip)
push_all clip_size (index ∷ indices) self clip =
    let back = λ (bits : Bitmap). push_all clip_size indices (with_bits self bits) clip in
    let push = λ (address : ℕ).
      push_all clip_size indices self (record clip { allocations = address ∷ clip.allocations }) in
    do
      quarry ← or_panic self.quarry
      address ← allocation quarry index
      if address == 0
          then set_free self.bitmap.bitmap index >>= back
          else assert (ltb (length clip.allocations) clip_size) >>= λ _. push address

unfoldable pub fill_clip : ℕ → FixedSizeAllocator → Clip → ℕ → Outcome (FixedSizeAllocator × Clip)
fill_clip clip_size self clip len =
    let count = len - length clip.allocations in
    if count == 0
    then ok (self, clip)
    else bulk_allocate clip_size self.bitmap.bitmap count >>= λ given.
        push_all clip_size given.1 (with_bits self given.0)
          (record clip { is_bound = if ltb 0 clip_size then true else clip.is_bound })

-- `while clip.len() > len`
unfoldable pub pop_all : List ℕ → ℕ → FixedSizeAllocator → Outcome (FixedSizeAllocator × List ℕ)
pop_all [] len self = ok (self, [])
pop_all (address ∷ addresses) len self =
    let rest = λ (freed : FixedSizeAllocator). pop_all addresses len freed in
    if ltb len (suc (length addresses))
    then deallocate_impl self address >>= rest
    else ok (self, address ∷ addresses)

unfoldable pub unfill_clip : FixedSizeAllocator → Clip → ℕ → Outcome (FixedSizeAllocator × Clip)
unfill_clip self clip len = do
  popped ← pop_all clip.allocations len self
  ok (popped.0, record clip { allocations = popped.1 })
