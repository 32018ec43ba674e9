-- ===== src/Heap/Quarry.antt =====
-- ku/src/allocator/quarry.rs: slabs of memory that are cut into allocations of one size. `Page::default()` is the page with the number 0.
pub mod Pages
pub mod Address
pub mod Counts
pub mod Missing
pub mod Slabs
pub mod Mapped
pub mod Needed
pub mod Reserve
use nikka.Common.{
  ℕ, zero, suc, ◌+◌, ◌-◌, ◌*◌, ◌/◌, ◌%◌, ◌^◌, Bool, true, false, not, ◌&&◌, Option, some, none,
  List, [], ◌∷◌, get_elem?, length, set, ltb, leb, ◌==◌, if◌then◌else◌, min, Outcome, ok, err,
  panic, assert, or_panic, sub_usize, ◌>>=◌, ◌>>◌,
}
use nikka.Memory.Block.{Block, block, zero_block, contains_address}
use nikka.Kernel.Range.{page}
use nikka.Collections.Bitmap.{div_ceil}

abbrev pub slab_size : ℕ
slab_size = 2 ^ 20

abbrev pub page_size : ℕ
page_size = 4096

abbrev pub slab_page_count : ℕ
slab_page_count = 256

abbrev pub slab_count : ℕ
slab_count = 16

-- A slab is the number of its first page, or 0 while it is not reserved.
pub record Quarry : Type 0 where
  pub size : ℕ
  pub slab_allocation_count : ℕ
  pub slabs : List ℕ

abbrev no_slabs : List ℕ
no_slabs = 0 ∷ 0 ∷ 0 ∷ 0 ∷ 0 ∷ 0 ∷ 0 ∷ 0 ∷ 0 ∷ 0 ∷ 0 ∷ 0 ∷ 0 ∷ 0 ∷ 0 ∷ 0 ∷ []

abbrev pub made : ℕ → Quarry
made size = record { size = size; slab_allocation_count = slab_size / size; slabs = no_slabs }

pub new : ℕ → Outcome Quarry
new size = if size == 0 then panic else if slab_size / size == 0 then panic else ok (made size)

unfoldable pub capacity : Quarry → ℕ
capacity self = self.slab_allocation_count * slab_count

abbrev pub slab_index_of : Quarry → ℕ → ℕ
slab_index_of self allocation_index = allocation_index / self.slab_allocation_count

abbrev pub offset_in_slab : Quarry → ℕ → ℕ
offset_in_slab self allocation_index = allocation_index % self.slab_allocation_count

abbrev pub slab_at : ℕ → Block
slab_at start = if start == 0 then zero_block else block start (start + slab_page_count)

unfoldable pub slab : Quarry → ℕ → Outcome Block
slab self slab_index = do start ← or_panic (get_elem? self.slabs slab_index); ok (slab_at start)

abbrev pub is_default : Block → Bool
is_default b = b.start == 0 && b.end == 0

-- `Slab::address_unchecked` of the offset, or the null address without a slab.
abbrev address_in : Quarry → ℕ → Block → ℕ
address_in self offset b =
    if is_default b then 0 else (b.start * page_size + offset * self.size) % 2 ^ 64

unfoldable pub allocation : Quarry → ℕ → Outcome ℕ
unfolding slab capacity
allocation self allocation_index = do
  assert (ltb allocation_index (capacity self))
  b ← slab self (slab_index_of self allocation_index)
  ok (address_in self (offset_in_slab self allocation_index) b)

-- The index of an address in the slab `b`, the one with the number `slab_index`, or what the rest finds.
unfoldable pub index_in : Quarry → ℕ → ℕ → Outcome (Option ℕ) → Block → Outcome (Option ℕ)
index_in self slab_index address rest b =
    if is_default b
    then rest
    else if contains_address page b address
    then (do
      offset_bytes ← sub_usize address (b.start * page_size)
      ok (some (slab_index * self.slab_allocation_count + offset_bytes / self.size)))
    else rest

-- The loop of `allocation_index`, over the slabs that are left.
unfoldable pub index_from : Quarry → ℕ → ℕ → ℕ → Outcome (Option ℕ)
unfolding slab index_in
index_from self address slab_index zero = ok none
index_from self address slab_index (suc left) =
    let rest = index_from self address (suc slab_index) left in
    slab self slab_index >>= index_in self slab_index address rest

unfoldable pub allocation_index : Quarry → ℕ → Outcome (Option ℕ)
unfolding index_from
allocation_index self address = index_from self address 0 slab_count

-- `slab_page_count`, the pages that so many allocations of a slab need.
abbrev pub pages_for : Quarry → ℕ → ℕ
pages_for self mapped_allocation_count = div_ceil (mapped_allocation_count * self.size) page_size

-- The slabs that so many allocations need.
abbrev pub slabs_for : Quarry → ℕ → ℕ
slabs_for self n =
    if ltb 0 (offset_in_slab self n) then slab_index_of self n + 1 else slab_index_of self n
