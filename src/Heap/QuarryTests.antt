-- ===== src/Heap/QuarryTests.antt =====
-- The theorems about quarries and the allocators of one size at concrete arguments.
use nikka.Common.{
  ◌↔◌, ℕ, zero, suc, ◌<◌, ◌≡◌, ◌≢◌, ◌⊎◌, inl, inr, refl, arith, Bool, true, false, ◌&&◌, List, [],
  ◌∷◌, get_elem?, length, Option, some, none, Outcome, ok, err, no_page, ◌^◌, min, ◌++◌, ◌+◌, ◌-◌,
  ◌*◌, ◌≤◌, ◌/◌, ◌%◌, leb, ltb, if◌then◌else◌, Bool-cases, subst, ap,
}
use nikka.Common.Effects.{continue, return}
use nikka.Memory.Block.{Block, block, slice, from_index}
use nikka.Heap.Info
use nikka.Heap.Big.{BigAllocator}
use nikka.Heap.Quarry.{
  Quarry, made, capacity, slab_index_of, offset_in_slab, allocation, allocation_index, page_size,
  slab_count,
}
use nikka.Heap.Quarry.Pages.{Store, map, reserve, in_allocator, actual_allocations, map_reserved}
use nikka.Heap.Quarry.Address.{IsSlab, IsQuarry, AreApart, allocation_index-allocation}
use nikka.Heap.Quarry.Slabs.{reserve_all_missing}
use nikka.Heap.Quarry.Missing.{map_all_missing}
use nikka.Heap.Quarry.Needed.{needed, actual_allocations_lem}
use nikka.Heap.Quarry.Reserve.{ReservesSlabs, map_lem}
use nikka.Heap.FixedSize.{
  Clip, fill_clip, unfill_clip, FixedSizeAllocator, Layout, allocate, deallocate, validate_layout,
}
use nikka.Collections.Bitmap.Bulk.{IsDistinct}
use nikka.Heap.FixedSize.Clips.{unfill_clip-fill_clip}
use nikka.Heap.FixedSize.Returned.{IsStocked, deallocate-allocate-IsStocked}
use nikka.Heap.Dispatcher.Calls.{Dispatcher, fixed_size_allocate, fixed_size_deallocate}
use nikka.Heap.Dispatcher.Through.{with_allocations, fixed_size_deallocate-fixed_size_allocate}
use nikka.Heap.Dispatcher.{
  IsLeast, get_fixed_size_index, get_size, fixed_size_count, get_fixed_size_index_lem,
}
use nikka.Collections.DynamicBitmap.{zeros}
use nikka.Collections.Bitmap.Zeros.{used_at}
use nikka.Collections.Tests.{one_free, one_free-IsValid}

zeros-get : (k j s : ℕ) → get_elem? (zeros k) j ≡ some s → s ≡ 0
zeros-get zero j s h = ground arith
zeros-get (suc k) zero s h = ground arith
zeros-get (suc k) (suc j) s h = zeros-get k j s h

-- Allocations of 64 bytes, and one slab at the page 256.
abbrev one_slab : Quarry
one_slab = record { size = 64; slab_allocation_count = 16384; slabs = 256 ∷ zeros 15 }

IsSlab-256 : IsSlab 256
IsSlab-256 = record {
  there = λ e. absurd (omega arith);
  whole = record {
    ordered = omega arith;
    starts = inl (omega arith);
    ends = omega arith;
    fits = omega arith;
  };
  no_gap = refl;
}

one_slab-get : (j s : ℕ) → get_elem? (256 ∷ zeros 15) j ≡ some s → s ≢ 0 → (j ≡ 0) × (s ≡ 256)
one_slab-get zero s h nz = (refl, ground arith)
one_slab-get (suc j) s h nz = absurd (nz (zeros-get 15 j s h))

one_slab-IsQuarry : IsQuarry one_slab
one_slab-IsQuarry = record {
  some_size = omega arith;
  per_slab = refl;
  some_per_slab = omega arith;
  slab_places = refl;
  slabs_IsSlab = λ j s h nz. rw ((one_slab-get j s h nz).1) IsSlab-256;
}

one_slab-AreApart : AreApart (256 ∷ zeros 15)
unfolding AreApart
one_slab-AreApart i j s t h k ne p q =
    let a = one_slab-get i s h p in let b = one_slab-get j t k q in absurd (ne (omega arith))

allocation_index-allocation_example :
    (a : ℕ) × (allocation one_slab 5 ≡ ok a)
    × (256 * page_size ≤ a)
    × (a + 64 ≤ (256 + 256) * page_size)
    × (allocation_index one_slab a ≡ ok (some 5))
allocation_index-allocation_example =
    allocation_index-allocation one_slab 5 256 one_slab-IsQuarry one_slab-AreApart
      (unfold capacity in omega arith) refl (λ e. absurd (omega arith))

actual_allocations_lem_example :
    (5 ≤ actual_allocations one_slab 5)
    × (actual_allocations one_slab 5 ≤ capacity one_slab)
    × ((i : ℕ)
        → i < actual_allocations one_slab 5
        → offset_in_slab one_slab i * 64 + 64
          ≤ needed one_slab 5 (slab_index_of one_slab i) * page_size)
actual_allocations_lem_example =
    actual_allocations_lem one_slab 5 one_slab-IsQuarry (unfold capacity in omega arith)

-- An allocator that hands out pages in a row, from its state on, as long as they are low.
abbrev in_a_row : BigAllocator ℕ
in_a_row = record {
  flags = λ s. 7;
  reserve = λ size align s.
      if leb 1 s && leb s (2 ^ 20) then (s + 256, ok (block s (s + 256))) else (s, err no_page);
  reserve_fixed = λ b s. (s, err no_page);
  unreserve = λ b s. (s, ok tt);
  map = λ b flags s. (s, ok tt);
  unmap = λ b s. (s, ok tt);
  copy_mapping = λ old new flags s. (s, ok tt);
}

low-IsSlab : (s : ℕ) → (leb 1 s && leb s (2 ^ 20)) ≡ true → IsSlab s
low-IsSlab s h = record {
  there = λ e. ground arith;
  whole = record {
    ordered = omega arith;
    starts = inl (ground arith);
    ends = ground arith;
    fits = ground arith;
  };
  no_gap = ground arith;
}

in_a_row-ReservesSlabs : ReservesSlabs in_a_row
in_a_row-ReservesSlabs a a' b h = elim (Bool-cases (leb 1 a && leb a (2 ^ 20))) [
  | inl low ↦ subst IsSlab (ap (λ x. first_page x.1) (rw low at h)) (low-IsSlab a low)
  | inr high ↦ let k = rw high at h in ground arith
]
  where
    first_page : Outcome Block → ℕ
    first_page (ok c) = c.start
    first_page other = a

abbrev start : Store ℕ
start = record { quarry = made 64; allocator = 256 }

made-IsQuarry : IsQuarry (made 64)
made-IsQuarry = record {
  some_size = omega arith;
  per_slab = refl;
  some_per_slab = omega arith;
  slab_places = refl;
  slabs_IsSlab = λ j s h nz. absurd (nz (zeros-get 16 j s h));
}

map_lem_example :
    map in_a_row 0 100 start
    ≡ continue (reserve_all_missing in_a_row (made 64) 0 100 0 slab_count start) (λ _ t.
      in_allocator in_a_row t.quarry (
        continue
          (map_all_missing in_a_row t.quarry 0 100 0 slab_count t.allocator)
          (λ n. return (n, actual_allocations t.quarry 100))))
map_lem_example =
    map_lem in_a_row in_a_row-ReservesSlabs 0 100 start made-IsQuarry (λ j lt. elim lt [ ])
      (omega arith) (unfold capacity in omega arith)

-- The 100 allocations of 64 bytes need two pages, which have room for 128.
map_run : (map in_a_row 0 100 start).1 ≡ ok (2, 128)
unfolding map reserve capacity map_reserved slice from_index nikka.Memory.Frage.address_by_index
    nikka.Memory.Addr.new nikka.Common.Bits.leading_zeros nikka.Memory.Addr.is_same_half
map_run = refl

abbrev stocked : FixedSizeAllocator
stocked = record {
  bitmap = record {
    bitmap = one_free;
    guard_zone_page_count = 1;
    pages = block 1 4;
    unused = zeros 511;
  };
  info = Info.new;
  quarry = some one_slab;
}

stocked-IsStocked : IsStocked stocked one_slab
stocked-IsStocked = record {
  has_quarry = refl;
  quarry_IsQuarry = one_slab-IsQuarry;
  apart = one_slab-AreApart;
  bits = one_free-IsValid;
  within = unfold capacity in omega arith;
  slabs = λ j lt. (256, (let e : j ≡ 0 = omega arith in rw e refl), IsSlab-256);
}

abbrev held : Clip
held = record { allocations = 1048704 ∷ []; is_bound = true }

unfill_clip-fill_clip_example :
    (filled : FixedSizeAllocator) × (given : Clip) × (new : List ℕ) × (fill_clip 4 stocked held 3
      ≡ ok (filled, given))
    × (given.allocations ≡ new ++ held.allocations)
    × (length new ≡ min (3 - 1) stocked.bitmap.bitmap.free)
    × IsDistinct new
    × (back : FixedSizeAllocator) × (unfill_clip filled given 1
        ≡ ok (back, record given { allocations = held.allocations }))
    × IsStocked back one_slab
    × ((m : ℕ) → used_at back.bitmap.bitmap.bitmap m ≡ used_at stocked.bitmap.bitmap.bitmap m)
    × (back.bitmap.bitmap.free ≡ stocked.bitmap.bitmap.free)
unfill_clip-fill_clip_example =
    unfill_clip-fill_clip 4 stocked one_slab held 3 stocked-IsStocked (omega arith)

abbrev words : Layout
words = record { size = 60; align = 8 }

deallocate-allocate-IsStocked_example :
    (◌≡◌ {A = ℕ} 1 0 × (allocate stocked words ≡ ok (stocked, 0)))
    ⊎ ((after : FixedSizeAllocator) × (a : ℕ) × (allocate stocked words ≡ ok (after, a))
        × (a ≢ 0)
        × (back : FixedSizeAllocator) × (deallocate after a words ≡ ok back)
        × IsStocked back one_slab
        × ((m : ℕ) → used_at back.bitmap.bitmap.bitmap m ≡ used_at (5 ∷ []) m)
        × (back.bitmap.bitmap.free ≡ 1))
deallocate-allocate-IsStocked_example =
    deallocate-allocate-IsStocked stocked one_slab words stocked-IsStocked
      (unfold validate_layout in refl)

get_fixed_size_index_lem_example :
    (r : ℕ) × IsLeast words r
    × ((get_fixed_size_index words ≡ none) ↔ ((r % 4096 ≡ 0) ⊎ (16376 < r)))
    × ((index : ℕ)
        → get_fixed_size_index words ≡ some index
        → (index < fixed_size_count)
          × (get_size index ≡ r)
          × ((self : FixedSizeAllocator) (q : Quarry)
              → self.quarry ≡ some q
              → q.size ≡ get_size index
              → validate_layout self words ≡ ok tt))
get_fixed_size_index_lem_example =
    get_fixed_size_index_lem words (inr (inr (inr (omega arith, refl))))

-- Empty clips, and the same allocator for every size.
abbrev running : Dispatcher ℕ
running = record {
  cache = λ i. record { allocations = []; is_bound = false };
  fallback = 256;
  fixed_size = λ i. stocked;
  info = Info.new;
}

fixed_size_deallocate-fixed_size_allocate_example :
    (a : ℕ) × (e f : Dispatcher ℕ) × (fixed_size_allocate in_a_row true false 28 7 words running
      ≡ (e, ok a))
    × (fixed_size_deallocate in_a_row true false 28 7 a words e ≡ (f, ok tt))
    × IsDistinct (f.cache 7).allocations
    × (length (f.cache 7).allocations ≡ min (28 / 2) stocked.bitmap.bitmap.free)
    × (back : FixedSizeAllocator) × (unfill_clip (f.fixed_size 7) (f.cache 7) 0
        ≡ ok (back, with_allocations [] (f.cache 7)))
    × IsStocked back one_slab
    × ((m : ℕ) → used_at back.bitmap.bitmap.bitmap m ≡ used_at stocked.bitmap.bitmap.bitmap m)
    × (back.bitmap.bitmap.free ≡ stocked.bitmap.bitmap.free)
fixed_size_deallocate-fixed_size_allocate_example =
    fixed_size_deallocate-fixed_size_allocate in_a_row 28 7 words running one_slab (omega arith)
      stocked-IsStocked (omega arith) refl
