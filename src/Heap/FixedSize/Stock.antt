-- ===== src/Heap/FixedSize/Stock.antt =====
-- `stock_up` and `unmap` of the allocator of one size, over the allocator of pages `fallback`.
use nikka.Common.{
  ℕ, ◌+◌, ◌%◌, Bool, true, ◌&&◌, List, [], ◌∷◌, Option, some, none, ltb, ◌==◌, if◌then◌else◌, min,
  Outcome, ok, panic, assert,
}
use nikka.Common.Effects.{M, continue, ◌>>=◌, ◌>>◌, lift, return}
use nikka.Heap.Big.{BigAllocator}
use nikka.Heap.Info
use nikka.Heap.Info.{Info, balance}
use nikka.Heap.Quarry
use nikka.Heap.Quarry.{Quarry, capacity}
use nikka.Heap.Quarry.Pages
use nikka.Collections.DynamicBitmap
use nikka.Collections.DynamicBitmap.{DynamicBitmap}
use nikka.Heap.FixedSize.{FixedSizeAllocator}

pub record Store (A : Type 0) : Type 0 where
  pub self : FixedSizeAllocator
  pub allocator : A

module _ {A : Type 0} (fallback : BigAllocator A) where
  abbrev update : FixedSizeAllocator → M (Store A) (Unit {0})
  update self s = (record s { self = self }, ok tt)

  -- A call of the bitmap, and a call of the quarry, each with the allocator of pages.
  abbrev in_bitmap : {X : Type 0} → M (DynamicBitmap.Store A) X → M (Store A) X
  in_bitmap call s =
      let (after, r) = call (record { self = s.self.bitmap; allocator = s.allocator }) in
      (record { self = record (s.self) { bitmap = after.self }; allocator = after.allocator }, r)

  abbrev quarry_call :
      {X : Type 0} → M (Pages.Store A) X → Store A → Option Quarry → Store A × Outcome X
  quarry_call call s none = (s, panic)
  quarry_call call s (some quarry) =
      let (after, r) = call (record { quarry = quarry; allocator = s.allocator }) in
      (
        record {
          self = record (s.self) { quarry = some after.quarry };
          allocator = after.allocator;
        },
        r,
      )

  abbrev in_quarry : {X : Type 0} → M (Pages.Store A) X → M (Store A) X
  in_quarry call s = quarry_call call s s.self.quarry

  -- The quarry, made if there is none.
  abbrev or_made : ℕ → Option Quarry → Outcome Quarry
  or_made size none = Quarry.new size
  or_made size (some quarry) = ok quarry

  -- `Quarry::drop`: no slab may be left.
  abbrev no_slab : List ℕ → Bool
  no_slab [] = true
  no_slab (start ∷ slabs) = start == 0 && no_slab slabs

  abbrev drop_quarry : Option Quarry → Outcome (Unit {0})
  drop_quarry none = ok tt
  drop_quarry (some quarry) = assert (no_slab quarry.slabs)

  -- `info.pages_allocation` and `info.pages_deallocation`, of some pages.
  pub count_pages : (ℕ → Info → Outcome Info) → ℕ → M (Store A) ℕ
  count_pages counted frames s =
      if ltb 0 frames
      then (continue (lift (counted frames s.self.info) s)
          λ info t. (record t { self = record (t.self) { info = info } }, ok frames))
      else (s, ok frames)

  -- The part of `stock_up` that reserves and maps.
  pub grow : ℕ → ℕ → ℕ → M (Store A) ℕ
  unfolding count_pages
  grow capacity old_count new_count = do
    λ s.
        (if s.self.bitmap.bitmap.len == 0
          then in_bitmap (DynamicBitmap.reserve fallback capacity 1) s
          else (s, ok tt))
    bitmap_frames ← λ s.
        (if ltb s.self.bitmap.bitmap.len new_count
          then in_bitmap (DynamicBitmap.map fallback new_count) s
          else (s, ok 0))
    mapped ← in_quarry (Pages.map fallback old_count new_count)
    count_pages Info.pages_allocation (bitmap_frames + mapped.0)

  pub stock_up : ℕ → ℕ → M (Store A) ℕ
  unfolding grow
  stock_up clip_size size s = continue (lift (assert (size % 8 == 0)) s) λ _.
      lift (or_made size s.self.quarry) >>= λ quarry.
      update (record (s.self) { quarry = some quarry }) >>= λ _.
      lift (assert (quarry.size == size)) >>= λ _.
      let old_count = s.self.bitmap.bitmap.len in
      let new_count = min (old_count + clip_size) (capacity quarry) in
      if new_count == old_count then return 0 else grow (capacity quarry) old_count new_count

  -- `if let Some(ref mut quarry)`
  pub unmap_quarry : ℕ → Option Quarry → M (Store A) ℕ
  unmap_quarry count none = return 0
  unmap_quarry count (some quarry) = in_quarry (Pages.unmap fallback count)

  pub unmap : M (Store A) ℕ
  unfolding unmap_quarry count_pages
  unmap s = continue (lift (balance s.self.info.allocations) s) λ allocations.
      lift (balance s.self.info.allocated) >>= λ allocated.
      lift (balance s.self.info.requested) >>= λ requested.
      lift (assert (allocations == 0)) >>= λ _. lift (assert (allocated == 0)) >>= λ _.
      lift (assert (requested == 0)) >>= λ _.
      unmap_quarry s.self.bitmap.bitmap.len s.self.quarry >>= λ quarry_frames.
      (λ t.
        (if ltb 0 t.self.bitmap.bitmap.len
          then in_bitmap (DynamicBitmap.unmap fallback) t
          else (t, ok 0)))
      >>= λ bitmap_frames.
          count_pages Info.pages_deallocation (quarry_frames + bitmap_frames) >>= λ frames t.
          continue (lift (drop_quarry t.self.quarry) t)
            λ _ u. (record u { self = record (u.self) { quarry = none } }, ok frames)
