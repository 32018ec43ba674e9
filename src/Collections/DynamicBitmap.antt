-- ===== src/Collections/DynamicBitmap.antt =====
-- ku/src/collections/dynamic_bitmap.rs: a bitmap in pages that are mapped as it grows. `unused` are the
-- words of the mapped pages behind those of the bitmap. The conversion of pages to a slice, which
-- fails for no valid block of pages but one at the null address, is left out.
pub mod Grown
use nikka.Common.{
  ℕ, zero, suc, ◌+◌, ◌-◌, ◌*◌, ◌/◌, List, [], ◌∷◌, ◌++◌, ltb, ◌==◌, if◌then◌else◌, Outcome, ok,
  some, assert, sub_usize,
}
use nikka.Common.Errors
use nikka.Common.Effects.{M, continue, ◌>>=◌, ◌>>◌, lift, return}
use nikka.Memory.Block.{Block, count, is_empty, slice, zero_block}
use nikka.Kernel.Range.{page}
use nikka.Heap.Big.{BigAllocator, unwrap_slice}
use nikka.Collections.Bitmap
use nikka.Collections.Bitmap.{Bitmap, div_ceil, empty_bitmap}

pub record DynamicBitmap : Type 0 where
  pub bitmap : Bitmap
  pub guard_zone_page_count : ℕ
  pub pages : Block
  pub unused : List ℕ

abbrev pub new : DynamicBitmap
new = record { bitmap = empty_bitmap; guard_zone_page_count = 0; pages = zero_block; unused = [] }

abbrev pub page_count : ℕ → ℕ
page_count len = div_ceil len (8 * 4096)

-- The pages without the guard zones.
pub pages_of : DynamicBitmap → Outcome Block
pages_of self =
    Errors.◌>>=◌ (sub_usize (count self.pages) self.guard_zone_page_count)
      λ end. unwrap_slice (slice page self.pages self.guard_zone_page_count end)

-- The words of so many pages that are filled with 0.
abbrev pub zeros : ℕ → List ℕ
zeros zero = []
zeros (suc n) = 0 ∷ zeros n

abbrev pub skip : ℕ → List ℕ → List ℕ
skip zero xs = xs
skip (suc n) [] = []
skip (suc n) (x ∷ xs) = skip n xs

-- The bitmap over all the words of the mapped pages.
unfoldable pub over_words : DynamicBitmap → ℕ → List ℕ → Outcome DynamicBitmap
over_words self new_len words =
    Errors.◌>>=◌ (Bitmap.new words new_len (some (self.bitmap.free + (new_len - self.bitmap.len))))
      λ bitmap. ok (record self { bitmap = bitmap; unused = skip (div_ceil new_len 64) words })

pub record Store (A : Type 0) : Type 0 where
  pub self : DynamicBitmap
  pub allocator : A

module _ {A : Type 0} (guard : BigAllocator A) where
  abbrev with_allocator : {X : Type 0} → DynamicBitmap → A × Outcome X → Store A × Outcome X
  with_allocator self (allocator, r) = (record { self = self; allocator = allocator }, r)

  abbrev update : DynamicBitmap → M (Store A) (Unit {0})
  update self s = (record s { self = self }, ok tt)

  unfoldable pub reserve : ℕ → ℕ → M (Store A) (Unit {0})
  reserve capacity guard_zone_page_count s =
      continue
        (continue (lift (assert (is_empty s.self.pages)) s) λ _. lift (assert (ltb 0 capacity)))
        λ _.
          (λ t. with_allocator t.self (
            guard.reserve
              ((guard_zone_page_count + page_count capacity + guard_zone_page_count) * 4096) 4096
              t.allocator))
          >>= λ pages t.
              update
                (record (t.self) { pages = pages; guard_zone_page_count = guard_zone_page_count }) t

  -- The new pages are mapped and filled with 0, if there are any; the result is all the words.
  unfoldable pub map_pages : ℕ → M (Store A) (List ℕ)
  unfolding pages_of
  map_pages new_len s =
      let old = page_count s.self.bitmap.len in
      let words = s.self.bitmap.bitmap ++ s.self.unused in
      if ltb 0 (page_count new_len - old)
      then continue
          (continue (lift (pages_of s.self) s) λ b.
            lift (unwrap_slice (slice page b old (page_count new_len))) >>= λ fresh t.
            with_allocator t.self (guard.map fresh (guard.flags t.allocator) t.allocator))
          (λ _. return (words ++ zeros ((page_count new_len - old) * 512)))
      else (s, ok words)

  unfoldable pub map : ℕ → M (Store A) ℕ
  unfolding map_pages over_words
  map new_len s =
      let additional = page_count new_len - page_count s.self.bitmap.len in
      continue (lift (assert (ltb s.self.bitmap.len new_len)) s) λ _.
        map_pages new_len >>= λ words t.
        continue
          (continue (lift (pages_of t.self) t)
            λ b. lift (unwrap_slice (slice page b 0 (page_count new_len))))
          (λ _. (λ u. lift (over_words u.self new_len words) u) >>= λ grown.
            update grown >>= λ _. return additional)

  pub unmap : M (Store A) ℕ
  unfolding pages_of
  unmap s =
      let mapped = page_count s.self.bitmap.len in
      continue (lift (assert (s.self.bitmap.free == s.self.bitmap.len)) s) λ _.
        (λ t. lift (pages_of t.self) t) >>= λ b.
        lift (unwrap_slice (slice page b 0 mapped)) >>= λ part t.
        continue (with_allocator t.self (guard.unmap part t.allocator)) λ _ u.
          continue (with_allocator u.self (guard.unreserve u.self.pages u.allocator))
            λ _. update new >>= λ _. return mapped
