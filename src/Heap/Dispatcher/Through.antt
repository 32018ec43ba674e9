-- ===== src/Heap/Dispatcher/Through.antt =====
-- An allocation through a clip, and its return.
use nikka.Common.{
  ℕ, ◌-◌, ◌/◌, ◌<◌, ◌≤◌, ◌≡◌, refl, ◌∙◌, sym, ap, subst, arith, ltb, ◌==◌, true, false, List, [],
  ◌∷◌, ◌++◌, append_nil, length, min, Outcome, ok,
}
use nikka.Collections.Bitmap.Zeros.{used_at}
use nikka.Collections.Bitmap.Bulk.{IsDistinct}
use nikka.Heap.Big.{BigAllocator}
use nikka.Heap.Quarry.{Quarry}
use nikka.Heap.FixedSize.{FixedSizeAllocator, Clip, Layout, is_empty, fill_clip, unfill_clip}
use nikka.Heap.FixedSize.Returned.{IsStocked}
use nikka.Heap.FixedSize.Clips.{unfill_clip-fill_clip}
use nikka.Heap.Dispatcher.Calls.{
  Dispatcher, put_at, count_call, count_allocation, count_deallocation, stock, pop_filled,
  fill_and_pop, allocate_stocked, from_clip, fixed_size_allocate, push_or, fixed_size_deallocate,
}

put_at-same : {X : Type 0} (xs : ℕ → X) (i : ℕ) (x : X) → put_at xs i x i ≡ x
put_at-same xs i x = let e : (i == i) ≡ true = ground arith in rw e refl

put_at-twice : {X : Type 0} (xs : ℕ → X) (i : ℕ) (x y : X) → put_at (put_at xs i x) i y i ≡ y
put_at-twice xs i x y = put_at-same (put_at xs i x) i y

abbrev pub with_allocations : List ℕ → Clip → Clip
with_allocations allocations clip = record clip { allocations = allocations }

-- What the clip at an index holds after an allocation and its return, and what the allocator is after
-- all of it is given back.
unfoldable Holds : FixedSizeAllocator → Quarry → ℕ → FixedSizeAllocator → Clip → Type 0
Holds self q clip_size filled clip =
    IsDistinct clip.allocations
    × (length clip.allocations ≡ min (clip_size / 2) self.bitmap.bitmap.free)
    × (back : FixedSizeAllocator) × (unfill_clip filled clip 0
        ≡ ok (back, with_allocations [] clip))
    × IsStocked back q
    × ((m : ℕ) → used_at back.bitmap.bitmap.bitmap m ≡ used_at self.bitmap.bitmap.bitmap m)
    × (back.bitmap.bitmap.free ≡ self.bitmap.bitmap.free)

not_empty : (xs : List ℕ) → 0 < length xs → (a : ℕ) × (rest : List ℕ) × (xs ≡ a ∷ rest)
not_empty [] h = absurd (omega arith)
not_empty (a ∷ rest) h = (a, rest, refl)

fewer :
    (xs : List ℕ) (a : ℕ) (rest : List ℕ) {n : ℕ} → xs ≡ a ∷ rest → length xs ≤ n → length rest < n
fewer xs a rest e h = let l = ap length e in omega arith

module _ {A : Type 0} (fallback : BigAllocator A) (clip_size : ℕ) (index : ℕ)
    (layout : Layout) where
  abbrev allocated : Dispatcher A → Dispatcher A × Outcome ℕ
  allocated d = fixed_size_allocate fallback true false clip_size index layout d

  abbrev filled_with : Dispatcher A → FixedSizeAllocator → Clip → Dispatcher A
  filled_with d filled given = record d {
    cache = put_at d.cache index given;
    fixed_size = put_at d.fixed_size index filled;
  }

  abbrev popped : Dispatcher A → List ℕ → Dispatcher A
  popped d rest = record d {
    cache = put_at d.cache index (record (d.cache index) { allocations = rest });
  }

  filled_run :
      (d : Dispatcher A) (filled : FixedSizeAllocator) (given : Clip)
      → fill_clip clip_size (d.fixed_size index) (d.cache index) (clip_size / 2)
        ≡ ok (filled, given)
      → is_empty (d.fixed_size index) ≡ false
      → from_clip fallback true false clip_size index layout [] d
        ≡ pop_filled fallback true false clip_size index layout given.allocations
            (filled_with d filled given)
  unfolding from_clip stock allocate_stocked fill_and_pop
  filled_run d filled given run some_free = rw some_free (rw run refl)

  -- What the clip is filled with is there, but for the top.
  allocate_run :
      (d : Dispatcher A) (filled : FixedSizeAllocator) (given : Clip) (a : ℕ) (rest : List ℕ)
      → (d.cache index).allocations ≡ []
      → is_empty (d.fixed_size index) ≡ false
      → fill_clip clip_size (d.fixed_size index) (d.cache index) (clip_size / 2)
        ≡ ok (filled, given)
      → given.allocations ≡ a ∷ rest
      → (e : Dispatcher A) × (allocated d ≡ (e, ok a))
        × (e.cache index ≡ record given { allocations = rest })
        × (e.fixed_size index ≡ filled)
  unfolding fixed_size_allocate from_clip stock allocate_stocked fill_and_pop pop_filled
      count_allocation count_call
  allocate_run d filled given a rest none_held some_free run top = (
    popped (filled_with d filled given) rest,
    ap (λ l. from_clip fallback true false clip_size index layout l d) none_held
        ∙ filled_run d filled given run some_free
        ∙ ap
            (λ l.
              pop_filled fallback true false clip_size index layout l (filled_with d filled given))
            top,
    put_at-twice d.cache index given _
        ∙ ap (with_allocations rest) (put_at-same d.cache index given),
    put_at-same d.fixed_size index filled,
  )

  -- The pointer goes back on top of the clip.
  deallocate_run :
      (d : Dispatcher A) (a : ℕ)
      → length (d.cache index).allocations < clip_size
      → fixed_size_deallocate fallback true false clip_size index a layout d
        ≡ (popped d (a ∷ (d.cache index).allocations), ok tt)
  unfolding fixed_size_deallocate push_or count_deallocation count_call
  deallocate_run d a room =
      let r : ltb (length (d.cache index).allocations) clip_size ≡ true = ground arith in rw r refl

  -- For a dispatcher with clips and without statistics: let the allocator at an index be stocked and
  -- have a free element, and the clip at the index be empty, with a capacity of at least two. Then an
  -- allocation succeeds, and so does its return. After both the clip holds different addresses, half of
  -- its capacity or as many as elements were free if those are fewer, and when all of them are given
  -- back, the allocator is stocked and has the same elements used as before and as many free.
  pub fixed_size_deallocate-fixed_size_allocate :
      (d : Dispatcher A) (q : Quarry)
      → 2 ≤ clip_size
      → IsStocked (d.fixed_size index) q
      → 0 < (d.fixed_size index).bitmap.bitmap.free
      → (d.cache index).allocations ≡ []
      → (a : ℕ) × (e f : Dispatcher A) × (fixed_size_allocate fallback true false clip_size index
            layout d
          ≡ (e, ok a))
        × (fixed_size_deallocate fallback true false clip_size index a layout e ≡ (f, ok tt))
        × IsDistinct (f.cache index).allocations
        × (length (f.cache index).allocations
            ≡ min (clip_size / 2) (d.fixed_size index).bitmap.bitmap.free)
        × (back : FixedSizeAllocator) × (unfill_clip (f.fixed_size index) (f.cache index) 0
            ≡ ok (back, with_allocations [] (f.cache index)))
        × IsStocked back q
        × ((m : ℕ)
            → used_at back.bitmap.bitmap.bitmap m
              ≡ used_at (d.fixed_size index).bitmap.bitmap.bitmap m)
        × (back.bitmap.bitmap.free ≡ (d.fixed_size index).bitmap.bitmap.free)
  unfolding Holds
  fixed_size_deallocate-fixed_size_allocate d q two v some_free none_held =
      let no_length : length (d.cache index).allocations ≡ 0 = ap length none_held in
      let (filled, given, new, run, top, long, distinct, back, unfilled, stocked, bits, free) =
        unfill_clip-fill_clip clip_size (d.fixed_size index) q (d.cache index) (clip_size / 2) v
          (omega arith) in
      let all : given.allocations ≡ new =
        subst (λ l. given.allocations ≡ new ++ l) none_held top ∙ append_nil new in
      let unfilled' =
        subst (λ l. unfill_clip filled given (length l) ≡ ok (back, with_allocations l given))
          none_held unfilled in
      let many : length new ≡ min (clip_size / 2) (d.fixed_size index).bitmap.bitmap.free =
        long
        ∙ ap (λ n. min (clip_size / 2 - n) (d.fixed_size index).bitmap.bitmap.free) no_length
        ∙ omega arith in
      let (a, rest, is) = not_empty new (omega arith) in
      let top' = all ∙ is in
      let (e, given_out, clip_left, allocator_left) =
        allocate_run d filled given a rest none_held (ground arith) run top' in
      let held : (e.cache index).allocations ≡ rest = ap (λ (c : Clip). c.allocations) clip_left in
      let fits : length rest < clip_size = fewer new a rest is (omega arith) in
      let returned = deallocate_run e a (subst (λ l. length l < clip_size) (sym held) fits) in
      let f = popped e (a ∷ (e.cache index).allocations) in
      let clip_back : f.cache index ≡ given =
        put_at-same e.cache index
          (with_allocations (a ∷ (e.cache index).allocations) (e.cache index))
        ∙ ap (λ c. with_allocations (a ∷ c.allocations) c) clip_left
        ∙ ap (λ l. with_allocations l given) (sym top') in
      let holds : Holds (d.fixed_size index) q clip_size filled given =
        (rw all distinct, ap length all ∙ many, back, unfilled', stocked, bits, free) in
      let (different, amount, last, emptied, restored, same, equal) =
        subst (λ c. Holds (d.fixed_size index) q clip_size (f.fixed_size index) c) (sym clip_back)
          (subst (λ z. Holds (d.fixed_size index) q clip_size z given) (sym allocator_left)
            holds) in
      (a, e, f, given_out, returned, different, amount, last, emptied, restored, same, equal)
