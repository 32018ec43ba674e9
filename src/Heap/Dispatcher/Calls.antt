-- ===== src/Heap/Dispatcher/Calls.antt =====
-- ku/src/allocator/dispatcher.rs: allocation and deallocation of one size through the clips. The arrays
-- of clips and of allocators are functions of the index, which `get_fixed_size_index` keeps in range.
-- `clip_size` is the capacity of a clip, and two flags tell whether there are clips and whether the
-- feature of the statistics is on.
use nikka.Common.{
  ℕ, ◌+◌, ◌/◌, ◌%◌, ◌^◌, ◌==◌, ltb, if◌then◌else◌, Bool, true, false, List, [], ◌∷◌, length,
  Outcome, ok, err, panic,
}
use nikka.Common.Effects.{M, continue, ◌>>=◌, lift, return}
use nikka.Heap.Info
use nikka.Heap.Info.{Info, Counter}
use nikka.Heap.Big.{BigAllocator}
use nikka.Heap.FixedSize.{
  FixedSizeAllocator, Clip, Layout, is_empty, allocate, deallocate, fill_clip, unfill_clip,
}
use nikka.Heap.FixedSize.Stock
use nikka.Heap.FixedSize.Stock.{stock_up}
use nikka.Heap.Dispatcher.{get_size}

pub record Dispatcher (A : Type 0) : Type 0 where
  pub cache : ℕ → Clip
  pub fallback : A
  pub fixed_size : ℕ → FixedSizeAllocator
  pub info : Info

-- `AtomicCounter::increase` and `AtomicCounter::decrease` wrap around.
abbrev increase : Counter → ℕ → Counter
increase self value = record self { positive = (self.positive + value) % 2 ^ 64 }

abbrev decrease : Counter → ℕ → Counter
decrease self value = record self { negative = (self.negative + value) % 2 ^ 64 }

-- `AtomicInfo::allocation`, `AtomicInfo::deallocation` and `AtomicInfo::pages_allocation`, as no other
-- call comes between.
abbrev pub atomic_allocation : ℕ → ℕ → ℕ → Info → Info
atomic_allocation requested allocated allocated_pages self = record {
  allocated = increase self.allocated allocated;
  allocations = increase self.allocations 1;
  pages = increase self.pages allocated_pages;
  requested = increase self.requested requested;
}

abbrev pub atomic_deallocation : ℕ → ℕ → ℕ → Info → Info
atomic_deallocation requested deallocated deallocated_pages self = record {
  allocated = decrease self.allocated deallocated;
  allocations = decrease self.allocations 1;
  pages = decrease self.pages deallocated_pages;
  requested = decrease self.requested requested;
}

abbrev pub atomic_pages_allocation : ℕ → Info → Info
atomic_pages_allocation allocated_pages self = record self {
  pages = increase self.pages allocated_pages;
}

abbrev pub put_at : {X : Type 0} → (ℕ → X) → ℕ → X → ℕ → X
put_at xs i x j = if j == i then x else xs j

module _ {A : Type 0} (fallback : BigAllocator A) (cache_available statistics : Bool)
    (clip_size : ℕ) where
  abbrev set_clip : ℕ → List ℕ → M (Dispatcher A) (Unit {0})
  set_clip index allocations d = (
    record d {
      cache = put_at d.cache index (record (d.cache index) { allocations = allocations });
    },
    ok tt,
  )

  abbrev set_allocator : ℕ → FixedSizeAllocator → M (Dispatcher A) (Unit {0})
  set_allocator index self d = (record d { fixed_size = put_at d.fixed_size index self }, ok tt)

  -- The statistics of the allocator and of the dispatcher, if they are on.
  unfoldable pub count_call :
      (Info → Outcome Info) → (Info → Info) → ℕ → M (Dispatcher A) (Unit {0})
  count_call counted counted_all index d =
      if statistics
      then continue (lift (counted (d.fixed_size index).info) d) (λ info.
        set_allocator index (record (d.fixed_size index) { info = info }) >>= λ _ e.
        (record e { info = counted_all e.info }, ok tt))
      else (d, ok tt)

  unfoldable pub count_allocation : ℕ → Layout → M (Dispatcher A) (Unit {0})
  unfolding count_call
  count_allocation index layout =
      count_call (Info.allocation layout.size (get_size index) 0)
        (atomic_allocation layout.size (get_size index) 0) index

  unfoldable pub count_deallocation : ℕ → Layout → M (Dispatcher A) (Unit {0})
  unfolding count_call
  count_deallocation index layout =
      count_call (Info.deallocation layout.size (get_size index) 0)
        (atomic_deallocation layout.size (get_size index) 0) index

  -- Whether it went well: the allocator is stocked up, if it is empty.
  abbrev stocked : ℕ → Dispatcher A → Stock.Store A × Outcome ℕ → Dispatcher A × Outcome Bool
  stocked index d (s, ok pages) = (
    record d {
      fixed_size = put_at d.fixed_size index s.self;
      fallback = s.allocator;
      info = if ltb 0 pages then atomic_pages_allocation pages d.info else d.info;
    },
    ok true,
  )
  stocked index d (s, err e) =
      (record d { fixed_size = put_at d.fixed_size index s.self; fallback = s.allocator }, ok false)
  stocked index d (s, panic) = (d, panic)

  unfoldable pub stock : ℕ → M (Dispatcher A) Bool
  stock index d =
      if is_empty (d.fixed_size index)
      then stocked index d (
          stock_up fallback clip_size (get_size index)
            (record { self = d.fixed_size index; allocator = d.fallback }))
      else (d, ok true)

  -- The top of a clip that was filled, if it has one.
  unfoldable pub pop_filled : ℕ → Layout → List ℕ → M (Dispatcher A) ℕ
  unfolding count_allocation
  pop_filled index layout [] = return 0
  pop_filled index layout (ptr ∷ rest) =
      set_clip index rest >>= λ _. count_allocation index layout >>= λ _. return ptr

  unfoldable pub fill_and_pop : ℕ → Layout → M (Dispatcher A) ℕ
  unfolding pop_filled
  fill_and_pop index layout d =
      continue (lift (fill_clip clip_size (d.fixed_size index) (d.cache index) (clip_size / 2)) d)
        λ filled e. pop_filled index layout (filled.1).allocations (record e {
          cache = put_at e.cache index filled.1;
          fixed_size = put_at e.fixed_size index filled.0;
        })

  unfoldable pub allocate_directly : ℕ → Layout → M (Dispatcher A) ℕ
  unfolding count_allocation
  allocate_directly index layout d =
      continue (lift (allocate (d.fixed_size index) layout) d) λ given.
        set_allocator index given.0 >>= λ _ e.
        continue (if given.1 == 0 then (e, ok tt) else count_allocation index layout e)
          λ _. return given.1

  unfoldable pub allocate_stocked : ℕ → Layout → M (Dispatcher A) ℕ
  unfolding fill_and_pop allocate_directly
  allocate_stocked index layout d =
      if cache_available then fill_and_pop index layout d else allocate_directly index layout d

  -- From the clip, or else from the allocator, which is stocked up if it is empty.
  unfoldable pub from_clip : ℕ → Layout → List ℕ → M (Dispatcher A) ℕ
  unfolding stock allocate_stocked count_allocation
  from_clip index layout (ptr ∷ rest) d =
      continue (set_clip index rest d) λ _. count_allocation index layout >>= λ _. return ptr
  from_clip index layout [] d =
      continue (stock index d) λ fine. if fine then allocate_stocked index layout else return 0

  unfoldable pub fixed_size_allocate : ℕ → Layout → M (Dispatcher A) ℕ
  unfolding from_clip
  fixed_size_allocate index layout d =
      from_clip index layout (if cache_available then (d.cache index).allocations else []) d

  -- The pointer on top of the clip, if there is room.
  abbrev push : ℕ → ℕ → M (Dispatcher A) (Unit {0})
  push index ptr d = set_clip index (ptr ∷ (d.cache index).allocations) d

  unfoldable pub deallocate_directly : ℕ → ℕ → Layout → M (Dispatcher A) (Unit {0})
  unfolding count_deallocation
  deallocate_directly index ptr layout d =
      continue (lift (deallocate (d.fixed_size index) ptr layout) d)
        λ self. set_allocator index self >>= λ _. count_deallocation index layout

  unfoldable pub push_or :
      ℕ → ℕ → Layout → M (Dispatcher A) (Unit {0}) → M (Dispatcher A) (Unit {0})
  unfolding count_deallocation
  push_or index ptr layout full d =
      if ltb (length (d.cache index).allocations) clip_size
      then continue (push index ptr d) (λ _. count_deallocation index layout)
      else full d

  unfoldable pub unfill_and_push : ℕ → ℕ → Layout → M (Dispatcher A) (Unit {0})
  unfolding push_or deallocate_directly
  unfill_and_push index ptr layout d =
      continue (lift (unfill_clip (d.fixed_size index) (d.cache index) (clip_size / 2)) d)
        λ unfilled e. push_or index ptr layout (deallocate_directly index ptr layout) (record e {
          cache = put_at e.cache index unfilled.1;
          fixed_size = put_at e.fixed_size index unfilled.0;
        })

  unfoldable pub fixed_size_deallocate : ℕ → ℕ → Layout → M (Dispatcher A) (Unit {0})
  unfolding push_or unfill_and_push deallocate_directly
  fixed_size_deallocate index ptr layout d =
      if cache_available
      then push_or index ptr layout (unfill_and_push index ptr layout) d
      else deallocate_directly index ptr layout d
