-- ===== src/Heap/Quarry/Pages.antt =====
-- How the quarry reserves, maps and unmaps the pages of its slabs. The allocator of pages behind it is
-- the parameter `fallback`.
use nikka.Common.{
  ℕ, zero, suc, ◌+◌, ◌-◌, ◌*◌, ◌/◌, ◌&&◌, length, set, ltb, leb, ◌==◌, if◌then◌else◌, min, Outcome,
  ok, panic, assert,
}
use nikka.Common.Effects.{M, continue, ◌>>=◌, ◌>>◌, lift, return}
use nikka.Memory.Block.{Block, slice}
use nikka.Kernel.Range.{page}
use nikka.Heap.Big.{BigAllocator, unwrap_slice}
use nikka.Heap.Quarry.{
  Quarry, capacity, slab, slab_index_of, offset_in_slab, pages_for, slabs_for, slab_size, page_size,
  slab_page_count, slab_count,
}

-- The quarry and the allocator behind it.
pub record Store (A : Type 0) : Type 0 where
  pub quarry : Quarry
  pub allocator : A

-- What `map` leaves in `new_allocation_count`.
abbrev pub actual_allocations : Quarry → ℕ → ℕ
actual_allocations self new =
    min
      (slab_index_of self new * self.slab_allocation_count
        + min (pages_for self (offset_in_slab self new) * page_size / self.size)
            self.slab_allocation_count)
      (capacity self)

module _ {A : Type 0} (fallback : BigAllocator A) where
  abbrev store : Quarry → A → Store A
  store quarry allocator = record { quarry = quarry; allocator = allocator }

  -- A call of the allocator, which leaves the quarry as it is.
  abbrev pub in_allocator : {X : Type 0} → Quarry → A × Outcome X → Store A × Outcome X
  in_allocator quarry (allocator, r) = (store quarry allocator, r)

  -- `self.slabs[slab_index] = start`
  abbrev pub set_slab : ℕ → ℕ → M (Store A) (Unit {0})
  set_slab slab_index start s =
      if ltb slab_index (length s.quarry.slabs)
      then (
        record s { quarry = record (s.quarry) { slabs = set s.quarry.slabs slab_index start } },
        ok tt,
      )
      else (s, panic)

  unfoldable pub reserve_slab : ℕ → M (Store A) (Unit {0})
  reserve_slab slab_index = do
    b ← λ s. in_allocator s.quarry (fallback.reserve slab_size page_size s.allocator)
    set_slab slab_index b.start

  unfoldable pub reserve_slabs : ℕ → ℕ → M (Store A) (Unit {0})
  unfolding reserve_slab
  reserve_slabs slab_index zero = return tt
  reserve_slabs slab_index (suc left) =
      reserve_slab slab_index >>= λ _. reserve_slabs (suc slab_index) left

  unfoldable pub reserve : ℕ → ℕ → M (Store A) (Unit {0})
  unfolding reserve_slabs
  reserve old_allocation_count new_allocation_count s =
      continue (lift (assert (ltb old_allocation_count new_allocation_count)) s) λ _.
        reserve_slabs (slabs_for s.quarry old_allocation_count)
          (slabs_for s.quarry new_allocation_count - slabs_for s.quarry old_allocation_count)

  module _ (self : Quarry) where
    -- `allocator.map(block, allocator.flags())`
    abbrev pub map_block : Block → M A (Unit {0})
    map_block b allocator = fallback.map b (fallback.flags allocator) allocator

    -- Some pages of a slab are mapped; the result is their count.
    unfoldable pub map_slice : ℕ → ℕ → ℕ → M A ℕ
    unfolding slab
    map_slice slab_index start end = do
      b ← lift (slab self slab_index)
      part ← lift (unwrap_slice (slice page b start end))
      map_block part
      return (end - start)

    unfoldable pub map_slab : ℕ → M A ℕ
    unfolding slab
    map_slab slab_index = do b ← lift (slab self slab_index); map_block b; return slab_page_count

    -- The loop over whole slabs, and the count of their pages.
    unfoldable pub map_slabs : ℕ → ℕ → M A ℕ
    unfolding map_slab
    map_slabs slab_index zero = return 0
    map_slabs slab_index (suc left) =
        map_slab slab_index >>= λ n. map_slabs (suc slab_index) left >>= λ m. return (n + m)

    -- The rest of the slab in which the old allocations end.
    unfoldable pub complete_slab : ℕ → M A ℕ
    unfolding map_slice
    complete_slab old =
        let pages = pages_for self (offset_in_slab self old) in
        if ltb 0 (offset_in_slab self old)
        then (if ltb pages slab_page_count
            then map_slice (slab_index_of self old) pages slab_page_count
            else return 0)
        else return 0

    -- The part of `map` after the slabs are reserved: the count of the frames, and the number of
    -- allocations that is left in `new_allocation_count`.
    unfoldable pub map_to_capacity : ℕ → ℕ → M A (ℕ × ℕ)
    unfolding complete_slab map_slabs
    map_to_capacity old new = do
      n ← complete_slab old
      m ← map_slabs (slabs_for self old) (slab_count - slabs_for self old)
      return (n + m, new)

    unfoldable pub map_in_slab : ℕ → ℕ → M A (ℕ × ℕ)
    unfolding map_slice
    map_in_slab old new =
        let old_page_count = pages_for self (offset_in_slab self old) in
        let new_page_count = pages_for self (offset_in_slab self new) in
        do
          n ←
              if ltb old_page_count new_page_count
              then map_slice (slab_index_of self old) old_page_count new_page_count
              else return 0
          return (n, actual_allocations self new)

    unfoldable pub map_over_slabs : ℕ → ℕ → M A (ℕ × ℕ)
    unfolding complete_slab map_slabs map_slice capacity
    map_over_slabs old new =
        let new_page_count = pages_for self (offset_in_slab self new) in
        do
          n ← complete_slab old
          m ← map_slabs (slabs_for self old) (slab_index_of self new - slabs_for self old)
          k ←
              if ltb 0 (offset_in_slab self new)
              then map_slice (slab_index_of self new) 0 new_page_count
              else return 0
          return (n + m + k, actual_allocations self new)

    unfoldable pub map_reserved : ℕ → ℕ → M A (ℕ × ℕ)
    unfolding map_to_capacity map_in_slab map_over_slabs capacity
    map_reserved old new =
        if new == capacity self
        then map_to_capacity old new
        else if slab_index_of self old == slab_index_of self new
        then map_in_slab old new
        else map_over_slabs old new

  unfoldable pub map : ℕ → ℕ → M (Store A) (ℕ × ℕ)
  map old new s = continue (lift (assert (ltb old new && leb new (capacity s.quarry))) s) λ _.
      reserve old new >>= λ _ s. in_allocator s.quarry (map_reserved s.quarry old new s.allocator)

  -- Of one slab the pages are unmapped, and all of it is given back.
  unfoldable pub release_slab : ℕ → Block → Block → M (Store A) (Unit {0})
  release_slab slab_index mapped b = do
    λ s. in_allocator s.quarry (fallback.unmap mapped s.allocator)
    λ s. in_allocator s.quarry (fallback.unreserve b s.allocator)
    set_slab slab_index 0

  unfoldable pub unmap_slabs : ℕ → ℕ → M (Store A) ℕ
  unfolding release_slab slab
  unmap_slabs slab_index zero = return 0
  unmap_slabs slab_index (suc left) = (λ s. lift (slab s.quarry slab_index) s) >>= λ b.
      release_slab slab_index b b >>= λ _.
      unmap_slabs (suc slab_index) left >>= λ m. return (slab_page_count + m)

  unfoldable pub unmap_part : ℕ → ℕ → M (Store A) ℕ
  unfolding release_slab slab
  unmap_part slab_index page_count = do
    b ← λ s. lift (slab s.quarry slab_index) s
    mapped ← lift (unwrap_slice (slice page b 0 page_count))
    release_slab slab_index mapped b
    return page_count

  unfoldable pub unmap : ℕ → M (Store A) ℕ
  unfolding unmap_slabs unmap_part
  unmap allocation_count s =
      let q = s.quarry in
      continue (unmap_slabs 0 (slab_index_of q allocation_count) s) λ m.
        (if ltb 0 (offset_in_slab q allocation_count)
          then unmap_part (slab_index_of q allocation_count)
              (pages_for q (offset_in_slab q allocation_count))
          else return 0)
        >>= λ k. return (m + k)
