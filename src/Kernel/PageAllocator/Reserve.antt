-- ===== src/Kernel/PageAllocator/Reserve.antt =====
-- `reserve`, `deallocate` and `duplicate_allocator_state`: which blocks they accept, and what is
-- left of the free block.
use nikka.Common.{
  ℕ, ◌-◌, ◌≤◌, ◌<◌, ◌≡◌, ◌⊎◌, inl, inr, refl, true, false, arith, ok, err, no_page,
  invalid_argument,
}
use native.Mathlib.Decide.{dec_lt}
use nikka.Kernel.PageAllocator.{
  PageAllocator, duplicate, duplicate_allocator_state, deallocate, reserve,
}
use nikka.Kernel.Range.{page}
use nikka.Memory.Block.{Block, block, count, contains_block, contains_index, is_disjoint}
use nikka.Memory.Block.Valid.{IsValid, IsValid-from_index}
use nikka.Memory.Block.Parts.{IsValid-sub}
use nikka.Memory.Block.Contains.{Apart, is_disjoint-Apart}

-- `reserve` left the allocator `self` with the free block `b`.
pub record Keeps (self : PageAllocator) (pages b : Block) : Type 0 where
  pub kept : reserve self pages ≡ (record self { block = b }, ok tt)
  pub is_valid : IsValid page b
  pub was_free : (i : ℕ) → contains_index b i ≡ true → contains_index self.block i ≡ true
  pub unreserved : (i : ℕ) → contains_index b i ≡ true → contains_index pages i ≡ false
  pub larger_part :
      (count b ≡ pages.start - self.block.start) ⊎ (count b ≡ self.block.end - pages.end)
  pub left_part : pages.start - self.block.start ≤ count b
  pub right_part : self.block.end - pages.end ≤ count b

Keeps-right :
    (self : PageAllocator) (pages : Block)
    → IsValid page self.block
    → pages.start < pages.end
    → contains_block self.block pages ≡ true
    → pages.start - self.block.start < self.block.end - pages.end
    → Keeps self pages (block pages.end self.block.end)
unfolding reserve
Keeps-right self pages v some h less =
    let valid : IsValid page (block pages.end self.block.end) =
      IsValid-sub page self.block pages.end self.block.end v (ground arith) (omega arith)
        (omega arith) (omega arith) in
    record {
      kept = ground (arith, IsValid-from_index page pages.end self.block.end valid);
      is_valid = valid;
      was_free = λ i p. ground arith;
      unreserved = λ i p. ground arith;
      larger_part = inr refl;
      left_part = omega arith;
      right_part = omega arith;
    }

Keeps-left :
    (self : PageAllocator) (pages : Block)
    → IsValid page self.block
    → pages.start < pages.end
    → contains_block self.block pages ≡ true
    → self.block.end - pages.end ≤ pages.start - self.block.start
    → Keeps self pages (block self.block.start pages.start)
unfolding reserve
Keeps-left self pages v some h more =
    let valid : IsValid page (block self.block.start pages.start) =
      IsValid-sub page self.block self.block.start pages.start v (omega arith) (ground arith)
        (ground arith) (ground arith) in
    record {
      kept = ground (arith, IsValid-from_index page self.block.start pages.start valid);
      is_valid = valid;
      was_free = λ i p. ground arith;
      unreserved = λ i p. ground arith;
      larger_part = inl refl;
      left_part = omega arith;
      right_part = omega arith;
    }

-- Nonempty pages that all lie in the valid free block can be reserved. What is left free is the
-- larger of the parts before and behind them, a valid block without the reserved pages. Pages that
-- do not all lie in it are refused, and the allocator stays as it is.
pub reserve_lem :
    (self : PageAllocator) (pages : Block)
    → IsValid page self.block
    → pages.start < pages.end
    → (contains_block self.block pages ≡ true → (b : Block) × Keeps self pages b)
      × (contains_block self.block pages ≡ false → reserve self pages ≡ (self, err no_page))
unfolding reserve
reserve_lem self pages v some = (
  λ h. elim (dec_lt (pages.start - self.block.start) (self.block.end - pages.end)) [
    | yes less ↦ (block pages.end self.block.end, Keeps-right self pages v some h less)
    | no more ↦ (block self.block.start pages.start, Keeps-left self pages v some h (omega arith))
  ],
  λ h. ground arith,
)

-- `deallocate` never changes the allocator. What it accepts, of valid pages, are parts of the initial
-- block with no page in common with the free block.
pub deallocate-Apart :
    (self : PageAllocator) (pages : Block)
    → IsValid page self.block
    → IsValid page pages
    → ((deallocate self pages).0 ≡ self)
      × (((deallocate self pages).1 ≡ ok tt) ⊎ ((deallocate self pages).1 ≡ err invalid_argument))
      × ((deallocate self pages).1 ≡ ok tt
          → (contains_block self.initial_block pages ≡ true) × Apart self.block pages)
unfolding deallocate
deallocate-Apart self pages v w = (
  ground arith,
  ground arith,
  λ h.
      let accepted : (contains_block self.initial_block pages ≡ true)
          × (is_disjoint page self.block pages ≡ true) =
        ground arith in
      (accepted.0, (is_disjoint-Apart page self.block pages v w).0 accepted.1),
)

-- The duplicate of an allocator that has only lost pages since its initialisation takes on the
-- original's state. A state that is not within the duplicate's free block is refused.
pub duplicate_allocator_state-duplicate :
    (self original : PageAllocator)
    → (contains_block self.initial_block self.block ≡ true
        → duplicate_allocator_state (duplicate self) self
          ≡ (record { block = self.block; initial_block = self.initial_block }, ok tt))
      × (contains_block self.block original.block ≡ false
          → duplicate_allocator_state self original ≡ (self, err invalid_argument))
unfolding duplicate_allocator_state duplicate
duplicate_allocator_state-duplicate self original = (λ h. ground arith, λ h. ground arith)
