-- ===== src/Heap/Big.antt =====
-- ku/src/allocator/big.rs: the allocator of pages behind the heap, as its clients see it, and its method
-- `grow`.
use nikka.Common.{
  ℕ, ◌+◌, ◌-◌, ◌/◌, ◌==◌, min, leb, ltb, if◌then◌else◌, Option, some, none, Outcome, ok, err, panic,
}
use nikka.Common.Errors.{assert}
use nikka.Common.Effects.{M, ◌>>=◌, ◌>>◌, continue, lift, return}
use nikka.Memory.Addr.{virt}
use nikka.Memory.Frage.{l0}
use nikka.Memory.Block.{Memory, frage, Block, from_index, count, size, is_empty}
pub mod Promises
pub mod Moved
pub mod Grow

abbrev pub page : Memory
page = frage virt l0

-- What the heap and `grow` call of a `BigAllocator`. A call leaves an allocator behind also when it fails. A layout
-- is its size and its alignment.
pub record BigAllocator (A : Type 0) : Type 0 where
  pub flags : A → ℕ
  pub reserve : ℕ → ℕ → M A Block
  pub reserve_fixed : Block → M A (Unit {0})
  pub unreserve : Block → M A (Unit {0})
  pub map : Block → ℕ → M A (Unit {0})
  pub unmap : Block → M A (Unit {0})
  pub copy_mapping : Block → Block → Option ℕ → M A (Unit {0})

-- `.unwrap()` of an option
abbrev pub unwrap_slice : Outcome (Option Block) → Outcome Block
unwrap_slice (ok (some b)) = ok b
unwrap_slice (ok none) = panic
unwrap_slice (err e) = panic
unwrap_slice panic = panic

module _ {A : Type 0} (self : BigAllocator A) where
  -- The pages behind the copied ones, if there are any.
  unfoldable pub map_rest : Block → Block → ℕ → M A (Unit {0})
  map_rest old_block allocated_block flags a =
      if ltb (count old_block) (count allocated_block)
      then continue
          (lift (from_index page (allocated_block.start + count old_block) allocated_block.end) a)
          (λ b. self.map b flags)
      else (a, ok tt)

  unfoldable pub give_back : Block → Block → M A Block
  give_back old_block allocated_block =
      self.unmap old_block >> (self.unreserve old_block >> return allocated_block)

  -- The block is mapped at a new place, and the old place is given back.
  unfoldable pub move_to : Block → ℕ → Block → M A Block
  move_to old_block flags allocated_block a =
      let copy_count = min (count old_block) (count allocated_block) in
      continue
        (lift (from_index page (allocated_block.start) (allocated_block.start + copy_count)) a)
        (λ copy_block.
          self.copy_mapping old_block copy_block none
          >> (map_rest old_block allocated_block flags >> give_back old_block allocated_block))

  -- The block is extended in place, if the pages behind it are free, and moved otherwise.
  unfoldable pub extend_or_move :
      Block → Block → Block → ℕ → ℕ → ℕ → A × Outcome (Unit {0}) → A × Outcome Block
  extend_or_move old_block new_block additional_block size align flags (a, ok _) =
      continue (self.map additional_block flags a) (λ _. return new_block)
  extend_or_move old_block new_block additional_block size align flags (a, err e) =
      continue (self.reserve size align a) (move_to old_block flags)
  extend_or_move old_block new_block additional_block size align flags (a, panic) = (a, panic)

  -- What follows when it is known where the block would end.
  unfoldable pub grow_to : Block → ℕ → ℕ → ℕ → Block → M A Block
  unfolding extend_or_move
  grow_to old_block new_size align flags new_block a =
      if count old_block == count new_block
      then (a, ok old_block)
      else continue (lift (from_index page (old_block.end) (new_block.end)) a) λ additional_block b.
        extend_or_move old_block new_block additional_block new_size align flags
          (self.reserve_fixed additional_block b)

  -- The part of `grow` for a block with pages.
  unfoldable pub grow_block : Block → ℕ → ℕ → ℕ → M A Block
  unfolding grow_to
  grow_block old_block new_size align flags a =
      let new_page_count = (new_size + 4096 - 1) / 4096 in
      continue (lift (from_index page (old_block.start) (old_block.start + new_page_count)) a)
        (grow_to old_block new_size align flags)

  -- The size of a layout is below 2 ^ 63.
  unfoldable pub grow : Block → ℕ → ℕ → ℕ → M A Block
  unfolding grow_block
  grow old_block new_size align flags a =
      continue (lift (assert (leb (size page old_block) new_size)) a) λ _ b.
        if is_empty old_block
        then continue (self.reserve new_size align b)
            (λ new_block. self.map new_block flags >>= λ _. return new_block)
        else grow_block old_block new_size align flags b
