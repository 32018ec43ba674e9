-- ===== src/Heap/Big/Promises.antt =====
-- What an allocator of pages of ku/src/allocator/big.rs promises about the mappings of pages.
use nikka.Common.{ℕ, ◌+◌, ◌*◌, ◌<◌, ◌≤◌, ◌≡◌, ◌≢◌, ◌⊎◌, arith, Option, none, ok, ◌^◌}
use nikka.Memory.Block.{Block, count}
use nikka.Memory.Block.Valid.{IsValid}
use nikka.Heap.Big.{BigAllocator, page}

abbrev pub Inside : Block → ℕ → Type 0
Inside b p = (b.start ≤ p) × (p < b.end)

abbrev pub Outside : Block → ℕ → Type 0
Outside b p = (p < b.start) ⊎ (b.end ≤ p)

pub start_low : (b : Block) → IsValid page b → b.start * 4096 < 2 ^ 64
start_low b v = let s = v.starts in omega arith

pub in_or_out : (b : Block) (p : ℕ) → Inside b p ⊎ Outside b p
in_or_out b p = ground arith

-- What the documentation of the trait says of calls that succeed, in terms of the frame that a page is
-- mapped to.
pub record Promises {A : Type 0} (self : BigAllocator A) (frame : A → ℕ → Option ℕ) : Type 0 where
  pub reserve_lem :
      (n align : ℕ) (a b : A) (given : Block)
      → self.reserve n align a ≡ (b, ok given)
      → IsValid page given
        × (n ≤ count given * 4096)
        × ((p : ℕ) → frame b p ≡ frame a p)
        × ((p : ℕ) → Inside given p → frame a p ≡ none)
  pub reserve_fixed_lem :
      (given : Block) (a : A) (p : ℕ) → frame (self.reserve_fixed given a).0 p ≡ frame a p
  pub map_lem :
      (b : Block) (flags : ℕ) (a c : A)
      → self.map b flags a ≡ (c, ok tt)
      → (p : ℕ) → (Inside b p → frame c p ≢ none) × (Outside b p → frame c p ≡ frame a p)
  pub copy_mapping_lem :
      (old new : Block) (a c : A)
      → count old ≡ count new
      → self.copy_mapping old new none a ≡ (c, ok tt)
      → ((i : ℕ) → i < count new → frame c (new.start + i) ≡ frame a (old.start + i))
        × ((p : ℕ) → Outside new p → frame c p ≡ frame a p)
  pub unmap_lem :
      (b : Block) (a c : A)
      → self.unmap b a ≡ (c, ok tt)
      → (p : ℕ) → (Inside b p → frame c p ≡ none) × (Outside b p → frame c p ≡ frame a p)
  pub unreserve_lem :
      (b : Block) (a c : A) → self.unreserve b a ≡ (c, ok tt) → (p : ℕ) → frame c p ≡ frame a p

-- The pages of the old block keep their frames at the start of the new one, all pages of the new block
-- are mapped, those of the old block that are not in it are not, and all others keep their frames.
pub record Grown {A : Type 0} (frame : A → ℕ → Option ℕ) (old new : Block) (a c : A) : Type 0 where
  pub kept : (i : ℕ) → i < count old → frame c (new.start + i) ≡ frame a (old.start + i)
  pub mapped : (p : ℕ) → Inside new p → frame c p ≢ none
  pub freed : (p : ℕ) → Inside old p → Outside new p → frame c p ≡ none
  pub others : (p : ℕ) → Outside old p → Outside new p → frame c p ≡ frame a p
