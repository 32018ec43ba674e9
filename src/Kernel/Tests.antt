-- ===== src/Kernel/Tests.antt =====
-- The theorems about the kernel's memory management at concrete arguments.
use nikka.Common.{
  ℕ, zero, suc, ◌+◌, ◌-◌, ◌^◌, ◌≡◌, ◌≢◌, inr, refl, true, false, Option, some, none, [], ◌∷◌, arith,
  ok, err, permission_denied, get_elem?, ==_iff, ◌==◌,
}
use nikka.Common.FreeList.{has}
use nikka.Memory.Block.{Block, block}
use nikka.Memory.Block.Valid
use nikka.Memory.Block.Contains.{Apart, spans}
use nikka.Memory.Frage.{l0, index}
use nikka.Kernel.Range.{page, validate_block, validate_page_flags}
use nikka.Kernel.Range.Checks.{
  user_start, user_block, validate_block-higher, validate_page_flags-higher,
}
use nikka.Kernel.PageAllocator.{PageAllocator, find_unused_block}
use nikka.Kernel.PageAllocator.Scans.{Finds, find_unused_block-Finds}
use nikka.Kernel.PageAllocator.Allocate.{allocate-Gives}
use nikka.Kernel.PageAllocator.Allocate
use nikka.Kernel.PageAllocator.Reserve.{Keeps, reserve_lem}
use nikka.Kernel.FrameAllocator.{absent, free, used, FrameAllocator, allocate, deallocate}
use nikka.Kernel.FrameAllocator.FreeFrames.{IsValid, Gives, allocate-IsValid, next_of}
use nikka.Kernel.FrameAllocator.Counts.{Deallocates, deallocate-IsValid, deallocate-allocate}

abbrev allocator : PageAllocator
allocator = record { block = block 100 200; initial_block = block 100 300 }

allocator-IsValid : Valid.IsValid page allocator.block
allocator-IsValid = grind arith

pages-IsValid : Valid.IsValid page (block 250 260)
pages-IsValid = grind arith

find_unused_block-Finds_example : Finds (λ i. i == 3) 0 256 (find_unused_block (λ i. i == 3) 0 256)
find_unused_block-Finds_example =
    find_unused_block-Finds (λ i. i == 3) 0 256 (omega arith) (omega arith)

allocate-Gives_example : (b : Block) × Allocate.Gives allocator 5000 (2 ^ 14) b
allocate-Gives_example =
    allocate-Gives allocator 5000 14 allocator-IsValid (omega arith) (omega arith)

reserve_lem_example : (b : Block) × Keeps allocator (block 120 130) b
reserve_lem_example = (reserve_lem allocator (block 120 130) allocator-IsValid (omega arith)).0 refl

-- Frame 0 is absent, frames 1 and 3 are free, and frame 2 has two references.
abbrev frames : FrameAllocator
frames = record {
  access_beyond_frame_info = false;
  frame_info = absent ∷ free (some 3) ∷ used 2 ∷ free none ∷ [];
  free_count = 2;
  free_frame = some 1;
}

frames_complete :
    (i : ℕ) (n : Option ℕ)
    → next_of frames.frame_info i ≡ some n
    → has ◌==◌ ==_iff i (1 ∷ 3 ∷ []) ≡ true
frames_complete zero n h = ground arith
frames_complete (suc zero) n h = refl
frames_complete (suc (suc zero)) n h = ground arith
frames_complete (suc (suc (suc zero))) n h = refl
frames_complete (suc (suc (suc (suc i)))) n h = ground arith

frames_referenced : (i : ℕ) → get_elem? frames.frame_info i ≢ some (used 0)
frames_referenced zero h = ground arith
frames_referenced (suc zero) h = ground arith
frames_referenced (suc (suc zero)) h = ground arith
frames_referenced (suc (suc (suc zero))) h = ground arith
frames_referenced (suc (suc (suc (suc i)))) h = ground arith

frames-IsValid : IsValid frames
frames-IsValid = record {
  slots = 1 ∷ 3 ∷ [];
  is_list = record {
    chain = (refl, some 3, refl, (refl, none, refl, refl));
    distinct = (refl, (refl, tt));
    complete = frames_complete;
  };
  counted = refl;
  referenced = frames_referenced;
  addressable = omega arith;
}

allocate-IsValid_example : Gives frames
allocate-IsValid_example = (allocate-IsValid frames frames-IsValid).1 (omega arith)

deallocate-IsValid_example :
    Deallocates frames
      (index l0 8192)
      (get_elem? frames.frame_info (index l0 8192))
      (deallocate frames 8192)
deallocate-IsValid_example = deallocate-IsValid frames 8192 frames-IsValid

deallocate-allocate_example :
    (frame : ℕ) × ((allocate frames).1 ≡ ok frame)
    × (deallocate (allocate frames).0 frame ≡ (frames, ok tt))
deallocate-allocate_example = deallocate-allocate frames frames-IsValid (omega arith)

no_link : (j : ℕ) → j ≡ 0 → next_of frames.frame_info j ≡ none
no_link j h = rw h refl

-- Flags with and without `USER`.
abbrev user_flags : ℕ
user_flags = 7

abbrev kernel_flags : ℕ
kernel_flags = 3

user_pages-IsValid : Valid.IsValid page (block user_start (user_start + 8))
user_pages-IsValid = grind arith

higher_pages-IsValid : Valid.IsValid page (block (2 ^ 52 - 8) (2 ^ 52))
higher_pages-IsValid = grind arith

validate_block-higher_example :
    (validate_block (block (2 ^ 52 - 8) (2 ^ 52)) ≡ err permission_denied)
    × Apart user_block (block (2 ^ 52 - 8) (2 ^ 52))
validate_block-higher_example =
    validate_block-higher (block (2 ^ 52 - 8) (2 ^ 52)) higher_pages-IsValid (omega arith)
      (omega arith)

validate_page_flags-higher_example :
    (validate_page_flags (2 ^ 64 - 4096) kernel_flags ≡ err permission_denied)
    × (spans page user_block (2 ^ 64 - 4096) ≡ false)
validate_page_flags-higher_example =
    validate_page_flags-higher (2 ^ 64 - 4096) kernel_flags (inr (omega arith, omega arith))
      (omega arith)
