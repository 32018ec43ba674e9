-- ===== src/Kernel/FrameAllocator/Init.antt =====
-- The frames of a memory map: what the loops of `init_frame_info` do to the free list.
use nikka.Common.{
  ℕ, zero, suc, ◌+◌, ◌≤◌, ◌<◌, ◌≡◌, refl, sym, ◌∙◌, true, false, none, List, arith, ltb, ◌==◌, ok,
  length, length-set,
}
use nikka.Kernel.FrameAllocator.{
  FrameInfo, free, FrameAllocator, release, free_frames, reference, resize, MemoryRegion,
}
use nikka.Kernel.FrameAllocator.FreeFrames.{IsValid, next_of, next_of-set_ne}
use nikka.Kernel.FrameAllocator.Counts.{release-IsValid, reference-refused}
use nikka.Memory.Frage.{l0, index}

-- What a loop over `rounds` frames from `i` on keeps: the entries elsewhere, and how many there are.
pub record KeepsOthers (i rounds : ℕ) (self later : FrameAllocator) : Type 0 where
  pub same_length : length later.frame_info ≡ length self.frame_info
  pub same_before : (j : ℕ) → j < i → next_of later.frame_info j ≡ next_of self.frame_info j
  pub same_behind :
      (j : ℕ) → i + rounds ≤ j → next_of later.frame_info j ≡ next_of self.frame_info j

-- The loop over the frames of a usable region, if they are within the entries and none of them is
-- free yet, keeps a valid allocator valid, frees each of them, and leaves the other entries as they are.
pub free_frames_lem :
    (rounds i : ℕ) (self : FrameAllocator)
    → IsValid self
    → i + rounds ≤ length self.frame_info
    → ((j : ℕ) → i ≤ j → j < i + rounds → next_of self.frame_info j ≡ none)
    → IsValid (free_frames rounds i self)
      × ((free_frames rounds i self).free_count ≡ self.free_count + rounds)
      × KeepsOthers i rounds self (free_frames rounds i self)
unfolding free_frames
free_frames_lem zero i self v fits gone = (
  v,
  omega arith,
  record { same_length = refl; same_before = λ j h. refl; same_behind = λ j h. refl },
)
free_frames_lem (suc rounds) i self v fits gone =
    let inside : ltb i (length self.frame_info) ≡ true = ground arith in
    let freed = release self i in
    let step : free_frames (suc rounds) i self ≡ free_frames rounds (i + 1) freed =
      rw inside refl in
    let kept = length-set self.frame_info i (free self.free_frame) in
    let other : (j : ℕ)
        → (j == i) ≡ false
        → next_of self.frame_info j ≡ next_of freed.frame_info j =
      next_of-set_ne self.frame_info i (free self.free_frame) in
    let (valid, counted, keeps) =
      free_frames_lem rounds (i + 1) freed
        (release-IsValid self i v (omega arith) (gone i (omega arith) (omega arith))) (omega arith)
        (λ j p q. sym (other j (ground arith)) ∙ gone j (omega arith) (omega arith)) in
    rw step (
      valid,
      omega arith,
      record {
        same_length = keeps.same_length ∙ kept;
        same_before = λ j h. keeps.same_before j (omega arith) ∙ sym (other j (ground arith));
        same_behind = λ j h. keeps.same_behind j (omega arith) ∙ sym (other j (ground arith));
      },
    )

-- `resize` does not see a `reference` to a frame beyond the entries that came before it.
pub resize-reference :
    (self : FrameAllocator) (frame : ℕ) (frame_info : List FrameInfo)
    (memory_map : List MemoryRegion)
    → length self.frame_info ≤ index l0 frame
    → ((reference self frame).1 ≡ ok frame)
      × (resize (reference self frame).0 frame_info memory_map ≡ resize self frame_info memory_map)
resize-reference self frame frame_info memory_map h =
    let e = (reference-refused self frame).2 h in rw e (refl, refl)
