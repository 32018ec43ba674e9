-- ===== src/Kernel/FrameAllocator.antt =====
-- kernel/src/memory/frame_allocator.rs: the allocator of physical frames. A frame is its address, and
-- a `FrameGuard` the frame that it owns. The entry `absent`, which stands for the frames beyond
-- `frame_info`, is never written.
pub mod FreeFrames
pub mod Counts
pub mod Init
use nikka.Common.{
  ℕ, zero, suc, ◌+◌, ◌-◌, ◌*◌, Bool, true, false, ◌||◌, not, Option, some, none, List, [], ◌∷◌, ltb,
  leb, ◌==◌, if◌then◌else◌, Outcome, ok, err, panic, no_frame, ◌>>=◌, ◌>>◌, assert, unwrap,
  add_usize, sub_usize, length, get_elem?, set,
}
use nikka.Memory.Addr.{phys}
use nikka.Memory.Frage
use nikka.Memory.Frage.{l0}
use nikka.Memory.Block
use nikka.Memory.Block.{Block, Memory, block, count}

abbrev pub of_frames : Memory
of_frames = Block.frage phys l0

pub data FrameInfo : Type 0 where
  absent : FrameInfo
  free : (next_free : Option ℕ) → FrameInfo
  used : (reference_count : ℕ) → FrameInfo

pub record FrameAllocator : Type 0 where
  pub access_beyond_frame_info : Bool
  pub frame_info : List FrameInfo
  pub free_count : ℕ
  pub free_frame : Option ℕ

abbrev pub put : FrameAllocator → ℕ → FrameInfo → FrameAllocator
put self i info = record self { frame_info = set self.frame_info i info }

-- What `allocate` does with the entry at the head of the list.
pub allocate_at : FrameAllocator → ℕ → Option FrameInfo → FrameAllocator × Outcome ℕ
allocate_at self frame_index (some (free next_free)) = (
  record self {
    frame_info = set self.frame_info frame_index (used 1);
    free_count = self.free_count - 1;
    free_frame = next_free;
  },
  unwrap (Frage.from_index phys l0 frame_index),
)
allocate_at self frame_index _ = (self, panic)

pub allocate : FrameAllocator → FrameAllocator × Outcome ℕ
unfolding allocate_at
allocate self = if self.free_count == 0 then (self, err no_frame) else elim self.free_frame [
  | none ↦ (self, err no_frame)
  | some frame_index ↦ allocate_at self frame_index (get_elem? self.frame_info frame_index)
]

abbrev pub release : FrameAllocator → ℕ → FrameAllocator
release self frame_index = record self {
  frame_info = set self.frame_info frame_index (free self.free_frame);
  free_count = self.free_count + 1;
  free_frame = some frame_index;
}

-- What `deallocate` does with the frame's entry, and `none` stands for a frame beyond them.
pub deallocate_at : FrameAllocator → ℕ → Option FrameInfo → FrameAllocator × Outcome (Unit {0})
deallocate_at self i (some (used zero)) = (self, panic)
deallocate_at self i (some (used (suc zero))) = (release self i, ok tt)
deallocate_at self i (some (used (suc (suc n)))) = (put self i (used (suc n)), ok tt)
deallocate_at self i (some (free next)) = (self, panic)
deallocate_at self i (some absent) = (self, ok tt)
deallocate_at self i none = (self, ok tt)

pub deallocate : FrameAllocator → ℕ → FrameAllocator × Outcome (Unit {0})
unfolding deallocate_at
deallocate self frame =
    let i = Frage.index l0 frame in deallocate_at self i (get_elem? self.frame_info i)

pub reference_at : FrameAllocator → ℕ → ℕ → Option FrameInfo → FrameAllocator × Outcome ℕ
reference_at self frame i (some (used n)) = elim (add_usize n 1) [
  | ok m ↦ (put self i (used m), ok frame)
  | err e ↦ (self, panic)
  | panic ↦ (self, panic)
]
reference_at self frame i (some (free next)) = (self, panic)
reference_at self frame i (some absent) = (self, ok frame)
reference_at self frame i none = (self, ok frame)

pub reference : FrameAllocator → ℕ → FrameAllocator × Outcome ℕ
unfolding reference_at
reference self frame =
    let i = Frage.index l0 frame in reference_at self frame i (get_elem? self.frame_info i)

-- The getter of an entry to read it.
abbrev pub or_absent : Option FrameInfo → FrameInfo
or_absent none = absent
or_absent (some info) = info

pub frame_info : FrameAllocator → ℕ → FrameInfo
frame_info self frame = or_absent (get_elem? self.frame_info (Frage.index l0 frame))

abbrev pub count_of : FrameInfo → Outcome ℕ
count_of absent = err no_frame
count_of (free next) = ok 0
count_of (used n) = ok n

pub reference_count : FrameAllocator → ℕ → Outcome ℕ
unfolding frame_info
reference_count self frame = count_of (frame_info self frame)

abbrev pub is_free : FrameInfo → Bool
is_free (free next) = true
is_free _ = false

pub is_used : FrameAllocator → ℕ → Bool
unfolding frame_info
is_used self frame = not (is_free (frame_info self frame))

-- The types of a `MemoryRegion` that the source names; `other` is any other.
pub data RegionType : Type 0 where
  usable kernel kernel_stack page_table other : RegionType

pub record MemoryRegion : Type 0 where
  pub start_frame_number : ℕ
  pub end_frame_number : ℕ
  pub region_type : RegionType

-- The loops over the frames of a region, from `i` on for `rounds` of them.
pub free_frames : ℕ → ℕ → FrameAllocator → FrameAllocator
free_frames zero i self = self
free_frames (suc rounds) i self =
    let freed = if ltb i (length self.frame_info) then release self i else self in
    free_frames rounds (i + 1) freed

pub use_frames : ℕ → ℕ → FrameAllocator → FrameAllocator
use_frames zero i self = self
use_frames (suc rounds) i self =
    let marked = if ltb i (length self.frame_info) then put self i (used 1) else self in
    use_frames rounds (i + 1) marked

abbrev init_frames : RegionType → Block → FrameAllocator → FrameAllocator
unfolding free_frames use_frames
init_frames usable frames self = free_frames (count frames) frames.start self
init_frames other frames self = self
init_frames _ frames self = use_frames (count frames) frames.start self

-- One round of the loop over the memory map.
pub init_region : Block → MemoryRegion → FrameAllocator → Outcome FrameAllocator
init_region frames region self = do
  region_frames ←
      unwrap (Block.from_index of_frames region.start_frame_number region.end_frame_number)
  wanted ← unwrap (Block.from_index of_frames frames.start frames.end)
  intersection ← Block.intersection of_frames region_frames wanted
  ok (
      if Block.is_empty intersection
      then self
      else init_frames region.region_type intersection self)

pub init_frame_info : List MemoryRegion → Block → FrameAllocator → Outcome FrameAllocator
unfolding init_region
init_frame_info [] frames self = ok self
init_frame_info (region ∷ memory_map) frames self = do
  next ← init_region frames region self
  init_frame_info memory_map frames next

pub new : List FrameInfo → List MemoryRegion → Outcome FrameAllocator
unfolding init_frame_info
new frame_info memory_map = init_frame_info memory_map (block 0 (length frame_info)) (record {
  access_beyond_frame_info = false;
  frame_info = frame_info;
  free_count = 0;
  free_frame = none;
})

-- `frame_info[.. old_len].copy_from_slice(old)`
pub copy_over : List FrameInfo → List FrameInfo → Outcome (List FrameInfo)
copy_over [] new = ok new
copy_over (info ∷ old) [] = panic
copy_over (info ∷ old) (_ ∷ new) = do rest ← copy_over old new; ok (info ∷ rest)

-- Returns the allocator and the old storage.
pub resize :
    FrameAllocator → List FrameInfo → List MemoryRegion → Outcome (FrameAllocator × List FrameInfo)
unfolding copy_over init_frame_info
resize self frame_info memory_map =
    let old_len = length self.frame_info in
    let new_len = length frame_info in
    do
      tt ← assert (not self.access_beyond_frame_info)
      copied ← copy_over self.frame_info frame_info
      let moved = record self { frame_info = copied }
      grown ←
          if ltb old_len new_len
          then init_frame_info memory_map (block old_len new_len) moved
          else ok moved
      ok (grown, self.frame_info)
