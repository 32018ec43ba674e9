-- ===== src/Process/Elf/Loader.antt =====
-- `Loader`, which moves the pages of a program to its address space. The pair of allocators is the
-- parameter `pair`; the lists are the bytes of the file.
pub mod Views
pub mod Steps
pub mod Moves
pub mod Pieces
pub mod NewPages
pub mod Loading
pub mod Loaded
pub mod Segments
use Prim.Native.Nat.{bit_or}
use nikka.Common.{
  ℕ, zero, suc, ◌+◌, ◌-◌, ◌*◌, ◌/◌, ◌^◌, Bool, true, false, ◌&&◌, Option, some, none, List, [], ◌∷◌,
  ltb, leb, ◌==◌, if◌then◌else◌, Outcome, ok, err, panic, permission_denied, overflow, ◌>>=◌, ◌>>◌,
  ok_or, or_panic, checked_add, add_usize, sub_usize, assert, length, max, min,
}
use nikka.Memory.Addr
use nikka.Memory.Addr.{virt}
use nikka.Memory.Frage
use nikka.Memory.Frage.{l0}
use nikka.Memory.Block
use nikka.Memory.Block.{
  Block, block, addr, enclosing, is_disjoint, is_empty, zero_block, start_address, size, count,
}
use nikka.Kernel.Range.{page}
use nikka.Process.Elf.{MemoryRange, range_of, page_range, Combined, combine}

pub record FileRange : Type 0 where
  pub file_start : ℕ
  pub file_end : ℕ
  pub virt_range : MemoryRange

-- What the loader calls of `BigAllocatorPair`, and what it writes through the slices of its blocks.
-- `dst` is the target address space, `src` the current one.
pub record BigAllocatorPair (A : Type 0) : Type 1 where
  -- `dst().flags()` and `src().flags()`
  pub dst_flags : A → ℕ
  pub src_flags : A → ℕ
  -- `dst().reserve_fixed(block)`
  pub reserve_fixed : A → Block → Outcome A
  -- `src().grow(block, pages, flags)`
  pub grow : A → Block → ℕ → ℕ → Outcome (A × Block)
  -- `copy_mapping(src_block, dst_block, Some(flags))`
  pub copy_mapping : A → Block → Block → ℕ → Outcome A
  -- `block.try_into_mut_slice()`
  pub try_into_mut_slice : A → Block → Outcome (Unit {0})
  -- `slice[start..end].copy_from_slice(bytes)` and `slice[start..end].fill(byte)`, within the slice
  pub copy_from_slice : A → Block → ℕ → List ℕ → A
  pub fill : A → Block → ℕ → ℕ → ℕ → A

pub record Loader (A : Type 0) : Type 0 where
  pub allocator : A
  pub curr : Option MemoryRange
  pub file : List ℕ
  pub src_block : Block
  pub src_block_start_addr : Option ℕ

-- `drop` and `take` of a range of the file.
pub skip : ℕ → List ℕ → List ℕ
skip zero xs = xs
skip (suc n) [] = []
skip (suc n) (x ∷ xs) = skip n xs

pub first : ℕ → List ℕ → List ℕ
first zero xs = []
first (suc n) [] = []
first (suc n) (x ∷ xs) = x ∷ first n xs

-- `slice.get(start..end)`
pub get_range : List ℕ → ℕ → ℕ → Option (List ℕ)
unfolding skip first
get_range file start end =
    if leb start end && leb end (length file)
    then some (first (end - start) (skip start file))
    else none

-- The pages of the target that are not reserved yet.
pub dst_new_pages : Option MemoryRange → Block → Outcome Block
dst_new_pages none next_page_block = ok next_page_block
dst_new_pages (some curr) next_page_block = do
  curr_page_block ← enclosing virt curr.memory
  if is_disjoint page curr_page_block next_page_block
      then ok next_page_block
      else (let overlap_end = min curr_page_block.end next_page_block.end in
          if ltb overlap_end next_page_block.end
          then Block.from_index page overlap_end next_page_block.end
          else ok zero_block)

abbrev pub first_start_addr : Option MemoryRange → Option ℕ → Block → Option ℕ
first_start_addr none start_addr next_page_block = some (start_address page next_page_block)
first_start_addr (some _) start_addr next_page_block = start_addr

-- `PageTableFlags::WRITABLE`
abbrev pub writable : ℕ
writable = 2 ^ 1

module _ {A : Type 0} (pair : BigAllocatorPair A) where
  pub reserve_new_pages : A → Block → Outcome A
  reserve_new_pages allocator new_pages =
      if is_empty new_pages then ok allocator else pair.reserve_fixed allocator new_pages

  -- The block in the current address space, grown to `total` pages, the new ones filled with zeros.
  pub grow_src_block : A → Block → ℕ → Outcome (A × Block)
  grow_src_block allocator src_block total_pages_needed =
      if ltb (count src_block) total_pages_needed
      then (do
        assert (leb total_pages_needed ((2 ^ 63 - 1) / 2 ^ 12))
        grown ←
            pair.grow allocator src_block total_pages_needed
              (bit_or (pair.src_flags allocator) writable)
        start ← add_usize grown.1.start (count src_block)
        new_pages ← Block.from_index page start grown.1.end
        pair.try_into_mut_slice grown.0 new_pages
        ok (pair.fill grown.0 new_pages 0 (size page new_pages) 0, grown.1))
      else ok (allocator, src_block)

  pub extend_mapping : Loader A → FileRange → Outcome (Loader A)
  unfolding dst_new_pages reserve_new_pages grow_src_block
  extend_mapping self next = do
    next_page_block ← enclosing virt next.virt_range.memory
    new_pages ← dst_new_pages self.curr next_page_block
    let start_addr = first_start_addr self.curr self.src_block_start_addr next_page_block
    reserved ← reserve_new_pages self.allocator new_pages
    start ← or_panic start_addr
    src_block_start ← Frage.containing virt l0 start
    total_pages_needed ← sub_usize next_page_block.end (Frage.index l0 src_block_start)
    grown ← grow_src_block reserved self.src_block total_pages_needed
    ok (record self { allocator = grown.0; src_block = grown.1; src_block_start_addr = start_addr })

  -- A range of the slice of the block: out of it the program panics.
  pub within_slice : Block → ℕ → ℕ → A → Outcome A
  within_slice src_block start end written =
      if leb start end && leb end (size page src_block) then ok written else panic

  pub copy_to_memory : Loader A → FileRange → Outcome (Loader A × MemoryRange)
  unfolding get_range within_slice
  copy_to_memory self range = do
    file_data ← ok_or (get_range self.file range.file_start range.file_end) overflow
    dst_start ← or_panic self.src_block_start_addr
    src_offset ← sub_usize (start_address (addr virt) range.virt_range.memory) dst_start
    pair.try_into_mut_slice self.allocator self.src_block
    let copy_len = length file_data
    copied ←
        within_slice self.src_block src_offset (src_offset + copy_len)
          (pair.copy_from_slice self.allocator self.src_block src_offset file_data)
    let mem_size = size (addr virt) range.virt_range.memory
    filled ←
        if ltb copy_len mem_size
        then within_slice self.src_block (src_offset + copy_len) (src_offset + mem_size)
            (pair.fill copied self.src_block (src_offset + copy_len) (src_offset + mem_size) 0)
        else ok copied
    ok (record self { allocator = filled }, range.virt_range)

  pub finalize_mapping : Loader A → MemoryRange → Outcome (Loader A)
  finalize_mapping self page_range = if is_empty page_range.memory then ok self else (do
    dst_start_addr ← or_panic self.src_block_start_addr
    dst_start ← Frage.containing virt l0 dst_start_addr
    offset ← sub_usize page_range.memory.start (Frage.index l0 dst_start)
    start ← add_usize self.src_block.start offset
    end ← add_usize start (count page_range.memory)
    src_block ← Block.from_index page start end
    allocator ←
        pair.copy_mapping self.allocator src_block page_range.memory
          (bit_or page_range.flags (pair.dst_flags self.allocator))
    ok (record self { allocator = allocator }))

  pub finalize_some : Loader A → Option MemoryRange → Outcome (Loader A)
  unfolding finalize_mapping
  finalize_some self none = ok self
  finalize_some self (some page_range) = finalize_mapping self page_range

  -- What `load_program_header` does once the segment is copied.
  pub advance : Loader A → Option MemoryRange → MemoryRange → Outcome (Loader A)
  unfolding finalize_some
  advance self none next_virt = ok (record self { curr = some next_virt })
  advance self (some curr) next_virt = do
    combined ← combine curr next_virt
    moved ← finalize_some self combined.curr_minus_next
    bounded ← finalize_some moved combined.boundary
    ok (record bounded { curr = some combined.updated_next })

  pub load_program_header : Loader A → FileRange → Outcome (Loader A)
  unfolding extend_mapping copy_to_memory advance
  load_program_header self next = do
    extended ← extend_mapping self next
    copied ← copy_to_memory extended next
    advance copied.0 (copied.0).curr copied.1

  pub finish : Loader A → Outcome (Loader A)
  unfolding finalize_mapping
  finish self = elim (self.curr) [
    | none ↦ ok self
    | some curr ↦ do pages ← page_range curr; finalize_mapping (record self { curr = none }) pages
  ]

  pub load_program_headers : Loader A → List FileRange → Outcome (Loader A)
  unfolding load_program_header
  load_program_headers self [] = ok self
  load_program_headers self (next ∷ ranges) = do
    loaded ← load_program_header self next
    load_program_headers loaded ranges

  -- `Loader::new`
  pub new : A → List ℕ → Loader A
  new allocator file = record {
    allocator = allocator;
    curr = none;
    file = file;
    src_block = zero_block;
    src_block_start_addr = none;
  }

  -- The segments, one after the other, and the end.
  pub load_segments : A → List ℕ → List FileRange → Outcome (Loader A)
  unfolding new load_program_headers finish
  load_segments allocator file ranges = do
    loaded ← load_program_headers (new allocator file) ranges
    finish loaded
