-- ===== src/Kernel/PageAllocator.antt =====
-- kernel/src/memory/page_allocator.rs: the allocator of virtual pages of an address space. Of the
-- root page table it reads whether an entry is present; a layout is its size and its alignment.
pub mod Scans
pub mod Allocate
pub mod Reserve
use nikka.Common.{
  ℕ, zero, suc, ◌+◌, ◌-◌, ◌*◌, ◌/◌, ◌%◌, ◌^◌, Bool, true, false, ◌&&◌, Option, some, none, ltb, leb,
  ◌==◌, if◌then◌else◌, Outcome, ok, err, panic, no_page, invalid_argument, ◌>>=◌, to_option,
}
use nikka.Memory.Frage.{l0, bytes}
use nikka.Memory.Block
use nikka.Memory.Block.{Block, zero_block, count, contains_block, start_address}
use nikka.Kernel.Range.{page, pages_per_root_level_entry}

pub record PageAllocator : Type 0 where
  pub block : Block
  pub initial_block : Block

pub duplicate : PageAllocator → PageAllocator
duplicate self = record { block = self.initial_block; initial_block = self.initial_block }

pub duplicate_allocator_state : PageAllocator → PageAllocator → PageAllocator × Outcome (Unit {0})
duplicate_allocator_state self original =
    if contains_block self.block original.block
    then (record self { block = original.block }, ok tt)
    else (self, err invalid_argument)

abbrev pub div_ceil : ℕ → ℕ → ℕ
div_ceil a b = (a + b - 1) / b

-- `.map_err(|_| NoPage)`
abbrev or_no_page : Outcome Block → Outcome Block
or_no_page (ok b) = ok b
or_no_page (err e) = err no_page
or_no_page panic = panic

pub enough : ℕ → Block → Outcome Block
enough pages_needed block = if ltb (count block) pages_needed then err no_page else ok block

-- The part of `allocate` that moves the start of the block to the alignment.
pub align_start : ℕ → ℕ → Block → Outcome Block
unfolding enough
align_start pages_needed alignment block =
    let misalignment = start_address page block % alignment in
    let pages_to_skip = div_ceil (alignment - misalignment) (bytes l0) in
    let aligned = or_no_page (Block.from_index page (block.start + pages_to_skip) block.end) in
    if ltb (bytes l0) alignment
    then if misalignment == 0
      then ok block
      else if ltb pages_to_skip (count block)
      then aligned >>= enough pages_needed
      else err no_page
    else ok block

-- The part that gives up what is left behind the pages that are needed.
pub trim_end : ℕ → Block → Outcome Block
trim_end pages_needed block =
    if ltb pages_needed (count block)
    then or_no_page (Block.from_index page block.start (block.start + pages_needed))
    else ok block

abbrev pub extra_pages : ℕ → ℕ
extra_pages alignment = if ltb (bytes l0) alignment then div_ceil alignment (bytes l0) else 0

-- What `allocate` does with the two blocks that `tail` returns.
pub allocate_tail :
    PageAllocator → ℕ → ℕ → Outcome (Block × Option Block) → PageAllocator × Outcome Block
unfolding align_start trim_end
allocate_tail self pages_needed alignment (ok (left, some block)) = (
  record self { block = left },
  align_start pages_needed alignment block >>= trim_end pages_needed,
)
allocate_tail self pages_needed alignment (ok (left, none)) =
    (record self { block = left }, err no_page)
allocate_tail self pages_needed alignment (err e) = (self, err e)
allocate_tail self pages_needed alignment panic = (self, panic)

-- `layout.size()` and `layout.align()` are below `2 ^ 63`, so the sums fit.
pub allocate : PageAllocator → ℕ → ℕ → PageAllocator × Outcome Block
unfolding allocate_tail
allocate self size alignment =
    let pages_needed = div_ceil size (bytes l0) in
    let total = pages_needed + extra_pages alignment in
    if pages_needed == 0
    then (self, ok zero_block)
    else if ltb (count self.block) total
    then (self, err no_page)
    else allocate_tail self pages_needed alignment (Block.tail page self.block total)

pub deallocate : PageAllocator → Block → PageAllocator × Outcome (Unit {0})
deallocate self pages =
    if contains_block self.initial_block pages && Block.is_disjoint page self.block pages
    then (self, ok tt)
    else (self, err invalid_argument)

abbrev replace : PageAllocator → Outcome Block → PageAllocator × Outcome (Unit {0})
replace self (ok block) = (record self { block = block }, ok tt)
replace self (err e) = (self, err e)
replace self panic = (self, panic)

pub reserve : PageAllocator → Block → PageAllocator × Outcome (Unit {0})
reserve self pages =
    let before = pages.start - self.block.start in
    let behind = self.block.end - pages.end in
    let right = replace self (Block.from_index page pages.end self.block.end) in
    let left = replace self (Block.from_index page self.block.start pages.start) in
    if contains_block self.block pages
    then if ltb before behind then right else left
    else (self, err no_page)

-- The variables of the loop of `find_unused_block`.
pub record Scan : Type 0 where
  pub longest_start : Option ℕ
  pub longest_length : ℕ
  pub current_start : Option ℕ
  pub current_length : ℕ

abbrev pub start_scan : Scan
start_scan = record {
  longest_start = none;
  longest_length = 0;
  current_start = none;
  current_length = 0;
}

abbrev pub extend_current : ℕ → Scan → Scan
extend_current i self = elim self.current_start [
  | none ↦ record self { current_start = some i; current_length = 1 }
  | some start ↦ record self { current_length = self.current_length + 1 }
]

abbrev pub note_longest : Scan → Scan
note_longest self =
    if ltb self.longest_length self.current_length
    then record self { longest_start = self.current_start; longest_length = self.current_length }
    else self

-- The block that `find_unused_block` makes of what its loop found.
abbrev pub found_block : Option ℕ → ℕ → Outcome (Option Block)
found_block none n = ok none
found_block (some entry) n =
    let page_start = entry * pages_per_root_level_entry in
    to_option (Block.from_index page page_start (page_start + n * pages_per_root_level_entry))

-- `is_present` is what the root table says of each entry.
module _ (is_present : ℕ → Bool) where
  pub scan_entry : ℕ → Scan → Scan
  scan_entry i self =
      if is_present i
      then record self { current_start = none; current_length = 0 }
      else note_longest (extend_current i self)

  -- The loop from the entry `i` on, for `rounds` entries.
  pub scan_entries : ℕ → ℕ → Scan → Scan
  scan_entries zero i self = self
  scan_entries (suc rounds) i self = scan_entries rounds (i + 1) (scan_entry i self)

  pub find_unused_block : ℕ → ℕ → Outcome (Option Block)
  unfolding scan_entries scan_entry
  find_unused_block start end =
      let found = scan_entries (end - start) start start_scan in
      found_block found.longest_start found.longest_length

  -- The allocator begins with a guard zone of one page.
  pub new : ℕ → ℕ → Outcome PageAllocator
  unfolding find_unused_block allocate
  new start end = do
    found ← find_unused_block start end
    elim found [
      | none ↦ panic
      | some block ↦
          let (self, guard) =
            allocate (record { block = block; initial_block = zero_block }) (bytes l0) (bytes l0) in
          elim guard [
            | ok _ ↦ ok (record self { initial_block = self.block })
            | err e ↦ panic
            | panic ↦ panic
          ]
    ]
