-- ===== src/Process/Elf.antt =====
-- ku/src/process/elf.rs: the loader of programs. Of the allocators it uses the calls that the
-- parameters stand for; the parser of the file is that of another crate.
pub mod Combine
pub mod Flags
pub mod Loader
pub mod Header
use Prim.Native.Nat.{bit_or}
use nikka.Common.{
  ℕ, ◌+◌, ◌-◌, ◌*◌, Bool, true, false, Option, some, none, ltb, leb, ◌==◌, if◌then◌else◌, Outcome,
  ok, err, panic, invalid_argument, ◌>>=◌, ◌>>◌, sub_usize, max, min,
}
use nikka.Memory.Addr.{virt}
use nikka.Memory.Frage
use nikka.Memory.Frage.{l0}
use nikka.Memory.Block
use nikka.Memory.Block.{
  Memory, addr, Block, block, enclosing, is_disjoint, partial_cmp, Ordering, less, end_address,
  start_address,
}
use nikka.Kernel.Range.{page}

-- `MemoryRange<Virt>` and `MemoryRange<Page>`; which of the two it is, each use says.
pub record MemoryRange : Type 0 where
  pub flags : ℕ
  pub memory : Block

abbrev pub range_of : ℕ → Block → MemoryRange
range_of flags memory = record { flags = flags; memory = memory }

-- `PageRange::from`
pub page_range : MemoryRange → Outcome MemoryRange
page_range virt_range = do
  memory ← enclosing virt virt_range.memory
  ok (range_of virt_range.flags memory)

pub is_less : Option Ordering → Bool
is_less (some less) = true
is_less _ = false

pub validate_order : MemoryRange → MemoryRange → Outcome (Unit {0})
unfolding is_less
validate_order curr next =
    if is_less (partial_cmp curr.memory next.memory) then ok tt else err invalid_argument

-- What `combine` returns.
pub record Combined : Type 0 where
  pub curr_minus_next : Option MemoryRange
  pub boundary : Option MemoryRange
  pub updated_next : MemoryRange

-- The pages of `curr` before the page that it shares with `next`.
pub minus_next : MemoryRange → Block → ℕ → Outcome (Option MemoryRange)
minus_next curr curr_page_block overlap_end = do
  last ← sub_usize overlap_end 1
  if ltb curr_page_block.start last
      then (do
        memory ← Block.from_index page curr_page_block.start last
        ok (some (range_of curr.flags memory)))
      else ok none

-- The page that both share, if `next` goes on behind it.
pub shared_page : ℕ → MemoryRange → ℕ → ℕ → Outcome (Option MemoryRange)
shared_page combined_flags next overlap_start overlap_end =
    if ltb overlap_start overlap_end
    then (do
      last_overlap_page ← Frage.from_index virt l0 (overlap_end - 1)
      last_overlap_page_end ← Frage.add virt l0 last_overlap_page 1
      end ← end_address (addr virt) next.memory
      if ltb last_overlap_page_end end
          then (do
            memory ← Block.from_index page (overlap_end - 1) overlap_end
            ok (some (range_of combined_flags memory)))
          else ok none)
    else ok none

-- Where the updated range starts.
pub updated_start : MemoryRange → Option MemoryRange → Option MemoryRange → ℕ → Outcome ℕ
updated_start curr curr_minus_next (some _) overlap_end = Frage.from_index virt l0 overlap_end
updated_start curr (some _) none overlap_end = Frage.from_index virt l0 (overlap_end - 1)
updated_start curr none none overlap_end = ok (start_address (addr virt) curr.memory)

pub updated_flags : ℕ → ℕ → Option MemoryRange → Bool → ℕ
updated_flags combined_flags next_flags none true = combined_flags
updated_flags combined_flags next_flags _ _ = next_flags

-- The part of `combine` for ranges that share a page.
pub combine_overlapping : MemoryRange → MemoryRange → Block → Block → Outcome Combined
unfolding minus_next shared_page updated_start updated_flags
combine_overlapping curr next curr_page_block next_page_block =
    let combined_flags = bit_or curr.flags next.flags in
    let overlap_start = max curr_page_block.start next_page_block.start in
    let overlap_end = min curr_page_block.end next_page_block.end in
    do
      curr_minus_next ← minus_next curr curr_page_block overlap_end
      boundary ← shared_page combined_flags next overlap_start overlap_end
      start ← updated_start curr curr_minus_next boundary overlap_end
      end ← end_address (addr virt) next.memory
      memory ← Block.from_index (addr virt) start end
      ok (record {
        curr_minus_next = curr_minus_next;
        boundary = boundary;
        updated_next =
            range_of
              (updated_flags combined_flags next.flags boundary (ltb overlap_start overlap_end))
              memory;
      })

pub combine : MemoryRange → MemoryRange → Outcome Combined
unfolding validate_order combine_overlapping
combine curr next = do
  tt ← validate_order curr next
  curr_page_block ← enclosing virt curr.memory
  next_page_block ← enclosing virt next.memory
  if is_disjoint page curr_page_block next_page_block
      then ok (record {
        curr_minus_next = some (range_of curr.flags curr_page_block);
        boundary = none;
        updated_next = next;
      })
      else combine_overlapping curr next curr_page_block next_page_block
