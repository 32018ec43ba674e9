-- ===== src/Memory/Block.antt =====
-- ku/src/memory/block.rs: blocks of consecutive addresses, frames or pages. The parameter of
-- `Block<T>` is a value of `Memory`, which the operations take first. The conversions to pointers
-- and slices, the constructors from references and the printing are left out.
pub mod Valid
pub mod Contains
pub mod Parts
pub mod Pages
use nikka.Common.{
  ℕ, ◌+◌, ◌-◌, ◌*◌, ◌/◌, ◌^◌, Bool, true, false, not, ◌&&◌, ◌||◌, Option, some, none, ltb, leb,
  ◌==◌, if◌then◌else◌, Outcome, ok, err, panic, invalid_argument, overflow, ◌>>=◌, unwrap,
  to_option, min, max, add_usize, mul_usize,
}
use nikka.Memory.Addr
use nikka.Memory.Addr.{Tag, phys, virt, is_same_half}
use nikka.Memory.Frage
use nikka.Memory.Frage.{PageSize, l0, bytes}

-- The types that implement the trait `Memory`.
pub data Memory : Type 0 where
  addr : Tag → Memory
  frage : Tag → PageSize → Memory

abbrev pub tag_of : Memory → Tag
tag_of (addr tag) = tag
tag_of (frage tag size) = tag

-- `SIZE_OF`
abbrev pub size_of : Memory → ℕ
size_of (addr tag) = 1
size_of (frage tag size) = bytes size

unfoldable pub address_by_index : Memory → ℕ → Outcome ℕ
address_by_index (addr tag) index = Addr.new tag index
address_by_index (frage tag size) index = Frage.address_by_index tag size index

pub record Block : Type 0 where
  pub start : ℕ
  pub end : ℕ

abbrev pub block : ℕ → ℕ → Block
block start end = record { start = start; end = end }

pub from_index_count_unchecked : ℕ → ℕ → Outcome Block
from_index_count_unchecked start count = do end ← add_usize start count; ok (block start end)

abbrev pub zero_block : Block
zero_block = block 0 0

unfoldable pub from_index : Memory → ℕ → ℕ → Outcome Block
unfolding address_by_index
from_index memory start end = do
  start_address ← address_by_index memory start
  last_address ← address_by_index memory (if ltb start end then end - 1 else end)
  if leb start end && is_same_half (tag_of memory) start_address last_address
      then ok (block start end)
      else err invalid_argument

-- The fields are private, and every constructor keeps `start ≤ end`.
abbrev pub count : Block → ℕ
count self = self.end - self.start

abbrev pub size : Memory → Block → ℕ
size memory self = count self * size_of memory

abbrev pub is_empty : Block → Bool
is_empty self = self.start == self.end

abbrev pub start_address : Memory → Block → ℕ
start_address memory self = self.start * size_of memory

abbrev pub end_address : Memory → Block → Outcome ℕ
end_address memory self = address_by_index memory self.end

pub address : Memory → Block → ℕ → Outcome ℕ
address memory self offset =
    if ltb offset (size memory self)
    then unwrap (Addr.new (tag_of memory) (start_address memory self + offset))
    else err overflow

abbrev below_end : ℕ → Outcome ℕ → Bool
below_end address (ok end) = ltb address end
below_end address _ = true

pub contains_address : Memory → Block → ℕ → Bool
unfolding address_by_index
contains_address memory self address =
    if ltb address (start_address memory self)
    then false
    else below_end address (end_address memory self)

pub offset : Memory → Block → ℕ → Outcome ℕ
unfolding contains_address
offset memory self address =
    if contains_address memory self address
    then ok (address - start_address memory self)
    else err overflow

-- An element is its address.
pub contains : Memory → Block → ℕ → Bool
unfolding contains_address
contains memory self element = contains_address memory self element

abbrev pub contains_block : Block → Block → Bool
contains_block self block = leb self.start block.start && leb block.end self.end

abbrev pub contains_index : Block → ℕ → Bool
contains_index self index = leb self.start index && ltb index self.end

abbrev same_address : Outcome ℕ → ℕ → Bool
same_address (ok end) start = end == start
same_address _ start = false

pub is_adjacent : Memory → Block → Block → Bool
unfolding address_by_index
is_adjacent memory self block = same_address (end_address memory self) (start_address memory block)

pub is_disjoint : Memory → Block → Block → Bool
is_disjoint memory self block =
    is_empty self
    || is_empty block
    || (not (contains_address memory self (start_address memory block))
        && not (contains_address memory block (start_address memory self)))

pub coalesce : Memory → Block → Block → Outcome Block
unfolding is_adjacent
coalesce memory self block =
    if is_adjacent memory self block
    then unwrap (from_index memory self.start block.end)
    else err invalid_argument

pub intersection : Memory → Block → Block → Outcome Block
intersection memory self other =
    let start = max self.start other.start in
    let end = min self.end other.end in
    if leb start end then unwrap (from_index memory start end) else ok zero_block

unfoldable pub slice : Memory → Block → ℕ → ℕ → Outcome (Option Block)
slice memory self range_start range_end =
    if leb range_start range_end && leb range_end (count self)
    then (do
      start ← add_usize self.start range_start
      end ← add_usize self.start range_end
      to_option (from_index memory start end))
    else ok none

-- The result of `tail`, once the new block is made or refused.
abbrev cut_off : Block → ℕ → Option Block → Block × Option Block
cut_off self new_start none = (self, none)
cut_off self new_start (some tail) = (record self { end = new_start }, some tail)

-- The block that is left, and the one that is cut off.
pub tail : Memory → Block → ℕ → Outcome (Block × Option Block)
tail memory self n =
    if leb n (count self)
    then (do
      new_block ← to_option (from_index memory (self.end - n) self.end)
      ok (cut_off self (self.end - n) new_block))
    else ok (self, none)

-- Of a block of addresses: the pages or frames that it touches.
unfoldable pub enclosing : Tag → Block → Outcome Block
enclosing tag self = do
  end_frage ←
      if self.start == self.end
      then ok (Frage.index_by_address l0 (start_address (addr tag) self))
      else (do
        end ← unwrap (end_address (addr tag) self)
        last ← unwrap (Addr.sub tag end 1)
        ok (Frage.index_by_address l0 last + 1))
  unwrap (
      from_index (frage tag l0) (Frage.index_by_address l0 (start_address (addr tag) self))
        end_frage)

-- `From<Block<Frage>>` for `Block<Addr>`
pub into_addresses : Tag → PageSize → Block → Outcome Block
into_addresses tag size self = do
  end ← unwrap (end_address (frage tag size) self)
  unwrap (from_index (addr tag) (start_address (frage tag size) self) end)

pub data Ordering : Type 0 where
  less equal greater : Ordering

unfoldable pub partial_cmp : Block → Block → Option Ordering
partial_cmp self other =
    if leb self.end other.start
    then some less
    else if leb other.end self.start
    then some greater
    else if self.start == other.start && self.end == other.end
    then some equal
    else none
