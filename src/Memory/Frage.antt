-- ===== src/Memory/Frage.antt =====
-- ku/src/memory/frage.rs: frames and pages of the three sizes. A frage is the address of its first
-- byte; a `PageSize` stands for the `SIZE` that `validate_size` lets pass.
pub mod Index
pub mod Steps
use nikka.Common.{
  ℕ, ◌+◌, ◌-◌, ◌*◌, ◌/◌, ◌%◌, ◌^◌, Bool, true, false, ◌&&◌, Option, some, none, ltb, leb, ◌==◌,
  if◌then◌else◌, Outcome, ok, err, panic, invalid_alignment, overflow, ◌>>=◌, unwrap, to_option,
  ok_or, checked_add, checked_sub, checked_mul, sub_usize, bool_eq, mul_usize,
}
use nikka.Memory.Addr
use nikka.Memory.Addr.{Tag, virt, half_size}

pub data PageSize : Type 0 where
  l0 l1 l2 : PageSize

-- `L0_SIZE`, `L1_SIZE` and `L2_SIZE`
abbrev pub bytes : PageSize → ℕ
bytes l0 = 2 ^ 12
bytes l1 = 2 ^ (9 + 12)
bytes l2 = 2 ^ (2 * 9 + 12)

unfoldable pub new : PageSize → ℕ → Outcome ℕ
new size addr = if addr % bytes size == 0 then ok addr else err invalid_alignment

unfoldable pub address_by_index : Tag → PageSize → ℕ → Outcome ℕ
address_by_index tag size index = do
  address ← ok_or (checked_mul index (bytes size)) overflow
  Addr.new tag address

-- `addr & !(SIZE - 1)` clears the bits below the size.
pub containing : Tag → PageSize → ℕ → Outcome ℕ
containing tag size addr = unwrap (Addr.new tag (addr / bytes size * bytes size))

unfoldable pub from_index : Tag → PageSize → ℕ → Outcome ℕ
unfolding address_by_index
from_index tag size index = do address ← address_by_index tag size index; ok address

abbrev pub index_by_address : PageSize → ℕ → ℕ
index_by_address size address = address / bytes size

unfoldable pub index : PageSize → ℕ → ℕ
index size self = index_by_address size self

pub offset : Tag → PageSize → ℕ → ℕ → Outcome ℕ
offset tag size self address = unwrap (Addr.add tag self (address % bytes size))

-- `Frage + usize`, `Frage - usize` and `Frage - Frage`
pub add : Tag → PageSize → ℕ → ℕ → Outcome ℕ
unfolding new
add tag size self rhs = do
  distance ← mul_usize rhs (bytes size)
  address ← Addr.add tag self distance
  new size address

pub sub : Tag → PageSize → ℕ → ℕ → Outcome ℕ
unfolding new
sub tag size self rhs = do
  distance ← mul_usize rhs (bytes size)
  address ← Addr.sub tag self distance
  new size address

pub distance : Tag → PageSize → ℕ → ℕ → Outcome ℕ
distance tag size self rhs = do
  difference ← Addr.distance tag self rhs
  ok (difference / bytes size)

-- The pages of the halves, by number: the address `Virt::higher_half()` is `2 ^ 64 - half_size`.
abbrev pub higher_half_start_index : PageSize → ℕ
higher_half_start_index size = (2 ^ 64 - half_size) / bytes size

abbrev pub higher_half_end_index : PageSize → ℕ
higher_half_end_index size = (2 ^ 64 - 1) / bytes size + 1

abbrev pub lower_half_start_index : PageSize → ℕ
lower_half_start_index size = 0

abbrev pub lower_half_end_index : PageSize → ℕ
lower_half_end_index size = lower_half_start_index size + half_size / bytes size

-- `non_canonical_range().count()`
abbrev pub non_canonical_count : PageSize → ℕ
non_canonical_count size = higher_half_start_index size - lower_half_end_index size

pub is_higher_half : PageSize → ℕ → Bool
unfolding index
is_higher_half size self = leb (higher_half_start_index size) (index size self)

pub is_lower_half : PageSize → ℕ → Bool
unfolding index
is_lower_half size self = ltb (index size self) (lower_half_end_index size)

-- The `Step` of pages, which jumps over the addresses between the halves.
pub steps_between : PageSize → ℕ → ℕ → Outcome (ℕ × Option ℕ)
unfolding index is_lower_half
steps_between size start end =
    if leb start end
    then (do
      apart ← sub_usize (index size end) (index size start)
      steps ←
          if bool_eq (is_lower_half size start) (is_lower_half size end)
          then ok apart
          else sub_usize apart (non_canonical_count size)
      ok (steps, some steps))
    else ok (0, none)

-- The number of the page `count` pages on, with the jump.
abbrev pub advanced : PageSize → ℕ → ℕ → Option ℕ
advanced size from target =
    if ltb from (lower_half_end_index size) && leb (lower_half_end_index size) target
    then checked_add target (non_canonical_count size)
    else some target

pub forward_checked : PageSize → ℕ → ℕ → Outcome (Option ℕ)
unfolding index
forward_checked size start count = elim (checked_add (index size start) count) [
  | none ↦ ok none
  | some target ↦ elim (advanced size (index size start) target) [
    | none ↦ ok none
    | some number ↦ to_option (from_index virt size number)
  ]
]

abbrev pub retreated : PageSize → ℕ → ℕ → Option ℕ
retreated size from target =
    if ltb target (higher_half_start_index size) && leb (higher_half_start_index size) from
    then checked_sub target (non_canonical_count size)
    else some target

pub backward_checked : PageSize → ℕ → ℕ → Outcome (Option ℕ)
unfolding index
backward_checked size start count = elim (checked_sub (index size start) count) [
  | none ↦ ok none
  | some target ↦ elim (retreated size (index size start) target) [
    | none ↦ ok none
    | some number ↦ do page ← unwrap (from_index virt size number); ok (some page)
  ]
]

abbrev index_or_end : PageSize → Option ℕ → ℕ
index_or_end size none = higher_half_end_index size
index_or_end size (some page) = page / bytes size

pub advance_index : PageSize → ℕ → ℕ → Outcome ℕ
unfolding forward_checked
advance_index size self page_count = do
  page ← forward_checked size self page_count
  ok (index_or_end size page)
