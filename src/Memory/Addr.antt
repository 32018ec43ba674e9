-- ===== src/Memory/Addr.antt =====
-- ku/src/memory/addr.rs: physical and virtual addresses. An address is its `usize`, a number below
-- `2 ^ 64`; `Tag` says of which kind it is. The methods that make pointers and print are left out.
pub mod Ranges
pub mod Arith
pub mod Tables
use nikka.Common.{
  ℕ, zero, suc, ◌+◌, ◌-◌, ◌*◌, ◌/◌, ◌%◌, ◌^◌, Bool, true, false, not, ◌&&◌, ◌||◌, Option, some,
  none, List, [], ◌∷◌, ltb, leb, ◌==◌, if◌then◌else◌, Outcome, ok, err, panic, invalid_argument,
  overflow, invalid_alignment, ◌>>=◌, ◌>>◌, assert, unwrap, ok_or, or_panic, checked_add,
  checked_sub, get_elem?,
}
use Prim.Native.Nat.{bit_or, bit_xor}
use nikka.Common.Bits.{leading_zeros, leading_ones}

-- `PhysTag` and `VirtTag`
pub data Tag : Type 0 where
  phys virt : Tag

-- `Tag::BITS`
abbrev pub bits : Tag → ℕ
bits phys = 52
bits virt = 48

abbrev pub unused_bits : Tag → ℕ
unused_bits tag = 64 - bits tag

-- `Phys::new_impl` and `Virt::new_impl`
unfoldable pub new : Tag → ℕ → Outcome ℕ
new phys addr =
    if leb (unused_bits phys) (leading_zeros addr) then ok addr else err invalid_argument
new virt addr =
    if ltb (unused_bits virt) (leading_zeros addr) || ltb (unused_bits virt) (leading_ones addr)
    then ok addr
    else err invalid_argument

unfoldable pub is_same_half : Tag → ℕ → ℕ → Bool
is_same_half phys x y = true
is_same_half virt x y = bit_xor x y / 2 ^ (bits virt - 1) == 0

-- The closure that `Add` and `Sub` share: the new address must lie in the half of the old one.
abbrev pub within_half : Tag → ℕ → ℕ → Outcome ℕ
within_half tag from addr = if is_same_half tag from addr then ok addr else err overflow

-- `Addr + usize`, `Addr - usize` and `Addr - Addr`
pub add : Tag → ℕ → ℕ → Outcome ℕ
add tag self rhs = do
  sum ← ok_or (checked_add self rhs) overflow
  addr ← new tag sum
  within_half tag self addr

unfoldable pub sub : Tag → ℕ → ℕ → Outcome ℕ
sub tag self rhs = do
  difference ← ok_or (checked_sub self rhs) overflow
  addr ← new tag difference
  within_half tag self addr

pub distance : Tag → ℕ → ℕ → Outcome ℕ
distance tag self rhs =
    if is_same_half tag self rhs then ok_or (checked_sub self rhs) overflow else err overflow

-- `!0 << Virt::BITS`
abbrev pub negative_sign_extend : ℕ
negative_sign_extend = 2 ^ 64 - 2 ^ bits virt

pub canonize : ℕ → ℕ
canonize addr =
    if ltb ((2 ^ 64 - 1 - negative_sign_extend) / 2) addr
    then bit_or addr negative_sign_extend
    else addr

abbrev pub half_size : ℕ
half_size = 2 ^ (bits virt - 1)

-- `Virt::higher_half`: `!0 << (BITS - 1)`
pub higher_half : Outcome ℕ
higher_half = unwrap (new virt (2 ^ 64 - 2 ^ (bits virt - 1)))

pub is_lower_half : ℕ → Bool
is_lower_half addr = addr / 2 ^ bits virt == 0

pub is_higher_half : ℕ → Bool
is_higher_half addr = not (is_lower_half addr)

abbrev pub page_offset_bits : ℕ
page_offset_bits = 12

abbrev pub page_table_index_bits : ℕ
page_table_index_bits = 9

abbrev pub page_table_entry_count : ℕ
page_table_entry_count = 2 ^ page_table_index_bits

abbrev pub page_table_level_count : ℕ
page_table_level_count = 4

-- A shift by 64 bits or more panics.
unfoldable pub page_table_index : ℕ → ℕ → Outcome ℕ
page_table_index addr level =
    let shift = page_offset_bits + level * page_table_index_bits in
    if ltb shift 64 then ok (addr / 2 ^ shift % page_table_entry_count) else panic

pub all_indexes : List ℕ → Bool
all_indexes [] = true
all_indexes (index ∷ indexes) = ltb index page_table_entry_count && all_indexes indexes

-- The loop over the levels, from the root down; `levels` counts those that are left.
pub join_indexes : ℕ → List ℕ → ℕ → Outcome ℕ
join_indexes zero indexes addr = ok addr
join_indexes (suc level) indexes addr = do
  index ← or_panic (get_elem? indexes level)
  join_indexes level indexes (bit_or (addr * 2 ^ page_table_index_bits % 2 ^ 64) index)

-- The array of the source is a list of `page_table_level_count` indexes, the leaf level first.
pub from_page_table_indexes : List ℕ → ℕ → Outcome ℕ
from_page_table_indexes indexes offset = do
  assert (all_indexes indexes)
  assert (ltb offset (2 ^ page_offset_bits))
  addr ← join_indexes page_table_level_count indexes 0
  ok (canonize (bit_or (addr * 2 ^ page_offset_bits % 2 ^ 64) offset))

-- The check of `try_into_ptr` and `try_into_mut_ptr`; the pointer is the address.
pub try_into_ptr : ℕ → ℕ → Outcome ℕ
try_into_ptr align addr = if addr % align == 0 then ok addr else err invalid_alignment
